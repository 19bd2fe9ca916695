-- ===== src/Diagnostics.antt =====
-- include/diagnostics.h: why an input is refused. The text of a message is left to the C library's
-- formatting, so an error is its reason.
use silver_nimbus_otter.Prelude.{List, Option, Outcome, length, none, ok, rejected, some, ℕ}

pub data RejectReason : Type 0 where
  err_open : RejectReason
  err_truncated : RejectReason
  err_bad_dos_magic : RejectReason
  err_bad_nt_signature : RejectReason
  err_not_i386 : RejectReason
  err_is_dll : RejectReason
  err_not_executable : RejectReason
  err_pe32plus : RejectReason
  err_bad_opthdr_magic : RejectReason
  err_unsupported_subsystem : RejectReason
  err_has_dotnet : RejectReason
  err_tls_callbacks : RejectReason
  err_delay_imports : RejectReason
  err_forwarded_import : RejectReason
  err_unsupported_dll : RejectReason
  err_unsupported_func : RejectReason
  err_malformed : RejectReason
  err_imagebase_conflict : RejectReason
  err_too_many_sections : RejectReason

-- What a parsing function comes to.
abbrev pub Parse {ℓ} : Type ℓ → Type ℓ
Parse A = Outcome RejectReason A

-- A result of a helper that returned `false` or NULL.
abbrev pub or_reject {ℓ} : {A : Type ℓ} → Option A → Parse A
or_reject none = rejected err_malformed
or_reject (some a) = ok a

-- `message` is the buffer's 256 bytes.
pub record PeError : Type 0 where
  pub reason : RejectReason
  pub message : List ℕ

-- `formatted size old` is what vsnprintf leaves of the format with its arguments in a buffer of that
-- size. Without an error to fill in, which is NULL, nothing is done.
unfoldable pub pe_error_set : (ℕ → List ℕ → List ℕ) → RejectReason → Option PeError → Option PeError
pe_error_set formatted reason none = none
pe_error_set formatted reason (some err) =
    some (record { reason = reason; message = formatted (length err.message) err.message })
