-- ===== src/PeTls/Callbacks.antt =====
-- The walk over the TLS callbacks ends on every input.
use silver_nimbus_otter.Prelude.{
  List, Meets-bind, Meets-if, Meets-reject_if, Returns, [], arith, leb, leb→gt, length,
  length-append, ltb, refl, suc, zero, ℕ, ◌%◌, ◌*◌, ◌++◌, ◌+◌, ◌-◌, ◌==◌, ◌||◌, ◌∷◌, ◌≡◌, ◌≤◌,
}
use silver_nimbus_otter.Diagnostics.{err_malformed}
use silver_nimbus_otter.PeFormat.{tls_directory}
use silver_nimbus_otter.PeTls.{
  err_malformed, tls_directory, max_tls_callbacks, parse_tls_dir, callbacks_loop,
}
use silver_nimbus_otter.PeImage.{Image}
use silver_nimbus_otter.Bytes.{u32_mod, slice, u32_at}
use silver_nimbus_otter.PeImage.Access.{Meets-read}

-- At most `PE_MAX_TLS_CALLBACKS` elements are written.
callbacks_loop-Meets :
    (img : Image) (arr_rva fuel i : ℕ) (rvas : List ℕ)
    → length rvas ≤ max_tls_callbacks
    → 17 ≤ length rvas + fuel
    → Returns (λ r. length r ≤ max_tls_callbacks) (callbacks_loop img arr_rva fuel i rvas)
unfolding callbacks_loop
callbacks_loop-Meets img arr_rva zero i rvas h k = absurd (omega arith)
callbacks_loop-Meets img arr_rva (suc fuel) i rvas h k =
    Meets-read ⊥ (λ r. length r ≤ max_tls_callbacks) img ((arr_rva + i * 4) % u32_mod) 4 _
      λ p e.
        let cb_va = u32_at (slice img.raw p 4) 0 in
        let rva = cb_va - img.image_base in
        Meets-if ⊥ (λ r. length r ≤ max_tls_callbacks) (cb_va == 0) _ _ (λ _. h)
          (λ _.
            Meets-reject_if ⊥ (λ r. length r ≤ max_tls_callbacks) (ltb cb_va img.image_base)
              err_malformed _
              (λ _.
                Meets-reject_if ⊥ (λ r. length r ≤ max_tls_callbacks)
                  (leb max_tls_callbacks (length rvas)) err_malformed _
                  (λ more.
                    let room = leb→gt _ _ more in
                    let grown = length-append rvas (rva ∷ []) in
                    callbacks_loop-Meets img arr_rva fuel (i + 1) (rvas ++ (rva ∷ []))
                      (omega (arith, room, grown)) (omega (arith, grown)))))

-- Nothing but what is known of thread-local storage differs, and the callbacks fit their array.
abbrev pub TlsParsed : Image → Image → Type 0
TlsParsed img img' =
    (length img'.tls_callback_rvas ≤ max_tls_callbacks)
    × (img' ≡ record img {
      has_tls = img'.has_tls;
      tls_has_callbacks = img'.tls_has_callbacks;
      tls_callback_rvas = img'.tls_callback_rvas;
    })

-- On any image whose callback array is empty the TLS parser returns without undefined behaviour, and
-- an image that it accepts has at most sixteen callbacks and differs in nothing else.
pub parse_tls_dir-Meets :
    (img : Image) (dir_rva dir_size : ℕ)
    → length img.tls_callback_rvas ≡ 0
    → Returns (TlsParsed img) (parse_tls_dir img dir_rva dir_size)
unfolding parse_tls_dir
parse_tls_dir-Meets img dir_rva dir_size h =
    Meets-if ⊥ (TlsParsed img) (dir_rva == 0 || dir_size == 0) _ _ (λ _. (omega arith, refl))
      (λ _. Meets-read ⊥ (TlsParsed img) img dir_rva 24 _ λ p e.
        let va = (tls_directory (slice img.raw p 24)).address_of_callbacks in
        Meets-if ⊥ (TlsParsed img) (va == 0) _ _ (λ _. (omega arith, refl))
          (λ _. Meets-reject_if ⊥ (TlsParsed img) (ltb va img.image_base) err_malformed _ (λ _.
            Meets-bind ⊥ (λ r. length r ≤ max_tls_callbacks) (TlsParsed img)
              (callbacks_loop img (va - img.image_base) 17 0 img.tls_callback_rvas) _
              (callbacks_loop-Meets img _ 17 0 img.tls_callback_rvas (omega arith) (omega arith))
              (λ r _ k. (k, refl)))))
