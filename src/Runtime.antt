-- ===== src/Runtime.antt =====
-- runtime/: the freestanding i386 shim that a converted program runs on.
-- The state is the memory of the process with the shim's static variables in it, and what the process
-- has asked of the kernel so far. The kernel is a parameter. Words have 32 bits, and a `long` is the
-- word of its bits; an address is a word.
pub mod Memory
pub mod Heap
pub mod Startup
pub mod Format
pub mod Output
pub mod Kernel32
pub mod Msvcrt
pub mod User32
use silver_nimbus_otter.Prelude.{Bool, List, Outcome, leb, ℕ}

-- What the rest of the system sees, the latest first.
pub data Event : Type 0 where
  wrote : ℕ → List ℕ → Event
  took : ℕ → List ℕ → Event
  opened : ℕ → ℕ → ℕ → Event
  closed : ℕ → Event
  protected : ℕ → ℕ → ℕ → Event
  slept : ℕ → ℕ → Event

-- The system calls: what the kernel answers after the given events. `brk` sees the break and the
-- address asked for; `write`, `read`, `open` and `mprotect` their arguments, and `incoming` are the
-- bytes that a `read` brings. `set_thread_area` answers with a status and the entry that it chose.
pub record Kernel : Type 0 where
  pub brk : ℕ → ℕ → ℕ
  pub write : List Event → ℕ → ℕ → ℕ → ℕ
  pub read : List Event → ℕ → ℕ → ℕ → ℕ
  pub incoming : List Event → ℕ → List ℕ
  pub open_file : List Event → ℕ → ℕ → ℕ → ℕ
  pub mprotect : List Event → ℕ → ℕ → ℕ → ℕ
  pub set_thread_area : ℕ → ℕ → ℕ → ℕ × ℕ

-- `mapped` are the pages of the program and its stack; the heap is what lies from `heap_start` up
-- to the break. `atexit_fns` are the first `atexit_count` elements of the array, the last of them
-- first. NULL is the address 0; `teb`, `iob`, `initenv`, `commode`, `fmode` and `empty_string` are
-- the addresses of g_teb, of shim_iob, of shim_data___initenv, of the two mode variables and of the
-- constant ""; `argv_at` and `envp_at` are those of the arrays that the kernel put on the stack. A
-- C string of the environment or the arguments is its bytes up to the NUL.
pub record Machine : Type 0 where
  pub mapped : ℕ → Bool
  pub heap_start : ℕ
  pub break : ℕ
  pub bytes : ℕ → ℕ
  pub events : List Event
  pub teb : ℕ
  pub fs : ℕ
  pub iob : ℕ
  pub iob_files : List ℕ
  pub initenv : ℕ
  pub commode : ℕ
  pub fmode : ℕ
  pub empty_string : ℕ
  pub heap_next : ℕ
  pub heap_limit : ℕ
  pub atexit_fns : List ℕ
  pub envp : List (List ℕ)
  pub argv : List (List ℕ)
  pub argv_at : ℕ
  pub envp_at : ℕ
  pub environment : ℕ
  pub cmdline : ℕ
  pub last_error : ℕ
  pub tls_values : List ℕ

-- A process that has ended.
pub record Exited : Type 0 where
  pub code : ℕ
  pub final : Machine

-- A function of the shim gives a value, ends the process, or is undefined.
abbrev pub Run {ℓ} : Type ℓ → Type ℓ
Run A = Outcome Exited A

-- The word of a negative `long`.
abbrev pub is_negative : ℕ → Bool
is_negative w = leb 2147483648 w
