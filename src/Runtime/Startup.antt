-- ===== src/Runtime/Startup.antt =====
-- runtime/shim_startup.c: the bring-up of the process, the list of exit functions, the environment
-- block and the command line.
pub mod Exits
pub mod Environment
pub mod CommandLine
pub mod Teb
use silver_nimbus_otter.Prelude.{
  List, [], bit_or, if◌then◌else◌, leb, length, ltb, not, ok, rejected, replicate, set, stuck, suc,
  zero, ℕ, ◌%◌, ◌&&◌, ◌*◌, ◌+◌, ◌-◌, ◌/◌, ◌==◌, ◌>>=◌, ◌∷◌, ◌>>◌,
}
use silver_nimbus_otter.Runtime.Memory.{store, store_word, store_bytes}
use silver_nimbus_otter.Runtime.Heap.{heap_alloc}
use silver_nimbus_otter.Runtime.{Run, Machine, Kernel}
use silver_nimbus_otter.Bytes.{u32_mod}

-- What the original program's code does when it is called at an address.
abbrev pub Program : Type 0
Program = ℕ → Machine → Run Machine

unfoldable pub process_exit {ℓ} : {A : Type ℓ} → ℕ → Machine → Run A
process_exit code m = rejected (record { code = code; final = m })

abbrev pub max_atexit : ℕ
max_atexit = 32

unfoldable pub onexit_register : ℕ → Machine → Machine
onexit_register fn m =
    if ltb (length m.atexit_fns) max_atexit then record m { atexit_fns = fn ∷ m.atexit_fns } else m

-- The call of an exit function that has been taken off the list. NULL is passed over.
abbrev pub call_exit_fn : Program → ℕ → Machine → Run Machine
call_exit_fn prog fn m = if fn == 0 then ok m else prog fn m

-- One round, by what is on the list.
abbrev pub exit_round : Program → (Machine → Run Machine) → Machine → List ℕ → Run Machine
exit_round prog next m [] = ok m
exit_round prog next m (fn ∷ fns) = call_exit_fn prog fn (record m { atexit_fns = fns }) >>= next

-- `while (atexit_count > 0)`: a function that is called may register more.
unfoldable pub run_atexit : Program → ℕ → Machine → Run Machine
run_atexit prog zero m = stuck
run_atexit prog (suc fuel) m = exit_round prog (run_atexit prog fuel) m m.atexit_fns

-- `unsigned long total`, with a byte behind every string.
abbrev pub total_length : List (List ℕ) → ℕ
total_length [] = 0
total_length (s ∷ strings) = length s + 1 + total_length strings

-- The strings one after the other, each with its NUL, from `p` on; then the NUL of the block.
unfoldable pub env_loop : Machine → ℕ → List (List ℕ) → Run Machine
unfolding store_bytes store
env_loop m p [] = store m p 0
env_loop m p (s ∷ strings) = do
  m1 ← store_bytes m p s
  m2 ← store m1 (p + length s) 0
  env_loop m2 (p + length s + 1) strings

unfoldable pub env_block : Kernel → Machine → Run (ℕ × Machine)
unfolding env_loop heap_alloc
env_block k m = if not (m.environment == 0) then ok (m.environment, m) else do
  r ← heap_alloc k ((1 + total_length m.envp) % u32_mod) m
  let m1 = record r.1 { environment = r.0 }
  if r.0 == 0 then ok (m.empty_string, m1) else do m2 ← env_loop m1 r.0 m.envp; ok (r.0, m2)

-- The arguments from index `i` on, with a space before all but the first; then the NUL.
unfoldable pub cmdline_loop : Machine → ℕ → ℕ → List (List ℕ) → Run Machine
unfolding store_bytes store
cmdline_loop m p i [] = store m p 0
cmdline_loop m p i (s ∷ args) = do
  m1 ← if ltb 0 i then store m p b' ' else ok m
  let q : ℕ = if ltb 0 i then p + 1 else p
  m2 ← store_bytes m1 q s
  cmdline_loop m2 (q + length s) (i + 1) args

unfoldable pub build_cmdline : Kernel → Machine → Run Machine
unfolding cmdline_loop heap_alloc
build_cmdline k m = do
  r ← heap_alloc k ((1 + total_length m.argv) % u32_mod) m
  let m1 = record r.1 { cmdline = r.0 }
  if r.0 == 0 then ok m1 else cmdline_loop m1 r.0 0 m.argv

-- The fields of the thread environment block that the C runtime reads, and the segment that shows it.
unfoldable pub setup_fake_teb : Kernel → ℕ → Machine → Run Machine
unfolding store_word
setup_fake_teb k stack_top m = do
  m1 ← store_word m m.teb 0xFFFFFFFF
  m2 ← store_word m1 (m.teb + 4) stack_top
  m3 ← store_word m2 (m.teb + 8) (if ltb 0x100000 stack_top then stack_top - 0x100000 else 0)
  m4 ← store_word m3 (m.teb + 0x18) m.teb
  m5 ← store_word m4 (m.teb + 0x2C) 0
  let answer = k.set_thread_area m.teb 0xFFFFFFFF 0x51
  if answer.0 == 0
      then ok (record m5 { fs = (bit_or (answer.1 * 8 % u32_mod) 3) % 65536 })
      else ok m5

abbrev pub shim_iob_count : ℕ
shim_iob_count = 20

abbrev pub no_file : ℕ
no_file = 0xFFFFFFFF

unfoldable pub startup_init : Kernel → ℕ → List (List ℕ) → List (List ℕ) → Machine → Run Machine
unfolding setup_fake_teb build_cmdline
startup_init k stack_top argv envp m = do
  m1 ← setup_fake_teb k stack_top m
  build_cmdline k (record m1 {
    argv = argv;
    envp = envp;
    iob_files = set (set (set (replicate shim_iob_count no_file) 0 0) 1 1) 2 2;
  })

-- `FILE *` to a file descriptor; a stream has 32 bytes.
unfoldable pub iob_to_fd : Machine → ℕ → ℕ
iob_to_fd m stream =
    if leb m.iob stream && ltb stream (m.iob + shim_iob_count * 32)
    then (let idx = (stream - m.iob) / 32 in if idx == 0 then 0 else if idx == 2 then 2 else 1)
    else 1
