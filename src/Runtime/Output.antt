-- ===== src/Runtime/Output.antt =====
-- The loop around write(2), which shim_kernel32.c, shim_msvcrt.c and shim_user32.c each have.
pub mod Progress
pub mod Whole
use silver_nimbus_otter.Prelude.{
  List, get_or, if◌then◌else◌, length, ltb, not, ok, stuck, suc, zero, ℕ, ◌%◌, ◌+◌, ◌-◌, ◌==◌, ◌||◌,
  ◌∷◌,
}
use silver_nimbus_otter.Runtime.Memory.{bytes_from}
use silver_nimbus_otter.Runtime.{is_negative, wrote, Run, Machine, Kernel}
use silver_nimbus_otter.Bytes.{slice, u32_mod}

-- `while (done < n)`: `done` bytes from `p` on have been written; `src` says what stands at an
-- address. Every round writes a byte or more, so a round for each byte and one more are enough.
unfoldable pub write_loop : Kernel → ℕ → (ℕ → ℕ) → ℕ → ℕ → ℕ → ℕ → Machine → Run (ℕ × Machine)
write_loop k zero src fd p n done m = stuck
write_loop k (suc fuel) src fd p n done m =
    let r = k.write m.events fd ((p + done) % u32_mod) (n - done) in
    let m' = record m { events = wrote fd (bytes_from src (p + done) r) ∷ m.events } in
    let next = write_loop k fuel src fd p n ((done + r) % u32_mod) m' in
    if not (ltb done n)
    then ok (done, m)
    else if r == 0 || is_negative r
    then ok (done, m)
    else next

unfoldable pub write_all : Kernel → ℕ → ℕ → ℕ → Machine → Run (ℕ × Machine)
unfolding write_loop
write_all k fd p n m = write_loop k (suc n) m.bytes fd p n 0 m

-- The same for bytes of a local array or a constant of the shim, wherever it stands.
unfoldable pub write_list : Kernel → ℕ → List ℕ → Machine → Run (ℕ × Machine)
unfolding write_loop
write_list k fd bs m = write_loop k (suc (length bs)) (λ i. get_or bs i 0) fd 0 (length bs) 0 m
