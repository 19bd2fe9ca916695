-- ===== src/Runtime/Output/Whole.antt =====
-- The write loops of runtime/ on a kernel that always writes something.
use silver_nimbus_otter.Prelude.{
  List, Meets-if, Meets-map, Returns, ap, ap₂, arith, false, fault, get_or, length, ltb, not, ok,
  refl, rejected, stuck, suc, take, take-length, true, zero, ℕ, ◌%◌, ◌++◌, ◌+◌, ◌-◌, ◌<◌, ◌==◌, ◌∙◌,
  ◌∷◌, ◌≡◌, ◌≤◌,
}
use silver_nimbus_otter.Runtime.Memory.{bytes_from}
use silver_nimbus_otter.Bytes.{u32_mod}
use silver_nimbus_otter.Runtime.Output.Progress.{
  write_all-Meets, Sent, write_list-Meets, SentList, sent, IsWrite,
}
use silver_nimbus_otter.Runtime.Output.{write_all, bytes_from, write_list, u32_mod, write_loop}
use silver_nimbus_otter.Runtime.{wrote, is_negative, Event, Run, Machine, Kernel}

-- A write of some bytes neither fails nor writes none.
abbrev pub IsSteady : Kernel → Type 0
IsSteady k =
    (events : List Event) (fd p n : ℕ)
    → 0 < n
    → (0 < k.write events fd p n) × (is_negative (k.write events fd p n) ≡ false)

Returns-both :
    {A : Type 0} (P Q : A → Type 0) (x : Run A)
    → Returns P x
    → Returns Q x
    → Returns (λ a. P a × Q a) x
Returns-both P Q (ok a) h g = (h, g)
Returns-both P Q (rejected e) h g = tt
Returns-both P Q fault h g = h
Returns-both P Q stuck h g = h

write_loop_whole :
    (k : Kernel) (src : ℕ → ℕ) (fuel fd p n done : ℕ) (m : Machine)
    → IsWrite k
    → IsSteady k
    → n < u32_mod
    → done ≤ n
    → n - done < fuel
    → Returns (λ r. r.0 ≡ n) (write_loop k fuel src fd p n done m)
unfolding write_loop
write_loop_whole k src zero fd p n done m w st u le lt = absurd (omega arith)
write_loop_whole k src (suc fuel) fd p n done m w st u le lt =
    let P = λ (r : ℕ × Machine). r.0 ≡ n in
    let r = k.write m.events fd ((p + done) % u32_mod) (n - done) in
    let m' = record m { events = wrote fd (bytes_from src (p + done) r) ∷ m.events } in
    Meets-if ⊥ P (not (ltb done n)) _ _ (λ e. all_done done n e le)
      (λ more.
        let some_left : 0 < n - done = left done n more in
        let (pos, nonneg) = st m.events fd ((p + done) % u32_mod) (n - done) some_left in
        let small : r ≤ n - done = w m.events fd ((p + done) % u32_mod) (n - done) nonneg in
        let ne : (r == 0) ≡ false = ground arith in
        let e : (done + r) % u32_mod ≡ done + r = omega arith in
        rw (ne, nonneg, e)
          (write_loop_whole k src fuel fd p n (done + r) m' w st u (omega arith) (omega arith)))
  where
    all_done : (done n : ℕ) → not (ltb done n) ≡ true → done ≤ n → done ≡ n
    all_done done n e le = ground arith

    left : (done n : ℕ) → not (ltb done n) ≡ false → 0 < n - done
    left done n e = ground arith

-- The bytes have gone to `fd` behind what went there before, and nothing else has happened.
abbrev pub Says : ℕ → List ℕ → Machine → Machine → Type 0
Says fd bs m m' =
    (m' ≡ record m { events = m'.events }) × (sent fd m'.events ≡ sent fd m.events ++ bs)

Says-SentList :
    (fd : ℕ) (bs : List ℕ) (m : Machine) (r : ℕ × Machine)
    → SentList fd bs m r
    → r.0 ≡ length bs
    → Says fd bs m r.1
Says-SentList fd bs m r s e = (
  s.only_events,
  s.output
      ∙ ap (λ (n : ℕ). sent fd m.events ++ take n bs) e
      ∙ ap (λ t. sent fd m.events ++ t) (take-length bs (length bs) refl),
)

pub write_list_whole :
    (k : Kernel) (fd : ℕ) (bs : List ℕ) (m : Machine)
    → IsWrite k
    → IsSteady k
    → length bs < u32_mod
    → Returns (λ r. (r.0 ≡ length bs) × Says fd bs m r.1) (write_list k fd bs m)
unfolding write_list
write_list_whole k fd bs m w st u =
    let src = λ (i : ℕ). get_or bs i 0 in
    Meets-map ⊥ (λ r. SentList fd bs m r × (r.0 ≡ length bs))
      (λ r. (r.0 ≡ length bs) × Says fd bs m r.1) (write_list k fd bs m)
      (Returns-both (SentList fd bs m) (λ r. r.0 ≡ length bs) (write_list k fd bs m)
        (write_list-Meets k fd bs m w u)
        (write_loop_whole k src (suc (length bs)) fd 0 (length bs) 0 m w st u (omega arith)
          (omega arith)))
      λ r _ q. (q.1, Says-SentList fd bs m r q.0 q.1)

-- If every write of some bytes writes at least one and no more than it is asked to, the loop over `n`
-- bytes at an address counts and sends all of them, in order and once.
pub write_all_whole :
    (k : Kernel) (fd p n : ℕ) (m : Machine)
    → IsWrite k
    → IsSteady k
    → n < u32_mod
    → Returns (λ r. (r.0 ≡ n) × Says fd (bytes_from m.bytes p n) m r.1) (write_all k fd p n m)
unfolding write_all
write_all_whole k fd p n m w st u =
    let P = λ (r : ℕ × Machine). (r.0 ≡ n) × Says fd (bytes_from m.bytes p n) m r.1 in
    Meets-map ⊥ (λ r. Sent m.bytes fd p n 0 m r × (r.0 ≡ n)) P (write_all k fd p n m)
      (Returns-both (Sent m.bytes fd p n 0 m) (λ r. r.0 ≡ n) (write_all k fd p n m)
        (write_all-Meets k fd p n m w u)
        (write_loop_whole k m.bytes (suc n) fd p n 0 m w st u (omega arith) (omega arith)))
      λ r _ q.
        let e : p + 0 ≡ p = omega arith in
        let e' : r.0 - 0 ≡ n = omega (arith, q.1) in
        (
          q.1,
          (
            q.0.only_events,
            q.0.output ∙ ap₂ (λ (a b : ℕ). sent fd m.events ++ bytes_from m.bytes a b) e e',
          ),
        )
