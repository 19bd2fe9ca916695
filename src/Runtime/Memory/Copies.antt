-- ===== src/Runtime/Memory/Copies.antt =====
-- Forward copies, of the loops in runtime/.
use silver_nimbus_otter.Prelude.{
  Meets-map, Returns, ap, arith, inl, inr, refl, suc, zero, ℕ, ◌%◌, ◌+◌, ◌<◌, ◌∙◌, ◌≡◌, ◌≢◌, ◌≤◌,
  ◌⊎◌,
}
use silver_nimbus_otter.Runtime.Memory.Ranges.{store_ok, load_ok, IsMapped}
use silver_nimbus_otter.Runtime.Memory.{set_byte, copy_bytes}
use silver_nimbus_otter.Runtime.{Machine}

-- Only the `n` bytes at `d` have changed. A byte of the source is copied as it was before if it lies
-- in front of the target or behind it.
pub record Copied (m : Machine) (d s n : ℕ) (m' : Machine) : Type 0 where
  pub only_bytes : m' ≡ record m { bytes = m'.bytes }
  pub outside : (x : ℕ) → (x < d) ⊎ (d + n ≤ x) → m'.bytes x ≡ m.bytes x
  pub inside :
      (i : ℕ) → i < n → (s + i < d) ⊎ (d + n ≤ s + i) → m'.bytes (d + i) ≡ m.bytes (s + i) % 256

set_byte_same : (f : ℕ → ℕ) (a v : ℕ) → set_byte f a v a ≡ v
set_byte_same f a v = ground arith

set_byte_other : (f : ℕ → ℕ) (a v x : ℕ) → x ≢ a → set_byte f a v x ≡ f x
set_byte_other f a v x h = ground arith

-- The first byte copied, by the copy of the rest.
abbrev first : Machine → ℕ → ℕ → Machine
first m d s = record m { bytes = set_byte m.bytes d (m.bytes s % 256) }

Copied-inside :
    (m : Machine) (d s n : ℕ) (m' : Machine)
    → Copied (first m d s) (d + 1) (s + 1) n m'
    → (i : ℕ) → i < suc n
    → (s + i < d) ⊎ (d + suc n ≤ s + i)
    → m'.bytes (d + i) ≡ m.bytes (s + i) % 256
Copied-inside m d s n m' c zero h k =
    let e : d + 0 ≡ d = omega arith in
    let e' : s ≡ s + 0 = omega arith in
    ap m'.bytes e
    ∙ c.outside d (inl (omega arith))
    ∙ set_byte_same m.bytes d (m.bytes s % 256)
    ∙ ap (λ (t : ℕ). m.bytes t % 256) e'
Copied-inside m d s n m' c (suc i) h (inl k) =
    let e : d + suc i ≡ d + 1 + i = omega arith in
    let e' : s + 1 + i ≡ s + suc i = omega arith in
    ap m'.bytes e
    ∙ c.inside i (omega arith) (inl (omega arith))
    ∙ ap (λ (t : ℕ). t % 256)
        (set_byte_other m.bytes d (m.bytes s % 256) (s + 1 + i) (λ e. omega arith))
    ∙ ap (λ (t : ℕ). m.bytes t % 256) e'
Copied-inside m d s n m' c (suc i) h (inr k) =
    let e : d + suc i ≡ d + 1 + i = omega arith in
    let e' : s + 1 + i ≡ s + suc i = omega arith in
    ap m'.bytes e
    ∙ c.inside i (omega arith) (inr (omega arith))
    ∙ ap (λ (t : ℕ). t % 256)
        (set_byte_other m.bytes d (m.bytes s % 256) (s + 1 + i) (λ e. omega arith))
    ∙ ap (λ (t : ℕ). m.bytes t % 256) e'

Copied-outside :
    (m : Machine) (d s n : ℕ) (m' : Machine)
    → Copied (first m d s) (d + 1) (s + 1) n m'
    → (x : ℕ) → (x < d) ⊎ (d + suc n ≤ x)
    → m'.bytes x ≡ m.bytes x
Copied-outside m d s n m' c x (inl h) = c.outside x (inl (omega arith)) ∙ ground arith
Copied-outside m d s n m' c x (inr h) = c.outside x (inr (omega arith)) ∙ ground arith

one_more :
    (m : Machine) (d s n : ℕ) (m' : Machine)
    → Copied (first m d s) (d + 1) (s + 1) n m'
    → Copied m d s (suc n) m'
one_more m d s n m' c = record {
  only_bytes = c.only_bytes;
  outside = Copied-outside m d s n m' c;
  inside = Copied-inside m d s n m' c;
}

pub copy_bytes-Meets :
    (m : Machine) (d s n : ℕ)
    → IsMapped m d n
    → IsMapped m s n
    → Returns (Copied m d s n) (copy_bytes m d s n)
unfolding copy_bytes
copy_bytes-Meets m d s zero hd hs = record {
  only_bytes = refl;
  outside = λ x h. refl;
  inside = λ i h k. absurd (omega arith);
}
copy_bytes-Meets m d s (suc n) hd hs =
    let one = record m { bytes = set_byte m.bytes d (m.bytes s % 256) } in
    rw
      (
        load_ok m s (hs s (omega arith) (omega arith)),
        store_ok m d (m.bytes s) (hd d (omega arith) (omega arith)),
      )
      (Meets-map ⊥ (Copied one (d + 1) (s + 1) n) (Copied m d s (suc n))
        (copy_bytes one (d + 1) (s + 1) n)
        (copy_bytes-Meets one (d + 1) (s + 1) n (λ x lo hi. hd x (omega arith) (omega arith))
          (λ x lo hi. hs x (omega arith) (omega arith)))
        λ m' _ c. one_more m d s n m' c)
