-- ===== src/PeImports/Capacity.antt =====
-- The growing arrays: room is there before an element is written, and growth stays in proportion.
use silver_nimbus_otter.Prelude.{Bool, Meets, Option, arith, none, some, suc, ℕ, ◌*◌, ◌+◌, ◌<◌, ◌≤◌}
use silver_nimbus_otter.PeImports.{or_reject, ensure_capacity}

-- An array of `cap` elements that holds `count`.
abbrev pub IsCap : ℕ → ℕ → Type 0
IsCap cap count = (count ≤ cap) × (cap ≤ 2 * count + 8)

abbrev pub HasRoom : ℕ → Option ℕ → Type 0
HasRoom count none = Unit
HasRoom count (some cap) = (count < cap) × IsCap cap (suc count)

-- From an array in proportion, a call that does not fail leaves room for one more element, keeps the
-- proportion, and does not overflow below 2^30 elements.
pub ensure_capacity-Meets :
    (S : Type 0) (room : ℕ → Bool) (cap count elem_size : ℕ)
    → IsCap cap count
    → count < 1073741824
    → Meets S (HasRoom count) (ensure_capacity room cap count elem_size)
unfolding ensure_capacity
ensure_capacity-Meets S room cap count elem_size h k = ground arith

pub grown-Meets :
    (S : Type 0) (count : ℕ) (grown : Option ℕ)
    → HasRoom count grown
    → Meets S (λ cap. (count < cap) × IsCap cap (suc count)) (or_reject grown)
grown-Meets S count none h = tt
grown-Meets S count (some cap) h = h
