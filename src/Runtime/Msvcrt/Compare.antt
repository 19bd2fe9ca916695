-- ===== src/Runtime/Msvcrt/Compare.antt =====
-- The strings that strncmp of runtime/shim_msvcrt.c compares.
use silver_nimbus_otter.Prelude.{
  ==_iff, All, Bool-cases, List, [], ap, ap₂, arith, false, if◌then◌else◌, inl, inr, ltb, not, ok,
  refl, subst, suc, sym, true, zero, ℕ, ◌+◌, ◌-◌, ◌<◌, ◌==◌, ◌↔◌, ◌∙◌, ◌∷◌, ◌≡◌,
}
use silver_nimbus_otter.Runtime.Memory.{bytes_from}
use silver_nimbus_otter.Runtime.Memory.Ranges.{load_ok, IsMapped}
use silver_nimbus_otter.Runtime.Heap.Realloc.{HoldsBytes}
use silver_nimbus_otter.Runtime.Msvcrt.{strncmp, byte_difference}
use silver_nimbus_otter.Runtime.{Run, Machine}
use silver_nimbus_otter.Bytes.{IsByte, up_to_nul}

-- The word of the int `x - y`, of two bytes.
abbrev pub difference : ℕ → ℕ → ℕ
difference x y = if ltb x y then 4294967296 - (y - x) else x - y

-- Strings are compared by the first place where they differ; the end counts as a NUL.
unfoldable pub order_of : List ℕ → List ℕ → ℕ
order_of [] [] = 0
order_of [] (y ∷ t) = difference 0 y
order_of (x ∷ s) [] = difference x 0
order_of (x ∷ s) (y ∷ t) = let rest = order_of s t in if x == y then rest else difference x y

-- What the loop computes, by its own difference.
walk_order : List ℕ → List ℕ → ℕ
walk_order [] [] = 0
walk_order [] (y ∷ t) = byte_difference 0 y
walk_order (x ∷ s) [] = byte_difference x 0
walk_order (x ∷ s) (y ∷ t) =
    let rest = walk_order s t in if x == y then rest else byte_difference x y

walk_order_step :
    (x y : ℕ) (s t : List ℕ)
    → (if not (x == y)
        then byte_difference x y
        else if x == 0
        then 0
        else walk_order (up_to_nul s) (up_to_nul t))
      ≡ walk_order (up_to_nul (x ∷ s)) (up_to_nul (y ∷ t))
unfolding walk_order up_to_nul
walk_order_step x y s t = elim (Bool-cases (x == 0)) [
  | inl ex ↦ elim (Bool-cases (y == 0)) [
    | inl ey ↦ let same : (x == y) ≡ true = ground arith in rw (same, ex, ey) refl
    | inr ey ↦
        let other : (x == y) ≡ false = ground arith in
        rw (other, ex, ey) (ap (λ (z : ℕ). byte_difference z y) ((==_iff x 0).0 ex))
  ]
  | inr ex ↦ elim (Bool-cases (y == 0)) [
    | inl ey ↦
        let other : (x == y) ≡ false = ground arith in
        rw (other, ex, ey) (ap (λ (z : ℕ). byte_difference x z) ((==_iff y 0).0 ey))
    | inr ey ↦ elim (Bool-cases (x == y)) [
      | inl e ↦ rw (e, ex, ey) (rw e refl)
      | inr e ↦ rw (e, ex, ey) (rw e refl)
    ]
  ]
]

order_none : walk_order (up_to_nul []) (up_to_nul []) ≡ 0
unfolding walk_order up_to_nul
order_none = refl

-- The result of the loop, by the strings.
strncmp_order :
    (m : Machine) (a b n : ℕ)
    → IsMapped m a n
    → IsMapped m b n
    → strncmp m a b n
      ≡ ok (walk_order (up_to_nul (bytes_from m.bytes a n)) (up_to_nul (bytes_from m.bytes b n)))
unfolding strncmp
strncmp_order m a b zero ha hb = ap (λ (v : ℕ). ok v) (sym order_none)
strncmp_order m a b (suc n) ha hb =
    let s = bytes_from m.bytes (a + 1) n in
    let t = bytes_from m.bytes (b + 1) n in
    let rest =
      strncmp_order m (a + 1) (b + 1) n (λ x lo hi. ha x (omega arith) (omega arith))
        (λ x lo hi. hb x (omega arith) (omega arith)) in
    rw
      (
        load_ok m a (ha a (omega arith) (omega arith)),
        load_ok m b (hb b (omega arith) (omega arith)),
        rest,
      )
      (by_cases (m.bytes a) (m.bytes b) (walk_order (up_to_nul s) (up_to_nul t))
        ∙ ap (λ (v : ℕ). ok v) (walk_order_step (m.bytes a) (m.bytes b) s t))
  where
    by_cases :
        (x y r : ℕ)
        → if◌then◌else◌ {A = Run ℕ}
            (not (x == y))
            (ok (byte_difference x y))
            (if◌then◌else◌ {A = Run ℕ} (x == 0) (ok 0) (ok r))
          ≡ ok (if not (x == y) then byte_difference x y else if x == 0 then 0 else r)
    by_cases x y r = elim (Bool-cases (x == y)) [
      | inl e ↦ elim (Bool-cases (x == 0)) [ inl z ↦ rw (e, z) refl | inr z ↦ rw (e, z) refl ]
      | inr e ↦ rw e refl
    ]

-- A character of a string.
abbrev IsChar : ℕ → Type 0
IsChar c = (0 < c) × IsByte c

up_to_nul-IsChar :
    (m : Machine) (a n : ℕ) → HoldsBytes m → All IsChar (up_to_nul (bytes_from m.bytes a n))
unfolding up_to_nul
up_to_nul-IsChar m a zero h = tt
up_to_nul-IsChar m a (suc n) h = elim (Bool-cases (m.bytes a == 0)) [
  | inl e ↦ rw e tt
  | inr e ↦ rw e ((ground arith, h a), up_to_nul-IsChar m (a + 1) n h)
]

byte_difference-difference : (x y : ℕ) → IsByte x → IsByte y → byte_difference x y ≡ difference x y
byte_difference-difference x y h k = ground arith

walk_order-order_of : (s t : List ℕ) → All IsChar s → All IsChar t → walk_order s t ≡ order_of s t
unfolding walk_order order_of
walk_order-order_of [] [] hs ht = refl
walk_order-order_of [] (y ∷ t) hs ht = byte_difference-difference 0 y (omega arith) ht.0.1
walk_order-order_of (x ∷ s) [] hs ht = byte_difference-difference x 0 hs.0.1 (omega arith)
walk_order-order_of (x ∷ s) (y ∷ t) hs ht =
    rw (walk_order-order_of s t hs.1 ht.1, byte_difference-difference x y hs.0.1 ht.0.1) refl

order_of_zero : (s t : List ℕ) → All IsChar s → All IsChar t → order_of s t ≡ 0 → s ≡ t
unfolding order_of
order_of_zero [] [] hs ht e = refl
order_of_zero [] (y ∷ t) hs ht e = absurd (ground (arith, ht.0))
order_of_zero (x ∷ s) [] hs ht e = absurd (ground (arith, hs.0))
order_of_zero (x ∷ s) (y ∷ t) hs ht e = elim (Bool-cases (x == y)) [
  | inl f ↦ ap₂ ◌∷◌ ((==_iff x y).0 f) (order_of_zero s t hs.1 ht.1 (rw f at e))
  | inr f ↦ let d : difference x y ≡ 0 = rw f at e in absurd (ground (arith, hs.0, ht.0))
]

order_of_same : (s : List ℕ) → order_of s s ≡ 0
unfolding order_of
order_of_same [] = refl
order_of_same (x ∷ s) = let e : (x == x) ≡ true = ground arith in rw e (order_of_same s)

-- Where `n` bytes can be read at both addresses, strncmp gives the order of the two strings, of at
-- most `n` characters, that begin there, as bytes without a sign; and it gives 0 exactly when they
-- are the same.
pub strncmp_lem :
    (m : Machine) (a b n : ℕ)
    → IsMapped m a n
    → IsMapped m b n
    → HoldsBytes m
    → (s t : List ℕ) → up_to_nul (bytes_from m.bytes a n) ≡ s
    → up_to_nul (bytes_from m.bytes b n) ≡ t
    → (strncmp m a b n ≡ ok (order_of s t)) × ((order_of s t ≡ 0) ↔ (s ≡ t))
strncmp_lem m a b n ha hb h s t es et = (
  strncmp_order m a b n ha hb
      ∙ ap (λ (v : ℕ). ok v)
          (walk_order-order_of _ _ (up_to_nul-IsChar m a n h) (up_to_nul-IsChar m b n h)
            ∙ ap₂ order_of es et),
  (
    λ e.
        order_of_zero s t (subst (All IsChar) es (up_to_nul-IsChar m a n h))
          (subst (All IsChar) et (up_to_nul-IsChar m b n h)) e,
    λ e. ap (order_of s) (sym e) ∙ order_of_same s,
  ),
)
