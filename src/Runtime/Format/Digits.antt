-- ===== src/Runtime/Format/Digits.antt =====
-- The digits of out_uint in runtime/shim_startup.c, and their reading.
use native.Mathlib.Nat.{pow-suc}
use silver_nimbus_otter.Prelude.{
  &&-eq-true, ==_iff, Bool, Bool-cases, List, [], ap, arith, false, get_or, if◌then◌else◌, inl, inr,
  length, ltb, ok, refl, subst, suc, sym, true, zero, ℕ, ◌%◌, ◌&&◌, ◌*◌, ◌+◌, ◌-◌, ◌/◌, ◌<◌, ◌==◌,
  ◌^◌, ◌∙◌, ◌∷◌, ◌≡◌, ◌≤◌, ◌⊎◌,
}
use silver_nimbus_otter.Runtime.{Run}
use silver_nimbus_otter.Bytes.{u32_mod, text}
use silver_nimbus_otter.Runtime.Format.{Run, u32_mod, text, uint_text, digits_loop, digit}

-- The value of a digit character, in either case.
unfoldable pub digit_value : ℕ → ℕ
digit_value c = if ltb c 58 then c - 48 else if ltb c 97 then c - 55 else c - 87

-- The number that a row of digits shows, behind the digits of `n`.
unfoldable pub read_digits : ℕ → ℕ → List ℕ → ℕ
unfolding digit_value
read_digits base n [] = n
read_digits base n (c ∷ cs) = read_digits base (n * base + digit_value c) cs

-- The characters are the digits with the values from `d` on.
unfoldable in_order : ℕ → List ℕ → Bool
unfolding digit_value
in_order d [] = true
in_order d (c ∷ cs) = digit_value c == d && in_order (d + 1) cs

in_order_at :
    (d : ℕ) (cs : List ℕ) (i : ℕ)
    → in_order d cs ≡ true
    → i < length cs
    → digit_value (get_or cs i 0) ≡ d + i
unfolding in_order
in_order_at d [] i h lt = absurd (omega arith)
in_order_at d (c ∷ cs) zero h lt = omega (arith, (==_iff (digit_value c) d).0 (&&-eq-true _ _ h).0)
in_order_at d (c ∷ cs) (suc i) h lt =
    omega (arith, in_order_at (d + 1) cs i (&&-eq-true _ _ h).1 (omega arith))

digits_in_order :
    (upper : Bool)
    → in_order 0 (text (if upper then "0123456789ABCDEF" else "0123456789abcdef")) ≡ true
unfolding in_order
digits_in_order true = refl
digits_in_order false = refl

sixteen_digits :
    (upper : Bool) → length (text (if upper then "0123456789ABCDEF" else "0123456789abcdef")) ≡ 16
sixteen_digits true = refl
sixteen_digits false = refl

digit_value-digit :
    (upper : Bool) (base v : ℕ) → v % base < 16 → digit_value (digit v base upper) ≡ v % base
digit_value-digit upper base v h =
    in_order_at 0 (text (if upper then "0123456789ABCDEF" else "0123456789abcdef")) (v % base)
      (digits_in_order upper) (omega (arith, sixteen_digits upper))
    ∙ omega arith

-- What a base needs for the loop to end and to be read back.
record IsBase (base : ℕ) : Type 0 where
  halves : (v : ℕ) → v / base ≤ v / 2
  splits : (v : ℕ) → v / base * base + v % base ≡ v
  below : (v : ℕ) → v % base < 16

half_below : (v q room : ℕ) → v < 2 ^ suc room → q ≤ v / 2 → q < 2 ^ room
half_below v q room h le = omega (arith, pow-suc 2 room)

one_digit :
    (v base : ℕ) (upper : Bool) (tmp : List ℕ)
    → IsBase base
    → read_digits base (v / base) (digit v base upper ∷ tmp) ≡ read_digits base v tmp
unfolding read_digits
one_digit v base upper tmp b =
    ap (λ (t : ℕ). read_digits base (v / base * base + t) tmp)
      (digit_value-digit upper base v (b.below v))
    ∙ ap (λ (t : ℕ). read_digits base t tmp) (b.splits v)

digits_loop_reads :
    (room v base : ℕ) (upper : Bool) (tmp : List ℕ)
    → IsBase base
    → v < 2 ^ room
    → (ds : List ℕ) × (digits_loop room v base upper tmp ≡ ok ds)
      × (read_digits base 0 ds ≡ read_digits base v tmp)
unfolding digits_loop
digits_loop_reads zero v base upper tmp b h =
    let e : v ≡ 0 = omega arith in (tmp, rw e refl, rw e refl)
digits_loop_reads (suc room) v base upper tmp b h = elim (Bool-cases (v == 0)) [
  | inl e ↦
      let z : v ≡ 0 = (==_iff v 0).0 e in
      (tmp, rw e refl, ap (λ (t : ℕ). read_digits base t tmp) (sym z))
  | inr e ↦
      let (ds, q, r) =
        digits_loop_reads room (v / base) base upper (digit v base upper ∷ tmp) b
          (half_below v (v / base) room h (b.halves v)) in
      (ds, rw e q, r ∙ one_digit v base upper tmp b)
]

ten : IsBase 10
ten = record { halves = λ v. omega arith; splits = λ v. omega arith; below = λ v. omega arith }

sixteen : IsBase 16
sixteen = record { halves = λ v. omega arith; splits = λ v. omega arith; below = λ v. omega arith }

is_base : (base : ℕ) → (base ≡ 10) ⊎ (base ≡ 16) → IsBase base
is_base base (inl e) = subst IsBase (sym e) ten
is_base base (inr e) = subst IsBase (sym e) sixteen

-- A number's text in an array of the given room.
abbrev text_in : ℕ → ℕ → ℕ → Bool → Run (List ℕ)
text_in room v base upper = if v == 0 then ok (b'0' ∷ []) else digits_loop room v base upper []

text_in_reads :
    (room v base : ℕ) (upper : Bool)
    → IsBase base
    → v < 2 ^ room
    → (ds : List ℕ) × (text_in room v base upper ≡ ok ds) × (read_digits base 0 ds ≡ v)
unfolding read_digits
text_in_reads room v base upper b h = elim (Bool-cases (v == 0)) [
  | inl e ↦ (b'0' ∷ [], rw e refl, omega (arith, (==_iff v 0).0 e))
  | inr e ↦ let (ds, q, r) = digits_loop_reads room v base upper [] b h in (ds, rw e q, r)
]

-- The text of a number, in either base that is used and in either case of the digits, has its end in
-- the local array, and read as digits of that base it is the number again.
pub uint_text_roundtrip :
    (v base : ℕ) (upper : Bool)
    → (base ≡ 10) ⊎ (base ≡ 16)
    → v < u32_mod
    → (ds : List ℕ) × (uint_text v base upper ≡ ok ds) × (read_digits base 0 ds ≡ v)
unfolding uint_text
uint_text_roundtrip v base upper b h = text_in_reads 32 v base upper (is_base base b) (omega arith)
