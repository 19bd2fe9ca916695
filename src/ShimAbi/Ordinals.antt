-- ===== src/ShimAbi/Ordinals.antt =====
-- Imports by ordinal: which of the names that the import parser makes up are in the table.
use silver_nimbus_otter.Prelude.{
  &&-eq-true, Bool, Bool-cases, List, [], and-false, ap, arith, false, get_or, inl, inr, ltb, none,
  not, refl, suc, sym, tail_eq, true, zero, ℕ, ◌%◌, ◌&&◌, ◌*◌, ◌++◌, ◌+◌, ◌-◌, ◌/◌, ◌<◌, ◌==◌, ◌^◌,
  ◌↔◌, ◌∙◌, ◌∷◌, ◌≡◌, ◌≢◌,
}
use native.Mathlib.Nat.{pow-suc}
use silver_nimbus_otter.Bytes.{text}
use silver_nimbus_otter.PeImports.{decimal, ordinal_name}
use silver_nimbus_otter.ShimAbi.{
  entry, user32_imports, msvcrt_imports, kernel32_imports, str_eq, comctl32_imports, ci_streq,
  ImportEntry, find_entry, shim_lookup_import,
}
use silver_nimbus_otter.ShimAbi.Lookup.{true≢false, IsFor-iff, lower, IsFor}

-- The number that a row of digits shows, after the digits of `acc`.
value : ℕ → List ℕ → ℕ
value acc [] = acc
value acc (d ∷ ds) = value (acc * 10 + (d - 48)) ds

value-append :
    (acc : ℕ) (xs : List ℕ) (d : ℕ) → value acc (xs ++ (d ∷ [])) ≡ value acc xs * 10 + (d - 48)
unfolding value
value-append acc [] d = refl
value-append acc (x ∷ xs) d = value-append (acc * 10 + (x - 48)) xs d

value-decimal : (k n : ℕ) → n < 10 ^ k → value 0 (decimal k n) ≡ n
unfolding decimal value
value-decimal zero n h = omega arith
value-decimal (suc k) n h = elim (Bool-cases (ltb n 10)) [
  | inl e ↦ rw e (omega arith)
  | inr e ↦
      rw (e, value-append 0 (decimal k (n / 10)) (48 + n % 10))
        (omega (arith, value-decimal k (n / 10) (omega (arith, pow-suc 10 k))))
]

-- Different ordinals have different names.
ordinal_name-injective : (a b : ℕ) → a < 65536 → b < 65536 → ordinal_name a ≡ ordinal_name b → a ≡ b
unfolding ordinal_name
ordinal_name-injective a b ha hb e =
    sym (value-decimal 5 a (omega arith))
    ∙ ap (value 0) (tail_eq e)
    ∙ value-decimal 5 b (omega arith)

-- No entry of the list is named like an ordinal.
no_hash : List ImportEntry → Bool
no_hash [] = true
no_hash (e ∷ rest) = not (get_or e.func_name 0 0 == b'#') && no_hash rest

str_eq-hash :
    (name s : List ℕ) → not (get_or name 0 0 == b'#') ≡ true → str_eq name (b'#' ∷ s) ≡ false
unfolding str_eq
str_eq-hash [] s h = refl
str_eq-hash (a ∷ name) s h = ground arith

-- A part of the table without such names is passed over.
find_entry-no_hash :
    (front rest : List ImportEntry) (dll s : List ℕ)
    → no_hash front ≡ true
    → find_entry (front ++ rest) dll (b'#' ∷ s) ≡ find_entry rest dll (b'#' ∷ s)
unfolding find_entry no_hash
find_entry-no_hash [] rest dll s h = refl
find_entry-no_hash (e ∷ front) rest dll s h =
    let (a, b) = &&-eq-true (not (get_or e.func_name 0 0 == b'#')) (no_hash front) h in
    rw (str_eq-hash e.func_name s a, and-false (ci_streq e.dll_name dll))
      (find_entry-no_hash front rest dll s b)

comctl32_only :
    (dll s : List ℕ)
    → shim_lookup_import dll (b'#' ∷ s) ≡ find_entry comctl32_imports dll (b'#' ∷ s)
unfolding shim_lookup_import no_hash
comctl32_only dll s =
    find_entry-no_hash kernel32_imports (msvcrt_imports ++ (user32_imports ++ comctl32_imports)) dll
      s refl
    ∙ find_entry-no_hash msvcrt_imports (user32_imports ++ comctl32_imports) dll s refl
    ∙ find_entry-no_hash user32_imports comctl32_imports dll s refl

find_entry_one :
    (e : ImportEntry) (dll func : List ℕ) → (find_entry (e ∷ []) dll func ≢ none) ↔ IsFor dll func e
unfolding find_entry
find_entry_one e dll func = elim (Bool-cases (ci_streq e.dll_name dll && str_eq e.func_name func)) [
  | inl t ↦ (λ _. (IsFor-iff dll func e).0 t, λ _. rw t (λ q. cc))
  | inr t ↦ (
    λ q. absurd (rw t at q refl),
    λ w. absurd (true≢false (sym ((IsFor-iff dll func e).1 w) ∙ t)),
  )
]

abbrev entry_17 : ImportEntry
entry_17 = entry (text "COMCTL32.dll") (text "#17") (text "shim_InitCommonControls") false

seventeen : ordinal_name 17 ≡ text "#17"
unfolding ordinal_name
seventeen = refl

lookup_17 :
    (dll : List ℕ) (n : ℕ)
    → shim_lookup_import dll (ordinal_name n) ≡ find_entry (entry_17 ∷ []) dll (ordinal_name n)
unfolding ordinal_name comctl32_imports
lookup_17 dll n = comctl32_only dll (decimal 5 n)

-- An import by ordinal is supported exactly if the ordinal is 17 and the DLL is COMCTL32, in any case
-- of letters.
pub shim_lookup_import-ordinal_name :
    (dll : List ℕ) (n : ℕ)
    → n < 65536
    → (shim_lookup_import dll (ordinal_name n) ≢ none)
      ↔ ((n ≡ 17) × (lower dll ≡ text "comctl32.dll"))
shim_lookup_import-ordinal_name dll n h =
    let one = find_entry_one entry_17 dll (ordinal_name n) in
    (
      λ q.
          let w = one.0 (rw (lookup_17 dll n) at q) in
          (ordinal_name-injective n 17 h (omega arith) (sym (seventeen ∙ w.1)), sym w.0),
      λ c. rw (lookup_17 dll n) (one.1 (sym c.1, sym (seventeen) ∙ ap ordinal_name (sym c.0))),
    )
