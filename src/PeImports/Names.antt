-- ===== src/PeImports/Names.antt =====
-- The strings that the import parser stores fit their arrays, terminator included.
use silver_nimbus_otter.Prelude.{
  Any, Bool, List, Meets, Meets-bind, Meets-if, Option, Option-cases, [], arith, inl, inr, length,
  length-append, none, ok, some, suc, test_bit, zero, ℕ, ◌%◌, ◌+◌, ◌-◌, ◌/◌, ◌<◌, ◌==◌, ◌>>=◌, ◌∷◌,
  ◌≤◌,
}
use silver_nimbus_otter.Bytes.{u32_mod}
use silver_nimbus_otter.Bytes.Laws.{mem_read_ok}
use silver_nimbus_otter.Diagnostics.{Parse, or_reject}
use silver_nimbus_otter.PeFormat.{ordinal_flag_bit, sizeof_import_by_name}
use silver_nimbus_otter.PeImage.{Image, pe_rva_to_ptr}
use silver_nimbus_otter.PeImage.Mapping.{pe_rva_to_ptr_inside}
use silver_nimbus_otter.PeImage.Access.{Meets-read}
use silver_nimbus_otter.PeImports.{
  probe, after_byte, cons_string, read_c_string_loop, read_c_string, decimal, ordinal_name,
  thunk_name,
}

abbrev pub FitsIn : ℕ → Option (List ℕ) → Type 0
FitsIn n none = Unit
FitsIn n (some s) = length s ≤ n

cons_string-FitsIn : (b n : ℕ) (r : Option (List ℕ)) → FitsIn n r → FitsIn (suc n) (cons_string b r)
cons_string-FitsIn b n none h = tt
cons_string-FitsIn b n (some s) h = omega arith

probe-Meets : (S : Type 0) (img : Image) (rva : ℕ) → Meets S Any (probe img rva)
unfolding probe
probe-Meets S img rva = elim (Option-cases (pe_rva_to_ptr img rva 1)) [
  | inl e ↦ rw e tt
  | inr (p, e) ↦ rw (e, mem_read_ok img.raw p 1 (pe_rva_to_ptr_inside img rva 1 p e)) tt
]

after_byte-Meets :
    (S : Type 0) (n : ℕ) (found : Option ℕ) (more : Parse (Option (List ℕ)))
    → Meets S (FitsIn n) more
    → Meets S (FitsIn (suc n)) (after_byte found more)
after_byte-Meets S n none more h = tt
after_byte-Meets S n (some b) more h =
    Meets-if S (FitsIn (suc n)) (b == 0) _ _ (λ _. omega arith)
      (λ _.
        Meets-bind S (FitsIn n) (FitsIn (suc n)) more (λ rest. ok (cons_string b rest)) h
          (λ r _ k. cons_string-FitsIn b n r k))

module _ (S : Type 0) (img : Image) (rva : ℕ) where
  read_c_string_loop-Meets : (i n : ℕ) → Meets S (FitsIn n) (read_c_string_loop img rva i n)
  unfolding read_c_string_loop
  read_c_string_loop-Meets i zero = omega arith
  read_c_string_loop-Meets i (suc n) =
      Meets-bind S Any (FitsIn (suc n)) (probe img ((rva + i) % u32_mod)) _ (probe-Meets S img _)
        (λ found _ _. after_byte-Meets S n found _ (read_c_string_loop-Meets (i + 1) n))

  -- `read_c_string` never reads outside the file, and its result leaves room for the NUL.
  pub read_c_string-Meets : (cap : ℕ) → Meets S (FitsIn (cap - 1)) (read_c_string img rva cap)
  unfolding read_c_string
  read_c_string-Meets cap = read_c_string_loop-Meets 0 (cap - 1)

length-decimal : (k n : ℕ) → length (decimal k n) ≤ k
unfolding decimal
length-decimal zero n = omega arith
length-decimal (suc k) n =
    ground
      (arith, length-append (decimal k (n / 10)) ((48 + n % 10) ∷ []), length-decimal k (n / 10))

pub length-ordinal_name : (n : ℕ) → length (ordinal_name n) ≤ 6
unfolding ordinal_name
length-ordinal_name n = omega (arith, length-decimal 5 n)

abbrev pub NameFits : List ℕ × ℕ × Bool → Type 0
NameFits r = length r.0 < 128

pub or_reject-Meets :
    (S : Type 0) (n : ℕ) (r : Option (List ℕ))
    → FitsIn n r
    → Meets S (λ s. length s ≤ n) (or_reject r)
or_reject-Meets S n none h = tt
or_reject-Meets S n (some s) h = h

-- A bounded string, or a rejection.
pub string-Meets :
    (S : Type 0) (img : Image) (rva cap : ℕ)
    → Meets S (λ s. length s ≤ cap - 1) (read_c_string img rva cap >>= λ found. or_reject found)
string-Meets S img rva cap =
    Meets-bind S (FitsIn (cap - 1)) (λ s. length s ≤ cap - 1) (read_c_string img rva cap)
      (λ found. or_reject found) (read_c_string-Meets S img rva cap)
      (λ r _ h. or_reject-Meets S (cap - 1) r h)

-- The name of any thunk fits the 128 bytes of `pe_import_func_t.name`.
pub thunk_name-Meets :
    (S : Type 0) (img : Image) (thunk : ℕ) → Meets S NameFits (thunk_name img thunk)
unfolding thunk_name
thunk_name-Meets S img thunk =
    Meets-if S NameFits (test_bit thunk ordinal_flag_bit) _ _
      (λ _. omega (arith, length-ordinal_name (thunk % 65536)))
      (λ _. Meets-read S NameFits img thunk sizeof_import_by_name _ λ p e.
        Meets-bind S (FitsIn 127) NameFits
          (read_c_string img ((thunk + sizeof_import_by_name) % u32_mod) 128) _
          (read_c_string-Meets S img _ 128)
          (λ r _ h.
            Meets-bind S (λ s. length s ≤ 127) NameFits (or_reject r) _ (or_reject-Meets S 127 r h)
              (λ s _ k. omega arith)))
