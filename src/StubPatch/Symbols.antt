-- ===== src/StubPatch/Symbols.antt =====
-- `shim_find_symbol` of src/stub_patch.c: what it finds stands in a symbol table of the blob, at the
-- places that the ELF format gives.
use silver_nimbus_otter.Prelude.{
  ==_iff, Bool-cases, List, Option, [], ap, ap₂, arith, bind-eq-ok, false, get_or, inl, inr, leb,
  leb→le, length, none, ok, ok-injective, refl, some, subst, suc, sym, true, zero, ℕ, ◌*◌, ◌++◌,
  ◌+◌, ◌/◌, ◌<◌, ◌==◌, ◌∙◌, ◌∷◌, ◌≡◌, ◌≤◌,
}
use silver_nimbus_otter.ShimBlob.{symbols_loop, strcmp_at, read_u8, read_u32, read_u16, or_next}
use silver_nimbus_otter.Bytes.{mem_read, slice, u16_at, u32_at}
use silver_nimbus_otter.ElfSpec.{Convert, ConvertError}

abbrev pub word_at : List ℕ → ℕ → ℕ
word_at blob off = u32_at (slice blob off 4) 0

abbrev pub half_at : List ℕ → ℕ → ℕ
half_at blob off = u16_at (slice blob off 2) 0

-- Symbol `j` of a table has the name, which ends with a NUL in the string table, and the value.
abbrev pub SymbolAt : List ℕ → ℕ → ℕ → List ℕ → ℕ → ℕ → Type 0
SymbolAt blob syms strs name j v =
    (slice blob (strs + word_at blob (syms + j * 16 + 0)) (suc (length name)) ≡ name ++ (0 ∷ []))
    × (v ≡ word_at blob (syms + j * 16 + 4))

-- One of the symbols in the table of section `i`.
abbrev pub InTable : List ℕ → ℕ → List ℕ → ℕ → ℕ → Type 0
InTable blob shoff name i v =
    (word_at blob (shoff + i * 40 + 4) ≡ 2)
    × ((j : ℕ) × (j < word_at blob (shoff + i * 40 + 20) / 16)
        × SymbolAt blob (word_at blob (shoff + i * 40 + 16))
            (word_at blob (shoff + word_at blob (shoff + i * 40 + 24) * 40 + 16)) name j v)

-- A section of type 2 (SHT_SYMTAB) lists a symbol with the name, all of it, and the value. The
-- section headers of 40 bytes stand where the word at 32 tells, and the half-word at 48 counts them.
abbrev pub HasSymbol : List ℕ → List ℕ → ℕ → Type 0
HasSymbol blob name v = (i : ℕ) × (i < half_at blob 48) × InTable blob (word_at blob 32) name i v

mem_read-is_slice :
    (buf : List ℕ) (off n : ℕ) (bs : List ℕ)
    → mem_read {E = ConvertError} buf off n ≡ ok bs
    → (off + n ≤ length buf) × (bs ≡ slice buf off n)
unfolding mem_read
mem_read-is_slice buf off n bs h = elim (Bool-cases (leb (off + n) (length buf))) [
  | inl e ↦ (leb→le _ _ e, sym (ok-injective (rw e at h)))
  | inr e ↦ cc (rw e at h)
]

pub read_u32-word_at : (blob : List ℕ) (off v : ℕ) → read_u32 blob off ≡ ok v → v ≡ word_at blob off
unfolding read_u32
read_u32-word_at blob off v h =
    let (bs, q, e) = bind-eq-ok (mem_read blob off 4) _ h in
    sym (ok-injective e) ∙ ap (λ t. u32_at t 0) (mem_read-is_slice blob off 4 bs q).1

pub read_u16-half_at : (blob : List ℕ) (off v : ℕ) → read_u16 blob off ≡ ok v → v ≡ half_at blob off
unfolding read_u16
read_u16-half_at blob off v h =
    let (bs, q, e) = bind-eq-ok (mem_read blob off 2) _ h in
    sym (ok-injective e) ∙ ap (λ t. u16_at t 0) (mem_read-is_slice blob off 2 bs q).1

slice_first :
    (xs : List ℕ) (off n : ℕ)
    → off + 1 ≤ length xs
    → slice xs off (suc n) ≡ get_or (slice xs off 1) 0 0 ∷ slice xs (off + 1) n
slice_first [] off n h = absurd (omega arith)
slice_first (x ∷ xs) zero n h = refl
slice_first (x ∷ xs) (suc off) n h =
    let e : suc off + 1 ≡ suc (off + 1) = omega arith in
    slice_first xs off n (omega arith)
    ∙ ap (λ k. get_or (slice xs off 1) 0 0 ∷ slice (x ∷ xs) k n) (sym e)

read_u8-first :
    (blob : List ℕ) (off n b : ℕ)
    → read_u8 blob off ≡ ok b
    → slice blob off (suc n) ≡ b ∷ slice blob (off + 1) n
unfolding read_u8
read_u8-first blob off n b h =
    let (bs, q, e) = bind-eq-ok (mem_read blob off 1) _ h in
    let (inside, same) = mem_read-is_slice blob off 1 bs q in
    let first : get_or (slice blob off 1) 0 0 ≡ b =
      ap (λ t. get_or t 0 0) (sym same) ∙ ok-injective e in
    slice_first blob off n inside ∙ ap (λ (t : ℕ). t ∷ slice blob (off + 1) n) first

-- A comparison that succeeds has seen the whole name and its NUL.
strcmp_at-true :
    (blob : List ℕ) (off : ℕ) (name : List ℕ)
    → strcmp_at blob off name ≡ ok true
    → slice blob off (suc (length name)) ≡ name ++ (0 ∷ [])
unfolding strcmp_at
strcmp_at-true blob off [] h =
    let (b, q, e) = bind-eq-ok (read_u8 blob off) _ h in
    let last : b ≡ 0 = (==_iff b 0).0 (ok-injective e) in
    read_u8-first blob off 0 b q ∙ ap (λ (t : ℕ). t ∷ []) last
strcmp_at-true blob off (c ∷ name) h =
    let (b, q, e) = bind-eq-ok (read_u8 blob off) _ h in
    elim (Bool-cases (b == c)) [
      | inl t ↦
          read_u8-first blob off (suc (length name)) b q
          ∙ ap₂ ◌∷◌ ((==_iff b c).0 t) (strcmp_at-true blob (off + 1) name (rw t at e))
      | inr t ↦ let no : ok false ≡ ok true = rw t at e in cc
    ]

-- What stands at an index below a later bound stands below the earlier one.
pub one_later :
    (P : ℕ → Type 0) (i n : ℕ) → (k : ℕ) × (k < i + 1 + n) × P k → (k : ℕ) × (k < i + suc n) × P k
one_later P i n h = (h.0, omega (arith, h.1), h.2)

pub not_found : {v : ℕ} → ◌≡◌ {A = Convert (Option ℕ)} (ok none) (ok (some v)) → ⊥
not_found e = cc

found_value : {a v : ℕ} → ◌≡◌ {A = Convert (Option ℕ)} (ok (some a)) (ok (some v)) → a ≡ v
found_value e = cc

pub symbols_loop-SymbolAt :
    (blob : List ℕ) (syms strs : ℕ) (name : List ℕ) (n j v : ℕ)
    → symbols_loop blob syms strs name n j ≡ ok (some v)
    → (k : ℕ) × (k < j + n) × SymbolAt blob syms strs name k v
unfolding symbols_loop
symbols_loop-SymbolAt blob syms strs name zero j v e = absurd (not_found e)
symbols_loop-SymbolAt blob syms strs name (suc n) j v e =
    let (at, q1, e1) = bind-eq-ok (read_u32 blob (syms + j * 16 + 0)) _ e in
    let (same, q2, e2) = bind-eq-ok (strcmp_at blob (strs + at) name) _ e1 in
    elim (Bool-cases same) [
      | inl t ↦
          let (w, q3, e3) = bind-eq-ok (read_u32 blob (syms + j * 16 + 4)) _ (rw t at e2) in
          let named = strcmp_at-true blob (strs + at) name (q2 ∙ ap (λ b. ok b) t) in
          let place = read_u32-word_at blob (syms + j * 16 + 0) at q1 in
          (
            j,
            omega arith,
            (
              subst (λ (k : ℕ). slice blob (strs + k) (suc (length name)) ≡ name ++ (0 ∷ [])) place
                  named,
              sym (found_value e3) ∙ read_u32-word_at blob (syms + j * 16 + 4) w q3,
            ),
          )
      | inr f ↦
          let (k, less, at_k) =
            symbols_loop-SymbolAt blob syms strs name n (j + 1) v (rw f at e2) in
          (k, omega arith, at_k)
    ]

pub or_next-found :
    (P : ℕ → Type 0) (found : Option ℕ) (next : Convert (Option ℕ)) (v : ℕ)
    → ((w : ℕ) → found ≡ some w → P w)
    → (next ≡ ok (some v) → P v)
    → or_next found next ≡ ok (some v)
    → P v
or_next-found P none next v h k e = k e
or_next-found P (some w) next v h k e = subst P (found_value e) (h w refl)
