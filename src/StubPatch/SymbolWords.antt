-- ===== src/StubPatch/SymbolWords.antt =====
-- `shim_find_symbol` of src/stub_patch.c: what it finds has 32 bits.
use silver_nimbus_otter.Prelude.{
  All, Bool-cases, List, Option, ap, bind-eq-ok, inl, inr, leb, length, none, not, ok, ok-injective,
  refl, some, subst, suc, zero, ℕ, ◌*◌, ◌+◌, ◌/◌, ◌==◌, ◌∙◌, ◌≡◌,
}
use silver_nimbus_otter.Bytes.{IsByte, IsU32, u32_at, mem_read, slice}
use silver_nimbus_otter.Bytes.Laws.{u32_at-lt, slice-IsByte}
use silver_nimbus_otter.ElfSpec.{Convert}
use silver_nimbus_otter.ShimBlob.{
  sh_link, sh_size, st_value, sh_offset, strcmp_at, sht_symtab, st_name, sh_type, e_shnum,
  sizeof_sym, sizeof_shdr, or_next, e_shoff, symtabs_loop, symbols_loop, shim_find_symbol, read_u32,
}

pub read_u32-IsU32 :
    (blob : List ℕ) (off v : ℕ) → All IsByte blob → read_u32 blob off ≡ ok v → IsU32 v
unfolding read_u32 mem_read
read_u32-IsU32 blob off v h e = elim (Bool-cases (leb (off + 4) (length blob))) [
  | inl t ↦
      let q : u32_at (slice blob off 4) 0 ≡ v = ok-injective (rw t at e) in
      subst IsU32 q (u32_at-lt (slice blob off 4) 0 (slice-IsByte blob off 4 h))
  | inr t ↦ cc (rw t at e)
]

not_found : {v : ℕ} → ◌≡◌ {A = Convert (Option ℕ)} (ok none) (ok (some v)) → ⊥
not_found e = cc

found_value : {a v : ℕ} → ◌≡◌ {A = Convert (Option ℕ)} (ok (some a)) (ok (some v)) → a ≡ v
found_value e = cc

symbols_loop-IsU32 :
    (blob : List ℕ) (syms strs : ℕ) (name : List ℕ) (n j v : ℕ)
    → All IsByte blob
    → symbols_loop blob syms strs name n j ≡ ok (some v)
    → IsU32 v
unfolding symbols_loop
symbols_loop-IsU32 blob syms strs name zero j v h e = absurd (not_found e)
symbols_loop-IsU32 blob syms strs name (suc n) j v h e =
    let (at, q1, e1) = bind-eq-ok (read_u32 blob (syms + j * sizeof_sym + st_name)) _ e in
    let (same, q2, e2) = bind-eq-ok (strcmp_at blob (strs + at) name) _ e1 in
    elim (Bool-cases same) [
      | inl t ↦
          let (w, q3, e3) =
            bind-eq-ok (read_u32 blob (syms + j * sizeof_sym + st_value)) _ (rw t at e2) in
          subst IsU32 (found_value e3) (read_u32-IsU32 blob _ w h q3)
      | inr f ↦ symbols_loop-IsU32 blob syms strs name n (j + 1) v h (rw f at e2)
    ]

or_next-IsU32 :
    (found : Option ℕ) (next : Convert (Option ℕ)) (v : ℕ)
    → ((w : ℕ) → found ≡ some w → IsU32 w)
    → (next ≡ ok (some v) → IsU32 v)
    → or_next found next ≡ ok (some v)
    → IsU32 v
or_next-IsU32 none next v h k e = k e
or_next-IsU32 (some w) next v h k e = subst IsU32 (found_value e) (h w refl)

symtabs_loop-IsU32 :
    (blob : List ℕ) (shoff : ℕ) (name : List ℕ) (n i v : ℕ)
    → All IsByte blob
    → symtabs_loop blob shoff name n i ≡ ok (some v)
    → IsU32 v
unfolding symtabs_loop
symtabs_loop-IsU32 blob shoff name zero i v h e = absurd (not_found e)
symtabs_loop-IsU32 blob shoff name (suc n) i v h e =
    let shdr = shoff + i * sizeof_shdr in
    let next = symtabs_loop blob shoff name n (i + 1) in
    let (kind, q1, e1) = bind-eq-ok (read_u32 blob (shdr + sh_type)) _ e in
    elim (Bool-cases (not (kind == sht_symtab))) [
      | inl t ↦ symtabs_loop-IsU32 blob shoff name n (i + 1) v h (rw t at e1)
      | inr f ↦
          let (syms, q2, e2) = bind-eq-ok (read_u32 blob (shdr + sh_offset)) _ (rw f at e1) in
          let (size, q3, e3) = bind-eq-ok (read_u32 blob (shdr + sh_size)) _ e2 in
          let (link, q4, e4) = bind-eq-ok (read_u32 blob (shdr + sh_link)) _ e3 in
          let (strs, q5, e5) =
            bind-eq-ok (read_u32 blob (shoff + link * sizeof_shdr + sh_offset)) _ e4 in
          let (found, q6, e6) =
            bind-eq-ok (symbols_loop blob syms strs name (size / sizeof_sym) 0) _ e5 in
          or_next-IsU32 found next v
            (λ w s.
              symbols_loop-IsU32 blob syms strs name (size / sizeof_sym) 0 w h
                (q6 ∙ ap (λ o. ok o) s))
            (symtabs_loop-IsU32 blob shoff name n (i + 1) v h) e6
    ]

pub shim_find_symbol-IsU32 :
    (blob name : List ℕ) (v : ℕ)
    → All IsByte blob
    → shim_find_symbol blob name ≡ ok (some v)
    → IsU32 v
unfolding shim_find_symbol
shim_find_symbol-IsU32 blob name v h e =
    let (shoff, q1, e1) = bind-eq-ok (e_shoff blob) _ e in
    let (shnum, q2, e2) = bind-eq-ok (e_shnum blob) _ e1 in
    symtabs_loop-IsU32 blob shoff name shnum 0 v h e2
