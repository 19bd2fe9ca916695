-- ===== src/StubPatch/SymbolTables.antt =====
-- `shim_find_symbol` of src/stub_patch.c: the search through all the tables.
use silver_nimbus_otter.Prelude.{
  ==_iff, Bool-cases, List, ap, arith, bind-eq-ok, inl, inr, ok, some, subst, suc, sym, zero, ℕ,
  ◌*◌, ◌+◌, ◌/◌, ◌<◌, ◌==◌, ◌∙◌, ◌≡◌,
}
use silver_nimbus_otter.StubPatch.Symbols.{
  one_later, read_u32-word_at, read_u16-half_at, word_at, HasSymbol, InTable, SymbolAt,
  or_next-found, symbols_loop-SymbolAt, not_found,
}
use silver_nimbus_otter.ShimBlob.{
  symbols_loop, read_u32, e_shnum, symtabs_loop, e_shoff, shim_find_symbol,
}

-- One of the tables from section `i` on.
abbrev Listed : List ℕ → ℕ → List ℕ → ℕ → ℕ → ℕ → Type 0
Listed blob shoff name n i v = (k : ℕ) × (k < i + n) × InTable blob shoff name k v

-- A symbol of a table at the places that the section's header gives.
table_symbol :
    (blob : List ℕ) (shoff : ℕ) (name : List ℕ) (i syms size link strs v : ℕ)
    → word_at blob (shoff + i * 40 + 4) ≡ 2
    → syms ≡ word_at blob (shoff + i * 40 + 16)
    → size ≡ word_at blob (shoff + i * 40 + 20)
    → link ≡ word_at blob (shoff + i * 40 + 24)
    → strs ≡ word_at blob (shoff + link * 40 + 16)
    → (j : ℕ) → j < size / 16
    → SymbolAt blob syms strs name j v
    → InTable blob shoff name i v
table_symbol blob shoff name i syms size link strs v kind a b c d j less at =
    let strings = d ∙ ap (λ (t : ℕ). word_at blob (shoff + t * 40 + 16)) c in
    (
      kind,
      (
        j,
        subst (λ (t : ℕ). j < t / 16) b less,
        subst
            (λ (t : ℕ).
              SymbolAt blob t (word_at blob (shoff + word_at blob (shoff + i * 40 + 24) * 40 + 16))
                name j v)
            a (subst (λ (t : ℕ). SymbolAt blob syms t name j v) strings at),
      ),
    )

symtabs_loop-Listed :
    (blob : List ℕ) (shoff : ℕ) (name : List ℕ) (n i v : ℕ)
    → symtabs_loop blob shoff name n i ≡ ok (some v)
    → Listed blob shoff name n i v
unfolding symtabs_loop
symtabs_loop-Listed blob shoff name zero i v e = absurd (not_found e)
symtabs_loop-Listed blob shoff name (suc n) i v e =
    let shdr = shoff + i * 40 in
    let next = symtabs_loop blob shoff name n (i + 1) in
    let later : next ≡ ok (some v) → Listed blob shoff name (suc n) i v = λ q.
      one_later (λ k. InTable blob shoff name k v) i n
        (symtabs_loop-Listed blob shoff name n (i + 1) v q) in
    let (kind, q1, e1) = bind-eq-ok (read_u32 blob (shdr + 4)) _ e in
    elim (Bool-cases (kind == 2)) [
      | inr f ↦ later (rw f at e1)
      | inl t ↦
          let (syms, q2, e2) = bind-eq-ok (read_u32 blob (shdr + 16)) _ (rw t at e1) in
          let (size, q3, e3) = bind-eq-ok (read_u32 blob (shdr + 20)) _ e2 in
          let (link, q4, e4) = bind-eq-ok (read_u32 blob (shdr + 24)) _ e3 in
          let (strs, q5, e5) = bind-eq-ok (read_u32 blob (shoff + link * 40 + 16)) _ e4 in
          let (found, q6, e6) = bind-eq-ok (symbols_loop blob syms strs name (size / 16) 0) _ e5 in
          or_next-found (Listed blob shoff name (suc n) i) found next v
            (λ w s.
              let (j, less, at) =
                symbols_loop-SymbolAt blob syms strs name (size / 16) 0 w (q6 ∙ ap (λ o. ok o) s) in
              (
                i,
                omega arith,
                table_symbol blob shoff name i syms size link strs w
                    (sym (read_u32-word_at blob (shdr + 4) kind q1) ∙ (==_iff kind 2).0 t)
                    (read_u32-word_at blob (shdr + 16) syms q2)
                    (read_u32-word_at blob (shdr + 20) size q3)
                    (read_u32-word_at blob (shdr + 24) link q4)
                    (read_u32-word_at blob (shoff + link * 40 + 16) strs q5) j (omega arith) at,
              ))
            later e6
    ]

-- What the search finds is a symbol of the blob with all of the name, and its value.
pub shim_find_symbol-HasSymbol :
    (blob name : List ℕ) (v : ℕ) → shim_find_symbol blob name ≡ ok (some v) → HasSymbol blob name v
unfolding shim_find_symbol
shim_find_symbol-HasSymbol blob name v e =
    let (shoff, q1, e1) = bind-eq-ok (e_shoff blob) _ e in
    let (shnum, q2, e2) = bind-eq-ok (e_shnum blob) _ e1 in
    let (k, less, at) = symtabs_loop-Listed blob shoff name shnum 0 v e2 in
    (
      k,
      subst (λ (t : ℕ). k < t) (read_u16-half_at blob 48 shnum q2) (omega arith),
      subst (λ (t : ℕ). InTable blob t name k v) (read_u32-word_at blob 32 shoff q1) at,
    )
