-- ===== src/StubPatch/Slots.antt =====
-- The binding of the imports: which bytes of the image it changes, and to what.
use silver_nimbus_otter.Prelude.{
  All, Any, Bool-cases, List, Meets-bind, Option, Option-cases, Returns, [], ap, bind-eq-ok, inl,
  inr, length, none, ok, refl, some, subst, sym, ℕ, ◌&&◌, ◌++◌, ◌∙◌, ◌∷◌, ◌≡◌,
}
use silver_nimbus_otter.StubPatch.SymbolTables.{shim_find_symbol-HasSymbol}
use silver_nimbus_otter.StubPatch.Symbols.{HasSymbol}
use silver_nimbus_otter.ShimAbi.Lookup.{find_entry-First, First, some_eq}
use silver_nimbus_otter.StubPatch.Memory.{
  slice-splice, slice-splice_apart, length-splice, splice, mem_write_ok, ClearOf,
}
use silver_nimbus_otter.ElfSpec.{unknown_import, ConvertError}
use silver_nimbus_otter.Bytes.{le32, slice}
use silver_nimbus_otter.StubPatch.{or_error, patch_func, missing_symbol, ConvertError, resolve}
use silver_nimbus_otter.ShimBlob.{shim_find_symbol}
use silver_nimbus_otter.ShimAbi.{
  str_eq, ci_streq, shim_lookup_import, shim_imports, ImportEntry, find_entry,
}
use silver_nimbus_otter.PeImage.{pe_rva_to_ptr, ImportFunc, ImportDll, Image}
use silver_nimbus_otter.PeImage.Mapping.{pe_rva_to_ptr_inside}

-- An import with the name of its DLL.
abbrev pub Import : Type 0
Import = List ℕ × ImportFunc

abbrev pub all_funcs : List ℕ → List ImportFunc → List Import
all_funcs dll_name [] = []
all_funcs dll_name (fn ∷ funcs) = (dll_name, fn) ∷ all_funcs dll_name funcs

abbrev pub all_imports : List ImportDll → List Import
all_imports [] = []
all_imports (dll ∷ dlls) = all_funcs dll.dll_name dll.funcs ++ all_imports dlls

-- The place in the file of an import's slot.
abbrev pub slot_of : Image → Import → Option ℕ
slot_of img x = pe_rva_to_ptr img x.1.iat_rva 4

-- The `n` bytes at `p` are apart from every slot.
abbrev pub ApartFrom : Image → ℕ → ℕ → List Import → Type 0
ApartFrom img p n xs = All (λ x. (q : ℕ) → slot_of img x ≡ some q → ClearOf p n q 4) xs

-- No two slots overlap.
abbrev pub SlotsApart : Image → List Import → Type 0
SlotsApart img [] = Unit
SlotsApart img (x ∷ xs) =
    ((p : ℕ) → slot_of img x ≡ some p → ApartFrom img p 4 xs) × SlotsApart img xs

-- The first entry of the table for the import names a symbol of the blob.
abbrev pub ResolvesTo : List ℕ → List ℕ → List ℕ → ℕ → Type 0
ResolvesTo blob dll func addr =
    (e : ImportEntry) × First dll func shim_imports e × HasSymbol blob e.shim_symbol addr

-- The slot holds the value of that symbol.
abbrev pub IsBound : List ℕ → Image → List ℕ → Import → Type 0
IsBound blob img raw x =
    (addr : ℕ) × (slot : ℕ) × ResolvesTo blob x.0 x.1.name addr
    × (slot_of img x ≡ some slot)
    × (slice raw slot 4 ≡ le32 addr)

-- Only the bytes of the file differ, and their number is the same.
abbrev pub OnlyBytes : Image → Image → Type 0
OnlyBytes img img' = (img' ≡ record img { raw = img'.raw }) × (length img'.raw ≡ length img.raw)

slot_of-OnlyBytes :
    (img img' : Image) (x : Import) → OnlyBytes img img' → slot_of img' x ≡ slot_of img x
unfolding pe_rva_to_ptr
slot_of-OnlyBytes img img' x h = ap (λ r. slot_of r x) h.0 ∙ rw h.1 refl

-- The search for the entry's symbol reads the blob only where it has bytes.
abbrev pub CanSearch : List ℕ → ImportEntry → Type 0
CanSearch blob e = Returns Any (shim_find_symbol blob e.shim_symbol)

-- The symbol tables of the blob can be searched for every symbol that the table of imports names.
abbrev pub HasTables : List ℕ → Type 0
HasTables blob = All (CanSearch blob) shim_imports

find_entry-All :
    (P : ImportEntry → Type 0) (table : List ImportEntry) (dll func : List ℕ) (e : ImportEntry)
    → All P table
    → find_entry table dll func ≡ some e
    → P e
unfolding find_entry
find_entry-All P [] dll func e h q = cc
find_entry-All P (f ∷ table) dll func e h q =
    elim (Bool-cases (ci_streq f.dll_name dll && str_eq f.func_name func)) [
      | inl t ↦ subst P (some_eq (rw t at q)) h.0
      | inr t ↦ find_entry-All P table dll func e h.1 (rw t at q)
    ]

or_error-Meets : (e : ConvertError) (o : Option ℕ) → Returns Any (or_error e o)
or_error-Meets e none = tt
or_error-Meets e (some a) = tt

or_error-eq-ok :
    {A : Type 0} (e : ConvertError) (o : Option A) {a : A} → or_error e o ≡ ok a → o ≡ some a
or_error-eq-ok e none h = cc
or_error-eq-ok e (some b) h = cc

resolve-ResolvesTo :
    (blob dll func : List ℕ) (addr : ℕ)
    → resolve blob dll func ≡ ok addr
    → ResolvesTo blob dll func addr
unfolding resolve shim_lookup_import
resolve-ResolvesTo blob dll func addr h =
    let (e, q1, h1) = bind-eq-ok (or_error unknown_import (shim_lookup_import dll func)) _ h in
    let (found, q2, h2) = bind-eq-ok (shim_find_symbol blob e.shim_symbol) _ h1 in
    (
      e,
      (find_entry-First shim_imports dll func e).0
          (or_error-eq-ok unknown_import (shim_lookup_import dll func) q1),
      shim_find_symbol-HasSymbol blob e.shim_symbol addr
          (q2 ∙ ap (λ o. ok o) (or_error-eq-ok missing_symbol found h2)),
    )

resolve-Meets : (blob dll func : List ℕ) → HasTables blob → Returns Any (resolve blob dll func)
unfolding resolve shim_lookup_import
resolve-Meets blob dll func h = elim (Option-cases (shim_lookup_import dll func)) [
  | inl n ↦ rw n tt
  | inr (e, q) ↦ rw q (
      Meets-bind ⊥ Any Any (shim_find_symbol blob e.shim_symbol) _
        (find_entry-All (CanSearch blob) shim_imports dll func e h q)
        λ found _ _. or_error-Meets missing_symbol found)
]

-- One import is bound, and only its slot changes.
abbrev pub Bound : List ℕ → Image → Import → Image → Image → Type 0
Bound blob img0 x img img' =
    OnlyBytes img0 img'
    × ((p n : ℕ)
        → ((q : ℕ) → slot_of img0 x ≡ some q → ClearOf p n q 4)
        → slice img'.raw p n ≡ slice img.raw p n)
    × IsBound blob img0 img'.raw x

pub patch_func-Meets :
    (blob : List ℕ) (img0 img : Image) (x : Import)
    → HasTables blob
    → OnlyBytes img0 img
    → Returns (Bound blob img0 x img) (patch_func blob x.0 x.1 img)
unfolding patch_func le32
patch_func-Meets blob img0 img x h o =
    let P = Bound blob img0 x img in
    Meets-bind ⊥ Any P (resolve blob x.0 x.1.name) _ (resolve-Meets blob x.0 x.1.name h) λ addr r _.
      elim (Option-cases (slot_of img x)) [
        | inl e ↦ rw e tt
        | inr (slot, e) ↦
            let inside = pe_rva_to_ptr_inside img x.1.iat_rva 4 slot e in
            let e0 : slot_of img0 x ≡ some slot = sym (slot_of-OnlyBytes img0 img x o) ∙ e in
            rw (e, mem_write_ok {E = ConvertError} img.raw slot (le32 addr) inside)
              (
                (
                  ap (λ (t : Image). record t { raw = splice img.raw slot (le32 addr) }) o.0,
                  length-splice img.raw slot (le32 addr) inside ∙ o.1,
                ),
                (λ p n away. slice-splice_apart img.raw slot (le32 addr) p n inside (away slot e0)),
                (
                  addr,
                  slot,
                  resolve-ResolvesTo blob x.0 x.1.name addr r,
                  e0,
                  slice-splice img.raw slot (le32 addr) 4 refl inside,
                ),
              )
      ]
