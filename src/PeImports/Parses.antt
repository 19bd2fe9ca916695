-- ===== src/PeImports/Parses.antt =====
-- src/pe_imports.c: the parser's walks, and what the directory says.
use silver_nimbus_otter.PeImports.Thunks.{thunk_loop-FuncsAt}
use silver_nimbus_otter.Prelude.{
  ==_iff, All, Bool, Bool-cases, List, Meets, Meets-map, Option, [], ap, append-nil, append_assoc,
  arith, bind-eq-ok, false, inl, inr, length, ok, ok-injective, refl, reject_if-eq-ok, some, subst,
  suc, sym, true, zero, ℕ, ◌%◌, ◌*◌, ◌++◌, ◌+◌, ◌==◌, ◌↔◌, ◌∙◌, ◌∷◌, ◌≡◌, ◌≢◌, ◌⊎◌,
}
use silver_nimbus_otter.PeImage.Views.{or_reject-eq-ok, view_of-imports, read-eq-ok, view_of, View}
use silver_nimbus_otter.PeImports.Directory.{parse_imports_dir-Meets, Parsed, IsImports}
use silver_nimbus_otter.PeImage.Walk.{MayStop, Limited, Fuel}
use silver_nimbus_otter.Host.{Alloc}
use silver_nimbus_otter.Bytes.{IsU32, IsByte, u32_mod}
use silver_nimbus_otter.PeFormat.{import_descriptor, ImportDescriptor}
use silver_nimbus_otter.PeImports.Strings.{IsStringAt, read_c_string-IsStringAt}
use silver_nimbus_otter.PeImports.Tables.{names_table, IsTerminator, IsDllAt, FuncsAt, DllsAt}
use silver_nimbus_otter.PeImports.{
  parse_imports_dir, empty_dll, ensure_capacity, is_terminator, is_forwarded, thunk_loop,
  parse_one_dll, imports_loop, Alloc, read_c_string,
}
use silver_nimbus_otter.PeImage.{ImportDll, Image}
use silver_nimbus_otter.Diagnostics.{err_forwarded_import, or_reject}

not_forwarded :
    (desc : ImportDescriptor)
    → is_forwarded desc ≡ false
    → (desc.forwarder_chain ≡ 0) ⊎ (desc.forwarder_chain ≡ 0xFFFFFFFF)
not_forwarded desc h = ground arith

-- One DLL more, behind the ones that were there.
parse_one_dll-IsDllAt :
    (alloc : Alloc) (fuel : ℕ) (img img' : Image) (desc : ImportDescriptor)
    → parse_one_dll alloc fuel img desc ≡ ok img'
    → (dll : ImportDll) × (cap : ℕ) × (img'
        ≡ record img { imports_cap = cap; imports = img.imports ++ (dll ∷ []) })
      × IsDllAt (view_of img) desc dll
unfolding parse_one_dll
parse_one_dll-IsDllAt alloc fuel img img' desc h =
    let (grown, e1, h1) =
      bind-eq-ok (ensure_capacity _ img.imports_cap (length img.imports) 80) _ h in
    let (room, e2, h2) = bind-eq-ok (or_reject grown) _ h1 in
    let (found, e3, h3) = bind-eq-ok (read_c_string img desc.name 64) _ h2 in
    let (name, e4, h4) = bind-eq-ok (or_reject found) _ h3 in
    let (open_ended, h5) = reject_if-eq-ok (is_forwarded desc) err_forwarded_import _ h4 in
    let table = names_table desc in
    let (dll, e6, h6) =
      bind-eq-ok (thunk_loop alloc img table desc.first_thunk fuel 0 (empty_dll name)) _ h5 in
    let (funcs, all, same_name, at) =
      thunk_loop-FuncsAt alloc img table desc.first_thunk fuel 0 (empty_dll name) dll e6 in
    let s : read_c_string img desc.name 64 ≡ ok (some name) =
      e3 ∙ ap (λ o. ok o) (or_reject-eq-ok found e4) in
    (
      dll,
      room,
      sym (ok-injective h6),
      (
        not_forwarded desc open_ended,
        subst (IsStringAt (view_of img) desc.name 63) (sym same_name)
            (read_c_string-IsStringAt img desc.name 64 name s),
        subst (FuncsAt (view_of img) table desc.first_thunk 0) (sym all) at,
      ),
    )

is_terminator_iff : (desc : ImportDescriptor) → (is_terminator desc ≡ true) ↔ IsTerminator desc
is_terminator_iff desc = ground arith

imports_loop-DllsAt :
    (alloc : Alloc) (thunks dir_rva fuel i : ℕ) (img img' : Image)
    → imports_loop alloc thunks dir_rva fuel i img ≡ ok img'
    → (dlls : List ImportDll) × (img'.imports ≡ img.imports ++ dlls)
      × DllsAt (view_of img) dir_rva i dlls
unfolding imports_loop
imports_loop-DllsAt alloc thunks dir_rva zero i img img' h = cc
imports_loop-DllsAt alloc thunks dir_rva (suc fuel) i img img' h =
    let (bs, e, k) = read-eq-ok img ((dir_rva + i * 20) % u32_mod) 20 _ h in
    let desc = import_descriptor bs in
    elim (Bool-cases (is_terminator desc)) [
      | inl z ↦
          let q : img ≡ img' = ok-injective (rw z at k) in
          (
            [],
            ap (λ (r : Image). r.imports) (sym q) ∙ sym (append-nil img.imports),
            (desc, (bs, e, refl), (is_terminator_iff desc).0 z),
          )
      | inr nz ↦
          let (img1, e1, k1) = bind-eq-ok (parse_one_dll alloc thunks img desc) _ (rw nz at k) in
          let (dll, cap1, same, is_dll) = parse_one_dll-IsDllAt alloc thunks img img1 desc e1 in
          let (dlls, all, rest) =
            imports_loop-DllsAt alloc thunks dir_rva fuel (i + 1) img1 img' k1 in
          let still : view_of img1 ≡ view_of img =
            ap view_of same ∙ view_of-imports img cap1 (img.imports ++ (dll ∷ [])) in
          (
            dll ∷ dlls,
            all
                ∙ ap (λ (r : Image). r.imports ++ dlls) same
                ∙ append_assoc img.imports (dll ∷ []) dlls,
            (
              (
                desc,
                (bs, e, refl),
                (λ t. true≢false (sym ((is_terminator_iff desc).1 t) ∙ nz)),
                is_dll,
              ),
              subst (λ view. DllsAt view dir_rva (i + 1) dlls) still rest,
            ),
          )
    ]
  where
    true≢false : ◌≡◌ {A = Bool} true false → ⊥
    true≢false e = cc

-- The imports of a directory: none where there is no directory, and else what it says.
abbrev pub ImportsAt : View → ℕ → List ImportDll → Type 0
ImportsAt view dir_rva dlls =
    ((dir_rva ≡ 0) × (dlls ≡ [])) ⊎ ((dir_rva ≢ 0) × DllsAt view dir_rva 0 dlls)

parse_imports_dir-says :
    (alloc : Alloc) (fuel : ℕ) (img img' : Image) (dir_rva dir_size : ℕ)
    → img.imports ≡ []
    → parse_imports_dir alloc fuel img dir_rva dir_size ≡ ok img'
    → ImportsAt (view_of img) dir_rva img'.imports
unfolding parse_imports_dir
parse_imports_dir-says alloc fuel img img' dir_rva dir_size e h = elim (Bool-cases (dir_rva == 0)) [
  | inl z ↦
      let q : img ≡ img' = ok-injective (rw z at h) in
      inl ((==_iff dir_rva 0).0 z, ap (λ (r : Image). r.imports) (sym q) ∙ e)
  | inr nz ↦
      let (dlls, all, at) = imports_loop-DllsAt alloc fuel dir_rva fuel 0 img img' (rw nz at h) in
      let same : dlls ≡ img'.imports = sym (all ∙ ap (λ t. t ++ dlls) e) in
      inr ((λ z. absurd (ground arith)), subst (DllsAt (view_of img) dir_rva 0) same at)
]

-- From an image in order and without imports, with fuel for every round, the import parser reads
-- only inside the file and writes only inside its arrays; it ends, and then its imports are those
-- that the directory says, in its order, and nothing else has changed.
pub parse_imports_dir-ImportsAt :
    (m : Option ℕ) (alloc : Alloc) (fuel : ℕ)
    → Fuel m fuel
    → (img : Image) (dir_rva dir_size : ℕ) → All IsByte img.raw
    → Limited m img
    → IsImports img
    → img.imports ≡ []
    → IsU32 dir_rva
    → Meets
        (MayStop m)
        (λ img'. Parsed img img' × ImportsAt (view_of img) dir_rva img'.imports)
        (parse_imports_dir alloc fuel img dir_rva dir_size)
parse_imports_dir-ImportsAt m alloc fuel enough img dir_rva dir_size bytes limited is e u =
    Meets-map (MayStop m) (Parsed img)
      (λ img'. Parsed img img' × ImportsAt (view_of img) dir_rva img'.imports)
      (parse_imports_dir alloc fuel img dir_rva dir_size)
      (parse_imports_dir-Meets m alloc fuel enough img dir_rva dir_size bytes limited is
        (ap length e) u)
      λ img' h p. (p, parse_imports_dir-says alloc fuel img img' dir_rva dir_size e h)
