-- ===== src/PeImports/Thunks.antt =====
-- `parse_one_dll` of src/pe_imports.c: the functions that a walk over the thunks adds.
use silver_nimbus_otter.Prelude.{
  ==_iff, Bool, Bool-cases, List, [], ap, append-nil, append_assoc, arith, bind-eq-ok, false, inl,
  inr, length, ok, ok-injective, refl, some, subst, suc, sym, test_bit, true, zero, ℕ, ◌%◌, ◌*◌,
  ◌++◌, ◌+◌, ◌==◌, ◌∙◌, ◌∷◌, ◌≡◌,
}
use silver_nimbus_otter.PeImage.Views.{or_reject-eq-ok, read-eq-ok, view_of}
use silver_nimbus_otter.Host.{Alloc}
use silver_nimbus_otter.Bytes.{u32_at, u32_mod, mem_read}
use silver_nimbus_otter.PeFormat.{ordinal_flag_bit}
use silver_nimbus_otter.PeImports.Strings.{read_c_string-IsStringAt}
use silver_nimbus_otter.PeImports.Tables.{FuncsAt, IsFuncAt}
use silver_nimbus_otter.PeImports.{
  ensure_capacity, thunk_loop, add_func, Alloc, read_c_string, mem_read, ordinal_name,
  ordinal_flag_bit, thunk_name,
}
use silver_nimbus_otter.PeImage.{ImportDll, pe_rva_to_ptr, Image, ImportFunc}
use silver_nimbus_otter.Diagnostics.{or_reject}

-- What the parser makes of a thunk, as a function of the slot.
abbrev named : ℕ → List ℕ × ℕ × Bool → ImportFunc
named slot t = record { name = t.0; ordinal = t.1; by_ordinal = t.2; iat_rva = slot }

thunk_name-IsFuncAt :
    (img : Image) (slot thunk : ℕ) (t : List ℕ × ℕ × Bool)
    → thunk_name img thunk ≡ ok t
    → IsFuncAt (view_of img) slot thunk (named slot t)
unfolding thunk_name
thunk_name-IsFuncAt img slot thunk t h = elim (Bool-cases (test_bit thunk ordinal_flag_bit)) [
  | inl e ↦
      let q : (ordinal_name (thunk % 65536), thunk % 65536, true) ≡ t = ok-injective (rw e at h) in
      subst (λ t. IsFuncAt (view_of img) slot thunk (named slot t)) q
        (refl, inl (e, refl, refl, refl))
  | inr e ↦
      let (p, e1, h1) = bind-eq-ok (or_reject (pe_rva_to_ptr img thunk 2)) _ (rw e at h) in
      let (hint, e2, h2) = bind-eq-ok (mem_read img.raw p 2) _ h1 in
      let (found, e3, h3) = bind-eq-ok (read_c_string img ((thunk + 2) % u32_mod) 128) _ h2 in
      let (name, e4, h4) = bind-eq-ok (or_reject found) _ h3 in
      let q : (name, 0, false) ≡ t = ok-injective h4 in
      let s : read_c_string img ((thunk + 2) % u32_mod) 128 ≡ ok (some name) =
        e3 ∙ ap (λ o. ok o) (or_reject-eq-ok found e4) in
      subst (λ t. IsFuncAt (view_of img) slot thunk (named slot t)) q
        (refl, inr (e, refl, refl, read_c_string-IsStringAt img _ 128 name s))
]

-- One function more, in the slot of its index.
add_func-eq-ok :
    (alloc : Alloc) (img : Image) (iat_rva i thunk : ℕ) (dll dll' : ImportDll)
    → add_func alloc img iat_rva i thunk dll ≡ ok dll'
    → (fn : ImportFunc) × (dll'.funcs ≡ dll.funcs ++ (fn ∷ []))
      × (dll'.dll_name ≡ dll.dll_name)
      × IsFuncAt (view_of img) ((iat_rva + i * 4) % u32_mod) thunk fn
unfolding add_func
add_func-eq-ok alloc img iat_rva i thunk dll dll' h =
    let slot = (iat_rva + i * 4) % u32_mod in
    let (grown, e1, h1) = bind-eq-ok (ensure_capacity _ dll.funcs_cap (length dll.funcs) 136) _ h in
    let (room, e2, h2) = bind-eq-ok (or_reject grown) _ h1 in
    let (t, e3, h3) = bind-eq-ok (thunk_name img thunk) _ h2 in
    let q = ok-injective h3 in
    (
      named slot t,
      ap (λ (d : ImportDll). d.funcs) (sym q),
      ap (λ (d : ImportDll). d.dll_name) (sym q),
      thunk_name-IsFuncAt img slot thunk t e3,
    )

pub thunk_loop-FuncsAt :
    (alloc : Alloc) (img : Image) (thunk_rva iat_rva fuel i : ℕ) (dll dll' : ImportDll)
    → thunk_loop alloc img thunk_rva iat_rva fuel i dll ≡ ok dll'
    → (funcs : List ImportFunc) × (dll'.funcs ≡ dll.funcs ++ funcs)
      × (dll'.dll_name ≡ dll.dll_name)
      × FuncsAt (view_of img) thunk_rva iat_rva i funcs
unfolding thunk_loop
thunk_loop-FuncsAt alloc img thunk_rva iat_rva zero i dll dll' h = cc
thunk_loop-FuncsAt alloc img thunk_rva iat_rva (suc fuel) i dll dll' h =
    let (bs, e, k) = read-eq-ok img ((thunk_rva + i * 4) % u32_mod) 4 _ h in
    let thunk = u32_at bs 0 in
    elim (Bool-cases (thunk == 0)) [
      | inl z ↦
          let q : dll ≡ dll' = ok-injective (rw z at k) in
          (
            [],
            ap (λ (d : ImportDll). d.funcs) (sym q) ∙ sym (append-nil dll.funcs),
            ap (λ (d : ImportDll). d.dll_name) (sym q),
            (bs, e, (==_iff thunk 0).0 z),
          )
      | inr nz ↦
          let (dll1, e1, k1) = bind-eq-ok (add_func alloc img iat_rva i thunk dll) _ (rw nz at k) in
          let (fn, funcs1, name1, is_func) = add_func-eq-ok alloc img iat_rva i thunk dll dll1 e1 in
          let (funcs, all, name2, rest) =
            thunk_loop-FuncsAt alloc img thunk_rva iat_rva fuel (i + 1) dll1 dll' k1 in
          (
            fn ∷ funcs,
            all ∙ ap (λ t. t ++ funcs) funcs1 ∙ append_assoc dll.funcs (fn ∷ []) funcs,
            name2 ∙ name1,
            ((thunk, (bs, e, refl), (λ z. absurd (ground arith)), is_func), rest),
          )
    ]
