-- ===== src/PeImports/Safety.antt =====
-- The walks over the import directory and the thunk tables: no read leaves the file, no array is
-- written past its capacity, and every stored string fits.
use silver_nimbus_otter.Prelude.{
  All, All-append, Meets, Meets-bind, Meets-if, Option, [], arith, length, length-append, suc, zero,
  ℕ, ◌%◌, ◌*◌, ◌++◌, ◌+◌, ◌<◌, ◌==◌, ◌∷◌, ◌≡◌,
}
use silver_nimbus_otter.PeImage.Walk.{Budget-suc, Budget-zero, MayStop, Budget, Limited}
use silver_nimbus_otter.PeImports.{thunk_loop, thunk_name, ensure_capacity, add_func}
use silver_nimbus_otter.Bytes.{u32_mod, slice, u32_at}
use silver_nimbus_otter.Diagnostics.{or_reject}
use silver_nimbus_otter.Host.{Alloc}
use silver_nimbus_otter.PeImage.{Image, ImportFunc, ImportDll}
use silver_nimbus_otter.PeImage.Access.{Meets-read}
use silver_nimbus_otter.PeImports.Capacity.{IsCap, HasRoom, ensure_capacity-Meets, grown-Meets}
use silver_nimbus_otter.PeImports.Names.{NameFits, thunk_name-Meets}

abbrev pub ShortName : ImportFunc → Type 0
ShortName fn = length fn.name < 128

-- The functions lie within the array that holds them, and all names within theirs.
pub record IsDll (dll : ImportDll) : Type 0 where
  pub in_array : IsCap dll.funcs_cap (length dll.funcs)
  pub short : length dll.dll_name < 64
  pub names : All ShortName dll.funcs

-- Room for one more element, with the array in proportion.
abbrev Grown : ℕ → ℕ → Type 0
Grown count cap = (count < cap) × IsCap cap (suc count)

abbrev Longer : ImportDll → ImportDll → Type 0
Longer dll dll' = IsDll dll' × (length dll'.funcs ≡ length dll.funcs + 1)

push-IsDll :
    (dll : ImportDll) (cap : ℕ) (fn : ImportFunc)
    → IsDll dll
    → Grown (length dll.funcs) cap
    → ShortName fn
    → Longer dll (record dll { funcs_cap = cap; funcs = dll.funcs ++ (fn ∷ []) })
push-IsDll dll cap fn h g k =
    let e = length-append dll.funcs (fn ∷ []) in
    (
      record {
        in_array = omega arith;
        short = h.short;
        names = All-append ShortName dll.funcs (fn ∷ []) h.names (k, tt);
      },
      omega arith,
    )

module _ (S : Type 0) (alloc : Alloc) (img : Image) (iat_rva : ℕ) where
  add_func-Meets :
      (i thunk : ℕ) (dll : ImportDll)
      → IsDll dll
      → length dll.funcs < 1073741824
      → Meets S (Longer dll) (add_func alloc img iat_rva i thunk dll)
  unfolding add_func
  add_func-Meets i thunk dll h k =
      Meets-bind S (HasRoom (length dll.funcs)) (Longer dll)
        (ensure_capacity _ dll.funcs_cap (length dll.funcs) _) _
        (ensure_capacity-Meets S _ dll.funcs_cap (length dll.funcs) _ h.in_array k)
        (λ r _ q.
          Meets-bind S (Grown (length dll.funcs)) (Longer dll) (or_reject r) _
            (grown-Meets S (length dll.funcs) r q)
            (λ cap _ g.
              Meets-bind S NameFits (Longer dll) (thunk_name img thunk) _
                (thunk_name-Meets S img thunk) (λ t _ fits. push-IsDll dll cap _ h g fits)))

module _ (m : Option ℕ) (alloc : Alloc) (img : Image) (limited : Limited m img) where
  pub thunk_loop-Meets :
      (thunk_rva iat_rva fuel i : ℕ) (dll : ImportDll)
      → Budget m thunk_rva 4 i fuel
      → IsDll dll
      → length dll.funcs ≡ i
      → Meets (MayStop m) IsDll (thunk_loop alloc img thunk_rva iat_rva fuel i dll)
  unfolding thunk_loop
  thunk_loop-Meets thunk_rva iat_rva zero i dll b h e = Budget-zero m thunk_rva 4 i b
  thunk_loop-Meets thunk_rva iat_rva (suc fuel) i dll b h e =
      Meets-read (MayStop m) IsDll img ((thunk_rva + i * 4) % u32_mod) 4 _ λ p q.
        let thunk = u32_at (slice img.raw p 4) 0 in
        let (b', small) = Budget-suc m img thunk_rva 4 i fuel p (omega arith) limited b q in
        Meets-if (MayStop m) IsDll (thunk == 0) _ _ (λ _. h)
          (λ _.
            Meets-bind (MayStop m) (Longer dll) IsDll (add_func alloc img iat_rva i thunk dll) _
              (add_func-Meets (MayStop m) alloc img iat_rva i thunk dll h (omega arith))
              (λ dll' _ k.
                thunk_loop-Meets thunk_rva iat_rva fuel (i + 1) dll' b' k.0 (omega arith)))
