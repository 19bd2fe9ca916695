-- ===== src/PeImports/Directory.antt =====
-- The import directory as a whole: the parse is safe, it ends, and it changes nothing but the
-- imports.
use silver_nimbus_otter.Prelude.{
  All, All-append, Bool-cases, Meets, Meets-bind, Meets-if, Meets-map, Meets-reject_if, Option, [],
  ap, arith, if◌then◌else◌, inl, inr, length, length-append, refl, suc, zero, ℕ, ◌%◌, ◌*◌, ◌++◌,
  ◌+◌, ◌<◌, ◌==◌, ◌∙◌, ◌∷◌, ◌≡◌, ◌≤◌,
}
use silver_nimbus_otter.PeImports.Names.{or_reject-Meets, read_c_string-Meets, FitsIn}
use silver_nimbus_otter.Bytes.Laws.{slice-IsByte, u32_at-lt}
use silver_nimbus_otter.Diagnostics.{err_forwarded_import, or_reject}
use silver_nimbus_otter.PeImage.Access.{Meets-read}
use silver_nimbus_otter.Bytes.{slice, u32_mod, IsU32, IsByte}
use silver_nimbus_otter.PeImports.{
  is_forwarded, empty_dll, thunk_loop, is_terminator, read_c_string, or_reject, ensure_capacity,
  parse_one_dll, parse_imports_dir, imports_loop,
}
use silver_nimbus_otter.PeFormat.{import_descriptor, ImportDescriptor}
use silver_nimbus_otter.PeImage.Walk.{
  Limited-same, Budget-suc, Budget-zero, Budget-start, MayStop, Budget, Limited, Fuel,
}
use silver_nimbus_otter.PeImage.{ImportDll, Image}
use silver_nimbus_otter.Host.{Alloc}
use silver_nimbus_otter.PeImports.Capacity.{grown-Meets, ensure_capacity-Meets, IsCap, HasRoom}
use silver_nimbus_otter.PeImports.Safety.{IsDll, thunk_loop-Meets}

-- The DLLs lie within the array that holds them, and each of them is in order.
pub record IsImports (img : Image) : Type 0 where
  pub in_array : IsCap img.imports_cap (length img.imports)
  pub each : All IsDll img.imports

-- Nothing but the imports differs.
abbrev pub OnlyImports : Image → Image → Type 0
OnlyImports img img' = img' ≡ record img { imports_cap = img'.imports_cap; imports = img'.imports }

abbrev OneMore : Image → Image → Type 0
OneMore img img' =
    IsImports img' × OnlyImports img img' × (length img'.imports ≡ length img.imports + 1)

abbrev pub Parsed : Image → Image → Type 0
Parsed img img' = IsImports img' × OnlyImports img img'

OnlyImports-trans : (a b c : Image) → OnlyImports a b → OnlyImports b c → OnlyImports a c
OnlyImports-trans a b c p q =
    q ∙ ap (λ (r : Image). record r { imports_cap = c.imports_cap; imports = c.imports }) p

push_dll :
    (img : Image) (cap : ℕ) (dll : ImportDll)
    → IsImports img
    → (length img.imports < cap) × IsCap cap (suc (length img.imports))
    → IsDll dll
    → OneMore img (record img { imports_cap = cap; imports = img.imports ++ (dll ∷ []) })
push_dll img cap dll h g k =
    let e = length-append img.imports (dll ∷ []) in
    (
      record {
        in_array = omega arith;
        each = All-append IsDll img.imports (dll ∷ []) h.each (k, tt);
      },
      refl,
      omega arith,
    )

module _ (m : Option ℕ) (alloc : Alloc) (fuel : ℕ) (enough : Fuel m fuel) where
  dll_start :
      (img : Image) (desc : ImportDescriptor)
      → IsU32 desc.original_first_thunk
      → IsU32 desc.first_thunk
      → Budget m
          (if desc.original_first_thunk == 0 then desc.first_thunk else desc.original_first_thunk)
          4
          0
          fuel
  dll_start img desc o f = elim (Bool-cases (desc.original_first_thunk == 0)) [
    | inl e ↦ rw e (Budget-start m _ 4 fuel (omega arith) f enough)
    | inr e ↦ rw e (Budget-start m _ 4 fuel (omega arith) o enough)
  ]

  parse_one_dll-Meets :
      (img : Image) (desc : ImportDescriptor)
      → Limited m img
      → IsImports img
      → length img.imports < 1073741824
      → IsU32 desc.original_first_thunk
      → IsU32 desc.first_thunk
      → Meets (MayStop m) (OneMore img) (parse_one_dll alloc fuel img desc)
  unfolding parse_one_dll
  parse_one_dll-Meets img desc limited h k o f =
      let count = length img.imports in
      Meets-bind (MayStop m) (HasRoom count) (OneMore img)
        (ensure_capacity _ img.imports_cap count _) _
        (ensure_capacity-Meets (MayStop m) _ img.imports_cap count _ h.in_array k)
        (λ r _ q.
          Meets-bind (MayStop m) (λ cap. (count < cap) × IsCap cap (suc count)) (OneMore img)
            (or_reject r) _ (grown-Meets (MayStop m) count r q)
            (λ cap _ g.
              Meets-bind (MayStop m) (FitsIn 63) (OneMore img) (read_c_string img desc.name 64) _
                (read_c_string-Meets (MayStop m) img desc.name 64)
                (λ found _ fits.
                  Meets-bind (MayStop m) (λ s. length s ≤ 63) (OneMore img) (or_reject found) _
                    (or_reject-Meets (MayStop m) 63 found fits)
                    (λ name _ short.
                      Meets-reject_if (MayStop m) (OneMore img) (is_forwarded desc)
                        err_forwarded_import _
                        (λ _.
                          Meets-bind (MayStop m) IsDll (OneMore img)
                            (thunk_loop alloc img _ desc.first_thunk fuel 0 (empty_dll name)) _
                            (thunk_loop-Meets m alloc img limited _ desc.first_thunk fuel 0
                              (empty_dll name) (dll_start img desc o f)
                              (record { in_array = omega arith; short = omega arith; names = tt })
                              refl)
                            (λ dll _ good. push_dll img cap dll h g good))))))

  imports_loop-Meets :
      (dir_rva loops i : ℕ) (img : Image)
      → All IsByte img.raw
      → Limited m img
      → IsImports img
      → length img.imports ≡ i
      → Budget m dir_rva 20 i loops
      → Meets (MayStop m) (Parsed img) (imports_loop alloc fuel dir_rva loops i img)
  unfolding imports_loop import_descriptor
  imports_loop-Meets dir_rva zero i img bytes limited h e b = Budget-zero m dir_rva 20 i b
  imports_loop-Meets dir_rva (suc loops) i img bytes limited h e b =
      Meets-read (MayStop m) (Parsed img) img ((dir_rva + i * 20) % u32_mod) 20 _ λ p q.
        let desc = import_descriptor (slice img.raw p 20) in
        let field = λ (k : ℕ). u32_at-lt (slice img.raw p 20) k (slice-IsByte img.raw p 20 bytes) in
        let (b', small) = Budget-suc m img dir_rva 20 i loops p (omega arith) limited b q in
        Meets-if (MayStop m) (Parsed img) (is_terminator desc) _ _ (λ _. (h, refl))
          (λ _.
            Meets-bind (MayStop m) (OneMore img) (Parsed img) (parse_one_dll alloc fuel img desc) _
              (parse_one_dll-Meets img desc limited h (omega arith) (field 0) (field 16))
              (λ img' _ k.
                Meets-map (MayStop m) (Parsed img') (Parsed img)
                  (imports_loop alloc fuel dir_rva loops (i + 1) img')
                  (imports_loop-Meets dir_rva loops (i + 1) img' (rw k.1 bytes)
                    (Limited-same m img img' (ap (λ (r : Image). r.size_of_headers) k.1)
                      (ap (λ (r : Image). r.sections) k.1) limited)
                    k.0 (omega arith) b')
                  (λ last _ done. (done.0, OnlyImports-trans img img' last k.1 done.1))))

  -- The import parser reads only inside the file, writes only inside its arrays, and returns: from
  -- an image in order, with fuel for every round, the result is in order and differs in nothing but
  -- the imports.
  pub parse_imports_dir-Meets :
      (img : Image) (dir_rva dir_size : ℕ)
      → All IsByte img.raw
      → Limited m img
      → IsImports img
      → length img.imports ≡ 0
      → IsU32 dir_rva
      → Meets (MayStop m) (Parsed img) (parse_imports_dir alloc fuel img dir_rva dir_size)
  unfolding parse_imports_dir
  parse_imports_dir-Meets img dir_rva dir_size bytes limited h e u =
      Meets-if (MayStop m) (Parsed img) (dir_rva == 0) _ _ (λ _. (h, refl))
        (λ _.
          imports_loop-Meets dir_rva fuel 0 img bytes limited h e
            (Budget-start m dir_rva 20 fuel (omega arith) u enough))
