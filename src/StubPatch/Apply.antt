-- ===== src/StubPatch/Apply.antt =====
-- The patch as a whole.
use silver_nimbus_otter.Bytes.{text}
use silver_nimbus_otter.Prelude.{
  All, Any, List, Meets-bind, Meets-reject_if, Option, Returns, ap, arith, fault, length, ltb, none,
  not, ok, ok-injective, refl, rejected, some, stuck, subst, ℕ, ◌%◌, ◌+◌, ◌<◌, ◌>>=◌, ◌≡◌, ◌≤◌,
}
use silver_nimbus_otter.StubPatch.Binding.{Rebound, patch_dlls-Meets}
use silver_nimbus_otter.StubPatch.Slots.{all_imports, SlotsApart, IsBound, OnlyBytes}
use silver_nimbus_otter.StubPatch.Segments.{
  Within-more, end_of_segments-le, append_loop-Meets, Appended, Within,
}
use silver_nimbus_otter.Bytes.{text, u32_mod}
use silver_nimbus_otter.ShimBlob.{e_phnum, e_phoff, shim_find_symbol}
use silver_nimbus_otter.Host.{at_shim_copy, Alloc}
use silver_nimbus_otter.ElfWriter.{Buffers}
use silver_nimbus_otter.StubPatch.Blob.{
  IsWordAddress, poke_loop-Meets, read_u16-Meets, read_u32-Meets, phnum_of, phoff_of, IsShim,
  loads_span,
}
use silver_nimbus_otter.StubPatch.{
  append_loop, patch_dlls, shim_min_base, end_of_segments, u32_mod, Patched, shim_find_symbol,
  or_error, Alloc, stub_patch_apply, shim_poke32, required_symbol,
}
use silver_nimbus_otter.PeImage.{Image}
use silver_nimbus_otter.ElfSpec.{
  Convert, no_memory, image_reaches_shim, no_required_symbols, ElfSpec, ConvertError,
}

or_error-Returns :
    {A : Type 0} (P : A → Type 0) (e : ConvertError) (o : Option A)
    → ((a : A) → o ≡ some a → P a)
    → Returns P (or_error e o)
or_error-Returns P e none h = tt
or_error-Returns P e (some a) h = h a refl

required-Meets :
    (P : Option ℕ → Type 0) (blob name : List ℕ)
    → Returns P (shim_find_symbol blob name)
    → Returns (λ v. P (some v)) (required_symbol blob name)
unfolding required_symbol
required-Meets P blob name h =
    Meets-bind ⊥ P (λ v. P (some v)) (shim_find_symbol blob name) _ h
      λ r _ p. or_error-Returns (λ v. P (some v)) no_required_symbols r λ v e. subst P e p

or_error-eq-ok :
    (e : ConvertError) (m : Convert (Option ℕ)) (v : ℕ)
    → (m >>= λ r. or_error e r) ≡ ok v
    → m ≡ ok (some v)
or_error-eq-ok e (ok none) v h = cc
or_error-eq-ok e (ok (some a)) v h = ap (λ t. ok (some t)) (ok-injective h)
or_error-eq-ok e (rejected d) v h = cc
or_error-eq-ok e fault v h = cc
or_error-eq-ok e stuck v h = cc

-- The bytes that the output will point into, as long as those after the patch.
abbrev pub before : Image → List ℕ → Buffers
before img blob = record { raw = img.raw; shim = blob }

abbrev pub loads_of : List ℕ → ℕ
loads_of blob = loads_span blob (phoff_of blob) (phnum_of blob) 0

-- The image keeps all but bytes of the file, where the slots are bound; the shim keeps its length;
-- the entry is the shim's; and the shim's segments follow those of the image.
abbrev pub Stubbed : List ℕ → ℕ → Image → ElfSpec → Patched → Type 0
Stubbed blob limit img spec p =
    OnlyBytes img p.image
    × All (IsBound blob img p.image.raw) (all_imports img.imports)
    × (length p.shim ≡ length blob)
    × (shim_find_symbol blob (text "_start") ≡ ok (some p.spec.entry))
    × Appended (before img blob) (limit + loads_of blob) spec.segments p.spec.segments

shim_poke32-Meets :
    (blob : List ℕ) (vaddr value : ℕ)
    → IsShim blob
    → vaddr + 4 < u32_mod
    → Returns (λ r. length r ≡ length blob) (shim_poke32 blob blob vaddr value)
unfolding shim_poke32
shim_poke32-Meets blob vaddr value h v =
    let P = λ (r : List ℕ). length r ≡ length blob in
    let big = h.has_header in
    Meets-bind ⊥ (λ t. t ≡ phoff_of blob) P (e_phoff blob) _ (read_u32-Meets blob 28 (omega arith))
      λ phoff _ e.
        Meets-bind ⊥ (λ t. t ≡ phnum_of blob) P (e_phnum blob) _ (read_u16-Meets blob (omega arith))
          λ phnum _ f.
            rw (e, f)
              (poke_loop-Meets blob (phoff_of blob) (phnum_of blob) 0 blob vaddr value
                (omega (arith, h.headers)) h.loads refl v)

pub required_symbol-found :
    (blob name : List ℕ) (v : ℕ)
    → required_symbol blob name ≡ ok v
    → shim_find_symbol blob name ≡ ok (some v)
unfolding required_symbol
required_symbol-found blob name v q =
    or_error-eq-ok no_required_symbols (shim_find_symbol blob name) v q

pub stub_patch_apply-Meets :
    (alloc : Alloc) (blob : List ℕ) (img : Image) (spec : ElfSpec) (limit : ℕ)
    → IsShim blob
    → SlotsApart img (all_imports img.imports)
    → 4096 ≤ limit
    → limit + loads_of blob ≤ u32_mod
    → All (Within (before img blob) limit) spec.segments
    → Returns (Stubbed blob limit img spec) (stub_patch_apply alloc blob img spec)
unfolding stub_patch_apply
stub_patch_apply-Meets alloc blob img spec limit h apart k u w =
    let P = Stubbed blob limit img spec in
    let b = before img blob in
    let start = end_of_segments spec.segments in
    let big = h.has_header in
    Meets-reject_if ⊥ P (ltb shim_min_base ((img.image_base + img.size_of_image) % u32_mod))
      image_reaches_shim _
      λ _.
        Meets-bind ⊥ (Rebound blob img) P (patch_dlls blob img.imports img) _
          (patch_dlls-Meets blob img h.tables apart)
          λ patched _ o.
            Meets-reject_if ⊥ P (not (alloc at_shim_copy (length blob))) no_memory _ λ _.
              Meets-bind ⊥ (λ v. v + 4 < u32_mod) P
                (required_symbol blob (text "shim_pe_entry_target")) _
                (required-Meets IsWordAddress blob (text "shim_pe_entry_target") h.entry_target)
                λ target _ t.
                  Meets-bind ⊥ Any P (required_symbol blob (text "_start")) _
                    (required-Meets Any blob (text "_start") h.start)
                    λ entry q _.
                      Meets-bind ⊥ (λ r. length r ≡ length blob) P
                        (shim_poke32 blob blob target
                          ((img.image_base + img.entry_point_rva) % u32_mod))
                        _
                        (shim_poke32-Meets blob target
                          ((img.image_base + img.entry_point_rva) % u32_mod) h t)
                        λ shim _ s.
                          Meets-bind ⊥ (λ t. t ≡ phoff_of blob) P (e_phoff blob) _
                            (read_u32-Meets blob 28 (omega arith))
                            λ phoff _ e.
                              Meets-bind ⊥ (λ t. t ≡ phnum_of blob) P (e_phnum blob) _
                                (read_u16-Meets blob (omega arith))
                                λ phnum _ f.
                                  Meets-bind ⊥ (Appended b (limit + loads_of blob) spec.segments) P
                                    (append_loop blob phoff phnum 0 start spec.segments) _
                                    (rw (e, f)
                                      (append_loop-Meets b (limit + loads_of blob) blob
                                        (phoff_of blob) (phnum_of blob) 0 start spec.segments
                                        (omega (arith, h.headers)) h.loads refl
                                        (omega (
                                          arith,
                                          end_of_segments-le b limit spec.segments (omega arith) k
                                              w,
                                        ))
                                        u
                                        (Within-more b limit (limit + loads_of blob) spec.segments
                                          (omega arith) w)))
                                    λ segs _ a. (
                                      o.0,
                                      o.1,
                                      s,
                                      required_symbol-found blob (text "_start") entry q,
                                      a,
                                    )
