-- ===== src/StubPatch/Joined.antt =====
-- `stub_patch_apply` of src/stub_patch.c: the shim of the output, its segments and its entry.
use silver_nimbus_otter.Prelude.{
  List, ap, bind-eq-ok, length, ltb, map, not, ok, ok-injective, reject_if-eq-ok, subst, ℕ, ◌%◌,
  ◌++◌, ◌+◌, ◌∙◌, ◌≡◌,
}
use silver_nimbus_otter.Bytes.{u32_mod, text}
use silver_nimbus_otter.PeImage.{Image}
use silver_nimbus_otter.ElfWriter.{Buffers}
use silver_nimbus_otter.Host.{at_shim_copy, Alloc}
use silver_nimbus_otter.ElfSpec.{no_memory, image_reaches_shim, Segment, ElfSpec}
use silver_nimbus_otter.ElfWriter.Loading.{mapped}
use silver_nimbus_otter.StubPatch.{
  end_of_segments, patch_dlls, shim_min_base, text, e_phnum, append_loop, e_phoff, Image,
  shim_poke32, required_symbol, ElfSpec, Alloc, Patched, stub_patch_apply,
}
use silver_nimbus_otter.StubPatch.Shown.{pieces_from, shim_pieces, append_loop-pieces}
use silver_nimbus_otter.StubPatch.Entered.{IsEntered, poke_loop-Stored, Stored}
use silver_nimbus_otter.StubPatch.Apply.{required_symbol-found}
use silver_nimbus_otter.StubPatch.SymbolTables.{shim_find_symbol-HasSymbol}
use silver_nimbus_otter.StubPatch.Symbols.{
  HasSymbol, word_at, half_at, read_u32-word_at, read_u16-half_at,
}

required_symbol-HasSymbol :
    (blob name : List ℕ) (v : ℕ) → required_symbol blob name ≡ ok v → HasSymbol blob name v
required_symbol-HasSymbol blob name v q =
    shim_find_symbol-HasSymbol blob name v (required_symbol-found blob name v q)

shim_poke32-Stored :
    (blob : List ℕ) (vaddr value : ℕ) (r : List ℕ)
    → shim_poke32 blob blob vaddr value ≡ ok r
    → Stored blob (word_at blob 28) (half_at blob 44) 0 blob vaddr value r
unfolding shim_poke32
shim_poke32-Stored blob vaddr value r e =
    let (phoff, q1, e1) = bind-eq-ok (e_phoff blob) _ e in
    let (phnum, q2, e2) = bind-eq-ok (e_phnum blob) _ e1 in
    subst (λ (t : ℕ). Stored blob t (half_at blob 44) 0 blob vaddr value r)
      (read_u32-word_at blob 28 phoff q1)
      (subst (λ (t : ℕ). Stored blob phoff t 0 blob vaddr value r)
        (read_u16-half_at blob 44 phnum q2)
        (poke_loop-Stored blob phoff phnum 0 blob vaddr value r e2))

-- The shim's pieces follow those of the image.
abbrev pub IsJoined : List ℕ → ElfSpec → Patched → Type 0
IsJoined blob spec p =
    (b : Buffers)
    → map (mapped b) p.spec.segments ≡ map (mapped b) spec.segments ++ shim_pieces blob b.shim

appended-IsJoined :
    (blob : List ℕ) (spec : ElfSpec) (phoff phnum next : ℕ) (segs : List Segment) (b : Buffers)
    → phoff ≡ word_at blob 28
    → phnum ≡ half_at blob 44
    → append_loop blob phoff phnum 0 next spec.segments ≡ ok segs
    → map (mapped b) segs ≡ map (mapped b) spec.segments ++ shim_pieces blob b.shim
appended-IsJoined blob spec phoff phnum next segs b p q e =
    append_loop-pieces blob b phoff phnum 0 next spec.segments segs e
    ∙ ap (λ (t : ℕ). map (mapped b) spec.segments ++ pieces_from blob b.shim t phnum 0) p
    ∙ ap (λ (t : ℕ). map (mapped b) spec.segments ++ pieces_from blob b.shim (word_at blob 28) t 0)
        q

-- A patched output starts at the symbol `_start`, its shim is the blob with the address of the
-- program's entry stored in it, and its segments are those of the image and then the blob's.
pub stub_patch_apply-IsJoined :
    (alloc : Alloc) (blob : List ℕ) (img : Image) (spec : ElfSpec) (p : Patched)
    → stub_patch_apply alloc blob img spec ≡ ok p
    → HasSymbol blob (text "_start") p.spec.entry
      × IsEntered blob ((img.image_base + img.entry_point_rva) % u32_mod) p.shim
      × IsJoined blob spec p
unfolding stub_patch_apply
stub_patch_apply-IsJoined alloc blob img spec p e =
    let va = (img.image_base + img.entry_point_rva) % u32_mod in
    let reaches = ltb shim_min_base ((img.image_base + img.size_of_image) % u32_mod) in
    let (_, e1) = reject_if-eq-ok reaches image_reaches_shim _ e in
    let (patched, q2, e2) = bind-eq-ok (patch_dlls blob img.imports img) _ e1 in
    let (_, e3) = reject_if-eq-ok (not (alloc at_shim_copy (length blob))) no_memory _ e2 in
    let (target, q4, e4) = bind-eq-ok (required_symbol blob (text "shim_pe_entry_target")) _ e3 in
    let (start, q5, e5) = bind-eq-ok (required_symbol blob (text "_start")) _ e4 in
    let (shim, q6, e6) = bind-eq-ok (shim_poke32 blob blob target va) _ e5 in
    let (phoff, q7, e7) = bind-eq-ok (e_phoff blob) _ e6 in
    let (phnum, q8, e8) = bind-eq-ok (e_phnum blob) _ e7 in
    let next = end_of_segments spec.segments in
    let (segs, q9, e9) = bind-eq-ok (append_loop blob phoff phnum 0 next spec.segments) _ e8 in
    let P = λ (t : Patched).
      HasSymbol blob (text "_start") t.spec.entry
      × IsEntered blob va t.shim
      × IsJoined blob spec t in
    subst P (ok-injective e9) (
      required_symbol-HasSymbol blob (text "_start") start q5,
      (
        target,
        required_symbol-HasSymbol blob (text "shim_pe_entry_target") target q4,
        shim_poke32-Stored blob target va shim q6,
      ),
      λ b.
          appended-IsJoined blob spec phoff phnum next segs b (read_u32-word_at blob 28 phoff q7)
            (read_u16-half_at blob 44 phnum q8) q9,
    )
