-- ===== src/StubPatch/Words.antt =====
-- The fields of the segments that src/layout.c and src/stub_patch.c make have 32 bits.
use silver_nimbus_otter.StubPatch.SymbolWords.{read_u32-IsU32, shim_find_symbol-IsU32}
use silver_nimbus_otter.Prelude.{
  All, All-append, Bool-cases, List, [], arith, bind-eq-ok, inl, inr, leb, length, ltb, not, ok,
  ok-injective, reject_if-eq-ok, subst, suc, zero, ℕ, ◌%◌, ◌++◌, ◌+◌, ◌==◌, ◌||◌, ◌∷◌, ◌≡◌,
}
use silver_nimbus_otter.Bytes.{text, u32_mod, IsByte, IsU32}
use silver_nimbus_otter.ElfSpec.{
  no_memory, image_reaches_shim, Segment, ElfSpec, align_up, elf_max_segments, too_many_segments,
  page_size, bad_section_count, base_not_aligned, section_not_aligned,
}
use silver_nimbus_otter.Elf32.{pt_load}
use silver_nimbus_otter.PeImage.{Section, Image}
use silver_nimbus_otter.PeReader.Sections.{IsSized}
use silver_nimbus_otter.Layout.{
  layout_to_elf_spec, layout_sections, section_segment, header_segment, section_flags, next_off,
}
use silver_nimbus_otter.ShimBlob.{e_phnum, e_phoff, read_u32}
use silver_nimbus_otter.ElfWriter.Loading.{IsWords}
use silver_nimbus_otter.StubPatch.Apply.{required_symbol-found}
use silver_nimbus_otter.Host.{Alloc, at_shim_copy}
use silver_nimbus_otter.StubPatch.{
  Patched, stub_patch_apply, shim_min_base, patch_dlls, required_symbol, shim_poke32, append_loop,
  end_of_segments, shim_segment, phdr_off,
}

align_up-IsU32 : (n : ℕ) → IsU32 (align_up n 4096)
unfolding align_up
align_up-IsU32 n = omega arith

end_of_segments-IsU32 : (segs : List Segment) → IsU32 (end_of_segments segs)
unfolding end_of_segments
end_of_segments-IsU32 [] = omega arith
end_of_segments-IsU32 (s ∷ []) = align_up-IsU32 _
end_of_segments-IsU32 (s ∷ t ∷ segs) = end_of_segments-IsU32 (t ∷ segs)

append_loop-IsWords :
    (blob : List ℕ) (phoff n i next : ℕ) (segs r : List Segment)
    → All IsByte blob
    → IsU32 next
    → All IsWords segs
    → append_loop blob phoff n i next segs ≡ ok r
    → All IsWords r
unfolding append_loop
append_loop-IsWords blob phoff zero i next segs r h u w e = subst (All IsWords) (ok-injective e) w
append_loop-IsWords blob phoff (suc n) i next segs r h u w e =
    let at = phdr_off phoff i in
    let (p_type, q0, e0) = bind-eq-ok (read_u32 blob at) _ e in
    elim (Bool-cases (not (p_type == pt_load))) [
      | inl skip ↦ append_loop-IsWords blob phoff n (i + 1) next segs r h u w (rw skip at e0)
      | inr load ↦
          let (few, e1) =
            reject_if-eq-ok (leb elf_max_segments (length segs)) too_many_segments _
              (rw load at e0) in
          let (p_offset, q1, e2) = bind-eq-ok (read_u32 blob (at + 4)) _ e1 in
          let (p_vaddr, q2, e3) = bind-eq-ok (read_u32 blob (at + 8)) _ e2 in
          let (p_filesz, q3, e4) = bind-eq-ok (read_u32 blob (at + 16)) _ e3 in
          let (p_memsz, q4, e5) = bind-eq-ok (read_u32 blob (at + 20)) _ e4 in
          let (p_flags, q5, e6) = bind-eq-ok (read_u32 blob (at + 24)) _ e5 in
          let seg = shim_segment next p_offset p_vaddr p_filesz p_memsz p_flags in
          let one : IsWords seg = (
            u,
            read_u32-IsU32 blob _ p_vaddr h q2,
            read_u32-IsU32 blob _ p_filesz h q3,
            read_u32-IsU32 blob _ p_memsz h q4,
            read_u32-IsU32 blob _ p_flags h q5,
          ) in
          append_loop-IsWords blob phoff n (i + 1) _ (segs ++ (seg ∷ [])) r h (align_up-IsU32 _)
            (All-append IsWords segs (seg ∷ []) w (one, tt)) e6
    ]

section_flags-IsU32 : (c : ℕ) → IsU32 (section_flags c)
unfolding section_flags
section_flags-IsU32 c = ground arith

section_segment-IsWords :
    (base : ℕ) (s : Section) (cur : ℕ)
    → IsSized s
    → IsU32 cur
    → IsWords (section_segment base s cur)
unfolding section_segment
section_segment-IsWords base s cur h u =
    (u, omega arith, h.0, ground (arith, h.0, h.1), section_flags-IsU32 s.characteristics)

layout_sections-IsWords :
    (base : ℕ) (sections : List Section) (cur : ℕ) (r : List Segment)
    → All IsSized sections
    → IsU32 cur
    → layout_sections base sections cur ≡ ok r
    → All IsWords r
unfolding layout_sections
layout_sections-IsWords base [] cur r h u e = subst (All IsWords) (ok-injective e) tt
layout_sections-IsWords base (s ∷ sections) cur r h u e =
    let (aligned, e1) = reject_if-eq-ok (not (s.rva % page_size == 0)) section_not_aligned _ e in
    let seg = section_segment base s cur in
    let (rest, q, e2) = bind-eq-ok (layout_sections base sections (next_off seg)) _ e1 in
    subst (All IsWords) (ok-injective e2) (
      section_segment-IsWords base s cur h.0 u,
      layout_sections-IsWords base sections (next_off seg) rest h.1 (align_up-IsU32 _) q,
    )

pub layout_to_elf_spec-IsWords :
    (img : Image) (spec : ElfSpec)
    → IsU32 img.image_base
    → IsU32 img.size_of_headers
    → All IsSized img.sections
    → layout_to_elf_spec img ≡ ok spec
    → All IsWords spec.segments
unfolding layout_to_elf_spec header_segment
layout_to_elf_spec-IsWords img spec b s h e =
    let n = length img.sections in
    let (some_sections, e1) =
      reject_if-eq-ok (n == 0 || ltb elf_max_segments (n + 1)) bad_section_count _ e in
    let (aligned, e2) =
      reject_if-eq-ok (not (img.image_base % page_size == 0)) base_not_aligned _ e1 in
    let header = header_segment img page_size in
    let (rest, q, e3) =
      bind-eq-ok (layout_sections img.image_base img.sections (next_off header)) _ e2 in
    subst (λ (t : ElfSpec). All IsWords t.segments) (ok-injective e3)
      (
        (omega arith, b, s, s, omega arith),
        layout_sections-IsWords img.image_base img.sections (next_off header) rest h
            (align_up-IsU32 _) q,
      )

-- The entry and the segments of a patched output have their 32 bits.
pub stub_patch_apply-IsWords :
    (alloc : Alloc) (blob : List ℕ) (img : Image) (spec : ElfSpec) (p : Patched)
    → All IsByte blob
    → All IsWords spec.segments
    → stub_patch_apply alloc blob img spec ≡ ok p
    → IsU32 p.spec.entry × All IsWords p.spec.segments
unfolding stub_patch_apply
stub_patch_apply-IsWords alloc blob img spec p h w e =
    let (_, e1) =
      reject_if-eq-ok (ltb shim_min_base ((img.image_base + img.size_of_image) % u32_mod))
        image_reaches_shim _ e in
    let (patched, q2, e2) = bind-eq-ok (patch_dlls blob img.imports img) _ e1 in
    let (_, e3) = reject_if-eq-ok (not (alloc at_shim_copy (length blob))) no_memory _ e2 in
    let (target, q4, e4) = bind-eq-ok (required_symbol blob (text "shim_pe_entry_target")) _ e3 in
    let (start, q5, e5) = bind-eq-ok (required_symbol blob (text "_start")) _ e4 in
    let (shim, q6, e6) =
      bind-eq-ok (shim_poke32 blob blob target ((img.image_base + img.entry_point_rva) % u32_mod)) _
        e5 in
    let (phoff, q7, e7) = bind-eq-ok (e_phoff blob) _ e6 in
    let (phnum, q8, e8) = bind-eq-ok (e_phnum blob) _ e7 in
    let (segs, q9, e9) =
      bind-eq-ok (append_loop blob phoff phnum 0 (end_of_segments spec.segments) spec.segments) _
        e8 in
    let P = λ (t : Patched). IsU32 t.spec.entry × All IsWords t.spec.segments in
    subst P (ok-injective e9) (
      shim_find_symbol-IsU32 blob (text "_start") start h
          (required_symbol-found blob (text "_start") start q5),
      append_loop-IsWords blob phoff phnum 0 (end_of_segments spec.segments) spec.segments segs h
          (end_of_segments-IsU32 spec.segments) w q9,
    )

-- The image of a patched output is the one with its imports bound.
pub stub_patch_apply-image :
    (alloc : Alloc) (blob : List ℕ) (img : Image) (spec : ElfSpec) (p : Patched)
    → stub_patch_apply alloc blob img spec ≡ ok p
    → patch_dlls blob img.imports img ≡ ok p.image
unfolding stub_patch_apply
stub_patch_apply-image alloc blob img spec p e =
    let reaches = ltb shim_min_base ((img.image_base + img.size_of_image) % u32_mod) in
    let (_, e1) = reject_if-eq-ok reaches image_reaches_shim _ e in
    let (patched, q2, e2) = bind-eq-ok (patch_dlls blob img.imports img) _ e1 in
    let (_, e3) = reject_if-eq-ok (not (alloc at_shim_copy (length blob))) no_memory _ e2 in
    let (target, _, e4) = bind-eq-ok (required_symbol blob (text "shim_pe_entry_target")) _ e3 in
    let (start, _, e5) = bind-eq-ok (required_symbol blob (text "_start")) _ e4 in
    let (shim, _, e6) =
      bind-eq-ok (shim_poke32 blob blob target ((img.image_base + img.entry_point_rva) % u32_mod)) _
        e5 in
    let (phoff, _, e7) = bind-eq-ok (e_phoff blob) _ e6 in
    let (phnum, _, e8) = bind-eq-ok (e_phnum blob) _ e7 in
    let (segs, _, e9) =
      bind-eq-ok (append_loop blob phoff phnum 0 (end_of_segments spec.segments) spec.segments) _
        e8 in
    subst (λ (t : Patched). patch_dlls blob img.imports img ≡ ok t.image) (ok-injective e9) q2
