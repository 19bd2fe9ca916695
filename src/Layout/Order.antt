-- ===== src/Layout/Order.antt =====
-- Where the layout puts the segments in the file.
use silver_nimbus_otter.Prelude.{
  List, Meets-bind, Meets-reject_if, Returns, [], ap, arith, length, ltb, not, ℕ, ◌%◌, ◌+◌, ◌<◌,
  ◌==◌, ◌||◌, ◌∷◌, ◌≡◌, ◌≤◌,
}
use silver_nimbus_otter.Layout.{
  next_off, section_segment, header_segment, layout_to_elf_spec, layout_sections,
}
use silver_nimbus_otter.Bytes.{u32_mod}
use silver_nimbus_otter.ElfSpec.{
  base_not_aligned, bad_section_count, elf_max_segments, page_size, ElfSpec, align_up, Ordered,
  section_not_aligned,
}
use silver_nimbus_otter.PeImage.{Section, Image}

-- Room for the sections' bytes, each with its padding.
abbrev pub span : List Section → ℕ
span [] = 0
span (s ∷ sections) = s.fsize + 4096 + span sections

pub align_up_bounds :
    (n : ℕ) → n + 4096 ≤ u32_mod → (n ≤ align_up n 4096) × (align_up n 4096 < n + 4096)
unfolding align_up
align_up_bounds n h = omega arith

layout_sections-Ordered :
    (base : ℕ) (sections : List Section) (cur start : ℕ)
    → start ≤ cur
    → cur + span sections ≤ u32_mod
    → Returns (Ordered start) (layout_sections base sections cur)
unfolding layout_sections
layout_sections-Ordered base [] cur start h k = tt
layout_sections-Ordered base (s ∷ sections) cur start h k =
    let seg = section_segment base s cur in
    let whole : (cur + s.fsize) % u32_mod ≡ cur + s.fsize = omega arith in
    let (lo, hi) = align_up_bounds (cur + s.fsize) (omega arith) in
    let next : next_off seg ≡ align_up (cur + s.fsize) 4096 =
      ap (λ (t : ℕ). align_up t 4096) whole in
    Meets-reject_if ⊥ (Ordered start) (not (s.rva % 4096 == 0)) section_not_aligned _ λ _.
      Meets-bind ⊥ (Ordered (cur + s.fsize)) (Ordered start)
        (layout_sections base sections (next_off seg)) _
        (layout_sections-Ordered base sections (next_off seg) (cur + s.fsize)
          (omega (arith, next, lo)) (omega (arith, next, hi)))
        λ rest _ o. (h, o)

-- If the headers and all sections, each padded to a page, fit in 2^32 bytes with the first page, the
-- segments follow one another in the file without overlap, behind the page of the ELF headers.
pub layout_to_elf_spec-Ordered :
    (img : Image)
    → 8192 + img.size_of_headers + span img.sections ≤ u32_mod
    → Returns (λ spec. Ordered page_size spec.segments) (layout_to_elf_spec img)
unfolding layout_to_elf_spec
layout_to_elf_spec-Ordered img h =
    let P = λ (spec : ElfSpec). Ordered page_size spec.segments in
    let n = length img.sections in
    let header = header_segment img 4096 in
    let end = 4096 + img.size_of_headers in
    let whole : end % u32_mod ≡ end = omega arith in
    let (lo, hi) = align_up_bounds end (omega arith) in
    let next : next_off header ≡ align_up end 4096 = ap (λ (t : ℕ). align_up t 4096) whole in
    Meets-reject_if ⊥ P (n == 0 || ltb elf_max_segments (n + 1)) bad_section_count _ λ _.
      Meets-reject_if ⊥ P (not (img.image_base % 4096 == 0)) base_not_aligned _ λ _.
        Meets-bind ⊥ (Ordered end) P (layout_sections img.image_base img.sections (next_off header))
          _
          (layout_sections-Ordered img.image_base img.sections (next_off header) end
            (omega (arith, next, lo)) (omega (arith, next, hi)))
          λ rest _ o. (omega arith, o)
