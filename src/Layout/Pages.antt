-- ===== src/Layout/Pages.antt =====
-- What the loader needs of the layout.
use silver_nimbus_otter.Prelude.{
  List, Meets-bind, Meets-reject_if, Returns, [], arith, length, ltb, not, refl, ℕ, ◌%◌, ◌+◌, ◌<◌,
  ◌==◌, ◌||◌, ◌∷◌, ◌≡◌, ◌≢◌, ◌≤◌,
}
use silver_nimbus_otter.Layout.{
  header_segment, layout_to_elf_spec, Image, next_off, section_segment, section_flags,
  layout_sections, data_of,
}
use silver_nimbus_otter.Bytes.{u32_mod}
use silver_nimbus_otter.ElfSpec.{
  base_not_aligned, bad_section_count, elf_max_segments, ElfSpec, section_not_aligned, page_size,
  Segment, align_up,
}
use silver_nimbus_otter.PeImage.{Image, Section}

-- A segment that the kernel can map: offset and address agree within the page, and the bytes from the
-- file do not pass the memory.
pub record IsLoadable (seg : Segment) : Type 0 where
  pub aligned_offset : seg.file_offset % page_size ≡ 0
  pub aligned_vaddr : seg.vaddr % page_size ≡ 0
  pub fits : seg.filesz ≤ seg.memsz
  pub permitted : seg.flags ≢ 0

align_up_aligned : (n : ℕ) → align_up n 4096 % 4096 ≡ 0
unfolding align_up
align_up_aligned n = omega arith

section_flags_nonzero : (c : ℕ) → section_flags c ≢ 0
unfolding section_flags
section_flags_nonzero c = ground arith

-- One segment follows another in the file, each at the end of the one before.
abbrev pub Covers : ℕ → List Section → List Segment → Type 0
Covers base [] [] = Unit
Covers base [] (seg ∷ segs) = ⊥
Covers base (s ∷ sections) [] = ⊥
Covers base (s ∷ sections) (seg ∷ segs) =
    (seg.vaddr ≡ (base + s.rva) % u32_mod)
    × (seg.contents ≡ data_of s.fsize s.file_off)
    × (seg.filesz ≡ s.fsize)
    × (s.vsize ≤ seg.memsz)
    × IsLoadable seg
    × Covers base sections segs

layout_sections-Meets :
    (base : ℕ) (sections : List Section) (cur : ℕ)
    → base % 4096 ≡ 0
    → cur % 4096 ≡ 0
    → Returns (Covers base sections) (layout_sections base sections cur)
unfolding layout_sections
layout_sections-Meets base [] cur b c = tt
layout_sections-Meets base (s ∷ sections) cur b c =
    Meets-reject_if ⊥ (Covers base (s ∷ sections)) (not (s.rva % 4096 == 0)) section_not_aligned _
      λ aligned.
        let seg = section_segment base s cur in
        Meets-bind ⊥ (Covers base sections) (Covers base (s ∷ sections))
          (layout_sections base sections (next_off seg)) _
          (layout_sections-Meets base sections (next_off seg) b (align_up_aligned _))
          λ rest _ k. (
            refl,
            refl,
            refl,
            ground arith,
            record {
              aligned_offset = c;
              aligned_vaddr = ground arith;
              fits = ground arith;
              permitted = section_flags_nonzero s.characteristics;
            },
            k,
          )

-- The first segment maps the PE headers at the image base, the others the sections in their order.
abbrev pub Maps : Image → List Segment → Type 0
Maps img [] = ⊥
Maps img (header ∷ segs) =
    (header.vaddr ≡ img.image_base)
    × (header.contents ≡ data_of img.size_of_headers 0)
    × (header.filesz ≡ img.size_of_headers)
    × IsLoadable header
    × Covers img.image_base img.sections segs

abbrev pub LaidOut : Image → ElfSpec → Type 0
LaidOut img spec =
    (spec.entry ≡ (img.image_base + img.entry_point_rva) % u32_mod)
    × (length img.sections < elf_max_segments)
    × Maps img spec.segments

pub layout_to_elf_spec-Meets : (img : Image) → Returns (LaidOut img) (layout_to_elf_spec img)
unfolding layout_to_elf_spec
layout_to_elf_spec-Meets img =
    let n = length img.sections in
    let header = header_segment img 4096 in
    Meets-reject_if ⊥ (LaidOut img) (n == 0 || ltb elf_max_segments (n + 1)) bad_section_count _
      λ few.
        Meets-reject_if ⊥ (LaidOut img) (not (img.image_base % 4096 == 0)) base_not_aligned _
          λ aligned.
            let base : img.image_base % 4096 ≡ 0 = ground arith in
            Meets-bind ⊥ (Covers img.image_base img.sections) (LaidOut img)
              (layout_sections img.image_base img.sections (next_off header)) _
              (layout_sections-Meets img.image_base img.sections (next_off header) base
                (align_up_aligned _))
              λ rest _ k. (
                refl,
                ground arith,
                (
                  refl,
                  refl,
                  refl,
                  record {
                    aligned_offset = refl;
                    aligned_vaddr = base;
                    fits = omega arith;
                    permitted = omega arith;
                  },
                  k,
                ),
              )
