-- ===== src/Convert/Whole.antt =====
-- A conversion from the image to the output file.
use silver_nimbus_otter.ElfWriter.{elf_write}
use silver_nimbus_otter.Prelude.{
  All, Bool-cases, List, Meets-bind, Meets-eq-ok, Meets-map, Meets-reject_if, Returns, [], ap,
  arith, inl, inr, length, ltb, not, ok, some, sym, ℕ, ◌%◌, ◌++◌, ◌+◌, ◌==◌, ◌||◌, ◌∷◌, ◌≡◌, ◌≤◌,
}
use silver_nimbus_otter.ShimBlob.{shim_find_symbol}
use silver_nimbus_otter.ElfWriter.Output.{write_elf-Meets, elf_write-IsClosed, IsClosed, IsElf}
use silver_nimbus_otter.StubPatch.Slots.{all_imports, SlotsApart, IsBound, OnlyBytes}
use silver_nimbus_otter.StubPatch.Apply.{stub_patch_apply-Meets, Stubbed, before, loads_of}
use silver_nimbus_otter.StubPatch.Segments.{Within-IsBacked, Within}
use silver_nimbus_otter.StubPatch.Blob.{IsShim}
use silver_nimbus_otter.StubPatch.{stub_patch_apply, Patched}
use silver_nimbus_otter.PeReader.Sections.{InFile}
use silver_nimbus_otter.Layout.Pages.{layout_to_elf_spec-Meets, LaidOut}
use silver_nimbus_otter.Layout.Order.{align_up_bounds, span}
use silver_nimbus_otter.Host.{at_image_copy, Alloc}
use silver_nimbus_otter.ElfWriter.Contents.{InRange}
use silver_nimbus_otter.Bytes.{text, u32_mod}
use silver_nimbus_otter.PeImage.{Section, Image}
use silver_nimbus_otter.Layout.{
  next_off, section_segment, header_segment, data_of, layout_to_elf_spec, layout_sections,
}
use silver_nimbus_otter.ElfWriter.{elf_write, OutputFile, Buffers}
use silver_nimbus_otter.Convert.{
  elf_write, stub_patch_apply, no_memory, at_image_copy, OutputFile, Alloc, convert,
}
use silver_nimbus_otter.ElfSpec.{
  base_not_aligned, section_not_aligned, bad_section_count, page_size, elf_max_segments, align_up,
  Segment, ElfSpec,
}

data_of-InRange :
    (b : Buffers) (size off : ℕ) → off + size ≤ length b.raw → InRange b (data_of size off) size
data_of-InRange b size off h = elim (Bool-cases (ltb 0 size)) [ inl e ↦ rw e h | inr e ↦ rw e tt ]

layout_sections-Within :
    (b : Buffers) (limit base : ℕ) (sections : List Section) (cur : ℕ)
    → cur + span sections ≤ limit
    → limit ≤ u32_mod
    → All (InFile b.raw) sections
    → Returns (All (Within b limit)) (layout_sections base sections cur)
unfolding layout_sections
layout_sections-Within b limit base [] cur h u w = tt
layout_sections-Within b limit base (s ∷ sections) cur h u w =
    let seg = section_segment base s cur in
    let whole : (cur + s.fsize) % u32_mod ≡ cur + s.fsize = omega arith in
    let (lo, hi) = align_up_bounds (cur + s.fsize) (omega arith) in
    let next : next_off seg ≡ align_up (cur + s.fsize) 4096 =
      ap (λ (t : ℕ). align_up t 4096) whole in
    Meets-reject_if ⊥ (All (Within b limit)) (not (s.rva % page_size == 0)) section_not_aligned _
      λ _.
        Meets-bind ⊥ (All (Within b limit)) (All (Within b limit))
          (layout_sections base sections (next_off seg)) _
          (layout_sections-Within b limit base sections (next_off seg) (omega (arith, next, hi)) u
            w.1)
          λ rest _ k. ((omega arith, data_of-InRange b s.fsize s.file_off w.0), k)

-- Room for the ELF headers, the PE headers and the sections in the output.
abbrev pub image_span : Image → ℕ
image_span img = 8192 + img.size_of_headers + span img.sections

pub layout_to_elf_spec-Within :
    (b : Buffers) (img : Image)
    → image_span img ≤ u32_mod
    → img.size_of_headers ≤ length b.raw
    → All (InFile b.raw) img.sections
    → Returns (λ spec. All (Within b (image_span img)) spec.segments) (layout_to_elf_spec img)
unfolding layout_to_elf_spec
layout_to_elf_spec-Within b img u k w =
    let limit = image_span img in
    let P = λ (spec : ElfSpec). All (Within b limit) spec.segments in
    let n = length img.sections in
    let header = header_segment img 4096 in
    let end = 4096 + img.size_of_headers in
    let whole : end % u32_mod ≡ end = omega arith in
    let (lo, hi) = align_up_bounds end (omega arith) in
    let next : next_off header ≡ align_up end 4096 = ap (λ (t : ℕ). align_up t 4096) whole in
    Meets-reject_if ⊥ P (n == 0 || ltb elf_max_segments (n + 1)) bad_section_count _ λ _.
      Meets-reject_if ⊥ P (not (img.image_base % page_size == 0)) base_not_aligned _ λ _.
        Meets-bind ⊥ (All (Within b limit)) P
          (layout_sections img.image_base img.sections (next_off header)) _
          (layout_sections-Within b limit img.image_base img.sections (next_off header)
            (omega (arith, next, hi)) u w)
          λ rest _ o. ((omega arith, data_of-InRange b img.size_of_headers 0 (omega arith)), o)

-- The file shows the segments of a layout of the image, with the image's bytes where they were or
-- bound to the shim, and then segments of the shim.
pub record IsConversion (blob : List ℕ) (img : Image) (out : List ℕ) : Type 0 where
  pub layout : ElfSpec
  pub laid_out : LaidOut img layout
  pub patched : Patched
  pub only_bytes : OnlyBytes img patched.image
  pub bound : All (IsBound blob img patched.image.raw) (all_imports img.imports)
  pub starts_in_shim : shim_find_symbol blob (text "_start") ≡ ok (some patched.spec.entry)
  pub shim_size : length patched.shim ≡ length blob
  pub shim_segments : List Segment
  pub behind : patched.spec.segments ≡ layout.segments ++ shim_segments
  pub is_elf : IsElf (record { raw = patched.image.raw; shim = patched.shim }) patched.spec out

-- If the sections and the headers lie in the file, no two import slots overlap, the blob is as the
-- build promises, and all sizes with a page of padding each fit in 2^32 bytes, the conversion of an
-- image has no undefined behaviour and ends, whatever the host's memory and disk do; and the file
-- that it reports as written is what closing it left of bytes that show the layout of the image,
-- whose import slots hold the addresses of the shim's symbols, and behind it the shim's segments,
-- with the shim's `_start` as its entry.
pub convert-Meets :
    (alloc : Alloc) (blob : List ℕ) (f : OutputFile) (img : Image)
    → IsShim blob
    → SlotsApart img (all_imports img.imports)
    → All (InFile img.raw) img.sections
    → img.size_of_headers ≤ length img.raw
    → image_span img + loads_of blob ≤ u32_mod
    → Returns (IsClosed f (IsConversion blob img)) (convert alloc blob f img)
unfolding convert
convert-Meets alloc blob f img h apart w k u =
    let P = IsClosed f (IsConversion blob img) in
    let b = before img blob in
    let limit = image_span img in
    Meets-reject_if ⊥ P (not (alloc at_image_copy (length img.raw))) no_memory _ λ _.
      Meets-bind ⊥ (λ spec. All (Within b limit) spec.segments) P (layout_to_elf_spec img) _
        (layout_to_elf_spec-Within b img (omega arith) k w)
        λ spec q within.
          Meets-bind ⊥ (Stubbed blob limit img spec) P (stub_patch_apply alloc blob img spec) _
            (stub_patch_apply-Meets alloc blob img spec limit h apart (omega arith) u within)
            λ p _ s.
              let c : Buffers = record { raw = p.image.raw; shim = p.shim } in
              Meets-map ⊥ (IsClosed f (IsElf c p.spec)) P (elf_write f c p.spec)
                (elf_write-IsClosed f c p.spec (IsElf c p.spec) (
                  write_elf-Meets f c p.spec (
                    Within-IsBacked b c (limit + loads_of blob) p.spec.segments u (sym s.0.1)
                      (sym s.2) s.4.2)))
                λ out _ e. (
                  e.0,
                  e.1,
                  record {
                    layout = spec;
                    laid_out =
                        Meets-eq-ok ⊥ (LaidOut img) (layout_to_elf_spec img)
                          (layout_to_elf_spec-Meets img) q;
                    patched = p;
                    only_bytes = s.0;
                    bound = s.1;
                    starts_in_shim = s.3;
                    shim_size = s.2;
                    shim_segments = s.4.0;
                    behind = s.4.1;
                    is_elf = e.2;
                  },
                )
