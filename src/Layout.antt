-- ===== src/Layout.antt =====
-- src/layout.c: the header region and the sections become page-aligned segments.
pub mod Pages
pub mod Order
use silver_nimbus_otter.Prelude.{
  List, [], bit_or, if◌then◌else◌, length, ltb, not, ok, reject_if, test_bit, ℕ, ◌%◌, ◌+◌, ◌==◌,
  ◌||◌, ◌∷◌, ◌>>=◌, ◌>>◌,
}
use silver_nimbus_otter.Elf32.{pt_load, sizeof_ehdr, sizeof_phdr}
use silver_nimbus_otter.Bytes.{u32_mod}
use silver_nimbus_otter.ElfSpec.{
  page_size, pf_x, pf_w, pf_r, elf_max_segments, SegmentData, Segment, ElfSpec, ConvertError,
  Convert, align_up, null, in_raw, in_shim, bad_section_count, base_not_aligned,
  section_not_aligned, image_reaches_shim, unknown_import, missing_symbol, slot_out_of_range,
  no_memory, no_required_symbols, shim_address_unmapped, too_many_segments, bad_segment_count,
  overlaps_headers, cannot_open, overlapping_ranges, no_contents, short_write,
}
use silver_nimbus_otter.PeFormat.{scn_mem_read_bit, scn_mem_write_bit, scn_mem_execute_bit}
use silver_nimbus_otter.PeImage.{Section, Image}

unfoldable pub section_flags : ℕ → ℕ
section_flags characteristics =
    let r : ℕ = if test_bit characteristics scn_mem_read_bit then pf_r else 0 in
    let w : ℕ = if test_bit characteristics scn_mem_write_bit then pf_w else 0 in
    let x : ℕ = if test_bit characteristics scn_mem_execute_bit then pf_x else 0 in
    let flags : ℕ = bit_or (bit_or r w) x in if flags == 0 then pf_r else flags

abbrev pub data_of : ℕ → ℕ → SegmentData
data_of size off = if ltb 0 size then in_raw off else null

-- The segment of the PE headers.
unfoldable pub header_segment : Image → ℕ → Segment
header_segment img cur_file_off = record {
  vaddr = img.image_base;
  flags = pf_r;
  file_offset = cur_file_off;
  contents = data_of img.size_of_headers 0;
  filesz = img.size_of_headers;
  memsz = img.size_of_headers;
}

unfoldable pub section_segment : ℕ → Section → ℕ → Segment
unfolding section_flags
section_segment image_base s cur_file_off = record {
  vaddr = (image_base + s.rva) % u32_mod;
  flags = section_flags s.characteristics;
  file_offset = cur_file_off;
  contents = data_of s.fsize s.file_off;
  filesz = s.fsize;
  memsz = if ltb s.fsize s.vsize then s.vsize else s.fsize;
}

-- The file offset after a segment.
abbrev pub next_off : Segment → ℕ
next_off seg = align_up ((seg.file_offset + seg.filesz) % u32_mod) page_size

unfoldable pub layout_sections : ℕ → List Section → ℕ → Convert (List Segment)
unfolding section_segment
layout_sections image_base [] cur_file_off = ok []
layout_sections image_base (s ∷ sections) cur_file_off = do
  reject_if (not (s.rva % page_size == 0)) section_not_aligned
  let seg = section_segment image_base s cur_file_off
  rest ← layout_sections image_base sections (next_off seg)
  ok (seg ∷ rest)

unfoldable pub layout_to_elf_spec : Image → Convert ElfSpec
unfolding layout_sections header_segment
layout_to_elf_spec img = do
  let n_sections = length img.sections
  reject_if (n_sections == 0 || ltb elf_max_segments (n_sections + 1)) bad_section_count
  reject_if (not (img.image_base % page_size == 0)) base_not_aligned
  let header = header_segment img page_size
  rest ← layout_sections img.image_base img.sections (next_off header)
  ok (record { entry = (img.image_base + img.entry_point_rva) % u32_mod; segments = header ∷ rest })
