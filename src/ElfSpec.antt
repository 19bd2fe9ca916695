-- ===== src/ElfSpec.antt =====
-- include/elf_writer.h and the constants of include/elf32_format.h: the segments of the output, and
-- what makes the conversion fail after the parse. An error is its message's kind.
use silver_nimbus_otter.Prelude.{List, Outcome, [], ℕ, ◌%◌, ◌*◌, ◌+◌, ◌-◌, ◌/◌, ◌∷◌, ◌≤◌}
use silver_nimbus_otter.Bytes.{u32_mod}

abbrev pub page_size : ℕ
page_size = 0x1000

abbrev pub pf_x : ℕ
pf_x = 1

abbrev pub pf_w : ℕ
pf_w = 2

abbrev pub pf_r : ℕ
pf_r = 4

abbrev pub elf_max_segments : ℕ
elf_max_segments = 64

-- Segments point into the image's file bytes or into the copy of the shim, so what is patched there
-- later is what is written.
pub data SegmentData : Type 0 where
  null : SegmentData
  in_raw : ℕ → SegmentData
  in_shim : ℕ → SegmentData

pub record Segment : Type 0 where
  pub vaddr : ℕ
  pub flags : ℕ
  pub file_offset : ℕ
  pub contents : SegmentData
  pub filesz : ℕ
  pub memsz : ℕ

-- `n_segments` is the length of `segments`.
pub record ElfSpec : Type 0 where
  pub entry : ℕ
  pub segments : List Segment

pub data ConvertError : Type 0 where
  bad_section_count base_not_aligned section_not_aligned : ConvertError
  image_reaches_shim unknown_import missing_symbol slot_out_of_range : ConvertError
  no_memory no_required_symbols shim_address_unmapped too_many_segments : ConvertError
  bad_segment_count overlaps_headers cannot_open overlapping_ranges no_contents : ConvertError
  short_write : ConvertError

abbrev pub Convert {ℓ} : Type ℓ → Type ℓ
Convert A = Outcome ConvertError A

-- `(n + a - 1) / a * a`, where the sum is of 32 bits.
unfoldable pub align_up : ℕ → ℕ → ℕ
align_up n a = (n + a - 1) % u32_mod / a * a

-- The segments lie one behind the other in the file, from `start` on.
abbrev pub Ordered : ℕ → List Segment → Type 0
Ordered start [] = Unit
Ordered start (seg ∷ segs) = (start ≤ seg.file_offset) × Ordered (seg.file_offset + seg.filesz) segs
