-- ===== src/ElfWriter.antt =====
-- src/elf_writer.c: the output file, byte by byte.
-- `fwrite` belongs to the C library: `room p n` says whether `n` bytes at position `p` are written
-- in full, and `closed` which bytes of all those written stand in the file after `fclose`, whose
-- result the source ignores.
pub mod Pieces
pub mod Contents
pub mod Output
pub mod Loading
pub mod Roomy
use silver_nimbus_otter.Prelude.{
  Bool, List, [], false, if◌then◌else◌, length, ltb, not, ok, reject_if, rejected, replicate, stuck,
  suc, zero, ℕ, ◌%◌, ◌&&◌, ◌*◌, ◌++◌, ◌+◌, ◌-◌, ◌==◌, ◌||◌, ◌∷◌, ◌>>=◌, ◌>>◌,
}
use silver_nimbus_otter.Elf32.{
  pt_load, sizeof_ehdr, sizeof_phdr, Ehdr, Phdr, bytes_of_ehdr, bytes_of_phdr, elfmag0, elfmag1,
  elfmag2, elfmag3, elfclass32, elfdata2lsb, ev_current, elfosabi_sysv, et_exec, em_386,
}
use silver_nimbus_otter.Bytes.{u32_mod, mem_read}
use silver_nimbus_otter.ElfSpec.{
  page_size, pf_x, pf_w, pf_r, elf_max_segments, SegmentData, Segment, ElfSpec, ConvertError,
  Convert, align_up, null, in_raw, in_shim, bad_section_count, base_not_aligned,
  section_not_aligned, image_reaches_shim, unknown_import, missing_symbol, slot_out_of_range,
  no_memory, no_required_symbols, shim_address_unmapped, too_many_segments, bad_segment_count,
  overlaps_headers, cannot_open, overlapping_ranges, no_contents, short_write, Ordered,
}

-- The bytes that segments point into: the image's file and the copy of the shim.
pub record Buffers : Type 0 where
  pub raw : List ℕ
  pub shim : List ℕ

pub record OutputFile : Type 0 where
  pub can_open : Bool
  pub room : ℕ → ℕ → Bool
  pub closed : List ℕ → List ℕ

-- The header that is written, every field of it.
unfoldable pub elf_header : ℕ → ℕ → Ehdr
elf_header entry n_segments = record {
  e_ident =
      elfmag0
      ∷ elfmag1
      ∷ elfmag2
      ∷ elfmag3
      ∷ elfclass32
      ∷ elfdata2lsb
      ∷ ev_current
      ∷ elfosabi_sysv
      ∷ replicate 8 0;
  e_type = et_exec;
  e_machine = em_386;
  e_version = ev_current;
  e_entry = entry;
  e_phoff = sizeof_ehdr;
  e_shoff = 0;
  e_flags = 0;
  e_ehsize = sizeof_ehdr;
  e_phentsize = sizeof_phdr;
  e_phnum = n_segments % 65536;
  e_shentsize = 0;
  e_shnum = 0;
  e_shstrndx = 0;
}

unfoldable pub program_header : Segment → Phdr
program_header s = record {
  p_type = pt_load;
  p_offset = s.file_offset;
  p_vaddr = s.vaddr;
  p_paddr = s.vaddr;
  p_filesz = s.filesz;
  p_memsz = s.memsz;
  p_flags = s.flags;
  p_align = 0x1000;
}

unfoldable pub ehdr_bytes : ℕ → ℕ → List ℕ
unfolding bytes_of_ehdr elf_header
ehdr_bytes entry n_segments = bytes_of_ehdr (elf_header entry n_segments)

unfoldable pub phdr_bytes : Segment → List ℕ
unfolding bytes_of_phdr program_header
phdr_bytes s = bytes_of_phdr (program_header s)

-- `fwrite`, or the jump to `write_fail`.
unfoldable pub write : OutputFile → List ℕ → List ℕ → Convert (List ℕ)
write f out bs = if f.room (length out) (length bs) then ok (out ++ bs) else rejected short_write

unfoldable pub write_phdrs : OutputFile → List Segment → List ℕ → Convert (List ℕ)
unfolding write phdr_bytes
write_phdrs f [] out = ok out
write_phdrs f (s ∷ segs) out = do out' ← write f out (phdr_bytes s); write_phdrs f segs out'

-- `while (pad > 0)`, in chunks of at most a page.
unfoldable pub write_pad : OutputFile → ℕ → ℕ → List ℕ → Convert (List ℕ)
unfolding write
write_pad f zero pad out = stuck
write_pad f (suc fuel) pad out =
    let chunk : ℕ = if ltb page_size pad then page_size else pad in
    if pad == 0
    then ok out
    else do out' ← write f out (replicate chunk 0); write_pad f fuel (pad - chunk) out'

-- `fwrite(s->data, 1, s->filesz, f)` reads so many bytes behind the pointer.
unfoldable pub fetch : Buffers → Segment → Convert (List ℕ)
fetch b s = elim s.contents [
  | null ↦ rejected no_contents
  | in_raw off ↦ mem_read b.raw off s.filesz
  | in_shim off ↦ mem_read b.shim off s.filesz
]

-- Every chunk but the last is a page, so a round for each byte is more than enough.
unfoldable pub write_segment : OutputFile → Buffers → Segment → ℕ → List ℕ → Convert (List ℕ)
unfolding write write_pad fetch
write_segment f b s cur out = do
  reject_if (ltb s.file_offset cur) overlapping_ranges
  let pad = s.file_offset - cur
  padded ← write_pad f (suc pad) pad out
  bs ← fetch b s
  write f padded bs

unfoldable pub write_segments : OutputFile → Buffers → List Segment → ℕ → List ℕ → Convert (List ℕ)
unfolding write_segment
write_segments f b [] cur out = ok out
write_segments f b (s ∷ segs) cur out =
    let skip = write_segments f b segs cur out in
    if s.filesz == 0 then skip else do
      out' ← write_segment f b s cur out
      write_segments f b segs ((s.file_offset + s.filesz) % u32_mod) out'

-- A segment with bytes in the file that starts inside the headers.
unfoldable pub overlaps : ℕ → List Segment → Bool
overlaps phdrs_end [] = false
overlaps phdrs_end (s ∷ segs) =
    (ltb 0 s.filesz && ltb s.file_offset phdrs_end) || overlaps phdrs_end segs

-- All that is written, up to `fclose`.
unfoldable pub write_elf : OutputFile → Buffers → ElfSpec → Convert (List ℕ)
unfolding ehdr_bytes write_phdrs write_segments overlaps
write_elf f b spec = do
  let n = length spec.segments
  reject_if (n == 0 || ltb elf_max_segments n) bad_segment_count
  let phdrs_end = sizeof_ehdr + n * sizeof_phdr
  reject_if (overlaps phdrs_end spec.segments) overlaps_headers
  reject_if (not f.can_open) cannot_open
  with_ehdr ← write f [] (ehdr_bytes spec.entry n)
  with_phdrs ← write_phdrs f spec.segments with_ehdr
  write_segments f b spec.segments phdrs_end with_phdrs

-- `fclose(f); return true;`
unfoldable pub elf_write : OutputFile → Buffers → ElfSpec → Convert (List ℕ)
unfolding write_elf
elf_write f b spec = do out ← write_elf f b spec; ok (f.closed out)
