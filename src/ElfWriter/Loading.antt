-- ===== src/ElfWriter/Loading.antt =====
-- What a reader of the ELF format finds in the output of `elf_write`.
use silver_nimbus_otter.Prelude.{
  All, Bool, List, Meets-map, Option, Returns, [], ap, ap₂, arith, drop, if◌then◌else◌, length, ltb,
  map, none, ok, refl, reject_if-eq-ok, some, suc, take, zero, ℕ, ◌%◌, ◌&&◌, ◌*◌, ◌++◌, ◌+◌, ◌-◌,
  ◌/◌, ◌<◌, ◌==◌, ◌||◌, ◌∙◌, ◌∷◌, ◌≡◌,
}
use silver_nimbus_otter.Bytes.{slice, IsU32}
use silver_nimbus_otter.Elf32.{Ehdr, Phdr, ehdr, phdr}
use silver_nimbus_otter.Elf32.Fields.{word_back, phdr-bytes_of_phdr}
use silver_nimbus_otter.ShimAbi.{str_eq}
use silver_nimbus_otter.ElfSpec.{bad_segment_count, elf_max_segments, Segment, ElfSpec}
use silver_nimbus_otter.ElfWriter.{
  write_elf, elf_write, OutputFile, Buffers, program_header, ehdr_bytes, phdr_bytes,
}
use silver_nimbus_otter.ElfWriter.Output.{
  write_elf-Meets, elf_write-IsClosed, IsClosed, IsElf, phdrs,
}
use silver_nimbus_otter.ElfWriter.Pieces.{length-phdr_bytes}
use silver_nimbus_otter.ElfWriter.Contents.{IsBacked, bytes_at, Shows}

-- What a program header asks for: bytes of the file at an address, and zeros behind them.
pub record Piece : Type 0 where
  pub address : ℕ
  pub file_bytes : List ℕ
  pub zeros : ℕ
  pub permissions : ℕ

abbrev pub piece : List ℕ → Phdr → Piece
piece file ph = record {
  address = ph.p_vaddr;
  file_bytes = slice file ph.p_offset ph.p_filesz;
  zeros = ph.p_memsz - ph.p_filesz;
  permissions = ph.p_flags;
}

abbrev pub pieces : List ℕ → List Phdr → List Piece
pieces file [] = []
pieces file (ph ∷ phs) =
    let rest = pieces file phs in if ph.p_type == 1 then piece file ph ∷ rest else rest

-- The first `n` program headers of a table.
abbrev pub table_of : ℕ → List ℕ → List Phdr
table_of zero bs = []
table_of (suc n) bs = phdr (take 32 bs) ∷ table_of n (drop 32 bs)

-- A 32-bit little-endian executable of the first version for the i386.
abbrev pub is_i386_executable : Ehdr → Bool
is_i386_executable eh =
    str_eq (take 7 eh.e_ident) (0x7F ∷ 0x45 ∷ 0x4C ∷ 0x46 ∷ 1 ∷ 1 ∷ 1 ∷ [])
    && eh.e_type == 2
    && eh.e_machine == 3
    && eh.e_version == 1
    && eh.e_phentsize == 32

-- The entry point and the pieces that a file asks for, read from its structures.
abbrev pub load : List ℕ → Option (ℕ × List Piece)
load file =
    let eh = ehdr (take 52 file) in
    if is_i386_executable eh
    then some
        (eh.e_entry, pieces file (table_of eh.e_phnum (slice file eh.e_phoff (eh.e_phnum * 32))))
    else none

-- A segment as the loader is to show it.
abbrev pub mapped : Buffers → Segment → Piece
mapped b s = record {
  address = s.vaddr;
  file_bytes = bytes_at b s.contents s.filesz;
  zeros = s.memsz - s.filesz;
  permissions = s.flags;
}

-- The fields that are not the writer's own have their 32 bits.
abbrev pub IsWords : Segment → Type 0
IsWords s = IsU32 s.file_offset × IsU32 s.vaddr × IsU32 s.filesz × IsU32 s.memsz × IsU32 s.flags

header_back : (s : Segment) → IsWords s → phdr (phdr_bytes s) ≡ program_header s
unfolding phdr_bytes program_header
header_back s h = phdr-bytes_of_phdr (program_header s) (record {
  p_type = omega arith;
  p_offset = h.0;
  p_vaddr = h.1;
  p_paddr = h.1;
  p_filesz = h.2;
  p_memsz = h.3;
  p_flags = h.4;
  p_align = omega arith;
})

half_back : (n : ℕ) → n < 65536 → n % 65536 % 256 + 256 * (n % 65536 / 256 % 256) ≡ n
half_back n h = omega arith

take_front : (xs ys : List ℕ) (n : ℕ) → length xs ≡ n → take n (xs ++ ys) ≡ xs
take_front [] ys zero e = refl
take_front [] ys (suc n) e = absurd (omega arith)
take_front (x ∷ xs) ys zero e = absurd (omega arith)
take_front (x ∷ xs) ys (suc n) e = ap (λ t. x ∷ t) (take_front xs ys n (omega arith))

drop_front : (xs ys : List ℕ) (n : ℕ) → length xs ≡ n → drop n (xs ++ ys) ≡ ys
drop_front [] ys zero e = refl
drop_front [] ys (suc n) e = absurd (omega arith)
drop_front (x ∷ xs) ys zero e = absurd (omega arith)
drop_front (x ∷ xs) ys (suc n) e = drop_front xs ys n (omega arith)

table_back :
    (segs : List Segment)
    → All IsWords segs
    → table_of (length segs) (phdrs segs) ≡ map program_header segs
table_back [] h = refl
table_back (s ∷ segs) h =
    let bs = phdr_bytes s in
    let rest = phdrs segs in
    let n = length-phdr_bytes s in
    ap₂ (λ p ps. p ∷ ps) (ap phdr (take_front bs rest 32 n) ∙ header_back s h.0)
      (ap (table_of (length segs)) (drop_front bs rest 32 n) ∙ table_back segs h.1)

pieces_back :
    (b : Buffers) (file : List ℕ) (segs : List Segment)
    → All (Shows b file) segs
    → pieces file (map program_header segs) ≡ map (mapped b) segs
unfolding program_header
pieces_back b file [] h = refl
pieces_back b file (s ∷ segs) h =
    ap₂ (λ p ps. p ∷ ps)
      (ap
        (λ bs. record {
          address = s.vaddr;
          file_bytes = bs;
          zeros = s.memsz - s.filesz;
          permissions = s.flags;
        })
        h.0)
      (pieces_back b file segs h.1)

load-IsElf :
    (b : Buffers) (spec : ElfSpec) (file : List ℕ)
    → IsU32 spec.entry
    → length spec.segments < 65536
    → All IsWords spec.segments
    → IsElf b spec file
    → load file ≡ some (spec.entry, map (mapped b) spec.segments)
unfolding str_eq ehdr ehdr_bytes
load-IsElf b spec file u n w h =
    let count = length spec.segments in
    rw
      (
        h.ehdr,
        word_back spec.entry u,
        half_back count n,
        h.program_headers,
        table_back spec.segments w,
        pieces_back b file spec.segments h.contents,
      )
      refl

few_segments :
    (f : OutputFile) (b : Buffers) (spec : ElfSpec) {file : List ℕ}
    → write_elf f b spec ≡ ok file
    → length spec.segments < 65536
unfolding write_elf
few_segments f b spec {file} e =
    let n = length spec.segments in
    let (few, _) = reject_if-eq-ok (n == 0 || ltb elf_max_segments n) bad_segment_count _ e in
    ground arith

-- If the bytes of every segment are there, no segment passes 2^32 in the file, and the entry and the
-- fields of the segments have 32 bits, the writer returns without reading outside those bytes,
-- whatever the disk does. A file that it reports as written is what `fclose` left of bytes that are a
-- 32-bit executable for the i386, whose structures, read back from the bytes, ask for the entry and
-- for the segments in their order, each with its bytes at its address, zeros up to its size in
-- memory, and its permissions.
pub elf_write-load :
    (f : OutputFile) (b : Buffers) (spec : ElfSpec)
    → All (IsBacked b) spec.segments
    → IsU32 spec.entry
    → All IsWords spec.segments
    → Returns
        (IsClosed f (λ bytes. load bytes ≡ some (spec.entry, map (mapped b) spec.segments)))
        (elf_write f b spec)
elf_write-load f b spec h u w =
    let P = λ (bytes : List ℕ). load bytes ≡ some (spec.entry, map (mapped b) spec.segments) in
    elf_write-IsClosed f b spec P (
      Meets-map ⊥ (IsElf b spec) P (write_elf f b spec) (write_elf-Meets f b spec h)
        λ file e is_elf. load-IsElf b spec file u (few_segments f b spec e) w is_elf)
