-- ===== src/ElfWriter/Output.antt =====
-- The output file as a whole: its headers, its program headers and its segments.
use silver_nimbus_otter.Prelude.{
  All, List, Meets-bind, Meets-map, Meets-reject_if, Returns, [], ap, append-nil, append_assoc,
  arith, length, length-append, ltb, not, refl, sym, take-length, ℕ, ◌*◌, ◌++◌, ◌+◌, ◌==◌, ◌||◌,
  ◌∙◌, ◌∷◌, ◌≡◌,
}
use silver_nimbus_otter.ElfWriter.Contents.{write_segments-Meets, ShowsAll, Shows, IsBacked}
use silver_nimbus_otter.ElfWriter.Pieces.{
  slice-append_right, slice-append_left, write-Meets, length-ehdr_bytes, length-phdr_bytes,
}
use silver_nimbus_otter.ElfWriter.{
  write_segments, overlaps, write, ehdr_bytes, OutputFile, write_phdrs, phdr_bytes, elf_write,
  write_elf, Buffers,
}
use silver_nimbus_otter.Bytes.{slice}
use silver_nimbus_otter.ElfSpec.{
  cannot_open, overlaps_headers, bad_segment_count, elf_max_segments, Segment, ElfSpec,
}

-- The program headers, one after the other.
abbrev pub phdrs : List Segment → List ℕ
phdrs [] = []
phdrs (s ∷ segs) = phdr_bytes s ++ phdrs segs

length-phdrs : (segs : List Segment) → length (phdrs segs) ≡ length segs * 32
length-phdrs [] = omega arith
length-phdrs (s ∷ segs) =
    omega (arith, length-append (phdr_bytes s) (phdrs segs), length-phdr_bytes s, length-phdrs segs)

write_phdrs-Meets :
    (f : OutputFile) (segs : List Segment) (out : List ℕ)
    → Returns (λ r. r ≡ out ++ phdrs segs) (write_phdrs f segs out)
unfolding write_phdrs
write_phdrs-Meets f [] out = sym (append-nil out)
write_phdrs-Meets f (s ∷ segs) out =
    let P = λ (r : List ℕ). r ≡ out ++ phdrs (s ∷ segs) in
    Meets-bind ⊥ (λ r. r ≡ out ++ phdr_bytes s) P (write f out (phdr_bytes s)) _
      (write-Meets f out (phdr_bytes s))
      λ r _ e.
        Meets-map ⊥ (λ q. q ≡ r ++ phdrs segs) P (write_phdrs f segs r) (write_phdrs-Meets f segs r)
          λ q _ k. k ∙ ap (λ t. t ++ phdrs segs) e ∙ append_assoc out (phdr_bytes s) (phdrs segs)

-- The ELF header, the program headers and the bytes of each segment stand where they belong.
pub record IsElf (b : Buffers) (spec : ElfSpec) (out : List ℕ) : Type 0 where
  pub ehdr : slice out 0 52 ≡ ehdr_bytes spec.entry (length spec.segments)
  pub program_headers : slice out 52 (length spec.segments * 32) ≡ phdrs spec.segments
  pub contents : All (Shows b out) spec.segments

headers-IsElf :
    (b : Buffers) (spec : ElfSpec) (eh out rest : List ℕ)
    → eh ≡ ehdr_bytes spec.entry (length spec.segments)
    → out ≡ (eh ++ phdrs spec.segments) ++ rest
    → All (Shows b out) spec.segments
    → IsElf b spec out
headers-IsElf b spec eh out rest e o shown =
    let segs = spec.segments in
    let len : length eh ≡ 52 = ap length e ∙ length-ehdr_bytes spec.entry (length segs) in
    let both = length-append eh (phdrs segs) in
    let size = length-phdrs segs in
    record {
      ehdr =
          ap (λ t. slice t 0 52) o
          ∙ slice-append_left (eh ++ phdrs segs) rest 0 52 (omega (arith, len, both))
          ∙ slice-append_left eh (phdrs segs) 0 52 (omega (arith, len))
          ∙ take-length eh 52 len
          ∙ e;
      program_headers =
          ap (λ t. slice t 52 (length segs * 32)) o
          ∙ slice-append_left (eh ++ phdrs segs) rest 52 (length segs * 32)
              (omega (arith, len, both, size))
          ∙ slice-append_right eh (phdrs segs) 52 (length segs * 32) len size;
      contents = shown;
    }

-- If the bytes of every segment are there and no segment passes 2^32 in the file, the writer
-- returns without reading outside them, whatever the disk does; and what it writes, if it reports
-- no error, begins with the ELF header for the entry and the number of segments, goes on with their
-- program headers, and shows the bytes of each segment at its offset.
pub write_elf-Meets :
    (f : OutputFile) (b : Buffers) (spec : ElfSpec)
    → All (IsBacked b) spec.segments
    → Returns (IsElf b spec) (write_elf f b spec)
unfolding write_elf
write_elf-Meets f b spec h =
    let P = IsElf b spec in
    let segs = spec.segments in
    let n = length segs in
    let eh = ehdr_bytes spec.entry n in
    Meets-reject_if ⊥ P (n == 0 || ltb elf_max_segments n) bad_segment_count _ λ _.
      Meets-reject_if ⊥ P (overlaps (52 + n * 32) segs) overlaps_headers _ λ _.
        Meets-reject_if ⊥ P (not f.can_open) cannot_open _ λ _.
          Meets-bind ⊥ (λ r. r ≡ eh) P (write f [] eh) _ (write-Meets f [] eh)
            λ with_ehdr _ e.
              Meets-bind ⊥ (λ r. r ≡ with_ehdr ++ phdrs segs) P (write_phdrs f segs with_ehdr) _
                (write_phdrs-Meets f segs with_ehdr)
                λ mid _ m.
                  let end : length mid ≡ 52 + n * 32 =
                    ap length m
                    ∙ length-append with_ehdr (phdrs segs)
                    ∙ omega
                        (arith, ap length e, length-ehdr_bytes spec.entry n, length-phdrs segs) in
                  Meets-map ⊥ (ShowsAll b segs mid) P (write_segments f b segs (52 + n * 32) mid)
                    (write_segments-Meets f b segs (52 + n * 32) mid end h)
                    λ out _ k.
                      headers-IsElf b spec with_ehdr out k.0 e (k.1 ∙ ap (λ t. t ++ k.0) m) k.2

-- The file is what closing it leaves of bytes with `P`.
abbrev pub IsClosed : OutputFile → (List ℕ → Type 0) → List ℕ → Type 0
IsClosed f P file = (bytes : List ℕ) × (file ≡ f.closed bytes) × P bytes

pub elf_write-IsClosed :
    (f : OutputFile) (b : Buffers) (spec : ElfSpec) (P : List ℕ → Type 0)
    → Returns P (write_elf f b spec)
    → Returns (IsClosed f P) (elf_write f b spec)
unfolding elf_write
elf_write-IsClosed f b spec P h =
    Meets-bind ⊥ P (IsClosed f P) (write_elf f b spec) _ h λ bytes _ p. (bytes, refl, p)
