-- ===== src/PeReader/Sections.antt =====
-- The section table and the image that the headers give.
use silver_nimbus_otter.Prelude.{
  All, All-drop, Bool-cases, List, Meets-bind, Meets-reject_if, Returns, ap, arith, inl, inr,
  length, ltb, ltb→ge, not, refl, suc, sym, zero, ℕ, ◌&&◌, ◌*◌, ◌+◌, ◌∙◌, ◌≡◌, ◌≤◌,
}
use silver_nimbus_otter.PeReader.Fields.{
  pe_offset, coff_bytes, table_offset, optional_bytes, SectionsAt, SectionAt,
}
use silver_nimbus_otter.PeFormat.{
  CoffHeader, coff_header, section_header, optional_header, directory, OptionalHeader,
}
use silver_nimbus_otter.Host.{at_sections, Alloc}
use silver_nimbus_otter.Diagnostics.{err_truncated, err_malformed, RejectReason}
use silver_nimbus_otter.PeReader.{
  parse_sections, read_optional_header, read_coff_header, section_of, read_dos_header,
  initial_image, directory, OptionalHeader, Alloc, sections_loop, read_headers, find_directory,
}
use silver_nimbus_otter.PeImage.{Section, Image}
use silver_nimbus_otter.Bytes.{u16_at, slice, IsByte, IsU32}
use silver_nimbus_otter.Bytes.Laws.{slice-IsByte, mem_read_ok, u32_at-lt}
use silver_nimbus_otter.PeReader.Headers.{
  DosAt, IsSupported, CoffAt, OptAt, read_dos_header-Meets, read_coff_header-Meets,
  read_optional_header-Meets,
}

-- The raw data of a section lie in the file, and the section is the one that its header describes.
abbrev pub InFile : List ℕ → Section → Type 0
InFile raw s = s.file_off + s.fsize ≤ length raw

-- The sizes of a section have 32 bits.
abbrev pub IsSized : Section → Type 0
IsSized s = IsU32 s.fsize × IsU32 s.vsize

-- The numbers of the image that the layout copies have 32 bits.
abbrev pub IsWordImage : Image → Type 0
IsWordImage img = IsU32 img.image_base × IsU32 img.size_of_headers × All IsSized img.sections

abbrev Table : List ℕ → ℕ → ℕ → List Section → Type 0
Table raw i n sections =
    (length sections ≡ n)
    × All (InFile raw) sections
    × (All IsByte raw → All IsSized sections)
    × SectionsAt raw i sections

section_of-SectionAt : (bs : List ℕ) → SectionAt bs (section_of (section_header bs))
unfolding section_of section_header
section_of-SectionAt bs = (refl, refl, refl, refl, refl, refl)

section_of-IsSized : (bs : List ℕ) → All IsByte bs → IsSized (section_of (section_header bs))
unfolding section_of section_header
section_of-IsSized bs h = (u32_at-lt bs 16 h, ground (arith, u32_at-lt bs 16 h, u32_at-lt bs 8 h))

sections_loop-Meets :
    (raw : List ℕ) (sec_off n i : ℕ)
    → sec_off ≡ table_offset raw
    → sec_off + (i + n) * 40 ≤ length raw
    → Returns (Table raw i n) (sections_loop raw sec_off n i)
unfolding sections_loop
sections_loop-Meets raw sec_off zero i q h = (refl, tt, λ bytes. tt, tt)
sections_loop-Meets raw sec_off (suc n) i q h =
    rw (mem_read_ok {E = RejectReason} raw (sec_off + i * 40) 40 (omega arith)) (
      let s = section_of (section_header (slice raw (sec_off + i * 40) 40)) in
      Meets-reject_if ⊥ (Table raw i (suc n)) (ltb (length raw) (s.file_off + s.fsize))
        err_malformed _
        λ inside.
          Meets-bind ⊥ (Table raw (i + 1) n) (Table raw i (suc n))
            (sections_loop raw sec_off n (i + 1)) _
            (sections_loop-Meets raw sec_off n (i + 1) q (omega arith))
            (λ rest _ k. (
              ap suc k.0,
              (ltb→ge _ _ inside, k.1),
              λ bytes.
                  (section_of-IsSized _ (slice-IsByte raw (sec_off + i * 40) 40 bytes), k.2 bytes),
              (rw (sym q) (section_of-SectionAt (slice raw (sec_off + i * 40) 40)), k.3),
            )))

-- What the headers give: the image copies their fields, and its sections lie in the file.
pub record IsHeaders (raw : List ℕ) (r : Image × OptionalHeader) : Type 0 where
  pub image : r.0 ≡ initial_image raw r.1 r.0.sections
  pub in_file : All (InFile raw) r.0.sections
  pub supported : IsSupported r.1
  pub optional : r.1 ≡ optional_header (optional_bytes raw)
  pub count : length r.0.sections ≡ u16_at (coff_bytes raw) 2
  pub table : SectionsAt raw 0 r.0.sections
  pub words : (i : ℕ) → All IsByte raw → IsU32 (find_directory r.1 i).virtual_address
  pub numbers : All IsByte raw → IsWordImage r.0

directory_words :
    (raw : List ℕ) (off i : ℕ) (opt : OptionalHeader)
    → opt ≡ optional_header (slice raw off 224)
    → All IsByte raw
    → IsU32 (find_directory opt i).virtual_address
unfolding find_directory directory optional_header
directory_words raw off i opt e bytes = elim (Bool-cases (ltb i opt.number_of_rva_and_sizes)) [
  | inl t ↦ rw t (
      u32_at-lt opt.data_directory (8 * i) (
        rw (ap (λ (o : OptionalHeader). o.data_directory) e)
          (All-drop IsByte 96 (slice raw off 224) (slice-IsByte raw off 224 bytes))))
  | inr t ↦ rw t (omega arith)
]

optional_words :
    (raw : List ℕ) (off : ℕ) (opt : OptionalHeader)
    → opt ≡ optional_header (slice raw off 224)
    → All IsByte raw
    → IsU32 opt.image_base × IsU32 opt.size_of_headers
unfolding optional_header
optional_words raw off opt e bytes =
    let field = slice-IsByte raw off 224 bytes in
    (
      rw (ap (λ (o : OptionalHeader). o.image_base) e) (u32_at-lt (slice raw off 224) 28 field),
      rw (ap (λ (o : OptionalHeader). o.size_of_headers) e)
          (u32_at-lt (slice raw off 224) 60 field),
    )

-- The headers of any file are read without leaving it.
pub read_headers-Meets :
    (alloc : Alloc) (raw : List ℕ) → Returns (IsHeaders raw) (read_headers alloc raw)
unfolding read_headers coff_header
read_headers-Meets alloc raw =
    let P = IsHeaders raw in
    Meets-bind ⊥ (DosAt raw) P (read_dos_header raw) _ (read_dos_header-Meets raw) λ e _ d.
      Meets-bind ⊥ (CoffAt raw (e + 4)) P (read_coff_header raw (e + 4)) _
        (read_coff_header-Meets raw (e + 4))
        λ coff _ c.
          let off = e + 4 + 20 in
          let size = coff.size_of_optional_header in
          let count = coff.number_of_sections in
          Meets-bind ⊥ (OptAt raw off size) P (read_optional_header raw off size) _
            (read_optional_header-Meets raw off size)
            λ opt _ o.
              Meets-reject_if ⊥ P (ltb (length raw) (off + size + count * 40)) err_truncated _
                λ big.
                  let inside = ltb→ge _ _ big in
                  Meets-bind ⊥ (Table raw 0 count) P (parse_sections alloc raw (off + size) count) _
                    (Meets-reject_if ⊥ (Table raw 0 count)
                      (ltb 0 count && not (alloc at_sections (count * 32))) err_malformed
                      (sections_loop raw (off + size) count 0)
                      λ _.
                        sections_loop-Meets raw (off + size) count 0 (place e coff d.1 c.1)
                          (omega arith))
                    λ sections _ t. record {
                      image = refl;
                      in_file = t.1;
                      supported = o.3;
                      optional =
                          o.2 ∙ ap (λ (k : ℕ). optional_header (slice raw (k + 4 + 20) 224)) d.1;
                      count = t.0 ∙ number e coff d.1 c.1;
                      table = t.3;
                      words = λ i bytes. directory_words raw off i opt o.2 bytes;
                      numbers = λ bytes.
                          let (base, headers) = optional_words raw off opt o.2 bytes in
                          (base, headers, t.2 bytes);
                    }
  where
    number :
        (e : ℕ) (coff : CoffHeader)
        → e ≡ pe_offset raw
        → coff ≡ coff_header (slice raw (e + 4) 20)
        → coff.number_of_sections ≡ u16_at (coff_bytes raw) 2
    number e coff d c =
        ap (λ (h : CoffHeader). h.number_of_sections) c
        ∙ ap (λ (k : ℕ). u16_at (slice raw (k + 4) 20) 2) d

    place :
        (e : ℕ) (coff : CoffHeader)
        → e ≡ pe_offset raw
        → coff ≡ coff_header (slice raw (e + 4) 20)
        → e + 4 + 20 + coff.size_of_optional_header ≡ table_offset raw
    place e coff d c =
        ap (λ (k : ℕ). e + 4 + 20 + k)
          (ap (λ (h : CoffHeader). h.size_of_optional_header) c
            ∙ ap (λ (k : ℕ). u16_at (slice raw (k + 4) 20) 16) d)
        ∙ ap (λ (k : ℕ). k + 4 + 20 + u16_at (coff_bytes raw) 16) d
