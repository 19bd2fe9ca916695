-- ===== src/PeReader/Fields.antt =====
-- Where the headers of a PE file stand: the layout of include/pe_format.h as offsets in the file.
use silver_nimbus_otter.Prelude.{
  List, [], drop, if◌then◌else◌, length, ltb, take, ℕ, ◌*◌, ◌+◌, ◌==◌, ◌∷◌, ◌≡◌, ◌≢◌, ◌≤◌, ◌⊎◌,
}
use silver_nimbus_otter.Bytes.{slice, u16_at, u32_at}
use silver_nimbus_otter.PeImage.{Section, Image}

-- The DOS header is 64 bytes long and tells at 60 where the PE headers stand.
abbrev pub pe_offset : List ℕ → ℕ
pe_offset raw = u32_at (slice raw 0 64) 60

-- Behind a signature of four bytes stand 20 bytes with the number of the sections, at 2, and with the
-- size of the optional header, at 16.
abbrev pub coff_bytes : List ℕ → List ℕ
coff_bytes raw = slice raw (pe_offset raw + 4) 20

abbrev pub optional_bytes : List ℕ → List ℕ
optional_bytes raw = slice raw (pe_offset raw + 4 + 20) 224

-- The section table stands behind the optional header.
abbrev pub table_offset : List ℕ → ℕ
table_offset raw = pe_offset raw + 4 + 20 + u16_at (coff_bytes raw) 16

-- A directory's address and size: eight bytes for each, from 96 on, as many as the number at 92.
abbrev pub directory_at : List ℕ → ℕ → ℕ × ℕ
directory_at raw i =
    let bs = optional_bytes raw in
    if ltb i (u32_at bs 92)
    then (u32_at (drop 96 bs) (8 * i), u32_at (drop 96 bs) (8 * i + 4))
    else (0, 0)

-- A section by the 40 bytes of its header.
abbrev pub SectionAt : List ℕ → Section → Type 0
SectionAt bs s =
    (s.name ≡ take 8 bs)
    × (s.rva ≡ u32_at bs 12)
    × (s.vsize ≡ (if u32_at bs 8 == 0 then u32_at bs 16 else u32_at bs 8))
    × (s.fsize ≡ u32_at bs 16)
    × (s.file_off ≡ u32_at bs 20)
    × (s.characteristics ≡ u32_at bs 36)

-- The sections of the table from index `i` on.
abbrev pub SectionsAt : List ℕ → ℕ → List Section → Type 0
SectionsAt raw i [] = Unit
SectionsAt raw i (s ∷ sections) =
    SectionAt (slice raw (table_offset raw + i * 40) 40) s × SectionsAt raw (i + 1) sections

-- A PE32 program for a console or a GUI, of at most sixteen directories, without .NET metadata,
-- without delayed imports and with an image base.
abbrev pub IsProgramFile : List ℕ → Type 0
IsProgramFile raw =
    let bs = optional_bytes raw in
    (u16_at bs 0 ≡ 0x010B)
    × ((u16_at bs 68 ≡ 3) ⊎ (u16_at bs 68 ≡ 2))
    × (u32_at bs 92 ≤ 16)
    × ((directory_at raw 14).1 ≡ 0)
    × ((directory_at raw 13).1 ≡ 0)
    × (u32_at bs 28 ≢ 0)

-- What the headers of the file say of the image.
abbrev pub FieldsAt : List ℕ → Image → Type 0
FieldsAt raw img =
    let bs = optional_bytes raw in
    (img.entry_point_rva ≡ u32_at bs 16)
    × (img.image_base ≡ u32_at bs 28)
    × (img.section_alignment ≡ u32_at bs 32)
    × (img.file_alignment ≡ u32_at bs 36)
    × (img.size_of_image ≡ u32_at bs 56)
    × (img.size_of_headers ≡ u32_at bs 60)
    × (img.subsystem ≡ u16_at bs 68)
    × (length img.sections ≡ u16_at (coff_bytes raw) 2)
    × SectionsAt raw 0 img.sections
