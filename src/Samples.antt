-- ===== src/Samples.antt =====
-- A small PE file for the tests: one section, which holds an import by name, an import by ordinal, a
-- block of relocations and one TLS callback.
mod Runs
mod Output
mod Shim
mod Process
mod Written
use silver_nimbus_otter.Prelude.{List, [], replicate, ℕ, ◌%◌, ◌++◌, ◌/◌, ◌∷◌}
use silver_nimbus_otter.Bytes.{text}

abbrev pub half : ℕ → List ℕ
half v = v % 256 ∷ v / 256 % 256 ∷ []

abbrev pub word : ℕ → List ℕ
word v = v % 256 ∷ v / 256 % 256 ∷ v / 65536 % 256 ∷ v / 16777216 % 256 ∷ []

abbrev pub zeros : ℕ → List ℕ
zeros n = replicate n 0

abbrev pub bytes : List (List ℕ) → List ℕ
bytes [] = []
bytes (p ∷ ps) = p ++ bytes ps

abbrev dos_part : List ℕ
dos_part = bytes (half 0x5A4D ∷ zeros 58 ∷ word 64 ∷ [])

abbrev coff_part : List ℕ
coff_part = bytes (word 0x4550 ∷ half 0x14C ∷ half 1 ∷ zeros 12 ∷ half 224 ∷ half 0x0102 ∷ [])

-- The standard fields, then the directories: imports, relocations and TLS.
abbrev optional_part : List ℕ
optional_part = bytes (
    half 0x10B
    ∷ zeros 14
    ∷ word 0x1000
    ∷ zeros 8
    ∷ word 0x400000
    ∷ word 0x1000
    ∷ word 0x200
    ∷ zeros 16
    ∷ word 0x2000
    ∷ word 352
    ∷ zeros 4
    ∷ half 3
    ∷ zeros 22
    ∷ word 16
    ∷ zeros 8
    ∷ word 0x1000
    ∷ word 40
    ∷ zeros 24
    ∷ word 0x1058
    ∷ word 12
    ∷ zeros 24
    ∷ word 0x1064
    ∷ word 24
    ∷ zeros 48
    ∷ [])

abbrev section_part : List ℕ
section_part = bytes (
    text ".text"
    ∷ zeros 3
    ∷ word 132
    ∷ word 0x1000
    ∷ word 132
    ∷ word 352
    ∷ zeros 12
    ∷ word 0xE0000020
    ∷ [])

abbrev import_part : List ℕ
import_part = bytes (
    word 0x1028
    ∷ zeros 8
    ∷ word 0x1040
    ∷ word 0x1034
    ∷ zeros 20
    ∷ word 0x104D
    ∷ word 0x80000011
    ∷ zeros 4
    ∷ word 0x104D
    ∷ word 0x80000011
    ∷ zeros 4
    ∷ text "KERNEL32.dll"
    ∷ zeros 3
    ∷ text "Sleep"
    ∷ zeros 4
    ∷ [])

abbrev reloc_part : List ℕ
reloc_part = bytes (word 0x1000 ∷ word 12 ∷ half 0x3010 ∷ half 0 ∷ [])

abbrev tls_part : List ℕ
tls_part = bytes (zeros 12 ∷ word 0x40107C ∷ zeros 8 ∷ word 0x401000 ∷ word 0 ∷ [])

abbrev pub sample : List ℕ
sample =
    bytes (
      dos_part ∷ coff_part ∷ optional_part ∷ section_part ∷ import_part ∷ reloc_part ∷ tls_part
      ∷ [])
