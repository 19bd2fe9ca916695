-- ===== src/Samples/Written.antt =====
-- The writer on a disk that takes everything, files that make the program go wrong, the arguments and
-- the dump.
use silver_nimbus_otter.Prelude.{
  Returns, [], arith, fault, inr, map, none, refl, some, true, ◌↔◌, ◌∷◌, ◌≡◌, ◌⊎◌,
}
use silver_nimbus_otter.Samples.{sample, bytes, word, zeros}
use silver_nimbus_otter.Samples.Runs.{one_section}
use silver_nimbus_otter.Samples.Output.{disk, buffers, two_segments}
use silver_nimbus_otter.Host.{roomy}
use silver_nimbus_otter.Bytes.{text, u32_at}
use silver_nimbus_otter.PeFormat.{RelocBlock, reloc_block}
use silver_nimbus_otter.PeImage.{Image, covers, section_ptr, pe_rva_to_ptr}
use silver_nimbus_otter.PeImage.Views.{view_of}
use silver_nimbus_otter.PeRelocs.{parse_relocs_dir}
use silver_nimbus_otter.PeRelocs.Overflow.{parse_relocs_dir_overflows}
use silver_nimbus_otter.Layout.{
  layout_to_elf_spec, layout_sections, section_segment, header_segment, section_flags,
}
use silver_nimbus_otter.ElfSpec.{ElfSpec, in_raw, align_up}
use silver_nimbus_otter.ElfWriter.{elf_write}
use silver_nimbus_otter.ElfWriter.Output.{IsClosed}
use silver_nimbus_otter.ElfWriter.Loading.{load, mapped, elf_write-load}
use silver_nimbus_otter.ElfWriter.Roomy.{elf_write_roomy, Gives}
use silver_nimbus_otter.Convert.{options_loop, no_options, Options}
use silver_nimbus_otter.Convert.Arguments.{options_loop_iff, Reads}
use silver_nimbus_otter.Convert.Overrun.{elf_write_overruns}
use silver_nimbus_otter.Dump.{flags_word, pe_dump}
use silver_nimbus_otter.Dump.Flags.{letters, flags_word-section_flags}
use silver_nimbus_otter.Dump.Shown.{read_dump, shown_section, shown_dll, read_dump-pe_dump}

elf_write-load_example :
    Returns
      (IsClosed disk (λ bytes.
        load bytes ≡ some (two_segments.entry, map (mapped buffers) two_segments.segments)))
      (elf_write disk buffers two_segments)
elf_write-load_example =
    elf_write-load disk buffers two_segments
      ((omega arith, omega arith), ((omega arith, omega arith), tt)) (omega arith)
      (
        (omega arith, omega arith, omega arith, omega arith, omega arith),
        ((omega arith, omega arith, omega arith, omega arith, omega arith), tt),
      )

elf_write_roomy_example :
    Gives
      (λ file. load file ≡ some (two_segments.entry, map (mapped buffers) two_segments.segments))
      (elf_write disk buffers two_segments)
elf_write_roomy_example =
    elf_write_roomy disk (λ p n. refl) buffers two_segments (λ out. refl) refl (omega arith)
      (omega arith) (omega arith, (omega arith, tt))
      ((omega arith, omega arith), ((omega arith, omega arith), tt))
      (inr (λ e. cc), (inr (λ e. cc), tt)) (omega arith)
      (
        (omega arith, omega arith, omega arith, omega arith, omega arith),
        ((omega arith, omega arith, omega arith, omega arith, omega arith), tt),
      )

abbrev asked : Options
asked = record { dump_mode = true; input = some (text "in.exe"); output = none }

options_loop_iff_example :
    (options_loop (text "in.exe" ∷ text "--dump" ∷ []) no_options ≡ some asked)
    ↔ Reads (text "in.exe" ∷ text "--dump" ∷ []) no_options asked
options_loop_iff_example = options_loop_iff (text "in.exe" ∷ text "--dump" ∷ []) no_options asked

flags_word-section_flags_example :
    (flags_word 0xE0000020 ≡ letters (section_flags 0xE0000020))
    ⊎ ((flags_word 0xE0000020 ≡ text "---") × (section_flags 0xE0000020 ≡ 4))
flags_word-section_flags_example = flags_word-section_flags 0xE0000020

read_dump-pe_dump_example :
    read_dump (pe_dump one_section)
    ≡ some ((map shown_section one_section.sections, map shown_dll one_section.imports), [])
read_dump-pe_dump_example = read_dump-pe_dump one_section

-- A directory of relocations that leads back to its start.
abbrev circling : Image
circling = record one_section {
  raw = bytes (zeros 352 ∷ word 0 ∷ word 8 ∷ word 0 ∷ word 0xFFFFFFF8 ∷ zeros 116 ∷ []);
}

abbrev small_block : RelocBlock
small_block = record { virtual_address = 0; size_of_block = 8 }

abbrev huge_block : RelocBlock
huge_block = record { virtual_address = 0; size_of_block = 0xFFFFFFF8 }

parse_relocs_dir_overflows_example : parse_relocs_dir roomy 4 circling 0x1000 16 ≡ fault
unfolding view_of pe_rva_to_ptr section_ptr covers reloc_block u32_at
parse_relocs_dir_overflows_example =
    parse_relocs_dir_overflows roomy 4 circling 0x1000 16 small_block huge_block (omega arith)
      (λ e. absurd (omega arith)) (omega arith)
      (bytes (word 0 ∷ word 8 ∷ []), refl, refl, omega arith) refl
      (bytes (word 0 ∷ word 0xFFFFFFF8 ∷ []), refl, refl, omega arith) refl

-- An image whose headers are longer than its file.
abbrev long_headers : Image
long_headers = record one_section { size_of_headers = 0x1000 }

abbrev long_layout : ElfSpec
long_layout = record {
  entry = 0x401000;
  segments =
      record {
        vaddr = 0x400000;
        flags = 4;
        file_offset = 4096;
        contents = in_raw 0;
        filesz = 4096;
        memsz = 4096;
      }
      ∷ record {
        vaddr = 0x401000;
        flags = 7;
        file_offset = 8192;
        contents = in_raw 352;
        filesz = 132;
        memsz = 132;
      }
      ∷ [];
}

elf_write_overruns_example : elf_write disk (record { raw = sample; shim = [] }) long_layout ≡ fault
unfolding layout_to_elf_spec layout_sections header_segment section_segment section_flags align_up
elf_write_overruns_example =
    elf_write_overruns disk (λ p n. refl) long_headers [] long_layout refl (omega arith)
      (omega arith) refl
