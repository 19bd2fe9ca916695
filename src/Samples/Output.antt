-- ===== src/Samples/Output.antt =====
-- The theorems on the output side, at the sample.
use silver_nimbus_otter.Samples.Runs.{one_section}
use silver_nimbus_otter.Prelude.{Returns, [], arith, false, none, some, true, ℕ, ◌↔◌, ◌∷◌, ◌≡◌, ◌≢◌}
use silver_nimbus_otter.Layout.Order.{layout_to_elf_spec-Ordered}
use silver_nimbus_otter.ShimAbi.Ordinals.{shim_lookup_import-ordinal_name}
use silver_nimbus_otter.ShimAbi.Lookup.{lower, find_entry-First, First}
use silver_nimbus_otter.PeImports.{ordinal_name}
use silver_nimbus_otter.Layout.{layout_to_elf_spec}
use silver_nimbus_otter.Samples.{sample}
use silver_nimbus_otter.Bytes.{text}
use silver_nimbus_otter.ShimAbi.{entry, shim_lookup_import, find_entry, ImportEntry}
use silver_nimbus_otter.ElfWriter.{OutputFile, Buffers}
use silver_nimbus_otter.ElfSpec.{page_size, in_raw, Ordered, ElfSpec}

abbrev sleep_entry : ImportEntry
sleep_entry = entry (text "KERNEL32.dll") (text "Sleep") (text "shim_Sleep") false

find_entry-First_example :
    (find_entry (sleep_entry ∷ []) (text "kernel32.DLL") (text "Sleep") ≡ some sleep_entry)
    ↔ First (text "kernel32.DLL") (text "Sleep") (sleep_entry ∷ []) sleep_entry
find_entry-First_example =
    find_entry-First (sleep_entry ∷ []) (text "kernel32.DLL") (text "Sleep") sleep_entry

shim_lookup_import-ordinal_name_example :
    (shim_lookup_import (text "ComCtl32.dll") (ordinal_name 17) ≢ none)
    ↔ (◌≡◌ {A = ℕ} 17 17 × (lower (text "ComCtl32.dll") ≡ text "comctl32.dll"))
shim_lookup_import-ordinal_name_example =
    shim_lookup_import-ordinal_name (text "ComCtl32.dll") 17 (omega arith)

layout_to_elf_spec-Ordered_example :
    Returns (λ spec. Ordered page_size spec.segments) (layout_to_elf_spec one_section)
layout_to_elf_spec-Ordered_example = layout_to_elf_spec-Ordered one_section (omega arith)

abbrev pub disk : OutputFile
disk = record { can_open = true; room = λ p n. true; closed = λ out. out }

abbrev pub buffers : Buffers
buffers = record { raw = sample; shim = [] }

abbrev pub two_segments : ElfSpec
two_segments = record {
  entry = 0x401000;
  segments =
      record {
        vaddr = 0x400000;
        flags = 4;
        file_offset = 4096;
        contents = in_raw 0;
        filesz = 352;
        memsz = 352;
      }
      ∷ record {
        vaddr = 0x401000;
        flags = 7;
        file_offset = 8192;
        contents = in_raw 352;
        filesz = 132;
        memsz = 132;
      }
      ∷ [];
}
