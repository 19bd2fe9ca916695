-- ===== src/Samples/Runs.antt =====
-- The reader on the sample, and the reader's theorems at it.
pub mod Loads
use silver_nimbus_otter.Prelude.{
  All, Bool, List, Returns, [], arith, false, ltb, map, ok, refl, some, true, ℕ, ◌&&◌, ◌↔◌, ◌∷◌,
  ◌≡◌,
}
use silver_nimbus_otter.PeRelocs.Directory.{parse_relocs_dir-Meets, OnlyRelocs}
use silver_nimbus_otter.PeTls.Callbacks.{parse_tls_dir-Meets, TlsParsed}
use silver_nimbus_otter.PeRelocs.Passes.{fill_loop-Meets}
use silver_nimbus_otter.PeReader.Sections.{read_headers-Meets, IsHeaders}
use silver_nimbus_otter.PeImports.Directory.{parse_imports_dir-Meets, Parsed}
use silver_nimbus_otter.PeImage.Mapping.{pe_rva_to_ptr_exact, MapsTo}
use silver_nimbus_otter.Bytes.{text, IsByte, mem_read, u16_at, u32_at}
use silver_nimbus_otter.PeFormat.{
  dos_header, coff_header, optional_header, directory, section_header, import_descriptor,
  reloc_block, tls_directory,
}
use silver_nimbus_otter.PeImage.{Image, covers, section_ptr, pe_rva_to_ptr}
use silver_nimbus_otter.PeImports.{
  ensure_capacity, probe, read_c_string_loop, read_c_string, decimal, ordinal_name, thunk_name,
  add_func, thunk_loop, parse_one_dll, imports_loop, parse_imports_dir,
}
use silver_nimbus_otter.PeRelocs.{
  count_loop, store_reloc, add_entry, entries_loop, fill_loop, parse_relocs_dir,
}
use silver_nimbus_otter.PeTls.{callbacks_loop, parse_tls_dir}
use silver_nimbus_otter.PeReader.{
  section_of, sections_loop, parse_sections, read_dos_header, read_coff_header,
  check_optional_header, read_optional_header, find_directory, initial_image, read_headers,
  parse_directories, parse_image,
}
use silver_nimbus_otter.PeReader.Loaded.{parse_image-Meets, IsLoaded}
use silver_nimbus_otter.Host.{roomy}
use silver_nimbus_otter.Diagnostics.{Parse}
use silver_nimbus_otter.Samples.{sample}

unfoldable pub all_bytes : List ℕ → Bool
all_bytes [] = true
all_bytes (b ∷ bs) = ltb b 256 && all_bytes bs

pub all_bytes_sound : (bs : List ℕ) → all_bytes bs ≡ true → All IsByte bs
unfolding all_bytes
all_bytes_sound [] h = tt
all_bytes_sound (b ∷ bs) h = (ground arith, all_bytes_sound bs (ground arith))

pub sample-IsByte : All IsByte sample
unfolding all_bytes
sample-IsByte = all_bytes_sound sample refl

-- The parse of the sample; to unfold it is to unfold all that the reader calls.
pub load_sample : ℕ → Parse Image
unfolding mem_read u16_at u32_at dos_header coff_header optional_header directory section_header
    import_descriptor reloc_block tls_directory covers section_ptr pe_rva_to_ptr ensure_capacity
    probe read_c_string_loop read_c_string decimal ordinal_name thunk_name add_func thunk_loop
    parse_one_dll imports_loop parse_imports_dir count_loop store_reloc add_entry entries_loop
    fill_loop parse_relocs_dir callbacks_loop parse_tls_dir section_of sections_loop parse_sections
    read_dos_header read_coff_header check_optional_header read_optional_header find_directory
    initial_image read_headers parse_directories parse_image
load_sample fuel = parse_image roomy fuel sample

-- What the reader keeps of an accepted image.
names_of : Parse Image → List (List (List ℕ))
names_of (ok img) = map (λ dll. dll.dll_name ∷ map (λ fn. fn.name) dll.funcs) img.imports
names_of other = []

relocs_of : Parse Image → List ℕ
relocs_of (ok img) = img.relocs
relocs_of other = []

sample_names :
    names_of (load_sample 8) ≡ (text "KERNEL32.dll" ∷ text "Sleep" ∷ text "#17" ∷ []) ∷ []
unfolding load_sample names_of
sample_names = refl

sample_relocs : relocs_of (load_sample 8) ≡ 0x1010 ∷ []
unfolding load_sample relocs_of
sample_relocs = refl

-- An image with one section, for the parts of the reader.
abbrev pub one_section : Image
one_section = record {
  image_base = 0x400000;
  entry_point_rva = 0x1000;
  size_of_image = 0x2000;
  size_of_headers = 352;
  subsystem = 3;
  section_alignment = 0x1000;
  file_alignment = 0x200;
  sections =
      record {
        name = text ".text";
        rva = 0x1000;
        vsize = 132;
        file_off = 352;
        fsize = 132;
        characteristics = 0xE0000020;
      }
      ∷ [];
  imports_cap = 0;
  imports = [];
  relocs = [];
  has_tls = false;
  tls_has_callbacks = false;
  tls_callback_rvas = [];
  raw = sample;
}

pe_rva_to_ptr_exact_example :
    (pe_rva_to_ptr one_section 0x1040 4 ≡ some 416) ↔ MapsTo one_section 0x1040 4 416
pe_rva_to_ptr_exact_example = pe_rva_to_ptr_exact one_section 0x1040 4 416 (omega arith) (tt, tt)

parse_tls_dir-Meets_example : Returns (TlsParsed one_section) (parse_tls_dir one_section 0x1064 24)
parse_tls_dir-Meets_example = parse_tls_dir-Meets one_section 0x1064 24 refl
