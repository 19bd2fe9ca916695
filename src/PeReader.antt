-- ===== src/PeReader.antt =====
-- src/pe_reader.c: reading the file, its headers and its section table, and the parse as a whole.
pub mod Fields
pub mod Headers
pub mod Sections
pub mod Told
pub mod Loaded
pub mod Contents
pub mod Load
use silver_nimbus_otter.Prelude.{
  Bool, List, Option, [], false, if◌then◌else◌, leb, length, ltb, none, not, ok, reject_if,
  rejected, some, suc, take, test_bit, zero, ℕ, ◌&&◌, ◌*◌, ◌+◌, ◌==◌, ◌||◌, ◌∷◌, ◌>>=◌, ◌>>◌,
}
use silver_nimbus_otter.Bytes.{mem_read, u32_at}
use silver_nimbus_otter.Diagnostics.{
  err_open, err_truncated, err_bad_dos_magic, err_bad_nt_signature, err_not_i386, err_is_dll,
  err_not_executable, err_pe32plus, err_bad_opthdr_magic, err_unsupported_subsystem, err_has_dotnet,
  err_delay_imports, err_malformed, err_imagebase_conflict, Parse,
}
use silver_nimbus_otter.Host.{Alloc, at_file, at_sections}
use silver_nimbus_otter.PeFormat.{
  dos_magic, nt_signature, machine_i386, opthdr32_magic, opthdr64_magic, subsystem_windows_gui,
  subsystem_windows_cui, file_dll_bit, file_executable_bit, dir_import, dir_basereloc, dir_tls,
  dir_delay_import, dir_com_descriptor, num_directories, sizeof_dos_header, sizeof_coff_header,
  sizeof_optional_header, sizeof_section_header, dos_header, CoffHeader, coff_header, DataDirectory,
  OptionalHeader, optional_header, directory, SectionHeader, section_header,
}
use silver_nimbus_otter.PeImage.{Section, Image}
use silver_nimbus_otter.PeImports.{parse_imports_dir}
use silver_nimbus_otter.PeRelocs.{parse_relocs_dir}
use silver_nimbus_otter.PeTls.{parse_tls_dir}

-- The input file as the C library shows it: whether it opens and seeks, the size that `ftell` gives
-- (`none` below 0), and the bytes that `fread` delivers.
pub record InputFile : Type 0 where
  pub can_open : Bool
  pub can_seek : Bool
  pub told_size : Option ℕ
  pub contents : List ℕ

abbrev pub or_open {ℓ} : {A : Type ℓ} → Option A → Parse A
or_open none = rejected err_open
or_open (some a) = ok a

unfoldable pub read_whole_file : Alloc → InputFile → Parse (List ℕ)
read_whole_file alloc f = do
  reject_if (not f.can_open) err_open
  reject_if (not f.can_seek) err_open
  size ← or_open f.told_size
  reject_if (not (alloc at_file size)) err_open
  let buf = take size f.contents
  reject_if (ltb 0 size && not (length buf == size)) err_truncated
  ok buf

-- `sizeof(pe_section_t)`
abbrev pub sizeof_section : ℕ
sizeof_section = 32

unfoldable pub section_of : SectionHeader → Section
section_of sh = record {
  name = sh.name;
  rva = sh.virtual_address;
  vsize = if sh.virtual_size == 0 then sh.size_of_raw_data else sh.virtual_size;
  file_off = sh.pointer_to_raw_data;
  fsize = sh.size_of_raw_data;
  characteristics = sh.characteristics;
}

-- `n` headers are left, the next at index `i`.
unfoldable pub sections_loop : List ℕ → ℕ → ℕ → ℕ → Parse (List Section)
unfolding section_of
sections_loop raw sec_off zero i = ok []
sections_loop raw sec_off (suc n) i = do
  bs ← mem_read raw (sec_off + i * sizeof_section_header) sizeof_section_header
  let s = section_of (section_header bs)
  reject_if (ltb (length raw) (s.file_off + s.fsize)) err_malformed
  rest ← sections_loop raw sec_off n (i + 1)
  ok (s ∷ rest)

-- The count comes from a uint16_t, so the source's test for a negative one never holds.
unfoldable pub parse_sections : Alloc → List ℕ → ℕ → ℕ → Parse (List Section)
unfolding sections_loop
parse_sections alloc raw sec_off n = do
  reject_if (ltb 0 n && not (alloc at_sections (n * sizeof_section))) err_malformed
  sections_loop raw sec_off n 0

-- Up to the NT signature; the result is `e_lfanew`.
unfoldable pub read_dos_header : List ℕ → Parse ℕ
read_dos_header raw = do
  reject_if (ltb (length raw) sizeof_dos_header) err_truncated
  bs ← mem_read raw 0 sizeof_dos_header
  let dos = dos_header bs
  reject_if (not (dos.e_magic == dos_magic)) err_bad_dos_magic
  reject_if (leb 2147483648 dos.e_lfanew || ltb (length raw) (dos.e_lfanew + 4)) err_malformed
  sig ← mem_read raw dos.e_lfanew 4
  reject_if (not (u32_at sig 0 == nt_signature)) err_bad_nt_signature
  ok dos.e_lfanew

unfoldable pub read_coff_header : List ℕ → ℕ → Parse CoffHeader
read_coff_header raw coff_off = do
  reject_if (ltb (length raw) (coff_off + sizeof_coff_header)) err_truncated
  bs ← mem_read raw coff_off sizeof_coff_header
  let coff = coff_header bs
  reject_if (not (coff.machine == machine_i386)) err_not_i386
  reject_if (test_bit coff.characteristics file_dll_bit) err_is_dll
  reject_if (not (test_bit coff.characteristics file_executable_bit)) err_not_executable
  ok coff

-- The tests on the optional header, in the source's order.
unfoldable pub check_optional_header : OptionalHeader → Parse OptionalHeader
check_optional_header opt = do
  let dirs = opt.number_of_rva_and_sizes
  reject_if (opt.magic == opthdr64_magic) err_pe32plus
  reject_if (not (opt.magic == opthdr32_magic)) err_bad_opthdr_magic
  reject_if
      (not (opt.subsystem == subsystem_windows_cui) && not (opt.subsystem == subsystem_windows_gui))
      err_unsupported_subsystem
  reject_if (ltb num_directories dirs) err_malformed
  reject_if (ltb dir_com_descriptor dirs && not ((directory opt dir_com_descriptor).size == 0))
      err_has_dotnet
  reject_if (ltb dir_delay_import dirs && not ((directory opt dir_delay_import).size == 0))
      err_delay_imports
  reject_if (opt.image_base == 0) err_imagebase_conflict
  ok opt

unfoldable pub read_optional_header : List ℕ → ℕ → ℕ → Parse OptionalHeader
unfolding check_optional_header
read_optional_header raw opthdr_off size = do
  reject_if
      (ltb size sizeof_optional_header || ltb (length raw) (opthdr_off + sizeof_optional_header))
      err_truncated
  bs ← mem_read raw opthdr_off sizeof_optional_header
  check_optional_header (optional_header bs)

-- A directory that the header does not count is absent.
unfoldable pub find_directory : OptionalHeader → ℕ → DataDirectory
find_directory opt i =
    if ltb i opt.number_of_rva_and_sizes
    then directory opt i
    else record { virtual_address = 0; size = 0 }

unfoldable pub initial_image : List ℕ → OptionalHeader → List Section → Image
initial_image raw opt sections = record {
  image_base = opt.image_base;
  entry_point_rva = opt.address_of_entry_point;
  size_of_image = opt.size_of_image;
  size_of_headers = opt.size_of_headers;
  subsystem = opt.subsystem;
  section_alignment = opt.section_alignment;
  file_alignment = opt.file_alignment;
  sections = sections;
  imports_cap = 0;
  imports = [];
  relocs = [];
  has_tls = false;
  tls_has_callbacks = false;
  tls_callback_rvas = [];
  raw = raw;
}

-- The headers and the section table; the result is the image so far and the optional header.
unfoldable pub read_headers : Alloc → List ℕ → Parse (Image × OptionalHeader)
unfolding read_dos_header read_coff_header read_optional_header parse_sections initial_image
read_headers alloc raw = do
  e_lfanew ← read_dos_header raw
  let coff_off = e_lfanew + 4
  coff ← read_coff_header raw coff_off
  let opthdr_off = coff_off + sizeof_coff_header
  opt ← read_optional_header raw opthdr_off coff.size_of_optional_header
  let sec_off = opthdr_off + coff.size_of_optional_header
  let count = coff.number_of_sections
  reject_if (ltb (length raw) (sec_off + count * sizeof_section_header)) err_truncated
  sections ← parse_sections alloc raw sec_off count
  ok (initial_image raw opt sections, opt)

unfoldable pub parse_directories : Alloc → ℕ → Image → OptionalHeader → Parse Image
unfolding find_directory parse_imports_dir parse_relocs_dir parse_tls_dir
parse_directories alloc fuel img opt = do
  let imports = find_directory opt dir_import
  let relocs = find_directory opt dir_basereloc
  let tls = find_directory opt dir_tls
  with_imports ← parse_imports_dir alloc fuel img imports.virtual_address imports.size
  with_relocs ← parse_relocs_dir alloc fuel with_imports relocs.virtual_address relocs.size
  parse_tls_dir with_relocs tls.virtual_address tls.size

unfoldable pub parse_image : Alloc → ℕ → List ℕ → Parse Image
unfolding read_headers parse_directories
parse_image alloc fuel raw = do
  (img, opt) ← read_headers alloc raw
  parse_directories alloc fuel img opt

unfoldable pub pe_image_load : Alloc → ℕ → InputFile → Parse Image
unfolding read_whole_file parse_image
pe_image_load alloc fuel f = do raw ← read_whole_file alloc f; parse_image alloc fuel raw
