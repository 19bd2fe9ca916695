-- ===== src/PeFormat.antt =====
-- include/pe_format.h: the packed structures of a PE file, each with the function that reads its
-- fields out of the bytes that `memcpy` put over it.
use silver_nimbus_otter.Prelude.{List, drop, take, ℕ, ◌*◌, ◌+◌}
use silver_nimbus_otter.Bytes.{u16_at, u32_at}

abbrev pub dos_magic : ℕ
dos_magic = 0x5A4D

abbrev pub nt_signature : ℕ
nt_signature = 0x00004550

abbrev pub machine_i386 : ℕ
machine_i386 = 0x014C

abbrev pub opthdr32_magic : ℕ
opthdr32_magic = 0x010B

abbrev pub opthdr64_magic : ℕ
opthdr64_magic = 0x020B

abbrev pub subsystem_windows_gui : ℕ
subsystem_windows_gui = 2

abbrev pub subsystem_windows_cui : ℕ
subsystem_windows_cui = 3

-- The bits of PE_FILE_DLL, PE_FILE_EXECUTABLE, PE_SCN_MEM_* and PE_ORDINAL_FLAG32.
abbrev pub file_dll_bit : ℕ
file_dll_bit = 13

abbrev pub file_executable_bit : ℕ
file_executable_bit = 1

abbrev pub scn_mem_execute_bit : ℕ
scn_mem_execute_bit = 29

abbrev pub scn_mem_read_bit : ℕ
scn_mem_read_bit = 30

abbrev pub scn_mem_write_bit : ℕ
scn_mem_write_bit = 31

abbrev pub ordinal_flag_bit : ℕ
ordinal_flag_bit = 31

abbrev pub dir_import : ℕ
dir_import = 1

abbrev pub dir_basereloc : ℕ
dir_basereloc = 5

abbrev pub dir_tls : ℕ
dir_tls = 9

abbrev pub dir_delay_import : ℕ
dir_delay_import = 13

abbrev pub dir_com_descriptor : ℕ
dir_com_descriptor = 14

abbrev pub num_directories : ℕ
num_directories = 16

abbrev pub rel_based_absolute : ℕ
rel_based_absolute = 0

abbrev pub rel_based_highlow : ℕ
rel_based_highlow = 3

-- `sizeof` of each structure.
abbrev pub sizeof_dos_header : ℕ
sizeof_dos_header = 64

abbrev pub sizeof_coff_header : ℕ
sizeof_coff_header = 20

abbrev pub sizeof_optional_header : ℕ
sizeof_optional_header = 224

abbrev pub sizeof_section_header : ℕ
sizeof_section_header = 40

abbrev pub sizeof_import_descriptor : ℕ
sizeof_import_descriptor = 20

abbrev pub sizeof_import_by_name : ℕ
sizeof_import_by_name = 2

abbrev pub sizeof_reloc_block : ℕ
sizeof_reloc_block = 8

abbrev pub sizeof_tls_directory : ℕ
sizeof_tls_directory = 24

-- `e_lfanew` is the bit pattern of an int32_t.
pub record DosHeader : Type 0 where
  pub e_magic : ℕ
  pub e_lfanew : ℕ

unfoldable pub dos_header : List ℕ → DosHeader
dos_header bs = record { e_magic = u16_at bs 0; e_lfanew = u32_at bs 60 }

pub record CoffHeader : Type 0 where
  pub machine : ℕ
  pub number_of_sections : ℕ
  pub time_date_stamp : ℕ
  pub pointer_to_symbol_table : ℕ
  pub number_of_symbols : ℕ
  pub size_of_optional_header : ℕ
  pub characteristics : ℕ

unfoldable pub coff_header : List ℕ → CoffHeader
coff_header bs = record {
  machine = u16_at bs 0;
  number_of_sections = u16_at bs 2;
  time_date_stamp = u32_at bs 4;
  pointer_to_symbol_table = u32_at bs 8;
  number_of_symbols = u32_at bs 12;
  size_of_optional_header = u16_at bs 16;
  characteristics = u16_at bs 18;
}

pub record DataDirectory : Type 0 where
  pub virtual_address : ℕ
  pub size : ℕ

-- The fields of the optional header that the reader looks at, and its directories.
pub record OptionalHeader : Type 0 where
  pub magic : ℕ
  pub address_of_entry_point : ℕ
  pub image_base : ℕ
  pub section_alignment : ℕ
  pub file_alignment : ℕ
  pub size_of_image : ℕ
  pub size_of_headers : ℕ
  pub subsystem : ℕ
  pub number_of_rva_and_sizes : ℕ
  pub data_directory : List ℕ

unfoldable pub optional_header : List ℕ → OptionalHeader
optional_header bs = record {
  magic = u16_at bs 0;
  address_of_entry_point = u32_at bs 16;
  image_base = u32_at bs 28;
  section_alignment = u32_at bs 32;
  file_alignment = u32_at bs 36;
  size_of_image = u32_at bs 56;
  size_of_headers = u32_at bs 60;
  subsystem = u16_at bs 68;
  number_of_rva_and_sizes = u32_at bs 92;
  data_directory = drop 96 bs;
}

-- `opt.DataDirectory[i]`
unfoldable pub directory : OptionalHeader → ℕ → DataDirectory
directory opt i = record {
  virtual_address = u32_at opt.data_directory (8 * i);
  size = u32_at opt.data_directory (8 * i + 4);
}

pub record SectionHeader : Type 0 where
  pub name : List ℕ
  pub virtual_size : ℕ
  pub virtual_address : ℕ
  pub size_of_raw_data : ℕ
  pub pointer_to_raw_data : ℕ
  pub characteristics : ℕ

unfoldable pub section_header : List ℕ → SectionHeader
section_header bs = record {
  name = take 8 bs;
  virtual_size = u32_at bs 8;
  virtual_address = u32_at bs 12;
  size_of_raw_data = u32_at bs 16;
  pointer_to_raw_data = u32_at bs 20;
  characteristics = u32_at bs 36;
}

pub record ImportDescriptor : Type 0 where
  pub original_first_thunk : ℕ
  pub time_date_stamp : ℕ
  pub forwarder_chain : ℕ
  pub name : ℕ
  pub first_thunk : ℕ

unfoldable pub import_descriptor : List ℕ → ImportDescriptor
import_descriptor bs = record {
  original_first_thunk = u32_at bs 0;
  time_date_stamp = u32_at bs 4;
  forwarder_chain = u32_at bs 8;
  name = u32_at bs 12;
  first_thunk = u32_at bs 16;
}

pub record RelocBlock : Type 0 where
  pub virtual_address : ℕ
  pub size_of_block : ℕ

unfoldable pub reloc_block : List ℕ → RelocBlock
reloc_block bs = record { virtual_address = u32_at bs 0; size_of_block = u32_at bs 4 }

pub record TlsDirectory : Type 0 where
  pub start_address_of_raw_data : ℕ
  pub end_address_of_raw_data : ℕ
  pub address_of_index : ℕ
  pub address_of_callbacks : ℕ
  pub size_of_zero_fill : ℕ
  pub characteristics : ℕ

unfoldable pub tls_directory : List ℕ → TlsDirectory
tls_directory bs = record {
  start_address_of_raw_data = u32_at bs 0;
  end_address_of_raw_data = u32_at bs 4;
  address_of_index = u32_at bs 8;
  address_of_callbacks = u32_at bs 12;
  size_of_zero_fill = u32_at bs 16;
  characteristics = u32_at bs 20;
}
