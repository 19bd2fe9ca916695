-- ===== src/Elf32.antt =====
-- include/elf32_format.h: the packed structures of an ELF file, and their bytes.
pub mod Fields
use silver_nimbus_otter.Prelude.{List, take, ℕ, ◌++◌}
use silver_nimbus_otter.Bytes.{le16, le32, u16_at, u32_at}

abbrev pub elfmag0 : ℕ
elfmag0 = 0x7F

abbrev pub elfmag1 : ℕ
elfmag1 = b'E'

abbrev pub elfmag2 : ℕ
elfmag2 = b'L'

abbrev pub elfmag3 : ℕ
elfmag3 = b'F'

abbrev pub elfclass32 : ℕ
elfclass32 = 1

abbrev pub elfdata2lsb : ℕ
elfdata2lsb = 1

abbrev pub ev_current : ℕ
ev_current = 1

abbrev pub elfosabi_sysv : ℕ
elfosabi_sysv = 0

abbrev pub et_exec : ℕ
et_exec = 2

abbrev pub em_386 : ℕ
em_386 = 3

abbrev pub pt_load : ℕ
pt_load = 1

abbrev pub sizeof_ehdr : ℕ
sizeof_ehdr = 52

abbrev pub sizeof_phdr : ℕ
sizeof_phdr = 32

-- `e_ident` keeps its sixteen bytes.
pub record Ehdr : Type 0 where
  pub e_ident : List ℕ
  pub e_type : ℕ
  pub e_machine : ℕ
  pub e_version : ℕ
  pub e_entry : ℕ
  pub e_phoff : ℕ
  pub e_shoff : ℕ
  pub e_flags : ℕ
  pub e_ehsize : ℕ
  pub e_phentsize : ℕ
  pub e_phnum : ℕ
  pub e_shentsize : ℕ
  pub e_shnum : ℕ
  pub e_shstrndx : ℕ

pub record Phdr : Type 0 where
  pub p_type : ℕ
  pub p_offset : ℕ
  pub p_vaddr : ℕ
  pub p_paddr : ℕ
  pub p_filesz : ℕ
  pub p_memsz : ℕ
  pub p_flags : ℕ
  pub p_align : ℕ

-- The bytes of the structures.
unfoldable pub bytes_of_ehdr : Ehdr → List ℕ
unfolding le16 le32
bytes_of_ehdr eh =
    eh.e_ident
    ++ (le16 eh.e_type
        ++ (le16 eh.e_machine
            ++ (le32 eh.e_version
                ++ (le32 eh.e_entry
                    ++ (le32 eh.e_phoff
                        ++ (le32 eh.e_shoff
                            ++ (le32 eh.e_flags
                                ++ (le16 eh.e_ehsize
                                    ++ (le16 eh.e_phentsize
                                        ++ (le16 eh.e_phnum
                                            ++ (le16 eh.e_shentsize
                                                ++ (le16 eh.e_shnum
                                                    ++ le16 eh.e_shstrndx))))))))))))

unfoldable pub bytes_of_phdr : Phdr → List ℕ
unfolding le32
bytes_of_phdr ph =
    le32 ph.p_type
    ++ (le32 ph.p_offset
        ++ (le32 ph.p_vaddr
            ++ (le32 ph.p_paddr
                ++ (le32 ph.p_filesz
                    ++ (le32 ph.p_memsz ++ (le32 ph.p_flags ++ le32 ph.p_align))))))

-- The structures that the bytes hold.
unfoldable pub ehdr : List ℕ → Ehdr
unfolding u16_at u32_at
ehdr bs = record {
  e_ident = take 16 bs;
  e_type = u16_at bs 16;
  e_machine = u16_at bs 18;
  e_version = u32_at bs 20;
  e_entry = u32_at bs 24;
  e_phoff = u32_at bs 28;
  e_shoff = u32_at bs 32;
  e_flags = u32_at bs 36;
  e_ehsize = u16_at bs 40;
  e_phentsize = u16_at bs 42;
  e_phnum = u16_at bs 44;
  e_shentsize = u16_at bs 46;
  e_shnum = u16_at bs 48;
  e_shstrndx = u16_at bs 50;
}

unfoldable pub phdr : List ℕ → Phdr
unfolding u32_at
phdr bs = record {
  p_type = u32_at bs 0;
  p_offset = u32_at bs 4;
  p_vaddr = u32_at bs 8;
  p_paddr = u32_at bs 12;
  p_filesz = u32_at bs 16;
  p_memsz = u32_at bs 20;
  p_flags = u32_at bs 24;
  p_align = u32_at bs 28;
}
