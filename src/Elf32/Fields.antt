-- ===== src/Elf32/Fields.antt =====
-- include/elf32_format.h: a program header is read back from its bytes.
use silver_nimbus_otter.Prelude.{arith, refl, ℕ, ◌%◌, ◌*◌, ◌+◌, ◌/◌, ◌≡◌}
use silver_nimbus_otter.Bytes.{IsU32}
use silver_nimbus_otter.Elf32.{Phdr, phdr, bytes_of_phdr}

-- Every field has its 32 bits.
pub record IsPhdr (ph : Phdr) : Type 0 where
  pub p_type : IsU32 ph.p_type
  pub p_offset : IsU32 ph.p_offset
  pub p_vaddr : IsU32 ph.p_vaddr
  pub p_paddr : IsU32 ph.p_paddr
  pub p_filesz : IsU32 ph.p_filesz
  pub p_memsz : IsU32 ph.p_memsz
  pub p_flags : IsU32 ph.p_flags
  pub p_align : IsU32 ph.p_align

-- The four bytes of a word, read again.
pub word_back :
    (v : ℕ)
    → IsU32 v
    → v % 256 + 256 * (v / 256 % 256) + 65536 * (v / 65536 % 256) + 16777216 * (v / 16777216 % 256)
      ≡ v
word_back v h = omega arith

pub phdr-bytes_of_phdr : (ph : Phdr) → IsPhdr ph → phdr (bytes_of_phdr ph) ≡ ph
unfolding phdr bytes_of_phdr
phdr-bytes_of_phdr ph h =
    rw
      (
        word_back ph.p_type h.p_type,
        word_back ph.p_offset h.p_offset,
        word_back ph.p_vaddr h.p_vaddr,
        word_back ph.p_paddr h.p_paddr,
        word_back ph.p_filesz h.p_filesz,
        word_back ph.p_memsz h.p_memsz,
        word_back ph.p_flags h.p_flags,
        word_back ph.p_align h.p_align,
      )
      refl
