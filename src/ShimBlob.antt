-- ===== src/ShimBlob.antt =====
-- The tables of the shim's ELF file, as src/stub_patch.c walks them: its symbols and its program
-- headers. Every access goes to the blob with no check, so one outside it is undefined.
use silver_nimbus_otter.Prelude.{
  Bool, List, Option, [], false, get_or, if◌then◌else◌, none, not, ok, some, suc, zero, ℕ, ◌*◌, ◌+◌,
  ◌/◌, ◌==◌, ◌∷◌, ◌>>=◌,
}
use silver_nimbus_otter.Bytes.{mem_read, u16_at, u32_at}
use silver_nimbus_otter.ElfSpec.{Convert}

unfoldable pub read_u8 : List ℕ → ℕ → Convert ℕ
read_u8 blob off = do bs ← mem_read blob off 1; ok (get_or bs 0 0)

unfoldable pub read_u16 : List ℕ → ℕ → Convert ℕ
read_u16 blob off = do bs ← mem_read blob off 2; ok (u16_at bs 0)

unfoldable pub read_u32 : List ℕ → ℕ → Convert ℕ
read_u32 blob off = do bs ← mem_read blob off 4; ok (u32_at bs 0)

-- The fields of `elf32_ehdr_t`.
abbrev pub e_phoff : List ℕ → Convert ℕ
e_phoff blob = read_u32 blob 28

abbrev pub e_shoff : List ℕ → Convert ℕ
e_shoff blob = read_u32 blob 32

abbrev pub e_phnum : List ℕ → Convert ℕ
e_phnum blob = read_u16 blob 44

abbrev pub e_shnum : List ℕ → Convert ℕ
e_shnum blob = read_u16 blob 48

abbrev pub sizeof_shdr : ℕ
sizeof_shdr = 40

abbrev pub sizeof_sym : ℕ
sizeof_sym = 16

abbrev pub sht_symtab : ℕ
sht_symtab = 2

-- The places of the fields that are read, in `elf32_shdr_t` and in `elf32_sym_t`.
abbrev pub sh_type : ℕ
sh_type = 4

abbrev pub sh_offset : ℕ
sh_offset = 16

abbrev pub sh_size : ℕ
sh_size = 20

abbrev pub sh_link : ℕ
sh_link = 24

abbrev pub st_name : ℕ
st_name = 0

abbrev pub st_value : ℕ
st_value = 4

-- `strcmp(blob + off, name) == 0`: the bytes up to the first difference or the NUL are read.
unfoldable pub strcmp_at : List ℕ → ℕ → List ℕ → Convert Bool
unfolding read_u8
strcmp_at blob off [] = do b ← read_u8 blob off; ok (b == 0)
strcmp_at blob off (c ∷ name) =
    let rest = strcmp_at blob (off + 1) name in
    do b ← read_u8 blob off; if b == c then rest else ok false

-- `n` symbols are left, the next at index `j`.
unfoldable pub symbols_loop : List ℕ → ℕ → ℕ → List ℕ → ℕ → ℕ → Convert (Option ℕ)
unfolding strcmp_at read_u32
symbols_loop blob syms strs name zero j = ok none
symbols_loop blob syms strs name (suc n) j =
    let next = symbols_loop blob syms strs name n (j + 1) in
    do
      at ← read_u32 blob (syms + j * sizeof_sym + st_name)
      same ← strcmp_at blob (strs + at) name
      if same then (do v ← read_u32 blob (syms + j * sizeof_sym + st_value); ok (some v)) else next

-- What was found in one symbol table, or else what the later ones have.
abbrev pub or_next : Option ℕ → Convert (Option ℕ) → Convert (Option ℕ)
or_next none next = next
or_next (some v) next = ok (some v)

-- `n` section headers are left, the next at index `i`.
unfoldable pub symtabs_loop : List ℕ → ℕ → List ℕ → ℕ → ℕ → Convert (Option ℕ)
unfolding symbols_loop
symtabs_loop blob shoff name zero i = ok none
symtabs_loop blob shoff name (suc n) i =
    let next = symtabs_loop blob shoff name n (i + 1) in
    do
      let shdr = shoff + i * sizeof_shdr
      kind ← read_u32 blob (shdr + sh_type)
      if not (kind == sht_symtab) then next else do
        syms ← read_u32 blob (shdr + sh_offset)
        size ← read_u32 blob (shdr + sh_size)
        link ← read_u32 blob (shdr + sh_link)
        strs ← read_u32 blob (shoff + link * sizeof_shdr + sh_offset)
        found ← symbols_loop blob syms strs name (size / sizeof_sym) 0
        or_next found next

unfoldable pub shim_find_symbol : List ℕ → List ℕ → Convert (Option ℕ)
unfolding symtabs_loop read_u16
shim_find_symbol blob name = do
  shoff ← e_shoff blob
  shnum ← e_shnum blob
  symtabs_loop blob shoff name shnum 0
