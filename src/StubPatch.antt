-- ===== src/StubPatch.antt =====
-- src/stub_patch.c: imports are bound to the shim, and the shim's segments join the output. The
-- shim blob is made by the build (tools/gen_shim_blob.py), so it is a parameter, `blob`: the bytes
-- of an ELF file, which the source reads through unchecked pointers.
pub mod Memory
pub mod Symbols
pub mod SymbolTables
pub mod Slots
pub mod Segments
pub mod Shown
pub mod Entered
pub mod Apply
pub mod Joined
pub mod Words
pub mod SymbolWords
pub mod Blob
pub mod Binding
use silver_nimbus_otter.Prelude.{
  List, Option, [], if◌then◌else◌, leb, length, ltb, none, not, ok, reject_if, rejected, some, suc,
  zero, ℕ, ◌%◌, ◌&&◌, ◌*◌, ◌++◌, ◌+◌, ◌-◌, ◌==◌, ◌∷◌, ◌>>=◌, ◌>>◌,
}
use silver_nimbus_otter.Elf32.{pt_load, sizeof_phdr}
use silver_nimbus_otter.Bytes.{u32_mod, mem_write, le32, text}
use silver_nimbus_otter.ElfSpec.{
  page_size, elf_max_segments, SegmentData, Segment, ElfSpec, ConvertError, Convert, align_up, null,
  in_shim, image_reaches_shim, unknown_import, missing_symbol, slot_out_of_range, no_memory,
  no_required_symbols, shim_address_unmapped, too_many_segments,
}
use silver_nimbus_otter.Host.{Alloc, at_shim_copy}
use silver_nimbus_otter.PeImage.{Image, ImportFunc, ImportDll, pe_rva_to_ptr}
use silver_nimbus_otter.ShimAbi.{shim_lookup_import}
use silver_nimbus_otter.ShimBlob.{shim_find_symbol, read_u32, e_phoff, e_phnum}

abbrev pub shim_min_base : ℕ
shim_min_base = 0x0F000000

abbrev pub or_error {ℓ} : {A : Type ℓ} → ConvertError → Option A → Convert A
or_error e none = rejected e
or_error e (some a) = ok a

-- The offset of program header `i` of the blob.
abbrev pub phdr_off : ℕ → ℕ → ℕ
phdr_off phoff i = phoff + i * sizeof_phdr

-- `n` program headers are left, the next at index `i`. The sums are of 32 bits.
unfoldable pub poke_loop : List ℕ → ℕ → ℕ → ℕ → List ℕ → ℕ → ℕ → Convert (List ℕ)
poke_loop blob phoff zero i shim vaddr value = rejected shim_address_unmapped
poke_loop blob phoff (suc n) i shim vaddr value =
    let next = poke_loop blob phoff n (i + 1) shim vaddr value in
    do
      p_type ← read_u32 blob (phdr_off phoff i)
      if not (p_type == pt_load) then next else do
        p_vaddr ← read_u32 blob (phdr_off phoff i + 8)
        p_filesz ← read_u32 blob (phdr_off phoff i + 16)
        p_offset ← read_u32 blob (phdr_off phoff i + 4)
        if leb p_vaddr vaddr && leb ((vaddr + 4) % u32_mod) ((p_vaddr + p_filesz) % u32_mod)
            then mem_write shim ((p_offset + (vaddr - p_vaddr)) % u32_mod) (le32 value)
            else next

unfoldable pub shim_poke32 : List ℕ → List ℕ → ℕ → ℕ → Convert (List ℕ)
unfolding poke_loop
shim_poke32 blob shim vaddr value = do
  phoff ← e_phoff blob
  phnum ← e_phnum blob
  poke_loop blob phoff phnum 0 shim vaddr value

-- The shim's address for an import.
unfoldable pub resolve : List ℕ → List ℕ → List ℕ → Convert ℕ
resolve blob dll_name func_name = do
  entry ← or_error unknown_import (shim_lookup_import dll_name func_name)
  addr ← shim_find_symbol blob entry.shim_symbol
  or_error missing_symbol addr

unfoldable pub patch_func : List ℕ → List ℕ → ImportFunc → Image → Convert Image
unfolding resolve
patch_func blob dll_name fn img = do
  addr ← resolve blob dll_name fn.name
  slot ← or_error slot_out_of_range (pe_rva_to_ptr img fn.iat_rva 4)
  raw ← mem_write img.raw slot (le32 addr)
  ok (record img { raw = raw })

unfoldable pub patch_funcs : List ℕ → List ℕ → List ImportFunc → Image → Convert Image
unfolding patch_func
patch_funcs blob dll_name [] img = ok img
patch_funcs blob dll_name (fn ∷ funcs) img = do
  img' ← patch_func blob dll_name fn img
  patch_funcs blob dll_name funcs img'

unfoldable pub patch_dlls : List ℕ → List ImportDll → Image → Convert Image
unfolding patch_funcs
patch_dlls blob [] img = ok img
patch_dlls blob (dll ∷ dlls) img = do
  img' ← patch_funcs blob dll.dll_name dll.funcs img
  patch_dlls blob dlls img'

-- The file offset behind the last segment.
unfoldable pub end_of_segments : List Segment → ℕ
end_of_segments [] = page_size
end_of_segments (s ∷ []) = align_up ((s.file_offset + s.filesz) % u32_mod) page_size
end_of_segments (s ∷ t ∷ segs) = end_of_segments (t ∷ segs)

abbrev pub shim_data : ℕ → ℕ → SegmentData
shim_data size off = if ltb 0 size then in_shim off else null

abbrev pub shim_segment : ℕ → ℕ → ℕ → ℕ → ℕ → ℕ → Segment
shim_segment next_file_off p_offset p_vaddr p_filesz p_memsz p_flags = record {
  vaddr = p_vaddr;
  flags = p_flags;
  file_offset = next_file_off;
  contents = shim_data p_filesz p_offset;
  filesz = p_filesz;
  memsz = p_memsz;
}

-- `n` program headers of the blob are left, the next at index `i`; `segs` are the segments so far.
unfoldable pub append_loop : List ℕ → ℕ → ℕ → ℕ → ℕ → List Segment → Convert (List Segment)
append_loop blob phoff zero i next_file_off segs = ok segs
append_loop blob phoff (suc n) i next_file_off segs =
    let skip = append_loop blob phoff n (i + 1) next_file_off segs in
    do
      p_type ← read_u32 blob (phdr_off phoff i)
      if not (p_type == pt_load) then skip else do
        reject_if (leb elf_max_segments (length segs)) too_many_segments
        p_offset ← read_u32 blob (phdr_off phoff i + 4)
        p_vaddr ← read_u32 blob (phdr_off phoff i + 8)
        p_filesz ← read_u32 blob (phdr_off phoff i + 16)
        p_memsz ← read_u32 blob (phdr_off phoff i + 20)
        p_flags ← read_u32 blob (phdr_off phoff i + 24)
        let seg = shim_segment next_file_off p_offset p_vaddr p_filesz p_memsz p_flags
        append_loop blob phoff n (i + 1) (align_up ((next_file_off + p_filesz) % u32_mod) page_size)
            (segs ++ (seg ∷ []))

-- The patched image, the copy of the shim and the complete output.
pub record Patched : Type 0 where
  pub image : Image
  pub shim : List ℕ
  pub spec : ElfSpec

unfoldable pub required_symbol : List ℕ → List ℕ → Convert ℕ
required_symbol blob name = do
  found ← shim_find_symbol blob name
  or_error no_required_symbols found

unfoldable pub stub_patch_apply : Alloc → List ℕ → Image → ElfSpec → Convert Patched
unfolding patch_dlls shim_poke32 append_loop required_symbol end_of_segments
stub_patch_apply alloc blob img spec = do
  reject_if (ltb shim_min_base ((img.image_base + img.size_of_image) % u32_mod)) image_reaches_shim
  patched ← patch_dlls blob img.imports img
  reject_if (not (alloc at_shim_copy (length blob))) no_memory
  entry_target ← required_symbol blob (text "shim_pe_entry_target")
  start ← required_symbol blob (text "_start")
  let pe_entry_va = (img.image_base + img.entry_point_rva) % u32_mod
  shim ← shim_poke32 blob blob entry_target pe_entry_va
  phoff ← e_phoff blob
  phnum ← e_phnum blob
  segs ← append_loop blob phoff phnum 0 (end_of_segments spec.segments) spec.segments
  ok (record { image = patched; shim = shim; spec = record { entry = start; segments = segs } })
