-- ===== src/PeRelocs.antt =====
-- `pe_parse_relocs_dir` of src/pe_relocs.c: a pass that counts the entries, and a pass that stores
-- the HIGHLOW ones in an array of that size.
pub mod Passes
pub mod Directory
pub mod Blocks
pub mod Entries
pub mod Collected
pub mod Overflow
use silver_nimbus_otter.Prelude.{
  List, Option, [], fault, if◌then◌else◌, leb, length, ltb, none, not, ok, reject_if, some, stuck,
  suc, zero, ℕ, ◌%◌, ◌*◌, ◌++◌, ◌+◌, ◌-◌, ◌/◌, ◌==◌, ◌||◌, ◌∷◌, ◌>>=◌, ◌>>◌,
}
use silver_nimbus_otter.Bytes.{u32_mod, mem_read, u16_at}
use silver_nimbus_otter.Diagnostics.{Parse, err_malformed, or_reject}
use silver_nimbus_otter.Host.{Alloc, at_relocs}
use silver_nimbus_otter.PeFormat.{
  reloc_block, sizeof_reloc_block, rel_based_absolute, rel_based_highlow,
}
use silver_nimbus_otter.PeImage.{Image, pe_rva_to_ptr}

abbrev pub int_max : ℕ
int_max = 2147483647

-- `(int)((blk.SizeOfBlock - sizeof(blk)) / 2)`, for a block that holds its own header.
abbrev pub entry_count : ℕ → ℕ
entry_count size = (size - sizeof_reloc_block) / 2

-- `count` is an int: past INT_MAX the sum is undefined. `consumed` is a uint32_t, which wraps.
unfoldable pub count_loop : Image → ℕ → ℕ → ℕ → ℕ → ℕ → Parse ℕ
count_loop img dir_rva dir_size zero consumed count = stuck
count_loop img dir_rva dir_size (suc fuel) consumed count =
    if leb dir_size consumed then ok count else do
      bp ← or_reject (pe_rva_to_ptr img ((dir_rva + consumed) % u32_mod) sizeof_reloc_block)
      bs ← mem_read img.raw bp sizeof_reloc_block
      let size = (reloc_block bs).size_of_block
      reject_if (ltb size sizeof_reloc_block) err_malformed
      if ltb int_max (count + entry_count size)
          then fault
          else count_loop img dir_rva dir_size fuel ((consumed + size) % u32_mod)
              (count + entry_count size)

-- `img->relocs[idx++].rva = ...` in an array of `count` elements, of which `relocs` are written.
unfoldable pub store_reloc : ℕ → List ℕ → ℕ → Parse (List ℕ)
store_reloc count relocs rva =
    if ltb (length relocs) count then ok (relocs ++ (rva ∷ [])) else fault

-- One entry `e` of the block at `page`.
unfoldable pub add_entry : ℕ → ℕ → ℕ → List ℕ → Parse (List ℕ)
unfolding store_reloc
add_entry count page e relocs =
    if e / 4096 == rel_based_absolute
    then ok relocs
    else if e / 4096 == rel_based_highlow
    then store_reloc count relocs ((page + e % 4096) % u32_mod)
    else ok relocs

-- `n` entries are left, the next at index `i`, an int: past INT_MAX `i * 2` is undefined.
unfoldable pub entries_loop : List ℕ → ℕ → ℕ → ℕ → ℕ → ℕ → List ℕ → Parse (List ℕ)
entries_loop raw entries count page zero i relocs = ok relocs
entries_loop raw entries count page (suc n) i relocs = if ltb int_max (i * 2) then fault else do
  bs ← mem_read raw (entries + i * 2) 2
  relocs' ← add_entry count page (u16_at bs 0) relocs
  entries_loop raw entries count page n (i + 1) relocs'

-- A NULL that the source would read through.
abbrev pub or_fault {ℓ} : {A : Type ℓ} → Option A → Parse A
or_fault none = fault
or_fault (some a) = ok a

-- The source does not look at NULL or at the size again: the first pass has accepted both.
unfoldable pub fill_loop : Image → ℕ → ℕ → ℕ → ℕ → ℕ → List ℕ → Parse (List ℕ)
fill_loop img dir_rva dir_size count zero consumed relocs = stuck
fill_loop img dir_rva dir_size count (suc fuel) consumed relocs =
    if leb dir_size consumed then ok relocs else do
      bp ← or_fault (pe_rva_to_ptr img ((dir_rva + consumed) % u32_mod) sizeof_reloc_block)
      bs ← mem_read img.raw bp sizeof_reloc_block
      let blk = reloc_block bs
      let n_entries = entry_count blk.size_of_block
      let entries_rva = (dir_rva + consumed + sizeof_reloc_block) % u32_mod
      if ltb blk.size_of_block sizeof_reloc_block then fault else do
        entries ← or_reject (pe_rva_to_ptr img entries_rva (n_entries * 2))
        relocs' ← entries_loop img.raw entries count blk.virtual_address n_entries 0 relocs
        fill_loop img dir_rva dir_size count fuel ((consumed + blk.size_of_block) % u32_mod) relocs'

unfoldable pub parse_relocs_dir : Alloc → ℕ → Image → ℕ → ℕ → Parse Image
unfolding count_loop fill_loop
parse_relocs_dir alloc fuel img dir_rva dir_size =
    if dir_rva == 0 || dir_size == 0 then ok img else do
      count ← count_loop img dir_rva dir_size fuel 0 0
      if count == 0 then ok img else do
        reject_if (not (alloc at_relocs (count * 4))) err_malformed
        relocs ← fill_loop img dir_rva dir_size count fuel 0 []
        ok (record img { relocs = relocs })
