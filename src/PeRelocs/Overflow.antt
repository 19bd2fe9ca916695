-- ===== src/PeRelocs/Overflow.antt =====
-- `pe_parse_relocs_dir` of src/pe_relocs.c: a directory whose blocks lead back to its start.
use silver_nimbus_otter.Prelude.{
  arith, false, fault, if◌then◌else◌, leb, ltb, refl, subst, suc, sym, ℕ, ◌%◌, ◌+◌, ◌<◌, ◌==◌, ◌||◌,
  ◌∙◌, ◌≡◌, ◌≢◌, ◌≤◌,
}
use silver_nimbus_otter.Bytes.{u32_mod}
use silver_nimbus_otter.Bytes.Laws.{mem_read_ok}
use silver_nimbus_otter.Host.{Alloc}
use silver_nimbus_otter.Diagnostics.{RejectReason}
use silver_nimbus_otter.PeFormat.{RelocBlock}
use silver_nimbus_otter.PeImage.{Image}
use silver_nimbus_otter.PeImage.Mapping.{pe_rva_to_ptr_inside}
use silver_nimbus_otter.PeImage.Views.{view_of, view_of-eq-some}
use silver_nimbus_otter.PeRelocs.{count_loop, parse_relocs_dir, entry_count, int_max}
use silver_nimbus_otter.PeRelocs.Blocks.{BlockAt}

-- A round of the count at a block of a known size.
count_round :
    (img : Image) (dir_rva dir_size fuel consumed count size : ℕ) (blk : RelocBlock)
    → leb dir_size consumed ≡ false
    → BlockAt (view_of img) ((dir_rva + consumed) % u32_mod) blk
    → blk.size_of_block ≡ size
    → count_loop img dir_rva dir_size (suc fuel) consumed count ≡ (
        if ltb int_max (count + entry_count size)
        then fault
        else count_loop img dir_rva dir_size fuel
            ((consumed + size) % u32_mod)
            (count + entry_count size))
unfolding count_loop
count_round img dir_rva dir_size fuel consumed count size blk more (bs, shown, same, big) e =
    let (p, at, held) = view_of-eq-some img _ 8 bs shown in
    let read = mem_read_ok {E = RejectReason} img.raw p 8 (pe_rva_to_ptr_inside img _ 8 p at) in
    let not_small : ltb size 8 ≡ false = ground arith in
    rw (more, at, read, held, same, e, not_small) refl

-- Twice around.
circle :
    (img : Image) (dir_rva dir_size fuel : ℕ) (small huge : RelocBlock)
    → leb dir_size 0 ≡ false
    → leb dir_size 8 ≡ false
    → BlockAt (view_of img) ((dir_rva + 0) % u32_mod) small
    → small.size_of_block ≡ 8
    → BlockAt (view_of img) ((dir_rva + 8) % u32_mod) huge
    → huge.size_of_block ≡ 0xFFFFFFF8
    → count_loop img dir_rva dir_size (suc (suc (suc (suc fuel)))) 0 0 ≡ fault
circle img dir_rva dir_size fuel small huge start more a sa b sb =
    count_round img dir_rva dir_size (suc (suc (suc fuel))) 0 0 8 small start a sa
    ∙ count_round img dir_rva dir_size (suc (suc fuel)) 8 0 0xFFFFFFF8 huge more b sb
    ∙ count_round img dir_rva dir_size (suc fuel) 0 0x7FFFFFF8 8 small start a sa
    ∙ count_round img dir_rva dir_size fuel 8 0x7FFFFFF8 0xFFFFFFF8 huge more b sb

count_overflows :
    (img : Image) (dir_rva dir_size fuel : ℕ) (small huge : RelocBlock)
    → 4 ≤ fuel
    → 8 < dir_size
    → BlockAt (view_of img) (dir_rva % u32_mod) small
    → small.size_of_block ≡ 8
    → BlockAt (view_of img) ((dir_rva + 8) % u32_mod) huge
    → huge.size_of_block ≡ 0xFFFFFFF8
    → count_loop img dir_rva dir_size fuel 0 0 ≡ fault
count_overflows img dir_rva dir_size (suc (suc (suc (suc fuel)))) small huge k long a sa b sb =
    let start : (dir_rva + 0) % u32_mod ≡ dir_rva % u32_mod = omega arith in
    circle img dir_rva dir_size fuel small huge (ground arith) (ground arith)
      (subst (λ (rva : ℕ). BlockAt (view_of img) rva small) (sym start) a) sa b sb
count_overflows img dir_rva dir_size _ small huge k long a sa b sb = absurd (omega arith)

-- A directory of more than eight bytes that begins with a block of eight bytes and a block of
-- 0xFFFFFFF8 bytes is refused by none of the parser's checks, and its first pass goes in a circle:
-- with rounds enough, the second time around the int counter overflows, which is undefined.
pub parse_relocs_dir_overflows :
    (alloc : Alloc) (fuel : ℕ) (img : Image) (dir_rva dir_size : ℕ) (small huge : RelocBlock)
    → 4 ≤ fuel
    → dir_rva ≢ 0
    → 8 < dir_size
    → BlockAt (view_of img) (dir_rva % u32_mod) small
    → small.size_of_block ≡ 8
    → BlockAt (view_of img) ((dir_rva + 8) % u32_mod) huge
    → huge.size_of_block ≡ 0xFFFFFFF8
    → parse_relocs_dir alloc fuel img dir_rva dir_size ≡ fault
unfolding parse_relocs_dir
parse_relocs_dir_overflows alloc fuel img dir_rva dir_size small huge enough there long a sa b sb =
    let some_size : (dir_rva == 0 || dir_size == 0) ≡ false = ground arith in
    rw (some_size, count_overflows img dir_rva dir_size fuel small huge enough long a sa b sb) refl
