-- ===== src/PeRelocs/Passes.antt =====
-- The two passes agree: what the first has counted, the second can store.
use silver_nimbus_otter.Prelude.{
  Bool-cases, List, Meets, Meets-bind, Meets-if, Meets-map, Option-cases, Returns, [], arith, false,
  inl, inr, leb, length, length-append, ltb, ltb→ge, ltb→lt, ok, ok-injective, reject_if-eq-ok,
  some, suc, zero, ℕ, ◌%◌, ◌*◌, ◌+◌, ◌<◌, ◌∷◌, ◌≡◌, ◌≤◌,
}
use silver_nimbus_otter.PeImage.Access.{Meets-ptr}
use silver_nimbus_otter.Diagnostics.{err_malformed, RejectReason}
use silver_nimbus_otter.PeRelocs.{
  fill_loop, entries_loop, add_entry, int_max, entry_count, count_loop,
}
use silver_nimbus_otter.PeImage.{pe_rva_to_ptr, Image}
use silver_nimbus_otter.Bytes.{u16_at, u32_mod, slice}
use silver_nimbus_otter.Bytes.Laws.{mem_read_ok}
use silver_nimbus_otter.PeFormat.{RelocBlock, reloc_block}
use silver_nimbus_otter.PeImage.Mapping.{pe_rva_to_ptr_inside}

abbrev pub block_at : Image → ℕ → RelocBlock
block_at img p = reloc_block (slice img.raw p 8)

-- A round of the count that goes on has found a block of eight bytes or more.
pub count_step :
    (img : Image) (dir_rva dir_size fuel consumed count n : ℕ)
    → leb dir_size consumed ≡ false
    → count_loop img dir_rva dir_size (suc fuel) consumed count ≡ ok n
    → (p : ℕ) × (pe_rva_to_ptr img ((dir_rva + consumed) % u32_mod) 8 ≡ some p)
      × (8 ≤ (block_at img p).size_of_block)
      × (count + entry_count (block_at img p).size_of_block ≤ int_max)
      × (count_loop img dir_rva dir_size fuel
            ((consumed + (block_at img p).size_of_block) % u32_mod)
            (count + entry_count (block_at img p).size_of_block)
          ≡ ok n)
unfolding count_loop
count_step img dir_rva dir_size fuel consumed count n more h =
    elim (Option-cases (pe_rva_to_ptr img ((dir_rva + consumed) % u32_mod) 8)) [
      | inl e ↦ cc (rw (more, e) at h)
      | inr (p, e) ↦
          let read =
            mem_read_ok {E = RejectReason} img.raw p 8 (pe_rva_to_ptr_inside img _ 8 p e) in
          let size = (block_at img p).size_of_block in
          let h' = reject_if-eq-ok (ltb size 8) err_malformed _ (rw (more, e, read) at h) in
          elim (Bool-cases (ltb int_max (count + entry_count size))) [
            | inl big ↦ cc (rw big at h'.1)
            | inr small ↦ (p, e, ltb→ge _ _ h'.0, ltb→ge _ _ small, rw small at h'.1)
          ]
    ]

-- The counter only grows.
pub count_loop-ge :
    (img : Image) (dir_rva dir_size fuel consumed count n : ℕ)
    → count_loop img dir_rva dir_size fuel consumed count ≡ ok n
    → count ≤ n
count_loop-ge img dir_rva dir_size zero consumed count n h = unfold count_loop in cc
count_loop-ge img dir_rva dir_size (suc fuel) consumed count n h =
    elim (Bool-cases (leb dir_size consumed)) [
      | inl e ↦ unfold count_loop in omega (arith, ok-injective (rw e at h))
      | inr e ↦
          let s = count_step img dir_rva dir_size fuel consumed count n e h in
          let more = count_loop-ge img dir_rva dir_size fuel _ _ n s.4 in omega (arith, more)
    ]

add_entry-Meets :
    (S : Type 0) (count page e : ℕ) (relocs : List ℕ)
    → length relocs < count
    → Meets S (λ r. length r ≤ length relocs + 1) (add_entry count page e relocs)
unfolding add_entry
add_entry-Meets S count page e relocs h =
    ground (arith, length-append relocs (((page + e % 4096) % u32_mod) ∷ []))

-- A file below two gigabytes, in which an int counts every half-word's offset.
abbrev pub IsSmall : List ℕ → Type 0
IsSmall raw = length raw < 2147483648

entries_loop-Meets :
    (S : Type 0) (raw : List ℕ) (entries count page n i : ℕ) (relocs : List ℕ)
    → IsSmall raw
    → entries + (i + n) * 2 ≤ length raw
    → length relocs + n ≤ count
    → Meets S (λ r. length r ≤ length relocs + n) (entries_loop raw entries count page n i relocs)
unfolding entries_loop
entries_loop-Meets S raw entries count page zero i relocs small fits room = omega arith
entries_loop-Meets S raw entries count page (suc n) i relocs small fits room =
    let within : ltb int_max (i * 2) ≡ false = ground arith in
    rw (within, mem_read_ok {E = RejectReason} raw (entries + i * 2) 2 (omega arith))
      (Meets-bind S (λ r. length r ≤ length relocs + 1) (λ r. length r ≤ length relocs + suc n)
        (add_entry count page (u16_at (slice raw (entries + i * 2) 2) 0) relocs) _
        (add_entry-Meets S count page _ relocs (omega arith))
        (λ r _ h.
          Meets-map S (λ q. length q ≤ length r + n) (λ q. length q ≤ length relocs + suc n) _
            (entries_loop-Meets S raw entries count page n (i + 1) r small (omega arith)
              (omega arith))
            (λ q _ k. omega arith)))

-- If the first pass over a file below two gigabytes counts `n` entries, the second returns, whatever
-- the directory holds: it follows no NULL pointer, reads no entry outside the file and stores at most
-- `n` relocations.
pub fill_loop-Meets :
    (img : Image) (dir_rva dir_size fuel consumed count n : ℕ) (relocs : List ℕ)
    → IsSmall img.raw
    → count_loop img dir_rva dir_size fuel consumed count ≡ ok n
    → length relocs ≤ count
    → Returns (λ r. length r ≤ n) (fill_loop img dir_rva dir_size n fuel consumed relocs)
unfolding fill_loop
fill_loop-Meets img dir_rva dir_size zero consumed count n relocs small h room =
    unfold count_loop in cc
fill_loop-Meets img dir_rva dir_size (suc fuel) consumed count n relocs small h room =
    elim (Bool-cases (leb dir_size consumed)) [
      | inl e ↦
          rw e (omega (arith, count_loop-ge img dir_rva dir_size (suc fuel) consumed count n h))
      | inr e ↦
          let (p, q, big, fits_int, rest) =
            count_step img dir_rva dir_size fuel consumed count n e h in
          let blk = block_at img p in
          let entries_rva = dir_rva + consumed + 8 in
          let k = entry_count blk.size_of_block in
          let left = count_loop-ge img dir_rva dir_size fuel _ _ n rest in
          rw (e, q, mem_read_ok {E = RejectReason} img.raw p 8 (pe_rva_to_ptr_inside img _ 8 p q))
            (Meets-if ⊥ (λ r. length r ≤ n) (ltb blk.size_of_block 8) _ _
              (λ less. absurd (omega (arith, big, ltb→lt _ _ less)))
              (λ _.
                Meets-ptr ⊥ (λ r. length r ≤ n) img (entries_rva % u32_mod) (k * 2) _
                  λ t u.
                    Meets-bind ⊥ (λ r. length r ≤ length relocs + k) (λ r. length r ≤ n)
                      (entries_loop img.raw t n blk.virtual_address k 0 relocs) _
                      (entries_loop-Meets ⊥ img.raw t n blk.virtual_address k 0 relocs small
                        (omega (arith, pe_rva_to_ptr_inside img _ (k * 2) t u))
                        (omega (arith, left)))
                      (λ r _ fits.
                        fill_loop-Meets img dir_rva dir_size fuel
                          ((consumed + blk.size_of_block) % u32_mod) (count + k) n r small rest
                          (omega arith))))
    ]
