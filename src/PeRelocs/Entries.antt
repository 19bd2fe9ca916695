-- ===== src/PeRelocs/Entries.antt =====
-- `pe_parse_relocs_dir` of src/pe_relocs.c: what the entries of a block add.
use silver_nimbus_otter.Prelude.{
  Bool-cases, List, [], ap, append-nil, append_assoc, arith, bind-eq-ok, false, inl, inr, leb,
  length, ltb, ok, ok-injective, refl, suc, sym, zero, ℕ, ◌*◌, ◌++◌, ◌+◌, ◌/◌, ◌==◌, ◌∙◌, ◌∷◌, ◌≡◌,
  ◌≤◌,
}
use silver_nimbus_otter.Diagnostics.{RejectReason}
use silver_nimbus_otter.PeRelocs.Blocks.{u16_at-slice, halfwords, addresses}
use silver_nimbus_otter.PeRelocs.{int_max, store_reloc, entries_loop, add_entry}
use silver_nimbus_otter.Bytes.{u16_at, slice, mem_read}

pub mem_read-slice :
    (buf : List ℕ) (off n : ℕ) (bs : List ℕ)
    → mem_read {E = RejectReason} buf off n ≡ ok bs
    → bs ≡ slice buf off n
unfolding mem_read
mem_read-slice buf off n bs h = elim (Bool-cases (leb (off + n) (length buf))) [
  | inl e ↦ sym (ok-injective (rw e at h))
  | inr e ↦ cc (rw e at h)
]

addresses-cons :
    (page e : ℕ) (entries : List ℕ)
    → addresses page (e ∷ entries) ≡ addresses page (e ∷ []) ++ addresses page entries
unfolding addresses
addresses-cons page e entries = elim (Bool-cases (e / 4096 == 3)) [
  | inl q ↦ rw q refl
  | inr q ↦ rw q refl
]

-- An entry adds its address, or nothing.
add_entry-addresses :
    (count page e : ℕ) (relocs r : List ℕ)
    → add_entry count page e relocs ≡ ok r
    → r ≡ relocs ++ addresses page (e ∷ [])
unfolding add_entry store_reloc addresses
add_entry-addresses count page e relocs r h = elim (Bool-cases (e / 4096 == 3)) [
  | inl q ↦
      let other : (e / 4096 == 0) ≡ false = ground arith in
      elim (Bool-cases (ltb (length relocs) count)) [
        | inl room ↦ rw q (sym (ok-injective (rw (other, q, room) at h)))
        | inr full ↦ cc (rw (other, q, full) at h)
      ]
  | inr q ↦ elim (Bool-cases (e / 4096 == 0)) [
    | inl z ↦ rw q (sym (ok-injective (rw z at h)) ∙ sym (append-nil relocs))
    | inr nz ↦ rw q (sym (ok-injective (rw (nz, q) at h)) ∙ sym (append-nil relocs))
  ]
]

pub entries_loop-addresses :
    (raw : List ℕ) (entries count page total n i : ℕ) (relocs r : List ℕ)
    → i + n ≤ total
    → entries_loop raw entries count page n i relocs ≡ ok r
    → r ≡ relocs ++ addresses page (halfwords i n (slice raw entries (total * 2)))
unfolding entries_loop halfwords
entries_loop-addresses raw entries count page total zero i relocs r fits h =
    unfold addresses in sym (ok-injective h) ∙ sym (append-nil relocs)
entries_loop-addresses raw entries count page total (suc n) i relocs r fits h =
    elim (Bool-cases (ltb int_max (i * 2))) [
      | inl over ↦ cc (rw over at h)
      | inr within ↦
          let all = slice raw entries (total * 2) in
          let (bs, e1, h1) = bind-eq-ok (mem_read raw (entries + i * 2) 2) _ (rw within at h) in
          let (r1, e2, h2) = bind-eq-ok (add_entry count page (u16_at bs 0) relocs) _ h1 in
          let e = u16_at all (i * 2) in
          let half : u16_at bs 0 ≡ e =
            ap (λ t. u16_at t 0) (mem_read-slice raw (entries + i * 2) 2 bs e1)
            ∙ u16_at-slice raw entries total i (omega arith) in
          let one = add_entry-addresses count page (u16_at bs 0) relocs r1 e2 in
          let rest = addresses page (halfwords (i + 1) n all) in
          entries_loop-addresses raw entries count page total n (i + 1) r1 r (omega arith) h2
          ∙ ap (λ t. t ++ rest) (one ∙ ap (λ (w : ℕ). relocs ++ addresses page (w ∷ [])) half)
          ∙ append_assoc relocs (addresses page (e ∷ [])) rest
          ∙ ap (λ t. relocs ++ t) (sym (addresses-cons page e (halfwords (i + 1) n all)))
    ]
