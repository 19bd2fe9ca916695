-- ===== src/PeRelocs/Collected.antt =====
-- `pe_parse_relocs_dir` of src/pe_relocs.c: what its passes collect.
use silver_nimbus_otter.PeRelocs.Entries.{mem_read-slice, entries_loop-addresses}
use silver_nimbus_otter.Prelude.{
  ==_iff, Any, Bool-cases, List, Meets, Meets-map, Option, [], ap, append-nil, append_assoc, arith,
  bind-eq-ok, inl, inr, leb, leb→gt, leb→le, ltb, ltb→ge, none, not, ok, ok-injective, refl,
  reject_if-eq-ok, some, subst, suc, sym, true, zero, ℕ, ◌%◌, ◌*◌, ◌++◌, ◌+◌, ◌<◌, ◌==◌, ◌||◌, ◌∙◌,
  ◌≡◌, ◌⊎◌,
}
use silver_nimbus_otter.PeRelocs.Passes.{IsSmall, count_loop-ge, block_at, count_step}
use silver_nimbus_otter.PeRelocs.Directory.{parse_relocs_dir-Meets, OnlyRelocs, count_pass}
use silver_nimbus_otter.Host.{at_relocs, Alloc}
use silver_nimbus_otter.PeFormat.{RelocBlock, reloc_block}
use silver_nimbus_otter.PeImage.Views.{View, or_reject-eq-ok, view_of-some, view_of}
use silver_nimbus_otter.PeImage.{pe_rva_to_ptr, Image}
use silver_nimbus_otter.Diagnostics.{err_malformed, or_reject}
use silver_nimbus_otter.PeRelocs.Blocks.{
  EntriesAt, BlockAt, block, finished, block, finished, BlocksAt, halfwords, addresses,
}
use silver_nimbus_otter.PeRelocs.{
  parse_relocs_dir, count_loop, Alloc, entry_count, reloc_block, Image, or_fault, fill_loop,
  entries_loop,
}
use silver_nimbus_otter.Bytes.{u32_mod, slice, mem_read}

or_fault-eq-ok : (o : Option ℕ) (p : ℕ) → or_fault o ≡ ok p → o ≡ some p
or_fault-eq-ok none p h = cc
or_fault-eq-ok (some q) p h = cc

-- What one block adds, in front of the later ones.
one_block :
    (view : View) (dir_rva dir_size consumed : ℕ) (blk : RelocBlock)
    (entries rest relocs r1 r : List ℕ)
    → consumed < dir_size
    → BlockAt view ((dir_rva + consumed) % u32_mod) blk
    → EntriesAt view ((dir_rva + consumed + 8) % u32_mod) (entry_count blk.size_of_block) entries
    → r1 ≡ relocs ++ addresses blk.virtual_address entries
    → r ≡ r1 ++ rest
    → BlocksAt view dir_rva dir_size ((consumed + blk.size_of_block) % u32_mod) rest
    → (more : List ℕ) × (r ≡ relocs ++ more) × BlocksAt view dir_rva dir_size consumed more
one_block view dir_rva dir_size consumed blk entries rest relocs r1 r less header at here all
      later =
    let own = addresses blk.virtual_address entries in
    (
      own ++ rest,
      all ∙ ap (λ t. t ++ rest) here ∙ append_assoc relocs own rest,
      block blk entries rest less header at later refl,
    )

fill_loop-BlocksAt :
    (img : Image) (dir_rva dir_size count fuel consumed : ℕ) (relocs r : List ℕ)
    → fill_loop img dir_rva dir_size count fuel consumed relocs ≡ ok r
    → (more : List ℕ) × (r ≡ relocs ++ more) × BlocksAt (view_of img) dir_rva dir_size consumed more
unfolding fill_loop
fill_loop-BlocksAt img dir_rva dir_size count zero consumed relocs r h = cc
fill_loop-BlocksAt img dir_rva dir_size count (suc fuel) consumed relocs r h =
    elim (Bool-cases (leb dir_size consumed)) [
      | inl e ↦ (
        [],
        sym (ok-injective (rw e at h)) ∙ sym (append-nil relocs),
        finished (leb→le dir_size consumed e) refl,
      )
      | inr e ↦
          let rva = (dir_rva + consumed) % u32_mod in
          let (p, e1, h1) = bind-eq-ok (or_fault (pe_rva_to_ptr img rva 8)) _ (rw e at h) in
          let (bs, e2, h2) = bind-eq-ok (mem_read img.raw p 8) _ h1 in
          let blk = reloc_block bs in
          let n = entry_count blk.size_of_block in
          let entries_rva = (dir_rva + consumed + 8) % u32_mod in
          elim (Bool-cases (ltb blk.size_of_block 8)) [
            | inl small ↦ cc (rw small at h2)
            | inr big ↦
                let (t, e3, h3) =
                  bind-eq-ok (or_reject (pe_rva_to_ptr img entries_rva (n * 2))) _ (rw big at h2) in
                let (r1, e4, h4) =
                  bind-eq-ok (entries_loop img.raw t count blk.virtual_address n 0 relocs) _ h3 in
                let (rest, all, more) =
                  fill_loop-BlocksAt img dir_rva dir_size count fuel
                    ((consumed + blk.size_of_block) % u32_mod) r1 r h4 in
                let shown = slice img.raw t (n * 2) in
                let entries = halfwords 0 n shown in
                let here =
                  entries_loop-addresses img.raw t count blk.virtual_address n n 0 relocs r1
                    (omega arith) e4 in
                let header : view_of img rva 8 ≡ some bs =
                  view_of-some img rva 8 p (or_fault-eq-ok _ p e1)
                  ∙ ap (λ q. some q) (sym (mem_read-slice img.raw p 8 bs e2)) in
                one_block (view_of img) dir_rva dir_size consumed blk entries rest relocs r1 r
                  (leb→gt dir_size consumed e) (bs, header, refl, ltb→ge blk.size_of_block 8 big)
                  (inr (shown, view_of-some img entries_rva (n * 2) t (or_reject-eq-ok _ e3), refl))
                  here all more
          ]
    ]

-- A directory in which nothing was counted lists nothing.
count_loop-BlocksAt :
    (img : Image) (dir_rva dir_size fuel consumed count : ℕ)
    → count_loop img dir_rva dir_size fuel consumed count ≡ ok 0
    → BlocksAt (view_of img) dir_rva dir_size consumed []
count_loop-BlocksAt img dir_rva dir_size zero consumed count h = unfold count_loop in cc
count_loop-BlocksAt img dir_rva dir_size (suc fuel) consumed count h =
    elim (Bool-cases (leb dir_size consumed)) [
      | inl e ↦ finished (leb→le dir_size consumed e) refl
      | inr e ↦
          let (p, q, big, small, rest) =
            count_step img dir_rva dir_size fuel consumed count 0 e h in
          let blk = block_at img p in
          let total = count_loop-ge img dir_rva dir_size fuel _ _ 0 rest in
          block blk [] [] (leb→gt dir_size consumed e)
            (slice img.raw p 8, view_of-some img _ 8 p q, refl, big)
            (inl (omega (arith, total), refl))
            (count_loop-BlocksAt img dir_rva dir_size fuel
              ((consumed + blk.size_of_block) % u32_mod) (count + entry_count blk.size_of_block)
              rest)
            (no_addresses blk.virtual_address)
    ]
  where
    no_addresses : (page : ℕ) → [] ≡ addresses page [] ++ []
    no_addresses page = unfold addresses in refl

-- The relocations of a directory: none where there is no directory, and else what its blocks list.
abbrev pub RelocsAt : View → ℕ → ℕ → List ℕ → Type 0
RelocsAt view dir_rva dir_size relocs =
    (((dir_rva ≡ 0) ⊎ (dir_size ≡ 0)) × (relocs ≡ [])) ⊎ BlocksAt view dir_rva dir_size 0 relocs

no_directory : (a b : ℕ) → (a == 0 || b == 0) ≡ true → (a ≡ 0) ⊎ (b ≡ 0)
no_directory a b h = ground arith

parse_relocs_dir-says :
    (alloc : Alloc) (fuel : ℕ) (img img' : Image) (dir_rva dir_size : ℕ)
    → img.relocs ≡ []
    → parse_relocs_dir alloc fuel img dir_rva dir_size ≡ ok img'
    → RelocsAt (view_of img) dir_rva dir_size img'.relocs
unfolding parse_relocs_dir
parse_relocs_dir-says alloc fuel img img' dir_rva dir_size e h =
    elim (Bool-cases (dir_rva == 0 || dir_size == 0)) [
      | inl z ↦
          let q : img ≡ img' = ok-injective (rw z at h) in
          inl (no_directory dir_rva dir_size z, ap (λ (r : Image). r.relocs) (sym q) ∙ e)
      | inr nz ↦
          let (n, e1, h1) = bind-eq-ok (count_loop img dir_rva dir_size fuel 0 0) _ (rw nz at h) in
          elim (Bool-cases (n == 0)) [
            | inl z ↦
                let q : img ≡ img' = ok-injective (rw z at h1) in
                let none_counted : count_loop img dir_rva dir_size fuel 0 0 ≡ ok 0 =
                  e1 ∙ ap (λ (k : ℕ). ok k) ((==_iff n 0).0 z) in
                inr (
                  subst (BlocksAt (view_of img) dir_rva dir_size 0)
                    (sym (ap (λ (r : Image). r.relocs) (sym q) ∙ e))
                    (count_loop-BlocksAt img dir_rva dir_size fuel 0 0 none_counted))
            | inr some_counted ↦
                let (room, h2) =
                  reject_if-eq-ok (not (alloc at_relocs (n * 4))) err_malformed _
                    (rw some_counted at h1) in
                let (r, e3, h3) = bind-eq-ok (fill_loop img dir_rva dir_size n fuel 0 []) _ h2 in
                let (more, all, at) = fill_loop-BlocksAt img dir_rva dir_size n fuel 0 [] r e3 in
                let q : r ≡ img'.relocs = ap (λ (t : Image). t.relocs) (ok-injective h3) in
                inr (subst (BlocksAt (view_of img) dir_rva dir_size 0) (sym all ∙ q) at)
          ]
    ]

pub parse_relocs_dir-RelocsAt :
    (S : Type 0) (alloc : Alloc) (fuel : ℕ) (img : Image) (dir_rva dir_size : ℕ)
    → img.relocs ≡ []
    → IsSmall img.raw
    → Meets S Any (count_pass fuel img dir_rva dir_size)
    → Meets S
        (λ img'. OnlyRelocs img img' × RelocsAt (view_of img) dir_rva dir_size img'.relocs)
        (parse_relocs_dir alloc fuel img dir_rva dir_size)
parse_relocs_dir-RelocsAt S alloc fuel img dir_rva dir_size e small h =
    Meets-map S (OnlyRelocs img)
      (λ img'. OnlyRelocs img img' × RelocsAt (view_of img) dir_rva dir_size img'.relocs)
      (parse_relocs_dir alloc fuel img dir_rva dir_size)
      (parse_relocs_dir-Meets S alloc fuel img dir_rva dir_size small h)
      λ img' k p. (p, parse_relocs_dir-says alloc fuel img img' dir_rva dir_size e k)
