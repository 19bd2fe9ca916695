-- ===== src/PeRelocs/Blocks.antt =====
-- `pe_parse_relocs_dir` of src/pe_relocs.c: the addresses that the directory lists.
use silver_nimbus_otter.Prelude.{
  List, [], ap, arith, drop, get_or, if◌then◌else◌, refl, some, suc, take, zero, ℕ, ◌%◌, ◌*◌, ◌++◌,
  ◌+◌, ◌/◌, ◌<◌, ◌==◌, ◌∙◌, ◌∷◌, ◌≡◌, ◌≤◌, ◌⊎◌,
}
use silver_nimbus_otter.PeRelocs.{entry_count}
use silver_nimbus_otter.PeFormat.{reloc_block, RelocBlock}
use silver_nimbus_otter.PeImage.Views.{View}
use silver_nimbus_otter.Bytes.{u32_mod, u16_at, slice}

-- The addresses of a block's entries: those of the type HIGHLOW, within the block's page.
unfoldable pub addresses : ℕ → List ℕ → List ℕ
addresses page [] = []
addresses page (e ∷ entries) =
    let rest = addresses page entries in
    if e / 4096 == 3 then (page + e % 4096) % u32_mod ∷ rest else rest

-- `n` little-endian half-words from index `i` on.
unfoldable pub halfwords : ℕ → ℕ → List ℕ → List ℕ
halfwords i zero bs = []
halfwords i (suc n) bs = u16_at bs (i * 2) ∷ halfwords (i + 1) n bs

-- The `n` entries of the block whose header ends at `rva`; without any, nothing has to stand there.
abbrev pub EntriesAt : View → ℕ → ℕ → List ℕ → Type 0
EntriesAt view rva n entries =
    ((n ≡ 0) × (entries ≡ []))
    ⊎ ((bs : List ℕ) × (view rva (n * 2) ≡ some bs) × (entries ≡ halfwords 0 n bs))

-- The header of a block.
abbrev pub BlockAt : View → ℕ → RelocBlock → Type 0
BlockAt view rva blk =
    (bs : List ℕ) × (view rva 8 ≡ some bs) × (reloc_block bs ≡ blk) × (8 ≤ blk.size_of_block)

-- The addresses of the blocks from `consumed` on, up to the end of the directory. As in the source,
-- the place of the next block is a sum of 32 bits.
pub data BlocksAt (view : View) (dir_rva dir_size : ℕ) : ℕ → List ℕ → Type 0 where
  finished :
      {consumed : ℕ} {relocs : List ℕ}
      → dir_size ≤ consumed
      → relocs ≡ []
      → BlocksAt view dir_rva dir_size consumed relocs
  block :
      {consumed : ℕ} {relocs : List ℕ} (blk : RelocBlock) (entries rest : List ℕ)
      → consumed < dir_size
      → BlockAt view ((dir_rva + consumed) % u32_mod) blk
      → EntriesAt view ((dir_rva + consumed + 8) % u32_mod) (entry_count blk.size_of_block) entries
      → BlocksAt view dir_rva dir_size ((consumed + blk.size_of_block) % u32_mod) rest
      → relocs ≡ addresses blk.virtual_address entries ++ rest
      → BlocksAt view dir_rva dir_size consumed relocs

-- What stands in a slice.
get_or-drop : (xs : List ℕ) (p k : ℕ) → get_or (drop p xs) k 0 ≡ get_or xs (p + k) 0
get_or-drop xs zero k = let e : k ≡ 0 + k = omega arith in ap (λ (i : ℕ). get_or xs i 0) e
get_or-drop [] (suc p) k = refl
get_or-drop (x ∷ xs) (suc p) k =
    let e : suc (p + k) ≡ suc p + k = omega arith in
    get_or-drop xs p k ∙ ap (λ (i : ℕ). get_or (x ∷ xs) i 0) e

get_or-take : (xs : List ℕ) (n k : ℕ) → k < n → get_or (take n xs) k 0 ≡ get_or xs k 0
get_or-take xs zero k h = absurd (omega arith)
get_or-take [] (suc n) k h = refl
get_or-take (x ∷ xs) (suc n) zero h = refl
get_or-take (x ∷ xs) (suc n) (suc k) h = get_or-take xs n k (omega arith)

get_or-slice : (xs : List ℕ) (p n k : ℕ) → k < n → get_or (slice xs p n) k 0 ≡ get_or xs (p + k) 0
get_or-slice xs p n k h = get_or-take (drop p xs) n k h ∙ get_or-drop xs p k

-- A half-word of a slice is one of the whole.
pub u16_at-slice :
    (raw : List ℕ) (p n i : ℕ)
    → i < n
    → u16_at (slice raw (p + i * 2) 2) 0 ≡ u16_at (slice raw p (n * 2)) (i * 2)
unfolding u16_at
u16_at-slice raw p n i h =
    let a = get_or-slice raw (p + i * 2) 2 0 (omega arith) in
    let b = get_or-slice raw (p + i * 2) 2 1 (omega arith) in
    let c = get_or-slice raw p (n * 2) (i * 2) (omega arith) in
    let d = get_or-slice raw p (n * 2) (i * 2 + 1) (omega arith) in
    let e : p + i * 2 + 0 ≡ p + i * 2 = omega arith in
    let f : p + i * 2 + 1 ≡ p + (i * 2 + 1) = omega arith in
    omega (arith, a, b, c, d, ap (λ (t : ℕ). get_or raw t 0) e, ap (λ (t : ℕ). get_or raw t 0) f)
