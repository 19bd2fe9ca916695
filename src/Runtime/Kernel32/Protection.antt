-- ===== src/Runtime/Kernel32/Protection.antt =====
-- The pages of VirtualProtect of runtime/shim_kernel32.c.
use silver_nimbus_otter.Prelude.{
  Meets-bind, Returns, ap, arith, ℕ, ◌%◌, ◌+◌, ◌<◌, ◌∷◌, ◌≡◌, ◌≢◌, ◌≤◌, ◌⊎◌,
}
use silver_nimbus_otter.Runtime.Kernel32.Results.{store_result-Meets, HasResult, IsResult}
use silver_nimbus_otter.Runtime.Kernel32.{
  store_result, prot_of, page_length, page_of, virtual_protect,
}
use silver_nimbus_otter.Runtime.{protected, Kernel, Machine}
use silver_nimbus_otter.Bytes.{u32_mod}

-- Whole pages from `page` on, of `len` bytes: the region, and less than a page on either side of it.
abbrev pub Covers : ℕ → ℕ → ℕ → ℕ → Type 0
Covers page len address size =
    (page % 4096 ≡ 0)
    × (len % 4096 ≡ 0)
    × (page ≤ address)
    × (address < page + 4096)
    × (address + size ≤ page + len)
    × (page + len < address + size + 4096)

page_of-Covers :
    (address size : ℕ)
    → address + size + 4095 < u32_mod
    → Covers (page_of address) (page_length address size) address size
page_of-Covers address size h = ground arith

-- The protection for mprotect(2), in which 1 reads, 2 writes and 4 executes, of the constants from
-- PAGE_NOACCESS to PAGE_EXECUTE_READWRITE; every other one is taken for PAGE_READWRITE.
abbrev pub IsProtection : ℕ → ℕ → Type 0
IsProtection newprot prot =
    ((newprot ≡ 0x01) × (prot ≡ 0))
    ⊎ ((newprot ≡ 0x02) × (prot ≡ 1))
    ⊎ ((newprot ≡ 0x04) × (prot ≡ 3))
    ⊎ ((newprot ≡ 0x10) × (prot ≡ 4))
    ⊎ ((newprot ≡ 0x20) × (prot ≡ 5))
    ⊎ ((newprot ≡ 0x40) × (prot ≡ 7))
    ⊎ ((newprot ≢ 0x01)
        × (newprot ≢ 0x02)
        × (newprot ≢ 0x04)
        × (newprot ≢ 0x10)
        × (newprot ≢ 0x20)
        × (newprot ≢ 0x40)
        × (prot ≡ 3))

prot_of-IsProtection : (newprot : ℕ) → IsProtection newprot (prot_of newprot)
unfolding prot_of
prot_of-IsProtection newprot = ground arith

-- One mprotect(2) has been made, with the pages of the region.
abbrev pub ProtectedRegion : ℕ → ℕ → ℕ → Machine → ℕ × Machine → Type 0
ProtectedRegion address size newprot m r =
    (page : ℕ) × (len : ℕ) × (prot : ℕ) × Covers page len address size
    × IsProtection (newprot % 256) prot
    × (r.1.events ≡ protected page len prot ∷ m.events)

-- Where the region and a page fit in the address space, and there is room for the old protection or
-- it is not wanted, VirtualProtect makes one mprotect(2), on the fewest whole pages that hold the
-- region, with the protection that the low byte of its argument names, or read and write if that
-- byte is none of the six constants it knows.
pub virtual_protect-Meets :
    (k : Kernel) (address size newprot oldprot : ℕ) (m : Machine)
    → address + size + 4095 < u32_mod
    → IsResult m oldprot
    → Returns
        (ProtectedRegion address size newprot m)
        (virtual_protect k address size newprot oldprot m)
unfolding virtual_protect
virtual_protect-Meets k address size newprot oldprot m h i =
    let page = page_of address in
    let len = page_length address size in
    let prot = prot_of (newprot % 256) in
    Meets-bind ⊥ (HasResult oldprot 4 m) (ProtectedRegion address size newprot m)
      (store_result m oldprot 4) _ (store_result-Meets m oldprot 4 i)
      λ m' _ q. (
        page,
        len,
        prot,
        page_of-Covers address size h,
        prot_of-IsProtection (newprot % 256),
        ap (λ (x : Machine). protected page len prot ∷ x.events) q.0,
      )
