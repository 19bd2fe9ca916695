-- ===== src/StubPatch/Entered.antt =====
-- `shim_poke32` of src/stub_patch.c: where the entry point of the program is stored in the shim.
use silver_nimbus_otter.Prelude.{
  &&-eq-true, ==_iff, Bool-cases, List, arith, bind-eq-ok, inl, inr, leb, leb→le, length, ok,
  ok-injective, suc, sym, true, zero, ℕ, ◌%◌, ◌&&◌, ◌*◌, ◌+◌, ◌-◌, ◌<◌, ◌==◌, ◌≡◌, ◌≤◌,
}
use silver_nimbus_otter.ShimBlob.{read_u32}
use silver_nimbus_otter.StubPatch.{read_u32, poke_loop}
use silver_nimbus_otter.Bytes.{le32, u32_mod, text, mem_write}
use silver_nimbus_otter.StubPatch.Symbols.{one_later, word_at, half_at, HasSymbol, read_u32-word_at}
use silver_nimbus_otter.StubPatch.Memory.{splice}
use silver_nimbus_otter.ElfSpec.{ConvertError}

-- The program header at `at` is of type 1 and maps the four bytes at the address; they are replaced,
-- at the place in the file that the header gives, and all other bytes are as before.
abbrev pub StoredBy : List ℕ → ℕ → List ℕ → ℕ → ℕ → List ℕ → Type 0
StoredBy blob at shim vaddr value shim' =
    (word_at blob at ≡ 1)
    × (word_at blob (at + 8) ≤ vaddr)
    × ((vaddr + 4) % u32_mod ≤ (word_at blob (at + 8) + word_at blob (at + 16)) % u32_mod)
    × (shim'
        ≡ splice shim ((word_at blob (at + 4) + (vaddr - word_at blob (at + 8))) % u32_mod)
            (le32 value))

-- By one of the `n` program headers from index `i` on.
abbrev pub Stored : List ℕ → ℕ → ℕ → ℕ → List ℕ → ℕ → ℕ → List ℕ → Type 0
Stored blob phoff n i shim vaddr value shim' =
    (k : ℕ) × (k < i + n) × StoredBy blob (phoff + k * 32) shim vaddr value shim'

mem_write-splice :
    (buf : List ℕ) (off : ℕ) (src r : List ℕ)
    → mem_write {E = ConvertError} buf off src ≡ ok r
    → r ≡ splice buf off src
unfolding mem_write
mem_write-splice buf off src r h = elim (Bool-cases (leb (off + length src) (length buf))) [
  | inl e ↦ sym (ok-injective (rw e at h))
  | inr e ↦ cc (rw e at h)
]

stored :
    (blob : List ℕ) (at t v z o : ℕ) (shim : List ℕ) (vaddr value : ℕ) (r : List ℕ)
    → t ≡ word_at blob at
    → v ≡ word_at blob (at + 8)
    → z ≡ word_at blob (at + 16)
    → o ≡ word_at blob (at + 4)
    → t ≡ 1
    → (leb v vaddr && leb ((vaddr + 4) % u32_mod) ((v + z) % u32_mod)) ≡ true
    → r ≡ splice shim ((o + (vaddr - v)) % u32_mod) (le32 value)
    → StoredBy blob at shim vaddr value r
stored blob at t v z o shim vaddr value r a b c d load covers e =
    let (lo, hi) =
      &&-eq-true (leb v vaddr) (leb ((vaddr + 4) % u32_mod) ((v + z) % u32_mod)) covers in
    let low = leb→le v vaddr lo in
    let high = leb→le ((vaddr + 4) % u32_mod) ((v + z) % u32_mod) hi in
    rw (sym a, sym b, sym c, sym d) (load, low, high, e)

pub poke_loop-Stored :
    (blob : List ℕ) (phoff n i : ℕ) (shim : List ℕ) (vaddr value : ℕ) (r : List ℕ)
    → poke_loop blob phoff n i shim vaddr value ≡ ok r
    → Stored blob phoff n i shim vaddr value r
unfolding poke_loop
poke_loop-Stored blob phoff zero i shim vaddr value r e = cc
poke_loop-Stored blob phoff (suc n) i shim vaddr value r e =
    let at = phoff + i * 32 in
    let later : poke_loop blob phoff n (i + 1) shim vaddr value ≡ ok r
        → Stored blob phoff (suc n) i shim vaddr value r =
      λ q.
        one_later (λ k. StoredBy blob (phoff + k * 32) shim vaddr value r) i n
          (poke_loop-Stored blob phoff n (i + 1) shim vaddr value r q) in
    let (t, q0, e0) = bind-eq-ok (read_u32 blob at) _ e in
    elim (Bool-cases (t == 1)) [
      | inr other ↦ later (rw other at e0)
      | inl load ↦
          let (v, q1, e1) = bind-eq-ok (read_u32 blob (at + 8)) _ (rw load at e0) in
          let (z, q2, e2) = bind-eq-ok (read_u32 blob (at + 16)) _ e1 in
          let (o, q3, e3) = bind-eq-ok (read_u32 blob (at + 4)) _ e2 in
          let covers = leb v vaddr && leb ((vaddr + 4) % u32_mod) ((v + z) % u32_mod) in
          elim (Bool-cases covers) [
            | inr outside ↦ later (rw outside at e3)
            | inl inside ↦ (
              i,
              omega arith,
              stored blob at t v z o shim vaddr value r (read_u32-word_at blob at t q0)
                  (read_u32-word_at blob (at + 8) v q1) (read_u32-word_at blob (at + 16) z q2)
                  (read_u32-word_at blob (at + 4) o q3) ((==_iff t 1).0 load) inside
                  (mem_write-splice shim ((o + (vaddr - v)) % u32_mod) (le32 value) r
                    (rw inside at e3)),
            )
          ]
    ]

-- The shim is the blob with the value stored at the address of its symbol for it.
abbrev pub IsEntered : List ℕ → ℕ → List ℕ → Type 0
IsEntered blob value shim =
    (target : ℕ) × HasSymbol blob (text "shim_pe_entry_target") target
    × Stored blob (word_at blob 28) (half_at blob 44) 0 blob target value shim
