-- ===== src/Runtime/Heap/Blocks.antt =====
-- The blocks of a run of allocations by runtime/shim_startup.c, and their sizes.
use silver_nimbus_otter.Prelude.{
  List, Meets-bind, Returns, [], ap, arith, inl, inr, map, ok, refl, ℕ, ◌%◌, ◌+◌, ◌<◌, ◌∷◌, ◌≡◌,
  ◌≤◌, ◌⊎◌, ◌>>=◌,
}
use silver_nimbus_otter.Runtime.Heap.Growth.{heap_alloc-Meets, Allocated, IsBrk, top, IsHeap}
use silver_nimbus_otter.Bytes.{u32_mod}
use silver_nimbus_otter.Runtime.Heap.{start_heap, bump, u32_mod, heap_alloc, block_size}
use silver_nimbus_otter.Runtime.{Run, Kernel, Machine}

-- A request whose rounding does not pass 2^32 gets a block that holds it, and at most sixteen bytes
-- more, in whole sixteens.
pub block_size_bounds :
    (size : ℕ)
    → size + 15 < u32_mod
    → (size ≤ block_size size) × (block_size size ≤ size + 16) × (block_size size % 16 ≡ 0)
unfolding block_size
block_size_bounds size h = ground arith

-- A request within fifteen bytes of 2^32 is handled like a request for one byte.
pub heap_alloc_wraps :
    (k : Kernel) (size : ℕ) (m : Machine)
    → u32_mod ≤ size + 15
    → size < u32_mod
    → heap_alloc k size m ≡ heap_alloc k 1 m
unfolding heap_alloc
heap_alloc_wraps k size m h l = ap (λ n. bump k n (start_heap k m)) (sixteen size h l)
  where
    sixteen : (n : ℕ) → u32_mod ≤ n + 15 → n < u32_mod → block_size n ≡ block_size 1
    sixteen n h l = ground arith

-- A run of requests, with the blocks that it got: their addresses and sizes.
unfoldable pub alloc_all : Kernel → List ℕ → Machine → Run (List (ℕ × ℕ) × Machine)
unfolding heap_alloc
alloc_all k [] m = ok ([], m)
alloc_all k (size ∷ sizes) m = do
  r ← heap_alloc k size m
  rest ← alloc_all k sizes r.1
  ok ((r.0, size) ∷ rest.0, rest.1)

-- Every block lies behind `from` and behind the blocks before it, and ends before `to`.
abbrev pub Placed : ℕ → List (ℕ × ℕ) → ℕ → Type 0
Placed from [] to = from ≤ to
Placed from ((p, size) ∷ blocks) to =
    ((p ≡ 0) × Placed from blocks to) ⊎ ((from ≤ p) × (0 < p) × Placed (p + size) blocks to)

-- Room for the run: what the break may grow by.
abbrev pub room_for : List ℕ → ℕ
room_for [] = 0
room_for (size ∷ sizes) = size + 16 + 1048576 + room_for sizes

abbrev pub FitsRun : List ℕ → Machine → List (ℕ × ℕ) × Machine → Type 0
FitsRun sizes m r = IsHeap r.1 × Placed (top m) r.0 (top r.1) × (map (λ b. b.1) r.0 ≡ sizes)

Placed-from :
    (a b : ℕ) (blocks : List (ℕ × ℕ)) (to : ℕ) → a ≤ b → Placed b blocks to → Placed a blocks to
Placed-from a b [] to h p = omega arith
Placed-from a b ((q, size) ∷ blocks) to h (inl p) = inl (p.0, Placed-from a b blocks to h p.1)
Placed-from a b ((q, size) ∷ blocks) to h (inr p) = inr (omega arith, p.1, p.2)

Placed-one :
    (m : Machine) (r : ℕ × Machine) (size : ℕ) (rest : List (ℕ × ℕ) × Machine)
    → size ≤ block_size size
    → Placed (top r.1) rest.0 (top rest.1)
    → ((r.0 ≡ 0) × (top r.1 ≡ top m))
      ⊎ ((r.0 ≡ top m) × (0 < r.0) × (r.0 + block_size size ≡ top r.1) × (top r.1 ≤ r.1.break))
    → Placed (top m) ((r.0, size) ∷ rest.0) (top rest.1)
Placed-one m r size rest le p (inl b) =
    inl (b.0, Placed-from (top m) (top r.1) rest.0 (top rest.1) (omega (arith, b.1)) p)
Placed-one m r size rest le p (inr b) = inr (
  omega (arith, b.0),
  b.1,
  Placed-from (r.0 + size) (top r.1) rest.0 (top rest.1) (omega (arith, b.2)) p,
)

-- If the kernel moves the break or leaves it, and all requests with a mebibyte each fit behind it
-- in the address space, a run of allocations gives each request NULL or a block of at least its
-- size; the blocks lie one behind the other from the heap's old top to its new one, so no two
-- overlap, and the heap's bounds are kept.
pub alloc_all-Meets :
    (k : Kernel) (sizes : List ℕ) (m : Machine)
    → IsBrk k
    → IsHeap m
    → m.break + room_for sizes < u32_mod
    → Returns (FitsRun sizes m) (alloc_all k sizes m)
unfolding alloc_all
alloc_all-Meets k [] m h w u = (w, omega arith, refl)
alloc_all-Meets k (size ∷ sizes) m h w u =
    let bounds = block_size_bounds size (omega arith) in
    let P = FitsRun (size ∷ sizes) m in
    Meets-bind ⊥ (Allocated m size) P (heap_alloc k size m) _
      (heap_alloc-Meets k size m h w (omega (arith, bounds.1)))
      λ r _ a.
        Meets-bind ⊥ (FitsRun sizes r.1) P (alloc_all k sizes r.1) _
          (alloc_all-Meets k sizes r.1 h a.heap (omega (arith, a.limited, bounds.1)))
          λ rest _ f. (f.0, Placed-one m r size rest bounds.0 f.1 a.block, ap (λ t. size ∷ t) f.2)
