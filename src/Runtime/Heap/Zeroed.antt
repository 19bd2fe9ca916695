-- ===== src/Runtime/Heap/Zeroed.antt =====
-- Blocks that the callers of the allocator of runtime/shim_startup.c clear.
use silver_nimbus_otter.Prelude.{
  All, Meets-bind, Returns, ap, arith, inl, inr, length-replicate, ok, replicate, suc, sym, zero, ℕ,
  ◌+◌, ◌<◌, ◌∙◌, ◌≡◌, ◌≢◌, ◌≤◌, ◌⊎◌, ◌>>=◌,
}
use silver_nimbus_otter.Runtime.Heap.Blocks.{block_size_bounds}
use silver_nimbus_otter.Runtime.Heap.{block_size}
use silver_nimbus_otter.Runtime.Memory.Ranges.{store_bytes_ok, bytes_from-put}
use silver_nimbus_otter.Runtime.Heap.Realloc.{heap-IsMapped, InHeap}
use silver_nimbus_otter.Runtime.Heap.Growth.{top, IsHeap, Allocated}
use silver_nimbus_otter.Runtime.Memory.{zero_fill, put, bytes_from}
use silver_nimbus_otter.Runtime.{Machine}
use silver_nimbus_otter.Bytes.{u32_mod, IsByte}

zeros-IsByte : (n : ℕ) → All IsByte (replicate n 0)
zeros-IsByte zero = tt
zeros-IsByte (suc n) = (omega arith, zeros-IsByte n)

-- A NULL, or a block of the heap whose bytes are all 0.
abbrev pub Zeroed : ℕ → ℕ × Machine → Type 0
Zeroed size r = (r.0 ≡ 0) ⊎ (bytes_from r.1.bytes r.0 size ≡ replicate size 0)

bytes_from-zeros : (f : ℕ → ℕ) (p n : ℕ) → bytes_from (put f p (replicate n 0)) p n ≡ replicate n 0
bytes_from-zeros f p n =
    ap (λ (t : ℕ). bytes_from (put f p (replicate n 0)) p t) (sym (length-replicate n 0))
    ∙ bytes_from-put f p (replicate n 0) (zeros-IsByte n)

pub zero_fill-Meets :
    (m : Machine) (p size : ℕ)
    → InHeap m p size
    → Returns (λ m'. bytes_from m'.bytes p size ≡ replicate size 0) (zero_fill m p size)
zero_fill-Meets m p size h =
    let len = length-replicate {A = ℕ} size 0 in
    rw
      (store_bytes_ok m p (replicate size 0)
        (λ x lo hi. heap-IsMapped m p size h.0 h.1 h.2 x lo (omega (arith, hi, len))))
      (bytes_from-zeros m.bytes p size)

-- `if (p) { for ... = 0 }`
pub cleared-Meets :
    (r : ℕ × Machine) (size : ℕ)
    → (r.0 ≡ 0) ⊎ InHeap r.1 r.0 size
    → r.0 ≢ 0
    → Returns (Zeroed size) (do m' ← zero_fill r.1 r.0 size; ok (r.0, m'))
cleared-Meets r size (inl e) ne = absurd (ne e)
cleared-Meets r size (inr h) ne =
    Meets-bind ⊥ (λ m'. bytes_from m'.bytes r.0 size ≡ replicate size 0) (Zeroed size)
      (zero_fill r.1 r.0 size) _ (zero_fill-Meets r.1 r.0 size h) λ m' _ e. inr e

block-InHeap :
    (m : Machine) (size : ℕ) (r : ℕ × Machine)
    → r.1.heap_start ≤ top m
    → r.1.break < u32_mod
    → size ≤ block_size size
    → ((r.0 ≡ 0) × (top r.1 ≡ top m))
      ⊎ ((r.0 ≡ top m) × (0 < r.0) × (r.0 + block_size size ≡ top r.1) × (top r.1 ≤ r.1.break))
    → (r.0 ≡ 0) ⊎ InHeap r.1 r.0 size
block-InHeap m size r a b le (inl c) = inl c.0
block-InHeap m size r a b le (inr c) = inr (omega (arith, a, c.0), omega (arith, c.2, c.3, le), b)

top-above : (m : Machine) → IsHeap m → m.heap_start ≤ top m
top-above m w = ground arith

pub Allocated-InHeap :
    (m : Machine) (size : ℕ) (r : ℕ × Machine)
    → Allocated m size r
    → IsHeap m
    → size + 15 < u32_mod
    → (r.0 ≡ 0) ⊎ InHeap r.1 r.0 size
Allocated-InHeap m size r a w s =
    let start : r.1.heap_start ≡ m.heap_start = ap (λ (x : Machine). x.heap_start) a.same in
    let bounds = block_size_bounds size s in
    block-InHeap m size r (omega (arith, start, top-above m w)) a.heap.2 bounds.0 a.block
