-- ===== src/Runtime/Kernel32/HeapFlags.antt =====
-- HEAP_ZERO_MEMORY in HeapAlloc and HeapReAlloc of runtime/shim_kernel32.c.
use silver_nimbus_otter.Prelude.{
  ==_iff, Bool-cases, Meets-bind, Returns, arith, inl, inr, test_bit, true, ℕ, ◌+◌, ◌<◌, ◌==◌, ◌≡◌,
  ◌≤◌, ◌⊎◌,
}
use silver_nimbus_otter.Bytes.{u32_mod}
use silver_nimbus_otter.Runtime.Heap.{heap_realloc, heap_alloc, block_size}
use silver_nimbus_otter.Runtime.Heap.Zeroed.{Allocated-InHeap, cleared-Meets, Zeroed}
use silver_nimbus_otter.Runtime.Heap.Growth.{heap_alloc-Meets, top, Allocated, IsHeap, IsBrk}
use silver_nimbus_otter.Runtime.Heap.Realloc.{
  not_null, heap_realloc-Meets, HoldsBytes, InHeap, Moved,
}
use silver_nimbus_otter.Runtime.Kernel32.{
  u32_mod, heap_zero_memory_bit, kernel32_heap_realloc, kernel32_heap_alloc, clear_if_asked,
}
use silver_nimbus_otter.Runtime.{Kernel, Machine}

pub clear_if_asked-Meets :
    (flags size : ℕ) (r : ℕ × Machine)
    → test_bit flags heap_zero_memory_bit ≡ true
    → (r.0 ≡ 0) ⊎ InHeap r.1 r.0 size
    → Returns (Zeroed size) (clear_if_asked flags size r)
unfolding clear_if_asked
clear_if_asked-Meets flags size r t h = elim (Bool-cases (r.0 == 0)) [
  | inl e ↦ rw e (inl ((==_iff r.0 0).0 e))
  | inr e ↦ rw (e, t) (cleared-Meets r size h (λ z. not_null r.0 e z))
]

Moved-InHeap :
    (m : Machine) (p old size : ℕ) (r : ℕ × Machine)
    → Moved m p old size 0 r
    → (r.0 ≡ 0) ⊎ InHeap r.1 r.0 size
Moved-InHeap m p old size r (inl a) = inl a.0
Moved-InHeap m p old size r (inr a) = inr a.1

-- If the kernel moves the break or leaves it and the block fits, an allocation with HEAP_ZERO_MEMORY
-- gives NULL or a block of which every byte is 0.
pub kernel32_heap_alloc-Meets :
    (k : Kernel) (flags size : ℕ) (m : Machine)
    → IsBrk k
    → IsHeap m
    → m.break + 1048576 + block_size size < u32_mod
    → size + 15 < u32_mod
    → test_bit flags heap_zero_memory_bit ≡ true
    → Returns (Zeroed size) (kernel32_heap_alloc k flags size m)
unfolding kernel32_heap_alloc
kernel32_heap_alloc-Meets k flags size m h w u s t =
    Meets-bind ⊥ (Allocated m size) (Zeroed size) (heap_alloc k size m) _
      (heap_alloc-Meets k size m h w u)
      λ r _ a. clear_if_asked-Meets flags size r t (Allocated-InHeap m size r a w s)

-- With HEAP_ZERO_MEMORY a reallocation clears the whole block after the copy: if the kernel moves the
-- break or leaves it and the block fits, what it gives is NULL or a block of which every byte is 0,
-- whatever the old block held.
pub kernel32_heap_realloc-Meets :
    (k : Kernel) (flags p old size : ℕ) (m : Machine)
    → IsBrk k
    → IsHeap m
    → m.break + 1048576 + block_size size < u32_mod
    → size + 15 < u32_mod
    → HoldsBytes m
    → m.heap_start ≤ p
    → p + old ≤ top m
    → test_bit flags heap_zero_memory_bit ≡ true
    → Returns (Zeroed size) (kernel32_heap_realloc k flags p size m)
unfolding kernel32_heap_realloc
kernel32_heap_realloc-Meets k flags p old size m h w u s b lo fits t =
    Meets-bind ⊥ (Moved m p old size 0) (Zeroed size) (heap_realloc k p size m) _
      (heap_realloc-Meets k p old size 0 m h w u s b lo fits (omega arith) (omega arith))
      λ r _ a. clear_if_asked-Meets flags size r t (Moved-InHeap m p old size r a)
