-- ===== src/Runtime/Msvcrt/Blocks.antt =====
-- calloc of runtime/shim_msvcrt.c.
use silver_nimbus_otter.Prelude.{
  ==_iff, Meets-bind, Meets-if, Returns, arith, inl, ℕ, ◌%◌, ◌*◌, ◌+◌, ◌<◌, ◌==◌, ◌≡◌,
}
use silver_nimbus_otter.Runtime.Heap.Realloc.{not_null}
use silver_nimbus_otter.Runtime.Heap.Zeroed.{Allocated-InHeap, cleared-Meets, Zeroed}
use silver_nimbus_otter.Runtime.Heap.{heap_alloc, block_size}
use silver_nimbus_otter.Bytes.{u32_mod}
use silver_nimbus_otter.Runtime.Heap.Growth.{heap_alloc-Meets, Allocated, IsHeap, IsBrk}
use silver_nimbus_otter.Runtime.{Machine, Kernel}
use silver_nimbus_otter.Runtime.Msvcrt.{u32_mod, Kernel, calloc}

-- If the kernel moves the break or leaves it, the product of the arguments does not reach 2^32 and
-- the block fits, calloc gives NULL or a block of zeros of the size of the product.
pub calloc-Meets :
    (k : Kernel) (nmemb size : ℕ) (m : Machine)
    → IsBrk k
    → IsHeap m
    → nmemb * size + 15 < u32_mod
    → m.break + 1048576 + block_size (nmemb * size) < u32_mod
    → Returns (Zeroed (nmemb * size)) (calloc k nmemb size m)
unfolding calloc
calloc-Meets k nmemb size m h w s u =
    let total = nmemb * size in
    let whole : total % u32_mod ≡ total = small total (omega arith) in
    rw whole (
      Meets-bind ⊥ (Allocated m total) (Zeroed total) (heap_alloc k total m) _
        (heap_alloc-Meets k total m h w u)
        λ r _ a.
          Meets-if ⊥ (Zeroed total) (r.0 == 0) _ _ (λ z. inl ((==_iff r.0 0).0 z))
            λ nz. cleared-Meets r total (Allocated-InHeap m total r a w s) (λ z. not_null r.0 nz z))
  where
    small : (n : ℕ) → n < u32_mod → n % u32_mod ≡ n
    small n h = omega arith
