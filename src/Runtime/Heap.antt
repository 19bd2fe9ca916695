-- ===== src/Runtime/Heap.antt =====
-- The bump allocator of runtime/shim_startup.c.
pub mod Growth
pub mod Blocks
pub mod Realloc
pub mod Zeroed
use silver_nimbus_otter.Prelude.{
  fault, if◌then◌else◌, leb, ltb, ok, ℕ, ◌%◌, ◌*◌, ◌+◌, ◌-◌, ◌/◌, ◌==◌, ◌>>=◌, ◌>>◌,
}
use silver_nimbus_otter.Runtime.Memory.{copy_bytes}
use silver_nimbus_otter.Runtime.{Run, Machine, Kernel}
use silver_nimbus_otter.Bytes.{u32_mod}

-- The request rounded up to sixteen bytes, in 32 bits; an empty one gets sixteen too.
unfoldable pub block_size : ℕ → ℕ
block_size size =
    let rounded = (size + 15) % u32_mod / 16 * 16 in if rounded == 0 then 16 else rounded

-- A sum of an address and a size that leaves the address space is no pointer.
unfoldable pub advance : ℕ → ℕ → Run ℕ
advance p n = if ltb (p + n) u32_mod then ok (p + n) else fault

-- `shim_syscall1(SYS_brk, address)`
unfoldable pub sys_brk : Kernel → ℕ → Machine → ℕ × Machine
sys_brk k address m = (k.brk m.break address, record m { break = k.brk m.break address })

-- `if (heap_next == 0) { ... }`
unfoldable pub start_heap : Kernel → Machine → Machine
unfolding sys_brk
start_heap k m =
    if m.heap_next == 0
    then (let (cur, m') = sys_brk k 0 m in record m' { heap_next = cur; heap_limit = cur })
    else m

-- How far the break is moved: by a mebibyte, or by more if the block needs it.
abbrev pub grow_by : ℕ → ℕ
grow_by need = if ltb 1048576 need then need else 1048576

-- NULL is 0.
unfoldable pub bump : Kernel → ℕ → Machine → Run (ℕ × Machine)
unfolding advance sys_brk
bump k n m = do
  next ← advance m.heap_next n
  if leb next m.heap_limit then ok (m.heap_next, record m { heap_next = next }) else do
    asked ← advance m.heap_limit (grow_by (next - m.heap_limit))
    let (limit, m') = sys_brk k asked m
    if ltb limit asked
        then ok (0, m')
        else ok (m.heap_next, record m' { heap_limit = limit; heap_next = next })

unfoldable pub heap_alloc : Kernel → ℕ → Machine → Run (ℕ × Machine)
unfolding block_size start_heap bump
heap_alloc k size m = bump k (block_size size) (start_heap k m)

-- Nothing is given back.
abbrev pub heap_free : ℕ → Machine → Machine
heap_free p m = m

unfoldable pub heap_realloc : Kernel → ℕ → ℕ → Machine → Run (ℕ × Machine)
unfolding heap_alloc copy_bytes
heap_realloc k p size m = do
  r ← heap_alloc k size m
  if r.0 == 0
      then ok (0, r.1)
      else if p == 0
      then ok r
      else do m' ← copy_bytes r.1 r.0 p size; ok (r.0, m')
