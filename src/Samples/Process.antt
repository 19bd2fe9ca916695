-- ===== src/Samples/Process.antt =====
-- A kernel and a process for the tests of the shim: the heap begins at 0x8000, and a write takes at
-- most four bytes.
mod Calls
use silver_nimbus_otter.Prelude.{
  List, Returns, [], ap, arith, if◌then◌else◌, inl, inr, leb, length, ltb, ok, ok-injective, refl,
  replicate, suc, sym, true, ℕ, ◌%◌, ◌&&◌, ◌+◌, ◌<◌, ◌==◌, ◌∷◌, ◌≡◌,
}
use silver_nimbus_otter.Runtime.Kernel32.HeapFlags.{
  kernel32_heap_realloc-Meets, kernel32_heap_alloc-Meets,
}
use silver_nimbus_otter.Runtime.Output.{write_all}
use silver_nimbus_otter.Runtime.Kernel32.{kernel32_heap_realloc, kernel32_heap_alloc}
use silver_nimbus_otter.Runtime.Format.Truncated.{vformat_lem, terminated}
use silver_nimbus_otter.Runtime.Format.Digits.{uint_text_roundtrip, read_digits}
use silver_nimbus_otter.Runtime.Startup.Exits.{
  run_atexit-register_all, call_each, register_all, IsQuiet,
}
use silver_nimbus_otter.Runtime.Startup.{run_atexit, Program}
use silver_nimbus_otter.Runtime.Heap.Zeroed.{Zeroed}
use silver_nimbus_otter.Runtime.Heap.Realloc.{heap_realloc-Meets, Moved, HoldsBytes}
use silver_nimbus_otter.Runtime.Heap.Blocks.{
  alloc_all-Meets, alloc_all, heap_alloc_wraps, block_size_bounds, FitsRun,
}
use silver_nimbus_otter.Runtime.Format.Render.{int_text, render_conversion, render}
use silver_nimbus_otter.Runtime.Format.{string_arg, digits_loop, vformat, uint_text}
use silver_nimbus_otter.Runtime.Heap.{heap_realloc, block_size, heap_alloc}
use silver_nimbus_otter.Bytes.{u32_mod, text}
use silver_nimbus_otter.Runtime.Output.Progress.{write_all-Meets, Sent, IsWrite}
use silver_nimbus_otter.Runtime.Heap.Growth.{heap_alloc-Meets, IsHeap, IsBrk, Allocated}
use silver_nimbus_otter.Runtime.{slept, Machine, Kernel}

abbrev pub small_writes : Kernel
small_writes = record {
  brk = λ cur req. if req == 0 then cur else req;
  write = λ events fd p n. if ltb 4 n then 4 else n;
  read = λ events fd p n. n;
  incoming = λ events fd. text "typed";
  open_file = λ events path flags mode. 3;
  mprotect = λ events page len prot. 0;
  set_thread_area = λ base limit flags. (0, 6);
}

abbrev pub fresh : Machine
fresh = record {
  mapped = λ a. leb 0x1000 a && ltb a 0x2000;
  heap_start = 0x8000;
  break = 0x8000;
  bytes = λ a. a % 256;
  events = [];
  teb = 0x1000;
  fs = 0;
  iob = 0x1800;
  iob_files = [];
  initenv = 0x1D00;
  commode = 0x1D04;
  fmode = 0x1D08;
  empty_string = 0x1C00;
  heap_next = 0;
  heap_limit = 0;
  atexit_fns = [];
  envp = text "A=1" ∷ text "B=" ∷ [];
  argv = text "prog" ∷ text "-x" ∷ [];
  argv_at = 0x1E00;
  envp_at = 0x1E10;
  environment = 0;
  cmdline = 0;
  last_error = 0;
  tls_values = [];
}

pub small_writes-IsBrk : IsBrk small_writes
small_writes-IsBrk = record { query = λ cur. refl; answer = λ cur req. ground arith }

pub small_writes-IsWrite : IsWrite small_writes
small_writes-IsWrite events fd p n h = ground arith

pub fresh-IsHeap : IsHeap fresh
fresh-IsHeap = (omega arith, omega arith, omega arith, inl refl)

-- Room for a block of up to 1024 bytes.
pub fits : (size : ℕ) → size < 1024 → fresh.break + 1048576 + block_size size < u32_mod
fits size h = let b = block_size_bounds size (omega arith) in omega (arith, b.1)

heap_alloc-Meets_example : Returns (Allocated fresh 20) (heap_alloc small_writes 20 fresh)
heap_alloc-Meets_example =
    heap_alloc-Meets small_writes 20 fresh small_writes-IsBrk fresh-IsHeap (fits 20 (omega arith))

alloc_all-Meets_example :
    Returns (FitsRun (20 ∷ 0 ∷ 33 ∷ []) fresh) (alloc_all small_writes (20 ∷ 0 ∷ 33 ∷ []) fresh)
alloc_all-Meets_example =
    alloc_all-Meets small_writes (20 ∷ 0 ∷ 33 ∷ []) fresh small_writes-IsBrk fresh-IsHeap
      (omega arith)

heap_alloc_wraps_example :
    heap_alloc small_writes 0xFFFFFFFF fresh ≡ heap_alloc small_writes 1 fresh
heap_alloc_wraps_example =
    heap_alloc_wraps small_writes 0xFFFFFFFF fresh (omega arith) (omega arith)

-- After an allocation of 64 bytes.
abbrev used : Machine
used = record fresh { break = 0x108000; heap_next = 0x8040; heap_limit = 0x108000 }

used-IsHeap : IsHeap used
used-IsHeap = (omega arith, omega arith, omega arith, inr (omega arith, omega arith, refl))

used-HoldsBytes : HoldsBytes used
used-HoldsBytes x = omega arith

used_fits : (size : ℕ) → size < 1024 → used.break + 1048576 + block_size size < u32_mod
used_fits size h = let b = block_size_bounds size (omega arith) in omega (arith, b.1)

heap_realloc-Meets_example :
    Returns (Moved used 0x8000 64 100 64) (heap_realloc small_writes 0x8000 100 used)
heap_realloc-Meets_example =
    heap_realloc-Meets small_writes 0x8000 64 100 64 used small_writes-IsBrk used-IsHeap
      (used_fits 100 (omega arith)) (omega arith) used-HoldsBytes (omega arith) (omega arith)
      (omega arith) (omega arith)

kernel32_heap_realloc-Meets_example :
    Returns (Zeroed 100) (kernel32_heap_realloc small_writes 8 0x8000 100 used)
kernel32_heap_realloc-Meets_example =
    kernel32_heap_realloc-Meets small_writes 8 0x8000 64 100 used small_writes-IsBrk used-IsHeap
      (used_fits 100 (omega arith)) (omega arith) used-HoldsBytes (omega arith) (omega arith) refl

write_all-Meets_example :
    Returns (Sent fresh.bytes 1 0x1000 10 0 fresh) (write_all small_writes 1 0x1000 10 fresh)
write_all-Meets_example =
    write_all-Meets small_writes 1 0x1000 10 fresh small_writes-IsWrite (omega arith)

uint_text_roundtrip_example :
    (ds : List ℕ) × (uint_text 48879 16 true ≡ ok ds) × (read_digits 16 0 ds ≡ 48879)
uint_text_roundtrip_example = uint_text_roundtrip 48879 16 true (inr refl) (omega arith)

number_text :
    render (suc (length (text "n=%d, %x"))) 9 fresh (text "n=%d, %x") (42 ∷ 255 ∷ [])
    ≡ ok (text "n=42, ff")
unfolding render render_conversion int_text uint_text digits_loop string_arg
number_text = refl

vformat_lem_example :
    vformat 9 fresh (replicate 6 1) (text "n=%d, %x") (42 ∷ 255 ∷ [])
    ≡ ok (terminated (replicate 6 1) (text "n=42, ff"), 8)
vformat_lem_example =
    vformat_lem 9 fresh (replicate 6 1) (text "n=%d, %x") (42 ∷ 255 ∷ []) (text "n=42, ff")
      number_text (omega arith)

-- Exit functions that only note that they ran.
abbrev noting : Program
noting fn m = ok (record m { events = slept fn 0 ∷ m.events })

noting-IsQuiet : IsQuiet noting
noting-IsQuiet fn m m' e = ap (λ (x : Machine). x.atexit_fns) (sym (ok-injective e))

run_atexit-register_all_example :
    run_atexit noting 33 (register_all (7 ∷ 0 ∷ 9 ∷ []) fresh)
    ≡ call_each noting (9 ∷ 0 ∷ 7 ∷ []) (register_all (7 ∷ 0 ∷ 9 ∷ []) fresh)
run_atexit-register_all_example =
    run_atexit-register_all noting (7 ∷ 0 ∷ 9 ∷ []) 33 fresh noting-IsQuiet (omega arith) refl
