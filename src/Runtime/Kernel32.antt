-- ===== src/Runtime/Kernel32.antt =====
-- runtime/shim_kernel32.c. A BOOL is 1 or 0; a pointer to where a result goes may be NULL. The
-- functions that ignore their arguments and change nothing are constants here.
pub mod HeapFlags
pub mod Results
pub mod Protection
pub mod Files
use silver_nimbus_otter.Prelude.{
  bit_or, fault, get_or, if◌then◌else◌, leb, ltb, not, ok, take, test_bit, ℕ, ◌%◌, ◌&&◌, ◌*◌, ◌+◌,
  ◌-◌, ◌/◌, ◌==◌, ◌>>=◌, ◌∷◌, ◌>>◌,
}
use silver_nimbus_otter.Runtime.Startup.{Program, process_exit, env_block, run_atexit}
use silver_nimbus_otter.Runtime.Output.{write_all}
use silver_nimbus_otter.Runtime.Memory.{put, zero_fill, store, store_word, store_bytes}
use silver_nimbus_otter.Runtime.Heap.{heap_free, heap_realloc, heap_alloc}
use silver_nimbus_otter.Runtime.{
  took, closed, slept, protected, opened, is_negative, Run, Machine, Kernel,
}
use silver_nimbus_otter.Bytes.{u32_mod}

-- The four functions on critical sections.
abbrev pub critical_section : ℕ → Machine → Machine
critical_section cs m = m

abbrev pub free_library : ℕ → ℕ
free_library hmod = 1

unfoldable pub set_last_error : ℕ → Machine → Machine
set_last_error code m = record m { last_error = code }

abbrev pub get_last_error : Machine → ℕ
get_last_error m = m.last_error

abbrev pub get_module_handle : ℕ → ℕ
get_module_handle name = if name == 0 then 0x00400000 else 0

abbrev pub load_library : ℕ → ℕ
load_library name = 0

abbrev pub get_proc_address : ℕ → ℕ → ℕ
get_proc_address hmod name = 0

abbrev pub set_unhandled_exception_filter : ℕ → ℕ
set_unhandled_exception_filter filter = 0

abbrev pub startup_info_size : ℕ
startup_info_size = 68

unfoldable pub get_startup_info : ℕ → Machine → Run Machine
unfolding store_bytes store
get_startup_info p m =
    if p == 0 then ok m else do m' ← zero_fill m p startup_info_size; store m' p startup_info_size

-- Seconds and nanoseconds.
unfoldable pub sleep : ℕ → Machine → Machine
sleep ms m = record m { events = slept (ms / 1000) (ms % 1000 * 1000000) ∷ m.events }

abbrev pub tls_slots : ℕ
tls_slots = 64

unfoldable pub tls_get_value : ℕ → Machine → ℕ
tls_get_value idx m = if leb tls_slots idx then 0 else get_or m.tls_values idx 0

-- The PAGE_ constants as PROT_ ones.
unfoldable pub prot_of : ℕ → ℕ
prot_of newprot =
    if newprot == 0x01
    then 0
    else if newprot == 0x02
    then 1
    else if newprot == 0x04
    then 3
    else if newprot == 0x10
    then 4
    else if newprot == 0x20
    then 5
    else if newprot == 0x40
    then 7
    else 3

abbrev pub page_of : ℕ → ℕ
page_of address = address / 4096 * 4096

-- The whole pages that the region touches, in 32 bits.
abbrev pub page_length : ℕ → ℕ → ℕ
page_length address size = (size + (address - page_of address) + 4095) % u32_mod / 4096 * 4096

-- A result that the caller may not want.
unfoldable pub store_result : Machine → ℕ → ℕ → Run Machine
unfolding store_word
store_result m p v = if p == 0 then ok m else store_word m p v

unfoldable pub virtual_protect : Kernel → ℕ → ℕ → ℕ → ℕ → Machine → Run (ℕ × Machine)
unfolding store_result prot_of
virtual_protect k address size newprot oldprot m = do
  let page = page_of address
  let len = page_length address size
  let prot = prot_of (newprot % 256)
  m' ← store_result m oldprot 0x04
  let done : ℕ = if k.mprotect m'.events page len prot == 0 then 1 else 0
  ok (done, record m' { events = protected page len prot ∷ m'.events })

abbrev pub mbi_size : ℕ
mbi_size = 28

unfoldable pub virtual_query : ℕ → ℕ → ℕ → Machine → Run (ℕ × Machine)
unfolding store_word
virtual_query address out len m = if ltb len mbi_size then ok (0, m) else do
  m1 ← store_word m out (page_of address)
  m2 ← store_word m1 (out + 4) (page_of address)
  m3 ← store_word m2 (out + 8) 0x04
  m4 ← store_word m3 (out + 12) 0x1000
  m5 ← store_word m4 (out + 16) 0x1000
  m6 ← store_word m5 (out + 20) 0x04
  m7 ← store_word m6 (out + 24) 0x20000
  ok (mbi_size, m7)

abbrev pub get_process_heap : ℕ
get_process_heap = 1

-- The bit of HEAP_ZERO_MEMORY.
abbrev pub heap_zero_memory_bit : ℕ
heap_zero_memory_bit = 3

-- `if (p && (flags & 0x8))`: the block of the size asked for is cleared.
unfoldable pub clear_if_asked : ℕ → ℕ → ℕ × Machine → Run (ℕ × Machine)
unfolding store_bytes
clear_if_asked flags size r =
    if not (r.0 == 0) && test_bit flags heap_zero_memory_bit
    then (do m' ← zero_fill r.1 r.0 size; ok (r.0, m'))
    else ok r

unfoldable pub kernel32_heap_alloc : Kernel → ℕ → ℕ → Machine → Run (ℕ × Machine)
unfolding heap_alloc clear_if_asked
kernel32_heap_alloc k flags size m = heap_alloc k size m >>= clear_if_asked flags size

abbrev pub kernel32_heap_free : ℕ → Machine → ℕ × Machine
kernel32_heap_free p m = (1, heap_free p m)

unfoldable pub kernel32_heap_realloc : Kernel → ℕ → ℕ → ℕ → Machine → Run (ℕ × Machine)
unfolding heap_realloc clear_if_asked
kernel32_heap_realloc k flags p size m = heap_realloc k p size m >>= clear_if_asked flags size

unfoldable pub exit_process {ℓ} : {A : Type ℓ} → Program → ℕ → ℕ → Machine → Run A
unfolding run_atexit process_exit
exit_process prog fuel code m = do m' ← run_atexit prog fuel m; process_exit code m'

unfoldable pub get_command_line : Machine → ℕ
get_command_line m = if m.cmdline == 0 then m.empty_string else m.cmdline

abbrev pub get_environment_strings : Kernel → Machine → Run (ℕ × Machine)
get_environment_strings k m = env_block k m

abbrev pub free_environment_strings : ℕ → ℕ
free_environment_strings block = 1

abbrev pub invalid_handle : ℕ
invalid_handle = 0xFFFFFFFF

-- The words of -10, -11 and -12.
unfoldable pub get_std_handle : ℕ → ℕ
get_std_handle which =
    if which == 0xFFFFFFF6
    then 1
    else if which == 0xFFFFFFF5
    then 2
    else if which == 0xFFFFFFF4
    then 3
    else invalid_handle

-- `(long)h - 1`, which overflows for the least long.
unfoldable pub fd_of : ℕ → Run ℕ
fd_of h = if h == 2147483648 then fault else ok ((h + u32_mod - 1) % u32_mod)

unfoldable pub close_handle : ℕ → Machine → Run (ℕ × Machine)
unfolding fd_of
close_handle h m = do
  fd ← fd_of h
  if not (is_negative fd) && ltb 2 fd
      then ok (1, record m { events = closed fd ∷ m.events })
      else ok (1, m)

unfoldable pub write_file : Kernel → ℕ → ℕ → ℕ → ℕ → ℕ → Machine → Run (ℕ × Machine)
unfolding fd_of write_all store_result set_last_error
write_file k h buf n written overlapped m =
    if not (overlapped == 0) then ok (0, set_last_error 87 m) else do
      fd ← fd_of h
      if is_negative fd
          then ok (0, set_last_error 6 m)
          else do r ← write_all k fd buf n m; m' ← store_result r.1 written r.0; ok (1, m')

unfoldable pub read_file : Kernel → ℕ → ℕ → ℕ → ℕ → ℕ → Machine → Run (ℕ × Machine)
unfolding fd_of store_result set_last_error
read_file k h buf n nread overlapped m =
    if not (overlapped == 0) then ok (0, set_last_error 87 m) else do
      fd ← fd_of h
      if is_negative fd then ok (0, set_last_error 6 m) else do
        let r = k.read m.events fd buf n
        let got = take r (k.incoming m.events fd)
        if is_negative r then (do m' ← store_result m nread 0; ok (0, m')) else do
          let m1 = record m { bytes = put m.bytes buf got; events = took fd got ∷ m.events }
          m' ← store_result m1 nread r
          ok (1, m')

-- GENERIC_WRITE and GENERIC_READ are bits 30 and 31: O_RDONLY, O_WRONLY or O_RDWR.
unfoldable pub access_mode : ℕ → ℕ
access_mode access = if test_bit access 30 then (if test_bit access 31 then 2 else 1) else 0

-- O_CREAT is 0x40, O_EXCL 0x80 and O_TRUNC 0x200.
unfoldable pub creation_flags : ℕ → ℕ
creation_flags disposition =
    if disposition == 1
    then 0xC0
    else if disposition == 2
    then 0x240
    else if disposition == 3
    then 0
    else if disposition == 4
    then 0x40
    else if disposition == 5
    then 0x200
    else 0

unfoldable pub create_file : Kernel → ℕ → ℕ → ℕ → Machine → Run (ℕ × Machine)
unfolding access_mode creation_flags set_last_error
create_file k path access disposition m =
    let flags = bit_or (creation_flags disposition) (access_mode access) in
    let fd = k.open_file m.events path flags 420 in
    let m' = record m { events = opened path flags 420 ∷ m.events } in
    if is_negative fd
    then ok (invalid_handle, set_last_error 2 m')
    else if fd == 2147483647
    then fault
    else ok (fd + 1, m')
