-- ===== src/Runtime/Msvcrt.antt =====
-- runtime/shim_msvcrt.c. The accessors of variables of the shim give addresses.
pub mod Print
pub mod Arguments
pub mod Compare
pub mod Blocks
use silver_nimbus_otter.Prelude.{
  List, [], if◌then◌else◌, length, ltb, not, ok, replicate, stuck, suc, take, zero, ℕ, ◌%◌, ◌*◌,
  ◌++◌, ◌+◌, ◌-◌, ◌/◌, ◌==◌, ◌∷◌, ◌>>=◌, ◌>>◌,
}
use silver_nimbus_otter.Runtime.Startup.{
  call_exit_fn, iob_to_fd, run_atexit, process_exit, onexit_register, Program,
}
use silver_nimbus_otter.Runtime.Output.{write_list, write_all}
use silver_nimbus_otter.Runtime.Memory.{
  store_word, zero_fill, store_bytes, load, copy_bytes, c_string,
}
use silver_nimbus_otter.Runtime.Heap.{heap_realloc, heap_free, heap_alloc}
use silver_nimbus_otter.Runtime.Format.{vformat}
use silver_nimbus_otter.Runtime.{is_negative, wrote, Run, Machine, Kernel}
use silver_nimbus_otter.Bytes.{le32, u32_mod, text}

abbrev pub ismbblead : ℕ → ℕ
ismbblead c = 0

abbrev pub set_app_type : ℕ → Machine → Machine
set_app_type type m = m

abbrev pub set_user_math_err : ℕ → Machine → Machine
set_user_math_err handler m = m

abbrev pub signal : ℕ → ℕ → ℕ
signal sig handler = 0

-- `*argc = shim_argc; *argv = shim_argv; *envp = shim_envp;`, and the environment's variable.
unfoldable pub getmainargs : ℕ → ℕ → ℕ → ℕ → ℕ → Machine → Run (ℕ × Machine)
unfolding store_word
getmainargs argc argv envp do_wildcard startupinfo m = do
  m1 ← store_word m argc (length m.argv)
  m2 ← store_word m1 argv m.argv_at
  m3 ← store_word m2 envp m.envp_at
  m4 ← store_word m3 m.initenv m.envp_at
  ok (0, m4)

-- The accessors give the addresses of variables.
abbrev pub p_commode : Machine → ℕ
p_commode m = m.commode

abbrev pub p_fmode : Machine → ℕ
p_fmode m = m.fmode

abbrev pub p_iob : Machine → ℕ
p_iob m = m.iob

abbrev pub p_initenv : Machine → ℕ
p_initenv m = m.initenv

-- The value that p_acmdln puts behind the address it gives.
unfoldable pub acmdln : Machine → ℕ
acmdln m = if m.cmdline == 0 then m.empty_string else m.cmdline

unfoldable pub msvcrt_atexit : ℕ → Machine → ℕ × Machine
unfolding onexit_register
msvcrt_atexit fn m = (0, onexit_register fn m)

unfoldable pub msvcrt_onexit : ℕ → Machine → ℕ × Machine
unfolding onexit_register
msvcrt_onexit fn m = (fn, onexit_register fn m)

-- A message of the shim on the standard error, by one write(2).
unfoldable pub complain : Kernel → List ℕ → Machine → Machine
complain k msg m = record m {
  events = wrote 2 (take (k.write m.events 2 0 (length msg)) msg) ∷ m.events;
}

unfoldable pub amsg_exit {ℓ} : {A : Type ℓ} → Kernel → ℕ → Machine → Run A
unfolding complain process_exit
amsg_exit k code m = process_exit 255 (complain k (text "runtime error" ++ (10 ∷ [])) m)

unfoldable pub abort {ℓ} : {A : Type ℓ} → Kernel → Machine → Run A
unfolding complain process_exit
abort k m = process_exit 3 (complain k (text "abort()" ++ (10 ∷ [])) m)

abbrev pub cexit : Program → ℕ → Machine → Run Machine
cexit prog fuel m = run_atexit prog fuel m

unfoldable pub msvcrt_exit {ℓ} : {A : Type ℓ} → Program → ℕ → ℕ → Machine → Run A
unfolding run_atexit process_exit
msvcrt_exit prog fuel code m = do m' ← run_atexit prog fuel m; process_exit code m'

-- `*p`, where `p` points to a pointer.
unfoldable pub load_word : Machine → ℕ → Run ℕ
unfolding load
load_word m p = do
  a ← load m p
  b ← load m (p + 1)
  c ← load m (p + 2)
  d ← load m (p + 3)
  ok (a + 256 * b + 65536 * c + 16777216 * d)

-- The pointers from `p` to `end`; with one more round than there are, none is left.
unfoldable pub initterm_loop : Program → ℕ → ℕ → ℕ → Machine → Run Machine
unfolding load_word
initterm_loop prog zero p end m = stuck
initterm_loop prog (suc fuel) p end m =
    let next = initterm_loop prog fuel (p + 4) end in
    if not (ltb p end) then ok m else do fn ← load_word m p; m' ← call_exit_fn prog fn m; next m'

unfoldable pub initterm : Program → ℕ → ℕ → Machine → Run Machine
unfolding initterm_loop
initterm prog begin end m = initterm_loop prog (suc ((end - begin + 3) / 4)) begin end m

-- The product is of 32 bits.
unfoldable pub calloc : Kernel → ℕ → ℕ → Machine → Run (ℕ × Machine)
unfolding heap_alloc store_bytes
calloc k nmemb size m = do
  let total = nmemb * size % u32_mod
  r ← heap_alloc k total m
  if r.0 == 0 then ok r else do m' ← zero_fill r.1 r.0 total; ok (r.0, m')

abbrev pub malloc : Kernel → ℕ → Machine → Run (ℕ × Machine)
malloc k size m = heap_alloc k size m

abbrev pub free : ℕ → Machine → Machine
free p m = heap_free p m

abbrev pub realloc : Kernel → ℕ → ℕ → Machine → Run (ℕ × Machine)
realloc k p size m = heap_realloc k p size m

unfoldable pub memcpy : Machine → ℕ → ℕ → ℕ → Run (ℕ × Machine)
unfolding copy_bytes
memcpy m dst src n = do m' ← copy_bytes m dst src n; ok (dst, m')

-- `while (s[n]) n++;`
unfoldable pub strlen : ℕ → Machine → ℕ → Run ℕ
unfolding c_string
strlen fuel m s = do bs ← c_string fuel m s; ok (length bs)

-- The difference of two bytes, as the word of an int.
abbrev pub byte_difference : ℕ → ℕ → ℕ
byte_difference a b = (a + u32_mod - b) % u32_mod

-- `n` rounds are left.
unfoldable pub strncmp : Machine → ℕ → ℕ → ℕ → Run ℕ
unfolding load
strncmp m a b zero = ok 0
strncmp m a b (suc n) =
    let rest = strncmp m (a + 1) (b + 1) n in
    do
      ca ← load m a
      cb ← load m b
      if not (ca == cb) then ok (byte_difference ca cb) else if ca == 0 then ok 0 else rest

abbrev pub printf_buffer : ℕ
printf_buffer = 1024

-- `int len`: its negative values stand for nothing to write. `fuel` bounds the strings that are read;
-- what stands in the local buffer before does not matter, since the text goes up to its NUL.
unfoldable pub vfprintf : Kernel → ℕ → ℕ → List ℕ → List ℕ → Machine → Run (ℕ × Machine)
unfolding vformat write_list iob_to_fd
vfprintf k fuel stream fmt args m = do
  r ← vformat fuel m (replicate printf_buffer 0) fmt args
  let n : ℕ = if is_negative r.1 then 0 else r.1
  let n' : ℕ = if ltb (printf_buffer - 1) n then printf_buffer - 1 else n
  write_list k (iob_to_fd m stream) (take n' r.0) m

abbrev pub fprintf : Kernel → ℕ → ℕ → List ℕ → List ℕ → Machine → Run (ℕ × Machine)
fprintf k fuel stream fmt args m = vfprintf k fuel stream fmt args m

unfoldable pub fwrite : Kernel → ℕ → ℕ → ℕ → ℕ → Machine → Run (ℕ × Machine)
unfolding write_all iob_to_fd
fwrite k ptr size nmemb stream m = do
  r ← write_all k (iob_to_fd m stream) ptr (size * nmemb % u32_mod) m
  ok ((if size == 0 then 0 else r.0 / size), r.1)
