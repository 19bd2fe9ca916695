-- ===== src/Runtime/Memory.antt =====
-- Loads and stores of single bytes, and the loops that the shim's sources make of them.
pub mod Ranges
pub mod Copies
use silver_nimbus_otter.Prelude.{
  Bool, List, [], fault, if◌then◌else◌, leb, ltb, ok, replicate, stuck, suc, zero, ℕ, ◌%◌, ◌&&◌,
  ◌+◌, ◌==◌, ◌||◌, ◌∷◌, ◌>>=◌, ◌>>◌,
}
use silver_nimbus_otter.Runtime.{Run, Machine}
use silver_nimbus_otter.Bytes.{le32, u32_mod}

unfoldable pub accessible : Machine → ℕ → Bool
accessible m a = ltb a u32_mod && (m.mapped a || (leb m.heap_start a && ltb a m.break))

abbrev pub set_byte : (ℕ → ℕ) → ℕ → ℕ → ℕ → ℕ
set_byte f a v x = if x == a then v else f x

unfoldable pub load : Machine → ℕ → Run ℕ
unfolding accessible
load m a = if accessible m a then ok (m.bytes a) else fault

unfoldable pub store : Machine → ℕ → ℕ → Run Machine
unfolding accessible
store m a v =
    if accessible m a then ok (record m { bytes = set_byte m.bytes a (v % 256) }) else fault

-- One store for each byte, in order.
unfoldable pub store_bytes : Machine → ℕ → List ℕ → Run Machine
unfolding store
store_bytes m a [] = ok m
store_bytes m a (b ∷ bs) = do m' ← store m a b; store_bytes m' (a + 1) bs

-- `for (i = 0; i < n; i++) p[i] = 0;`
abbrev pub zero_fill : Machine → ℕ → ℕ → Run Machine
zero_fill m p n = store_bytes m p (replicate n 0)

-- `for (i = 0; i < n; i++) d[i] = s[i];`
unfoldable pub copy_bytes : Machine → ℕ → ℕ → ℕ → Run Machine
unfolding load store
copy_bytes m d s zero = ok m
copy_bytes m d s (suc n) = do v ← load m s; m' ← store m d v; copy_bytes m' (d + 1) (s + 1) n

-- The bytes up to the first NUL, of at most `fuel`.
unfoldable pub c_string : ℕ → Machine → ℕ → Run (List ℕ)
unfolding load
c_string zero m a = stuck
c_string (suc fuel) m a = do
  v ← load m a
  if v == 0 then ok [] else do rest ← c_string fuel m (a + 1); ok (v ∷ rest)

unfoldable pub store_word : Machine → ℕ → ℕ → Run Machine
unfolding store_bytes
store_word m a v = store_bytes m a (le32 v)

-- The bytes from an address on, as the kernel takes them.
abbrev pub bytes_from : (ℕ → ℕ) → ℕ → ℕ → List ℕ
bytes_from f a zero = []
bytes_from f a (suc n) = f a ∷ bytes_from f (a + 1) n

-- The kernel's copy of bytes to an address.
abbrev pub put : (ℕ → ℕ) → ℕ → List ℕ → ℕ → ℕ
put f a [] = f
put f a (b ∷ bs) = put (set_byte f a (b % 256)) (a + 1) bs
