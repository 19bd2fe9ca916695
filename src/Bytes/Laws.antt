-- ===== src/Bytes/Laws.antt =====
-- Reading: inside the buffer it is defined, and a field of bytes has its width.
use silver_nimbus_otter.Prelude.{
  All, All-drop, All-get_or, All-take, Ensures, List, arith, drop, get_or, length, length-drop,
  length-take, le→leb, ok, refl, ℕ, ◌+◌, ◌<◌, ◌≡◌, ◌≤◌,
}
use silver_nimbus_otter.Bytes.{IsByte, IsU16, IsU32, slice, mem_read, u16_at, u32_at, le16, le32}

pub mem_read_ok :
    {E : Type 0} (buf : List ℕ) (off n : ℕ)
    → off + n ≤ length buf
    → mem_read {E = E} buf off n ≡ ok (slice buf off n)
unfolding mem_read
mem_read_ok buf off n h = rw (le→leb _ _ h)

-- What was read has the length asked for, and is what the buffer holds.
pub mem_read-Ensures :
    (E : Type 0) (buf : List ℕ) (off n : ℕ)
    → off + n ≤ length buf
    → Ensures (λ bs. bs ≡ slice buf off n) (mem_read {E = E} buf off n)
mem_read-Ensures E buf off n h = rw (mem_read_ok {E = E} buf off n h) refl

pub length-slice : (buf : List ℕ) (off n : ℕ) → off + n ≤ length buf → length (slice buf off n) ≡ n
length-slice buf off n h = omega (arith, length-take n (drop off buf), length-drop off buf)

pub slice-IsByte : (buf : List ℕ) (off n : ℕ) → All IsByte buf → All IsByte (slice buf off n)
slice-IsByte buf off n h = All-take IsByte n (drop off buf) (All-drop IsByte off buf h)

pub get_or-lt : (bs : List ℕ) (k : ℕ) → All IsByte bs → get_or bs k 0 < 256
get_or-lt bs k h = All-get_or IsByte bs k 0 h (omega arith)

pub u16_at-lt : (bs : List ℕ) (k : ℕ) → All IsByte bs → IsU16 (u16_at bs k)
unfolding u16_at
u16_at-lt bs k h = omega (arith, get_or-lt bs k h, get_or-lt bs (k + 1) h)

pub u32_at-lt : (bs : List ℕ) (k : ℕ) → All IsByte bs → IsU32 (u32_at bs k)
unfolding u32_at
u32_at-lt bs k h = omega (
  arith,
  get_or-lt bs k h,
  get_or-lt bs (k + 1) h,
  get_or-lt bs (k + 2) h,
  get_or-lt bs (k + 3) h,
)

pub le32-IsByte : (v : ℕ) → All IsByte (le32 v)
unfolding le32
le32-IsByte v = omega arith

pub le16-IsByte : (v : ℕ) → All IsByte (le16 v)
unfolding le16
le16-IsByte v = omega arith
