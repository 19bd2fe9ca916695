-- ===== src/Bytes.antt =====
-- Memory as bytes: `memcpy` out of a buffer, and the little-endian integers of the packed
-- structures in include/pe_format.h and include/elf32_format.h.
pub mod Laws
use silver_nimbus_otter.Prelude.{
  List, Outcome, [], drop, fault, get_or, if◌then◌else◌, leb, length, ok, take, ℕ, ◌%◌, ◌*◌, ◌++◌,
  ◌+◌, ◌/◌, ◌<◌, ◌==◌, ◌∷◌,
}
use Prim.Native.Char.{code}
use Prim.Native.String
use Prim.Native.String.{String}

abbrev pub u32_mod : ℕ
u32_mod = 4294967296

abbrev pub IsByte : ℕ → Type 0
IsByte b = b < 256

abbrev pub IsU16 : ℕ → Type 0
IsU16 n = n < 65536

abbrev pub IsU32 : ℕ → Type 0
IsU32 n = n < u32_mod

-- The `n` bytes from `off` on, wherever they lie.
abbrev pub slice : List ℕ → ℕ → ℕ → List ℕ
slice buf off n = take n (drop off buf)

-- `memcpy(&dst, buf + off, n)`: undefined if it leaves the buffer.
unfoldable pub mem_read : {E : Type 0} → List ℕ → ℕ → ℕ → Outcome E (List ℕ)
mem_read buf off n = if leb (off + n) (length buf) then ok (slice buf off n) else fault

-- A field of a packed structure, at its offset.
unfoldable pub u16_at : List ℕ → ℕ → ℕ
u16_at bs k = get_or bs k 0 + 256 * get_or bs (k + 1) 0

unfoldable pub u32_at : List ℕ → ℕ → ℕ
u32_at bs k =
    get_or bs k 0
    + 256 * get_or bs (k + 1) 0
    + 65536 * get_or bs (k + 2) 0
    + 16777216 * get_or bs (k + 3) 0

-- `p[0] = v >> 0; p[1] = v >> 8; ...`, each cut to a byte.
unfoldable pub le16 : ℕ → List ℕ
le16 v = v % 256 ∷ v / 256 % 256 ∷ []

unfoldable pub le32 : ℕ → List ℕ
le32 v = v % 256 ∷ v / 256 % 256 ∷ v / 65536 % 256 ∷ v / 16777216 % 256 ∷ []

-- The bytes of a C string constant, without the NUL.
abbrev pub text : String → List ℕ
text String.[] = []
text (String.◌∷◌ c s) = code c ∷ text s

-- A string is what stands before the first NUL.
unfoldable pub up_to_nul : List ℕ → List ℕ
up_to_nul [] = []
up_to_nul (c ∷ cs) = let rest = up_to_nul cs in if c == 0 then [] else c ∷ rest

-- `memcpy(buf + off, src, n)`, or as many single stores: undefined if they leave the buffer.
unfoldable pub mem_write : {E : Type 0} → List ℕ → ℕ → List ℕ → Outcome E (List ℕ)
mem_write buf off src =
    if leb (off + length src) (length buf)
    then ok (take off buf ++ (src ++ drop (off + length src) buf))
    else fault
