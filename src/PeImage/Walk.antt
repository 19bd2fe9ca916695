-- ===== src/PeImage/Walk.antt =====
-- The loops that step through the image until they meet a terminator. Their fuel is either taken as
-- it is, and may run out, or it is enough, because no address from some limit on has bytes.
use silver_nimbus_otter.Prelude.{
  Option, arith, none, some, suc, zero, ℕ, ◌%◌, ◌*◌, ◌+◌, ◌<◌, ◌≡◌, ◌≤◌,
}
use silver_nimbus_otter.Bytes.{IsU32, u32_mod}
use silver_nimbus_otter.PeImage.{Image, pe_rva_to_ptr}
use silver_nimbus_otter.PeImage.Access.{EndsBefore, pe_rva_to_ptr_below}

-- Whether the fuel may run out.
abbrev pub MayStop : Option ℕ → Type 0
MayStop none = Unit
MayStop (some limit) = ⊥

-- Every address with bytes lies below the limit, and the limit leaves out an address.
abbrev pub Limited : Option ℕ → Image → Type 0
Limited none img = Unit
Limited (some limit) img = EndsBefore limit img × (limit < u32_mod)

-- Before round `i` of a loop that starts at `base`, `fuel` rounds are left.
abbrev pub Budget : Option ℕ → ℕ → ℕ → ℕ → ℕ → Type 0
Budget none base stride i fuel = i + fuel ≤ 1073741824
Budget (some limit) base stride i fuel =
    (base + i * stride < u32_mod) × (limit < base + i * stride + fuel * stride) × (0 < fuel)

pub Budget-zero : (m : Option ℕ) (base stride i : ℕ) → Budget m base stride i 0 → MayStop m
Budget-zero none base stride i b = tt
Budget-zero (some limit) base stride i b = omega arith

-- A round that found bytes below the limit was not the last one.
rounds_left :
    (limit at stride fuel : ℕ) → limit < at + suc fuel * stride → at + stride ≤ limit → 0 < fuel
rounds_left limit at stride zero h k = absurd (omega arith)
rounds_left limit at stride (suc fuel) h k = omega arith

pub Budget-suc :
    (m : Option ℕ) (img : Image) (base stride i fuel p : ℕ)
    → 4 ≤ stride
    → Limited m img
    → Budget m base stride i (suc fuel)
    → pe_rva_to_ptr img ((base + i * stride) % u32_mod) stride ≡ some p
    → Budget m base stride (i + 1) fuel × (i < 1073741824)
Budget-suc none img base stride i fuel p s l b e = omega arith
Budget-suc (some limit) img base stride i fuel p s l b e =
    let below : (base + i * stride) % u32_mod + stride ≤ limit =
      pe_rva_to_ptr_below limit img _ stride p l.0 e in
    let scaled : i * 4 ≤ i * stride = grind arith in
    let more : 0 < fuel =
      rounds_left limit (base + i * stride) stride fuel b.1 (omega (arith, below)) in
    ((omega (arith, below), omega (arith, below), more), omega (arith, below, scaled))

-- Fuel for any walk with a stride of four bytes or more.
abbrev pub Fuel : Option ℕ → ℕ → Type 0
Fuel none fuel = fuel ≤ 1073741824
Fuel (some limit) fuel = limit < fuel * 4

pub Budget-start :
    (m : Option ℕ) (base stride fuel : ℕ)
    → 4 ≤ stride
    → IsU32 base
    → Fuel m fuel
    → Budget m base stride 0 fuel
Budget-start none base stride fuel s u f = omega arith
Budget-start (some limit) base stride fuel s u f =
    let scaled : fuel * 4 ≤ fuel * stride = grind arith in
    (omega arith, omega (arith, scaled), omega arith)

-- A parse that leaves the headers and the section table alone keeps the limit.
pub Limited-same :
    (m : Option ℕ) (img img' : Image)
    → img'.size_of_headers ≡ img.size_of_headers
    → img'.sections ≡ img.sections
    → Limited m img
    → Limited m img'
Limited-same none img img' e f l = tt
Limited-same (some limit) img img' e f l = ((rw e l.0.0, rw f l.0.1), l.1)
