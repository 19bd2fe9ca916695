-- ===== src/Runtime/Memory/Ranges.antt =====
-- Rows of stores, of the loops in runtime/.
use silver_nimbus_otter.Prelude.{
  All, List, [], ap₂, arith, inl, inr, length, ok, refl, suc, true, zero, ℕ, ◌%◌, ◌+◌, ◌<◌, ◌∙◌,
  ◌∷◌, ◌≡◌, ◌≤◌, ◌⊎◌,
}
use silver_nimbus_otter.Runtime.Memory.{
  bytes_from, put, accessible, store_bytes, store, set_byte, load,
}
use silver_nimbus_otter.Runtime.{Machine}
use silver_nimbus_otter.Bytes.{IsByte}

-- Every byte of the range may be read and written.
abbrev pub IsMapped : Machine → ℕ → ℕ → Type 0
IsMapped m a n = (x : ℕ) → a ≤ x → x < a + n → accessible m x ≡ true

-- The store of one byte where that is allowed.
pub store_ok :
    (m : Machine) (a v : ℕ)
    → accessible m a ≡ true
    → store m a v ≡ ok (record m { bytes = set_byte m.bytes a (v % 256) })
unfolding store
store_ok m a v h = rw h refl

pub load_ok : (m : Machine) (a : ℕ) → accessible m a ≡ true → load m a ≡ ok (m.bytes a)
unfolding load
load_ok m a h = rw h refl

pub store_bytes_ok :
    (m : Machine) (a : ℕ) (bs : List ℕ)
    → IsMapped m a (length bs)
    → store_bytes m a bs ≡ ok (record m { bytes = put m.bytes a bs })
unfolding store_bytes
store_bytes_ok m a [] h = refl
store_bytes_ok m a (b ∷ bs) h = rw (store_ok m a b (h a (omega arith) (omega arith))) (
    store_bytes_ok (record m { bytes = set_byte m.bytes a (b % 256) }) (a + 1) bs
      (stays m a b bs h))
  where
    stays :
        (m : Machine) (a b : ℕ) (bs : List ℕ)
        → IsMapped m a (length (b ∷ bs))
        → IsMapped (record m { bytes = set_byte m.bytes a (b % 256) }) (a + 1) (length bs)
    stays m a b bs h x lo hi = h x (omega arith) (omega arith)

pub put_outside :
    (f : ℕ → ℕ) (a : ℕ) (bs : List ℕ) (x : ℕ) → (x < a) ⊎ (a + length bs ≤ x) → put f a bs x ≡ f x
put_outside f a [] x h = refl
put_outside f a (b ∷ bs) x (inl h) =
    put_outside (set_byte f a (b % 256)) (a + 1) bs x (inl (omega arith)) ∙ ground arith
put_outside f a (b ∷ bs) x (inr h) =
    put_outside (set_byte f a (b % 256)) (a + 1) bs x (inr (omega arith)) ∙ ground arith

pub bytes_from-put :
    (f : ℕ → ℕ) (a : ℕ) (bs : List ℕ) → All IsByte bs → bytes_from (put f a bs) a (length bs) ≡ bs
bytes_from-put f a [] h = refl
bytes_from-put f a (b ∷ bs) h =
    ap₂ ◌∷◌ (put_outside (set_byte f a (b % 256)) (a + 1) bs a (inl (omega arith)) ∙ ground arith)
      (bytes_from-put (set_byte f a (b % 256)) (a + 1) bs h.1)

pub bytes_from_same :
    (f g : ℕ → ℕ) (a n : ℕ)
    → ((x : ℕ) → a ≤ x → x < a + n → f x ≡ g x)
    → bytes_from f a n ≡ bytes_from g a n
bytes_from_same f g a zero h = refl
bytes_from_same f g a (suc n) h =
    ap₂ ◌∷◌ (h a (omega arith) (omega arith))
      (bytes_from_same f g (a + 1) n λ x lo hi. h x (omega arith) (omega arith))
