-- ===== src/Runtime/Kernel32/Results.antt =====
-- The results that the functions of runtime/shim_kernel32.c store through pointers.
use silver_nimbus_otter.Prelude.{
  ==_iff, Bool-cases, Returns, inl, inr, refl, ℕ, ◌==◌, ◌≡◌, ◌≢◌, ◌⊎◌,
}
use silver_nimbus_otter.Bytes.Laws.{le32-IsByte}
use silver_nimbus_otter.Runtime.Heap.Realloc.{not_null}
use silver_nimbus_otter.Runtime.Memory.Ranges.{bytes_from-put, store_bytes_ok, IsMapped}
use silver_nimbus_otter.Runtime.Memory.{store_word, bytes_from}
use silver_nimbus_otter.Runtime.Kernel32.{store_word, store_result}
use silver_nimbus_otter.Runtime.{Machine}
use silver_nimbus_otter.Bytes.{le32}

-- The pointer is NULL, or a word of memory stands there.
abbrev pub IsResult : Machine → ℕ → Type 0
IsResult m p = (p ≡ 0) ⊎ IsMapped m p 4

-- The word is stored, if it is wanted, and nothing but memory has changed.
abbrev pub HasResult : ℕ → ℕ → Machine → Machine → Type 0
HasResult p v m m' =
    (m' ≡ record m { bytes = m'.bytes }) × ((p ≡ 0) ⊎ (bytes_from m'.bytes p 4 ≡ le32 v))

pub store_result-Meets :
    (m : Machine) (p v : ℕ) → IsResult m p → Returns (HasResult p v m) (store_result m p v)
unfolding store_result store_word le32
store_result-Meets m p v h = elim (Bool-cases (p == 0)) [
  | inl e ↦ rw e (refl, inl ((==_iff p 0).0 e))
  | inr e ↦
      rw (e, store_bytes_ok m p (le32 v) (wanted h (not_null p e)))
        (refl, inr (bytes_from-put m.bytes p (le32 v) (le32-IsByte v)))
]
  where
    wanted : IsResult m p → p ≢ 0 → IsMapped m p 4
    wanted (inl z) ne = absurd (ne z)
    wanted (inr i) ne = i
