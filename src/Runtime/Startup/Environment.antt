-- ===== src/Runtime/Startup/Environment.antt =====
-- The environment block in memory, of runtime/shim_startup.c.
use mathlib.Core.Path.{fun_ext}
use silver_nimbus_otter.Prelude.{
  All, List, Returns, [], ap, append-nil, append_assoc, arith, false, fault, if◌then◌else◌, inl,
  inr, length, length-append, ok, refl, rejected, stuck, suc, sym, ℕ, ◌++◌, ◌+◌, ◌<◌, ◌==◌, ◌>>=◌,
  ◌∙◌, ◌∷◌, ◌≡◌, ◌⊎◌,
}
use silver_nimbus_otter.Runtime.Heap.Zeroed.{Allocated-InHeap}
use silver_nimbus_otter.Runtime.Heap.{heap_alloc}
use silver_nimbus_otter.Runtime.Memory.Ranges.{bytes_from-put, store_bytes_ok}
use silver_nimbus_otter.Runtime.Heap.Realloc.{not_null, heap-IsMapped, InHeap}
use silver_nimbus_otter.Runtime.Heap.Growth.{IsHeap, Allocated}
use silver_nimbus_otter.Runtime.Startup.{heap_alloc, total_length}
use silver_nimbus_otter.Runtime.Memory.{store, bytes_from, store_bytes}
use silver_nimbus_otter.Runtime.{Kernel, Run, Machine}
use silver_nimbus_otter.Bytes.{u32_mod, IsByte}

pub bind_ok : (x : Run Machine) → (x >>= λ m. ok m) ≡ x
bind_ok (ok m) = refl
bind_ok (rejected e) = refl
bind_ok fault = refl
bind_ok stuck = refl

pub bind_assoc :
    (x : Run Machine) (f g : Machine → Run Machine) → (x >>= λ m. f m >>= g) ≡ ((x >>= f) >>= g)
bind_assoc (ok m) f g = refl
bind_assoc (rejected e) f g = refl
bind_assoc fault f g = refl
bind_assoc stuck f g = refl

pub store_bytes-append :
    (m : Machine) (a : ℕ) (s t : List ℕ)
    → store_bytes m a (s ++ t) ≡ (store_bytes m a s >>= λ m'. store_bytes m' (a + length s) t)
unfolding store_bytes
store_bytes-append m a [] t = let e : a ≡ a + 0 = omega arith in ap (λ (x : ℕ). store_bytes m x t) e
store_bytes-append m a (b ∷ s) t =
    ap (λ (f : Machine → Run Machine). store m a b >>= f)
      (fun_ext λ m'.
        let e : a + 1 + length s ≡ a + suc (length s) = omega arith in
        store_bytes-append m' (a + 1) s t
        ∙ ap (λ (x : ℕ). store_bytes m' (a + 1) s >>= λ m''. store_bytes m'' x t) e)
    ∙ bind_assoc (store m a b) (λ m'. store_bytes m' (a + 1) s)
        (λ m'. store_bytes m' (a + length (b ∷ s)) t)

-- A block: the strings with their NULs, and the NUL behind the last.
abbrev pub block_of_strings : List (List ℕ) → List ℕ
block_of_strings [] = 0 ∷ []
block_of_strings (s ∷ strings) = s ++ (0 ∷ block_of_strings strings)

-- The strings of a block again: up to the first empty one. `cur` is the string that has begun.
unfoldable pub strings_of_block : List ℕ → List ℕ → List (List ℕ)
strings_of_block cur [] = []
strings_of_block cur (c ∷ cs) =
    let next = cur ∷ strings_of_block [] cs in
    let done : List (List ℕ) = elim cur [ [] ↦ [] | x ∷ xs ↦ next ] in
    let on = strings_of_block (cur ++ (c ∷ [])) cs in if c == 0 then done else on

-- A string of the environment: it is not empty, and has no NUL.
abbrev pub IsEnvString : List ℕ → Type 0
IsEnvString s = (0 < length s) × All (λ c. (0 < c) × IsByte c) s

strings_of_block_one :
    (cur s rest : List ℕ)
    → All (λ c. (0 < c) × IsByte c) s
    → 0 < length (cur ++ s)
    → strings_of_block cur (s ++ (0 ∷ rest)) ≡ (cur ++ s) ∷ strings_of_block [] rest
unfolding strings_of_block
strings_of_block_one [] [] rest h k = absurd (omega arith)
strings_of_block_one (x ∷ cur) [] rest h k =
    ap (λ t. t ∷ strings_of_block [] rest) (sym (append-nil (x ∷ cur)))
strings_of_block_one cur (c ∷ s) rest h k =
    let ne : (c == 0) ≡ false = ground arith in
    rw ne (
      strings_of_block_one (cur ++ (c ∷ [])) s rest h.1
        (omega (arith, length-append (cur ++ (c ∷ [])) s, length-append cur (c ∷ [])))
      ∙ ap (λ t. t ∷ strings_of_block [] rest) (append_assoc cur (c ∷ []) s))

pub strings_of_block_of_strings :
    (strings : List (List ℕ))
    → All IsEnvString strings
    → strings_of_block [] (block_of_strings strings) ≡ strings
unfolding strings_of_block
strings_of_block_of_strings [] h = refl
strings_of_block_of_strings (s ∷ strings) h =
    strings_of_block_one [] s (block_of_strings strings) h.0.1 h.0.0
    ∙ ap (λ t. s ∷ t) (strings_of_block_of_strings strings h.1)

-- The bytes are in memory from the address on, and nothing but memory has changed.
abbrev pub Stored : Machine → ℕ → List ℕ → Machine → Type 0
Stored m p bs m' = (bytes_from m'.bytes p (length bs) ≡ bs) × (m' ≡ record m { bytes = m'.bytes })

-- Stores into a block of the heap.
pub store_bytes-InHeap :
    (m : Machine) (p : ℕ) (bs : List ℕ)
    → InHeap m p (length bs)
    → All IsByte bs
    → Returns (Stored m p bs) (store_bytes m p bs)
store_bytes-InHeap m p bs h b =
    rw (store_bytes_ok m p bs (heap-IsMapped m p (length bs) h.0 h.1 h.2))
      (bytes_from-put m.bytes p bs b, refl)

-- A block that was got is one of the heap.
pub some_block :
    (m : Machine) (size : ℕ) (r : ℕ × Machine)
    → Allocated m size r
    → IsHeap m
    → size + 15 < u32_mod
    → (r.0 == 0) ≡ false
    → InHeap r.1 r.0 size
some_block m size r a w s nz = go (Allocated-InHeap m size r a w s)
  where
    go : (r.0 ≡ 0) ⊎ InHeap r.1 r.0 size → InHeap r.1 r.0 size
    go (inl z) = absurd (not_null r.0 nz z)
    go (inr i) = i

-- There is no memory for the block, NULL's place is taken by the constant "", and the next call tries
-- again; or the block holds the environment, and is kept.
abbrev pub EnvBlock : Kernel → Machine → ℕ × Machine → Type 0
EnvBlock k m r =
    ((a : ℕ × Machine) × (heap_alloc k (1 + total_length m.envp) m ≡ ok a)
      × (a.0 ≡ 0)
      × (r.0 ≡ m.empty_string)
      × (r.1.environment ≡ 0))
    ⊎ ((0 < r.0)
        × (r.1.environment ≡ r.0)
        × (strings_of_block [] (bytes_from r.1.bytes r.0 (1 + total_length m.envp)) ≡ m.envp))
