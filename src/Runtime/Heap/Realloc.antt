-- ===== src/Runtime/Heap/Realloc.antt =====
-- Moving a block: shim_heap_realloc of runtime/shim_startup.c.
use silver_nimbus_otter.Prelude.{
  ==_iff, Bool-cases, Meets-bind, Meets-if, Returns, ap, ap₂, arith, false, inl, inr, refl, subst,
  suc, sym, zero, ℕ, ◌%◌, ◌+◌, ◌<◌, ◌==◌, ◌∙◌, ◌∷◌, ◌≡◌, ◌≢◌, ◌≤◌, ◌⊎◌,
}
use silver_nimbus_otter.Runtime.Heap.Blocks.{block_size_bounds}
use silver_nimbus_otter.Runtime.Memory.Copies.{copy_bytes-Meets, Copied}
use silver_nimbus_otter.Runtime.Heap.{copy_bytes, heap_alloc, block_size, heap_realloc}
use silver_nimbus_otter.Runtime.Memory.Ranges.{bytes_from_same, IsMapped}
use silver_nimbus_otter.Runtime.Heap.Growth.{heap_alloc-Meets, Allocated, IsHeap, IsBrk, top}
use silver_nimbus_otter.Bytes.{u32_mod, IsByte}
use silver_nimbus_otter.Runtime.Memory.{copy_bytes, bytes_from, accessible}
use silver_nimbus_otter.Runtime.{Kernel, Machine}

-- Memory holds bytes.
abbrev pub HoldsBytes : Machine → Type 0
HoldsBytes m = (x : ℕ) → IsByte (m.bytes x)

pub heap-IsMapped :
    (m : Machine) (a n : ℕ)
    → m.heap_start ≤ a
    → a + n ≤ m.break
    → m.break < u32_mod
    → IsMapped m a n
unfolding accessible
heap-IsMapped m a n h k u x lo hi = elim (Bool-cases (m.mapped x)) [
  | inl e ↦ rw e (ground arith)
  | inr e ↦ rw e (ground arith)
]

bytes_from_moved :
    (f g : ℕ → ℕ) (d s n : ℕ)
    → ((i : ℕ) → i < n → f (d + i) ≡ g (s + i))
    → bytes_from f d n ≡ bytes_from g s n
bytes_from_moved f g d s zero h = refl
bytes_from_moved f g d s (suc n) h =
    let here : f d ≡ g s = first_eq h in
    ap₂ ◌∷◌ here (bytes_from_moved f g (d + 1) (s + 1) n (later h))
  where
    first_eq : ((i : ℕ) → i < suc n → f (d + i) ≡ g (s + i)) → f d ≡ g s
    first_eq h =
        let e : d ≡ d + 0 = omega arith in
        let e' : s + 0 ≡ s = omega arith in ap f e ∙ h 0 (omega arith) ∙ ap g e'

    later :
        ((i : ℕ) → i < suc n → f (d + i) ≡ g (s + i))
        → (i : ℕ) → i < n
        → f (d + 1 + i) ≡ g (s + 1 + i)
    later h i lt =
        let e : d + 1 + i ≡ d + suc i = omega arith in
        let e' : s + suc i ≡ s + 1 + i = omega arith in ap f e ∙ h (suc i) (omega arith) ∙ ap g e'

-- The range lies in the heap.
abbrev pub InHeap : Machine → ℕ → ℕ → Type 0
InHeap m a n = (m.heap_start ≤ a) × (a + n ≤ m.break) × (m.break < u32_mod)

-- A NULL with the memory as it was, or a new block of the heap that begins with `n` bytes of the old
-- one, and the old one as it was.
abbrev pub Moved : Machine → ℕ → ℕ → ℕ → ℕ → ℕ × Machine → Type 0
Moved m p old size n r =
    ((r.0 ≡ 0) × (r.1.bytes ≡ m.bytes))
    ⊎ ((top m ≤ r.0)
        × InHeap r.1 r.0 size
        × (bytes_from r.1.bytes r.0 n ≡ bytes_from m.bytes p n)
        × (bytes_from r.1.bytes p old ≡ bytes_from m.bytes p old))

Copied-block :
    (m m' : Machine) (d s size n : ℕ)
    → HoldsBytes m
    → Copied m d s size m'
    → n ≤ size
    → s + n ≤ d
    → bytes_from m'.bytes d n ≡ bytes_from m.bytes s n
Copied-block m m' d s size n w c le front =
    bytes_from_moved m'.bytes m.bytes d s n
      λ i lt. c.inside i (omega arith) (inl (omega arith)) ∙ small (m.bytes (s + i)) (w (s + i))
  where
    small : (b : ℕ) → IsByte b → b % 256 ≡ b
    small b h = omega arith

Moved-block :
    (m : Machine) (p old size n : ℕ) (r : ℕ × Machine) (m' : Machine)
    → HoldsBytes m
    → p + old ≤ top m
    → n ≤ old
    → n ≤ size
    → r.0 ≡ top m
    → r.1.bytes ≡ m.bytes
    → InHeap m' r.0 size
    → Copied r.1 r.0 p size m'
    → Moved m p old size n (r.0, m')
Moved-block m p old size n r m' w fits lo ls at same heap c =
    let w' : HoldsBytes r.1 = λ x. subst IsByte (ap (λ (f : ℕ → ℕ). f x) (sym same)) (w x) in
    inr (
      omega arith,
      heap,
      Copied-block r.1 m' r.0 p size n w' c ls (omega arith)
          ∙ ap (λ (f : ℕ → ℕ). bytes_from f p n) same,
      bytes_from_same m'.bytes r.1.bytes p old (λ x h k. c.outside x (inl (omega arith)))
          ∙ ap (λ (f : ℕ → ℕ). bytes_from f p old) same,
    )

pub not_null : (a : ℕ) → (a == 0) ≡ false → a ≢ 0
not_null a h e = ground arith

in_heap :
    (m : Machine) (r : ℕ × Machine) (m' : Machine) (size p old : ℕ)
    → Allocated m size r
    → (r.0 ≡ top m) × (0 < r.0) × (r.0 + block_size size ≡ top r.1) × (top r.1 ≤ r.1.break)
    → size ≤ block_size size
    → m.heap_start ≤ p
    → p + old ≤ top m
    → Copied r.1 r.0 p size m'
    → InHeap m' r.0 size
in_heap m r m' size p old a c le lo fits q =
    let start : r.1.heap_start ≡ m.heap_start = ap (λ (x : Machine). x.heap_start) a.same in
    let start' : m'.heap_start ≡ r.1.heap_start = ap (λ (x : Machine). x.heap_start) q.only_bytes in
    let end : m'.break ≡ r.1.break = ap (λ (x : Machine). x.break) q.only_bytes in
    (
      omega (arith, start, start', c.0, lo, fits),
      omega (arith, end, c.2, c.3, le),
      omega (arith, end, a.heap.2),
    )

-- If the kernel moves the break or leaves it, memory holds bytes, and a mebibyte and the block fit
-- in the address space behind the break, the reallocation of a block of `old` bytes of the heap is
-- defined, and gives NULL with the memory unchanged, or a new block behind the heap's old top that
-- begins with as many bytes of the old block as both have; the old block keeps its contents.
pub heap_realloc-Meets :
    (k : Kernel) (p old size n : ℕ) (m : Machine)
    → IsBrk k
    → IsHeap m
    → m.break + 1048576 + block_size size < u32_mod
    → size + 15 < u32_mod
    → HoldsBytes m
    → m.heap_start ≤ p
    → p + old ≤ top m
    → n ≤ old
    → n ≤ size
    → Returns (Moved m p old size n) (heap_realloc k p size m)
unfolding heap_realloc
heap_realloc-Meets k p old size n m h w u s b lo fits ln ls =
    let P = Moved m p old size n in
    let bounds = block_size_bounds size s in
    Meets-bind ⊥ (Allocated m size) P (heap_alloc k size m) _ (heap_alloc-Meets k size m h w u)
      λ r _ a.
        let same : r.1.bytes ≡ m.bytes = ap (λ (x : Machine). x.bytes) a.same in
        let start : r.1.heap_start ≡ m.heap_start = ap (λ (x : Machine). x.heap_start) a.same in
        elim a.block [
          | inl c ↦
              Meets-if ⊥ P (r.0 == 0) _ _ (λ e. inl (refl, same))
                (λ ne. absurd (not_null r.0 ne c.0))
          | inr c ↦
              Meets-if ⊥ P (r.0 == 0) _ _ (λ e. inl (refl, same))
                (λ ne.
                  Meets-if ⊥ P (p == 0) _ _ (λ z. absurd (omega (arith, (==_iff p 0).0 z, w.1, lo)))
                    (λ nz.
                      Meets-bind ⊥ (Copied r.1 r.0 p size) P (copy_bytes r.1 r.0 p size) _
                        (copy_bytes-Meets r.1 r.0 p size
                          (heap-IsMapped r.1 r.0 size (omega (arith, c.0, start, lo, fits))
                            (omega (arith, c.2, c.3, bounds.0)) a.heap.2)
                          (heap-IsMapped r.1 p size (omega (arith, start))
                            (omega (arith, c.0, c.2, c.3, bounds.0, fits)) a.heap.2))
                        λ m' _ q.
                          Moved-block m p old size n r m' b fits ln ls c.0 same
                            (in_heap m r m' size p old a c bounds.0 lo fits q) q))
        ]
