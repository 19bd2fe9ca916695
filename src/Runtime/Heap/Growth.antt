-- ===== src/Runtime/Heap/Growth.antt =====
-- The heap's bounds: shim_heap_alloc of runtime/shim_startup.c.
use silver_nimbus_otter.Prelude.{
  Bool-cases, Meets-if, Meets-map, Returns, ap, arith, false, if◌then◌else◌, inl, inr, leb, leb→le,
  ltb, lt→ltb, ok, refl, sym, ℕ, ◌+◌, ◌-◌, ◌<◌, ◌==◌, ◌∙◌, ◌≡◌, ◌≤◌, ◌⊎◌,
}
use silver_nimbus_otter.Runtime.Heap.{heap_alloc, start_heap, grow_by, bump, advance, block_size}
use silver_nimbus_otter.Bytes.{u32_mod}
use silver_nimbus_otter.Runtime.{Exited, Machine, Kernel}

-- What the documentation of brk(2) says: the answer is the break, which is moved to the address asked
-- for or stays; it stays for the address 0.
pub record IsBrk (k : Kernel) : Type 0 where
  pub query : (cur : ℕ) → k.brk cur 0 ≡ cur
  pub answer : (cur req : ℕ) → (k.brk cur req ≡ cur) ⊎ (k.brk cur req ≡ req)

-- Before the first allocation, or after it.
abbrev pub IsHeap : Machine → Type 0
IsHeap m =
    (m.heap_start ≤ m.break)
    × (0 < m.heap_start)
    × (m.break < u32_mod)
    × ((m.heap_next ≡ 0)
        ⊎ ((m.heap_start ≤ m.heap_next) × (m.heap_next ≤ m.heap_limit) × (m.heap_limit ≡ m.break)))

-- Where the next block would begin.
abbrev pub top : Machine → ℕ
top m = if m.heap_next == 0 then m.break else m.heap_next

-- A NULL, or a block behind all earlier ones that lies in the heap. Memory, output and the other
-- variables stay.
pub record Allocated (m : Machine) (size : ℕ) (r : ℕ × Machine) : Type 0 where
  pub heap : IsHeap r.1
  pub same :
      r.1 ≡ record m { break = r.1.break; heap_next = r.1.heap_next; heap_limit = r.1.heap_limit }
  pub grows : m.break ≤ r.1.break
  pub limited : r.1.break ≤ m.break + 1048576 + block_size size
  pub block :
      ((r.0 ≡ 0) × (top r.1 ≡ top m))
      ⊎ ((r.0 ≡ top m) × (0 < r.0) × (r.0 + block_size size ≡ top r.1) × (top r.1 ≤ r.1.break))

advance_ok : (p n : ℕ) → p + n < u32_mod → advance p n ≡ ok (p + n)
unfolding advance
advance_ok p n h = rw (lt→ltb (p + n) u32_mod h) refl

-- The same of the step behind the first call.
record Bumped (m : Machine) (n : ℕ) (r : ℕ × Machine) : Type 0 where
  start : r.1.heap_start ≡ m.heap_start
  same :
      r.1 ≡ record m { break = r.1.break; heap_next = r.1.heap_next; heap_limit = r.1.heap_limit }
  grows : m.break ≤ r.1.break
  limited : r.1.break ≤ m.break + 1048576 + n
  bounded : r.1.break < u32_mod
  in_limit : r.1.heap_next ≤ r.1.heap_limit
  at_break : r.1.heap_limit ≡ r.1.break
  block :
      ((r.0 ≡ 0) × (r.1.heap_next ≡ m.heap_next))
      ⊎ ((r.0 ≡ m.heap_next) × (m.heap_next + n ≡ r.1.heap_next))

ltb_ge : (a b : ℕ) → b ≤ a → ltb a b ≡ false
ltb_ge a b h = ground arith

grown-Meets :
    (k : Kernel) (m : Machine) (n asked r : ℕ)
    → (r ≡ m.break) ⊎ (r ≡ asked)
    → m.heap_next ≤ m.heap_limit
    → m.heap_limit ≡ m.break
    → m.break < asked
    → m.heap_next + n ≤ asked
    → asked < u32_mod
    → asked ≤ m.break + 1048576 + n
    → Returns {E = Exited} (Bumped m n) (
        if ltb r asked
        then ok (0, record m { break = r })
        else ok (m.heap_next, record m { break = r; heap_limit = r; heap_next = m.heap_next + n }))
grown-Meets k m n asked r (inl e) a b lt fits u lim = rw (lt→ltb r asked (omega arith)) (record {
  start = refl;
  same = refl;
  grows = omega arith;
  limited = omega arith;
  bounded = omega arith;
  in_limit = a;
  at_break = omega arith;
  block = inl (refl, refl);
})
grown-Meets k m n asked r (inr e) a b lt fits u lim = rw (ltb_ge r asked (omega arith)) (record {
  start = refl;
  same = refl;
  grows = omega arith;
  limited = omega arith;
  bounded = omega arith;
  in_limit = omega arith;
  at_break = refl;
  block = inr (refl, refl);
})

bump-Meets :
    (k : Kernel) (m : Machine) (n : ℕ)
    → IsBrk k
    → m.heap_next ≤ m.heap_limit
    → m.heap_limit ≡ m.break
    → m.break + 1048576 + n < u32_mod
    → Returns (Bumped m n) (bump k n m)
unfolding bump
bump-Meets k m n h a b u =
    let next = m.heap_next + n in
    let grow = grow_by (next - m.heap_limit) in
    let enough : next - m.heap_limit ≤ grow = ground arith in
    let big : 0 < grow = ground arith in
    let small : grow ≤ 1048576 + n = ground arith in
    rw (advance_ok m.heap_next n (omega arith)) (
      Meets-if ⊥ (Bumped m n) (leb next m.heap_limit) _ _
        (λ fits. record {
          start = refl;
          same = refl;
          grows = omega arith;
          limited = omega arith;
          bounded = omega arith;
          in_limit = leb→le next m.heap_limit fits;
          at_break = b;
          block = inr (refl, refl);
        })
        (λ over. rw (advance_ok m.heap_limit grow (omega arith)) (
          grown-Meets k m n (m.heap_limit + grow) (k.brk m.break (m.heap_limit + grow))
            (h.answer m.break (m.heap_limit + grow)) a b (omega arith) (omega arith) (omega arith)
            (omega arith))))

-- The state in which the step runs.
record Started (m s : Machine) : Type 0 where
  start : s.heap_start ≡ m.heap_start
  still : s.break ≡ m.break
  next : s.heap_next ≡ top m
  above : m.heap_start ≤ s.heap_next
  in_limit : s.heap_next ≤ s.heap_limit
  at_break : s.heap_limit ≡ s.break
  same : s ≡ record m { break = s.break; heap_next = s.heap_next; heap_limit = s.heap_limit }

start_heap-Started : (k : Kernel) (m : Machine) → IsBrk k → IsHeap m → Started m (start_heap k m)
unfolding start_heap
start_heap-Started k m h w = elim (Bool-cases (m.heap_next == 0)) [
  | inl e ↦
      let q = h.query m.break in
      simp e (record {
        start = refl;
        still = q;
        next = q ∙ ground arith;
        above = omega (arith, q, w.0);
        in_limit = omega arith;
        at_break = refl;
        same = refl;
      })
  | inr e ↦ simp e (record {
    start = refl;
    still = refl;
    next = ground arith;
    above = ground arith;
    in_limit = ground arith;
    at_break = ground arith;
    same = refl;
  })
]

moved :
    (s : Machine) (n : ℕ) (r : ℕ × Machine)
    → ((r.0 ≡ 0) × (r.1.heap_next ≡ s.heap_next))
      ⊎ ((r.0 ≡ s.heap_next) × (s.heap_next + n ≡ r.1.heap_next))
    → s.heap_next ≤ r.1.heap_next
moved s n r (inl b) = omega arith
moved s n r (inr b) = omega arith

block_of :
    (m s : Machine) (n : ℕ) (r : ℕ × Machine)
    → s.heap_next ≡ top m
    → top r.1 ≡ r.1.heap_next
    → r.1.heap_next ≤ r.1.break
    → 0 < s.heap_next
    → ((r.0 ≡ 0) × (r.1.heap_next ≡ s.heap_next))
      ⊎ ((r.0 ≡ s.heap_next) × (s.heap_next + n ≡ r.1.heap_next))
    → ((r.0 ≡ 0) × (top r.1 ≡ top m))
      ⊎ ((r.0 ≡ top m) × (0 < r.0) × (r.0 + n ≡ top r.1) × (top r.1 ≤ r.1.break))
block_of m s n r e t le pos (inl b) = inl (b.0, t ∙ b.1 ∙ e)
block_of m s n r e t le pos (inr b) =
    inr (b.0 ∙ e, omega arith, ap (λ (x : ℕ). x + n) b.0 ∙ b.1 ∙ sym t, omega (arith, t, le))

-- If the kernel moves the break or leaves it, and a mebibyte and the block fit behind it in the
-- address space, an allocation keeps the heap's bounds and gives NULL, the heap's top being where
-- it was, or the block of the rounded size that begins at the top, which then is its end and lies
-- within the break; the break does not fall, and no other part of the state changes.
pub heap_alloc-Meets :
    (k : Kernel) (size : ℕ) (m : Machine)
    → IsBrk k
    → IsHeap m
    → m.break + 1048576 + block_size size < u32_mod
    → Returns (Allocated m size) (heap_alloc k size m)
unfolding heap_alloc
heap_alloc-Meets k size m h w u =
    let s = start_heap k m in
    let st = start_heap-Started k m h w in
    Meets-map ⊥ (Bumped s (block_size size)) (Allocated m size) (bump k (block_size size) s)
      (bump-Meets k s (block_size size) h st.in_limit st.at_break (omega (arith, st.still)))
      λ r _ b.
        let up = moved s (block_size size) r b.block in
        let pos : 0 < r.1.heap_next = omega (arith, st.above, w.1) in
        let t : top r.1 ≡ r.1.heap_next = ground arith in
        let bound : r.1.heap_next ≤ r.1.break = omega (arith, b.in_limit, b.at_break) in
        record {
          heap = (
            omega (arith, b.start, st.start, b.grows, st.still, w.0),
            omega (arith, b.start, st.start, w.1),
            b.bounded,
            inr (omega (arith, b.start, st.start, st.above, up), b.in_limit, b.at_break),
          );
          same =
              b.same
              ∙ ap
                  (λ (x : Machine). record x {
                    break = r.1.break;
                    heap_next = r.1.heap_next;
                    heap_limit = r.1.heap_limit;
                  })
                  st.same;
          grows = omega (arith, b.grows, st.still);
          limited = omega (arith, b.limited, st.still);
          block =
              block_of m s (block_size size) r st.next t bound (omega (arith, st.above, w.1))
                b.block;
        }
