-- ===== src/Runtime/Startup/Teb.antt =====
-- The thread environment block of runtime/shim_startup.c.
use silver_nimbus_otter.Prelude.{
  ==_iff, Bool-cases, List, Returns, ap, arith, bit_or, if◌then◌else◌, inl, inr, length, ltb, ok,
  refl, ℕ, ◌%◌, ◌*◌, ◌+◌, ◌-◌, ◌==◌, ◌∙◌, ◌≡◌, ◌≢◌, ◌≤◌, ◌⊎◌,
}
use silver_nimbus_otter.Runtime.Heap.Realloc.{not_null}
use silver_nimbus_otter.Bytes.Laws.{le32-IsByte}
use silver_nimbus_otter.Runtime.Memory.Ranges.{
  store_bytes_ok, put_outside, bytes_from_same, bytes_from-put, IsMapped,
}
use silver_nimbus_otter.Runtime.Startup.{setup_fake_teb}
use silver_nimbus_otter.Runtime.Memory.{store_bytes, accessible, put, bytes_from}
use silver_nimbus_otter.Runtime.{Kernel, Machine}
use silver_nimbus_otter.Bytes.{u32_mod, le32}

-- Bytes apart from a store of others.
bytes_from-put_apart :
    (f : ℕ → ℕ) (a b n : ℕ) (bs : List ℕ)
    → (b + n ≤ a) ⊎ (a + length bs ≤ b)
    → bytes_from (put f a bs) b n ≡ bytes_from f b n
bytes_from-put_apart f a b n bs (inl h) =
    bytes_from_same (put f a bs) f b n λ x lo hi. put_outside f a bs x (inl (omega arith))
bytes_from-put_apart f a b n bs (inr h) =
    bytes_from_same (put f a bs) f b n λ x lo hi. put_outside f a bs x (inr (omega arith))

word_there : (f : ℕ → ℕ) (a v : ℕ) → bytes_from (put f a (le32 v)) a 4 ≡ le32 v
unfolding le32
word_there f a v = bytes_from-put f a (le32 v) (le32-IsByte v)

word_kept :
    (f : ℕ → ℕ) (a v b : ℕ)
    → (b + 4 ≤ a) ⊎ (a + 4 ≤ b)
    → bytes_from (put f a (le32 v)) b 4 ≡ bytes_from f b 4
unfolding le32
word_kept f a v b h = bytes_from-put_apart f a b 4 (le32 v) h

first_store :
    (m : Machine)
    → IsMapped m m.teb 4096
    → store_bytes m m.teb (le32 0xFFFFFFFF)
      ≡ ok (record m { bytes = put m.bytes m.teb (le32 0xFFFFFFFF) })
unfolding le32
first_store m h =
    store_bytes_ok m m.teb (le32 0xFFFFFFFF) λ x lo hi. h x (omega arith) (omega arith)

-- A word of the block that begins at `t`.
store_in_block :
    (m : Machine) (f : ℕ → ℕ) (t i v : ℕ)
    → IsMapped m t 4096
    → i + 4 ≤ 4096
    → store_bytes (record m { bytes = f }) (t + i) (le32 v)
      ≡ ok (record m { bytes = put f (t + i) (le32 v) })
unfolding le32 accessible
store_in_block m f t i v h fits =
    store_bytes_ok (record m { bytes = f }) (t + i) (le32 v)
      λ x lo hi. h x (omega arith) (omega arith)

-- What the C runtime finds through the segment: the end of the chain of handlers, the stack's bounds,
-- the block's own address, and no thread-local storage.
pub record IsTeb (stack_top : ℕ) (m m' : Machine) : Type 0 where
  pub handlers : bytes_from m'.bytes m.teb 4 ≡ le32 0xFFFFFFFF
  pub stack_base : bytes_from m'.bytes (m.teb + 4) 4 ≡ le32 stack_top
  pub stack_limit : bytes_from m'.bytes (m.teb + 8) 4 ≡ le32 (stack_top - 0x100000)
  pub own_address : bytes_from m'.bytes (m.teb + 0x18) 4 ≡ le32 m.teb
  pub no_storage : bytes_from m'.bytes (m.teb + 0x2C) 4 ≡ le32 0

-- The memory behind the stores.
abbrev teb_bytes : ℕ → ℕ → ℕ → (ℕ → ℕ) → ℕ → ℕ
teb_bytes top low t f =
    put
      (put (put (put (put f t (le32 0xFFFFFFFF)) (t + 4) (le32 top)) (t + 8) (le32 low)) (t + 0x18)
        (le32 t))
      (t + 0x2C) (le32 0)

teb_words :
    (top : ℕ) (m m' : Machine)
    → m'.bytes ≡ teb_bytes top (top - 0x100000) m.teb m.bytes
    → IsTeb top m m'
teb_words top m m' e =
    let t = m.teb in
    let low = top - 0x100000 in
    let f1 = put m.bytes t (le32 0xFFFFFFFF) in
    let f2 = put f1 (t + 4) (le32 top) in
    let f3 = put f2 (t + 8) (le32 low) in
    let f4 = put f3 (t + 0x18) (le32 t) in
    let at : (b : ℕ) → bytes_from m'.bytes b 4 ≡ bytes_from (put f4 (t + 0x2C) (le32 0)) b 4 =
      λ b. ap (λ (f : ℕ → ℕ). bytes_from f b 4) e in
    let before5 : (b : ℕ) → b + 4 ≤ t + 0x2C → bytes_from m'.bytes b 4 ≡ bytes_from f4 b 4 =
      λ b h. at b ∙ word_kept f4 (t + 0x2C) 0 b (inl h) in
    let before4 : (b : ℕ) → b + 4 ≤ t + 0x18 → bytes_from m'.bytes b 4 ≡ bytes_from f3 b 4 =
      λ b h. before5 b (omega arith) ∙ word_kept f3 (t + 0x18) t b (inl h) in
    let before3 : (b : ℕ) → b + 4 ≤ t + 8 → bytes_from m'.bytes b 4 ≡ bytes_from f2 b 4 =
      λ b h. before4 b (omega arith) ∙ word_kept f2 (t + 8) low b (inl h) in
    record {
      handlers =
          before3 t (omega arith)
          ∙ word_kept f1 (t + 4) top t (inl (omega arith))
          ∙ word_there m.bytes t 0xFFFFFFFF;
      stack_base = before3 (t + 4) (omega arith) ∙ word_there f1 (t + 4) top;
      stack_limit = before4 (t + 8) (omega arith) ∙ word_there f2 (t + 8) low;
      own_address = before5 (t + 0x18) (omega arith) ∙ word_there f3 (t + 0x18) t;
      no_storage = at (t + 0x2C) ∙ word_there f4 (t + 0x2C) 0;
    }

-- The segment register selects the kernel's entry, for user programs; or the call failed, and it is
-- as it was.
abbrev pub HasSegment : Kernel → Machine → Machine → Type 0
HasSegment k m m' =
    let answer = k.set_thread_area m.teb 0xFFFFFFFF 0x51 in
    ((answer.0 ≡ 0) × (m'.fs ≡ bit_or (answer.1 * 8 % u32_mod) 3 % 65536))
    ⊎ ((answer.0 ≢ 0) × (m'.fs ≡ m.fs))

-- Where the block can be written, the start of a process leaves in it what the C runtime reads: no
-- handler, the stack's bounds (the lower one stops at 0), its own address and no storage for
-- threads; and if set_thread_area(2) succeeds, the segment register selects the entry that the
-- kernel chose, for user programs, and else it is left as it was.
pub setup_fake_teb-Meets :
    (k : Kernel) (stack_top : ℕ) (m : Machine)
    → IsMapped m m.teb 4096
    → Returns (λ m'. IsTeb stack_top m m' × HasSegment k m m') (setup_fake_teb k stack_top m)
unfolding setup_fake_teb
setup_fake_teb-Meets k stack_top m h =
    let t = m.teb in
    let low = stack_top - 0x100000 in
    let f1 = put m.bytes t (le32 0xFFFFFFFF) in
    let f2 = put f1 (t + 4) (le32 stack_top) in
    let f3 = put f2 (t + 8) (le32 low) in
    let f4 = put f3 (t + 0x18) (le32 t) in
    let f5 = put f4 (t + 0x2C) (le32 0) in
    let limit : (if ltb 0x100000 stack_top then stack_top - 0x100000 else 0) ≡ low = ground arith in
    let answer = k.set_thread_area t 0xFFFFFFFF 0x51 in
    rw
      (
        limit,
        first_store m h,
        store_in_block m f1 t 4 stack_top h (omega arith),
        store_in_block m f2 t 8 low h (omega arith),
        store_in_block m f3 t 0x18 t h (omega arith),
        store_in_block m f4 t 0x2C 0 h (omega arith),
      )
      (elim (Bool-cases (answer.0 == 0)) [
        | inl z ↦
            let sel = bit_or (answer.1 * 8 % u32_mod) 3 % 65536 in
            rw z (
              teb_words stack_top m (record m { bytes = f5; fs = sel }) refl,
              inl ((==_iff answer.0 0).0 z, refl),
            )
        | inr z ↦
            rw z (
              teb_words stack_top m (record m { bytes = f5 }) refl,
              inr (not_null answer.0 z, refl),
            )
      ])
