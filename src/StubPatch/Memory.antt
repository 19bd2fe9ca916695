-- ===== src/StubPatch/Memory.antt =====
-- Writing into a buffer: its length stays, the place written shows what was written, and every place
-- apart from it is as before.
use silver_nimbus_otter.Prelude.{
  List, [], ap, append_assoc, arith, drop, inl, inr, length, length-append, length-drop,
  length-take, le→leb, ok, refl, suc, sym, take, zero, ℕ, ◌++◌, ◌+◌, ◌∙◌, ◌∷◌, ◌≡◌, ◌≤◌, ◌⊎◌,
}
use silver_nimbus_otter.ElfWriter.Pieces.{slice-append_right, slice-append_left}
use silver_nimbus_otter.Bytes.{slice, mem_write}

-- What `mem_write` leaves.
abbrev pub splice : List ℕ → ℕ → List ℕ → List ℕ
splice buf off src = take off buf ++ (src ++ drop (off + length src) buf)

pub mem_write_ok :
    {E : Type 0} (buf : List ℕ) (off : ℕ) (src : List ℕ)
    → off + length src ≤ length buf
    → mem_write {E = E} buf off src ≡ ok (splice buf off src)
unfolding mem_write
mem_write_ok buf off src h = rw (le→leb _ _ h)

pub length-splice :
    (buf : List ℕ) (off : ℕ) (src : List ℕ)
    → off + length src ≤ length buf
    → length (splice buf off src) ≡ length buf
length-splice buf off src h = omega (
  arith,
  length-append (take off buf) (src ++ drop (off + length src) buf),
  length-append src (drop (off + length src) buf),
  length-take off buf,
  length-drop (off + length src) buf,
)

pub slice-splice :
    (buf : List ℕ) (off : ℕ) (src : List ℕ) (n : ℕ)
    → length src ≡ n
    → off + n ≤ length buf
    → slice (splice buf off src) off n ≡ src
slice-splice buf off src n e h =
    let front = take off buf in
    let len : length front ≡ off = omega (arith, length-take off buf) in
    ap (λ t. slice t off n) (sym (append_assoc front src (drop (off + length src) buf)))
    ∙ slice-append_left (front ++ src) (drop (off + length src) buf) off n
        (omega (arith, len, length-append front src))
    ∙ slice-append_right front src off n len e

-- The `n` bytes at `p` are apart from the `k` bytes at `q`.
abbrev pub ClearOf : ℕ → ℕ → ℕ → ℕ → Type 0
ClearOf p n q k = (p + n ≤ q) ⊎ (q + k ≤ p)

splice-cons :
    (b : ℕ) (buf : List ℕ) (off : ℕ) (src : List ℕ)
    → splice (b ∷ buf) (suc off) src ≡ b ∷ splice buf off src
splice-cons b buf off src =
    let e : suc off + length src ≡ suc (off + length src) = omega arith in
    ap (λ n. b ∷ (take off buf ++ (src ++ drop n (b ∷ buf)))) e

slice-splice_before :
    (buf : List ℕ) (off : ℕ) (src : List ℕ) (p n : ℕ)
    → off + length src ≤ length buf
    → p + n ≤ off
    → slice (splice buf off src) p n ≡ slice buf p n
slice-splice_before buf zero src zero zero h k = refl
slice-splice_before buf zero src zero (suc n) h k = absurd (omega arith)
slice-splice_before buf zero src (suc p) n h k = absurd (omega arith)
slice-splice_before [] (suc off) src p n h k = absurd (omega arith)
slice-splice_before (b ∷ buf) (suc off) src zero zero h k = refl
slice-splice_before (b ∷ buf) (suc off) src zero (suc n) h k =
    ap (λ t. slice t zero (suc n)) (splice-cons b buf off src)
    ∙ ap (λ t. b ∷ t) (slice-splice_before buf off src zero n (omega arith) (omega arith))
slice-splice_before (b ∷ buf) (suc off) src (suc p) n h k =
    ap (λ t. slice t (suc p) n) (splice-cons b buf off src)
    ∙ slice-splice_before buf off src p n (omega arith) (omega arith)

drop-past :
    (src buf : List ℕ) (p : ℕ)
    → length src ≤ length buf
    → length src ≤ p
    → drop p (src ++ drop (length src) buf) ≡ drop p buf
drop-past [] buf p h k = refl
drop-past (c ∷ src) [] p h k = absurd (omega arith)
drop-past (c ∷ src) (b ∷ buf) zero h k = absurd (omega arith)
drop-past (c ∷ src) (b ∷ buf) (suc p) h k = drop-past src buf p (omega arith) (omega arith)

drop-splice_after :
    (buf : List ℕ) (off : ℕ) (src : List ℕ) (p : ℕ)
    → off + length src ≤ length buf
    → off + length src ≤ p
    → drop p (splice buf off src) ≡ drop p buf
drop-splice_after buf zero src p h k =
    ap (λ t. drop p (src ++ drop t buf)) (omega arith)
    ∙ drop-past src buf p (omega arith) (omega arith)
drop-splice_after [] (suc off) src p h k = absurd (omega arith)
drop-splice_after (b ∷ buf) (suc off) src zero h k = absurd (omega arith)
drop-splice_after (b ∷ buf) (suc off) src (suc p) h k =
    ap (drop (suc p)) (splice-cons b buf off src)
    ∙ drop-splice_after buf off src p (omega arith) (omega arith)

pub slice-splice_apart :
    (buf : List ℕ) (off : ℕ) (src : List ℕ) (p n : ℕ)
    → off + length src ≤ length buf
    → ClearOf p n off (length src)
    → slice (splice buf off src) p n ≡ slice buf p n
slice-splice_apart buf off src p n h (inl k) = slice-splice_before buf off src p n h k
slice-splice_apart buf off src p n h (inr k) = ap (take n) (drop-splice_after buf off src p h k)
