-- ===== src/ElfWriter/Pieces.antt =====
-- Slices of a file that grows at its end, and the pieces of the output.
use silver_nimbus_otter.Prelude.{
  List, Meets-bind, Meets-if, Meets-map, Returns, [], ap, append-nil, append_assoc, arith,
  if◌then◌else◌, length, length-append, length-replicate, ltb, refl, replicate, suc, sym,
  take-length, zero, ℕ, ◌++◌, ◌+◌, ◌-◌, ◌<◌, ◌==◌, ◌∙◌, ◌∷◌, ◌≡◌, ◌≤◌,
}
use silver_nimbus_otter.ElfSpec.{Segment}
use silver_nimbus_otter.ElfWriter.{Segment, OutputFile, write_pad, write, phdr_bytes, ehdr_bytes}
use silver_nimbus_otter.Bytes.{slice}

-- What is written stays as it is.
pub slice-append_left :
    (xs ys : List ℕ) (off n : ℕ) → off + n ≤ length xs → slice (xs ++ ys) off n ≡ slice xs off n
slice-append_left [] ys zero zero h = refl
slice-append_left [] ys zero (suc n) h = absurd (omega arith)
slice-append_left [] ys (suc off) n h = absurd (omega arith)
slice-append_left (x ∷ xs) ys zero zero h = refl
slice-append_left (x ∷ xs) ys zero (suc n) h =
    ap (λ t. x ∷ t) (slice-append_left xs ys zero n (omega arith))
slice-append_left (x ∷ xs) ys (suc off) n h = slice-append_left xs ys off n (omega arith)

-- What is written last is found at the old end.
pub slice-append_right :
    (xs ys : List ℕ) (off n : ℕ) → length xs ≡ off → length ys ≡ n → slice (xs ++ ys) off n ≡ ys
slice-append_right [] ys zero n e h = take-length ys n h
slice-append_right [] ys (suc off) n e h = absurd (omega arith)
slice-append_right (x ∷ xs) ys zero n e h = absurd (omega arith)
slice-append_right (x ∷ xs) ys (suc off) n e h = slice-append_right xs ys off n (omega arith) h

-- `out'` is `out` and more behind it, up to the length `n`.
abbrev pub Extends : List ℕ → ℕ → List ℕ → Type 0
Extends out n out' = (rest : List ℕ) × (out' ≡ out ++ rest) × (length out' ≡ n)

pub length-ehdr_bytes : (entry n : ℕ) → length (ehdr_bytes entry n) ≡ 52
unfolding ehdr_bytes
length-ehdr_bytes entry n = refl

pub length-phdr_bytes : (s : Segment) → length (phdr_bytes s) ≡ 32
unfolding phdr_bytes
length-phdr_bytes s = refl

pub write-Meets : (f : OutputFile) (out bs : List ℕ) → Returns (λ r. r ≡ out ++ bs) (write f out bs)
unfolding write
write-Meets f out bs =
    Meets-if ⊥ (λ r. r ≡ out ++ bs) (f.room (length out) (length bs)) _ _ (λ _. refl) (λ _. tt)

-- The padding ends, and it is as many zeros as were asked for.
pub write_pad-Meets :
    (f : OutputFile) (fuel pad : ℕ) (out : List ℕ)
    → pad < fuel
    → Returns (Extends out (length out + pad)) (write_pad f fuel pad out)
unfolding write_pad
write_pad-Meets f zero pad out h = absurd (omega arith)
write_pad-Meets f (suc fuel) pad out h =
    let P = Extends out (length out + pad) in
    let chunk : ℕ = if ltb 4096 pad then 4096 else pad in
    Meets-if ⊥ P (pad == 0) _ _ (λ e. ([], sym (append-nil out), ground arith))
      (λ ne.
        Meets-bind ⊥ (λ r. r ≡ out ++ replicate chunk 0) P (write f out (replicate chunk 0)) _
          (write-Meets f out (replicate chunk 0))
          (λ r _ e.
            let some_left : 0 < chunk = ground arith in
            let within : chunk ≤ pad = ground arith in
            let len : length r ≡ length out + chunk =
              ap length e
              ∙ length-append out (replicate chunk 0)
              ∙ ap (λ (t : ℕ). length out + t) (length-replicate chunk 0) in
            Meets-map ⊥ (Extends r (length r + (pad - chunk))) P (write_pad f fuel (pad - chunk) r)
              (write_pad-Meets f fuel (pad - chunk) r (omega arith))
              (λ last _ x. (
                replicate chunk 0 ++ x.0,
                x.1 ∙ ap (λ t. t ++ x.0) e ∙ append_assoc out (replicate chunk 0) x.0,
                omega (arith, x.2, len),
              ))))
