-- ===== src/StubPatch/Shown.antt =====
-- src/stub_patch.c: what the appended segments show of the shim, and what is stored in it.
use silver_nimbus_otter.Prelude.{
  Bool-cases, List, [], ap, append-nil, append_assoc, arith, bind-eq-ok, false, if◌then◌else◌, inl,
  inr, leb, length, ltb, map, ok, ok-injective, refl, reject_if-eq-ok, suc, sym, true, zero, ℕ, ◌*◌,
  ◌++◌, ◌+◌, ◌-◌, ◌==◌, ◌∙◌, ◌∷◌, ◌≡◌,
}
use silver_nimbus_otter.ShimBlob.{read_u32}
use silver_nimbus_otter.ElfWriter.Contents.{bytes_at}
use silver_nimbus_otter.ElfSpec.{too_many_segments, elf_max_segments, Segment}
use silver_nimbus_otter.StubPatch.{shim_data, read_u32, shim_segment, Segment, append_loop}
use silver_nimbus_otter.ElfWriter.{Buffers}
use silver_nimbus_otter.Bytes.{slice}
use silver_nimbus_otter.StubPatch.Symbols.{word_at, half_at, read_u32-word_at}
use silver_nimbus_otter.ElfWriter.Loading.{Piece, mapped}

-- What program header `i` of the blob asks for, with the bytes of the shim: its fields stand at the
-- places that the ELF format gives.
abbrev pub shim_piece : List ℕ → List ℕ → ℕ → Piece
shim_piece blob shim at = record {
  address = word_at blob (at + 8);
  file_bytes = slice shim (word_at blob (at + 4)) (word_at blob (at + 16));
  zeros = word_at blob (at + 20) - word_at blob (at + 16);
  permissions = word_at blob (at + 24);
}

-- Of the `n` program headers of 32 bytes from index `i` on, those of type 1 (PT_LOAD).
abbrev pub pieces_from : List ℕ → List ℕ → ℕ → ℕ → ℕ → List Piece
pieces_from blob shim phoff zero i = []
pieces_from blob shim phoff (suc n) i =
    let rest = pieces_from blob shim phoff n (i + 1) in
    if word_at blob (phoff + i * 32) == 1
    then shim_piece blob shim (phoff + i * 32) ∷ rest
    else rest

-- All of them: the word at 28 tells where they stand, and the half-word at 44 counts them.
abbrev pub shim_pieces : List ℕ → List ℕ → List Piece
shim_pieces blob shim = pieces_from blob shim (word_at blob 28) (half_at blob 44) 0

shim_data-bytes :
    (b : Buffers) (size off : ℕ) → bytes_at b (shim_data size off) size ≡ slice b.shim off size
shim_data-bytes b zero off = refl
shim_data-bytes b (suc size) off = let e : ltb 0 (suc size) ≡ true = ground arith in rw e refl

mapped-shim_segment :
    (blob : List ℕ) (b : Buffers) (at next o v z m f : ℕ)
    → o ≡ word_at blob (at + 4)
    → v ≡ word_at blob (at + 8)
    → z ≡ word_at blob (at + 16)
    → m ≡ word_at blob (at + 20)
    → f ≡ word_at blob (at + 24)
    → mapped b (shim_segment next o v z m f) ≡ shim_piece blob b.shim at
mapped-shim_segment blob b at next o v z m f p q r s t =
    ap (λ bs. record { address = v; file_bytes = bs; zeros = m - z; permissions = f })
      (shim_data-bytes b z o)
    ∙ rw (p, q, r, s, t) refl

map-append : (f : Segment → Piece) (xs ys : List Segment) → map f (xs ++ ys) ≡ map f xs ++ map f ys
map-append f [] ys = refl
map-append f (x ∷ xs) ys = ap (λ t. f x ∷ t) (map-append f xs ys)

pub append_loop-pieces :
    (blob : List ℕ) (b : Buffers) (phoff n i next : ℕ) (segs r : List Segment)
    → append_loop blob phoff n i next segs ≡ ok r
    → map (mapped b) r ≡ map (mapped b) segs ++ pieces_from blob b.shim phoff n i
unfolding append_loop
append_loop-pieces blob b phoff zero i next segs r e =
    ap (map (mapped b)) (sym (ok-injective e)) ∙ sym (append-nil (map (mapped b) segs))
append_loop-pieces blob b phoff (suc n) i next segs r e =
    let at = phoff + i * 32 in
    let (p_type, q0, e0) = bind-eq-ok (read_u32 blob at) _ e in
    let same : p_type ≡ word_at blob at = read_u32-word_at blob at p_type q0 in
    elim (Bool-cases (p_type == 1)) [
      | inr other ↦
          let kind : (word_at blob at == 1) ≡ false = rw (sym same) other in
          append_loop-pieces blob b phoff n (i + 1) next segs r (rw other at e0) ∙ rw kind refl
      | inl load ↦
          let kind : (word_at blob at == 1) ≡ true = rw (sym same) load in
          let (few, e1) =
            reject_if-eq-ok (leb elf_max_segments (length segs)) too_many_segments _
              (rw load at e0) in
          let (o, q1, e2) = bind-eq-ok (read_u32 blob (at + 4)) _ e1 in
          let (v, q2, e3) = bind-eq-ok (read_u32 blob (at + 8)) _ e2 in
          let (z, q3, e4) = bind-eq-ok (read_u32 blob (at + 16)) _ e3 in
          let (m, q4, e5) = bind-eq-ok (read_u32 blob (at + 20)) _ e4 in
          let (f, q5, e6) = bind-eq-ok (read_u32 blob (at + 24)) _ e5 in
          let seg = shim_segment next o v z m f in
          let rest = pieces_from blob b.shim phoff n (i + 1) in
          let one : mapped b seg ≡ shim_piece blob b.shim at =
            mapped-shim_segment blob b at next o v z m f (read_u32-word_at blob (at + 4) o q1)
              (read_u32-word_at blob (at + 8) v q2) (read_u32-word_at blob (at + 16) z q3)
              (read_u32-word_at blob (at + 20) m q4) (read_u32-word_at blob (at + 24) f q5) in
          append_loop-pieces blob b phoff n (i + 1) _ (segs ++ (seg ∷ [])) r e6
          ∙ ap (λ t. t ++ rest) (map-append (mapped b) segs (seg ∷ []))
          ∙ append_assoc (map (mapped b) segs) (mapped b seg ∷ []) rest
          ∙ ap (λ p. map (mapped b) segs ++ (p ∷ rest)) one
          ∙ rw kind refl
    ]
