-- ===== src/ElfWriter/Contents.antt =====
-- What stands in the output file.
use silver_nimbus_otter.Prelude.{
  ==_iff, All, List, Meets-bind, Meets-if, Meets-map, Meets-reject_if, Returns, [], ap, append-nil,
  append_assoc, arith, length, length-append, ltb, ltb→ge, refl, suc, sym, ℕ, ◌%◌, ◌++◌, ◌+◌, ◌-◌,
  ◌<◌, ◌==◌, ◌∙◌, ◌∷◌, ◌≡◌, ◌≤◌,
}
use silver_nimbus_otter.ElfWriter.Pieces.{
  slice-append_right, write-Meets, write_pad-Meets, slice-append_left, Extends,
}
use silver_nimbus_otter.ElfWriter.{
  write, write_pad, OutputFile, write_segments, write_segment, fetch, Buffers,
}
use silver_nimbus_otter.Bytes.{u32_mod, slice}
use silver_nimbus_otter.Bytes.Laws.{mem_read_ok, length-slice}
use silver_nimbus_otter.ElfSpec.{
  overlapping_ranges, Segment, SegmentData, ConvertError, null, in_raw, in_shim,
}

-- The bytes that a segment points to.
abbrev pub bytes_at : Buffers → SegmentData → ℕ → List ℕ
bytes_at b null n = []
bytes_at b (in_raw off) n = slice b.raw off n
bytes_at b (in_shim off) n = slice b.shim off n

-- So many bytes are there.
abbrev pub InRange : Buffers → SegmentData → ℕ → Type 0
InRange b null n = Unit
InRange b (in_raw off) n = off + n ≤ length b.raw
InRange b (in_shim off) n = off + n ≤ length b.shim

-- The segment's file range does not pass 2^32, and its bytes are there.
abbrev pub IsBacked : Buffers → Segment → Type 0
IsBacked b s = (s.file_offset + s.filesz < u32_mod) × InRange b s.contents s.filesz

-- The file shows the segment's bytes at its offset.
abbrev pub Shows : Buffers → List ℕ → Segment → Type 0
Shows b out s = slice out s.file_offset s.filesz ≡ bytes_at b s.contents s.filesz

no_bytes : (b : Buffers) (d : SegmentData) → bytes_at b d 0 ≡ []
no_bytes b null = refl
no_bytes b (in_raw off) = refl
no_bytes b (in_shim off) = refl

Shows-empty : (b : Buffers) (out : List ℕ) (s : Segment) → s.filesz ≡ 0 → Shows b out s
Shows-empty b out s e = rw e (sym (no_bytes b s.contents))

abbrev Fetched : Buffers → Segment → List ℕ → Type 0
Fetched b s bs = (bs ≡ bytes_at b s.contents s.filesz) × (length bs ≡ s.filesz)

fetch-Meets :
    (b : Buffers) (s : Segment) (d : SegmentData)
    → s.contents ≡ d
    → InRange b d s.filesz
    → Returns (Fetched b s) (fetch b s)
unfolding fetch
fetch-Meets b s null e h = rw e tt
fetch-Meets b s (in_raw off) e h =
    rw (e, mem_read_ok {E = ConvertError} b.raw off s.filesz h)
      (refl, length-slice b.raw off s.filesz h)
fetch-Meets b s (in_shim off) e h =
    rw (e, mem_read_ok {E = ConvertError} b.shim off s.filesz h)
      (refl, length-slice b.shim off s.filesz h)

-- After a segment the file ends where the segment does, and shows its bytes.
abbrev Written : Buffers → Segment → List ℕ → List ℕ → Type 0
Written b s out out' =
    Extends out (s.file_offset + s.filesz) out'
    × (slice out' s.file_offset s.filesz ≡ bytes_at b s.contents s.filesz)

write_segment-Meets :
    (f : OutputFile) (b : Buffers) (s : Segment) (cur : ℕ) (out : List ℕ)
    → length out ≡ cur
    → InRange b s.contents s.filesz
    → Returns (Written b s out) (write_segment f b s cur out)
unfolding write_segment
write_segment-Meets f b s cur out e h =
    let P = Written b s out in
    let pad = s.file_offset - cur in
    Meets-reject_if ⊥ P (ltb s.file_offset cur) overlapping_ranges _ λ behind.
      let le = ltb→ge _ _ behind in
      Meets-bind ⊥ (Extends out (length out + pad)) P (write_pad f (suc pad) pad out) _
        (write_pad-Meets f (suc pad) pad out (omega arith))
        λ padded _ x.
          Meets-bind ⊥ (Fetched b s) P (fetch b s) _ (fetch-Meets b s s.contents refl h) λ bs _ y.
            Meets-map ⊥ (λ r. r ≡ padded ++ bs) P (write f padded bs) (write-Meets f padded bs)
              λ r _ z.
                let at : length padded ≡ s.file_offset = omega (arith, x.2, le) in
                (
                  (
                    x.0 ++ bs,
                    z ∙ ap (λ t. t ++ bs) x.1 ∙ append_assoc out x.0 bs,
                    ap length z ∙ length-append padded bs ∙ omega (arith, at, y.1),
                  ),
                  ap (λ t. slice t s.file_offset s.filesz) z
                      ∙ slice-append_right padded bs s.file_offset s.filesz at y.1
                      ∙ y.0,
                )

-- The file begins with what was there before, and shows every segment.
abbrev pub ShowsAll : Buffers → List Segment → List ℕ → List ℕ → Type 0
ShowsAll b segs out out' = (rest : List ℕ) × (out' ≡ out ++ rest) × All (Shows b out') segs

pub write_segments-Meets :
    (f : OutputFile) (b : Buffers) (segs : List Segment) (cur : ℕ) (out : List ℕ)
    → length out ≡ cur
    → All (IsBacked b) segs
    → Returns (ShowsAll b segs out) (write_segments f b segs cur out)
unfolding write_segments
write_segments-Meets f b [] cur out e h = ([], sym (append-nil out), tt)
write_segments-Meets f b (s ∷ segs) cur out e h =
    let P = ShowsAll b (s ∷ segs) out in
    let end = s.file_offset + s.filesz in
    let whole : end % u32_mod ≡ end = omega (arith, h.0.0) in
    Meets-if ⊥ P (s.filesz == 0) _ _
      (λ z.
        Meets-map ⊥ (ShowsAll b segs out) P (write_segments f b segs cur out)
          (write_segments-Meets f b segs cur out e h.1)
          (λ out' _ k. (k.0, k.1, (Shows-empty b out' s ((==_iff s.filesz 0).0 z), k.2))))
      (λ _.
        Meets-bind ⊥ (Written b s out) P (write_segment f b s cur out) _
          (write_segment-Meets f b s cur out e h.0.1)
          (λ mid _ w.
            Meets-map ⊥ (ShowsAll b segs mid) P (write_segments f b segs (end % u32_mod) mid)
              (write_segments-Meets f b segs (end % u32_mod) mid (w.0.2 ∙ sym whole) h.1)
              (λ out' _ k. (
                w.0.0 ++ k.0,
                k.1 ∙ ap (λ t. t ++ k.0) w.0.1 ∙ append_assoc out w.0.0 k.0,
                (
                  ap (λ t. slice t s.file_offset s.filesz) k.1
                      ∙ slice-append_left mid k.0 s.file_offset s.filesz (omega (arith, w.0.2))
                      ∙ w.1,
                  k.2,
                ),
              ))))
