-- ===== src/StubPatch/Segments.antt =====
-- The shim's segments behind those of the image.
use silver_nimbus_otter.ElfSpec.{in_raw, in_shim, null}
use silver_nimbus_otter.Layout.Order.{align_up_bounds}
use silver_nimbus_otter.Prelude.{
  All, All-append, Bool-cases, List, Meets-bind, Meets-if, Meets-map, Meets-reject_if, Returns, [],
  ap, append-nil, append_assoc, arith, inl, inr, leb, length, ltb, not, suc, sym, zero, ℕ, ◌%◌, ◌*◌,
  ◌++◌, ◌+◌, ◌==◌, ◌∙◌, ◌∷◌, ◌≡◌, ◌≤◌,
}
use silver_nimbus_otter.ShimBlob.{read_u32}
use silver_nimbus_otter.StubPatch.Symbols.{word_at}
use silver_nimbus_otter.StubPatch.Blob.{read_u32-Meets, loads_span, LoadsIn}
use silver_nimbus_otter.Elf32.{pt_load}
use silver_nimbus_otter.Bytes.{u32_mod}
use silver_nimbus_otter.ElfWriter.Contents.{IsBacked, InRange}
use silver_nimbus_otter.ElfSpec.{
  too_many_segments, elf_max_segments, page_size, align_up, SegmentData, Segment,
}
use silver_nimbus_otter.StubPatch.{
  shim_segment, read_u32, phdr_off, u32_mod, shim_data, SegmentData, Segment, end_of_segments,
  append_loop,
}
use silver_nimbus_otter.ElfWriter.{Buffers}

-- The segment and a page behind it end below `limit` in the file, and its bytes are there.
abbrev pub Within : Buffers → ℕ → Segment → Type 0
Within b limit s = (s.file_offset + s.filesz + 4096 ≤ limit) × InRange b s.contents s.filesz

pub Within-more :
    (b : Buffers) (k l : ℕ) (segs : List Segment)
    → k ≤ l
    → All (Within b k) segs
    → All (Within b l) segs
Within-more b k l [] h w = tt
Within-more b k l (s ∷ segs) h w = ((omega (arith, w.0.0), w.0.1), Within-more b k l segs h w.1)

InRange-same :
    (b c : Buffers) (d : SegmentData) (n : ℕ)
    → length b.raw ≡ length c.raw
    → length b.shim ≡ length c.shim
    → InRange b d n
    → InRange c d n
InRange-same b c null n e f h = tt
InRange-same b c (in_raw off) n e f h = omega arith
InRange-same b c (in_shim off) n e f h = omega arith

pub Within-IsBacked :
    (b c : Buffers) (limit : ℕ) (segs : List Segment)
    → limit ≤ u32_mod
    → length b.raw ≡ length c.raw
    → length b.shim ≡ length c.shim
    → All (Within b limit) segs
    → All (IsBacked c) segs
Within-IsBacked b c limit [] h e f w = tt
Within-IsBacked b c limit (s ∷ segs) h e f w = (
  (omega (arith, w.0.0), InRange-same b c s.contents s.filesz e f w.0.1),
  Within-IsBacked b c limit segs h e f w.1,
)

pub end_of_segments-le :
    (b : Buffers) (limit : ℕ) (segs : List Segment)
    → limit ≤ u32_mod
    → 4096 ≤ limit
    → All (Within b limit) segs
    → end_of_segments segs ≤ limit
unfolding end_of_segments
end_of_segments-le b limit [] h k w = k
end_of_segments-le b limit (s ∷ []) h k w =
    let end = s.file_offset + s.filesz in
    let whole : end % u32_mod ≡ end = omega (arith, w.0.0) in
    let (lo, hi) = align_up_bounds end (omega (arith, w.0.0)) in
    let next : align_up (end % u32_mod) 4096 ≡ align_up end 4096 =
      ap (λ (t : ℕ). align_up t 4096) whole in
    omega (arith, hi, next, w.0.0)
end_of_segments-le b limit (s ∷ t ∷ segs) h k w = end_of_segments-le b limit (t ∷ segs) h k w.1

shim_data-InRange :
    (b : Buffers) (size off : ℕ) → off + size ≤ length b.shim → InRange b (shim_data size off) size
shim_data-InRange b size off h = elim (Bool-cases (ltb 0 size)) [ inl e ↦ rw e h | inr e ↦ rw e tt ]

-- More segments follow, and all are within the limit.
abbrev pub Appended : Buffers → ℕ → List Segment → List Segment → Type 0
Appended b limit segs r = (more : List Segment) × (r ≡ segs ++ more) × All (Within b limit) r

-- One more segment, with what the rest of the loop does.
append_one :
    (b : Buffers) (limit : ℕ) (blob : List ℕ) (phoff n i next : ℕ) (segs : List Segment)
    (p_offset p_vaddr p_filesz p_memsz p_flags : ℕ)
    → p_offset + p_filesz ≤ length b.shim
    → next + (p_filesz + 4096 + loads_span blob phoff n (i + 1)) ≤ limit
    → limit ≤ u32_mod
    → All (Within b limit) segs
    → ((segs' : List Segment) (next' : ℕ)
        → next' + loads_span blob phoff n (i + 1) ≤ limit
        → All (Within b limit) segs'
        → Returns (Appended b limit segs') (append_loop blob phoff n (i + 1) next' segs'))
    → Returns (Appended b limit segs) (
        append_loop blob phoff n
          (i + 1)
          (align_up ((next + p_filesz) % u32_mod) page_size)
          (segs ++ (shim_segment next p_offset p_vaddr p_filesz p_memsz p_flags ∷ [])))
append_one b limit blob phoff n i next segs p_offset p_vaddr p_filesz p_memsz p_flags inside k u w
      rest =
    let seg = shim_segment next p_offset p_vaddr p_filesz p_memsz p_flags in
    let end = next + p_filesz in
    let whole : end % u32_mod ≡ end = omega arith in
    let (lo, hi) = align_up_bounds end (omega arith) in
    let eq : align_up (end % u32_mod) 4096 ≡ align_up end 4096 =
      ap (λ (t : ℕ). align_up t 4096) whole in
    let next' = align_up (end % u32_mod) 4096 in
    let one : Within b limit seg = (omega arith, shim_data-InRange b p_filesz p_offset inside) in
    Meets-map ⊥ (Appended b limit (segs ++ (seg ∷ []))) (Appended b limit segs)
      (append_loop blob phoff n (i + 1) next' (segs ++ (seg ∷ [])))
      (rest (segs ++ (seg ∷ [])) next' (omega (arith, hi, eq))
        (All-append (Within b limit) segs (seg ∷ []) w (one, tt)))
      λ r _ a. (seg ∷ a.0, a.1 ∙ append_assoc segs (seg ∷ []) a.0, a.2)

pub append_loop-Meets :
    (b : Buffers) (limit : ℕ) (blob : List ℕ) (phoff n i next : ℕ) (segs : List Segment)
    → phoff + (i + n) * 32 ≤ length blob
    → LoadsIn blob phoff n i
    → length blob ≡ length b.shim
    → next + loads_span blob phoff n i ≤ limit
    → limit ≤ u32_mod
    → All (Within b limit) segs
    → Returns (Appended b limit segs) (append_loop blob phoff n i next segs)
unfolding append_loop
append_loop-Meets b limit blob phoff zero i next segs h l e k u w = ([], sym (append-nil segs), w)
append_loop-Meets b limit blob phoff (suc n) i next segs h l e k u w =
    let P = Appended b limit segs in
    let at = phdr_off phoff i in
    let field = λ (o : ℕ). λ (v : ℕ). v ≡ word_at blob (at + o) in
    Meets-bind ⊥ (λ t. t ≡ word_at blob at) P (read_u32 blob at) _
      (read_u32-Meets blob at (omega arith))
      λ p_type _ _.
        Meets-if ⊥ P (not (p_type == pt_load)) _ _
          (λ _.
            append_loop-Meets b limit blob phoff n (i + 1) next segs (omega arith) l.2 e
              (omega arith) u w)
          (λ _. Meets-reject_if ⊥ P (leb elf_max_segments (length segs)) too_many_segments _ λ _.
            Meets-bind ⊥ (field 4) P (read_u32 blob (at + 4)) _
              (read_u32-Meets blob (at + 4) (omega arith))
              λ p_offset _ e4.
                Meets-bind ⊥ (field 8) P (read_u32 blob (at + 8)) _
                  (read_u32-Meets blob (at + 8) (omega arith))
                  λ p_vaddr _ e8.
                    Meets-bind ⊥ (field 16) P (read_u32 blob (at + 16)) _
                      (read_u32-Meets blob (at + 16) (omega arith))
                      λ p_filesz _ e16.
                        Meets-bind ⊥ (field 20) P (read_u32 blob (at + 20)) _
                          (read_u32-Meets blob (at + 20) (omega arith))
                          λ p_memsz _ e20.
                            Meets-bind ⊥ (field 24) P (read_u32 blob (at + 24)) _
                              (read_u32-Meets blob (at + 24) (omega arith))
                              λ p_flags _ e24.
                                append_one b limit blob phoff n i next segs p_offset p_vaddr
                                  p_filesz p_memsz p_flags (omega (arith, e4, e16, l.0, e))
                                  (omega (arith, e16, k)) u w
                                  λ segs' next' fits all.
                                    append_loop-Meets b limit blob phoff n (i + 1) next' segs'
                                      (omega arith) l.2 e fits u all)
