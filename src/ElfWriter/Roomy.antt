-- ===== src/ElfWriter/Roomy.antt =====
-- src/elf_writer.c on a disk that takes everything.
use silver_nimbus_otter.Prelude.{
  All, Any, Bool, Bool-cases, List, Meets-eq-ok, [], ap, arith, false, if◌then◌else◌, inl, inr,
  length, ltb, map, not, ok, refl, reject_if, replicate, some, subst, suc, sym, true, zero, ℕ, ◌%◌,
  ◌*◌, ◌++◌, ◌+◌, ◌-◌, ◌<◌, ◌==◌, ◌>>◌, ◌||◌, ◌∙◌, ◌∷◌, ◌≡◌, ◌≢◌, ◌≤◌, ◌⊎◌,
}
use silver_nimbus_otter.ElfWriter.Output.{IsClosed}
use silver_nimbus_otter.Bytes.{u32_mod, IsU32}
use silver_nimbus_otter.Bytes.Laws.{mem_read_ok}
use silver_nimbus_otter.ElfSpec.{
  page_size, Segment, SegmentData, ElfSpec, ConvertError, Ordered, Convert, null, in_raw, in_shim,
  elf_max_segments,
}
use silver_nimbus_otter.ElfWriter.{
  write_elf, Buffers, OutputFile, elf_write, write, write_phdrs, write_pad, write_segment,
  write_segments, fetch, overlaps, ehdr_bytes, phdr_bytes,
}
use silver_nimbus_otter.ElfWriter.Contents.{IsBacked, InRange, bytes_at}
use silver_nimbus_otter.ElfWriter.Loading.{load, mapped, IsWords, elf_write-load}

-- The function gives a value with `P`.
abbrev pub Gives : {A : Type 0} → (A → Type 0) → Convert A → Type 0
Gives {A} P m = (a : A) × (m ≡ ok a) × P a

-- A segment with bytes in the file points to some.
abbrev pub HasBytes : Segment → Type 0
HasBytes s = (s.filesz ≡ 0) ⊎ (s.contents ≢ null)

fetch_some :
    (b : Buffers) (s : Segment) (d : SegmentData)
    → s.contents ≡ d
    → d ≢ null
    → InRange b d s.filesz
    → fetch b s ≡ ok (bytes_at b d s.filesz)
unfolding fetch
fetch_some b s null e ne h = absurd (ne refl)
fetch_some b s (in_raw off) e ne h = rw (e, mem_read_ok {E = ConvertError} b.raw off s.filesz h)
fetch_some b s (in_shim off) e ne h = rw (e, mem_read_ok {E = ConvertError} b.shim off s.filesz h)

-- Segments behind one place lie behind every earlier one.
pub Ordered-earlier : (a c : ℕ) (segs : List Segment) → a ≤ c → Ordered c segs → Ordered a segs
Ordered-earlier a c [] h o = tt
Ordered-earlier a c (s ∷ segs) h o = (omega (arith, o.0), o.1)

pub overlaps_none :
    (phdrs_end : ℕ) (segs : List Segment) → Ordered phdrs_end segs → overlaps phdrs_end segs ≡ false
unfolding overlaps
overlaps_none phdrs_end [] o = refl
overlaps_none phdrs_end (s ∷ segs) o =
    let rest =
      overlaps_none phdrs_end segs
        (Ordered-earlier phdrs_end (s.file_offset + s.filesz) segs (omega (arith, o.0)) o.1) in
    let behind : ltb s.file_offset phdrs_end ≡ false = ground (arith, o.0) in
    elim (Bool-cases (ltb 0 s.filesz)) [
      | inl e ↦ rw (e, behind, rest) refl
      | inr e ↦ rw (e, rest) refl
    ]

pub pass :
    {A : Type 0} (b : Bool) (e : ConvertError) (m : Convert A)
    → b ≡ false
    → (reject_if b e >> m) ≡ m
pass b e m h = rw h refl

some_bytes : (s : Segment) → (s.filesz == 0) ≡ false → HasBytes s → s.contents ≢ null
some_bytes s nz (inl e) = absurd (ground arith)
some_bytes s nz (inr ne) = ne

module _ (f : OutputFile) (roomy : (p n : ℕ) → f.room p n ≡ true) where
  pub write_roomy : (out bs : List ℕ) → write f out bs ≡ ok (out ++ bs)
  unfolding write
  write_roomy out bs = rw (roomy (length out) (length bs)) refl

  pub write_phdrs_roomy : (segs : List Segment) (out : List ℕ) → Gives Any (write_phdrs f segs out)
  unfolding write_phdrs
  write_phdrs_roomy [] out = (out, refl, tt)
  write_phdrs_roomy (s ∷ segs) out =
      let (r, e, u) = write_phdrs_roomy segs (out ++ phdr_bytes s) in
      (r, rw (write_roomy out (phdr_bytes s)) e, tt)

  pub write_pad_roomy :
      (fuel pad : ℕ) (out : List ℕ) → pad < fuel → Gives Any (write_pad f fuel pad out)
  unfolding write_pad
  write_pad_roomy zero pad out h = absurd (omega arith)
  write_pad_roomy (suc fuel) pad out h =
      let chunk : ℕ = if ltb 4096 pad then 4096 else pad in
      elim (Bool-cases (pad == 0)) [
        | inl z ↦ (out, rw z refl, tt)
        | inr nz ↦
            let less : pad - chunk < fuel = ground arith in
            let (r, e, u) = write_pad_roomy fuel (pad - chunk) (out ++ replicate chunk 0) less in
            (r, rw (nz, write_roomy out (replicate chunk 0)) e, tt)
      ]

  write_segment_roomy :
      (b : Buffers) (s : Segment) (cur : ℕ) (out : List ℕ)
      → cur ≤ s.file_offset
      → s.contents ≢ null
      → InRange b s.contents s.filesz
      → Gives Any (write_segment f b s cur out)
  unfolding write_segment
  write_segment_roomy b s cur out h ne k =
      let pad = s.file_offset - cur in
      let behind : ltb s.file_offset cur ≡ false = ground arith in
      let (padded, e, u) = write_pad_roomy (suc pad) pad out (omega arith) in
      let bs = bytes_at b s.contents s.filesz in
      (
        padded ++ bs,
        rw (behind, e, fetch_some b s s.contents refl ne k, write_roomy padded bs) refl,
        tt,
      )

  write_segments_roomy :
      (b : Buffers) (segs : List Segment) (cur : ℕ) (out : List ℕ)
      → Ordered cur segs
      → All (IsBacked b) segs
      → All HasBytes segs
      → Gives Any (write_segments f b segs cur out)
  unfolding write_segments
  write_segments_roomy b [] cur out o h k = (out, refl, tt)
  write_segments_roomy b (s ∷ segs) cur out o h k =
      let end = s.file_offset + s.filesz in
      let whole : end ≡ end % u32_mod = omega (arith, h.0.0) in
      elim (Bool-cases (s.filesz == 0)) [
        | inl z ↦
            let (r, e, u) =
              write_segments_roomy b segs cur out
                (Ordered-earlier cur end segs (omega (arith, o.0)) o.1) h.1 k.1 in
            (r, rw z e, tt)
        | inr nz ↦
            let (mid, e1, u1) = write_segment_roomy b s cur out o.0 (some_bytes s nz k.0) h.0.1 in
            let (r, e2, u2) =
              write_segments_roomy b segs (end % u32_mod) mid
                (subst (λ (t : ℕ). Ordered t segs) whole o.1) h.1 k.1 in
            (r, rw (nz, e1) e2, tt)
      ]

  write_elf_some :
      (b : Buffers) (spec : ElfSpec)
      → f.can_open ≡ true
      → 0 < length spec.segments
      → length spec.segments ≤ elf_max_segments
      → Ordered page_size spec.segments
      → All (IsBacked b) spec.segments
      → All HasBytes spec.segments
      → Gives Any (write_elf f b spec)
  unfolding write_elf
  write_elf_some b spec opens some_segs few o h k =
      let n = length spec.segments in
      let in_number : (n == 0 || ltb elf_max_segments n) ≡ false = ground arith in
      let apart = Ordered-earlier (52 + n * 32) 4096 spec.segments (omega arith) o in
      let eh = ehdr_bytes spec.entry n in
      let (mid, e1, u1) = write_phdrs_roomy spec.segments eh in
      let (r, e2, u2) = write_segments_roomy b spec.segments (52 + n * 32) mid apart h k in
      (
        r,
        pass _ _ _ in_number
            ∙ pass _ _ _ (overlaps_none (52 + n * 32) spec.segments apart)
            ∙ pass _ _ _ (ap not opens)
            ∙ rw (write_roomy [] eh, e1) e2,
        tt,
      )

  closed :
      (b : Buffers) (spec : ElfSpec) (out : List ℕ)
      → write_elf f b spec ≡ ok out
      → elf_write f b spec ≡ ok (f.closed out)
  unfolding elf_write
  closed b spec out e = rw e refl

  -- On a disk that takes everything, and loses nothing when the file is closed, from one to 64
  -- segments are written if they follow one another in the file behind its first page, none of them
  -- passes 2^32 there, their bytes exist, and the entry and the fields have 32 bits: the writer
  -- reports success, and the structures of the file ask for the entry and for the segments in their
  -- order, each with its bytes at its address, zeros up to its size in memory, and its permissions.
  pub elf_write_roomy :
      (b : Buffers) (spec : ElfSpec)
      → ((out : List ℕ) → f.closed out ≡ out)
      → f.can_open ≡ true
      → 0 < length spec.segments
      → length spec.segments ≤ elf_max_segments
      → Ordered page_size spec.segments
      → All (IsBacked b) spec.segments
      → All HasBytes spec.segments
      → IsU32 spec.entry
      → All IsWords spec.segments
      → Gives
          (λ file. load file ≡ some (spec.entry, map (mapped b) spec.segments))
          (elf_write f b spec)
  elf_write_roomy b spec keeps opens some_segs few o h k u w =
      let P = λ (bytes : List ℕ). load bytes ≡ some (spec.entry, map (mapped b) spec.segments) in
      let (out, e, _) = write_elf_some b spec opens some_segs few o h k in
      let file = f.closed out in
      let done = closed b spec out e in
      let (bytes, same, loaded) =
        Meets-eq-ok ⊥ (IsClosed f P) (elf_write f b spec) (elf_write-load f b spec h u w) done in
      (file, done, subst P (sym (same ∙ keeps bytes)) loaded)
