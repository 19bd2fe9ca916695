-- ===== src/Convert/Overrun.antt =====
-- What becomes of an image whose SizeOfHeaders is larger than its file: `pe_layout_to_elf_spec` of
-- src/layout.c, and then `elf_write` of src/elf_writer.c.
use silver_nimbus_otter.Prelude.{
  List, Meets-eq-ok, [], ap, arith, false, fault, leb, length, ltb, not, ok, refl, subst, suc, true,
  ℕ, ◌*◌, ◌+◌, ◌-◌, ◌<◌, ◌==◌, ◌||◌, ◌∙◌, ◌∷◌, ◌≡◌, ◌≤◌,
}
use silver_nimbus_otter.Bytes.{u32_mod, mem_read}
use silver_nimbus_otter.PeImage.{Section, Image}
use silver_nimbus_otter.Layout.{layout_to_elf_spec}
use silver_nimbus_otter.Layout.Pages.{Covers, Covers, LaidOut, Maps, layout_to_elf_spec-Meets}
use silver_nimbus_otter.Layout.Order.{layout_to_elf_spec-Ordered}
use silver_nimbus_otter.Convert.Whole.{image_span}
use silver_nimbus_otter.ElfSpec.{Segment, ElfSpec, Ordered, page_size, elf_max_segments, in_raw}
use silver_nimbus_otter.ElfWriter.{
  write_elf, Buffers, OutputFile, elf_write, write_segment, write_segments, fetch, ehdr_bytes,
}
use silver_nimbus_otter.ElfWriter.Roomy.{
  write_roomy, write_phdrs_roomy, write_pad_roomy, overlaps_none, Ordered-earlier, pass,
}

fetch_beyond :
    (b : Buffers) (s : Segment) (off : ℕ)
    → s.contents ≡ in_raw off
    → length b.raw < off + s.filesz
    → fetch b s ≡ fault
unfolding fetch mem_read
fetch_beyond b s off e h =
    let outside : leb (off + s.filesz) (length b.raw) ≡ false = ground arith in rw (e, outside) refl

length-Covers :
    (base : ℕ) (sections : List Section) (segs : List Segment)
    → Covers base sections segs
    → length segs ≡ length sections
length-Covers base [] [] h = refl
length-Covers base [] (seg ∷ segs) h = absurd h
length-Covers base (s ∷ sections) [] h = absurd h
length-Covers base (s ∷ sections) (seg ∷ segs) h =
    ap (λ (n : ℕ). suc n) (length-Covers base sections segs h.5)

module _ (f : OutputFile) (roomy : (p n : ℕ) → f.room p n ≡ true) where
  first_overruns :
      (b : Buffers) (s : Segment) (segs : List Segment) (cur : ℕ) (out : List ℕ)
      → cur ≤ s.file_offset
      → s.contents ≡ in_raw 0
      → length b.raw < s.filesz
      → write_segments f b (s ∷ segs) cur out ≡ fault
  unfolding write_segments write_segment
  first_overruns b s segs cur out h e k =
      let pad = s.file_offset - cur in
      let behind : ltb s.file_offset cur ≡ false = ground arith in
      let some_bytes : (s.filesz == 0) ≡ false = ground arith in
      let (padded, e1, u) = write_pad_roomy f roomy (suc pad) pad out (omega arith) in
      rw (some_bytes, behind, e1, fetch_beyond b s 0 e (omega arith)) refl

  writer_overruns :
      (b : Buffers) (spec : ElfSpec) (header : Segment) (segs : List Segment)
      → spec.segments ≡ header ∷ segs
      → f.can_open ≡ true
      → length spec.segments ≤ elf_max_segments
      → Ordered page_size spec.segments
      → header.contents ≡ in_raw 0
      → length b.raw < header.filesz
      → write_elf f b spec ≡ fault
  unfolding write_elf
  writer_overruns b spec header segs same opens few o e k =
      let n = length spec.segments in
      let some_segs : n ≡ suc (length segs) = ap length same in
      let in_number : (n == 0 || ltb elf_max_segments n) ≡ false = ground arith in
      let apart = Ordered-earlier (52 + n * 32) 4096 spec.segments (omega arith) o in
      let eh = ehdr_bytes spec.entry n in
      let (mid, e1, u1) = write_phdrs_roomy f roomy spec.segments eh in
      let first = subst (Ordered (52 + n * 32)) same apart in
      let over =
        ap (λ t. write_segments f b t (52 + n * 32) mid) same
        ∙ first_overruns b header segs (52 + n * 32) mid first.0 e k in
      pass _ _ _ in_number
      ∙ pass _ _ _ (overlaps_none (52 + n * 32) spec.segments apart)
      ∙ pass _ _ _ (ap not opens)
      ∙ rw (write_roomy f roomy [] eh, e1) over

  closing_overruns :
      (b : Buffers) (spec : ElfSpec) → write_elf f b spec ≡ fault → elf_write f b spec ≡ fault
  unfolding elf_write
  closing_overruns b spec e = rw e refl

  laid_out_overruns :
      (img : Image) (b : Buffers) (spec : ElfSpec) (segs : List Segment)
      → spec.segments ≡ segs
      → f.can_open ≡ true
      → (length img.sections < elf_max_segments) × Maps img segs
      → Ordered page_size spec.segments
      → length b.raw < img.size_of_headers
      → elf_write f b spec ≡ fault
  laid_out_overruns img b spec [] same opens laid o k = absurd laid.1
  laid_out_overruns img b spec (header ∷ segs) same opens laid o k =
      let (_, contents, size, _, covers) = laid.1 in
      let few : length spec.segments ≤ 64 =
        omega
          (arith, ap length same, length-Covers img.image_base img.sections segs covers, laid.0) in
      let some_size : ltb 0 img.size_of_headers ≡ true = ground arith in
      closing_overruns b spec (
        writer_overruns b spec header segs same opens few o (contents ∙ rw some_size refl)
          (omega (arith, size)))

  -- Of an image with larger SizeOfHeaders than its file has bytes, whose sizes fit in 2^32 bytes, the
  -- layout that is accepted makes the writer read behind the image's bytes, on a disk that takes
  -- everything.
  pub elf_write_overruns :
      (img : Image) (shim : List ℕ) (spec : ElfSpec)
      → f.can_open ≡ true
      → image_span img ≤ u32_mod
      → length img.raw < img.size_of_headers
      → layout_to_elf_spec img ≡ ok spec
      → elf_write f (record { raw = img.raw; shim = shim }) spec ≡ fault
  elf_write_overruns img shim spec opens u k e =
      let laid = Meets-eq-ok ⊥ (LaidOut img) _ (layout_to_elf_spec-Meets img) e in
      let o =
        Meets-eq-ok ⊥ (λ spec. Ordered page_size spec.segments) _ (layout_to_elf_spec-Ordered img u)
          e in
      laid_out_overruns img (record { raw = img.raw; shim = shim }) spec spec.segments refl opens
        (laid.1, laid.2) o k
