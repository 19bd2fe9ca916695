-- ===== src/Convert/Loading.antt =====
-- What the output of a conversion asks its loader for.
use silver_nimbus_otter.Prelude.{
  All, List, Meets-eq-ok, Meets-map, Returns, ap, arith, bind-eq-ok, length, map, not, ok,
  reject_if-eq-ok, some, sym, ℕ, ◌%◌, ◌++◌, ◌+◌, ◌∙◌, ◌≡◌, ◌≤◌,
}
use silver_nimbus_otter.StubPatch.Joined.{stub_patch_apply-IsJoined}
use silver_nimbus_otter.StubPatch.Symbols.{HasSymbol}
use silver_nimbus_otter.ElfWriter.Output.{IsClosed}
use silver_nimbus_otter.Bytes.{slice, u32_mod, text}
use silver_nimbus_otter.Host.{Alloc, at_image_copy}
use silver_nimbus_otter.PeImage.{Image}
use silver_nimbus_otter.PeReader.Sections.{IsWordImage, InFile}
use silver_nimbus_otter.Layout.{layout_to_elf_spec}
use silver_nimbus_otter.Layout.Pages.{LaidOut, layout_to_elf_spec-Meets}
use silver_nimbus_otter.StubPatch.{patch_dlls, stub_patch_apply}
use silver_nimbus_otter.StubPatch.Apply.{loads_of, before, Stubbed, stub_patch_apply-Meets}
use silver_nimbus_otter.StubPatch.Blob.{IsShim}
use silver_nimbus_otter.StubPatch.Segments.{Within-IsBacked, Within}
use silver_nimbus_otter.StubPatch.Slots.{ApartFrom, all_imports, SlotsApart, IsBound, OnlyBytes}
use silver_nimbus_otter.StubPatch.Binding.{patch_dlls-kept}
use silver_nimbus_otter.StubPatch.Words.{
  stub_patch_apply-image, layout_to_elf_spec-IsWords, stub_patch_apply-IsWords,
}
use silver_nimbus_otter.ElfSpec.{ElfSpec, no_memory}
use silver_nimbus_otter.ElfWriter.{OutputFile, Buffers, elf_write}
use silver_nimbus_otter.ElfWriter.Loading.{load, mapped, elf_write-load}
use silver_nimbus_otter.StubPatch.Shown.{shim_pieces}
use silver_nimbus_otter.StubPatch.Entered.{IsEntered}
use silver_nimbus_otter.Convert.{convert}
use silver_nimbus_otter.Convert.Whole.{
  convert-Meets, IsConversion, image_span, layout_to_elf_spec-Within,
}

-- The bytes ask their loader for the segments of a layout of the image, with the image's bytes as
-- they were or bound to the shim, and behind them for what the shim's own program headers ask for,
-- with the address of the program's entry stored in the shim; and they start at the shim's
-- `_start`.
pub record LoadsAs (blob : List ℕ) (img : Image) (bytes : List ℕ) : Type 0 where
  pub layout : ElfSpec
  pub laid_out : LaidOut img layout
  pub patched : Image
  pub only_bytes : OnlyBytes img patched
  pub bound : All (IsBound blob img patched.raw) (all_imports img.imports)
  pub kept :
      (off n : ℕ)
      → ApartFrom img off n (all_imports img.imports)
      → slice patched.raw off n ≡ slice img.raw off n
  pub entry : ℕ
  pub starts_in_shim : HasSymbol blob (text "_start") entry
  pub shim : List ℕ
  pub entered : IsEntered blob ((img.image_base + img.entry_point_rva) % u32_mod) shim
  pub loads :
      load bytes
      ≡ some (
        entry,
        map (mapped (record { raw = patched.raw; shim = shim })) layout.segments
            ++ shim_pieces blob shim,
      )

module _ (alloc : Alloc) (blob : List ℕ) (f : OutputFile) (img : Image) (h : IsShim blob)
    (apart : SlotsApart img (all_imports img.imports)) (w : All (InFile img.raw) img.sections)
    (k : img.size_of_headers ≤ length img.raw) (u : image_span img + loads_of blob ≤ u32_mod)
    (words : IsWordImage img) where
  written_loads :
      (file : List ℕ) → convert alloc blob f img ≡ ok file → IsClosed f (LoadsAs blob img) file
  unfolding convert
  written_loads file e =
      let b = before img blob in
      let limit = image_span img in
      let (_, e1) = reject_if-eq-ok (not (alloc at_image_copy (length img.raw))) no_memory _ e in
      let (spec, q2, e2) = bind-eq-ok (layout_to_elf_spec img) _ e1 in
      let (p, q3, e3) = bind-eq-ok (stub_patch_apply alloc blob img spec) _ e2 in
      let c : Buffers = record { raw = p.image.raw; shim = p.shim } in
      let within =
        Meets-eq-ok ⊥ (λ (t : ElfSpec). All (Within b limit) t.segments) (layout_to_elf_spec img)
          (layout_to_elf_spec-Within b img (omega arith) k w) q2 in
      let s =
        Meets-eq-ok ⊥ (Stubbed blob limit img spec) (stub_patch_apply alloc blob img spec)
          (stub_patch_apply-Meets alloc blob img spec limit h apart (omega arith) u within) q3 in
      let in_layout = layout_to_elf_spec-IsWords img spec words.0 words.1 words.2 q2 in
      let (entry_word, fields) =
        stub_patch_apply-IsWords alloc blob img spec p h.bytes in_layout q3 in
      let backed =
        Within-IsBacked b c (limit + loads_of blob) p.spec.segments u (sym s.0.1) (sym s.2) s.4.2 in
      let P = λ (t : List ℕ). load t ≡ some (p.spec.entry, map (mapped c) p.spec.segments) in
      let (bytes, closed, loaded) =
        Meets-eq-ok ⊥ (IsClosed f P) (elf_write f c p.spec)
          (elf_write-load f c p.spec backed entry_word fields) e3 in
      let (start, entered, joined) = stub_patch_apply-IsJoined alloc blob img spec p q3 in
      (
        bytes,
        closed,
        record {
          layout = spec;
          laid_out =
              Meets-eq-ok ⊥ (LaidOut img) (layout_to_elf_spec img) (layout_to_elf_spec-Meets img)
                q2;
          patched = p.image;
          only_bytes = s.0;
          bound = s.1;
          kept = λ off n away.
              (Meets-eq-ok ⊥ (λ r. OnlyBytes img r × (slice r.raw off n ≡ slice img.raw off n))
                (patch_dlls blob img.imports img) (patch_dlls-kept blob img off n h.tables away)
                (stub_patch_apply-image alloc blob img spec p q3)).1;
          entry = p.spec.entry;
          starts_in_shim = start;
          shim = p.shim;
          entered = entered;
          loads = loaded ∙ ap (λ t. some (p.spec.entry, t)) (joined c);
        },
      )

  pub convert-LoadsAs : Returns (IsClosed f (LoadsAs blob img)) (convert alloc blob f img)
  convert-LoadsAs =
      Meets-map ⊥ (IsClosed f (IsConversion blob img)) (IsClosed f (LoadsAs blob img))
        (convert alloc blob f img) (convert-Meets alloc blob f img h apart w k u)
        λ file e _. written_loads file e
