-- ===== src/Convert/Ends.antt =====
-- How the program ends after a load.
use silver_nimbus_otter.Convert.{pe_dump, write_out, bad_usage}
use silver_nimbus_otter.Prelude.{
  All, List, Meets-if, Meets-map, Option, Returns, false, fault, length, none, ok, refl, rejected,
  some, stuck, sym, true, ℕ, ◌+◌, ◌∙◌, ◌≡◌, ◌≢◌, ◌≤◌,
}
use silver_nimbus_otter.ElfWriter.Output.{IsClosed}
use silver_nimbus_otter.Dump.{pe_dump}
use silver_nimbus_otter.Bytes.{u32_mod}
use silver_nimbus_otter.StubPatch.Apply.{loads_of}
use silver_nimbus_otter.PeReader.Sections.{InFile, IsWordImage}
use silver_nimbus_otter.StubPatch.Slots.{all_imports, SlotsApart}
use silver_nimbus_otter.StubPatch.Blob.{IsShim}
use silver_nimbus_otter.Convert.Whole.{image_span}
use silver_nimbus_otter.Convert.Loading.{LoadsAs, convert-LoadsAs}
use silver_nimbus_otter.ElfWriter.{OutputFile}
use silver_nimbus_otter.ElfSpec.{Convert}
use silver_nimbus_otter.Host.{Alloc}
use silver_nimbus_otter.PeImage.{Image}
use silver_nimbus_otter.Convert.{
  convert, report, OutputFile, Exit, Convert, Options, Alloc, finish, Image, dumped, converted,
  load_failed, convert_failed,
}

-- The file of a path that the options name is what closing it leaves of bytes that load as the image.
abbrev pub IsOutput : (List ℕ → OutputFile) → List ℕ → Image → Options → List ℕ → Type 0
IsOutput outputs blob img opts file =
    (path : List ℕ) × (opts.output ≡ some path) × IsClosed (outputs path) (LoadsAs blob img) file

-- What an end of the program says of the image and the options.
abbrev pub IsEnd : (List ℕ → OutputFile) → List ℕ → Image → Options → Exit → Type 0
IsEnd outputs blob img opts (dumped shown) = (opts.dump_mode ≡ true) × (shown ≡ pe_dump img)
IsEnd outputs blob img opts (converted file) =
    (opts.dump_mode ≡ false) × IsOutput outputs blob img opts file
IsEnd outputs blob img opts (load_failed reason) = ⊥
IsEnd outputs blob img opts (convert_failed e) = (opts.dump_mode ≡ false) × (opts.output ≢ none)
IsEnd outputs blob img opts bad_usage = (opts.dump_mode ≡ false) × (opts.output ≡ none)

none≢some : {A : Type 0} {a : A} → none ≡ some a → ⊥
none≢some e = cc

report-Meets :
    (outputs : List ℕ → OutputFile) (blob : List ℕ) (img : Image) (opts : Options)
    (m : Convert (List ℕ))
    → opts.dump_mode ≡ false
    → opts.output ≢ none
    → Returns (IsOutput outputs blob img opts) m
    → Returns (IsEnd outputs blob img opts) (report convert_failed (λ file. ok (converted file)) m)
report-Meets outputs blob img opts (ok file) d o h = (d, h)
report-Meets outputs blob img opts (rejected e) d o h = (d, o)
report-Meets outputs blob img opts fault d o h = h
report-Meets outputs blob img opts stuck d o h = h

write_out-Meets :
    (alloc : Alloc) (blob : List ℕ) (outputs : List ℕ → OutputFile) (opts : Options) (img : Image)
    (o : Option (List ℕ))
    → opts.output ≡ o
    → opts.dump_mode ≡ false
    → IsShim blob
    → SlotsApart img (all_imports img.imports)
    → All (InFile img.raw) img.sections
    → img.size_of_headers ≤ length img.raw
    → image_span img + loads_of blob ≤ u32_mod
    → IsWordImage img
    → Returns (IsEnd outputs blob img opts) (write_out alloc blob outputs img o)
unfolding write_out
write_out-Meets alloc blob outputs opts img none e d h apart w k u n = (d, e)
write_out-Meets alloc blob outputs opts img (some path) e d h apart w k u n =
    report-Meets outputs blob img opts (convert alloc blob (outputs path) img) d
      (λ gone. absurd (none≢some (sym gone ∙ e)))
      (Meets-map ⊥ (IsClosed (outputs path) (LoadsAs blob img)) (IsOutput outputs blob img opts)
        (convert alloc blob (outputs path) img)
        (convert-LoadsAs alloc blob (outputs path) img h apart w k u n) λ file _ c. (path, e, c))

-- After the load of an image whose sections and headers lie in the file, whose import slots do not
-- overlap, whose sizes fit and whose numbers have 32 bits, with a blob as the build promises, the
-- program ends without undefined behaviour: with `--dump` it prints the lines of the image and
-- writes no file; else without an output path it reports wrong usage; else it reports an error, or
-- has written bytes to the file of that path that load as the image, bound to the shim, and the shim
-- with the program's entry behind it, and the file is what closing it left of them.
pub finish-Meets :
    (alloc : Alloc) (blob : List ℕ) (outputs : List ℕ → OutputFile) (opts : Options) (img : Image)
    → IsShim blob
    → SlotsApart img (all_imports img.imports)
    → All (InFile img.raw) img.sections
    → img.size_of_headers ≤ length img.raw
    → image_span img + loads_of blob ≤ u32_mod
    → IsWordImage img
    → Returns (IsEnd outputs blob img opts) (finish alloc blob outputs opts img)
unfolding finish
finish-Meets alloc blob outputs opts img h apart w k u n =
    Meets-if ⊥ (IsEnd outputs blob img opts) opts.dump_mode _ _ (λ d. (d, refl))
      (λ d. write_out-Meets alloc blob outputs opts img opts.output refl d h apart w k u n)
