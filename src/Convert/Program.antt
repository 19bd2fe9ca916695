-- ===== src/Convert/Program.antt =====
-- src/main.c as a whole, from the arguments to the exit status.
use silver_nimbus_otter.Prelude.{List, Option, length, none, rejected, some, ℕ, ◌+◌, ◌≡◌, ◌≤◌, ◌⊎◌}
use silver_nimbus_otter.Bytes.{u32_mod}
use silver_nimbus_otter.Host.{Alloc}
use silver_nimbus_otter.Diagnostics.{RejectReason}
use silver_nimbus_otter.PeImage.{Image}
use silver_nimbus_otter.PeReader.{InputFile, pe_image_load}
use silver_nimbus_otter.PeReader.Load.{IsImageOf}
use silver_nimbus_otter.StubPatch.Apply.{loads_of}
use silver_nimbus_otter.StubPatch.Slots.{all_imports, SlotsApart}
use silver_nimbus_otter.ElfWriter.{OutputFile}
use silver_nimbus_otter.Convert.{no_options, Exit, Options, load_failed, bad_usage}
use silver_nimbus_otter.Convert.Arguments.{Reads}
use silver_nimbus_otter.Convert.Ends.{IsEnd}
use silver_nimbus_otter.Convert.Whole.{image_span}

-- No two import slots overlap, the headers lie in the file, and the sizes fit in 2^32 bytes.
abbrev pub IsConvertible : List ℕ → Image → Type 0
IsConvertible blob img =
    SlotsApart img (all_imports img.imports)
    × (img.size_of_headers ≤ length img.raw)
    × (image_span img + loads_of blob ≤ u32_mod)

module _ (alloc : Alloc) (fuel : ℕ) (blob : List ℕ) (inputs : List ℕ → InputFile)
    (outputs : List ℕ → OutputFile) where
  -- The load of a path's file is refused for the reason, or the program ends as it does with the
  -- image that was loaded.
  abbrev pub EndsWith : Options → List ℕ → Exit → Type 0
  EndsWith opts path exit =
      ((reason : RejectReason) × (exit ≡ load_failed reason)
        × (pe_image_load alloc fuel (inputs path) ≡ rejected reason))
      ⊎ ((img : Image) × IsImageOf (inputs path) img × IsEnd outputs blob img opts exit)

  -- Options without an input are wrong usage.
  abbrev pub EndsFor : Options → Option (List ℕ) → Exit → Type 0
  EndsFor opts none exit = exit ≡ bad_usage
  EndsFor opts (some path) exit = EndsWith opts path exit

  -- Arguments that do not read as a command line are wrong usage.
  abbrev pub IsProgramEnd : List (List ℕ) → Exit → Type 0
  IsProgramEnd args exit =
      (((opts : Options) → Reads args no_options opts → ⊥) × (exit ≡ bad_usage))
      ⊎ ((opts : Options) × Reads args no_options opts × EndsFor opts opts.input exit)
