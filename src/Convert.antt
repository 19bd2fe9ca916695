-- ===== src/Convert.antt =====
-- src/main.c: the command line, and the stages of a conversion in their order.
-- The files belong to the system: `inputs` and `outputs` say of each path what opening it gives.
pub mod Whole
pub mod Ends
pub mod Arguments
pub mod Overrun
pub mod Program
pub mod Loading
use silver_nimbus_otter.Prelude.{
  Bool, List, Option, Outcome, [], false, fault, if◌then◌else◌, length, none, not, ok, reject_if,
  rejected, some, stuck, true, ℕ, ◌∷◌, ◌>>=◌, ◌>>◌,
}
use silver_nimbus_otter.ElfSpec.{no_memory, Convert, ConvertError}
use silver_nimbus_otter.StubPatch.{stub_patch_apply}
use silver_nimbus_otter.ElfWriter.{elf_write, OutputFile}
use silver_nimbus_otter.Diagnostics.{RejectReason}
use silver_nimbus_otter.ShimAbi.{str_eq}
use silver_nimbus_otter.PeReader.{InputFile, pe_image_load}
use silver_nimbus_otter.PeImage.{Image}
use silver_nimbus_otter.Layout.{layout_to_elf_spec}
use silver_nimbus_otter.Host.{at_image_copy, Alloc}
use silver_nimbus_otter.Bytes.{text}
use silver_nimbus_otter.Dump.{Line, pe_dump}

-- What the arguments ask for. A C string is its bytes up to the NUL.
pub record Options : Type 0 where
  pub dump_mode : Bool
  pub input : Option (List ℕ)
  pub output : Option (List ℕ)

abbrev pub no_options : Options
no_options = record { dump_mode = false; input = none; output = none }

-- An argument that is no flag: the first is the input, a second one is too many.
abbrev pub set_input : List ℕ → Options → Option Options
set_input arg opts = elim opts.input [
  | none ↦ some (record opts { input = some arg })
  | some path ↦ none
]

-- The loop over `argv` from index 1 on; none is a usage error.
unfoldable pub options_loop : List (List ℕ) → Options → Option Options
unfolding str_eq
options_loop [] opts = some opts
options_loop (arg ∷ []) opts =
    if str_eq arg (text "--dump")
    then some (record opts { dump_mode = true })
    else if str_eq arg (text "-o")
    then none
    else set_input arg opts
options_loop (arg ∷ next ∷ rest) opts =
    let with_dump = options_loop (next ∷ rest) (record opts { dump_mode = true }) in
    let with_output = options_loop rest (record opts { output = some next }) in
    if str_eq arg (text "--dump")
    then with_dump
    else if str_eq arg (text "-o")
    then with_output
    else elim (set_input arg opts) [ none ↦ none | some opts' ↦ options_loop (next ∷ rest) opts' ]

-- A private copy of the file's bytes, the layout, the shim, and the file: what is written.
unfoldable pub convert : Alloc → List ℕ → OutputFile → Image → Convert (List ℕ)
unfolding layout_to_elf_spec stub_patch_apply elf_write
convert alloc blob f img = do
  reject_if (not (alloc at_image_copy (length img.raw))) no_memory
  spec ← layout_to_elf_spec img
  patched ← stub_patch_apply alloc blob img spec
  elf_write f (record { raw = patched.image.raw; shim = patched.shim }) patched.spec

-- How the program ends: its exit status is 0 for the first two, 1 for an error that was reported, and
-- 2 for wrong arguments.
pub data Exit : Type 0 where
  dumped : List Line → Exit
  converted : List ℕ → Exit
  load_failed : RejectReason → Exit
  convert_failed : ConvertError → Exit
  bad_usage : Exit

abbrev pub status : Exit → ℕ
status (dumped lines) = 0
status (converted file) = 0
status (load_failed reason) = 1
status (convert_failed e) = 1
status bad_usage = 2

-- An error of a stage becomes the end of the program.
abbrev pub report :
    {E A : Type 0} → (E → Exit) → (A → Outcome ⊥ Exit) → Outcome E A → Outcome ⊥ Exit
report failed next (ok a) = next a
report failed next (rejected e) = ok (failed e)
report failed next fault = fault
report failed next stuck = stuck

-- Without `-o` there is nowhere to write to.
unfoldable pub write_out :
    Alloc → List ℕ → (List ℕ → OutputFile) → Image → Option (List ℕ) → Outcome ⊥ Exit
unfolding convert
write_out alloc blob outputs img none = ok bad_usage
write_out alloc blob outputs img (some path) =
    report convert_failed (λ file. ok (converted file)) (convert alloc blob (outputs path) img)

-- After the load.
unfoldable pub finish : Alloc → List ℕ → (List ℕ → OutputFile) → Options → Image → Outcome ⊥ Exit
unfolding write_out pe_dump
finish alloc blob outputs opts img =
    if opts.dump_mode
    then ok (dumped (pe_dump img))
    else write_out alloc blob outputs img opts.output

unfoldable pub run_options :
    Alloc → ℕ → List ℕ → (List ℕ → InputFile) → (List ℕ → OutputFile) → Options → Outcome ⊥ Exit
unfolding finish pe_image_load
run_options alloc fuel blob inputs outputs opts = elim opts.input [
  | none ↦ ok bad_usage
  | some path ↦
      report load_failed (finish alloc blob outputs opts) (pe_image_load alloc fuel (inputs path))
]

abbrev pub run_parsed :
    Alloc
    → ℕ
    → List ℕ
    → (List ℕ → InputFile)
    → (List ℕ → OutputFile)
    → Option Options
    → Outcome ⊥ Exit
run_parsed alloc fuel blob inputs outputs none = ok bad_usage
run_parsed alloc fuel blob inputs outputs (some opts) =
    run_options alloc fuel blob inputs outputs opts

-- `args` are the arguments behind the program's name; without any, the source returns at once.
unfoldable pub main :
    Alloc
    → ℕ
    → List ℕ
    → (List ℕ → InputFile)
    → (List ℕ → OutputFile)
    → List (List ℕ)
    → Outcome ⊥ Exit
unfolding options_loop run_options
main alloc fuel blob inputs outputs [] = ok bad_usage
main alloc fuel blob inputs outputs (arg ∷ args) =
    run_parsed alloc fuel blob inputs outputs (options_loop (arg ∷ args) no_options)
