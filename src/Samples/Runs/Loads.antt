-- ===== src/Samples/Runs/Loads.antt =====
-- The load of the sample's file, the program on it, and files that break the promises.
use silver_nimbus_otter.Prelude.{
  Any, Ensures, List, Meets, [], ap, arith, refl, some, subst, sym, take, true, ℕ, ◌∙◌, ◌∷◌, ◌≡◌,
}
use silver_nimbus_otter.Samples.{sample}
use silver_nimbus_otter.Samples.Runs.{load_sample, sample-IsByte, one_section}
use silver_nimbus_otter.Host.{roomy}
use silver_nimbus_otter.Bytes.{text}
use silver_nimbus_otter.PeImage.Walk.{Limited, MayStop}
use silver_nimbus_otter.PeReader.Loaded.{count_relocs}
use silver_nimbus_otter.PeImage.Views.{view_of}
use silver_nimbus_otter.PeReader.{InputFile, read_headers, pe_image_load}
use silver_nimbus_otter.PeReader.Load.{IsFile, IsReadable, IsImageOf, pe_image_load-Meets}
use silver_nimbus_otter.PeImports.{parse_imports_dir}
use silver_nimbus_otter.PeImports.Directory.{Parsed}
use silver_nimbus_otter.PeImports.Parses.{ImportsAt, parse_imports_dir-ImportsAt}

abbrev sample_file : InputFile
sample_file = record { can_open = true; can_seek = true; told_size = some 484; contents = sample }

sample_size : {a b : ℕ} → some a ≡ some b → a ≡ b
sample_size e = cc

the_file : (raw : List ℕ) → IsFile sample_file raw → sample ≡ raw
the_file raw (size, told, held, whole) =
    sym (held ∙ ap (λ (n : ℕ). take n sample) (sym (sample_size told)))

sample-Limited : Ensures (λ r. Limited (some 8192) r.0) (read_headers roomy sample)
unfolding load_sample
sample-Limited = ((omega arith, (omega arith, tt)), omega arith)

sample_counted :
    Ensures (λ r. Meets (MayStop (some 8192)) Any (count_relocs 3000 r)) (read_headers roomy sample)
unfolding load_sample
sample_counted = tt

sample-IsReadable : IsReadable (some 8192) roomy 3000 sample_file
sample-IsReadable = record {
  bytes = sample-IsByte;
  small = omega arith;
  limited = λ raw h.
      subst (λ t. Ensures (λ r. Limited (some 8192) r.0) (read_headers roomy t)) (the_file raw h)
        sample-Limited;
  counted = λ raw h.
      subst
        (λ t.
          Ensures (λ r. Meets (MayStop (some 8192)) Any (count_relocs 3000 r))
            (read_headers roomy t))
        (the_file raw h) sample_counted;
}

pe_image_load-Meets_example : Meets ⊥ (IsImageOf sample_file) (pe_image_load roomy 3000 sample_file)
pe_image_load-Meets_example =
    pe_image_load-Meets (some 8192) roomy 3000 sample_file (omega arith) sample-IsReadable

parse_imports_dir-ImportsAt_example :
    Meets ⊥
      (λ img'. Parsed one_section img' × ImportsAt (view_of one_section) 0x1000 img'.imports)
      (parse_imports_dir roomy 3000 one_section 0x1000 40)
parse_imports_dir-ImportsAt_example =
    parse_imports_dir-ImportsAt (some 8192) roomy 3000 (omega arith) one_section 0x1000 40
      sample-IsByte ((omega arith, (omega arith, tt)), omega arith)
      (record { in_array = omega arith; each = tt }) refl (omega arith)

abbrev command : List (List ℕ)
command = text "in.exe" ∷ text "-o" ∷ text "out" ∷ []
