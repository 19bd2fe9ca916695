-- ===== src/PeReader/Loaded.antt =====
-- The parse as a whole.
use silver_nimbus_otter.Prelude.{
  All, Any, Ensures, List, Meets, Meets-bind, Meets-eq-ok, Meets-map, Option, Returns-Meets, [], ap,
  arith, length, ℕ, ◌∙◌, ◌≡◌, ◌≢◌, ◌≤◌,
}
use silver_nimbus_otter.PeRelocs.Passes.{IsSmall}
use silver_nimbus_otter.PeRelocs.{parse_relocs_dir}
use silver_nimbus_otter.PeImports.{parse_imports_dir}
use silver_nimbus_otter.Diagnostics.{Parse}
use silver_nimbus_otter.PeTls.{parse_tls_dir, max_tls_callbacks}
use silver_nimbus_otter.PeReader.{
  read_headers, parse_image, parse_tls_dir, parse_relocs_dir, parse_imports_dir, find_directory,
  initial_image, Parse, parse_directories,
}
use silver_nimbus_otter.PeFormat.{dir_tls, dir_import, dir_basereloc, OptionalHeader}
use silver_nimbus_otter.PeImage.{Image}
use silver_nimbus_otter.Host.{Alloc}
use silver_nimbus_otter.Bytes.{IsByte}
use silver_nimbus_otter.PeImage.Walk.{Fuel, Limited, MayStop}
use silver_nimbus_otter.PeImports.Directory.{Parsed, IsImports, parse_imports_dir-Meets}
use silver_nimbus_otter.PeRelocs.Directory.{
  count_pass-imports, OnlyRelocs, count_pass, parse_relocs_dir-Meets,
}
use silver_nimbus_otter.PeTls.Callbacks.{TlsParsed, parse_tls_dir-Meets}
use silver_nimbus_otter.PeReader.Sections.{IsWordImage, InFile, IsHeaders, read_headers-Meets}

-- A loaded image keeps the file, its sections lie in it, its numbers have 32 bits, and its
-- arrays are in order.
pub record IsLoaded (raw : List ℕ) (img : Image) : Type 0 where
  pub raw_kept : img.raw ≡ raw
  pub in_file : All (InFile raw) img.sections
  pub based : img.image_base ≢ 0
  pub numbers : IsWordImage img
  pub imports : IsImports img
  pub callbacks : length img.tls_callback_rvas ≤ max_tls_callbacks

-- The count of the relocations in an image that the headers gave.
abbrev pub count_relocs : ℕ → Image × OptionalHeader → Parse ℕ
count_relocs fuel r =
    let dir = find_directory r.1 dir_basereloc in count_pass fuel r.0 dir.virtual_address dir.size

IsImports-same :
    (a b : Image)
    → b.imports_cap ≡ a.imports_cap
    → b.imports ≡ a.imports
    → IsImports a
    → IsImports b
IsImports-same a b p q h = record { in_array = rw (p, q) h.in_array; each = rw q h.each }

module _ (m : Option ℕ) (alloc : Alloc) (fuel : ℕ) (enough : Fuel m fuel) where
  parse_directories-Meets :
      (raw : List ℕ) (img : Image) (opt : OptionalHeader)
      → All IsByte raw
      → IsSmall raw
      → IsHeaders raw (img, opt)
      → Limited m img
      → Meets (MayStop m) Any (count_relocs fuel (img, opt))
      → Meets (MayStop m) (IsLoaded raw) (parse_directories alloc fuel img opt)
  unfolding parse_directories initial_image
  parse_directories-Meets raw img opt bytes small h limited counted =
      let S = MayStop m in
      let raw_of = λ (r : Image). r.raw in
      let secs = λ (r : Image). r.sections in
      let base_of = λ (r : Image). r.image_base in
      let sizes = λ (r : Image). r.size_of_headers in
      let words : IsWordImage img = h.numbers bytes in
      let calls = λ (r : Image). r.tls_callback_rvas in
      let dlls = λ (r : Image). r.imports in
      let caps = λ (r : Image). r.imports_cap in
      let P = IsLoaded raw in
      let imports = find_directory opt dir_import in
      let relocs = find_directory opt dir_basereloc in
      let tls = find_directory opt dir_tls in
      let same : img.raw ≡ raw = ap (λ (r : Image). r.raw) h.image in
      let none_yet : img.imports ≡ [] = ap (λ (r : Image). r.imports) h.image in
      let cap : img.imports_cap ≡ 0 = ap (λ (r : Image). r.imports_cap) h.image in
      let no_calls : img.tls_callback_rvas ≡ [] = ap (λ (r : Image). r.tls_callback_rvas) h.image in
      let base : img.image_base ≡ opt.image_base = ap (λ (r : Image). r.image_base) h.image in
      Meets-bind S (Parsed img) P
        (parse_imports_dir alloc fuel img imports.virtual_address imports.size) _
        (parse_imports_dir-Meets m alloc fuel enough img imports.virtual_address imports.size
          (rw same bytes) limited
          (record { in_array = rw (none_yet, cap) (omega arith); each = rw none_yet tt })
          (ap length none_yet) (h.words dir_import bytes))
        λ img' _ k.
          Meets-bind S (OnlyRelocs img') P
            (parse_relocs_dir alloc fuel img' relocs.virtual_address relocs.size) _
            (parse_relocs_dir-Meets S alloc fuel img' relocs.virtual_address relocs.size
              (rw (ap raw_of k.1 ∙ same) small)
              (rw (count_pass-imports fuel img img' relocs.virtual_address relocs.size k.1)
                counted))
            λ img'' _ e.
              Meets-map S (TlsParsed img'') P (parse_tls_dir img'' tls.virtual_address tls.size)
                (Returns-Meets S (TlsParsed img'')
                  (parse_tls_dir img'' tls.virtual_address tls.size)
                  (parse_tls_dir-Meets img'' tls.virtual_address tls.size
                    (ap length (ap calls e ∙ ap calls k.1 ∙ no_calls))))
                λ last _ t. record {
                  raw_kept = ap raw_of t.1 ∙ ap raw_of e ∙ ap raw_of k.1 ∙ same;
                  in_file = rw (ap secs t.1 ∙ ap secs e ∙ ap secs k.1) h.in_file;
                  based =
                      rw (ap base_of t.1 ∙ ap base_of e ∙ ap base_of k.1 ∙ base) h.supported.based;
                  numbers = (
                    rw (ap base_of t.1 ∙ ap base_of e ∙ ap base_of k.1) words.0,
                    rw (ap sizes t.1 ∙ ap sizes e ∙ ap sizes k.1) words.1,
                    rw (ap secs t.1 ∙ ap secs e ∙ ap secs k.1) words.2,
                  );
                  imports =
                      IsImports-same img' last (ap caps t.1 ∙ ap caps e) (ap dlls t.1 ∙ ap dlls e)
                        k.0;
                  callbacks = t.0;
                }

  -- The parse of any file of less than two gigabytes of bytes reads only inside the file and writes
  -- only inside its arrays, and what it accepts is in order, provided that the count of the
  -- relocations does not overflow. Without a limit, so many rounds of fuel may run out; with one,
  -- the parse returns.
  pub parse_image-Meets :
      (raw : List ℕ)
      → All IsByte raw
      → IsSmall raw
      → Ensures (λ r. Limited m r.0) (read_headers alloc raw)
      → Ensures (λ r. Meets (MayStop m) Any (count_relocs fuel r)) (read_headers alloc raw)
      → Meets (MayStop m) (IsLoaded raw) (parse_image alloc fuel raw)
  unfolding parse_image
  parse_image-Meets raw bytes small limited counted =
      Meets-bind (MayStop m) (IsHeaders raw) (IsLoaded raw) (read_headers alloc raw) _
        (Returns-Meets (MayStop m) (IsHeaders raw) (read_headers alloc raw)
          (read_headers-Meets alloc raw))
        λ r e h.
          parse_directories-Meets raw r.0 r.1 bytes small h
            (Meets-eq-ok Unit (λ q. Limited m q.0) (read_headers alloc raw) limited e)
            (Meets-eq-ok Unit (λ q. Meets (MayStop m) Any (count_relocs fuel q))
              (read_headers alloc raw) counted e)
