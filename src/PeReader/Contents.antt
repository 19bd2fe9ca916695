-- ===== src/PeReader/Contents.antt =====
-- `pe_image_load` of src/pe_reader.c: what a loaded image holds, and what its file says.
use silver_nimbus_otter.Prelude.{
  All, Any, Bool, Ensures, List, Meets, Meets-eq-ok, Meets-map, Option, Returns-Meets, [], ap,
  arith, bind-eq-ok, length, ok, refl, subst, sym, ℕ, ◌∙◌, ◌≡◌,
}
use silver_nimbus_otter.PeReader.Told.{
  headers-FieldsAt, find_directory-directory_at, headers-IsProgramFile,
}
use silver_nimbus_otter.PeRelocs.Passes.{IsSmall}
use silver_nimbus_otter.PeReader.Fields.{FieldsAt, directory_at, IsProgramFile}
use silver_nimbus_otter.PeTls.Callbacks.{parse_tls_dir-Meets, TlsParsed}
use silver_nimbus_otter.PeRelocs.Directory.{count_pass-imports, OnlyRelocs}
use silver_nimbus_otter.PeImports.Directory.{Parsed}
use silver_nimbus_otter.PeRelocs.{parse_relocs_dir}
use silver_nimbus_otter.PeImports.{parse_imports_dir}
use silver_nimbus_otter.PeReader.Loaded.{parse_image-Meets, IsLoaded, count_relocs}
use silver_nimbus_otter.PeRelocs.Collected.{parse_relocs_dir-RelocsAt, RelocsAt}
use silver_nimbus_otter.PeImports.Parses.{parse_imports_dir-ImportsAt, ImportsAt}
use silver_nimbus_otter.Bytes.{IsByte}
use silver_nimbus_otter.PeReader.Sections.{read_headers-Meets, IsHeaders}
use silver_nimbus_otter.PeReader.{
  parse_relocs_dir, read_headers, parse_imports_dir, parse_image, initial_image, parse_directories,
  find_directory,
}
use silver_nimbus_otter.PeImage.Walk.{MayStop, Limited, Fuel}
use silver_nimbus_otter.PeFormat.{dir_tls, dir_basereloc, dir_import, OptionalHeader}
use silver_nimbus_otter.PeImage.Views.{view_of-imports, View, view_of}
use silver_nimbus_otter.PeImage.{ImportDll, pe_rva_to_ptr, Image}
use silver_nimbus_otter.Host.{Alloc}

-- The imports and the relocations are those that the file's second and sixth directories say.
abbrev pub HoldsDirectories : List ℕ → Image → Type 0
HoldsDirectories raw img =
    ImportsAt (view_of img) (directory_at raw 1).0 img.imports
    × RelocsAt (view_of img) (directory_at raw 5).0 (directory_at raw 5).1 img.relocs

-- The file is a program, and the image has the fields, the sections, the imports and the relocations
-- that stand in it.
abbrev pub IsContents : List ℕ → Image → Type 0
IsContents raw img = IsProgramFile raw × FieldsAt raw img × HoldsDirectories raw img

view_of-relocs :
    (img : Image) (relocs : List ℕ) → view_of (record img { relocs = relocs }) ≡ view_of img
unfolding view_of pe_rva_to_ptr
view_of-relocs img relocs = refl

view_of-tls :
    (img : Image) (a b : Bool) (calls : List ℕ)
    → view_of (record img { has_tls = a; tls_has_callbacks = b; tls_callback_rvas = calls })
      ≡ view_of img
unfolding view_of pe_rva_to_ptr
view_of-tls img a b calls = refl

same_imports :
    {a b : View} {x y : List ImportDll} {rva rva' : ℕ}
    → a ≡ b
    → x ≡ y
    → rva ≡ rva'
    → ImportsAt a rva x
    → ImportsAt b rva' y
same_imports {a} {b} {x} {y} {rva} {rva'} p q e h =
    subst (λ v. ImportsAt v rva' y) p
      (subst (ImportsAt a rva') q (subst (λ (t : ℕ). ImportsAt a t x) e h))

same_relocs :
    {a b : View} {x y : List ℕ} {rva rva' size size' : ℕ}
    → a ≡ b
    → x ≡ y
    → rva ≡ rva'
    → size ≡ size'
    → RelocsAt a rva size x
    → RelocsAt b rva' size' y
same_relocs {a} {b} {x} {y} {rva} {rva'} {size} {size'} p q e f h =
    subst (λ v. RelocsAt v rva' size' y) p
      (subst (RelocsAt a rva' size') q
        (subst (λ (t : ℕ). RelocsAt a rva' t x) f (subst (λ (t : ℕ). RelocsAt a t size x) e h)))

module _ (m : Option ℕ) (alloc : Alloc) (fuel : ℕ) (enough : Fuel m fuel) where
  directories-says :
      (raw : List ℕ) (img last : Image) (opt : OptionalHeader)
      → All IsByte raw
      → IsSmall raw
      → IsHeaders raw (img, opt)
      → Limited m img
      → Meets (MayStop m) Any (count_relocs fuel (img, opt))
      → parse_directories alloc fuel img opt ≡ ok last
      → FieldsAt raw last × HoldsDirectories raw last
  unfolding parse_directories initial_image
  directories-says raw img last opt bytes small h limited counted e =
      let S = MayStop m in
      let imports = find_directory opt dir_import in
      let relocs = find_directory opt dir_basereloc in
      let tls = find_directory opt dir_tls in
      let same : img.raw ≡ raw = ap (λ (r : Image). r.raw) h.image in
      let none_yet : img.imports ≡ [] = ap (λ (r : Image). r.imports) h.image in
      let cap : img.imports_cap ≡ 0 = ap (λ (r : Image). r.imports_cap) h.image in
      let no_calls : img.tls_callback_rvas ≡ [] = ap (λ (r : Image). r.tls_callback_rvas) h.image in
      let no_relocs : img.relocs ≡ [] = ap (λ (r : Image). r.relocs) h.image in
      let (a, e1, h1) =
        bind-eq-ok (parse_imports_dir alloc fuel img imports.virtual_address imports.size) _ e in
      let (b, e2, h2) =
        bind-eq-ok (parse_relocs_dir alloc fuel a relocs.virtual_address relocs.size) _ h1 in
      let (parsed, imports_at) =
        Meets-eq-ok S
          (λ r. Parsed img r × ImportsAt (view_of img) imports.virtual_address r.imports) _
          (parse_imports_dir-ImportsAt m alloc fuel enough img imports.virtual_address imports.size
            (rw same bytes) limited
            (record { in_array = rw (none_yet, cap) (omega arith); each = rw none_yet tt }) none_yet
            (h.words dir_import bytes))
          e1 in
      let (only_relocs, relocs_at) =
        Meets-eq-ok S
          (λ r. OnlyRelocs a r × RelocsAt (view_of a) relocs.virtual_address relocs.size r.relocs) _
          (parse_relocs_dir-RelocsAt S alloc fuel a relocs.virtual_address relocs.size
            (ap (λ (r : Image). r.relocs) parsed.1 ∙ no_relocs)
            (rw (ap (λ (r : Image). r.raw) parsed.1 ∙ same) small)
            (rw (count_pass-imports fuel img a relocs.virtual_address relocs.size parsed.1)
              counted))
          e2 in
      let t =
        Meets-eq-ok ⊥ (TlsParsed b) _
          (parse_tls_dir-Meets b tls.virtual_address tls.size (
            ap length (
              ap (λ (r : Image). r.tls_callback_rvas) only_relocs
              ∙ ap (λ (r : Image). r.tls_callback_rvas) parsed.1
              ∙ no_calls)))
          h2 in
      let view_a : view_of a ≡ view_of img = ap view_of parsed.1 ∙ view_of-imports img _ _ in
      let view_last : view_of last ≡ view_of a =
        ap view_of t.1 ∙ view_of-tls b _ _ _ ∙ ap view_of only_relocs ∙ view_of-relocs a _ in
      let dlls : last.imports ≡ a.imports =
        ap (λ (r : Image). r.imports) t.1 ∙ ap (λ (r : Image). r.imports) only_relocs in
      let listed : last.relocs ≡ b.relocs = ap (λ (r : Image). r.relocs) t.1 in
      let (imports_rva, _) = find_directory-directory_at raw (img, opt) 1 h in
      let (relocs_rva, relocs_size) = find_directory-directory_at raw (img, opt) 5 h in
      let F = FieldsAt raw in
      let fields_a : F a = subst F (sym parsed.1) (headers-FieldsAt raw (img, opt) h) in
      let fields_b : F b = subst F (sym only_relocs) fields_a in
      (
        subst F (sym t.1) fields_b,
        (
          same_imports (sym (view_last ∙ view_a)) (sym dlls) imports_rva imports_at,
          same_relocs (sym view_last) (sym listed) relocs_rva relocs_size relocs_at,
        ),
      )

  contents :
      (raw : List ℕ) (last : Image)
      → All IsByte raw
      → IsSmall raw
      → Ensures (λ r. Limited m r.0) (read_headers alloc raw)
      → Ensures (λ r. Meets (MayStop m) Any (count_relocs fuel r)) (read_headers alloc raw)
      → parse_image alloc fuel raw ≡ ok last
      → IsContents raw last
  unfolding parse_image
  contents raw last bytes small limited counted e =
      let (r, e1, h1) = bind-eq-ok (read_headers alloc raw) _ e in
      let headers =
        Meets-eq-ok (MayStop m) (IsHeaders raw) (read_headers alloc raw)
          (Returns-Meets (MayStop m) (IsHeaders raw) (read_headers alloc raw)
            (read_headers-Meets alloc raw))
          e1 in
      let below = Meets-eq-ok Unit (λ q. Limited m q.0) (read_headers alloc raw) limited e1 in
      let count =
        Meets-eq-ok Unit (λ q. Meets (MayStop m) Any (count_relocs fuel q)) (read_headers alloc raw)
          counted e1 in
      (
        headers-IsProgramFile raw r headers,
        (directories-says raw r.0 last r.1 bytes small headers below count h1).0,
        (directories-says raw r.0 last r.1 bytes small headers below count h1).1,
      )

  -- The parse of any file of less than two gigabytes of bytes reads only inside the file and writes
  -- only inside its arrays, provided that the count of the relocations does not overflow. What it
  -- accepts is in order, and its fields, sections, imports and relocations are those that stand in
  -- the file. Without a limit, so many rounds of fuel may run out; with one, the parse returns.
  pub parse_image-IsContents :
      (raw : List ℕ)
      → All IsByte raw
      → IsSmall raw
      → Ensures (λ r. Limited m r.0) (read_headers alloc raw)
      → Ensures (λ r. Meets (MayStop m) Any (count_relocs fuel r)) (read_headers alloc raw)
      → Meets
          (MayStop m)
          (λ img. IsLoaded raw img × IsContents raw img)
          (parse_image alloc fuel raw)
  parse_image-IsContents raw bytes small limited counted =
      Meets-map (MayStop m) (IsLoaded raw) (λ img. IsLoaded raw img × IsContents raw img)
        (parse_image alloc fuel raw)
        (parse_image-Meets m alloc fuel enough raw bytes small limited counted)
        λ img e loaded. (loaded, contents raw img bytes small limited counted e)
