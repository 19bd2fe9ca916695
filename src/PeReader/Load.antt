-- ===== src/PeReader/Load.antt =====
-- `read_whole_file` and `pe_image_load` of src/pe_reader.c: from the file to the image.
use silver_nimbus_otter.Prelude.{
  All, All-take, Any, Ensures, List, Meets, Meets-bind, Meets-map, Meets-reject_if, Option, Returns,
  Returns-Meets, ap, arith, false, length, length-take, ltb, none, not, refl, some, subst, sym,
  take, ℕ, ◌&&◌, ◌==◌, ◌≡◌, ◌≤◌,
}
use silver_nimbus_otter.PeRelocs.Passes.{IsSmall}
use silver_nimbus_otter.Bytes.{IsByte}
use silver_nimbus_otter.Host.{Alloc, at_file}
use silver_nimbus_otter.Diagnostics.{err_open, err_truncated}
use silver_nimbus_otter.PeImage.{Image}
use silver_nimbus_otter.PeImage.Walk.{MayStop, Limited, Fuel}
use silver_nimbus_otter.PeReader.{
  InputFile, read_whole_file, read_headers, parse_image, pe_image_load, or_open,
}
use silver_nimbus_otter.PeReader.Loaded.{IsLoaded, count_relocs}
use silver_nimbus_otter.PeReader.Contents.{IsContents, parse_image-IsContents}

-- The bytes are as many of the file's first ones as its size tells.
abbrev pub IsFile : InputFile → List ℕ → Type 0
IsFile f raw =
    (size : ℕ) × (f.told_size ≡ some size) × (raw ≡ take size f.contents) × (length raw ≡ size)

whole_size : (n size : ℕ) → n ≤ size → (ltb 0 size && not (n == size)) ≡ false → n ≡ size
whole_size n size h k = ground arith

read_whole_file-IsFile :
    (alloc : Alloc) (f : InputFile) → Returns (IsFile f) (read_whole_file alloc f)
unfolding read_whole_file
read_whole_file-IsFile alloc f =
    let P = IsFile f in
    Meets-reject_if ⊥ P (not f.can_open) err_open _ λ _.
      Meets-reject_if ⊥ P (not f.can_seek) err_open _ λ _.
        Meets-bind ⊥ (λ (size : ℕ). f.told_size ≡ some size) P (or_open f.told_size) _
          (told f.told_size refl)
          λ size _ e.
            let buf = take size f.contents in
            Meets-reject_if ⊥ P (not (alloc at_file size)) err_open _ λ _.
              Meets-reject_if ⊥ P (ltb 0 size && not (length buf == size)) err_truncated _ λ whole.
                (
                  size,
                  e,
                  refl,
                  whole_size (length buf) size (omega (arith, length-take size f.contents)) whole,
                )
  where
    told :
        (o : Option ℕ)
        → f.told_size ≡ o
        → Returns (λ (size : ℕ). f.told_size ≡ some size) (or_open o)
    told none e = tt
    told (some size) e = e

-- What the parse of a file needs: its bytes are bytes, less than 2^31 of them, and if its headers are
-- accepted, every mapped address lies below the limit, if there is one, and the count of the
-- relocations does not overflow, and ends if there is a limit.
pub record IsReadable (m : Option ℕ) (alloc : Alloc) (fuel : ℕ) (f : InputFile) : Type 0 where
  pub bytes : All IsByte f.contents
  pub small : IsSmall f.contents
  pub limited :
      (raw : List ℕ) → IsFile f raw → Ensures (λ r. Limited m r.0) (read_headers alloc raw)
  pub counted :
      (raw : List ℕ)
      → IsFile f raw
      → Ensures (λ r. Meets (MayStop m) Any (count_relocs fuel r)) (read_headers alloc raw)

-- The image holds the file, is in order, and has what the file's directories say.
abbrev pub IsImageOf : InputFile → Image → Type 0
IsImageOf f img = IsFile f img.raw × IsLoaded img.raw img × IsContents img.raw img

-- Loading a file of less than 2^31 bytes, whose headers, if they are accepted, map no address from
-- the limit on, and in which the pass that counts the relocations does not overflow and ends if there
-- is a limit, reads only inside the file and writes only inside the image's arrays. An image that is
-- loaded holds the whole file, is in order, and has the fields and the sections that stand in the
-- file's headers, and the imports and relocations that stand where its directories say. With a limit
-- the load returns; without, so many rounds may run out.
pub pe_image_load-Meets :
    (m : Option ℕ) (alloc : Alloc) (fuel : ℕ) (f : InputFile)
    → Fuel m fuel
    → IsReadable m alloc fuel f
    → Meets (MayStop m) (IsImageOf f) (pe_image_load alloc fuel f)
unfolding pe_image_load
pe_image_load-Meets m alloc fuel f enough h =
    let S = MayStop m in
    Meets-bind S (IsFile f) (IsImageOf f) (read_whole_file alloc f) _
      (Returns-Meets S (IsFile f) (read_whole_file alloc f) (read_whole_file-IsFile alloc f))
      λ raw _ is_file.
        let bytes : All IsByte raw = rw is_file.2 (All-take IsByte is_file.0 f.contents h.bytes) in
        let small : IsSmall raw =
          omega (arith, h.small, ap length is_file.2, length-take is_file.0 f.contents) in
        Meets-map S (λ img. IsLoaded raw img × IsContents raw img) (IsImageOf f)
          (parse_image alloc fuel raw)
          (parse_image-IsContents m alloc fuel enough raw bytes small (h.limited raw is_file)
            (h.counted raw is_file))
          λ img _ k.
            let P = λ (r : List ℕ). IsFile f r × IsLoaded r img × IsContents r img in
            subst P (sym k.0.raw_kept) (is_file, k.0, k.1)
