-- ===== src/PeImage.antt =====
-- include/pe_image.h and `pe_rva_to_ptr` of src/pe_reader.c: the parsed image, and the translation
-- of a relative virtual address to a place in the file.
pub mod Mapping
pub mod Access
pub mod Walk
pub mod Views
pub mod Free
use silver_nimbus_otter.Prelude.{
  Bool, List, Option, [], if◌then◌else◌, leb, length, ltb, none, some, ℕ, ◌&&◌, ◌+◌, ◌-◌, ◌∷◌,
}

-- `name` keeps the eight bytes of the header; the ninth of the C array is always NUL.
pub record Section : Type 0 where
  pub name : List ℕ
  pub rva : ℕ
  pub vsize : ℕ
  pub file_off : ℕ
  pub fsize : ℕ
  pub characteristics : ℕ

-- A C string is its bytes up to the NUL.
pub record ImportFunc : Type 0 where
  pub name : List ℕ
  pub ordinal : ℕ
  pub by_ordinal : Bool
  pub iat_rva : ℕ

-- `n_funcs` is the length of `funcs`, and `funcs_cap` the length of its array.
pub record ImportDll : Type 0 where
  pub dll_name : List ℕ
  pub funcs_cap : ℕ
  pub funcs : List ImportFunc

pub record Image : Type 0 where
  pub image_base : ℕ
  pub entry_point_rva : ℕ
  pub size_of_image : ℕ
  pub size_of_headers : ℕ
  pub subsystem : ℕ
  pub section_alignment : ℕ
  pub file_alignment : ℕ
  pub sections : List Section
  pub imports_cap : ℕ
  pub imports : List ImportDll
  pub relocs : List ℕ
  pub has_tls : Bool
  pub tls_has_callbacks : Bool
  pub tls_callback_rvas : List ℕ
  pub raw : List ℕ

-- The section covers the `min_len` bytes from `rva` on.
unfoldable pub covers : Section → ℕ → ℕ → Bool
covers s rva min_len = leb s.rva rva && leb (rva + min_len) (s.rva + s.vsize)

-- The first section that covers the range decides, also if its file data are too short.
unfoldable pub section_ptr : List Section → ℕ → ℕ → ℕ → Option ℕ
unfolding covers
section_ptr [] raw_size rva min_len = none
section_ptr (s ∷ rest) raw_size rva min_len =
    let within = rva - s.rva in
    let next = section_ptr rest raw_size rva min_len in
    if covers s rva min_len
    then (if leb s.fsize within
        then none
        else if ltb s.fsize (within + min_len)
        then none
        else if ltb raw_size (s.file_off + within + min_len)
        then none
        else some (s.file_off + within))
    else next

-- The pointer is an offset into `raw`. The sums are of 64 bits in the source, so none wraps.
unfoldable pub pe_rva_to_ptr : Image → ℕ → ℕ → Option ℕ
pe_rva_to_ptr img rva min_len =
    if ltb rva img.size_of_headers
    then (if ltb img.size_of_headers (rva + min_len)
        then none
        else if ltb (length img.raw) (rva + min_len)
        then none
        else some rva)
    else section_ptr img.sections (length img.raw) rva min_len
