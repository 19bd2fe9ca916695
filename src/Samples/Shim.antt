-- ===== src/Samples/Shim.antt =====
-- A small shim blob: an ELF file with one segment and two imports' symbols, and the binding at it.
use silver_nimbus_otter.Prelude.{
  &&-eq-true, All, Any, Bool, List, Option, Returns, [], arith, false, fault, inl, none, ok, refl,
  rejected, some, stuck, true, ℕ, ◌&&◌, ◌∷◌, ◌≡◌,
}
use silver_nimbus_otter.Convert.{no_options, options_loop, Options}
use silver_nimbus_otter.StubPatch.Blob.{IsShim}
use silver_nimbus_otter.StubPatch.Binding.{Rebound, patch_dlls-kept, patch_dlls-Meets}
use silver_nimbus_otter.ShimBlob.{
  shim_find_symbol, symtabs_loop, symbols_loop, strcmp_at, read_u32, read_u16, read_u8,
}
use silver_nimbus_otter.StubPatch.{patch_dlls}
use silver_nimbus_otter.StubPatch.Slots.{
  SlotsApart, ApartFrom, all_imports, HasTables, CanSearch, OnlyBytes,
}
use silver_nimbus_otter.ShimAbi.Lookup.{some_eq}
use silver_nimbus_otter.ShimAbi.{shim_imports, ImportEntry}
use silver_nimbus_otter.PeImage.{covers, section_ptr, pe_rva_to_ptr, ImportFunc, Image}
use silver_nimbus_otter.ElfSpec.{Convert}
use silver_nimbus_otter.Bytes.{u32_at, u16_at, slice, text, mem_read}
use silver_nimbus_otter.Samples.Runs.{all_bytes, all_bytes_sound, one_section}
use silver_nimbus_otter.Samples.{bytes, zeros, half, word}

abbrev blob_header : List ℕ
blob_header =
    bytes (zeros 28 ∷ word 52 ∷ word 84 ∷ zeros 8 ∷ half 1 ∷ zeros 2 ∷ half 2 ∷ zeros 2 ∷ [])

abbrev blob_segment : List ℕ
blob_segment =
    bytes
      (word 1 ∷ word 291 ∷ word 0x0F000000 ∷ zeros 4 ∷ word 8 ∷ word 16 ∷ word 7 ∷ word 4096 ∷ [])

abbrev blob_sections : List ℕ
blob_sections = bytes (
    zeros 4
    ∷ word 2
    ∷ zeros 8
    ∷ word 164
    ∷ word 64
    ∷ word 1
    ∷ zeros 12
    ∷ zeros 4
    ∷ word 3
    ∷ zeros 8
    ∷ word 228
    ∷ word 64
    ∷ zeros 16
    ∷ [])

abbrev symbol : ℕ → ℕ → List ℕ
symbol name value = bytes (word name ∷ word value ∷ zeros 8 ∷ [])

abbrev blob_strings : List ℕ
blob_strings = bytes (
    zeros 1
    ∷ text "shim_Sleep"
    ∷ zeros 1
    ∷ text "shim_ExitProcess"
    ∷ zeros 1
    ∷ text "shim_pe_entry_target"
    ∷ zeros 1
    ∷ text "_start"
    ∷ zeros 7
    ∷ [])

abbrev pub blob : List ℕ
blob = bytes (
    blob_header
    ∷ blob_segment
    ∷ blob_sections
    ∷ symbol 1 0x0F001000
    ∷ symbol 12 0x0F002000
    ∷ symbol 29 0x0F000004
    ∷ symbol 50 0x0F003000
    ∷ blob_strings
    ∷ zeros 8
    ∷ [])

-- The search in the blob; to unfold it is to unfold all that it calls.
find : List ℕ → Convert (Option ℕ)
unfolding mem_read u16_at u32_at read_u8 read_u16 read_u32 strcmp_at symbols_loop symtabs_loop
    shim_find_symbol
find name = shim_find_symbol blob name

find_sleep : find (text "shim_Sleep") ≡ ok (some 0x0F001000)
unfolding find
find_sleep = refl

find_start : find (text "_start") ≡ ok (some 0x0F003000)
unfolding find
find_start = refl

found : Convert (Option ℕ) → Bool
found (ok r) = true
found other = false

all_found : List ImportEntry → Bool
unfolding find
all_found [] = true
all_found (e ∷ rest) = found (find e.shim_symbol) && all_found rest

found_sound : (r : Convert (Option ℕ)) → found r ≡ true → Returns Any r
unfolding found
found_sound (ok r) h = tt
found_sound (rejected e) h = tt
found_sound fault h = cc
found_sound stuck h = cc

all_found_sound : (es : List ImportEntry) → all_found es ≡ true → All (CanSearch blob) es
unfolding all_found find
all_found_sound [] h = tt
all_found_sound (e ∷ es) h =
    let (a, b) = &&-eq-true (found (find e.shim_symbol)) (all_found es) h in
    (found_sound (find e.shim_symbol) a, all_found_sound es b)

blob-HasTables : HasTables blob
unfolding shim_imports all_found found
blob-HasTables = all_found_sound shim_imports refl

abbrev imported : List ℕ → ℕ → ImportFunc
imported name iat_rva = record { name = name; ordinal = 0; by_ordinal = false; iat_rva = iat_rva }

abbrev importing : Image
importing = record one_section {
  imports =
      record {
        dll_name = text "KERNEL32.dll";
        funcs_cap = 16;
        funcs = imported (text "Sleep") 0x1034 ∷ imported (text "ExitProcess") 0x1038 ∷ [];
      }
      ∷ [];
}

pub slot_inj : {p q : ℕ} → some p ≡ some q → p ≡ q
slot_inj e = some_eq e

importing-SlotsApart : SlotsApart importing (all_imports importing.imports)
unfolding pe_rva_to_ptr section_ptr covers
importing-SlotsApart =
    ((λ p e. ((λ q k. inl (omega (arith, slot_inj e, slot_inj k))), tt)), ((λ p e. tt), tt))

patch_dlls-Meets_example :
    Returns (Rebound blob importing) (patch_dlls blob importing.imports importing)
patch_dlls-Meets_example = patch_dlls-Meets blob importing blob-HasTables importing-SlotsApart

importing-ApartFrom : ApartFrom importing 0 64 (all_imports importing.imports)
unfolding pe_rva_to_ptr section_ptr covers
importing-ApartFrom =
    ((λ q k. inl (omega (arith, slot_inj k))), ((λ q k. inl (omega (arith, slot_inj k))), tt))

patch_dlls-kept_example :
    Returns
      (λ img'. OnlyBytes importing img' × (slice img'.raw 0 64 ≡ slice importing.raw 0 64))
      (patch_dlls blob importing.imports importing)
patch_dlls-kept_example = patch_dlls-kept blob importing 0 64 blob-HasTables importing-ApartFrom

pub blob-IsShim : IsShim blob
unfolding find all_bytes
blob-IsShim = record {
  bytes = all_bytes_sound blob refl;
  tables = blob-HasTables;
  entry_target = omega arith;
  start = tt;
  has_header = omega arith;
  headers = omega arith;
  loads = (omega arith, omega arith, tt);
}

abbrev asked : Options
asked = record { dump_mode = false; input = some (text "in.exe"); output = some (text "out") }

arguments : options_loop (text "in.exe" ∷ text "-o" ∷ text "out" ∷ []) no_options ≡ some asked
unfolding options_loop
arguments = refl

missing_output : options_loop (text "in.exe" ∷ text "-o" ∷ []) no_options ≡ none
unfolding options_loop
missing_output = refl
