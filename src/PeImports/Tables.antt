-- ===== src/PeImports/Tables.antt =====
-- src/pe_imports.c: what the import directory says, read off the addresses that it names.
use silver_nimbus_otter.Prelude.{
  List, [], false, if◌then◌else◌, some, test_bit, true, ℕ, ◌%◌, ◌*◌, ◌+◌, ◌==◌, ◌∷◌, ◌≡◌, ◌≢◌, ◌⊎◌,
}
use silver_nimbus_otter.PeImage.Views.{View}
use silver_nimbus_otter.PeImports.{ordinal_name}
use silver_nimbus_otter.PeImage.{ImportFunc, ImportDll}
use silver_nimbus_otter.Bytes.{u32_mod, u32_at}
use silver_nimbus_otter.PeImports.Strings.{IsStringAt}
use silver_nimbus_otter.PeFormat.{ordinal_flag_bit, import_descriptor, ImportDescriptor}

-- The little-endian word at an address.
abbrev pub WordAt : View → ℕ → ℕ → Type 0
WordAt view rva w = (bs : List ℕ) × (view rva 4 ≡ some bs) × (u32_at bs 0 ≡ w)

-- The function of a thunk: by its ordinal, or by the name that stands behind its hint.
abbrev pub IsFuncAt : View → ℕ → ℕ → ImportFunc → Type 0
IsFuncAt view slot thunk fn =
    (fn.iat_rva ≡ slot)
    × (((test_bit thunk ordinal_flag_bit ≡ true)
          × (fn.by_ordinal ≡ true)
          × (fn.ordinal ≡ thunk % 65536)
          × (fn.name ≡ ordinal_name (thunk % 65536)))
        ⊎ ((test_bit thunk ordinal_flag_bit ≡ false)
            × (fn.by_ordinal ≡ false)
            × (fn.ordinal ≡ 0)
            × IsStringAt view ((thunk + 2) % u32_mod) 127 fn.name))

-- The functions of a table of thunks from index `i` on, up to the thunk that is 0.
abbrev pub FuncsAt : View → ℕ → ℕ → ℕ → List ImportFunc → Type 0
FuncsAt view thunk_rva iat_rva i [] = WordAt view ((thunk_rva + i * 4) % u32_mod) 0
FuncsAt view thunk_rva iat_rva i (fn ∷ funcs) =
    ((thunk : ℕ) × WordAt view ((thunk_rva + i * 4) % u32_mod) thunk
      × (thunk ≢ 0)
      × IsFuncAt view ((iat_rva + i * 4) % u32_mod) thunk fn)
    × FuncsAt view thunk_rva iat_rva (i + 1) funcs

abbrev pub IsTerminator : ImportDescriptor → Type 0
IsTerminator desc =
    (desc.original_first_thunk ≡ 0)
    × (desc.time_date_stamp ≡ 0)
    × (desc.forwarder_chain ≡ 0)
    × (desc.name ≡ 0)
    × (desc.first_thunk ≡ 0)

-- The table that names the functions; the other one is the slots that the loader fills.
abbrev pub names_table : ImportDescriptor → ℕ
names_table desc =
    if desc.original_first_thunk == 0 then desc.first_thunk else desc.original_first_thunk

-- The DLL of a descriptor, which forwards nothing.
abbrev pub IsDllAt : View → ImportDescriptor → ImportDll → Type 0
IsDllAt view desc dll =
    ((desc.forwarder_chain ≡ 0) ⊎ (desc.forwarder_chain ≡ 0xFFFFFFFF))
    × IsStringAt view desc.name 63 dll.dll_name
    × FuncsAt view (names_table desc) desc.first_thunk 0 dll.funcs

-- The descriptor that stands at an address.
abbrev pub DescriptorAt : View → ℕ → ImportDescriptor → Type 0
DescriptorAt view rva desc = (bs : List ℕ) × (view rva 20 ≡ some bs) × (import_descriptor bs ≡ desc)

-- The DLLs of the directory from index `i` on, up to the descriptor of zeros.
abbrev pub DllsAt : View → ℕ → ℕ → List ImportDll → Type 0
DllsAt view dir_rva i [] =
    (desc : ImportDescriptor) × DescriptorAt view ((dir_rva + i * 20) % u32_mod) desc
    × IsTerminator desc
DllsAt view dir_rva i (dll ∷ dlls) =
    ((desc : ImportDescriptor) × DescriptorAt view ((dir_rva + i * 20) % u32_mod) desc
      × ¬ IsTerminator desc
      × IsDllAt view desc dll)
    × DllsAt view dir_rva (i + 1) dlls
