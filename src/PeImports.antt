-- ===== src/PeImports.antt =====
-- src/pe_imports.c: the import directory, its DLLs and their thunk tables.
-- A loop with no bound of its own takes fuel; `i` counts its rounds as in the source.
pub mod Capacity
pub mod Names
pub mod Safety
pub mod Directory
pub mod Strings
pub mod Tables
pub mod Thunks
pub mod Parses
use silver_nimbus_otter.Prelude.{
  Bool, List, Option, [], false, fault, get_or, if◌then◌else◌, length, ltb, none, not, ok,
  reject_if, some, stuck, suc, test_bit, true, zero, ℕ, ◌%◌, ◌&&◌, ◌*◌, ◌++◌, ◌+◌, ◌-◌, ◌/◌, ◌==◌,
  ◌∷◌, ◌>>=◌, ◌>>◌,
}
use silver_nimbus_otter.Bytes.{u32_mod, mem_read, u16_at, u32_at}
use silver_nimbus_otter.Diagnostics.{Parse, err_forwarded_import, or_reject}
use silver_nimbus_otter.Host.{Alloc, AllocSite, at_imports, at_funcs}
use silver_nimbus_otter.PeFormat.{
  ImportDescriptor, import_descriptor, sizeof_import_descriptor, sizeof_import_by_name,
  ordinal_flag_bit,
}
use silver_nimbus_otter.PeImage.{Image, ImportFunc, ImportDll, pe_rva_to_ptr}

abbrev pub sizeof_import_dll : ℕ
sizeof_import_dll = 80

abbrev pub sizeof_import_func : ℕ
sizeof_import_func = 136

-- Keeps `*cap` or doubles it; `none` is a failed `realloc`. Doubling past INT_MAX is undefined.
unfoldable pub ensure_capacity : (ℕ → Bool) → ℕ → ℕ → ℕ → Parse (Option ℕ)
ensure_capacity room cap count elem_size =
    if ltb count cap
    then ok (some cap)
    else if ltb 2147483647 (cap * 2)
    then fault
    else (let new_cap : ℕ = if cap == 0 then 8 else cap * 2 in
        if room (new_cap * elem_size) then ok (some new_cap) else ok none)

abbrev pub probe_at : List ℕ → Option ℕ → Parse (Option ℕ)
probe_at raw none = ok none
probe_at raw (some p) = do bs ← mem_read raw p 1; ok (some (get_or bs 0 0))

abbrev pub cons_string : ℕ → Option (List ℕ) → Option (List ℕ)
cons_string b none = none
cons_string b (some s) = some (b ∷ s)

-- The byte at an address, if the address has one in the file.
unfoldable pub probe : Image → ℕ → Parse (Option ℕ)
probe img rva = probe_at img.raw (pe_rva_to_ptr img rva 1)

-- What is left of the string after `b`, with `more` the rest of the loop.
abbrev pub after_byte : Option ℕ → Parse (Option (List ℕ)) → Parse (Option (List ℕ))
after_byte none more = ok none
after_byte (some b) more =
    if b == 0 then ok (some []) else (do rest ← more; ok (cons_string b rest))

-- `n` is `out_cap - 1 - i`: the bytes that still fit before the terminator.
unfoldable pub read_c_string_loop : Image → ℕ → ℕ → ℕ → Parse (Option (List ℕ))
unfolding probe
read_c_string_loop img rva i zero = ok (some [])
read_c_string_loop img rva i (suc n) =
    let more = read_c_string_loop img rva (i + 1) n in
    (do found ← probe img ((rva + i) % u32_mod); after_byte found more)

-- `ok none` is the source's `false`; a string that does not fit is cut.
unfoldable pub read_c_string : Image → ℕ → ℕ → Parse (Option (List ℕ))
unfolding read_c_string_loop
read_c_string img rva out_cap = read_c_string_loop img rva 0 (out_cap - 1)

-- The decimal digits of an ordinal, below 2^16: five rounds are enough.
unfoldable pub decimal : ℕ → ℕ → List ℕ
decimal zero n = []
decimal (suc k) n =
    let front = decimal k (n / 10) in
    if ltb n 10 then (48 + n) ∷ [] else front ++ ((48 + n % 10) ∷ [])

-- `snprintf(fn->name, sizeof(fn->name), "#%u", fn->ordinal)`
unfoldable pub ordinal_name : ℕ → List ℕ
unfolding decimal
ordinal_name n = b'#' ∷ decimal 5 n

-- The name of one thunk's function, its ordinal and whether it has one.
unfoldable pub thunk_name : Image → ℕ → Parse (List ℕ × ℕ × Bool)
thunk_name img thunk =
    if test_bit thunk ordinal_flag_bit
    then ok (ordinal_name (thunk % 65536), thunk % 65536, true)
    else do
      namep ← or_reject (pe_rva_to_ptr img thunk sizeof_import_by_name)
      hint ← mem_read img.raw namep sizeof_import_by_name
      found ← read_c_string img ((thunk + sizeof_import_by_name) % u32_mod) 128
      name ← or_reject found
      ok (name, 0, false)

-- One round of the thunk loop on a thunk that is not the terminator.
unfoldable pub add_func : Alloc → Image → ℕ → ℕ → ℕ → ImportDll → Parse ImportDll
unfolding thunk_name
add_func alloc img iat_rva i thunk dll = do
  let count = length dll.funcs
  let room = alloc (at_funcs (length img.imports) count)
  grown ← ensure_capacity room dll.funcs_cap count sizeof_import_func
  cap ← or_reject grown
  (name, ordinal, by_ordinal) ← thunk_name img thunk
  let fn : ImportFunc = record {
    name = name;
    ordinal = ordinal;
    by_ordinal = by_ordinal;
    iat_rva = (iat_rva + i * 4) % u32_mod;
  }
  ok (record dll { funcs_cap = cap; funcs = dll.funcs ++ (fn ∷ []) })

unfoldable pub thunk_loop : Alloc → Image → ℕ → ℕ → ℕ → ℕ → ImportDll → Parse ImportDll
thunk_loop alloc img thunk_rva iat_rva zero i dll = stuck
thunk_loop alloc img thunk_rva iat_rva (suc fuel) i dll = do
  tp ← or_reject (pe_rva_to_ptr img ((thunk_rva + i * 4) % u32_mod) 4)
  bs ← mem_read img.raw tp 4
  let thunk = u32_at bs 0
  if thunk == 0 then ok dll else do
    dll' ← add_func alloc img iat_rva i thunk dll
    thunk_loop alloc img thunk_rva iat_rva fuel (i + 1) dll'

abbrev pub is_forwarded : ImportDescriptor → Bool
is_forwarded desc = not (desc.forwarder_chain == 0xFFFFFFFF) && not (desc.forwarder_chain == 0)

-- `memset(dll, 0, sizeof(*dll))`, and the name.
abbrev pub empty_dll : List ℕ → ImportDll
empty_dll name = record { dll_name = name; funcs_cap = 0; funcs = [] }

unfoldable pub parse_one_dll : Alloc → ℕ → Image → ImportDescriptor → Parse Image
unfolding thunk_loop
parse_one_dll alloc fuel img desc = do
  let count = length img.imports
  grown ← ensure_capacity (alloc (at_imports count)) img.imports_cap count sizeof_import_dll
  cap ← or_reject grown
  found ← read_c_string img desc.name 64
  dll_name ← or_reject found
  reject_if (is_forwarded desc) err_forwarded_import
  let thunk_rva =
      if desc.original_first_thunk == 0 then desc.first_thunk else desc.original_first_thunk
  dll ← thunk_loop alloc img thunk_rva desc.first_thunk fuel 0 (empty_dll dll_name)
  ok (record img { imports_cap = cap; imports = img.imports ++ (dll ∷ []) })

abbrev pub is_terminator : ImportDescriptor → Bool
is_terminator desc =
    desc.original_first_thunk == 0
    && desc.time_date_stamp == 0
    && desc.forwarder_chain == 0
    && desc.name == 0
    && desc.first_thunk == 0

-- `thunks` is the fuel of each thunk table.
unfoldable pub imports_loop : Alloc → ℕ → ℕ → ℕ → ℕ → Image → Parse Image
imports_loop alloc thunks dir_rva zero i img = stuck
imports_loop alloc thunks dir_rva (suc fuel) i img = do
  let rva = (dir_rva + i * sizeof_import_descriptor) % u32_mod
  p ← or_reject (pe_rva_to_ptr img rva sizeof_import_descriptor)
  bs ← mem_read img.raw p sizeof_import_descriptor
  let desc = import_descriptor bs
  if is_terminator desc then ok img else do
    img' ← parse_one_dll alloc thunks img desc
    imports_loop alloc thunks dir_rva fuel (i + 1) img'

unfoldable pub parse_imports_dir : Alloc → ℕ → Image → ℕ → ℕ → Parse Image
unfolding imports_loop
parse_imports_dir alloc fuel img dir_rva dir_size =
    if dir_rva == 0 then ok img else imports_loop alloc fuel dir_rva fuel 0 img
