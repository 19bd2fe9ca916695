-- ===== src/Dump.antt =====
-- src/pe_dump.c: what `--dump` prints. A call of fprintf is its format with its arguments, since the
-- C library puts the text together.
pub mod Flags
pub mod Shown
use silver_nimbus_otter.Prelude.{
  List, [], if◌then◌else◌, length, test_bit, ℕ, ◌%◌, ◌++◌, ◌+◌, ◌==◌, ◌∷◌,
}
use silver_nimbus_otter.Bytes.{text, u32_mod, up_to_nul}
use silver_nimbus_otter.PeFormat.{scn_mem_read_bit, scn_mem_write_bit, scn_mem_execute_bit}
use silver_nimbus_otter.PeImage.{Section, ImportFunc, ImportDll, Image}
use Prim.Native.String.{String}

pub data Arg : Type 0 where
  number : ℕ → Arg
  word : List ℕ → Arg

-- One call of fprintf.
pub record Line : Type 0 where
  pub format : List ℕ
  pub args : List Arg

abbrev pub line : String → List Arg → Line
line format args = record { format = text format; args = args }

abbrev pub subsystem_word : ℕ → List ℕ
subsystem_word subsystem =
    if subsystem == 3
    then text "WINDOWS_CUI"
    else if subsystem == 2
    then text "WINDOWS_GUI"
    else text "other"

-- The three letters of a section, or dashes.
unfoldable pub flags_word : ℕ → List ℕ
flags_word characteristics =
    let r : ℕ = if test_bit characteristics scn_mem_read_bit then b'R' else b'-' in
    let w : ℕ = if test_bit characteristics scn_mem_write_bit then b'W' else b'-' in
    let x : ℕ = if test_bit characteristics scn_mem_execute_bit then b'X' else b'-' in
    r ∷ w ∷ x ∷ []

unfoldable pub header_lines : Image → List Line
header_lines img =
    line "ImageBase:        0x%08x\n" (number img.image_base ∷ [])
    ∷ line "EntryPoint RVA:   0x%08x (VA 0x%08x)\n" (
        number img.entry_point_rva ∷ number ((img.image_base + img.entry_point_rva) % u32_mod) ∷ [])
    ∷ line "SizeOfImage:      0x%08x\n" (number img.size_of_image ∷ [])
    ∷ line "SizeOfHeaders:    0x%08x\n" (number img.size_of_headers ∷ [])
    ∷ line "Subsystem:        %u (%s)\n"
        (number img.subsystem ∷ word (subsystem_word img.subsystem) ∷ [])
    ∷ line "SectionAlignment: 0x%08x\n" (number img.section_alignment ∷ [])
    ∷ line "FileAlignment:    0x%08x\n" (number img.file_alignment ∷ [])
    ∷ line "TLS present:      %s (%d callback%s)\n" (
        word (if img.has_tls then text "yes" else text "no")
        ∷ number (length img.tls_callback_rvas)
        ∷ word (if length img.tls_callback_rvas == 1 then [] else text "s")
        ∷ [])
    ∷ line "Base relocations: %d\n" (number (length img.relocs) ∷ [])
    ∷ []

unfoldable pub section_line : Section → Line
unfolding flags_word up_to_nul
section_line s = line "  %-9s 0x%08x 0x%08x 0x%08x 0x%08x  %s\n" (
    word (up_to_nul s.name)
    ∷ number s.rva
    ∷ number s.vsize
    ∷ number s.file_off
    ∷ number s.fsize
    ∷ word (flags_word s.characteristics)
    ∷ [])

unfoldable pub section_lines : List Section → List Line
unfolding section_line
section_lines [] = []
section_lines (s ∷ sections) = section_line s ∷ section_lines sections

unfoldable pub func_lines : List ImportFunc → List Line
func_lines [] = []
func_lines (fn ∷ funcs) =
    line "    %-40s  IAT RVA 0x%08x\n" (word fn.name ∷ number fn.iat_rva ∷ []) ∷ func_lines funcs

unfoldable pub dll_lines : List ImportDll → List Line
unfolding func_lines
dll_lines [] = []
dll_lines (dll ∷ dlls) =
    line "  %s (%d functions)\n" (word dll.dll_name ∷ number (length dll.funcs) ∷ [])
    ∷ (func_lines dll.funcs ++ dll_lines dlls)

unfoldable pub pe_dump : Image → List Line
unfolding header_lines section_lines dll_lines
pe_dump img =
    header_lines img
    ++ (line "\nSections (%d):\n" (number (length img.sections) ∷ [])
        ∷ line "  %-9s %10s %10s %10s %10s  %s\n" (
            word (text "Name")
            ∷ word (text "RVA")
            ∷ word (text "VSize")
            ∷ word (text "FileOff")
            ∷ word (text "FSize")
            ∷ word (text "Flags")
            ∷ [])
        ∷ (section_lines img.sections
            ++ (line "\nImports (%d DLLs):\n" (number (length img.imports) ∷ [])
                ∷ dll_lines img.imports)))
