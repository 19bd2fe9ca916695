-- ===== src/Dump/Shown.antt =====
-- What the lines of a dump say, read back from them.
use silver_nimbus_otter.Prelude.{
  Bool, List, Option, [], ap, append-nil, append_assoc, drop, false, if◌then◌else◌, length, map,
  none, refl, some, suc, sym, true, zero, ℕ, ◌%◌, ◌&&◌, ◌++◌, ◌/◌, ◌==◌, ◌∙◌, ◌∷◌, ◌≡◌,
}
use silver_nimbus_otter.Bytes.{text, up_to_nul}
use Prim.Native.String.{String}
use silver_nimbus_otter.PeImage.{Section, ImportFunc, ImportDll, Image}
use silver_nimbus_otter.Dump.{
  Arg, Line, number, word, pe_dump, section_lines, func_lines, dll_lines, section_line, flags_word,
  header_lines,
}

-- A section as it is shown, with its permissions as letters.
pub record ShownSection : Type 0 where
  pub name : List ℕ
  pub rva : ℕ
  pub vsize : ℕ
  pub file_off : ℕ
  pub fsize : ℕ
  pub flags : List ℕ

-- A DLL as it is shown: its name, and the name and the slot of each function.
pub record ShownDll : Type 0 where
  pub dll_name : List ℕ
  pub funcs : List (List ℕ × ℕ)

abbrev pub ShownImage : Type 0
ShownImage = List ShownSection × List ShownDll

abbrev same_text : List ℕ → List ℕ → Bool
same_text [] [] = true
same_text (a ∷ as') (b ∷ bs) = a == b && same_text as' bs
same_text _ _ = false

-- The letters of the permissions: bit 30 of the characteristics is for reading, bit 31 for writing
-- and bit 29 for executing.
abbrev letters : ℕ → List ℕ
letters c =
    (if c / 1073741824 % 2 == 1 then b'R' else b'-')
    ∷ (if c / 2147483648 % 2 == 1 then b'W' else b'-')
    ∷ (if c / 536870912 % 2 == 1 then b'X' else b'-')
    ∷ []

flags_word-letters : (c : ℕ) → flags_word c ≡ letters c
unfolding flags_word
flags_word-letters c = refl

-- The arguments of a line, if there are as many as asked for and of those kinds.
abbrev named_number : List Arg → Option (List ℕ × ℕ)
named_number (word w ∷ number n ∷ []) = some (w, n)
named_number _ = none

abbrev section_args : List Arg → Option ShownSection
section_args (word name ∷ number rva ∷ number vsize ∷ number off ∷ number size ∷ word flags ∷ []) =
    some (record {
      name = name;
      rva = rva;
      vsize = vsize;
      file_off = off;
      fsize = size;
      flags = flags;
    })
section_args _ = none

abbrev count_arg : List Arg → Option ℕ
count_arg (number n ∷ []) = some n
count_arg _ = none

-- The titles of the columns.
abbrev titles : List Arg → Option Bool
titles (word a ∷ word b ∷ word c ∷ word d ∷ word e ∷ word f ∷ []) =
    if same_text a (text "Name")
      && (same_text b (text "RVA")
          && (same_text c (text "VSize")
              && (same_text d (text "FileOff")
                  && (same_text e (text "FSize") && same_text f (text "Flags")))))
    then some true
    else none
titles _ = none

-- A reader takes what it reads off the front of the lines.
abbrev Reader : Type 0 → Type 0
Reader A = List Line → Option (A × List Line)

-- A line with that format.
abbrev read_line : {A : Type 0} → String → (List Arg → Option A) → Reader A
read_line format f [] = none
read_line format f (l ∷ ls) =
    if same_text l.format (text format)
    then elim (f l.args) [ none ↦ none | some a ↦ some (a, ls) ]
    else none

abbrev after : {A B : Type 0} → Option (A × List Line) → (A → Reader B) → Option (B × List Line)
after none f = none
after (some (a, ls)) f = f a ls

abbrev repeated : {A : Type 0} → Reader A → ℕ → Reader (List A)
repeated r zero ls = some ([], ls)
repeated r (suc n) ls =
    after (r ls) λ a ls1. after (repeated r n ls1) λ rest ls2. some (a ∷ rest, ls2)

abbrev read_section : Reader ShownSection
read_section = read_line "  %-9s 0x%08x 0x%08x 0x%08x 0x%08x  %s\n" section_args

abbrev read_func : Reader (List ℕ × ℕ)
read_func = read_line "    %-40s  IAT RVA 0x%08x\n" named_number

abbrev read_dll : Reader ShownDll
read_dll ls = after (read_line "  %s (%d functions)\n" named_number ls) λ head ls1.
    after (repeated read_func head.1 ls1)
      λ funcs ls2. some (record { dll_name = head.0; funcs = funcs }, ls2)

-- The sections and the imports of a dump, each behind the line with their number, as the formats of
-- the lines tell them. The first nine lines are about the headers.
abbrev pub read_dump : List Line → Option (ShownImage × List Line)
read_dump ls = after (read_line "\nSections (%d):\n" count_arg (drop 9 ls)) λ n ls1.
    after (read_line "  %-9s %10s %10s %10s %10s  %s\n" titles ls1) λ _ ls2.
      after (repeated read_section n ls2) λ sections ls3.
        after (read_line "\nImports (%d DLLs):\n" count_arg ls3)
          λ k ls4. after (repeated read_dll k ls4) λ dlls ls5. some ((sections, dlls), ls5)

abbrev pub shown_section : Section → ShownSection
shown_section s = record {
  name = up_to_nul s.name;
  rva = s.rva;
  vsize = s.vsize;
  file_off = s.file_off;
  fsize = s.fsize;
  flags = letters s.characteristics;
}

abbrev pub shown_func : ImportFunc → List ℕ × ℕ
shown_func fn = (fn.name, fn.iat_rva)

abbrev pub shown_dll : ImportDll → ShownDll
shown_dll dll = record { dll_name = dll.dll_name; funcs = map shown_func dll.funcs }

sections_back :
    (sections : List Section) (rest : List Line)
    → repeated read_section (length sections) (section_lines sections ++ rest)
      ≡ some (map shown_section sections, rest)
unfolding section_lines section_line
sections_back [] rest = refl
sections_back (s ∷ sections) rest =
    rw (flags_word-letters s.characteristics, sections_back sections rest) refl

funcs_back :
    (funcs : List ImportFunc) (rest : List Line)
    → repeated read_func (length funcs) (func_lines funcs ++ rest)
      ≡ some (map shown_func funcs, rest)
unfolding func_lines
funcs_back [] rest = refl
funcs_back (fn ∷ funcs) rest = rw (funcs_back funcs rest) refl

dlls_back :
    (dlls : List ImportDll) (rest : List Line)
    → repeated read_dll (length dlls) (dll_lines dlls ++ rest) ≡ some (map shown_dll dlls, rest)
unfolding dll_lines
dlls_back [] rest = refl
dlls_back (dll ∷ dlls) rest =
    rw
      (
        append_assoc (func_lines dll.funcs) (dll_lines dlls) rest,
        funcs_back dll.funcs (dll_lines dlls ++ rest),
        dlls_back dlls rest,
      )
      refl

all_dlls :
    (dlls : List ImportDll)
    → repeated read_dll (length dlls) (dll_lines dlls) ≡ some (map shown_dll dlls, [])
all_dlls dlls =
    ap (repeated read_dll (length dlls)) (sym (append-nil (dll_lines dlls))) ∙ dlls_back dlls []

-- Read by the formats of their lines, the lines of a dump behind the first nine tell every section in
-- order, with its name up to the first NUL, its place and the letters of its permissions, and behind
-- them every DLL in order, with the name and the slot of each of its functions in order; nothing
-- follows.
pub read_dump-pe_dump :
    (img : Image)
    → read_dump (pe_dump img)
      ≡ some ((map shown_section img.sections, map shown_dll img.imports), [])
unfolding pe_dump header_lines
read_dump-pe_dump img = rw (sections_back img.sections _, all_dlls img.imports) refl
