-- ===== src/Dump/Flags.antt =====
-- The permissions that src/pe_dump.c shows and those that src/layout.c gives a segment.
use silver_nimbus_otter.Prelude.{
  Bool, List, [], bit_or, false, if◌then◌else◌, inl, inr, refl, test_bit, true, ℕ, ◌==◌, ◌∷◌, ◌≡◌,
  ◌⊎◌,
}
use silver_nimbus_otter.Layout.{section_flags}
use silver_nimbus_otter.Dump.{flags_word}
use silver_nimbus_otter.PeFormat.{scn_mem_read_bit, scn_mem_write_bit, scn_mem_execute_bit}
use silver_nimbus_otter.Bytes.{text}

-- The letters of an ELF segment's flags: 4 reads, 2 writes, 1 executes.
abbrev pub letters : ℕ → List ℕ
letters flags =
    let r : ℕ = if test_bit flags 2 then b'R' else b'-' in
    let w : ℕ = if test_bit flags 1 then b'W' else b'-' in
    let x : ℕ = if test_bit flags 0 then b'X' else b'-' in r ∷ w ∷ x ∷ []

letter : Bool → ℕ → ℕ
letter b l = if b then l else b'-'

value : Bool → ℕ → ℕ
value b v = if b then v else 0

word_of : Bool → Bool → Bool → List ℕ
word_of r w x = letter r b'R' ∷ letter w b'W' ∷ letter x b'X' ∷ []

joined : Bool → Bool → Bool → ℕ
joined r w x =
    let flags : ℕ = bit_or (bit_or (value r 4) (value w 2)) (value x 1) in
    if flags == 0 then 4 else flags

every_case :
    (r w x : Bool)
    → (word_of r w x ≡ letters (joined r w x)) ⊎ ((word_of r w x ≡ text "---") × (joined r w x ≡ 4))
unfolding word_of joined letter value
every_case true true true = inl refl
every_case true true false = inl refl
every_case true false true = inl refl
every_case true false false = inl refl
every_case false true true = inl refl
every_case false true false = inl refl
every_case false false true = inl refl
every_case false false false = inr (refl, refl)

-- The letters that the dump shows for a section are those of its segment's flags, but for a section
-- without any permission, which the dump shows as `---` and the layout makes readable.
pub flags_word-section_flags :
    (c : ℕ)
    → (flags_word c ≡ letters (section_flags c))
      ⊎ ((flags_word c ≡ text "---") × (section_flags c ≡ 4))
unfolding flags_word section_flags word_of joined letter value
flags_word-section_flags c =
    every_case (test_bit c scn_mem_read_bit) (test_bit c scn_mem_write_bit)
      (test_bit c scn_mem_execute_bit)
