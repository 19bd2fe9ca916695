-- ===== src/PeImage/Mapping.antt =====
-- What `pe_rva_to_ptr` promises: it is exactly the map that the section table describes.
use silver_nimbus_otter.Prelude.{
  All, Bool-cases, List, [], arith, false, inl, inr, length, ltb, some, ℕ, ◌+◌, ◌<◌, ◌↔◌, ◌∷◌, ◌≡◌,
  ◌≤◌, ◌⊎◌,
}
use silver_nimbus_otter.PeImage.{Section, Image, covers, section_ptr, pe_rva_to_ptr}

section_ptr_inside :
    (sections : List Section) (raw_size rva n p : ℕ)
    → section_ptr sections raw_size rva n ≡ some p
    → p + n ≤ raw_size
unfolding section_ptr
section_ptr_inside [] raw_size rva n p h = cc
section_ptr_inside (s ∷ rest) raw_size rva n p h =
    ground (arith, section_ptr_inside rest raw_size rva n p)

-- The bytes behind a pointer lie in the file, for any address and any section table.
pub pe_rva_to_ptr_inside :
    (img : Image) (rva n p : ℕ) → pe_rva_to_ptr img rva n ≡ some p → p + n ≤ length img.raw
unfolding pe_rva_to_ptr
pe_rva_to_ptr_inside img rva n p h =
    ground (arith, section_ptr_inside img.sections (length img.raw) rva n p)

-- The section holds the `n` bytes from `rva` on in the file, the first of them at `p`.
abbrev pub InSection : ℕ → ℕ → ℕ → ℕ → Section → Type 0
InSection raw_size rva n p s =
    (s.rva ≤ rva)
    × (rva + n ≤ s.rva + s.vsize)
    × (rva < s.rva + s.fsize)
    × (rva + n ≤ s.rva + s.fsize)
    × (p + s.rva ≡ s.file_off + rva)
    × (p + n ≤ raw_size)

abbrev pub InSome : ℕ → ℕ → ℕ → ℕ → List Section → Type 0
InSome raw_size rva n p [] = ⊥
InSome raw_size rva n p (s ∷ rest) = InSection raw_size rva n p s ⊎ InSome raw_size rva n p rest

abbrev pub Apart : Section → Section → Type 0
Apart s t = (s.rva + s.vsize ≤ t.rva) ⊎ (t.rva + t.vsize ≤ s.rva)

-- No two sections share an address.
abbrev pub Disjoint : List Section → Type 0
Disjoint [] = Unit
Disjoint (s ∷ rest) = All (Apart s) rest × Disjoint rest

section_ptr_sound :
    (sections : List Section) (raw_size rva n p : ℕ)
    → section_ptr sections raw_size rva n ≡ some p
    → InSome raw_size rva n p sections
unfolding section_ptr
section_ptr_sound [] raw_size rva n p h = cc
section_ptr_sound (s ∷ rest) raw_size rva n p h = elim (Bool-cases (covers s rva n)) [
  | inl e ↦ inl (ground arith)
  | inr e ↦ inr (section_ptr_sound rest raw_size rva n p (ground arith))
]

not-covers-Apart :
    (s t : Section) (raw_size rva n p : ℕ)
    → 0 < n
    → Apart s t
    → InSection raw_size rva n p t
    → covers s rva n ≡ false
unfolding covers
not-covers-Apart s t raw_size rva n p pos a w = ground arith

not-covers-Disjoint :
    (s : Section) (rest : List Section) (raw_size rva n p : ℕ)
    → 0 < n
    → All (Apart s) rest
    → InSome raw_size rva n p rest
    → covers s rva n ≡ false
not-covers-Disjoint s [] raw_size rva n p pos a w = absurd w
not-covers-Disjoint s (t ∷ rest) raw_size rva n p pos (a, b) (inl w) =
    not-covers-Apart s t raw_size rva n p pos a w
not-covers-Disjoint s (t ∷ rest) raw_size rva n p pos (a, b) (inr w) =
    not-covers-Disjoint s rest raw_size rva n p pos b w

section_ptr_complete :
    (sections : List Section) (raw_size rva n p : ℕ)
    → 0 < n
    → Disjoint sections
    → InSome raw_size rva n p sections
    → section_ptr sections raw_size rva n ≡ some p
unfolding section_ptr
section_ptr_complete [] raw_size rva n p pos d w = absurd w
section_ptr_complete (s ∷ rest) raw_size rva n p pos (a, d) (inl w) = ground arith
section_ptr_complete (s ∷ rest) raw_size rva n p pos (a, d) (inr w) =
    rw (not-covers-Disjoint s rest raw_size rva n p pos a w)
      (section_ptr_complete rest raw_size rva n p pos d w)

-- Where the file keeps the bytes of an address, by the header and the section table.
abbrev pub MapsTo : Image → ℕ → ℕ → ℕ → Type 0
MapsTo img rva n p =
    ((rva < img.size_of_headers)
      × (rva + n ≤ img.size_of_headers)
      × (p ≡ rva)
      × (p + n ≤ length img.raw))
    ⊎ ((img.size_of_headers ≤ rva) × InSome (length img.raw) rva n p img.sections)

-- For a range of at least one byte, in an image of which no two sections overlap, a pointer that is
-- not NULL is given exactly where the header or one section keeps the whole range.
pub pe_rva_to_ptr_exact :
    (img : Image) (rva n p : ℕ)
    → 0 < n
    → Disjoint img.sections
    → (pe_rva_to_ptr img rva n ≡ some p) ↔ MapsTo img rva n p
unfolding pe_rva_to_ptr
pe_rva_to_ptr_exact img rva n p pos d = (to, from)
  where
    sound :
        section_ptr img.sections (length img.raw) rva n ≡ some p
        → InSome (length img.raw) rva n p img.sections
    sound = section_ptr_sound img.sections (length img.raw) rva n p

    to : pe_rva_to_ptr img rva n ≡ some p → MapsTo img rva n p
    to h = elim (Bool-cases (ltb rva img.size_of_headers)) [
      | inl e ↦ inl (ground arith)
      | inr e ↦ inr (ground arith, sound (ground arith))
    ]

    from : MapsTo img rva n p → pe_rva_to_ptr img rva n ≡ some p
    from (inl h) = ground arith
    from (inr h) =
        ground (arith, section_ptr_complete img.sections (length img.raw) rva n p pos d h.1)
