-- ===== src/PeImage/Access.antt =====
-- Reading through a pointer that `pe_rva_to_ptr` gave for as many bytes.
use silver_nimbus_otter.Prelude.{
  All, List, Meets, Option-cases, [], arith, inl, inr, length, some, ℕ, ◌+◌, ◌>>=◌, ◌∷◌, ◌≡◌, ◌≤◌,
}
use silver_nimbus_otter.Bytes.{slice, mem_read}
use silver_nimbus_otter.Bytes.Laws.{mem_read_ok}
use silver_nimbus_otter.Diagnostics.{Parse, or_reject}
use silver_nimbus_otter.PeImage.{Section, Image, section_ptr, pe_rva_to_ptr}
use silver_nimbus_otter.PeImage.Mapping.{pe_rva_to_ptr_inside}

module _ {ℓ} {B : Type ℓ} (S : Type 0) (Q : B → Type 0) (img : Image) (rva n : ℕ) where
  -- The read is inside the file, so what is left to show is about the bytes that it gives.
  pub Meets-read :
      (f : List ℕ → Parse B)
      → ((p : ℕ) → pe_rva_to_ptr img rva n ≡ some p → Meets S Q (f (slice img.raw p n)))
      → Meets S Q (or_reject (pe_rva_to_ptr img rva n) >>= λ p. mem_read img.raw p n >>= f)
  Meets-read f h = elim (Option-cases (pe_rva_to_ptr img rva n)) [
    | inl e ↦ rw e tt
    | inr (p, e) ↦ rw (e, mem_read_ok img.raw p n (pe_rva_to_ptr_inside img rva n p e)) (h p e)
  ]

-- A pointer that is NULL is a rejection.
pub Meets-ptr {ℓ} :
    {B : Type ℓ} (S : Type 0) (Q : B → Type 0) (img : Image) (rva n : ℕ) (f : ℕ → Parse B)
    → ((p : ℕ) → pe_rva_to_ptr img rva n ≡ some p → Meets S Q (f p))
    → Meets S Q (or_reject (pe_rva_to_ptr img rva n) >>= f)
Meets-ptr S Q img rva n f h = elim (Option-cases (pe_rva_to_ptr img rva n)) [
  | inl e ↦ rw e tt
  | inr (p, e) ↦ rw e (h p e)
]

-- Every address that has bytes lies below `limit`.
abbrev pub EndsBefore : ℕ → Image → Type 0
EndsBefore limit img =
    (img.size_of_headers ≤ limit) × All (λ (s : Section). s.rva + s.vsize ≤ limit) img.sections

section_ptr_below :
    (limit : ℕ) (sections : List Section) (raw_size rva n p : ℕ)
    → All (λ (s : Section). s.rva + s.vsize ≤ limit) sections
    → section_ptr sections raw_size rva n ≡ some p
    → rva + n ≤ limit
unfolding section_ptr
section_ptr_below limit [] raw_size rva n p a h = cc
section_ptr_below limit (s ∷ rest) raw_size rva n p (b, a) h =
    ground (arith, section_ptr_below limit rest raw_size rva n p a)

pub pe_rva_to_ptr_below :
    (limit : ℕ) (img : Image) (rva n p : ℕ)
    → EndsBefore limit img
    → pe_rva_to_ptr img rva n ≡ some p
    → rva + n ≤ limit
unfolding pe_rva_to_ptr
pe_rva_to_ptr_below limit img rva n p b h =
    ground (arith, section_ptr_below limit img.sections (length img.raw) rva n p b.1)
