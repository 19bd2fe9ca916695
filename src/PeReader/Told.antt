-- ===== src/PeReader/Told.antt =====
-- src/pe_reader.c: the image and the directories that the headers give are those that stand in the
-- file.
use silver_nimbus_otter.Prelude.{
  Bool-cases, List, ap, inl, inr, ltb, ltb→lt, refl, subst, sym, ℕ, ◌<◌, ◌∙◌, ◌≡◌,
}
use silver_nimbus_otter.PeReader.Sections.{IsHeaders}
use silver_nimbus_otter.PeReader.Headers.{IsSupported}
use silver_nimbus_otter.Bytes.{u32_at}
use silver_nimbus_otter.PeReader.{u32_at, initial_image, find_directory}
use silver_nimbus_otter.PeImage.{Image}
use silver_nimbus_otter.PeFormat.{OptionalHeader, optional_header, directory}
use silver_nimbus_otter.PeReader.Fields.{FieldsAt, IsProgramFile, directory_at, optional_bytes}

find_directory-at_header :
    (raw : List ℕ) (i : ℕ)
    → let dir = find_directory (optional_header (optional_bytes raw)) i in
      (dir.virtual_address ≡ (directory_at raw i).0) × (dir.size ≡ (directory_at raw i).1)
unfolding find_directory directory optional_header
find_directory-at_header raw i = elim (Bool-cases (ltb i (u32_at (optional_bytes raw) 92))) [
  | inl e ↦ rw e (refl, refl)
  | inr e ↦ rw e (refl, refl)
]

pub find_directory-directory_at :
    (raw : List ℕ) (r : Image × OptionalHeader) (i : ℕ)
    → IsHeaders raw r
    → ((find_directory r.1 i).virtual_address ≡ (directory_at raw i).0)
      × ((find_directory r.1 i).size ≡ (directory_at raw i).1)
find_directory-directory_at raw r i h =
    let (a, b) = find_directory-at_header raw i in
    (
      ap (λ (o : OptionalHeader). (find_directory o i).virtual_address) h.optional ∙ a,
      ap (λ (o : OptionalHeader). (find_directory o i).size) h.optional ∙ b,
    )

pub headers-FieldsAt :
    (raw : List ℕ) (r : Image × OptionalHeader) → IsHeaders raw r → FieldsAt raw r.0
unfolding initial_image optional_header
headers-FieldsAt raw r h =
    let all : r.0 ≡ initial_image raw (optional_header (optional_bytes raw)) r.0.sections =
      h.image ∙ ap (λ (o : OptionalHeader). initial_image raw o r.0.sections) h.optional in
    subst (FieldsAt raw) (sym all) (refl, refl, refl, refl, refl, refl, refl, h.count, h.table)

no_directory :
    (raw : List ℕ) (i : ℕ)
    → (i < u32_at (optional_bytes raw) 92
        → (directory (optional_header (optional_bytes raw)) i).size ≡ 0)
    → (directory_at raw i).1 ≡ 0
unfolding directory optional_header
no_directory raw i h = elim (Bool-cases (ltb i (u32_at (optional_bytes raw) 92))) [
  | inl e ↦ rw e (h (ltb→lt _ _ e))
  | inr e ↦ rw e refl
]

supported-IsProgramFile :
    (raw : List ℕ) → IsSupported (optional_header (optional_bytes raw)) → IsProgramFile raw
unfolding optional_header
supported-IsProgramFile raw h = (
  h.pe32,
  h.subsystem,
  h.dirs,
  no_directory raw 14 h.native,
  no_directory raw 13 h.eager,
  h.based,
)

pub headers-IsProgramFile :
    (raw : List ℕ) (r : Image × OptionalHeader) → IsHeaders raw r → IsProgramFile raw
headers-IsProgramFile raw r h =
    supported-IsProgramFile raw (subst IsSupported h.optional h.supported)
