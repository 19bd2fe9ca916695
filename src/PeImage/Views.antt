-- ===== src/PeImage/Views.antt =====
-- The bytes that an address of the parsed image shows: include/pe_image.h and `pe_rva_to_ptr` of
-- src/pe_reader.c.
use silver_nimbus_otter.Prelude.{
  List, Option, Option-cases, inl, inr, none, ok, refl, some, ℕ, ◌>>=◌, ◌≡◌,
}
use silver_nimbus_otter.PeImage.Mapping.{pe_rva_to_ptr_inside}
use silver_nimbus_otter.Bytes.Laws.{mem_read_ok}
use silver_nimbus_otter.Diagnostics.{RejectReason, or_reject, Parse}
use silver_nimbus_otter.PeImage.{ImportDll, pe_rva_to_ptr, Image}
use silver_nimbus_otter.Bytes.{mem_read, slice}

abbrev shown_at : List ℕ → ℕ → Option ℕ → Option (List ℕ)
shown_at raw n none = none
shown_at raw n (some p) = some (slice raw p n)

-- The `n` bytes at an address, where the image has them in the file.
unfoldable pub view_of : Image → ℕ → ℕ → Option (List ℕ)
view_of img rva n = shown_at img.raw n (pe_rva_to_ptr img rva n)

-- What shows the bytes at an address.
abbrev pub View : Type 0
View = ℕ → ℕ → Option (List ℕ)

-- Only the headers, the section table and the file decide.
pub view_of-imports :
    (img : Image) (cap : ℕ) (dlls : List ImportDll)
    → view_of (record img { imports_cap = cap; imports = dlls }) ≡ view_of img
unfolding view_of pe_rva_to_ptr
view_of-imports img cap dlls = refl

pub view_of-some :
    (img : Image) (rva n p : ℕ)
    → pe_rva_to_ptr img rva n ≡ some p
    → view_of img rva n ≡ some (slice img.raw p n)
unfolding view_of
view_of-some img rva n p e = rw e refl

-- A read that went on has found its bytes.
pub read-eq-ok :
    {A : Type 0} (img : Image) (rva n : ℕ) (f : List ℕ → Parse A) {a : A}
    → (or_reject (pe_rva_to_ptr img rva n) >>= λ p. mem_read img.raw p n >>= f) ≡ ok a
    → (bs : List ℕ) × (view_of img rva n ≡ some bs) × (f bs ≡ ok a)
read-eq-ok {A} img rva n f {a} h = elim (Option-cases (pe_rva_to_ptr img rva n)) [
  | inl e ↦ cc (rw e at h)
  | inr (p, e) ↦
      let read = mem_read_ok {E = RejectReason} img.raw p n (pe_rva_to_ptr_inside img rva n p e) in
      (slice img.raw p n, view_of-some img rva n p e, rw (e, read) at h)
]

-- A value behind a check for NULL.
pub or_reject-eq-ok : {A : Type 0} (o : Option A) {a : A} → or_reject o ≡ ok a → o ≡ some a
or_reject-eq-ok none h = cc
or_reject-eq-ok (some b) h = cc

-- Bytes that are shown stand in the file.
pub view_of-eq-some :
    (img : Image) (rva n : ℕ) (bs : List ℕ)
    → view_of img rva n ≡ some bs
    → (p : ℕ) × (pe_rva_to_ptr img rva n ≡ some p) × (slice img.raw p n ≡ bs)
unfolding view_of
view_of-eq-some img rva n bs h = elim (Option-cases (pe_rva_to_ptr img rva n)) [
  | inl e ↦ cc (rw e at h)
  | inr (p, e) ↦ (p, e, same (rw e at h))
]
  where
    same : {a b : List ℕ} → some a ≡ some b → a ≡ b
    same e = cc
