-- ===== src/ShimAbi/Lookup.antt =====
-- The lookup finds exactly what the table lists.
use silver_nimbus_otter.Prelude.{
  &&-eq-true, ==_iff, Bool-cases, List, [], ap₂, false, head_eq, inl, inr, map, refl, some, subst,
  sym, tail_eq, true, ℕ, ◌&&◌, ◌==◌, ◌↔◌, ◌∙◌, ◌∷◌, ◌≡◌,
}
use silver_nimbus_otter.ShimAbi.{ImportEntry, tolower, ci_streq, str_eq, find_entry}

abbrev pub lower : List ℕ → List ℕ
lower s = map tolower s

-- The comparison is that of the lower-case spellings.
pub ci_streq_iff : (a b : List ℕ) → (ci_streq a b ≡ true) ↔ (lower a ≡ lower b)
unfolding ci_streq
ci_streq_iff [] [] = (λ _. refl, λ _. refl)
ci_streq_iff [] (b ∷ bs) = (λ e. cc, λ e. cc)
ci_streq_iff (a ∷ as') [] = (λ e. cc, λ e. cc)
ci_streq_iff (a ∷ as') (b ∷ bs) = (
  λ e.
      let (h, t) = &&-eq-true (tolower a == tolower b) (ci_streq as' bs) e in
      ap₂ ◌∷◌ ((==_iff (tolower a) (tolower b)).0 h) ((ci_streq_iff as' bs).0 t),
  λ e. rw ((==_iff (tolower a) (tolower b)).1 (head_eq e), (ci_streq_iff as' bs).1 (tail_eq e)),
)

pub str_eq_iff : (a b : List ℕ) → (str_eq a b ≡ true) ↔ (a ≡ b)
unfolding str_eq
str_eq_iff [] [] = (λ _. refl, λ _. refl)
str_eq_iff [] (b ∷ bs) = (λ e. cc, λ e. cc)
str_eq_iff (a ∷ as') [] = (λ e. cc, λ e. cc)
str_eq_iff (a ∷ as') (b ∷ bs) = (
  λ e.
      let (h, t) = &&-eq-true (a == b) (str_eq as' bs) e in
      ap₂ ◌∷◌ ((==_iff a b).0 h) ((str_eq_iff as' bs).0 t),
  λ e. rw ((==_iff a b).1 (head_eq e), (str_eq_iff as' bs).1 (tail_eq e)),
)

pub some_eq : {A : Type 0} {a b : A} → some a ≡ some b → a ≡ b
some_eq e = cc

pub true≢false : ¬ (true ≡ false)
true≢false e = cc

-- The entry is for the DLL, whatever the case of its letters, and for the function.
abbrev pub IsFor : List ℕ → List ℕ → ImportEntry → Type 0
IsFor dll func e = (lower e.dll_name ≡ lower dll) × (e.func_name ≡ func)

pub IsFor-iff :
    (dll func : List ℕ) (e : ImportEntry)
    → ((ci_streq e.dll_name dll && str_eq e.func_name func) ≡ true) ↔ IsFor dll func e
IsFor-iff dll func e = (
  λ h.
      let (a, b) = &&-eq-true (ci_streq e.dll_name dll) (str_eq e.func_name func) h in
      ((ci_streq_iff e.dll_name dll).0 a, (str_eq_iff e.func_name func).0 b),
  λ h. rw ((ci_streq_iff e.dll_name dll).1 h.0, (str_eq_iff e.func_name func).1 h.1),
)

-- The first entry of the list that is for the import.
pub data First (dll func : List ℕ) : List ImportEntry → ImportEntry → Type 0 where
  here :
      {e : ImportEntry} {rest : List ImportEntry} → IsFor dll func e → First dll func (e ∷ rest) e
  there :
      {e f : ImportEntry} {rest : List ImportEntry}
      → ¬ (IsFor dll func e)
      → First dll func rest f
      → First dll func (e ∷ rest) f

find_entry_sound :
    (table : List ImportEntry) (dll func : List ℕ) (e : ImportEntry)
    → find_entry table dll func ≡ some e
    → First dll func table e
unfolding find_entry
find_entry_sound [] dll func e h = cc
find_entry_sound (f ∷ rest) dll func e h =
    elim (Bool-cases (ci_streq f.dll_name dll && str_eq f.func_name func)) [
      | inl t ↦
          subst (λ g. First dll func (f ∷ rest) g) (some_eq (rw t at h))
            (here ((IsFor-iff dll func f).0 t))
      | inr t ↦
          there (λ w. true≢false (sym ((IsFor-iff dll func f).1 w) ∙ t))
            (find_entry_sound rest dll func e (rw t at h))
    ]

find_entry_complete :
    (dll func : List ℕ) (table : List ImportEntry) (e : ImportEntry)
    → First dll func table e
    → find_entry table dll func ≡ some e
unfolding find_entry
find_entry_complete dll func table e (here {e = f} w) = rw ((IsFor-iff dll func f).1 w)
find_entry_complete dll func table e (there {e = f} {rest = rest} n w) =
    elim (Bool-cases (ci_streq f.dll_name dll && str_eq f.func_name func)) [
      | inl t ↦ absurd (n ((IsFor-iff dll func f).0 t))
      | inr t ↦ rw t (find_entry_complete dll func rest e w)
    ]

-- The lookup returns an entry exactly if it is the table's first for that import.
pub find_entry-First :
    (table : List ImportEntry) (dll func : List ℕ) (e : ImportEntry)
    → (find_entry table dll func ≡ some e) ↔ First dll func table e
find_entry-First table dll func e =
    (find_entry_sound table dll func e, find_entry_complete dll func table e)
