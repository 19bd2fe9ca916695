-- ===== src/PeImports/Strings.antt =====
-- src/pe_imports.c: the strings that the parser reads.
use silver_nimbus_otter.Prelude.{
  ==_iff, Bool-cases, List, Option, Option-cases, [], ap, arith, bind-eq-ok, get_or, inl, inr,
  length, none, ok, ok-injective, refl, some, subst, suc, sym, zero, ℕ, ◌%◌, ◌+◌, ◌-◌, ◌<◌, ◌==◌,
  ◌>>=◌, ◌∙◌, ◌∷◌, ◌≡◌, ◌≢◌, ◌⊎◌,
}
use silver_nimbus_otter.PeImage.Views.{view_of-some, view_of, View}
use silver_nimbus_otter.PeImage.Mapping.{pe_rva_to_ptr_inside}
use silver_nimbus_otter.Bytes.Laws.{length-slice, mem_read_ok}
use silver_nimbus_otter.Diagnostics.{RejectReason}
use silver_nimbus_otter.PeImports.{
  read_c_string, after_byte, probe, read_c_string_loop, cons_string,
}
use silver_nimbus_otter.PeImage.{pe_rva_to_ptr, Image}
use silver_nimbus_otter.Bytes.{u32_mod, slice}

-- The characters stand at the addresses from `rva + i` on, and none of them is NUL.
abbrev pub StandsAt : View → ℕ → ℕ → List ℕ → Type 0
StandsAt view rva i [] = Unit
StandsAt view rva i (c ∷ s) =
    (view ((rva + i) % u32_mod) 1 ≡ some (c ∷ [])) × (c ≢ 0) × StandsAt view rva (i + 1) s

-- The C string at an address, or its first `room` characters.
abbrev pub IsStringAt : View → ℕ → ℕ → List ℕ → Type 0
IsStringAt view rva room s =
    StandsAt view rva 0 s
    × ((length s ≡ room)
        ⊎ ((length s < room) × (view ((rva + length s) % u32_mod) 1 ≡ some (0 ∷ []))))

-- The same of the rest of a string.
abbrev Rest : View → ℕ → ℕ → ℕ → List ℕ → Type 0
Rest view rva i room s =
    StandsAt view rva i s
    × ((length s ≡ room)
        ⊎ ((length s < room) × (view ((rva + (i + length s)) % u32_mod) 1 ≡ some (0 ∷ []))))

Rest-suc :
    (view : View) (rva i n c : ℕ) (s : List ℕ)
    → view ((rva + i) % u32_mod) 1 ≡ some (c ∷ [])
    → c ≢ 0
    → Rest view rva (i + 1) n s
    → Rest view rva i (suc n) (c ∷ s)
Rest-suc view rva i n c s e ne (stands, inl full) = ((e, ne, stands), inl (omega arith))
Rest-suc view rva i n c s e ne (stands, inr (less, nul)) =
    let q : i + 1 + length s ≡ i + suc (length s) = omega arith in
    ((e, ne, stands), inr (omega arith, ap (λ (k : ℕ). view ((rva + k) % u32_mod) 1) (sym q) ∙ nul))

one_byte : (bs : List ℕ) → length bs ≡ 1 → bs ≡ get_or bs 0 0 ∷ []
one_byte [] h = absurd (omega arith)
one_byte (b ∷ []) h = refl
one_byte (b ∷ c ∷ bs) h = absurd (omega arith)

probe-eq-ok :
    (img : Image) (rva : ℕ) (found : Option ℕ)
    → probe img rva ≡ ok found
    → (found ≡ none) ⊎ ((b : ℕ) × (found ≡ some b) × (view_of img rva 1 ≡ some (b ∷ [])))
unfolding probe
probe-eq-ok img rva found h = elim (Option-cases (pe_rva_to_ptr img rva 1)) [
  | inl e ↦ inl (sym (ok-injective (rw e at h)))
  | inr (p, e) ↦
      let inside = pe_rva_to_ptr_inside img rva 1 p e in
      let read = mem_read_ok {E = RejectReason} img.raw p 1 inside in
      let bs = slice img.raw p 1 in
      inr (
        get_or bs 0 0,
        sym (ok-injective (rw (e, read) at h)),
        view_of-some img rva 1 p e
            ∙ ap (λ t. some t) (one_byte bs (length-slice img.raw p 1 inside)),
      )
]

cons_string-some :
    (b : ℕ) (o : Option (List ℕ)) (s : List ℕ)
    → cons_string b o ≡ some s
    → (rest : List ℕ) × (o ≡ some rest) × (s ≡ b ∷ rest)
cons_string-some b none s h = cc
cons_string-some b (some rest) s h = (rest, refl, cc)

Rest-nil :
    (view : View) (rva i n : ℕ)
    → view ((rva + i) % u32_mod) 1 ≡ some (0 ∷ [])
    → Rest view rva i (suc n) []
Rest-nil view rva i n e =
    let q : i + 0 ≡ i = omega arith in
    (tt, inr (omega arith, ap (λ (k : ℕ). view ((rva + k) % u32_mod) 1) q ∙ e))

read_c_string_loop-Rest :
    (img : Image) (rva i n : ℕ) (s : List ℕ)
    → read_c_string_loop img rva i n ≡ ok (some s)
    → Rest (view_of img) rva i n s
unfolding read_c_string_loop
read_c_string_loop-Rest img rva i zero s h =
    let e : [] ≡ s = cc in subst (Rest (view_of img) rva i 0) e (tt, inl refl)
read_c_string_loop-Rest img rva i (suc n) s h =
    let more = read_c_string_loop img rva (i + 1) n in
    let (found, e, k) = bind-eq-ok (probe img ((rva + i) % u32_mod)) (λ o. after_byte o more) h in
    elim (probe-eq-ok img ((rva + i) % u32_mod) found e) [
      | inl q ↦ cc (rw q at k)
      | inr (b, q, shown) ↦
          let k' : after_byte (some b) more ≡ ok (some s) = rw q at k in
          elim (Bool-cases (b == 0)) [
            | inl z ↦
                let nul : view_of img ((rva + i) % u32_mod) 1 ≡ some (0 ∷ []) =
                  shown ∙ ap (λ (c : ℕ). some (c ∷ [])) ((==_iff b 0).0 z) in
                let e' : some [] ≡ some s = ok-injective (rw z at k') in
                let e2 : [] ≡ s = cc in
                subst (Rest (view_of img) rva i (suc n)) e2 (Rest-nil (view_of img) rva i n nul)
            | inr nz ↦
                let k2 : (more >>= λ rest. ok (cons_string b rest)) ≡ ok (some s) = rw nz at k' in
                let (o, e2, e3) = bind-eq-ok more (λ rest. ok (cons_string b rest)) k2 in
                let (rest, e4, e5) = cons_string-some b o s (ok-injective e3) in
                let ne : b ≢ 0 = λ z. absurd (ground arith) in
                subst (Rest (view_of img) rva i (suc n)) (sym e5) (
                  Rest-suc (view_of img) rva i n b rest shown ne
                    (read_c_string_loop-Rest img rva (i + 1) n rest (e2 ∙ ap (λ t. ok t) e4)))
          ]
    ]

IsStringAt-Rest :
    (view : View) (rva room : ℕ) (s : List ℕ) → Rest view rva 0 room s → IsStringAt view rva room s
IsStringAt-Rest view rva room s (stands, inl full) = (stands, inl full)
IsStringAt-Rest view rva room s (stands, inr (less, nul)) =
    let q : length s ≡ 0 + length s = omega arith in
    (stands, inr (less, ap (λ (k : ℕ). view ((rva + k) % u32_mod) 1) q ∙ nul))

-- What the parser takes for a string is the string that stands there.
pub read_c_string-IsStringAt :
    (img : Image) (rva size : ℕ) (s : List ℕ)
    → read_c_string img rva size ≡ ok (some s)
    → IsStringAt (view_of img) rva (size - 1) s
unfolding read_c_string
read_c_string-IsStringAt img rva size s h =
    IsStringAt-Rest (view_of img) rva (size - 1) s
      (read_c_string_loop-Rest img rva 0 (size - 1) s h)
