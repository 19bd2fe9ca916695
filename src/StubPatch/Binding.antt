-- ===== src/StubPatch/Binding.antt =====
-- All imports together: every slot is bound, and nothing else changes.
use silver_nimbus_otter.Prelude.{
  All, List, Meets-bind, Meets-map, Returns, [], fault, ok, refl, rejected, stuck, ℕ, ◌++◌, ◌>>=◌,
  ◌∙◌, ◌∷◌, ◌≡◌,
}
use silver_nimbus_otter.Bytes.{slice}
use silver_nimbus_otter.StubPatch.Slots.{
  patch_func-Meets, Bound, IsBound, all_imports, all_funcs, SlotsApart, ApartFrom, OnlyBytes,
  HasTables, Import,
}
use silver_nimbus_otter.StubPatch.{patch_func, patch_funcs, patch_dlls}
use silver_nimbus_otter.PeImage.{ImportFunc, ImportDll, Image}
use silver_nimbus_otter.ElfSpec.{Convert}

-- The imports in turn.
unfoldable patch_all : List ℕ → List Import → Image → Convert Image
patch_all blob [] img = ok img
patch_all blob (x ∷ xs) img = patch_func blob x.0 x.1 img >>= λ img'. patch_all blob xs img'

bind_step :
    {A : Type 0} {B : Type 0} {C : Type 0} (m : Convert A) (f : A → Convert B) (k : B → Convert C)
    (g : A → Convert C)
    → ((a : A) → (f a >>= k) ≡ g a)
    → ((m >>= f) >>= k) ≡ (m >>= g)
bind_step (ok a) f k g h = h a
bind_step (rejected e) f k g h = refl
bind_step fault f k g h = refl
bind_step stuck f k g h = refl

bind_cong :
    {A : Type 0} {B : Type 0} (m : Convert A) (f g : A → Convert B)
    → ((a : A) → f a ≡ g a)
    → (m >>= f) ≡ (m >>= g)
bind_cong (ok a) f g h = h a
bind_cong (rejected e) f g h = refl
bind_cong fault f g h = refl
bind_cong stuck f g h = refl

patch_funcs-all :
    (blob dll_name : List ℕ) (funcs : List ImportFunc) (ys : List Import) (img : Image)
    → (patch_funcs blob dll_name funcs img >>= λ img'. patch_all blob ys img')
      ≡ patch_all blob (all_funcs dll_name funcs ++ ys) img
unfolding patch_funcs patch_all
patch_funcs-all blob dll_name [] ys img = refl
patch_funcs-all blob dll_name (fn ∷ funcs) ys img =
    bind_step (patch_func blob dll_name fn img) (λ a. patch_funcs blob dll_name funcs a)
      (λ a. patch_all blob ys a) (λ a. patch_all blob (all_funcs dll_name funcs ++ ys) a)
      (patch_funcs-all blob dll_name funcs ys)

patch_dlls-all :
    (blob : List ℕ) (dlls : List ImportDll) (img : Image)
    → patch_dlls blob dlls img ≡ patch_all blob (all_imports dlls) img
unfolding patch_dlls patch_all
patch_dlls-all blob [] img = refl
patch_dlls-all blob (dll ∷ dlls) img =
    bind_cong (patch_funcs blob dll.dll_name dll.funcs img) (λ a. patch_dlls blob dlls a)
      (λ a. patch_all blob (all_imports dlls) a) (patch_dlls-all blob dlls)
    ∙ patch_funcs-all blob dll.dll_name dll.funcs (all_imports dlls) img

-- The imports are bound, and only their slots change.
abbrev AllBound : List ℕ → Image → List Import → Image → Image → Type 0
AllBound blob img0 xs img img' =
    OnlyBytes img0 img'
    × ((p n : ℕ) → ApartFrom img0 p n xs → slice img'.raw p n ≡ slice img.raw p n)
    × (SlotsApart img0 xs → All (IsBound blob img0 img'.raw) xs)

patch_all-Meets :
    (blob : List ℕ) (img0 img : Image) (xs : List Import)
    → HasTables blob
    → OnlyBytes img0 img
    → Returns (AllBound blob img0 xs img) (patch_all blob xs img)
unfolding patch_all
patch_all-Meets blob img0 img [] h o = (o, (λ p n away. refl), (λ apart. tt))
patch_all-Meets blob img0 img (x ∷ xs) h o =
    Meets-bind ⊥ (Bound blob img0 x img) (AllBound blob img0 (x ∷ xs) img)
      (patch_func blob x.0 x.1 img) _ (patch_func-Meets blob img0 img x h o)
      λ mid _ a.
        Meets-map ⊥ (AllBound blob img0 xs mid) (AllBound blob img0 (x ∷ xs) img)
          (patch_all blob xs mid) (patch_all-Meets blob img0 mid xs h a.0)
          λ img' _ b. (
            b.0,
            (λ p n away. b.1 p n away.1 ∙ a.1 p n away.0),
            (λ apart.
                let (addr, slot, r, e, held) = a.2 in
                ((addr, slot, r, e, b.1 slot 4 (apart.0 slot e) ∙ held), b.2 apart.1)),
          )

-- Nothing but bytes of the file differs, and every slot is bound.
abbrev pub Rebound : List ℕ → Image → Image → Type 0
Rebound blob img img' =
    OnlyBytes img img' × All (IsBound blob img img'.raw) (all_imports img.imports)

-- If the blob's symbol tables can be searched and no two slots overlap, binding the imports either
-- is refused, or changes nothing of the image but bytes of the file, whose number stays, and leaves
-- in the slot of every import the little-endian address of the shim's symbol for it.
pub patch_dlls-Meets :
    (blob : List ℕ) (img : Image)
    → HasTables blob
    → SlotsApart img (all_imports img.imports)
    → Returns (Rebound blob img) (patch_dlls blob img.imports img)
patch_dlls-Meets blob img h apart = rw (patch_dlls-all blob img.imports img) (
    Meets-map ⊥ (AllBound blob img (all_imports img.imports) img) (Rebound blob img)
      (patch_all blob (all_imports img.imports) img)
      (patch_all-Meets blob img img (all_imports img.imports) h (refl, refl))
      λ img' _ b. (b.0, b.2 apart))

-- If the blob's symbol tables can be searched, binding the imports either is refused, or leaves every
-- range of the file as it was that is apart from all slots, and changes nothing of the image but
-- bytes of the file, whose number stays.
pub patch_dlls-kept :
    (blob : List ℕ) (img : Image) (p n : ℕ)
    → HasTables blob
    → ApartFrom img p n (all_imports img.imports)
    → Returns
        (λ img'. OnlyBytes img img' × (slice img'.raw p n ≡ slice img.raw p n))
        (patch_dlls blob img.imports img)
patch_dlls-kept blob img p n h away =
    let P = λ (img' : Image). OnlyBytes img img' × (slice img'.raw p n ≡ slice img.raw p n) in
    rw (patch_dlls-all blob img.imports img) (
      Meets-map ⊥ (AllBound blob img (all_imports img.imports) img) P
        (patch_all blob (all_imports img.imports) img)
        (patch_all-Meets blob img img (all_imports img.imports) h (refl, refl))
        λ img' _ b. (b.0, b.1 p n away))
