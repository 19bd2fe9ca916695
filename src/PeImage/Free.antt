-- ===== src/PeImage/Free.antt =====
-- `pe_image_free` of src/pe_reader.c: the heap blocks of an image.
use silver_nimbus_otter.Prelude.{
  Bool, List, [], ap, arith, false, if◌then◌else◌, leb, length, ltb, refl, true, ℕ, ◌&&◌, ◌++◌, ◌+◌,
  ◌==◌, ◌∙◌, ◌∷◌, ◌≡◌,
}
use silver_nimbus_otter.PeImage.{Image, ImportDll}

-- The arrays that an image owns, those of the functions by the index of their DLL.
pub data Block : Type 0 where
  raw_block relocs_block sections_block imports_block : Block
  funcs_block : ℕ → Block

unfoldable pub free_funcs : ℕ → List ImportDll → List Block
free_funcs i [] = []
free_funcs i (dll ∷ dlls) = funcs_block i ∷ free_funcs (i + 1) dlls

-- The calls of free in their order, and the image with its pointers set to NULL.
unfoldable pub pe_image_free : Image → List Block × Image
unfolding free_funcs
pe_image_free img = (
  raw_block ∷ relocs_block ∷ sections_block ∷ (free_funcs 0 img.imports ++ (imports_block ∷ [])),
  record img { raw = []; relocs = []; sections = []; imports = [] },
)

abbrev same_block : Block → Block → Bool
same_block raw_block raw_block = true
same_block relocs_block relocs_block = true
same_block sections_block sections_block = true
same_block imports_block imports_block = true
same_block (funcs_block i) (funcs_block j) = i == j
same_block a b = false

-- How often a block is freed.
abbrev pub times : Block → List Block → ℕ
times b [] = 0
times b (c ∷ cs) = let rest = times b cs in if same_block b c then rest + 1 else rest

-- The blocks that an image has.
abbrev pub owns : Image → Block → Bool
owns img (funcs_block i) = ltb i (length img.imports)
owns img b = true

times-free_funcs :
    (i j : ℕ) (dlls : List ImportDll)
    → times (funcs_block j) (free_funcs i dlls ++ (imports_block ∷ []))
      ≡ (if leb i j && ltb j (i + length dlls) then 1 else 0)
unfolding free_funcs
times-free_funcs i j [] = ground arith
times-free_funcs i j (dll ∷ dlls) = ground (arith, times-free_funcs (i + 1) j dlls)

-- No other block is among those of the functions.
others :
    (b : Block) (i : ℕ) (dlls : List ImportDll)
    → ((k : ℕ) → same_block b (funcs_block k) ≡ false)
    → times b (free_funcs i dlls ++ (imports_block ∷ []))
      ≡ (if same_block b imports_block then 1 else 0)
unfolding free_funcs
others b i [] h = ground arith
others b i (dll ∷ dlls) h = rw (h i, others b (i + 1) dlls h) refl

-- Every block that the image has is freed once, and no other.
pub times-pe_image_free :
    (img : Image) (b : Block) → times b (pe_image_free img).0 ≡ (if owns img b then 1 else 0)
unfolding pe_image_free
times-pe_image_free img raw_block =
    ap (λ (n : ℕ). n + 1) (others raw_block 0 img.imports (λ k. refl)) ∙ omega arith
times-pe_image_free img relocs_block =
    ap (λ (n : ℕ). n + 1) (others relocs_block 0 img.imports (λ k. refl)) ∙ omega arith
times-pe_image_free img sections_block =
    ap (λ (n : ℕ). n + 1) (others sections_block 0 img.imports (λ k. refl)) ∙ omega arith
times-pe_image_free img imports_block = others imports_block 0 img.imports (λ k. refl)
times-pe_image_free img (funcs_block i) = ground (arith, times-free_funcs 0 i img.imports)
