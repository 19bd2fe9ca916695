-- ===== src/PeRelocs/Directory.antt =====
-- The relocation directory as a whole.
use silver_nimbus_otter.Prelude.{
  Any, Bool-cases, List, Meets, Meets-bind, Meets-if, Meets-reject_if, Returns-Meets, [], ap, arith,
  if◌then◌else◌, inl, inr, length, not, ok, refl, suc, zero, ℕ, ◌*◌, ◌==◌, ◌||◌, ◌∙◌, ◌≡◌, ◌≤◌,
}
use silver_nimbus_otter.PeImports.Directory.{OnlyImports}
use silver_nimbus_otter.Host.{at_relocs, Alloc}
use silver_nimbus_otter.Diagnostics.{err_malformed, Parse}
use silver_nimbus_otter.PeRelocs.{fill_loop, Parse, Alloc, parse_relocs_dir, count_loop}
use silver_nimbus_otter.PeImage.{ImportDll, pe_rva_to_ptr, Image}
use silver_nimbus_otter.PeRelocs.Passes.{IsSmall, fill_loop-Meets}

-- The count looks at the headers, the section table and the file only.
count_loop-imports :
    (img : Image) (c : ℕ) (dlls : List ImportDll) (dir_rva dir_size fuel consumed count : ℕ)
    → count_loop
        (record img { imports_cap = c; imports = dlls })
        dir_rva
        dir_size
        fuel
        consumed
        count
      ≡ count_loop img dir_rva dir_size fuel consumed count
unfolding count_loop pe_rva_to_ptr
count_loop-imports img c dlls dir_rva dir_size zero consumed count = refl
count_loop-imports img c dlls dir_rva dir_size (suc fuel) consumed count =
    simp (count_loop-imports img c dlls dir_rva dir_size fuel)

-- Nothing but the relocations differs.
abbrev pub OnlyRelocs : Image → Image → Type 0
OnlyRelocs img img' = img' ≡ record img { relocs = img'.relocs }

-- The first pass on a directory that there is.
abbrev pub count_pass : ℕ → Image → ℕ → ℕ → Parse ℕ
count_pass fuel img dir_rva dir_size =
    if dir_rva == 0 || dir_size == 0 then ok 0 else count_loop img dir_rva dir_size fuel 0 0

pub count_pass-imports :
    (fuel : ℕ) (img img' : Image) (dir_rva dir_size : ℕ)
    → OnlyImports img img'
    → count_pass fuel img' dir_rva dir_size ≡ count_pass fuel img dir_rva dir_size
count_pass-imports fuel img img' dir_rva dir_size e =
    ap (λ (r : Image). count_pass fuel r dir_rva dir_size) e
    ∙ simp (count_loop-imports img img'.imports_cap img'.imports dir_rva dir_size fuel 0 0)

-- If the counting pass has defined behaviour, the whole has, and it returns if that pass does: the
-- overflow of the counter is the only way to undefined behaviour, and the second pass always ends.
pub parse_relocs_dir-Meets :
    (S : Type 0) (alloc : Alloc) (fuel : ℕ) (img : Image) (dir_rva dir_size : ℕ)
    → IsSmall img.raw
    → Meets S Any (count_pass fuel img dir_rva dir_size)
    → Meets S (OnlyRelocs img) (parse_relocs_dir alloc fuel img dir_rva dir_size)
unfolding parse_relocs_dir
parse_relocs_dir-Meets S alloc fuel img dir_rva dir_size small h =
    elim (Bool-cases (dir_rva == 0 || dir_size == 0)) [
      | inl e ↦ rw e refl
      | inr e ↦ rw e (
          Meets-bind S Any (OnlyRelocs img) (count_loop img dir_rva dir_size fuel 0 0) _ (rw e at h)
            (λ n q _.
              Meets-if S (OnlyRelocs img) (n == 0) _ _ (λ _. refl)
                (λ _.
                  Meets-reject_if S (OnlyRelocs img) (not (alloc at_relocs (n * 4))) err_malformed _
                    (λ _.
                      Meets-bind S (λ r. length r ≤ n) (OnlyRelocs img)
                        (fill_loop img dir_rva dir_size n fuel 0 []) _
                        (Returns-Meets S _ (fill_loop img dir_rva dir_size n fuel 0 []) (
                          fill_loop-Meets img dir_rva dir_size fuel 0 0 n [] small q (omega arith)))
                        (λ r _ _. refl)))))
    ]
