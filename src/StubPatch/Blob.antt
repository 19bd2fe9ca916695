-- ===== src/StubPatch/Blob.antt =====
-- What the build promises of the shim blob: a well-formed ELF file, whose tables lie in it.
use silver_nimbus_otter.Prelude.{
  &&-eq-true, All, Any, List, Meets-bind, Meets-if, Option, Returns, arith, leb, leb→le, length,
  none, not, refl, some, suc, true, zero, ℕ, ◌%◌, ◌&&◌, ◌*◌, ◌+◌, ◌-◌, ◌<◌, ◌==◌, ◌∙◌, ◌≡◌, ◌≤◌,
}
use silver_nimbus_otter.StubPatch.Memory.{length-splice, mem_write_ok}
use silver_nimbus_otter.ElfSpec.{ConvertError}
use silver_nimbus_otter.Elf32.{pt_load}
use silver_nimbus_otter.Bytes.Laws.{mem_read_ok}
use silver_nimbus_otter.StubPatch.Slots.{HasTables}
use silver_nimbus_otter.StubPatch.Symbols.{word_at}
use silver_nimbus_otter.StubPatch.{pt_load, ConvertError, phdr_off, poke_loop}
use silver_nimbus_otter.ShimBlob.{shim_find_symbol, read_u32, read_u16}
use silver_nimbus_otter.Bytes.{IsByte, text, slice, le32, u32_mod, u16_at}

pub read_u32-Meets :
    (blob : List ℕ) (off : ℕ)
    → off + 4 ≤ length blob
    → Returns (λ v. v ≡ word_at blob off) (read_u32 blob off)
unfolding read_u32
read_u32-Meets blob off h = rw (mem_read_ok {E = ConvertError} blob off 4 h) refl

abbrev pub phoff_of : List ℕ → ℕ
phoff_of blob = word_at blob 28

abbrev pub phnum_of : List ℕ → ℕ
phnum_of blob = u16_at (slice blob 44 2) 0

pub read_u16-Meets :
    (blob : List ℕ) → 46 ≤ length blob → Returns (λ v. v ≡ phnum_of blob) (read_u16 blob 44)
unfolding read_u16
read_u16-Meets blob h = rw (mem_read_ok {E = ConvertError} blob 44 2 h) refl

-- The bytes of the `n` segments from header `i` on lie in the blob, and their addresses below 2^32.
abbrev pub LoadsIn : List ℕ → ℕ → ℕ → ℕ → Type 0
LoadsIn blob phoff zero i = Unit
LoadsIn blob phoff (suc n) i =
    (word_at blob (phdr_off phoff i + 4) + word_at blob (phdr_off phoff i + 16) ≤ length blob)
    × (word_at blob (phdr_off phoff i + 8) + word_at blob (phdr_off phoff i + 16) < u32_mod)
    × LoadsIn blob phoff n (i + 1)

-- Room for the segments' bytes, each with its padding.
abbrev pub loads_span : List ℕ → ℕ → ℕ → ℕ → ℕ
loads_span blob phoff zero i = 0
loads_span blob phoff (suc n) i =
    word_at blob (phdr_off phoff i + 16) + 4096 + loads_span blob phoff n (i + 1)

-- Four bytes from the address on do not pass 2^32.
abbrev pub IsWordAddress : Option ℕ → Type 0
IsWordAddress none = Unit
IsWordAddress (some v) = v + 4 < u32_mod

pub record IsShim (blob : List ℕ) : Type 0 where
  pub bytes : All IsByte blob
  pub tables : HasTables blob
  pub entry_target : Returns IsWordAddress (shim_find_symbol blob (text "shim_pe_entry_target"))
  pub start : Returns Any (shim_find_symbol blob (text "_start"))
  pub has_header : 52 ≤ length blob
  pub headers : phoff_of blob + phnum_of blob * 32 ≤ length blob
  pub loads : LoadsIn blob (phoff_of blob) (phnum_of blob) 0

poke_inside :
    (p_vaddr p_filesz p_offset vaddr size : ℕ)
    → p_offset + p_filesz ≤ size
    → p_vaddr + p_filesz < u32_mod
    → vaddr + 4 < u32_mod
    → (leb p_vaddr vaddr && leb ((vaddr + 4) % u32_mod) ((p_vaddr + p_filesz) % u32_mod)) ≡ true
    → (p_offset + (vaddr - p_vaddr)) % u32_mod + 4 ≤ size
poke_inside p_vaddr p_filesz p_offset vaddr size h k v c =
    let (a, b) =
      &&-eq-true (leb p_vaddr vaddr) (leb ((vaddr + 4) % u32_mod) ((p_vaddr + p_filesz) % u32_mod))
        c in
    omega (
      arith,
      leb→le p_vaddr vaddr a,
      leb→le ((vaddr + 4) % u32_mod) ((p_vaddr + p_filesz) % u32_mod) b,
    )

-- The poke stays inside the copy of the shim.
pub poke_loop-Meets :
    (blob : List ℕ) (phoff n i : ℕ) (shim : List ℕ) (vaddr value : ℕ)
    → phoff + (i + n) * 32 ≤ length blob
    → LoadsIn blob phoff n i
    → length shim ≡ length blob
    → vaddr + 4 < u32_mod
    → Returns (λ r. length r ≡ length blob) (poke_loop blob phoff n i shim vaddr value)
unfolding poke_loop le32
poke_loop-Meets blob phoff zero i shim vaddr value h l e v = tt
poke_loop-Meets blob phoff (suc n) i shim vaddr value h l e v =
    let P = λ (r : List ℕ). length r ≡ length blob in
    let at = phdr_off phoff i in
    let next = poke_loop-Meets blob phoff n (i + 1) shim vaddr value (omega arith) l.2 e v in
    Meets-bind ⊥ (λ t. t ≡ word_at blob at) P (read_u32 blob at) _
      (read_u32-Meets blob at (omega arith))
      λ p_type _ _.
        Meets-if ⊥ P (not (p_type == pt_load)) _ _ (λ _. next)
          (λ _.
            Meets-bind ⊥ (λ t. t ≡ word_at blob (at + 8)) P (read_u32 blob (at + 8)) _
              (read_u32-Meets blob (at + 8) (omega arith))
              λ p_vaddr _ e8.
                Meets-bind ⊥ (λ t. t ≡ word_at blob (at + 16)) P (read_u32 blob (at + 16)) _
                  (read_u32-Meets blob (at + 16) (omega arith))
                  λ p_filesz _ e16.
                    Meets-bind ⊥ (λ t. t ≡ word_at blob (at + 4)) P (read_u32 blob (at + 4)) _
                      (read_u32-Meets blob (at + 4) (omega arith))
                      λ p_offset _ e4.
                        Meets-if ⊥ P
                          (leb p_vaddr vaddr
                            && leb ((vaddr + 4) % u32_mod) ((p_vaddr + p_filesz) % u32_mod))
                          _ _
                          (λ c.
                            let off = (p_offset + (vaddr - p_vaddr)) % u32_mod in
                            let inside : off + 4 ≤ length shim =
                              poke_inside p_vaddr p_filesz p_offset vaddr (length shim)
                                (omega (arith, l.0, e4, e16, e)) (omega (arith, l.1, e8, e16)) v
                                c in
                            rw (mem_write_ok {E = ConvertError} shim off (le32 value) inside)
                              (length-splice shim off (le32 value) inside ∙ e))
                          (λ _. next))
