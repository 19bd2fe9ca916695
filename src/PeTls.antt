-- ===== src/PeTls.antt =====
-- `pe_parse_tls_dir` of src/pe_relocs.c: the TLS directory and its callbacks.
pub mod Callbacks
use silver_nimbus_otter.Prelude.{
  List, [], false, if◌then◌else◌, leb, length, ltb, ok, reject_if, stuck, suc, true, zero, ℕ, ◌%◌,
  ◌*◌, ◌++◌, ◌+◌, ◌-◌, ◌==◌, ◌||◌, ◌∷◌, ◌>>=◌, ◌>>◌,
}
use silver_nimbus_otter.Bytes.{u32_mod, mem_read, u32_at}
use silver_nimbus_otter.Diagnostics.{Parse, err_malformed, or_reject}
use silver_nimbus_otter.PeFormat.{tls_directory, sizeof_tls_directory}
use silver_nimbus_otter.PeImage.{Image, pe_rva_to_ptr}

abbrev pub max_tls_callbacks : ℕ
max_tls_callbacks = 16

unfoldable pub callbacks_loop : Image → ℕ → ℕ → ℕ → List ℕ → Parse (List ℕ)
callbacks_loop img arr_rva zero i rvas = stuck
callbacks_loop img arr_rva (suc fuel) i rvas = do
  ep ← or_reject (pe_rva_to_ptr img ((arr_rva + i * 4) % u32_mod) 4)
  bs ← mem_read img.raw ep 4
  let cb_va = u32_at bs 0
  if cb_va == 0 then ok rvas else do
    reject_if (ltb cb_va img.image_base) err_malformed
    reject_if (leb max_tls_callbacks (length rvas)) err_malformed
    callbacks_loop img arr_rva fuel (i + 1) (rvas ++ ((cb_va - img.image_base) ∷ []))

-- A seventeenth callback ends the loop, so seventeen rounds are enough for any input.
unfoldable pub parse_tls_dir : Image → ℕ → ℕ → Parse Image
unfolding callbacks_loop
parse_tls_dir img dir_rva dir_size =
    if dir_rva == 0 || dir_size == 0 then ok (record img { has_tls = false }) else do
      p ← or_reject (pe_rva_to_ptr img dir_rva sizeof_tls_directory)
      bs ← mem_read img.raw p sizeof_tls_directory
      let va = (tls_directory bs).address_of_callbacks
      if va == 0 then ok (record img { has_tls = true; tls_has_callbacks = false }) else do
        reject_if (ltb va img.image_base) err_malformed
        rvas ← callbacks_loop img (va - img.image_base) 17 0 img.tls_callback_rvas
        ok (record img { has_tls = true; tls_has_callbacks = true; tls_callback_rvas = rvas })
