-- ===== src/PeReader/Headers.antt =====
-- The headers and the section table: every read lies in the file, and what is accepted is in order.
use silver_nimbus_otter.Prelude.{
  List, Meets-reject_if, Returns, arith, false, leb, length, ltb, ltb→ge, not, refl, test_bit, true,
  ℕ, ◌&&◌, ◌+◌, ◌<◌, ◌==◌, ◌||◌, ◌≡◌, ◌≢◌, ◌≤◌, ◌⊎◌,
}
use silver_nimbus_otter.PeReader.Fields.{pe_offset}
use silver_nimbus_otter.Diagnostics.{
  err_imagebase_conflict, err_delay_imports, err_has_dotnet, err_unsupported_subsystem,
  err_bad_opthdr_magic, err_pe32plus, err_bad_nt_signature, err_malformed, err_not_executable,
  err_bad_dos_magic, err_is_dll, err_not_i386, RejectReason, err_truncated,
}
use silver_nimbus_otter.PeReader.{
  read_optional_header, check_optional_header, err_truncated, read_dos_header, read_coff_header,
}
use silver_nimbus_otter.PeFormat.{
  dir_delay_import, directory, dir_com_descriptor, num_directories, subsystem_windows_gui,
  subsystem_windows_cui, opthdr64_magic, optional_header, opthdr32_magic, OptionalHeader,
  nt_signature, dos_magic, file_executable_bit, dos_header, file_dll_bit, machine_i386, coff_header,
  CoffHeader,
}
use silver_nimbus_otter.Bytes.{slice, u32_at}
use silver_nimbus_otter.Bytes.Laws.{mem_read_ok}

-- The NT signature lies in the file, at the offset that the DOS header tells.
abbrev pub DosAt : List ℕ → ℕ → Type 0
DosAt raw e = (e + 4 ≤ length raw) × (e ≡ pe_offset raw)

pub read_dos_header-Meets : (raw : List ℕ) → Returns (DosAt raw) (read_dos_header raw)
unfolding read_dos_header dos_header
read_dos_header-Meets raw =
    Meets-reject_if ⊥ (DosAt raw) (ltb (length raw) 64) err_truncated _ λ big.
      rw (mem_read_ok {E = RejectReason} raw 0 64 (ltb→ge _ _ big)) (
        let dos = dos_header (slice raw 0 64) in
        Meets-reject_if ⊥ (DosAt raw) (not (dos.e_magic == dos_magic)) err_bad_dos_magic _ λ _.
          Meets-reject_if ⊥ (DosAt raw)
            (leb 2147483648 dos.e_lfanew || ltb (length raw) (dos.e_lfanew + 4)) err_malformed _
            λ inside.
              let fits : dos.e_lfanew + 4 ≤ length raw = ground arith in
              rw (mem_read_ok {E = RejectReason} raw dos.e_lfanew 4 fits) (
                Meets-reject_if ⊥ (DosAt raw)
                  (not (u32_at (slice raw dos.e_lfanew 4) 0 == nt_signature)) err_bad_nt_signature _
                  λ _. (fits, refl)))

-- An accepted COFF header lies in the file and is that of an i386 program, not a DLL.
abbrev pub IsProgram : CoffHeader → Type 0
IsProgram coff =
    (coff.machine ≡ machine_i386)
    × (test_bit coff.characteristics file_dll_bit ≡ false)
    × (test_bit coff.characteristics file_executable_bit ≡ true)

abbrev pub CoffAt : List ℕ → ℕ → CoffHeader → Type 0
CoffAt raw off coff =
    (off + 20 ≤ length raw) × (coff ≡ coff_header (slice raw off 20)) × IsProgram coff

pub read_coff_header-Meets :
    (raw : List ℕ) (off : ℕ) → Returns (CoffAt raw off) (read_coff_header raw off)
unfolding read_coff_header
read_coff_header-Meets raw off =
    Meets-reject_if ⊥ (CoffAt raw off) (ltb (length raw) (off + 20)) err_truncated _ λ big.
      let inside = ltb→ge _ _ big in
      rw (mem_read_ok {E = RejectReason} raw off 20 inside) (
        let coff = coff_header (slice raw off 20) in
        Meets-reject_if ⊥ (CoffAt raw off) (not (coff.machine == machine_i386)) err_not_i386 _
          λ i386.
            Meets-reject_if ⊥ (CoffAt raw off) (test_bit coff.characteristics file_dll_bit)
              err_is_dll _
              λ exe.
                Meets-reject_if ⊥ (CoffAt raw off)
                  (not (test_bit coff.characteristics file_executable_bit)) err_not_executable _
                  λ marked. (inside, refl, (ground arith, exe, ground arith)))

-- An accepted optional header is PE32, for the console or a GUI, counts at most sixteen
-- directories, names neither .NET metadata nor delayed imports, and has an image base.
pub record IsSupported (opt : OptionalHeader) : Type 0 where
  pub pe32 : opt.magic ≡ opthdr32_magic
  pub subsystem : (opt.subsystem ≡ subsystem_windows_cui) ⊎ (opt.subsystem ≡ subsystem_windows_gui)
  pub dirs : opt.number_of_rva_and_sizes ≤ num_directories
  pub native :
      dir_com_descriptor < opt.number_of_rva_and_sizes → (directory opt dir_com_descriptor).size ≡ 0
  pub eager :
      dir_delay_import < opt.number_of_rva_and_sizes → (directory opt dir_delay_import).size ≡ 0
  pub based : opt.image_base ≢ 0

abbrev pub OptAt : List ℕ → ℕ → ℕ → OptionalHeader → Type 0
OptAt raw off size opt =
    (224 ≤ size)
    × (off + 224 ≤ length raw)
    × (opt ≡ optional_header (slice raw off 224))
    × IsSupported opt

-- The tests that the optional header passes, in the source's order.
check_optional_header-Meets :
    (raw : List ℕ) (off size : ℕ) (opt : OptionalHeader)
    → 224 ≤ size
    → off + 224 ≤ length raw
    → opt ≡ optional_header (slice raw off 224)
    → Returns (OptAt raw off size) (check_optional_header opt)
unfolding check_optional_header
check_optional_header-Meets raw off size opt fits inside e =
    let P = OptAt raw off size in
    let dirs = opt.number_of_rva_and_sizes in
    Meets-reject_if ⊥ P (opt.magic == opthdr64_magic) err_pe32plus _ λ _.
      Meets-reject_if ⊥ P (not (opt.magic == opthdr32_magic)) err_bad_opthdr_magic _ λ a.
        Meets-reject_if ⊥ P
          (not (opt.subsystem == subsystem_windows_cui)
            && not (opt.subsystem == subsystem_windows_gui))
          err_unsupported_subsystem _
          λ b. Meets-reject_if ⊥ P (ltb num_directories dirs) err_malformed _ λ c.
            Meets-reject_if ⊥ P
              (ltb dir_com_descriptor dirs && not ((directory opt dir_com_descriptor).size == 0))
              err_has_dotnet _
              λ d.
                Meets-reject_if ⊥ P
                  (ltb dir_delay_import dirs && not ((directory opt dir_delay_import).size == 0))
                  err_delay_imports _
                  λ f. Meets-reject_if ⊥ P (opt.image_base == 0) err_imagebase_conflict _ λ g. (
                    fits,
                    inside,
                    e,
                    record {
                      pe32 = ground arith;
                      subsystem = ground arith;
                      dirs = ground arith;
                      native = λ h. ground arith;
                      eager = λ h. ground arith;
                      based = λ h. ground arith;
                    },
                  )

pub read_optional_header-Meets :
    (raw : List ℕ) (off size : ℕ) → Returns (OptAt raw off size) (read_optional_header raw off size)
unfolding read_optional_header
read_optional_header-Meets raw off size =
    Meets-reject_if ⊥ (OptAt raw off size) (ltb size 224 || ltb (length raw) (off + 224))
      err_truncated _
      λ ok_size.
        let inside : off + 224 ≤ length raw = ground arith in
        rw (mem_read_ok {E = RejectReason} raw off 224 inside) (
          check_optional_header-Meets raw off size (optional_header (slice raw off 224))
            (ground arith) inside refl)
