-- ===== src/Samples/Process/Calls.antt =====
-- Calls of the shim's functions in the process of the tests.
use silver_nimbus_otter.Samples.Process.{write_all, small_writes, fresh, small_writes-IsWrite}
use silver_nimbus_otter.Prelude.{
  Returns, [], arith, inl, inr, length, ok, refl, replicate, stuck, suc, take, ℕ, ◌+◌, ◌↔◌, ◌∷◌,
  ◌≡◌, ◌≢◌, ◌≤◌,
}
use silver_nimbus_otter.Runtime.Format.Width.{format_loop_width}
use silver_nimbus_otter.Runtime.Startup.Teb.{setup_fake_teb-Meets, HasSegment, IsTeb}
use silver_nimbus_otter.Runtime.Msvcrt.Print.{vfprintf-Meets, IsStreamOf}
use silver_nimbus_otter.Runtime.Output.{write_all}
use silver_nimbus_otter.Runtime.Format.Ends.{vformat_ends}
use silver_nimbus_otter.Runtime.Startup.{setup_fake_teb}
use silver_nimbus_otter.Runtime.Memory.Ranges.{IsMapped}
use silver_nimbus_otter.Runtime.Kernel32.{write_file, virtual_protect, create_file}
use silver_nimbus_otter.Runtime.Startup.CommandLine.{CommandLine}
use silver_nimbus_otter.Runtime.Output.Whole.{write_all_whole, Says, IsSteady}
use silver_nimbus_otter.Runtime.Msvcrt.Compare.{strncmp_lem, order_of}
use silver_nimbus_otter.Runtime.Msvcrt.{vfprintf, strncmp}
use silver_nimbus_otter.Runtime.Memory.{bytes_from, accessible}
use silver_nimbus_otter.Runtime.Kernel32.Protection.{virtual_protect-Meets, ProtectedRegion}
use silver_nimbus_otter.Runtime.Kernel32.Files.{
  write_file-Meets, create_file-Meets, WroteFile, OpenedFile,
}
use silver_nimbus_otter.Runtime.Heap.Realloc.{HoldsBytes}
use silver_nimbus_otter.Runtime.Format.Render.{emit, int_text, render_conversion, render}
use silver_nimbus_otter.Runtime.Format.{format_loop, string_arg, digits_loop, uint_text, vformat}
use silver_nimbus_otter.Bytes.{up_to_nul, text}

small_writes-IsSteady : IsSteady small_writes
small_writes-IsSteady events fd p n h = (ground arith, ground arith)

-- A range of the program's page.
page-IsMapped : (a n : ℕ) → 0x1000 ≤ a → a + n ≤ 0x2000 → IsMapped fresh a n
unfolding accessible
page-IsMapped a n lo hi x from to = ground arith

fresh-HoldsBytes : HoldsBytes fresh
fresh-HoldsBytes x = omega arith

vformat_ends_example : vformat 4294967300 fresh (replicate 4 1) (text "%s%") (0x1000 ∷ []) ≢ stuck
vformat_ends_example =
    vformat_ends 4294967300 fresh (replicate 4 1) (text "%s%") (0x1000 ∷ []) (omega arith)

write_all_whole_example :
    Returns
      (λ r. (r.0 ≡ 10) × Says 1 (bytes_from fresh.bytes 0x1000 10) fresh r.1)
      (write_all small_writes 1 0x1000 10 fresh)
write_all_whole_example =
    write_all_whole small_writes 1 0x1000 10 fresh small_writes-IsWrite small_writes-IsSteady
      (omega arith)

greeting : render (suc (length (text "hi %u"))) 9 fresh (text "hi %u") (7 ∷ []) ≡ ok (text "hi 7")
unfolding render render_conversion int_text uint_text digits_loop string_arg
greeting = refl

vfprintf-Meets_example :
    Returns
      (λ r.
        (fd : ℕ) × IsStreamOf fresh.iob 0x1840 fd
        × (r.0 ≡ length (take 1023 (text "hi 7")))
        × Says fd (take 1023 (text "hi 7")) fresh r.1)
      (vfprintf small_writes 9 0x1840 (text "hi %u") (7 ∷ []) fresh)
vfprintf-Meets_example =
    vfprintf-Meets small_writes 9 0x1840 (text "hi %u") (7 ∷ []) (text "hi 7") fresh
      small_writes-IsWrite small_writes-IsSteady greeting (omega arith)

virtual_protect-Meets_example :
    Returns
      (ProtectedRegion 0x1234 0x2000 0x20 fresh)
      (virtual_protect small_writes 0x1234 0x2000 0x20 0x1100 fresh)
virtual_protect-Meets_example =
    virtual_protect-Meets small_writes 0x1234 0x2000 0x20 0x1100 fresh (omega arith)
      (inr (page-IsMapped 0x1100 4 (omega arith) (omega arith)))

write_file-Meets_example :
    Returns
      (WroteFile 2 0x1000 10 0x1100 0 fresh)
      (write_file small_writes 2 0x1000 10 0x1100 0 fresh)
write_file-Meets_example =
    write_file-Meets small_writes 2 0x1000 10 0x1100 0 fresh small_writes-IsWrite
      small_writes-IsSteady (omega arith) (omega arith) (λ e. omega arith)
      (inr (page-IsMapped 0x1100 4 (omega arith) (omega arith)))

create_file-Meets_example :
    Returns (OpenedFile 3) (create_file small_writes 0x1000 0x80000000 3 fresh)
create_file-Meets_example =
    create_file-Meets small_writes 0x1000 0x80000000 3 3 fresh refl (λ e. omega arith)

-- The bytes from 0x1041 on and from 0x1141 on are the same.
same_text : up_to_nul (bytes_from fresh.bytes 0x1141 3) ≡ text "ABC"
unfolding up_to_nul
same_text = refl

first_text : up_to_nul (bytes_from fresh.bytes 0x1041 3) ≡ text "ABC"
unfolding up_to_nul
first_text = refl

strncmp_lem_example :
    (strncmp fresh 0x1041 0x1141 3 ≡ ok (order_of (text "ABC") (text "ABC")))
    × ((order_of (text "ABC") (text "ABC") ≡ 0) ↔ (text "ABC" ≡ text "ABC"))
strncmp_lem_example =
    strncmp_lem fresh 0x1041 0x1141 3 (page-IsMapped 0x1041 3 (omega arith) (omega arith))
      (page-IsMapped 0x1141 3 (omega arith) (omega arith)) fresh-HoldsBytes (text "ABC")
      (text "ABC") first_text same_text

setup_fake_teb-Meets_example :
    Returns
      (λ m'. IsTeb 0x200000 fresh m' × HasSegment small_writes fresh m')
      (setup_fake_teb small_writes 0x200000 fresh)
setup_fake_teb-Meets_example =
    setup_fake_teb-Meets small_writes 0x200000 fresh
      (page-IsMapped 0x1000 4096 (omega arith) (omega arith))

format_loop_width_example :
    format_loop 9 9 fresh (text "%-05ld") (7 ∷ []) (record { buf = replicate 8 0; pos = 0 })
    ≡ format_loop 8 9 fresh
        (text "d")
        (7 ∷ [])
        (emit (emit (record { buf = replicate 8 0; pos = 0 }) b'%') b'l')
format_loop_width_example =
    format_loop_width 8 9 fresh b'-' (text "05") (text "d") (7 ∷ [])
      (record { buf = replicate 8 0; pos = 0 }) (inl refl)
      (inr (omega arith, omega arith), (inr (omega arith, omega arith), tt))
