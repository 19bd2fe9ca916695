-- ===== src/Runtime/User32.antt =====
-- runtime/shim_user32.c and runtime/shim_comctl32.c: a program with windows, without any.
pub mod Box
use silver_nimbus_otter.Prelude.{
  List, Option, [], if◌then◌else◌, none, ok, some, ℕ, ◌==◌, ◌∷◌, ◌>>=◌,
}
use silver_nimbus_otter.Runtime.Output.{write_list}
use silver_nimbus_otter.Runtime.Memory.{zero_fill, store_bytes}
use silver_nimbus_otter.Runtime.{Run, Machine, Kernel}
use silver_nimbus_otter.Bytes.{text}

-- A string argument, where NULL is none.
abbrev pub or_null : Option (List ℕ) → List ℕ
or_null none = text "(null)"
or_null (some s) = s

unfoldable pub write_str : Kernel → Option (List ℕ) → Machine → Run Machine
unfolding write_list
write_str k s m = do r ← write_list k 1 (or_null s) m; ok r.1

unfoldable pub message_box :
    Kernel → Option (List ℕ) → Option (List ℕ) → Machine → Run (ℕ × Machine)
unfolding write_str
message_box k message caption m = do
  m1 ← write_str k (some (text "[MessageBoxA] ")) m
  m2 ← write_str k caption m1
  m3 ← write_str k (some (text ": ")) m2
  m4 ← write_str k message m3
  m5 ← write_str k (some (10 ∷ [])) m4
  ok (1, m5)

abbrev pub register_class : ℕ → ℕ
register_class wndclass = 1

abbrev pub create_window : ℕ → ℕ
create_window class_name = 0x00010000

abbrev pub show_window : ℕ → ℕ
show_window hwnd = 1

abbrev pub update_window : ℕ → ℕ
update_window hwnd = 1

abbrev pub def_window_proc : ℕ → ℕ → ℕ
def_window_proc hwnd msg = 0

abbrev pub msg_size : ℕ
msg_size = 24

-- The queue always says that the program is to quit.
unfoldable pub get_message : ℕ → Machine → Run (ℕ × Machine)
unfolding store_bytes
get_message p m = if p == 0 then ok (0, m) else do m' ← zero_fill m p msg_size; ok (0, m')

abbrev pub translate_message : ℕ → ℕ
translate_message msg = 0

abbrev pub dispatch_message : ℕ → ℕ
dispatch_message msg = 0

abbrev pub init_common_controls : Machine → Machine
init_common_controls m = m
