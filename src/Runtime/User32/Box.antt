-- ===== src/Runtime/User32/Box.antt =====
-- The line of MessageBoxA of runtime/shim_user32.c.
use silver_nimbus_otter.Prelude.{
  List, Meets-bind, Meets-map, Option, Returns, [], ap, append_assoc, arith, length, refl, some, ℕ,
  ◌++◌, ◌<◌, ◌>>=◌, ◌∙◌, ◌∷◌, ◌≡◌,
}
use silver_nimbus_otter.Runtime.Output.{write_list}
use silver_nimbus_otter.Runtime.Output.Whole.{write_list_whole, IsSteady, Says}
use silver_nimbus_otter.Runtime.Output.Progress.{sent, IsWrite}
use silver_nimbus_otter.Runtime.User32.{write_list, or_null, write_str, message_box}
use silver_nimbus_otter.Runtime.{Run, Machine, Kernel}
use silver_nimbus_otter.Bytes.{u32_mod, text}

Says-append :
    (a b : List ℕ) (m m1 m2 : Machine) → Says 1 a m m1 → Says 1 b m1 m2 → Says 1 (a ++ b) m m2
Says-append a b m m1 m2 s t = (
  t.0 ∙ ap (λ (x : Machine). record x { events = m2.events }) s.0,
  t.1 ∙ ap (λ q. q ++ b) s.1 ∙ append_assoc (sent 1 m.events) a b,
)

write_str-Meets :
    (k : Kernel) (s : Option (List ℕ)) (m : Machine)
    → IsWrite k
    → IsSteady k
    → length (or_null s) < u32_mod
    → Returns (Says 1 (or_null s) m) (write_str k s m)
unfolding write_str
write_str-Meets k s m w st u =
    Meets-bind ⊥ (λ r. (r.0 ≡ length (or_null s)) × Says 1 (or_null s) m r.1) (Says 1 (or_null s) m)
      (write_list k 1 (or_null s) m) _ (write_list_whole k 1 (or_null s) m w st u) λ r _ q. q.1

-- The line of a box.
abbrev pub box_text : Option (List ℕ) → Option (List ℕ) → List ℕ
box_text message caption =
    text "[MessageBoxA] " ++ (or_null caption ++ (text ": " ++ (or_null message ++ (10 ∷ []))))

-- The box was confirmed, its line has gone to the standard output, and nothing else has happened.
abbrev pub Shown : List ℕ → Machine → ℕ × Machine → Type 0
Shown bs m r = (r.0 ≡ 1) × Says 1 bs m r.1

-- One more string, before the rest.
then_write :
    (k : Kernel) (s : Option (List ℕ)) (rest : List ℕ) (m : Machine)
    (next : Machine → Run (ℕ × Machine))
    → IsWrite k
    → IsSteady k
    → length (or_null s) < u32_mod
    → ((m' : Machine) → Returns (Shown rest m') (next m'))
    → Returns (Shown (or_null s ++ rest) m) (write_str k s m >>= next)
then_write k s rest m next w st u h =
    Meets-bind ⊥ (Says 1 (or_null s) m) (Shown (or_null s ++ rest) m) (write_str k s m) next
      (write_str-Meets k s m w st u)
      λ m1 _ q.
        Meets-map ⊥ (Shown rest m1) (Shown (or_null s ++ rest) m) (next m1) (h m1)
          λ r _ p. (p.0, Says-append (or_null s) rest m m1 r.1 q p.1)

-- If every write of some bytes writes at least one and no more than it is asked to, a message box of
-- strings of less than 2^32 characters, or of NULL, ends with IDOK, has written its caption and its
-- text as one line to the standard output, and has changed nothing else.
pub message_box-Meets :
    (k : Kernel) (message caption : Option (List ℕ)) (m : Machine)
    → IsWrite k
    → IsSteady k
    → length (or_null message) < u32_mod
    → length (or_null caption) < u32_mod
    → Returns (Shown (box_text message caption) m) (message_box k message caption m)
unfolding message_box
message_box-Meets k message caption m w st um uc =
    then_write k (some (text "[MessageBoxA] ")) _ m _ w st (omega arith) λ m1.
      then_write k caption _ m1 _ w st uc λ m2.
        then_write k (some (text ": ")) _ m2 _ w st (omega arith) λ m3.
          then_write k message _ m3 _ w st um λ m4.
            Meets-bind ⊥ (Says 1 (10 ∷ []) m4) (Shown (10 ∷ []) m4)
              (write_str k (some (10 ∷ [])) m4) _
              (write_str-Meets k (some (10 ∷ [])) m4 w st (omega arith)) λ m5 _ q. (refl, q)
