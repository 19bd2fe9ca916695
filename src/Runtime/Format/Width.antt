-- ===== src/Runtime/Format/Width.antt =====
-- A width before an `l` in shim_vformat of runtime/shim_startup.c.
use silver_nimbus_otter.Prelude.{
  All, List, [], arith, false, ok, refl, suc, true, ℕ, ◌++◌, ◌==◌, ◌∷◌, ◌≡◌, ◌≤◌, ◌⊎◌,
}
use silver_nimbus_otter.Runtime.Format.Render.{out_char_ok, emit}
use silver_nimbus_otter.Runtime.{Machine}
use silver_nimbus_otter.Runtime.Format.{
  skip_width, skip_longs, is_width, Out, Machine, format_loop, conversion,
}

conversion_l :
    (fuel : ℕ) (m : Machine) (args : List ℕ) (o : Out)
    → conversion fuel m b'l' args o ≡ ok (args, emit (emit o b'%') b'l')
unfolding conversion
conversion_l fuel m args o = rw (out_char_ok o b'%', out_char_ok (emit o b'%') b'l') refl

-- What may stand between the `%` and the conversion: `-`, and the digits.
abbrev pub IsFlag : ℕ → Type 0
IsFlag c = (c ≡ 45) ⊎ ((48 ≤ c) × (c ≤ 57))

is_width_flag : (c : ℕ) → IsFlag c → is_width c ≡ true
is_width_flag c h = ground arith

skip_width_all :
    (ws : List ℕ) (rest : List ℕ) → All IsFlag ws → skip_width (ws ++ (b'l' ∷ rest)) ≡ b'l' ∷ rest
skip_width_all [] rest h = refl
skip_width_all (w ∷ ws) rest h = rw (is_width_flag w h.0) (skip_width_all ws rest h.1)

-- After a `%`, flags and digits of a width, at least one, hide an `l` that stands behind them: the
-- `l` is taken for the conversion, `%l` is put out, no argument is taken, and the formatter goes on
-- with what follows the `l` and with all the arguments.
pub format_loop_width :
    (rounds fuel : ℕ) (m : Machine) (w : ℕ) (ws rest args : List ℕ) (o : Out)
    → IsFlag w
    → All IsFlag ws
    → format_loop (suc rounds) fuel m (b'%' ∷ w ∷ (ws ++ (b'l' ∷ rest))) args o
      ≡ format_loop rounds fuel m rest args (emit (emit o b'%') b'l')
unfolding format_loop
format_loop_width rounds fuel m w ws rest args o h k =
    let after = ws ++ (b'l' ∷ rest) in
    let plain : (w == b'l') ≡ false = ground arith in
    let left : skip_longs (w ∷ after) ≡ w ∷ after = rw plain refl in
    let l : skip_width (w ∷ after) ≡ b'l' ∷ rest = skip_width_all (w ∷ ws) rest (h, k) in
    rw (left, l, conversion_l fuel m args o) refl
