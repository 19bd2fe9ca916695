-- ===== src/Runtime/Startup/Exits.antt =====
-- The functions registered for the end of the process, in runtime/shim_startup.c.
use silver_nimbus_otter.Prelude.{
  Bool-cases, List, [], ap, arith, fault, inl, inr, length, length-take, ltb, ltb→ge, ltb→lt, ok,
  ok-injective, refl, rejected, stuck, suc, sym, take, zero, ℕ, ◌+◌, ◌-◌, ◌<◌, ◌==◌, ◌>>=◌, ◌∙◌,
  ◌∷◌, ◌≡◌, ◌≤◌,
}
use silver_nimbus_otter.Runtime.Startup.{
  exit_round, call_exit_fn, run_atexit, onexit_register, Program,
}
use silver_nimbus_otter.Runtime.{Run, Machine}
use mathlib.Core.List.{reverse_aux}

-- Registrations in order.
unfoldable pub register_all : List ℕ → Machine → Machine
unfolding onexit_register
register_all [] m = m
register_all (fn ∷ fns) m = register_all fns (onexit_register fn m)

register_all_fns :
    (fns : List ℕ) (m : Machine)
    → length m.atexit_fns ≤ 32
    → (register_all fns m).atexit_fns
      ≡ reverse_aux (take (32 - length m.atexit_fns) fns) m.atexit_fns
unfolding register_all
register_all_fns [] m h = take_none (32 - length m.atexit_fns) m.atexit_fns
  where
    take_none : (n : ℕ) (acc : List ℕ) → acc ≡ reverse_aux (take n []) acc
    take_none zero acc = refl
    take_none (suc n) acc = refl
register_all_fns (fn ∷ fns) m h = elim (Bool-cases (ltb (length m.atexit_fns) 32)) [
  | inl e ↦
      let lt = ltb→lt (length m.atexit_fns) 32 e in
      let left : 32 - length m.atexit_fns ≡ suc (32 - suc (length m.atexit_fns)) = omega arith in
      simp e (
        register_all_fns fns (record m { atexit_fns = fn ∷ m.atexit_fns }) (omega arith)
        ∙ ap (λ (n : ℕ). reverse_aux (take n (fn ∷ fns)) m.atexit_fns) (sym left))
  | inr e ↦
      let ge = ltb→ge (length m.atexit_fns) 32 e in
      let none_left : 32 - length m.atexit_fns ≡ 0 = omega arith in
      simp e (
        register_all_fns fns m h
        ∙ ap (λ (n : ℕ). reverse_aux (take n fns) m.atexit_fns) none_left
        ∙ take_zero fns m.atexit_fns
        ∙ ap (λ (n : ℕ). reverse_aux (take n (fn ∷ fns)) m.atexit_fns) (sym none_left))
]
  where
    take_zero : (xs acc : List ℕ) → reverse_aux (take 0 xs) acc ≡ acc
    take_zero xs acc = refl

-- The functions of a list, one after the other; each sees what is behind it still registered.
unfoldable pub call_each : Program → List ℕ → Machine → Run Machine
call_each prog [] m = ok (record m { atexit_fns = [] })
call_each prog (fn ∷ fns) m =
    call_exit_fn prog fn (record m { atexit_fns = fns }) >>= call_each prog fns

-- The program's functions register nothing.
abbrev pub IsQuiet : Program → Type 0
IsQuiet prog = (fn : ℕ) (m m' : Machine) → prog fn m ≡ ok m' → m'.atexit_fns ≡ m.atexit_fns

call_exit_fn_quiet :
    (prog : Program) (fn : ℕ) (m m' : Machine)
    → IsQuiet prog
    → call_exit_fn prog fn m ≡ ok m'
    → m'.atexit_fns ≡ m.atexit_fns
call_exit_fn_quiet prog fn m m' q e = elim (Bool-cases (fn == 0)) [
  | inl z ↦ ap (λ (x : Machine). x.atexit_fns) (sym (ok-injective (rw z at e)))
  | inr z ↦ q fn m m' (rw z at e)
]

bind_where :
    (x : Run Machine) (f g : Machine → Run Machine)
    → ((m : Machine) → x ≡ ok m → f m ≡ g m)
    → (x >>= f) ≡ (x >>= g)
bind_where (ok m) f g h = h m refl
bind_where (rejected e) f g h = refl
bind_where fault f g h = refl
bind_where stuck f g h = refl

length-reverse_aux : (xs ys : List ℕ) → length (reverse_aux xs ys) ≡ length xs + length ys
length-reverse_aux [] ys = omega arith
length-reverse_aux (x ∷ xs) ys = omega (arith, length-reverse_aux xs (x ∷ ys))

run_atexit_each :
    (prog : Program) (fns : List ℕ) (fuel : ℕ) (m : Machine)
    → IsQuiet prog
    → length fns < fuel
    → m.atexit_fns ≡ fns
    → run_atexit prog fuel m ≡ call_each prog fns m
unfolding run_atexit call_each
run_atexit_each prog fns zero m q h e = absurd (omega arith)
run_atexit_each prog [] (suc fuel) m q h e =
    ap (exit_round prog (run_atexit prog fuel) m) e
    ∙ ap (λ fns. ok (record m { atexit_fns = fns })) e
run_atexit_each prog (fn ∷ fns) (suc fuel) m q h e =
    ap (exit_round prog (run_atexit prog fuel) m) e
    ∙ bind_where (call_exit_fn prog fn (record m { atexit_fns = fns })) (run_atexit prog fuel)
        (call_each prog fns)
        λ m' k.
          run_atexit_each prog fns fuel m' q (omega arith)
            (call_exit_fn_quiet prog fn (record m { atexit_fns = fns }) m' q k)

-- From an empty list, and with functions that register nothing, exit calls the first 32 functions
-- that were registered, each once and the last of them first, and passes over NULL; it ends with
-- the list empty, and 33 rounds are enough.
pub run_atexit-register_all :
    (prog : Program) (fns : List ℕ) (fuel : ℕ) (m : Machine)
    → IsQuiet prog
    → 32 < fuel
    → m.atexit_fns ≡ []
    → run_atexit prog fuel (register_all fns m)
      ≡ call_each prog (reverse_aux (take 32 fns) []) (register_all fns m)
run_atexit-register_all prog fns fuel m q h e =
    let none_yet : length m.atexit_fns ≡ 0 = ap length e in
    let all : (register_all fns m).atexit_fns ≡ reverse_aux (take 32 fns) [] =
      register_all_fns fns m (omega (arith, none_yet))
      ∙ ap (λ (n : ℕ). reverse_aux (take (32 - n) fns) m.atexit_fns) none_yet
      ∙ ap (reverse_aux (take 32 fns)) e in
    run_atexit_each prog (reverse_aux (take 32 fns) []) fuel (register_all fns m) q
      (omega (arith, length-reverse_aux (take 32 fns) [], length-take 32 fns)) all
