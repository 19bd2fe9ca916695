-- ===== src/Convert/Arguments.antt =====
-- The loop over the arguments in src/main.c, against a description of the command lines.
use silver_nimbus_otter.Prelude.{
  Bool-cases, List, Option, Option-cases, [], false, inl, inr, none, refl, some, subst, sym, true,
  ℕ, ◌↔◌, ◌∙◌, ◌∷◌, ◌≡◌, ◌≢◌,
}
use silver_nimbus_otter.Bytes.{text}
use silver_nimbus_otter.ShimAbi.{str_eq}
use silver_nimbus_otter.ShimAbi.Lookup.{str_eq_iff, some_eq}
use silver_nimbus_otter.Convert.{Options, options_loop}

-- The arguments that turn options into others: `--dump` at any place, `-o` with the path behind it,
-- where the last one counts and the path may be any word, and one word that is neither, the input.
pub data Reads : List (List ℕ) → Options → Options → Type 0 where
  no_more : {opts : Options} → Reads [] opts opts
  dump :
      {rest : List (List ℕ)} {opts last : Options} (arg : List ℕ)
      → arg ≡ text "--dump"
      → Reads rest (record opts { dump_mode = true }) last
      → Reads (arg ∷ rest) opts last
  output :
      {rest : List (List ℕ)} {opts last : Options} (arg path : List ℕ)
      → arg ≡ text "-o"
      → Reads rest (record opts { output = some path }) last
      → Reads (arg ∷ path ∷ rest) opts last
  input :
      {rest : List (List ℕ)} {opts last : Options} (arg : List ℕ)
      → arg ≢ text "--dump"
      → arg ≢ text "-o"
      → opts.input ≡ none
      → Reads rest (record opts { input = some arg }) last
      → Reads (arg ∷ rest) opts last

differs : (a b : List ℕ) → a ≢ b → str_eq a b ≡ false
differs a b h = elim (Bool-cases (str_eq a b)) [
  | inl e ↦ absurd (h ((str_eq_iff a b).0 e))
  | inr e ↦ e
]

is_other : (a b : List ℕ) → str_eq a b ≡ false → a ≢ b
is_other a b h e = cc (h, (str_eq_iff a b).1 e)

-- One argument, whatever follows.
loop_dump :
    (arg : List ℕ) (rest : List (List ℕ)) (opts : Options)
    → arg ≡ text "--dump"
    → options_loop (arg ∷ rest) opts ≡ options_loop rest (record opts { dump_mode = true })
unfolding options_loop
loop_dump arg [] opts e = rw ((str_eq_iff arg (text "--dump")).1 e) refl
loop_dump arg (next ∷ rest) opts e = rw ((str_eq_iff arg (text "--dump")).1 e) refl

not_dump : (arg : List ℕ) → arg ≡ text "-o" → str_eq arg (text "--dump") ≡ false
unfolding str_eq
not_dump arg e = rw e refl

loop_output :
    (arg path : List ℕ) (rest : List (List ℕ)) (opts : Options)
    → arg ≡ text "-o"
    → options_loop (arg ∷ path ∷ rest) opts ≡ options_loop rest (record opts { output = some path })
unfolding options_loop
loop_output arg path rest opts e = rw (not_dump arg e, (str_eq_iff arg (text "-o")).1 e) refl

loop_input :
    (arg : List ℕ) (rest : List (List ℕ)) (opts : Options)
    → str_eq arg (text "--dump") ≡ false
    → str_eq arg (text "-o") ≡ false
    → opts.input ≡ none
    → options_loop (arg ∷ rest) opts ≡ options_loop rest (record opts { input = some arg })
unfolding options_loop
loop_input arg [] opts d o e = rw (d, o, e) refl
loop_input arg (next ∷ rest) opts d o e = rw (d, o, e) refl

from_Reads :
    {args : List (List ℕ)} {opts last : Options}
    → Reads args opts last
    → options_loop args opts ≡ some last
from_Reads no_more = unfold options_loop in refl
from_Reads (dump arg e more) = loop_dump arg _ _ e ∙ from_Reads more
from_Reads (output arg path e more) = loop_output arg path _ _ e ∙ from_Reads more
from_Reads (input arg d o e more) =
    loop_input arg _ _ (differs arg _ d) (differs arg _ o) e ∙ from_Reads more

-- A second word that is no flag is refused.
loop_taken :
    (arg path : List ℕ) (rest : List (List ℕ)) (opts : Options)
    → str_eq arg (text "--dump") ≡ false
    → str_eq arg (text "-o") ≡ false
    → opts.input ≡ some path
    → options_loop (arg ∷ rest) opts ≡ none
unfolding options_loop
loop_taken arg path [] opts d o e = rw (d, o, e) refl
loop_taken arg path (next ∷ rest) opts d o e = rw (d, o, e) refl

loop_no_path :
    (arg : List ℕ) (opts : Options) → arg ≡ text "-o" → options_loop (arg ∷ []) opts ≡ none
unfolding options_loop
loop_no_path arg opts e = rw (not_dump arg e, (str_eq_iff arg (text "-o")).1 e) refl

none≢some : {last : Options} {o : Option Options} → o ≡ none → o ≡ some last → ⊥
none≢some e f = cc

input_free :
    (arg : List ℕ) (rest : List (List ℕ)) (opts last : Options)
    → str_eq arg (text "--dump") ≡ false
    → str_eq arg (text "-o") ≡ false
    → options_loop (arg ∷ rest) opts ≡ some last
    → opts.input ≡ none
input_free arg rest opts last d o h = elim (Option-cases opts.input) [
  | inl e ↦ e
  | inr (path, e) ↦ absurd (none≢some (loop_taken arg path rest opts d o e) h)
]

no_arguments : (opts last : Options) → options_loop [] opts ≡ some last → opts ≡ last
unfolding options_loop
no_arguments opts last h = some_eq h

to_Reads :
    (args : List (List ℕ)) (opts last : Options)
    → options_loop args opts ≡ some last
    → Reads args opts last
to_Reads [] opts last h = subst (Reads [] opts) (no_arguments opts last h) no_more
to_Reads (arg ∷ []) opts last h = elim (Bool-cases (str_eq arg (text "--dump"))) [
  | inl d ↦
      let e = (str_eq_iff arg (text "--dump")).0 d in
      dump arg e (to_Reads [] _ last (sym (loop_dump arg [] opts e) ∙ h))
  | inr d ↦ elim (Bool-cases (str_eq arg (text "-o"))) [
    | inl o ↦ absurd (none≢some (loop_no_path arg opts ((str_eq_iff arg (text "-o")).0 o)) h)
    | inr o ↦
        let free = input_free arg [] opts last d o h in
        input arg (is_other arg _ d) (is_other arg _ o) free
          (to_Reads [] _ last (sym (loop_input arg [] opts d o free) ∙ h))
  ]
]
to_Reads (arg ∷ next ∷ rest) opts last h = elim (Bool-cases (str_eq arg (text "--dump"))) [
  | inl d ↦
      let e = (str_eq_iff arg (text "--dump")).0 d in
      dump arg e (to_Reads (next ∷ rest) _ last (sym (loop_dump arg (next ∷ rest) opts e) ∙ h))
  | inr d ↦ elim (Bool-cases (str_eq arg (text "-o"))) [
    | inl o ↦
        let e = (str_eq_iff arg (text "-o")).0 o in
        output arg next e (to_Reads rest _ last (sym (loop_output arg next rest opts e) ∙ h))
    | inr o ↦
        let free = input_free arg (next ∷ rest) opts last d o h in
        input arg (is_other arg _ d) (is_other arg _ o) free
          (to_Reads (next ∷ rest) _ last (sym (loop_input arg (next ∷ rest) opts d o free) ∙ h))
  ]
]

-- The arguments are accepted, with these options as their result, exactly if they read as a command
-- line: any number of `--dump` and of `-o` with a path, the last path counting, and at most one other
-- word, the input. In every other case the loop reports wrong usage.
pub options_loop_iff :
    (args : List (List ℕ)) (opts last : Options)
    → (options_loop args opts ≡ some last) ↔ Reads args opts last
options_loop_iff args opts last = (to_Reads args opts last, from_Reads)
