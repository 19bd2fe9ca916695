-- ===== src/Runtime/Format/Render.antt =====
-- What a format and its arguments stand for, in shim_vformat of runtime/shim_startup.c: the text as a
-- list, with no buffer.
use silver_nimbus_otter.Prelude.{
  Bool, Bool-cases, List, [], ap, false, fault, if◌then◌else◌, inl, inr, length, ltb, ok, refl,
  rejected, set, stuck, suc, sym, true, zero, ℕ, ◌%◌, ◌++◌, ◌+◌, ◌-◌, ◌==◌, ◌>>=◌, ◌||◌, ◌∷◌, ◌≡◌,
}
use silver_nimbus_otter.Runtime.Format.{
  conversion, skip_longs, string_arg, skip_width, next_arg, uint_text, out_uint, out_str, out_int,
  out_char, Out,
}
use silver_nimbus_otter.Runtime.{is_negative, Run, Machine}
use silver_nimbus_otter.Bytes.{u32_mod, text}

-- A signed number; the least one has no text.
unfoldable pub int_text : ℕ → Run (List ℕ)
unfolding uint_text
int_text v =
    if is_negative v
    then (if v == 2147483648
        then fault
        else do ds ← uint_text (u32_mod - v) 10 false; ok (b'-' ∷ ds))
    else uint_text v 10 false

abbrev with_arg : List ℕ → (ℕ → Run (List ℕ)) → Run (List ℕ × List ℕ)
with_arg args f = do a ← next_arg args; s ← f a.0; ok (a.1, s)

-- The text of one conversion, and the arguments that are left.
unfoldable pub render_conversion : ℕ → Machine → ℕ → List ℕ → Run (List ℕ × List ℕ)
unfolding int_text uint_text string_arg
render_conversion fuel m c args =
    if c == b'd' || c == b'i'
    then with_arg args int_text
    else if c == b'u'
    then with_arg args (λ v. uint_text v 10 false)
    else if c == b'x'
    then with_arg args (λ v. uint_text v 16 false)
    else if c == b'X'
    then with_arg args (λ v. uint_text v 16 true)
    else if c == b'p'
    then with_arg args (λ v. do ds ← uint_text v 16 false; ok (text "0x" ++ ds))
    else if c == b'c'
    then with_arg args (λ v. ok (v % 256 ∷ []))
    else if c == b's'
    then with_arg args (string_arg fuel m)
    else if c == b'%'
    then ok (args, b'%' ∷ [])
    else ok (args, b'%' ∷ c ∷ [])

unfoldable pub render : ℕ → ℕ → Machine → List ℕ → List ℕ → Run (List ℕ)
unfolding render_conversion
render zero fuel m fmt args = stuck
render (suc rounds) fuel m [] args = ok []
render (suc rounds) fuel m (c ∷ fmt) args =
    let plain = render rounds fuel m fmt args >>= λ t. ok (c ∷ t) in
    let spec : Run (List ℕ) = elim (skip_width (skip_longs fmt)) [
      | [] ↦ ok []
      | d ∷ rest ↦ render_conversion fuel m d args >>= λ r.
          render rounds fuel m rest r.0 >>= λ t. ok (r.1 ++ t)
    ] in
    if c == b'%' then spec else plain

-- One character put out, without a failure.
abbrev pub emit : Out → ℕ → Out
emit o c = record {
  buf = if ltb o.pos (length o.buf) then set o.buf o.pos c else o.buf;
  pos = (o.pos + 1) % u32_mod;
}

abbrev pub emits : Out → List ℕ → Out
emits o [] = o
emits o (c ∷ s) = emits (emit o c) s

pub emits-append : (o : Out) (s t : List ℕ) → emits o (s ++ t) ≡ emits (emits o s) t
emits-append o [] t = refl
emits-append o (c ∷ s) t = emits-append (emit o c) s t

pub out_char_ok : (o : Out) (c : ℕ) → out_char o c ≡ ok (emit o c)
unfolding out_char
out_char_ok o c = elim (Bool-cases (ltb o.pos (length o.buf))) [
  | inl e ↦ rw e refl
  | inr e ↦ rw e refl
]

out_str_ok : (o : Out) (s : List ℕ) → out_str o s ≡ ok (emits o s)
unfolding out_str
out_str_ok o [] = refl
out_str_ok o (c ∷ s) = rw (out_char_ok o c) (out_str_ok (emit o c) s)

-- What is put out: the text.
abbrev pub put_out : {A : Type 0} → Out → Run (A × List ℕ) → Run (A × Out)
put_out o m = m >>= λ r. ok (r.0, emits o r.1)

branch :
    {A : Type 0} (o : Out) (b : Bool) (x y : Run (A × Out)) (r s : Run (A × List ℕ))
    → x ≡ put_out o r
    → y ≡ put_out o s
    → (if b then x else y) ≡ put_out o (if b then r else s)
branch o true x y r s h k = h
branch o false x y r s h k = k

abbrev with_rest : {A : Type 0} → List ℕ → A → Run (List ℕ × A)
with_rest args a = ok (args, a)

-- The text of an argument, put out.
with_arg_ok :
    (o : Out) (args : List ℕ) (f : ℕ → Run (List ℕ)) (g : ℕ → Run Out)
    → ((v : ℕ) → g v ≡ (f v >>= λ s. ok (emits o s)))
    → (next_arg args >>= λ a. g a.0 >>= λ o'. with_rest a.1 o') ≡ put_out o (with_arg args f)
with_arg_ok o [] f g h = refl
with_arg_ok o (v ∷ args) f g h = rw (h v) (go (f v))
  where
    go :
        (m : Run (List ℕ))
        → ((m >>= λ s. ok (emits o s)) >>= λ o'. with_rest args o')
          ≡ ((m >>= λ s. with_rest args s) >>= λ r. with_rest r.0 (emits o r.1))
    go (ok s) = refl
    go (rejected e) = refl
    go fault = refl
    go stuck = refl

out_uint_ok :
    (o : Out) (v base : ℕ) (upper : Bool)
    → out_uint o v base upper ≡ (uint_text v base upper >>= λ s. ok (emits o s))
unfolding out_uint
out_uint_ok o v base upper = go (uint_text v base upper)
  where
    go : (m : Run (List ℕ)) → (m >>= λ ds. out_str o ds) ≡ (m >>= λ s. ok (emits o s))
    go (ok s) = out_str_ok o s
    go (rejected e) = refl
    go fault = refl
    go stuck = refl

prefixed :
    (o : Out) (s : List ℕ) (m : Run (List ℕ))
    → (m >>= λ ds. ok (emits (emits o s) ds)) ≡ ((m >>= λ ds. ok (s ++ ds)) >>= λ t. ok (emits o t))
prefixed o s (ok ds) = ap (λ t. ok t) (sym (emits-append o s ds))
prefixed o s (rejected e) = refl
prefixed o s fault = refl
prefixed o s stuck = refl

out_int_ok : (o : Out) (v : ℕ) → out_int o v ≡ (int_text v >>= λ s. ok (emits o s))
unfolding out_int int_text
out_int_ok o v = elim (Bool-cases (is_negative v)) [
  | inl e ↦ elim (Bool-cases (v == 2147483648)) [
    | inl f ↦ rw (e, out_char_ok o b'-', f) refl
    | inr f ↦
        rw (e, out_char_ok o b'-', f, out_uint_ok (emit o b'-') (u32_mod - v) 10 false)
          (prefixed o (b'-' ∷ []) (uint_text (u32_mod - v) 10 false))
  ]
  | inr e ↦ rw e (out_uint_ok o v 10 false)
]

-- An argument whose text is known, put out by `g`.
text_out :
    (o : Out) (args : List ℕ) (m : Run (List ℕ))
    → (m >>= λ s. out_str o s >>= λ o'. with_rest args o')
      ≡ ((m >>= λ s. with_rest args s) >>= λ r. with_rest r.0 (emits o r.1))
text_out o args (ok s) = rw (out_str_ok o s) refl
text_out o args (rejected e) = refl
text_out o args fault = refl
text_out o args stuck = refl

string_ok :
    (fuel : ℕ) (m : Machine) (args : List ℕ) (o : Out)
    → (next_arg args >>= λ a. string_arg fuel m a.0 >>= λ s. out_str o s >>= λ o'. with_rest a.1 o')
      ≡ put_out o (with_arg args (string_arg fuel m))
string_ok fuel m [] o = refl
string_ok fuel m (p ∷ args) o = text_out o args (string_arg fuel m p)

pointer_ok :
    (args : List ℕ) (o : Out)
    → (out_str o (text "0x") >>= λ o1.
        next_arg args >>= λ a. out_uint o1 a.0 16 false >>= λ o2. with_rest a.1 o2)
      ≡ put_out o (with_arg args (λ v. do ds ← uint_text v 16 false; ok (text "0x" ++ ds)))
pointer_ok [] o = rw (out_str_ok o (text "0x")) refl
pointer_ok (v ∷ args) o =
    rw (out_str_ok o (text "0x"), out_uint_ok (emits o (text "0x")) v 16 false)
      (go (uint_text v 16 false))
  where
    go :
        (m : Run (List ℕ))
        → ((m >>= λ s. ok (emits (emits o (text "0x")) s)) >>= λ o'. with_rest args o') ≡ (
            ((m >>= λ ds. ok (text "0x" ++ ds)) >>= λ s. with_rest args s) >>= λ r.
            with_rest r.0 (emits o r.1))
    go (ok s) = refl
    go (rejected e) = refl
    go fault = refl
    go stuck = refl

uint_ok :
    (args : List ℕ) (o : Out) (base : ℕ) (upper : Bool)
    → (next_arg args >>= λ a. out_uint o a.0 base upper >>= λ o'. with_rest a.1 o')
      ≡ put_out o (with_arg args (λ v. uint_text v base upper))
uint_ok args o base upper =
    with_arg_ok o args (λ v. uint_text v base upper) (λ v. out_uint o v base upper)
      λ v. out_uint_ok o v base upper

-- Every conversion puts out its text.
pub conversion_ok :
    (fuel : ℕ) (m : Machine) (c : ℕ) (args : List ℕ) (o : Out)
    → conversion fuel m c args o ≡ put_out o (render_conversion fuel m c args)
unfolding conversion render_conversion
conversion_ok fuel m c args o =
    branch o (c == b'd' || c == b'i') _ _ _ _
      (with_arg_ok o args int_text (out_int o) (out_int_ok o))
      (branch o (c == b'u') _ _ _ _ (uint_ok args o 10 false) (
        branch o (c == b'x') _ _ _ _ (uint_ok args o 16 false) (
          branch o (c == b'X') _ _ _ _ (uint_ok args o 16 true) (
            branch o (c == b'p') _ _ _ _ (pointer_ok args o) (
              branch o (c == b'c') _ _ _ _
                (with_arg_ok o args (λ v. ok (v % 256 ∷ [])) (λ v. out_char o (v % 256))
                  λ v. out_char_ok o (v % 256))
                (branch o (c == b's') _ _ _ _ (string_ok fuel m args o) (
                  branch o (c == b'%') _ _ _ _ (rw (out_char_ok o b'%') refl)
                    (rw (out_char_ok o b'%', out_char_ok (emit o b'%') c) refl))))))))
