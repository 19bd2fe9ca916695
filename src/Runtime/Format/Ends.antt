-- ===== src/Runtime/Format/Ends.antt =====
-- The fuel of shim_vformat in runtime/shim_startup.c.
use silver_nimbus_otter.Prelude.{
  Bool, Bool-cases, List, [], arith, false, fault, if◌then◌else◌, inl, inr, length, ltb, ltb→lt, ok,
  refl, rejected, stuck, subst, suc, true, zero, ℕ, ◌%◌, ◌+◌, ◌-◌, ◌/◌, ◌<◌, ◌==◌, ◌>>=◌, ◌||◌, ◌∷◌,
  ◌≡◌, ◌≢◌, ◌≤◌,
}
use silver_nimbus_otter.Runtime.Format.Render.{out_char_ok}
use silver_nimbus_otter.Runtime.Format.{
  vformat, skip_width, skip_longs, poke, format_loop, finish_buffer, conversion, uint_text,
  out_char, digit, string_arg, out_uint, out_str, out_int, next_arg, digits_loop, Out,
}
use silver_nimbus_otter.Bytes.{text, u32_mod}
use silver_nimbus_otter.Runtime.Memory.{accessible, load, c_string}
use silver_nimbus_otter.Runtime.{is_negative, Machine, Run}

-- The fuel was enough.
abbrev Ends {ℓ} : {A : Type ℓ} → Run A → Type 0
Ends (ok a) = Unit
Ends (rejected e) = Unit
Ends fault = Unit
Ends stuck = ⊥

Ends-bind :
    {A B : Type 0} (x : Run A) (f : A → Run B) → Ends x → ((a : A) → Ends (f a)) → Ends (x >>= f)
Ends-bind (ok a) f h g = g a
Ends-bind (rejected e) f h g = tt
Ends-bind fault f h g = tt
Ends-bind stuck f h g = h

Ends-if : {A : Type 0} (b : Bool) (x y : Run A) → Ends x → Ends y → Ends (if b then x else y)
Ends-if true x y h g = h
Ends-if false x y h g = g

load-Ends : (m : Machine) (a : ℕ) → Ends (load m a)
unfolding load
load-Ends m a = Ends-if (accessible m a) (ok (m.bytes a)) fault tt tt

-- No address of 2^32 or more can be read.
load-past : (m : Machine) (a : ℕ) → ltb a u32_mod ≡ false → load m a ≡ fault
unfolding load accessible
load-past m a e = rw e refl

c_string-Ends :
    (fuel : ℕ) (m : Machine) (a : ℕ) → 0 < fuel → u32_mod < a + fuel → Ends (c_string fuel m a)
unfolding c_string
c_string-Ends zero m a pos h = absurd (omega arith)
c_string-Ends (suc fuel) m a pos h = elim (Bool-cases (ltb a u32_mod)) [
  | inl e ↦
      let lt = ltb→lt a u32_mod e in
      Ends-bind (load m a) _ (load-Ends m a) λ v. Ends-if (v == 0) _ _ tt (
        Ends-bind (c_string fuel m (a + 1)) _
          (c_string-Ends fuel m (a + 1) (omega arith) (omega arith)) λ rest. tt)
  | inr e ↦ rw (load-past m a e) tt
]

out_char-Ends : (o : Out) (c : ℕ) → Ends (out_char o c)
out_char-Ends o c = rw (out_char_ok o c) tt

out_str-Ends : (o : Out) (s : List ℕ) → Ends (out_str o s)
unfolding out_str
out_str-Ends o [] = tt
out_str-Ends o (c ∷ s) = Ends-bind (out_char o c) _ (out_char-Ends o c) λ o'. out_str-Ends o' s

digits_loop-Ends :
    (room v base : ℕ) (upper : Bool) (tmp : List ℕ) → Ends (digits_loop room v base upper tmp)
unfolding digits_loop
digits_loop-Ends zero v base upper tmp = Ends-if (v == 0) (ok tmp) fault tt tt
digits_loop-Ends (suc room) v base upper tmp =
    Ends-if (v == 0) (ok tmp) _ tt
      (digits_loop-Ends room (v / base) base upper (digit v base upper ∷ tmp))

out_uint-Ends : (o : Out) (v base : ℕ) (upper : Bool) → Ends (out_uint o v base upper)
unfolding out_uint uint_text
out_uint-Ends o v base upper =
    Ends-bind (uint_text v base upper) _
      (Ends-if (v == 0) _ _ tt (digits_loop-Ends 32 v base upper [])) λ ds. out_str-Ends o ds

out_int-Ends : (o : Out) (v : ℕ) → Ends (out_int o v)
unfolding out_int
out_int-Ends o v =
    Ends-if (is_negative v) _ _
      (Ends-bind (out_char o b'-') _ (out_char-Ends o b'-')
        λ o'. Ends-if (v == 2147483648) fault _ tt (out_uint-Ends o' (u32_mod - v) 10 false))
      (out_uint-Ends o v 10 false)

next_arg-Ends : (args : List ℕ) → Ends (next_arg args)
next_arg-Ends [] = tt
next_arg-Ends (a ∷ args) = tt

string_arg-Ends : (fuel : ℕ) (m : Machine) (p : ℕ) → u32_mod < fuel → Ends (string_arg fuel m p)
unfolding string_arg
string_arg-Ends fuel m p h =
    Ends-if (p == 0) _ _ tt (c_string-Ends fuel m p (omega arith) (omega arith))

-- An argument, and what is done with it.
with_arg-Ends :
    (args : List ℕ) (f : ℕ → Run Out)
    → ((v : ℕ) → Ends (f v))
    → Ends {A = List ℕ × Out} (next_arg args >>= λ a. f a.0 >>= λ o'. ok (a.1, o'))
with_arg-Ends args f h =
    Ends-bind (next_arg args) (λ a. f a.0 >>= λ o'. ok (a.1, o')) (next_arg-Ends args)
      λ a. Ends-bind (f a.0) (λ o'. ok (a.1, o')) (h a.0) λ o'. tt

conversion-Ends :
    (fuel : ℕ) (m : Machine) (c : ℕ) (args : List ℕ) (o : Out)
    → u32_mod < fuel
    → Ends (conversion fuel m c args o)
unfolding conversion
conversion-Ends fuel m c args o h =
    Ends-if (c == b'd' || c == b'i') _ _ (with_arg-Ends args (out_int o) (out_int-Ends o)) (
      Ends-if (c == b'u') _ _
        (with_arg-Ends args (λ v. out_uint o v 10 false) (λ v. out_uint-Ends o v 10 false))
        (Ends-if (c == b'x') _ _
          (with_arg-Ends args (λ v. out_uint o v 16 false) (λ v. out_uint-Ends o v 16 false))
          (Ends-if (c == b'X') _ _
            (with_arg-Ends args (λ v. out_uint o v 16 true) (λ v. out_uint-Ends o v 16 true))
            (Ends-if (c == b'p') _ _
              (Ends-bind (out_str o (text "0x")) _ (out_str-Ends o (text "0x")) λ o1.
                with_arg-Ends args (λ v. out_uint o1 v 16 false) (λ v. out_uint-Ends o1 v 16 false))
              (Ends-if (c == b'c') _ _
                (with_arg-Ends args (λ v. out_char o (v % 256)) (λ v. out_char-Ends o (v % 256)))
                (Ends-if (c == b's') _ _
                  (Ends-bind (next_arg args) _ (next_arg-Ends args) λ a.
                    Ends-bind (string_arg fuel m a.0) _ (string_arg-Ends fuel m a.0 h)
                      λ t. Ends-bind (out_str o t) _ (out_str-Ends o t) λ o'. tt)
                  (Ends-if (c == b'%') _ _
                    (Ends-bind (out_char o b'%') _ (out_char-Ends o b'%') λ o1. tt)
                    (Ends-bind (out_char o b'%') _ (out_char-Ends o b'%')
                      λ o1. Ends-bind (out_char o1 c) _ (out_char-Ends o1 c) λ o2. tt))))))))

skip_width_shorter : (s : List ℕ) → length (skip_width s) ≤ length s
skip_width_shorter [] = omega arith
skip_width_shorter (c ∷ s) = ground (arith, skip_width_shorter s)

skip_longs_shorter : (s : List ℕ) → length (skip_longs s) ≤ length s
skip_longs_shorter [] = omega arith
skip_longs_shorter (c ∷ s) = ground (arith, skip_longs_shorter s)

skipped : (s : List ℕ) → length (skip_width (skip_longs s)) ≤ length s
skipped s = omega (arith, skip_width_shorter (skip_longs s), skip_longs_shorter s)

-- What follows a percent sign.
after_percent-Ends :
    (fuel : ℕ) (m : Machine) (args : List ℕ) (o : Out) (s : List ℕ)
    (next : List ℕ → List ℕ → Out → Run Out)
    → u32_mod < fuel
    → ((rest args : List ℕ) (o' : Out) → length rest < length s → Ends (next rest args o'))
    → Ends {A = Out}
        (elim s [ [] ↦ ok o | d ∷ rest ↦ conversion fuel m d args o >>= λ r. next rest r.0 r.1 ])
after_percent-Ends fuel m args o [] next u h = tt
after_percent-Ends fuel m args o (d ∷ rest) next u h =
    Ends-bind (conversion fuel m d args o) _ (conversion-Ends fuel m d args o u)
      λ r. h rest r.0 r.1 (omega arith)

format_loop-Ends :
    (rounds fuel : ℕ) (m : Machine) (fmt args : List ℕ) (o : Out)
    → length fmt < rounds
    → u32_mod < fuel
    → Ends (format_loop rounds fuel m fmt args o)
unfolding format_loop
format_loop-Ends zero fuel m fmt args o h u = absurd (omega arith)
format_loop-Ends (suc rounds) fuel m [] args o h u = tt
format_loop-Ends (suc rounds) fuel m (c ∷ fmt) args o h u =
    Ends-if (c == b'%') _ _
      (after_percent-Ends fuel m args o (skip_width (skip_longs fmt)) (format_loop rounds fuel m) u
        λ rest args' o' k.
          format_loop-Ends rounds fuel m rest args' o' (omega (arith, skipped fmt)) u)
      (Ends-bind (out_char o c) _ (out_char-Ends o c)
        (λ o'. format_loop-Ends rounds fuel m fmt args o' (omega arith) u))

poke-Ends : (buf : List ℕ) (i c : ℕ) → Ends (poke buf i c)
unfolding poke
poke-Ends buf i c = Ends-if (ltb i (length buf)) _ _ tt tt

finish_buffer-Ends : (o : Out) → Ends (finish_buffer o)
unfolding finish_buffer
finish_buffer-Ends o = Ends-if (ltb 0 (length o.buf)) _ _ (poke-Ends o.buf _ 0) tt

-- The formatter ends whatever the format, its arguments and memory are, with a round for each
-- character and fuel above 2^32 for the strings: it returns or its behaviour is undefined.
pub vformat_ends :
    (fuel : ℕ) (m : Machine) (buf fmt args : List ℕ)
    → u32_mod < fuel
    → vformat fuel m buf fmt args ≢ stuck
unfolding vformat finish_buffer
vformat_ends fuel m buf fmt args h e = subst Ends e (
    Ends-bind (format_loop (suc (length fmt)) fuel m fmt args (record { buf = buf; pos = 0 })) _
      (format_loop-Ends (suc (length fmt)) fuel m fmt args (record { buf = buf; pos = 0 })
        (omega arith) h)
      λ o. Ends-bind (finish_buffer o) _ (finish_buffer-Ends o) λ b. tt)
