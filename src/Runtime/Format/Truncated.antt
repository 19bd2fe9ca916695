-- ===== src/Runtime/Format/Truncated.antt =====
-- The buffer of shim_vformat in runtime/shim_startup.c.
use silver_nimbus_otter.Prelude.{
  Bool-cases, List, [], ap, append-nil, append_assoc, ap₂, arith, fault, if◌then◌else◌, inl, inr,
  length, length-append, ltb, ltb→ge, ltb→lt, ok, refl, rejected, set, stuck, suc, sym, true, zero,
  ℕ, ◌%◌, ◌++◌, ◌+◌, ◌-◌, ◌<◌, ◌==◌, ◌>>=◌, ◌∙◌, ◌∷◌, ◌≡◌, ◌≤◌,
}
use silver_nimbus_otter.Bytes.{u32_mod}
use silver_nimbus_otter.Runtime.Format.Render.{
  out_char_ok, put_out, conversion_ok, render_conversion, emits-append, emits, emit, render,
}
use silver_nimbus_otter.Runtime.{Machine, Run}
use silver_nimbus_otter.Runtime.Format.{
  skip_longs, vformat, u32_mod, skip_width, finish_buffer, conversion, Run, format_loop, Out,
}

-- The text put_text out, with the output before it.
abbrev put_text : Out → Run (List ℕ) → Run Out
put_text o m = m >>= λ t. ok (emits o t)

put_text-cons :
    (o : Out) (c : ℕ) (m : Run (List ℕ))
    → put_text (emit o c) m ≡ put_text o (m >>= λ t. ok (c ∷ t))
put_text-cons o c (ok t) = refl
put_text-cons o c (rejected e) = refl
put_text-cons o c fault = refl
put_text-cons o c stuck = refl

put_text-append :
    (o : Out) (s : List ℕ) (m : Run (List ℕ))
    → put_text (emits o s) m ≡ put_text o (m >>= λ t. ok (s ++ t))
put_text-append o s (ok t) = ap (λ q. ok q) (sym (emits-append o s t))
put_text-append o s (rejected e) = refl
put_text-append o s fault = refl
put_text-append o s stuck = refl

-- One conversion, and then the rest.
after_conversion :
    (o : Out) (m : Run (List ℕ × List ℕ)) (f : List ℕ → Out → Run Out) (g : List ℕ → Run (List ℕ))
    → ((args : List ℕ) (o' : Out) → f args o' ≡ put_text o' (g args))
    → (put_out o m >>= λ r. f r.0 r.1) ≡ put_text o (m >>= λ r. g r.0 >>= λ t. ok (r.1 ++ t))
after_conversion o (ok r) f g h = h r.0 (emits o r.1) ∙ put_text-append o r.1 (g r.0)
after_conversion o (rejected e) f g h = refl
after_conversion o fault f g h = refl
after_conversion o stuck f g h = refl

-- What follows a percent sign.
after_percent :
    (fuel : ℕ) (m : Machine) (args : List ℕ) (o : Out) (spec : List ℕ)
    (f : List ℕ → List ℕ → Out → Run Out) (g : List ℕ → List ℕ → Run (List ℕ))
    → ((rest args : List ℕ) (o' : Out) → f rest args o' ≡ put_text o' (g rest args))
    → elim spec [ [] ↦ ok o | d ∷ rest ↦ conversion fuel m d args o >>= λ r. f rest r.0 r.1 ]
      ≡ put_text o (elim spec [
        | [] ↦ ok []
        | d ∷ rest ↦ render_conversion fuel m d args >>= λ r. g rest r.0 >>= λ t. ok (r.1 ++ t)
      ])
after_percent fuel m args o [] f g h = refl
after_percent fuel m args o (d ∷ rest) f g h =
    rw (conversion_ok fuel m d args o)
      (after_conversion o (render_conversion fuel m d args) (f rest) (g rest) (h rest))

format_loop_ok :
    (rounds fuel : ℕ) (m : Machine) (fmt args : List ℕ) (o : Out)
    → format_loop rounds fuel m fmt args o ≡ put_text o (render rounds fuel m fmt args)
unfolding format_loop render
format_loop_ok zero fuel m fmt args o = refl
format_loop_ok (suc rounds) fuel m [] args o = refl
format_loop_ok (suc rounds) fuel m (c ∷ fmt) args o = elim (Bool-cases (c == b'%')) [
  | inl e ↦ rw e (
      after_percent fuel m args o (skip_width (skip_longs fmt)) (format_loop rounds fuel m)
        (render rounds fuel m) (format_loop_ok rounds fuel m))
  | inr e ↦
      rw (e, out_char_ok o c, format_loop_ok rounds fuel m fmt args (emit o c))
        (put_text-cons o c (render rounds fuel m fmt args))
]

-- The buffer with the text over it, as far as it reaches.
abbrev overlay : List ℕ → List ℕ → List ℕ
overlay [] t = []
overlay (b ∷ buf) [] = b ∷ buf
overlay (b ∷ buf) (c ∷ t) = c ∷ overlay buf t

length-overlay : (buf t : List ℕ) → length (overlay buf t) ≡ length buf
length-overlay [] t = refl
length-overlay (b ∷ buf) [] = refl
length-overlay (b ∷ buf) (c ∷ t) = ap (λ (n : ℕ). suc n) (length-overlay buf t)

set-overlay :
    (buf t : List ℕ) (c : ℕ)
    → length t < length buf
    → set (overlay buf t) (length t) c ≡ overlay buf (t ++ (c ∷ []))
set-overlay [] t c h = absurd (omega arith)
set-overlay (b ∷ []) [] c h = refl
set-overlay (b ∷ b' ∷ buf) [] c h = refl
set-overlay (b ∷ buf) (d ∷ t) c h = ap (λ q. d ∷ q) (set-overlay buf t c (omega arith))

overlay-full :
    (buf t : List ℕ) (c : ℕ) → length buf ≤ length t → overlay buf t ≡ overlay buf (t ++ (c ∷ []))
overlay-full [] t c h = refl
overlay-full (b ∷ buf) [] c h = absurd (omega arith)
overlay-full (b ∷ buf) (d ∷ t) c h = ap (λ q. d ∷ q) (overlay-full buf t c (omega arith))

abbrev shown : List ℕ → List ℕ → Out
shown buf t = record { buf = overlay buf t; pos = length t }

emit-shown :
    (buf t : List ℕ) (c : ℕ)
    → length t + 1 < u32_mod
    → emit (shown buf t) c ≡ shown buf (t ++ (c ∷ []))
emit-shown buf t c h =
    let len : (length t + 1) % u32_mod ≡ length (t ++ (c ∷ [])) =
      omega (arith, length-append t (c ∷ [])) in
    ap₂ (λ (q : List ℕ) (n : ℕ). record { buf = q; pos = n }) (over (length-overlay buf t)) len
  where
    over :
        length (overlay buf t) ≡ length buf
        → (if ltb (length t) (length (overlay buf t))
            then set (overlay buf t) (length t) c
            else overlay buf t)
          ≡ overlay buf (t ++ (c ∷ []))
    over e = elim (Bool-cases (ltb (length t) (length buf))) [
      | inl f ↦ rw (e, f) (set-overlay buf t c (ltb→lt (length t) (length buf) f))
      | inr f ↦ rw (e, f) (overlay-full buf t c (ltb→ge (length t) (length buf) f))
    ]

emits-shown :
    (buf t s : List ℕ) → length t + length s < u32_mod → emits (shown buf t) s ≡ shown buf (t ++ s)
emits-shown buf t [] h = ap (shown buf) (sym (append-nil t))
emits-shown buf t (c ∷ s) h =
    ap (λ (o : Out). emits o s) (emit-shown buf t c (omega arith))
    ∙ emits-shown buf (t ++ (c ∷ [])) s (omega (arith, length-append t (c ∷ [])))
    ∙ ap (shown buf) (append_assoc t (c ∷ []) s)

-- The text cut to the buffer with its NUL: what snprintf leaves.
abbrev pub terminated : List ℕ → List ℕ → List ℕ
terminated [] t = []
terminated (b ∷ []) t = 0 ∷ []
terminated (b ∷ b' ∷ buf) [] = 0 ∷ b' ∷ buf
terminated (b ∷ b' ∷ buf) (c ∷ t) = c ∷ terminated (b' ∷ buf) t

-- Where the NUL goes.
abbrev last_pos : ℕ → ℕ → ℕ
last_pos pos cap = if ltb pos cap then pos else cap - 1

set-terminated :
    (b : ℕ) (buf t : List ℕ)
    → set (overlay (b ∷ buf) t) (last_pos (length t) (suc (length buf))) 0 ≡ terminated (b ∷ buf) t
set-terminated b [] [] = refl
set-terminated b [] (c ∷ t) =
    let e : last_pos (suc (length t)) 1 ≡ 0 = ground arith in
    ap (λ (n : ℕ). set (overlay (b ∷ []) (c ∷ t)) n 0) e
set-terminated b (b' ∷ buf) [] =
    let e : last_pos 0 (suc (suc (length buf))) ≡ 0 = ground arith in
    ap (λ (n : ℕ). set (overlay (b ∷ b' ∷ buf) []) n 0) e
set-terminated b (b' ∷ buf) (c ∷ t) =
    let n = last_pos (length t) (suc (length buf)) in
    let e : last_pos (suc (length t)) (suc (suc (length buf))) ≡ suc n = ground arith in
    ap (λ (n : ℕ). set (overlay (b ∷ b' ∷ buf) (c ∷ t)) n 0) e
    ∙ ap (λ q. c ∷ q) (set-terminated b' buf t)

finish_ok : (buf t : List ℕ) → finish_buffer (shown buf t) ≡ ok (terminated buf t)
unfolding finish_buffer
finish_ok [] t = refl
finish_ok (b ∷ buf) t =
    let n = last_pos (length t) (suc (length buf)) in
    let len : length (overlay (b ∷ buf) t) ≡ suc (length buf) = length-overlay (b ∷ buf) t in
    let inside : ltb n (suc (length buf)) ≡ true = ground arith in
    let some_room : ltb 0 (suc (length buf)) ≡ true = ground arith in
    rw (len, some_room, inside) (ap (λ q. ok q) (set-terminated b buf t))

overlay-nil : (buf : List ℕ) → overlay buf [] ≡ buf
overlay-nil [] = refl
overlay-nil (b ∷ buf) = refl

-- If the format and its arguments stand for a text of less than 2^32 characters, the formatter never
-- writes outside the buffer, leaves in it the text cut to its length with a NUL behind it, as
-- snprintf does, and returns the length of the whole text.
pub vformat_lem :
    (fuel : ℕ) (m : Machine) (buf fmt args t : List ℕ)
    → render (suc (length fmt)) fuel m fmt args ≡ ok t
    → length t < u32_mod
    → vformat fuel m buf fmt args ≡ ok (terminated buf t, length t)
unfolding vformat
vformat_lem fuel m buf fmt args t e h =
    let start : record { buf = buf; pos = 0 } ≡ shown buf [] =
      ap (λ (q : List ℕ). record { buf = q; pos = 0 }) (sym (overlay-nil buf)) in
    let all : emits (record { buf = buf; pos = 0 }) t ≡ shown buf t =
      ap (λ (o : Out). emits o t) start ∙ emits-shown buf [] t (omega arith) in
    rw
      (
        format_loop_ok (suc (length fmt)) fuel m fmt args (record { buf = buf; pos = 0 }),
        e,
        all,
        finish_ok buf t,
      )
      refl
