-- ===== src/Runtime/Format.antt =====
-- The printf family of runtime/shim_startup.c. On i386 an int, a long and a pointer are one word
-- each, so the `l` of a conversion changes nothing; the arguments are the words of the `va_list`.
-- The buffer is a local array of the callers, so no string that is read overlaps it.
pub mod Digits
pub mod Render
pub mod Truncated
pub mod Ends
pub mod Width
use silver_nimbus_otter.Prelude.{
  Bool, List, [], false, fault, get_or, if◌then◌else◌, leb, length, ltb, ok, set, stuck, suc, true,
  zero, ℕ, ◌%◌, ◌&&◌, ◌+◌, ◌-◌, ◌/◌, ◌==◌, ◌>>=◌, ◌||◌, ◌∷◌, ◌>>◌,
}
use silver_nimbus_otter.Runtime.Memory.{c_string}
use silver_nimbus_otter.Runtime.{is_negative, Run, Machine}
use silver_nimbus_otter.Bytes.{u32_mod, text}

-- The buffer, whose length is `bufcap`, and the number of characters put out so far.
pub record Out : Type 0 where
  pub buf : List ℕ
  pub pos : ℕ

unfoldable pub poke : List ℕ → ℕ → ℕ → Run (List ℕ)
poke buf i c = if ltb i (length buf) then ok (set buf i c) else fault

unfoldable pub out_char : Out → ℕ → Run Out
unfolding poke
out_char o c = do
  buf ← if ltb o.pos (length o.buf) then poke o.buf o.pos c else ok o.buf
  ok (record { buf = buf; pos = (o.pos + 1) % u32_mod })

unfoldable pub out_str : Out → List ℕ → Run Out
unfolding out_char
out_str o [] = ok o
out_str o (c ∷ s) = do o' ← out_char o c; out_str o' s

abbrev pub digit : ℕ → ℕ → Bool → ℕ
digit v base upper =
    get_or (text (if upper then "0123456789ABCDEF" else "0123456789abcdef")) (v % base) 0

-- `tmp[n++] = digits[v % base]` while there is room in `tmp`, and then backwards: the digits so
-- far, the last of them first.
unfoldable pub digits_loop : ℕ → ℕ → ℕ → Bool → List ℕ → Run (List ℕ)
digits_loop zero v base upper tmp = if v == 0 then ok tmp else fault
digits_loop (suc room) v base upper tmp =
    let rest = digits_loop room (v / base) base upper (digit v base upper ∷ tmp) in
    if v == 0 then ok tmp else rest

unfoldable pub uint_text : ℕ → ℕ → Bool → Run (List ℕ)
unfolding digits_loop
uint_text v base upper = if v == 0 then ok (b'0' ∷ []) else digits_loop 32 v base upper []

unfoldable pub out_uint : Out → ℕ → ℕ → Bool → Run Out
unfolding uint_text out_str
out_uint o v base upper = do ds ← uint_text v base upper; out_str o ds

-- `-v` overflows for the least long.
unfoldable pub out_int : Out → ℕ → Run Out
unfolding out_uint
out_int o v =
    if is_negative v
    then (do
      o' ← out_char o b'-'
      if v == 2147483648 then fault else out_uint o' (u32_mod - v) 10 false)
    else out_uint o v 10 false

-- `va_arg`: undefined if there is none.
abbrev pub next_arg : List ℕ → Run (ℕ × List ℕ)
next_arg [] = fault
next_arg (a ∷ args) = ok (a, args)

-- `while (*p == 'l') p++;`
abbrev pub skip_longs : List ℕ → List ℕ
skip_longs [] = []
skip_longs (c ∷ s) = let rest = skip_longs s in if c == b'l' then rest else c ∷ s

abbrev pub is_width : ℕ → Bool
is_width c = c == b'-' || (c == b'0' || (leb b'1' c && leb c b'9'))

abbrev pub skip_width : List ℕ → List ℕ
skip_width [] = []
skip_width (c ∷ s) = let rest = skip_width s in if is_width c then rest else c ∷ s

-- `s ? s : "(null)"`
unfoldable pub string_arg : ℕ → Machine → ℕ → Run (List ℕ)
string_arg fuel m p = if p == 0 then ok (text "(null)") else c_string fuel m p

-- One conversion: what is left of the arguments, and the output.
unfoldable pub conversion : ℕ → Machine → ℕ → List ℕ → Out → Run (List ℕ × Out)
unfolding out_char out_str out_int out_uint string_arg
conversion fuel m c args o =
    if c == b'd' || c == b'i'
    then (do a ← next_arg args; o' ← out_int o a.0; ok (a.1, o'))
    else if c == b'u'
    then (do a ← next_arg args; o' ← out_uint o a.0 10 false; ok (a.1, o'))
    else if c == b'x'
    then (do a ← next_arg args; o' ← out_uint o a.0 16 false; ok (a.1, o'))
    else if c == b'X'
    then (do a ← next_arg args; o' ← out_uint o a.0 16 true; ok (a.1, o'))
    else if c == b'p'
    then (do
      o1 ← out_str o (text "0x")
      a ← next_arg args
      o2 ← out_uint o1 a.0 16 false
      ok (a.1, o2))
    else if c == b'c'
    then (do a ← next_arg args; o' ← out_char o (a.0 % 256); ok (a.1, o'))
    else if c == b's'
    then (do a ← next_arg args; s ← string_arg fuel m a.0; o' ← out_str o s; ok (a.1, o'))
    else if c == b'%'
    then (do o' ← out_char o b'%'; ok (args, o'))
    else (do o1 ← out_char o b'%'; o2 ← out_char o1 c; ok (args, o2))

-- The loop over the format. `rounds` bounds its characters, `fuel` the strings.
unfoldable pub format_loop : ℕ → ℕ → Machine → List ℕ → List ℕ → Out → Run Out
unfolding conversion out_char
format_loop zero fuel m fmt args o = stuck
format_loop (suc rounds) fuel m [] args o = ok o
format_loop (suc rounds) fuel m (c ∷ fmt) args o =
    let plain = out_char o c >>= format_loop rounds fuel m fmt args in
    let spec : Run Out = elim (skip_width (skip_longs fmt)) [
      | [] ↦ ok o
      | d ∷ rest ↦ conversion fuel m d args o >>= λ r. format_loop rounds fuel m rest r.0 r.1
    ] in
    if c == b'%' then spec else plain

-- The terminating NUL.
unfoldable pub finish_buffer : Out → Run (List ℕ)
unfolding poke
finish_buffer o =
    let cap = length o.buf in
    if ltb 0 cap then poke o.buf (if ltb o.pos cap then o.pos else cap - 1) 0 else ok o.buf

-- The buffer and `(int)pos`.
unfoldable pub vformat : ℕ → Machine → List ℕ → List ℕ → List ℕ → Run (List ℕ × ℕ)
unfolding format_loop finish_buffer
vformat fuel m buf fmt args = do
  o ← format_loop (suc (length fmt)) fuel m fmt args (record { buf = buf; pos = 0 })
  buf' ← finish_buffer o
  ok (buf', o.pos)
