-- ===== src/Runtime/Msvcrt/Print.antt =====
-- What vfprintf of runtime/shim_msvcrt.c sends.
use silver_nimbus_otter.Prelude.{
  Bool-cases, List, Meets-map, Returns, [], ap, arith, false, if◌then◌else◌, inl, inr, length,
  length-replicate, length-take, ltb, ltb→ge, ltb→lt, ok, refl, replicate, suc, sym, take,
  take-length, zero, ℕ, ◌+◌, ◌<◌, ◌∙◌, ◌∷◌, ◌≡◌, ◌≤◌, ◌⊎◌,
}
use silver_nimbus_otter.Bytes.{u32_mod}
use silver_nimbus_otter.Runtime.Startup.{iob_to_fd}
use silver_nimbus_otter.Runtime.Format.Render.{render}
use silver_nimbus_otter.Runtime.Output.Whole.{write_list_whole, Says, IsSteady}
use silver_nimbus_otter.Runtime.Output.Progress.{IsWrite}
use silver_nimbus_otter.Runtime.{is_negative, Machine, Kernel}
use silver_nimbus_otter.Runtime.Msvcrt.{u32_mod, printf_buffer, iob_to_fd, Kernel, vfprintf}
use silver_nimbus_otter.Runtime.Format.Truncated.{vformat_lem, terminated}

take-terminated :
    (n : ℕ) (buf t : List ℕ) → n ≤ length t → n < length buf → take n (terminated buf t) ≡ take n t
take-terminated zero buf t h k = refl
take-terminated (suc n) [] t h k = absurd (omega arith)
take-terminated (suc n) (b ∷ []) t h k = absurd (omega arith)
take-terminated (suc n) (b ∷ b' ∷ buf) [] h k = absurd (omega arith)
take-terminated (suc n) (b ∷ b' ∷ buf) (c ∷ t) h k =
    ap (λ q. c ∷ q) (take-terminated n (b' ∷ buf) t (omega arith) (omega arith))

take_past : (n : ℕ) (t : List ℕ) → length t ≤ n → take n t ≡ t
take_past zero [] h = refl
take_past zero (c ∷ t) h = absurd (omega arith)
take_past (suc n) [] h = refl
take_past (suc n) (c ∷ t) h = ap (λ q. c ∷ q) (take_past n t (omega arith))

-- What goes out of a buffer of `cap` bytes.
cut_text :
    (cap : ℕ) (buf t : List ℕ)
    → length buf ≡ suc cap
    → take (if ltb cap (length t) then cap else length t) (terminated buf t) ≡ take cap t
cut_text cap buf t e = elim (Bool-cases (ltb cap (length t))) [
  | inl f ↦
      let lt = ltb→lt cap (length t) f in
      rw f (take-terminated cap buf t (omega arith) (omega arith))
  | inr f ↦
      let ge = ltb→ge cap (length t) f in
      rw f (
        take-terminated (length t) buf t (omega arith) (omega arith)
        ∙ take-length t (length t) refl
        ∙ sym (take_past cap t ge))
]

-- The file descriptor of a stream: the three structures of 32 bytes at `iob` are those of 0, 1 and 2,
-- and every other address stands for the standard output.
abbrev pub IsStreamOf : ℕ → ℕ → ℕ → Type 0
IsStreamOf iob stream fd =
    ((iob ≤ stream) × (stream < iob + 32) × (fd ≡ 0))
    ⊎ ((iob + 32 ≤ stream) × (stream < iob + 64) × (fd ≡ 1))
    ⊎ ((iob + 64 ≤ stream) × (stream < iob + 96) × (fd ≡ 2))
    ⊎ (((stream < iob) ⊎ (iob + 96 ≤ stream)) × (fd ≡ 1))

iob_to_fd-IsStreamOf : (m : Machine) (stream : ℕ) → IsStreamOf m.iob stream (iob_to_fd m stream)
unfolding iob_to_fd
iob_to_fd-IsStreamOf m stream = elim (Bool-cases (ltb stream m.iob)) [
  | inl a ↦ inr (inr (inr (inl (ground arith), ground arith)))
  | inr a ↦ elim (Bool-cases (ltb stream (m.iob + 32))) [
    | inl b ↦ inl (ground arith, ground arith, ground arith)
    | inr b ↦ elim (Bool-cases (ltb stream (m.iob + 64))) [
      | inl c ↦ inr (inl (ground arith, ground arith, ground arith))
      | inr c ↦ elim (Bool-cases (ltb stream (m.iob + 96))) [
        | inl d ↦ inr (inr (inl (ground arith, ground arith, ground arith)))
        | inr d ↦ inr (inr (inr (inr (ground arith), ground arith)))
      ]
    ]
  ]
]

-- If the format and its arguments stand for a text of less than 2^31 characters, and every write of
-- some bytes writes at least one and no more than it is asked to, fprintf sends the text's first
-- 1023 characters, or all of it, returns their number, and changes nothing else. The file descriptor
-- is 0, 1 or 2 for the first three streams of the array, and 1 for everything else.
pub vfprintf-Meets :
    (k : Kernel) (fuel stream : ℕ) (fmt args t : List ℕ) (m : Machine)
    → IsWrite k
    → IsSteady k
    → render (suc (length fmt)) fuel m fmt args ≡ ok t
    → length t < 2147483648
    → Returns
        (λ r.
          (fd : ℕ) × IsStreamOf m.iob stream fd
          × (r.0 ≡ length (take 1023 t))
          × Says fd (take 1023 t) m r.1)
        (vfprintf k fuel stream fmt args m)
unfolding vfprintf
vfprintf-Meets k fuel stream fmt args t m w st e u =
    let fd = iob_to_fd m stream in
    let sent = λ (r : ℕ × Machine). (r.0 ≡ length (take 1023 t)) × Says fd (take 1023 t) m r.1 in
    let buf : List ℕ = replicate printf_buffer 0 in
    let nonneg : is_negative (length t) ≡ false = ground arith in
    let cut : take (if ltb 1023 (length t) then 1023 else length t) (terminated buf t)
        ≡ take 1023 t =
      cut_text 1023 buf t (length-replicate {A = ℕ} printf_buffer 0) in
    let bound : length (take 1023 t) < u32_mod = omega (arith, length-take 1023 t) in
    rw (vformat_lem fuel m buf fmt args t e (omega arith), nonneg, cut)
      (Meets-map ⊥ sent
        (λ r.
          (fd : ℕ) × IsStreamOf m.iob stream fd
          × (r.0 ≡ length (take 1023 t))
          × Says fd (take 1023 t) m r.1)
        _ (write_list_whole k fd (take 1023 t) m w st bound)
        λ r _ h. (fd, iob_to_fd-IsStreamOf m stream, h.0, h.1))
