-- ===== src/Runtime/Msvcrt/Arguments.antt =====
-- getmainargs of runtime/shim_msvcrt.c.
use silver_nimbus_otter.Prelude.{
  Returns, arith, inl, inr, length, ok, refl, ℕ, ◌+◌, ◌∙◌, ◌≡◌, ◌≤◌, ◌⊎◌,
}
use silver_nimbus_otter.Bytes.{le32}
use silver_nimbus_otter.Bytes.Laws.{le32-IsByte}
use silver_nimbus_otter.Runtime.{Machine}
use silver_nimbus_otter.Runtime.Memory.{bytes_from, put, store_word}
use silver_nimbus_otter.Runtime.Memory.Ranges.{
  IsMapped, store_bytes_ok, put_outside, bytes_from-put, bytes_from_same,
}
use silver_nimbus_otter.Runtime.Msvcrt.{getmainargs}

-- The four bytes at an address are those of the word.
abbrev pub HoldsWord : (ℕ → ℕ) → ℕ → ℕ → Type 0
HoldsWord f a v = bytes_from f a 4 ≡ le32 v

abbrev pub WordsApart : ℕ → ℕ → Type 0
WordsApart a b = (a + 4 ≤ b) ⊎ (b + 4 ≤ a)

put_word : (f : ℕ → ℕ) (a v : ℕ) → HoldsWord (put f a (le32 v)) a v
unfolding le32
put_word f a v = bytes_from-put f a (le32 v) (le32-IsByte v)

HoldsWord-kept :
    (f : ℕ → ℕ) (a b v w : ℕ) → WordsApart a b → HoldsWord f a v → HoldsWord (put f b (le32 w)) a v
unfolding le32
HoldsWord-kept f a b v w (inl apart) h =
    bytes_from_same (put f b (le32 w)) f a 4
      (λ x lo hi. put_outside f b (le32 w) x (inl (omega arith)))
    ∙ h
HoldsWord-kept f a b v w (inr apart) h =
    bytes_from_same (put f b (le32 w)) f a 4
      (λ x lo hi. put_outside f b (le32 w) x (inr (omega arith)))
    ∙ h

store_word_ok :
    (m : Machine) (a v : ℕ)
    → IsMapped m a 4
    → store_word m a v ≡ ok (record m { bytes = put m.bytes a (le32 v) })
unfolding store_word le32
store_word_ok m a v h = store_bytes_ok m a (le32 v) h

-- Where the four words are mapped and apart, getmainargs leaves in them the number of the arguments
-- and the addresses of the arguments and of the environment, the latter also in the environment's
-- variable, and returns 0.
pub getmainargs-Meets :
    (argc argv envp wildcard info : ℕ) (m : Machine)
    → IsMapped m argc 4
    → IsMapped m argv 4
    → IsMapped m envp 4
    → IsMapped m m.initenv 4
    → WordsApart argc argv
      × WordsApart argc envp
      × WordsApart argc m.initenv
      × WordsApart argv envp
      × WordsApart argv m.initenv
      × WordsApart envp m.initenv
    → Returns
        (λ r.
          (r.0 ≡ 0)
          × HoldsWord r.1.bytes argc (length m.argv)
          × HoldsWord r.1.bytes argv m.argv_at
          × HoldsWord r.1.bytes envp m.envp_at
          × HoldsWord r.1.bytes m.initenv m.envp_at)
        (getmainargs argc argv envp wildcard info m)
unfolding getmainargs
getmainargs-Meets argc argv envp wildcard info m a b c d apart =
    let n = length m.argv in
    let f1 = put m.bytes argc (le32 n) in
    let f2 = put f1 argv (le32 m.argv_at) in
    let f3 = put f2 envp (le32 m.envp_at) in
    let m1 = record m { bytes = f1 } in
    let m2 = record m { bytes = f2 } in
    let m3 = record m { bytes = f3 } in
    rw
      (
        store_word_ok m argc n a,
        store_word_ok m1 argv m.argv_at b,
        store_word_ok m2 envp m.envp_at c,
        store_word_ok m3 m.initenv m.envp_at d,
      )
      (
        refl,
        HoldsWord-kept f3 argc m.initenv n m.envp_at apart.2 (
            HoldsWord-kept f2 argc envp n m.envp_at apart.1
              (HoldsWord-kept f1 argc argv n m.argv_at apart.0 (put_word m.bytes argc n))),
        HoldsWord-kept f3 argv m.initenv m.argv_at m.envp_at apart.4
            (HoldsWord-kept f2 argv envp m.argv_at m.envp_at apart.3 (put_word f1 argv m.argv_at)),
        HoldsWord-kept f3 envp m.initenv m.envp_at m.envp_at apart.5 (put_word f2 envp m.envp_at),
        put_word f3 m.initenv m.envp_at,
      )
