-- ===== src/Runtime/Output/Progress.antt =====
-- The write loops of runtime/ and what they send.
use silver_nimbus_otter.Runtime.{wrote, took, opened, closed, protected, slept}
use silver_nimbus_otter.Prelude.{
  Bool, List, Meets-if, Meets-map, Returns, [], ap, append-nil, append_assoc, ap₂, arith, false,
  get_or, if◌then◌else◌, length, ltb, not, refl, suc, sym, take, true, zero, ℕ, ◌%◌, ◌++◌, ◌+◌, ◌-◌,
  ◌<◌, ◌==◌, ◌||◌, ◌∙◌, ◌∷◌, ◌≡◌, ◌≤◌,
}
use silver_nimbus_otter.Bytes.{u32_mod}
use silver_nimbus_otter.Runtime.Output.{write_list, write_all, u32_mod, write_loop}
use silver_nimbus_otter.Runtime.Memory.{bytes_from}
use silver_nimbus_otter.Runtime.{wrote, is_negative, Machine, Kernel, Event}

-- What the documentation of write(2) says: no more is written than was asked for.
abbrev pub IsWrite : Kernel → Type 0
IsWrite k =
    (events : List Event) (fd p n : ℕ)
    → is_negative (k.write events fd p n) ≡ false
    → k.write events fd p n ≤ n

-- The bytes that have gone to a file descriptor, in order; `events` has the latest first.
unfoldable pub sent : ℕ → List Event → List ℕ
sent fd [] = []
sent fd (wrote d bs ∷ events) = if d == fd then sent fd events ++ bs else sent fd events
sent fd (took d bs ∷ events) = sent fd events
sent fd (opened p f mode ∷ events) = sent fd events
sent fd (closed d ∷ events) = sent fd events
sent fd (protected p n prot ∷ events) = sent fd events
sent fd (slept s ns ∷ events) = sent fd events

bytes_from-append :
    (f : ℕ → ℕ) (p a b : ℕ) → bytes_from f p (a + b) ≡ bytes_from f p a ++ bytes_from f (p + a) b
bytes_from-append f p zero b =
    let e : 0 + b ≡ b = omega arith in
    let e' : p ≡ p + 0 = omega arith in ap (bytes_from f p) e ∙ ap (λ (t : ℕ). bytes_from f t b) e'
bytes_from-append f p (suc a) b =
    let e : suc a + b ≡ suc (a + b) = omega arith in
    let e' : p + 1 + a ≡ p + suc a = omega arith in
    ap (bytes_from f p) e
    ∙ ap (λ t. f p ∷ t) (bytes_from-append f (p + 1) a b)
    ∙ ap (λ (t : ℕ). f p ∷ bytes_from f (p + 1) a ++ bytes_from f t b) e'

-- After the loop `r.0` of the `n` bytes at `p` have gone to `fd`, `done` of them before it, and
-- nothing else has happened.
pub record Sent (src : ℕ → ℕ) (fd p n done : ℕ) (m : Machine) (r : ℕ × Machine) : Type 0 where
  pub only_events : r.1 ≡ record m { events = r.1.events }
  pub at_least : done ≤ r.0
  pub at_most : r.0 ≤ n
  pub output : sent fd r.1.events ≡ sent fd m.events ++ bytes_from src (p + done) (r.0 - done)

==_refl : (a : ℕ) → (a == a) ≡ true
==_refl a = ground arith

ne_zero : (r : ℕ) → (r == 0) ≡ false → 0 < r
ne_zero r h = ground arith

||-eq-false : (a b : Bool) → (a || b) ≡ false → (a ≡ false) × (b ≡ false)
||-eq-false true b h = cc
||-eq-false false b h = (refl, h)

Sent-more :
    (src : ℕ → ℕ) (fd p n done r : ℕ) (m : Machine) (q : ℕ × Machine)
    → Sent src fd p n
        (done + r)
        (record m { events = wrote fd (bytes_from src (p + done) r) ∷ m.events })
        q
    → Sent src fd p n done m q
unfolding sent
Sent-more src fd p n done r m q s =
    let e : p + (done + r) ≡ p + done + r = omega arith in
    let e' : r + (q.0 - (done + r)) ≡ q.0 - done = omega (arith, s.at_least) in
    record {
      only_events = s.only_events;
      at_least = omega (arith, s.at_least);
      at_most = s.at_most;
      output =
          s.output
          ∙ rw (==_refl fd) (
              append_assoc (sent fd m.events) (bytes_from src (p + done) r)
                (bytes_from src (p + (done + r)) (q.0 - (done + r))))
          ∙ ap
              (λ (t : ℕ).
                sent fd m.events
                ++ (bytes_from src (p + done) r ++ bytes_from src t (q.0 - (done + r))))
              e
          ∙ ap (λ t. sent fd m.events ++ t)
              (sym (bytes_from-append src (p + done) r (q.0 - (done + r))))
          ∙ ap (λ (t : ℕ). sent fd m.events ++ bytes_from src (p + done) t) e';
    }

Sent-none :
    (src : ℕ → ℕ) (fd p n done : ℕ) (m : Machine) → done ≤ n → Sent src fd p n done m (done, m)
Sent-none src fd p n done m h =
    let e : 0 ≡ done - done = omega arith in
    record {
      only_events = refl;
      at_least = omega arith;
      at_most = h;
      output =
          sym (append-nil (sent fd m.events))
          ∙ ap (λ (t : ℕ). sent fd m.events ++ bytes_from src (p + done) t) e;
    }

pub write_loop-Meets :
    (k : Kernel) (src : ℕ → ℕ) (fuel fd p n done : ℕ) (m : Machine)
    → IsWrite k
    → n < u32_mod
    → done ≤ n
    → n - done < fuel
    → Returns (Sent src fd p n done m) (write_loop k fuel src fd p n done m)
unfolding write_loop
write_loop-Meets k src zero fd p n done m w u le lt = absurd (omega arith)
write_loop-Meets k src (suc fuel) fd p n done m w u le lt =
    let P = Sent src fd p n done m in
    let r = k.write m.events fd ((p + done) % u32_mod) (n - done) in
    let m' = record m { events = wrote fd (bytes_from src (p + done) r) ∷ m.events } in
    Meets-if ⊥ P (not (ltb done n)) _ _ (λ _. Sent-none src fd p n done m le)
      (λ more.
        Meets-if ⊥ P (r == 0 || is_negative r) _ _ (λ _. Sent-none src fd p n done m le)
          (λ some_written.
            let (pos, nonneg) = ||-eq-false (r == 0) (is_negative r) some_written in
            let small : r ≤ n - done = w m.events fd ((p + done) % u32_mod) (n - done) nonneg in
            let big : 0 < r = ne_zero r pos in
            let e : (done + r) % u32_mod ≡ done + r = omega arith in
            rw e (
              Meets-map ⊥ (Sent src fd p n (done + r) m') P
                (write_loop k fuel src fd p n (done + r) m')
                (write_loop-Meets k src fuel fd p n (done + r) m' w u (omega arith) (omega arith))
                λ q _ s. Sent-more src fd p n done r m q s)))

-- If the kernel writes no more than it is asked to, the loop over `n` bytes at an address ends,
-- what it counts have gone to the file descriptor, from the first on and in order, and it has
-- changed nothing but what has been written.
pub write_all-Meets :
    (k : Kernel) (fd p n : ℕ) (m : Machine)
    → IsWrite k
    → n < u32_mod
    → Returns (Sent m.bytes fd p n 0 m) (write_all k fd p n m)
unfolding write_all
write_all-Meets k fd p n m w u =
    write_loop-Meets k m.bytes (suc n) fd p n 0 m w u (omega arith) (omega arith)

bytes_from-get_or :
    (bs xs : List ℕ) (p n : ℕ)
    → n ≤ length xs
    → ((i : ℕ) → get_or xs i 0 ≡ get_or bs (p + i) 0)
    → bytes_from (λ i. get_or bs i 0) p n ≡ take n xs
bytes_from-get_or bs xs p zero h e = refl
bytes_from-get_or bs [] p (suc n) h e = absurd (omega arith)
bytes_from-get_or bs (x ∷ xs) p (suc n) h e =
    let z : p + 0 ≡ p = omega arith in
    let here : get_or bs p 0 ≡ x = sym (e 0 ∙ ap (λ (t : ℕ). get_or bs t 0) z) in
    ap₂ ◌∷◌ here (
      bytes_from-get_or bs xs (p + 1) n (omega arith) λ i.
        let q : p + suc i ≡ p + 1 + i = omega arith in e (suc i) ∙ ap (λ (t : ℕ). get_or bs t 0) q)

-- After the loop a first part of the bytes has gone to `fd`, and nothing else has happened.
pub record SentList (fd : ℕ) (bs : List ℕ) (m : Machine) (r : ℕ × Machine) : Type 0 where
  pub only_events : r.1 ≡ record m { events = r.1.events }
  pub at_most : r.0 ≤ length bs
  pub output : sent fd r.1.events ≡ sent fd m.events ++ take r.0 bs

whole : (n : ℕ) → n - 0 ≡ n
whole n = omega arith

pub write_list-Meets :
    (k : Kernel) (fd : ℕ) (bs : List ℕ) (m : Machine)
    → IsWrite k
    → length bs < u32_mod
    → Returns (SentList fd bs m) (write_list k fd bs m)
unfolding write_list
write_list-Meets k fd bs m w u =
    let src = λ (i : ℕ). get_or bs i 0 in
    Meets-map ⊥ (Sent src fd 0 (length bs) 0 m) (SentList fd bs m)
      (write_loop k (suc (length bs)) src fd 0 (length bs) 0 m)
      (write_loop-Meets k src (suc (length bs)) fd 0 (length bs) 0 m w u (omega arith)
        (omega arith))
      λ r _ s. record {
        only_events = s.only_events;
        at_most = s.at_most;
        output =
            s.output
            ∙ ap (λ (t : ℕ). sent fd m.events ++ bytes_from src 0 t) (whole r.0)
            ∙ ap (λ t. sent fd m.events ++ t)
                (bytes_from-get_or bs bs 0 r.0 s.at_most
                  λ i. let z : i ≡ 0 + i = omega arith in ap (λ (t : ℕ). get_or bs t 0) z);
      }
