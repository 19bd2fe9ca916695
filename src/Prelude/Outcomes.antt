-- ===== src/Prelude/Outcomes.antt =====
-- What a call of a C function comes to: a value, a reported error, undefined behaviour (an access
-- outside its object or a signed overflow), or a loop that the fuel did not cover.
use mathlib.Core.Path.{◌≡◌, refl, subst}
use silver_nimbus_otter.Prelude.Tests.{if◌then◌else◌}
use mathlib.Core.Bool.{Bool, true, false}

pub data Outcome {ℓ} (E : Type 0) (A : Type ℓ) : Type ℓ where
  ok : A → Outcome E A
  rejected : E → Outcome E A
  fault : Outcome E A
  stuck : Outcome E A

infixl 5 ◌>>=◌ ◌>>◌
abbrev pub ◌>>=◌ {ℓ κ} :
    {E : Type 0} {A : Type ℓ} {B : Type κ} → Outcome E A → (A → Outcome E B) → Outcome E B
ok a >>= f = f a
rejected e >>= f = rejected e
fault >>= f = fault
stuck >>= f = stuck

abbrev pub ◌>>◌ {ℓ} : {E : Type 0} {B : Type ℓ} → Outcome E (Unit {0}) → Outcome E B → Outcome E B
m >> k = m >>= λ _. k

-- `if (b) { report e; return false; }`
abbrev pub reject_if : {E : Type 0} → Bool → E → Outcome E (Unit {0})
reject_if true e = rejected e
reject_if false e = ok tt

-- A value, if there is one, has `P`, there is no undefined behaviour, and the fuel runs out only
-- where `S` allows it.
abbrev pub Meets {ℓ} : {E : Type 0} {A : Type ℓ} → Type 0 → (A → Type 0) → Outcome E A → Type 0
Meets S P (ok a) = P a
Meets S P (rejected e) = Unit
Meets S P fault = ⊥
Meets S P stuck = S

-- No undefined behaviour, as far as the fuel goes.
abbrev pub Ensures {ℓ} : {E : Type 0} {A : Type ℓ} → (A → Type 0) → Outcome E A → Type 0
Ensures P m = Meets Unit P m

-- The function returns: it neither faults nor runs out of fuel.
abbrev pub Returns {ℓ} : {E : Type 0} {A : Type ℓ} → (A → Type 0) → Outcome E A → Type 0
Returns P m = Meets ⊥ P m

-- Nothing is claimed of a value.
abbrev pub Any {ℓ} : {A : Type ℓ} → A → Type 0
Any a = Unit

module _ {ℓ κ} (S : Type 0) {E : Type 0} {A : Type ℓ} {B : Type κ} where
  pub Meets-bind :
      (P : A → Type 0) (Q : B → Type 0) (m : Outcome E A) (f : A → Outcome E B)
      → Meets S P m
      → ((a : A) → m ≡ ok a → P a → Meets S Q (f a))
      → Meets S Q (m >>= f)
  Meets-bind P Q (ok a) f h k = k a refl h
  Meets-bind P Q (rejected e) f h k = tt
  Meets-bind P Q fault f h k = h
  Meets-bind P Q stuck f h k = h

-- A chain that gives a value has given one at its first step.
pub bind-eq-ok {ℓ κ} :
    {E : Type 0} {A : Type ℓ} {B : Type κ} (m : Outcome E A) (f : A → Outcome E B) {b : B}
    → (m >>= f) ≡ ok b
    → (a : A) × (m ≡ ok a) × (f a ≡ ok b)
bind-eq-ok (ok a) f h = (a, refl, h)
bind-eq-ok (rejected e) f h = cc
bind-eq-ok fault f h = cc
bind-eq-ok stuck f h = cc

module _ {ℓ} {E : Type 0} {A : Type ℓ} where
  -- A guard that lets the function go on found its test false.
  pub Meets-reject_if :
      (S : Type 0) (P : A → Type 0) (b : Bool) (e : E) (m : Outcome E A)
      → (b ≡ false → Meets S P m)
      → Meets S P (reject_if b e >> m)
  Meets-reject_if S P true e m h = tt
  Meets-reject_if S P false e m h = h refl

  pub Meets-if :
      (S : Type 0) (P : A → Type 0) (b : Bool) (m n : Outcome E A)
      → (b ≡ true → Meets S P m)
      → (b ≡ false → Meets S P n)
      → Meets S P (if b then m else n)
  Meets-if S P true m n h k = h refl
  Meets-if S P false m n h k = k refl

  pub Meets-map :
      (S : Type 0) (P Q : A → Type 0) (m : Outcome E A)
      → Meets S P m
      → ((a : A) → m ≡ ok a → P a → Q a)
      → Meets S Q m
  Meets-map S P Q (ok a) h k = k a refl h
  Meets-map S P Q (rejected e) h k = tt
  Meets-map S P Q fault h k = h
  Meets-map S P Q stuck h k = h

  pub Meets-eq-ok :
      (S : Type 0) (P : A → Type 0) (m : Outcome E A) {a : A} → Meets S P m → m ≡ ok a → P a
  Meets-eq-ok S P m {a} h e = subst (Meets S P) e h

  pub reject_if-eq-ok :
      (b : Bool) (e : E) (m : Outcome E A) {a : A}
      → (reject_if b e >> m) ≡ ok a
      → (b ≡ false) × (m ≡ ok a)
  reject_if-eq-ok true e m h = cc
  reject_if-eq-ok false e m h = (refl, h)

  pub ok-injective : {a b : A} → ◌≡◌ {A = Outcome E A} (ok a) (ok b) → a ≡ b
  ok-injective h = cc

  -- A function that returns does so where the fuel may run out too.
  pub Returns-Meets : (S : Type 0) (P : A → Type 0) (m : Outcome E A) → Returns P m → Meets S P m
  Returns-Meets S P (ok a) h = h
  Returns-Meets S P (rejected e) h = tt
  Returns-Meets S P fault h = h
  Returns-Meets S P stuck h = absurd h
