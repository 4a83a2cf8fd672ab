-- ===== src/Base/Results.antt =====
-- Exceptions as values, and a service call as a state transition that raises or commits.
use mathlib.Core.Path.{◌≡◌, refl}
use mathlib.Core.Bool.{Bool, true, false}
use mathlib.Core.Option.{Option, none, some}

pub data Result (E : Type 0) (A : Type 0) : Type 0 where
  ok : A → Result E A
  err : E → Result E A

-- A raised exception rolls the session back: only `ok` carries a new state.
abbrev pub Action : Type 0 → Type 0 → Type 0 → Type 0
Action E S A = S → Result E (A × S)

module _ {E S A : Type 0} where
  abbrev pub pure : A → Action E S A
  pure a s = ok (a, s)

  abbrev pub raise : E → Action E S A
  raise e s = err e

  abbrev pub gets : (S → A) → Action E S A
  gets f s = ok (f s, s)

  -- A read of the state that may itself raise.
  abbrev pub reads : (S → Result E A) → Action E S A
  reads f s = elim (f s) [ ok a ↦ ok (a, s) | err e ↦ err e ]

  abbrev pub or_raise : Option A → E → Action E S A
  or_raise none e = raise e
  or_raise (some a) _ = pure a

module _ {E S : Type 0} where
  abbrev pub modify : (S → S) → Action E S (Unit {0})
  modify f s = ok (tt, f s)

  abbrev pub raise_if : Bool → E → Action E S (Unit {0})
  raise_if true e s = err e
  raise_if false e s = ok (tt, s)

infixl 5 ◌>>=◌ ◌>>◌
abbrev pub ◌>>=◌ : {E S A B : Type 0} → Action E S A → (A → Action E S B) → Action E S B
◌>>=◌ m f s = elim (m s) [ ok (a, s') ↦ f a s' | err e ↦ err e ]

abbrev pub ◌>>◌ : {E S A B : Type 0} → Action E S A → Action E S B → Action E S B
m >> k = m >>= λ _. k

-- What holds of a call that returned.
abbrev pub Returns : {E A : Type 0} → (A → Type 0) → Result E A → Type 0
Returns P (ok a) = P a
Returns P (err e) = ⊥

pub Returns-mono :
    {E A : Type 0} (P Q : A → Type 0) (r : Result E A)
    → ((a : A) → P a → Q a)
    → Returns P r
    → Returns Q r
Returns-mono P Q (ok a) k h = k a h
Returns-mono P Q (err e) k h = absurd h

abbrev pub IfReturns : {E A : Type 0} → (A → Type 0) → Result E A → Type 0
IfReturns P (ok a) = P a
IfReturns P (err e) = Unit

-- What a call ensures of its result and the state it leaves, if it does not raise.
abbrev pub Ensures : {E S A : Type 0} → (A → S → Type 0) → Result E (A × S) → Type 0
Ensures Q (ok (a, s)) = Q a s
Ensures Q (err e) = Unit

module _ {E S A B : Type 0} (R : B → S → Type 0) (f : A → Action E S B) (s : S) where
  -- The rules by which a postcondition passes through a `do` block, one for each kind of step.
  pub reads_bind :
      (g : S → Result E A)
      → ((a : A) → g s ≡ ok a → Ensures R (f a s))
      → Ensures R ((reads g >>= f) s)
  reads_bind g k = go (g s) refl
    where
      go :
          (r : Result E A)
          → g s ≡ r
          → Ensures R
              (elim (elim r as (λ _. Result E (A × S)) [ ok a ↦ ok (a, s) | err e ↦ err e ])
                as (λ _. Result E (B × S)) [ ok (a, s') ↦ f a s' | err e ↦ err e ])
      go (ok a) e = k a e
      go (err x) e = tt

  pub or_raise_bind :
      (o : Option A) (e : E)
      → ((a : A) → o ≡ some a → Ensures R (f a s))
      → Ensures R ((or_raise o e >>= f) s)
  or_raise_bind none e k = tt
  or_raise_bind (some a) e k = k a refl

  -- A call whose own postcondition is known.
  pub call_bind :
      (m : Action E S A) (Q : A → S → Type 0)
      → Ensures Q (m s)
      → ((a : A) (s' : S) → Q a s' → Ensures R (f a s'))
      → Ensures R ((m >>= f) s)
  call_bind m Q q k = go (m s) q
    where
      go :
          (r : Result E (A × S))
          → Ensures Q r
          → Ensures R (elim r as (λ _. Result E (B × S)) [ ok (a, s') ↦ f a s' | err e ↦ err e ])
      go (ok (a, s')) h = k a s' h
      go (err x) h = tt

module _ {E S B : Type 0} (R : B → S → Type 0) (f : Unit {0} → Action E S B) (s : S) where
  pub raise_if_bind :
      (c : Bool) (e : E) → (c ≡ false → Ensures R (f tt s)) → Ensures R ((raise_if c e >>= f) s)
  raise_if_bind true e k = tt
  raise_if_bind false e k = k refl

pub or_raise_ends :
    {E S A : Type 0} (R : A → S → Type 0) (s : S) (o : Option A) (e : E)
    → ((a : A) → o ≡ some a → R a s)
    → Ensures R (or_raise o e s)
or_raise_ends R s none e k = tt
or_raise_ends R s (some a) e k = k a refl

-- A postcondition that follows from a stronger one.
pub Ensures-mono :
    {E S A : Type 0} (Q R : A → S → Type 0)
    → ((a : A) (s : S) → Q a s → R a s)
    → (r : Result E (A × S)) → Ensures Q r
    → Ensures R r
Ensures-mono Q R k (ok (a, s)) h = k a s h
Ensures-mono Q R k (err e) h = tt
