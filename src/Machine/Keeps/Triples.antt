-- ===== src/Machine/Keeps/Triples.antt =====
-- Specifications of code: from a state with `P`, a result comes with `Q`, an error with `E` and a panic
-- with `R`; the code does not go on for ever. One rule for each way to build code.
use mathlib.Core.Path.{subst}
use rocker.Prelude.{◌∷◌, ◌⊎◌, ◌≡◌, refl, inl, inr}
use rocker.Outcome.{Error, Outcome, ok, err, panic, pending}
use rocker.Call.{Env, Call, Reply}
use rocker.Machine.{Machine, M, pure, throw, pdie, ◌>>=◌, on_error, info, sys_call}

abbrev pub Ends {ℓ} :
    {A : Type ℓ}
    → (A → Machine → Type 0)
    → (Error → Machine → Type 0)
    → (Machine → Type 0)
    → Outcome A
    → Machine
    → Type 0
Ends Q E R (ok a) s = Q a s
Ends Q E R (err e) s = E e s
Ends Q E R panic s = R s
Ends Q E R pending s = ⊥

pub record Triple {ℓ} {A : Type ℓ} (P : Machine → Type 0) (m : M A) (Q : A → Machine → Type 0)
    (E : Error → Machine → Type 0) (R : Machine → Type 0) : Type ℓ where
  pub at : (s : Machine) → P s → Ends Q E R (m s).0 (m s).1

module _ {ℓ} {A : Type ℓ} {P : Machine → Type 0} {Q : A → Machine → Type 0}
    {E : Error → Machine → Type 0} {R : Machine → Type 0} where
  pub Triple-pure : (a : A) → ((s : Machine) → P s → Q a s) → Triple P (pure a) Q E R
  unfolding pure
  Triple-pure a h = record { at = h }

  pub Triple-throw : (e : Error) → ((s : Machine) → P s → E e s) → Triple P (throw e) Q E R
  unfolding throw
  Triple-throw e h = record { at = h }

  pub Triple-pdie : ((s : Machine) → P s → R s) → Triple P pdie Q E R
  unfolding pdie
  Triple-pdie h = record { at = h }

  -- A weaker start and stronger ends.
  pub Triple-weaken :
      (P' : Machine → Type 0) (Q' : A → Machine → Type 0) (E' : Error → Machine → Type 0)
      (R' : Machine → Type 0) (m : M A)
      → Triple P' m Q' E' R'
      → ((s : Machine) → P s → P' s)
      → ((a : A) (s : Machine) → Q' a s → Q a s)
      → ((e : Error) (s : Machine) → E' e s → E e s)
      → ((s : Machine) → R' s → R s)
      → Triple P m Q E R
  Triple-weaken P' Q' E' R' m t p q e r = record {
    at = λ s h. ended (m s).0 (m s).1 (t.at s (p s h));
  }
    where
      ended : (o : Outcome A) (s : Machine) → Ends Q' E' R' o s → Ends Q E R o s
      ended (ok a) s h = q a s h
      ended (err x) s h = e x s h
      ended panic s h = r s h
      ended pending s h = h

  pub Triple-on_error :
      (E' : Error → Machine → Type 0) (m : M A) (h : Error → M A)
      → Triple P m Q E' R
      → ((e : Error) → Triple (E' e) (h e) Q E R)
      → Triple P (on_error m h) Q E R
  unfolding on_error
  Triple-on_error E' m h t k = record { at = λ s p. recovered (m s).0 (m s).1 (t.at s p) }
    where
      recovered :
          (o : Outcome A) (s : Machine)
          → Ends Q E' R o s
          → Ends Q E R (on_error (λ _. (o, s)) h s).0 (on_error (λ _. (o, s)) h s).1
      recovered (ok a) s p = p
      recovered (err e) s p = (k e).at s p
      recovered panic s p = p
      recovered pending s p = p

module _ {ℓ κ} {A : Type ℓ} {B : Type κ} {P : Machine → Type 0} {Q : B → Machine → Type 0}
    {E : Error → Machine → Type 0} {R : Machine → Type 0} where
  pub Triple-bind :
      (S : A → Machine → Type 0) (m : M A) (f : A → M B)
      → Triple P m S E R
      → ((a : A) → Triple (S a) (f a) Q E R)
      → Triple P (m >>= f) Q E R
  unfolding ◌>>=◌
  Triple-bind S m f t k = record { at = λ s p. goes_on (m s).0 (m s).1 (t.at s p) }
    where
      goes_on :
          (o : Outcome A) (s : Machine)
          → Ends S E R o s
          → Ends Q E R (((λ _. (o, s)) >>= f) s).0 (((λ _. (o, s)) >>= f) s).1
      goes_on (ok a) s p = (k a).at s p
      goes_on (err e) s p = p
      goes_on panic s p = p
      goes_on pending s p = p

pub Triple-info {ℓ} :
    {A : Type ℓ} {P Q R : Machine → Type 0} (m : M A)
    → Triple P m (λ _. Q) (λ _. Q) R
    → Triple P (info m) (λ _. Q) (λ _ _. ⊥) R
unfolding info
Triple-info {A = A} {P} {Q} {R} m t = record { at = λ s p. dropped (m s).0 (m s).1 (t.at s p) }
  where
    dropped :
        (o : Outcome A) (s : Machine)
        → Ends (λ _. Q) (λ _. Q) R o s
        → Ends (λ _. Q) (λ _ _. ⊥) R (info (λ _. (o, s)) s).0 (info (λ _. (o, s)) s).1
    dropped (ok a) s p = p
    dropped (err e) s p = p
    dropped panic s p = p
    dropped pending s p = p

-- One call, from what its answer may be.
pub Triple-call :
    {P : Machine → Type 0} (env : Env) (c : Call) {Q : Reply c → Machine → Type 0}
    {E : Error → Machine → Type 0} {R : Machine → Type 0}
    → ((s : Machine)
        → P s
        → Q
            (env s.trace c)
            (record s { trace = (record { request = c; reply = env s.trace c }) ∷ s.trace }))
    → Triple P (sys_call env c) Q E R
unfolding sys_call
Triple-call env c h = record { at = h }

-- Code that returns no error ends with what holds of a result, or of a panic.
pub Triple-either {ℓ} :
    {A : Type ℓ} {P S R : Machine → Type 0} (m : M A)
    → Triple P m (λ _. S) (λ _ _. ⊥) R
    → (s : Machine) → P s
    → S (m s).1 ⊎ R (m s).1
Triple-either {A} {P} {S} {R} m t s p = either (m s).0 (m s).1 (t.at s p)
  where
    either : (o : Outcome A) (s : Machine) → Ends (λ _. S) (λ _ _. ⊥) R o s → S s ⊎ R s
    either (ok a) s h = inl h
    either (err e) s h = absurd h
    either panic s h = inr h
    either pending s h = absurd h

-- Code that returns no error ends with a result, or with a panic.
pub Triple-ended {ℓ} :
    {A : Type ℓ} {P S R : Machine → Type 0} (m : M A)
    → Triple P m (λ _. S) (λ _ _. ⊥) R
    → (s : Machine) → P s
    → (((a : A) × ((m s).0 ≡ ok a)) × S (m s).1) ⊎ (((m s).0 ≡ panic) × R (m s).1)
Triple-ended {A} {P} {S} {R} m t s p = ended (m s).0 refl (t.at s p)
  where
    ended :
        (o : Outcome A)
        → (m s).0 ≡ o
        → Ends (λ _. S) (λ _ _. ⊥) R o (m s).1
        → (((a : A) × ((m s).0 ≡ ok a)) × S (m s).1) ⊎ (((m s).0 ≡ panic) × R (m s).1)
    ended (ok a) e h = inl ((a, e), h)
    ended (err x) e h = absurd h
    ended panic e h = inr (e, h)
    ended pending e h = absurd h

-- What holds of a result and of an error holds afterwards, where there is no panic.
pub Triple-after {ℓ} :
    {A : Type ℓ} {P S : Machine → Type 0} {Q : A → Machine → Type 0} (m : M A)
    → Triple P m (λ a s. Q a s × S s) (λ _. S) (λ _. ⊥)
    → (s : Machine) → P s
    → S (m s).1
Triple-after {A} {P} {S} {Q} m t s p = after (m s).0 (m s).1 (t.at s p)
  where
    after : (o : Outcome A) (s : Machine) → Ends (λ a s. Q a s × S s) (λ _. S) (λ _. ⊥) o s → S s
    after (ok a) s h = h.1
    after (err e) s h = h
    after panic s h = absurd h
    after pending s h = absurd h

-- Code that can only panic.
pub Triple-panics {ℓ} :
    {A : Type ℓ} {P R : Machine → Type 0} (m : M A)
    → Triple P m (λ _ _. ⊥) (λ _ _. ⊥) R
    → (s : Machine) → P s
    → R (m s).1
Triple-panics {A} {P} {R} m t s p = after (m s).0 (m s).1 (t.at s p)
  where
    after : (o : Outcome A) (s : Machine) → Ends (λ _ _. ⊥) (λ _ _. ⊥) R o s → R s
    after (ok a) s h = absurd h
    after (err e) s h = absurd h
    after panic s h = h
    after pending s h = absurd h

-- What a result tells.
pub Triple-result {ℓ} :
    {A : Type ℓ} {P R : Machine → Type 0} {Q : A → Machine → Type 0} {E : Error → Machine → Type 0}
    (m : M A)
    → Triple P m Q E R
    → (s : Machine) (a : A) → P s
    → (m s).0 ≡ ok a
    → Q a (m s).1
Triple-result {A} {P} {R} {Q} {E} m t s a p e = subst (λ o. Ends Q E R o (m s).1) e (t.at s p)

-- Two specifications of the same code.
pub Triple-and {ℓ} :
    {A : Type ℓ} {P P' : Machine → Type 0} {Q Q' : A → Machine → Type 0}
    {E E' : Error → Machine → Type 0} {R R' : Machine → Type 0} (m : M A)
    → Triple P m Q E R
    → Triple P' m Q' E' R'
    → Triple (λ s. P s × P' s) m (λ a s. Q a s × Q' a s) (λ e s. E e s × E' e s) (λ s. R s × R' s)
Triple-and {A} {P} {P'} {Q} {Q'} {E} {E'} {R} {R'} m t t' = record {
  at = λ s h. both (m s).0 (m s).1 (t.at s h.0) (t'.at s h.1);
}
  where
    both :
        (o : Outcome A) (s : Machine)
        → Ends Q E R o s
        → Ends Q' E' R' o s
        → Ends (λ a s. Q a s × Q' a s) (λ e s. E e s × E' e s) (λ s. R s × R' s) o s
    both (ok a) s h h' = (h, h')
    both (err e) s h h' = (h, h')
    both panic s h h' = (h, h')
    both pending s h h' = h

-- A start that comes with a witness.
pub Triple-given {ℓ} :
    {X : Type 0} {A : Type ℓ} {P : X → Machine → Type 0} {Q : A → Machine → Type 0}
    {E : Error → Machine → Type 0} {R : Machine → Type 0} (m : M A)
    → ((x : X) → Triple (P x) m Q E R)
    → Triple (λ s. (x : X) × P x s) m Q E R
Triple-given m t = record { at = λ s (x, p). (t x).at s p }
