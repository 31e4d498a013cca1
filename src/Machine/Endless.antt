-- ===== src/Machine/Endless.antt =====
-- Specifications of loops that never return: from a state with `P`, the loop is still running after its
-- rounds, with `Q`, or has panicked, with `R`.
use rocker.Outcome.{Outcome, ok, err, panic, pending}
use rocker.Machine.{Machine, M, ◌>>=◌, lift}
use rocker.Machine.Keeps.{Triple, Ends}

abbrev pub Runs {ℓ} :
    {A : Type ℓ} → (Machine → Type 0) → (Machine → Type 0) → Outcome A → Machine → Type 0
Runs Q R (ok a) s = ⊥
Runs Q R (err e) s = ⊥
Runs Q R panic s = R s
Runs Q R pending s = Q s

pub record Endless {ℓ} {A : Type ℓ} (P : Machine → Type 0) (m : M A) (Q R : Machine → Type 0)
    : Type ℓ where
  pub at : (s : Machine) → P s → Runs Q R (m s).0 (m s).1

module _ {ℓ} {A : Type ℓ} {P Q R : Machine → Type 0} where
  pub Endless-pending : ((s : Machine) → P s → Q s) → Endless P (lift {A = A} pending) Q R
  unfolding lift
  Endless-pending h = record { at = h }

module _ {ℓ κ} {A : Type ℓ} {B : Type κ} {P Q R : Machine → Type 0} where
  pub Endless-bind :
      (S : A → Machine → Type 0) (m : M A) (f : A → M B)
      → Triple P m S (λ _ _. ⊥) R
      → ((a : A) → Endless (S a) (f a) Q R)
      → Endless P (m >>= f) Q R
  unfolding ◌>>=◌
  Endless-bind S m f t k = record { at = λ s p. goes_on (m s).0 (m s).1 (t.at s p) }
    where
      goes_on :
          (o : Outcome A) (s : Machine)
          → Ends S (λ _ _. ⊥) R o s
          → Runs Q R (((λ _. (o, s)) >>= f) s).0 (((λ _. (o, s)) >>= f) s).1
      goes_on (ok a) s p = (k a).at s p
      goes_on (err e) s p = p
      goes_on panic s p = p
      goes_on pending s p = absurd p
