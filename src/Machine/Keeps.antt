-- ===== src/Machine/Keeps.antt =====
-- The rules for specifications of code (`Triple`), passed on, and the same rules for code that keeps one
-- property however it ends.
mod Triples
pub use Triples.*
use mathlib.Core.Path.{subst}
use rocker.Prelude.{◌∷◌, ◌⊎◌, ◌≡◌, Bool-cases, inl, inr, Bool, true, false, if◌then◌else◌}
use rocker.Outcome.{Error, Outcome, ok, err, panic, pending}
use rocker.Call.{Env, Call, Reply, Answer, done, failed}
use rocker.Machine.{
  Machine, M, pure, throw, pdie, check, ◌>>=◌, on_error, info, locked, poison_lock, sys_call,
}

-- `P` holds afterwards with a result and with an error, if it held before, and `R` after a panic.
abbrev pub Stays {ℓ} : {A : Type ℓ} → (Machine → Type 0) → (Machine → Type 0) → M A → Type ℓ
Stays P R m = Triple P m (λ _. P) (λ _. P) R

-- `P` holds afterwards however the code ends, if it held before.
abbrev pub Keeps {ℓ} : {A : Type ℓ} → (Machine → Type 0) → M A → Type ℓ
Keeps P m = Stays P P m

-- The code does not panic.
abbrev pub Safe {ℓ} : {A : Type ℓ} → (Machine → Type 0) → M A → Type ℓ
Safe P m = Stays P (λ _. ⊥) m

pub Keeps-pdie {ℓ} : {A : Type ℓ} {P : Machine → Type 0} → Keeps P (pdie {A = A})
Keeps-pdie = Triple-pdie (λ s h. h)

module _ {ℓ} {A : Type ℓ} {P R : Machine → Type 0} where
  pub Keeps-pure : (a : A) → Stays P R (pure a)
  Keeps-pure a = Triple-pure a (λ s h. h)

  pub Keeps-throw : (e : Error) → Stays P R (throw {A = A} e)
  Keeps-throw e = Triple-throw e (λ s h. h)

  pub Keeps-if : (b : Bool) (m n : M A) → Stays P R m → Stays P R n → Stays P R (if b then m else n)
  Keeps-if true m n km kn = km
  Keeps-if false m n km kn = kn

  pub Keeps-on_error :
      (m : M A) (h : Error → M A)
      → Stays P R m
      → ((e : Error) → Stays P R (h e))
      → Stays P R (on_error m h)
  Keeps-on_error m h km kh = Triple-on_error (λ _. P) m h km kh

  pub Keeps-info : (m : M A) → Stays P R m → Stays P R (info m)
  unfolding info
  Keeps-info m km = record { at = λ s p. dropped (m s).0 (m s).1 (km.at s p) }
    where
      dropped :
          (o : Outcome A) (s : Machine)
          → Ends (λ _. P) (λ _. P) R o s
          → Ends (λ _. P) (λ _. P) R (info (λ _. (o, s)) s).0 (info (λ _. (o, s)) s).1
      dropped (ok a) s p = p
      dropped (err e) s p = p
      dropped panic s p = p
      dropped pending s p = p

pub Keeps-check : {A : Type 0} {P R : Machine → Type 0} (r : Answer A) → Stays P R (check r)
unfolding check
Keeps-check (done a) = Keeps-pure a
Keeps-check (failed e) = Keeps-throw _

pub Keeps-bind {ℓ κ} :
    {A : Type ℓ} {B : Type κ} {P R : Machine → Type 0} (m : M A) (f : A → M B)
    → Stays P R m
    → ((a : A) → Stays P R (f a))
    → Stays P R (m >>= f)
Keeps-bind {P} m f km kf = Triple-bind (λ _. P) m f km kf

-- Code under the lock: where the lock is poisoned already, the code is not run.
pub Triple-locked {ℓ} :
    {A : Type ℓ} {P : Machine → Type 0} {Q : A → Machine → Type 0} {E : Error → Machine → Type 0}
    {R : Machine → Type 0} (m : M A)
    → Triple
        (λ s. P s × (s.lock_poisoned ≡ false))
        m
        Q
        E
        (λ s. R (record s { lock_poisoned = true }))
    → ((s : Machine) → P s → s.lock_poisoned ≡ true → R s)
    → Triple P (locked m) Q E R
unfolding locked
Triple-locked {A} {P} {Q} {E} {R} m t r = record {
  at = λ s p. elim (Bool-cases s.lock_poisoned) [
    | inl e ↦ rw (e, locked) (r s p e)
    | inr e ↦ rw (e, locked) (ended (m s).0 (m s).1 (t.at s (p, e)))
  ];
}
  where
    ended :
        (o : Outcome A) (s : Machine)
        → Ends Q E (λ s. R (record s { lock_poisoned = true })) o s
        → Ends Q E R o (poison_lock o s)
    ended (ok a) s p = p
    ended (err e) s p = p
    ended panic s p = p
    ended pending s p = p

pub ruleset keeps_rules = (
  Keeps-pure, Keeps-throw, Keeps-pdie, Keeps-if, Keeps-on_error, Keeps-info, Keeps-check,
  Keeps-bind,
)
