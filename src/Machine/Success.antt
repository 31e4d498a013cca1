-- ===== src/Machine/Success.antt =====
-- What success tells of code: if it gives a result, from a state with `P`, then `Q`.
use rocker.Prelude.{refl, List, ◌++◌}
use rocker.Outcome.{Error}
use rocker.Call.{Env, Call, Answer, done, failed}
use rocker.Machine.{Machine, M, sys_call, check, throw, on_error}
use rocker.Machine.Keeps.{
  Triple, Triple-pure, Triple-throw, Triple-weaken, Triple-call, Triple-on_error,
}
use rocker.Machine.Observe.{View, Seen, observe}

-- Nothing is told of errors and panics, but the code ends.
abbrev pub Gives {ℓ} : {A : Type ℓ} → (Machine → Type 0) → M A → (A → Machine → Type 0) → Type ℓ
Gives P m Q = Triple P m Q (λ _ _. Unit {0}) (λ _. Unit {0})

pub Gives-call :
    {X : Type 0} (f : View X) (l : List X) (env : Env) (c : Call)
    → Gives (Seen f l) (sys_call env c) (λ r. Seen f (f c r ++ l))
unfolding observe
Gives-call f l env c = Triple-call env c (λ s h. rw h refl)

pub Gives-throw {ℓ} :
    {A : Type ℓ} {P : Machine → Type 0} {Q : A → Machine → Type 0} (e : Error) → Gives P (throw e) Q
Gives-throw e = Triple-throw e (λ s h. tt)

pub Gives-check :
    {A : Type 0} (P : Answer A → Machine → Type 0) (r : Answer A)
    → Gives (P r) (check r) (λ a. P (done a))
unfolding check
Gives-check P (done a) = Triple-pure a (λ s h. h)
Gives-check P (failed e) = Gives-throw _

-- Code that has another way to fail, which gives no result.
pub Gives-or {ℓ} :
    {A : Type ℓ} {P : Machine → Type 0} {Q : A → Machine → Type 0} (m : M A) (h : Error → M A)
    → Gives P m Q
    → ((e : Error) → Gives (λ _. Unit {0}) (h e) (λ _ _. ⊥))
    → Gives P (on_error m h) Q
Gives-or m h k n =
    Triple-on_error (λ _ _. Unit {0}) m h k
      (λ e. Triple-weaken _ _ _ _ _ (n e) (λ s p. p) (λ a s p. absurd p) (λ e s p. p) (λ s p. p))

-- The same before and after.
pub Gives-kept : {A : Type 0} {P : Machine → Type 0} (r : Answer A) → Gives P (check r) (λ _. P)
Gives-kept {P = P} r = Gives-check (λ _. P) r
