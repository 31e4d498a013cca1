-- ===== src/Core/Log/Together.antt =====
-- Many processes that print under the one semaphore (core/src/utils/mod.rs), in any order of their
-- steps. A step is one call on the semaphore and what `sem_get` or `sem_put` makes of its answer.
use rocker.Core.Log.{at_line, etimedout, waited, posted, die}
use rocker.Core.Errors.{errgen_sys, ErrorTexts}
use rocker.Prelude.{
  ℕ, suc, ◌+◌, ◌≡◌, refl, sym, inl, inr, false, ◌==◌, if◌then◌else◌, Bool-cases, arith,
}
use rocker.Outcome.{Outcome, ok, err, panic, pending, unknown}
use rocker.Call.{Env, Answer, done, failed}
use rocker.Machine.{Machine, M, ◌>>=◌, pdie}

-- The value of the semaphore, how many printers have taken it or think so, how many of these have
-- panicked there, and how many waits have timed out.
pub record Shared : Type 0 where
  pub value : ℕ
  pub inside : ℕ
  pub dead : ℕ
  pub expired : ℕ

-- What `sem_timedwait` does, with the value before and after: it takes the semaphore or fails.
pub data Waits : ℕ → Answer (Unit {0}) → ℕ → Type 0 where
  taken : {v : ℕ} → Waits (suc v) (done tt) v
  wait_failed : {v e : ℕ} → Waits v (failed e) v

-- `sem_post`
pub data Posts : ℕ → Answer (Unit {0}) → ℕ → Type 0 where
  given : {v : ℕ} → Posts v (done tt) (suc v)
  post_failed : {v e : ℕ} → Posts v (failed e) v

abbrev pub timeouts : Answer (Unit {0}) → ℕ
timeouts (done _) = 0
timeouts (failed e) = if e == etimedout then 1 else 0

-- A process: its environment and pid, its way to print an error inside `p`, and its state.
pub record Process (Chain : Type 0) : Type 0 where
  pub env : Env
  pub pid : ℕ
  pub again : Chain → M (Unit {0})
  pub state : Machine

module _ {Chain : Type 0} (texts : ErrorTexts Chain) where
  -- A process enters where `sem_get` returns, and leaves where `sem_put` does; in between it can
  -- panic. From a wait that ends otherwise `sem_get` does not return.
  pub data SemStep (σ : Shared) : Shared → Type 0 where
    get :
        (q : Process Chain) {r : Answer (Unit {0})} {v : ℕ}
        → Waits σ.value r v
        → (waited q.env q.pid texts q.again r q.state).0 ≡ ok tt
        → SemStep σ
            (record σ { value = v; inside = suc σ.inside; expired = timeouts r + σ.expired })
    put :
        (q : Process Chain) {r : Answer (Unit {0})} {v n : ℕ}
        → σ.inside ≡ suc n
        → Posts σ.value r v
        → (posted q.env q.pid texts q.again r q.state).0 ≡ ok tt
        → SemStep σ (record σ { value = v; inside = n })
    panics : {n : ℕ} → σ.inside ≡ suc n → SemStep σ (record σ { inside = n; dead = suc σ.dead })

  -- `sem_open` makes the semaphore with the value 1.
  pub data SemReach : Shared → Type 0 where
    start : SemReach (record { value = 1; inside = 0; dead = 0; expired = 0 })
    later : {σ τ : Shared} → SemReach σ → SemStep σ τ → SemReach τ

  module _ (q : Process Chain) where
    bind-pdie :
        (r : Outcome (Unit {0}) × Machine) (s : Machine)
        → (((λ _. r) >>= (λ _. pdie {A = Unit {0}})) s).0 ≡ ok tt
        → ⊥
    unfolding ◌>>=◌
    bind-pdie (ok _, s') s h = cc h
    bind-pdie (err e, s') s h = cc h
    bind-pdie (panic, s') s h = cc h
    bind-pdie (pending, s') s h = cc h

    die-ne-ok : (x : Chain) → (die q.env q.pid texts q.again x q.state).0 ≡ ok tt → ⊥
    unfolding ◌>>=◌
    die-ne-ok x h = bind-pdie (q.again x q.state) q.state h

    waited-die :
        (e : ℕ)
        → (e == etimedout) ≡ false
        → waited q.env q.pid texts q.again (failed e) q.state
          ≡ die q.env q.pid texts q.again (errgen_sys texts unknown e (at_line 113)) q.state
    waited-die e f = rw f refl

    Waits-value :
        {v v' : ℕ} (r : Answer (Unit {0}))
        → Waits v r v'
        → (waited q.env q.pid texts q.again r q.state).0 ≡ ok tt
        → v' + 1 ≡ timeouts r + v
    Waits-value r (taken {v}) h = omega arith
    Waits-value r (wait_failed {v} {e}) h = elim (Bool-cases (e == etimedout)) [
      | inl t ↦ rw t (omega arith)
      | inr f ↦
          absurd
            (die-ne-ok (errgen_sys texts unknown e (at_line 113)) (rw (sym (waited-die e f)) h))
    ]

    Posts-value :
        {v v' : ℕ} (r : Answer (Unit {0}))
        → Posts v r v'
        → (posted q.env q.pid texts q.again r q.state).0 ≡ ok tt
        → v' ≡ v + 1
    Posts-value r (given {v}) h = omega arith
    Posts-value r (post_failed {v} {e}) h = absurd (die-ne-ok _ h)

  abbrev Balanced : Shared → Type 0
  Balanced σ = σ.value + σ.inside + σ.dead ≡ 1 + σ.expired

  SemStep-Balanced : {σ τ : Shared} → SemStep σ τ → Balanced σ → Balanced τ
  SemStep-Balanced (get q w e) h = omega (arith, h, Waits-value q _ w e)
  SemStep-Balanced (put q i w e) h = omega (arith, h, i, Posts-value q _ w e)
  SemStep-Balanced (panics i) h = omega (arith, h, i)

  -- In every order of the processes' steps, the value of the semaphore, the processes between
  -- `sem_get` and `sem_put` and those that have panicked there are together one more than the waits
  -- that have timed out.
  pub SemReach-balanced : {σ : Shared} → SemReach σ → σ.value + σ.inside + σ.dead ≡ 1 + σ.expired
  SemReach-balanced start = omega arith
  SemReach-balanced (later r st) = SemStep-Balanced st (SemReach-balanced r)
