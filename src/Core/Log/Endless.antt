-- ===== src/Core/Log/Endless.antt =====
-- A semaphore that cannot be waited for (core/src/utils/mod.rs): `p` without end.
use rocker.Prelude.{ℕ, zero, suc, ◌≡◌, refl, false, List, ◌==◌}
use rocker.Outcome.{pending}
use rocker.Core.Errors.{ErrorTexts}
use rocker.Call.{Env, Event, Answer, done, failed, sem_timedwait, clock_gettime}
use rocker.Machine.{Machine, M, Lazy, unused, held, poisoned, ◌>>=◌, pure, lift, sys_call}
use rocker.Core.Log.{etimedout, p, print, sem_log, sem_get, get_clocktime, waited, deref_sem}

-- Each wait fails, and not by the clock: it is interrupted, say.
pub record IsInterrupted (env : Env) (e : ℕ) : Type 0 where
  pub clock : (t : List Event) → (ts : ℕ × ℕ) × (env t clock_gettime ≡ done ts)
  pub wait : (t : List Event) (sem : ℕ) (ts : ℕ × ℕ) → env t (sem_timedwait sem ts) ≡ failed e
  pub untimed : (e == etimedout) ≡ false

-- Code that goes on for ever from every state with the semaphore open.
abbrev IsStuck : {A : Type 0} → ℕ → M A → Type 0
IsStuck sem m = (s : Machine) → s.sem_log ≡ held sem → (m s).0 ≡ pending

module _ (env : Env) (e : ℕ) (stops : IsInterrupted env e) (self_pid : ℕ) {Chain : Type 0}
    (texts : ErrorTexts Chain) (sem : ℕ) where
  IsStuck-then : {A B : Type 0} (m : M A) (f : A → M B) → IsStuck sem m → IsStuck sem (m >>= f)
  unfolding ◌>>=◌
  IsStuck-then m f stuck_m s held_log = rw (stuck_m s held_log) refl

  module _ (again : Chain → M (Unit {0})) (stuck : (x : Chain) → IsStuck sem (again x)) where
    IsStuck-wait :
        (r : Answer (Unit {0})) → r ≡ failed e → IsStuck sem (waited env self_pid texts again r)
    unfolding ◌>>=◌
    IsStuck-wait (done _) h s held_log = cc h
    IsStuck-wait (failed x) h s held_log =
        let n : x ≡ e = cc h in rw (n, stops.untimed, stuck _ s held_log) refl

    IsStuck-get : IsStuck sem (sem_get env self_pid texts again sem)
    unfolding sem_get get_clocktime ◌>>=◌ sys_call pure
    IsStuck-get s held_log =
        let (ts, known) = stops.clock s.trace in
        rw known (IsStuck-wait _ (stops.wait _ sem _) _ held_log)

    IsStuck-log :
        {A : Type 0} (o : Lazy) (f : ℕ → M A)
        → o ≡ held sem
        → IsStuck sem (f sem)
        → IsStuck sem (deref_sem env self_pid texts o >>= f)
    unfolding ◌>>=◌ pure
    IsStuck-log (held fd) f h stuck_f s held_log =
        let n : fd ≡ sem = cc h in rw n (stuck_f s held_log)
    IsStuck-log unused f h stuck_f s held_log = cc h
    IsStuck-log poisoned f h stuck_f s held_log = cc h

    IsStuck-print : (x : Chain) → IsStuck sem (print env self_pid texts again x)
    unfolding print sem_log ◌>>=◌
    IsStuck-print x s held_log =
        IsStuck-log s.sem_log _ held_log
          (IsStuck-then (sem_get env self_pid texts again sem) _ IsStuck-get) s held_log

  -- With the semaphore open, a clock that answers and waits that fail with another error than the one
  -- of the clock, EINTR for example, `p` does not end, however deep the calls of `p` in `p` may go:
  -- each of them waits again.
  pub p-pending :
      (depth : ℕ) (x : Chain) (s : Machine)
      → s.sem_log ≡ held sem
      → (p env self_pid texts depth x s).0 ≡ pending
  unfolding p lift
  p-pending zero x s held_log = refl
  p-pending (suc depth) x s held_log =
      IsStuck-print (p env self_pid texts depth) (p-pending depth) x s held_log
