-- ===== src/Core/Log/Semaphore.antt =====
-- What `p` does to the semaphore that all processes share (core/src/utils/mod.rs).
use rocker.Call.{
  strftime_now, Env, Event, Answer, done, failed, sem_timedwait, sem_post, clock_gettime, read_link,
  eprint,
}
use rocker.Core.Log.{
  waited, posted, clock_or_zero, deref_sem, etimedout, p, print, sem_log, sem_get, sem_put,
  get_clocktime, get_pidns,
}
use rocker.Prelude.{ℕ, suc, ◌+◌, ◌≡◌, ◌⊎◌, inl, inr, List, [], ◌∷◌, ◌++◌, length, arith}
use rocker.Core.Errors.{ErrorTexts}
use rocker.Bytes.{Bytes, bytes}
use rocker.Bytes.Decimal.{decimal}
use rocker.Machine.{
  Machine, M, Lazy, unused, held, poisoned, ◌>>=◌, pdie, sys_call, check, on_error,
}
use rocker.Machine.Keeps.{
  Triple, Triple-bind, Triple-weaken, Triple-pure, Triple-given, Triple-call, Triple-on_error,
  Triple-pdie, Safe, Keeps-check,
}
use rocker.Machine.Observe.{View, observe}

-- A wait that has ended, with the semaphore or by the clock.
abbrev pub waited_by : View (Unit {0})
waited_by (sem_timedwait sem ts) _ = tt ∷ []
waited_by _ _ = []

abbrev pub posted_by : View (Unit {0})
posted_by (sem_post sem) _ = tt ∷ []
posted_by _ _ = []

-- `k` more waits than posts, and the semaphore is open.
abbrev pub Ahead : ℕ → ℕ → Machine → Type 0
Ahead sem k s =
    (length (observe waited_by s.trace) ≡ length (observe posted_by s.trace) + k)
    × (s.sem_log ≡ held sem)

-- The clock answers, a wait ends with the semaphore or by the clock, and a post succeeds.
pub record IsWorking (env : Env) : Type 0 where
  pub clock : (t : List Event) → (ts : ℕ × ℕ) × (env t clock_gettime ≡ done ts)
  pub wait :
      (t : List Event) (sem : ℕ) (ts : ℕ × ℕ)
      → (env t (sem_timedwait sem ts) ≡ done tt) ⊎ (env t (sem_timedwait sem ts) ≡ failed etimedout)
  pub post : (t : List Event) (sem : ℕ) → env t (sem_post sem) ≡ done tt

module _ (env : Env) (works : IsWorking env) (self_pid : ℕ) {Chain : Type 0}
    (texts : ErrorTexts Chain) (sem : ℕ) where
  log_held :
      (k : ℕ) (o : Lazy)
      → o ≡ held sem
      → Triple
          (Ahead sem k)
          (deref_sem env self_pid texts o)
          (λ x s. (x ≡ sem) × Ahead sem k s)
          (λ _ _. ⊥)
          (λ _. ⊥)
  log_held k (held fd) e = Triple-pure fd (λ s h. (cc e, h))
  log_held k unused e = cc e
  log_held k poisoned e = cc e

  log_open :
      (k : ℕ)
      → Triple
          (Ahead sem k)
          (sem_log env self_pid texts)
          (λ x s. (x ≡ sem) × Ahead sem k s)
          (λ _ _. ⊥)
          (λ _. ⊥)
  unfolding sem_log
  log_open k = record { at = λ s h. (log_held k s.sem_log h.1).at s h }

  module _ (again : Chain → M (Unit {0})) where
    clock_known :
        (k : ℕ) (r : Answer (ℕ × ℕ)) (ts : ℕ × ℕ)
        → r ≡ done ts
        → Triple
            (Ahead sem k)
            (clock_or_zero env self_pid texts again r)
            (λ _. Ahead sem k)
            (λ _ _. ⊥)
            (λ _. ⊥)
    clock_known k (done t) ts e = Triple-pure t (λ s h. h)
    clock_known k (failed x) ts e = cc e

    clock_read :
        (k : ℕ)
        → Triple
            (Ahead sem k)
            (get_clocktime env self_pid texts again)
            (λ _. Ahead sem k)
            (λ _ _. ⊥)
            (λ _. ⊥)
    unfolding get_clocktime observe
    clock_read k =
        Triple-bind (λ r s. ((ts : ℕ × ℕ) × (r ≡ done ts)) × Ahead sem k s) _ _
          (Triple-call env clock_gettime (λ s h. (works.clock s.trace, h)))
          (λ r. Triple-given _ (λ (ts, e). clock_known k r ts e))

    wait_known :
        (k : ℕ) (r : Answer (Unit {0}))
        → (r ≡ done tt) ⊎ (r ≡ failed etimedout)
        → Triple
            (Ahead sem k)
            (waited env self_pid texts again r)
            (λ _. Ahead sem k)
            (λ _ _. ⊥)
            (λ _. ⊥)
    wait_known k (done _) e = Triple-pure tt (λ s h. h)
    wait_known k (failed x) (inl e) = cc e
    wait_known k (failed x) (inr e) =
        let n : x ≡ etimedout = cc e in rw n (Triple-pure tt (λ s h. h))

    sem_get-Triple :
        (k : ℕ)
        → Triple
            (Ahead sem k)
            (sem_get env self_pid texts again sem)
            (λ _. Ahead sem (suc k))
            (λ _ _. ⊥)
            (λ _. ⊥)
    unfolding sem_get observe
    sem_get-Triple k = Triple-bind _ _ _ (clock_read k) (λ (sec, nsec).
        Triple-bind (λ r s. ((r ≡ done tt) ⊎ (r ≡ failed etimedout)) × Ahead sem (suc k) s) _ _
          (Triple-call env (sem_timedwait sem (sec + 2, nsec))
            (λ s h. (works.wait s.trace sem _, (omega (arith, h.0), h.1))))
          (λ r. Triple-given _ (λ e. wait_known (suc k) r e)))

    post_known :
        (k : ℕ) (r : Answer (Unit {0}))
        → r ≡ done tt
        → Triple
            (Ahead sem k)
            (posted env self_pid texts again r)
            (λ _. Ahead sem k)
            (λ _ _. ⊥)
            (λ _. ⊥)
    post_known k (done _) e = Triple-pure tt (λ s h. h)
    post_known k (failed x) e = cc e

    sem_put-Triple :
        (k : ℕ)
        → Triple
            (Ahead sem (suc k))
            (sem_put env self_pid texts again sem)
            (λ _. Ahead sem k)
            (λ _ _. ⊥)
            (λ _. ⊥)
    unfolding sem_put observe
    sem_put-Triple k =
        Triple-bind (λ r s. (r ≡ done tt) × Ahead sem k s) _ _
          (Triple-call env (sem_post sem)
            (λ s h. (works.post s.trace sem, (omega (arith, h.0), h.1))))
          (λ r. Triple-given _ (λ e. post_known k r e))

    unwrapped :
        {A : Type 0} (k : ℕ) (m : M A)
        → Safe (Ahead sem k) m
        → Triple (Ahead sem k) (on_error m (λ _. pdie)) (λ _. Ahead sem k) (λ _ _. ⊥) (Ahead sem k)
    unwrapped k m h =
        Triple-on_error (λ _. Ahead sem k) m _
          (Triple-weaken _ _ _ _ m h (λ s p. p) (λ a s p. p) (λ e s p. p) (λ s p. absurd p))
          (λ e. Triple-pdie (λ s p. p))

    namespace_read : (k : ℕ) → Safe (Ahead sem k) (get_pidns env self_pid texts self_pid)
    unfolding get_pidns observe
    namespace_read k =
        Triple-bind (λ _. Ahead sem k) _ _
          (Triple-call env (read_link (bytes "/proc/" ++ (decimal self_pid ++ bytes "/ns/pid")))
            (λ s h. h))
          (λ r. Keeps-check r)

    time_read :
        (k : ℕ)
        → Safe (Ahead sem k) (do r ← sys_call env (strftime_now (bytes "%m-%d %H:%M:%S")); check r)
    unfolding observe
    time_read k =
        Triple-bind (λ _. Ahead sem k) _ _ (Triple-call env (strftime_now _) (λ s h. h))
          (λ r. Keeps-check r)

    line_written :
        (k : ℕ) (line : Bytes) → Safe (Ahead sem k) (do r ← sys_call env (eprint line); check r)
    unfolding observe
    line_written k line =
        Triple-bind (λ _. Ahead sem k) _ _ (Triple-call env (eprint line) (λ s h. h))
          (λ r. Keeps-check r)

    calmly :
        {A : Type 0} {P : Machine → Type 0} {Q : A → Machine → Type 0} {R : Machine → Type 0}
        {m : M A}
        → Triple P m Q (λ _ _. ⊥) (λ _. ⊥)
        → Triple P m Q (λ _ _. ⊥) R
    calmly h = Triple-weaken _ _ _ _ _ h (λ s h. h) (λ a s h. h) (λ e s h. h) (λ s h. absurd h)

    print-Triple :
        (k : ℕ) (e : Chain)
        → Triple
            (Ahead sem k)
            (print env self_pid texts again e)
            (λ _. Ahead sem k)
            (λ _ _. ⊥)
            (Ahead sem (suc k))
    unfolding print
    print-Triple k e = Triple-bind _ _ _ (calmly (log_open k)) (λ x. Triple-given _ (λ n. rw n (
        Triple-bind _ _ _ (calmly (sem_get-Triple k)) (λ _.
          Triple-bind _ _ _ (unwrapped (suc k) _ (namespace_read (suc k))) (λ ns.
            Triple-bind _ _ _ (unwrapped (suc k) _ (time_read (suc k))) (λ time.
              Triple-bind _ _ _ (unwrapped (suc k) _ (line_written (suc k) _)) (λ _.
                Triple-bind _ _ _ (calmly (log_open (suc k)))
                  (λ y. Triple-given _ (λ n'. rw n' (calmly (sem_put-Triple k)))))))))))

  -- With the semaphore open, a clock that answers, waits that end with the semaphore or by the clock
  -- and posts that succeed, `p` needs no inner `p` and ends. If it returns, it has posted once for
  -- each wait, also for one that only timed out. If it panics, it has waited once more than it has
  -- posted.
  pub p-Triple :
      (depth k : ℕ) (e : Chain)
      → Triple
          (Ahead sem k)
          (p env self_pid texts (suc depth) e)
          (λ _. Ahead sem k)
          (λ _ _. ⊥)
          (Ahead sem (suc k))
  unfolding p
  p-Triple depth k e = print-Triple (p env self_pid texts depth) k e
