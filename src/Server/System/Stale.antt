-- ===== src/Server/System/Stale.antt =====
-- What is left of a guard whose end is told before its worker has entered it (rocker_server/src/main.rs,
-- `worker` and `resource_worker`).
use rocker.Prelude.{◌≡◌, ◌∙◌, sym, refl, ap, false, Bool-cases, inl, inr, none, some, [], ◌∷◌, ℤ}
use rocker.Config.{RockerCfg, eqb_ℤ, eqb_ℤ_self, lookup}
use rocker.Call.{Env}
use rocker.Machine.{Machine, locked, pure}
use rocker.Server.Reaper.{reap}
use rocker.Server.History.{Op, registered, reaped, run_op, apply, stopped}
use rocker.Server.System.{
  Guard, absent, unentered, mark, System, update, Step, starts, registers, gives_up, reaps, Reach,
  next,
}
use rocker.Server.System.Entries.{same, nobody, entry_after}

-- No guard has the pid, no worker has it still to enter, and the table has an entry of it.
abbrev pub IsStale : ℤ → RockerCfg → System → Type 0
IsStale pid cfg s =
    (s.guards pid ≡ absent) × ((s.starting pid ≡ []) × (lookup pid s.machine.resource ≡ some cfg))

-- The steps from `s`, in which no guard with the pid is started.
pub data Without (env : Env) (pid : ℤ) (s : System) : System → Type 0 where
  here : Without env pid s s
  later :
      {t u : System}
      → Without env pid s t
      → Step env t u
      → u.guards pid ≡ absent
      → Without env pid s u

-- The operation's own pid.
abbrev pid_of : Op → ℤ
pid_of (registered cfg pid) = pid
pid_of (reaped pid) = pid

module _ (env : Env) where
  apply-other :
      (op : Op) (m : Machine) (q : ℤ)
      → eqb_ℤ (pid_of op) q ≡ false
      → apply op (λ q. lookup q m.resource) q ≡ lookup q m.resource
  apply-other (registered cfg pid) m q e = rw e refl
  apply-other (reaped pid) m q e = rw e refl

  -- An operation on another pid.
  run_op-other :
      (op : Op) (m : Machine) (q : ℤ)
      → eqb_ℤ (pid_of op) q ≡ false
      → lookup q (run_op env op m).resource ≡ lookup q m.resource
  run_op-other op m q e = elim (Bool-cases m.lock_poisoned) [
    | inl p ↦ rw (stopped env op m p) refl
    | inr f ↦ entry_after env op m q f ∙ apply-other op m q e
  ]

  Step-IsStale :
      {s t : System} (pid : ℤ) (cfg : RockerCfg)
      → Step env s t
      → t.guards pid ≡ absent
      → IsStale pid cfg s
      → IsStale pid cfg t
  unfolding update
  Step-IsStale pid cfg (starts p c {s} gone) = elim (Bool-cases (eqb_ℤ p pid)) [
    | inl e ↦ rw e (λ g. cc g)
    | inr e ↦ rw e (λ g st. st)
  ]
  Step-IsStale pid cfg (registers p before c rest {s} own) = elim (Bool-cases (eqb_ℤ p pid)) [
    | inl e ↦ λ g st.
        absurd (nobody before c rest (sym st.1.0 ∙ (ap s.starting (sym (same p pid e)) ∙ own)))
    | inr e ↦ rw (e, run_op-other (registered c p) s.machine pid e) (λ g st. st)
  ]
  Step-IsStale pid cfg (gives_up p before c rest {s} own) = elim (Bool-cases (eqb_ℤ p pid)) [
    | inl e ↦ λ g st.
        absurd (nobody before c rest (sym st.1.0 ∙ (ap s.starting (sym (same p pid e)) ∙ own)))
    | inr e ↦ rw e (λ g st. st)
  ]
  Step-IsStale pid cfg (reaps p {s} there) = elim (Bool-cases (eqb_ℤ p pid)) [
    | inl e ↦ λ g st. absurd (there (ap s.guards (same p pid e) ∙ st.0))
    | inr e ↦ rw (e, run_op-other (reaped p) s.machine pid e) (λ g st. st)
  ]

  Without-IsStale :
      (pid : ℤ) (cfg : RockerCfg) {s t : System}
      → Without env pid s t
      → IsStale pid cfg s
      → IsStale pid cfg t
  Without-IsStale pid cfg here st = st
  Without-IsStale pid cfg (later before step gone) st =
      Step-IsStale pid cfg step gone (Without-IsStale pid cfg before st)

  -- The end of a guard that is not in the table.
  pub reap_nothing :
      (pid : ℤ) (m : Machine)
      → m.lock_poisoned ≡ false
      → lookup pid m.resource ≡ none
      → (run_op env (reaped pid) m).lock_poisoned ≡ false
  unfolding run_op reap locked pure
  reap_nothing pid m free none_listed = rw (free, none_listed, locked) refl

  -- After three steps: a guard is started, its end is told, its worker enters it.
  abbrev pub race : ℤ → RockerCfg → System → System
  race pid cfg s =
      let ended : ℤ → Guard = update pid absent (update pid unentered s.guards) in
      record {
        machine = run_op env (registered cfg pid) (run_op env (reaped pid) s.machine);
        guards = update pid (mark (ended pid)) ended;
        starting = update pid [] (update pid (cfg ∷ s.starting pid) s.starting);
      }

  race-IsStale :
      (s : System) (pid : ℤ) (cfg : RockerCfg)
      → s.machine.lock_poisoned ≡ false
      → lookup pid s.machine.resource ≡ none
      → IsStale pid cfg (race pid cfg s)
  unfolding update
  race-IsStale s pid cfg free none_listed =
      rw
        (
          entry_after env (registered cfg pid) (run_op env (reaped pid) s.machine) pid
              (reap_nothing pid s.machine free none_listed),
          eqb_ℤ_self pid,
        )
        (refl, (refl, refl))

  race-Reach :
      (s : System) (pid : ℤ) (cfg : RockerCfg)
      → Reach env s
      → s.guards pid ≡ absent
      → s.starting pid ≡ []
      → Reach env (race pid cfg s)
  unfolding update
  race-Reach s pid cfg reach gone nobody_starts =
      next (next (next reach (starts pid cfg gone)) (reaps pid (rw (eqb_ℤ_self pid) (λ e. cc e))))
        (registers pid [] cfg [] (rw (eqb_ℤ_self pid, nobody_starts) refl))

  Without-Reach : (pid : ℤ) {s t : System} → Without env pid s t → Reach env s → Reach env t
  Without-Reach pid here reach = reach
  Without-Reach pid (later before step gone) reach = next (Without-Reach pid before reach) step

  -- In a state that the threads reach, the lock is not poisoned and no guard, worker or entry has the
  -- pid. Then a guard is started with it, its end is told, and only then its worker enters it. These
  -- three are steps of the threads, and in every order of further steps in which no guard with the pid
  -- is started, the table has the entry for good, for a guard that is gone.
  pub race-stays :
      (s : System) (pid : ℤ) (cfg : RockerCfg) (u : System)
      → Reach env s
      → s.machine.lock_poisoned ≡ false
      → s.guards pid ≡ absent
      → s.starting pid ≡ []
      → lookup pid s.machine.resource ≡ none
      → Without env pid (race pid cfg s) u
      → Reach env u × IsStale pid cfg u
  race-stays s pid cfg u reach free gone nobody_starts none_listed steps = (
    Without-Reach pid steps (race-Reach s pid cfg reach gone nobody_starts),
    Without-IsStale pid cfg steps (race-IsStale s pid cfg free none_listed),
  )
