-- ===== src/Server/System/Reused.antt =====
-- A worker that enters its configuration under a pid that has come to another guard meanwhile
-- (rocker_server/src/main.rs, `worker` and `resource_worker`).
use rocker.Prelude.{◌≡◌, ◌≢◌, refl, false, Option, none, some, List, [], ◌∷◌, ℤ}
use rocker.Outcome.{ok}
use rocker.Config.{RockerCfg, eqb_ℤ_self, lookup}
use rocker.Call.{Env}
use rocker.Machine.{Machine, locked, poison_lock, pure, throw}
use rocker.Core.Resource.{refuse_old, registe_resource}
use rocker.Server.History.{registered, reaped, run_op}
use rocker.Server.Reaper.Table.{registe_resource-lookup}
use rocker.Server.System.{
  Guard, absent, unentered, entered, mark, System, update, starts, registers, reaps, Reach, next,
}
use rocker.Server.System.Entries.{entry_after}
use rocker.Server.System.Stale.{reap_nothing}

-- An entry leaves a lock that is not poisoned as it is.
refuse_old_free :
    (o : Option RockerCfg) (m : Machine)
    → m.lock_poisoned ≡ false
    → (poison_lock (refuse_old o m).0 (refuse_old o m).1).lock_poisoned ≡ false
unfolding pure throw
refuse_old_free none m h = h
refuse_old_free (some old) m h = h

free_after :
    (env : Env) (cfg : RockerCfg) (pid : ℤ) (m : Machine)
    → m.lock_poisoned ≡ false
    → (run_op env (registered cfg pid) m).lock_poisoned ≡ false
unfolding run_op registe_resource locked
free_after env cfg pid m free = rw (free, locked) (refuse_old_free (lookup pid m.resource) _ refl)

module _ (env : Env) (pid : ℤ) (a b : RockerCfg) where
  -- After four steps: a guard is started with `a`, its end is told, one with the same pid is started
  -- with `b`, and the worker of the first one enters `a`.
  abbrev pub mixed : System → System
  mixed s =
      let again : ℤ → Guard =
        update pid unentered (update pid absent (update pid unentered s.guards)) in
      let first : ℤ → List RockerCfg = update pid (a ∷ s.starting pid) s.starting in
      record {
        machine = run_op env (registered a pid) (run_op env (reaped pid) s.machine);
        guards = update pid (mark (again pid)) again;
        starting = update pid (b ∷ []) (update pid (b ∷ first pid) first);
      }

  mixed-Reach :
      (s : System) → Reach env s → s.guards pid ≡ absent → s.starting pid ≡ [] → Reach env (mixed s)
  unfolding update
  mixed-Reach s reach gone nobody_starts =
      next
        (next (next (next reach (starts pid a gone)) (reaps pid (rw (eqb_ℤ_self pid) (λ e. cc e))))
          (starts pid b (rw (eqb_ℤ_self pid) refl)))
        (registers pid (b ∷ []) a [] (rw (eqb_ℤ_self pid, nobody_starts) refl))

  -- The guard that has the pid counts as entered, with the configuration `a` in the table; the worker
  -- that has started it with `b` is still to come, and is refused.
  abbrev pub IsMixed : System → Type 0
  IsMixed s =
      ((s.guards pid ≡ entered) × (s.starting pid ≡ b ∷ []))
      × ((lookup pid s.machine.resource ≡ some a) × ((registe_resource b pid s.machine).0 ≢ ok tt))

  mixed_entry :
      (s : System)
      → s.machine.lock_poisoned ≡ false
      → lookup pid s.machine.resource ≡ none
      → lookup pid (mixed s).machine.resource ≡ some a
  mixed_entry s free none_listed =
      rw
        (
          entry_after env (registered a pid) (run_op env (reaped pid) s.machine) pid
              (reap_nothing env pid s.machine free none_listed),
          eqb_ℤ_self pid,
        )
        refl

  mixed_free :
      (s : System)
      → s.machine.lock_poisoned ≡ false
      → lookup pid s.machine.resource ≡ none
      → (mixed s).machine.lock_poisoned ≡ false
  mixed_free s free none_listed =
      free_after env a pid (run_op env (reaped pid) s.machine)
        (reap_nothing env pid s.machine free none_listed)

  -- In a state that the threads reach, the lock is not poisoned and no guard, worker or entry has the
  -- pid. Then a guard is started with it for a configuration `a`, its end is told, a second guard gets
  -- the same pid for a configuration `b`, and only then the first guard's worker enters `a`. These are
  -- steps of the threads. After them the second guard counts as entered, with `a` in the table under
  -- its pid, and `registe_resource` would not accept `b`, which its own worker has still to enter.
  pub mixed-IsMixed :
      (s : System)
      → Reach env s
      → s.machine.lock_poisoned ≡ false
      → s.guards pid ≡ absent
      → s.starting pid ≡ []
      → lookup pid s.machine.resource ≡ none
      → Reach env (mixed s) × IsMixed (mixed s)
  unfolding update
  mixed-IsMixed s reach free gone nobody_starts none_listed =
      let entry : lookup pid (mixed s).machine.resource ≡ some a = mixed_entry s free none_listed in
      (
        mixed-Reach s reach gone nobody_starts,
        (
          (rw (eqb_ℤ_self pid) refl, rw (eqb_ℤ_self pid) refl),
          (
            entry,
            λ fine.
                let empty : lookup pid (mixed s).machine.resource ≡ none =
                  (registe_resource-lookup b pid (mixed s).machine
                      (mixed_free s free none_listed)).0.0
                    fine in
                cc (entry, empty),
          ),
        ),
      )
