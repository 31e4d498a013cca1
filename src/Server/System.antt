-- ===== src/Server/System.antt =====
-- The server's threads together (rocker_server/src/main.rs): the workers between the start of their
-- guard and its entry in the table, and the thread that waits for guards, in any order of their steps.
pub mod Entries
pub mod Stale
pub mod Reused
use rocker.Prelude.{◌≡◌, ◌≢◌, Bool, if◌then◌else◌, List, [], ◌∷◌, ◌++◌, ℤ}
use rocker.Config.{RockerCfg, eqb_ℤ}
use rocker.Call.{Env}
use rocker.Machine.{Machine}
use rocker.Server.History.{registered, reaped, run_op}

-- A process of this number: none that the server has to wait for, a guard whose number no worker has
-- entered since its start, or one whose number was entered.
pub data Guard : Type 0 where
  absent : Guard
  unentered : Guard
  entered : Guard

abbrev pub mark : Guard → Guard
mark absent = absent
mark unentered = entered
mark entered = entered

-- The statics, the guards by their pid, and for each pid the configurations with which a worker has
-- come out of `init` and not yet to `registe_resource`.
pub record System : Type 0 where
  pub machine : Machine
  pub guards : ℤ → Guard
  pub starting : ℤ → List RockerCfg

unfoldable pub update {ℓ} : {A : Type ℓ} → ℤ → A → (ℤ → A) → ℤ → A
update pid a f q = if eqb_ℤ pid q then a else f q

-- A worker starts a guard, whose pid is not that of a child which was not waited for; a worker enters
-- its configuration; a worker stops before that, on an error; the waiting thread is told of the end of
-- a guard.
pub data Step (env : Env) : System → System → Type 0 where
  starts :
      (pid : ℤ) (cfg : RockerCfg) {s : System}
      → s.guards pid ≡ absent
      → Step env s (record s {
        guards = update pid unentered s.guards;
        starting = update pid (cfg ∷ s.starting pid) s.starting;
      })
  registers :
      (pid : ℤ) (before : List RockerCfg) (cfg : RockerCfg) (rest : List RockerCfg) {s : System}
      → s.starting pid ≡ before ++ cfg ∷ rest
      → Step env s (record {
        machine = run_op env (registered cfg pid) s.machine;
        guards = update pid (mark (s.guards pid)) s.guards;
        starting = update pid (before ++ rest) s.starting;
      })
  gives_up :
      (pid : ℤ) (before : List RockerCfg) (cfg : RockerCfg) (rest : List RockerCfg) {s : System}
      → s.starting pid ≡ before ++ cfg ∷ rest
      → Step env s (record s { starting = update pid (before ++ rest) s.starting })
  reaps :
      (pid : ℤ) {s : System}
      → s.guards pid ≢ absent
      → Step env s (record s {
        machine = run_op env (reaped pid) s.machine;
        guards = update pid absent s.guards;
      })

-- The server when it has started: no guard, no worker, no entry, and a lock that is not poisoned.
abbrev pub IsInitial : System → Type 0
IsInitial s =
    (s.machine.resource ≡ [])
    × ((s.machine.lock_poisoned ≡ Bool.false)
        × (((q : ℤ) → s.guards q ≡ absent) × ((q : ℤ) → s.starting q ≡ [])))

pub data Reach (env : Env) : System → Type 0 where
  initial : (s : System) → IsInitial s → Reach env s
  next : {s t : System} → Reach env s → Step env s t → Reach env t

-- As `Reach`, where no guard's end is told while a worker has its configuration still to enter.
pub data ReachInOrder (env : Env) : System → Type 0 where
  initial : (s : System) → IsInitial s → ReachInOrder env s
  next :
      {s t : System}
      → ReachInOrder env s
      → Step env s t
      → ((pid : ℤ) → s.starting pid ≢ [] → t.guards pid ≢ absent)
      → ReachInOrder env t
