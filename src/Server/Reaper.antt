-- ===== src/Server/Reaper.antt =====
-- `resource_worker` (rocker_server/src/main.rs): waits for guards to end and releases what they held.
pub mod Quiet
pub mod Table
pub mod Endings
use rocker.Prelude.{ℕ, zero, suc, Option, none, some, ℤ, ◌==◌, if◌then◌else◌}
use rocker.Outcome.{pending}
use rocker.Config.{RockerCfg, lookup, remove}
use rocker.Call.{Env, Answer, done, failed, wait}
use rocker.Machine.{M, ◌>>=◌, ◌>>◌, pure, lift, sys_call, locked}
use rocker.Core.Utils.{sleep_secs}
use rocker.Core.Resource.{release_resource}

abbrev pub echild : ℕ
echild = 10

module _ (env : Env) where
  abbrev release_old : Option RockerCfg → M (Unit {0})
  release_old none = pure tt
  release_old (some cfg) = release_resource env cfg

  -- The entry is taken out of the table and released, all under the table's lock: the guard that `lock`
  -- returns lives to the end of the `if let`.
  abbrev pub take_out : ℤ → M (Unit {0})
  take_out pid s =
      release_old (lookup pid s.resource) (record s { resource = remove pid s.resource })

  unfoldable pub reap : ℤ → M (Unit {0})
  unfolding remove
  reap pid = locked (take_out pid)

  -- With no child at all it sleeps; any other error is only printed.
  unfoldable pub handle_status : Answer (Option ℤ) → M (Unit {0})
  unfolding reap
  handle_status (done none) = pure tt
  handle_status (done (some pid)) = reap pid
  handle_status (failed e) = if e == echild then sleep_secs env 2 else pure tt

  unfoldable pub resource_worker : ℕ → M (Unit {0})
  unfolding handle_status
  resource_worker zero = lift pending
  resource_worker (suc rounds) = do r ← sys_call env wait; handle_status r; resource_worker rounds
