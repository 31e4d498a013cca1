-- ===== src/Core/Resource.antt =====
-- The table of running rockers and the release of a rocker's resources (core/src/master.rs).
pub mod Order
use rocker.Prelude.{Option, none, some, ℤ}
use rocker.Outcome.{core, unknown, option_none}
use rocker.Config.{RockerCfg, lookup, insert}
use rocker.Call.{Env, read_only, open_file, close}
use rocker.Machine.{M, ◌>>=◌, ◌>>◌, pure, throw, sys_call, check, info, locked}
use rocker.Core.Utils.{sleep_secs}
use rocker.Core.Loop.{loop_path, unbind, destroy}

abbrev pub refuse_old : Option RockerCfg → M (Unit {0})
refuse_old none = pure tt
refuse_old (some _) = throw (core unknown)

-- The new entry is in the table also when an old one makes the call fail.
abbrev pub enter : RockerCfg → ℤ → M (Unit {0})
enter cfg pid s =
    refuse_old (lookup pid s.resource) (record s { resource = insert pid cfg s.resource })

unfoldable pub registe_resource : RockerCfg → ℤ → M (Unit {0})
registe_resource cfg pid = locked (enter cfg pid)

module _ (env : Env) where
  abbrev pub some_or_throw : Option ℤ → M ℤ
  some_or_throw none = throw (core option_none)
  some_or_throw (some id) = pure id

  -- The descriptor stays open when `loop_unbind` fails.
  unfoldable pub loop_unbind : RockerCfg → M (Unit {0})
  unfolding unbind
  loop_unbind cfg = do
    id ← some_or_throw cfg.guard_loop_id
    r ← sys_call env (open_file read_only (loop_path id))
    loop_fd ← check r
    unbind env loop_fd
    info (do q ← sys_call env (close loop_fd); check q)

  -- Also sets `guard_stack` to none, in a configuration that `release_resource` then drops.
  unfoldable pub resource_clean : RockerCfg → M (Unit {0})
  unfolding loop_unbind
  resource_clean cfg = loop_unbind (record cfg { guard_stack = none })

  unfoldable pub loop_destroy : RockerCfg → M (Unit {0})
  unfolding destroy
  loop_destroy cfg = do id ← some_or_throw cfg.guard_loop_id; destroy env id

  unfoldable pub release_resource : RockerCfg → M (Unit {0})
  unfolding resource_clean loop_destroy
  release_resource cfg = do info (resource_clean cfg); sleep_secs env 2; info (loop_destroy cfg)
