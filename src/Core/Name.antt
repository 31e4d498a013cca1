-- ===== src/Core/Name.antt =====
-- `guard_set_self_name` (core/src/master.rs): the process name of the guard.
pub mod Laws
use rocker.Prelude.{ℕ, ◌≡◌, List, [], ◌∷◌, ◌++◌, map, take, ◌==◌, if◌then◌else◌}
use rocker.Outcome.{core, set_proc_name}
use rocker.Bytes.{Bytes}
use rocker.Bytes.LittleEndian.{to_bytes, of_bytes}
use rocker.Config.{RockerCfg}
use rocker.Call.{Env, Answer, done, failed, prctl_set_name}
use rocker.Machine.{M, ◌>>=◌, pure, throw, sys_call}

-- `alt!(0u8 == *b, *b = 1)`
abbrev pub no_zero : ℕ → ℕ
no_zero b = if b == 0 then 1 else b

-- The 16 bytes of a u128 with no NUL among the first 15, and a NUL as the last.
unfoldable pub sanitise : ℕ → Bytes
sanitise pname = take 15 (map no_zero (to_bytes 16 pname)) ++ 0 ∷ []

module _ (env : Env) where
  abbrev pub renamed : RockerCfg → Answer (Unit {0}) → M RockerCfg
  renamed cfg (done _) = pure (record cfg { guard_pname = of_bytes (sanitise cfg.guard_pname) })
  renamed cfg (failed _) = throw (core set_proc_name)

  -- Gives the configuration as the guard's own process holds it afterwards.
  unfoldable pub guard_set_self_name : RockerCfg → M RockerCfg
  guard_set_self_name cfg = do
    r ← sys_call env (prctl_set_name (sanitise cfg.guard_pname))
    renamed cfg r
