-- ===== src/Core/Setup.antt =====
-- `RockerCfg::new` and its checks (core/src/master.rs).
pub mod Quiet
pub mod Checked
pub mod Names
use rocker.Prelude.{ℕ, ◌+◌, ◌-◌, ◌%◌, ◌^◌, Bool, true, false, Option, none, some, List}
use rocker.Outcome.{core, uid_invalid, path_invalid}
use rocker.Bytes.{Bytes}
use rocker.Config.{RockerCfg}
use rocker.Call.{
  Env, Answer, done, failed, FileKind, file, dir, getpwuid, getgrgid, metadata, create_dir_all,
}
use rocker.Machine.{M, ◌>>=◌, ◌>>◌, pure, throw, sys_call, check}

-- What the caller passes to `RockerCfg::new`.
pub record Params : Type 0 where
  pub app_id : ℕ
  pub uid : ℕ
  pub gid : Option ℕ
  pub app_pkg_path : Bytes
  pub app_exec_dir : Bytes
  pub app_data_dir : Bytes
  pub app_overlay_dirs : List Bytes

-- `GUARD_PROCNAME.fetch_sub(1, Relaxed)` on a usize of `w` bits
unfoldable pub next_procname : ℕ → M ℕ
next_procname w s =
    let n = s.guard_procname in pure n (record s { guard_procname = (n + 2 ^ w - 1) % 2 ^ w })

module _ (env : Env) where
  abbrev pub found_or_throw : Bool → M (Unit {0})
  found_or_throw true = pure tt
  found_or_throw false = throw (core uid_invalid)

  unfoldable pub check_uid : RockerCfg → M (Unit {0})
  check_uid cfg = do found ← sys_call env (getpwuid cfg.uid); found_or_throw found

  abbrev pub check_gid_of : Option ℕ → M (Unit {0})
  check_gid_of none = pure tt
  check_gid_of (some gid) = do found ← sys_call env (getgrgid gid); found_or_throw found

  -- An unknown group is reported as `UidInvalid`, as in the source.
  unfoldable pub check_gid : RockerCfg → M (Unit {0})
  check_gid cfg = check_gid_of cfg.gid

  abbrev pub dir_or_create : Bytes → Answer FileKind → M (Unit {0})
  dir_or_create path (done dir) = pure tt
  dir_or_create path (done _) = throw (core path_invalid)
  dir_or_create path (failed _) = do r ← sys_call env (create_dir_all path); check r

  abbrev pub check_dir : Bytes → M (Unit {0})
  check_dir path = do r ← sys_call env (metadata path); dir_or_create path r

  abbrev pub file_or_throw : FileKind → M (Unit {0})
  file_or_throw file = pure tt
  file_or_throw _ = throw (core path_invalid)

  unfoldable pub check_path : RockerCfg → M (Unit {0})
  check_path cfg = do
    check_dir cfg.app_exec_dir
    check_dir cfg.app_data_dir
    r ← sys_call env (metadata cfg.app_pkg_path)
    kind ← check r
    file_or_throw kind

  -- The configuration before its checks.
  abbrev pub fresh : Params → ℕ → RockerCfg
  fresh p pname = record {
    app_id = p.app_id;
    uid = p.uid;
    gid = p.gid;
    app_pkg_path = p.app_pkg_path;
    app_exec_dir = p.app_exec_dir;
    app_data_dir = p.app_data_dir;
    app_overlay_dirs = p.app_overlay_dirs;
    guard_pid = none;
    guard_pname = pname;
    guard_stack = none;
    guard_loop_id = none;
  }

  -- The counter moves also where a check refuses the parameters.
  unfoldable pub new : ℕ → Params → M RockerCfg
  unfolding next_procname check_uid check_gid check_path
  new w p = do
    pname ← next_procname w
    check_uid (fresh p pname)
    check_gid (fresh p pname)
    check_path (fresh p pname)
    pure (fresh p pname)
