-- ===== src/Core/Mounts.antt =====
-- The mounts that the guard makes (core/src/master.rs).
use rocker.Prelude.{none, some, List, [], ◌∷◌, ◌++◌, ℤ}
use rocker.Bytes.{Bytes, bytes}
use rocker.Config.{RockerCfg}
use rocker.Call.{Env, ms_rdonly, ms_rec, ms_private, read_only, create_dir_all, open_file}
use rocker.Machine.{M, ◌>>=◌, ◌>>◌, pure, sys_call, check}
use rocker.Core.Utils.{mountx}
use rocker.Core.Loop.{get_loop_dev, bind_pkg}

-- `format!("lowerdir={},upperdir={},workdir={}", ...)`
unfoldable pub overlay_data : Bytes → Bytes → Bytes → Bytes
overlay_data path upperdir workdir =
    bytes "lowerdir="
    ++ (path ++ (bytes ",upperdir=" ++ (upperdir ++ (bytes ",workdir=" ++ workdir))))

unfoldable pub upperdir_root : RockerCfg → Bytes
upperdir_root cfg = cfg.app_data_dir ++ bytes "/.upperdir____"

unfoldable pub workdir_root : RockerCfg → Bytes
workdir_root cfg = cfg.app_data_dir ++ bytes "/.workdir____"

module _ (env : Env) where
  unfoldable pub mount_make_rprivate : Bytes → M (Unit {0})
  unfolding mountx
  mount_make_rprivate path = mountx env none path none (ms_rec ∷ ms_private ∷ []) none

  -- The descriptors are left to the life of the guard process.
  unfoldable pub guard_mnt_loop : RockerCfg → M ℤ
  unfolding mountx get_loop_dev bind_pkg
  guard_mnt_loop cfg = do
    (loop_dev, loop_id) ← get_loop_dev env
    r ← sys_call env (open_file read_only loop_dev)
    loop_fd ← check r
    q ← sys_call env (open_file read_only cfg.app_pkg_path)
    pkg_fd ← check q
    bind_pkg env loop_fd pkg_fd
    mountx env (some loop_dev) cfg.app_exec_dir (some (bytes "squashfs")) (ms_rdonly ∷ []) none
    pure loop_id

  -- One round of the loop over `app_overlay_dirs`.
  unfoldable pub mnt_overlay : Bytes → Bytes → Bytes → M (Unit {0})
  unfolding mountx
  mnt_overlay upper work path = do
    r ← sys_call env (create_dir_all (upper ++ path))
    check r
    q ← sys_call env (create_dir_all (work ++ path))
    check q
    mountx env none path (some (bytes "overlay")) []
        (some (overlay_data path (upper ++ path) (work ++ path)))

  unfoldable pub mnt_overlays : Bytes → Bytes → List Bytes → M (Unit {0})
  mnt_overlays upper work [] = pure tt
  mnt_overlays upper work (path ∷ paths) = do
    mnt_overlay upper work path
    mnt_overlays upper work paths

  unfoldable pub guard_mnt_overlay : RockerCfg → M (Unit {0})
  unfolding mnt_overlays
  guard_mnt_overlay cfg = mnt_overlays (upperdir_root cfg) (workdir_root cfg) cfg.app_overlay_dirs
