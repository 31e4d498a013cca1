-- ===== src/Core/Guard/Steps.antt =====
-- What a guard has done when its set-up succeeds, call by call (core/src/master.rs, `guard_ops`,
-- `guard_mnt_loop`, `guard_mnt_overlay`, `guard_set_self_name`).
use rocker.Prelude.{ℕ, ◌≡◌, refl, none, some, List, [], ◌∷◌, ◌++◌, ℤ, pos}
use rocker.Bytes.{Bytes, bytes}
use rocker.Bytes.LittleEndian.{of_bytes}
use rocker.Config.{RockerCfg}
use rocker.Call.{
  Env, Call, Answer, done, failed, mount, prctl_set_name, ioctl_none, ioctl_write_int, open_file,
  read_only, create_dir_all, ms_rdonly, ms_rec, ms_private, ms_nodev, ms_noexec, ms_nosuid,
  ms_relatime,
}
use rocker.Machine.{Lazy, held}
use rocker.Machine.Keeps.{Triple-bind, Triple-pure, Triple-weaken, Triple-given}
use rocker.Machine.Success.{Gives-kept, Gives, Gives-throw}
use rocker.Core.Loop.Opening.{Did, opening, did, loop_master-Triple}
use rocker.Core.Utils.{mountx, mount_dynfs_proc}
use rocker.Core.Loop.{loop_path, bind_pkg, get_loop_dev}
use rocker.Core.Loop.Metal.{loop_set_fd_request, loop_ctl_get_free_request, ctl_get_free}
use rocker.Core.Name.{sanitise, renamed, guard_set_self_name}
use rocker.Core.Mounts.{
  overlay_data, mount_make_rprivate, guard_mnt_loop, mnt_overlay, mnt_overlays,
}

-- The calls of the stages, newest first, put before those that were made already.
abbrev pub loop_mounted : RockerCfg → ℤ → ℕ → ℕ → ℕ → List Call → List Call
loop_mounted cfg id ctl_fd loop_fd pkg_fd l =
    mount (some (loop_path id)) cfg.app_exec_dir (some (bytes "squashfs")) (ms_rdonly ∷ []) none
    ∷ ioctl_write_int loop_fd loop_set_fd_request (pos pkg_fd)
    ∷ open_file read_only cfg.app_pkg_path
    ∷ open_file read_only (loop_path id)
    ∷ ioctl_none ctl_fd loop_ctl_get_free_request
    ∷ l

abbrev pub overlaid : Bytes → Bytes → List Bytes → List Call → List Call
overlaid upper work [] l = l
overlaid upper work (path ∷ paths) l = overlaid upper work paths (
    mount none path (some (bytes "overlay")) []
      (some (overlay_data path (upper ++ path) (work ++ path)))
    ∷ create_dir_all (work ++ path)
    ∷ create_dir_all (upper ++ path)
    ∷ l)

abbrev pub proc_mount : Call
proc_mount =
    mount (some (bytes "proc")) (bytes "/proc") (some (bytes "proc"))
      (ms_nodev ∷ ms_noexec ∷ ms_nosuid ∷ ms_relatime ∷ []) none

abbrev pub root_mount : Call
root_mount = mount none (bytes "/") none (ms_rec ∷ ms_private ∷ []) none

abbrev pub secluded : RockerCfg → List Call
secluded cfg = proc_mount ∷ prctl_set_name (sanitise cfg.guard_pname) ∷ root_mount ∷ []

module _ (env : Env) where
  pub proc_mounted :
      (o : Lazy) (l : List Call)
      → Gives (Did o l) (mount_dynfs_proc env) (λ _. Did o (proc_mount ∷ l))
  unfolding mount_dynfs_proc mountx
  proc_mounted o l = Triple-bind _ _ _ (did env o l proc_mount) (λ r. Gives-kept r)

  pub made_private :
      (o : Lazy) (l : List Call)
      → Gives (Did o l) (mount_make_rprivate env (bytes "/")) (λ _. Did o (root_mount ∷ l))
  unfolding mount_make_rprivate mountx
  made_private o l = Triple-bind _ _ _ (did env o l root_mount) (λ r. Gives-kept r)

  pub named :
      (o : Lazy) (l : List Call) (cfg : RockerCfg)
      → Gives (Did o l) (guard_set_self_name env cfg) (λ cfg' s.
        ((name : ℕ) × (cfg' ≡ record cfg { guard_pname = name }))
        × Did o (prctl_set_name (sanitise cfg.guard_pname) ∷ l) s)
  unfolding guard_set_self_name
  named o l cfg =
      Triple-bind _ _ _ (did env o l (prctl_set_name (sanitise cfg.guard_pname))) as_told
    where
      as_told :
          (r : Answer (Unit {0}))
          → Gives
              (Did o (prctl_set_name (sanitise cfg.guard_pname) ∷ l))
              (renamed env cfg r)
              (λ cfg' s.
                ((name : ℕ) × (cfg' ≡ record cfg { guard_pname = name }))
                × Did o (prctl_set_name (sanitise cfg.guard_pname) ∷ l) s)
      as_told (done _) = Triple-pure _ (λ s h. ((of_bytes (sanitise cfg.guard_pname), refl), h))
      as_told (failed e) = Gives-throw _

  one_overlaid :
      (o : Lazy) (l : List Call) (upper work path : Bytes)
      → Gives
          (Did o l)
          (mnt_overlay env upper work path)
          (λ _. Did o (overlaid upper work (path ∷ []) l))
  unfolding mnt_overlay mountx
  one_overlaid o l upper work path =
      Triple-bind _ _ _ (did env o l (create_dir_all (upper ++ path))) (λ r.
        Triple-bind _ _ _ (Gives-kept r) (λ _.
          Triple-bind _ _ _ (did env o _ (create_dir_all (work ++ path))) (λ q.
            Triple-bind _ _ _ (Gives-kept q) (λ _.
              Triple-bind _ _ _
                (did env o _ (
                  mount none path (some (bytes "overlay")) []
                    (some (overlay_data path (upper ++ path) (work ++ path)))))
                (λ m. Gives-kept m)))))

  pub all_overlaid :
      (o : Lazy) (l : List Call) (upper work : Bytes) (paths : List Bytes)
      → Gives
          (Did o l)
          (mnt_overlays env upper work paths)
          (λ _. Did o (overlaid upper work paths l))
  unfolding mnt_overlays
  all_overlaid o l upper work [] = Triple-pure tt (λ s h. h)
  all_overlaid o l upper work (path ∷ paths) =
      Triple-bind _ _ _ (one_overlaid o l upper work path)
        (λ _. all_overlaid o (overlaid upper work (path ∷ []) l) upper work paths)

  free_device :
      (o : Lazy) (l : List Call)
      → Gives (Did o l) (get_loop_dev env) (λ (dev, id) s.
        (ctl_fd : ℕ) × ((dev ≡ loop_path id)
          × Did (held ctl_fd) (ioctl_none ctl_fd loop_ctl_get_free_request ∷ opening o l) s))
  unfolding get_loop_dev ctl_get_free
  free_device o l =
      Triple-bind (λ ctl_fd. Did (held ctl_fd) (opening o l)) _ _
        (Triple-weaken _ _ _ _ _ (loop_master-Triple env o l) (λ s h. h) (λ fd s h. h) (λ e s h. tt)
          (λ s h. h))
        (λ ctl_fd.
          Triple-bind _ _ _
            (Triple-bind _ _ _ (did env _ _ (ioctl_none ctl_fd loop_ctl_get_free_request))
              (λ r. Gives-kept r))
            (λ id. Triple-pure _ (λ s h. (ctl_fd, (refl, h)))))

  pub package_mounted :
      (o : Lazy) (l : List Call) (cfg : RockerCfg)
      → Gives (Did o l) (guard_mnt_loop env cfg) (λ id s.
        (ctl_fd : ℕ) × ((loop_fd : ℕ) × ((pkg_fd : ℕ) × Did
              (held ctl_fd)
              (loop_mounted cfg id ctl_fd loop_fd pkg_fd (opening o l))
              s)))
  unfolding guard_mnt_loop bind_pkg mountx
  package_mounted o l cfg = Triple-bind _ _ _ (free_device o l) (λ (dev, id).
      Triple-given _ (λ ctl_fd. Triple-given _ (λ e. rw e (
        Triple-bind _ _ _ (did env _ _ (open_file read_only (loop_path id))) (λ r.
          Triple-bind _ _ _ (Gives-kept r) (λ loop_fd.
            Triple-bind _ _ _ (did env _ _ (open_file read_only cfg.app_pkg_path)) (λ q.
              Triple-bind _ _ _ (Gives-kept q) (λ pkg_fd.
                Triple-bind _ _ _ (bound _ _ loop_fd pkg_fd) (λ _.
                  Triple-bind _ _ _
                    (Triple-bind _ _ _
                      (did env _ _ (
                        mount (some (loop_path id)) cfg.app_exec_dir (some (bytes "squashfs"))
                          (ms_rdonly ∷ []) none))
                      (λ m. Gives-kept m))
                    (λ _. Triple-pure id (λ s h. (ctl_fd, (loop_fd, (pkg_fd, h))))))))))))))
    where
      bound :
          (p : Lazy) (k : List Call) (loop_fd pkg_fd : ℕ)
          → Gives
              (Did p k)
              (bind_pkg env loop_fd pkg_fd)
              (λ _. Did p (ioctl_write_int loop_fd loop_set_fd_request (pos pkg_fd) ∷ k))
      bound p k loop_fd pkg_fd =
          Triple-bind _ _ _ (did env p k (ioctl_write_int loop_fd loop_set_fd_request (pos pkg_fd)))
            (λ r. Triple-bind _ _ _ (Gives-kept r) (λ _. Triple-pure tt (λ s h. h)))
