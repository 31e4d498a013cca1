-- ===== src/Core/Guard/Order.antt =====
-- The set-up of a guard as a whole (core/src/master.rs, `guard_ops`), when it succeeds.
use rocker.Machine.Keeps.{
  Triple-weaken, Triple-bind, Triple-pure, Triple-pdie, Triple-call, Triple-given,
}
use rocker.Prelude.{ℕ, ◌≡◌, List, [], ◌∷◌, ℤ}
use rocker.Bytes.LittleEndian.{i32_to_bytes}
use rocker.Config.{RockerCfg}
use rocker.Call.{Env, Call, send, unshare, clone_newuser}
use rocker.Machine.{Machine, M, Lazy, held}
use rocker.Machine.Success.{Gives-kept, Gives, Gives-or}
use rocker.Machine.Observe.{Seen}
use rocker.Core.Mounts.{upperdir_root, workdir_root, guard_mnt_overlay}
use rocker.Core.Guard.{inform_master, err_checker, unshare_user, guard_finish, guard_setup}
use rocker.Core.Guard.Codes.{
  success, emnt_proc, emnt_loop, emnt_overlay, eunshare_user, eset_procname, emake_private,
}
use rocker.Core.Loop.Opening.{requested, Did, opening, did}
use rocker.Core.Guard.Steps.{
  loop_mounted, overlaid, secluded, root_mount, proc_mounted, made_private, named, all_overlaid,
  package_mounted,
}

-- All calls of a guard that is set up, newest first: it makes its mounts private, takes its name,
-- mounts /proc, finds and binds a loop device and mounts the package, tells the device, mounts each
-- overlay in the order of the request, enters its own user namespace, and tells success.
abbrev pub set_up : ℕ → RockerCfg → Lazy → ℤ → ℕ → ℕ → ℕ → List Call
set_up guard_fd cfg o id ctl_fd loop_fd pkg_fd =
    send guard_fd (i32_to_bytes success)
    ∷ unshare (clone_newuser ∷ [])
    ∷ overlaid (upperdir_root cfg) (workdir_root cfg) cfg.app_overlay_dirs (
        send guard_fd (i32_to_bytes id)
        ∷ loop_mounted cfg id ctl_fd loop_fd pkg_fd (opening o (secluded cfg)))

module _ (env : Env) (guard_fd : ℕ) where
  informed :
      (o : Lazy) (l : List Call) (msg : ℤ)
      → Gives
          (Did o l)
          (inform_master env guard_fd msg)
          (λ _. Did o (send guard_fd (i32_to_bytes msg) ∷ l))
  unfolding inform_master
  informed o l msg =
      Triple-bind _ _ _
        (Gives-or _ _
          (Triple-bind _ _ _ (did env o l (send guard_fd (i32_to_bytes msg))) (λ r. Gives-kept r))
          (λ e. Triple-pdie (λ s h. tt)))
        (λ _. Triple-pure tt (λ s h. h))

  -- A stage that gives a result has not sent a code.
  stage :
      {A : Type 0} {P : Machine → Type 0} {Q : A → Machine → Type 0} (code : ℤ) (ops : M A)
      → Gives P ops Q
      → Gives P (err_checker env guard_fd code ops) Q
  unfolding err_checker inform_master
  stage code ops h = Gives-or ops _ h (λ e.
      Triple-bind (λ _ _. Unit {0}) _ _
        (Triple-bind (λ _ _. Unit {0}) _ _
          (Gives-or _ _
            (Triple-bind (λ _ _. Unit {0}) _ _
              (Triple-call env (send guard_fd (i32_to_bytes code)) (λ s h. tt)) (λ r. Gives-kept r))
            (λ e. Triple-pdie (λ s h. tt)))
          (λ _. Triple-pure tt (λ s h. tt)))
        (λ _. Triple-pdie (λ s h. tt)))

  finished :
      (o : Lazy) (l : List Call) (cfg : RockerCfg)
      → Gives (Did o l) (guard_finish env guard_fd cfg) (λ _. Did o (
          send guard_fd (i32_to_bytes success)
          ∷ unshare (clone_newuser ∷ [])
          ∷ overlaid (upperdir_root cfg) (workdir_root cfg) cfg.app_overlay_dirs l))
  unfolding guard_finish guard_mnt_overlay unshare_user
  finished o l cfg =
      Triple-bind _ _ _
        (stage emnt_overlay _
          (all_overlaid env o l (upperdir_root cfg) (workdir_root cfg) cfg.app_overlay_dirs))
        (λ _.
          Triple-bind _ _ _
            (stage eunshare_user _
              (Triple-bind _ _ _ (did env o _ (unshare (clone_newuser ∷ []))) (λ r. Gives-kept r)))
            (λ _. Triple-bind _ _ _ (informed o _ success) (λ _. Triple-pure cfg (λ s h. h))))

  -- From no call made, the set-up of a guard ends, and if it succeeds, then it has made exactly these
  -- calls in this order: the private root, the name, /proc, the control of the loop devices unless it
  -- is open already, the loop device bound to the package and mounted, the message with the device,
  -- for each overlay directory in turn its two directories and its mount, the user namespace, and the
  -- message of success.
  pub guard_setup-Gives :
      (o : Lazy) (cfg : RockerCfg)
      → Gives
          (λ s. Seen requested [] s × (s.loop_master ≡ o))
          (guard_setup env guard_fd cfg)
          (λ _ s.
            (id : ℤ) × (ctl_fd loop_fd pkg_fd : ℕ) × Seen requested
              (set_up guard_fd cfg o id ctl_fd loop_fd pkg_fd)
              s)
  unfolding guard_setup upperdir_root workdir_root
  guard_setup-Gives o cfg = Triple-bind _ _ _ (stage emake_private _ (made_private env o [])) (λ _.
      Triple-bind _ _ _ (stage eset_procname _ (named env o (root_mount ∷ []) cfg)) (λ cfg'.
        Triple-given _ (λ (name, e). rw e (
          Triple-bind _ _ _ (stage emnt_proc _ (proc_mounted env o _)) (λ _.
            Triple-bind _ _ _
              (stage emnt_loop _ (package_mounted env o _ (record cfg { guard_pname = name })))
              (λ id. Triple-given _ (λ ctl_fd. Triple-given _ (λ loop_fd. Triple-given _ (λ pkg_fd.
                Triple-bind _ _ _ (informed (held ctl_fd) _ id) (λ _.
                  Triple-weaken _ _ _ _ _
                    (finished (held ctl_fd) _ (record cfg { guard_pname = name })) (λ s h. h)
                    (λ a s h. (id, ctl_fd, loop_fd, pkg_fd, h.0)) (λ e s h. h) (λ s h. h)))))))))))
