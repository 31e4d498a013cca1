-- ===== src/Core/Guard.antt =====
-- The guard process: `start_guard`, the closure `guard_ops` that the clone runs, and
-- `guard_running_alone` (core/src/master.rs).
pub mod Codes
pub mod Quiet
pub mod Protocol
pub mod Ending
pub mod Steps
pub mod Order
use rocker.Prelude.{
  ℕ, zero, suc, Bool, true, false, ◌&&◌, Option, none, some, List, [], ◌∷◌, ◌==◌, if◌then◌else◌, ℤ,
}
use rocker.Outcome.{Outcome, pending}
use rocker.Bytes.{Bytes, bytes}
use rocker.Bytes.LittleEndian.{i32_to_bytes}
use rocker.Bytes.Decimal.{parse_u32}
use rocker.Config.{RockerCfg}
use rocker.Call.{
  Env, DirEntry, CloneFlag, clone_newns, clone_newpid, clone_newuser, send, unshare, read_dir,
  clone,
}
use rocker.Machine.{M, ◌>>=◌, ◌>>◌, pure, lift, pdie, sys_call, check, on_error, pnk}
use rocker.Core.Utils.{mount_dynfs_proc, sleep_secs}
use rocker.Core.Name.{guard_set_self_name}
use rocker.Core.Mounts.{mount_make_rprivate, guard_mnt_loop, guard_mnt_overlay}
use rocker.Core.Guard.Codes.{
  success, emnt_proc, emnt_loop, emnt_overlay, eunshare_user, eset_procname, emake_private,
}

-- 2 MiB, a multiple of 16
abbrev pub stack_siz : ℕ
stack_siz = 2097152

-- Whether an entry of /proc is the directory of a process other than 1.
abbrev other_process : Option ℕ → Bool
other_process none = false
other_process (some pid) = if pid == 1 then false else true

abbrev other_entry : Option DirEntry → Bool
other_entry none = false
other_entry (some d) = d.is_dir && other_process (parse_u32 d.name)

-- The fold of `guard_running_alone` over the directory.
unfoldable pub all_alone : List (Option DirEntry) → Bool
all_alone [] = true
all_alone (d ∷ ds) = if other_entry d then false else all_alone ds

module _ (env : Env) where
  unfoldable pub guard_running_alone : M Bool
  guard_running_alone = do
    ds ← pnk (do r ← sys_call env (read_dir (bytes "/proc")); check r)
    pure (all_alone ds)

  -- The closing `loop`: every 20 seconds, until the guard is alone.
  unfoldable pub wait_alone : ℕ → M (Unit {0})
  unfolding guard_running_alone
  wait_alone zero = lift pending
  wait_alone (suc rounds) = do
    sleep_secs env 20
    alone ← guard_running_alone
    elim alone [ true ↦ pure tt | false ↦ wait_alone rounds ]

  unfoldable pub unshare_user : M (Unit {0})
  unshare_user = do r ← sys_call env (unshare (clone_newuser ∷ [])); check r

  module _ (guard_fd : ℕ) where
    -- `inform_master!`
    unfoldable pub inform_master : ℤ → M (Unit {0})
    inform_master msg = do
      _ ← pnk (do r ← sys_call env (send guard_fd (i32_to_bytes msg)); check r)
      pure tt

    -- `err_checker!`: on an error the code is sent, and the process dies.
    unfoldable pub err_checker {ℓ} : {A : Type ℓ} → ℤ → M A → M A
    unfolding inform_master
    err_checker msg ops = on_error ops (λ _. inform_master msg >> pdie)

    -- The stages of the closure that follow the message with the loop device.
    unfoldable pub guard_finish : RockerCfg → M RockerCfg
    unfolding err_checker unshare_user
    guard_finish cfg = do
      err_checker emnt_overlay (guard_mnt_overlay env cfg)
      err_checker eunshare_user (unshare_user)
      inform_master success
      pure cfg

    -- The closure, up to the message of success. It runs on the clone's copy of the configuration.
    unfoldable pub guard_setup : RockerCfg → M RockerCfg
    unfolding guard_finish
    guard_setup cfg = do
      err_checker emake_private (mount_make_rprivate env (bytes "/"))
      cfg' ← err_checker eset_procname (guard_set_self_name env cfg)
      err_checker emnt_proc (mount_dynfs_proc env)
      loop_id ← err_checker emnt_loop (guard_mnt_loop env cfg')
      inform_master loop_id
      guard_finish cfg'

    unfoldable pub guard_ops : ℕ → RockerCfg → M (Unit {0})
    unfolding guard_setup wait_alone
    guard_ops rounds cfg = do _ ← guard_setup cfg; wait_alone rounds

  -- The parent's side: the clone gets `guard_ops`, and the parent its pid.
  unfoldable pub start_guard : RockerCfg → M (ℕ × RockerCfg)
  start_guard cfg = do
    r ← sys_call env (clone (clone_newns ∷ clone_newpid ∷ []) stack_siz)
    pid ← check r
    pure (pid, record cfg { guard_stack = some stack_siz })
