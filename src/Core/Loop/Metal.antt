-- ===== src/Core/Loop/Metal.antt =====
-- core/src/loop/metal.rs: loop devices, by `ioctl` on /dev/loop-control and on the devices.
use rocker.Prelude.{ℕ, ℤ, pos}
use rocker.Bytes.{bytes}
use rocker.Call.{Env, read_write, open_file, ioctl_none, ioctl_write_int}
use rocker.Machine.{M, ◌>>=◌, pure, sys_call, check}

-- The request numbers of <linux/loop.h>.
abbrev pub loop_set_fd_request : ℕ
loop_set_fd_request = 19456

abbrev pub loop_clr_fd_request : ℕ
loop_clr_fd_request = 19457

abbrev pub loop_ctl_get_free_request : ℕ
loop_ctl_get_free_request = 19586

abbrev pub loop_ctl_remove_request : ℕ
loop_ctl_remove_request = 19585

module _ (env : Env) where
  unfoldable pub loop_ctl_open : M ℕ
  loop_ctl_open = do r ← sys_call env (open_file read_write (bytes "/dev/loop-control")); check r

  unfoldable pub ctl_get_free : ℕ → M ℤ
  ctl_get_free loop_ctl_fd = do
    r ← sys_call env (ioctl_none loop_ctl_fd loop_ctl_get_free_request)
    check r

  unfoldable pub ctl_remove : ℕ → ℤ → M (Unit {0})
  ctl_remove loop_ctl_fd id = do
    r ← sys_call env (ioctl_write_int loop_ctl_fd loop_ctl_remove_request id)
    _ ← check r
    pure tt

  unfoldable pub loop_bind : ℕ → ℕ → M (Unit {0})
  loop_bind loop_fd backing_fd = do
    r ← sys_call env (ioctl_write_int loop_fd loop_set_fd_request (pos backing_fd))
    _ ← check r
    pure tt

  unfoldable pub loop_unbind : ℕ → M (Unit {0})
  loop_unbind loop_fd = do
    r ← sys_call env (ioctl_none loop_fd loop_clr_fd_request)
    _ ← check r
    pure tt
