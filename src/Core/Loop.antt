-- ===== src/Core/Loop.antt =====
-- core/src/loop/mod.rs: loop devices.
pub mod Metal
pub mod Opening
use rocker.Prelude.{ℕ, suc, ◌∷◌, ◌++◌, ℤ, pos, negsuc}
use rocker.Bytes.{Bytes, bytes}
use rocker.Core.Loop.Metal.{loop_ctl_open, ctl_get_free, loop_bind, loop_unbind, ctl_remove}
use rocker.Bytes.Decimal.{decimal}
use rocker.Call.{Env, read_write, open_file, ioctl_none, ioctl_write_int}
use rocker.Machine.{
  M, Lazy, unused, held, poisoned, ◌>>=◌, ◌>>◌, pure, pdie, sys_call, check, on_error,
}

-- `format!("{}", i)` of an i32
unfoldable pub display_i32 : ℤ → Bytes
display_i32 (pos n) = decimal n
display_i32 (negsuc n) = b'-' ∷ decimal (suc n)

-- `format!("/dev/loop{}", id)`
unfoldable pub loop_path : ℤ → Bytes
loop_path id = bytes "/dev/loop" ++ display_i32 id

-- The first use of `*LOOP_MASTER` stores the descriptor.
unfoldable pub keep_loop_master : ℕ → M ℕ
keep_loop_master fd s = pure fd (record s { loop_master = held fd })

unfoldable pub poison_loop_master : M (Unit {0})
poison_loop_master s = pure tt (record s { loop_master = poisoned })

module _ (env : Env) where
  -- `*LOOP_MASTER`: the descriptor is opened on first use, and kept.
  abbrev pub deref : Lazy → M ℕ
  deref (held fd) = pure fd
  deref poisoned = pdie
  deref unused = do
    fd ← on_error (loop_ctl_open env) (λ _. poison_loop_master >> pdie)
    keep_loop_master fd

  unfoldable pub loop_master : M ℕ
  unfolding loop_ctl_open keep_loop_master poison_loop_master
  loop_master s = deref s.loop_master s

  unfoldable pub bind_pkg : ℕ → ℕ → M (Unit {0})
  unfolding loop_bind
  bind_pkg loop_fd backing_fd = loop_bind env loop_fd backing_fd

  unfoldable pub unbind : ℕ → M (Unit {0})
  unfolding loop_unbind
  unbind loop_fd = loop_unbind env loop_fd

  unfoldable pub get_loop_dev : M (Bytes × ℤ)
  unfolding loop_master ctl_get_free
  get_loop_dev = do
    fd ← loop_master
    loop_id ← ctl_get_free env fd
    pure (loop_path loop_id, loop_id)

  unfoldable pub destroy : ℤ → M (Unit {0})
  unfolding loop_master ctl_remove
  destroy id = do fd ← loop_master; ctl_remove env fd id
