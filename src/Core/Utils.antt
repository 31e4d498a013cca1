-- ===== src/Core/Utils.antt =====
-- core/src/utils/mod.rs: the wrappers round single system calls.
use rocker.Prelude.{ℕ, ◌*◌, Option, none, some, List, [], ◌∷◌, length, ◌==◌, if◌then◌else◌}
use rocker.Outcome.{core, unknown}
use rocker.Bytes.{Bytes, bytes}
use rocker.Call.{
  Env, Answer, done, failed, MsFlag, ms_nosuid, ms_nodev, ms_noexec, ms_relatime, kill_sigkill,
  socketpair, recv, poll_in, mount, sleep,
}
use rocker.Machine.{M, ◌>>=◌, ◌>>◌, pure, throw, sys_call, check}

abbrev pub eagain : ℕ
eagain = 11

-- A datagram written over the front of a buffer, as far as the buffer goes.
unfoldable pub fill : Bytes → Bytes → Bytes
fill [] msg = []
fill (b ∷ buf) [] = b ∷ buf
fill (b ∷ buf) (m ∷ msg) = m ∷ fill buf msg

module _ (env : Env) where
  -- `let _ = signal::kill(...)`: the result is dropped.
  unfoldable pub kill : ℕ → M (Unit {0})
  kill pid = do _ ← sys_call env (kill_sigkill pid); pure tt

  unfoldable pub unix_dgram_socketpair : M (ℕ × ℕ)
  unix_dgram_socketpair = do r ← sys_call env socketpair; check r

  unfoldable pub mountx :
      Option Bytes → Bytes → Option Bytes → List MsFlag → Option Bytes → M (Unit {0})
  mountx from to fstype flags mount_data = do
    r ← sys_call env (mount from to fstype flags mount_data)
    check r

  unfoldable pub mount_dynfs_proc : M (Unit {0})
  unfolding mountx
  mount_dynfs_proc =
      mountx (some (bytes "proc")) (bytes "/proc") (some (bytes "proc"))
        (ms_nodev ∷ ms_noexec ∷ ms_nosuid ∷ ms_relatime ∷ []) none

  unfoldable pub sleep_secs : ℕ → M (Unit {0})
  sleep_secs secs = sys_call env (sleep secs)

  -- `poll_any(fds, POLLIN, secs)`: the number of ready descriptors is dropped, also when it is 0.
  unfoldable pub wait_readable : List ℕ → ℕ → M (Unit {0})
  wait_readable fds timeout_secs = do
    r ← sys_call env (poll_in fds (timeout_secs * 1000))
    _ ← check r
    pure tt

  -- The closure `r` of `recv_timed`: one read that does not block.
  unfoldable pub recv_once : ℕ → Bytes → M Bytes
  recv_once fd buf = do r ← sys_call env (recv fd (length buf)); msg ← check r; pure (fill buf msg)

  -- What `recv_timed` does with the first answer: only EAGAIN leads to a wait and a second read.
  unfoldable pub or_wait : ℕ → Bytes → ℕ → Answer Bytes → M Bytes
  or_wait fd buf timeout_secs (done msg) = pure (fill buf msg)
  or_wait fd buf timeout_secs (failed e) =
      if e == eagain
      then (do wait_readable (fd ∷ []) timeout_secs; recv_once fd buf)
      else throw (core unknown)

  -- Gives the buffer as it stands after the call.
  unfoldable pub recv_timed : ℕ → Bytes → ℕ → M Bytes
  unfolding or_wait wait_readable recv_once
  recv_timed fd buf timeout_secs = do
    r ← sys_call env (recv fd (length buf))
    or_wait fd buf timeout_secs r
