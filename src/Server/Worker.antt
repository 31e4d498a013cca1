-- ===== src/Server/Worker.antt =====
-- `worker`, `req_parse` and `send_resq` (rocker_server/src/main.rs): one request, from its bytes to the
-- reply.
pub mod Evidence
pub mod Silent
pub mod Entering
pub mod Sending
pub mod Replies
pub mod Descriptors
pub mod Delays
pub mod Refused
use rocker.Prelude.{ℕ, List, [], ◌∷◌, ℤ, negsuc}
use rocker.Bytes.{Bytes}
use rocker.Bytes.LittleEndian.{to_bytes, i32_of_bits, i32_to_bytes}
use rocker.Config.{RockerCfg}
use rocker.Call.{Env, sendmsg, close}
use rocker.Machine.{M, ◌>>=◌, ◌>>◌, pure, lift, pdie, sys_call, check, on_error, pnk, info}
use rocker.Core.Setup.{new}
use rocker.Core.Init.{init, get_guard_pid, get_guard_pname, get_namespace_fds}
use rocker.Core.Resource.{registe_resource}
use rocker.Server.Request.{parse_params}

-- `Resp`
pub record Resp : Type 0 where
  pub guard_pid : ℤ
  pub guard_pname : ℕ
  pub namespace_fds : List ℕ

module _ (env : Env) where
  unfoldable pub send_resq : Resp → ℕ → Bytes → M (Unit {0})
  send_resq resp serv_fd peeraddr = do
    r ← sys_call env (
        sendmsg serv_fd (i32_to_bytes resp.guard_pid ∷ to_bytes 16 resp.guard_pname ∷ [])
          resp.namespace_fds peeraddr)
    _ ← check r
    pure tt

  unfoldable pub req_parse : ℕ → Bytes → M RockerCfg
  req_parse w req = do params ← lift (parse_params w req); new env w params

  unfoldable pub close_all : List ℕ → M (Unit {0})
  close_all [] = pure tt
  close_all (fd ∷ fds) = do info (do r ← sys_call env (close fd); check r); close_all fds

  module _ (serv_fd : ℕ) (peeraddr : Bytes) where
    unfoldable pub send_back : ℤ → ℕ → List ℕ → M (Unit {0})
    unfolding send_resq
    send_back gpid gpname fds = pnk (
        send_resq (record { guard_pid = gpid; guard_pname = gpname; namespace_fds = fds }) serv_fd
          peeraddr)

    -- `check!`: on an error the client is told so, and the worker panics.
    unfoldable pub or_refuse {ℓ} : {A : Type ℓ} → M A → M A
    unfolding send_back
    or_refuse ops = on_error ops (λ _. send_back (negsuc 0) 0 [] >> pdie)

    unfoldable pub worker : ℕ → Bytes → M (Unit {0})
    unfolding req_parse close_all or_refuse send_back
    worker w req = do
      cfg ← or_refuse (req_parse w req)
      cfg' ← or_refuse (init env cfg)
      pid ← or_refuse (get_guard_pid env cfg')
      fds ← or_refuse (get_namespace_fds env cfg')
      or_refuse (registe_resource cfg' (i32_of_bits pid))
      send_back (i32_of_bits pid) (get_guard_pname env cfg') fds
      close_all fds
