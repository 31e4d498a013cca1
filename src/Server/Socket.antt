-- ===== src/Server/Socket.antt =====
-- `gen_server_socket`, `uau_serve` and `main` (rocker_server/src/main.rs). The thread pool is a crate:
-- the jobs that it is given are returned, in the order of their requests.
pub mod Jobs
use rocker.Prelude.{ℕ, zero, suc, List, [], ◌∷◌, ◌++◌, take, length, length-take, ◌<◌, ◌^◌, arith}
use rocker.Bytes.{Bytes, bytes}
use rocker.Outcome.{sys, pending, Outcome, err}
use rocker.Call.{
  Env, done, failed, socket_unix_datagram, setsockopt_reuse_addr, setsockopt_reuse_port,
  bind_abstract, recvfrom,
}
use rocker.Machine.{M, ◌>>=◌, ◌>>◌, pure, sys_call, check, pnk}

-- The content of rocker_server/src/rocker_server_uau_addr_cfg.
abbrev pub server_address : Bytes
server_address = bytes "e96d36287c8cfece722db1ce842e9f6"

-- The length of `buf`
abbrev pub buf_siz : ℕ
buf_siz = 512

-- `buf[..recvd.0].to_vec()` for a datagram `msg`: `recvfrom` cuts it to the buffer.
abbrev pub in_buf : Bytes → Bytes
in_buf msg = take buf_siz msg

-- What is in the buffer is short.
pub in_buf-small : (msg : Bytes) → length (in_buf msg) < 2 ^ 63
in_buf-small msg = omega (arith, length-take buf_siz msg)

-- A call of `worker(req, serv_fd, peeraddr)` that waits in the pool.
pub record Job : Type 0 where
  pub req : Bytes
  pub peeraddr : Bytes

module _ (env : Env) where
  unfoldable pub gen_server_socket : M ℕ
  gen_server_socket = do
    r ← sys_call env socket_unix_datagram
    fd ← check r
    a ← sys_call env (setsockopt_reuse_addr fd)
    check a
    p ← sys_call env (setsockopt_reuse_port fd)
    check p
    b ← sys_call env (bind_abstract fd server_address)
    check b
    pure fd

  -- The receiving loop of `uau_serve`, with the jobs given to the pool so far. It ends on an error.
  unfoldable pub uau_serve : ℕ → ℕ → List Job → M (Outcome (Unit {0}) × List Job)
  uau_serve zero serv_fd jobs = pure (pending, jobs)
  uau_serve (suc rounds) serv_fd jobs = do
    r ← sys_call env (recvfrom serv_fd buf_siz)
    elim r [
      | done (msg, from) ↦
          uau_serve rounds serv_fd (jobs ++ record { req = msg; peeraddr = from } ∷ [])
      | failed e ↦ pure (err (sys e), jobs)
    ]

  unfoldable pub main : ℕ → M (Outcome (Unit {0}) × List Job)
  unfolding gen_server_socket uau_serve
  main rounds = do fd ← pnk gen_server_socket; uau_serve rounds fd []
