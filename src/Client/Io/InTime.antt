-- ===== src/Client/Io/InTime.antt =====
-- How long the client waits for the server's reply (librocker_client/src/io.c, `recv_fd`; lib.c).
use rocker.Prelude.{
  ℕ, ◌≤◌, ◌<◌, ◌≡◌, refl, true, Option, none, some, List, ◌∷◌, leb, Bool-cases, inl, inr,
  if◌then◌else◌, pos, arith,
}
use rocker.Bytes.{Bytes}
use rocker.Call.{done, failed}
use rocker.Client.Wire.{RockerRequest, encode}
use rocker.Client.Reply.{rocker_result_new, recv_resp_failed, receive_reply, enter_inner}
use rocker.Client.Io.{Kernel, Datagram, eagain, autobound, send_normal, recv_fd, system_of}

-- The reply comes `t` milliseconds after the client has begun to wait for it. Before it is there,
-- `recvmsg` fails with EAGAIN; `poll` gives 1 if it comes within the time limit, and 0 if not.
pub record Arrives (k : Kernel) (reply : Datagram) (t : ℕ) : Type 0 where
  pub nothing_yet : k.at_once ≡ failed eagain
  pub told : (limit : ℕ) → t ≤ limit → k.poll limit ≡ pos 1
  pub not_told : (limit : ℕ) → limit < t → k.poll limit ≡ pos 0
  pub there : k.polled ≡ done reply

-- The client's own socket can be made and bound, and the request goes off.
pub record Sends (k : Kernel) (req : RockerRequest) : Type 0 where
  pub fd : ℕ
  pub len : ℕ
  pub made : k.socket ≡ done fd
  pub reuses : k.reuse_addr fd ≡ done tt
  pub bound : k.autobind fd ≡ done tt
  pub sent : (addr : Bytes) → k.sendmsg addr (encode req) ≡ done len

module _ (k : Kernel) (b : ℕ) (bs : Bytes) (fdset : Option (List ℕ)) (t : ℕ) where
  received :
      Arrives k (b ∷ bs, fdset) t → recv_fd k ≡ (if leb t 3000 then some (b ∷ bs, fdset) else none)
  unfolding recv_fd
  received come = elim (Bool-cases (leb t 3000)) [
    | inl e ↦ rw (e, come.nothing_yet, come.told 3000 (ground (arith, e)), come.there) refl
    | inr e ↦ rw (e, come.nothing_yet, come.not_told 3000 (ground (arith, e))) refl
  ]

  module _ (req : RockerRequest) (asked : Sends k req) where
    has_socket : (autobound k).0 ≡ true
    unfolding autobound
    has_socket = rw (asked.made, asked.reuses, asked.bound) refl

    has_sent : (addr : Bytes) → send_normal k (some addr) (encode req) ≡ true
    unfolding send_normal
    has_sent addr = rw (asked.sent addr) refl

  -- The client's own socket can be made and bound, its request goes off, and a datagram that is not
  -- empty comes `t` milliseconds after the client has begun to wait for it. If `t` is at most 3000,
  -- the client uses this datagram as the reply; otherwise its result is that it has received none,
  -- with no pid.
  pub enter_inner-arriving :
      (req : RockerRequest)
      → Sends k req
      → Arrives k (b ∷ bs, fdset) t
      → enter_inner (system_of k) req ≡ (
          if leb t 3000
          then receive_reply (system_of k) (some (b ∷ bs, fdset))
          else record rocker_result_new { err_no = recv_resp_failed })
  unfolding enter_inner system_of receive_reply
  enter_inner-arriving req asked come = elim (Bool-cases (leb t 3000)) [
    | inl e ↦ rw (has_socket req asked, has_sent req asked, received come, e) refl
    | inr e ↦ rw (has_socket req asked, has_sent req asked, received come, e) refl
  ]
