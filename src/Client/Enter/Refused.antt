-- ===== src/Client/Enter/Refused.antt =====
-- A request that the server cannot read, from the Rust wrapper and back: librocker_client_wrapper builds
-- it, lib.c sends it, a worker of rocker_server refuses it, and its reply comes back.
use rocker.Prelude.{ℕ, ◌≡◌, refl, ap, ◌∙◌, Bool, Option, some, List, [], ◌∷◌}
use rocker.Outcome.{Error, err}
use rocker.Bytes.{Bytes}
use rocker.Config.{ResourceHdr}
use rocker.Call.{Env}
use rocker.Machine.{Machine}
use rocker.Machine.Keeps.{Triple-panics}
use rocker.Server.Request.{parse_params}
use rocker.Server.Socket.{in_buf}
use rocker.Server.Worker.{worker}
use rocker.Server.Worker.Silent.{Replied, Idle, Fresh}
use rocker.Server.Worker.Sending.{refusal}
use rocker.Server.Worker.Refused.{worker-refuses}
use rocker.Client.Wire.{RockerRequest, encode}
use rocker.Client.Reply.{System, enter_inner, build_rocker_failed, err_number}
use rocker.Client.Reply.Answers.{HasAsked, datagram, enter_inner-refusal}
use rocker.Client.Enter.{Host}
use rocker.Client.Enter.Passing.{HasPipe, c_result, IsLibrary, enter_rocker-passed}
use rocker.Client.Wrapper
use rocker.Client.Wrapper.{Request, CResult, rocker_build_rocker}
use rocker.Client.Wrapper.Built.{fields}
use rocker.Client.Wrapper.Delivery.{IsClean}
use rocker.Client.Wrapper.Numbers.{res_convert-err_number}

-- The one reply of a worker that ended with `s` has come to the client.
abbrev pub HasCome : Machine → System → Option (List ℕ) → Type 0
HasCome s c fdset =
    (r : List Bytes × List ℕ) × (Replied (r ∷ []) s × (c.received ≡ some (datagram r, fdset)))

module _ (to_string_lossy : Bytes → Bytes) (run : RockerRequest → CResult) (host : Host)
    (c : System) (env : Env) (t : ResourceHdr) (poisoned : Bool) where
  -- The server's buffer holds the first 512 bytes of a request of the Rust wrapper, which has no NUL in
  -- its texts. The server cannot read them, and a worker that has done nothing yet gets them, on 64
  -- bits. Its one reply comes to the client, with any descriptors or none, and the client's sockets,
  -- its pipe and its child work. Then the caller gets the error that the rocker could not be built, and
  -- the server's table is as it was.
  pub enter_rocker-refused :
      (r : Request) (e : Error) (s : Machine) (serv_fd : ℕ) (peeraddr : Bytes)
      (fdset : Option (List ℕ))
      → IsClean r
      → parse_params 64 (in_buf (encode (fields r))) ≡ err e
      → Fresh t poisoned s
      → HasPipe host
      → IsLibrary host c run
      → HasAsked c (fields r)
      → HasCome (worker env serv_fd peeraddr 64 (in_buf (encode (fields r))) s).1 c fdset
      → (Wrapper.enter_rocker to_string_lossy run r ≡ Wrapper.err rocker_build_rocker)
        × ((worker env serv_fd peeraddr 64 (in_buf (encode (fields r))) s).1.resource ≡ t)
  enter_rocker-refused r e s serv_fd peeraddr fdset clean unreadable start pipe library sent
        (answer, (replied, got)) =
      let ended : Idle (refusal ∷ []) t poisoned
          (worker env serv_fd peeraddr 64 (in_buf (encode (fields r))) s).1 =
        Triple-panics _ (worker-refuses env t poisoned serv_fd peeraddr _ e unreadable) s start in
      let same : answer ≡ refusal = cc (replied, ended.0) in
      let told : (enter_inner c (fields r)).err_no ≡ build_rocker_failed =
        (enter_inner-refusal c (fields r) fdset sent
          (got ∙ ap (λ a. some (datagram a, fdset)) same)).0 in
      (
        enter_rocker-passed to_string_lossy run host c r clean pipe library
            ∙ rw
                (res_convert-err_number build_rocker_failed (c_result (enter_inner c (fields r)))
                  (ap err_number told))
                refl,
        ended.1.0,
      )
