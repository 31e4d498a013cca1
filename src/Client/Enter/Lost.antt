-- ===== src/Client/Enter/Lost.antt =====
-- A rocker that is started and lost: the server serves the request, and the client has stopped waiting
-- (librocker_client/src/io.c, lib.c; rocker_server/src/main.rs).
use rocker.Prelude.{
  ℕ, ◌<◌, ◌≡◌, refl, ap, ◌∙◌, Bool, false, Option, none, some, List, [], ◌∷◌, All, leb, ℤ, arith,
}
use rocker.Outcome.{Outcome}
use rocker.Bytes.{Bytes, IsByte}
use rocker.Bytes.LittleEndian.{i32_of_bits, i32_to_bytes, to_bytes}
use rocker.Config.{RockerCfg, ResourceHdr, lookup, lookup-insert, eqb_ℤ_self}
use rocker.Call.{Env}
use rocker.Machine.{Machine}
use rocker.Machine.Keeps.{Triple-result}
use rocker.Core.Setup.{fresh, Params}
use rocker.Server.Request.{parse_params}
use rocker.Server.Worker.{worker}
use rocker.Server.Socket.{in_buf, in_buf-small}
use rocker.Server.Worker.Silent.{Replied, Fresh}
use rocker.Server.Worker.Evidence.{HasStarted}
use rocker.Server.Worker.Sending.{reply, IsServed}
use mathlib.Core.Path.{subst}
use rocker.Server.Worker.Replies.{worker-Triple}
use rocker.Client.Wire.{RockerRequest, encode, concat_map}
use rocker.Client.Reply.{enter_inner, recv_resp_failed, err_number}
use rocker.Client.Reply.Answers.{datagram}
use rocker.Client.Io.{Kernel, system_of}
use rocker.Client.Io.InTime.{Sends, Arrives, enter_inner-arriving}
use rocker.Client.Enter.{Host}
use rocker.Client.Enter.Passing.{HasPipe, c_result, IsLibrary, enter_rocker-passed}
use rocker.Client.Wrapper
use rocker.Client.Wrapper.{Request, CResult, rocker_recv_resp}
use rocker.Client.Wrapper.Built.{fields}
use rocker.Client.Wrapper.Delivery.{IsClean}
use rocker.Client.Wrapper.Numbers.{res_convert-err_number}

-- The one reply of a worker that ended with `s` is what comes to the client, after `time`
-- milliseconds.
abbrev pub ArrivesFrom : Machine → Kernel → List Bytes × List ℕ → Option (List ℕ) → ℕ → Type 0
ArrivesFrom s k r fdset time = Replied (r ∷ []) s × Arrives k (datagram r, fdset) time

-- The table has got an entry for what the request `req` asks for, after a complete start of it, and the
-- pid and the name in the reply `r` are those of the entry.
abbrev pub HasEntered : Env → Bytes → ResourceHdr → List Bytes × List ℕ → Machine → Type 0
HasEntered env req t r s =
    (pid : ℤ) × ((cfg : RockerCfg) × (((lookup pid t ≡ none) × (lookup pid s.resource ≡ some cfg))
        × ((r.0 ≡ (reply pid cfg.guard_pname r.1).0)
            × ((p : Params) × ((parse_params 64 req ≡ Outcome.ok p)
                  × ((n : ℕ) × HasStarted (fresh env p n) cfg s))))))

served-HasEntered :
    (env : Env) (req : Bytes) (t : ResourceHdr) (r : List Bytes × List ℕ) (s : Machine)
    → Replied (r ∷ []) s
    → IsServed env req t s
    → HasEntered env req t r s
served-HasEntered env req t r s replied served =
    let k : ℤ = i32_of_bits served.pid in
    let same : r ≡ reply k served.cfg.guard_pname served.fds = cc (replied, served.after.0.0) in
    (
      k,
      (
        served.cfg,
        (
          (
            served.absent,
            rw (served.after.0.1.0, lookup-insert k k served.cfg t, eqb_ℤ_self k) refl,
          ),
          (
            ap (λ r. r.0) same,
            (
              served.params,
              (served.read, (served.pname, (served.past, (served.start, served.after.1)))),
            ),
          ),
        ),
      ),
    )

-- A reply has a first byte.
reply_bytes :
    (pid : ℤ) (name : ℕ) (fds : List ℕ)
    → (b : ℕ) × ((bs : Bytes) × (datagram (reply pid name fds) ≡ b ∷ bs))
unfolding concat_map i32_to_bytes to_bytes
reply_bytes pid name fds = (_, (_, refl))

module _ (to_string_lossy : Bytes → Bytes) (run : RockerRequest → CResult) (host : Host)
    (k : Kernel) (env : Env) (t : ResourceHdr) (poisoned : Bool) where
  gives_up :
      (r : Request) (b : ℕ) (bs : Bytes) (fdset : Option (List ℕ)) (time : ℕ)
      → IsClean r
      → HasPipe host
      → IsLibrary host (system_of k) run
      → Sends k (fields r)
      → Arrives k (b ∷ bs, fdset) time
      → 3000 < time
      → Wrapper.enter_rocker to_string_lossy run r ≡ Wrapper.err rocker_recv_resp
  gives_up r b bs fdset time clean pipe library sent come late =
      let given_up : leb time 3000 ≡ false = ground (arith, late) in
      let told : (enter_inner (system_of k) (fields r)).err_no ≡ recv_resp_failed =
        rw (enter_inner-arriving k b bs fdset time (fields r) sent come, given_up) refl in
      enter_rocker-passed to_string_lossy run host (system_of k) r clean pipe library
      ∙ rw
          (res_convert-err_number recv_resp_failed (c_result (enter_inner (system_of k) (fields r)))
            (ap err_number told))
          refl

  -- A worker that has done nothing yet gets from the server's buffer a request of the Rust wrapper, has
  -- it served on 64 bits and returns; the request has no NUL in its texts, and its datagram is one of
  -- bytes. The client can send it, its pipe and its child work, and the worker's one reply comes to it
  -- more than 3000 milliseconds after it has begun to wait. Then the caller gets the error that no
  -- reply was received, and the server's table has a new entry, under the pid and with the name that
  -- the reply has. A first part of the worker's calls is a complete start of this entry for what the
  -- server read of the request: a guard was cloned and has told success, and its id maps were written.
  pub enter_rocker-lost :
      (r : Request) (s : Machine) (serv_fd : ℕ) (peeraddr : Bytes) (answer : List Bytes × List ℕ)
      (fdset : Option (List ℕ)) (time : ℕ)
      → IsClean r
      → All IsByte (in_buf (encode (fields r)))
      → Fresh t poisoned s
      → (worker env serv_fd peeraddr 64 (in_buf (encode (fields r))) s).0 ≡ Outcome.ok tt
      → HasPipe host
      → IsLibrary host (system_of k) run
      → Sends k (fields r)
      → ArrivesFrom
          (worker env serv_fd peeraddr 64 (in_buf (encode (fields r))) s).1
          k
          answer
          fdset
          time
      → 3000 < time
      → (Wrapper.enter_rocker to_string_lossy run r ≡ Wrapper.err rocker_recv_resp)
        × HasEntered env
            (in_buf (encode (fields r)))
            t
            answer
            (worker env serv_fd peeraddr 64 (in_buf (encode (fields r))) s).1
  enter_rocker-lost r s serv_fd peeraddr answer fdset time clean bytes_only start done pipe library
        sent (replied, come) late =
      let served : IsServed env (in_buf (encode (fields r))) t
          (worker env serv_fd peeraddr 64 (in_buf (encode (fields r))) s).1 =
        (Triple-result _
          (worker-Triple env t poisoned serv_fd peeraddr _ bytes_only
            (in_buf-small (encode (fields r))))
          s tt start done).1 in
      let same : answer ≡ reply (i32_of_bits served.pid) served.cfg.guard_pname served.fds =
        cc (replied, served.after.0.0) in
      let (b, (bs, split)) =
        reply_bytes (i32_of_bits served.pid) served.cfg.guard_pname served.fds in
      (
        gives_up r b bs fdset time clean pipe library sent
            (subst (λ d. Arrives k (d, fdset) time) (ap datagram same ∙ split) come) late,
        served-HasEntered env _ t answer _ replied served,
      )
