-- ===== src/Client/Enter/Served.antt =====
-- A request from the Rust wrapper to the server and back: librocker_client_wrapper builds it, lib.c
-- sends it, a worker of rocker_server serves it, and its reply comes back the same way.
use rocker.Client.Wrapper.Delivery.{clean_dirs, IsClean, asked, given, parse_params-c_request}
use rocker.Client.Wire.Texts.{Sendable}
use rocker.Client.Wire.RoundTrip.{IsText, IsId}
use mathlib.Core.Path.{subst}
use rocker.Prelude.{
  ℕ, ◌<◌, ◌≤◌, ◌^◌, ◌≡◌, refl, sym, ap, ◌∙◌, Bool, true, some, List, [], ◌∷◌, length, all, All,
  take, take_all, arith, ℤ, pos,
}
use rocker.Outcome.{Outcome}
use rocker.Bytes.{Bytes, IsByte}
use rocker.Bytes.LittleEndian.{
  to_bytes, i32_to_bytes, i32_of_bytes, i32_of_bits, bits_of_i32, IsI32, i32_of_bytes-i32_to_bytes,
}
use rocker.Config.{RockerCfg, ResourceHdr, lookup, lookup-insert, eqb_ℤ_self}
use rocker.Call.{Env}
use rocker.Machine.{Machine}
use rocker.Machine.Keeps.{Triple-result}
use rocker.Core.Setup.{fresh}
use rocker.Server.Worker.{worker}
use rocker.Server.Request.{parse_params}
use rocker.Server.Worker.Silent.{Replied, Fresh}
use rocker.Server.Worker.Evidence.{IsStartOf, HasStarted}
use rocker.Server.Socket.{buf_siz, in_buf, in_buf-small}
use rocker.Server.Worker.Sending.{reply, IsServed}
use rocker.Server.Worker.Replies.{worker-Triple}
use rocker.Client.Wire.{RockerRequest, encode, concat_map}
use rocker.Client.Reply.{System, enter_inner, no_error, err_number}
use rocker.Client.Reply.Answers.{
  HasAsked, datagram, enter_inner-success, take_four, length-i32_to_bytes,
}
use rocker.Client.Enter.{Host}
use rocker.Client.Enter.Passing.{HasPipe, c_result, IsLibrary, enter_rocker-passed}
use rocker.Client.Wrapper
use rocker.Client.Wrapper.{Request, CResult, ok, take_nonzero}
use rocker.Client.Wrapper.Built.{fields}
use rocker.Client.Wrapper.Results.{told}
use rocker.Client.Wrapper.Numbers.{res_convert-err_number}

-- The one reply of a worker that ended with `s` has come to the client, with the descriptors under the
-- numbers `fds`, and its pid, read as the client reads it, is `pid`.
abbrev pub IsDelivered : Machine → System → List ℕ → ℕ → Type 0
IsDelivered s c fds pid =
    (r : List Bytes × List ℕ) × (Replied (r ∷ []) s
      × ((c.received ≡ some (datagram r, some fds))
          × ((length fds ≡ length r.1) × (i32_of_bytes (take 4 (datagram r)) ≡ pos pid))))

i32_of_bits-IsI32 : (n : ℕ) → IsI32 (i32_of_bits n)
unfolding i32_of_bits
i32_of_bits-IsI32 n = ground arith

bits_small : (n : ℕ) → n < 2 ^ 31 → bits_of_i32 (pos n) ≡ n
unfolding bits_of_i32
bits_small n h = omega arith

pid_of_datagram :
    (k : ℤ) (name : ℕ) (fds : List ℕ)
    → IsI32 k
    → i32_of_bytes (take 4 (datagram (reply k name fds))) ≡ k
unfolding concat_map
pid_of_datagram k name fds h =
    rw (take_four (i32_to_bytes k) _ (length-i32_to_bytes k)) (i32_of_bytes-i32_to_bytes k h)

module _ (to_string_lossy : Bytes → Bytes) (run : RockerRequest → CResult) (host : Host)
    (c : System) where
  -- What the wrapper makes of a success.
  told_success :
      (r : Request)
      → IsClean r
      → HasPipe host
      → IsLibrary host c run
      → (enter_inner c (fields r)).err_no ≡ no_error
      → Wrapper.enter_rocker to_string_lossy run r
        ≡ ok (told to_string_lossy (c_result (enter_inner c (fields r))))
  told_success r clean pipe library fine =
      enter_rocker-passed to_string_lossy run host c r clean pipe library
      ∙ rw
          (res_convert-err_number no_error (c_result (enter_inner c (fields r)))
            (ap err_number fine))
          refl

  module _ (a u g : ℕ) (pkg exec home : Bytes) (dirs : List Bytes) (env : Env)
      (t : ResourceHdr) where
    -- The rocker that was asked for is in the table, under the pid.
    abbrev pub IsListed : ℕ → RockerCfg → Machine → Type 0
    IsListed pid cfg s =
        (lookup (pos pid) s.resource ≡ some cfg)
        × ((n : ℕ) × HasStarted (fresh env (given a u g pkg exec home dirs) n) cfg s)

    served_result :
        {s : Machine} (fds : List ℕ) (pid : ℕ) (app : ℤ)
        → IsClean (asked a u g pkg exec home dirs)
        → HasPipe host
        → IsLibrary host c run
        → IsServed env (in_buf (encode (fields (asked a u g pkg exec home dirs)))) t s
        → parse_params 64 (in_buf (encode (fields (asked a u g pkg exec home dirs))))
          ≡ Outcome.ok (given a u g pkg exec home dirs)
        → HasAsked c (fields (asked a u g pkg exec home dirs))
        → IsDelivered s c fds pid
        → all c.setns fds ≡ true
        → c.cloned ≡ some app
        → (cfg : RockerCfg) × ((Wrapper.enter_rocker to_string_lossy run
                (asked a u g pkg exec home dirs)
              ≡ ok (record {
                app_pid = bits_of_i32 app;
                guard_pid = pid;
                guard_pname = to_string_lossy (take_nonzero (to_bytes 16 cfg.guard_pname));
              }))
            × IsListed pid cfg s)
    served_result {s} fds pid app clean pipe library served read sent
          (r, (replied, (got, (count, own)))) entered cloned =
        let rq : Request = asked a u g pkg exec home dirs in
        let k : ℤ = i32_of_bits served.pid in
        let same : r ≡ reply k served.cfg.guard_pname served.fds = cc (replied, served.after.0.0) in
        let positive : k ≡ pos pid =
          sym (pid_of_datagram k served.cfg.guard_pname served.fds (i32_of_bits-IsI32 served.pid))
          ∙ ap (λ r. i32_of_bytes (take 4 (datagram r))) (sym same)
          ∙ own in
        let params : served.params ≡ given a u g pkg exec home dirs = cc (served.read, read) in
        let ended : enter_inner c (fields rq) ≡ _ =
          enter_inner-success c (fields rq) pid served.cfg.guard_pname served.fds fds app sent
            (subst IsI32 positive (i32_of_bits-IsI32 served.pid))
            (count ∙ ap (λ r. length r.1) same ∙ served.three)
            (got
              ∙ ap (λ r. some (datagram r, some fds))
                  (same ∙ ap (λ k. reply k served.cfg.guard_pname served.fds) positive))
            entered cloned in
        (
          served.cfg,
          (
            told_success rq clean pipe library (ap (λ r. r.err_no) ended)
                ∙ ap (λ e. ok (told to_string_lossy (c_result e))) ended
                ∙ ap
                    (λ n. ok (record {
                      app_pid = bits_of_i32 app;
                      guard_pid = n;
                      guard_pname =
                          to_string_lossy (take_nonzero (to_bytes 16 served.cfg.guard_pname));
                    }))
                    (bits_small pid (subst IsI32 positive (i32_of_bits-IsI32 served.pid))),
            (
              rw
                  (
                    served.after.0.1.0,
                    lookup-insert k (pos pid) served.cfg t,
                    positive,
                    eqb_ℤ_self (pos pid),
                  )
                  refl,
              (
                served.pname,
                (
                  served.past,
                  (
                    subst (λ p. IsStartOf (fresh env p served.pname) served.cfg served.past) params
                        served.start,
                    served.after.1,
                  ),
                ),
              ),
            ),
          ),
        )

    -- From the Rust wrapper to the server's table and back. The request's ids lie between 1 and
    -- 2 ^ 31 - 1, its paths are UTF-8 without a NUL and shorter than 2 ^ 30 bytes, the first three are
    -- not empty, the datagram is one of bytes and has at most 512. A worker that has done nothing yet
    -- gets it from the server's buffer, serves it on 64 bits and returns; its one reply, with a pid that
    -- is not negative, and as many descriptors come to the client. On the client's side the sockets,
    -- the pipe, the child, the descriptors and the start of the application all work. Then the caller
    -- gets the application's pid, the pid of the reply, and a name up to its first NUL. The server's
    -- table has under this pid a configuration with this name, and a first part of the worker's calls
    -- is a complete start of it, for the ids, the three paths and the first sixteen overlay directories
    -- without the empty ones: a guard was cloned and has told success, and its id maps were written.
    pub enter_rocker-served :
        IsId a
        → IsId u
        → IsId g
        → IsText pkg
        → IsText exec
        → IsText home
        → All (λ d. Sendable (some d)) dirs
        → All IsByte (encode (fields (asked a u g pkg exec home dirs)))
        → length (encode (fields (asked a u g pkg exec home dirs))) ≤ buf_siz
        → (s : Machine) (serv_fd : ℕ) (peeraddr : Bytes) (poisoned : Bool) (fds : List ℕ) (pid : ℕ)
          (app : ℤ)
        → Fresh t poisoned s
        → (worker env serv_fd peeraddr 64
            (in_buf (encode (fields (asked a u g pkg exec home dirs))))
            s).0
          ≡ Outcome.ok tt
        → HasPipe host
        → IsLibrary host c run
        → HasAsked c (fields (asked a u g pkg exec home dirs))
        → IsDelivered
            (worker env serv_fd peeraddr 64
              (in_buf (encode (fields (asked a u g pkg exec home dirs))))
              s).1
            c
            fds
            pid
        → all c.setns fds ≡ true
        → c.cloned ≡ some app
        → (cfg : RockerCfg) × ((Wrapper.enter_rocker to_string_lossy run
                (asked a u g pkg exec home dirs)
              ≡ ok (record {
                app_pid = bits_of_i32 app;
                guard_pid = pid;
                guard_pname = to_string_lossy (take_nonzero (to_bytes 16 cfg.guard_pname));
              }))
            × IsListed pid cfg
                (worker env serv_fd peeraddr 64
                  (in_buf (encode (fields (asked a u g pkg exec home dirs))))
                  s).1)
    enter_rocker-served ha hu hg hp he hd hs bytes_only fits s serv_fd peeraddr poisoned fds pid app
          start done pipe library sent delivered entered cloned =
        served_result fds pid app (hp.0.0, (he.0.0, (hd.0.0, clean_dirs dirs hs))) pipe library
          (Triple-result _
            (worker-Triple env t poisoned serv_fd peeraddr _
              (subst (All IsByte)
                (sym (take_all buf_siz (encode (fields (asked a u g pkg exec home dirs))) fits))
                bytes_only)
              (in_buf-small (encode (fields (asked a u g pkg exec home dirs)))))
            s tt start done).1
          (parse_params-c_request a u g pkg exec home dirs ha hu hg hp he hd hs fits).1 sent
          delivered entered cloned
