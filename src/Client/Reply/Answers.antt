-- ===== src/Client/Reply/Answers.antt =====
-- The server's two replies (rocker_server/src/main.rs, `send_resq`) as the C client reads them
-- (librocker_client/src/lib.c).
use rocker.Prelude.{
  ◌^◌, Bool-cases, Option-cases, inl, inr, ℕ, ◌<◌, ◌≡◌, refl, sym, ap, ◌∙◌, Bool, true, false,
  Option, none, some, List, [], ◌∷◌, ◌++◌, append-nil, length, take, drop, replicate, take-append,
  drop-append, all, arith, ℤ, pos, negsuc,
}
use rocker.Bytes.{Bytes}
use rocker.Bytes.LittleEndian.{
  to_bytes, length-to_bytes, i32_to_bytes, i32_of_bytes-i32_to_bytes, IsI32,
}
use rocker.Core.Utils.{fill}
use rocker.Client.Wire.{RockerRequest, encode, concat_map}
use rocker.Client.Reply.{
  ErrNo, no_error, build_rocker_failed, enter_rocker_failed, app_exec_failed, RockerResult,
  rocker_result_new, System, scatter, enter_ns, exec_app, use_reply, receive_reply, enter_inner,
}
use rocker.Server.Worker.Sending.{reply, refusal}

-- The request has left the client.
abbrev pub HasAsked : System → RockerRequest → Type 0
HasAsked c req = (c.address ≡ true) × ((c.socket ≡ true) × (c.sends (encode req) ≡ true))

-- The bytes of a reply, as one datagram.
abbrev pub datagram : List Bytes × List ℕ → Bytes
datagram r = concat_map (λ b. b) r.0

-- How it ends after a reply with descriptors.
abbrev pub ended_with : Bool → Option ℤ → ErrNo
ended_with false _ = enter_rocker_failed
ended_with true none = app_exec_failed
ended_with true (some pid) = no_error

fill_whole : (buf msg : Bytes) → length buf ≡ length msg → fill buf msg ≡ msg
unfolding fill
fill_whole [] [] h = refl
fill_whole [] (m ∷ msg) h = absurd (omega (arith, h))
fill_whole (b ∷ buf) [] h = absurd (omega (arith, h))
fill_whole (b ∷ buf) (m ∷ msg) h = ap (λ l. m ∷ l) (fill_whole buf msg (omega (arith, h)))

pub length-i32_to_bytes : (i : ℤ) → length (i32_to_bytes i) ≡ 4
unfolding i32_to_bytes
length-i32_to_bytes i = length-to_bytes 4 _

pub take_four : (a b : Bytes) → length a ≡ 4 → take 4 (a ++ b) ≡ a
take_four a b h = ap (λ n. take n (a ++ b)) (sym h) ∙ take-append a b

drop_four : (a b : Bytes) → length a ≡ 4 → drop 4 (a ++ b) ≡ b
drop_four a b h = ap (λ n. drop n (a ++ b)) (sym h) ∙ drop-append a b

scatter-datagram :
    (pid : ℤ) (name : ℕ) (fds : List ℕ)
    → IsI32 pid
    → scatter (datagram (reply pid name fds)) rocker_result_new
      ≡ record rocker_result_new { guard_pid = pid; guard_pname = to_bytes 16 name }
unfolding scatter concat_map rocker_result_new
scatter-datagram pid name fds h =
    rw
      (
        append-nil,
        take_four (i32_to_bytes pid) (to_bytes 16 name) (length-i32_to_bytes pid),
        drop_four (i32_to_bytes pid) (to_bytes 16 name) (length-i32_to_bytes pid),
        fill_whole (i32_to_bytes (negsuc 0)) (i32_to_bytes pid)
            (length-i32_to_bytes (negsuc 0) ∙ sym (length-i32_to_bytes pid)),
        fill_whole (replicate 16 0) (to_bytes 16 name) (sym (length-to_bytes 16 name)),
        i32_of_bytes-i32_to_bytes pid h,
      )
      refl

-- Three descriptors are all that is entered.
enter_ns-three :
    (setns : ℕ → Bool) (fds : List ℕ) → length fds ≡ 3 → enter_ns setns fds ≡ all setns fds
unfolding enter_ns
enter_ns-three setns fds h =
    ap (all setns)
      (ap (λ n. take n (fds ++ replicate 3 0)) (sym h) ∙ take-append fds (replicate 3 0))

use_reply-three :
    (c : System) (fds : List ℕ) (pid : ℕ) (r : RockerResult)
    → length fds ≡ 3
    → r.guard_pid ≡ pos pid
    → r.err_no ≡ no_error
    → ((use_reply c (some fds) r).err_no ≡ ended_with (all c.setns fds) c.cloned)
      × (((use_reply c (some fds) r).guard_pid ≡ pos pid)
          × ((use_reply c (some fds) r).guard_pname ≡ r.guard_pname))
unfolding use_reply exec_app
use_reply-three c fds pid r three own fine = elim (Bool-cases (all c.setns fds)) [
  | inl e ↦ elim (Option-cases c.cloned) [
    | inl n ↦ rw (own, enter_ns-three c.setns fds three, e, n) (refl, (refl, refl))
    | inr (app, n) ↦ rw (own, enter_ns-three c.setns fds three, e, n) (fine, (refl, refl))
  ]
  | inr e ↦ rw (own, enter_ns-three c.setns fds three, e) (refl, (refl, refl))
]

module _ (c : System) (req : RockerRequest) where
  asked : HasAsked c req → enter_inner c req ≡ receive_reply c c.received
  unfolding enter_inner
  asked (a, (b, d)) = rw (a, b, d) refl

  -- The client has asked, and the server replies with a pid below 2 ^ 31, a name and three
  -- descriptors. Then the client's result has this pid and the 16 bytes of this name. It is a success
  -- if every one of the descriptors can be entered and the application can be started, and tells which
  -- of the two failed otherwise.
  pub enter_inner-reply :
      (pid name : ℕ) (fds : List ℕ)
      → HasAsked c req
      → pid < 2 ^ 31
      → length fds ≡ 3
      → c.received ≡ some (datagram (reply (pos pid) name fds), some fds)
      → ((enter_inner c req).err_no ≡ ended_with (all c.setns fds) c.cloned)
        × (((enter_inner c req).guard_pid ≡ pos pid)
            × ((enter_inner c req).guard_pname ≡ to_bytes 16 name))
  unfolding receive_reply rocker_result_new use_reply
  enter_inner-reply pid name fds sent small three got =
      rw (asked sent, got, scatter-datagram (pos pid) name fds small)
        (use_reply-three c fds pid
          (record rocker_result_new { guard_pid = pos pid; guard_pname = to_bytes 16 name }) three
          refl refl)

  -- The result where every step of the client works, too.
  pub enter_inner-success :
      (pid name : ℕ) (own fds : List ℕ) (app : ℤ)
      → HasAsked c req
      → pid < 2 ^ 31
      → length fds ≡ 3
      → c.received ≡ some (datagram (reply (pos pid) name own), some fds)
      → all c.setns fds ≡ true
      → c.cloned ≡ some app
      → enter_inner c req ≡ record {
        err_no = no_error;
        app_pid = app;
        guard_pid = pos pid;
        guard_pname = to_bytes 16 name;
      }
  unfolding receive_reply use_reply exec_app rocker_result_new
  enter_inner-success pid name own fds app sent small three got entered started =
      rw
        (
          asked sent,
          got,
          scatter-datagram (pos pid) name own small,
          enter_ns-three c.setns fds three,
          entered,
          started,
        )
        refl

  -- The client has asked, and the server refuses. Then the client's error is that the rocker could not
  -- be built, with the pid -1 and no name, whatever descriptors the kernel adds.
  pub enter_inner-refusal :
      (fdset : Option (List ℕ))
      → HasAsked c req
      → c.received ≡ some (datagram refusal, fdset)
      → ((enter_inner c req).err_no ≡ build_rocker_failed)
        × (((enter_inner c req).guard_pid ≡ negsuc 0)
            × ((enter_inner c req).guard_pname ≡ replicate 16 0))
  unfolding receive_reply use_reply rocker_result_new to_bytes
  enter_inner-refusal none sent got =
      rw (asked sent, got, scatter-datagram (negsuc 0) 0 [] (omega arith)) (refl, (refl, refl))
  enter_inner-refusal (some fds) sent got =
      rw (asked sent, got, scatter-datagram (negsuc 0) 0 [] (omega arith)) (refl, (refl, refl))
