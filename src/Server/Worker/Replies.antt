-- ===== src/Server/Worker/Replies.antt =====
use rocker.Server.Worker.{
  registe_resource, init, req_parse, close_all, send_back, or_refuse, worker,
}
use mathlib.Core.Path.{subst}
-- How a worker ends (rocker_server/src/main.rs): what it replies, and what it enters in the table.
use rocker.Prelude.{
  ℕ, ◌≡◌, ◌≢◌, Bool, true, false, none, some, List, [], ◌∷◌, length, All, ◌<◌, ◌^◌,
}
use rocker.Outcome.{Outcome}
use rocker.Bytes.{Bytes, IsByte}
use rocker.Bytes.LittleEndian.{i32_of_bits}
use rocker.Config.{RockerCfg, ResourceHdr, lookup, insert}
use rocker.Call.{Env, Call, Event}
use rocker.Machine.{Machine, M, ◌>>◌, sys_call}
use rocker.Machine.Keeps.{Safe, Triple, Triple-and, Triple-bind, Triple-given, Triple-weaken}
use rocker.Core.Setup.{Params, fresh}
use rocker.Core.Init.Quiet.{is_silent, get_guard_pid-Triple, get_namespace_fds-Triple}
use rocker.Server.Request.{parse_params}
use rocker.Server.Request.Total.{WellFormed, parse_params-WellFormed}
use rocker.Server.Worker.Silent.{Idle, Fresh, After, Idle-silent, Fresh-new, init-Triple}
use rocker.Server.Worker.Evidence.{IsStartOf, Extends-call}
use rocker.Server.Worker.Entering.{registe_resource-Triple}
use rocker.Server.Worker.Sending.{
  reply, refusal, IsServed, Aborted, confused, locked_out, refused, replaced, unsent,
  or_refuse-Triple, send_back-After, closing-After, lifted,
}

module _ (env : Env) (t : ResourceHdr) (b : Bool) (serv_fd : ℕ) (peeraddr : Bytes)
    (req : Bytes) where
  -- A configuration that was made for the request.
  abbrev IsParsed : RockerCfg → Type 0
  IsParsed cfg =
      (p : Params) × ((parse_params 64 req ≡ Outcome.ok p) × ((n : ℕ) × (cfg ≡ fresh env p n)))

  -- A configuration whose rocker was started for the request, by the calls of `past`.
  abbrev IsRunning : RockerCfg → List Event → Type 0
  IsRunning cfg past =
      (p : Params) × ((parse_params 64 req ≡ Outcome.ok p)
        × ((n : ℕ) × IsStartOf (fresh env p n) cfg past))

  parsed :
      All IsByte req
      → length req < 2 ^ 63
      → Triple
          (Fresh t b)
          (req_parse env 64 req)
          (λ cfg s. IsParsed cfg × Fresh t b s)
          (λ _ s. Unit {0} × Idle [] t b s)
          (Aborted env req t b)
  unfolding req_parse
  parsed bytes_only small =
      Triple-weaken _ _ _ _ _
        (Triple-bind _ _ _
          (lifted env serv_fd peeraddr WellFormed _ (parse_params-WellFormed req bytes_only small))
          (λ p. Triple-given _ (λ e.
            Triple-weaken _ _ _ _ _ (Fresh-new env 64 p) (λ s h. h)
              (λ cfg s (n, h). ((p, (e, n)), h)) (λ e s h. h) (λ s h. h))))
        (λ s h. h) (λ a s h. h) (λ e s h. (tt, h.0)) (λ s h. absurd h)

  started :
      (cfg : RockerCfg)
      → IsParsed cfg
      → Triple
          (Fresh t b)
          (init env cfg)
          (λ cfg' s. (past : List Event) × (IsRunning cfg' past × After past [] t b s))
          (λ _ s. Unit {0} × Idle [] t b s)
          (Aborted env req t b)
  started cfg (p, (e, (n, same))) =
      Triple-weaken _ _ _ _ _ (init-Triple env cfg) (λ s h. h)
        (λ cfg' s (past, (st, h)).
          (past, ((p, (e, (n, subst (λ c. IsStartOf c cfg' past) same st))), h)))
        (λ x s h. (tt, h)) (λ s (h, c). confused h c)

  -- The reply, and the descriptors closed.
  answering :
      (past : List Event) (cfg : RockerCfg) (pid : ℕ) (fds : List ℕ)
      → b ≡ false
      → IsRunning cfg past
      → cfg.guard_pid ≡ some pid
      → length fds ≡ 3
      → lookup (i32_of_bits pid) t ≡ none
      → Triple
          (After past [] (insert (i32_of_bits pid) cfg t) false)
          (do
            send_back env serv_fd peeraddr (i32_of_bits pid) cfg.guard_pname fds
            close_all env fds)
          (λ _ s. (b ≡ false) × IsServed env req t s)
          (λ _ _. ⊥)
          (Aborted env req t b)
  answering past cfg pid fds unlocked run own three absent =
      Triple-bind
        (λ _.
          After past (reply (i32_of_bits pid) cfg.guard_pname fds ∷ [])
            (insert (i32_of_bits pid) cfg t) false)
        _ _
        (Triple-weaken _ _ _ _ _
          (send_back-After env serv_fd peeraddr past (insert (i32_of_bits pid) cfg t) false
            (i32_of_bits pid) cfg.guard_pname fds)
          (λ s h. h) (λ a s h. h) (λ e s h. h) (λ s h. unsent unlocked (served s h)))
        (λ _.
          Triple-weaken _ _ _ _ _
            (closing-After env serv_fd peeraddr past _ (insert (i32_of_bits pid) cfg t) false fds)
            (λ s h. h) (λ a s h. (unlocked, served s h)) (λ e s h. h) (λ s h. absurd h))
    where
      served :
          (s : Machine)
          → After past
              (reply (i32_of_bits pid) cfg.guard_pname fds ∷ [])
              (insert (i32_of_bits pid) cfg t)
              false
              s
          → IsServed env req t s
      served s h = record {
        params = run.0;
        read = run.1.0;
        pname = run.1.1.0;
        cfg = cfg;
        past = past;
        start = run.1.1.1;
        pid = pid;
        own_pid = own;
        fds = fds;
        three = three;
        absent = absent;
        after = h;
      }

  refuse :
      {A F : Type 0} {P R : Machine → Type 0} {Q : A → Machine → Type 0} (t' : ResourceHdr)
      (b' : Bool) {ops : M A}
      → Triple P ops Q (λ _ s. F × Idle [] t' b' s) R
      → ((s : Machine) → F → Idle (refusal ∷ []) t' b' s → R s)
      → Triple P (or_refuse env serv_fd peeraddr ops) Q (λ _ _. ⊥) R
  refuse t' b' {ops} h r = or_refuse-Triple env serv_fd peeraddr t' b' ops h r

  -- Code after the start that calls only what sends nothing.
  module _ (past : List Event) where
    quiet : (c : Call) → is_silent c ≡ true → Safe (After past [] t b) (sys_call env c)
    quiet c h =
        Triple-weaken _ _ _ _ _ (Triple-and _ (Idle-silent env c h) (Extends-call past env c))
          (λ s h. h) (λ a s h. h) (λ e s h. h) (λ s h. h.0)

    safe :
        {A : Type 0} {Q : A → Machine → Type 0} {ops : M A}
        → Triple (After past [] t b) ops Q (λ _. After past [] t b) (λ _. ⊥)
        → Triple (After past [] t b) ops Q (λ _ s. Unit {0} × Idle [] t b s) (Aborted env req t b)
    safe h =
        Triple-weaken _ _ _ _ _ h (λ s h. h) (λ a s h. h) (λ e s h. (tt, h.0)) (λ s h. absurd h)

    entering :
        (cfg : RockerCfg) (pid : ℕ)
        → Triple
            (After past [] t b)
            (registe_resource cfg (i32_of_bits pid))
            (λ _ s.
              (b ≡ false)
              × ((lookup (i32_of_bits pid) t ≡ none)
                  × After past [] (insert (i32_of_bits pid) cfg t) false s))
            (λ _ s.
              ((b ≡ false) × (lookup (i32_of_bits pid) t ≢ none))
              × Idle [] (insert (i32_of_bits pid) cfg t) false s)
            (Aborted env req t b)
    entering cfg pid =
        Triple-weaken _ _ _ _ _ (registe_resource-Triple past t b cfg (i32_of_bits pid)) (λ s h. h)
          (λ a s h. h) (λ e s (n, h). (n, h.0)) (λ s (p, h). locked_out p h)

  -- A worker with 64 bits in a usize, on a datagram of less than 2 ^ 63 bytes, with nothing done yet,
  -- the table `t` and the lock poisoned if `b`, ends in one of these ways. If it returns, then the
  -- lock was not poisoned, and a first part of the worker's calls is a complete start of a rocker for
  -- the parameters that the request holds: a guard was cloned, its two messages came, the second one
  -- success, and its uid map and gid map were written. Its configuration is entered in the table under
  -- the guard's pid, which was free, and exactly one reply was tried, after the start, with this pid,
  -- the name in the configuration and three descriptors. If it panics, then it tried no
  -- reply, because the guard sent an unknown number or because the lock was poisoned, and the table is
  -- as it was; or it tried just the refusal, and the table is as it was or an old entry of the pid is
  -- replaced; or it tried just the full reply. It returns no error, and it always ends.
  pub worker-Triple :
      All IsByte req
      → length req < 2 ^ 63
      → Triple
          (Fresh t b)
          (worker env serv_fd peeraddr 64 req)
          (λ _ s. (b ≡ false) × IsServed env req t s)
          (λ _ _. ⊥)
          (Aborted env req t b)
  unfolding worker
  worker-Triple bytes_only small =
      Triple-bind _ _ _ (refuse t b (parsed bytes_only small) (λ s _ h. refused h)) (λ cfg.
        Triple-given _ (λ p.
          Triple-bind _ _ _ (refuse t b (started cfg p) (λ s _ h. refused h)) (λ cfg'.
            Triple-given _ (λ past. Triple-given _ (λ run.
              Triple-bind _ _ _
                (refuse t b (safe past (get_guard_pid-Triple env (λ c h. quiet past c h) cfg'))
                  (λ s _ h. refused h))
                (λ pid. Triple-given _ (λ own.
                  Triple-bind _ _ _
                    (refuse t b
                      (safe past (get_namespace_fds-Triple env (λ c h. quiet past c h) cfg'))
                      (λ s _ h. refused h))
                    (λ fds. Triple-given _ (λ three.
                      Triple-bind _ _ _
                        (refuse (insert (i32_of_bits pid) cfg' t) false (entering past cfg' pid)
                          (λ s (unlocked, old) h. replaced (i32_of_bits pid) cfg' unlocked old h))
                        (λ _. Triple-given _ (λ unlocked. Triple-given _ (λ absent.
                          answering past cfg' pid fds unlocked run own three absent))))))))))))
