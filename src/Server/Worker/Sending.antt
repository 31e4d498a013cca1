-- ===== src/Server/Worker/Sending.antt =====
-- How a worker ends (rocker_server/src/main.rs): what it replies, and what it enters in the table; and
-- its steps that send, the reply and the refusal of `check!`.
use rocker.Prelude.{
  ℕ, ◌≡◌, ◌≢◌, refl, Bool, true, false, none, some, List, [], ◌∷◌, length, ℤ, negsuc, arith,
}
use rocker.Outcome.{Outcome, ok, err, panic, pending, Gives}
use rocker.Bytes.{Bytes}
use rocker.Bytes.LittleEndian.{to_bytes, i32_to_bytes, i32_of_bits}
use rocker.Config.{RockerCfg, ResourceHdr, lookup, insert}
use rocker.Call.{Env, Call, Event, close, sendmsg}
use rocker.Machine.{Machine, M, ◌>>=◌, lift, sys_call, check, on_error, info}
use rocker.Machine.Keeps.{
  Triple, Triple-and, Triple-bind, Triple-given, Triple-on_error, Triple-weaken, Triple-pure,
  Triple-pdie, Safe, Keeps, Keeps-check, Triple-info,
}
use rocker.Machine.Observe.{observe, deeds_by}
use rocker.Core.Setup.{Params, fresh}
use rocker.Core.Init.Story.{Confused}
use rocker.Server.Request.{parse_params}
use rocker.Server.Worker.{send_resq, close_all, send_back, or_refuse}
use rocker.Server.Worker.Evidence.{IsStartOf, Extends-call}
use rocker.Server.Worker.Silent.{Idle, After}

-- The bytes and descriptors of a reply.
abbrev pub reply : ℤ → ℕ → List ℕ → List Bytes × List ℕ
reply pid name fds = (i32_to_bytes pid ∷ to_bytes 16 name ∷ [], fds)

abbrev pub refusal : List Bytes × List ℕ
refusal = reply (negsuc 0) 0 []

-- The request was read as parameters. A first part of the calls, `past`, is a complete start of a
-- rocker for them, before any reply. The configuration that came of it, whose pid was not in the table
-- `t`, was entered there under this pid. One reply was tried, after the start, with that pid, the
-- guard's name in the configuration and three descriptors.
pub record IsServed (env : Env) (req : Bytes) (t : ResourceHdr) (s : Machine) : Type 0 where
  pub params : Params
  pub read : parse_params 64 req ≡ Outcome.ok params
  pub pname : ℕ
  pub cfg : RockerCfg
  pub past : List Event
  pub start : IsStartOf (fresh env params pname) cfg past
  pub pid : ℕ
  pub own_pid : cfg.guard_pid ≡ some pid
  pub fds : List ℕ
  pub three : length fds ≡ 3
  pub absent : lookup (i32_of_bits pid) t ≡ none
  pub after :
      After past
        (reply (i32_of_bits pid) cfg.guard_pname fds ∷ [])
        (insert (i32_of_bits pid) cfg t)
        false
        s

-- How a worker panics, from the table `t` and a lock that is poisoned or not. It tried no reply, since
-- the guard sent an unknown number, or since the lock was poisoned; it tried to refuse, with the table
-- as it was, or with an old entry replaced; or it tried the full reply and could not send it.
pub data Aborted (env : Env) (req : Bytes) (t : ResourceHdr) (b : Bool) (s : Machine) : Type 0 where
  confused : Idle [] t b s → Confused (observe deeds_by s.trace) → Aborted env req t b s
  locked_out : b ≡ true → Idle [] t b s → Aborted env req t b s
  refused : Idle (refusal ∷ []) t b s → Aborted env req t b s
  replaced :
      (pid : ℤ) (cfg : RockerCfg)
      → b ≡ false
      → lookup pid t ≢ none
      → Idle (refusal ∷ []) (insert pid cfg t) false s
      → Aborted env req t b s
  unsent : b ≡ false → IsServed env req t s → Aborted env req t b s

module _ (env : Env) (serv_fd : ℕ) (peeraddr : Bytes) where
  -- A reply and closing are calls, and whatever all calls keep, they keep.
  module _ {P : Machine → Type 0} (keeps : (c : Call) → Safe P (sys_call env c)) where
    Keeps-send_back :
        (pid : ℤ) (name : ℕ) (fds : List ℕ) → Keeps P (send_back env serv_fd peeraddr pid name fds)
    unfolding send_back send_resq
    Keeps-send_back pid name fds =
        Triple-on_error (λ _. P) _ _
          (Triple-bind (λ _. P) _ _
            (Triple-weaken _ _ _ _ _ (keeps (sendmsg serv_fd _ fds peeraddr)) (λ s h. h)
              (λ a s h. h) (λ e s h. h) (λ s h. absurd h))
            (λ r. Triple-bind (λ _. P) _ _ (Keeps-check r) (λ _. Triple-pure tt (λ s h. h))))
          (λ e. Triple-pdie (λ s h. h))

    Safe-close_all : (fds : List ℕ) → Triple P (close_all env fds) (λ _. P) (λ _ _. ⊥) (λ _. ⊥)
    unfolding close_all
    Safe-close_all [] = Triple-pure tt (λ s h. h)
    Safe-close_all (fd ∷ fds) =
        Triple-bind (λ _. P) _ _
          (Triple-info _
            (Triple-bind (λ _. P) _ _ (keeps (close fd)) (λ r. Keeps-check {R = λ _. ⊥} r)))
          (λ _. Safe-close_all fds)

  pub send_back-Triple :
      (t : ResourceHdr) (b : Bool) (pid : ℤ) (name : ℕ) (fds : List ℕ)
      → Triple
          (Idle [] t b)
          (send_back env serv_fd peeraddr pid name fds)
          (λ _. Idle (reply pid name fds ∷ []) t b)
          (λ _ _. ⊥)
          (Idle (reply pid name fds ∷ []) t b)
  unfolding send_back send_resq on_error ◌>>=◌ observe
  send_back-Triple t b pid name fds = record { at = λ s p. ground arith }

  -- On an error the client is refused and the worker panics.
  pub or_refuse-Triple :
      {A F : Type 0} {P R : Machine → Type 0} {Q : A → Machine → Type 0} (t : ResourceHdr)
      (b : Bool) (ops : M A)
      → Triple P ops Q (λ _ s. F × Idle [] t b s) R
      → ((s : Machine) → F → Idle (refusal ∷ []) t b s → R s)
      → Triple P (or_refuse env serv_fd peeraddr ops) Q (λ _ _. ⊥) R
  unfolding or_refuse
  or_refuse-Triple {A} {F} {P} {R} {Q} t b ops h r =
      Triple-on_error (λ _ s. F × Idle [] t b s) ops _ h
        (λ e. Triple-given _ (λ f.
          Triple-bind (λ _. Idle (refusal ∷ []) t b) _ _
            (Triple-weaken _ _ _ _ _ (send_back-Triple t b (negsuc 0) 0 []) (λ s h. h) (λ a s h. h)
              (λ e s h. absurd h) (λ s h. r s f h))
            (λ _. Triple-pdie (λ s h. r s f h))))

  pub send_back-After :
      (past : List Event) (t : ResourceHdr) (b : Bool) (pid : ℤ) (name : ℕ) (fds : List ℕ)
      → Triple
          (After past [] t b)
          (send_back env serv_fd peeraddr pid name fds)
          (λ _. After past (reply pid name fds ∷ []) t b)
          (λ _ _. ⊥)
          (After past (reply pid name fds ∷ []) t b)
  send_back-After past t b pid name fds =
      Triple-weaken _ _ _ _ _
        (Triple-and _ (send_back-Triple t b pid name fds)
          (Keeps-send_back (λ c. Extends-call past env c) pid name fds))
        (λ s h. h) (λ a s h. h) (λ e s h. h.0) (λ s h. h)

  closing_one :
      (l : List (List Bytes × List ℕ)) (t : ResourceHdr) (b : Bool) (fd : ℕ)
      → Triple
          (Idle l t b)
          (info (do r ← sys_call env (close fd); check r))
          (λ _. Idle l t b)
          (λ _ _. ⊥)
          (λ _. ⊥)
  unfolding info ◌>>=◌ observe
  closing_one l t b fd = record { at = λ s p. ground arith }

  closing :
      (l : List (List Bytes × List ℕ)) (t : ResourceHdr) (b : Bool) (fds : List ℕ)
      → Triple (Idle l t b) (close_all env fds) (λ _. Idle l t b) (λ _ _. ⊥) (λ _. ⊥)
  unfolding close_all
  closing l t b [] = Triple-pure tt (λ s h. h)
  closing l t b (fd ∷ fds) =
      Triple-bind (λ _. Idle l t b) _ _ (closing_one l t b fd) (λ _. closing l t b fds)

  pub closing-After :
      (past : List Event) (l : List (List Bytes × List ℕ)) (t : ResourceHdr) (b : Bool)
      (fds : List ℕ)
      → Triple (After past l t b) (close_all env fds) (λ _. After past l t b) (λ _ _. ⊥) (λ _. ⊥)
  closing-After past l t b fds =
      Triple-weaken _ _ _ _ _
        (Triple-and _ (closing l t b fds) (Safe-close_all (λ c. Extends-call past env c) fds))
        (λ s h. h) (λ a s h. h) (λ e s h. h.0) (λ s h. h.0)

  pub lifted :
      {A : Type 0} {S : Machine → Type 0} (W : A → Type 0) (r : Outcome A)
      → Gives W r
      → Triple S (lift r) (λ a s. (r ≡ Outcome.ok a) × S s) (λ _. S) (λ _. ⊥)
  unfolding lift
  lifted W (ok a) g = record { at = λ s h. (refl, h) }
  lifted W (err e) g = record { at = λ s h. h }
  lifted W panic g = absurd g
  lifted W pending g = absurd g
