-- ===== src/Server/History/LockedOut.antt =====
-- What a panic of the reaper does to the workers after it (rocker_server/src/main.rs).
use rocker.Prelude.{
  ℕ, ◌≡◌, refl, true, false, List, [], ◌∷◌, ◌⊎◌, inl, inr, length, All, ◌<◌, ◌^◌, ℤ,
}
use rocker.Outcome.{Outcome, ok, err, panic, pending}
use rocker.Bytes.{Bytes, IsByte}
use rocker.Config.{ResourceHdr}
use rocker.Call.{Env}
use rocker.Machine.{Machine}
use rocker.Machine.Keeps.{Ends, Triple, Triple-panics, Triple-weaken}
use rocker.Machine.Observe.{observe}
use rocker.Server.Reaper.{reap}
use rocker.Server.Reaper.Table.{HasLost, reap-Triple}
use rocker.Server.Worker.{worker}
use rocker.Server.Worker.Silent.{Idle, Fresh}
use rocker.Server.Worker.Sending.{refusal, Aborted, confused, locked_out, refused, replaced, unsent}
use rocker.Server.Worker.Replies.{worker-Triple}

-- The machine as another thread finds it: its own calls are still to come.
abbrev pub next_thread : Machine → Machine
next_thread s = record s { trace = [] }

-- No reply or the refusal was tried, the table is `t` and the lock is poisoned.
abbrev pub IsLockedOut : ResourceHdr → Machine → Type 0
IsLockedOut t s = Idle [] t true s ⊎ Idle (refusal ∷ []) t true s

aborted-IsLockedOut :
    (env : Env) (req : Bytes) (t : ResourceHdr) (s : Machine)
    → Aborted env req t true s
    → IsLockedOut t s
aborted-IsLockedOut env req t s (confused h _) = inl h
aborted-IsLockedOut env req t s (locked_out _ h) = inl h
aborted-IsLockedOut env req t s (refused h) = inr h
aborted-IsLockedOut env req t s (replaced pid cfg e _ h) = cc e
aborted-IsLockedOut env req t s (unsent e h) = cc e

poisoned_by_panic :
    (env : Env) (pid : ℤ) (s : Machine)
    → s.lock_poisoned ≡ false
    → (reap env pid s).0 ≡ panic
    → (reap env pid s).1.lock_poisoned ≡ true
poisoned_by_panic env pid s h p =
    ended (reap env pid s).0 (reap env pid s).1 p ((reap-Triple env pid s.resource).at s (refl, h))
  where
    ended :
        (o : Outcome (Unit {0})) (u : Machine)
        → o ≡ panic
        → Ends
            (λ _ u. HasLost pid s.resource u × (u.lock_poisoned ≡ false))
            (λ _ _. ⊥)
            (λ u. HasLost pid s.resource u × (u.lock_poisoned ≡ true))
            o
            u
        → u.lock_poisoned ≡ true
    ended (ok a) u e h = cc e
    ended (err x) u e h = cc e
    ended panic u e h = h.1
    ended pending u e h = cc e

-- A job of the pool: the socket, the client's address and the datagram, with how the system answers
-- the calls of the worker that gets it.
pub record Visit : Type 0 where
  pub env : Env
  pub serv_fd : ℕ
  pub peeraddr : Bytes
  pub req : Bytes

abbrev pub IsVisit : Visit → Type 0
IsVisit v = All IsByte v.req × (length v.req < 2 ^ 63)

-- Workers one after another, each with no calls made at its start.
abbrev pub run_workers : List Visit → Machine → Machine
run_workers [] s = s
run_workers (v ∷ vs) s =
    run_workers vs (worker v.env v.serv_fd v.peeraddr 64 v.req (next_thread s)).1

abbrev IsLocked : ResourceHdr → Machine → Type 0
IsLocked t s = (s.resource ≡ t) × (s.lock_poisoned ≡ true)

locked_out_lem :
    (t : ResourceHdr) (v : Visit) (s : Machine)
    → IsVisit v
    → IsLocked t s
    → Triple
        (λ u. u ≡ next_thread s)
        (worker v.env v.serv_fd v.peeraddr 64 v.req)
        (λ _ _. ⊥)
        (λ _ _. ⊥)
        (IsLockedOut t)
unfolding observe
locked_out_lem t v s (bytes_only, small) h =
    Triple-weaken (Fresh t true) _ _ _ _
      (worker-Triple v.env t true v.serv_fd v.peeraddr v.req bytes_only small)
      (λ u e. rw e ((refl, h), refl)) (λ a u h. cc h.0) (λ e u h. h)
      (λ u h. aborted-IsLockedOut v.env v.req t u h)

run_workers-IsLocked :
    (t : ResourceHdr) (vs : List Visit) (s : Machine)
    → All IsVisit vs
    → IsLocked t s
    → IsLocked t (run_workers vs s)
run_workers-IsLocked t [] s visits h = h
run_workers-IsLocked t (v ∷ vs) s (visit, visits) h =
    run_workers-IsLocked t vs _ visits
      (elim (Triple-panics _ (locked_out_lem t v s visit h) (next_thread s) refl) [
        | inl h ↦ h.1
        | inr h ↦ h.1
      ])

-- Once a release has panicked in the reaper, no worker after it serves a request, however many have run
-- since, one after another: on every datagram of less than 2 ^ 63 bytes each one panics, with no reply
-- tried or just the refusal, and the table does not change. The lock was not poisoned before the panic,
-- and a usize has 64 bits.
pub worker-IsLockedOut :
    (env : Env) (pid : ℤ) (s : Machine) (before : List Visit) (v : Visit)
    → s.lock_poisoned ≡ false
    → (reap env pid s).0 ≡ panic
    → All IsVisit before
    → IsVisit v
    → Triple
        (λ u. u ≡ next_thread (run_workers before (reap env pid s).1))
        (worker v.env v.serv_fd v.peeraddr 64 v.req)
        (λ _ _. ⊥)
        (λ _ _. ⊥)
        (IsLockedOut (reap env pid s).1.resource)
worker-IsLockedOut env pid s before v free died visits visit =
    locked_out_lem (reap env pid s).1.resource v (run_workers before (reap env pid s).1) visit (
      run_workers-IsLocked (reap env pid s).1.resource before (reap env pid s).1 visits
        (refl, poisoned_by_panic env pid s free died))
