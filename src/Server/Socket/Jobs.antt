-- ===== src/Server/Socket/Jobs.antt =====
-- The serving loop (rocker_server/src/main.rs, `uau_serve`, `main`): which jobs the pool gets.
use rocker.Prelude.{
  sym, ◌∙◌, ◌<◌, ℕ, zero, suc, ◌+◌, ◌≡◌, refl, List, [], ◌∷◌, ◌++◌, length, length-append, arith,
}
use rocker.Machine.Keeps.{
  keeps_rules, Keeps-check, Keeps-bind, Triple-pdie, Stays, Triple-on_error, Triple, Triple-bind,
  Triple-pure, Triple-call, Triple-weaken,
}
use rocker.Machine.Observe.{Seen-call, View, Seen, observe}
use mathlib.Core.List.{reverse, reverse-append}
use rocker.Bytes.{Bytes}
use rocker.Outcome.{Outcome, sys, err, pending}
use rocker.Call.{Env, Answer, done, failed, recvfrom, socket_unix_datagram}
use rocker.Machine.{pure}
use rocker.Server.Socket.{Job, gen_server_socket, uau_serve, main}

-- A datagram that was received, as the job of answering it.
abbrev pub served_by : View Job
served_by (recvfrom fd len) (done (msg, from)) = record { req = msg; peeraddr = from } ∷ []
served_by _ _ = []

-- How the loop ends after `rounds` rounds at most, which have added jobs to `old`: at the first
-- failure to receive, with its error, or not at all, with one job more for each round.
pub data Stopped (rounds : ℕ) (old jobs : List Job) (o : Outcome (Unit {0})) : Type 0 where
  broken : (e : ℕ) → o ≡ err (sys e) → length jobs < length old + rounds → Stopped rounds old jobs o
  serving : o ≡ pending → length jobs ≡ length old + rounds → Stopped rounds old jobs o

module _ (env : Env) where
  one_more :
      (rounds : ℕ) (old jobs : List Job) (j : Job) (o : Outcome (Unit {0}))
      → Stopped rounds (old ++ j ∷ []) jobs o
      → Stopped (suc rounds) old jobs o
  one_more rounds old jobs j o (broken e h n) =
      broken e h (omega (arith, length-append old (j ∷ []), n))
  one_more rounds old jobs j o (serving h n) =
      serving h (omega (arith, length-append old (j ∷ []), n))

  -- The loop adds one job for each datagram, in their order.
  abbrev Serves : ℕ → ℕ → List Job → Type 0
  Serves rounds fd old =
      Triple (Seen served_by (reverse old)) (uau_serve env rounds fd old)
        (λ (o, jobs) s. Seen served_by (reverse jobs) s × Stopped rounds old jobs o) (λ _ _. ⊥)
        (λ _. ⊥)

  received-Serves :
      (rounds fd : ℕ) (old : List Job)
      → ((now : List Job) → Serves rounds fd now)
      → (r : Answer (Bytes × Bytes))
      → Triple
          (Seen served_by (served_by (recvfrom fd 512) r ++ reverse old))
          (elim r [
            | done (msg, from) ↦
                uau_serve env rounds fd (old ++ record { req = msg; peeraddr = from } ∷ [])
            | failed e ↦ pure (err (sys e), old)
          ])
          (λ (o, jobs) s. Seen served_by (reverse jobs) s × Stopped (suc rounds) old jobs o)
          (λ _ _. ⊥)
          (λ _. ⊥)
  received-Serves rounds fd old later (done (msg, from)) =
      let j : Job = record { req = msg; peeraddr = from } in
      Triple-weaken _ _ _ _ _ (later (old ++ j ∷ [])) (λ s h. h ∙ sym (reverse-append old (j ∷ [])))
        (λ (o, jobs) s (h, stop). (h, one_more rounds old jobs j o stop)) (λ e s h. h) (λ s h. h)
  received-Serves rounds fd old later (failed e) =
      Triple-pure _ (λ s h. (h, broken e refl (omega arith)))

  uau_serve-Serves : (rounds fd : ℕ) (old : List Job) → Serves rounds fd old
  unfolding uau_serve observe
  uau_serve-Serves zero fd old = Triple-pure _ (λ s h. (h, serving refl (omega arith)))
  uau_serve-Serves (suc rounds) fd old =
      Triple-bind (λ r. Seen served_by (served_by (recvfrom fd 512) r ++ reverse old)) _ _
        (Triple-call env (recvfrom fd 512) (λ s h. rw h refl))
        (received-Serves rounds fd old (uau_serve-Serves rounds fd))

  socket_quiet : Stays (Seen served_by []) (λ _. ⊥) (gen_server_socket env)
  unfolding gen_server_socket
  socket_quiet =
      Keeps-bind _ _ (Seen-call served_by [] env socket_unix_datagram (λ _. refl))
        (λ r. Keeps-bind _ _ (Keeps-check r) (λ fd. search (keeps_rules, Seen-call) depth 20))

  -- From no datagram received, the server's `main` ends in one of these ways, within any number of
  -- rounds of its loop and whatever the system answers. It panics before it has received any datagram.
  -- Or the pool has got one job for each datagram that was received, in their order and with its
  -- sender; then either the loop has ended, at the first failure to receive and with its error, or it
  -- has gone on for all the rounds and received a datagram in each.
  pub main-Triple :
      (rounds : ℕ)
      → Triple
          (Seen served_by [])
          (main env rounds)
          (λ (o, jobs) s. Seen served_by (reverse jobs) s × Stopped rounds [] jobs o)
          (λ _ _. ⊥)
          (Seen served_by [])
  unfolding main
  main-Triple rounds =
      Triple-bind (λ _. Seen served_by []) _ _
        (Triple-on_error (λ _. Seen served_by []) _ _
          (Triple-weaken _ _ _ _ _ socket_quiet (λ s h. h) (λ a s h. h) (λ e s h. h)
            (λ s h. absurd h))
          (λ e. Triple-pdie (λ s h. h)))
        (λ fd.
          Triple-weaken _ _ _ _ _ (uau_serve-Serves rounds fd []) (λ s h. h) (λ a s h. h)
            (λ e s h. h) (λ s h. absurd h))
