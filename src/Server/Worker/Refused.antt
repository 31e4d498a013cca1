-- ===== src/Server/Worker/Refused.antt =====
-- What a worker does with a request that it cannot read (rocker_server/src/main.rs).
use rocker.Prelude.{ℕ, ◌≡◌, Bool, [], ◌∷◌}
use rocker.Outcome.{Error, err}
use rocker.Bytes.{Bytes}
use rocker.Config.{ResourceHdr}
use rocker.Call.{Env}
use rocker.Machine.{lift}
use rocker.Machine.Keeps.{Triple, Triple-bind}
use rocker.Server.Request.{parse_params}
use rocker.Server.Worker.{req_parse, worker}
use rocker.Server.Worker.Silent.{Idle, Fresh}
use rocker.Server.Worker.Sending.{refusal, or_refuse-Triple}

module _ (env : Env) (t : ResourceHdr) (b : Bool) where
  unread :
      (req : Bytes) (e : Error)
      → parse_params 64 req ≡ err e
      → Triple
          (Fresh t b)
          (req_parse env 64 req)
          (λ _ _. ⊥)
          (λ _ s. Unit {0} × Idle [] t b s)
          (Idle (refusal ∷ []) t b)
  unfolding req_parse lift
  unread req e h = rw h (
      Triple-bind (λ _ _. ⊥) _ _ (record { at = λ s p. (tt, p.0) })
        (λ p. record { at = λ s x. absurd x }))

  -- A worker that has done nothing yet and cannot read its request tries just the refusal and panics,
  -- with the table as it was.
  pub worker-refuses :
      (serv_fd : ℕ) (peeraddr req : Bytes) (e : Error)
      → parse_params 64 req ≡ err e
      → Triple
          (Fresh t b)
          (worker env serv_fd peeraddr 64 req)
          (λ _ _. ⊥)
          (λ _ _. ⊥)
          (Idle (refusal ∷ []) t b)
  unfolding worker
  worker-refuses serv_fd peeraddr req e h =
      Triple-bind (λ _ _. ⊥) _ _
        (or_refuse-Triple env serv_fd peeraddr t b _ (unread req e h) (λ s _ x. x))
        (λ cfg. record { at = λ s x. absurd x })
