-- ===== src/Core/Init/Steps.antt =====
-- What each step of a rocker's start does (core/src/master.rs): the messages that it receives, the
-- files that it opens and writes, and the guard that it kills.
use rocker.Prelude.{
  ℕ, ◌≡◌, refl, ap, Bool-cases, ◌==◌, List, [], ◌∷◌, ◌++◌, ◌⊎◌, inl, inr, ℤ, arith,
}
use rocker.Bytes.{Bytes}
use rocker.Bytes.LittleEndian.{i32_of_bytes}
use rocker.Call.{Env, OpenMode, write_only, open_file, recv, Answer, done, failed}
use rocker.Machine.{Machine, ◌>>=◌, pure, check, sys_call}
use rocker.Machine.Keeps.{Triple, Triple-bind, Triple-weaken, Triple-pure, Triple-throw}
use rocker.Machine.Observe.{
  observe, deeds_by, Seen-call_shown, Deed, got, wrote, opened, killed, Deeds,
}
use rocker.Core.Utils.{fill, eagain, kill, recv_timed, or_wait, wait_readable, recv_once}
use rocker.Core.Init.{write_file, recv_i32}

-- The number that a message stands for: what it does not fill of the four bytes is 0.
abbrev pub code : Bytes → ℤ
code msg = i32_of_bytes (fill (0 ∷ 0 ∷ 0 ∷ 0 ∷ []) msg)

module _ (env : Env) where
  pub open-Triple :
      (l : List Deed) (mode : OpenMode) (path : Bytes)
      → Triple
          (Deeds l)
          (do r ← sys_call env (open_file mode path); check r)
          (λ _. Deeds (opened mode path ∷ l))
          (λ _. Deeds l)
          (λ _. ⊥)
  unfolding ◌>>=◌ observe
  open-Triple l mode path = record { at = λ s p. ground arith }

  pub write_file-Triple :
      (l : List Deed) (path text : Bytes)
      → Triple
          (Deeds l)
          (write_file env path text)
          (λ _. Deeds (wrote text ∷ opened write_only path ∷ l))
          (λ _ s. Deeds l s ⊎ Deeds (opened write_only path ∷ l) s)
          (λ _. ⊥)
  unfolding write_file ◌>>=◌ observe
  write_file-Triple l path text = record { at = λ s p. ground arith }

  abbrev Got : List Deed → Bytes → Machine → Type 0
  Got l buf s = (msg : Bytes) × ((buf ≡ fill (0 ∷ 0 ∷ 0 ∷ 0 ∷ []) msg) × Deeds (got msg ∷ l) s)

  waited-Triple :
      (l : List Deed) (fd : ℕ)
      → Triple (Deeds l) (wait_readable env (fd ∷ []) 2) (λ _. Deeds l) (λ _. Deeds l) (λ _. ⊥)
  unfolding wait_readable ◌>>=◌ observe
  waited-Triple l fd = record { at = λ s p. ground arith }

  asked :
      (l : List Deed) (fd : ℕ)
      → Triple
          (Deeds l)
          (sys_call env (recv fd 4))
          (λ r. Deeds (deeds_by (recv fd 4) r ++ l))
          (λ _. Deeds l)
          (λ _. ⊥)
  asked l fd =
      Triple-weaken (Deeds l) _ (λ _ _. ⊥) (λ _. ⊥) _ (Seen-call_shown deeds_by l env (recv fd 4))
        (λ s h. h) (λ r s h. h) (λ e s h. absurd h) (λ s h. h)

  received :
      (l : List Deed) (fd : ℕ) (r : Answer Bytes)
      → Triple
          (Deeds (deeds_by (recv fd 4) r ++ l))
          (do msg ← check r; pure (fill (0 ∷ 0 ∷ 0 ∷ 0 ∷ []) msg))
          (Got l)
          (λ _. Deeds l)
          (λ _. ⊥)
  unfolding check ◌>>=◌
  received l fd (done msg) = record { at = λ s h. (msg, (refl, h)) }
  received l fd (failed e) = record { at = λ s h. h }

  recv_once-Triple :
      (l : List Deed) (fd : ℕ)
      → Triple (Deeds l) (recv_once env fd (0 ∷ 0 ∷ 0 ∷ 0 ∷ [])) (Got l) (λ _. Deeds l) (λ _. ⊥)
  unfolding recv_once
  recv_once-Triple l fd = Triple-bind _ _ _ (asked l fd) (λ r. received l fd r)

  or_wait-Triple :
      (l : List Deed) (fd : ℕ) (r : Answer Bytes)
      → Triple
          (Deeds (deeds_by (recv fd 4) r ++ l))
          (or_wait env fd (0 ∷ 0 ∷ 0 ∷ 0 ∷ []) 2 r)
          (Got l)
          (λ _. Deeds l)
          (λ _. ⊥)
  unfolding or_wait
  or_wait-Triple l fd (done msg) = Triple-pure _ (λ s h. (msg, (refl, h)))
  or_wait-Triple l fd (failed e) = elim (Bool-cases (e == eagain)) [
    | inl again ↦ rw again (Triple-bind _ _ _ (waited-Triple l fd) (λ _. recv_once-Triple l fd))
    | inr other ↦ rw other (Triple-throw _ (λ s h. h))
  ]

  pub recv_i32-Triple :
      (l : List Deed) (fd : ℕ)
      → Triple
          (Deeds l)
          (recv_i32 env fd)
          (λ i s. (msg : Bytes) × ((i ≡ code msg) × Deeds (got msg ∷ l) s))
          (λ _. Deeds l)
          (λ _. ⊥)
  unfolding recv_i32 recv_timed
  recv_i32-Triple l fd =
      Triple-bind _ _ _ (Triple-bind _ _ _ (asked l fd) (λ r. or_wait-Triple l fd r))
        (λ buf. Triple-pure _ (λ s (msg, (e, h)). (msg, (ap i32_of_bytes e, h))))

  pub kill-Triple :
      (l : List Deed) (pid : ℕ)
      → Triple (Deeds l) (kill env pid) (λ _. Deeds (killed pid ∷ l)) (λ _ _. ⊥) (λ _. ⊥)
  unfolding kill ◌>>=◌ observe
  kill-Triple l pid = record { at = λ s p. ground arith }
