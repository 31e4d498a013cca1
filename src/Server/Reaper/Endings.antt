-- ===== src/Server/Reaper/Endings.antt =====
-- The thread that waits for guards to end (rocker_server/src/main.rs, `resource_worker`), over any
-- number of rounds.
use rocker.Server.Reaper.{echild, reap, handle_status, resource_worker}
use rocker.Prelude.{
  ◌++◌, ℕ, zero, suc, ◌≡◌, refl, ◌∙◌, Bool, true, false, Bool-cases, inl, inr, if◌then◌else◌,
  Option, none, some, List, [], ◌∷◌, ℤ, ◌==◌,
}
use rocker.Call.{
  close, ioctl_write_int, ioctl_none, open_file, Env, Call, Answer, done, failed, wait, sleep,
}
use rocker.Config.{ResourceHdr, eqb_ℤ, lookup}
use rocker.Machine.{Machine, M, Lazy, unused, held, poisoned, sys_call, locked}
use rocker.Machine.Keeps.{
  Triple, Triple-locked, Triple-and, Triple-call, Triple-weaken, Triple-pure, Keeps,
}
use rocker.Machine.Endless.{Endless, Endless-bind, Endless-pending}
use rocker.Machine.Observe.{View, observe, Seen, Seen-call}
use rocker.Core.Utils.{sleep_secs}
use rocker.Core.Loop.{keep_loop_master, poison_loop_master}
use rocker.Server.Reaper.Quiet.{is_release, release_old-Triple}
use rocker.Server.Reaper.Table.{HasTable, HasLost, reap-Triple}

-- The pids of the guards whose end `wait` has told, newest first.
abbrev pub ended_by : View ℤ
ended_by wait (done (some pid)) = pid ∷ []
ended_by _ _ = []

abbrev pub reported : ℤ → List ℤ → Bool
reported q [] = false
reported q (pid ∷ pids) = if eqb_ℤ pid q then true else reported q pids

-- The table `t` without the entries of the guards that have ended.
abbrev pub Cleared : ResourceHdr → Machine → Type 0
Cleared t s =
    (q : ℤ)
    → lookup q s.resource ≡ (if reported q (observe ended_by s.trace) then none else lookup q t)

-- The reaper waits for no child while it takes an entry out.
module _ (env : Env) (l : List ℤ) where
  abbrev Unasked : Machine → Type 0
  Unasked = Seen ended_by l

  Unasked-keep : (fd : ℕ) → Keeps Unasked (keep_loop_master fd)
  unfolding keep_loop_master rocker.Machine.pure
  Unasked-keep fd = record { at = λ s h. h }

  Unasked-poison : Keeps Unasked poison_loop_master
  unfolding poison_loop_master rocker.Machine.pure
  Unasked-poison = record { at = λ s h. h }

  Unasked-call : (c : Call) → is_release c ≡ true → Keeps Unasked (sys_call env c)
  Unasked-call (open_file m path) h = Seen-call ended_by l env (open_file m path) (λ _. refl)
  Unasked-call (ioctl_none fd n) h = Seen-call ended_by l env (ioctl_none fd n) (λ _. refl)
  Unasked-call (ioctl_write_int fd n i) h =
      Seen-call ended_by l env (ioctl_write_int fd n i) (λ _. refl)
  Unasked-call (close fd) h = Seen-call ended_by l env (close fd) (λ _. refl)
  Unasked-call (sleep n) h = Seen-call ended_by l env (sleep n) (λ _. refl)
  Unasked-call c h = cc h

  Unasked-reap : (pid : ℤ) → Triple Unasked (reap env pid) (λ _. Unasked) (λ _ _. ⊥) Unasked
  unfolding reap
  Unasked-reap pid =
      Triple-locked _
        (record {
          at = λ s (h, _).
              (release_old-Triple env Unasked-call Unasked-keep Unasked-poison
                  (lookup pid s.resource)).at
                _ h;
        })
        (λ s h e. h)

-- `Cleared`, for the pids that are given, and a lock that is not poisoned.
abbrev ClearedOf : ResourceHdr → List ℤ → Machine → Type 0
ClearedOf t l s =
    ((q : ℤ) → lookup q s.resource ≡ (if reported q l then none else lookup q t))
    × (s.lock_poisoned ≡ false)

-- What holds before the answer `r` of `wait` is handled.
abbrev IsTold : ResourceHdr → Answer (Option ℤ) → Machine → Type 0
IsTold t r s = (l : List ℤ) × (Seen ended_by (ended_by wait r ++ l) s × ClearedOf t l s)

-- The thread has cleared the table, and goes on or has died under the lock.
abbrev pub IsClearing : ResourceHdr → Bool → Machine → Type 0
IsClearing t b s = Cleared t s × (s.lock_poisoned ≡ b)

module _ (env : Env) (t : ResourceHdr) where
  cleared_more :
      (pid : ℤ) (l : List ℤ) (u : ResourceHdr) (b : Bool) (s : Machine)
      → ((q : ℤ) → lookup q u ≡ (if reported q l then none else lookup q t))
      → (HasLost pid u s × (s.lock_poisoned ≡ b)) × Seen ended_by (pid ∷ l) s
      → IsClearing t b s
  cleared_more pid l u b s before ((lost, locked_up), seen) = (λ q. rw seen (one q), locked_up)
    where
      one : (q : ℤ) → lookup q s.resource ≡ (if reported q (pid ∷ l) then none else lookup q t)
      one q = elim (Bool-cases (eqb_ℤ pid q)) [
        | inl e ↦ rw e (lost q ∙ rw e refl)
        | inr e ↦ rw e (lost q ∙ rw e (before q))
      ]

  told_end :
      (pid : ℤ)
      → Triple
          (IsTold t (done (some pid)))
          (reap env pid)
          (λ _. IsClearing t false)
          (λ _ _. ⊥)
          (IsClearing t true)
  told_end pid = record {
    at = λ s (l, (seen, (before, free))).
        (Triple-weaken _ _ _ _ _
            (Triple-and _ (reap-Triple env pid s.resource) (Unasked-reap env (pid ∷ l) pid))
            (λ u h. h) (λ a u h. cleared_more pid l s.resource false u before h) (λ e u h. h.0)
            (λ u h. cleared_more pid l s.resource true u before h)).at
          s ((refl, free), seen);
  }

  still :
      (r : Answer (Option ℤ))
      → ended_by wait r ≡ []
      → (s : Machine) → IsTold t r s
      → IsClearing t false s
  still r e s (l, (seen, (before, free))) = (λ q. rw (seen, e) (before q), free)

  sleep_told :
      (n : ℕ)
      → Triple
          (IsClearing t false)
          (sleep_secs env n)
          (λ _. IsClearing t false)
          (λ _ _. ⊥)
          (IsClearing t true)
  unfolding sleep_secs sys_call observe
  sleep_told n = record { at = λ s h. h }

  told :
      (r : Answer (Option ℤ))
      → Triple
          (IsTold t r)
          (handle_status env r)
          (λ _. IsClearing t false)
          (λ _ _. ⊥)
          (IsClearing t true)
  unfolding handle_status
  told (done (some pid)) = told_end pid
  told (done none) = Triple-pure tt (still (done none) refl)
  told (failed e) =
      Triple-weaken (IsClearing t false) _ _ _ _
        (elim (Bool-cases (e == echild)) [
          | inl h ↦ rw h (sleep_told 2)
          | inr h ↦ rw h (Triple-pure tt (λ s p. p))
        ])
        (still (failed e) refl) (λ a s h. h) (λ e s h. h) (λ s h. h)

  rounds-Endless :
      (n : ℕ)
      → Endless
          (IsClearing t false)
          (resource_worker env n)
          (IsClearing t false)
          (IsClearing t true)
  unfolding resource_worker observe
  rounds-Endless zero = Endless-pending (λ s h. h)
  rounds-Endless (suc n) =
      Endless-bind (IsTold t) _ _
        (Triple-call env wait (λ s h. (observe ended_by s.trace, (refl, h))))
        (λ r. Endless-bind (λ _. IsClearing t false) _ _ (told r) (λ _. rounds-Endless n))

  -- With no end told yet and a lock that is not poisoned, the thread that waits for guards never
  -- returns. However many rounds it has made and whatever the system answers, the table has lost the
  -- entries of all the guards whose end it was told of since the start, and has kept all others as
  -- they were; if it has panicked, this is so as well, and the lock is poisoned.
  pub resource_worker-Endless :
      (rounds : ℕ)
      → Endless
          (λ s. Seen ended_by [] s × HasTable t s)
          (resource_worker env rounds)
          (IsClearing t false)
          (IsClearing t true)
  unfolding observe
  resource_worker-Endless rounds = record {
    at = λ s (seen, (same, free)). (rounds-Endless rounds).at s (λ q. rw (seen, same) refl, free);
  }
