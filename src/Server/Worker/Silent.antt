-- ===== src/Server/Worker/Silent.antt =====
-- The code that a worker runs before it replies (core/src/master.rs, rocker_server/src/main.rs) sends
-- no reply, and touches the table of running rockers in one place only.
use rocker.Core.Setup.{fresh, next_procname, new, Params}
use rocker.Call.{
  clone_newpid, clone_newns, Env, Call, Reply, Event, getpwuid, getgrgid, metadata, create_dir_all,
  socketpair, clone, sendmsg,
}
use rocker.Prelude.{ℕ, ◌≡◌, refl, Bool, true, some, List, [], ◌∷◌}
use rocker.Machine.Keeps.{
  Keeps-check, Triple-given, Safe, Triple, Triple-bind, Triple-pure, Triple-weaken, Triple-and,
}
use rocker.Core.Init.Story.{Confused}
use rocker.Server.Worker.Evidence.{
  HasCloned, Extends, IsStartOf, Answered, Answered-call, Answered-check, Keeps-cloned,
}
use rocker.Machine.{M, Machine, pure, sys_call}
use rocker.Machine.Observe.{observe, Seen, Seen-call, replied_by, deeds_by, Deeds}
use rocker.Bytes.{Bytes}
use rocker.Config.{RockerCfg, ResourceHdr}
use rocker.Core.Setup.Quiet.{is_check, new-Triple}
use rocker.Core.Guard.{stack_siz, start_guard}
use rocker.Core.Init.{init, await_guard}
use rocker.Core.Init.Quiet.{is_silent, is_start, Keeps-await_silent, Safe-socketpair}
use rocker.Core.Init.Handshake.{await_guard-Triple}

-- The replies tried, newest first.
abbrev pub Replied : List (List Bytes × List ℕ) → Machine → Type 0
Replied = Seen replied_by

-- The replies tried, the table, and whether its lock is poisoned.
abbrev pub Idle : List (List Bytes × List ℕ) → ResourceHdr → Bool → Machine → Type 0
Idle l t b s = Replied l s × ((s.resource ≡ t) × (s.lock_poisoned ≡ b))

-- The start of a worker: no reply tried, no message received, no file opened, no process killed.
abbrev pub Fresh : ResourceHdr → Bool → Machine → Type 0
Fresh t b s = Idle [] t b s × Deeds [] s

silent_unseen : (c : Call) (r : Reply c) → is_silent c ≡ true → replied_by c r ≡ []
silent_unseen (sendmsg _ _ _ _) r h = cc
silent_unseen _ r h = refl

check_unseen :
    (c : Call) (r : Reply c) → is_check c ≡ true → (replied_by c r ≡ []) × (deeds_by c r ≡ [])
check_unseen (getpwuid _) r h = (refl, refl)
check_unseen (getgrgid _) r h = (refl, refl)
check_unseen (metadata _) r h = (refl, refl)
check_unseen (create_dir_all _) r h = (refl, refl)
check_unseen _ r h = cc

start_unseen :
    (c : Call) (r : Reply c) → is_start c ≡ true → (replied_by c r ≡ []) × (deeds_by c r ≡ [])
start_unseen socketpair r h = (refl, refl)
start_unseen (clone _ _) r h = (refl, refl)
start_unseen _ r h = cc

-- The guard was cloned, and nothing else has happened.
abbrev IsCloned : ResourceHdr → Bool → RockerCfg → ℕ × RockerCfg → Machine → Type 0
IsCloned t b cfg (pid, cfg') s =
    (cfg' ≡ record cfg { guard_stack = some stack_siz }) × (Fresh t b s × HasCloned pid s)

-- Calls after those of `past`, with these replies, this table and this lock.
abbrev pub After : List Event → List (List Bytes × List ℕ) → ResourceHdr → Bool → Machine → Type 0
After past l t b s = Idle l t b s × Extends past s

module _ {t : ResourceHdr} {b : Bool} (env : Env) where
  -- For a predicate on the statics and one on the trace.
  pub Idle-silent :
      {l : List (List Bytes × List ℕ)} (c : Call)
      → is_silent c ≡ true
      → Safe (Idle l t b) (sys_call env c)
  unfolding sys_call
  Idle-silent {l} c e = record {
    at = λ s h.
        ((Seen-call {R = λ _. ⊥} replied_by l env c (λ r. silent_unseen c r e)).at s h.0, h.1);
  }

  Fresh-call :
      (c : Call)
      → ((r : Reply c) → (replied_by c r ≡ []) × (deeds_by c r ≡ []))
      → Safe (Fresh t b) (sys_call env c)
  unfolding sys_call
  Fresh-call c e = record {
    at = λ s h. (
      ((Seen-call {R = λ _. ⊥} replied_by [] env c (λ r. (e r).0)).at s h.0.0, h.0.1),
      (Seen-call {R = λ _. ⊥} deeds_by [] env c (λ r. (e r).1)).at s h.1,
    );
  }

  Fresh-start : (c : Call) → is_start c ≡ true → Safe (Fresh t b) (sys_call env c)
  Fresh-start c h = Fresh-call c (λ r. start_unseen c r h)

  Fresh-named : (w : ℕ) → Safe (Fresh t b) (next_procname w)
  unfolding next_procname pure
  Fresh-named w = record { at = λ s h. h }

  pub Fresh-new :
      (w : ℕ) (p : Params)
      → Triple
          (Fresh t b)
          (new env w p)
          (λ cfg s. ((n : ℕ) × (cfg ≡ fresh env p n)) × Fresh t b s)
          (λ _. Fresh t b)
          (λ _. ⊥)
  Fresh-new = new-Triple env (λ c h. Fresh-call c (λ r. check_unseen c r h)) (λ w. Fresh-named w)

  calm :
      {A : Type 0} {Q : A → Machine → Type 0} {R : Machine → Type 0} (m : M A)
      → Triple (Fresh t b) m Q (λ _. Fresh t b) (λ _. ⊥)
      → Triple (Fresh t b) m Q (λ _. Idle [] t b) R
  calm m h = Triple-weaken _ _ _ _ m h (λ s p. p) (λ a s p. p) (λ e s p. p.0) (λ s p. absurd p)

  clone_seen :
      Triple
        (Fresh t b)
        (sys_call env (clone (clone_newns ∷ clone_newpid ∷ []) stack_siz))
        (λ r s. Fresh t b s × Answered r s)
        (λ _ _. ⊥)
        (λ _. ⊥)
  clone_seen =
      Triple-weaken _ _ _ _ _
        (Triple-and _ (Fresh-start (clone (clone_newns ∷ clone_newpid ∷ []) stack_siz) refl)
          (Answered-call {P = Fresh t b} env))
        (λ s h. (h, h)) (λ a s h. h) (λ e s h. absurd h.1) (λ s h. absurd h.0)

  calm_start :
      {R : Machine → Type 0} (cfg : RockerCfg)
      → Triple (Fresh t b) (start_guard env cfg) (IsCloned t b cfg) (λ _. Idle [] t b) R
  unfolding start_guard
  calm_start cfg =
      Triple-bind _ _ _
        (Triple-weaken _ _ _ _ _ clone_seen (λ s h. h) (λ r s h. h) (λ e s h. absurd h)
          (λ s h. absurd h))
        (λ r.
          Triple-bind (λ pid s. Fresh t b s × HasCloned pid s) _ _
            (Triple-weaken _ _ _ _ _
              (Triple-and _ (Keeps-check {P = Fresh t b} {R = λ _. ⊥} r) (Answered-check r))
              (λ s h. h) (λ pid s h. h) (λ e s h. h.0.0) (λ s h. absurd h.0))
            (λ pid. Triple-pure _ (λ s h. (refl, h))))

  awaited :
      (master_fd pid : ℕ) (cfg cfg' : RockerCfg)
      → cfg' ≡ record cfg { guard_stack = some stack_siz }
      → Triple
          (λ s. Fresh t b s × HasCloned pid s)
          (await_guard env master_fd pid (record cfg' { guard_pid = some pid }))
          (λ cfg' s. (past : List Event) × (IsStartOf cfg cfg' past × After past [] t b s))
          (λ _. Idle [] t b)
          (λ s. Idle [] t b s × Confused (observe deeds_by s.trace))
  awaited master_fd pid cfg cfg' e = rw e (
      Triple-weaken _ _ _ _ _
        (Triple-and _ (Keeps-await_silent env (λ c h. Idle-silent c h) master_fd pid _) (
          Triple-and _ (await_guard-Triple env pid master_fd _) (Keeps-cloned env pid master_fd _)))
        (λ s h. (h.0.0, (h.0.1, h.1)))
        (λ a s (h, ((first, (second, (n, (told, deeds)))), own)).
          (s.trace, ((pid, (first, (second, (n, (told, (deeds, (own, h.0))))))), (h, ([], refl)))))
        (λ x s h. h.0) (λ s h. (h.0, h.1.0)))

  -- `init` ends with no reply tried and the table as it was. If it returns, its calls are a complete
  -- start of a rocker. It panics only on a number of the guard that is neither success nor the code of
  -- an error.
  pub init-Triple :
      (cfg : RockerCfg)
      → Triple
          (Fresh t b)
          (init env cfg)
          (λ cfg' s. (past : List Event) × (IsStartOf cfg cfg' past × After past [] t b s))
          (λ _. Idle [] t b)
          (λ s. Idle [] t b s × Confused (observe deeds_by s.trace))
  unfolding init
  init-Triple cfg =
      Triple-bind (λ _. Fresh t b) _ _ (calm _ (Safe-socketpair env (λ c h. Fresh-start c h)))
        (λ (master_fd, guard_fd).
          Triple-bind (IsCloned t b cfg) _ _ (calm_start cfg)
            (λ (pid, cfg'). Triple-given _ (λ e. awaited master_fd pid cfg cfg' e)))
