-- ===== src/Server/Worker/Evidence.antt =====
-- What the calls of a worker show of the start of a rocker (core/src/master.rs, `RockerCfg::init`):
-- its guard was cloned, and it has told that it is complete.
use rocker.Prelude.{ℕ, ◌≡◌, refl, ap, List, [], ◌∷◌, ◌++◌, some, true}
use rocker.Bytes.{Bytes}
use rocker.Config.{RockerCfg}
use rocker.Call.{
  Env, Call, Reply, Event, Answer, done, failed, clone, clone_newns, clone_newpid, recv, poll_in,
  kill_sigkill, open_file, write_only, write_all, close,
}
use rocker.Machine.{Machine, sys_call, check}
use rocker.Machine.Keeps.{Triple, Safe, Keeps, keeps_rules, Triple-pure, Triple-throw}
use rocker.Machine.Observe.{View, observe, Seen, Seen-call, replied_by, deeds_by}
use rocker.Core.Guard.{stack_siz}
use rocker.Core.Guard.Codes.{success}
use rocker.Core.Init.{write_file, await_guard}
use rocker.Core.Init.Quiet.{is_wait, Keeps-await}
use rocker.Core.Init.Steps.{code}
use rocker.Core.Init.Story.{Noted, story}

-- The pid of a process that was cloned.
abbrev pub cloned_by : View ℕ
cloned_by (clone flags stack) (done pid) = pid ∷ []
cloned_by _ _ = []

-- The newest process that was cloned.
abbrev pub HasCloned : ℕ → Machine → Type 0
HasCloned pid s = (older : List ℕ) × Seen cloned_by (pid ∷ older) s

-- The process has called what is in `start`, and then perhaps more.
abbrev pub Extends : List Event → Machine → Type 0
Extends start s = (later : List Event) × (s.trace ≡ later ++ start)

-- The calls in `past` are a complete start of a rocker, from the configuration that was asked for to
-- the one that it has now. The newest clone gave the guard's pid. From the guard two messages came,
-- the first one success or the id of the loop device, the second one success, and its uid map and,
-- where there is a gid, its gid map were written, all in this order; nothing else was received, opened
-- or written, no process was killed, and no reply to a client was tried. The configuration has the
-- guard's fields.
abbrev pub IsStartOf : RockerCfg → RockerCfg → List Event → Type 0
IsStartOf cfg cfg' past =
    (pid : ℕ) × ((first : Bytes) × ((second : Bytes) × (Noted
            (record cfg { guard_stack = some stack_siz; guard_pid = some pid }) (code first) cfg'
          × ((code second ≡ success)
              × ((observe deeds_by past ≡ story pid cfg first second)
                  × (((older : List ℕ) × (observe cloned_by past ≡ pid ∷ older))
                      × (observe replied_by past ≡ [])))))))

-- A worker after a complete start.
abbrev pub HasStarted : RockerCfg → RockerCfg → Machine → Type 0
HasStarted cfg cfg' s = (past : List Event) × (IsStartOf cfg cfg' past × Extends past s)

pub Extends-call : (past : List Event) (env : Env) (c : Call) → Safe (Extends past) (sys_call env c)
unfolding sys_call
Extends-call past env c = record {
  at = λ s (later, e). (_ ∷ later, ap (λ t. record { request = c; reply = env s.trace c } ∷ t) e);
}

-- What `start_guard` makes of the answer to its clone.
abbrev pub Answered : Answer ℕ → Machine → Type 0
Answered r s =
    (older : List ℕ) × Seen cloned_by
      (cloned_by (clone (clone_newns ∷ clone_newpid ∷ []) stack_siz) r ++ older) s

pub Answered-call :
    {P : Machine → Type 0} (env : Env)
    → Triple P
        (sys_call env (clone (clone_newns ∷ clone_newpid ∷ []) stack_siz))
        Answered
        (λ _ _. ⊥)
        (λ _. ⊥)
unfolding sys_call observe
Answered-call env = record { at = λ s h. (observe cloned_by s.trace, refl) }

pub Answered-check :
    (r : Answer ℕ) → Triple (Answered r) (check r) HasCloned (λ _ _. Unit {0}) (λ _. ⊥)
unfolding check
Answered-check (done pid) = Triple-pure pid (λ s h. h)
Answered-check (failed e) = Triple-throw _ (λ s h. tt)

module _ (env : Env) (pid : ℕ) where
  other : (c : Call) → ((r : Reply c) → cloned_by c r ≡ []) → Safe (HasCloned pid) (sys_call env c)
  unfolding sys_call
  other c h = record {
    at = λ s (older, e). (older, (Seen-call {R = λ _. ⊥} cloned_by (pid ∷ older) env c h).at s e);
  }

  waiting : (c : Call) → is_wait c ≡ true → Safe (HasCloned pid) (sys_call env c)
  waiting (recv fd len) h = other (recv fd len) (λ r. refl)
  waiting (poll_in fds time) h = other (poll_in fds time) (λ r. refl)
  waiting (kill_sigkill p) h = other (kill_sigkill p) (λ r. refl)
  waiting c h = cc h

  opening : (path : Bytes) → Safe (HasCloned pid) (sys_call env (open_file write_only path))
  opening path = other (open_file write_only path) (λ r. refl)

  writing : (fd : ℕ) (text : Bytes) → Safe (HasCloned pid) (sys_call env (write_all fd text))
  writing fd text = other (write_all fd text) (λ r. refl)

  closing : (fd : ℕ) → Safe (HasCloned pid) (sys_call env (close fd))
  closing fd = other (close fd) (λ r. refl)

  filed : (path text : Bytes) → Safe (HasCloned pid) (write_file env path text)
  unfolding write_file
  filed path text = search (keeps_rules, opening, writing, closing) depth 20

  -- Waiting for the guard clones nothing.
  pub Keeps-cloned : (fd : ℕ) (cfg : RockerCfg) → Keeps (HasCloned pid) (await_guard env fd pid cfg)
  Keeps-cloned fd cfg = Keeps-await env waiting filed fd pid cfg
