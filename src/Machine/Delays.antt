-- ===== src/Machine/Delays.antt =====
-- How long code lets the process wait: the time limits of its polls, and its sleeps.
use rocker.Prelude.{ℕ, ◌+◌, ◌*◌, ◌≤◌, ◌≡◌, refl, Bool, true, false, List, [], ◌∷◌, arith}
use rocker.Call.{Env, Call, Reply, poll_in, sleep}
use rocker.Outcome.{Error}
use rocker.Machine.{Machine, M, sys_call}
use rocker.Machine.Keeps.{Triple, Triple-call}
use rocker.Machine.Observe.{View, observe}

-- In milliseconds.
abbrev pub delayed_by : View ℕ
delayed_by (poll_in fds time) _ = time ∷ []
delayed_by (sleep secs) _ = secs * 1000 ∷ []
delayed_by _ _ = []

abbrev pub total : List ℕ → ℕ
total [] = 0
total (n ∷ ns) = n + total ns

-- At most `n` milliseconds were spent in polls and sleeps.
abbrev pub Waited : ℕ → Machine → Type 0
Waited n s = total (observe delayed_by s.trace) ≤ n

abbrev pub is_prompt : Call → Bool
is_prompt (poll_in _ _) = false
is_prompt (sleep _) = false
is_prompt _ = true

prompt_unseen : (c : Call) (r : Reply c) → is_prompt c ≡ true → delayed_by c r ≡ []
prompt_unseen (poll_in _ _) r h = cc
prompt_unseen (sleep _) r h = cc
prompt_unseen _ r h = refl

module _ (env : Env) (n : ℕ) {E : Error → Machine → Type 0} {R : Machine → Type 0} where
  pub Waited-prompt :
      (c : Call) → is_prompt c ≡ true → Triple (Waited n) (sys_call env c) (λ _. Waited n) E R
  unfolding observe
  Waited-prompt c h = Triple-call env c (λ s e. rw (prompt_unseen c (env s.trace c) h) e)

  pub Waited-poll :
      (fds : List ℕ) (time : ℕ)
      → Triple (Waited n) (sys_call env (poll_in fds time)) (λ _. Waited (time + n)) E R
  unfolding observe
  Waited-poll fds time = Triple-call env (poll_in fds time) (λ s e. omega (arith, e))

-- Code that waits for at most `k` more, however it ends.
abbrev pub Lasts {ℓ} : {A : Type ℓ} → ℕ → ℕ → M A → Type ℓ
Lasts k n m = Triple (Waited n) m (λ _. Waited (k + n)) (λ _. Waited (k + n)) (Waited (k + n))
