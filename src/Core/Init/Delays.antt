-- ===== src/Core/Init/Delays.antt =====
-- How long the master waits for a guard that starts (core/src/master.rs, `init`).
use rocker.Prelude.{
  inr, inl, ◌==◌, Bool-cases, ℕ, ◌+◌, ◌≤◌, ◌≡◌, refl, true, [], ◌∷◌, arith, Option, none, some,
}
use rocker.Machine.Keeps.{
  Keeps-check, Triple, Triple-bind, Triple-weaken, Triple-pure, Triple-throw, Triple-on_error,
  Keeps, keeps_rules,
}
use rocker.Core.Init.{
  write_file, write_uidmap, write_gidmap, write_gidmap_of, or_kill, recv_i32, await_guard, init,
}
use rocker.Core.Utils.{
  eagain, kill, unix_dgram_socketpair, wait_readable, recv_once, or_wait, recv_timed,
}
use rocker.Call.{kill_sigkill, recv, Env, Call, Answer, done, failed}
use rocker.Bytes.{Bytes}
use rocker.Config.{RockerCfg}
use rocker.Machine.{Machine, M, sys_call}
use rocker.Machine.Delays.{Waited, Lasts, is_prompt, Waited-prompt, Waited-poll}
use rocker.Core.Guard.{start_guard}
use rocker.Core.Init.Quiet.{Keeps-check_err, Keeps-note}

-- An earlier start, and more time than is needed.
pub Lasts-longer {ℓ} :
    {A : Type ℓ} (j k m n : ℕ) (ops : M A) → Lasts j m ops → n ≤ m → j + m ≤ k + n → Lasts k n ops
Lasts-longer j k m n ops h early le =
    Triple-weaken _ _ _ _ _ h (λ s p. omega (arith, p, early)) (λ a s p. omega (arith, p, le))
      (λ e s p. omega (arith, p, le)) (λ s p. omega (arith, p, le))

-- Code that takes no time.
pub Lasts-prompt {ℓ} : {A : Type ℓ} (k n : ℕ) (ops : M A) → Keeps (Waited n) ops → Lasts k n ops
Lasts-prompt k n ops h =
    Triple-weaken _ _ _ _ _ h (λ s p. p) (λ a s p. omega (arith, p)) (λ e s p. omega (arith, p))
      (λ s p. omega (arith, p))

module _ (env : Env) where
  pub Waited-call : {n : ℕ} (c : Call) → is_prompt c ≡ true → Keeps (Waited n) (sys_call env c)
  Waited-call {n} c h = Waited-prompt env n c h

  -- A kill takes no time.
  pub Lasts-or_kill :
      {A : Type 0} {n : ℕ} {Q : A → Machine → Type 0} (k pid : ℕ) (m : M A)
      → Triple (Waited n) m Q (λ _. Waited k) (Waited k)
      → Triple (Waited n) (or_kill env pid m) Q (λ _. Waited k) (Waited k)
  unfolding or_kill kill
  Lasts-or_kill k pid m h =
      Triple-on_error (λ _. Waited k) m _ h
        (λ e.
          Triple-bind (λ _. Waited k) _ _
            (Triple-bind (λ _. Waited k) _ _ (Waited-call (kill_sigkill pid) refl)
              (λ _. Triple-pure tt (λ s p. p)))
            (λ _. Triple-throw e (λ s p. p)))

  waiting : (n fd : ℕ) (buf : Bytes) (r : Answer Bytes) → Lasts 2000 n (or_wait env fd buf 2 r)
  unfolding or_wait wait_readable recv_once
  waiting n fd buf (done msg) = Triple-pure _ (λ s h. omega (arith, h))
  waiting n fd buf (failed e) = elim (Bool-cases (e == eagain)) [
    | inl t ↦ rw t (
        Triple-bind (λ _. Waited (2000 + n)) _ _
          (Triple-bind (λ _. Waited (2000 + n)) _ _ (Waited-poll env n (fd ∷ []) 2000)
            (λ r. Triple-bind _ _ _ (Keeps-check r) (λ _. Triple-pure tt (λ s h. h))))
          (λ _. search (keeps_rules, Waited-call) depth 12))
    | inr f ↦ rw f (Triple-throw _ (λ s h. omega (arith, h)))
  ]

  received : (n fd : ℕ) → Lasts 2000 n (recv_i32 env fd)
  unfolding recv_i32 recv_timed
  received n fd =
      Triple-bind (λ _. Waited (2000 + n)) _ _
        (Triple-bind (λ _. Waited n) _ _ (Waited-prompt env n (recv fd 4) refl)
          (λ r. waiting n fd (0 ∷ 0 ∷ 0 ∷ 0 ∷ []) r))
        (λ buf. Triple-pure _ (λ s h. h))

  written : (n : ℕ) (path text : Bytes) → Keeps (Waited n) (write_file env path text)
  unfolding write_file
  written n path text = search (keeps_rules, Waited-call) depth 20

  mapped : (n pid : ℕ) (gid : Option ℕ) → Keeps (Waited n) (write_gidmap_of env pid gid)
  unfolding write_gidmap_of
  mapped n pid none = search keeps_rules
  mapped n pid (some gid) = search (keeps_rules, written)

  -- A message that is waited for from `m` to at most `k` milliseconds.
  one_message :
      (m k n fd pid : ℕ)
      → 2000 + m ≤ k
      → k ≤ 4000 + n
      → Triple
          (Waited m)
          (or_kill env pid (recv_i32 env fd))
          (λ _. Waited k)
          (λ _. Waited (4000 + n))
          (Waited (4000 + n))
  one_message m k n fd pid early late = Lasts-or_kill (4000 + n) pid _ (
      Triple-weaken _ _ _ _ _ (received m fd) (λ s h. h) (λ a s h. omega (arith, h, early))
        (λ e s h. omega (arith, h, early, late)) (λ s h. omega (arith, h, early, late)))

  -- What takes no time, before the four seconds are over.
  at_once :
      {A : Type 0} (m n : ℕ) (ops : M A)
      → Keeps (Waited m) ops
      → m ≤ 4000 + n
      → Triple (Waited m) ops (λ _. Waited m) (λ _. Waited (4000 + n)) (Waited (4000 + n))
  at_once m n ops h le =
      Triple-weaken _ _ _ _ _ h (λ s p. p) (λ a s p. p) (λ e s p. omega (arith, p, le))
        (λ s p. omega (arith, p, le))

  -- Two messages are waited for, each once.
  pub Lasts-await : (n fd pid : ℕ) (cfg : RockerCfg) → Lasts 4000 n (await_guard env fd pid cfg)
  unfolding await_guard write_uidmap write_gidmap
  Lasts-await n fd pid cfg =
      Triple-bind (λ _. Waited (2000 + n)) _ _
        (one_message n (2000 + n) n fd pid (omega arith) (omega arith))
        (λ i.
          Triple-bind (λ _. Waited (2000 + n)) _ _
            (at_once (2000 + n) n _ (Keeps-note i cfg) (omega arith))
            (λ cfg'.
              Triple-bind (λ _. Waited (4000 + n)) _ _
                (one_message (2000 + n) (4000 + n) n fd pid (omega arith) (omega arith))
                (λ errno.
                  Triple-bind (λ _. Waited (4000 + n)) _ _ (Keeps-check_err errno)
                    (λ _.
                      Triple-bind (λ _. Waited (4000 + n)) _ _
                        (Lasts-or_kill (4000 + n) pid _ (written (4000 + n) _ _))
                        (λ _.
                          Triple-bind (λ _. Waited (4000 + n)) _ _
                            (Lasts-or_kill (4000 + n) pid _ (mapped (4000 + n) pid _))
                            (λ _. Triple-pure cfg' (λ s h. h)))))))

  pub Lasts-init : (n : ℕ) (cfg : RockerCfg) → Lasts 4000 n (init env cfg)
  unfolding init unix_dgram_socketpair start_guard
  Lasts-init n cfg =
      Triple-bind (λ _. Waited n) _ _
        (at_once n n _ (search (keeps_rules, Waited-call) depth 12) (omega arith))
        (λ (master_fd, guard_fd).
          Triple-bind (λ _. Waited n) _ _
            (at_once n n _ (search (keeps_rules, Waited-call) depth 12) (omega arith))
            (λ (pid, cfg'). Lasts-await n master_fd pid _))
