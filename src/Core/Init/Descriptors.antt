-- ===== src/Core/Init/Descriptors.antt =====
-- The descriptors that the start of a rocker opens at its master (core/src/master.rs, `init` and
-- `get_namespace_fds`), and those of them that it closes.
use rocker.Prelude.{
  ℕ, suc, ◌+◌, ◌≤◌, ◌≡◌, refl, true, List, [], ◌∷◌, ◌++◌, length, length-append, arith,
}
use rocker.Bytes.{Bytes}
use rocker.Config.{RockerCfg}
use rocker.Call.{
  Env, Call, Answer, done, failed, open_file, OpenMode, read_only, write_only, write_all,
  socketpair, clone, clone_newns, clone_newpid, recv, poll_in, kill_sigkill,
}
use rocker.Machine.{Machine, M, ◌>>=◌, sys_call, check, pure, throw}
use rocker.Machine.Keeps.{
  Triple, Triple-bind, Triple-weaken, Triple-pure, Triple-throw, Safe, Keeps, Keeps-check,
}
use rocker.Machine.Descriptors.{
  Holds, HoldsUpTo, given_by, Holds-other, Holds-open_file, Holds-socketpair, Holds-close,
}
use rocker.Core.Utils.{unix_dgram_socketpair}
use rocker.Core.Guard.{start_guard, stack_siz}
use rocker.Core.Init.{write_file, proc_path, init, open_namespaces}
use rocker.Core.Init.Quiet.{is_wait, Triple-or_kill, Keeps-await}

-- `j` descriptors more, of at most `k`.
pub few : (n j k : ℕ) → j ≤ k → (s : Machine) → Holds (j + n) s → HoldsUpTo n k s
few n j k le s h = (j, (le, omega (arith, h)))

module _ (env : Env) where
  -- A descriptor more, or an error and none.
  given :
      (n : ℕ) {R : Machine → Type 0} (mode : OpenMode) (path : Bytes) (r : Answer ℕ)
      → Triple
          (Holds (n + length (given_by (open_file mode path) r)))
          (check r)
          (λ _. Holds (suc n))
          (λ _. Holds n)
          R
  unfolding check pure throw
  given n mode path (done fd) = Triple-pure fd (λ s h. omega (arith, h))
  given n mode path (failed e) = Triple-throw _ (λ s h. omega (arith, h))

  opened :
      (n : ℕ) {R : Machine → Type 0} (mode : OpenMode) (path : Bytes)
      → Triple
          (Holds n)
          (do r ← sys_call env (open_file mode path); check r)
          (λ _. Holds (suc n))
          (λ _. Holds n)
          R
  opened n mode path = Triple-bind _ _ _ (Holds-open_file env n mode path) (given n mode path)

  connected :
      (n : ℕ)
      → Triple (Holds n) (unix_dgram_socketpair env) (λ _. Holds (2 + n)) (λ _. Holds n) (λ _. ⊥)
  unfolding unix_dgram_socketpair check pure throw
  connected n = Triple-bind _ _ _ (Holds-socketpair env n) told
    where
      told :
          (r : Answer (ℕ × ℕ))
          → Triple
              (Holds (n + length (given_by socketpair r)))
              (check r)
              (λ _. Holds (2 + n))
              (λ _. Holds n)
              (λ _. ⊥)
      told (done fds) = Triple-pure fds (λ s h. omega (arith, h))
      told (failed e) = Triple-throw _ (λ s h. omega (arith, h))

  -- What is opened to write to it is closed, also when it cannot be written.
  written : (n : ℕ) (path text : Bytes) → Safe (Holds n) (write_file env path text)
  unfolding write_file
  written n path text = Triple-bind _ _ _ (Holds-open_file env n write_only path) (λ r.
      Triple-bind (λ _. Holds (suc n)) _ _ (given n write_only path r)
        (λ fd.
          Triple-bind _ _ _ (Holds-other env (suc n) (write_all fd text) refl)
            (λ q. Triple-bind _ _ _ (Holds-close env n fd) (λ _. Keeps-check q))))

  Safe-wait : (n : ℕ) (c : Call) → is_wait c ≡ true → Safe (Holds n) (sys_call env c)
  Safe-wait n (recv fd len) h = Holds-other env n (recv fd len) refl
  Safe-wait n (poll_in fds time) h = Holds-other env n (poll_in fds time) refl
  Safe-wait n (kill_sigkill pid) h = Holds-other env n (kill_sigkill pid) refl
  Safe-wait n c h = cc h

  cloned : (n : ℕ) (cfg : RockerCfg) → Safe (Holds n) (start_guard env cfg)
  unfolding start_guard
  cloned n cfg =
      Triple-bind _ _ _ (Holds-other env n (clone (clone_newns ∷ clone_newpid ∷ []) stack_siz) refl)
        (λ r. Triple-bind _ _ _ (Keeps-check r) (λ pid. Triple-pure _ (λ s h. h)))

  -- `j` descriptors are open more than at the start.
  after :
      {A : Type 0} (n j : ℕ) (m : M A)
      → j ≤ 5
      → Keeps (Holds (j + n)) m
      → Triple (Holds (j + n)) m (λ _. Holds (j + n)) (λ _. HoldsUpTo n 5) (HoldsUpTo n 5)
  after n j m le h =
      Triple-weaken _ _ _ _ _ h (λ s h. h) (λ a s h. h) (λ e s h. few n j 5 le s h)
        (λ s h. few n j 5 le s h)

  safely : {A : Type 0} {P : Machine → Type 0} (m : M A) → Safe P m → Keeps P m
  safely m h = Triple-weaken _ _ _ _ m h (λ s p. p) (λ a s p. p) (λ e s p. p) (λ s p. absurd p)

  -- The pair of sockets stays open.
  pub Holds-init :
      (n : ℕ) (cfg : RockerCfg)
      → Triple (Holds n) (init env cfg) (λ _. Holds (2 + n)) (λ _. HoldsUpTo n 5) (HoldsUpTo n 5)
  unfolding init
  Holds-init n cfg =
      Triple-bind _ _ _
        (Triple-weaken _ _ _ _ _ (connected n) (λ s h. h) (λ a s h. h)
          (λ e s h. (0, (omega arith, omega (arith, h)))) (λ s h. absurd h))
        (λ (master_fd, guard_fd).
          Triple-bind _ _ _ (after n 2 _ (omega arith) (safely _ (cloned (2 + n) cfg)))
            (λ (pid, cfg').
              after n 2 _ (omega arith)
                (Keeps-await env (Safe-wait (2 + n)) (written (2 + n)) master_fd pid _)))

  -- What was opened before an error stays open.
  pub Holds-open_namespaces :
      (n pid : ℕ) (nss : List Bytes) (fds : List ℕ)
      → Triple
          (Holds (length fds + n))
          (open_namespaces env pid nss fds)
          (λ out s. (length out ≡ length nss + length fds) × Holds (length out + n) s)
          (λ _. HoldsUpTo n (length nss + length fds))
          (λ _. ⊥)
  unfolding open_namespaces
  Holds-open_namespaces n pid [] fds = Triple-pure fds (λ s h. (omega arith, h))
  Holds-open_namespaces n pid (ns ∷ nss) fds =
      Triple-bind (λ _. Holds (suc (length fds + n))) _ _
        (Triple-weaken _ _ _ _ _
          (Triple-or_kill env (Safe-wait (length fds + n)) (written (length fds + n)) pid _
            (opened (length fds + n) read_only (proc_path pid _)))
          (λ s h. h) (λ a s h. h) (λ e s h. few n (length fds) _ (omega arith) s h) (λ s h. h))
        (λ fd.
          Triple-weaken _ _ _ _ _ (Holds-open_namespaces n pid nss (fds ++ fd ∷ []))
            (λ s h. omega (arith, h, length-append fds (fd ∷ [])))
            (λ a s (e, h). (omega (arith, e, length-append fds (fd ∷ [])), h))
            (λ e s (j, (le, h)). (j, (omega (arith, le, length-append fds (fd ∷ [])), h)))
            (λ s h. h))
