-- ===== src/Core/Init/Quiet.antt =====
-- The start of a rocker at its master (core/src/master.rs) sends no message and no reply, and panics
-- only on a number of the guard that it does not know.
use rocker.Prelude.{
  ℕ, ◌≡◌, refl, Bool, true, false, Option, none, some, List, [], ◌∷◌, ◌++◌, ◌+◌, length,
  length-append, arith, ℤ, pos, negsuc,
}
use rocker.Bytes.{Bytes}
use rocker.Config.{RockerCfg}
use rocker.Call.{
  recv, poll_in, kill_sigkill, Env, Call, Answer, done, failed, send, sendmsg, clone, socketpair,
}
use rocker.Machine.{Machine, M, sys_call}
use rocker.Machine.Keeps.{
  Safe, Keeps, keeps_rules, Triple-on_error, Triple, Triple-bind, Triple-pure, Triple-throw,
  Triple-given, Triple-weaken,
}
use rocker.Core.Utils.{kill, unix_dgram_socketpair, wait_readable, recv_once, or_wait, recv_timed}
use rocker.Core.Guard.{start_guard}
use rocker.Core.Init.{
  check_err, note_loop_id, write_file, write_uidmap, write_gidmap_of, write_gidmap, or_kill,
  recv_i32, await_guard, guard_pid_of, get_guard_pid, open_namespaces, get_namespace_fds,
  namespaces,
}

-- A call that sends nothing.
abbrev pub is_silent : Call → Bool
is_silent (send _ _) = false
is_silent (sendmsg _ _ _ _) = false
is_silent _ = true

-- A call that waits for the guard, or ends it.
abbrev pub is_wait : Call → Bool
is_wait (recv _ _) = true
is_wait (poll_in _ _) = true
is_wait (kill_sigkill _) = true
is_wait _ = false

module _ {P : Machine → Type 0} where
  pub Keeps-check_err : (i : ℤ) → Keeps P (check_err i)
  unfolding check_err
  Keeps-check_err i = search keeps_rules depth 20

  pub Keeps-note : (i : ℤ) (cfg : RockerCfg) → Keeps P (note_loop_id i cfg)
  unfolding note_loop_id
  Keeps-note (pos n) cfg = search keeps_rules
  Keeps-note (negsuc n) cfg = search (keeps_rules, Keeps-check_err)

-- For any `P` that these calls keep, and the writing of a file.
module _ {P : Machine → Type 0} (env : Env)
    (quiet : (c : Call) → is_wait c ≡ true → Safe P (sys_call env c))
    (files : (path text : Bytes) → Safe P (write_file env path text)) where
  Safe-gidmap : (pid : ℕ) (gid : Option ℕ) → Safe P (write_gidmap_of env pid gid)
  unfolding write_gidmap_of
  Safe-gidmap pid none = search keeps_rules
  Safe-gidmap pid (some gid) = search (keeps_rules, files)

  Safe-kill : (pid : ℕ) → Safe P (kill env pid)
  unfolding kill
  Safe-kill pid = search (keeps_rules, quiet)

  pub Triple-or_kill :
      {A : Type 0} {P' : Machine → Type 0} {Q : A → Machine → Type 0} (pid : ℕ) (m : M A)
      → Triple P' m Q (λ _. P) (λ _. ⊥)
      → Triple P' (or_kill env pid m) Q (λ _. P) (λ _. ⊥)
  unfolding or_kill
  Triple-or_kill pid m h =
      Triple-on_error (λ _. P) m _ h
        (λ e. Triple-bind (λ _. P) _ _ (Safe-kill pid) (λ _. Triple-throw e (λ s h. h)))

  Safe-once : (fd : ℕ) (buf : Bytes) → Safe P (recv_once env fd buf)
  unfolding recv_once
  Safe-once fd buf = search (keeps_rules, quiet)

  Safe-readable : (fds : List ℕ) (secs : ℕ) → Safe P (wait_readable env fds secs)
  unfolding wait_readable
  Safe-readable fds secs = search (keeps_rules, quiet)

  Safe-or_wait :
      (fd : ℕ) (buf : Bytes) (secs : ℕ) (r : Answer Bytes) → Safe P (or_wait env fd buf secs r)
  unfolding or_wait
  Safe-or_wait fd buf secs (done msg) = search keeps_rules
  Safe-or_wait fd buf secs (failed e) = search (keeps_rules, Safe-once, Safe-readable) depth 12

  Safe-recv : (fd : ℕ) → Safe P (recv_i32 env fd)
  unfolding recv_i32 recv_timed
  Safe-recv fd = search (keeps_rules, quiet, Safe-or_wait) depth 12

  Keeps-Safe : {A : Type 0} (m : M A) → Safe P m → Keeps P m
  Keeps-Safe m h = Triple-weaken _ _ _ _ m h (λ s p. p) (λ a s p. p) (λ e s p. p) (λ s p. absurd p)

  Keeps-step : {A : Type 0} (pid : ℕ) (m : M A) → Safe P m → Keeps P (or_kill env pid m)
  Keeps-step pid m h = Keeps-Safe _ (Triple-or_kill pid m h)

  pub Keeps-await : (fd pid : ℕ) (cfg : RockerCfg) → Keeps P (await_guard env fd pid cfg)
  unfolding await_guard write_uidmap write_gidmap
  Keeps-await fd pid cfg =
      search (keeps_rules, Keeps-step, Safe-recv, Keeps-note, Keeps-check_err, files, Safe-gidmap)
        depth 30

-- For any `P` that calls keep which send nothing.
module _ {P : Machine → Type 0} (env : Env)
    (quiet : (c : Call) → is_silent c ≡ true → Safe P (sys_call env c)) where
  files : (path text : Bytes) → Safe P (write_file env path text)
  unfolding write_file
  files path text = search (keeps_rules, quiet) depth 20

  waits : (c : Call) → is_wait c ≡ true → Safe P (sys_call env c)
  waits (recv fd len) h = quiet (recv fd len) refl
  waits (poll_in fds time) h = quiet (poll_in fds time) refl
  waits (kill_sigkill pid) h = quiet (kill_sigkill pid) refl
  waits c h = cc h

  pub Keeps-await_silent : (fd pid : ℕ) (cfg : RockerCfg) → Keeps P (await_guard env fd pid cfg)
  Keeps-await_silent = Keeps-await env waits files

  guard_pid_of-Triple :
      (o : Option ℕ)
      → Triple P (guard_pid_of env o) (λ pid s. (o ≡ some pid) × P s) (λ _. P) (λ _. ⊥)
  guard_pid_of-Triple none = Triple-throw _ (λ s h. h)
  guard_pid_of-Triple (some pid) = Triple-pure pid (λ s h. (refl, h))

  -- The pid that the configuration holds.
  pub get_guard_pid-Triple :
      (cfg : RockerCfg)
      → Triple P
          (get_guard_pid env cfg)
          (λ pid s. (cfg.guard_pid ≡ some pid) × P s)
          (λ _. P)
          (λ _. ⊥)
  unfolding get_guard_pid
  get_guard_pid-Triple cfg = guard_pid_of-Triple cfg.guard_pid

  opening :
      (pid : ℕ) (nss : List Bytes) (fds : List ℕ)
      → Triple P
          (open_namespaces env pid nss fds)
          (λ out s. (length out ≡ length nss + length fds) × P s)
          (λ _. P)
          (λ _. ⊥)
  unfolding open_namespaces
  opening pid [] fds = Triple-pure fds (λ s h. (omega arith, h))
  opening pid (ns ∷ nss) fds =
      Triple-bind (λ _. P) _ _ (Triple-or_kill env waits files pid _ (search (keeps_rules, quiet)))
        (λ fd.
          Triple-weaken _ _ _ _ _ (opening pid nss (fds ++ fd ∷ [])) (λ s h. h)
            (λ a s (e, h). (omega (arith, e, length-append fds (fd ∷ [])), h)) (λ e s h. h)
            (λ s h. h))

  -- Three descriptors, and no panic.
  pub get_namespace_fds-Triple :
      (cfg : RockerCfg)
      → Triple P (get_namespace_fds env cfg) (λ fds s. (length fds ≡ 3) × P s) (λ _. P) (λ _. ⊥)
  unfolding get_namespace_fds
  get_namespace_fds-Triple cfg =
      Triple-bind _ _ _ (get_guard_pid-Triple cfg)
        (λ pid. Triple-given _ (λ _. opening pid namespaces []))

-- A call that starts a guard.
abbrev pub is_start : Call → Bool
is_start socketpair = true
is_start (clone _ _) = true
is_start _ = false

module _ {P : Machine → Type 0} (env : Env)
    (quiet : (c : Call) → is_start c ≡ true → Safe P (sys_call env c)) where
  pub Safe-socketpair : Safe P (unix_dgram_socketpair env)
  unfolding unix_dgram_socketpair
  Safe-socketpair = search (keeps_rules, quiet)

  pub Safe-start_guard : (cfg : RockerCfg) → Safe P (start_guard env cfg)
  unfolding start_guard
  Safe-start_guard cfg = search (keeps_rules, quiet) depth 12
