-- ===== src/Server/Reaper/Quiet.antt =====
-- The release of a rocker (core/src/master.rs) and the reaper's part of it (rocker_server/src/main.rs):
-- which calls they make, and which statics they change.
use rocker.Prelude.{ℕ, ◌≡◌, refl, Bool, true, false, Option, none, some, ℤ}
use rocker.Config.{RockerCfg}
use rocker.Call.{Env, Call, open_file, ioctl_none, ioctl_write_int, close, sleep, read_write}
use rocker.Machine.{Machine, Lazy, unused, held, poisoned, sys_call}
use rocker.Server.Reaper.{release_old}
use rocker.Machine.Keeps.{
  Triple, Triple-bind, Triple-info, Triple-pure, Keeps, keeps_rules, Keeps-bind, Keeps-on_error,
  Keeps-check, Keeps-pdie,
}
use rocker.Bytes.{bytes}
use rocker.Core.Utils.{sleep_secs}
use rocker.Core.Loop.{keep_loop_master, poison_loop_master, deref, loop_master, destroy, unbind}
use rocker.Core.Loop.Metal.{loop_ctl_open, ctl_remove}
use rocker.Core.Resource.{
  loop_unbind, some_or_throw, resource_clean, loop_destroy, release_resource,
}

abbrev pub is_release : Call → Bool
is_release (open_file _ _) = true
is_release (ioctl_none _ _) = true
is_release (ioctl_write_int _ _ _) = true
is_release (close _) = true
is_release (sleep _) = true
is_release _ = false

-- For any `P` that these calls keep, and that does not hang on `LOOP_MASTER`.
module _ {P : Machine → Type 0} (env : Env)
    (quiet : (c : Call) → is_release c ≡ true → Keeps P (sys_call env c))
    (keep : (fd : ℕ) → Keeps P (keep_loop_master fd)) (poison : Keeps P poison_loop_master) where
  Keeps-deref : (o : Lazy) → Keeps P (deref env o)
  unfolding loop_ctl_open
  Keeps-deref (held fd) = search keeps_rules
  Keeps-deref poisoned = search keeps_rules
  Keeps-deref unused =
      Keeps-bind _ _
        (Keeps-on_error _ _
          (Keeps-bind _ _ (quiet (open_file read_write (bytes "/dev/loop-control")) refl)
            (λ r. Keeps-check r))
          (λ e. Keeps-bind _ _ poison (λ _. Keeps-pdie)))
        (λ fd. keep fd)

  Keeps-loop_master : Keeps P (loop_master env)
  unfolding loop_master
  Keeps-loop_master = record { at = λ s h. (Keeps-deref s.loop_master).at s h }

  Keeps-some : (o : Option ℤ) → Keeps P (some_or_throw env o)
  Keeps-some none = search keeps_rules
  Keeps-some (some id) = search keeps_rules

  Keeps-clean : (cfg : RockerCfg) → Keeps P (resource_clean env cfg)
  unfolding resource_clean loop_unbind unbind
  Keeps-clean cfg = search (keeps_rules, quiet, Keeps-some) depth 30

  Keeps-destroy : (cfg : RockerCfg) → Keeps P (loop_destroy env cfg)
  unfolding loop_destroy destroy ctl_remove
  Keeps-destroy cfg = search (keeps_rules, quiet, Keeps-some, Keeps-loop_master) depth 30

  sleep-Triple : (n : ℕ) → Triple P (sleep_secs env n) (λ _. P) (λ _ _. ⊥) P
  unfolding sleep_secs sys_call
  sleep-Triple n = record { at = (quiet (sleep n) refl).at }

  -- Its errors are printed and dropped.
  pub release_resource-Triple :
      (cfg : RockerCfg) → Triple P (release_resource env cfg) (λ _. P) (λ _ _. ⊥) P
  unfolding release_resource
  release_resource-Triple cfg =
      Triple-bind (λ _. P) _ _ (Triple-info _ (Keeps-clean cfg))
        (λ _. Triple-bind (λ _. P) _ _ (sleep-Triple 2) (λ _. Triple-info _ (Keeps-destroy cfg)))

  pub release_old-Triple :
      (o : Option RockerCfg) → Triple P (release_old env o) (λ _. P) (λ _ _. ⊥) P
  release_old-Triple none = Triple-pure tt (λ s h. h)
  release_old-Triple (some cfg) = release_resource-Triple cfg
