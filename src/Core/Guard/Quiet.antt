-- ===== src/Core/Guard/Quiet.antt =====
-- What the guard sends to its master, and that the steps of its set-up send nothing by themselves.
use rocker.Machine.Keeps.{
  Triple-throw, Triple-call, Triple, Triple-given, Triple-pure, Triple-bind, Keeps, keeps_rules,
  Keeps-bind,
}
use rocker.Core.Loop.Metal.{loop_ctl_get_free_request, ctl_get_free, loop_ctl_open}
use rocker.Call.{ioctl_none, Env, Call, Reply, Answer, done, failed, Event, MsFlag, send}
use rocker.Machine.{check, throw, M, Lazy, unused, held, poisoned, Machine, pure, sys_call}
use rocker.Prelude.{ℤ, ℕ, ◌≡◌, refl, Bool, true, false, Option, List, [], ◌∷◌}
use rocker.Bytes.{Bytes}
use rocker.Config.{RockerCfg}
use rocker.Machine.Observe.{observe, Seen, Seen-call, sent_by}
use rocker.Core.Utils.{mountx, mount_dynfs_proc}
use rocker.Core.Loop.{
  keep_loop_master, poison_loop_master, deref, loop_master, get_loop_dev, bind_pkg,
}
use rocker.Core.Name.{renamed, guard_set_self_name}
use rocker.Core.Mounts.{
  mount_make_rprivate, guard_mnt_loop, mnt_overlay, mnt_overlays, guard_mnt_overlay,
}
use rocker.Core.Guard.{unshare_user}

-- The messages sent, newest first.
abbrev pub sent : List Event → List Bytes
sent = observe sent_by

abbrev pub Sent : List Bytes → Machine → Type 0
Sent = Seen sent_by

-- A call other than `send` sends nothing.
abbrev is_send : Call → Bool
is_send (send _ _) = true
is_send _ = false

sent_by_other : (c : Call) (r : Reply c) → is_send c ≡ false → sent_by c r ≡ []
sent_by_other (send _ _) r h = cc
sent_by_other _ r h = refl

-- Code that gives a result with `W`, and sends nothing.
abbrev pub Yields : {A : Type 0} → List Bytes → (A → Type 0) → M A → Type 0
Yields l W m = Triple (Sent l) m (λ a s. W a × Sent l s) (λ _. Sent l) (Sent l)

-- A number that the system gives for a free loop device.
abbrev pub IsFree : Env → ℤ → Type 0
IsFree env id =
    (t : List Event) × ((fd : ℕ) × (env t (ioctl_none fd loop_ctl_get_free_request) ≡ done id))

module _ {l : List Bytes} (env : Env) where
  Quiet-call : (c : Call) → is_send c ≡ false → Keeps (Sent l) (sys_call env c)
  Quiet-call c h = Seen-call sent_by l env c (λ r. sent_by_other c r h)

  pub Quiet-mountx :
      (from : Option Bytes) (to : Bytes) (fstype : Option Bytes) (flags : List MsFlag)
      (d : Option Bytes)
      → Keeps (Sent l) (mountx env from to fstype flags d)
  unfolding mountx
  Quiet-mountx from to fstype flags d = search (keeps_rules, Quiet-call)

  pub Quiet-make_rprivate : (path : Bytes) → Keeps (Sent l) (mount_make_rprivate env path)
  unfolding mount_make_rprivate
  Quiet-make_rprivate path = search (keeps_rules, Quiet-call)

  Quiet-renamed : (cfg : RockerCfg) (r : Answer (Unit {0})) → Keeps (Sent l) (renamed env cfg r)
  Quiet-renamed cfg (done _) = search keeps_rules
  Quiet-renamed cfg (failed _) = search keeps_rules

  pub Quiet-set_self_name : (cfg : RockerCfg) → Keeps (Sent l) (guard_set_self_name env cfg)
  unfolding guard_set_self_name
  Quiet-set_self_name cfg = search (keeps_rules, Quiet-call, Quiet-renamed)

  pub Quiet-mount_dynfs_proc : Keeps (Sent l) (mount_dynfs_proc env)
  unfolding mount_dynfs_proc
  Quiet-mount_dynfs_proc = search (keeps_rules, Quiet-call)

  Quiet-ctl_open : Keeps (Sent l) (loop_ctl_open env)
  unfolding loop_ctl_open
  Quiet-ctl_open = search (keeps_rules, Quiet-call)

  Quiet-store : (fd : ℕ) → Keeps (Sent l) (keep_loop_master fd)
  unfolding keep_loop_master pure
  Quiet-store fd = record { at = λ s h. h }

  Quiet-poison : Keeps (Sent l) poison_loop_master
  unfolding poison_loop_master pure
  Quiet-poison = record { at = λ s h. h }

  Quiet-deref : (o : Lazy) → Keeps (Sent l) (deref env o)
  Quiet-deref (held fd) = search keeps_rules
  Quiet-deref poisoned = search keeps_rules
  Quiet-deref unused = search (keeps_rules, Quiet-ctl_open, Quiet-store, Quiet-poison)

  Quiet-loop_master : Keeps (Sent l) (loop_master env)
  unfolding loop_master
  Quiet-loop_master = record { at = λ s h. (Quiet-deref s.loop_master).at s h }

  answered :
      (fd : ℕ) (r : Answer ℤ)
      → ((id : ℤ) → r ≡ done id → IsFree env id)
      → Yields l (IsFree env) (check r)
  unfolding check pure throw
  answered fd (done id) free = Triple-pure id (λ s h. (free id refl, h))
  answered fd (failed e) free = Triple-throw _ (λ s h. h)

  Yields-get_free : (fd : ℕ) → Yields l (IsFree env) (ctl_get_free env fd)
  unfolding ctl_get_free observe
  Yields-get_free fd =
      Triple-bind (λ r s. ((id : ℤ) → r ≡ done id → IsFree env id) × Sent l s) _ _
        (Triple-call env (ioctl_none fd loop_ctl_get_free_request)
          (λ s h. (λ id e. (s.trace, (fd, e)), h)))
        (λ r. Triple-given _ (λ free. answered fd r free))

  Yields-get_loop_dev : Yields l (λ (dev, id). IsFree env id) (get_loop_dev env)
  unfolding get_loop_dev
  Yields-get_loop_dev =
      Triple-bind (λ _. Sent l) _ _ Quiet-loop_master
        (λ fd. Triple-bind _ _ _ (Yields-get_free fd) (λ id. Triple-pure _ (λ s h. h)))

  Quiet-bind_pkg : (loop_fd pkg_fd : ℕ) → Keeps (Sent l) (bind_pkg env loop_fd pkg_fd)
  unfolding bind_pkg
  Quiet-bind_pkg loop_fd pkg_fd = search (keeps_rules, Quiet-call)

  -- The number that the guard sends for its loop device is one that the system gave.
  pub Yields-mnt_loop : (cfg : RockerCfg) → Yields l (IsFree env) (guard_mnt_loop env cfg)
  unfolding guard_mnt_loop
  Yields-mnt_loop cfg = Triple-bind _ _ _ Yields-get_loop_dev (λ (dev, id). Triple-given _ (λ free.
      Triple-bind (λ _. Sent l) _ _ (search (keeps_rules, Quiet-call))
        (λ r.
          Triple-bind (λ _. Sent l) _ _ (search keeps_rules)
            (λ loop_fd.
              Triple-bind (λ _. Sent l) _ _ (search (keeps_rules, Quiet-call))
                (λ q.
                  Triple-bind (λ _. Sent l) _ _ (search keeps_rules)
                    (λ pkg_fd.
                      Triple-bind (λ _. Sent l) _ _ (Quiet-bind_pkg loop_fd pkg_fd)
                        (λ _.
                          Triple-bind (λ _. Sent l) _ _ (Quiet-mountx _ _ _ _ _)
                            (λ _. Triple-pure id (λ s h. (free, h))))))))))

  Quiet-overlay : (upper work path : Bytes) → Keeps (Sent l) (mnt_overlay env upper work path)
  unfolding mnt_overlay
  Quiet-overlay upper work path = search (keeps_rules, Quiet-call, Quiet-mountx) depth 12

  Quiet-overlays :
      (upper work : Bytes) (paths : List Bytes) → Keeps (Sent l) (mnt_overlays env upper work paths)
  unfolding mnt_overlays
  Quiet-overlays upper work [] = search keeps_rules
  Quiet-overlays upper work (path ∷ paths) =
      Keeps-bind _ _ (Quiet-overlay upper work path) (λ _. Quiet-overlays upper work paths)

  pub Quiet-mnt_overlay : (cfg : RockerCfg) → Keeps (Sent l) (guard_mnt_overlay env cfg)
  unfolding guard_mnt_overlay
  Quiet-mnt_overlay cfg = Quiet-overlays _ _ _

  pub Quiet-unshare : Keeps (Sent l) (unshare_user env)
  unfolding unshare_user
  Quiet-unshare = search (keeps_rules, Quiet-call)
