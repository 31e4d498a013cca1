-- ===== src/Core/Resource/Order.antt =====
-- What the release of a rocker asks of the system, in which order (core/src/master.rs,
-- `release_resource`).
use rocker.Prelude.{ℕ, ◌≡◌, refl, some, List, [], ◌∷◌, ℤ}
use rocker.Config.{RockerCfg}
use rocker.Call.{Env, Call, open_file, read_only, ioctl_none, ioctl_write_int, close, sleep}
use rocker.Machine.{Machine, Lazy, held, sys_call, check, info, ◌>>=◌}
use rocker.Machine.Keeps.{
  Triple, Triple-bind, Triple-pure, Triple-weaken, Triple-given, Triple-info,
}
use rocker.Machine.Observe.{Seen}
use rocker.Core.Utils.{sleep_secs}
use rocker.Core.Loop.{loop_path, unbind, destroy}
use rocker.Core.Loop.Metal.{loop_clr_fd_request, loop_ctl_remove_request, ctl_remove}
use rocker.Core.Resource.{loop_unbind, resource_clean, loop_destroy, release_resource}
use rocker.Core.Loop.Opening.{requested, Did, opening, did, kept, loop_master-Triple}

-- The calls of an attempt to unbind device `k`, newest first: it cannot be opened; it can, but not
-- unbound, and stays open; or it is unbound and closed.
pub data Unbinding (k : ℤ) : List Call → Type 0 where
  unopened : Unbinding k (open_file read_only (loop_path k) ∷ [])
  left_bound :
      (fd : ℕ)
      → Unbinding k (ioctl_none fd loop_clr_fd_request ∷ open_file read_only (loop_path k) ∷ [])
  unbound :
      (fd : ℕ)
      → Unbinding k
          (close fd ∷ ioctl_none fd loop_clr_fd_request ∷ open_file read_only (loop_path k) ∷ [])

abbrev HasTried : Lazy → ℤ → Machine → Type 0
HasTried o k s = (u : List Call) × (Unbinding k u × Did o u s)

module _ (env : Env) (o : Lazy) (k : ℤ) where
  abbrev HasRemoved : List Call → Machine → Type 0
  HasRemoved l s =
      (ctl_fd : ℕ) × Seen requested (ioctl_write_int ctl_fd loop_ctl_remove_request k ∷ opening o l)
        s

  closed :
      {R : Machine → Type 0} (l : List Call) (fd : ℕ)
      → Triple
          (Did o l)
          (info (do q ← sys_call env (close fd); check q))
          (λ _. Did o (close fd ∷ l))
          (λ _ _. ⊥)
          R
  closed l fd =
      Triple-info _ (Triple-bind _ _ _ (did env o l (close fd)) (λ q. kept q (λ e s h. h)))

  cleaned :
      (cfg : RockerCfg)
      → cfg.guard_loop_id ≡ some k
      → Triple (Did o []) (resource_clean env cfg) (λ _. HasTried o k) (λ _. HasTried o k) (λ _. ⊥)
  unfolding resource_clean loop_unbind unbind
  cleaned cfg has = rw has (
      Triple-bind (λ id s. (id ≡ k) × Did o [] s) _ _ (Triple-pure k (λ s h. (refl, h)))
        (λ id. Triple-given _ (λ e. rw e (
          Triple-bind _ _ _ (did env o [] (open_file read_only (loop_path k))) (λ r.
            Triple-bind _ _ _ (kept r (λ e s h. (_, (unopened, h)))) (λ fd.
              Triple-bind
                (λ _.
                  Did o
                    (ioctl_none fd loop_clr_fd_request ∷ open_file read_only (loop_path k) ∷ []))
                _ _
                (Triple-bind _ _ _ (did env o _ (ioctl_none fd loop_clr_fd_request)) (λ q.
                  Triple-bind _ _ _ (kept q (λ e s h. (_, (left_bound fd, h))))
                    (λ _. Triple-pure tt (λ s h. h))))
                (λ _.
                  Triple-weaken _ _ _ _ _ (closed _ fd) (λ s h. h) (λ a s h. (_, (unbound fd, h)))
                    (λ e s h. absurd h) (λ s h. h))))))))

  destroyed :
      (l : List Call) (cfg : RockerCfg)
      → cfg.guard_loop_id ≡ some k
      → Triple
          (Did o l)
          (loop_destroy env cfg)
          (λ _. HasRemoved l)
          (λ _. HasRemoved l)
          (λ _. Unit {0})
  unfolding loop_destroy destroy ctl_remove
  destroyed l cfg has = rw has (
      Triple-bind (λ id s. (id ≡ k) × Did o l s) _ _ (Triple-pure k (λ s h. (refl, h)))
        (λ id. Triple-given _ (λ e. rw e (
          Triple-bind (λ fd. Did (held fd) (opening o l)) _ _
            (Triple-weaken _ _ _ _ _ (loop_master-Triple env o l) (λ s h. h) (λ fd s h. h)
              (λ e s h. absurd h) (λ s h. h))
            (λ fd.
              Triple-bind _ _ _ (did env (held fd) _ (ioctl_write_int fd loop_ctl_remove_request k))
                (λ r.
                  Triple-bind _ _ _ (kept r (λ e s h. (fd, h.0)))
                    (λ _. Triple-pure tt (λ s h. (fd, h.0)))))))))

  -- With no call made yet, the release of a rocker that holds loop device `k` returns no error, and it
  -- ends. If it returns, it has tried to unbind the device, has then slept for 2 seconds, and has at
  -- last asked for the removal of the same device, whatever became of the steps before.
  pub release_resource_order :
      (cfg : RockerCfg)
      → cfg.guard_loop_id ≡ some k
      → Triple
          (λ s. Seen requested [] s × (s.loop_master ≡ o))
          (release_resource env cfg)
          (λ _ s.
            (u : List Call) × (Unbinding k u
              × ((ctl_fd : ℕ) × Seen requested
                    (ioctl_write_int ctl_fd loop_ctl_remove_request k ∷ opening o (sleep 2 ∷ u))
                    s)))
          (λ _ _. ⊥)
          (λ _. Unit {0})
  unfolding release_resource sleep_secs
  release_resource_order cfg has =
      Triple-bind (λ _. HasTried o k) _ _
        (Triple-weaken _ _ _ _ _ (Triple-info _ (cleaned cfg has)) (λ s h. h) (λ a s h. h)
          (λ e s h. h) (λ s h. absurd h))
        (λ _. Triple-given _ (λ u. Triple-given _ (λ tried.
          Triple-bind _ _ _ (did env o u (sleep 2)) (λ _.
            Triple-weaken _ _ _ _ _ (Triple-info _ (destroyed (sleep 2 ∷ u) cfg has)) (λ s h. h)
              (λ a s (fd, h). (u, (tried, (fd, h)))) (λ e s h. h) (λ s h. h)))))
