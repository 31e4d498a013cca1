-- ===== src/Server/Reaper/Table.antt =====
-- The table of running rockers: what a worker enters (core/src/master.rs, `registe_resource`) and what
-- the reaper takes out (rocker_server/src/main.rs, `resource_worker`).
use rocker.Prelude.{
  Bool, true, false, ℕ, ◌≡◌, ◌↔◌, refl, ap, ◌∙◌, if◌then◌else◌, Option, none, some, ℤ,
}
use rocker.Outcome.{ok}
use rocker.Config.{RockerCfg, ResourceHdr, eqb_ℤ, lookup, remove, lookup-remove, lookup-insert}
use rocker.Call.{Env, Call}
use rocker.Machine.{locked, poison_lock, Machine, pure, throw, sys_call}
use rocker.Machine.Keeps.{Triple-locked, Triple, Triple-weaken, Keeps}
use rocker.Core.Loop.{keep_loop_master, poison_loop_master}
use rocker.Core.Resource.{refuse_old, registe_resource}
use rocker.Server.Reaper.{reap, release_old}
use rocker.Server.Reaper.Quiet.{release_old-Triple}

registe-cases :
    (cfg : RockerCfg) (o : Option RockerCfg) (s : Machine)
    → ((refuse_old o s).0 ≡ ok tt) ↔ (o ≡ none)
unfolding pure throw
registe-cases cfg none s = (λ _. refl, λ _. refl)
registe-cases cfg (some old) s = (λ h. cc, λ h. cc)

refuse_old_keeps : (o : Option RockerCfg) (s : Machine) → (refuse_old o s).1 ≡ s
unfolding pure throw
refuse_old_keeps none s = refl
refuse_old_keeps (some old) s = refl

pub refuse_old_table :
    (o : Option RockerCfg) (t : Machine)
    → (poison_lock (refuse_old o t).0 (refuse_old o t).1).resource ≡ t.resource
unfolding pure throw
refuse_old_table none t = refl
refuse_old_table (some old) t = refl

-- If the lock is not poisoned, then whatever `registe_resource` returns, afterwards the entry of the
-- pid is the new configuration and every other entry is what it was. It succeeds if and only if there
-- was no entry of this pid.
pub registe_resource-lookup :
    (cfg : RockerCfg) (pid : ℤ) (s : Machine)
    → s.lock_poisoned ≡ false
    → ((registe_resource cfg pid s).0 ≡ ok tt ↔ lookup pid s.resource ≡ none)
      × ((q : ℤ)
          → lookup q (registe_resource cfg pid s).1.resource
            ≡ (if eqb_ℤ pid q then some cfg else lookup q s.resource))
unfolding registe_resource locked pure throw
registe_resource-lookup cfg pid s free =
    rw (free, locked)
      (
        registe-cases cfg (lookup pid s.resource) _,
        λ q.
            ap (lookup q) (refuse_old_table (lookup pid s.resource) _)
            ∙ lookup-insert pid q cfg s.resource,
      )

-- The table as it is, with a lock that is not poisoned.
abbrev pub HasTable : ResourceHdr → Machine → Type 0
HasTable t s = (s.resource ≡ t) × (s.lock_poisoned ≡ false)

-- The table without the entry of `pid`, and with all its others.
abbrev pub HasLost : ℤ → ResourceHdr → Machine → Type 0
HasLost pid t s = (q : ℤ) → lookup q s.resource ≡ (if eqb_ℤ pid q then none else lookup q t)

module _ (env : Env) {t : ResourceHdr} where
  Table-call : (c : Call) → Keeps (HasTable t) (sys_call env c)
  unfolding sys_call
  Table-call c = record { at = λ s h. h }

  Table-keep : (fd : ℕ) → Keeps (HasTable t) (keep_loop_master fd)
  unfolding keep_loop_master pure
  Table-keep fd = record { at = λ s h. h }

  Table-poison : Keeps (HasTable t) poison_loop_master
  unfolding poison_loop_master pure
  Table-poison = record { at = λ s h. h }

  Table-release :
      (o : Option RockerCfg)
      → Triple (HasTable t) (release_old env o) (λ _. HasTable t) (λ _ _. ⊥) (HasTable t)
  Table-release = release_old-Triple env (λ c h. Table-call c) Table-keep Table-poison

-- If the lock is not poisoned, then when a guard has ended the reaper takes its entry out of the table
-- and keeps all the others, whatever becomes of the release of what the entry held. It returns no
-- error. If it panics, which it can when it opens the loop control, the entry is gone and the lock is
-- poisoned.
pub reap-Triple :
    (env : Env) (pid : ℤ) (t : ResourceHdr)
    → Triple
        (HasTable t)
        (reap env pid)
        (λ _ s. HasLost pid t s × (s.lock_poisoned ≡ false))
        (λ _ _. ⊥)
        (λ s. HasLost pid t s × (s.lock_poisoned ≡ true))
unfolding reap
reap-Triple env pid t =
    Triple-locked _
      (record { at = λ s (h, _). (taken (lookup pid s.resource)).at _ (ap (remove pid) h.0, h.1) })
      (λ s h e. cc (e, h.1))
  where
    lost : (s : Machine) → HasTable (remove pid t) s → HasLost pid t s
    lost s h q = ap (lookup q) h.0 ∙ lookup-remove pid q t

    taken :
        (o : Option RockerCfg)
        → Triple
            (HasTable (remove pid t))
            (release_old env o)
            (λ _ s. HasLost pid t s × (s.lock_poisoned ≡ false))
            (λ _ _. ⊥)
            (λ s. HasLost pid t s × (Path Bool true true))
    taken o =
        Triple-weaken _ _ _ _ _ (Table-release env o) (λ s h. h) (λ a s h. (lost s h, h.1))
          (λ e s h. h) (λ s h. (lost s h, refl))
