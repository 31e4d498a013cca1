-- ===== src/Server/History.antt =====
-- The table of running rockers over time: the workers' entries and the reaper's removals, in the order
-- in which they take the lock (core/src/master.rs, rocker_server/src/main.rs), against a map.
pub mod LockedOut
use mathlib.Core.Path.{fun_ext}
use rocker.Prelude.{
  ◌≡◌, refl, sym, ap, ◌∙◌, Bool, true, false, Bool-cases, ◌⊎◌, inl, inr, if◌then◌else◌, Option,
  none, some, List, [], ◌∷◌, ◌++◌, ℤ,
}
use rocker.Config.{RockerCfg, eqb_ℤ, lookup}
use rocker.Call.{Env}
use rocker.Machine.{Machine, locked}
use rocker.Machine.Keeps.{Triple-either}
use rocker.Core.Resource.{registe_resource}
use rocker.Server.Reaper.{reap}
use rocker.Server.Reaper.Table.{HasLost, registe_resource-lookup, reap-Triple}

-- What a thread does under the lock: a worker enters a rocker, or the reaper takes one out.
pub data Op : Type 0 where
  registered : RockerCfg → ℤ → Op
  reaped : ℤ → Op

module _ (env : Env) where
  unfoldable pub run_op : Op → Machine → Machine
  run_op (registered cfg pid) s = (registe_resource cfg pid s).1
  run_op (reaped pid) s = (reap env pid s).1

  unfoldable pub run_ops : List Op → Machine → Machine
  unfolding run_op
  run_ops [] s = s
  run_ops (op ∷ ops) s = run_ops ops (run_op op s)

-- The table as what it promises: for each pid a configuration or none.
abbrev pub Registry : Type 0
Registry = ℤ → Option RockerCfg

abbrev pub apply : Op → Registry → Registry
apply (registered cfg pid) r q = if eqb_ℤ pid q then some cfg else r q
apply (reaped pid) r q = if eqb_ℤ pid q then none else r q

abbrev pub apply_all : List Op → Registry → Registry
apply_all [] r = r
apply_all (op ∷ ops) r = apply_all ops (apply op r)

abbrev pub registry_of : Machine → Registry
registry_of s q = lookup q s.resource

-- The machine's table is what the operations `past` make of `r`. Either these are all the operations
-- and the lock is not poisoned, or it is, and the rest of the operations changed nothing.
pub record Refines (r : Registry) (ops : List Op) (s : Machine) : Type 0 where
  pub past : List Op
  pub lost : List Op
  pub split : ops ≡ past ++ lost
  pub same : registry_of s ≡ apply_all past r
  pub free : (s.lock_poisoned ≡ true) ⊎ ((s.lock_poisoned ≡ false) × (lost ≡ []))

module _ (env : Env) where
  -- A poisoned lock lets no operation through.
  pub stopped : (op : Op) (s : Machine) → s.lock_poisoned ≡ true → run_op env op s ≡ s
  unfolding run_op registe_resource reap locked
  stopped (registered cfg pid) s h = rw (h, locked) refl
  stopped (reaped pid) s h = rw (h, locked) refl

  all_stopped : (ops : List Op) (s : Machine) → s.lock_poisoned ≡ true → run_ops env ops s ≡ s
  unfolding run_ops
  all_stopped [] s h = refl
  all_stopped (op ∷ ops) s h = rw (stopped op s h) (all_stopped ops s h)

  -- One operation with a lock that is not poisoned.
  pub applied :
      (op : Op) (s : Machine)
      → s.lock_poisoned ≡ false
      → registry_of (run_op env op s) ≡ apply op (registry_of s)
  unfolding run_op
  applied (registered cfg pid) s h = fun_ext (λ q. (registe_resource-lookup cfg pid s h).1 q)
  applied (reaped pid) s h = elim (Triple-either _ (reap-Triple env pid s.resource) s (refl, h)) [
    | inl ended ↦ fun_ext ended.0
    | inr ended ↦ fun_ext ended.0
  ]

  -- Whatever the operations and whatever the system answers, the table is what the operations on a map
  -- make, one after the other; or a reaper has panicked at one of them and poisoned the lock, and the
  -- table is what the operations up to this one make, for ever.
  pub run_ops-Refines :
      (ops : List Op) (s : Machine)
      → s.lock_poisoned ≡ false
      → Refines (registry_of s) ops (run_ops env ops s)
  unfolding run_ops
  run_ops-Refines [] s h = record {
    past = [];
    lost = [];
    split = refl;
    same = refl;
    free = inr (h, refl);
  }
  run_ops-Refines (op ∷ ops) s h = elim (Bool-cases (run_op env op s).lock_poisoned) [
    | inl p ↦ record {
      past = op ∷ [];
      lost = ops;
      split = refl;
      same = rw (all_stopped ops (run_op env op s) p) (applied op s h);
      free = rw (all_stopped ops (run_op env op s) p) (inl p);
    }
    | inr f ↦
        let later = run_ops-Refines ops (run_op env op s) f in
        record {
          past = op ∷ later.past;
          lost = later.lost;
          split = ap (λ l. op ∷ l) later.split;
          same = later.same ∙ ap (apply_all later.past) (applied op s h);
          free = later.free;
        }
  ]
