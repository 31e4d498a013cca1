-- ===== src/Server/Worker/Entering.antt =====
-- What `registe_resource` does to the table that a worker finds.
use rocker.Prelude.{◌≡◌, ◌≢◌, sym, ap, ◌∙◌, Bool, true, false, Option, none, some, List, [], ℤ}
use rocker.Config.{RockerCfg, ResourceHdr, lookup, insert}
use rocker.Call.{Event}
use rocker.Machine.{Machine}
use rocker.Machine.Keeps.{
  Ends, Keeps, Triple, Triple-and, Triple-locked, Triple-pure, Triple-throw, Triple-weaken,
}
use rocker.Core.Resource.{refuse_old, enter, registe_resource}
use rocker.Server.Worker.Evidence.{Extends}
use rocker.Server.Worker.Silent.{Idle, After}

entered :
    (cfg : RockerCfg) (pid : ℤ) (t : ResourceHdr) (o : Option RockerCfg)
    → lookup pid t ≡ o
    → Triple
        (Idle [] (insert pid cfg t) false)
        (refuse_old o)
        (λ _ s. (lookup pid t ≡ none) × Idle [] (insert pid cfg t) false s)
        (λ _ s. (lookup pid t ≢ none) × Idle [] (insert pid cfg t) false s)
        (λ _. ⊥)
entered cfg pid t none e = Triple-pure tt (λ s h. (e, h))
entered cfg pid t (some old) e = Triple-throw _ (λ s h. (λ n. cc (e, n), h))

-- Nothing is called.
refused_quietly : {P : Machine → Type 0} (o : Option RockerCfg) → Keeps P (refuse_old o)
refused_quietly none = Triple-pure tt (λ s h. h)
refused_quietly (some old) = Triple-throw _ (λ s h. h)

Extends-registe :
    (past : List Event) (cfg : RockerCfg) (pid : ℤ)
    → Keeps (Extends past) (registe_resource cfg pid)
unfolding registe_resource
Extends-registe past cfg pid =
    Triple-locked (enter cfg pid)
      (record { at = λ s h. (refused_quietly {P = Extends past} (lookup pid s.resource)).at _ h.0 })
      (λ s h e. h)

idle_registe :
    (t : ResourceHdr) (b : Bool) (cfg : RockerCfg) (pid : ℤ)
    → Triple
        (Idle [] t b)
        (registe_resource cfg pid)
        (λ _ s. (b ≡ false) × ((lookup pid t ≡ none) × Idle [] (insert pid cfg t) false s))
        (λ _ s. ((b ≡ false) × (lookup pid t ≢ none)) × Idle [] (insert pid cfg t) false s)
        (λ s. (b ≡ true) × Idle [] t b s)
unfolding registe_resource
idle_registe t b cfg pid =
    Triple-locked (enter cfg pid) (record { at = λ s (h, free). inside s h free })
      (λ s h p. (sym h.1.1 ∙ p, h))
  where
    inside :
        (s : Machine)
        → Idle [] t b s
        → s.lock_poisoned ≡ false
        → Ends
            (λ _ s. (b ≡ false) × ((lookup pid t ≡ none) × Idle [] (insert pid cfg t) false s))
            (λ _ s. ((b ≡ false) × (lookup pid t ≢ none)) × Idle [] (insert pid cfg t) false s)
            (λ s. (b ≡ true) × Idle [] t b (record s { lock_poisoned = true }))
            (enter cfg pid s).0
            (enter cfg pid s).1
    inside s h free =
        (Triple-weaken _ _ _ _ _
            (entered cfg pid t (lookup pid s.resource) (ap (lookup pid) (sym h.1.0))) (λ s h. h)
            (λ a s h'. (sym h.1.1 ∙ free, h')) (λ e s (n, h'). ((sym h.1.1 ∙ free, n), h'))
            (λ s h. absurd h)).at
          _ (h.0, (ap (insert pid cfg) h.1.0, free))

-- If the lock is not poisoned, the entry is made, and an old one leads to an error. If it is, the call
-- panics and nothing changes.
pub registe_resource-Triple :
    (past : List Event) (t : ResourceHdr) (b : Bool) (cfg : RockerCfg) (pid : ℤ)
    → Triple
        (After past [] t b)
        (registe_resource cfg pid)
        (λ _ s. (b ≡ false) × ((lookup pid t ≡ none) × After past [] (insert pid cfg t) false s))
        (λ _ s. ((b ≡ false) × (lookup pid t ≢ none)) × After past [] (insert pid cfg t) false s)
        (λ s. (b ≡ true) × Idle [] t b s)
registe_resource-Triple past t b cfg pid =
    Triple-weaken _ _ _ _ _ (Triple-and _ (idle_registe t b cfg pid) (Extends-registe past cfg pid))
      (λ s h. h) (λ a s ((free, (gone, h)), x). (free, (gone, (h, x))))
      (λ e s ((n, h), x). (n, (h, x))) (λ s (h, x). h)
