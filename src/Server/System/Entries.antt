-- ===== src/Server/System/Entries.antt =====
-- Which guards are in the table, whatever the order of the threads' steps (rocker_server/src/main.rs).
use rocker.Prelude.{
  ◌≡◌, ◌≢◌, ◌↔◌, ◌∙◌, sym, refl, ap, true, false, Bool-cases, inl, inr, Option, none, some, List,
  [], ◌∷◌, ◌++◌, ℤ,
}
use rocker.Outcome.{ok}
use rocker.Config.{RockerCfg, eqb_ℤ, eqb_ℤ_iff, eqb_ℤ_self, lookup}
use rocker.Call.{Env}
use rocker.Machine.{Machine}
use rocker.Core.Resource.{registe_resource}
use rocker.Server.History.{Op, registered, reaped, run_op, apply, registry_of, stopped, applied}
use rocker.Server.Reaper.Table.{registe_resource-lookup}
use rocker.Server.System.{
  Guard, absent, unentered, entered, System, update, Step, starts, registers, gives_up, reaps,
  IsInitial, Reach, ReachInOrder,
}

pub same : (p q : ℤ) → eqb_ℤ p q ≡ true → p ≡ q
same p q e = (eqb_ℤ_iff p q).0 e

module _ (env : Env) where
  -- A lock that is not poisoned after an operation was not before it.
  pub free_before :
      (op : Op) (s : Machine) → (run_op env op s).lock_poisoned ≡ false → s.lock_poisoned ≡ false
  free_before op s h = elim (Bool-cases s.lock_poisoned) [
    | inl p ↦ cc (ap (λ m. m.lock_poisoned) (stopped env op s p), h)
    | inr f ↦ f
  ]

  pub entry_after :
      (op : Op) (s : Machine) (q : ℤ)
      → s.lock_poisoned ≡ false
      → lookup q (run_op env op s).resource ≡ apply op (registry_of s) q
  entry_after op s q h = ap (λ r. r q) (applied env op s h)

-- A guard, the workers that have it still to enter, and its entry.
data Fits : Guard → List RockerCfg → Option RockerCfg → Type 0 where
  idle : Fits absent [] none
  started : (cfg : RockerCfg) → Fits unentered (cfg ∷ []) none
  given_up : Fits unentered [] none
  listed : (cfg : RockerCfg) → Fits entered [] (some cfg)

new_Fits :
    {g : Guard} {l : List RockerCfg} {o : Option RockerCfg} (cfg : RockerCfg)
    → Fits g l o
    → g ≡ absent
    → Fits unentered (cfg ∷ l) o
new_Fits cfg idle e = started cfg
new_Fits cfg (started _) e = cc e
new_Fits cfg given_up e = cc e
new_Fits cfg (listed _) e = cc e

-- The one worker that has a configuration to enter.
sole :
    (before : List RockerCfg) (c cfg : RockerCfg) (rest : List RockerCfg)
    → c ∷ [] ≡ before ++ cfg ∷ rest
    → before ++ rest ≡ []
sole [] c cfg rest e = cc e
sole (b ∷ []) c cfg rest e = cc e
sole (b ∷ b' ∷ bs) c cfg rest e = cc e

pub nobody :
    (before : List RockerCfg) (cfg : RockerCfg) (rest : List RockerCfg) → [] ≢ before ++ cfg ∷ rest
nobody [] cfg rest e = cc e
nobody (b ∷ bs) cfg rest e = cc e

held_Fits :
    {g : Guard} {l : List RockerCfg} {o : Option RockerCfg} (before : List RockerCfg)
    (cfg : RockerCfg) (rest : List RockerCfg)
    → Fits g l o
    → l ≡ before ++ cfg ∷ rest
    → (g ≡ unentered) × ((before ++ rest ≡ []) × (o ≡ none))
held_Fits before cfg rest idle e = absurd (nobody before cfg rest e)
held_Fits before cfg rest (started c) e = (refl, (sole before c cfg rest e, refl))
held_Fits before cfg rest given_up e = absurd (nobody before cfg rest e)
held_Fits before cfg rest (listed _) e = absurd (nobody before cfg rest e)

over_Fits :
    {g : Guard} {l : List RockerCfg} {o : Option RockerCfg}
    → Fits g l o
    → g ≢ absent
    → (l ≢ [] → ⊥)
    → Fits absent l none
over_Fits idle g w = absurd (g refl)
over_Fits (started _) g w = absurd (w (λ e. cc e))
over_Fits given_up g w = idle
over_Fits (listed _) g w = idle

listed_iff :
    {g : Guard} {l : List RockerCfg} {o : Option RockerCfg}
    → Fits g l o
    → (o ≢ none) ↔ (g ≡ entered)
listed_iff idle = (λ h. absurd (h refl), λ e. cc e)
listed_iff (started _) = (λ h. absurd (h refl), λ e. cc e)
listed_iff given_up = (λ h. absurd (h refl), λ e. cc e)
listed_iff (listed _) = (λ h. refl, λ e n. cc n)

abbrev AllFit : System → Type 0
AllFit s = (q : ℤ) → Fits (s.guards q) (s.starting q) (lookup q s.machine.resource)

module _ (env : Env) where
  Step-AllFit :
      {s t : System}
      → Step env s t
      → ((pid : ℤ) → s.starting pid ≢ [] → t.guards pid ≢ absent)
      → t.machine.lock_poisoned ≡ false
      → AllFit s
      → AllFit t
  unfolding update
  Step-AllFit (starts pid cfg {s} gone) ordered free fit q = elim (Bool-cases (eqb_ℤ pid q)) [
    | inl e ↦ rw (e, same pid q e) (new_Fits cfg (fit q) (ap s.guards (sym (same pid q e)) ∙ gone))
    | inr e ↦ rw e (fit q)
  ]
  Step-AllFit (registers pid before cfg rest {s} own) ordered free fit q =
      elim (Bool-cases (eqb_ℤ pid q)) [
        | inl e ↦
            let (g, (l, o)) = held_Fits before cfg rest (fit pid) own in
            rw
              (
                entry_after env (registered cfg pid) s.machine q (free_before env _ s.machine free),
                e,
                g,
                l,
              )
              (listed cfg)
        | inr e ↦
            rw
              (
                entry_after env (registered cfg pid) s.machine q (free_before env _ s.machine free),
                e,
              )
              (fit q)
      ]
  Step-AllFit (gives_up pid before cfg rest {s} own) ordered free fit q =
      elim (Bool-cases (eqb_ℤ pid q)) [
        | inl e ↦
            let (g, (l, o)) = held_Fits before cfg rest (fit pid) own in
            rw (e, sym (same pid q e), g, l, o) given_up
        | inr e ↦ rw e (fit q)
      ]
  Step-AllFit (reaps pid {s} there) ordered free fit q = elim (Bool-cases (eqb_ℤ pid q)) [
    | inl e ↦
        rw
          (
            entry_after env (reaped pid) s.machine q (free_before env _ s.machine free),
            e,
            sym (same pid q e),
          )
          (over_Fits (fit pid) there (λ w. ordered pid w (rw (eqb_ℤ_self pid) refl)))
    | inr e ↦
        rw (entry_after env (reaped pid) s.machine q (free_before env _ s.machine free), e) (fit q)
  ]

  Step-free :
      {s t : System}
      → Step env s t
      → t.machine.lock_poisoned ≡ false
      → s.machine.lock_poisoned ≡ false
  Step-free (starts pid cfg gone) free = free
  Step-free (registers pid before cfg rest {s} own) free = free_before env _ s.machine free
  Step-free (gives_up pid before cfg rest own) free = free
  Step-free (reaps pid {s} there) free = free_before env _ s.machine free

  initial_AllFit : (s : System) → IsInitial s → AllFit s
  unfolding lookup
  initial_AllFit s (none_listed, (_, (no_guard, no_worker))) q =
      rw (none_listed, no_guard q, no_worker q) idle

  ReachInOrder-AllFit :
      {s : System} → ReachInOrder env s → s.machine.lock_poisoned ≡ false → AllFit s
  ReachInOrder-AllFit (ReachInOrder.initial s start) free = initial_AllFit s start
  ReachInOrder-AllFit (ReachInOrder.next {s} {t} before step ordered) free =
      Step-AllFit step ordered free (ReachInOrder-AllFit before (Step-free step free))

  -- While no guard's end is told before its worker has entered it or given up, and until a reaper
  -- panics: the table has entries for exactly the guards that were entered and whose end was not yet
  -- told.
  pub ReachInOrder-listed :
      {s : System}
      → ReachInOrder env s
      → s.machine.lock_poisoned ≡ false
      → (q : ℤ) → lookup q s.machine.resource ≢ none ↔ s.guards q ≡ entered
  ReachInOrder-listed reach free q = listed_iff (ReachInOrder-AllFit reach free q)

  -- While no guard's end is told before its worker has entered it or given up, and until a reaper
  -- panics: a worker that comes to enter its configuration is not refused.
  pub registe_resource-accepted :
      {s : System} (pid : ℤ) (before : List RockerCfg) (cfg : RockerCfg) (rest : List RockerCfg)
      → ReachInOrder env s
      → s.machine.lock_poisoned ≡ false
      → s.starting pid ≡ before ++ cfg ∷ rest
      → (registe_resource cfg pid s.machine).0 ≡ ok tt
  registe_resource-accepted {s} pid before cfg rest reach free own =
      (registe_resource-lookup cfg pid s.machine free).0.1
        (held_Fits before cfg rest (ReachInOrder-AllFit reach free pid) own).1.1

  abbrev AllListed : System → Type 0
  AllListed s = (q : ℤ) → s.guards q ≡ entered → lookup q s.machine.resource ≢ none

  Step-AllListed :
      {s t : System} → Step env s t → t.machine.lock_poisoned ≡ false → AllListed s → AllListed t
  unfolding update
  Step-AllListed (starts pid cfg {s} gone) free all q = elim (Bool-cases (eqb_ℤ pid q)) [
    | inl e ↦ rw e (λ g. cc g)
    | inr e ↦ rw e (all q)
  ]
  Step-AllListed (registers pid before cfg rest {s} own) free all q =
      rw (entry_after env (registered cfg pid) s.machine q (free_before env _ s.machine free))
        elim (Bool-cases (eqb_ℤ pid q)) [ inl e ↦ rw e (λ g n. cc n) | inr e ↦ rw e (all q) ]
  Step-AllListed (gives_up pid before cfg rest {s} own) free all q = all q
  Step-AllListed (reaps pid {s} there) free all q =
      rw (entry_after env (reaped pid) s.machine q (free_before env _ s.machine free))
        elim (Bool-cases (eqb_ℤ pid q)) [ inl e ↦ rw e (λ g. cc g) | inr e ↦ rw e (all q) ]

  -- In any order of the threads' steps, until a reaper panics: for the pid of a guard under which a
  -- configuration was entered and whose end was not yet told, the table has an entry.
  pub Reach-listed :
      {s : System}
      → Reach env s
      → s.machine.lock_poisoned ≡ false
      → (q : ℤ) → s.guards q ≡ entered
      → lookup q s.machine.resource ≢ none
  Reach-listed (Reach.initial s start) free = λ q e. cc (start.1.1.0 q, e)
  Reach-listed (Reach.next before step) free =
      Step-AllListed step free (Reach-listed before (Step-free step free))
