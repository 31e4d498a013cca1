-- ===== src/Examples/Systems.antt =====
-- The server's threads together, from the start of the server.
use rocker.Prelude.{Bool, ◌≡◌, ◌≢◌, ◌↔◌, refl, none, some, [], ◌∷◌, pos}
use rocker.Outcome.{ok}
use rocker.Config.{RockerCfg, lookup, eqb_ℤ}
use rocker.Core.Resource.{registe_resource}
use rocker.Server.History.{registered, run_op}
use rocker.Server.System.{
  absent, unentered, entered, mark, System, update, starts, registers, IsInitial, Reach,
  ReachInOrder,
}
use rocker.Server.System.Entries.{ReachInOrder-listed, registe_resource-accepted, Reach-listed}
use rocker.Server.System.Stale.{race, here, IsStale, race-stays}
use rocker.Server.System.Reused.{mixed, IsMixed, mixed-IsMixed}
use rocker.Machine.{locked, pure}
use rocker.Examples.Inputs.{calm, cfg, started}

abbrev at_start : System
at_start = record { machine = started; guards = λ _. absent; starting = λ _. [] }

at_start-IsInitial : IsInitial at_start
at_start-IsInitial = (refl, (refl, (λ q. refl, λ q. refl)))

-- A worker has started the guard 100 and has it still to enter.
abbrev one_started : System
one_started = record {
  machine = started;
  guards = update (pos 100) unentered (λ _. absent);
  starting = update (pos 100) (cfg ∷ []) (λ _. []);
}

one_started-InOrder : ReachInOrder calm one_started
one_started-InOrder =
    ReachInOrder.next (ReachInOrder.initial at_start at_start-IsInitial) (starts (pos 100) cfg refl)
      (λ pid h. absurd (h refl))

ReachInOrder-listed_example :
    lookup (pos 100) one_started.machine.resource ≢ none ↔ one_started.guards (pos 100) ≡ entered
ReachInOrder-listed_example =
    ReachInOrder-listed calm {s = one_started} one_started-InOrder refl (pos 100)

registe_resource-accepted_example : (registe_resource cfg (pos 100) started).0 ≡ ok tt
unfolding update eqb_ℤ
registe_resource-accepted_example =
    registe_resource-accepted calm {s = one_started} (pos 100) [] cfg [] one_started-InOrder refl
      refl

-- The worker has entered it.
abbrev one_entered : System
one_entered = record {
  machine = run_op calm (registered cfg (pos 100)) started;
  guards = update (pos 100) (mark (one_started.guards (pos 100))) one_started.guards;
  starting = update (pos 100) [] one_started.starting;
}

one_entered-Reach : Reach calm one_entered
unfolding update eqb_ℤ
one_entered-Reach =
    Reach.next (Reach.next (Reach.initial at_start at_start-IsInitial) (starts (pos 100) cfg refl))
      (registers (pos 100) [] cfg [] refl)

one_entered-free : one_entered.machine.lock_poisoned ≡ Bool.false
unfolding run_op registe_resource locked lookup pure
one_entered-free = refl

one_entered-entered : one_entered.guards (pos 100) ≡ entered
unfolding update eqb_ℤ
one_entered-entered = refl

Reach-listed_example : lookup (pos 100) one_entered.machine.resource ≢ none
Reach-listed_example =
    Reach-listed calm one_entered-Reach one_entered-free (pos 100) one_entered-entered

race-stays_example :
    Reach calm (race calm (pos 100) cfg at_start)
    × IsStale (pos 100) cfg (race calm (pos 100) cfg at_start)
unfolding lookup
race-stays_example =
    race-stays calm at_start (pos 100) cfg (race calm (pos 100) cfg at_start)
      (Reach.initial at_start at_start-IsInitial) refl refl refl refl here

-- A configuration with a device of its own.
abbrev other_cfg : RockerCfg
other_cfg = record cfg { guard_loop_id = some (pos 9) }

mixed-IsMixed_example :
    Reach calm (mixed calm (pos 100) cfg other_cfg at_start)
    × IsMixed calm (pos 100) cfg other_cfg (mixed calm (pos 100) cfg other_cfg at_start)
unfolding lookup
mixed-IsMixed_example =
    mixed-IsMixed calm (pos 100) cfg other_cfg at_start (Reach.initial at_start at_start-IsInitial)
      refl refl refl refl
