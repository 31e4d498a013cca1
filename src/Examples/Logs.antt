-- ===== src/Examples/Logs.antt =====
-- Errors that are printed.
use rocker.Prelude.{arith, some, ◌+◌, [], ◌≡◌, refl, inl}
use rocker.Core.Errors.Sites.{d-injective}
use rocker.Core.Log.{at_line, etimedout, p}
use rocker.Machine.{pure, held}
use rocker.Core.Log.Together.{
  wait_failed, SemReach-balanced, taken, get, start, later, SemReach, Shared, Process,
}
use rocker.Call.{done, Env, failed, sem_timedwait}
use rocker.Bytes.{bytes, Bytes}
use rocker.Core.Errors.{ErrorTexts}
use rocker.Outcome.{pending}
use rocker.Machine.Keeps.{Triple}
use rocker.Core.Log.Semaphore.{Ahead, IsWorking, p-Triple}
use rocker.Core.Log.Endless.{IsInterrupted, p-pending}
use rocker.Examples.Inputs.{calm, started}

-- Of an error just its topmost text is kept.
abbrev plain : ErrorTexts Bytes
plain = record {
  from = λ kind. [];
  chain_err = λ text rest. text;
  display_chain = λ text. text;
  desc = λ e. bytes "failed";
}

calm_works : IsWorking calm
calm_works = record {
  clock = λ t. ((0, 0), refl);
  wait = λ t sem ts. inl refl;
  post = λ t sem. refl;
}

p-Triple_example : Triple (Ahead 6 0) (p calm 42 plain 1 []) (λ _. Ahead 6 0) (λ _ _. ⊥) (Ahead 6 1)
p-Triple_example = p-Triple calm calm_works 42 plain 6 0 0 []

-- Waiting is interrupted by a signal.
abbrev interrupting : Env
interrupting t (sem_timedwait _ _) = failed 4
interrupting t c = calm t c

interrupting_stops : IsInterrupted interrupting 4
interrupting_stops = record { clock = λ t. ((0, 0), refl); wait = λ t sem ts. refl; untimed = refl }

p-pending_example : (p interrupting 42 plain 5 [] (record started { sem_log = held 6 })).0 ≡ pending
p-pending_example =
    p-pending interrupting 4 interrupting_stops 42 plain 6 5 []
      (record started { sem_log = held 6 }) refl

abbrev printer : Process Bytes
printer = record { env = calm; pid = 42; again = p calm 42 plain 1; state = started }

-- One process waits for another for two seconds and enters.
abbrev both_inside : Shared
both_inside = record { value = 0; inside = 2; dead = 0; expired = 1 }

both_enter : SemReach plain both_inside
unfolding pure
both_enter =
    later (later start (get printer {r = done tt} taken refl))
      (get printer {r = failed etimedout} wait_failed refl)

SemReach-balanced_example :
    both_inside.value + both_inside.inside + both_inside.dead ≡ 1 + both_inside.expired
SemReach-balanced_example = SemReach-balanced plain both_enter

-- An error of a failed call, reported at one line.
d-injective_example :
    (some (plain.desc 3) ≡ some (bytes "failed"))
    × (((at_line 98).file ≡ (at_line 98).file) × ((at_line 98).line ≡ (at_line 98).line))
d-injective_example =
    d-injective (some (plain.desc 3)) (some (bytes "failed")) (at_line 98) (at_line 98)
      (ground arith) (ground arith) refl
