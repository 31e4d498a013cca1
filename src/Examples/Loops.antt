-- ===== src/Examples/Loops.antt =====
-- The loops of the program.
use mathlib.Core.List.{reverse}
use rocker.Prelude.{true, false, Option, none, some, List, [], ◌∷◌, pos}
use rocker.Bytes.{bytes}
use rocker.Call.{Env, DirEntry, Answer, done, read_dir}
use rocker.Machine.Keeps.{Triple}
use rocker.Machine.Endless.{Endless}
use rocker.Machine.Observe.{Seen, observe}
use rocker.Core.Guard.Ending.{listed_by}
use rocker.Server.Socket.{main}
use rocker.Server.Socket.Jobs.{served_by, Stopped, main-Triple}
use rocker.Server.Reaper.{resource_worker}
use rocker.Server.Reaper.Table.{HasTable}
use rocker.Server.Reaper.Endings.{ended_by, IsClearing, resource_worker-Endless}
use rocker.Examples.Inputs.{calm, cfg}

main-Triple_example :
    Triple
      (Seen served_by [])
      (main calm 3)
      (λ (o, jobs) s. Seen served_by (reverse jobs) s × Stopped 3 [] jobs o)
      (λ _ _. ⊥)
      (Seen served_by [])
main-Triple_example = main-Triple calm 3

resource_worker-Endless_example :
    Endless
      (λ s. Seen ended_by [] s × HasTable ((pos 100, cfg) ∷ []) s)
      (resource_worker calm 5)
      (IsClearing ((pos 100, cfg) ∷ []) false)
      (IsClearing ((pos 100, cfg) ∷ []) true)
resource_worker-Endless_example = resource_worker-Endless calm ((pos 100, cfg) ∷ []) 5

abbrev guard_entry : DirEntry
guard_entry = record { name = bytes "1"; is_dir = true }

abbrev app_entry : DirEntry
app_entry = record { name = bytes "42"; is_dir = true }

-- Process 42 ends between the second and the third listing.
abbrev shown : List (Answer (List (Option DirEntry))) → Answer (List (Option DirEntry))
shown [] = done (some guard_entry ∷ some app_entry ∷ [])
shown (_ ∷ []) = done (some guard_entry ∷ some app_entry ∷ [])
shown (_ ∷ _ ∷ _) = done (some guard_entry ∷ none ∷ [])

unfoldable emptying : Env
unfolding observe
emptying t (read_dir _) = shown (observe listed_by t)
emptying t c = calm t c
