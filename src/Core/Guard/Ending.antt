-- ===== src/Core/Guard/Ending.antt =====
-- How a guard ends: it waits until /proc shows no other process (core/src/master.rs, the loop of
-- `guard_ops` and `guard_running_alone`).
use rocker.Machine.Observe.{View, observe}
use rocker.Call.{Env, DirEntry, Event, Answer, done, failed, read_dir}
use rocker.Prelude.{ℕ, ◌≤◌, ◌≡◌, ◌≢◌, true, Option, none, some, List, [], ◌∷◌, length, All}
use rocker.Core.Guard.{pure}
use rocker.Bytes.{bytes}
use rocker.Bytes.Decimal.{parse_u32}
use rocker.Machine.{Machine, pure}

-- An entry of /proc for a process that is not the guard: a directory whose name is a number other than
-- 1.
abbrev pub IsOther : Option DirEntry → Type 0
IsOther none = ⊥
IsOther (some d) = (d.is_dir ≡ true) × ((pid : ℕ) × ((parse_u32 d.name ≡ some pid) × (pid ≢ 1)))

abbrev pub IsAlone : List (Option DirEntry) → Type 0
IsAlone = All (λ d. ¬ IsOther d)

-- The listings of /proc, newest first.
abbrev pub listed_by : View (Answer (List (Option DirEntry)))
listed_by (read_dir path) r = r ∷ []
listed_by _ _ = []

-- After `n` listings, those that succeed show the guard alone.
pub record EndsAfter (env : Env) (n : ℕ) : Type 0 where
  pub left :
      (t : List Event)
      → n ≤ length (observe listed_by t)
      → (ds : List (Option DirEntry)) → env t (read_dir (bytes "/proc")) ≡ done ds
      → IsAlone ds

-- The listing that was made last, at the machine `s`, and how many came before it.
abbrev Listed : Answer (List (Option DirEntry)) → ℕ → Machine → Type 0
Listed r k s =
    (rest : List (Answer (List (Option DirEntry)))) × ((observe listed_by s.trace ≡ r ∷ rest)
      × (length rest ≡ k))

-- The last listing shows the guard alone.
abbrev pub SeesNone : Machine → Type 0
SeesNone s = (ds : List (Option DirEntry)) × (IsAlone ds × ((k : ℕ) × Listed (done ds) k s))

-- The last listing has failed.
abbrev pub IsBlind : Machine → Type 0
IsBlind s = (e : ℕ) × ((k : ℕ) × Listed (failed e) k s)

module _ (env : Env) (n : ℕ) (ends : EndsAfter env n) where
  -- `k` listings were made.
  abbrev HasMade : ℕ → Machine → Type 0
  HasMade k s = length (observe listed_by s.trace) ≡ k

  -- What a listing that comes after `k` others may show.
  abbrev Fits : ℕ → Answer (List (Option DirEntry)) → Type 0
  Fits k r = (ds : List (Option DirEntry)) → r ≡ done ds → n ≤ k → IsAlone ds
