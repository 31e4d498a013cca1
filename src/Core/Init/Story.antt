-- ===== src/Core/Init/Story.antt =====
-- What the master does when it starts a rocker (core/src/master.rs, `RockerCfg::init` from the guard's
-- pid on), and how such a start can end.
use rocker.Prelude.{ℕ, ◌≡◌, ◌≢◌, Option, none, some, List, [], ◌∷◌, ◌++◌, ℤ, pos, negsuc}
use rocker.Outcome.{
  Error, core, unknown, set_proc_name, mnt_proc, mnt_loop, mnt_overlay, unshare_user,
}
use rocker.Bytes.{Bytes, bytes}
use rocker.Config.{RockerCfg}
use rocker.Call.{write_only}
use rocker.Machine.Observe.{Deed, got, wrote, opened, killed}
use rocker.Core.Guard.Codes.{
  success, emnt_proc, emnt_loop, emnt_overlay, eunshare_user, eset_procname, emake_private,
}
use rocker.Core.Init.{id_map, proc_path}
use rocker.Core.Init.Steps.{code}

-- The error that a guard's code stands for.
pub data Means : ℤ → Error → Type 0 where
  private : Means emake_private (core unknown)
  procname : Means eset_procname (core set_proc_name)
  proc : Means emnt_proc (core mnt_proc)
  loop : Means emnt_loop (core mnt_loop)
  overlay : Means emnt_overlay (core mnt_overlay)
  user : Means eunshare_user (core unshare_user)

-- The id of the loop device as it is kept: a first message of success, too, lets the start go on.
pub data Noted (cfg : RockerCfg) : ℤ → RockerCfg → Type 0 where
  device : (n : ℕ) → Noted cfg (pos n) (record cfg { guard_loop_id = some (pos n) })
  no_device : Noted cfg success cfg

-- What the master does for the group, newest first.
abbrev pub gid_deeds : ℕ → Option ℕ → List Deed
gid_deeds pid none = []
gid_deeds pid (some gid) =
    wrote (id_map gid)
    ∷ opened write_only (proc_path pid (bytes "gid_map"))
    ∷ wrote (bytes "deny")
    ∷ opened write_only (proc_path pid (bytes "setgroups"))
    ∷ []

-- Everything that the master does in a start that succeeds, newest first.
abbrev pub story : ℕ → RockerCfg → Bytes → Bytes → List Deed
story pid cfg first second =
    gid_deeds pid cfg.gid
    ++ (wrote (id_map cfg.uid)
        ∷ opened write_only (proc_path pid (bytes "uid_map"))
        ∷ got second
        ∷ got first
        ∷ [])

-- What the master has done, newest first, in a start that fails: it stopped somewhere in the story and
-- killed the guard, or a message of the guard was the code of an error.
pub data Failed (pid : ℕ) (cfg : RockerCfg) : Error → List Deed → Type 0 where
  cut :
      (e : Error) (first second : Bytes) (todo past : List Deed)
      → story pid cfg first second ≡ todo ++ past
      → Failed pid cfg e (killed pid ∷ past)
  refused_first : (e : Error) (m : Bytes) → Means (code m) e → Failed pid cfg e (got m ∷ [])
  refused_second :
      (e : Error) (first second : Bytes)
      → Means (code second) e
      → Failed pid cfg e (got second ∷ got first ∷ [])

-- A number that is neither success nor the code of an error. Of the first message only a negative one
-- is looked at.
abbrev pub IsUnknown : ℤ → Type 0
IsUnknown i = (i ≢ success) × ((e : Error) → Means i e → ⊥)

pub data Confused : List Deed → Type 0 where
  unknown_first :
      (m : Bytes) (k : ℕ) → code m ≡ negsuc k → IsUnknown (code m) → Confused (got m ∷ [])
  unknown_second :
      (first second : Bytes) → IsUnknown (code second) → Confused (got second ∷ got first ∷ [])
