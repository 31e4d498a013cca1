-- ===== src/Core/Init.antt =====
-- `RockerCfg::init` and what it and the server call afterwards (core/src/master.rs): the master's side
-- of a guard's start. The configuration is returned on success only: on an error its one caller,
-- rocker_server/src/main.rs, drops it.
pub mod Quiet
pub mod Steps
pub mod Story
pub mod Verdict
pub mod Handshake
pub mod Agreed
pub mod Heard
pub mod BothEnds
pub mod Descriptors
pub mod Delays
use rocker.Prelude.{ℕ, Option, none, some, List, [], ◌∷◌, ◌++◌, if◌then◌else◌, ℤ, pos, negsuc}
use rocker.Outcome.{core, unknown, set_proc_name, mnt_proc, mnt_loop, mnt_overlay, unshare_user}
use rocker.Bytes.{Bytes, bytes}
use rocker.Bytes.LittleEndian.{i32_of_bytes}
use rocker.Bytes.Decimal.{decimal}
use rocker.Config.{RockerCfg, eqb_ℤ}
use rocker.Call.{Env, read_only, write_only, open_file, write_all, close}
use rocker.Machine.{M, ◌>>=◌, ◌>>◌, pure, throw, pdie, sys_call, check, on_error}
use rocker.Core.Utils.{kill, unix_dgram_socketpair, recv_timed}
use rocker.Core.Guard.{start_guard}
use rocker.Core.Guard.Codes.{
  success, emnt_proc, emnt_loop, emnt_overlay, eunshare_user, eset_procname, emake_private,
}

-- `check_err!`
unfoldable pub check_err : ℤ → M (Unit {0})
unfolding eqb_ℤ
check_err errno =
    if eqb_ℤ errno success
    then pure tt
    else if eqb_ℤ errno emake_private
    then throw (core unknown)
    else if eqb_ℤ errno eset_procname
    then throw (core set_proc_name)
    else if eqb_ℤ errno emnt_proc
    then throw (core mnt_proc)
    else if eqb_ℤ errno emnt_loop
    then throw (core mnt_loop)
    else if eqb_ℤ errno emnt_overlay
    then throw (core mnt_overlay)
    else if eqb_ℤ errno eunshare_user
    then throw (core unshare_user)
    else pdie

-- The first message: a negative one is a code, any other the id of the loop device.
unfoldable pub note_loop_id : ℤ → RockerCfg → M RockerCfg
unfolding check_err
note_loop_id (pos n) cfg = pure (record cfg { guard_loop_id = some (pos n) })
note_loop_id (negsuc n) cfg = do check_err (negsuc n); pure cfg

-- `format!("/proc/{}/{}", pid, name)`
unfoldable pub proc_path : ℕ → Bytes → Bytes
proc_path pid name = bytes "/proc/" ++ (decimal pid ++ (b'/' ∷ name))

-- `format!("0 {} 1", id)`
unfoldable pub id_map : ℕ → Bytes
id_map id = bytes "0 " ++ (decimal id ++ bytes " 1")

-- The namespaces whose descriptors go to the client, in the order of `NS`.
abbrev pub namespaces : List Bytes
namespaces = bytes "mnt" ∷ bytes "pid" ∷ bytes "user" ∷ []

module _ (env : Env) where
  -- `OpenOptions::new().write(true).open(path).c()?.write_all(text).c()?`; the file is closed by its
  -- drop, also when the write fails.
  unfoldable pub write_file : Bytes → Bytes → M (Unit {0})
  write_file path text = do
    r ← sys_call env (open_file write_only path)
    fd ← check r
    q ← sys_call env (write_all fd text)
    _ ← sys_call env (close fd)
    check q

  unfoldable pub write_uidmap : ℕ → RockerCfg → M (Unit {0})
  unfolding write_file
  write_uidmap pid cfg = write_file (proc_path pid (bytes "uid_map")) (id_map cfg.uid)

  unfoldable pub write_gidmap_of : ℕ → Option ℕ → M (Unit {0})
  unfolding write_file
  write_gidmap_of pid none = pure tt
  write_gidmap_of pid (some gid) = do
    write_file (proc_path pid (bytes "setgroups")) (bytes "deny")
    write_file (proc_path pid (bytes "gid_map")) (id_map gid)

  unfoldable pub write_gidmap : ℕ → RockerCfg → M (Unit {0})
  unfolding write_gidmap_of
  write_gidmap pid cfg = write_gidmap_of pid cfg.gid

  -- `.map_err(|e| { utils::kill_SIGKILL(guard_pid); e })`
  unfoldable pub or_kill {ℓ} : {A : Type ℓ} → ℕ → M A → M A
  unfolding kill
  or_kill pid m = on_error m (λ e. kill env pid >> throw e)

  -- A message of four bytes, waited for at most two seconds.
  unfoldable pub recv_i32 : ℕ → M ℤ
  unfolding recv_timed
  recv_i32 fd = do buf ← recv_timed env fd (0 ∷ 0 ∷ 0 ∷ 0 ∷ []) 2; pure (i32_of_bytes buf)

  -- `init`, from the guard's pid on.
  unfoldable pub await_guard : ℕ → ℕ → RockerCfg → M RockerCfg
  unfolding or_kill recv_i32 note_loop_id check_err write_uidmap write_gidmap
  await_guard master_fd pid cfg = do
    loop_id ← or_kill pid (recv_i32 master_fd)
    cfg' ← note_loop_id loop_id cfg
    errno ← or_kill pid (recv_i32 master_fd)
    check_err errno
    or_kill pid (write_uidmap pid cfg')
    or_kill pid (write_gidmap pid cfg')
    pure cfg'

  unfoldable pub init : RockerCfg → M RockerCfg
  unfolding unix_dgram_socketpair start_guard await_guard
  init cfg = do
    (master_fd, guard_fd) ← unix_dgram_socketpair env
    (pid, cfg') ← start_guard env cfg
    await_guard master_fd pid (record cfg' { guard_pid = some pid })

  abbrev pub guard_pid_of : Option ℕ → M ℕ
  guard_pid_of none = throw (core unknown)
  guard_pid_of (some pid) = pure pid

  unfoldable pub get_guard_pid : RockerCfg → M ℕ
  get_guard_pid cfg = guard_pid_of cfg.guard_pid

  abbrev pub get_guard_pname : RockerCfg → ℕ
  get_guard_pname cfg = cfg.guard_pname

  -- The loop of `get_namespace_fds`: what was opened before an error stays open.
  unfoldable pub open_namespaces : ℕ → List Bytes → List ℕ → M (List ℕ)
  unfolding or_kill
  open_namespaces pid [] fdset = pure fdset
  open_namespaces pid (ns ∷ rest) fdset = do
    fd ←
        or_kill pid
          (do r ← sys_call env (open_file read_only (proc_path pid (bytes "ns/" ++ ns))); check r)
    open_namespaces pid rest (fdset ++ fd ∷ [])

  unfoldable pub get_namespace_fds : RockerCfg → M (List ℕ)
  unfolding get_guard_pid open_namespaces
  get_namespace_fds cfg = do pid ← get_guard_pid cfg; open_namespaces pid namespaces []
