-- ===== src/Examples/Inputs.antt =====
-- An environment, a machine, a request and a configuration to run the code on.
use rocker.Call.{
  file, FileKind, sem_open, read_link, eprint, perror, clock_gettime, sem_timedwait, sem_post,
  strftime_now, Env, done, failed, dir, getpwuid, getgrgid, metadata, create_dir_all, open_file,
  write_all, close, socketpair, clone, unshare, send, recv, poll_in, mount, prctl_set_name,
  ioctl_none, ioctl_write_int, kill_sigkill, sleep, read_dir, wait, socket_unix_datagram,
  setsockopt_reuse_addr, setsockopt_reuse_port, bind_abstract, recvfrom, sendmsg,
}
use rocker.Prelude.{
  ◌==◌, if◌then◌else◌, true, false, none, some, List, [], ◌∷◌, pos, replicate, Option,
}
use rocker.Bytes.{Bytes, bytes}
use rocker.Config.{RockerCfg}
use rocker.Machine.{Machine, unused}
use rocker.Machine.Observe.{observe, received_by}
use rocker.Client.Wire.{RockerRequest}
use rocker.Client.Wire.RoundTrip.{request}

-- Every call succeeds; what is received is the number 0.
abbrev pub calm : Env
calm t (getpwuid _) = true
calm t (getgrgid _) = true
calm t (metadata _) = done dir
calm t (create_dir_all _) = done tt
calm t (open_file _ _) = done 7
calm t (write_all _ _) = done tt
calm t (close _) = done tt
calm t socketpair = done (3, 4)
calm t (clone _ _) = done 100
calm t (unshare _) = done tt
calm t (send _ _) = done 4
calm t (recv _ _) = done (0 ∷ 0 ∷ 0 ∷ 0 ∷ [])
calm t (poll_in _ _) = done 1
calm t (mount _ _ _ _ _) = done tt
calm t (prctl_set_name _) = done tt
calm t (ioctl_none _ _) = done (pos 8)
calm t (ioctl_write_int _ _ _) = done (pos 0)
calm t (kill_sigkill _) = done tt
calm t (sleep _) = tt
calm t (read_dir _) = done []
calm t wait = done none
calm t socket_unix_datagram = done 5
calm t (setsockopt_reuse_addr _) = done tt
calm t (setsockopt_reuse_port _) = done tt
calm t (bind_abstract _ _) = done tt
calm t (recvfrom _ _) = failed 4
calm t (sendmsg _ _ _ _) = done 20
calm t (sem_open _) = done 6
calm t (read_link _) = done (bytes "pid:[1]")
calm t (eprint _) = done tt
calm t (perror _) = tt
calm t (strftime_now _) = done (bytes "01-01 00:00:00")
calm t clock_gettime = done (0, 0)
calm t (sem_timedwait _ _) = done tt
calm t (sem_post _) = done tt

-- What a guard sends that starts well: the id of loop device 0, then the code of success.
abbrev next_message : List Bytes → Bytes
next_message [] = 0 ∷ 0 ∷ 0 ∷ 0 ∷ []
next_message (_ ∷ _) = 240 ∷ 216 ∷ 255 ∷ 255 ∷ []

-- As `calm`, with such a guard.
unfoldable pub answering : Env
unfolding observe
answering t (recv _ _) = done (next_message (observe received_by t))
answering t c = calm t c

-- The package is a file, and what else is asked for a directory.
abbrev kind_of : Bytes → FileKind
kind_of (a ∷ b ∷ _) = if b == 112 then file else dir
kind_of _ = dir

-- As `answering`, with such files.
unfoldable pub serving : Env
unfolding answering
serving t (metadata path) = done (kind_of path)
serving t c = answering t c

abbrev pub started : Machine
started = record {
  trace = [];
  loop_master = unused;
  sem_log = unused;
  guard_procname = 0xffff_ffff_ffff_ffff;
  resource = [];
  lock_poisoned = false;
}

abbrev pub cfg : RockerCfg
cfg = record {
  app_id = 1000;
  uid = 1000;
  gid = some 1000;
  app_pkg_path = bytes "/p";
  app_exec_dir = bytes "/e";
  app_data_dir = bytes "/d";
  app_overlay_dirs = bytes "/usr" ∷ [];
  guard_pid = none;
  guard_pname = 0xffff_ffff_ffff_ffff;
  guard_stack = none;
  guard_loop_id = none;
}

abbrev pub overlays : List (Option Bytes)
overlays = some (bytes "/usr") ∷ none ∷ some (bytes "/etc") ∷ replicate 13 none

abbrev pub sample : RockerRequest
sample = request 1000 1000 1000 (bytes "/p") (bytes "/e") (bytes "/d") overlays

-- Numbers that add up to 2 ^ 32, and nothing behind them.
abbrev pub wrapping : Bytes
wrapping =
    1
    ∷ 0
    ∷ 0
    ∷ 0
    ∷ 1
    ∷ 0
    ∷ 0
    ∷ 0
    ∷ 1
    ∷ 0
    ∷ 0
    ∷ 0
    ∷ 255
    ∷ 255
    ∷ 255
    ∷ 127
    ∷ 255
    ∷ 255
    ∷ 255
    ∷ 127
    ∷ 2
    ∷ 0
    ∷ 0
    ∷ 0
    ∷ replicate 64 0
