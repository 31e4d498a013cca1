-- ===== src/Call.antt =====
-- What the program asks of the operating system, the C library and the crates it links: one
-- constructor for each call, with the type of its answer. None of this code is under the repository's
-- sources, so the environment that answers is a parameter of the model: any function from the calls
-- made so far, newest first, and the next call to that call's answer.
use rocker.Prelude.{ℕ, Bool, Option, List, ℤ}
use rocker.Bytes.{Bytes}

-- A system call's result: a value, or an errno.
pub data Answer (A : Type 0) : Type 0 where
  done : A → Answer A
  failed : ℕ → Answer A

pub data OpenMode : Type 0 where
  read_only write_only read_write : OpenMode

-- What `fs::metadata` tells of a path.
pub data FileKind : Type 0 where
  file dir other_kind : FileKind

pub data MsFlag : Type 0 where
  ms_rdonly ms_nosuid ms_nodev ms_noexec ms_rec ms_private ms_relatime : MsFlag

pub data CloneFlag : Type 0 where
  clone_newns clone_newpid clone_newuser : CloneFlag

-- An entry of `fs::read_dir("/proc")`: its name below /proc, and whether it is a directory.
pub record DirEntry : Type 0 where
  pub name : Bytes
  pub is_dir : Bool

pub data Call : Type 0 where
  getpwuid getgrgid : ℕ → Call
  metadata create_dir_all : Bytes → Call
  open_file : OpenMode → Bytes → Call
  write_all : ℕ → Bytes → Call
  close : ℕ → Call
  socketpair : Call
  clone : List CloneFlag → ℕ → Call
  unshare : List CloneFlag → Call
  send : ℕ → Bytes → Call
  recv : ℕ → ℕ → Call
  poll_in : List ℕ → ℕ → Call
  mount : Option Bytes → Bytes → Option Bytes → List MsFlag → Option Bytes → Call
  prctl_set_name : Bytes → Call
  ioctl_none : ℕ → ℕ → Call
  ioctl_write_int : ℕ → ℕ → ℤ → Call
  kill_sigkill : ℕ → Call
  sleep : ℕ → Call
  read_dir : Bytes → Call
  wait : Call
  socket_unix_datagram : Call
  setsockopt_reuse_addr setsockopt_reuse_port : ℕ → Call
  bind_abstract : ℕ → Bytes → Call
  recvfrom : ℕ → ℕ → Call
  sendmsg : ℕ → List Bytes → List ℕ → Bytes → Call
  sem_open read_link eprint perror strftime_now : Bytes → Call
  clock_gettime : Call
  sem_timedwait : ℕ → ℕ × ℕ → Call
  sem_post : ℕ → Call

-- `getpwuid` and `getgrgid` answer whether there is an entry. `read_dir` gives none for an entry that
-- could not be read. `wait` gives the pid of the status, where it has one. `recvfrom` gives the
-- datagram and the sender's address. A time is seconds and nanoseconds.
abbrev pub Reply : Call → Type 0
Reply (getpwuid _) = Bool
Reply (getgrgid _) = Bool
Reply (metadata _) = Answer FileKind
Reply (create_dir_all _) = Answer (Unit {0})
Reply (open_file _ _) = Answer ℕ
Reply (write_all _ _) = Answer (Unit {0})
Reply (close _) = Answer (Unit {0})
Reply socketpair = Answer (ℕ × ℕ)
Reply (clone _ _) = Answer ℕ
Reply (unshare _) = Answer (Unit {0})
Reply (send _ _) = Answer ℕ
Reply (recv _ _) = Answer Bytes
Reply (poll_in _ _) = Answer ℕ
Reply (mount _ _ _ _ _) = Answer (Unit {0})
Reply (prctl_set_name _) = Answer (Unit {0})
Reply (ioctl_none _ _) = Answer ℤ
Reply (ioctl_write_int _ _ _) = Answer ℤ
Reply (kill_sigkill _) = Answer (Unit {0})
Reply (sleep _) = Unit {0}
Reply (read_dir _) = Answer (List (Option DirEntry))
Reply wait = Answer (Option ℤ)
Reply socket_unix_datagram = Answer ℕ
Reply (setsockopt_reuse_addr _) = Answer (Unit {0})
Reply (setsockopt_reuse_port _) = Answer (Unit {0})
Reply (bind_abstract _ _) = Answer (Unit {0})
Reply (recvfrom _ _) = Answer (Bytes × Bytes)
Reply (sendmsg _ _ _ _) = Answer ℕ
Reply (sem_open _) = Answer ℕ
Reply (read_link _) = Answer Bytes
Reply (eprint _) = Answer (Unit {0})
Reply (perror _) = Unit {0}
Reply (strftime_now _) = Answer Bytes
Reply clock_gettime = Answer (ℕ × ℕ)
Reply (sem_timedwait _ _) = Answer (Unit {0})
Reply (sem_post _) = Answer (Unit {0})

-- A call that was made, with its answer.
pub record Event : Type 0 where
  pub request : Call
  pub reply : Reply request

abbrev pub Env : Type 0
Env = List Event → (c : Call) → Reply c
