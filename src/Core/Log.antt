-- ===== src/Core/Log.antt =====
-- How an error is printed (core/src/utils/mod.rs): `p`, under a semaphore that all processes share,
-- and `pdie`. A failure inside `p` makes an error of its own, which `p` prints: `again` is that inner
-- call, and `p` itself takes the depth of such calls that is allowed. The rest of the model leaves
-- printing out.
pub mod Semaphore
pub mod Endless
pub mod Together
use rocker.Prelude.{
  ℕ, zero, suc, ◌+◌, Bool, true, false, Option, none, some, List, [], ◌∷◌, ◌++◌, ◌==◌,
  if◌then◌else◌,
}
use rocker.Outcome.{pending, unknown}
use rocker.Bytes.{Bytes, bytes}
use rocker.Bytes.Decimal.{decimal}
use rocker.Call.{
  Env, Answer, done, failed, sem_open, read_link, eprint, perror, clock_gettime, sem_timedwait,
  sem_post, strftime_now,
}
use rocker.Core.Errors.{Site, ErrorTexts, sgr, errgen_sys, log_line}
use rocker.Machine.{
  M, Lazy, unused, held, poisoned, ◌>>=◌, ◌>>◌, pure, lift, pdie, sys_call, check, pnk,
}

abbrev pub etimedout : ℕ
etimedout = 110

abbrev pub sem_name : Bytes
sem_name = bytes "A_0_3_6_0_8_2_1_9_0_1_              "

unfoldable pub keep_sem : ℕ → M ℕ
keep_sem sem s = pure sem (record s { sem_log = held sem })

-- `perror`: the prompt in red.
abbrev red : Bytes → Bytes
red prompt = sgr (bytes "31;01") ++ (prompt ++ sgr (bytes "00"))

-- A line of core/src/utils/mod.rs.
abbrev pub at_line : ℕ → Site
at_line n = record { file = bytes "core/src/utils/mod.rs"; line = n }

module _ (env : Env) (self_pid : ℕ) {Chain : Type 0} (texts : ErrorTexts Chain) where
  -- The first use of `SEM_LOG`. Where it fails, `pdie` uses `SEM_LOG` within its own first use, which
  -- never ends (`Once` leaves open whether it locks up or panics).
  abbrev open_sem : Answer ℕ → M ℕ
  open_sem (done sem) = keep_sem sem
  open_sem (failed e) = do _ ← sys_call env (perror (red (bytes "sem_open"))); lift pending

  abbrev deref_sem : Lazy → M ℕ
  deref_sem (held sem) = pure sem
  deref_sem poisoned = pdie
  deref_sem unused = do r ← sys_call env (sem_open sem_name); open_sem r

  -- `*SEM_LOG`
  unfoldable pub sem_log : M ℕ
  unfolding keep_sem
  sem_log s = deref_sem s.sem_log s

  -- `get_pidns`
  unfoldable pub get_pidns : ℕ → M Bytes
  get_pidns pid = do
    r ← sys_call env (read_link (bytes "/proc/" ++ (decimal pid ++ bytes "/ns/pid")))
    check r

  module _ (again : Chain → M (Unit {0})) where
    -- `get_clocktime`: an error is printed, and the time is 0.
    abbrev clock_or_zero : Answer (ℕ × ℕ) → M (ℕ × ℕ)
    clock_or_zero (done ts) = pure ts
    clock_or_zero (failed e) = do again (errgen_sys texts unknown e (at_line 98)); pure (0, 0)

    unfoldable pub get_clocktime : M (ℕ × ℕ)
    get_clocktime = do r ← sys_call env clock_gettime; clock_or_zero r

    -- `pdie`, whose message is printed by the inner call
    abbrev die : {A : Type 0} → Chain → M A
    die e = again e >> pdie

    -- A wait that has timed out is as good as one that has not.
    abbrev waited : Answer (Unit {0}) → M (Unit {0})
    waited (done _) = pure tt
    waited (failed e) =
        if e == etimedout then pure tt else die (errgen_sys texts unknown e (at_line 113))

    unfoldable pub sem_get : ℕ → M (Unit {0})
    unfolding get_clocktime
    sem_get sem = do
      (sec, nsec) ← get_clocktime
      r ← sys_call env (sem_timedwait sem (sec + 2, nsec))
      waited r

    abbrev posted : Answer (Unit {0}) → M (Unit {0})
    posted (done _) = pure tt
    posted (failed e) = die (errgen_sys texts unknown e (at_line 119))

    unfoldable pub sem_put : ℕ → M (Unit {0})
    sem_put sem = do r ← sys_call env (sem_post sem); posted r

    -- The body of `p`; an `unwrap` and a failed write to stderr panic with the semaphore taken.
    unfoldable pub print : Chain → M (Unit {0})
    unfolding sem_log sem_get sem_put get_pidns
    print e = do
      sem ← sem_log
      sem_get sem
      ns ← pnk (get_pidns self_pid)
      time ← pnk (do r ← sys_call env (strftime_now (bytes "%m-%d %H:%M:%S")); check r)
      pnk (do
        r ← sys_call env (eprint (log_line ns self_pid time (texts.display_chain e)))
        check r)
      sem_again ← sem_log
      sem_put sem_again

  unfoldable pub p : ℕ → Chain → M (Unit {0})
  unfolding print
  p zero e = lift pending
  p (suc depth) e = print (p depth) e
