-- ===== src/Machine.antt =====
-- The process that runs the code: the calls that it has made, newest first, and its statics, the lazy
-- `LOOP_MASTER` of core/src/loop/mod.rs and `SEM_LOG` of core/src/utils/mod.rs, the counter
-- `GUARD_PROCNAME` of core/src/master.rs and the table `RESOURCE` of rocker_server/src/main.rs with
-- its lock. A `lazy_static` whose first use panics panics at each later use, and so does a lock whose
-- holder has panicked.
pub mod Keeps
pub mod Descriptors
pub mod Success
pub mod Endless
pub mod Observe
pub mod Delays
use rocker.Prelude.{ℕ, Bool, true, false, Option, List, ◌∷◌}
use rocker.Outcome.{Error, sys, Outcome, ok, err, panic, pending}
use rocker.Config.{ResourceHdr}
use rocker.Call.{Call, Reply, Answer, done, failed, Event, Env}

-- A `lazy_static`: not used yet, holding its value, or poisoned.
pub data Lazy : Type 0 where
  unused : Lazy
  held : ℕ → Lazy
  poisoned : Lazy

pub record Machine : Type 0 where
  pub trace : List Event
  pub loop_master : Lazy
  pub sem_log : Lazy
  pub guard_procname : ℕ
  pub resource : ResourceHdr
  pub lock_poisoned : Bool

-- Code that makes calls, and ends with a value, an error or a panic.
abbrev pub M {ℓ} : Type ℓ → Type ℓ
M A = Machine → Outcome A × Machine

unfoldable pub pure {ℓ} : {A : Type ℓ} → A → M A
pure a s = (ok a, s)

unfoldable pub lift {ℓ} : {A : Type ℓ} → Outcome A → M A
lift r s = (r, s)

unfoldable pub throw {ℓ} : {A : Type ℓ} → Error → M A
throw e s = (err e, s)

-- `pdie`: the message that it prints before it panics is not modelled.
unfoldable pub pdie {ℓ} : {A : Type ℓ} → M A
pdie s = (panic, s)

-- One call, answered by the environment.
unfoldable pub sys_call : Env → (c : Call) → M (Reply c)
sys_call env c s =
    let r : Reply c = env s.trace c in
    (ok r, record s { trace = (record { request = c; reply = r }) ∷ s.trace })

-- `.c(d!())?` on a system call's result
unfoldable pub check : {A : Type 0} → Answer A → M A
unfolding pure throw
check (done a) = pure a
check (failed e) = throw (sys e)

abbrev after {ℓ κ} : {A : Type ℓ} {B : Type κ} → Outcome A → (A → M B) → M B
after (ok a) f s = f a s
after (err e) f s = (err e, s)
after panic f s = (panic, s)
after pending f s = (pending, s)

infixl 10 ◌>>=◌ ◌>>◌
-- To unfold this is to unfold what a block is made of, too.
unfoldable pub ◌>>=◌ {ℓ κ} : {A : Type ℓ} {B : Type κ} → M A → (A → M B) → M B
unfolding pure lift throw pdie sys_call check
◌>>=◌ m f s = let (r, s') = m s in after r f s'

abbrev pub ◌>>◌ {ℓ} : {B : Type ℓ} → M (Unit {0}) → M B → M B
m >> k = m >>= λ _. k

abbrev recover {ℓ} : {A : Type ℓ} → (Error → M A) → Outcome A → M A
recover h (ok a) s = (ok a, s)
recover h (err e) s = h e s
recover h panic s = (panic, s)
recover h pending s = (pending, s)

-- `m.map_err(|e| ...)` and `match m { Err(e) => ..., Ok(v) => v }`: code that runs only on an error.
unfoldable pub on_error {ℓ} : {A : Type ℓ} → M A → (Error → M A) → M A
on_error m h s = let (r, s') = m s in recover h r s'

-- `pnk!(m)`: an error is a panic.
abbrev pub pnk {ℓ} : {A : Type ℓ} → M A → M A
pnk m = on_error m (λ _. pdie)

abbrev dismiss {ℓ} : {A : Type ℓ} → Outcome A → Outcome (Unit {0})
dismiss (ok a) = ok tt
dismiss (err e) = ok tt
dismiss panic = panic
dismiss pending = pending

-- `_info!(m)`: an error is printed and dropped.
unfoldable pub info {ℓ} : {A : Type ℓ} → M A → M (Unit {0})
info m s = let (r, s') = m s in (dismiss r, s')

abbrev pub poison_lock {ℓ} : {A : Type ℓ} → Outcome A → Machine → Machine
poison_lock panic s = record s { lock_poisoned = true }
poison_lock _ s = s

-- Code under `hdr.lock().unwrap()`, which holds the lock to its end.
unfoldable pub locked {ℓ} : {A : Type ℓ} → M A → M A
locked m s = elim s.lock_poisoned [
  | true ↦ (panic, s)
  | false ↦ (let (r, s') = m s in (r, poison_lock r s'))
]
