-- ===== src/Outcome.antt =====
-- How a computation ends: core/src/err.rs, rocker_server/src/err.rs and the macros of
-- core/src/utils/macros.rs that report errors. An error is the kind that began its chain; the texts
-- that `d!` adds to the chain are in Core/Errors.
use rocker.Prelude.{ℕ, Bool, true, false}

-- core/src/err.rs
pub data ErrorKind : Type 0 where
  sucess set_proc_name get_proc_name mnt_proc mnt_loop mnt_overlay unshare_user : ErrorKind
  uid_invalid gid_invalid path_invalid unknown empty_value option_none invalid_path : ErrorKind
  guard_dup : ErrorKind

-- An error of the core crate, the one error of the server crate, and the foreign errors that `?`
-- passes on: a failed system call with its errno, a bad C string, bytes that are no UTF-8.
pub data Error : Type 0 where
  core : ErrorKind → Error
  server_unknown : Error
  sys : ℕ → Error
  bad_c_string bad_utf8 : Error

-- `pending` is a loop that has not ended in the rounds that it was given.
pub data Outcome {ℓ} (A : Type ℓ) : Type ℓ where
  ok : A → Outcome A
  err : Error → Outcome A
  panic : Outcome A
  pending : Outcome A

infixl 5 ◌>>=◌ ◌>>◌
abbrev pub ◌>>=◌ {ℓ κ} : {A : Type ℓ} {B : Type κ} → Outcome A → (A → Outcome B) → Outcome B
ok a >>= f = f a
err e >>= f = err e
panic >>= f = panic
pending >>= f = pending

abbrev pub ◌>>◌ {ℓ} : {B : Type ℓ} → Outcome (Unit {0}) → Outcome B → Outcome B
m >> k = m >>= λ _. k

-- `if test { return Err(e); }`
abbrev pub refuse_if : Bool → Error → Outcome (Unit {0})
refuse_if true e = err e
refuse_if false e = ok tt

-- The computation ends with a result of which `P` holds, or with an error: it neither panics nor goes
-- on for ever.
abbrev pub Gives {ℓ} : {A : Type ℓ} → (A → Type 0) → Outcome A → Type 0
Gives P (ok a) = P a
Gives P (err e) = Unit
Gives P panic = ⊥
Gives P pending = ⊥

pub Gives-bind {ℓ κ} :
    {A : Type ℓ} {B : Type κ} (P : A → Type 0) (Q : B → Type 0) (m : Outcome A) (f : A → Outcome B)
    → Gives P m
    → ((a : A) → P a → Gives Q (f a))
    → Gives Q (m >>= f)
Gives-bind P Q (ok a) f h k = k a h
Gives-bind P Q (err e) f h k = tt
Gives-bind P Q panic f h k = absurd h
Gives-bind P Q pending f h k = absurd h

pub Gives-mono {ℓ} :
    {A : Type ℓ} (P Q : A → Type 0) (m : Outcome A) → ((a : A) → P a → Q a) → Gives P m → Gives Q m
Gives-mono P Q (ok a) f h = f a h
Gives-mono P Q (err e) f h = tt
Gives-mono P Q panic f h = h
Gives-mono P Q pending f h = h
