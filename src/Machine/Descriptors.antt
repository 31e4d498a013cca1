-- ===== src/Machine/Descriptors.antt =====
-- The descriptors that a process holds: how many calls have given it one, and how many have taken one
-- back.
use rocker.Bytes.{Bytes}
use rocker.Call.{
  OpenMode, Env, Call, Reply, done, open_file, socketpair, close, socket_unix_datagram,
}
use rocker.Prelude.{
  length-append, ℕ, suc, ◌+◌, ◌≤◌, ◌≡◌, refl, Bool, true, false, [], ◌∷◌, length, arith,
}
use rocker.Outcome.{Error}
use rocker.Machine.{Machine, sys_call}
use rocker.Machine.Keeps.{Triple, Triple-call}
use rocker.Machine.Observe.{View, observe}

abbrev pub given_by : View (Unit {0})
given_by (open_file mode path) (done fd) = tt ∷ []
given_by socketpair (done fds) = tt ∷ tt ∷ []
given_by socket_unix_datagram (done fd) = tt ∷ []
given_by _ _ = []

-- `close` gives its descriptor back also when it fails.
abbrev pub returned_by : View (Unit {0})
returned_by (close fd) _ = tt ∷ []
returned_by _ _ = []

-- `n` descriptors were given and not returned.
abbrev pub Holds : ℕ → Machine → Type 0
Holds n s = length (observe given_by s.trace) ≡ length (observe returned_by s.trace) + n

-- At least `n` descriptors, and at most `k` more.
abbrev pub HoldsUpTo : ℕ → ℕ → Machine → Type 0
HoldsUpTo n k s = (j : ℕ) × ((j ≤ k) × Holds (n + j) s)

-- A call that neither gives nor returns a descriptor.
abbrev pub is_other : Call → Bool
is_other (open_file _ _) = false
is_other socketpair = false
is_other socket_unix_datagram = false
is_other (close _) = false
is_other _ = true

other_unseen :
    (c : Call) (r : Reply c) → is_other c ≡ true → (given_by c r ≡ []) × (returned_by c r ≡ [])
other_unseen (open_file _ _) r h = cc
other_unseen socketpair r h = cc
other_unseen socket_unix_datagram r h = cc
other_unseen (close _) r h = cc
other_unseen _ r h = (refl, refl)

module _ (env : Env) (n : ℕ) {E : Error → Machine → Type 0} {R : Machine → Type 0} where
  pub Holds-other :
      (c : Call) → is_other c ≡ true → Triple (Holds n) (sys_call env c) (λ _. Holds n) E R
  unfolding observe
  Holds-other c h =
      Triple-call env c (λ s e. let (g, b) = other_unseen c (env s.trace c) h in rw (g, b) e)

  -- The two calls that give descriptors.
  pub Holds-open_file :
      (mode : OpenMode) (path : Bytes)
      → Triple
          (Holds n)
          (sys_call env (open_file mode path))
          (λ r. Holds (n + length (given_by (open_file mode path) r)))
          E
          R
  unfolding observe
  Holds-open_file mode path = Triple-call env (open_file mode path) (λ s e. omega (
    arith,
    e,
    length-append (given_by (open_file mode path) (env s.trace (open_file mode path)))
        (observe given_by s.trace),
  ))

  pub Holds-socketpair :
      Triple
        (Holds n)
        (sys_call env socketpair)
        (λ r. Holds (n + length (given_by socketpair r)))
        E
        R
  unfolding observe
  Holds-socketpair = Triple-call env socketpair (λ s e. omega (
    arith,
    e,
    length-append (given_by socketpair (env s.trace socketpair)) (observe given_by s.trace),
  ))

  pub Holds-close : (fd : ℕ) → Triple (Holds (suc n)) (sys_call env (close fd)) (λ _. Holds n) E R
  unfolding observe
  Holds-close fd = Triple-call env (close fd) (λ s e. omega (arith, e))
