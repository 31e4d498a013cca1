-- ===== src/Core/Loop/Opening.antt =====
-- Which calls are made, in which order, and how `*LOOP_MASTER` adds to them (core/src/loop/mod.rs).
use mathlib.Core.Path.{subst}
use rocker.Prelude.{ℕ, ◌≡◌, refl, List, [], ◌∷◌}
use rocker.Outcome.{Error}
use rocker.Bytes.{bytes}
use rocker.Call.{Env, Call, Answer, done, failed, open_file, read_write}
use rocker.Machine.{Machine, Lazy, unused, held, poisoned, sys_call, check, pure}
use rocker.Machine.Keeps.{
  Ends, Triple, Triple-bind, Triple-pure, Triple-throw, Triple-pdie, Triple-call, Triple-on_error,
}
use rocker.Machine.Observe.{View, Seen, observe}
use rocker.Core.Loop.{keep_loop_master, poison_loop_master, deref, loop_master}
use rocker.Core.Loop.Metal.{loop_ctl_open}

-- Every call, newest first.
abbrev pub requested : View Call
requested c _ = c ∷ []

abbrev pub Did : Lazy → List Call → Machine → Type 0
Did o l s = Seen requested l s × (s.loop_master ≡ o)

-- The first use of `*LOOP_MASTER` comes with a call.
abbrev pub opening : Lazy → List Call → List Call
opening unused l = open_file read_write (bytes "/dev/loop-control") ∷ l
opening _ l = l

-- A call that may fail, and no more.
pub kept :
    {A : Type 0} {P : Machine → Type 0} {R : Machine → Type 0} {E : Error → Machine → Type 0}
    (r : Answer A)
    → ((e : Error) (s : Machine) → P s → E e s)
    → Triple P (check r) (λ _. P) E R
unfolding check
kept (done a) h = Triple-pure a (λ s p. p)
kept (failed e) h = Triple-throw _ (h _)

module _ (env : Env) where
  pub did :
      {E : Error → Machine → Type 0} {R : Machine → Type 0} (o : Lazy) (l : List Call) (c : Call)
      → Triple (Did o l) (sys_call env c) (λ _. Did o (c ∷ l)) E R
  unfolding observe
  did o l c = Triple-call env c (λ s h. (rw h.0 refl, h.1))

  kept_open :
      (l : List Call) (fd : ℕ)
      → Triple (Did unused l) (keep_loop_master fd) (λ x. Did (held x) l) (λ _ _. ⊥) (λ _. Unit {0})
  unfolding keep_loop_master pure
  kept_open l fd = record { at = λ s h. (h.0, refl) }

  poisoning :
      {P : Machine → Type 0}
      → Triple P poison_loop_master (λ _ _. Unit {0}) (λ _ _. ⊥) (λ _. Unit {0})
  unfolding poison_loop_master pure
  poisoning = record { at = λ s h. tt }

  deref-Triple :
      (o : Lazy) (l : List Call)
      → Triple
          (Did o l)
          (deref env o)
          (λ fd. Did (held fd) (opening o l))
          (λ _ _. ⊥)
          (λ _. Unit {0})
  unfolding loop_ctl_open
  deref-Triple (held fd) l = Triple-pure fd (λ s h. h)
  deref-Triple poisoned l = Triple-pdie (λ s h. tt)
  deref-Triple unused l =
      Triple-bind (λ _. Did unused (opening unused l)) _ _
        (Triple-on_error (λ _. Did unused (opening unused l)) _ _
          (Triple-bind _ _ _ (did unused l (open_file read_write (bytes "/dev/loop-control")))
            (λ r. kept r (λ e s h. h)))
          (λ e. Triple-bind (λ _ _. Unit {0}) _ _ poisoning (λ _. Triple-pdie (λ s h. tt))))
        (λ fd. kept_open _ fd)

  -- The descriptor of /dev/loop-control is at hand afterwards, or the code has panicked.
  pub loop_master-Triple :
      (o : Lazy) (l : List Call)
      → Triple
          (Did o l)
          (loop_master env)
          (λ fd. Did (held fd) (opening o l))
          (λ _ _. ⊥)
          (λ _. Unit {0})
  unfolding loop_master
  loop_master-Triple o l = record {
    at = λ s h.
        subst
          (λ p.
            Ends (λ fd. Did (held fd) (opening p l)) (λ _ _. ⊥) (λ _. Unit {0})
              (loop_master env s).0 (loop_master env s).1)
          h.1 ((deref-Triple s.loop_master l).at s (h.0, refl));
  }
