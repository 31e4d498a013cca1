-- ===== src/Core/Init/Heard.antt =====
-- The messages that the master has heard of a guard (core/src/master.rs, `init`), among its deeds and
-- among what the guard has sent.
use rocker.Prelude.{
  ℕ, ◌≤◌, ◌≡◌, refl, sym, ap, ◌∙◌, Option, none, some, List, [], ◌∷◌, ◌++◌, length, length-append,
  arith,
}
use rocker.Bytes.{Bytes}
use rocker.Config.{RockerCfg}
use rocker.Call.{Event, Call, Reply, done, failed, recv, open_file, write_all, kill_sigkill}
use rocker.Machine.{Machine}
use rocker.Machine.Observe.{observe, received_by, deeds_by, Deed, got, wrote, opened, killed, Deeds}
use rocker.Core.Init.Story.{gid_deeds, story}

-- The messages among the deeds.
abbrev pub gots : List Deed → List Bytes
gots [] = []
gots (got m ∷ ds) = m ∷ gots ds
gots (wrote _ ∷ ds) = gots ds
gots (opened _ _ ∷ ds) = gots ds
gots (killed _ ∷ ds) = gots ds

gots-append : (xs ys : List Deed) → gots (xs ++ ys) ≡ gots xs ++ gots ys
gots-append [] ys = refl
gots-append (got m ∷ xs) ys = ap (λ l. m ∷ l) (gots-append xs ys)
gots-append (wrote _ ∷ xs) ys = gots-append xs ys
gots-append (opened _ _ ∷ xs) ys = gots-append xs ys
gots-append (killed _ ∷ xs) ys = gots-append xs ys

gots-deed : (c : Call) (r : Reply c) → gots (deeds_by c r) ≡ received_by c r
gots-deed (recv _ _) (done _) = refl
gots-deed (recv _ _) (failed _) = refl
gots-deed (open_file _ _) (done _) = refl
gots-deed (open_file _ _) (failed _) = refl
gots-deed (write_all _ _) (done _) = refl
gots-deed (write_all _ _) (failed _) = refl
gots-deed (kill_sigkill _) r = refl
gots-deed _ r = refl

gots-deeds : (t : List Event) → gots (observe deeds_by t) ≡ observe received_by t
unfolding observe
gots-deeds [] = refl
gots-deeds (e ∷ t) =
    rw (gots-append (deeds_by e.request e.reply) (observe deeds_by t), gots-deed e.request e.reply)
      (ap (λ l. received_by e.request e.reply ++ l) (gots-deeds t))

gots-gid_deeds : (pid : ℕ) (gid : Option ℕ) → gots (gid_deeds pid gid) ≡ []
gots-gid_deeds pid none = refl
gots-gid_deeds pid (some gid) = refl

pub gots-story :
    (pid : ℕ) (cfg : RockerCfg) (first second : Bytes)
    → gots (story pid cfg first second) ≡ second ∷ first ∷ []
gots-story pid cfg first second =
    rw (gots-append (gid_deeds pid cfg.gid) _, gots-gid_deeds pid cfg.gid) refl

-- What was received is what the deeds tell.
pub heard :
    (d : List Deed) (s : Machine) (l rest : List Bytes)
    → Deeds d s
    → l ≡ rest ++ observe received_by s.trace
    → l ≡ rest ++ gots d
heard d s l rest h e = e ∙ ap (λ r. rest ++ r) (sym (gots-deeds s.trace) ∙ ap gots h)

-- A list that ends as another one does.
pub ends_one : (rest : List Bytes) (x m : Bytes) → x ∷ [] ≡ rest ++ m ∷ [] → x ≡ m
ends_one [] x m e = cc e
ends_one (y ∷ rest) x m e = absurd (omega (arith, ap length e, length-append rest (m ∷ [])))

pub ends_two : (rest : List Bytes) (x y m : Bytes) → x ∷ y ∷ [] ≡ rest ++ m ∷ [] → y ≡ m
ends_two [] x y m e = cc e
ends_two (z ∷ rest) x y m e = ends_one rest y m (cc e)

pub ends_both :
    (rest : List Bytes) (x y a b : Bytes) → x ∷ y ∷ [] ≡ rest ++ a ∷ b ∷ [] → (x ≡ a) × (y ≡ b)
ends_both [] x y a b e = (cc e, cc e)
ends_both (z ∷ rest) x y a b e =
    absurd (omega (arith, ap length e, length-append rest (a ∷ b ∷ [])))

pub too_short : (l rest : List Bytes) (a b : Bytes) → length l ≤ 1 → l ≡ rest ++ a ∷ b ∷ [] → ⊥
too_short l rest a b short e = omega (arith, short, ap length e, length-append rest (a ∷ b ∷ []))

pub never_empty : (rest : List Bytes) (m : Bytes) → [] ≡ rest ++ m ∷ [] → ⊥
never_empty rest m e = omega (arith, ap length e, length-append rest (m ∷ []))
