-- ===== src/Core/Init/BothEnds.antt =====
-- A guard and its master together (core/src/master.rs): `guard_ops` up to its last message, and
-- `RockerCfg::init` from the guard's pid on, over the pair of sockets between them.
use rocker.Machine.Keeps.{Triple-ended, Ends}
use rocker.Core.Init.Handshake.{IsConfused, HasFailed, await_guard-Triple, IsStarted}
use rocker.Core.Init.Heard.{
  gots, gots-story, heard, ends_two, ends_one, ends_both, too_short, never_empty,
}
use rocker.Core.Guard.Protocol.{
  IsEarly, IsLate, IsReady, HasDied, Died, silent, failed_early, device_only, failed_late,
  guard_setup-Triple,
}
use mathlib.Core.Path.{subst}
use rocker.Prelude.{
  ℕ, ◌<◌, ◌^◌, ◌≡◌, refl, sym, ap, ◌∙◌, ◌⊎◌, inl, inr, some, List, [], ◌∷◌, ◌++◌, ℤ, pos, arith,
}
use rocker.Core.Guard.Quiet.{IsFree, sent, Sent}
use rocker.Outcome.{Error, Outcome, ok, err, panic, pending}
use rocker.Bytes.{Bytes}
use rocker.Bytes.LittleEndian.{i32_to_bytes}
use rocker.Config.{RockerCfg}
use rocker.Call.{Env}
use rocker.Machine.{Machine}
use rocker.Machine.Observe.{observe, received_by, Deed, killed, Deeds}
use rocker.Core.Guard.{guard_setup}
use rocker.Core.Guard.Codes.{success}
use rocker.Core.Init.{await_guard}
use rocker.Core.Init.Steps.{code}
use rocker.Core.Init.Story.{
  private, procname, proc, loop, overlay, user, device, no_device, Noted, Means, Failed, cut,
  refused_first, refused_second, Confused, unknown_first, unknown_second,
}
use rocker.Core.Init.Agreed.{guard_codes-Means, code-i32_to_bytes}

-- `LOOP_CTL_GET_FREE` gives the number of a device.
abbrev pub HasDevices : Env → Type 0
HasDevices env = (id : ℤ) → IsFree env id → (n : ℕ) × ((id ≡ pos n) × (n < 2 ^ 31))

abbrev IsCode : Bytes → Type 0
IsCode m = (e : Error) × Means (code m) e

abbrev IsDevice : Bytes → Type 0
IsDevice m = (n : ℕ) × (code m ≡ pos n)

Means-ne-pos : (i : ℤ) (e : Error) (n : ℕ) → Means i e → i ≡ pos n → ⊥
Means-ne-pos _ _ n private h = cc h
Means-ne-pos _ _ n procname h = cc h
Means-ne-pos _ _ n proc h = cc h
Means-ne-pos _ _ n loop h = cc h
Means-ne-pos _ _ n overlay h = cc h
Means-ne-pos _ _ n user h = cc h

Means-ne-success : (i : ℤ) (e : Error) → Means i e → i ≡ success → ⊥
Means-ne-success _ _ private h = ground (arith, h)
Means-ne-success _ _ procname h = ground (arith, h)
Means-ne-success _ _ proc h = ground (arith, h)
Means-ne-success _ _ loop h = ground (arith, h)
Means-ne-success _ _ overlay h = ground (arith, h)
Means-ne-success _ _ user h = ground (arith, h)

Noted-device :
    (cfg cfg' : RockerCfg) (i : ℤ) (n : ℕ)
    → Noted cfg i cfg'
    → i ≡ pos n
    → cfg' ≡ record cfg { guard_loop_id = some (pos n) }
Noted-device cfg _ _ n (device m) e = let same : m ≡ n = cc e in rw same refl
Noted-device cfg _ _ n no_device e = cc e

module _ (genv : Env) (devices : HasDevices genv) (cfg : RockerCfg) where
  sent-IsDevice : (id : ℤ) → IsFree genv id → IsDevice (i32_to_bytes id)
  sent-IsDevice id free =
      let (n, (e, small)) = devices id free in (n, code-i32_to_bytes id (rw e small) ∙ e)

  sent-IsCode : (c : ℤ) → IsEarly c ⊎ IsLate c → IsCode (i32_to_bytes c)
  sent-IsCode c h = (guard_codes-Means c cfg 0 h (omega arith)).0

  -- What the first message of a guard that died stands for, and the second one.
  Died-first :
      (l rest : List Bytes) (m : Bytes) → Died genv l → l ≡ rest ++ m ∷ [] → IsDevice m ⊎ IsCode m
  Died-first _ rest m silent e = absurd (never_empty rest m e)
  Died-first _ rest m (failed_early c h) e =
      inr (subst IsCode (ends_one rest _ m e) (sent-IsCode c (inl h)))
  Died-first _ rest m (device_only id h) e =
      inl (subst IsDevice (ends_one rest _ m e) (sent-IsDevice id h))
  Died-first _ rest m (failed_late id c h k) e =
      inl (subst IsDevice (ends_two rest _ _ m e) (sent-IsDevice id h))

  Died-second :
      (l rest : List Bytes) (second first : Bytes)
      → Died genv l
      → l ≡ rest ++ second ∷ first ∷ []
      → IsCode second
  Died-second _ rest a b silent e = absurd (too_short [] rest a b (omega arith) e)
  Died-second _ rest a b (failed_early c h) e = absurd (too_short _ rest a b (omega arith) e)
  Died-second _ rest a b (device_only id h) e = absurd (too_short _ rest a b (omega arith) e)
  Died-second _ rest a b (failed_late id c h k) e =
      subst IsCode (ends_both rest _ _ a b e).0 (sent-IsCode c (inr k))

  -- How a guard's set-up ends: complete, or with its death.
  abbrev IsEnd : Outcome RockerCfg → Machine → Type 0
  IsEnd o s = (((cfg : RockerCfg) × (o ≡ ok cfg)) × IsReady genv s) ⊎ ((o ≡ panic) × HasDied genv s)

  ready_first :
      (rest : List Bytes) (m : Bytes) (s : Machine)
      → IsReady genv s
      → sent s.trace ≡ rest ++ m ∷ []
      → IsDevice m
  ready_first rest m s (id, (free, e)) h =
      subst IsDevice (ends_two rest _ _ m (sym e ∙ h)) (sent-IsDevice id free)

  ready_second :
      (rest : List Bytes) (second first : Bytes) (s : Machine)
      → IsReady genv s
      → sent s.trace ≡ rest ++ second ∷ first ∷ []
      → code second ≡ success
  ready_second rest second first s (id, (free, e)) h =
      subst (λ m. code m ≡ success) (ends_both rest _ _ second first (sym e ∙ h)).0
        (code-i32_to_bytes success (omega arith))

  module _ (pid : ℕ) (o : Outcome RockerCfg) (g : Machine) (rest : List Bytes)
      (end : IsEnd o g) where
    -- The master has panicked.
    never_puzzled : (d : List Deed) → Confused d → sent g.trace ≡ rest ++ gots d → ⊥
    never_puzzled _ (unknown_first m k n u) h = elim end [
      | inl (_, ready) ↦ (let (j, dev) = ready_first rest m g ready h in cc (n, dev))
      | inr (_, died) ↦ elim (Died-first _ rest m died h) [
        | inl (j, dev) ↦ cc (n, dev)
        | inr (e, mean) ↦ u.1 e mean
      ]
    ]
    never_puzzled _ (unknown_second first second u) h = elim end [
      | inl (_, ready) ↦ u.0 (ready_second rest second first g ready h)
      | inr (_, died) ↦ (let (e, mean) = Died-second _ rest second first died h in u.1 e mean)
    ]

    -- The master has given an error.
    not_left :
        (e : Error) (d : List Deed)
        → Failed pid cfg e d
        → sent g.trace ≡ rest ++ gots d
        → ((past : List Deed) × (d ≡ killed pid ∷ past)) ⊎ (o ≡ panic)
    not_left _ _ (cut e first second todo past split) h = inl (past, refl)
    not_left _ _ (refused_first e m mean) h = elim end [
      | inl (_, ready) ↦
          (let (j, dev) = ready_first rest m g ready h in absurd (Means-ne-pos _ e j mean dev))
      | inr (gone, _) ↦ inr gone
    ]
    not_left _ _ (refused_second e first second mean) h = elim end [
      | inl (_, ready) ↦
          absurd (Means-ne-success _ e mean (ready_second rest second first g ready h))
      | inr (gone, _) ↦ inr gone
    ]

    -- The master has given a configuration.
    complete :
        (cfg' : RockerCfg) (first second : Bytes)
        → Noted cfg (code first) cfg'
        → code second ≡ success
        → sent g.trace ≡ rest ++ second ∷ first ∷ []
        → ((gcfg : RockerCfg) × (o ≡ ok gcfg))
          × ((n : ℕ) × (IsFree genv (pos n) × (cfg' ≡ record cfg { guard_loop_id = some (pos n) })))
    complete cfg' first second noted good h = elim end [
      | inl (whole, (id, (free, e))) ↦
          (let (n, (is_n, small)) = devices id free in
            (
              whole,
              (
                n,
                (
                  subst (IsFree genv) is_n free,
                  Noted-device cfg cfg' _ n noted (
                      ap code (sym (ends_both rest _ _ second first (sym e ∙ h)).1)
                      ∙ code-i32_to_bytes id (rw is_n small)
                      ∙ is_n),
                ),
              ),
            ))
      | inr (_, died) ↦
          (let (x, mean) = Died-second _ rest second first died h in
            absurd (Means-ne-success _ x mean good))
    ]

-- The guard's set-up is complete, and the configuration has the device that the guard was given.
abbrev pub IsUp : Env → Outcome RockerCfg → RockerCfg → RockerCfg → Type 0
IsUp genv o cfg cfg' =
    ((gcfg : RockerCfg) × (o ≡ ok gcfg))
    × ((n : ℕ) × (IsFree genv (pos n) × (cfg' ≡ record cfg { guard_loop_id = some (pos n) })))

-- The guard was killed as the last deed, or it has died by itself.
abbrev pub IsGone : ℕ → Outcome RockerCfg → Machine → Type 0
IsGone pid o s = ((past : List Deed) × Deeds (killed pid ∷ past) s) ⊎ (o ≡ panic)

module _ (genv menv : Env) (devices : HasDevices genv) (pid : ℕ) (cfg : RockerCfg)
    (g : Outcome RockerCfg × Machine) (rest : List Bytes)
    (end : IsEnd genv devices cfg g.0 g.1) where
  agreed :
      (o : Outcome RockerCfg) (s : Machine)
      → sent g.1.trace ≡ rest ++ observe received_by s.trace
      → Ends (IsStarted menv pid cfg) (HasFailed menv pid cfg) (IsConfused menv pid) o s
      → Ends (λ cfg' _. IsUp genv g.0 cfg cfg') (λ _. IsGone pid g.0) (λ _. ⊥) o s
  agreed (ok cfg') s e (first, (second, (noted, (good, deeds)))) =
      complete genv devices cfg pid g.0 g.1 rest end cfg' first second noted good
        (heard _ s _ rest deeds e ∙ ap (λ l. rest ++ l) (gots-story pid cfg first second))
  agreed (err x) s e h =
      not_left genv devices cfg pid g.0 g.1 rest end x _ h (heard _ s _ rest refl e)
  agreed panic s e h =
      never_puzzled genv devices cfg pid g.0 g.1 rest end _ h (heard _ s _ rest refl e)
  agreed pending s e h = h

-- A guard and its master run, each with its own system and from nothing said and done, and what the
-- master receives are the first of the messages that the guard sends, in their order. The system that
-- the guard runs on gives numbers of devices for free loop devices. Then the master never panics. If
-- it gives a configuration, then the guard's set-up is complete, and the configuration has the loop
-- device that the guard was given. If it gives an error, then to kill the guard was its last deed, or
-- the guard has died by itself.
pub start_agrees :
    (genv menv : Env) (guard_fd master_fd pid : ℕ) (gcfg cfg : RockerCfg) (g s : Machine)
    (rest : List Bytes)
    → HasDevices genv
    → Sent [] g
    → Deeds [] s
    → sent (guard_setup genv guard_fd gcfg g).1.trace
      ≡ rest ++ observe received_by (await_guard menv master_fd pid cfg s).1.trace
    → Ends
        (λ cfg' _. IsUp genv (guard_setup genv guard_fd gcfg g).0 cfg cfg')
        (λ _. IsGone pid (guard_setup genv guard_fd gcfg g).0)
        (λ _. ⊥)
        (await_guard menv master_fd pid cfg s).0
        (await_guard menv master_fd pid cfg s).1
start_agrees genv menv guard_fd master_fd pid gcfg cfg g s rest devices silent_guard fresh same =
    agreed genv menv devices pid cfg (guard_setup genv guard_fd gcfg g) rest
      (Triple-ended _ (guard_setup-Triple genv guard_fd gcfg) g silent_guard) _ _ same
      ((await_guard-Triple menv pid master_fd cfg).at s fresh)
