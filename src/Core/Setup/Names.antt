-- ===== src/Core/Setup/Names.antt =====
-- The counter of guard names (core/src/master.rs, `GUARD_PROCNAME` in `RockerCfg::new`).
use rocker.Prelude.{
  inl, ◌⊎◌, ℕ, suc, ◌+◌, ◌-◌, ◌%◌, ◌^◌, ◌<◌, ◌≡◌, ◌≢◌, refl, sym, ◌∙◌, List, [], ◌∷◌, length, arith,
}
use rocker.Machine.Keeps.{
  Triple-given, Triple-after, Triple-result, Triple, Triple-bind, Triple-weaken, Safe,
}
use mathlib.Core.Path.{subst}
use rocker.Outcome.{ok}
use rocker.Config.{RockerCfg}
use rocker.Call.{Env, Call}
use rocker.Machine.{Machine, sys_call, pure}
use rocker.Core.Setup.{Params, next_procname, new}
use rocker.Core.Setup.Quiet.{checks-Triple}

-- The counter below `n`, on a usize of 64 bits.
abbrev before : ℕ → ℕ
before n = (n + 2 ^ 64 - 1) % 2 ^ 64

-- `v` lies `k` below `n`, round the end of the numbers of 64 bits.
abbrev Below : ℕ → ℕ → ℕ → Type 0
Below n k v = (v < 2 ^ 64) × ((v + k ≡ n) ⊎ ((n < k) × (v + k ≡ n + 2 ^ 64)))

Below-before : (n k v : ℕ) → suc k < 2 ^ 64 → Below n k v → Below n (suc k) (before v)
Below-before n k v small h = omega (arith, small, h)

Below-distinct : (n k v : ℕ) → k < 2 ^ 64 → 0 < k → Below n k v → n ≢ v
Below-distinct n k v small pos h = omega (arith, small, pos, h)

abbrev Counts : ℕ → Machine → Type 0
Counts n s = s.guard_procname ≡ n

module _ (env : Env) where
  -- Requests for configurations, one after the other; what becomes of them does not matter.
  unfoldable pub new_all : List Params → Machine → Machine
  new_all [] s = s
  new_all (p ∷ ps) s = new_all ps (new env 64 p s).1

  counted : (n : ℕ) (c : Call) → Safe (Counts n) (sys_call env c)
  unfolding sys_call
  counted n c = record { at = λ s h. h }

  new-Triple_counter :
      (n : ℕ) (p : Params)
      → Triple
          (Counts n)
          (new env 64 p)
          (λ cfg s. (cfg.guard_pname ≡ n) × Counts (before n) s)
          (λ _. Counts (before n))
          (λ _. ⊥)
  unfolding new next_procname pure
  new-Triple_counter n p =
      Triple-bind (λ m s. (m ≡ n) × Counts (before n) s) _ _ (record { at = λ s h. (h, rw h refl) })
        (λ m. Triple-given _ (λ e.
          Triple-weaken _ _ _ _ _ (checks-Triple env (λ c h. counted (before n) c) p m) (λ s h. h)
            (λ cfg s (same, h). (rw same e, h)) (λ e s h. h) (λ s h. h)))

  one_counted :
      (p : Params) (s : Machine) → (new env 64 p s).1.guard_procname ≡ before s.guard_procname
  one_counted p s = Triple-after (new env 64 p) (new-Triple_counter s.guard_procname p) s refl

  result_name :
      (p : Params) (s : Machine) (cfg : RockerCfg)
      → (new env 64 p s).0 ≡ ok cfg
      → cfg.guard_pname ≡ s.guard_procname
  result_name p s cfg e =
      (Triple-result (new env 64 p) (new-Triple_counter s.guard_procname p) s cfg refl e).0

  all_counted :
      (n k : ℕ) (ps : List Params) (s : Machine)
      → k + length ps < 2 ^ 64
      → Below n k s.guard_procname
      → Below n (k + length ps) (new_all ps s).guard_procname
  unfolding new_all
  all_counted n k [] s small h = subst (λ j. Below n j s.guard_procname) (omega arith) h
  all_counted n k (p ∷ ps) s small h =
      let next : Below n (suc k) (new env 64 p s).1.guard_procname =
        rw (one_counted p s) (Below-before n k s.guard_procname (omega (arith, small)) h) in
      subst (λ j. Below n j (new_all ps (new env 64 p s).1).guard_procname) (omega arith)
        (all_counted n (suc k) ps (new env 64 p s).1 (omega (arith, small)) next)

  -- On 64 bits, from a counter below 2 ^ 64, two configurations for requests with fewer than 2 ^ 64 -
  -- 1 requests between them, accepted or refused, have different names: the counter does not come
  -- round to a name in between.
  pub new-distinct :
      (p q : Params) (ps : List Params) (s : Machine) (cfg cfg' : RockerCfg)
      → s.guard_procname < 2 ^ 64
      → suc (length ps) < 2 ^ 64
      → (new env 64 p s).0 ≡ ok cfg
      → (new env 64 q (new_all ps (new env 64 p s).1)).0 ≡ ok cfg'
      → cfg.guard_pname ≢ cfg'.guard_pname
  new-distinct p q ps s cfg cfg' start few first second =
      let n : ℕ = s.guard_procname in
      let mid : Below n 1 (new env 64 p s).1.guard_procname =
        rw (one_counted p s) (Below-before n 0 n (omega arith) (start, inl (omega arith))) in
      let end : Below n (1 + length ps) (new_all ps (new env 64 p s).1).guard_procname =
        all_counted n 1 ps (new env 64 p s).1 (omega (arith, few)) mid in
      λ same.
        Below-distinct n (1 + length ps) _ (omega (arith, few)) (omega arith) end
          (sym (result_name p s cfg first) ∙ same ∙ result_name q _ cfg' second)
