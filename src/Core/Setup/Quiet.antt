-- ===== src/Core/Setup/Quiet.antt =====
-- `RockerCfg::new` (core/src/master.rs) makes no calls but those of its checks, and never panics.
use rocker.Core.Setup.{
  pure, fresh, next_procname, found_or_throw, check_uid, check_gid_of, check_gid, dir_or_create,
  check_dir, file_or_throw, check_path, new, Params,
}
use rocker.Machine.Keeps.{
  Triple-weaken, Triple-pure, Triple-bind, Triple, Safe, keeps_rules, Keeps-bind,
}
use rocker.Prelude.{ℕ, ◌≡◌, refl, Bool, true, false, Option, none, some}
use rocker.Bytes.{Bytes}
use rocker.Config.{RockerCfg}
use rocker.Call.{
  Env, Call, Answer, done, failed, FileKind, file, dir, other_kind, getpwuid, getgrgid, metadata,
  create_dir_all,
}
use rocker.Machine.{◌>>◌, Machine, sys_call}

-- The calls of the checks.
abbrev pub is_check : Call → Bool
is_check (getpwuid _) = true
is_check (getgrgid _) = true
is_check (metadata _) = true
is_check (create_dir_all _) = true
is_check _ = false

-- For any `P` that these calls keep.
module _ {P : Machine → Type 0} (env : Env)
    (quiet : (c : Call) → is_check c ≡ true → Safe P (sys_call env c)) where
  Safe-found : (b : Bool) → Safe P (found_or_throw env b)
  Safe-found true = search keeps_rules
  Safe-found false = search keeps_rules

  Safe-uid : (cfg : RockerCfg) → Safe P (check_uid env cfg)
  unfolding check_uid
  Safe-uid cfg = search (keeps_rules, quiet, Safe-found)

  Safe-gid_of : (gid : Option ℕ) → Safe P (check_gid_of env gid)
  Safe-gid_of none = search keeps_rules
  Safe-gid_of (some gid) = search (keeps_rules, quiet, Safe-found)

  Safe-dir_or_create : (path : Bytes) (r : Answer FileKind) → Safe P (dir_or_create env path r)
  Safe-dir_or_create path (done dir) = search keeps_rules
  Safe-dir_or_create path (done file) = search keeps_rules
  Safe-dir_or_create path (done other_kind) = search keeps_rules
  Safe-dir_or_create path (failed e) = search (keeps_rules, quiet)

  Safe-dir : (path : Bytes) → Safe P (check_dir env path)
  Safe-dir path = Keeps-bind _ _ (quiet (metadata path) refl) (λ r. Safe-dir_or_create path r)

  Safe-file : (k : FileKind) → Safe P (file_or_throw env k)
  Safe-file file = search keeps_rules
  Safe-file dir = search keeps_rules
  Safe-file other_kind = search keeps_rules

  Safe-path : (cfg : RockerCfg) → Safe P (check_path env cfg)
  unfolding check_path
  Safe-path cfg = search (keeps_rules, quiet, Safe-dir, Safe-file) depth 20

  -- The checks of a configuration change nothing in it.
  pub checks-Triple :
      (p : Params) (n : ℕ)
      → Triple P
          (do
            check_uid env (fresh env p n)
            check_gid env (fresh env p n)
            check_path env (fresh env p n)
            pure (fresh env p n))
          (λ cfg s. (cfg ≡ fresh env p n) × P s)
          (λ _. P)
          (λ _. ⊥)
  unfolding check_gid
  checks-Triple p n =
      Triple-bind (λ _. P) _ _ (Safe-uid (fresh env p n))
        (λ _.
          Triple-bind (λ _. P) _ _ (Safe-gid_of p.gid)
            (λ _.
              Triple-bind (λ _. P) _ _ (Safe-path (fresh env p n))
                (λ _. Triple-pure _ (λ s h. (refl, h)))))

  -- A configuration has the parameters that it was asked for.
  pub new-Triple :
      ((w : ℕ) → Safe P (next_procname w))
      → (w : ℕ) (p : Params)
      → Triple P (new env w p) (λ cfg s. ((n : ℕ) × (cfg ≡ fresh env p n)) × P s) (λ _. P) (λ _. ⊥)
  unfolding new
  new-Triple named w p =
      Triple-bind (λ _. P) _ _ (named w)
        (λ n.
          Triple-weaken _ _ _ _ _ (checks-Triple p n) (λ s h. h) (λ cfg s (e, h). ((n, e), h))
            (λ e s h. h) (λ s h. h))
