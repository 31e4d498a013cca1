-- ===== src/Core/Setup/Checked.antt =====
-- What a configuration has passed when `RockerCfg::new` accepts it (core/src/master.rs).
use rocker.Prelude.{ℕ, ◌≡◌, refl, Bool, true, false, Option, none, some, List, [], ◌∷◌, ◌++◌}
use rocker.Bytes.{Bytes}
use rocker.Config.{RockerCfg}
use rocker.Call.{
  Env, Answer, done, failed, FileKind, file, dir, other_kind, getpwuid, getgrgid, metadata,
  create_dir_all,
}
use rocker.Machine.{pure}
use rocker.Machine.Keeps.{Triple-bind, Triple-pure, Triple-given}
use rocker.Machine.Success.{Gives, Gives-call, Gives-throw, Gives-check}
use rocker.Machine.Observe.{View, Seen}
use rocker.Core.Setup.{
  Params, fresh, next_procname, found_or_throw, check_uid, check_gid_of, check_gid, dir_or_create,
  check_dir, file_or_throw, check_path, new,
}

-- What the system has confirmed.
pub data Fact : Type 0 where
  user group : ℕ → Fact
  directory regular : Bytes → Fact

abbrev pub confirmed_by : View Fact
confirmed_by (getpwuid uid) true = user uid ∷ []
confirmed_by (getgrgid gid) true = group gid ∷ []
confirmed_by (metadata path) (done dir) = directory path ∷ []
confirmed_by (metadata path) (done file) = regular path ∷ []
confirmed_by (create_dir_all path) (done _) = directory path ∷ []
confirmed_by _ _ = []

abbrev pub group_fact : Option ℕ → List Fact
group_fact none = []
group_fact (some gid) = group gid ∷ []

module _ (env : Env) where
  user_found :
      (l : List Fact) (cfg : RockerCfg)
      → Gives (Seen confirmed_by l) (check_uid env cfg) (λ _. Seen confirmed_by (user cfg.uid ∷ l))
  unfolding check_uid
  user_found l cfg = Triple-bind _ _ _ (Gives-call confirmed_by l env (getpwuid cfg.uid)) found
    where
      found :
          (b : Bool)
          → Gives
              (Seen confirmed_by (confirmed_by (getpwuid cfg.uid) b ++ l))
              (found_or_throw env b)
              (λ _. Seen confirmed_by (user cfg.uid ∷ l))
      found true = Triple-pure tt (λ s h. h)
      found false = Gives-throw _

  group_found :
      (l : List Fact) (gid : Option ℕ)
      → Gives
          (Seen confirmed_by l)
          (check_gid_of env gid)
          (λ _. Seen confirmed_by (group_fact gid ++ l))
  group_found l none = Triple-pure tt (λ s h. h)
  group_found l (some gid) = Triple-bind _ _ _ (Gives-call confirmed_by l env (getgrgid gid)) found
    where
      found :
          (b : Bool)
          → Gives
              (Seen confirmed_by (confirmed_by (getgrgid gid) b ++ l))
              (found_or_throw env b)
              (λ _. Seen confirmed_by (group gid ∷ l))
      found true = Triple-pure tt (λ s h. h)
      found false = Gives-throw _

  created :
      (l : List Fact) (path : Bytes)
      → Gives
          (Seen confirmed_by l)
          (dir_or_create env path (failed 0))
          (λ _. Seen confirmed_by (directory path ∷ l))
  created l path =
      Triple-bind _ _ _ (Gives-call confirmed_by l env (create_dir_all path))
        (λ r. Gives-check (λ r. Seen confirmed_by (confirmed_by (create_dir_all path) r ++ l)) r)

  dir_found :
      (l : List Fact) (path : Bytes)
      → Gives
          (Seen confirmed_by l)
          (check_dir env path)
          (λ _. Seen confirmed_by (directory path ∷ l))
  dir_found l path = Triple-bind _ _ _ (Gives-call confirmed_by l env (metadata path)) found
    where
      found :
          (r : Answer FileKind)
          → Gives
              (Seen confirmed_by (confirmed_by (metadata path) r ++ l))
              (dir_or_create env path r)
              (λ _. Seen confirmed_by (directory path ∷ l))
      found (done dir) = Triple-pure tt (λ s h. h)
      found (done file) = Gives-throw _
      found (done other_kind) = Gives-throw _
      found (failed e) = created l path

  file_found :
      (l : List Fact) (path : Bytes) (k : FileKind)
      → Gives
          (Seen confirmed_by (confirmed_by (metadata path) (done k) ++ l))
          (file_or_throw env k)
          (λ _. Seen confirmed_by (regular path ∷ l))
  file_found l path file = Triple-pure tt (λ s h. h)
  file_found l path dir = Gives-throw _
  file_found l path other_kind = Gives-throw _

  paths_found :
      (l : List Fact) (cfg : RockerCfg)
      → Gives (Seen confirmed_by l) (check_path env cfg) (λ _.
        Seen confirmed_by
          (regular cfg.app_pkg_path ∷ directory cfg.app_data_dir ∷ directory cfg.app_exec_dir ∷ l))
  unfolding check_path
  paths_found l cfg = Triple-bind _ _ _ (dir_found l cfg.app_exec_dir) (λ _.
      Triple-bind _ _ _ (dir_found _ cfg.app_data_dir) (λ _.
        Triple-bind _ _ _ (Gives-call confirmed_by _ env (metadata cfg.app_pkg_path)) (λ r.
          Triple-bind _ _ _
            (Gives-check (λ r. Seen confirmed_by (confirmed_by (metadata cfg.app_pkg_path) r ++ _))
              r)
            (λ k. file_found _ cfg.app_pkg_path k))))

  -- From nothing confirmed and the counter `n`, `RockerCfg::new` ends, and if it accepts, then the
  -- configuration has the parameters that it was asked for and the name that the counter gave, and the
  -- system has confirmed these things in this order and no others: the user, the group if there is
  -- one, that the two directories are there or have been made, and that the package is a file.
  pub new-Gives :
      (w n : ℕ) (p : Params)
      → Gives
          (λ s. Seen confirmed_by [] s × (s.guard_procname ≡ n))
          (new env w p)
          (λ cfg s.
            (cfg ≡ fresh env p n)
            × Seen confirmed_by
                (regular p.app_pkg_path
                    ∷ directory p.app_data_dir
                    ∷ directory p.app_exec_dir
                    ∷ group_fact p.gid
                  ++ user p.uid ∷ [])
                s)
  unfolding new next_procname pure check_gid
  new-Gives w n p =
      Triple-bind (λ m s. (m ≡ n) × Seen confirmed_by [] s) _ _ (record { at = λ s h. (h.1, h.0) })
        (λ m. Triple-given _ (λ e. rw e (
          Triple-bind _ _ _ (user_found [] (fresh env p n)) (λ _.
            Triple-bind _ _ _ (group_found (user p.uid ∷ []) p.gid) (λ _.
              Triple-bind _ _ _ (paths_found _ (fresh env p n))
                (λ _. Triple-pure _ (λ s h. (refl, h))))))))
