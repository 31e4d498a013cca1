-- ===== src/Server/Worker/Delays.antt =====
-- How long a worker waits (rocker_server/src/main.rs, `worker`; core/src/master.rs): the two messages of
-- the guard, and nothing else.
use rocker.Prelude.{
  ◌++◌, ℕ, ◌+◌, ◌<◌, ◌^◌, ◌≡◌, refl, true, All, List, [], ◌∷◌, Option, none, some, length, arith, ℤ,
  negsuc,
}
use rocker.Bytes.{Bytes, IsByte}
use rocker.Bytes.LittleEndian.{i32_of_bits}
use rocker.Config.{RockerCfg, lookup}
use rocker.Call.{Env, Call, getpwuid, getgrgid, metadata, create_dir_all}
use rocker.Machine.{Machine, M, pure, sys_call}
use rocker.Machine.Keeps.{
  Triple, Triple-bind, Triple-given, Triple-on_error, Triple-weaken, Triple-pure, Triple-pdie,
  Triple-info, Triple-locked, Safe, Keeps, keeps_rules,
}
use rocker.Machine.Delays.{Waited, Waited-prompt}
use rocker.Core.Setup.{next_procname}
use rocker.Core.Setup.Quiet.{is_check, new-Triple}
use rocker.Core.Init.{get_namespace_fds, get_guard_pid, namespaces, guard_pid_of, open_namespaces}
use rocker.Core.Init.Delays.{Lasts-init, Waited-call, Lasts-or_kill}
use rocker.Core.Resource.{refuse_old, enter, registe_resource}
use rocker.Server.Request.Total.{WellFormed, parse_params-WellFormed}
use rocker.Server.Worker.{req_parse, send_resq, close_all, send_back, or_refuse, worker}
use rocker.Server.Worker.Sending.{lifted}

module _ (env : Env) (serv_fd : ℕ) (peeraddr : Bytes) (k : ℕ) where
  sent :
      (pid : ℤ) (name : ℕ) (fds : List ℕ)
      → Triple
          (Waited k)
          (send_back env serv_fd peeraddr pid name fds)
          (λ _. Waited k)
          (λ _ _. ⊥)
          (Waited k)
  unfolding send_back send_resq
  sent pid name fds =
      Triple-on_error (λ _. Waited k) _ _ (search (keeps_rules, Waited-call) depth 12)
        (λ e. Triple-pdie (λ s h. h))

  refusing :
      {A : Type 0} {P : Machine → Type 0} {Q : A → Machine → Type 0} (ops : M A)
      → Triple P ops Q (λ _. Waited k) (Waited k)
      → Triple P (or_refuse env serv_fd peeraddr ops) Q (λ _ _. ⊥) (Waited k)
  unfolding or_refuse
  refusing ops h =
      Triple-on_error (λ _. Waited k) ops _ h
        (λ e. Triple-bind (λ _. Waited k) _ _ (sent (negsuc 0) 0 []) (λ _. Triple-pdie (λ s h. h)))

  closing :
      (fds : List ℕ) → Triple (Waited k) (close_all env fds) (λ _. Waited k) (λ _ _. ⊥) (Waited k)
  unfolding close_all
  closing [] = Triple-pure tt (λ s h. h)
  closing (fd ∷ fds) =
      Triple-bind (λ _. Waited k) _ _ (Triple-info _ (search (keeps_rules, Waited-call) depth 12))
        (λ _. closing fds)

  own_of : (o : Option ℕ) → Keeps (Waited k) (guard_pid_of env o)
  own_of none = search keeps_rules
  own_of (some pid) = search keeps_rules

  own : (cfg : RockerCfg) → Keeps (Waited k) (get_guard_pid env cfg)
  unfolding get_guard_pid
  own cfg = own_of cfg.guard_pid

  opening :
      (pid : ℕ) (nss : List Bytes) (fds : List ℕ)
      → Keeps (Waited k) (open_namespaces env pid nss fds)
  unfolding open_namespaces
  opening pid [] fds = search keeps_rules
  opening pid (ns ∷ nss) fds =
      Triple-bind (λ _. Waited k) _ _
        (Lasts-or_kill env k pid _ (search (keeps_rules, Waited-call) depth 12))
        (λ fd. opening pid nss (fds ++ fd ∷ []))

  fetched : (cfg : RockerCfg) → Keeps (Waited k) (get_namespace_fds env cfg)
  unfolding get_namespace_fds
  fetched cfg = Triple-bind (λ _. Waited k) _ _ (own cfg) (λ pid. opening pid namespaces [])

  entered : (o : Option RockerCfg) → Keeps (Waited k) (refuse_old o)
  entered none = search keeps_rules
  entered (some cfg) = search keeps_rules

  registered : (cfg : RockerCfg) (pid : ℤ) → Keeps (Waited k) (registe_resource cfg pid)
  unfolding registe_resource
  registered cfg pid =
      Triple-locked (enter cfg pid)
        (record { at = λ s h. (entered (lookup pid s.resource)).at _ h.0 }) (λ s h e. h)

module _ (env : Env) (serv_fd : ℕ) (peeraddr : Bytes) (n : ℕ) where
  checked : (c : Call) → is_check c ≡ true → Safe (Waited n) (sys_call env c)
  checked (getpwuid uid) h = Waited-prompt env n (getpwuid uid) refl
  checked (getgrgid gid) h = Waited-prompt env n (getgrgid gid) refl
  checked (metadata path) h = Waited-prompt env n (metadata path) refl
  checked (create_dir_all path) h = Waited-prompt env n (create_dir_all path) refl
  checked c h = cc h

  next : (w : ℕ) → Safe (Waited n) (next_procname w)
  unfolding next_procname pure
  next w = record { at = λ s h. h }

  parsed :
      (req : Bytes)
      → All IsByte req
      → length req < 2 ^ 63
      → Triple
          (Waited n)
          (req_parse env 64 req)
          (λ _. Waited n)
          (λ _. Waited (4000 + n))
          (Waited (4000 + n))
  unfolding req_parse
  parsed req bytes_only small =
      Triple-bind _ _ _
        (Triple-weaken _ _ _ _ _
          (lifted env serv_fd peeraddr WellFormed _ (parse_params-WellFormed req bytes_only small))
          (λ s h. h) (λ a s h. h) (λ e s h. omega (arith, h)) (λ s h. absurd h))
        (λ p. Triple-given _ (λ e.
          Triple-weaken _ _ _ _ _ (new-Triple env checked next 64 p) (λ s h. h) (λ a s (m, h). h)
            (λ e s h. omega (arith, h)) (λ s h. absurd h)))

  -- With 64 bits in a usize and on a datagram of less than 2 ^ 63 bytes, a worker ends, and the time
  -- limits of its polls and its sleeps are together at most 4000 milliseconds, however it ends.
  pub worker-Waited :
      (req : Bytes)
      → All IsByte req
      → length req < 2 ^ 63
      → Triple
          (Waited n)
          (worker env serv_fd peeraddr 64 req)
          (λ _. Waited (4000 + n))
          (λ _ _. ⊥)
          (Waited (4000 + n))
  unfolding worker
  worker-Waited req bytes_only small =
      let k = 4000 + n in
      Triple-bind _ _ _ (refusing env serv_fd peeraddr k _ (parsed req bytes_only small)) (λ cfg.
        Triple-bind _ _ _ (refusing env serv_fd peeraddr k _ (Lasts-init env n cfg)) (λ cfg'.
          Triple-bind _ _ _ (refusing env serv_fd peeraddr k _ (own env serv_fd peeraddr k cfg'))
            (λ pid.
              Triple-bind _ _ _
                (refusing env serv_fd peeraddr k _ (fetched env serv_fd peeraddr k cfg'))
                (λ fds.
                  Triple-bind _ _ _
                    (refusing env serv_fd peeraddr k _
                      (registered env serv_fd peeraddr k cfg' (i32_of_bits pid)))
                    (λ _.
                      Triple-bind _ _ _
                        (sent env serv_fd peeraddr k (i32_of_bits pid) cfg'.guard_pname fds)
                        (λ _. closing env serv_fd peeraddr k fds))))))
