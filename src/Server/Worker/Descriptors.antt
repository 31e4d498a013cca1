-- ===== src/Server/Worker/Descriptors.antt =====
-- The descriptors that a worker leaves open (rocker_server/src/main.rs, `worker`; core/src/master.rs).
use rocker.Call.{create_dir_all, metadata, getgrgid, getpwuid, Call, Env, sendmsg}
use rocker.Prelude.{
  true, ℕ, ◌+◌, ◌<◌, ◌^◌, ◌≡◌, refl, All, Option, none, some, List, [], ◌∷◌, length, arith, ℤ,
  negsuc,
}
use rocker.Machine.{pure, Machine, M, sys_call, ◌>>◌}
use rocker.Bytes.{Bytes, IsByte}
use rocker.Bytes.LittleEndian.{i32_of_bits}
use rocker.Config.{RockerCfg, lookup}
use rocker.Machine.Keeps.{
  Triple, Triple-bind, Triple-given, Triple-on_error, Triple-weaken, Triple-pure, Triple-throw,
  Triple-pdie, Triple-info, Triple-locked, Safe, Keeps, Keeps-check,
}
use rocker.Machine.Descriptors.{Holds, HoldsUpTo, Holds-other, Holds-close}
use rocker.Core.Setup.{new, next_procname, Params}
use rocker.Core.Setup.Quiet.{is_check, new-Triple}
use rocker.Core.Init.{get_namespace_fds, get_guard_pid, namespaces, guard_pid_of}
use rocker.Core.Init.Descriptors.{few, Holds-init, Holds-open_namespaces}
use rocker.Core.Resource.{refuse_old, enter, registe_resource}
use rocker.Server.Request.Total.{WellFormed, parse_params-WellFormed}
use rocker.Server.Worker.{req_parse, send_resq, close_all, send_back, or_refuse, worker}
use rocker.Server.Worker.Sending.{lifted}

-- From one count to another that is at most `k` more, however the code ends.
abbrev Ending {ℓ} : {A : Type ℓ} → ℕ → ℕ → M A → Type ℓ
Ending m n ops = Triple (Holds m) ops (λ _. Holds m) (λ _. HoldsUpTo n 5) (HoldsUpTo n 5)

module _ (env : Env) (serv_fd : ℕ) (peeraddr : Bytes) where
  sent :
      (n : ℕ) (pid : ℤ) (name : ℕ) (fds : List ℕ)
      → Triple
          (Holds n)
          (send_back env serv_fd peeraddr pid name fds)
          (λ _. Holds n)
          (λ _ _. ⊥)
          (Holds n)
  unfolding send_back send_resq
  sent n pid name fds =
      Triple-on_error (λ _. Holds n) _ _
        (Triple-bind _ _ _ (Holds-other env n (sendmsg serv_fd _ fds peeraddr) refl)
          (λ r. Triple-bind _ _ _ (Keeps-check r) (λ _. Triple-pure tt (λ s h. h))))
        (λ e. Triple-pdie (λ s h. h))

  -- The refusal of a client opens nothing.
  answered :
      {A : Type 0} {P : Machine → Type 0} {Q : A → Machine → Type 0} (n : ℕ) (ops : M A)
      → Triple P ops Q (λ _. HoldsUpTo n 5) (HoldsUpTo n 5)
      → Triple P (or_refuse env serv_fd peeraddr ops) Q (λ _ _. ⊥) (HoldsUpTo n 5)
  unfolding or_refuse
  answered n ops h =
      Triple-on_error (λ _. HoldsUpTo n 5) ops _ h
        (λ e. Triple-given _ (λ j. Triple-given _ (λ le.
          Triple-bind _ _ _
            (Triple-weaken _ _ _ _ _ (sent (n + j) (negsuc 0) 0 []) (λ s h. h) (λ a s h. h)
              (λ e s h. absurd h) (λ s h. (j, (le, h))))
            (λ _. Triple-pdie (λ s h. (j, (le, h)))))))

  closing :
      (n : ℕ) (fds : List ℕ)
      → Triple (Holds (length fds + n)) (close_all env fds) (λ _. Holds n) (λ _ _. ⊥) (λ _. ⊥)
  unfolding close_all
  closing n [] = Triple-pure tt (λ s h. omega (arith, h))
  closing n (fd ∷ fds) =
      Triple-bind (λ _. Holds (length fds + n)) _ _
        (Triple-info _ (
          Triple-bind (λ _. Holds (length fds + n)) _ _
            (Triple-weaken _ _ _ _ _ (Holds-close env (length fds + n) fd) (λ s h. omega (arith, h))
              (λ a s h. h) (λ e s h. h) (λ s h. h))
            (λ r. Keeps-check r)))
        (λ _. closing n fds)

  checked : (n : ℕ) (c : Call) → is_check c ≡ true → Safe (Holds n) (sys_call env c)
  checked n (getpwuid uid) h = Holds-other env n (getpwuid uid) refl
  checked n (getgrgid gid) h = Holds-other env n (getgrgid gid) refl
  checked n (metadata path) h = Holds-other env n (metadata path) refl
  checked n (create_dir_all path) h = Holds-other env n (create_dir_all path) refl
  checked n c h = cc h

  next : (n w : ℕ) → Safe (Holds n) (next_procname w)
  unfolding next_procname pure
  next n w = record { at = λ s h. h }

  named : (n : ℕ) (p : Params) → Safe (Holds n) (new env 64 p)
  named n p =
      Triple-weaken _ _ _ _ _ (new-Triple env (checked n) (next n) 64 p) (λ s h. h)
        (λ a s (m, h). h) (λ e s h. h) (λ s h. h)

  parsed :
      (n : ℕ) (req : Bytes)
      → All IsByte req
      → length req < 2 ^ 63
      → Safe (Holds n) (req_parse env 64 req)
  unfolding req_parse
  parsed n req bytes_only small =
      Triple-bind _ _ _
        (lifted env serv_fd peeraddr WellFormed _ (parse_params-WellFormed req bytes_only small))
        (λ p. Triple-given _ (λ e. named n p))

  entered :
      (n : ℕ) (o : Option RockerCfg)
      → Triple (Holds n) (refuse_old o) (λ _. Holds n) (λ _. Holds n) (Holds n)
  entered n none = Triple-pure tt (λ s h. h)
  entered n (some cfg) = Triple-throw _ (λ s h. h)

  registered : (n : ℕ) (cfg : RockerCfg) (pid : ℤ) → Keeps (Holds n) (registe_resource cfg pid)
  unfolding registe_resource
  registered n cfg pid =
      Triple-locked (enter cfg pid)
        (record { at = λ s h. (entered n (lookup pid s.resource)).at _ h.0 }) (λ s h e. h)

  own_of : (n : ℕ) (o : Option ℕ) → Ending (2 + n) n (guard_pid_of env o)
  own_of n none = Triple-throw _ (λ s h. few n 2 5 (omega arith) s h)
  own_of n (some pid) = Triple-pure pid (λ s h. h)

  own : (n : ℕ) (cfg : RockerCfg) → Ending (2 + n) n (get_guard_pid env cfg)
  unfolding get_guard_pid
  own n cfg = own_of n cfg.guard_pid

  fetched :
      (n : ℕ) (cfg : RockerCfg)
      → Triple
          (Holds (2 + n))
          (get_namespace_fds env cfg)
          (λ fds s. (length fds ≡ 3) × Holds (length fds + (2 + n)) s)
          (λ _. HoldsUpTo n 5)
          (HoldsUpTo n 5)
  unfolding get_namespace_fds
  fetched n cfg = Triple-bind _ _ _ (own n cfg) (λ pid.
      Triple-weaken _ _ _ _ _ (Holds-open_namespaces env (2 + n) pid namespaces [])
        (λ s h. omega (arith, h)) (λ a s h. h)
        (λ e s (j, (le, h)). few n (2 + j) 5 (omega (arith, le)) s (omega (arith, h)))
        (λ s h. absurd h))

  starting :
      (n : ℕ) (req : Bytes)
      → All IsByte req
      → length req < 2 ^ 63
      → Ending n n (req_parse env 64 req)
  starting n req bytes_only small =
      Triple-weaken _ _ _ _ _ (parsed n req bytes_only small) (λ s h. h) (λ a s h. h)
        (λ e s h. (0, (omega arith, omega (arith, h)))) (λ s h. absurd h)

  -- With the three descriptors of the namespaces and the pair of sockets.
  five :
      (n : ℕ) (fds : List ℕ)
      → length fds ≡ 3
      → (s : Machine) → Holds (length fds + (2 + n)) s
      → HoldsUpTo n 5 s
  five n fds three s h = few n (length fds + 2) 5 (omega (arith, three)) s (omega (arith, h))

  entering :
      (n : ℕ) (fds : List ℕ)
      → length fds ≡ 3
      → (cfg : RockerCfg) (pid : ℤ) → Ending (length fds + (2 + n)) n (registe_resource cfg pid)
  entering n fds three cfg pid =
      Triple-weaken _ _ _ _ _ (registered _ cfg pid) (λ s h. h) (λ a s h. h)
        (λ e s h. five n fds three s h) (λ s h. five n fds three s h)

  replying :
      (n : ℕ) (fds : List ℕ)
      → length fds ≡ 3
      → (pid : ℤ) (name : ℕ)
      → Triple
          (Holds (length fds + (2 + n)))
          (do send_back env serv_fd peeraddr pid name fds; close_all env fds)
          (λ _. Holds (2 + n))
          (λ _ _. ⊥)
          (HoldsUpTo n 5)
  replying n fds three pid name =
      Triple-bind _ _ _
        (Triple-weaken _ _ _ _ _ (sent _ pid name fds) (λ s h. h) (λ a s h. h) (λ e s h. h)
          (λ s h. five n fds three s h))
        (λ _.
          Triple-weaken _ _ _ _ _ (closing (2 + n) fds) (λ s h. h) (λ a s h. h) (λ e s h. h)
            (λ s h. absurd h))

  -- A worker with 64 bits in a usize, on a datagram of less than 2 ^ 63 bytes, returns with exactly two
  -- descriptors more open than at its start, since the pair of sockets of `init` is never closed. It
  -- returns no error, and it ends. If it panics, then at most five more are open.
  pub worker-Holds :
      (n : ℕ) (req : Bytes)
      → All IsByte req
      → length req < 2 ^ 63
      → Triple
          (Holds n)
          (worker env serv_fd peeraddr 64 req)
          (λ _. Holds (2 + n))
          (λ _ _. ⊥)
          (HoldsUpTo n 5)
  unfolding worker
  worker-Holds n req bytes_only small =
      Triple-bind _ _ _ (answered n _ (starting n req bytes_only small)) (λ cfg.
        Triple-bind _ _ _ (answered n _ (Holds-init env n cfg)) (λ cfg'.
          Triple-bind _ _ _ (answered n _ (own n cfg')) (λ pid.
            Triple-bind _ _ _ (answered n _ (fetched n cfg')) (λ fds. Triple-given _ (λ three.
              Triple-bind _ _ _ (answered n _ (entering n fds three cfg' (i32_of_bits pid)))
                (λ _. replying n fds three (i32_of_bits pid) cfg'.guard_pname))))))
