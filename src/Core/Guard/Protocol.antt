-- ===== src/Core/Guard/Protocol.antt =====
-- What a guard tells its master before it dies, or before it waits for its rocker to end.
use rocker.Prelude.{ℕ, ◌≡◌, refl, ◌⊎◌, inl, inr, List, [], ◌∷◌, arith, ℤ}
use rocker.Bytes.{Bytes}
use rocker.Bytes.LittleEndian.{i32_to_bytes}
use rocker.Config.{RockerCfg}
use rocker.Call.{Env}
use rocker.Machine.{Machine, M, ◌>>=◌, on_error, pdie}
use rocker.Machine.Keeps.{
  Triple, Triple-bind, Triple-on_error, Triple-weaken, Triple-given, Triple-pdie, Triple-pure,
  Keeps,
}
use rocker.Machine.Observe.{observe}
use rocker.Core.Guard.{inform_master, err_checker, guard_finish, guard_setup}
use rocker.Core.Guard.Codes.{
  success, emnt_proc, emnt_loop, emnt_overlay, eunshare_user, eset_procname, emake_private,
}
use rocker.Core.Guard.Quiet.{
  sent, Sent, Quiet-make_rprivate, Quiet-set_self_name, Quiet-mount_dynfs_proc, Yields-mnt_loop,
  IsFree, Quiet-mnt_overlay, Quiet-unshare,
}

abbrev pub IsEarly : ℤ → Type 0
IsEarly c = (c ≡ emake_private) ⊎ ((c ≡ eset_procname) ⊎ ((c ≡ emnt_proc) ⊎ (c ≡ emnt_loop)))

abbrev pub IsLate : ℤ → Type 0
IsLate c = (c ≡ emnt_overlay) ⊎ (c ≡ eunshare_user)

module _ (env : Env) where
  -- The messages of a guard that died, newest first.
  pub data Died : List Bytes → Type 0 where
    silent : Died []
    failed_early : (c : ℤ) → IsEarly c → Died (i32_to_bytes c ∷ [])
    device_only : (id : ℤ) → IsFree env id → Died (i32_to_bytes id ∷ [])
    failed_late :
        (id c : ℤ) → IsFree env id → IsLate c → Died (i32_to_bytes c ∷ i32_to_bytes id ∷ [])

  abbrev pub HasDied : Machine → Type 0
  HasDied s = Died (sent s.trace)

  -- The messages of a guard whose set-up is complete, newest first.
  abbrev pub IsReady : Machine → Type 0
  IsReady s =
      (id : ℤ) × (IsFree env id × (sent s.trace ≡ i32_to_bytes success ∷ i32_to_bytes id ∷ []))

module _ (env : Env) (guard_fd : ℕ) where
  inform_master-Triple :
      (l : List Bytes) (msg : ℤ)
      → Triple
          (Sent l)
          (inform_master env guard_fd msg)
          (λ _. Sent (i32_to_bytes msg ∷ l))
          (λ _ _. ⊥)
          (Sent l)
  unfolding inform_master on_error ◌>>=◌ observe
  inform_master-Triple l msg = record { at = λ s p. ground arith }

  inform :
      (l : List Bytes) (msg : ℤ)
      → Died env l
      → Triple
          (Sent l)
          (inform_master env guard_fd msg)
          (λ _. Sent (i32_to_bytes msg ∷ l))
          (λ _ _. ⊥)
          (HasDied env)
  inform l msg before =
      Triple-weaken (Sent l) (λ _. Sent (i32_to_bytes msg ∷ l)) (λ _ _. ⊥) (Sent l) _
        (inform_master-Triple l msg) (λ s h. h) (λ a s h. h) (λ e s h. h) (λ s h. rw h before)

  -- One stage: it passes without a message, or the guard dies, with the stage's code if it could be
  -- sent.
  err_checker-Triple :
      {A : Type 0} {Q : A → Machine → Type 0} (l : List Bytes) (code : ℤ) (ops : M A)
      → Triple (Sent l) ops Q (λ _. Sent l) (Sent l)
      → Died env l
      → Died env (i32_to_bytes code ∷ l)
      → Triple (Sent l) (err_checker env guard_fd code ops) Q (λ _ _. ⊥) (HasDied env)
  unfolding err_checker
  err_checker-Triple {Q = Q} l code ops quiet before after =
      Triple-on_error (λ _. Sent l) ops _
        (Triple-weaken (Sent l) Q (λ _. Sent l) (Sent l) ops quiet (λ s h. h) (λ a s h. h)
          (λ e s h. h) (λ s h. rw h before))
        (λ e.
          Triple-bind (λ _. Sent (i32_to_bytes code ∷ l)) (inform_master env guard_fd code)
            (λ _. pdie) (inform l code before) (λ _. Triple-pdie (λ s h. rw h after)))

  early :
      {A : Type 0} {Q : A → Machine → Type 0} (code : ℤ)
      → IsEarly code
      → (ops : M A) → Triple (Sent []) ops Q (λ _. Sent []) (Sent [])
      → Triple (Sent []) (err_checker env guard_fd code ops) Q (λ _ _. ⊥) (HasDied env)
  early code h ops quiet = err_checker-Triple [] code ops quiet silent (failed_early code h)

  late :
      {A : Type 0} (id code : ℤ)
      → IsFree env id
      → IsLate code
      → (ops : M A) → Keeps (Sent (i32_to_bytes id ∷ [])) ops
      → Triple
          (Sent (i32_to_bytes id ∷ []))
          (err_checker env guard_fd code ops)
          (λ _. Sent (i32_to_bytes id ∷ []))
          (λ _ _. ⊥)
          (HasDied env)
  late id code free h ops quiet =
      err_checker-Triple _ code ops quiet (device_only id free) (failed_late id code free h)

  -- The stages behind the message with the loop device.
  after_device :
      (id : ℤ) (cfg : RockerCfg)
      → IsFree env id
      → Triple
          (Sent (i32_to_bytes id ∷ []))
          (guard_finish env guard_fd cfg)
          (λ _. IsReady env)
          (λ _ _. ⊥)
          (HasDied env)
  unfolding guard_finish
  after_device id cfg free =
      Triple-bind (λ _. Sent (i32_to_bytes id ∷ [])) _ _
        (late id emnt_overlay free (inl refl) _ (Quiet-mnt_overlay env cfg))
        (λ _.
          Triple-bind (λ _. Sent (i32_to_bytes id ∷ [])) _ _
            (late id eunshare_user free (inr refl) _ (Quiet-unshare env))
            (λ _.
              Triple-bind (λ _. Sent (i32_to_bytes success ∷ i32_to_bytes id ∷ [])) _ _
                (inform (i32_to_bytes id ∷ []) success (device_only id free))
                (λ _. Triple-pure cfg (λ s h. (id, (free, h))))))

  -- From no message sent, the guard's set-up ends in one of two ways, whatever the system answers. It
  -- is complete, and exactly two messages were sent, the id of the loop device and then the code of
  -- success; the id is a number that the system gave for a free device. Or the guard has died, and it sent nothing, or only the code of one of the first four
  -- stages, or only the id, or the id and then the code of one of the last two stages. It returns no
  -- error to its caller.
  pub guard_setup-Triple :
      (cfg : RockerCfg)
      → Triple (Sent []) (guard_setup env guard_fd cfg) (λ _. IsReady env) (λ _ _. ⊥) (HasDied env)
  unfolding guard_setup
  guard_setup-Triple cfg =
      Triple-bind (λ _. Sent []) _ _ (early emake_private (inl refl) _ (Quiet-make_rprivate env _))
        (λ _.
          Triple-bind (λ _. Sent []) _ _
            (early eset_procname (inr (inl refl)) _ (Quiet-set_self_name env cfg))
            (λ cfg'.
              Triple-bind (λ _. Sent []) _ _
                (early emnt_proc (inr (inr (inl refl))) _ (Quiet-mount_dynfs_proc env))
                (λ _.
                  Triple-bind _ _ _
                    (early emnt_loop (inr (inr (inr refl))) _ (Yields-mnt_loop env cfg'))
                    (λ id. Triple-given _ (λ free.
                      Triple-bind (λ _. Sent (i32_to_bytes id ∷ [])) _ _ (inform [] id silent)
                        (λ _. after_device id cfg' free))))))
