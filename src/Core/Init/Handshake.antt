-- ===== src/Core/Init/Handshake.antt =====
-- How the start of a rocker ends at the master (core/src/master.rs, `RockerCfg::init` from the guard's
-- pid on), whatever the guard sends and whatever the system answers.
use rocker.Prelude.{
  ℕ, ◌≡◌, refl, sym, Option, none, some, List, [], ◌∷◌, ◌++◌, append_assoc, append-nil, inl, inr, ℤ,
}
use rocker.Outcome.{Error}
use rocker.Bytes.{Bytes, bytes}
use rocker.Config.{RockerCfg}
use rocker.Call.{Env, write_only}
use rocker.Machine.{Machine, M, ◌>>◌, pure}
use rocker.Machine.Keeps.{
  Triple, Triple-bind, Triple-given, Triple-on_error, Triple-weaken, Triple-pure, Triple-throw,
}
use rocker.Machine.Observe.{observe, deeds_by, Deed, got, wrote, opened, killed, Deeds}
use rocker.Core.Guard.Codes.{success}
use rocker.Core.Init.{
  write_file, write_uidmap, write_gidmap, write_gidmap_of, recv_i32, id_map, proc_path, or_kill,
  note_loop_id, check_err, await_guard,
}
use rocker.Core.Init.Steps.{code, write_file-Triple, recv_i32-Triple, kill-Triple}
use rocker.Core.Init.Story.{
  Noted, device, no_device, gid_deeds, story, Failed, cut, refused_first, refused_second, Confused,
  unknown_first, unknown_second,
}
use rocker.Core.Init.Verdict.{check_err-Triple, note_loop_id-Triple}

module _ (env : Env) (pid : ℕ) where
  -- Code that has done a part of `full`, and its last step failed.
  abbrev Within : List Deed → Machine → Type 0
  Within full s = (past : List Deed) × ((todo : List Deed) × ((full ≡ todo ++ past) × Deeds past s))

  -- A failure, once the guard has been killed.
  abbrev IsStopped : List Deed → Machine → Type 0
  IsStopped full s =
      (past : List Deed) × ((todo : List Deed) × ((full ≡ todo ++ past)
          × Deeds (killed pid ∷ past) s))

  or_kill-Triple :
      {A : Type 0} {P : Machine → Type 0} {Q : A → Machine → Type 0} (full : List Deed) (m : M A)
      → Triple P m Q (λ _. Within full) (λ _. ⊥)
      → Triple P (or_kill env pid m) Q (λ _. IsStopped full) (λ _. ⊥)
  unfolding or_kill
  or_kill-Triple full m t =
      Triple-on_error (λ _. Within full) m _ t
        (λ e. Triple-given _ (λ past. Triple-given _ (λ todo. Triple-given _ (λ split.
          Triple-bind (λ _. Deeds (killed pid ∷ past)) _ _
            (Triple-weaken _ _ (λ _ _. ⊥) (λ _. ⊥) _ (kill-Triple env past pid) (λ s h. h)
              (λ a s h. h) (λ e' s h. absurd h) (λ s h. h))
            (λ _. Triple-throw e (λ s h. (past, (todo, (split, h)))))))))

  -- A failed write leaves the file not opened, or opened.
  write-cut :
      (path text : Bytes) (l : List Deed) (later : List Deed)
      → Triple
          (Deeds l)
          (write_file env path text)
          (λ _. Deeds (wrote text ∷ opened write_only path ∷ l))
          (λ _. Within (later ++ (wrote text ∷ opened write_only path ∷ l)))
          (λ _. ⊥)
  write-cut path text l later =
      Triple-weaken (Deeds l) _ _ _ _ (write_file-Triple env l path text) (λ s h. h) (λ a s h. h)
        (λ e s h. elim h [
          | inl h ↦ (
            l,
            (
              later ++ (wrote text ∷ opened write_only path ∷ []),
              (sym (append_assoc later _ l), h),
            ),
          )
          | inr h ↦ (
            opened write_only path ∷ l,
            (later ++ wrote text ∷ [], (sym (append_assoc later _ _), h)),
          )
        ])
        (λ s h. h)

  write_gidmap_of-Triple :
      (gid : Option ℕ) (l : List Deed)
      → Triple
          (Deeds l)
          (write_gidmap_of env pid gid)
          (λ _. Deeds (gid_deeds pid gid ++ l))
          (λ _. Within (gid_deeds pid gid ++ l))
          (λ _. ⊥)
  unfolding write_gidmap_of
  write_gidmap_of-Triple none l = Triple-pure tt (λ s h. h)
  write_gidmap_of-Triple (some gid) l =
      Triple-bind _ _ _
        (write-cut _ _ l
          (wrote (id_map gid) ∷ opened write_only (proc_path pid (bytes "gid_map")) ∷ []))
        (λ _. write-cut _ _ _ [])

  abbrev pub HasFailed : RockerCfg → Error → Machine → Type 0
  HasFailed cfg e s = Failed pid cfg e (observe deeds_by s.trace)

  abbrev pub IsConfused : Machine → Type 0
  IsConfused s = Confused (observe deeds_by s.trace)

  step :
      {A : Type 0} {P : Machine → Type 0} {Q : A → Machine → Type 0} (cfg : RockerCfg)
      (first second : Bytes) (m : M A)
      → Triple P m Q (λ _. Within (story pid cfg first second)) (λ _. ⊥)
      → Triple P (or_kill env pid m) Q (HasFailed cfg) IsConfused
  step cfg first second m t =
      Triple-weaken _ _ _ _ _ (or_kill-Triple (story pid cfg first second) m t) (λ s h. h)
        (λ a s h. h) (λ e s (past, (todo, (split, h))). rw h (cut e first second todo past split))
        (λ s h. absurd h)

  recv-cut :
      (fd : ℕ) (l todo full : List Deed)
      → full ≡ todo ++ l
      → Triple
          (Deeds l)
          (recv_i32 env fd)
          (λ i s. (msg : Bytes) × ((i ≡ code msg) × Deeds (got msg ∷ l) s))
          (λ _. Within full)
          (λ _. ⊥)
  recv-cut fd l todo full e =
      Triple-weaken _ _ _ _ _ (recv_i32-Triple env l fd) (λ s h. h) (λ a s h. h)
        (λ x s h. (l, (todo, (e, h)))) (λ s h. h)

  -- The end of a start that succeeds.
  abbrev pub IsStarted : RockerCfg → RockerCfg → Machine → Type 0
  IsStarted cfg cfg' s =
      (first : Bytes) × ((second : Bytes) × (Noted cfg (code first) cfg'
          × ((code second ≡ success) × Deeds (story pid cfg first second) s)))

  mapped :
      (cfg : RockerCfg) (i : ℤ) (cfg' : RockerCfg) (first second : Bytes)
      → Noted cfg i cfg'
      → Triple
          (Deeds (got second ∷ got first ∷ []))
          (do
            or_kill env pid (write_uidmap env pid cfg')
            or_kill env pid (write_gidmap env pid cfg')
            pure cfg')
          (λ c s. (c ≡ cfg') × Deeds (story pid cfg first second) s)
          (HasFailed cfg)
          IsConfused
  unfolding write_uidmap write_gidmap
  mapped cfg _ cfg' first second (device n) =
      Triple-bind _ _ _ (step cfg first second _ (write-cut _ _ _ (gid_deeds pid cfg.gid))) (λ _.
        Triple-bind _ _ _ (step cfg first second _ (write_gidmap_of-Triple cfg.gid _))
          (λ _. Triple-pure _ (λ s h. (refl, h))))
  mapped cfg _ cfg' first second no_device =
      Triple-bind _ _ _ (step cfg first second _ (write-cut _ _ _ (gid_deeds pid cfg.gid))) (λ _.
        Triple-bind _ _ _ (step cfg first second _ (write_gidmap_of-Triple cfg.gid _))
          (λ _. Triple-pure _ (λ s h. (refl, h))))

  noted :
      (cfg : RockerCfg) (first : Bytes)
      → Triple
          (Deeds (got first ∷ []))
          (note_loop_id (code first) cfg)
          (λ cfg' s. Noted cfg (code first) cfg' × Deeds (got first ∷ []) s)
          (HasFailed cfg)
          IsConfused
  noted cfg first =
      Triple-weaken (Deeds (got first ∷ [])) _ _ _ _ (note_loop_id-Triple (code first) cfg)
        (λ s h. h) (λ a s h. h) (λ e s (m, h). rw h (refused_first e first m))
        (λ s (((k, n), u), h). rw h (unknown_first first k n u))

  checked :
      (cfg : RockerCfg) (first second : Bytes)
      → Triple
          (Deeds (got second ∷ got first ∷ []))
          (check_err (code second))
          (λ _ s. (code second ≡ success) × Deeds (got second ∷ got first ∷ []) s)
          (HasFailed cfg)
          IsConfused
  checked cfg first second =
      Triple-weaken (Deeds (got second ∷ got first ∷ [])) _ _ _ _ (check_err-Triple (code second))
        (λ s h. h) (λ a s h. h) (λ e s (m, h). rw h (refused_second e first second m))
        (λ s (u, h). rw h (unknown_second first second u))

  completed :
      (cfg cfg' : RockerCfg) (first second : Bytes)
      → Noted cfg (code first) cfg'
      → code second ≡ success
      → Triple
          (Deeds (got second ∷ got first ∷ []))
          (do
            or_kill env pid (write_uidmap env pid cfg')
            or_kill env pid (write_gidmap env pid cfg')
            pure cfg')
          (IsStarted cfg)
          (HasFailed cfg)
          IsConfused
  completed cfg cfg' first second n e =
      Triple-weaken _ _ _ _ _ (mapped cfg (code first) cfg' first second n) (λ s h. h)
        (λ c s (same, h). (first, (second, (rw same n, (e, h))))) (λ x s h. h) (λ s h. h)

  -- From no deed done, and whatever the guard sends and the system answers, `init` from the guard's
  -- pid on ends in one of three ways. It gives the configuration, with the id of the loop device
  -- unless the first message was success; then it has received two messages, the second one success,
  -- and has written the uid map and, if there is a gid, has denied setgroups before it wrote the gid
  -- map; no process was killed. Or it gives an error; then it has stopped somewhere on that way and
  -- killed the guard as its last deed, or a message was the code of this error. Or it panics; then a
  -- message was neither success nor the code of an error, and negative if it was the first one.
  pub await_guard-Triple :
      (master_fd : ℕ) (cfg : RockerCfg)
      → Triple
          (Deeds [])
          (await_guard env master_fd pid cfg)
          (IsStarted cfg)
          (HasFailed cfg)
          IsConfused
  unfolding await_guard
  await_guard-Triple master_fd cfg =
      Triple-bind _ _ _
        (step cfg [] [] _ (recv-cut master_fd [] (story pid cfg [] []) _ (sym (append-nil _))))
        (λ i. Triple-given _ (λ first. Triple-given _ (λ e. rw e (
          Triple-bind _ _ _ (noted cfg first) (λ cfg'. Triple-given _ (λ n.
            Triple-bind _ _ _
              (step cfg first [] _ (
                recv-cut master_fd (got first ∷ [])
                  (gid_deeds pid cfg.gid
                    ++ (wrote (id_map cfg.uid)
                        ∷ opened write_only (proc_path pid (bytes "uid_map"))
                        ∷ got []
                        ∷ []))
                  _ (sym (append_assoc (gid_deeds pid cfg.gid) _ _))))
              (λ j. Triple-given _ (λ second. Triple-given _ (λ e'. rw e' (
                Triple-bind _ _ _ (checked cfg first second)
                  (λ _. Triple-given _ (λ good. completed cfg cfg' first second n good))))))))))))
