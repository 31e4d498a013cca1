-- ===== src/Examples/Workers.antt =====
-- Workers, the reaper and the table of running rockers.
use rocker.Server.Worker.Descriptors.{worker-Holds}
use rocker.Machine.Descriptors.{Holds, HoldsUpTo}
use rocker.Server.History.{run_ops-Refines, run_ops, registered, reaped, registry_of, Refines}
use rocker.Server.History.LockedOut.{
  worker-IsLockedOut, IsLockedOut, next_thread, Visit, run_workers,
}
use rocker.Core.Utils.{sleep_secs}
use rocker.Outcome.{panic}
use rocker.Machine.{on_error, ◌>>=◌, info, locked, Machine, held}
use rocker.Core.Resource.{release_resource}
use rocker.Call.{read_write, failed, open_file, Env, Call, ioctl_write_int, sleep}
use rocker.Config.{remove, eqb_ℤ, lookup}
use rocker.Prelude.{Bool, refl, false, true, ◌≡◌, some, [], ◌∷◌, pos, arith, List, ℕ}
use rocker.Bytes.{bytes}
use rocker.Machine.Keeps.{Triple}
use rocker.Core.Resource.Order.{Unbinding, release_resource_order}
use rocker.Core.Loop.Metal.{loop_ctl_remove_request}
use rocker.Core.Loop.Opening.{requested}
use rocker.Machine.Observe.{Seen}
use rocker.Server.Worker.{worker}
use rocker.Server.Worker.Silent.{Fresh}
use rocker.Server.Worker.Sending.{IsServed, Aborted}
use rocker.Client.Wire.{encode, metas, meta_of, concat_map, iov}
use rocker.Bytes.LittleEndian.{i32_to_bytes, to_bytes}
use rocker.Server.Worker.Replies.{worker-Triple}
use rocker.Server.Reaper.{reap}
use rocker.Server.Reaper.Table.{HasTable, HasLost, reap-Triple}
use rocker.Examples.Inputs.{answering, sample, calm, cfg, started}

worker-Triple_example :
    Triple
      (Fresh [] false)
      (worker answering 5 (bytes "peer") 64 (encode sample))
      (λ _ s. (Path Bool false false) × IsServed answering (encode sample) [] s)
      (λ _ _. ⊥)
      (Aborted answering (encode sample) [] false)
unfolding encode metas meta_of concat_map iov i32_to_bytes to_bytes
worker-Triple_example =
    worker-Triple answering [] false 5 (bytes "peer") (encode sample) (omega arith) (omega arith)

reap-Triple_example :
    Triple
      (HasTable ((pos 100, cfg) ∷ []))
      (reap calm (pos 100))
      (λ _ s. HasLost (pos 100) ((pos 100, cfg) ∷ []) s × (s.lock_poisoned ≡ false))
      (λ _ _. ⊥)
      (λ s. HasLost (pos 100) ((pos 100, cfg) ∷ []) s × (s.lock_poisoned ≡ true))
reap-Triple_example = reap-Triple calm (pos 100) ((pos 100, cfg) ∷ [])

release_resource_order_example :
    Triple
      (λ s. Seen requested [] s × (s.loop_master ≡ held 8))
      (release_resource calm (record cfg { guard_loop_id = some (pos 0) }))
      (λ _ s.
        (u : List Call) × (Unbinding (pos 0) u
          × ((ctl_fd : ℕ) × Seen requested
                (ioctl_write_int ctl_fd loop_ctl_remove_request (pos 0) ∷ sleep 2 ∷ u)
                s)))
      (λ _ _. ⊥)
      (λ _. Unit {0})
release_resource_order_example =
    release_resource_order calm (held 8) (pos 0) (record cfg { guard_loop_id = some (pos 0) }) refl

-- A system on which /dev/loop-control cannot be opened.
abbrev no_loop_control : Env
no_loop_control t (open_file read_write _) = failed 2
no_loop_control t c = calm t c

-- A machine on which a rocker with loop device 0 is running.
abbrev running : Machine
running = record started { resource = (pos 100, record cfg { guard_loop_id = some (pos 0) }) ∷ [] }

-- The end of its guard makes the reaper panic.
reaper_panics : (reap no_loop_control (pos 100) running).0 ≡ panic
unfolding reap sleep_secs locked lookup remove eqb_ℤ release_resource info ◌>>=◌ on_error
reaper_panics = refl

abbrev visit : Visit
visit = record { env = answering; serv_fd = 5; peeraddr = bytes "peer"; req = encode sample }

worker-IsLockedOut_example :
    Triple
      (λ u. u ≡ next_thread (run_workers (visit ∷ []) (reap no_loop_control (pos 100) running).1))
      (worker answering 5 (bytes "peer") 64 (encode sample))
      (λ _ _. ⊥)
      (λ _ _. ⊥)
      (IsLockedOut (reap no_loop_control (pos 100) running).1.resource)
unfolding encode metas meta_of concat_map iov i32_to_bytes to_bytes
worker-IsLockedOut_example =
    worker-IsLockedOut no_loop_control (pos 100) running (visit ∷ []) visit refl reaper_panics
      ((omega arith, omega arith), tt) (omega arith, omega arith)

run_ops-Refines_example :
    Refines
      (registry_of running)
      (reaped (pos 100) ∷ registered cfg (pos 7) ∷ [])
      (run_ops no_loop_control (reaped (pos 100) ∷ registered cfg (pos 7) ∷ []) running)
run_ops-Refines_example =
    run_ops-Refines no_loop_control (reaped (pos 100) ∷ registered cfg (pos 7) ∷ []) running refl

worker-Holds_example :
    Triple
      (Holds 0)
      (worker answering 5 (bytes "peer") 64 (encode sample))
      (λ _. Holds 2)
      (λ _ _. ⊥)
      (HoldsUpTo 0 5)
unfolding encode metas meta_of concat_map iov i32_to_bytes to_bytes
worker-Holds_example =
    worker-Holds answering 5 (bytes "peer") 0 (encode sample) (omega arith) (omega arith)
