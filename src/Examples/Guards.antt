-- ===== src/Examples/Guards.antt =====
-- Guards: the set-up and its messages.
use rocker.Bytes.LittleEndian.{
  bits_of_i32, to_bytes, i32_of_bytes, i32_of_bits, of_bytes, i32_to_bytes,
}
use rocker.Core.Mounts.{mnt_overlay, guard_mnt_overlay, guard_mnt_loop, mount_make_rprivate}
use rocker.Core.Utils.{mount_dynfs_proc, fill}
use rocker.Core.Name.{guard_set_self_name}
use rocker.Core.Init.BothEnds.{start_agrees, IsGone, IsUp, HasDevices}
use rocker.Machine.{Machine, ◌>>=◌, on_error}
use rocker.Call.{done, ioctl_none, Env}
use rocker.Machine.Observe.{received_by, observe, Deeds}
use rocker.Prelude.{◌++◌, ◌≡◌, refl, some, pos, [], arith}
use rocker.Config.{RockerCfg, eqb_ℤ}
use rocker.Outcome.{Outcome, ok}
use rocker.Machine.Keeps.{Ends, Triple}
use rocker.Core.Guard.Quiet.{sent, Sent}
use rocker.Core.Guard.{guard_setup}
use rocker.Core.Guard.Protocol.{IsReady, HasDied, guard_setup-Triple}
use rocker.Core.Init.{await_guard}
use rocker.Core.Init.Handshake.{IsStarted, HasFailed, IsConfused, await_guard-Triple}
use rocker.Examples.Inputs.{calm, answering, started, cfg}

guard_setup-Triple_example :
    Triple (Sent []) (guard_setup calm 4 cfg) (λ _. IsReady calm) (λ _ _. ⊥) (HasDied calm)
guard_setup-Triple_example = guard_setup-Triple calm 4 cfg

-- The start with a guard that starts well gives the configuration with the loop device.
start_succeeds :
    (await_guard answering 3 100 cfg started).0 ≡ ok (record cfg { guard_loop_id = some (pos 0) })
unfolding answering fill observe await_guard on_error eqb_ℤ i32_of_bytes i32_of_bits of_bytes ◌>>=◌
start_succeeds = refl

await_guard-Triple_example :
    Triple
      (Deeds [])
      (await_guard answering 3 100 cfg)
      (IsStarted answering 100 cfg)
      (HasFailed answering 100 cfg)
      (IsConfused answering 100)
await_guard-Triple_example = await_guard-Triple answering 100 3 cfg

-- A system whose first free loop device is 0.
abbrev first_device : Env
first_device t (ioctl_none _ _) = done (pos 0)
first_device t c = calm t c

first_device-HasDevices : HasDevices first_device
first_device-HasDevices id (t, (fd, e)) = let n : id ≡ pos 0 = cc e in (0, (n, omega arith))

abbrev guard_run : Outcome RockerCfg × Machine
guard_run = guard_setup first_device 4 cfg started

abbrev master_run : Outcome RockerCfg × Machine
master_run = await_guard answering 3 100 cfg started

all_heard : sent guard_run.1.trace ≡ [] ++ observe received_by master_run.1.trace
unfolding answering guard_setup await_guard ◌>>=◌ on_error observe fill eqb_ℤ i32_of_bytes
    i32_of_bits of_bytes i32_to_bytes to_bytes mount_make_rprivate guard_set_self_name
    mount_dynfs_proc guard_mnt_loop guard_mnt_overlay mnt_overlay bits_of_i32
all_heard = refl

start_agrees_example :
    Ends
      (λ cfg' _. IsUp first_device guard_run.0 cfg cfg')
      (λ _. IsGone 100 guard_run.0)
      (λ _. ⊥)
      master_run.0
      master_run.1
unfolding observe
start_agrees_example =
    start_agrees first_device answering 4 3 100 cfg cfg started started [] first_device-HasDevices
      refl refl all_heard
