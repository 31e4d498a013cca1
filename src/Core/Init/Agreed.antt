-- ===== src/Core/Init/Agreed.antt =====
-- The two ends of the messages of a guard's start (core/src/master.rs): what the guard sends in
-- `guard_ops` and what the master makes of it in `RockerCfg::init`.
use rocker.Prelude.{◌≡◌, ◌⊎◌, inl, inr, ℕ, ◌<◌, ◌^◌, ℤ, pos, some, arith}
use rocker.Outcome.{
  Error, core, unknown, set_proc_name, mnt_proc, mnt_loop, mnt_overlay, unshare_user,
}
use rocker.Bytes.LittleEndian.{IsI32, i32_to_bytes, to_bytes, i32_of_bytes-i32_to_bytes}
use rocker.Config.{RockerCfg}
use rocker.Core.Utils.{fill}
use rocker.Core.Guard.Codes.{success}
use rocker.Core.Guard.Protocol.{IsEarly, IsLate}
use rocker.Core.Init.Steps.{code}
use rocker.Core.Init.Story.{Means, private, procname, proc, loop, overlay, user, Noted, device}

-- A whole message stands for the number that was sent.
pub code-i32_to_bytes : (i : ℤ) → IsI32 i → code (i32_to_bytes i) ≡ i
unfolding i32_to_bytes to_bytes fill
code-i32_to_bytes i h = i32_of_bytes-i32_to_bytes i h

Means-early : (c : ℤ) → IsEarly c → IsI32 c × ((e : Error) × Means c e)
Means-early c (inl h) = rw h (omega arith, (core unknown, private))
Means-early c (inr (inl h)) = rw h (omega arith, (core set_proc_name, procname))
Means-early c (inr (inr (inl h))) = rw h (omega arith, (core mnt_proc, proc))
Means-early c (inr (inr (inr h))) = rw h (omega arith, (core mnt_loop, loop))

Means-late : (c : ℤ) → IsLate c → IsI32 c × ((e : Error) × Means c e)
Means-late c (inl h) = rw h (omega arith, (core mnt_overlay, overlay))
Means-late c (inr h) = rw h (omega arith, (core unshare_user, user))

Means-sent :
    (c : ℤ) → IsI32 c × ((e : Error) × Means c e) → (e : Error) × Means (code (i32_to_bytes c)) e
Means-sent c (small, meaning) = rw (code-i32_to_bytes c small) meaning

-- The two ends agree. Each code that a guard sends before it dies is read by the master as the code of
-- an error, success is read as success, and the id of a loop device below 2 ^ 31 is kept as this id.
pub guard_codes-Means :
    (c : ℤ) (cfg : RockerCfg) (n : ℕ)
    → IsEarly c ⊎ IsLate c
    → n < 2 ^ 31
    → ((e : Error) × Means (code (i32_to_bytes c)) e)
      × ((code (i32_to_bytes success) ≡ success)
          × Noted cfg (code (i32_to_bytes (pos n))) (record cfg { guard_loop_id = some (pos n) }))
guard_codes-Means c cfg n h small = (
  elim h [
    | inl early ↦ Means-sent c (Means-early c early)
    | inr late ↦ Means-sent c (Means-late c late)
  ],
  (code-i32_to_bytes success (omega arith), rw (code-i32_to_bytes (pos n) small) (device n)),
)
