-- ===== src/Client/Name/Compared.antt =====
-- The comparison that librocker_client/src/lib.h asks of a client before it signals a guard: the name
-- that `get_guardname` finds (librocker_client_wrapper/src/client_ffi/mod.rs) against the one that came
-- with the rocker.
use rocker.Config.{eqb_ℤ}
use rocker.Client.Reply.{err_number, no_error, rocker_result_new}
use rocker.Client.Name.Guards.{get_process_name-space, IsWord, stat_line, get_process_name-stat}
use rocker.Client.Wrapper.Results.{name_of-ok}
use rocker.Client.Name.{none, true, is_space, chop, get_guardname}
use rocker.Prelude.{
  ℕ, ◌/◌, ◌%◌, ◌<◌, ◌^◌, ◌≡◌, ◌≢◌, refl, sym, ap, ◌∙◌, false, Option, some, [], ◌∷◌, ◌++◌, length,
  replicate, arith, ℤ, pos,
}
use rocker.Bytes.{Bytes}
use rocker.Bytes.LittleEndian.{to_bytes}
use rocker.Core.Name.{no_zero, sanitise}
use rocker.Core.Name.Laws.{until_nul, until_nul-sanitised, sanitise-until_nul, reported-ne-sanitise}
use rocker.Core.Utils.{fill}
use rocker.Client.Reply
use rocker.Client.Wrapper
use rocker.Client.Wrapper.{CResult, ok, take_nonzero, name_of}
use rocker.Client.Wrapper.Delivery.{i32_of_bits-small}
use rocker.Client.Enter.Passing.{c_result}

-- `ask` gives what ROCKER_get_guardname returns.
abbrev pub IsAsking : (ℤ → Option Bytes) → (ℤ → CResult) → Type 0
IsAsking stat_of ask =
    (pid : ℤ) (r : Reply.RockerResult) → get_guardname stat_of pid ≡ some r → ask pid ≡ c_result r

take_nonzero-eq-until_nul : (bs : Bytes) → take_nonzero bs ≡ until_nul bs
unfolding take_nonzero until_nul
take_nonzero-eq-until_nul [] = refl
take_nonzero-eq-until_nul (b ∷ bs) = rw (take_nonzero-eq-until_nul bs) refl

fill-front : (buf bs zs : Bytes) → length buf ≡ length bs → fill (buf ++ zs) bs ≡ bs ++ zs
unfolding fill
fill-front [] [] [] h = refl
fill-front [] [] (z ∷ zs) h = refl
fill-front [] (b ∷ bs) zs h = absurd (omega (arith, h))
fill-front (z ∷ buf) [] zs h = absurd (omega (arith, h))
fill-front (z ∷ buf) (b ∷ bs) zs h = ap (λ l. b ∷ l) (fill-front buf bs zs (omega (arith, h)))

-- No name of a guard ends in a parenthesis: its last byte comes from the high half of the number.
chop-sanitised : (n : ℕ) → n < 2 ^ 64 → chop (until_nul (sanitise n)) ≡ until_nul (sanitise n)
unfolding sanitise to_bytes chop
chop-sanitised n h =
    let high : (((((((((((((n / 256) / 256) / 256) / 256) / 256) / 256) / 256) / 256) / 256) / 256)
                / 256)
              / 256)
            / 256)
          / 256
          % 256
        ≡ 0 =
      omega arith in
    rw (until_nul-sanitised 15 (to_bytes 16 n), high) refl

module _ (to_string_lossy : Bytes → Bytes) (stat_of : ℤ → Option Bytes) (ask : ℤ → CResult) where
  name_found :
      (n : ℕ)
      → name_of to_string_lossy (fill (replicate 16 0) (until_nul (sanitise n)))
        ≡ ok (to_string_lossy (until_nul (sanitise n)))
  name_found n =
      let (fifteen, ends) = sanitise-until_nul n in
      name_of-ok to_string_lossy _
      ∙ ap (λ b. ok (to_string_lossy b))
          (take_nonzero-eq-until_nul _
            ∙ ap until_nul (
                fill-front (replicate 15 0) (until_nul (sanitise n)) (0 ∷ []) (sym fifteen)
                ∙ sym ends))

  guardname :
      (pid n : ℕ) (rest : Bytes)
      → n < 2 ^ 64
      → stat_of (pos pid) ≡ some (stat_line pid (until_nul (sanitise n)) rest)
      → IsWord (until_nul (sanitise n))
      → get_guardname stat_of (pos pid)
        ≡ some (record rocker_result_new {
          guard_pid = pos pid;
          guard_pname = fill (replicate 16 0) (until_nul (sanitise n));
        })
  unfolding get_guardname
  guardname pid n rest counter file word =
      let fifteen : length (until_nul (sanitise n)) ≡ 15 = (sanitise-until_nul n).0 in
      rw
        (
          file,
          get_process_name-stat pid (until_nul (sanitise n)) rest word (omega (arith, fifteen))
              (omega (arith, fifteen)),
          fifteen,
          chop-sanitised n counter,
        )
        refl

  -- A guard whose name holds no white space runs under a pid below 2 ^ 31, with a value of the counter
  -- below 2 ^ 64. Then `get_guardname` finds the 15 bytes of the guard's name, and these are not what
  -- the client gets with the rocker, the bytes of the counter up to the first NUL.
  pub get_guardname-ne-reported :
      (pid n : ℕ) (rest : Bytes)
      → IsAsking stat_of ask
      → pid < 2 ^ 31
      → n < 2 ^ 64
      → stat_of (pos pid) ≡ some (stat_line pid (until_nul (sanitise n)) rest)
      → IsWord (until_nul (sanitise n))
      → (Wrapper.get_guardname to_string_lossy ask pid
          ≡ ok (to_string_lossy (until_nul (sanitise n))))
        × (take_nonzero (to_bytes 16 n) ≢ until_nul (sanitise n))
  unfolding Wrapper.get_guardname err_number rocker_result_new eqb_ℤ
  get_guardname-ne-reported pid n rest asking small counter file word = (
    rw (i32_of_bits-small pid small, asking (pos pid) _ (guardname pid n rest counter file word))
        (name_found n),
    λ e. reported-ne-sanitise n counter (sym (take_nonzero-eq-until_nul (to_bytes 16 n)) ∙ e),
  )

-- A guard has a name whose first byte is no white space and whose second byte is. Then a client that
-- asks for it ends, at the check of the length that was read.
pub get_guardname-aborts :
    (stat_of : ℤ → Option Bytes) (pid n : ℕ) (rest : Bytes)
    → is_space (no_zero (n % 256)) ≡ false
    → is_space (no_zero (n / 256 % 256)) ≡ true
    → stat_of (pos pid) ≡ some (stat_line pid (until_nul (sanitise n)) rest)
    → get_guardname stat_of (pos pid) ≡ none
unfolding get_guardname sanitise to_bytes
get_guardname-aborts stat_of pid n rest first second file =
    rw
      (
        file,
        until_nul-sanitised 15 (to_bytes 16 n),
        get_process_name-space pid (no_zero (n % 256)) (no_zero (n / 256 % 256)) _ rest first
            second,
      )
      refl
