-- ===== src/Examples/Names.antt =====
-- Names of guards, as the client finds them.
use rocker.Prelude.{ℕ, ◌≡◌, ◌≢◌, refl, ap, Option, some, none, replicate, arith, ℤ, pos}
use rocker.Bytes.{Bytes, bytes}
use rocker.Bytes.Decimal.{decimal}
use rocker.Bytes.LittleEndian.{to_bytes}
use rocker.Core.Name.{sanitise}
use rocker.Core.Name.Laws.{until_nul}
use rocker.Core.Utils.{fill}
use rocker.Client.Reply.{rocker_result_new}
use rocker.Client.Name.{get_guardname}
use rocker.Client.Name.Guards.{stat_line}
use rocker.Client.Name.Compared.{IsAsking, get_guardname-ne-reported, get_guardname-aborts}
use rocker.Client.Enter.Passing.{c_result}
use rocker.Client.Wrapper
use rocker.Client.Wrapper.{CResult, ok, take_nonzero}

-- The number of the first guard.
abbrev first_name : ℕ
first_name = 0xffff_ffff_ffff_ffff

abbrev stat_of : ℤ → Option Bytes
stat_of pid = some (stat_line 100 (until_nul (sanitise first_name)) (bytes "S 1"))

-- What C returns for it.
abbrev ask : ℤ → CResult
ask pid = c_result (record rocker_result_new {
  guard_pid = pid;
  guard_pname = fill (replicate 16 0) (until_nul (sanitise first_name));
})

ask-IsAsking : IsAsking stat_of ask
unfolding get_guardname decimal sanitise until_nul to_bytes
ask-IsAsking pid r e = ap c_result (cc e)

get_guardname-ne-reported_example :
    (Wrapper.get_guardname (λ name. name) ask 100 ≡ ok (until_nul (sanitise first_name)))
    × (take_nonzero (to_bytes 16 first_name) ≢ until_nul (sanitise first_name))
unfolding sanitise until_nul to_bytes
get_guardname-ne-reported_example =
    get_guardname-ne-reported (λ name. name) stat_of ask 100 first_name (bytes "S 1") ask-IsAsking
      (omega arith) (omega arith) refl
      (
        refl,
        (
          refl,
          (
            refl,
            (
              refl,
              (
                refl,
                (refl, (refl, (refl, (refl, (refl, (refl, (refl, (refl, (refl, (refl, tt)))))))))),
              ),
            ),
          ),
        ),
      )

-- The number of a later guard, whose second byte is a space.
abbrev spaced : ℕ
spaced = 0xffff_ffff_ffff_20ff

abbrev stat_of_spaced : ℤ → Option Bytes
stat_of_spaced pid = some (stat_line 100 (until_nul (sanitise spaced)) (bytes "S 1"))

get_guardname-aborts_example : get_guardname stat_of_spaced (pos 100) ≡ none
get_guardname-aborts_example =
    get_guardname-aborts stat_of_spaced 100 spaced (bytes "S 1") refl refl refl
