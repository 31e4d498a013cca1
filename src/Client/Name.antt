-- ===== src/Client/Name.antt =====
-- `ROCKER_get_guardname` (librocker_client/src/lib.c) and `get_process_name` (librocker_client/src/
-- utils.c): the name of a process, from its /proc/<pid>/stat, which holds no NUL.
pub mod Guards
pub mod Compared
use rocker.Prelude.{
  ℕ, zero, suc, Bool, true, false, ◌&&◌, ◌||◌, Option, none, some, List, [], ◌∷◌, length, replicate,
  ltb, leb, ◌==◌, if◌then◌else◌, ℤ,
}
use rocker.Bytes.{Bytes}
use rocker.Core.Utils.{fill}
use rocker.Client.Reply.{get_guardname_failed, RockerResult, rocker_result_new}

-- `isspace` and `isdigit`
abbrev pub is_space : ℕ → Bool
is_space b = (b == 32) || (leb 9 b && leb b 13)

abbrev pub is_digit : ℕ → Bool
is_digit b = leb b'0' b && leb b b'9'

-- White space in the format of `fscanf`.
unfoldable pub skip_space : Bytes → Bytes
skip_space [] = []
skip_space (b ∷ bs) = let rest = skip_space bs in if is_space b then rest else b ∷ bs

unfoldable pub skip_digits : Bytes → Bytes
skip_digits [] = []
skip_digits (b ∷ bs) = let rest = skip_digits bs in if is_digit b then rest else b ∷ bs

abbrev skip_sign : Bytes → Bytes
skip_sign [] = []
skip_sign (b ∷ bs) = if (b == b'+') || (b == b'-') then bs else b ∷ bs

abbrev some_digits : Bytes → Option Bytes
some_digits [] = none
some_digits (b ∷ bs) = if is_digit b then some (skip_digits bs) else none

-- `%*d`, and what is behind it.
unfoldable pub scan_int : Bytes → Option Bytes
unfolding skip_space skip_digits
scan_int bs = some_digits (skip_sign (skip_space bs))

-- `(`
unfoldable pub scan_paren : Bytes → Option Bytes
scan_paren [] = none
scan_paren (b ∷ bs) = if b == b'(' then some bs else none

unfoldable pub take_word : ℕ → Bytes → Bytes
take_word zero bs = []
take_word (suc n) [] = []
take_word (suc n) (b ∷ bs) = let rest = take_word n bs in if is_space b then [] else b ∷ rest

abbrev some_word : Bytes → Option Bytes
some_word [] = none
some_word (b ∷ bs) = some (b ∷ bs)

-- `%15s`
unfoldable pub scan_word : Bytes → Option Bytes
unfolding take_word skip_space
scan_word bs = some_word (take_word 15 (skip_space bs))

-- `fscanf(f, "%*d (%15s", buf)`
unfoldable pub scan_stat : Bytes → Option Bytes
unfolding scan_int scan_paren scan_word
scan_stat bs = elim (scan_int bs) [
  | none ↦ none
  | some rest ↦ elim (scan_paren (skip_space rest)) [ none ↦ none | some word ↦ scan_word word ]
]

-- `if (')' == buf[reslen - 1]) { buf[reslen - 1] = '\0'; }`
unfoldable pub chop : Bytes → Bytes
chop [] = []
chop (b ∷ []) = if b == b')' then [] else b ∷ []
chop (b ∷ c ∷ bs) = b ∷ chop (c ∷ bs)

-- An error, the end of the client at the `assert___`, or a name.
pub data Naming : Type 0 where
  unnamed : Naming
  aborted : Naming
  named : Bytes → Naming

abbrev tidy : Option Bytes → Naming
tidy none = unnamed
tidy (some word) = if ltb 1 (length word) then named (chop word) else aborted

-- From the file's content, if it can be opened.
unfoldable pub get_process_name : Option Bytes → Naming
unfolding scan_stat chop
get_process_name none = unnamed
get_process_name (some stat) = tidy (scan_stat stat)

abbrev guardname_of : ℤ → Naming → Option RockerResult
guardname_of pid unnamed =
    some (record rocker_result_new { guard_pid = pid; err_no = get_guardname_failed })
guardname_of pid aborted = none
guardname_of pid (named name) =
    some (record rocker_result_new { guard_pid = pid; guard_pname = fill (replicate 16 0) name })

-- None where the client's process ends. `stat_of` gives the content of a process's file.
unfoldable pub get_guardname : (ℤ → Option Bytes) → ℤ → Option RockerResult
unfolding get_process_name rocker_result_new fill
get_guardname stat_of pid = guardname_of pid (get_process_name (stat_of pid))
