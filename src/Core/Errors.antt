-- ===== src/Core/Errors.antt =====
-- What an error says: `d!`, `errgen!` and `errgen_sys!` (core/src/utils/macros.rs, core/src/utils/mod.rs),
-- and the line that `p` prints.
pub mod Sites
use rocker.Prelude.{ℕ, Option, none, some, List, [], ◌∷◌, ◌++◌}
use rocker.Outcome.{ErrorKind}
use rocker.Bytes.{Bytes, bytes}
use rocker.Bytes.Decimal.{decimal}

-- `file!()` and `line!()`
pub record Site : Type 0 where
  pub file : Bytes
  pub line : ℕ

-- Of the crate error_chain: an error from its kind, `.c`, which puts a text on top of the chain of
-- causes, and how a chain is shown. Of the crate nix: what an errno means.
pub record ErrorTexts (Chain : Type 0) : Type 0 where
  pub from : ErrorKind → Chain
  pub chain_err : Bytes → Chain → Chain
  pub display_chain : Chain → Bytes
  pub desc : ℕ → Bytes

-- An ANSI colour.
abbrev pub sgr : Bytes → Bytes
sgr code = b'\x1b' ∷ b'[' ∷ (code ++ bytes "m")

abbrev reset : Bytes
reset = sgr (bytes "00")

abbrev dashes : Bytes
dashes = 0xe2 ∷ 0x94 ∷ 0x80 ∷ 0xe2 ∷ 0x94 ∷ 0x80 ∷ b' ' ∷ []

-- The second line of a text, and the third.
abbrev pub file_label : Bytes
file_label =
    0xe2 ∷ 0x94 ∷ 0x9c ∷ (dashes ++ (sgr (bytes "01") ++ (bytes "file:" ++ (reset ++ bytes " "))))

abbrev pub line_label : Bytes
line_label =
    0xe2 ∷ 0x94 ∷ 0x94 ∷ (dashes ++ (sgr (bytes "01") ++ (bytes "line:" ++ (reset ++ bytes " "))))

-- The first line: the message in red, or three dots.
abbrev pub message : Option Bytes → Bytes
message none = bytes "..."
message (some x) = sgr (bytes "31") ++ (x ++ reset)

-- `d!(x)()` and `d!()()`
unfoldable pub d : Option Bytes → Site → Bytes
d x site =
    (message x ++ (b'\n' ∷ (file_label ++ site.file)))
    ++ (b'\n' ∷ (line_label ++ decimal site.line))

module _ {Chain : Type 0} (texts : ErrorTexts Chain) where
  unfoldable pub errgen : ErrorKind → Option Bytes → Site → Chain
  errgen kind msg site = texts.chain_err (d msg site) (texts.from kind)

  -- `errgen_sys!`, after a call that has failed with the errno `e`
  unfoldable pub errgen_sys : ErrorKind → ℕ → Site → Chain
  unfolding errgen
  errgen_sys kind e site = errgen kind (some (texts.desc e)) site

-- What `eprintln!` writes in `p`.
unfoldable pub log_line : Bytes → ℕ → Bytes → Bytes → Bytes
log_line ns pid time chain =
    b'\n'
    ∷ (sgr (bytes "31;01")
        ++ (ns
            ++ (b'['
                ∷ (decimal pid
                    ++ (bytes "] " ++ (time ++ (reset ++ (b'\n' ∷ (chain ++ (b'\n' ∷ []))))))))))
