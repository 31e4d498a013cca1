-- ===== src/Bytes/Text.antt =====
-- The bytes of an ASCII literal.
use Prim.Native.Char.{code}
use rocker.Prelude.{ℕ, String, List, [], ◌∷◌, ◌<◌}

-- Paths and messages are lists of bytes.
abbrev pub Bytes : Type 0
Bytes = List ℕ

abbrev pub bytes : String → Bytes
bytes String.[] = []
bytes (String.◌∷◌ c s) = code c ∷ bytes s

abbrev pub IsByte : ℕ → Type 0
IsByte b = b < 256
