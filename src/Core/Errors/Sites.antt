-- ===== src/Core/Errors/Sites.antt =====
-- The texts of `d!` tell where they come from (core/src/utils/macros.rs).
use mathlib.Core.List.{append_cancel_left, append_cancel_right}
use rocker.Prelude.{
  ℕ, ◌≡◌, refl, sym, ap, ◌==◌, false, All, Option, none, some, [], ◌∷◌, ◌++◌, arith, leb, true,
  ◌&&◌,
}
use rocker.Bytes.{Bytes}
use rocker.Bytes.Decimal.{decimal, decimal-digits, decimal-injective}
use rocker.Core.Errors.{Site, d, message, sgr, file_label, line_label}

-- A text without a line feed.
abbrev pub IsLine : Bytes → Type 0
IsLine = All (λ b. (b == b'\n') ≡ false)

IsLine-append : (xs ys : Bytes) → IsLine xs → IsLine ys → IsLine (xs ++ ys)
IsLine-append [] ys h k = k
IsLine-append (x ∷ xs) ys h k = (h.0, IsLine-append xs ys h.1 k)

has_line_feed : (xs ys : Bytes) → IsLine (xs ++ (b'\n' ∷ ys)) → ⊥
has_line_feed [] ys h = cc (h.0)
has_line_feed (x ∷ xs) ys h = has_line_feed xs ys h.1

-- A text is cut in one way before its last line.
last_line :
    (xs xs' ys ys' : Bytes)
    → IsLine ys
    → IsLine ys'
    → xs ++ (b'\n' ∷ ys) ≡ xs' ++ (b'\n' ∷ ys')
    → (xs ≡ xs') × (ys ≡ ys')
last_line [] [] ys ys' h h' e = (refl, cc e)
last_line [] (x ∷ xs') ys ys' h h' e =
    let n : ys ≡ xs' ++ (b'\n' ∷ ys') = cc e in absurd (has_line_feed xs' ys' (rw (sym n) h))
last_line (x ∷ xs) [] ys ys' h h' e =
    let n : xs ++ (b'\n' ∷ ys) ≡ ys' = cc e in absurd (has_line_feed xs ys (rw n h'))
last_line (x ∷ xs) (x' ∷ xs') ys ys' h h' e =
    let (n, k) = last_line xs xs' ys ys' h h' (cc e) in let m : x ≡ x' = cc e in (rw (m, n) refl, k)

IsLine-labels : IsLine file_label × IsLine line_label
IsLine-labels = (ground arith, ground arith)

IsLine-digits : (ds : Bytes) → All (λ b. (leb b'0' b && leb b b'9') ≡ true) ds → IsLine ds
IsLine-digits [] h = tt
IsLine-digits (b ∷ ds) h = (ground (arith, h.0), IsLine-digits ds h.1)

message-injective : (x y : Option Bytes) → message x ≡ message y → x ≡ y
message-injective none none e = refl
message-injective none (some y) e = cc e
message-injective (some x) none e = cc e
message-injective (some x) (some y) e = ap some (
    append_cancel_right x y (sgr (b'0' ∷ b'0' ∷ []))
      (append_cancel_left (sgr (b'3' ∷ b'1' ∷ [])) _ _ e))

-- From the text of `d!`, with or without a message, the message, the file and the line can be read
-- back, if the names of files hold no line feed: two texts are the same only if all three are.
pub d-injective :
    (x y : Option Bytes) (s t : Site)
    → IsLine s.file
    → IsLine t.file
    → d x s ≡ d y t
    → (x ≡ y) × ((s.file ≡ t.file) × (s.line ≡ t.line))
unfolding d
d-injective x y s t h k e =
    let (first, last) = last_line _ _ _ _ (numbered s.line) (numbered t.line) e in
    let (top, named) =
      last_line (message x) (message y) _ _ (IsLine-append file_label s.file IsLine-labels.0 h)
        (IsLine-append file_label t.file IsLine-labels.0 k) first in
    (
      message-injective x y top,
      (
        append_cancel_left file_label _ _ named,
        decimal-injective _ _ (append_cancel_left line_label _ _ last),
      ),
    )
  where
    numbered : (n : ℕ) → IsLine (line_label ++ decimal n)
    numbered n =
        IsLine-append line_label (decimal n) IsLine-labels.1
          (IsLine-digits (decimal n) (decimal-digits n).0)
