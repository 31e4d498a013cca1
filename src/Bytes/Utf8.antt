-- ===== src/Bytes/Utf8.antt =====
-- The UTF-8 check of `CStr::to_str`.
use rocker.Prelude.{
  ℕ, ◌-◌, ◌≡◌, refl, Bool, true, false, ◌&&◌, Option, none, some, List, [], ◌∷◌, leb, ltb, ◌==◌,
  if◌then◌else◌,
}

-- Between two characters, or with so many bytes to come of which the next lies in a range.
pub data Utf8 : Type 0 where
  boundary : Utf8
  inside : ℕ → ℕ → ℕ → Utf8

lead : ℕ → Option Utf8
lead b =
    if ltb b 0x80
    then some boundary
    else if ltb b 0xc2
    then none
    else if ltb b 0xe0
    then some (inside 1 0x80 0xbf)
    else if b == 0xe0
    then some (inside 2 0xa0 0xbf)
    else if b == 0xed
    then some (inside 2 0x80 0x9f)
    else if ltb b 0xf0
    then some (inside 2 0x80 0xbf)
    else if b == 0xf0
    then some (inside 3 0x90 0xbf)
    else if ltb b 0xf4
    then some (inside 3 0x80 0xbf)
    else if b == 0xf4
    then some (inside 3 0x80 0x8f)
    else none

utf8_step : Utf8 → ℕ → Option Utf8
utf8_step boundary b = lead b
utf8_step (inside n lo hi) b =
    if leb lo b && leb b hi
    then (if n == 1 then some boundary else some (inside (n - 1) 0x80 0xbf))
    else none

is_utf8_from : Utf8 → List ℕ → Bool
is_utf8_from boundary [] = true
is_utf8_from (inside n lo hi) [] = false
is_utf8_from s (b ∷ bs) = elim (utf8_step s b) [ none ↦ false | some s' ↦ is_utf8_from s' bs ]

unfoldable pub is_utf8 : List ℕ → Bool
unfolding lead utf8_step is_utf8_from
is_utf8 bs = is_utf8_from boundary bs

is_utf8_euro : is_utf8 (0x2f ∷ 0xe2 ∷ 0x82 ∷ 0xac ∷ []) ≡ true
unfolding is_utf8
is_utf8_euro = refl

is_utf8_surrogate : is_utf8 (0xed ∷ 0xa0 ∷ 0x80 ∷ []) ≡ false
unfolding is_utf8
is_utf8_surrogate = refl
