-- ===== src/Bytes/CString.antt =====
-- `CStr::from_bytes_with_nul` and `CString::new`.
use rocker.Prelude.{
  ℕ, ◌≡◌, refl, Bool, true, false, Option, none, some, List, [], ◌∷◌, ◌++◌, arith, ◌==◌,
  Option-cases, inl, inr, if◌then◌else◌,
}
use mathlib.Core.Option

-- The bytes before the NUL, if there is exactly one and it stands last.
unfoldable pub from_bytes_with_nul : List ℕ → Option (List ℕ)
from_bytes_with_nul [] = none
from_bytes_with_nul (b ∷ []) = if b == 0 then some [] else none
from_bytes_with_nul (b ∷ c ∷ bs) =
    if b == 0 then none else Option.map (λ s. b ∷ s) (from_bytes_with_nul (c ∷ bs))

unfoldable pub has_nul : List ℕ → Bool
has_nul [] = false
has_nul (b ∷ bs) = if b == 0 then true else has_nul bs

pub from_bytes_with_nul-append :
    (s : List ℕ) → has_nul s ≡ false → from_bytes_with_nul (s ++ 0 ∷ []) ≡ some s
unfolding from_bytes_with_nul has_nul
from_bytes_with_nul-append [] h = refl
from_bytes_with_nul-append (b ∷ []) h = ground arith
from_bytes_with_nul-append (b ∷ c ∷ s) h = ground (arith, from_bytes_with_nul-append (c ∷ s))

-- What is accepted is its result with one NUL behind, and the result has none.
pub from_bytes_with_nul-some :
    (bs s : List ℕ) → from_bytes_with_nul bs ≡ some s → (bs ≡ s ++ 0 ∷ []) × (has_nul s ≡ false)
unfolding from_bytes_with_nul has_nul
from_bytes_with_nul-some [] s h = cc
from_bytes_with_nul-some (b ∷ []) s h = ground arith
from_bytes_with_nul-some (b ∷ c ∷ bs) s h = elim (Option-cases (from_bytes_with_nul (c ∷ bs))) [
  | inl e ↦ ground arith
  | inr (t, e) ↦ ground (arith, from_bytes_with_nul-some (c ∷ bs) t e)
]
