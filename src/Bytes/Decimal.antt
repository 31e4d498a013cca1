-- ===== src/Bytes/Decimal.antt =====
-- The decimal numerals that `format!` writes, and `str::parse::<u32>`.
use rocker.Prelude.{
  ◌∙◌, sym, ap, Bool-cases, inl, inr, arith, ◌<◌, ◌≤◌, true, length, All, ℕ, zero, suc, ◌+◌, ◌-◌,
  ◌*◌, ◌/◌, ◌%◌, ◌^◌, ◌≡◌, refl, ◌&&◌, Option, none, some, List, [], ◌∷◌, ltb, leb, ◌==◌,
  if◌then◌else◌,
}

-- The digits of `n` before `rest`; the fuel bounds their number.
digits_before : ℕ → ℕ → List ℕ → List ℕ
digits_before zero n rest = rest
digits_before (suc f) n rest =
    let more = digits_before f (n / 10) ((b'0' + n % 10) ∷ rest) in
    if ltb n 10 then (b'0' + n) ∷ rest else more

unfoldable pub decimal : ℕ → List ℕ
unfolding digits_before
decimal n = digits_before (suc n) n []

IsDigits : List ℕ → Type 0
IsDigits ds = All (λ d. (leb b'0' d && leb d b'9') ≡ true) ds

digits_before-IsDigits :
    (f n : ℕ) (acc : List ℕ)
    → IsDigits acc
    → IsDigits (digits_before f n acc) × (length acc ≤ length (digits_before f n acc))
unfolding digits_before IsDigits
digits_before-IsDigits zero n acc h = (h, omega arith)
digits_before-IsDigits (suc f) n acc h = elim (Bool-cases (ltb n 10)) [
  | inl e ↦ rw e ((ground (arith, e), h), omega arith)
  | inr e ↦
      let (d, l) = digits_before-IsDigits f (n / 10) ((b'0' + n % 10) ∷ acc) (ground arith, h) in
      rw e (d, omega (arith, l))
]

-- At least one digit, and nothing else.
pub decimal-digits :
    (n : ℕ) → All (λ d. (leb b'0' d && leb d b'9') ≡ true) (decimal n) × (0 < length (decimal n))
unfolding decimal IsDigits
decimal-digits n = elim (Bool-cases (ltb n 10)) [
  | inl e ↦ rw e ((ground (arith, e), tt), omega arith)
  | inr e ↦
      let (d, l) = digits_before-IsDigits n (n / 10) ((b'0' + n % 10) ∷ []) (ground arith, tt) in
      rw e (d, omega (arith, l))
]

-- The number that digits stand for, with `acc` before them.
value_of : ℕ → List ℕ → ℕ
value_of acc [] = acc
value_of acc (d ∷ ds) = value_of (acc * 10 + (d - b'0')) ds

value_of-digits_before :
    (f n : ℕ) (rest : List ℕ) → n < f → value_of 0 (digits_before f n rest) ≡ value_of n rest
unfolding digits_before value_of
value_of-digits_before zero n rest h = absurd (omega (arith, h))
value_of-digits_before (suc f) n rest h = elim (Bool-cases (ltb n 10)) [
  | inl e ↦ rw e (ap (λ (k : ℕ). value_of k rest) (omega arith))
  | inr e ↦
      rw (e, value_of-digits_before f (n / 10) ((b'0' + n % 10) ∷ rest) (ground (arith, e, h)))
        (ap (λ (k : ℕ). value_of k rest) (omega arith))
]

-- Different numbers have different numerals.
pub decimal-injective : (m n : ℕ) → decimal m ≡ decimal n → m ≡ n
unfolding decimal value_of
decimal-injective m n e =
    let value = λ (k : ℕ). value_of-digits_before (suc k) k [] (omega arith) in
    sym (value m) ∙ (ap (value_of 0) e ∙ value n)

read_digits : ℕ → List ℕ → Option ℕ
read_digits acc [] = some acc
read_digits acc (c ∷ cs) =
    let more = read_digits (acc * 10 + (c - b'0')) cs in
    if leb b'0' c && leb c b'9'
    then (if ltb (acc * 10 + (c - b'0')) (2 ^ 32) then more else none)
    else none

-- An optional `+`, then at least one digit, without overflow.
unfoldable pub parse_u32 : List ℕ → Option ℕ
unfolding read_digits
parse_u32 [] = none
parse_u32 (c ∷ []) = if c == b'+' then none else read_digits 0 (c ∷ [])
parse_u32 (c ∷ d ∷ cs) = if c == b'+' then read_digits 0 (d ∷ cs) else read_digits 0 (c ∷ d ∷ cs)

decimal_test : decimal 1205 ≡ b'1' ∷ b'2' ∷ b'0' ∷ b'5' ∷ []
unfolding decimal
decimal_test = refl
