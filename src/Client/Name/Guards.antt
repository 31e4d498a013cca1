-- ===== src/Client/Name/Guards.antt =====
-- What the client finds as the name of a guard (librocker_client/src/utils.c), and what the server has
-- reported (rocker_server/src/main.rs, `send_resq`).
use rocker.Prelude.{
  inr, inl, Bool-cases, if◌then◌else◌, append_assoc, ℕ, zero, suc, ◌≤◌, ◌<◌, ◌≡◌, refl, ap, sym,
  ◌∙◌, true, false, some, [], ◌∷◌, ◌++◌, length, length-append, All, arith, ltb, ◌==◌, ◌||◌,
}
use rocker.Client.Name.{
  leb, aborted, tidy, is_space, is_digit, skip_space, skip_digits, scan_int, scan_paren, take_word,
  scan_word, scan_stat, chop, named, get_process_name,
}
use rocker.Bytes.{Bytes}
use rocker.Bytes.Decimal.{decimal, decimal-digits}

abbrev IsDigits : Bytes → Type 0
IsDigits ds = All (λ d. is_digit d ≡ true) ds

-- No white space.
abbrev pub IsWord : Bytes → Type 0
IsWord bs = All (λ b. is_space b ≡ false) bs

skip_digits-word :
    (ds : Bytes) (c : ℕ) (rest : Bytes)
    → IsDigits ds
    → is_digit c ≡ false
    → skip_digits (ds ++ c ∷ rest) ≡ c ∷ rest
unfolding skip_digits
skip_digits-word [] c rest h e = rw e refl
skip_digits-word (d ∷ ds) c rest h e = rw (h.0, skip_digits-word ds c rest h.1 e) refl

scan_int-digits :
    (ds : Bytes) (c : ℕ) (rest : Bytes)
    → IsDigits ds
    → 0 < length ds
    → is_digit c ≡ false
    → scan_int (ds ++ c ∷ rest) ≡ some (c ∷ rest)
unfolding scan_int
scan_int-digits [] c rest h l e = absurd (omega (arith, l))
scan_int-digits (d ∷ ds) c rest h l e =
    let space : is_space d ≡ false = ground (arith, h.0) in
    let sign : ((d == b'+') || (d == b'-')) ≡ false = ground (arith, h.0) in
    rw (space, sign, h.0, skip_digits-word ds c rest h.1 e) refl

skip_space-word : (b : ℕ) (bs : Bytes) → is_space b ≡ false → skip_space (b ∷ bs) ≡ b ∷ bs
unfolding skip_space
skip_space-word b bs e = rw e refl

-- A word that is cut by its length, and one that is cut by white space.
take_word-whole : (w rest : Bytes) → IsWord w → take_word (length w) (w ++ rest) ≡ w
unfolding take_word
take_word-whole [] rest h = refl
take_word-whole (b ∷ w) rest h = rw (h.0, take_word-whole w rest h.1) refl

take_word-space :
    (w : Bytes) (k c : ℕ) (rest : Bytes)
    → IsWord w
    → is_space c ≡ true
    → length w ≤ k
    → take_word k (w ++ c ∷ rest) ≡ w
unfolding take_word
take_word-space [] zero c rest h e l = refl
take_word-space [] (suc k) c rest h e l = rw e refl
take_word-space (b ∷ w) zero c rest h e l = absurd (omega (arith, l))
take_word-space (b ∷ w) (suc k) c rest h e l =
    rw (h.0, take_word-space w k c rest h.1 e (omega (arith, l))) refl

chop-paren : (w : Bytes) → chop (w ++ b')' ∷ []) ≡ w
unfolding chop
chop-paren [] = refl
chop-paren (b ∷ []) = refl
chop-paren (b ∷ c ∷ w) = ap (λ l. b ∷ l) (chop-paren (c ∷ w))

-- The file of a process, with its pid, its name in parentheses, and the rest.
abbrev pub stat_line : ℕ → Bytes → Bytes → Bytes
stat_line pid name rest = decimal pid ++ b' ' ∷ b'(' ∷ (name ++ b')' ∷ b' ' ∷ rest)

scan_stat-line :
    (pid b : ℕ) (name rest : Bytes)
    → is_space b ≡ false
    → scan_stat (stat_line pid (b ∷ name) rest) ≡ scan_word ((b ∷ name) ++ b')' ∷ b' ' ∷ rest)
unfolding scan_stat scan_paren skip_space
scan_stat-line pid b name rest h =
    rw
      (
        (scan_int-digits (decimal pid) b' ' (b'(' ∷ ((b ∷ name) ++ b')' ∷ b' ' ∷ rest))
            (decimal-digits pid).0 (decimal-digits pid).1 refl),
        scan_stat,
      )
      refl

with_paren : (w : Bytes) → IsWord w → IsWord (w ++ b')' ∷ [])
with_paren [] h = (refl, tt)
with_paren (b ∷ w) h = (h.0, with_paren w h.1)

tidy-word : (b : ℕ) (w : Bytes) → 0 < length w → tidy (some (b ∷ w)) ≡ named (chop (b ∷ w))
tidy-word b w h = let long : ltb 1 (suc (length w)) ≡ true = ground (arith, h) in rw long refl

by_length :
    (pid : ℕ) (name rest : Bytes)
    → IsWord name
    → 0 < length name
    → (length name ≤ 14 → get_process_name (some (stat_line pid name rest)) ≡ named name)
      × (length name ≡ 15 → get_process_name (some (stat_line pid name rest)) ≡ named (chop name))
unfolding get_process_name scan_word
by_length pid [] rest h l = absurd (omega (arith, l))
by_length pid (b ∷ name) rest h l =
    rw (scan_stat-line pid b name rest h.0, skip_space-word b (name ++ b')' ∷ b' ' ∷ rest) h.0)
      (
        λ short.
            rw
              (
                ap (take_word 15) (sym (append_assoc (b ∷ name) (b')' ∷ []) (b' ' ∷ rest))),
                take_word-space ((b ∷ name) ++ b')' ∷ []) 15 b' ' rest (with_paren (b ∷ name) h)
                    refl (omega (arith, short, length-append name (b')' ∷ []))),
              )
              (tidy-word b (name ++ b')' ∷ []) (omega (arith, length-append name (b')' ∷ [])))
                ∙ ap named (chop-paren (b ∷ name))),
        λ long.
            rw
              (
                ap (λ k. take_word k ((b ∷ name) ++ b')' ∷ b' ' ∷ rest)) (sym long),
                take_word-whole (b ∷ name) (b')' ∷ b' ' ∷ rest) h,
              )
              (tidy-word b name (omega (arith, long))),
      )

-- The name of a process, where it holds no white space and has at most 15 bytes, as names have: whole,
-- if it has at most 14, and without a parenthesis at its end, if it has 15.
pub get_process_name-stat :
    (pid : ℕ) (name rest : Bytes)
    → IsWord name
    → 0 < length name
    → length name ≤ 15
    → get_process_name (some (stat_line pid name rest))
      ≡ named (if leb (length name) 14 then name else chop name)
get_process_name-stat pid name rest h l k = elim (Bool-cases (leb (length name) 14)) [
  | inl e ↦ rw e ((by_length pid name rest h l).0 (ground (arith, e)))
  | inr e ↦ rw e ((by_length pid name rest h l).1 (ground (arith, e, k)))
]

-- One byte, and then white space.
pub get_process_name-space :
    (pid b c : ℕ) (name rest : Bytes)
    → is_space b ≡ false
    → is_space c ≡ true
    → get_process_name (some (stat_line pid (b ∷ c ∷ name) rest)) ≡ aborted
unfolding get_process_name scan_word
get_process_name-space pid b c name rest h e =
    rw
      (
        scan_stat-line pid b (c ∷ name) rest h,
        skip_space-word b (c ∷ (name ++ b')' ∷ b' ' ∷ rest)) h,
        take_word-space (b ∷ []) 15 c (name ++ b')' ∷ b' ' ∷ rest) (h, tt) e (omega arith),
      )
      refl
