-- ===== src/Core/Name/Laws.antt =====
-- The name that a guard gives itself and the name that its master reports.
use Prim.Native.Nat.add
use rocker.Prelude.{
  ℕ, zero, suc, ◌+◌, ◌/◌, ◌%◌, ◌^◌, ◌≤◌, ◌<◌, ◌≡◌, ◌≢◌, refl, ap, sym, ◌∙◌, false, [], ◌∷◌, ◌++◌,
  map, length, length-take, length-map, take, arith, ◌==◌, if◌then◌else◌,
}
use native.Mathlib.Nat.{pow-suc}
use rocker.Bytes.{Bytes}
use rocker.Bytes.LittleEndian.{to_bytes, length-to_bytes}
use rocker.Core.Name.{no_zero, sanitise}

-- The C string at the front of a buffer: the bytes before the first NUL.
unfoldable pub until_nul : Bytes → Bytes
until_nul [] = []
until_nul (b ∷ bs) = let rest = until_nul bs in if b == 0 then [] else b ∷ rest

no_zero-ne-zero : (b : ℕ) → (no_zero b == 0) ≡ false
no_zero-ne-zero b = ground arith

pub until_nul-sanitised :
    (k : ℕ) (bs : Bytes) → until_nul (take k (map no_zero bs) ++ 0 ∷ []) ≡ take k (map no_zero bs)
unfolding until_nul
until_nul-sanitised zero bs = refl
until_nul-sanitised (suc k) [] = refl
until_nul-sanitised (suc k) (b ∷ bs) = ground (arith, no_zero-ne-zero b, until_nul-sanitised k bs)

-- The name that the guard sets is a C string of exactly 15 bytes: there is no NUL among the first 15,
-- and one NUL follows them.
pub sanitise-until_nul :
    (n : ℕ)
    → (length (until_nul (sanitise n)) ≡ 15) × (sanitise n ≡ until_nul (sanitise n) ++ 0 ∷ [])
unfolding sanitise
sanitise-until_nul n = (ap length whole ∙ fifteen, ap (λ l. l ++ 0 ∷ []) (sym whole))
  where
    whole : until_nul (sanitise n) ≡ take 15 (map no_zero (to_bytes 16 n))
    whole = until_nul-sanitised 15 (to_bytes 16 n)

    fifteen : length (take 15 (map no_zero (to_bytes 16 n))) ≡ 15
    fifteen = omega (
      arith,
      length-take 15 (map no_zero (to_bytes 16 n)),
      length-map (to_bytes 16 n) no_zero,
      length-to_bytes 16 n,
    )

until_nul_of_zero : (m : ℕ) → until_nul (to_bytes m 0) ≡ []
unfolding until_nul to_bytes
until_nul_of_zero zero = refl
until_nul_of_zero (suc m) = refl

until_nul-suc :
    (j n k : ℕ)
    → length (until_nul (to_bytes j (n / 256))) ≤ k
    → length (until_nul (to_bytes (suc j) n)) ≤ suc k
unfolding until_nul to_bytes
until_nul-suc j n k h = ground arith

-- A number of `k` bytes, written in more, is a C string of at most `k` bytes.
until_nul-to_bytes : (k m n : ℕ) → n < 256 ^ k → length (until_nul (to_bytes (k + m) n)) ≤ k
until_nul-to_bytes zero m n h =
    let e : n ≡ 0 = omega arith in rw (e, until_nul_of_zero) (omega arith)
until_nul-to_bytes (suc k) m n h =
    rw add.suc
      (until_nul-suc (k + m) n k (until_nul-to_bytes k m (n / 256) (omega (arith, pow-suc 256 k))))

-- For every value of the counter `GUARD_PROCNAME` the name that the master reports to the client is not
-- the name that the guard process has: as C strings the one has at most 8 bytes, and the other 15.
pub reported-ne-sanitise : (n : ℕ) → n < 2 ^ 64 → until_nul (to_bytes 16 n) ≢ until_nul (sanitise n)
reported-ne-sanitise n h same =
    omega (arith, ap length same, until_nul-to_bytes 8 8 n h, (sanitise-until_nul n).0)

-- Two values of the counter whose names differ only in a first byte of 0 and 1 give guards of one name.
pub sanitise_collides : (n : ℕ) → n % 256 ≡ 0 → sanitise n ≡ sanitise (n + 1)
unfolding sanitise to_bytes
sanitise_collides n h = rw (h, first, rest)
  where
    first : (n + 1) % 256 ≡ 1
    first = omega arith

    rest : (n + 1) / 256 ≡ n / 256
    rest = omega arith
