-- ===== src/Bytes/LittleEndian.antt =====
-- `to_ne_bytes` and `from_ne_bytes`. The targets (x86_64, aarch64, armv7) are little-endian.
use rocker.Prelude.{
  ℕ, zero, suc, ◌+◌, ◌-◌, ◌*◌, ◌/◌, ◌%◌, ◌^◌, ◌<◌, ◌≡◌, refl, ap, List, [], ◌∷◌, length, All, arith,
  ltb, if◌then◌else◌, ℤ, pos, negsuc,
}
use native.Mathlib.Nat.{pow-suc}

-- The lowest `k` bytes of a number, lowest first.
unfoldable pub to_bytes : ℕ → ℕ → List ℕ
to_bytes zero n = []
to_bytes (suc k) n = (n % 256) ∷ to_bytes k (n / 256)

unfoldable pub of_bytes : List ℕ → ℕ
of_bytes [] = 0
of_bytes (b ∷ bs) = b + 256 * of_bytes bs

pub length-to_bytes : (k n : ℕ) → length (to_bytes k n) ≡ k
unfolding to_bytes
length-to_bytes zero n = refl
length-to_bytes (suc k) n = ap suc (length-to_bytes k (n / 256))

pub of_bytes-to_bytes : (k n : ℕ) → n < 256 ^ k → of_bytes (to_bytes k n) ≡ n
unfolding to_bytes of_bytes
of_bytes-to_bytes zero n h = omega arith
of_bytes-to_bytes (suc k) n h =
    omega (arith, of_bytes-to_bytes k (n / 256) (omega (arith, pow-suc 256 k)))

pub of_bytes-lt : (bs : List ℕ) → All (λ b. b < 256) bs → of_bytes bs < 256 ^ length bs
unfolding of_bytes
of_bytes-lt [] h = omega arith
of_bytes-lt (b ∷ bs) h = omega (arith, of_bytes-lt bs h.1, pow-suc 256 (length bs))

-- An i32 as its bit pattern, and back.
unfoldable pub i32_of_bits : ℕ → ℤ
i32_of_bits w = if ltb w (2 ^ 31) then pos w else negsuc (2 ^ 32 - 1 - w)

unfoldable pub bits_of_i32 : ℤ → ℕ
bits_of_i32 (pos n) = n % 2 ^ 32
bits_of_i32 (negsuc n) = 2 ^ 32 - 1 - n % 2 ^ 32

-- `i.to_ne_bytes()` and `i32::from_ne_bytes(bytes)`
unfoldable pub i32_to_bytes : ℤ → List ℕ
i32_to_bytes i = to_bytes 4 (bits_of_i32 i)

unfoldable pub i32_of_bytes : List ℕ → ℤ
i32_of_bytes bs = i32_of_bits (of_bytes bs)

abbrev pub IsI32 : ℤ → Type 0
IsI32 (pos n) = n < 2 ^ 31
IsI32 (negsuc n) = n < 2 ^ 31

pub i32_of_bits-bits_of_i32 : (i : ℤ) → IsI32 i → i32_of_bits (bits_of_i32 i) ≡ i
unfolding i32_of_bits bits_of_i32
i32_of_bits-bits_of_i32 (pos n) h = ground arith
i32_of_bits-bits_of_i32 (negsuc n) h = ground arith

bits_of_i32-lt : (i : ℤ) → bits_of_i32 i < 2 ^ 32
unfolding bits_of_i32
bits_of_i32-lt (pos n) = omega arith
bits_of_i32-lt (negsuc n) = omega arith

pub i32_of_bytes-i32_to_bytes : (i : ℤ) → IsI32 i → i32_of_bytes (i32_to_bytes i) ≡ i
unfolding i32_of_bytes i32_to_bytes
i32_of_bytes-i32_to_bytes i h =
    rw (of_bytes-to_bytes 4 (bits_of_i32 i) (bits_of_i32-lt i)) (i32_of_bits-bits_of_i32 i h)
