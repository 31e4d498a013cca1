-- ===== src/Client/Wire/Texts.antt =====
-- The texts of a request: the server cuts off its payload what the client put there.
use rocker.Prelude.{
  ℕ, ◌%◌, ◌^◌, ◌<◌, ◌≡◌, refl, ap, ◌∙◌, false, Option, none, some, List, [], ◌∷◌, ◌++◌, map, length,
  length-append, take-length, take-append, drop-append, All, arith, ℤ, pos,
}
use rocker.Outcome.{ok, ◌>>=◌}
use rocker.Bytes.{Bytes}
use rocker.Bytes.LittleEndian.{i32_of_bits}
use rocker.Bytes.CString.{from_bytes_with_nul-append}
use rocker.Server.Request.{to_path, is_zero}
use rocker.Server.Request.Metas.{IsMeta, total}
use rocker.Server.Request.Paths.{cut_paths}
use rocker.Server.Request.Total.{IsPath}
use rocker.Client.Wire.{strlen_nul, meta_of, iov, concat_map}

-- A text that fits the protocol, or none.
abbrev pub Sendable : Option Bytes → Type 0
Sendable none = Unit
Sendable (some s) = IsPath s × (length s < 2 ^ 30)

-- The texts that are there and not empty.
abbrev pub present : List (Option Bytes) → List Bytes
present [] = []
present (none ∷ ps) = present ps
present (some [] ∷ ps) = present ps
present (some (b ∷ s) ∷ ps) = (b ∷ s) ∷ present ps

to_path-append : (s : Bytes) → IsPath s → to_path (s ++ 0 ∷ []) ≡ ok s
unfolding to_path
to_path-append s h = rw (from_bytes_with_nul-append s h.0, to_path, h.1)

strlen_nul_text :
    (b : ℕ) (s : Bytes)
    → length s < 2 ^ 30
    → strlen_nul (some (b ∷ s)) % 2 ^ 32 ≡ length (b ∷ (s ++ 0 ∷ []))
unfolding strlen_nul
strlen_nul_text b s h = ground (arith, length-append s (0 ∷ []))

i32_of_small : (n : ℕ) → n < 2 ^ 31 → i32_of_bits n ≡ pos n
unfolding i32_of_bits
i32_of_small n h = ground arith

pub meta_of_text :
    (b : ℕ) (s : Bytes)
    → length s < 2 ^ 30
    → meta_of (some (b ∷ s)) ≡ pos (length (b ∷ (s ++ 0 ∷ [])))
unfolding meta_of
meta_of_text b s h =
    ap i32_of_bits (strlen_nul_text b s h)
    ∙ i32_of_small _ (omega (arith, length-append s (0 ∷ [])))

iov_text : (b : ℕ) (s : Bytes) → length s < 2 ^ 30 → iov (some (b ∷ s)) ≡ b ∷ (s ++ 0 ∷ [])
unfolding iov
iov_text b s h = rw (meta_of_text b s h) (take-length (b ∷ (s ++ 0 ∷ [])))

cut_step :
    (s rest : Bytes) (is : List ℤ)
    → IsPath s
    → cut_paths (pos (length (s ++ 0 ∷ [])) ∷ is) ((s ++ 0 ∷ []) ++ rest)
      ≡ (cut_paths is rest >>= λ ps. ok (s ∷ ps))
unfolding cut_paths
cut_step s rest is h =
    rw (not_zero, cut_paths)
      (rw (take-append (s ++ 0 ∷ []) rest, drop-append (s ++ 0 ∷ []) rest, to_path-append s h))
  where
    not_zero : is_zero (pos (length (s ++ 0 ∷ []))) ≡ false
    not_zero = unfold is_zero in ground (arith, length-append s (0 ∷ []))

cut_zero : (is : List ℤ) (rest : Bytes) → cut_paths (pos 0 ∷ is) rest ≡ cut_paths is rest
unfolding cut_paths is_zero
cut_zero is rest = refl

meta_of_absent : (meta_of none ≡ pos 0) × (meta_of (some []) ≡ pos 0)
unfolding meta_of
meta_of_absent = (refl, refl)

iov_absent : (iov none ≡ []) × (iov (some []) ≡ [])
unfolding iov strlen_nul
iov_absent = (refl, refl)

-- The server cuts the texts off the payload by the lengths that the client wrote.
pub cut_paths-texts :
    (ps : List (Option Bytes))
    → All Sendable ps
    → cut_paths (map meta_of ps) (concat_map iov ps) ≡ ok (present ps)
unfolding concat_map
cut_paths-texts [] h = unfold cut_paths in refl
cut_paths-texts (none ∷ ps) h =
    rw meta_of_absent.0 (rw iov_absent.0 (rw cut_zero (cut_paths-texts ps h.1)))
cut_paths-texts (some [] ∷ ps) h =
    rw meta_of_absent.1 (rw iov_absent.1 (rw cut_zero (cut_paths-texts ps h.1)))
cut_paths-texts (some (b ∷ s) ∷ ps) h = rw (meta_of_text b s (omega arith)) (
    rw (iov_text b s (omega arith))
      (rw (cut_step (b ∷ s) (concat_map iov ps) (map meta_of ps) h.0.0, cut_paths-texts ps h.1)))

-- The payload is as long as the lengths say, and each length is a plain number.
pub total-texts :
    (ps : List (Option Bytes))
    → All Sendable ps
    → total (map meta_of ps) ≡ length (concat_map iov ps)
unfolding concat_map
total-texts [] h = refl
total-texts (none ∷ ps) h =
    rw meta_of_absent.0 (rw iov_absent.0 (omega (arith, total-texts ps h.1)))
total-texts (some [] ∷ ps) h =
    rw meta_of_absent.1 (rw iov_absent.1 (omega (arith, total-texts ps h.1)))
total-texts (some (b ∷ s) ∷ ps) h = rw (meta_of_text b s (omega arith)) (
    rw (iov_text b s (omega arith))
      (omega (arith, total-texts ps h.1, length-append (s ++ 0 ∷ []) (concat_map iov ps))))

meta_of-IsMeta : (p : Option Bytes) → Sendable p → IsMeta (meta_of p)
meta_of-IsMeta none h = rw meta_of_absent.0 (omega arith)
meta_of-IsMeta (some []) h = rw meta_of_absent.1 (omega arith)
meta_of-IsMeta (some (b ∷ s)) h =
    rw (meta_of_text b s (omega arith)) (omega (arith, length-append s (0 ∷ [])))

pub texts-IsMeta : (ps : List (Option Bytes)) → All Sendable ps → All IsMeta (map meta_of ps)
texts-IsMeta [] h = tt
texts-IsMeta (p ∷ ps) h = (meta_of-IsMeta p h.0, texts-IsMeta ps h.1)
