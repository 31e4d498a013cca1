-- ===== src/Server/Request/Metas.antt =====
-- The 22 numbers at the front of a request: reading them never goes out of bounds, and gives numbers
-- from 0 to 2 ^ 31 - 1, whose sum does not wrap on a usize of 64 bits.
use rocker.Prelude.{
  ℕ, zero, suc, ◌+◌, ◌*◌, ◌%◌, ◌^◌, ◌≤◌, ◌<◌, ◌≡◌, refl, List, [], ◌∷◌, length, All, arith, ℤ, pos,
  negsuc,
}
use rocker.Outcome.{ok}
use rocker.Bytes.{Bytes, IsByte}
use rocker.Bytes.LittleEndian.{i32_of_bytes, i32_of_bits, of_bytes-lt}
use rocker.Server.Request.{index, read_meta, clamp, read_metas, as_usize, sum_usize}

-- What `clamp` leaves of an i32.
abbrev pub IsMeta : ℤ → Type 0
IsMeta (pos n) = n < 2 ^ 31
IsMeta (negsuc n) = ⊥

-- The number that is not negative.
abbrev pub size : ℤ → ℕ
size (pos n) = n
size (negsuc n) = 0

abbrev pub total : List ℤ → ℕ
total [] = 0
total (i ∷ is) = size i + total is

index_ok :
    (v : Bytes) (i : ℕ) → All IsByte v → i < length v → (b : ℕ) × (index v i ≡ ok b) × IsByte b
unfolding index
index_ok [] i h lt = absurd (omega arith)
index_ok (b ∷ v) zero h lt = (b, refl, h.0)
index_ok (b ∷ v) (suc i) h lt = index_ok v i h.1 (omega arith)

clamp-IsMeta : (n : ℕ) → n < 2 ^ 32 → IsMeta (clamp (i32_of_bits n))
unfolding clamp i32_of_bits
clamp-IsMeta n h = ground arith

read_meta_ok :
    (req : Bytes) (i : ℕ)
    → All IsByte req
    → i * 4 + 4 ≤ length req
    → (m : ℤ) × (read_meta req i ≡ ok m) × IsMeta (clamp m)
unfolding read_meta i32_of_bytes
read_meta_ok req i h fits =
    let (a, ea, ha) = index_ok req (i * 4 + 0) h (omega arith) in
    let (b, eb, hb) = index_ok req (i * 4 + 1) h (omega arith) in
    let (c, ec, hc) = index_ok req (i * 4 + 2) h (omega arith) in
    let (d, ed, hd) = index_ok req (i * 4 + 3) h (omega arith) in
    (
      i32_of_bytes (a ∷ b ∷ c ∷ d ∷ []),
      rw (ea, eb, ec, ed),
      clamp-IsMeta _ (of_bytes-lt (a ∷ b ∷ c ∷ d ∷ []) (ha, (hb, (hc, (hd, tt))))),
    )

pub read_metas_ok :
    (rounds i : ℕ) (req : Bytes)
    → All IsByte req
    → (i + rounds) * 4 ≤ length req
    → (ms : List ℤ) × (read_metas rounds i req ≡ ok ms) × (length ms ≡ rounds) × All IsMeta ms
unfolding read_metas
read_metas_ok zero i req h fits = ([], refl, refl, tt)
read_metas_ok (suc rounds) i req h fits =
    let (m, em, hm) = read_meta_ok req i h (omega arith) in
    let (ms, es, ls, hs) = read_metas_ok rounds (suc i) req h (omega arith) in
    (clamp m ∷ ms, rw (em, es), omega arith, (hm, hs))

pub as_usize-size : (i : ℤ) → IsMeta i → as_usize 64 i ≡ size i
unfolding as_usize
as_usize-size (pos n) h = omega arith
as_usize-size (negsuc n) h = absurd h

pub sum_usize-total :
    (acc : ℕ) (is : List ℤ)
    → All IsMeta is
    → acc + total is < 2 ^ 64
    → sum_usize 64 acc is ≡ acc + total is
unfolding sum_usize
sum_usize-total acc [] h fits = omega arith
sum_usize-total acc (i ∷ is) h fits =
    let e : (acc + as_usize 64 i) % 2 ^ 64 ≡ acc + size i = omega (arith, as_usize-size i h.0) in
    rw e (omega (arith, sum_usize-total (acc + size i) is h.1))

pub total-le : (is : List ℤ) → All IsMeta is → total is ≤ length is * 2 ^ 31
total-le [] h = omega arith
total-le (pos n ∷ is) h = omega (arith, total-le is h.1)
total-le (negsuc n ∷ is) h = absurd h.0
