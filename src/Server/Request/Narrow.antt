-- ===== src/Server/Request/Narrow.antt =====
-- `req_parse` on a 32-bit target (armv7): the sum of the lengths can wrap, and the check of the
-- request's size then lets a slice out of bounds through.
use rocker.Prelude.{ℕ, ◌+◌, ◌%◌, ◌^◌, ◌<◌, ◌≡◌, false, List, [], ◌∷◌, length, arith, ℤ, pos, negsuc}
use rocker.Outcome.{ok, panic}
use rocker.Bytes.{Bytes}
use rocker.Server.Request.{
  is_zero, any_zero, as_usize, sum_usize, slice, read_metas, read_paths, finish, parse_params,
}
use rocker.Server.Request.Metas.{IsMeta}

slice_out : (v : Bytes) (l u : ℕ) → length v < u → slice v l u ≡ panic
unfolding slice
slice_out v l u h = ground arith

ends_behind : (n : ℕ) → n < 2 ^ 31 → (88 + as_usize 32 (pos n)) % 2 ^ 32 ≡ 88 + n
unfolding as_usize
ends_behind n h = omega arith

-- The first slice ends behind the last byte.
first_slice :
    (req : Bytes) (n : ℕ) (is : List ℤ)
    → length req ≡ 88
    → n < 2 ^ 31
    → is_zero (pos n) ≡ false
    → read_paths 32 req 88 (pos n ∷ is) [] ≡ panic
unfolding read_paths
first_slice req n is len small nz =
    rw (nz, read_paths)
      (rw (ends_behind n small) (rw (slice_out req 88 (88 + n) (unfold is_zero in ground arith))))

finish_panics :
    (req : Bytes) (a u g x y z : ℤ) (is : List ℤ)
    → length req ≡ 88
    → IsMeta x
    → sum_usize 32 0 (x ∷ y ∷ z ∷ is) ≡ 0
    → any_zero (a ∷ u ∷ g ∷ x ∷ y ∷ z ∷ []) ≡ false
    → finish 32 req (a ∷ u ∷ g ∷ x ∷ y ∷ z ∷ is) ≡ panic
unfolding finish
finish_panics req a u g (pos n) y z is len small wraps nz =
    rw (len, wraps)
      (rw (nz)
        (rw (first_slice req n (y ∷ z ∷ is) len small (unfold any_zero is_zero in ground arith))))
finish_panics req a u g (negsuc n) y z is len small wraps nz = absurd small

-- On a 32-bit target, a request of just the 88 bytes of numbers whose lengths add up to a multiple of
-- 2 ^ 32, with none of the first six numbers 0 or negative, panics: no error is returned.
pub parse_params-panic :
    (req : Bytes) (a u g x y z : ℤ) (is : List ℤ)
    → length req ≡ 88
    → read_metas 22 0 req ≡ ok (a ∷ u ∷ g ∷ x ∷ y ∷ z ∷ is)
    → IsMeta x
    → sum_usize 32 0 (x ∷ y ∷ z ∷ is) ≡ 0
    → any_zero (a ∷ u ∷ g ∷ x ∷ y ∷ z ∷ []) ≡ false
    → parse_params 32 req ≡ panic
unfolding parse_params
parse_params-panic req a u g x y z is len read small wraps nz =
    rw (len, read) (finish_panics req a u g x y z is len small wraps nz)
