-- ===== src/Server/Request/Paths.antt =====
-- The paths behind the numbers of a request: the loop over absolute positions, whose slices could
-- panic, is equal to one that cuts each path off what is left.
use rocker.Prelude.{
  ℕ, ◌+◌, ◌-◌, ◌%◌, ◌^◌, ◌≤◌, ◌<◌, ◌≡◌, refl, ap, ◌∙◌, true, false, List, [], ◌∷◌, ◌++◌,
  append_assoc, append-nil, length, take, drop, drop-drop, All, arith, Bool-cases, inl, inr, ℤ, pos,
  negsuc,
}
use rocker.Outcome.{Outcome, ok, err, panic, pending, ◌>>=◌}
use rocker.Bytes.{Bytes}
use rocker.Server.Request.{slice, is_zero, to_path, as_usize, read_paths}
use rocker.Server.Request.Metas.{IsMeta, size, total, as_usize-size}

-- One path from each number that is not zero.
unfoldable pub cut_paths : List ℤ → Bytes → Outcome (List Bytes)
cut_paths [] rest = ok []
cut_paths (i ∷ is) rest = elim (is_zero i) [
  | true ↦ cut_paths is rest
  | false ↦ do
    path ← to_path (take (size i) rest)
    paths ← cut_paths is (drop (size i) rest)
    ok (path ∷ paths)
]

slice_ok : (v : Bytes) (l n : ℕ) → l + n ≤ length v → slice v l (l + n) ≡ ok (take n (drop l v))
unfolding slice
slice_ok v l n h = let e : l + n - l ≡ n = omega arith in rw (e) (ground arith)

size_of_zero : (i : ℤ) → IsMeta i → is_zero i ≡ true → size i ≡ 0
unfolding is_zero
size_of_zero (pos n) h e = ground arith
size_of_zero (negsuc n) h e = refl

-- One round, whatever the path turns out to be and however the later rounds end.
collect :
    (r : Outcome Bytes) (later : Outcome (List Bytes)) (f : Bytes → Outcome (List Bytes))
    (paths : List Bytes)
    → ((path : Bytes) → f path ≡ (later >>= λ ps. ok ((paths ++ path ∷ []) ++ ps)))
    → (r >>= f) ≡ (r >>= (λ path. later >>= λ ps. ok (path ∷ ps)) >>= λ ps. ok (paths ++ ps))
collect (ok path) (ok ps) f paths h = h path ∙ ap ok (append_assoc paths (path ∷ []) ps)
collect (ok path) (err e) f paths h = h path
collect (ok path) panic f paths h = h path
collect (ok path) pending f paths h = h path
collect (err e) later f paths h = refl
collect panic later f paths h = refl
collect pending later f paths h = refl

-- The loop over absolute positions gives the paths that come out by cutting them off the rest of the
-- datagram, one by one, behind those that it has already. Conditions: no length is negative, they fit
-- into what is behind position `l`, and the datagram is shorter than 2 ^ 64 bytes.
pub read_paths-eq-cut_paths :
    (req : Bytes) (l : ℕ) (is : List ℤ) (paths : List Bytes)
    → All IsMeta is
    → length req < 2 ^ 64
    → l + total is ≤ length req
    → read_paths 64 req l is paths ≡ (cut_paths is (drop l req) >>= λ ps. ok (paths ++ ps))
unfolding read_paths cut_paths
read_paths-eq-cut_paths req l [] paths h small fits = rw append-nil
read_paths-eq-cut_paths req l (i ∷ is) paths h small fits =
    let u : (l + as_usize 64 i) % 2 ^ 64 ≡ l + size i = omega (arith, as_usize-size i h.0) in
    elim (Bool-cases (is_zero i)) [
      | inl z ↦
          rw (z, read_paths, cut_paths)
            (rw u (
              read_paths-eq-cut_paths req (l + size i) is paths h.1 small (omega arith)
              ∙ ap (λ d. cut_paths is d >>= λ ps. ok (paths ++ ps)) (same_rest z)))
      | inr p ↦
          rw (p, read_paths, cut_paths)
            (rw (u, slice_ok req l (size i) (omega arith), drop-drop l (size i) req)
              (collect (to_path (take (size i) (drop l req))) (cut_paths is (drop (l + size i) req))
                _ paths
                (λ path.
                  read_paths-eq-cut_paths req (l + size i) is (paths ++ path ∷ []) h.1 small
                    (omega arith))))
    ]
  where
    same_rest : is_zero i ≡ true → drop (l + size i) req ≡ drop l req
    same_rest z = ap (λ k. drop k req) (omega (arith, size_of_zero i h.0 z))
