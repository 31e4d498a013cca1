-- ===== src/Server/Request/Size.antt =====
-- How large the texts of an accepted request are (rocker_server/src/main.rs, `req_parse`).
use rocker.Prelude.{
  ℕ, suc, ◌+◌, ◌-◌, ◌*◌, ◌^◌, ◌≤◌, ◌<◌, ◌≡◌, refl, List, [], ◌∷◌, ◌++◌, length, length-append,
  length-take, length-drop, take, drop, All, All-drop, arith, ltb, Bool-cases, Option-cases, inl,
  inr, ℤ,
}
use rocker.Outcome.{Outcome, ok, err, panic, pending, ◌>>=◌, Gives}
use rocker.Bytes.{Bytes, IsByte}
use rocker.Bytes.CString.{from_bytes_with_nul, from_bytes_with_nul-some}
use rocker.Bytes.Utf8.{is_utf8}
use rocker.Core.Setup.{Params}
use rocker.Server.Request.{
  is_zero, any_zero, to_path, assemble, sum_usize, finish, parse_params, req_meta_siz,
}
use rocker.Server.Request.Metas.{IsMeta, size, total, read_metas_ok, sum_usize-total, total-le}
use rocker.Server.Request.Paths.{cut_paths, read_paths-eq-cut_paths}
use rocker.Server.Request.Total.{WellFormed, parse_params-WellFormed, fit_le}

-- The bytes of some texts, with a NUL behind each.
abbrev pub weight : List Bytes → ℕ
weight [] = 0
weight (p ∷ ps) = suc (length p) + weight ps

abbrev pub text_size : Params → ℕ
text_size p = weight (p.app_pkg_path ∷ p.app_exec_dir ∷ p.app_data_dir ∷ p.app_overlay_dirs)

-- `P` holds of the result, if there is one.
abbrev Tells : {A : Type 0} → (A → Type 0) → Outcome A → Type 0
Tells P (ok a) = P a
Tells P _ = Unit

Tells-bind :
    {A B : Type 0} (P : A → Type 0) (Q : B → Type 0) (m : Outcome A) (f : A → Outcome B)
    → Tells P m
    → ((a : A) → P a → Tells Q (f a))
    → Tells Q (m >>= f)
Tells-bind P Q (ok a) f h k = k a h
Tells-bind P Q (err e) f h k = tt
Tells-bind P Q panic f h k = tt
Tells-bind P Q pending f h k = tt

Tells-mono :
    {A : Type 0} (P Q : A → Type 0) (m : Outcome A) → ((a : A) → P a → Q a) → Tells P m → Tells Q m
Tells-mono P Q (ok a) f h = f a h
Tells-mono P Q (err e) f h = tt
Tells-mono P Q panic f h = tt
Tells-mono P Q pending f h = tt

Gives-Tells : {A : Type 0} (P Q : A → Type 0) (m : Outcome A) → Gives P m → Tells Q m → Gives Q m
Gives-Tells P Q (ok a) g t = t
Gives-Tells P Q (err e) g t = tt
Gives-Tells P Q panic g t = absurd g
Gives-Tells P Q pending g t = absurd g

to_path-Tells : (bs : Bytes) → Tells (λ p. suc (length p) ≡ length bs) (to_path bs)
unfolding to_path
to_path-Tells bs = elim (Option-cases (from_bytes_with_nul bs)) [
  | inl e ↦ rw (e, to_path) tt
  | inr (s, e) ↦ elim (Bool-cases (is_utf8 s)) [
    | inl v ↦
        let whole : bs ≡ s ++ 0 ∷ [] = (from_bytes_with_nul-some bs s e).0 in
        rw (e, to_path, v) (rw whole (omega (arith, length-append s (0 ∷ []))))
    | inr v ↦ rw (e, to_path, v) tt
  ]
]

cut_paths-Tells :
    (is : List ℤ) (rest : Bytes) → Tells (λ ps. weight ps ≤ total is) (cut_paths is rest)
unfolding cut_paths
cut_paths-Tells [] rest = omega arith
cut_paths-Tells (i ∷ is) rest = elim (Bool-cases (is_zero i)) [
  | inl z ↦
      rw (z, cut_paths)
        (Tells-mono _ _ (cut_paths is rest) (λ ps h. omega (arith, h)) (cut_paths-Tells is rest))
  | inr p ↦
      rw (p, cut_paths)
        (Tells-bind _ (λ ps. weight ps ≤ size i + total is) (to_path (take (size i) rest)) _
          (to_path-Tells (take (size i) rest))
          (λ path one.
            Tells-bind _ _ (cut_paths is (drop (size i) rest)) _
              (cut_paths-Tells is (drop (size i) rest))
              (λ ps more. omega (arith, one, more, length-take (size i) rest))))
]

assemble-Tells :
    (ms : List ℤ) (ps : List Bytes) → Tells (λ p. text_size p ≡ weight ps) (assemble ms ps)
unfolding assemble
assemble-Tells (a ∷ u ∷ g ∷ ms) (p ∷ q ∷ r ∷ os) = refl
assemble-Tells (a ∷ u ∷ g ∷ ms) [] = tt
assemble-Tells (a ∷ u ∷ g ∷ ms) (p ∷ []) = tt
assemble-Tells (a ∷ u ∷ g ∷ ms) (p ∷ q ∷ []) = tt
assemble-Tells [] ps = tt
assemble-Tells (a ∷ []) ps = tt
assemble-Tells (a ∷ u ∷ []) ps = tt

finish-Tells :
    (req : Bytes) (ms : List ℤ)
    → length req < 2 ^ 63
    → 88 ≤ length req
    → length ms ≡ 22
    → All IsMeta ms
    → Tells (λ p. 88 + text_size p ≤ length req) (finish 64 req ms)
unfolding finish
finish-Tells req ms small enough count metas =
    let m19 : All IsMeta (drop 3 ms) = All-drop IsMeta 3 ms metas in
    let few : total (drop 3 ms) ≤ 19 * 2 ^ 31 =
      omega (arith, total-le (drop 3 ms) m19, length-drop 3 ms) in
    let sum : sum_usize 64 0 (drop 3 ms) ≡ 0 + total (drop 3 ms) =
      sum_usize-total 0 (drop 3 ms) m19 (omega arith) in
    elim (Bool-cases (ltb (length req - 88) (sum_usize 64 0 (drop 3 ms)))) [
      | inl over ↦ rw over tt
      | inr fits ↦ elim (Bool-cases (any_zero (take 6 ms))) [
        | inl zeros ↦ rw (fits, zeros) tt
        | inr nz ↦
            let room : 88 + total (drop 3 ms) ≤ length req = fit_le req ms fits sum enough in
            rw (fits, nz, read_paths-eq-cut_paths req 88 (drop 3 ms) [] m19 (omega arith) room)
              (Tells-bind (λ ps. weight ps ≤ total (drop 3 ms)) _ _ _
                (Tells-bind _ _ (cut_paths (drop 3 ms) (drop 88 req)) _
                  (cut_paths-Tells (drop 3 ms) (drop 88 req)) (λ ps h. h))
                (λ ps h.
                  Tells-mono _ _ (assemble ms ps) (λ p e. omega (arith, e, h, room))
                    (assemble-Tells ms ps)))
      ]
    ]

parse_params-Tells :
    (req : Bytes)
    → All IsByte req
    → length req < 2 ^ 63
    → Tells (λ p. 88 + text_size p ≤ length req) (parse_params 64 req)
unfolding parse_params
parse_params-Tells req bytes_only small = elim (Bool-cases (ltb (length req) req_meta_siz)) [
  | inl short ↦ rw short tt
  | inr enough ↦
      let (ms, read, count, metas) = read_metas_ok 22 0 req bytes_only (ground arith) in
      rw (enough, read) (finish-Tells req ms small (ground arith) count metas)
]

-- On a datagram of less than 2 ^ 63 bytes and a usize of 64 bits, `req_parse`, up to `RockerCfg::new`,
-- gives a result or an error. If it accepts, then the package, the two directories and all overlay
-- directories, with a NUL behind each, fit together into what the datagram has behind its 88 bytes of
-- numbers.
pub parse_params-text_size :
    (req : Bytes)
    → All IsByte req
    → length req < 2 ^ 63
    → Gives (λ p. 88 + text_size p ≤ length req) (parse_params 64 req)
parse_params-text_size req bytes_only small =
    Gives-Tells WellFormed _ (parse_params 64 req) (parse_params-WellFormed req bytes_only small)
      (parse_params-Tells req bytes_only small)
