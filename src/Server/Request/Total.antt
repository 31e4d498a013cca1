-- ===== src/Server/Request/Total.antt =====
-- `req_parse` on every datagram: on a 64-bit target it never panics, and what it accepts is well
-- formed.
use rocker.Prelude.{
  ℕ, suc, ◌+◌, ◌-◌, ◌*◌, ◌^◌, ◌≤◌, ◌<◌, ◌≡◌, refl, sym, ap, ◌∙◌, true, false, some, List, [], ◌∷◌,
  length, length-drop, take, drop, All, All-drop, arith, ltb, Bool-cases, Option-cases, inl, inr,
  if◌then◌else◌, ℤ, pos, negsuc,
}
use rocker.Outcome.{Gives, Gives-bind, Gives-mono}
use rocker.Bytes.{Bytes, IsByte}
use rocker.Bytes.CString.{has_nul, from_bytes_with_nul, from_bytes_with_nul-some}
use rocker.Bytes.Utf8.{is_utf8}
use rocker.Core.Setup.{Params}
use rocker.Server.Request.{
  is_zero, any_zero, to_path, as_u32, assemble, sum_usize, read_paths, finish, parse_params,
  req_meta_siz,
}
use rocker.Server.Request.Metas.{IsMeta, size, total, read_metas_ok, sum_usize-total, total-le}
use rocker.Server.Request.Paths.{cut_paths, read_paths-eq-cut_paths}

-- A path as the program holds it: no NUL inside, and valid UTF-8.
abbrev pub IsPath : Bytes → Type 0
IsPath p = (has_nul p ≡ false) × (is_utf8 p ≡ true)

unfoldable pub nonzero : List ℤ → ℕ
nonzero [] = 0
nonzero (i ∷ is) = let n = nonzero is in if is_zero i then n else suc n

nonzero-cons_zero : (i : ℤ) (is : List ℤ) → is_zero i ≡ true → nonzero (i ∷ is) ≡ nonzero is
unfolding nonzero
nonzero-cons_zero i is h = rw h

nonzero-cons : (i : ℤ) (is : List ℤ) → is_zero i ≡ false → nonzero (i ∷ is) ≡ suc (nonzero is)
unfolding nonzero
nonzero-cons i is h = rw h

nonzero-le : (is : List ℤ) → nonzero is ≤ length is
unfolding nonzero
nonzero-le [] = omega arith
nonzero-le (i ∷ is) = ground (arith, nonzero-le is)

to_path-Gives : (bs : Bytes) → Gives IsPath (to_path bs)
unfolding to_path
to_path-Gives bs = elim (Option-cases (from_bytes_with_nul bs)) [
  | inl e ↦ rw (e, to_path) tt
  | inr (s, e) ↦ elim (Bool-cases (is_utf8 s)) [
    | inl v ↦ rw (e, to_path, v) ((from_bytes_with_nul-some bs s e).1, v)
    | inr v ↦ rw (e, to_path, v) tt
  ]
]

-- What the loop over the paths gives.
abbrev PathsOf : List ℤ → List Bytes → Type 0
PathsOf is ps = (length ps ≡ nonzero is) × All IsPath ps

cut_paths-Gives : (is : List ℤ) (rest : Bytes) → Gives (PathsOf is) (cut_paths is rest)
unfolding cut_paths
cut_paths-Gives [] rest = (unfold nonzero in refl, tt)
cut_paths-Gives (i ∷ is) rest = elim (Bool-cases (is_zero i)) [
  | inl z ↦
      rw (z, cut_paths)
        (Gives-mono (PathsOf is) _ (cut_paths is rest)
          (λ ps h. (h.0 ∙ sym (nonzero-cons_zero i is z), h.1)) (cut_paths-Gives is rest))
  | inr p ↦
      rw (p, cut_paths)
        (Gives-bind IsPath _ (to_path (take (size i) rest)) _ (to_path-Gives _) (λ path hp.
          Gives-bind (PathsOf is) _ (cut_paths is (drop (size i) rest)) _
            (cut_paths-Gives is (drop (size i) rest))
            (λ ps hps. (ap suc hps.0 ∙ sym (nonzero-cons i is p), (hp, hps.1)))))
]

-- What an accepted request says.
pub record WellFormed (p : Params) : Type 0 where
  pub app_id_pos : 0 < p.app_id
  pub app_id_small : p.app_id < 2 ^ 31
  pub uid_pos : 0 < p.uid
  pub uid_small : p.uid < 2 ^ 31
  pub gid_some : (g : ℕ) × (p.gid ≡ some g) × (0 < g) × (g < 2 ^ 31)
  pub pkg_path : IsPath p.app_pkg_path
  pub exec_path : IsPath p.app_exec_dir
  pub data_path : IsPath p.app_data_dir
  pub overlay_paths : All IsPath p.app_overlay_dirs
  pub overlay_count : length p.app_overlay_dirs ≤ 16

-- A number that the header must not leave at zero.
abbrev IsPositive : ℤ → Type 0
IsPositive (pos n) = (0 < n) × (n < 2 ^ 31)
IsPositive (negsuc n) = ⊥

IsPositive-mk : (i : ℤ) → IsMeta i → is_zero i ≡ false → IsPositive i
unfolding is_zero
IsPositive-mk (pos n) h z = (ground arith, h)
IsPositive-mk (negsuc n) h z = h

as_u32_pos : (n : ℕ) → n < 2 ^ 31 → as_u32 (pos n) ≡ n
unfolding as_u32
as_u32_pos n h = omega arith

-- The last step, once the numbers and the paths are known to be there.
assemble_three :
    (a u g : ℤ) (ms : List ℤ) (p q r : Bytes) (os : List Bytes)
    → IsPositive a
    → IsPositive u
    → IsPositive g
    → All IsPath (p ∷ q ∷ r ∷ os)
    → length os ≤ 16
    → Gives WellFormed (assemble (a ∷ u ∷ g ∷ ms) (p ∷ q ∷ r ∷ os))
unfolding assemble
assemble_three (pos a) (pos u) (pos g) ms p q r os ha hu hg hp few = record {
  app_id_pos = rw (as_u32_pos a ha.1) ha.0;
  app_id_small = rw (as_u32_pos a ha.1) ha.1;
  uid_pos = rw (as_u32_pos u hu.1) hu.0;
  uid_small = rw (as_u32_pos u hu.1) hu.1;
  gid_some = (g, ap some (as_u32_pos g hg.1), hg.0, hg.1);
  pkg_path = hp.0;
  exec_path = hp.1.0;
  data_path = hp.1.1.0;
  overlay_paths = hp.1.1.1;
  overlay_count = few;
}
assemble_three (negsuc a) u g ms p q r os ha hu hg hp few = absurd ha
assemble_three (pos a) (negsuc u) g ms p q r os ha hu hg hp few = absurd hu
assemble_three (pos a) (pos u) (negsuc g) ms p q r os ha hu hg hp few = absurd hg

-- No number is zero among those of which none is.
All-nonzero : (is : List ℤ) → All IsMeta is → any_zero is ≡ false → All IsPositive is
unfolding any_zero
All-nonzero [] h z = tt
All-nonzero (i ∷ is) h z = (IsPositive-mk i h.0 (ground arith), All-nonzero is h.1 (ground arith))

IsPositive-is_zero : (i : ℤ) → IsPositive i → is_zero i ≡ false
unfolding is_zero
IsPositive-is_zero (pos n) h = ground arith
IsPositive-is_zero (negsuc n) h = refl

-- The first three lengths are not zero, so there are at least three paths.
assemble_six :
    (a u g x y z : ℤ) (is : List ℤ) (ps : List Bytes)
    → length is ≡ 16
    → All IsPositive (a ∷ u ∷ g ∷ x ∷ y ∷ z ∷ [])
    → PathsOf (x ∷ y ∷ z ∷ is) ps
    → Gives WellFormed (assemble (a ∷ u ∷ g ∷ x ∷ y ∷ z ∷ is) ps)
assemble_six a u g x y z is ps l (ha, (hu, (hg, (hx, (hy, (hz, _)))))) hp =
    with_paths ps (hp.0 ∙ count) hp.1
  where
    count : nonzero (x ∷ y ∷ z ∷ is) ≡ suc (suc (suc (nonzero is)))
    count = rw (
      nonzero-cons x (y ∷ z ∷ is) (IsPositive-is_zero x hx),
      nonzero-cons y (z ∷ is) (IsPositive-is_zero y hy),
      nonzero-cons z is (IsPositive-is_zero z hz),
    )

    with_paths :
        (qs : List Bytes)
        → length qs ≡ suc (suc (suc (nonzero is)))
        → All IsPath qs
        → Gives WellFormed (assemble (a ∷ u ∷ g ∷ x ∷ y ∷ z ∷ is) qs)
    with_paths [] e h = absurd (omega arith)
    with_paths (p ∷ []) e h = absurd (omega arith)
    with_paths (p ∷ q ∷ []) e h = absurd (omega arith)
    with_paths (p ∷ q ∷ r ∷ os) e h =
        assemble_three a u g _ p q r os ha hu hg h (omega (arith, nonzero-le is))

assemble-Gives :
    (ms : List ℤ) (ps : List Bytes)
    → length ms ≡ 22
    → All IsMeta ms
    → any_zero (take 6 ms) ≡ false
    → PathsOf (drop 3 ms) ps
    → Gives WellFormed (assemble ms ps)
assemble-Gives (a ∷ u ∷ g ∷ x ∷ y ∷ z ∷ is) ps l (ha, (hu, (hg, (hx, (hy, (hz, _)))))) nz hp =
    assemble_six a u g x y z is ps (omega arith)
      (All-nonzero (a ∷ u ∷ g ∷ x ∷ y ∷ z ∷ []) (ha, (hu, (hg, (hx, (hy, (hz, tt)))))) nz) hp
assemble-Gives _ ps l h nz hp = absurd (omega arith)

-- The paths, once the numbers have been read and their sum fits the request.
read_paths-Gives :
    (req : Bytes) (is : List ℤ)
    → All IsMeta is
    → length req < 2 ^ 63
    → 88 + total is ≤ length req
    → Gives (PathsOf is) (read_paths 64 req 88 is [])
read_paths-Gives req is h small fits =
    rw (read_paths-eq-cut_paths req 88 is [] h (omega arith) fits) (
      Gives-bind (PathsOf is) (PathsOf is) (cut_paths is (drop 88 req)) _
        (cut_paths-Gives is (drop 88 req)) (λ ps hps. hps))

pub fit_le :
    (req : Bytes) (ms : List ℤ)
    → ltb (length req - 88) (sum_usize 64 0 (drop 3 ms)) ≡ false
    → sum_usize 64 0 (drop 3 ms) ≡ 0 + total (drop 3 ms)
    → 88 ≤ length req
    → 88 + total (drop 3 ms) ≤ length req
fit_le req ms h e enough = ground arith

-- The rest of `req_parse`, once the numbers have been read.
finish-Gives :
    (req : Bytes) (ms : List ℤ)
    → length req < 2 ^ 63
    → 88 ≤ length req
    → length ms ≡ 22
    → All IsMeta ms
    → Gives WellFormed (finish 64 req ms)
unfolding finish
finish-Gives req ms small enough count metas =
    let m19 : All IsMeta (drop 3 ms) = All-drop IsMeta 3 ms metas in
    let few : total (drop 3 ms) ≤ 19 * 2 ^ 31 =
      omega (arith, total-le (drop 3 ms) m19, length-drop 3 ms) in
    let sum : sum_usize 64 0 (drop 3 ms) ≡ 0 + total (drop 3 ms) =
      sum_usize-total 0 (drop 3 ms) m19 (omega arith) in
    elim (Bool-cases (ltb (length req - 88) (sum_usize 64 0 (drop 3 ms)))) [
      | inl over ↦ rw over tt
      | inr fits ↦ elim (Bool-cases (any_zero (take 6 ms))) [
        | inl zeros ↦ rw (fits, zeros) tt
        | inr nz ↦
            rw (fits, nz)
              (Gives-bind (PathsOf (drop 3 ms)) WellFormed (read_paths 64 req 88 (drop 3 ms) []) _
                (read_paths-Gives req (drop 3 ms) m19 small (fit_le req ms fits sum enough))
                (λ ps hps. assemble-Gives ms ps count metas nz hps))
      ]
    ]

-- `req_parse`, up to `RockerCfg::new`, on any datagram of less than 2 ^ 63 bytes and a usize of 64
-- bits: it gives a result or an error, and never panics. If it accepts, then app_id, uid and gid lie
-- between 1 and 2 ^ 31 - 1, the gid is never absent, there are at most 16 overlay directories, and
-- every path is valid UTF-8 without a NUL.
pub parse_params-WellFormed :
    (req : Bytes) → All IsByte req → length req < 2 ^ 63 → Gives WellFormed (parse_params 64 req)
unfolding parse_params
parse_params-WellFormed req bytes_only small = elim (Bool-cases (ltb (length req) req_meta_siz)) [
  | inl short ↦ rw short tt
  | inr enough ↦
      let (ms, read, count, metas) = read_metas_ok 22 0 req bytes_only (ground arith) in
      rw (enough, read) (finish-Gives req ms small (ground arith) count metas)
]
