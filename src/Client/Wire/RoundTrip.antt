-- ===== src/Client/Wire/RoundTrip.antt =====
-- What the client sends is what the server reads.
use rocker.Prelude.{
  ℕ, ◌+◌, ◌-◌, ◌*◌, ◌^◌, ◌≤◌, ◌<◌, ◌≡◌, refl, sym, ap, ◌∙◌, false, Option, some, List, [], ◌∷◌,
  ◌++◌, map, length, length-append, length-map, take, take_all, drop, drop-append, All, arith, ltb,
  ℤ, pos,
}
use rocker.Outcome.{ok}
use rocker.Bytes.{Bytes}
use rocker.Bytes.LittleEndian.{i32_to_bytes}
use rocker.Core.Setup.{Params}
use rocker.Server.Request.{
  is_zero, any_zero, as_u32, read_metas, sum_usize, assemble, finish, parse_params,
}
use rocker.Server.Request.Metas.{IsMeta, total, sum_usize-total, total-le}
use rocker.Server.Request.Paths.{read_paths-eq-cut_paths}
use rocker.Server.Request.Total.{IsPath}
use rocker.Server.Socket.{buf_siz, in_buf}
use rocker.Client.Wire.{RockerRequest, meta_of, iov, concat_map, encode}
use rocker.Client.Wire.Texts.{
  Sendable, present, cut_paths-texts, total-texts, texts-IsMeta, meta_of_text,
}
use rocker.Client.Wire.Numbers.{read_metas-encoded, metas-IsI32, clamp_metas, length-numbers}

numbers_read :
    (req : Bytes) (ms : List ℤ) (payload : Bytes)
    → req ≡ concat_map i32_to_bytes ms ++ payload
    → length ms ≡ 22
    → All IsMeta ms
    → read_metas 22 0 req ≡ ok ms
numbers_read req ms payload e count h =
    ap (λ (k : ℕ). read_metas k 0 req) (sym count)
    ∙ read_metas-encoded ms 0 req payload (metas-IsI32 ms h) e
    ∙ ap ok (clamp_metas ms h)

payload_left :
    (req : Bytes) (ms : List ℤ) (payload : Bytes)
    → req ≡ concat_map i32_to_bytes ms ++ payload
    → length ms ≡ 22
    → drop 88 req ≡ payload
payload_left req ms payload e count =
    ap (drop 88) e
    ∙ ap (λ (k : ℕ). drop k (concat_map i32_to_bytes ms ++ payload)) {x = 88}
        (omega (arith, length-numbers ms))
    ∙ drop-append (concat_map i32_to_bytes ms) payload

-- Any header and payload that agree are read through to `assemble`.
parse_framed :
    (req : Bytes) (a u g : ℤ) (ps : List (Option Bytes))
    → req ≡ concat_map i32_to_bytes (a ∷ u ∷ g ∷ map meta_of ps) ++ concat_map iov ps
    → length ps ≡ 19
    → All IsMeta (a ∷ u ∷ g ∷ [])
    → All Sendable ps
    → length req < 2 ^ 63
    → any_zero (take 6 (a ∷ u ∷ g ∷ map meta_of ps)) ≡ false
    → parse_params 64 req ≡ assemble (a ∷ u ∷ g ∷ map meta_of ps) (present ps)
unfolding parse_params finish
parse_framed req a u g ps e count ids fits small nz =
    rw (enough, numbers_read req ms (concat_map iov ps) e count22 all_metas)
      (rw (room, nz)
        (rw
          (read_paths-eq-cut_paths req 88 (map meta_of ps) [] (texts-IsMeta ps fits) (omega arith)
            fit)
          (rw (left, cut_paths-texts ps fits))))
  where
    ms : List ℤ
    ms = a ∷ u ∷ g ∷ map meta_of ps

    count22 : length ms ≡ 22
    count22 = omega (arith, length-map ps meta_of)

    all_metas : All IsMeta ms
    all_metas = (ids.0, (ids.1.0, (ids.1.1.0, texts-IsMeta ps fits)))

    left : drop 88 req ≡ concat_map iov ps
    left = payload_left req ms (concat_map iov ps) e count22

    len : length req ≡ 88 + total (map meta_of ps)
    len = omega (
      arith,
      ap length e,
      length-append (concat_map i32_to_bytes ms) (concat_map iov ps),
      length-numbers ms,
      total-texts ps fits,
      count22,
    )

    fit : 88 + total (map meta_of ps) ≤ length req
    fit = omega (arith, len)

    enough : ltb (length req) 88 ≡ false
    enough = ground (arith, len)

    few : total (map meta_of ps) ≤ 19 * 2 ^ 31
    few = omega (arith, total-le (map meta_of ps) (texts-IsMeta ps fits), length-map ps meta_of)

    sum : sum_usize 64 0 (map meta_of ps) ≡ 0 + total (map meta_of ps)
    sum = sum_usize-total 0 (map meta_of ps) (texts-IsMeta ps fits) (omega (arith, few))

    room : ltb (length req - 88) (sum_usize 64 0 (map meta_of ps)) ≡ false
    room = ground (arith, len, sum)

-- A request with three positive ids and the three texts that a rocker needs.
abbrev pub request : ℕ → ℕ → ℕ → Bytes → Bytes → Bytes → List (Option Bytes) → RockerRequest
request a u g pkg exec home os = record {
  app_id = pos a;
  uid = pos u;
  gid = pos g;
  app_pkg_path = some pkg;
  app_exec_dir = some exec;
  app_data_dir = some home;
  app_overlay_dirs = os;
}

-- The parameters that the server should read from it.
abbrev pub params : ℕ → ℕ → ℕ → Bytes → Bytes → Bytes → List (Option Bytes) → Params
params a u g pkg exec home os = record {
  app_id = a;
  uid = u;
  gid = some g;
  app_pkg_path = pkg;
  app_exec_dir = exec;
  app_data_dir = home;
  app_overlay_dirs = present os;
}

abbrev pub IsId : ℕ → Type 0
IsId n = (0 < n) × (n < 2 ^ 31)

abbrev pub IsText : Bytes → Type 0
IsText s = IsPath s × (0 < length s) × (length s < 2 ^ 30)

present-cons :
    (s : Bytes) (ps : List (Option Bytes)) → 0 < length s → present (some s ∷ ps) ≡ s ∷ present ps
present-cons [] ps h = absurd (omega arith)
present-cons (b ∷ s) ps h = refl

id_nonzero : (n : ℕ) → IsId n → is_zero (pos n) ≡ false
unfolding is_zero
id_nonzero n h = ground arith

text_nonzero : (s : Bytes) → IsText s → is_zero (meta_of (some s)) ≡ false
unfolding is_zero
text_nonzero [] h = absurd (omega arith)
text_nonzero (b ∷ s) h = rw (meta_of_text b s (omega arith)) (ground arith)

id_u32 : (n : ℕ) → IsId n → as_u32 (pos n) ≡ n
unfolding as_u32
id_u32 n h = omega arith

module _ (a u g : ℕ) (pkg exec home : Bytes) (os : List (Option Bytes)) where
  first_six :
      IsId a
      → IsId u
      → IsId g
      → IsText pkg
      → IsText exec
      → IsText home
      → any_zero
          (take 6 (pos a ∷ pos u ∷ pos g ∷ map meta_of (some pkg ∷ some exec ∷ some home ∷ os)))
        ≡ false
  unfolding any_zero
  first_six ha hu hg hp he hd = rw (
    id_nonzero a ha,
    id_nonzero u hu,
    id_nonzero g hg,
    text_nonzero pkg hp,
    text_nonzero exec he,
    text_nonzero home hd,
  )

  assemble-texts :
      IsId a
      → IsId u
      → IsId g
      → IsText pkg
      → IsText exec
      → IsText home
      → assemble
          (pos a ∷ pos u ∷ pos g ∷ map meta_of (some pkg ∷ some exec ∷ some home ∷ os))
          (present (some pkg ∷ some exec ∷ some home ∷ os))
        ≡ ok (params a u g pkg exec home os)
  unfolding assemble
  assemble-texts ha hu hg hp he hd = rw (present-cons pkg (some exec ∷ some home ∷ os) hp.1) (
      rw (present-cons exec (some home ∷ os) he.1)
        (rw (present-cons home os hd.1) (rw (id_u32 a ha, id_u32 u hu, id_u32 g hg))))

  read_whole :
      IsId a
      → IsId u
      → IsId g
      → IsText pkg
      → IsText exec
      → IsText home
      → All Sendable os
      → length os ≡ 16
      → length (encode (request a u g pkg exec home os)) < 2 ^ 63
      → parse_params 64 (encode (request a u g pkg exec home os))
        ≡ ok (params a u g pkg exec home os)
  read_whole ha hu hg hp he hd hos sixteen small =
      parse_framed (encode (request a u g pkg exec home os)) (pos a) (pos u) (pos g)
        (some pkg ∷ some exec ∷ some home ∷ os) (unfold encode in refl) (omega arith)
        (ha.1, (hu.1, (hg.1, tt))) ((hp.0, hp.2), ((he.0, he.2), ((hd.0, hd.2), hos))) small
        (first_six ha hu hg hp he hd)
      ∙ assemble-texts ha hu hg hp he hd

  -- What the client sends for a request, at most 512 bytes in all, is whole in the server's buffer, and
  -- the server reads from it the three ids, the three paths and, in their order, the overlay
  -- directories that are neither NULL nor empty. Conditions: the ids lie between 1 and 2 ^ 31 - 1, the
  -- paths are UTF-8 without a NUL and shorter than 2 ^ 30 bytes, the three are not empty, there are 16
  -- places for overlay directories, the datagram has at most 512 bytes, and the usize has 64 bits.
  pub parse_params-encode :
      IsId a
      → IsId u
      → IsId g
      → IsText pkg
      → IsText exec
      → IsText home
      → All Sendable os
      → length os ≡ 16
      → length (encode (request a u g pkg exec home os)) ≤ buf_siz
      → parse_params 64 (in_buf (encode (request a u g pkg exec home os)))
        ≡ ok (params a u g pkg exec home os)
  parse_params-encode ha hu hg hp he hd hos sixteen fits =
      ap (parse_params 64) (take_all buf_siz (encode (request a u g pkg exec home os)) fits)
      ∙ read_whole ha hu hg hp he hd hos sixteen (omega (arith, fits))
