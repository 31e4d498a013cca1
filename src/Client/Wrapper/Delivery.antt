-- ===== src/Client/Wrapper/Delivery.antt =====
-- What the server makes of a request of the wrapper.
use rocker.Prelude.{
  ℕ, ◌+◌, ◌-◌, ◌^◌, ◌<◌, ◌≤◌, ◌≡◌, refl, sym, ap, ◌∙◌, true, false, Bool-cases, inl, inr, Option,
  none, some, List, [], ◌∷◌, ◌++◌, replicate, length, length-append, length-map, map, All, arith,
  take, take-append_more, drop, ltb, ℤ, pos, negsuc,
}
use mathlib.Core.Path.{subst}
use rocker.Outcome.{Outcome, server_unknown}
use rocker.Bytes.{Bytes}
use rocker.Bytes.CString.{has_nul}
use rocker.Bytes.LittleEndian.{i32_of_bits, i32_to_bytes, IsI32}
use rocker.Core.Setup.{Params}
use rocker.Server.Request.{parse_params, finish, read_metas, any_zero, is_zero, clamp, sum_usize}
use rocker.Server.Socket.{buf_siz, in_buf}
use rocker.Client.Wire.{encode, metas, texts, meta_of, iov, concat_map}
use rocker.Client.Wire.Texts.{Sendable}
use rocker.Client.Wire.Numbers.{read_metas-encoded, length-numbers}
use rocker.Client.Wire.RoundTrip.{request, IsId, IsText, parse_params-encode}
use rocker.Client.Wrapper.{Request, ok, zip_dirs, gid_or, c_request}
use rocker.Client.Wrapper.Built.{
  fields, nonempty, c_request-clean, present-zip_dirs, zip_dirs-Sendable, length-zip_dirs,
}

i32_of_bits-IsI32 : (n : ℕ) → n < 2 ^ 32 → IsI32 (i32_of_bits n)
unfolding i32_of_bits
i32_of_bits-IsI32 n h = ground arith

meta_of-IsI32 : (p : Option Bytes) → IsI32 (meta_of p)
unfolding meta_of
meta_of-IsI32 p = i32_of_bits-IsI32 _ (omega arith)

metas-IsI32 : (ps : List (Option Bytes)) → All IsI32 (map meta_of ps)
metas-IsI32 [] = tt
metas-IsI32 (p ∷ ps) = (meta_of-IsI32 p, metas-IsI32 ps)

-- A clamped zero among the first six numbers.
zero_third : (a u : ℤ) (ms : List ℤ) → any_zero (take 6 (map clamp (a ∷ u ∷ negsuc 0 ∷ ms))) ≡ true
unfolding any_zero is_zero clamp
zero_third a u ms = ground arith

refused :
    (w : ℕ) (req : Bytes) (ms : List ℤ)
    → any_zero (take 6 ms) ≡ true
    → finish w req ms ≡ Outcome.err server_unknown
unfolding finish
refused w req ms h = elim (Bool-cases (ltb (length req - 88) (sum_usize w 0 (drop 3 ms)))) [
  | inl over ↦ rw over refl
  | inr fits ↦ rw (fits, h) refl
]

refused_numbers :
    (w : ℕ) (req payload : Bytes) (ms : List ℤ)
    → req ≡ concat_map i32_to_bytes ms ++ payload
    → length ms ≡ 22
    → All IsI32 ms
    → any_zero (take 6 (map clamp ms)) ≡ true
    → parse_params w req ≡ Outcome.err server_unknown
unfolding parse_params
refused_numbers w req payload ms e count h z = rw (enough, numbers) (refused w req (map clamp ms) z)
  where
    numbers : read_metas 22 0 req ≡ Outcome.ok (map clamp ms)
    numbers =
        ap (λ (k : ℕ). read_metas k 0 req) (sym count) ∙ read_metas-encoded ms 0 req payload h e

    enough : ltb (length req) 88 ≡ false
    enough =
        ground (
          arith,
          ap length e,
          length-append (concat_map i32_to_bytes ms) payload,
          length-numbers ms,
        )

-- The texts of a request have no NUL inside.
abbrev pub IsClean : Request → Type 0
IsClean r =
    All (λ d. has_nul d ≡ false)
      (r.app_pkg_path ∷ r.app_exec_dir ∷ r.app_data_dir ∷ r.app_overlay_dirs)

-- A request of the wrapper without a gid reaches C, if its texts have no NUL inside and the app_id and
-- the uid are u32, and the server refuses it whatever else it holds, also when its buffer
-- holds only the first 512 bytes.
pub c_request-refused :
    (w : ℕ) (r : Request)
    → IsClean r
    → r.app_id < 2 ^ 32
    → r.uid < 2 ^ 32
    → r.gid ≡ none
    → (c_request r ≡ ok (fields r))
      × ((parse_params w (encode (fields r)) ≡ Outcome.err server_unknown)
          × (parse_params w (in_buf (encode (fields r))) ≡ Outcome.err server_unknown))
unfolding metas gid_or
c_request-refused w r clean ha hu no_gid = (
  c_request-clean r clean,
  (
    refused_numbers w _ payload (metas (fields r)) whole count numbers third,
    refused_numbers w _ (take 424 payload) (metas (fields r)) cut count numbers third,
  ),
)
  where
    ps : List (Option Bytes)
    ps = texts (fields r)

    payload : Bytes
    payload = concat_map iov ps

    whole : encode (fields r) ≡ concat_map i32_to_bytes (metas (fields r)) ++ payload
    whole = unfold encode in refl

    count : length (metas (fields r)) ≡ 22
    count =
        omega (arith, length-map ps meta_of, length-zip_dirs (replicate 16 none) r.app_overlay_dirs)

    header : length (concat_map i32_to_bytes (metas (fields r))) ≡ 88
    header = omega (arith, length-numbers (metas (fields r)), count)

    cut :
        in_buf (encode (fields r)) ≡ concat_map i32_to_bytes (metas (fields r)) ++ take 424 payload
    cut =
        ap in_buf whole
        ∙ ap (λ k. take k (concat_map i32_to_bytes (metas (fields r)) ++ payload)) {x = buf_siz}
            {y = length (concat_map i32_to_bytes (metas (fields r))) + 424} (omega (arith, header))
        ∙ take-append_more (concat_map i32_to_bytes (metas (fields r))) payload 424

    numbers : All IsI32 (metas (fields r))
    numbers = (
      i32_of_bits-IsI32 _ ha,
      (i32_of_bits-IsI32 _ hu, (rw no_gid (omega arith), metas-IsI32 ps)),
    )

    third : any_zero (take 6 (map clamp (metas (fields r)))) ≡ true
    third = rw no_gid (zero_third (i32_of_bits r.app_id) (i32_of_bits r.uid) (map meta_of ps))

pub i32_of_bits-small : (n : ℕ) → n < 2 ^ 31 → i32_of_bits n ≡ pos n
unfolding i32_of_bits
i32_of_bits-small n h = ground arith

pub clean_dirs :
    (ds : List Bytes) → All (λ d. Sendable (some d)) ds → All (λ d. has_nul d ≡ false) ds
clean_dirs [] h = tt
clean_dirs (d ∷ ds) h = (h.0.0.0, clean_dirs ds h.1)

module _ (a u g : ℕ) (pkg exec home : Bytes) (dirs : List Bytes) where
  abbrev pub asked : Request
  asked = record {
    app_id = a;
    uid = u;
    gid = some g;
    app_pkg_path = pkg;
    app_exec_dir = exec;
    app_data_dir = home;
    app_overlay_dirs = dirs;
  }

  abbrev pub given : Params
  given = record {
    app_id = a;
    uid = u;
    gid = some g;
    app_pkg_path = pkg;
    app_exec_dir = exec;
    app_data_dir = home;
    app_overlay_dirs = nonempty (take 16 dirs);
  }

  same_fields :
      IsId a
      → IsId u
      → IsId g
      → fields asked ≡ request a u g pkg exec home (zip_dirs (replicate 16 none) dirs)
  unfolding gid_or
  same_fields ha hu hg =
      rw (i32_of_bits-small a ha.1, i32_of_bits-small u hu.1, i32_of_bits-small g hg.1) refl

  -- What the caller of the wrapper asks for, at most 512 bytes in all, is whole in the server's buffer,
  -- and is what the server reads from it: the ids, the three paths, and the first sixteen overlay
  -- directories without the empty ones. Conditions: the ids lie between 1 and 2 ^ 31 - 1, the gid is
  -- there, the paths are UTF-8 without a NUL and shorter than 2 ^ 30 bytes, the three are not empty, the
  -- datagram has at most 512 bytes, and a usize has 64 bits.
  pub parse_params-c_request :
      IsId a
      → IsId u
      → IsId g
      → IsText pkg
      → IsText exec
      → IsText home
      → All (λ d. Sendable (some d)) dirs
      → length (encode (fields asked)) ≤ buf_siz
      → (c_request asked ≡ ok (fields asked))
        × (parse_params 64 (in_buf (encode (fields asked))) ≡ Outcome.ok given)
  parse_params-c_request ha hu hg hp he hd hs fits = (
    c_request-clean asked (hp.0.0, (he.0.0, (hd.0.0, clean_dirs dirs hs))),
    ap (λ c. parse_params 64 (in_buf (encode c))) (same_fields ha hu hg)
        ∙ parse_params-encode a u g pkg exec home (zip_dirs (replicate 16 none) dirs) ha hu hg hp he
            hd (zip_dirs-Sendable 16 dirs hs) (length-zip_dirs (replicate 16 none) dirs)
            (subst (λ c. length (encode c) ≤ buf_siz) (same_fields ha hu hg) fits)
        ∙ ap (λ os. Outcome.ok (record given { app_overlay_dirs = os })) (present-zip_dirs 16 dirs),
  )
