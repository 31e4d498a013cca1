-- ===== src/Server/Request.antt =====
-- `req_parse` (rocker_server/src/main.rs): a datagram into the parameters of a rocker. `w` is the
-- number of bits of a usize; arithmetic wraps, as the release profile has no overflow checks.
pub mod Metas
pub mod Paths
pub mod Total
pub mod Size
pub mod Narrow
use rocker.Prelude.{
  ℕ, zero, suc, ◌+◌, ◌-◌, ◌*◌, ◌%◌, ◌^◌, Bool, true, false, Option, none, some, List, [], ◌∷◌, ◌++◌,
  length, get_elem?, take, drop, ltb, leb, ◌==◌, if◌then◌else◌, ◌&&◌, ◌||◌, ℤ, pos, negsuc,
  is_negative,
}
use rocker.Outcome.{
  Error, server_unknown, bad_c_string, bad_utf8, Outcome, ok, err, panic, ◌>>=◌, ◌>>◌, refuse_if,
}
use rocker.Bytes.{Bytes}
use rocker.Bytes.LittleEndian.{i32_of_bytes}
use rocker.Bytes.CString.{from_bytes_with_nul}
use rocker.Bytes.Utf8.{is_utf8}
use rocker.Core.Setup.{Params}

abbrev pub int_siz : ℕ
int_siz = 4

abbrev pub req_meta_siz : ℕ
req_meta_siz = 88

-- `v[i]`: out of bounds is a panic.
unfoldable pub index {ℓ} : {A : Type ℓ} → List A → ℕ → Outcome A
index v i = elim (get_elem? v i) [ none ↦ panic | some a ↦ ok a ]

-- `&v[l..u]`
unfoldable pub slice : Bytes → ℕ → ℕ → Outcome Bytes
slice v l u = if leb l u && leb u (length v) then ok (take (u - l) (drop l v)) else panic

-- The four bytes of number `i`, copied one by one.
unfoldable pub read_meta : Bytes → ℕ → Outcome ℤ
unfolding index
read_meta req i = do
  a ← index req (i * int_siz + 0)
  b ← index req (i * int_siz + 1)
  c ← index req (i * int_siz + 2)
  d ← index req (i * int_siz + 3)
  ok (i32_of_bytes (a ∷ b ∷ c ∷ d ∷ []))

-- `if 0 > metas[i] { metas[i] = 0; }`
unfoldable pub clamp : ℤ → ℤ
clamp i = if is_negative i then pos 0 else i

-- The loop `for i in 0..22`, with `rounds` numbers to go.
unfoldable pub read_metas : ℕ → ℕ → Bytes → Outcome (List ℤ)
unfolding read_meta clamp
read_metas zero i req = ok []
read_metas (suc rounds) i req = do
  m ← read_meta req i
  ms ← read_metas rounds (suc i) req
  ok (clamp m ∷ ms)

-- `i as usize` and `i as u32` of an i32
unfoldable pub as_usize : ℕ → ℤ → ℕ
as_usize w (pos n) = n % 2 ^ w
as_usize w (negsuc n) = 2 ^ w - 1 - n % 2 ^ w

unfoldable pub as_u32 : ℤ → ℕ
unfolding as_usize
as_u32 = as_usize 32

-- `.map(|&i| i as usize).sum::<usize>()`
unfoldable pub sum_usize : ℕ → ℕ → List ℤ → ℕ
unfolding as_usize
sum_usize w acc [] = acc
sum_usize w acc (i ∷ is) = sum_usize w ((acc + as_usize w i) % 2 ^ w) is

unfoldable pub is_zero : ℤ → Bool
is_zero (pos n) = n == 0
is_zero (negsuc n) = false

unfoldable pub any_zero : List ℤ → Bool
unfolding is_zero
any_zero [] = false
any_zero (i ∷ is) = is_zero i || any_zero is

-- `CStr::from_bytes_with_nul(bytes).c(d!())?.to_str().c(d!())?.to_owned()`
unfoldable pub to_path : Bytes → Outcome Bytes
to_path bs = elim (from_bytes_with_nul bs) [
  | none ↦ err bad_c_string
  | some s ↦ if is_utf8 s then ok s else err bad_utf8
]

-- The loop `for &i in metas.iter().skip(3)`.
unfoldable pub read_paths : ℕ → Bytes → ℕ → List ℤ → List Bytes → Outcome (List Bytes)
read_paths w req l_idx [] paths = ok paths
read_paths w req l_idx (i ∷ is) paths =
    let u_idx = (l_idx + as_usize w i) % 2 ^ w in
    elim (is_zero i) [
      | true ↦ read_paths w req u_idx is paths
      | false ↦ do
        bs ← slice req l_idx u_idx
        path ← to_path bs
        read_paths w req u_idx is (paths ++ path ∷ [])
    ]

-- `metas[k]`, `paths.split_off(3)` and the three `pop().unwrap()`.
unfoldable pub assemble : List ℤ → List Bytes → Outcome Params
assemble (app_id ∷ uid ∷ gid ∷ _) (pkg ∷ exec ∷ home ∷ overlay_dirs) = ok (record {
  app_id = as_u32 app_id;
  uid = as_u32 uid;
  gid = if is_negative gid then none else some (as_u32 gid);
  app_pkg_path = pkg;
  app_exec_dir = exec;
  app_data_dir = home;
  app_overlay_dirs = overlay_dirs;
})
assemble _ _ = panic

-- `req_parse` after its first loop: the checks of the numbers, the paths and the result.
unfoldable pub finish : ℕ → Bytes → List ℤ → Outcome Params
finish w req metas = do
  refuse_if (ltb (length req - req_meta_siz) (sum_usize w 0 (drop 3 metas))) server_unknown
  refuse_if (any_zero (take 6 metas)) server_unknown
  paths ← read_paths w req req_meta_siz (drop 3 metas) []
  assemble metas paths

-- `req_parse` up to its call of `RockerCfg::new`.
unfoldable pub parse_params : ℕ → Bytes → Outcome Params
parse_params w req = do
  refuse_if (ltb (length req) req_meta_siz) server_unknown
  metas ← read_metas 22 0 req
  finish w req metas
