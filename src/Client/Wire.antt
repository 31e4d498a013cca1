-- ===== src/Client/Wire.antt =====
-- `ROCKER_parse_request___` (librocker_client/src/lib.c): a request as the one datagram that goes to
-- the server, 22 numbers and the texts that they measure.
pub mod Texts
pub mod Numbers
pub mod RoundTrip
use rocker.Prelude.{
  suc, ℕ, ◌+◌, ◌-◌, ◌%◌, ◌^◌, Option, none, some, List, [], ◌∷◌, ◌++◌, map, length, take, ltb,
  if◌then◌else◌, ℤ, pos, negsuc,
}
use rocker.Bytes.{Bytes}
use rocker.Bytes.LittleEndian.{i32_of_bits, i32_to_bytes}

-- `RockerRequest` of librocker_client/src/lib.h. A `char *` is a text without its NUL, or NULL.
pub record RockerRequest : Type 0 where
  pub app_id : ℤ
  pub uid : ℤ
  pub gid : ℤ
  pub app_pkg_path : Option Bytes
  pub app_exec_dir : Option Bytes
  pub app_data_dir : Option Bytes
  pub app_overlay_dirs : List (Option Bytes)

-- `Utils.strlen`: (size_t) -1 for NULL
unfoldable pub strlen : Option Bytes → ℕ
strlen none = 2 ^ 64 - 1
strlen (some s) = length s

-- `strlen___`: the length with the NUL, and 0 for no text or an empty one
unfoldable pub strlen_nul : Option Bytes → ℕ
unfolding strlen
strlen_nul p = if ltb 0 (strlen p) then (1 + strlen p) % 2 ^ 64 else 0

-- The length as it stands in `meta`, an int32_t.
unfoldable pub meta_of : Option Bytes → ℤ
unfolding strlen_nul i32_of_bits
meta_of p = i32_of_bits (strlen_nul p % 2 ^ 32)

-- The text with its NUL as it lies in memory.
unfoldable pub memory : Option Bytes → Bytes
memory none = []
memory (some s) = s ++ 0 ∷ []

-- An int32_t as a size_t
abbrev pub size_of_i32 : ℤ → ℕ
size_of_i32 (pos n) = n
size_of_i32 (negsuc n) = 2 ^ 64 - suc n

-- An entry of `vec`: as many bytes as `meta` says, a huge number where it is negative. What lies in
-- memory behind the text is not modelled.
unfoldable pub iov : Option Bytes → Bytes
unfolding memory meta_of
iov p = take (size_of_i32 (meta_of p)) (memory p)

-- The texts of a request, in the order of `vec`.
abbrev pub texts : RockerRequest → List (Option Bytes)
texts r = r.app_pkg_path ∷ r.app_exec_dir ∷ r.app_data_dir ∷ r.app_overlay_dirs

unfoldable pub metas : RockerRequest → List ℤ
metas r = r.app_id ∷ r.uid ∷ r.gid ∷ map meta_of (texts r)

unfoldable pub concat_map {ℓ} : {A : Type ℓ} → (A → Bytes) → List A → Bytes
concat_map f [] = []
concat_map f (x ∷ xs) = f x ++ concat_map f xs

-- What `sendmsg` gathers from `vec`.
unfoldable pub encode : RockerRequest → Bytes
unfolding metas concat_map
encode r = concat_map i32_to_bytes (metas r) ++ concat_map iov (texts r)
