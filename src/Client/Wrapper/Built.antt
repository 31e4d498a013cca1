-- ===== src/Client/Wrapper/Built.antt =====
-- The request that the wrapper builds for C.
use rocker.Prelude.{
  ℕ, zero, suc, ◌≡◌, refl, ap, false, Option, none, some, List, [], ◌∷◌, replicate, length, All,
  All-replicate, take,
}
use rocker.Bytes.{Bytes}
use rocker.Bytes.CString.{has_nul}
use rocker.Bytes.LittleEndian.{i32_of_bits}
use rocker.Client.Wire.{RockerRequest}
use rocker.Client.Wire.Texts.{Sendable, present}
use rocker.Client.Wrapper.{Request, ok, c_string, c_strings, zip_dirs, gid_or, c_request}

-- The fields of the C request, where no text has a NUL inside.
abbrev pub fields : Request → RockerRequest
fields r = record {
  app_id = i32_of_bits r.app_id;
  uid = i32_of_bits r.uid;
  gid = gid_or r.gid;
  app_pkg_path = some r.app_pkg_path;
  app_exec_dir = some r.app_exec_dir;
  app_data_dir = some r.app_data_dir;
  app_overlay_dirs = zip_dirs (replicate 16 none) r.app_overlay_dirs;
}

pub c_strings-clean : (ds : List Bytes) → All (λ d. has_nul d ≡ false) ds → c_strings ds ≡ ok ds
unfolding c_strings c_string
c_strings-clean [] h = refl
c_strings-clean (d ∷ ds) h = rw (h.0, c_strings-clean ds h.1) refl

pub c_request-clean :
    (r : Request)
    → All
        (λ d. has_nul d ≡ false)
        (r.app_pkg_path ∷ r.app_exec_dir ∷ r.app_data_dir ∷ r.app_overlay_dirs)
    → c_request r ≡ ok (fields r)
unfolding c_request c_string
c_request-clean r (hp, (he, (hd, hs))) = rw (hp, he, hd, c_strings-clean r.app_overlay_dirs hs) refl

pub length-zip_dirs :
    (ps : List (Option Bytes)) (ds : List Bytes) → length (zip_dirs ps ds) ≡ length ps
unfolding zip_dirs
length-zip_dirs [] ds = refl
length-zip_dirs (p ∷ ps) [] = refl
length-zip_dirs (p ∷ ps) (d ∷ ds) = ap suc (length-zip_dirs ps ds)

-- The directories that are not empty.
abbrev pub nonempty : List Bytes → List Bytes
nonempty [] = []
nonempty ([] ∷ ds) = nonempty ds
nonempty ((b ∷ d) ∷ ds) = (b ∷ d) ∷ nonempty ds

present-none : (n : ℕ) → present (replicate n none) ≡ []
present-none zero = refl
present-none (suc n) = present-none n

pub present-zip_dirs :
    (n : ℕ) (ds : List Bytes) → present (zip_dirs (replicate n none) ds) ≡ nonempty (take n ds)
unfolding zip_dirs
present-zip_dirs zero ds = refl
present-zip_dirs (suc n) [] = present-none n
present-zip_dirs (suc n) ([] ∷ ds) = present-zip_dirs n ds
present-zip_dirs (suc n) ((b ∷ d) ∷ ds) = ap (λ l. (b ∷ d) ∷ l) (present-zip_dirs n ds)

pub zip_dirs-Sendable :
    (n : ℕ) (ds : List Bytes)
    → All (λ d. Sendable (some d)) ds
    → All Sendable (zip_dirs (replicate n none) ds)
unfolding zip_dirs
zip_dirs-Sendable zero ds h = tt
zip_dirs-Sendable (suc n) [] h = (tt, All-replicate Sendable n none tt)
zip_dirs-Sendable (suc n) (d ∷ ds) h = (h.0, zip_dirs-Sendable n ds h.1)
