-- ===== src/Client/Wrapper.antt =====
-- The Rust wrapper of the C client (librocker_client_wrapper/src/client_ffi): the request that it
-- builds for C, and what it makes of a result.
mod Metal
pub mod Built
pub mod Delivery
pub mod Results
pub mod Numbers
pub use Metal.*
use rocker.Prelude.{
  ℕ, Option, none, some, List, [], ◌∷◌, ◌++◌, replicate, ◌==◌, if◌then◌else◌, ℤ, pos, negsuc,
}
use rocker.Bytes.{Bytes}
use rocker.Bytes.CString.{has_nul, from_bytes_with_nul}
use rocker.Bytes.LittleEndian.{i32_of_bits, bits_of_i32}
use rocker.Config.{eqb_ℤ}
use rocker.Client.Wire.{RockerRequest}

-- The errors of librocker_client_wrapper/src/err.rs that the wrapper raises, and those of
-- `CString::new` and `CStr::from_bytes_with_nul`.
pub data Fault : Type 0 where
  unknown rocker_sys rocker_param rocker_server_unaddr rocker_gen_local_addr : Fault
  rocker_send_req rocker_recv_resp rocker_build_rocker rocker_enter_rocker : Fault
  rocker_app_exec rocker_get_guardname nul_inside bad_c_string : Fault

pub data Result (A : Type 0) : Type 0 where
  ok : A → Result A
  err : Fault → Result A

infixl 5 ◌>>=◌
abbrev pub ◌>>=◌ : {A B : Type 0} → Result A → (A → Result B) → Result B
ok a >>= f = f a
err e >>= f = err e

-- `RockerRequest`
pub record Request : Type 0 where
  pub app_id : ℕ
  pub uid : ℕ
  pub gid : Option ℕ
  pub app_pkg_path : Bytes
  pub app_exec_dir : Bytes
  pub app_data_dir : Bytes
  pub app_overlay_dirs : List Bytes

-- `RockerRequest::new`
unfoldable pub new_request : Request
new_request = record {
  app_id = 0;
  uid = 0;
  gid = none;
  app_pkg_path = [];
  app_exec_dir = [];
  app_data_dir = [];
  app_overlay_dirs = [];
}

-- `metal::RockerRequest`: the layout of the struct of lib.h, with NULL as `none`.
abbrev pub CRequest : Type 0
CRequest = RockerRequest

-- `metal::RockerResult`
pub record CResult : Type 0 where
  pub err_no : ℤ
  pub app_pid : ℤ
  pub guard_pid : ℤ
  pub guard_pname : Bytes

-- `RockerResult`
pub record RockerResult : Type 0 where
  pub app_pid : ℕ
  pub guard_pid : ℕ
  pub guard_pname : Bytes

-- `CString::new(s).c(d!())?`
unfoldable pub c_string : Bytes → Result Bytes
c_string s = if has_nul s then err nul_inside else ok s

-- The loop that fills `overlaydirs`.
unfoldable pub c_strings : List Bytes → Result (List Bytes)
unfolding c_string
c_strings [] = ok []
c_strings (d ∷ ds) = do s ← c_string d; ss ← c_strings ds; ok (s ∷ ss)

-- `slots.iter_mut().zip(dirs).for_each(|(a, b)| *a = b)`
unfoldable pub zip_dirs : List (Option Bytes) → List Bytes → List (Option Bytes)
zip_dirs [] ds = []
zip_dirs (p ∷ ps) [] = p ∷ ps
zip_dirs (p ∷ ps) (d ∷ ds) = some d ∷ zip_dirs ps ds

-- `gid.map_or(-1, |gid| gid as c_int)`
unfoldable pub gid_or : Option ℕ → ℤ
gid_or none = negsuc 0
gid_or (some gid) = i32_of_bits gid

-- The request that `enter_rocker` passes to C.
unfoldable pub c_request : Request → Result CRequest
unfolding c_strings zip_dirs gid_or
c_request r = do
  pkg ← c_string r.app_pkg_path
  exec ← c_string r.app_exec_dir
  home ← c_string r.app_data_dir
  overlaydirs ← c_strings r.app_overlay_dirs
  ok (record {
    app_id = i32_of_bits r.app_id;
    uid = i32_of_bits r.uid;
    gid = gid_or r.gid;
    app_pkg_path = some pkg;
    app_exec_dir = some exec;
    app_data_dir = some home;
    app_overlay_dirs = zip_dirs (replicate 16 none) overlaydirs;
  })

-- `res_convert!`
unfoldable pub res_convert : CResult → Result CResult
res_convert res =
    if eqb_ℤ res.err_no rocker_err_success
    then ok res
    else if eqb_ℤ res.err_no rocker_err_sys
    then err rocker_sys
    else if eqb_ℤ res.err_no rocker_err_param_invalid
    then err rocker_param
    else if eqb_ℤ res.err_no rocker_err_server_unaddr_invalid
    then err rocker_server_unaddr
    else if eqb_ℤ res.err_no rocker_err_gen_local_addr_failed
    then err rocker_gen_local_addr
    else if eqb_ℤ res.err_no rocker_err_send_req_failed
    then err rocker_send_req
    else if eqb_ℤ res.err_no rocker_err_recv_resp_failed
    then err rocker_recv_resp
    else if eqb_ℤ res.err_no rocker_err_rocker_build_failed
    then err rocker_build_rocker
    else if eqb_ℤ res.err_no rocker_err_enter_rocker_failed
    then err rocker_enter_rocker
    else if eqb_ℤ res.err_no rocker_err_app_exec_failed
    then err rocker_app_exec
    else if eqb_ℤ res.err_no rocker_err_get_guardname_failed
    then err rocker_get_guardname
    else err unknown

-- `.take_while(|&&i| 0 != i)`
unfoldable pub take_nonzero : Bytes → Bytes
take_nonzero [] = []
take_nonzero (b ∷ bs) = let rest = take_nonzero bs in if b == 0 then [] else b ∷ rest

module _ (to_string_lossy : Bytes → Bytes) where
  -- The name of a result, as a string.
  unfoldable pub name_of : Bytes → Result Bytes
  unfolding take_nonzero
  name_of guard_pname = elim (from_bytes_with_nul (take_nonzero guard_pname ++ 0 ∷ [])) [
    | none ↦ err bad_c_string
    | some s ↦ ok (to_string_lossy s)
  ]

  -- `run` is the C library's ROCKER_enter_rocker with the callback.
  unfoldable pub enter_rocker : (CRequest → CResult) → Request → Result RockerResult
  unfolding c_request res_convert name_of
  enter_rocker run r = do
    rq ← c_request r
    res ← res_convert (run rq)
    name ← name_of res.guard_pname
    ok (record {
      app_pid = bits_of_i32 res.app_pid;
      guard_pid = bits_of_i32 res.guard_pid;
      guard_pname = name;
    })

  -- `ask` is the C library's ROCKER_get_guardname.
  unfoldable pub get_guardname : (ℤ → CResult) → ℕ → Result Bytes
  unfolding res_convert name_of
  get_guardname ask pid = do res ← res_convert (ask (i32_of_bits pid)); name_of res.guard_pname
