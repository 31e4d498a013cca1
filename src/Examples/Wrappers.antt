-- ===== src/Examples/Wrappers.antt =====
-- Requests and results of the Rust wrapper.
use rocker.Prelude.{none, ◌≡◌, refl, [], ◌∷◌, arith, pos, negsuc, replicate}
use rocker.Outcome.{Outcome, server_unknown}
use rocker.Bytes.{bytes}
use rocker.Bytes.LittleEndian.{
  i32_to_bytes, i32_of_bits, to_bytes, of_bytes, bits_of_i32, i32_of_bytes,
}
use rocker.Bytes.CString.{has_nul}
use rocker.Bytes.Utf8.{is_utf8}
use rocker.Server.Request.{parse_params, finish, read_metas, sum_usize, any_zero, slice}
use rocker.Client.Reply.{err_number, build_rocker_failed}
use rocker.Client.Wire.{RockerRequest, encode, metas, meta_of, concat_map, iov}
use rocker.Client.Wrapper.Numbers.{res_convert-err_number}
use rocker.Client.Wrapper
use rocker.Client.Enter
use rocker.Client.Wrapper.{
  rocker_build_rocker, new_request, Request, CResult, ok, ◌>>=◌, c_request, res_convert,
  enter_rocker, zip_dirs, gid_or,
}
use rocker.Client.Wrapper.Built.{fields}
use rocker.Server.Socket.{in_buf}
use rocker.Client.Wrapper.Delivery.{asked, given, c_request-refused, parse_params-c_request}

abbrev pub no_gid : Request
no_gid = record {
  app_id = 1000;
  uid = 1000;
  gid = none;
  app_pkg_path = bytes "/p";
  app_exec_dir = bytes "/e";
  app_data_dir = bytes "/d";
  app_overlay_dirs = bytes "/usr" ∷ [];
}

-- A C library that enters every rocker.
abbrev entering : RockerRequest → CResult
entering _ = record {
  err_no = pos 0;
  app_pid = pos 7;
  guard_pid = pos 100;
  guard_pname = 65 ∷ 66 ∷ 0 ∷ 67 ∷ [];
}

c_request-refused_example :
    (c_request no_gid ≡ ok (fields no_gid))
    × ((parse_params 64 (encode (fields no_gid)) ≡ Outcome.err server_unknown)
        × (parse_params 64 (in_buf (encode (fields no_gid))) ≡ Outcome.err server_unknown))
unfolding has_nul
c_request-refused_example =
    c_request-refused 64 no_gid (refl, (refl, (refl, (refl, tt)))) (omega arith) (omega arith) refl

parse_params-c_request_example :
    (c_request (asked 1000 1000 1000 (bytes "/p") (bytes "/e") (bytes "/d") (bytes "/usr" ∷ []))
      ≡ ok (
          fields (asked 1000 1000 1000 (bytes "/p") (bytes "/e") (bytes "/d") (bytes "/usr" ∷ []))))
    × (parse_params 64 (
          in_buf (
            encode (
              fields
                (asked 1000 1000 1000 (bytes "/p") (bytes "/e") (bytes "/d") (bytes "/usr" ∷ [])))))
        ≡ Outcome.ok
            (given 1000 1000 1000 (bytes "/p") (bytes "/e") (bytes "/d") (bytes "/usr" ∷ [])))
unfolding encode metas meta_of concat_map iov i32_to_bytes to_bytes i32_of_bits zip_dirs gid_or
    has_nul is_utf8
parse_params-c_request_example =
    parse_params-c_request 1000 1000 1000 (bytes "/p") (bytes "/e") (bytes "/d") (bytes "/usr" ∷ [])
      (omega arith) (omega arith) (omega arith) ((refl, refl), omega arith, omega arith)
      ((refl, refl), omega arith, omega arith) ((refl, refl), omega arith, omega arith)
      (((refl, refl), omega arith), tt) (omega arith)

-- What C returns of a server that refuses.
abbrev turned_down : CResult
turned_down = record {
  err_no = err_number build_rocker_failed;
  app_pid = pos 0;
  guard_pid = negsuc 0;
  guard_pname = replicate 16 0;
}

res_convert-err_number_example : res_convert turned_down ≡ Wrapper.err rocker_build_rocker
res_convert-err_number_example = res_convert-err_number build_rocker_failed turned_down refl

-- A request in which nothing was filled in is refused, from C and from Rust.
request_new_refused : parse_params 64 (encode Enter.request_new) ≡ Outcome.err server_unknown
unfolding parse_params finish read_metas sum_usize any_zero slice encode new_request to_bytes
    of_bytes bits_of_i32 i32_to_bytes i32_of_bytes zip_dirs gid_or meta_of iov Enter.request_new
request_new_refused = refl

new_request_refused : parse_params 64 (encode (fields new_request)) ≡ Outcome.err server_unknown
unfolding parse_params finish read_metas sum_usize any_zero slice encode new_request to_bytes
    of_bytes bits_of_i32 i32_to_bytes i32_of_bytes zip_dirs gid_or meta_of iov
new_request_refused = refl
