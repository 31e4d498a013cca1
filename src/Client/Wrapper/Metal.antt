-- ===== src/Client/Wrapper/Metal.antt =====
-- The numbers of librocker_client_wrapper/src/client_ffi/metal.rs.
use rocker.Prelude.{ℤ, pos}

abbrev pub rocker_err_success : ℤ
rocker_err_success = pos 0

abbrev pub rocker_err_sys : ℤ
rocker_err_sys = pos 1

abbrev pub rocker_err_param_invalid : ℤ
rocker_err_param_invalid = pos 2

abbrev pub rocker_err_server_unaddr_invalid : ℤ
rocker_err_server_unaddr_invalid = pos 3

abbrev pub rocker_err_gen_local_addr_failed : ℤ
rocker_err_gen_local_addr_failed = pos 4

abbrev pub rocker_err_send_req_failed : ℤ
rocker_err_send_req_failed = pos 5

abbrev pub rocker_err_recv_resp_failed : ℤ
rocker_err_recv_resp_failed = pos 6

abbrev pub rocker_err_rocker_build_failed : ℤ
rocker_err_rocker_build_failed = pos 7

abbrev pub rocker_err_enter_rocker_failed : ℤ
rocker_err_enter_rocker_failed = pos 8

abbrev pub rocker_err_app_exec_failed : ℤ
rocker_err_app_exec_failed = pos 9

abbrev pub rocker_err_get_guardname_failed : ℤ
rocker_err_get_guardname_failed = pos 10
