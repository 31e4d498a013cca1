-- ===== src/Client/Wrapper/Numbers.antt =====
-- The numbers of `ROCKER_ERR` (librocker_client/src/err_no.h) and of the wrapper's metal.rs.
use rocker.Prelude.{◌≡◌, refl}
use rocker.Config.{eqb_ℤ}
use rocker.Client.Reply.{
  ErrNo, unknown, no_error, sys_failed, param_invalid, server_unaddr_invalid, gen_local_addr_failed,
  send_req_failed, recv_resp_failed, build_rocker_failed, enter_rocker_failed, app_exec_failed,
  get_guardname_failed, err_number,
}
use rocker.Client.Wrapper.{
  Fault, Result, ok, err, CResult, res_convert, rocker_sys, rocker_param, rocker_server_unaddr,
  rocker_gen_local_addr, rocker_send_req, rocker_recv_resp, rocker_build_rocker,
  rocker_enter_rocker, rocker_app_exec, rocker_get_guardname,
}

-- The result for a value of `ROCKER_ERR`, by its name.
abbrev pub named : ErrNo → CResult → Result CResult
named unknown res = err Fault.unknown
named no_error res = ok res
named sys_failed res = err rocker_sys
named param_invalid res = err rocker_param
named server_unaddr_invalid res = err rocker_server_unaddr
named gen_local_addr_failed res = err rocker_gen_local_addr
named send_req_failed res = err rocker_send_req
named recv_resp_failed res = err rocker_recv_resp
named build_rocker_failed res = err rocker_build_rocker
named enter_rocker_failed res = err rocker_enter_rocker
named app_exec_failed res = err rocker_app_exec
named get_guardname_failed res = err rocker_get_guardname

-- The numbers of C and of Rust agree: a result with the number of a value of `ROCKER_ERR` is taken for
-- a success if the value is that, and becomes the error of the same name otherwise.
pub res_convert-err_number :
    (n : ErrNo) (res : CResult) → res.err_no ≡ err_number n → res_convert res ≡ named n res
unfolding res_convert err_number eqb_ℤ
res_convert-err_number unknown res e = rw e refl
res_convert-err_number no_error res e = rw e refl
res_convert-err_number sys_failed res e = rw e refl
res_convert-err_number param_invalid res e = rw e refl
res_convert-err_number server_unaddr_invalid res e = rw e refl
res_convert-err_number gen_local_addr_failed res e = rw e refl
res_convert-err_number send_req_failed res e = rw e refl
res_convert-err_number recv_resp_failed res e = rw e refl
res_convert-err_number build_rocker_failed res e = rw e refl
res_convert-err_number enter_rocker_failed res e = rw e refl
res_convert-err_number app_exec_failed res e = rw e refl
res_convert-err_number get_guardname_failed res e = rw e refl
