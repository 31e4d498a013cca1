-- ===== src/Client/Reply.antt =====
-- The C client after its request (librocker_client/src/lib.c, `ROCKER_enter_rocker_inner`;
-- namespace.c, `enter_ns`): what it makes of the server's reply.
pub mod Answers
use rocker.Prelude.{
  ℕ, ◌+◌, ◌*◌, ◌<◌, ◌≤◌, ◌≡◌, refl, ap, Bool, true, false, ◌&&◌, ◌||◌, Option, none, some, List, [],
  ◌∷◌, ◌++◌, append-nil, length, take, drop, replicate, take-append, drop-append, all, arith, ltb,
  if◌then◌else◌, ℤ, pos, negsuc,
}
use rocker.Bytes.{Bytes}
use rocker.Bytes.LittleEndian.{
  to_bytes, length-to_bytes, i32_to_bytes, i32_of_bytes, i32_of_bytes-i32_to_bytes, IsI32,
}
use rocker.Core.Utils.{fill}
use rocker.Client.Wire.{RockerRequest, encode, concat_map}

-- `ROCKER_ERR`, where `no_error` is ROCKER_ERR_success.
pub data ErrNo : Type 0 where
  unknown no_error sys_failed param_invalid server_unaddr_invalid gen_local_addr_failed : ErrNo
  send_req_failed recv_resp_failed build_rocker_failed enter_rocker_failed : ErrNo
  app_exec_failed get_guardname_failed : ErrNo

-- The number of a value: -1 for the first, then counted from 0.
unfoldable pub err_number : ErrNo → ℤ
err_number unknown = negsuc 0
err_number no_error = pos 0
err_number sys_failed = pos 1
err_number param_invalid = pos 2
err_number server_unaddr_invalid = pos 3
err_number gen_local_addr_failed = pos 4
err_number send_req_failed = pos 5
err_number recv_resp_failed = pos 6
err_number build_rocker_failed = pos 7
err_number enter_rocker_failed = pos 8
err_number app_exec_failed = pos 9
err_number get_guardname_failed = pos 10

-- `RockerResult`; `app_pid` is 0 from the initializer.
pub record RockerResult : Type 0 where
  pub err_no : ErrNo
  pub app_pid : ℤ
  pub guard_pid : ℤ
  pub guard_pname : Bytes

unfoldable pub rocker_result_new : RockerResult
rocker_result_new = record {
  err_no = no_error;
  app_pid = pos 0;
  guard_pid = negsuc 0;
  guard_pname = replicate 16 0;
}

-- How the calls of io.c and namespace.c, and below them the kernel, answer: whether the server's
-- address and the own socket can be made, whether the request can be sent, the bytes and the
-- descriptors that are received, whether `setns` takes a descriptor, and the pid that the application
-- gets.
pub record System : Type 0 where
  pub address : Bool
  pub socket : Bool
  pub sends : Bytes → Bool
  pub received : Option (Bytes × Option (List ℕ))
  pub setns : ℕ → Bool
  pub cloned : Option ℤ

-- `recvmsg` into the two buffers, as far as the datagram goes.
unfoldable pub scatter : Bytes → RockerResult → RockerResult
scatter msg r = record r {
  guard_pid = i32_of_bytes (fill (i32_to_bytes r.guard_pid) (take 4 msg));
  guard_pname = fill r.guard_pname (drop 4 msg);
}

-- `enter_ns(fdset, N)`: N is 3, and what was not received is 0 in the buffer.
unfoldable pub enter_ns : (ℕ → Bool) → List ℕ → Bool
enter_ns setns fdset = all setns (take 3 (fdset ++ replicate 3 0))

unfoldable pub exec_app : Option ℤ → RockerResult → RockerResult
exec_app none r = record r { err_no = app_exec_failed; app_pid = negsuc 0 }
exec_app (some pid) r = record r { app_pid = pid }

-- The checks of the reply.
unfoldable pub use_reply : System → Option (List ℕ) → RockerResult → RockerResult
use_reply sys none r = record r { err_no = build_rocker_failed }
use_reply sys (some fdset) r = elim r.guard_pid [
  | negsuc _ ↦ record r { err_no = build_rocker_failed }
  | pos _ ↦
      if enter_ns sys.setns fdset
      then exec_app sys.cloned r
      else record r { err_no = enter_rocker_failed }
]

unfoldable pub receive_reply : System → Option (Bytes × Option (List ℕ)) → RockerResult
receive_reply sys none = record rocker_result_new { err_no = recv_resp_failed }
receive_reply sys (some (msg, fdset)) = use_reply sys fdset (scatter msg rocker_result_new)

unfoldable pub enter_inner : System → RockerRequest → RockerResult
enter_inner sys req =
    if sys.address
    then (if sys.socket
        then (if sys.sends (encode req)
            then receive_reply sys sys.received
            else record rocker_result_new { err_no = send_req_failed })
        else record rocker_result_new { err_no = gen_local_addr_failed })
    else record rocker_result_new { err_no = server_unaddr_invalid }
