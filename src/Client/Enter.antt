-- ===== src/Client/Enter.antt =====
-- `ROCKER_enter_rocker` and `ROCKER_request_new` (librocker_client/src/lib.c): the work is done in a
-- child process, which passes its result to the caller through a pipe.
pub mod Passing
pub mod Served
pub mod Lost
pub mod Refused
use rocker.Prelude.{Bool, Option, none, some, replicate, if◌then◌else◌, negsuc}
use rocker.Client.Wire.{RockerRequest}
use rocker.Client.Reply.{
  sys_failed, param_invalid, RockerResult, rocker_result_new, System, enter_inner,
}

-- What the caller's `read` on the pipe does: it fills the result; it gives less or an error, and leaves
-- the result like this; it never returns.
pub data Reading : Type 0 where
  whole : RockerResult → Reading
  broken : RockerResult → Reading
  never : Reading

-- How the calls answer that this process makes: whether there is a pipe and a child, whether the
-- child's `write` takes all of its result, and the `read`, from the result that was written, if one was.
pub record Host : Type 0 where
  pub pipe : Bool
  pub forked : Bool
  pub written : Bool
  pub read : Option RockerResult → Reading

pub data Ended : Type 0 where
  returned : RockerResult → Ended
  blocked : Ended

unfoldable pub after_read : Reading → Ended
after_read (whole r) = returned r
after_read (broken r) = returned (record r { err_no = sys_failed })
after_read never = blocked

-- From the fork on.
unfoldable pub run_child : Host → System → RockerRequest → Ended
unfolding after_read
run_child host system req =
    if host.forked
    then after_read (host.read (if host.written then some (enter_inner system req) else none))
    else returned (record rocker_result_new { err_no = sys_failed })

unfoldable pub check_request : Host → System → Option RockerRequest → Bool → Ended
unfolding run_child
check_request host system none has_app =
    returned (record rocker_result_new { err_no = param_invalid })
check_request host system (some req) has_app =
    if has_app
    then run_child host system req
    else returned (record rocker_result_new { err_no = param_invalid })

-- The request and the function to run may be NULL.
unfoldable pub enter_rocker : Host → System → Option RockerRequest → Bool → Ended
unfolding check_request
enter_rocker host system req has_app =
    if host.pipe
    then check_request host system req has_app
    else returned (record rocker_result_new { err_no = sys_failed })

unfoldable pub request_new : RockerRequest
request_new = record {
  app_id = negsuc 0;
  uid = negsuc 0;
  gid = negsuc 0;
  app_pkg_path = none;
  app_exec_dir = none;
  app_data_dir = none;
  app_overlay_dirs = replicate 16 none;
}
