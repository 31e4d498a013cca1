-- ===== src/Examples/Served.antt =====
-- A request from the Rust wrapper to the server and back.
use rocker.Client.Wrapper.{take_nonzero, Request, CResult, zip_dirs, gid_or}
use rocker.Prelude.{ap, ℕ, ◌≡◌, refl, true, false, some, none, List, [], ◌∷◌, pos, arith, Option}
use rocker.Client.Reply.Answers.{datagram}
use rocker.Config.{RockerCfg, lookup}
use rocker.Client.Reply.{enter_inner, System, RockerResult}
use rocker.Outcome.{Outcome}
use rocker.Bytes.{Bytes, bytes}
use rocker.Machine.{Machine, ◌>>=◌, on_error, info, locked}
use rocker.Server.Worker.Sending.{reply}
use rocker.Server.Worker.{worker}
use rocker.Client.Wire.{RockerRequest, encode, meta_of, iov, metas, concat_map}
use rocker.Client.Enter.{Host, Reading, whole, never, enter_rocker}
use rocker.Client.Enter.Served.{IsDelivered, IsListed, enter_rocker-served}
use rocker.Client.Enter.Passing.{c_result, IsLibrary}
use rocker.Client.Wrapper
use rocker.Server.Socket.{in_buf}
use rocker.Client.Wrapper.Built.{fields}
use rocker.Client.Wrapper.Delivery.{asked}
use rocker.Examples.Inputs.{serving, started}
use rocker.Server.Request.{
  slice, read_metas, sum_usize, any_zero, to_path, read_paths, assemble, finish, parse_params,
}
use rocker.Core.Setup.{new}
use rocker.Core.Init.{init, get_namespace_fds}
use rocker.Core.Utils.{fill}
use rocker.Core.Resource.{registe_resource}
use rocker.Bytes.LittleEndian.{
  to_bytes, of_bytes, i32_of_bits, bits_of_i32, i32_to_bytes, i32_of_bytes,
}
use rocker.Bytes.CString.{from_bytes_with_nul, has_nul}
use rocker.Bytes.Utf8.{is_utf8}
use rocker.Machine.Observe.{observe}

abbrev pub request_sent : Request
request_sent = asked 1000 1000 1000 (bytes "/p") (bytes "/e") (bytes "/d") (bytes "/usr" ∷ [])

abbrev server_after : Machine
server_after =
    (worker serving 5 (bytes "peer") 64 (in_buf (encode (fields request_sent))) started).1

server_returns :
    (worker serving 5 (bytes "peer") 64 (in_buf (encode (fields request_sent))) started).0
    ≡ Outcome.ok tt
unfolding serving worker slice read_metas sum_usize any_zero to_path read_paths assemble finish
    parse_params new init get_namespace_fds fill registe_resource ◌>>=◌ on_error info locked
    to_bytes of_bytes bits_of_i32 i32_to_bytes i32_of_bytes from_bytes_with_nul is_utf8 meta_of iov
    encode lookup zip_dirs gid_or
server_returns = refl

-- The reply of this worker.
abbrev answer : List Bytes × List ℕ
answer = reply (pos 100) 0xffff_ffff_ffff_ffff (7 ∷ 7 ∷ 7 ∷ [])

-- A pipe that keeps what is written, and on which a `read` waits as long as nothing is.
abbrev pipe_read : Option RockerResult → Reading
pipe_read (some r) = whole r
pipe_read none = never

abbrev pub host : Host
host = record { pipe = true; forked = true; written = true; read = pipe_read }

abbrev pub client : System
client = record {
  address = true;
  socket = true;
  sends = λ msg. true;
  received = some (datagram answer, some (3 ∷ 4 ∷ 5 ∷ []));
  setns = λ fd. true;
  cloned = some (pos 4300);
}

abbrev library : RockerRequest → CResult
library rq = c_result (enter_inner client rq)

library-IsLibrary : IsLibrary host client library
unfolding enter_rocker
library-IsLibrary rq r e = ap c_result (cc e)

answer-IsDelivered : IsDelivered server_after client (3 ∷ 4 ∷ 5 ∷ []) 100
unfolding serving worker slice read_metas sum_usize any_zero to_path read_paths assemble finish
    parse_params new init get_namespace_fds fill registe_resource ◌>>=◌ on_error info locked
    to_bytes of_bytes bits_of_i32 i32_to_bytes i32_of_bytes from_bytes_with_nul is_utf8 meta_of iov
    encode lookup zip_dirs gid_or
answer-IsDelivered = (answer, (refl, (refl, (refl, refl))))

enter_rocker-served_example :
    (c : RockerCfg) × ((Wrapper.enter_rocker (λ name. name) library request_sent
        ≡ Wrapper.ok (record {
          app_pid = bits_of_i32 (pos 4300);
          guard_pid = 100;
          guard_pname = take_nonzero (to_bytes 16 c.guard_pname);
        }))
      × IsListed
          (λ name. name)
          library
          host
          client
          1000
          1000
          1000
          (bytes "/p")
          (bytes "/e")
          (bytes "/d")
          (bytes "/usr" ∷ [])
          serving
          []
          100
          c
          server_after)
unfolding has_nul is_utf8 encode metas meta_of concat_map iov i32_to_bytes to_bytes i32_of_bits
    zip_dirs gid_or observe
enter_rocker-served_example =
    enter_rocker-served (λ name. name) library host client 1000 1000 1000 (bytes "/p") (bytes "/e")
      (bytes "/d") (bytes "/usr" ∷ []) serving [] (omega arith) (omega arith) (omega arith)
      ((refl, refl), omega arith, omega arith) ((refl, refl), omega arith, omega arith)
      ((refl, refl), omega arith, omega arith) (((refl, refl), omega arith), tt) (omega arith)
      (omega arith) started 5 (bytes "peer") false (3 ∷ 4 ∷ 5 ∷ []) 100 (pos 4300)
      ((refl, (refl, refl)), refl) server_returns (refl, (refl, (refl, λ r. refl)))
      library-IsLibrary (refl, (refl, refl)) answer-IsDelivered refl refl
