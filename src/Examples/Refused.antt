-- ===== src/Examples/Refused.antt =====
-- A request without a gid, from the Rust wrapper to the server and back.
use rocker.Prelude.{◌≡◌, refl, ap, false, none, some, [], arith}
use rocker.Outcome.{Outcome, server_unknown}
use rocker.Bytes.{bytes}
use rocker.Bytes.CString.{has_nul}
use rocker.Machine.{Machine}
use rocker.Machine.Observe.{observe}
use rocker.Machine.Keeps.{Triple-panics}
use rocker.Server.Request.{parse_params}
use rocker.Server.Worker.{worker}
use rocker.Server.Worker.Sending.{refusal}
use rocker.Server.Worker.Silent.{Fresh}
use rocker.Server.Worker.Refused.{worker-refuses}
use rocker.Client.Wire.{RockerRequest, encode}
use rocker.Client.Reply.{System, enter_inner}
use rocker.Client.Reply.Answers.{datagram}
use rocker.Client.Enter.{enter_rocker}
use rocker.Client.Enter.Passing.{c_result, IsLibrary}
use rocker.Client.Enter.Refused.{HasCome, enter_rocker-refused}
use rocker.Client.Wrapper
use rocker.Client.Wrapper.{CResult, rocker_build_rocker}
use rocker.Server.Socket.{in_buf}
use rocker.Client.Wrapper.Built.{fields}
use rocker.Client.Wrapper.Delivery.{IsClean, c_request-refused}
use rocker.Examples.Inputs.{answering, started}
use rocker.Examples.Served.{host, client}
use rocker.Examples.Wrappers.{no_gid}

no_gid-IsClean : IsClean no_gid
unfolding has_nul
no_gid-IsClean = (refl, (refl, (refl, (refl, tt))))

unreadable : parse_params 64 (in_buf (encode (fields no_gid))) ≡ Outcome.err server_unknown
unreadable = (c_request-refused 64 no_gid no_gid-IsClean (omega arith) (omega arith) refl).1.1

abbrev server_after : Machine
server_after = (worker answering 5 (bytes "peer") 64 (in_buf (encode (fields no_gid))) started).1

abbrev refused_client : System
refused_client = record client { received = some (datagram refusal, none) }

abbrev library : RockerRequest → CResult
library rq = c_result (enter_inner refused_client rq)

library-IsLibrary : IsLibrary host refused_client library
unfolding enter_rocker
library-IsLibrary rq r e = ap c_result (cc e)

started-Fresh : Fresh [] false started
unfolding observe
started-Fresh = ((refl, (refl, refl)), refl)

refusal-HasCome : HasCome server_after refused_client none
refusal-HasCome = (
  refusal,
  (
    (Triple-panics _
        (worker-refuses answering [] false 5 (bytes "peer") _ server_unknown unreadable) started
        started-Fresh).0,
    refl,
  ),
)

enter_rocker-refused_example :
    (Wrapper.enter_rocker (λ name. name) library no_gid ≡ Wrapper.err rocker_build_rocker)
    × (server_after.resource ≡ [])
enter_rocker-refused_example =
    enter_rocker-refused (λ name. name) library host refused_client answering [] false no_gid
      server_unknown started 5 (bytes "peer") none no_gid-IsClean unreadable started-Fresh
      (refl, (refl, (refl, λ r. refl))) library-IsLibrary (refl, (refl, refl)) refusal-HasCome
