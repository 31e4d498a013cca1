-- ===== src/Examples/Times.antt =====
-- A guard that takes its time, and a reply that comes too late.
use rocker.Prelude.{
  ap, ℕ, ◌++◌, replicate, ◌≡◌, refl, Bool, true, false, List, [], ◌∷◌, some, pos, leb,
  if◌then◌else◌, arith,
}
use rocker.Bytes.LittleEndian.{
  i32_of_bits, to_bytes, of_bytes, bits_of_i32, i32_to_bytes, i32_of_bytes,
}
use rocker.Client.Reply.{recv_resp_failed, rocker_result_new, receive_reply, enter_inner}
use rocker.Call.{Env, Event, done, failed, recv, poll_in}
use rocker.Client.Io.{Kernel, system_of}
use rocker.Outcome.{Outcome}
use rocker.Bytes.{Bytes, bytes}
use rocker.Bytes.CString.{from_bytes_with_nul, has_nul}
use rocker.Bytes.Utf8.{is_utf8}
use rocker.Config.{lookup}
use rocker.Machine.{Machine, ◌>>=◌, on_error, info, locked}
use rocker.Machine.Keeps.{Triple}
use rocker.Machine.Observe.{observe}
use rocker.Machine.Delays.{Waited, total, delayed_by}
use rocker.Core.Setup.{new}
use rocker.Core.Init.{init, get_namespace_fds}
use rocker.Core.Utils.{fill}
use rocker.Core.Resource.{registe_resource}
use rocker.Server.Request.{
  slice, read_metas, sum_usize, any_zero, to_path, read_paths, assemble, finish, parse_params,
}
use rocker.Server.Socket.{in_buf}
use rocker.Server.Worker.{worker}
use rocker.Server.Worker.Silent.{Replied}
use rocker.Server.Worker.Sending.{reply}
use rocker.Server.Worker.Delays.{worker-Waited}
use rocker.Client.Wire.{encode, meta_of, metas, concat_map, iov, RockerRequest}
use rocker.Client.Io.InTime.{Arrives, Sends, enter_inner-arriving}
use rocker.Client.Wrapper.{zip_dirs, gid_or, CResult, rocker_recv_resp}
use rocker.Client.Wrapper
use rocker.Client.Wrapper.Built.{fields}
use rocker.Examples.Served.{request_sent, host}
use rocker.Client.Enter.Lost.{ArrivesFrom, HasEntered, enter_rocker-lost}
use rocker.Client.Enter.Passing.{IsLibrary, c_result}
use rocker.Client.Enter.{enter_rocker}
use rocker.Examples.Inputs.{serving, started, sample}

was_poll : List Event → Bool
was_poll [] = false
was_poll (e ∷ _) = elim e.request [ poll_in _ _ ↦ true | _ ↦ false ]

-- Each message of the guard is there only after a poll.
unfoldable slow : Env
unfolding serving was_poll
slow t (recv fd len) = if was_poll t then serving t (recv fd len) else failed 11
slow t c = serving t c

abbrev run : Outcome (Unit {0}) × Machine
run = worker slow 5 (bytes "peer") 64 (in_buf (encode (fields request_sent))) started

-- A request can be served after four seconds.
slowly_served : (run.0 ≡ Outcome.ok tt) × (total (observe delayed_by run.1.trace) ≡ 4000)
unfolding slow worker slice read_metas sum_usize any_zero to_path read_paths assemble finish
    parse_params new init get_namespace_fds fill registe_resource ◌>>=◌ on_error info locked
    to_bytes of_bytes bits_of_i32 i32_to_bytes i32_of_bytes from_bytes_with_nul is_utf8 meta_of iov
    encode lookup observe zip_dirs gid_or
slowly_served = (refl, refl)

worker-Waited_example :
    Triple
      (Waited 0)
      (worker slow 5 (bytes "peer") 64 (encode sample))
      (λ _. Waited 4000)
      (λ _ _. ⊥)
      (Waited 4000)
unfolding encode metas meta_of concat_map iov i32_to_bytes to_bytes
worker-Waited_example =
    worker-Waited slow 5 (bytes "peer") 0 (encode sample) (omega arith) (omega arith)

-- The reply of this worker.
abbrev late_answer : List Bytes × List ℕ
late_answer = reply (pos 100) 0xffff_ffff_ffff_ffff (7 ∷ 7 ∷ 7 ∷ [])

-- Its bytes after the first one.
abbrev late_rest : Bytes
late_rest = 0 ∷ 0 ∷ 0 ∷ (replicate 8 255 ++ replicate 8 0)

late_answer-Replied : Replied (late_answer ∷ []) run.1
unfolding slow worker slice read_metas sum_usize any_zero to_path read_paths assemble finish
    parse_params new init get_namespace_fds fill registe_resource ◌>>=◌ on_error info locked
    to_bytes of_bytes bits_of_i32 i32_to_bytes i32_of_bytes from_bytes_with_nul is_utf8 meta_of iov
    encode lookup observe zip_dirs gid_or
late_answer-Replied = refl

-- It comes after three and a half seconds.
abbrev late : Kernel
late = record {
  socket = done 3;
  reuse_addr = λ fd. done tt;
  autobind = λ fd. done tt;
  sendmsg = λ addr text. done 100;
  at_once = failed 11;
  stale = 0;
  poll = λ limit. if leb 3500 limit then pos 1 else pos 0;
  polled = done (100 ∷ late_rest, some (5 ∷ 6 ∷ 7 ∷ []));
  setns = λ fd. true;
  cloned = some (pos 4300);
}

late-Arrives : Arrives late (100 ∷ late_rest, some (5 ∷ 6 ∷ 7 ∷ [])) 3500
late-Arrives = record {
  nothing_yet = refl;
  told = λ limit h. ground (arith, h);
  not_told = λ limit h. ground (arith, h);
  there = refl;
}

late_answer-ArrivesFrom : ArrivesFrom run.1 late late_answer (some (5 ∷ 6 ∷ 7 ∷ [])) 3500
unfolding concat_map i32_to_bytes to_bytes bits_of_i32
late_answer-ArrivesFrom = (late_answer-Replied, late-Arrives)

late-Sends : (rq : RockerRequest) → Sends late rq
late-Sends rq = record {
  fd = 3;
  len = 100;
  made = refl;
  reuses = refl;
  bound = refl;
  sent = λ addr. refl;
}

enter_inner-arriving_example : enter_inner (system_of late) sample ≡ (
    if false
    then receive_reply (system_of late) (some (100 ∷ late_rest, some (5 ∷ 6 ∷ 7 ∷ [])))
    else record rocker_result_new { err_no = recv_resp_failed })
enter_inner-arriving_example =
    enter_inner-arriving late 100 late_rest (some (5 ∷ 6 ∷ 7 ∷ [])) 3500 sample (late-Sends sample)
      late-Arrives

abbrev late_library : RockerRequest → CResult
late_library rq = c_result (enter_inner (system_of late) rq)

late_library-IsLibrary : IsLibrary host (system_of late) late_library
unfolding enter_rocker
late_library-IsLibrary rq r e = ap c_result (cc e)

enter_rocker-lost_example :
    (Wrapper.enter_rocker (λ name. name) late_library request_sent ≡ Wrapper.err rocker_recv_resp)
    × HasEntered slow (in_buf (encode (fields request_sent))) [] late_answer run.1
unfolding has_nul encode metas meta_of concat_map iov i32_to_bytes to_bytes i32_of_bits zip_dirs
    gid_or observe
enter_rocker-lost_example =
    enter_rocker-lost (λ name. name) late_library host late slow [] false request_sent started 5
      (bytes "peer") late_answer (some (5 ∷ 6 ∷ 7 ∷ [])) 3500 (refl, (refl, (refl, (refl, tt))))
      (omega arith) ((refl, (refl, refl)), refl) slowly_served.0 (refl, (refl, (refl, λ r. refl)))
      late_library-IsLibrary (late-Sends (fields request_sent)) late_answer-ArrivesFrom
      (omega arith)
