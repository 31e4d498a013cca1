-- ===== src/Client/Enter/Passing.antt =====
-- The C library's ROCKER_enter_rocker as the Rust wrapper calls it: its result across the pipe of
-- librocker_client/src/lib.c and in the memory of librocker_client_wrapper/src/client_ffi/metal.rs.
use rocker.Prelude.{◌≡◌, refl, ap, ◌∙◌, true, some}
use rocker.Client.Wire.{RockerRequest}
use rocker.Client.Reply
use rocker.Client.Reply.{System, enter_inner, err_number}
use rocker.Client.Enter.{Host, whole, returned, enter_rocker}
use rocker.Client.Wrapper
use rocker.Client.Wrapper.{CResult, Request, ok, res_convert, ◌>>=◌}
use rocker.Client.Wrapper.Built.{fields}
use rocker.Client.Wrapper.Delivery.{IsClean}
use rocker.Client.Wrapper.Results.{told, enter_rocker-told}
use rocker.Bytes.{Bytes}

-- The pipe and the child work.
abbrev pub HasPipe : Host → Type 0
HasPipe host =
    (host.pipe ≡ true)
    × ((host.forked ≡ true)
        × ((host.written ≡ true) × ((r : Reply.RockerResult) → host.read (some r) ≡ whole r)))

-- The memory of a result, as Rust sees it.
abbrev pub c_result : Reply.RockerResult → CResult
c_result r = record {
  err_no = err_number r.err_no;
  app_pid = r.app_pid;
  guard_pid = r.guard_pid;
  guard_pname = r.guard_pname;
}

-- `run` gives what ROCKER_enter_rocker returns.
abbrev pub IsLibrary : Host → System → (RockerRequest → CResult) → Type 0
IsLibrary host c run =
    (rq : RockerRequest) (r : Reply.RockerResult)
    → enter_rocker host c (some rq) true ≡ returned r
    → run rq ≡ c_result r

pub passed :
    (host : Host) (c : System) (rq : RockerRequest)
    → HasPipe host
    → enter_rocker host c (some rq) true ≡ returned (enter_inner c rq)
unfolding enter_rocker
passed host c rq (piped, (forked, (written, read))) =
    rw (piped, forked, written, read (enter_inner c rq)) refl

-- What the Rust wrapper makes of a result of the child.
pub enter_rocker-passed :
    (to_string_lossy : Bytes → Bytes) (run : RockerRequest → CResult) (host : Host) (c : System)
    (r : Request)
    → IsClean r
    → HasPipe host
    → IsLibrary host c run
    → Wrapper.enter_rocker to_string_lossy run r
      ≡ (res_convert (c_result (enter_inner c (fields r))) >>= λ res. ok (told to_string_lossy res))
enter_rocker-passed to_string_lossy run host c r clean pipe library =
    enter_rocker-told to_string_lossy run r clean
    ∙ ap (λ res. res_convert res >>= λ res. ok (told to_string_lossy res))
        (library (fields r) (enter_inner c (fields r)) (passed host c (fields r) pipe))
