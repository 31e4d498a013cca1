-- ===== src/Client/Io.antt =====
-- The sockets of the C client (librocker_client/src/io.c): the server's address, the client's own
-- socket, sending the request and receiving the reply.
pub mod InTime
use rocker.Prelude.{
  ◌*◌, ℕ, zero, suc, ◌+◌, ◌-◌, ◌≡◌, refl, Bool, true, false, ◌||◌, Option, none, some, List, [],
  ◌∷◌, ◌++◌, length, replicate, ltb, ◌==◌, if◌then◌else◌, ℤ, pos, negsuc,
}
use rocker.Bytes.{Bytes, bytes}
use rocker.Call.{Answer, done, failed}
use rocker.Client.Wire.{strlen}
use rocker.Client.Reply.{System}

-- A datagram with its descriptors, where it has a control message.
abbrev pub Datagram : Type 0
Datagram = Bytes × Option (List ℕ)

-- How the kernel answers the client: its socket calls in their order; `recvmsg` at once, `poll` with a
-- time limit, `recvmsg` after it; `setns`, and the pid of the application. `stale` is what `errno` was
-- before the first `recvmsg`, which an empty datagram leaves as it is.
pub record Kernel : Type 0 where
  pub socket : Answer ℕ
  pub reuse_addr : ℕ → Answer (Unit {0})
  pub autobind : ℕ → Answer (Unit {0})
  pub sendmsg : Bytes → Bytes → Answer ℕ
  pub at_once : Answer Datagram
  pub stale : ℕ
  pub poll : ℕ → ℤ
  pub polled : Answer Datagram
  pub setns : ℕ → Bool
  pub cloned : Option ℤ

abbrev pub eagain : ℕ
eagain = 11

-- The size of `sun_path`
abbrev pub un_path_cap : ℕ
un_path_cap = 108

-- ROCKER_SERVER_UAU_ADDR
abbrev pub uau_addr : Bytes
uau_addr = bytes "e96d36287c8cfece722db1ce842e9f6"

-- `unix_abstract_udp_genaddr`: the bytes of `sun_path`, all of which count.
unfoldable pub genaddr : Bytes → Option Bytes
unfolding strlen
genaddr name =
    if ltb (un_path_cap - 1) (strlen (some name))
    then none
    else some (0 ∷ (name ++ replicate (un_path_cap - 1 - length name) 0))

-- `unix_abstract_udp_new_autobound`: whether it succeeds, what is left in `*fd`, and the descriptors
-- that it has closed.
abbrev autobound_with : ℕ → Answer (Unit {0}) → Bool × (ℤ × List ℕ)
autobound_with fd (done _) = (true, (pos fd, []))
autobound_with fd (failed e) = (false, (negsuc 0, fd ∷ []))

abbrev reusable : Kernel → ℕ → Answer (Unit {0}) → Bool × (ℤ × List ℕ)
reusable k fd (done _) = autobound_with fd (k.autobind fd)
reusable k fd (failed e) = (false, (pos fd, fd ∷ []))

abbrev new_socket : Kernel → Answer ℕ → Bool × (ℤ × List ℕ)
new_socket k (done fd) = reusable k fd (k.reuse_addr fd)
new_socket k (failed e) = (false, (negsuc 0, []))

unfoldable pub autobound : Kernel → Bool × (ℤ × List ℕ)
autobound k = new_socket k k.socket

abbrev is_done : {A : Type 0} → Answer A → Bool
is_done (done _) = true
is_done (failed e) = false

-- `send_normal`, to the address that was made
unfoldable pub send_normal : Kernel → Option Bytes → Bytes → Bool
send_normal k none text = false
send_normal k (some addr) text = is_done (k.sendmsg addr text)

-- What `recvmsg` has given, if it is at least one byte.
abbrev at_least_one : Answer Datagram → Option Datagram
at_least_one (done ([], fdset)) = none
at_least_one (done (b ∷ bs, fdset)) = some (b ∷ bs, fdset)
at_least_one (failed e) = none

-- One poll of three seconds, and a second try only if it tells that there is something.
abbrev second_try : Kernel → ℤ → Option Datagram
second_try k (pos zero) = none
second_try k (pos (suc n)) = at_least_one k.polled
second_try k (negsuc n) = none

abbrev wait_unless : Kernel → ℕ → Option Datagram
wait_unless k errno = if errno == eagain then second_try k (k.poll (3 * 1000)) else none

abbrev first_try : Kernel → Answer Datagram → Option Datagram
first_try k (done ([], fdset)) = wait_unless k k.stale
first_try k (done (b ∷ bs, fdset)) = some (b ∷ bs, fdset)
first_try k (failed e) = wait_unless k e

-- `recv_fd`: EAGAIN and EWOULDBLOCK are one number.
unfoldable pub recv_fd : Kernel → Option Datagram
recv_fd k = first_try k k.at_once

-- What these functions, `setns` and the clone mean for `ROCKER_enter_rocker_inner`.
unfoldable pub system_of : Kernel → System
unfolding genaddr autobound send_normal recv_fd
system_of k = record {
  address = elim (genaddr uau_addr) [ none ↦ false | some _ ↦ true ];
  socket = (autobound k).0;
  sends = λ text. send_normal k (genaddr uau_addr) text;
  received = recv_fd k;
  setns = k.setns;
  cloned = k.cloned;
}
