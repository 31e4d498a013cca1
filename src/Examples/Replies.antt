-- ===== src/Examples/Replies.antt =====
-- Replies of the server, as the C client reads them.
use rocker.Prelude.{length, ◌≡◌, refl, true, some, [], ◌∷◌, pos, arith}
use rocker.Bytes.LittleEndian.{to_bytes}
use rocker.Server.Worker.Sending.{reply}
use rocker.Client.Reply.{System, enter_inner, no_error}
use rocker.Client.Reply.Answers.{datagram, enter_inner-reply}
use mathlib.Core.Option
use rocker.Client.Io.{uau_addr, genaddr}
use rocker.Server.Socket.{server_address}
use rocker.Examples.Inputs.{sample}

-- The server has started guard 4242, and the application gets pid 4300.
abbrev answered : System
answered = record {
  address = true;
  socket = true;
  sends = λ msg. true;
  received = some (datagram (reply (pos 4242) 77 (5 ∷ 6 ∷ 7 ∷ [])), some (5 ∷ 6 ∷ 7 ∷ []));
  setns = λ fd. true;
  cloned = some (pos 4300);
}

enter_inner-reply_example :
    ((enter_inner answered sample).err_no ≡ no_error)
    × (((enter_inner answered sample).guard_pid ≡ pos 4242)
        × ((enter_inner answered sample).guard_pname ≡ to_bytes 16 77))
enter_inner-reply_example =
    enter_inner-reply answered sample 4242 77 (5 ∷ 6 ∷ 7 ∷ []) (refl, (refl, refl)) (omega arith)
      refl refl

-- The client sends to the address that the server is bound to.
one_address : uau_addr ≡ server_address
one_address = refl

-- All of `sun_path` counts, and the name fits.
address_size : Option.map length (genaddr uau_addr) ≡ some 108
unfolding genaddr
address_size = refl
