-- ===== src/Communicator/Socket.antt =====
-- src/communication/zmq_sendrecv.h and zmq_sendrecv.cc: `ZmqSendRecv`, the sockets of a sender or a
-- receiver. ZeroMQ is what it is asked to do: the calls are kept, oldest first, and `zmq_socket i`
-- is what the `i`-th call of zmq_socket returns.
pub mod Laws
use plug_in_ml.Base.{
  ℕ, zero, suc, ◌+◌, ◌-◌, ◌%◌, ◌^◌, Bool, true, false, Option, none, some, List, [], ◌∷◌, ◌++◌, map,
  ℤ, pos, negsuc, ◌-ℤ◌, length, take, ltb, if◌then◌else◌, ◌>>=◌,
}
use plug_in_ml.Message.{Addr}
use plug_in_ml.Text.{print_int}
use plug_in_ml.Communicator.{same_addr}

pub data ZmqCall (S : Type 0) : Type 0 where
  binds : S → List ℕ → ZmqCall S
  connects : S → List ℕ → ZmqCall S
  sends : S → List ℕ → ZmqCall S
  closes : S → ZmqCall S
  ends_context : ZmqCall S

pub record ZmqSendRecv (S : Type 0) : Type 0 where
  pub is_sender : Bool
  pub listen_port : ℤ
  pub sendrecv : Option S
  pub mapper : List (Addr × S)
  pub opened : ℕ
  pub calls : List (ZmqCall S)

-- A port as an `int16`.
unfoldable pub to_int16 : ℕ → ℤ
to_int16 port = let low = port % 65536 in if ltb low 32768 then pos low else pos low -ℤ pos 65536

-- `snprintf` into a buffer of 16 bytes: `tcp://*:` and the port.
unfoldable pub bind_endpoint : ℤ → List ℕ
bind_endpoint port = take 15 (116 ∷ 99 ∷ 112 ∷ 58 ∷ 47 ∷ 47 ∷ 42 ∷ 58 ∷ print_int port)

-- `snprintf` into a buffer of 32 bytes: `tcp://` and the address.
unfoldable pub connect_endpoint : Addr → List ℕ
connect_endpoint addr = take 31 (116 ∷ 99 ∷ 112 ∷ 58 ∷ 47 ∷ 47 ∷ addr)

-- `Receive`: what zmq_recv returns is an error or a message, and a zero is written behind it:
-- `none` where that is outside the buffer.
unfoldable pub receive : ℕ → Option (List ℕ) → Option (List ℕ)
receive max_size none = none
receive max_size (some bytes) = if ltb (length bytes) max_size then some bytes else none

module _ {S : Type 0} where
  unfoldable pub socket_of : Addr → List (Addr × S) → Option S
  socket_of addr [] = none
  socket_of addr ((a, s) ∷ rest) =
      let more = socket_of addr rest in if same_addr a addr then some s else more

  unfoldable pub initialize : (ℕ → S) → Bool → ℕ → ZmqSendRecv S → ZmqSendRecv S
  initialize zmq_socket is_sender port z =
      let base = record z { is_sender = is_sender; listen_port = to_int16 port } in
      let socket = zmq_socket z.opened in
      if is_sender then base else record base {
        sendrecv = some socket;
        opened = suc z.opened;
        calls = z.calls ++ binds socket (bind_endpoint (to_int16 port)) ∷ [];
      }

  -- The socket of an address, opened and connected where there is none.
  unfoldable pub open_socket : (ℕ → S) → Addr → ZmqSendRecv S → S × ZmqSendRecv S
  open_socket zmq_socket dst_addr z = elim (socket_of dst_addr z.mapper) [
    | none ↦
        let socket = zmq_socket z.opened in
        (
          socket,
          record z {
            opened = suc z.opened;
            calls = z.calls ++ connects socket (connect_endpoint dst_addr) ∷ [];
            mapper = z.mapper ++ (dst_addr, socket) ∷ [];
            sendrecv = some socket;
          },
        )
    | some socket ↦ (socket, record z { sendrecv = some socket })
  ]

  -- `Send`, which returns the length.
  unfoldable pub send : (ℕ → S) → Addr → List ℕ → ZmqSendRecv S → ℕ × ZmqSendRecv S
  unfolding open_socket
  send zmq_socket dst_addr message z =
      let (socket, ready) = open_socket zmq_socket dst_addr z in
      (length message, record ready { calls = ready.calls ++ sends socket message ∷ [] })

  unfoldable pub finalize : ZmqSendRecv S → Option (ZmqSendRecv S)
  finalize z =
      if z.is_sender
      then some (record z {
        mapper = [];
        calls = z.calls ++ map (λ e. closes e.1) z.mapper ++ ends_context ∷ [];
      })
      else (z.sendrecv >>= λ socket.
          some (record z { calls = z.calls ++ closes socket ∷ ends_context ∷ [] }))
