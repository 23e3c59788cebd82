-- ===== src/Communicator/Threads.antt =====
-- src/communication/zmq_communicator.cc: `ZmqCommunicator` with its ring and its sockets. The thread
-- of a sender runs Consume, the thread of a receiver Produce; a round is one step. `none` is a call
-- that waits, or an access outside a buffer.
pub mod Order
use plug_in_ml.Base.{
  ℕ, suc, zero, Bool, Option, none, some, List, [], ◌∷◌, ℤ, lookup, length, ◌>>=◌,
}
use plug_in_ml.Message.{Addr}
use plug_in_ml.Communicator.Ring
use plug_in_ml.Communicator.Ring.{FifoRing}
use plug_in_ml.Communicator.Socket
use plug_in_ml.Communicator.Socket.{ZmqSendRecv}
use plug_in_ml.Communicator.Wire.{mix, unmix}

pub record ZmqCommunicator (S : Type 0) : Type 0 where
  pub fifo_ring : FifoRing
  pub send_recv : ZmqSendRecv S
  pub id_to_addr : List (ℤ × Addr)
  pub buffer_size : ℕ

module _ {S : Type 0} where
  -- `memory` and `sizes` are for the ring.
  unfoldable pub initialize :
      (ℕ → S)
      → List (Option (List ℕ))
      → List ℕ
      → ℕ
      → Bool
      → ℕ
      → ℕ
      → ZmqCommunicator S
      → Option (ZmqCommunicator S)
  initialize zmq_socket memory sizes ring_size is_sender listen_port buffer_size c = do
    ring ← Ring.initialize ring_size memory sizes
    some (record c {
      fifo_ring = ring;
      send_recv = Socket.initialize zmq_socket is_sender listen_port c.send_recv;
      buffer_size = buffer_size;
    })

  -- `Send`: the message with its receiver's id goes into the ring.
  unfoldable pub send : ℤ → List ℕ → ZmqCommunicator S → Option (ZmqCommunicator S)
  send dst_id message c = do
    bytes ← mix c.buffer_size dst_id message
    (len, ring) ← Ring.add bytes c.fifo_ring
    some (record c { fifo_ring = ring })

  -- `Receive` into a string: an empty slot makes the length -1, and `assign` throws.
  unfoldable pub receive : ZmqCommunicator S → Option (List ℕ × ZmqCommunicator S)
  receive c = do
    (fetched, ring) ← Ring.fetch c.buffer_size c.fifo_ring
    bytes ← fetched
    some (bytes, record c { fifo_ring = ring })

  -- One round of `Produce`; `received` is what zmq_recv returns.
  unfoldable pub produce : Option (List ℕ) → ZmqCommunicator S → Option (ZmqCommunicator S)
  produce received c = do
    bytes ← Socket.receive c.buffer_size received
    (len, ring) ← Ring.add bytes c.fifo_ring
    some (record c { fifo_ring = ring })

  -- A message with its receiver's id, taken from the ring: one to an unknown id is dropped.
  unfoldable pub dispatch : (ℕ → S) → ℤ → List ℕ → ZmqCommunicator S → ZmqCommunicator S
  dispatch zmq_socket dst_id message c = elim (lookup dst_id c.id_to_addr) [
    | none ↦ c
    | some addr ↦ record c { send_recv = (Socket.send zmq_socket addr message c.send_recv).1 }
  ]

  -- One round of `Consume`.
  unfoldable pub consume : (ℕ → S) → ZmqCommunicator S → Option (ZmqCommunicator S)
  consume zmq_socket c = do
    (fetched, ring) ← Ring.fetch c.buffer_size c.fifo_ring
    bytes ← fetched
    (dst_id, message) ← unmix bytes
    some (dispatch zmq_socket dst_id message (record c { fifo_ring = ring }))
