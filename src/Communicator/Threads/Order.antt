-- ===== src/Communicator/Threads/Order.antt =====
-- src/communication/zmq_communicator.cc: Send, Produce, Receive and Consume, with the ring between
-- them.
use plug_in_ml.Base.{
  ℕ, suc, zero, ◌+◌, ◌≤◌, ◌≡◌, refl, sym, ap, ◌∙◌, Option, some, List, [], ◌∷◌, ◌++◌, ℤ, lookup,
  length, length-append, All, arith, ◌>>=◌,
}
use mathlib.Core.Path.{subst}
use mathlib.Core.List.{append_assoc, append-nil}
use plug_in_ml.Message.{Addr}
use plug_in_ml.Communicator.Ring.{FifoRing, fetch}
use plug_in_ml.Communicator.Ring.Held.{Holds, add_lem, fetch_lem}
use plug_in_ml.Communicator.Socket
use plug_in_ml.Communicator.Socket.{ZmqSendRecv}
use plug_in_ml.Communicator.Socket.Laws.{IsOpen, Sends, send-Sends}
use plug_in_ml.Communicator.Wire.{unmix}
use plug_in_ml.Text.Laws.{IsInt32}
use plug_in_ml.Communicator.Wire.RoundTrip.{unmix-mix, mix-le}
use plug_in_ml.Communicator.Threads.{ZmqCommunicator, send, dispatch, consume}

-- A message with its receiver's id and address.
abbrev pub Letter : Type 0
Letter = ℤ × Addr × List ℕ

-- A letter that can be sent: a 32-bit id with this address, of at most 25 bytes, and room for the
-- message and 12 bytes more in the buffer.
pub record IsSendable (id_to_addr : List (ℤ × Addr)) (buffer_size : ℕ) (l : Letter) : Type 0 where
  pub wide : IsInt32 l.0
  pub known : lookup l.0 id_to_addr ≡ some l.1
  pub fits : 12 + length l.2 ≤ buffer_size
  pub short : length l.1 ≤ 25

-- What the ring holds is what `Send` makes of the letters.
data Queued (size : ℕ) (id_to_addr : List (ℤ × Addr)) : List Letter → List (List ℕ) → Type 0 where
  no_letter : Queued size id_to_addr [] []
  letter :
      (l : Letter) (bytes : List ℕ) (letters : List Letter) (queue : List (List ℕ))
      → unmix bytes ≡ some (l.0, l.2)
      → lookup l.0 id_to_addr ≡ some l.1
      → (length bytes ≤ size) × (length l.1 ≤ 25)
      → Queued size id_to_addr letters queue
      → Queued size id_to_addr (l ∷ letters) (bytes ∷ queue)

Queued-snoc :
    (size : ℕ) (id_to_addr : List (ℤ × Addr)) (letters : List Letter) (queue : List (List ℕ))
    (l : Letter) (bytes : List ℕ)
    → Queued size id_to_addr letters queue
    → unmix bytes ≡ some (l.0, l.2)
    → lookup l.0 id_to_addr ≡ some l.1
    → (length bytes ≤ size) × (length l.1 ≤ 25)
    → Queued size id_to_addr (letters ++ l ∷ []) (queue ++ bytes ∷ [])
Queued-snoc size id_to_addr [] [] l bytes no_letter e k b = letter l bytes [] [] e k b no_letter
Queued-snoc size id_to_addr _ _ l bytes (letter m b letters queue f h i q) e k j =
    letter m b (letters ++ l ∷ []) (queue ++ bytes ∷ []) f h i
      (Queued-snoc size id_to_addr letters queue l bytes q e k j)

-- The letters reach their addresses, one after the other.
pub data Delivered {S : Type 0} : List Letter → ZmqSendRecv S → ZmqSendRecv S → Type 0 where
  all_done : (z : ZmqSendRecv S) → Delivered [] z z
  reaches :
      (l : Letter) (letters : List Letter) (z z₁ z₂ : ZmqSendRecv S)
      → Sends z l.1 l.2 z₁
      → Delivered letters z₁ z₂
      → Delivered (l ∷ letters) z z₂

module _ {S : Type 0} where
  pub send_all : List Letter → ZmqCommunicator S → Option (ZmqCommunicator S)
  send_all [] c = some c
  send_all (l ∷ letters) c = send l.0 l.2 c >>= λ c'. send_all letters c'

  pub consume_all : (ℕ → S) → ℕ → ZmqCommunicator S → Option (ZmqCommunicator S)
  consume_all zmq_socket zero c = some c
  consume_all zmq_socket (suc n) c = consume zmq_socket c >>= λ c'. consume_all zmq_socket n c'

  abbrev with_ring : ZmqCommunicator S → FifoRing → ZmqCommunicator S
  with_ring c r = record c { fifo_ring = r }

  send_all_lem :
      (letters before : List Letter) (queue : List (List ℕ)) (c : ZmqCommunicator S)
      → All (IsSendable c.id_to_addr c.buffer_size) letters
      → 13 ≤ c.buffer_size
      → Queued c.buffer_size c.id_to_addr before queue
      → Holds c.fifo_ring queue
      → length queue + length letters ≤ c.fifo_ring.ring_size
      → (r : FifoRing) × (queue' : List (List ℕ)) × (send_all letters c ≡ some (with_ring c r))
        × Queued c.buffer_size c.id_to_addr (before ++ letters) queue'
        × Holds r queue'
  unfolding send_all send
  send_all_lem [] before queue c s room q v h = (
    c.fifo_ring,
    queue,
    refl,
    subst (λ l. Queued c.buffer_size c.id_to_addr l queue) (sym (append-nil before)) q,
    v,
  )
  send_all_lem (l ∷ letters) before queue c s room q v h =
      let mixed = unmix-mix c.buffer_size l.0 l.2 s.0.wide room s.0.fits in
      let added = add_lem c.fifo_ring queue mixed.0 v (omega arith) in
      let rest =
        send_all_lem letters (before ++ l ∷ []) (queue ++ mixed.0 ∷ []) (with_ring c added.0) s.1
          room
          (Queued-snoc c.buffer_size c.id_to_addr before queue l mixed.0 q mixed.2 s.0.known
            (mix-le c.buffer_size l.0 l.2 mixed.0 mixed.1, s.0.short))
          added.2 (omega (arith, h, added.3, length-append queue (mixed.0 ∷ []))) in
      (
        rest.0,
        rest.1,
        rw (mixed.1, added.1) rest.2,
        subst (λ k. Queued c.buffer_size c.id_to_addr k rest.1)
            (append_assoc before (l ∷ []) letters) rest.3,
        rest.4,
      )

  dispatch_lem :
      (zmq_socket : ℕ → S) (c : ZmqCommunicator S) (message : List ℕ) (id : ℤ) (addr : Addr)
      → lookup id c.id_to_addr ≡ some addr
      → dispatch zmq_socket id message c
        ≡ record c { send_recv = (Socket.send zmq_socket addr message c.send_recv).1 }
  unfolding dispatch
  dispatch_lem zmq_socket c message id addr k = rw (dispatch, k) refl

  consume_lem :
      (zmq_socket : ℕ → S) (c : ZmqCommunicator S) (r : FifoRing) (bytes message : List ℕ) (id : ℤ)
      (addr : Addr)
      → fetch c.buffer_size c.fifo_ring ≡ some (some bytes, r)
      → unmix bytes ≡ some (id, message)
      → lookup id c.id_to_addr ≡ some addr
      → consume zmq_socket c
        ≡ some (record c {
          fifo_ring = r;
          send_recv = (Socket.send zmq_socket addr message c.send_recv).1;
        })
  unfolding consume
  consume_lem zmq_socket c r bytes message id addr f e k =
      rw (f, e) (ap some (dispatch_lem zmq_socket (with_ring c r) message id addr k))

  consume_all_lem :
      (zmq_socket : ℕ → S) (size : ℕ) (table : List (ℤ × Addr)) (letters : List Letter)
      (queue : List (List ℕ))
      → Queued size table letters queue
      → (c : ZmqCommunicator S) → c.id_to_addr ≡ table
      → c.buffer_size ≡ size
      → Holds c.fifo_ring queue
      → IsOpen c.send_recv
      → (c' : ZmqCommunicator S) × (consume_all zmq_socket (length letters) c ≡ some c')
        × Delivered letters c.send_recv c'.send_recv
  unfolding consume_all
  consume_all_lem zmq_socket size table [] [] no_letter c same sized v o =
      (c, refl, all_done c.send_recv)
  consume_all_lem zmq_socket size table _ _ (letter l bytes letters queue e k b q) c same sized v
        o =
      let fetched = fetch_lem c.fifo_ring bytes queue v c.buffer_size (omega (arith, b.0, sized)) in
      let sent = send-Sends zmq_socket l.1 l.2 c.send_recv b.1 o in
      let c₁ = record c {
        fifo_ring = fetched.0;
        send_recv = (Socket.send zmq_socket l.1 l.2 c.send_recv).1;
      } in
      let rest =
        consume_all_lem zmq_socket size table letters queue q c₁ same sized fetched.2
          sent.still_open in
      let known = ap (lookup l.0) same ∙ k in
      (
        rest.0,
        rw (consume_lem zmq_socket c fetched.0 bytes l.2 l.0 l.1 fetched.1 e known) rest.1,
        reaches l letters c.send_recv c₁.send_recv rest.0.send_recv sent rest.2,
      )

  -- A sender with an empty ring and every open socket connected to its address, and letters that
  -- can be sent, no more than the ring has slots: `Send` takes them all without waiting, as many
  -- rounds of `Consume` succeed, and each message goes, in the order of the letters, to a socket
  -- that was connected to `tcp://` and the address of its receiver.
  pub consume_all-send_all :
      (zmq_socket : ℕ → S) (letters : List Letter) (c : ZmqCommunicator S)
      → All (IsSendable c.id_to_addr c.buffer_size) letters
      → 13 ≤ c.buffer_size
      → Holds c.fifo_ring []
      → length letters ≤ c.fifo_ring.ring_size
      → IsOpen c.send_recv
      → (c₁ : ZmqCommunicator S) × (c₂ : ZmqCommunicator S) × (send_all letters c ≡ some c₁)
        × (consume_all zmq_socket (length letters) c₁ ≡ some c₂)
        × Delivered letters c.send_recv c₂.send_recv
  consume_all-send_all zmq_socket letters c s room v few o =
      let sent = send_all_lem letters [] [] c s room no_letter v (omega arith) in
      let taken =
        consume_all_lem zmq_socket c.buffer_size c.id_to_addr letters sent.1 sent.3
          (with_ring c sent.0) refl refl sent.4 o in
      (with_ring c sent.0, taken.0, sent.2, taken.1, taken.2)
