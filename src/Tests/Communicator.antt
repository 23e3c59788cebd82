-- ===== src/Tests/Communicator.antt =====
-- The message `hi` to node 12, and a ring of two slots.
use plug_in_ml.Base.{
  ℕ, ◌≡◌, refl, some, List, [], ◌∷◌, pos, arith, ◌+◌, ◌≤◌, ◌++◌, true, none, length, lookup,
  replicate,
}
use plug_in_ml.Text
use plug_in_ml.Text.{print_nat, digits}
use plug_in_ml.Communicator.Socket
use plug_in_ml.Communicator.Socket.{bind_endpoint, to_int16}
use plug_in_ml.Communicator.Socket.Laws.{Sends, send-Sends, tcp_any, bind_endpoint-to_int16}
use plug_in_ml.Communicator.Threads.{ZmqCommunicator}
use plug_in_ml.Communicator.Threads.Order.{
  Letter, IsSendable, send_all, consume_all, Delivered, consume_all-send_all,
}
use plug_in_ml.Communicator.Ring.{FifoRing, cleared, initialize}
use plug_in_ml.Communicator.Ring.Queue.{
  cleared-Holds, Call, adds, fetches, queue_call, ring_call, results, results-queue_call,
}
use plug_in_ml.Communicator.Wire.{mix, unmix}
use plug_in_ml.Communicator.Wire.RoundTrip.{unmix-mix}

bytes_of_hi : mix 64 (pos 12) (104 ∷ 105 ∷ []) ≡ some (49 ∷ 50 ∷ 44 ∷ 104 ∷ 105 ∷ [])
unfolding mix Text.print_int
bytes_of_hi = refl

unmix-mix_example :
    (bytes : List ℕ) × (mix 64 (pos 12) (104 ∷ 105 ∷ []) ≡ some bytes)
    × (unmix bytes ≡ some (pos 12, 104 ∷ 105 ∷ []))
unmix-mix_example =
    unmix-mix 64 (pos 12) (104 ∷ 105 ∷ []) (omega arith, omega arith) (omega arith) (omega arith)

-- The fifth call finds the ring empty and waits.
abbrev five_calls : List Call
five_calls = adds (1 ∷ 2 ∷ []) ∷ adds (3 ∷ []) ∷ fetches 2 ∷ fetches 1 ∷ fetches 1 ∷ []

results-queue_call_example :
    (r : FifoRing) × (initialize 2 (some [] ∷ some [] ∷ []) (7 ∷ 8 ∷ []) ≡ some r)
    × (results ring_call five_calls r ≡ results (queue_call 2) five_calls [])
results-queue_call_example =
    results-queue_call 2 (some [] ∷ some [] ∷ []) (7 ∷ 8 ∷ []) five_calls (omega arith) refl refl

-- A sender that knows node 12 at `1:5`, with a ring of four slots; sockets are numbers.
abbrev sender : ZmqCommunicator ℕ
sender = record {
  fifo_ring = cleared 4 (replicate 4 none) (replicate 4 7);
  send_recv = record {
    is_sender = true;
    listen_port = pos 1024;
    sendrecv = none;
    mapper = [];
    opened = 0;
    calls = [];
  };
  id_to_addr = (pos 12, 49 ∷ 58 ∷ 53 ∷ []) ∷ [];
  buffer_size = 64;
}

abbrev to_12 : List ℕ → Letter
to_12 message = (pos 12, 49 ∷ 58 ∷ 53 ∷ [], message)

knows_12 : lookup (pos 12) sender.id_to_addr ≡ some (49 ∷ 58 ∷ 53 ∷ [])
unfolding lookup
knows_12 = refl

sendable :
    (message : List ℕ) → 12 + length message ≤ 64 → IsSendable sender.id_to_addr 64 (to_12 message)
sendable message h = record {
  wide = (omega arith, omega arith);
  known = knows_12;
  fits = h;
  short = omega arith;
}

consume_all-send_all_example :
    (c₁ : ZmqCommunicator ℕ) × (c₂ : ZmqCommunicator ℕ) × (send_all
        (to_12 (104 ∷ []) ∷ to_12 (105 ∷ []) ∷ [])
        sender
      ≡ some c₁)
    × (consume_all (λ i. i) 2 c₁ ≡ some c₂)
    × Delivered (to_12 (104 ∷ []) ∷ to_12 (105 ∷ []) ∷ []) sender.send_recv c₂.send_recv
consume_all-send_all_example =
    consume_all-send_all (λ i. i) (to_12 (104 ∷ []) ∷ to_12 (105 ∷ []) ∷ []) sender
      (sendable (104 ∷ []) (omega arith), (sendable (105 ∷ []) (omega arith), tt)) (omega arith)
      (cleared-Holds 4 (replicate 4 none) (replicate 4 7) (omega arith) refl refl) (omega arith) tt

send-Sends_example :
    Sends sender.send_recv
      (49 ∷ 58 ∷ 53 ∷ [])
      (104 ∷ [])
      (Socket.send (λ i. i) (49 ∷ 58 ∷ 53 ∷ []) (104 ∷ []) sender.send_recv).1
send-Sends_example =
    send-Sends (λ i. i) (49 ∷ 58 ∷ 53 ∷ []) (104 ∷ []) sender.send_recv (omega arith) tt

-- Port 40000 is -25536 in 16 bits.
bind_endpoint-to_int16_example :
    bind_endpoint (to_int16 40000) ≡ tcp_any ++ (45 ∷ 50 ∷ 53 ∷ 53 ∷ 51 ∷ 54 ∷ [])
unfolding print_nat digits
bind_endpoint-to_int16_example = bind_endpoint-to_int16 40000 (omega arith)
