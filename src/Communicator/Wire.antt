-- ===== src/Communicator/Wire.antt =====
-- src/communication/zmq_communicator.cc: Send writes the receiver's id and a comma before a
-- message; Consume takes them off again and looks the address up.
pub mod RoundTrip
use plug_in_ml.Base.{
  ℕ, zero, suc, ◌+◌, ◌-◌, Option, none, some, List, [], ◌∷◌, ◌++◌, ℤ, length, take, leb, ◌==◌,
  lookup, ◌>>=◌, if◌then◌else◌,
}
use plug_in_ml.Message.{Addr}
use plug_in_ml.Text.{print_int, read_int}

-- `snprintf(mix_message, buffer_size_, "%d,", dst_id)` without its final zero.
unfoldable pub id_prefix : ℕ → ℤ → List ℕ
id_prefix buffer_size dst_id = take (buffer_size - 1) (print_int dst_id ++ 44 ∷ [])

-- `Send`, as far as the ring: `none` where the copy goes past the buffer.
unfoldable pub mix : ℕ → ℤ → List ℕ → Option (List ℕ)
unfolding id_prefix
mix buffer_size dst_id message =
    let prefix = id_prefix buffer_size dst_id in
    if leb (length prefix + length message) buffer_size then some (prefix ++ message) else none

-- The first comma among the first `n` bytes: what follows it.
unfoldable pub after_comma : ℕ → List ℕ → Option (List ℕ)
after_comma zero bytes = none
after_comma (suc n) [] = none
after_comma (suc n) (c ∷ cs) = let rest = after_comma n cs in if c == 44 then some cs else rest

-- One round of `Consume`, up to the lookup: the id and the message. A text without an id, or
-- without a comma in time, is none that `Send` makes; what `Consume` does then depends on what
-- its buffers held before.
unfoldable pub unmix : List ℕ → Option (ℤ × List ℕ)
unfolding after_comma
unmix bytes = do dst_id ← read_int bytes; message ← after_comma 12 bytes; some (dst_id, message)

-- What goes to `ZmqSendRecv::Send`: an id without an address sends nothing.
unfoldable pub consume : List (ℤ × Addr) → List ℕ → Option (Addr × List ℕ)
consume id_to_addr bytes = do
  (dst_id, message) ← unmix bytes
  addr ← lookup dst_id id_to_addr
  some (addr, message)
