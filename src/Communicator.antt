-- ===== src/Communicator.antt =====
-- src/communication: the sending side of `ZmqCommunicator` as its users see it. `sent` is what was
-- handed to `Send`, oldest first; the ring, the wire format, the sockets and the threads' rounds are in
-- the children.
pub mod Ring
pub mod Wire
pub mod Socket
pub mod Threads
use plug_in_ml.Base.{
  ℕ, Bool, true, false, ◌&&◌, not, Option, some, none, List, [], ◌∷◌, ◌++◌, ℤ, pos, negsuc, ◌==ℤ◌,
  lookup, insert, erase, ◌==◌, if◌then◌else◌,
}
use plug_in_ml.Message.{Addr}

unfoldable pub same_addr : Addr → Addr → Bool
same_addr [] [] = true
same_addr [] (y ∷ ys) = false
same_addr (x ∷ xs) [] = false
same_addr (x ∷ xs) (y ∷ ys) = x == y && same_addr xs ys

-- `mapper_` holds the addresses with an open socket.
unfoldable pub has_socket : Addr → List Addr → Bool
has_socket a [] = false
has_socket a (b ∷ bs) = if same_addr a b then true else has_socket a bs

unfoldable pub drop_socket : Addr → List Addr → List Addr
drop_socket a [] = []
drop_socket a (b ∷ bs) = if same_addr a b then drop_socket a bs else b ∷ drop_socket a bs

pub record Sender (M : Type 0) : Type 0 where
  pub id_to_addr : List (ℤ × Addr)
  pub mapper : List Addr
  pub sent : List (ℤ × M)

module _ {M : Type 0} where
  abbrev pub fresh_sender : Sender M
  fresh_sender = record { id_to_addr = []; mapper = []; sent = [] }

  unfoldable pub send : ℤ → M → Sender M → Sender M
  send dst_id message c = record c { sent = c.sent ++ (dst_id, message) ∷ [] }

  -- `AddIdAddr` keeps an id that is there.
  unfoldable pub add_id_addr : ℤ → Addr → Sender M → Bool × Sender M
  add_id_addr id addr c = elim (lookup id c.id_to_addr) [
    | some old ↦ (false, c)
    | none ↦ (true, record c { id_to_addr = insert id addr c.id_to_addr })
  ]

  -- `ZmqSendRecv::CloseSocket`; `zmq_close` is the library's result for the socket.
  unfoldable pub close_socket : (Addr → ℤ) → Addr → Sender M → ℤ × Sender M
  close_socket zmq_close addr c =
      if has_socket addr c.mapper
      then (zmq_close addr, record c { mapper = drop_socket addr c.mapper })
      else (negsuc 0, c)

  -- `DeleteId` closes the socket of the id's address and forgets the id.
  unfoldable pub delete_id : (Addr → ℤ) → ℤ → Sender M → Bool × Sender M
  delete_id zmq_close id c = elim (lookup id c.id_to_addr) [
    | none ↦ (false, c)
    | some addr ↦
        let (res, c') = close_socket zmq_close addr c in
        (res ==ℤ pos 0, record c' { id_to_addr = erase id c'.id_to_addr })
  ]

  unfoldable pub check_id_addr : ℤ → Addr → Sender M → Bool
  check_id_addr id addr c = elim (lookup id c.id_to_addr) [
    | none ↦ false
    | some old ↦ same_addr old addr
  ]

  -- The loop of `Server::Reconfigure` and `Agent::Reconfigurate` over `node_ip_port`: node `i`
  -- gets the address in the message.
  unfoldable pub refresh_addresses : (Addr → ℤ) → ℕ → List Addr → Sender M → Sender M
  refresh_addresses zmq_close i [] c = c
  refresh_addresses zmq_close i (addr ∷ addrs) c = refresh_addresses zmq_close (ℕ.suc i) addrs (
      if check_id_addr (pos i) addr c
      then c
      else (add_id_addr (pos i) addr (delete_id zmq_close (pos i) c).1).1)
