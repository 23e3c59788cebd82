-- ===== src/Server/Pull.antt =====
-- src/server/server.cc: ServePull and RespondToAll, the two ways to answer a pull request.
use plug_in_ml.Base.{
  ℕ, Option, some, none, List, [], ◌∷◌, ◌++◌, ℤ, pos, ◌-ℤ◌, ◌+ℤ◌, ltb_ℤ, leb, at, get_elem?, length,
  lookup, for, ◌>>=◌, if◌then◌else◌,
}
use plug_in_ml.Message.{Message, RequestMessage, MessageType, RequestType}
use plug_in_ml.Communicator.{send}
use plug_in_ml.Server.PullInfo
use plug_in_ml.Server.PullInfo.{PullInfo}
use plug_in_ml.Server.State.{Server}

unfoldable pub add_keys : PullInfo → List ℤ → PullInfo
add_keys p [] = p
add_keys p (key ∷ rest) = add_keys (PullInfo.add_key key p) rest

-- `blocked_request`, filled key by key.
unfoldable pub blocked_request : ℤ → List ℤ → PullInfo
blocked_request sender_id keys = add_keys (PullInfo.set_id sender_id PullInfo.new) keys

module _ {F : Type 0} where
  -- A reply with keys and values.
  unfoldable pub key_value_reply : ℤ → ℤ → List ℤ → List F → Message F
  key_value_reply send_id recv_id keys values = record {
    send_id = send_id;
    recv_id = recv_id;
    message_type = MessageType.request;
    config_msg = none;
    request_msg =
        some (record { request_type = RequestType.key_value; keys = keys; values = values });
    heartbeat_msg = none;
    register_msg = none;
  }

  -- One round of the loop that fills a reply: the `i`-th key, and the value read for it.
  unfoldable pub add_entry :
      (ℕ → Option ℤ) → (ℤ → Option F) → ℕ → List ℤ × List F → Option (List ℤ × List F)
  add_entry key_of read i (keys, values) = do
    key ← key_of i
    value ← read key
    some (keys ++ key ∷ [], values ++ value ∷ [])

  -- `RespondToAll` reads `parameters_[key - start_key_]`.
  unfoldable pub read_blocked : Server F → ℤ → Option F
  read_blocked s key = at s.parameters (key -ℤ s.start_key)

  -- `ServePull` adds the key range to a negative index.
  unfoldable pub pull_index : Server F → ℤ → ℤ
  pull_index s key =
      let index = key -ℤ s.start_key in
      if ltb_ℤ index (pos 0) then index +ℤ pos s.key_range else index

  unfoldable pub read_pull : Server F → ℤ → Option F
  read_pull s key = at s.parameters (pull_index s key)

  -- The body of the loop of `RespondToAll`: the reply to one request.
  unfoldable pub respond_to : Server F → PullInfo → Option (Message F)
  respond_to s request = do
    (keys, values) ←
        for (PullInfo.size request) 0 (add_entry (PullInfo.key_at request) (read_blocked s))
          ([], [])
    some (key_value_reply s.local_id request.id keys values)

  -- The loop: every request leaves the queue, and its reply is sent.
  unfoldable pub respond_each : Server F → List PullInfo → Option (Server F)
  respond_each s [] = some (record s { pull_request = [] })
  respond_each s (request ∷ rest) = do
    reply ← respond_to s request
    respond_each (record s { pull_request = rest; sender = send request.id reply s.sender }) rest

  unfoldable pub respond_to_all : Server F → Option (Server F)
  unfolding respond_each
  respond_to_all s = respond_each s s.pull_request

  unfoldable pub answer_pull : Server F → ℤ → RequestMessage F → Option (Server F)
  answer_pull s sender_id request = do
    (keys, values) ←
        for (length request.keys) 0 (add_entry (get_elem? request.keys) (read_pull s)) ([], [])
    some (record s {
      sender = send sender_id (key_value_reply s.local_id sender_id keys values) s.sender;
    })

  -- `ServePull`: a request of an unknown agent is dropped, one of an agent that is `bound` updates
  -- ahead waits, any other is answered at once.
  unfoldable pub serve_pull : Server F → ℤ → RequestMessage F → Option (Server F)
  serve_pull s sender_id request = elim (lookup sender_id s.id_to_index) [
    | none ↦ some s
    | some index ↦ get_elem? s.version_buffer index >>= λ buffer.
        if leb s.consistency_bound (length buffer)
        then some (record s {
          pull_request = s.pull_request ++ blocked_request sender_id request.keys ∷ [];
        })
        else answer_pull s sender_id request
  ]
