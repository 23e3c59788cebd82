-- ===== src/Agent/Push.antt =====
-- src/agent/agent.cc: Push. The gradients are sorted by key and sent in runs, each to the server
-- that holds its keys.
use plug_in_ml.Base.{
  ℕ, zero, suc, ◌-◌, Option, some, none, List, ℤ, at, take, drop, ltb, ◌>>=◌, if◌then◌else◌,
}
use plug_in_ml.Message.{Message, MessageType, RequestType}
use plug_in_ml.Communicator.{Sender, send}
use plug_in_ml.Partition.{next_ending}
use plug_in_ml.Agent.State.{Agent, ShmStruct, used_keys}
use plug_in_ml.Agent.Sort.{sort_key_value}

-- The elements of `[start, stop)`.
abbrev pub slice {ℓ} : {A : Type ℓ} → ℕ → ℕ → List A → List A
slice start stop xs = take (stop - start) (drop start xs)

module _ {F : Type 0} where
  unfoldable pub request_message : RequestType → ℤ → ℤ → List ℤ → List F → Message F
  request_message request_type send_id recv_id keys values = record {
    send_id = send_id;
    recv_id = recv_id;
    message_type = MessageType.request;
    config_msg = none;
    request_msg = some (record { request_type = request_type; keys = keys; values = values });
    heartbeat_msg = none;
    register_msg = none;
  }

  -- The message for the run `[start, stop)`.
  abbrev pub push_message : ℤ → ShmStruct F → ℕ → ℕ → ℤ → Message F
  push_message local_id d start stop server_id =
      request_message RequestType.key_value local_id server_id (slice start stop d.keys)
        (slice start stop d.values)

  -- The loop `while (start < size)`. Each round needs one unit of fuel.
  unfoldable pub push_loop : ℕ → Agent F → ℕ → Sender (Message F) → Option (Sender (Message F))
  push_loop zero agent start sender = none
  push_loop (suc fuel) agent start sender =
      let round =
        (next_ending agent.partition (used_keys agent.gradients) start >>= λ ending.
        at agent.server_ids ending.1 >>= λ server_id. push_loop fuel agent ending.0 (
          send server_id (push_message agent.local_id agent.gradients start ending.0 server_id)
            sender)) in
      if ltb start agent.gradients.size then round else some sender

  -- The fuel is one round more than there are keys.
  unfoldable pub push : Agent F → Option (Agent F)
  unfolding push_loop
  push agent = do
    (keys, values) ← sort_key_value agent.gradients.keys agent.gradients.values agent.gradients.size
    let sorted = record agent {
      gradients = record { size = agent.gradients.size; values = values; keys = keys };
    }
    sender ← push_loop (suc sorted.gradients.size) sorted 0 sorted.sender
    some (record sorted { sender = sender })
