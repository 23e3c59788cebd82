-- ===== src/Agent/Pull.antt =====
-- src/agent/agent.cc: Pull. The keys are sorted and requested in runs; then replies are received
-- until each server that was asked has answered.
use plug_in_ml.Base.{
  ℕ, zero, suc, ◌+◌, Bool, true, false, ◌&&◌, not, Option, some, none, List, [], ◌∷◌, ℤ, ◌==ℤ◌, at,
  get_elem?, length, ltb, ◌==◌, contains, for, ◌>>=◌, if◌then◌else◌,
}
use plug_in_ml.Message.{Message, MessageType, request, RequestType, RequestMessage, key_value, key}
use plug_in_ml.Communicator.{Sender, send}
use plug_in_ml.Partition.{next_ending}
use plug_in_ml.Agent.State.{Agent, used_keys, put}
use plug_in_ml.Agent.Sort.{sort_prefix}
use plug_in_ml.Agent.Push.{request_message, slice}

-- `server_set.insert` and `server_set.erase`
unfoldable pub set_insert : ℤ → List ℤ → List ℤ
set_insert x xs = if contains x xs then xs else x ∷ xs

unfoldable pub set_erase : ℤ → List ℤ → List ℤ
set_erase x [] = []
set_erase x (y ∷ ys) = if y ==ℤ x then set_erase x ys else y ∷ set_erase x ys

abbrev pub is_request : MessageType → Bool
is_request request = true
is_request _ = false

abbrev pub is_key_value : RequestType → Bool
is_key_value key_value = true
is_key_value _ = false

-- The state of the receiving loop: the servers still to answer, and the entries so far.
pub record Waiting (F : Type 0) : Type 0 where
  pub servers : List ℤ
  pub cur : ℕ
  pub keys : List ℤ
  pub values : List F

module _ {F : Type 0} where
  -- The loop that sends: the servers asked so far, and the sender.
  unfoldable pub request_loop :
      ℕ → Agent F → ℕ → List ℤ → Sender (Message F) → Option (List ℤ × Sender (Message F))
  request_loop zero agent start servers sender = none
  request_loop (suc fuel) agent start servers sender =
      let round =
        (next_ending agent.partition (used_keys agent.parameters) start >>= λ ending.
        at agent.server_ids ending.1 >>= λ server_id.
        request_loop fuel agent ending.0 (set_insert server_id servers) (
          send server_id
            (request_message key agent.local_id server_id
              (slice start ending.0 agent.parameters.keys) [])
            sender)) in
      if ltb start agent.parameters.size then round else some (servers, sender)

  -- The tests on a reply, in the order of the code; the body of one that passes.
  unfoldable pub accept : ℤ → List ℤ → Message F → Option (RequestMessage F)
  accept local_id servers msg =
      if not (is_request msg.message_type)
      then none
      else (msg.request_msg >>= λ body.
          if contains msg.send_id servers
            && (msg.recv_id ==ℤ local_id)
            && is_key_value body.request_type
          then some body
          else none)

  -- `parameters_.keys[cur + i] = request_msg.keys(i)`, and so the value.
  unfoldable pub copy_entry : RequestMessage F → ℕ → ℕ → List ℤ × List F → Option (List ℤ × List F)
  copy_entry body cur i (keys, values) = do
    entry_key ← get_elem? body.keys i
    value ← get_elem? body.values i
    keys' ← put keys (cur + i) entry_key
    values' ← put values (cur + i) value
    some (keys', values')

  -- One round for a reply received.
  unfoldable pub take_reply : ℤ → Waiting F → Message F → Option (Waiting F)
  take_reply local_id w msg = elim (accept local_id w.servers msg) [
    | none ↦ some w
    | some body ↦ for (length body.keys) 0 (copy_entry body w.cur) (w.keys, w.values) >>= λ entries.
        some (record {
          servers = set_erase msg.send_id w.servers;
          cur = w.cur + length body.keys;
          keys = entries.0;
          values = entries.1;
        })
  ]

  -- The loop `while (!server_set.empty())` over what `Receive` returns, `none` for -1; what is not
  -- read stays. With servers left at the end of the list the loop still waits.
  unfoldable pub receive_loop :
      ℤ → Waiting F → List (Option (Message F)) → Option (Waiting F × List (Option (Message F)))
  receive_loop local_id w [] = some (w, [])
  receive_loop local_id w (none ∷ rest) =
      let next = receive_loop local_id w rest in
      if length w.servers == 0 then some (w, none ∷ rest) else next
  receive_loop local_id w (some msg ∷ rest) =
      let next = (take_reply local_id w msg >>= λ w'. receive_loop local_id w' rest) in
      if length w.servers == 0 then some (w, some msg ∷ rest) else next

  -- `Pull` on the messages that arrive: `none` in the second place while it waits for more.
  unfoldable pub pull :
      Agent F → List (Option (Message F)) → Option (Option (Agent F) × List (Option (Message F)))
  unfolding request_loop receive_loop
  pull agent arriving = do
    let d = agent.parameters
    let sorted = record agent {
      parameters = record { size = d.size; values = d.values; keys = sort_prefix d.size d.keys };
    }
    (servers, sender) ← request_loop (suc d.size) sorted 0 [] agent.sender
    (w, rest) ←
        receive_loop agent.local_id
          (record { servers = servers; cur = 0; keys = sorted.parameters.keys; values = d.values })
          arriving
    let pulled = record sorted {
      sender = sender;
      parameters = record { size = w.cur; values = w.values; keys = w.keys };
    }
    some ((if length w.servers == 0 then some pulled else none), rest)
