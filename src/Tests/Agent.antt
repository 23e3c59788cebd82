-- ===== src/Tests/Agent.antt =====
-- An agent that pushes four gradients to two servers; natural numbers stand for the floats.
use plug_in_ml.Base.{
  ℕ, suc, ◌+◌, ◌≤◌, ◌<◌, ◌≡◌, refl, Option, some, none, List, [], ◌∷◌, ◌++◌, ℤ, pos, ◌≤ℤ◌, ◌<ℤ◌,
  ltb_ℤ, All, length, take, arith, Distinct, contains,
}
use plug_in_ml.Message.{Message, MessageType, RequestMessage, RequestType}
use plug_in_ml.Agent.Pull.{Waiting}
use plug_in_ml.Communicator.{fresh_sender}
use plug_in_ml.Agent.State.{Agent, ShmStruct}
use plug_in_ml.Agent.Sort.{sort_key_value}
use plug_in_ml.Partition.Owner.{InRange}
use plug_in_ml.Agent.Sort.Sorted.{Sorts, sort_key_value-Sorts}
use plug_in_ml.Agent.Deliver.{IsGradient, Delivers, push-Delivers}
use plug_in_ml.Agent.Push.{push}
use plug_in_ml.Agent.Configure.{reconfigurate}
use plug_in_ml.Agent.Blocks.{Blocks, carried_keys, carried_values, push-Blocks}
use plug_in_ml.Master.Cut.{reconfigurate_reads_past}

abbrev no_gradients : ShmStruct ℕ
no_gradients = record { size = 0; values = []; keys = [] }

abbrev pub agent : Agent ℕ
agent = record {
  local_id = pos 3;
  local_ip = [];
  listen_port = 5000;
  agent_num = 1;
  server_num = 2;
  key_range = 10;
  epoch_num = 0;
  server_ids = pos 1 ∷ pos 2 ∷ [];
  master_ids = pos 0 ∷ [];
  sender = fresh_sender;
  gradients = record {
    size = 4;
    values = 80 ∷ 10 ∷ 50 ∷ 40 ∷ 0 ∷ [];
    keys = pos 8 ∷ pos 1 ∷ pos 5 ∷ pos 4 ∷ pos 0 ∷ [];
  };
  parameters = no_gradients;
  para_memory = no_gradients;
  signals = [];
  partition = record { key_range = 10; server_num = 2; part_vec = pos 3 ∷ pos 7 ∷ [] };
  reconfig_msg = none;
}

abbrev sorted_keys : List ℤ
sorted_keys = pos 1 ∷ pos 4 ∷ pos 5 ∷ pos 8 ∷ pos 0 ∷ []

abbrev sorted_values : List ℕ
sorted_values = 10 ∷ 40 ∷ 50 ∷ 80 ∷ 0 ∷ []

sorts :
    sort_key_value agent.gradients.keys agent.gradients.values 4 ≡ some (sorted_keys, sorted_values)
unfolding sort_key_value plug_in_ml.Base.for plug_in_ml.Agent.Sort.write_items
    plug_in_ml.Agent.State.put
sorts = refl

push-Blocks_example :
    (messages : List (ℤ × Message ℕ)) × (push agent
      ≡ some (record agent {
        gradients = record { size = 4; values = sorted_values; keys = sorted_keys };
        sender = record agent.sender { sent = messages };
      }))
    × (carried_keys messages ≡ pos 1 ∷ pos 4 ∷ pos 5 ∷ pos 8 ∷ [])
    × (carried_values messages ≡ 10 ∷ 40 ∷ 50 ∷ 80 ∷ [])
    × Blocks agent.partition agent.server_ids agent.local_id
        (record { size = 4; values = sorted_values; keys = sorted_keys })
        0
        messages
push-Blocks_example =
    push-Blocks agent sorted_keys sorted_values sorts
      (record { sized = refl; served = omega arith; sorted = ((omega arith, tt), (tt, tt)) }) refl
      (
        (omega arith, (omega arith, (omega arith, tt))),
        ((omega arith, (omega arith, tt)), ((omega arith, tt), (tt, tt))),
      )
      (
        (omega arith, omega arith),
        (
          (omega arith, omega arith),
          ((omega arith, omega arith), ((omega arith, omega arith), tt)),
        ),
      )
      (omega arith)

no_key_twice : Distinct (take 4 agent.gradients.keys)
unfolding contains
no_key_twice = (refl, (refl, (refl, (refl, tt))))

pub gradients-InRange : All (InRange 10) (take 4 agent.gradients.keys)
gradients-InRange = (
  (omega arith, omega arith),
  ((omega arith, omega arith), ((omega arith, omega arith), ((omega arith, omega arith), tt))),
)

sort_key_value-Sorts_example :
    (keys' : List ℤ) × (values' : List ℕ) × (sort_key_value agent.gradients.keys
        agent.gradients.values 4
      ≡ some (keys', values'))
    × Sorts 4 agent.gradients.keys agent.gradients.values keys' values'
    × All (InRange 10) (take 4 keys')
sort_key_value-Sorts_example =
    sort_key_value-Sorts (InRange 10) agent.gradients.keys agent.gradients.values 4 (omega arith)
      (omega arith) no_key_twice gradients-InRange

pub gradients-IsGradient : IsGradient 10 agent.gradients
gradients-IsGradient = record {
  some_keys = omega arith;
  some_values = omega arith;
  distinct = no_key_twice;
  ranged = gradients-InRange;
}

push-Delivers_example :
    (d : ShmStruct ℕ) × (messages : List (ℤ × Message ℕ)) × (push agent
      ≡ some (record agent { gradients = d; sender = record agent.sender { sent = messages } }))
    × Delivers agent d messages
push-Delivers_example =
    push-Delivers agent
      (record { sized = refl; served = omega arith; sorted = ((omega arith, tt), (tt, tt)) }) refl
      gradients-IsGradient

abbrev new_cluster : Message ℕ
new_cluster = record {
  send_id = pos 0;
  recv_id = pos 3;
  message_type = MessageType.config;
  config_msg = some (record {
    worker_num = 1;
    server_num = 2;
    key_range = 10;
    node_ip_port = [];
    partition = pos 3 ∷ pos 7 ∷ [];
    backup_size = 1;
    server_id = pos 1 ∷ pos 2 ∷ [];
    worker_id = pos 3 ∷ [];
    master_id = pos 0 ∷ [];
    bound = 1;
  });
  request_msg = none;
  heartbeat_msg = none;
  register_msg = none;
}

reconfigurate_reads_past_example : reconfigurate (λ addr. pos 0) new_cluster agent ≡ none
reconfigurate_reads_past_example =
    reconfigurate_reads_past (λ addr. pos 0) new_cluster agent (omega arith)

abbrev reply_from : ℤ → MessageType → ℤ → ℕ → Message ℕ
reply_from id kind key value = record {
  send_id = id;
  recv_id = pos 3;
  message_type = kind;
  config_msg = none;
  request_msg =
      some (record { request_type = RequestType.key_value; keys = key ∷ []; values = value ∷ [] });
  heartbeat_msg = none;
  register_msg = none;
}

abbrev body_of : ℤ → ℕ → RequestMessage ℕ
body_of key value = record {
  request_type = RequestType.key_value;
  keys = key ∷ [];
  values = value ∷ [];
}

-- An error and a message of a wrong type come before the replies, a heartbeat after them.
abbrev arriving : List (Option (Message ℕ))
arriving =
    none
    ∷ some (reply_from (pos 1) MessageType.heartbeat (pos 4) 7)
    ∷ some (reply_from (pos 2) MessageType.request (pos 8) 80)
    ∷ some (reply_from (pos 1) MessageType.request (pos 4) 40)
    ∷ some (reply_from (pos 1) MessageType.heartbeat (pos 4) 7)
    ∷ []

abbrev asked : Waiting ℕ
asked = record {
  servers = pos 1 ∷ pos 2 ∷ [];
  cur = 0;
  keys = pos 4 ∷ pos 8 ∷ pos 0 ∷ [];
  values = 1 ∷ 2 ∷ 3 ∷ [];
}
