-- ===== src/Tests/Server.antt =====
-- Server 1 of two, which holds the keys 3 to 5, with two agents and one update ahead allowed;
-- natural numbers stand for the floats.
use plug_in_ml.Base.{
  ◌+ℤ◌, ℕ, zero, suc, ◌+◌, ◌-◌, ◌/◌, ◌≤◌, ◌<◌, ◌≡◌, refl, Bool, true, false, ◌||◌, Option, some,
  none, List, [], ◌∷◌, ◌++◌, map, ℤ, pos, negsuc, ◌≤ℤ◌, ◌<ℤ◌, ◌==ℤ◌, get_elem?, length, tail,
  lookup, contains, arith, inl, inr, Bool-cases, All,
}
use plug_in_ml.Floats.{FloatOps}
use plug_in_ml.Message.{Message, ConfigMessage, RequestMessage, RequestType}
use plug_in_ml.Communicator.{send}
use plug_in_ml.Partition.Owner.{Owns}
use plug_in_ml.Server.KeyValueList.{KeyValueList}
use plug_in_ml.Server.PullInfo.{PullInfo}
use plug_in_ml.Server.State.{Server, blank}
use plug_in_ml.Server.Update.{update_parameter}
use plug_in_ml.Server.Pull.{
  key_value_reply, read_pull, read_blocked, pull_index, respond_to_all, serve_pull,
}
use plug_in_ml.Server.Push.{serve_push}
use plug_in_ml.Server.Configure.{range_length, configure}
use plug_in_ml.Server.Started.{configure-IsServing}
use plug_in_ml.Server.Average.{InSegment, IsUpdate, total_fronts, update_parameter_lem}
use plug_in_ml.Server.Replied.{
  Behind, Around, Value, Placed, Replied, respond_to_all-Replied, Served, serve_pull-Served,
}
use plug_in_ml.Server.Respond.{respond_to_all_out_of_range}
use plug_in_ml.Server.Range.{IsSpread, pull_index_in_segment, one_server_empty}
use plug_in_ml.Server.Rounds.{count_longer, tally}
use plug_in_ml.Server.Store.{Fits}
use plug_in_ml.Server.Serving.{IsServing}

instance abbrev pub whole_numbers : FloatOps ℕ
whole_numbers = record { zero_float = 0; add_float = λ a b. a + b; div_float = λ a n. a / n }

abbrev pub update : KeyValueList ℕ
update = record { length_field = 2; keys = pos 3 ∷ pos 5 ∷ []; values = 4 ∷ 6 ∷ [] }

abbrev pull_of_5 : PullInfo
pull_of_5 = record { length_field = 1; id = pos 4; keys = pos 5 ∷ [] }

-- Agent 3 has delivered; agent 4 has not, and a pull of agent 3 waits.
abbrev pub server : Server ℕ
server = record blank {
  local_id = pos 1;
  start_key = pos 3;
  parameter_length = 3;
  consistency_bound = 1;
  agent_num = 2;
  server_num = 2;
  key_range = 10;
  backup_size = 1;
  server_ids = pos 1 ∷ pos 2 ∷ [];
  agent_ids = pos 3 ∷ pos 4 ∷ [];
  parameters = 10 ∷ 20 ∷ 30 ∷ [];
  version_buffer = (update ∷ []) ∷ [] ∷ [];
  finish_count = 1 ∷ [];
  pull_request = pull_of_5 ∷ [];
  id_to_index = (pos 3, 0) ∷ (pos 4, 1) ∷ [];
}

abbrev pub request : RequestMessage ℕ
request = record {
  request_type = RequestType.key_value;
  keys = pos 3 ∷ pos 4 ∷ [];
  values = 2 ∷ 8 ∷ [];
}

pub segment : (n : ℕ) → n < 3 → InSegment (pos 3) 3 (pos (3 + n))
unfolding plug_in_ml.Base.◌-ℤ◌
segment n h = record { from_start = ground arith; below_end = ground arith }

indexed_lem : (id : ℤ) (i : ℕ) → lookup id server.id_to_index ≡ some i → i < 2
unfolding lookup
indexed_lem id i e = ground arith

known_lem :
    (id : ℤ)
    → contains id server.agent_ids ≡ true
    → (i : ℕ) × (lookup id server.id_to_index ≡ some i)
unfolding lookup contains
known_lem id h = elim (Bool-cases (pos 3 ==ℤ id)) [
  | inl three ↦ (0, ground (arith, three))
  | inr other ↦ (1, ground (arith, other, h))
]

pub server-IsServing : IsServing server
unfolding count_longer tally
server-IsServing = record {
  filled = record {
    bound_pos = omega arith;
    agents = refl;
    counts = refl;
    full = (omega arith, (omega arith, tt));
    updates = (
      (
        record {
          counted = refl;
          paired = refl;
          inside = (segment 0 (omega arith), (segment 2 (omega arith), tt));
        },
        tt,
      ),
      (tt, tt),
    );
    sized = refl;
    requests = (record { counted = refl; inside = (segment 2 (omega arith), tt) }, tt);
    peers = refl;
    copies = omega arith;
    indexed = indexed_lem;
    known = known_lem;
  };
  unfinished = omega arith;
}

pub request-Fits : Fits (pos 3) 3 request
request-Fits = record {
  paired = refl;
  inside = (segment 0 (omega arith), (segment 1 (omega arith), tt));
}

abbrev outcome : Option (Server ℕ) → Option (List ℕ × ℕ × List ℕ)
outcome none = none
outcome (some s) = some (s.parameters, s.bottom_version, s.finish_count)

-- The push of agent 4 ends the round: the averages are added and the version goes up.
ends_round : outcome (serve_push server (pos 4) request) ≡ some (13 ∷ 24 ∷ 33 ∷ [], 1, 0 ∷ [])
unfolding serve_push contains plug_in_ml.Server.State.index_of lookup plug_in_ml.Server.State.touch
    plug_in_ml.Base.insert plug_in_ml.Server.Push.read_update plug_in_ml.Base.for
    plug_in_ml.Server.Push.add_update_pair plug_in_ml.Server.Push.end_round update_parameter
    plug_in_ml.Server.Update.merge_agent plug_in_ml.Server.KeyValueList.size
    plug_in_ml.Server.Update.merge_pair plug_in_ml.Server.KeyValueList.key_at
    plug_in_ml.Server.KeyValueList.value_at plug_in_ml.Base.◌-ℤ◌
    plug_in_ml.Server.KeyValueList.add_pair send plug_in_ml.Server.Backup.backup_request
    plug_in_ml.Server.Backup.predecessor plug_in_ml.Server.Backup.request_backup
    plug_in_ml.Server.Backup.request_backup_from plug_in_ml.Server.KeyValueList.new
    plug_in_ml.Server.Pull.add_entry key_value_reply read_blocked
    plug_in_ml.Server.Pull.respond_each plug_in_ml.Server.Pull.respond_to respond_to_all
    plug_in_ml.Server.PullInfo.key_at plug_in_ml.Server.PullInfo.size
    plug_in_ml.Server.Push.count_finished plug_in_ml.Server.Push.finish_round
    plug_in_ml.Server.Push.store_update plug_in_ml.Server.Update.average_into
ends_round = refl

front_updates : All (λ q. All (IsUpdate (pos 3) 3) q) ((update ∷ []) ∷ (update ∷ []) ∷ [])
front_updates =
    let one : IsUpdate (pos 3) 3 update = record {
      counted = refl;
      paired = refl;
      inside = (segment 0 (omega arith), (segment 2 (omega arith), tt));
    } in
    ((one, tt), ((one, tt), tt))

-- Both agents have delivered.
abbrev delivered : Server ℕ
delivered = record server { version_buffer = (update ∷ []) ∷ (update ∷ []) ∷ [] }

update_parameter_lem_example :
    (parameters : List ℕ) × (update_parameter delivered
      ≡ some (record delivered {
        version_buffer = [] ∷ [] ∷ [];
        parameters = parameters;
        bottom_version = 1;
      }))
    × (length parameters ≡ 3)
    × ((x : ℕ) (p : ℕ)
        → get_elem? (10 ∷ 20 ∷ 30 ∷ []) x ≡ some p
        → get_elem? parameters x
          ≡ some (p + total_fronts (pos 3) x ((update ∷ []) ∷ (update ∷ []) ∷ []) 0 / 2))
update_parameter_lem_example =
    update_parameter_lem delivered refl refl (front_updates.0.0, (front_updates.1.0.0, tt))

key_5_behind : pos 5 ≡ pos 3 +ℤ pos 2
unfolding plug_in_ml.Base.◌+ℤ◌
key_5_behind = refl

respond_to_all-Replied_example :
    (sent : List (ℤ × Message ℕ)) × (respond_to_all server
      ≡ some (record server { pull_request = []; sender = record server.sender { sent = sent } }))
    × Replied (Value (Behind (pos 3)) (10 ∷ 20 ∷ 30 ∷ [])) (pos 1) (pull_of_5 ∷ []) sent
respond_to_all-Replied_example =
    respond_to_all-Replied server
      (record { counted = refl; near = ((2, key_5_behind, omega arith), tt) }, tt)

-- Server 2 of two, which holds the keys 6 to 9 and 0 to 2; a pull for the key 1 waits.
abbrev pub last_server : Server ℕ
last_server = record server {
  local_id = pos 2;
  start_key = pos 6;
  parameter_length = 7;
  parameters = 60 ∷ 70 ∷ 80 ∷ 90 ∷ 0 ∷ 10 ∷ 20 ∷ [];
  pull_request = record { length_field = 1; id = pos 3; keys = pos 1 ∷ [] } ∷ [];
}

respond_to_all_out_of_range_example : respond_to_all last_server ≡ none
respond_to_all_out_of_range_example =
    respond_to_all_out_of_range last_server 0
      (record { length_field = 1; id = pos 3; keys = pos 1 ∷ [] }) 0 (pos 1) refl refl refl
      (omega arith)

abbrev pull_of_1_and_7 : RequestMessage ℕ
pull_of_1_and_7 = record { request_type = RequestType.key; keys = pos 1 ∷ pos 7 ∷ []; values = [] }

around : All (Placed (Around (pos 6) 10) last_server.parameters) (pos 1 ∷ pos 7 ∷ [])
unfolding plug_in_ml.Base.◌+ℤ◌
around = ((5, inr (omega arith, refl), omega arith), ((1, inl refl, omega arith), tt))

two_indices :
    (id : ℤ) (index : ℕ)
    → lookup id last_server.id_to_index ≡ some index
    → index < length last_server.version_buffer
unfolding lookup
two_indices id index e = ground (arith, e)

serve_pull-Served_example :
    (s' : Server ℕ) × (serve_pull last_server (pos 4) pull_of_1_and_7 ≡ some s')
    × Served last_server (pos 4) pull_of_1_and_7 s'
serve_pull-Served_example = serve_pull-Served last_server (pos 4) pull_of_1_and_7 two_indices around

abbrev pub cluster : ConfigMessage
cluster = record {
  worker_num = 2;
  server_num = 2;
  key_range = 10;
  node_ip_port = [];
  partition = pos 3 ∷ pos 6 ∷ [];
  backup_size = 1;
  server_id = pos 1 ∷ pos 2 ∷ [];
  worker_id = pos 3 ∷ pos 4 ∷ [];
  master_id = pos 0 ∷ [];
  bound = 1;
}

pub cluster-IsSpread : IsSpread cluster
cluster-IsSpread = record {
  sized = refl;
  sorted = ((omega arith, tt), (tt, tt));
  ranged = ((omega arith, omega arith), ((omega arith, omega arith), tt));
  spread = omega arith;
}

pull_index_in_segment_example :
    (len : ℕ) × (range_length cluster 1 ≡ some len)
    × ((pos 0 ≤ℤ pull_index last_server (pos 1)) × (pull_index last_server (pos 1) <ℤ pos len))
pull_index_in_segment_example =
    pull_index_in_segment cluster last_server 1 (pos 1) cluster-IsSpread refl refl
      (omega arith, omega arith) (inr (refl, inr (omega arith)))

one_server_empty_example :
    (range_length (record cluster { server_num = 1; partition = pos 4 ∷ [] }) 0 ≡ some 0)
    × ((key : ℤ) → Owns (pos 4 ∷ []) key 0)
one_server_empty_example =
    one_server_empty (record cluster { server_num = 1; partition = pos 4 ∷ [] }) 4 refl refl
      (omega arith)

cluster_lists_2 : contains (pos 2) cluster.server_id ≡ true
unfolding contains
cluster_lists_2 = refl

configure-IsServing_example :
    (s' : Server ℕ) × (configure (pos 2) cluster blank ≡ some (true, s')) × IsServing s'
configure-IsServing_example =
    configure-IsServing (pos 2) cluster blank
      (record {
        no_servers = refl;
        no_agents = refl;
        no_parameters = refl;
        no_buffers = refl;
        no_counts = refl;
        no_requests = refl;
        no_places = refl;
      })
      (record {
        listed = record {
          parts = refl;
          ids = refl;
          some_key = omega arith;
          ranged = ((omega arith, omega arith), ((omega arith, omega arith), tt));
        };
        some_bound = omega arith;
        some_agent = omega arith;
        agents = refl;
        copies = omega arith;
        own = cluster_lists_2;
      })
