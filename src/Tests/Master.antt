-- ===== src/Tests/Master.antt =====
-- A configuration of two servers and two agents, of which a server dies.
use plug_in_ml.Base.{
  ℕ, zero, suc, ◌-◌, ◌<◌, ◌≡◌, refl, true, false, some, List, [], ◌∷◌, ℤ, pos, ◌≤ℤ◌, ◌<ℤ◌, All,
  contains, arith, ◌++◌, map, length, none, Distinct, ◌↔◌,
}
use plug_in_ml.Message.{
  Addr, Message, MessageType, ConfigMessage, RegisterMessage, HeartbeatMessage,
}
use plug_in_ml.Communicator.{fresh_sender}
use plug_in_ml.Text.{split}
use plug_in_ml.Master.State.{Master}
use plug_in_ml.Master.Loop.{initialize, main_loop, start_cluster, dead_nodes, detect_dead_node}
use plug_in_ml.Master.Numbered.{numbered}
use plug_in_ml.Master.Registered.{IsRegistered, message_of}
use plug_in_ml.Master.Registration.{
  register_all, some_parts, node_addr, register_all-to_message, servers_from, agents_from,
}
use plug_in_ml.Master.Rounds.{leaver, leavers, leaves}
use plug_in_ml.Master.Silent.{seen_nodes, IsSilent, dead_nodes_iff}
use plug_in_ml.Master.Dead.{heartbeats, master_found_dead}
use plug_in_ml.Master.Termination.{main_loop-ends}
use plug_in_ml.Server.State.{Server, blank}
use plug_in_ml.Server.Configure.{configure}
use plug_in_ml.Server.Serving.{IsServing}
use plug_in_ml.Cluster.Ready.{ready-IsServing}
use plug_in_ml.Tests.Server.{whole_numbers}
use plug_in_ml.Partition.{Partition}
use plug_in_ml.Partition.Owner.{InRange, IsPartition}
use plug_in_ml.Agent.Configure.{extract_partition}
use plug_in_ml.Master.TaskConfig
use plug_in_ml.Master.TaskConfig.{TaskConfig, ready, generate_partition, to_message, fix_config}
use plug_in_ml.Master.Cut.{generate_partition-IsPartition}
use plug_in_ml.Master.Fix.{IsAligned, fix_config-states_more}

abbrev fresh : TaskConfig
fresh = record {
  worker_num = 2;
  server_num = 2;
  key_range = 10;
  backup_size = 1;
  partition = [];
  server_id = pos 1 ∷ pos 2 ∷ [];
  agent_id = pos 3 ∷ pos 4 ∷ [];
  master_id = pos 0 ∷ [];
  id_to_addr = [];
  bound = 1;
  node_id = 5;
  config_changed = false;
}

abbrev draw_7_then_3 : ℕ → ℤ
draw_7_then_3 zero = pos 7
draw_7_then_3 (suc i) = pos 3

draws_in_range : (i : ℕ) → (pos 1 ≤ℤ draw_7_then_3 i) × (draw_7_then_3 i <ℤ pos (10 - 1))
draws_in_range zero = (omega arith, omega arith)
draws_in_range (suc i) = (omega arith, omega arith)

abbrev message : List ℤ → List ℤ → ConfigMessage
message partition server_id = record {
  worker_num = 2;
  server_num = 2;
  key_range = 10;
  node_ip_port = [];
  partition = partition;
  backup_size = 1;
  server_id = server_id;
  worker_id = pos 3 ∷ pos 4 ∷ [];
  master_id = pos 0 ∷ [];
  bound = 1;
}

abbrev first_message : ConfigMessage
first_message = message (pos 3 ∷ pos 7 ∷ []) (pos 1 ∷ pos 2 ∷ [])

first_config : to_message (generate_partition draw_7_then_3 fresh) ≡ some first_message
unfolding to_message generate_partition plug_in_ml.Agent.Sort.sort
first_config = refl

generate_partition-IsPartition_example :
    (p : Partition) × (extract_partition first_message 2 ≡ some p)
    × IsPartition p
    × (p.key_range ≡ 10)
    × All (InRange 10) p.part_vec
generate_partition-IsPartition_example =
    generate_partition-IsPartition draw_7_then_3 fresh first_message refl (omega arith)
      draws_in_range first_config

abbrev cut : TaskConfig
cut = record fresh { partition = pos 3 ∷ pos 7 ∷ [] }

apart : (j : ℤ) → contains j cut.agent_id ≡ true → contains j cut.server_id ≡ false
unfolding contains
apart j h = ground (arith, h)

cut-IsAligned : IsAligned cut
unfolding contains
cut-IsAligned = record {
  parts = refl;
  sorted = ((omega arith, tt), (tt, tt));
  servers = (refl, (refl, tt));
  agents = (refl, (refl, tt));
  apart = apart;
}

second_config : to_message (fix_config (pos 2 ∷ []) cut) ≡ some (message (pos 3 ∷ []) (pos 1 ∷ []))
unfolding to_message fix_config TaskConfig.is_agent_id TaskConfig.is_server_id contains
    TaskConfig.find_index TaskConfig.erase_at
second_config = refl

server_2 : contains (pos 2) cut.server_id ≡ true
unfolding contains
server_2 = refl

dead_2 : contains (pos 2) (pos 2 ∷ []) ≡ true
unfolding contains
dead_2 = refl

fix_config-states_more_example : 1 < 2
fix_config-states_more_example =
    fix_config-states_more (pos 2 ∷ []) cut (message (pos 3 ∷ []) (pos 1 ∷ [])) (pos 2)
      cut-IsAligned refl server_2 dead_2 second_config

-- A master that waits for one server and one agent.
abbrev waiting : Master ℕ
waiting = record {
  config = TaskConfig.initialize 1 1 10 1 0;
  sender = fresh_sender;
  alive_node = [];
  terminated_node = [];
  is_lead = true;
  watching = false;
}

abbrev registrations : List RegisterMessage
registrations =
    record { ip = 56 ∷ []; port = 5000; is_server = true }
    ∷ record { ip = 57 ∷ []; port = 6000; is_server = false }
    ∷ []

register_all-to_message_example :
    let c = (register_all registrations (initialize (49 ∷ 44 ∷ 50 ∷ []) waiting).1).config in
    let addrs = some_parts (split 44 (49 ∷ 44 ∷ 50 ∷ [])) ++ map node_addr registrations in
    IsRegistered c addrs
    × (c.server_id ≡ pos 2 ∷ [])
    × (c.agent_id ≡ pos 3 ∷ [])
    × (to_message c ≡ some (message_of c addrs))
unfolding servers_from agents_from split some_parts
register_all-to_message_example =
    register_all-to_message 1 1 10 1 0 (49 ∷ 44 ∷ 50 ∷ []) registrations waiting refl

-- The two masters' addresses come first.
first_masters : some_parts (split 44 (49 ∷ 44 ∷ 50 ∷ [])) ≡ (49 ∷ []) ∷ (50 ∷ []) ∷ []
unfolding some_parts split
first_masters = refl

abbrev addresses : List Addr
addresses = (48 ∷ []) ∷ (49 ∷ []) ∷ (50 ∷ []) ∷ (51 ∷ []) ∷ (52 ∷ []) ∷ []

abbrev full : TaskConfig
full = record fresh { id_to_addr = numbered 0 addresses }

full-IsRegistered : IsRegistered full addresses
unfolding contains numbered
full-IsRegistered = record {
  table = refl;
  next = refl;
  servers = (refl, (refl, tt));
  agents = (refl, (refl, tt));
  apart = λ j h. ground (arith, h);
  servers_below = λ j h. ground (arith, h);
  agents_below = λ j h. ground (arith, h);
}

full_ready : ready full ≡ true
unfolding ready
full_ready = refl

lists_2 : contains (pos 2) full.server_id ≡ true
unfolding contains
lists_2 = refl

ready-IsServing_example :
    let config = message_of (generate_partition draw_7_then_3 full) addresses in
    (to_message (generate_partition draw_7_then_3 full) ≡ some config)
    × ((s' : Server ℕ) × (configure (pos 2) config blank ≡ some (true, s')) × IsServing s')
    × IsAligned (generate_partition draw_7_then_3 full)
ready-IsServing_example =
    ready-IsServing draw_7_then_3 full addresses (pos 2) blank full-IsRegistered full_ready refl
      draws_in_range
      (record {
        some_key = omega arith;
        some_bound = omega arith;
        some_agent = omega arith;
        copies = omega arith;
      })
      lists_2
      (record {
        no_servers = refl;
        no_agents = refl;
        no_parameters = refl;
        no_buffers = refl;
        no_counts = refl;
        no_requests = refl;
        no_places = refl;
      })

abbrev leave : ℤ → (ℕ → ℤ) × ℕ × Message ℕ
leave id = (
  draw_7_then_3,
  0,
  record {
    send_id = id;
    recv_id = pos 0;
    message_type = MessageType.terminate;
    config_msg = none;
    request_msg = none;
    heartbeat_msg = none;
    register_msg = none;
  },
)

-- Agent 3 says twice that it terminates.
abbrev two_leave : List ((ℕ → ℤ) × ℕ × Message ℕ)
two_leave = leave (pos 3) ∷ leave (pos 3) ∷ leave (pos 4) ∷ []

abbrev running : Master ℕ
running = record waiting { config = cut }

all_leave : (j : ℤ) → contains j (pos 3 ∷ pos 4 ∷ []) ≡ true → contains j (leavers two_leave) ≡ true
unfolding contains leavers leaver
all_leave j h = ground (arith, h)

workers_differ : Distinct (pos 3 ∷ pos 4 ∷ [])
unfolding contains
workers_differ = (refl, (refl, tt))

main_loop-ends_example :
    (m' : Master ℕ) × (main_loop two_leave running ≡ some (true, m'))
    × Distinct m'.terminated_node
    × (length m'.terminated_node ≡ 2)
main_loop-ends_example =
    main_loop-ends two_leave running (pos 3 ∷ pos 4 ∷ [])
      (leaves refl, (leaves refl, (leaves refl, tt))) tt (omega arith) workers_differ refl all_leave

-- Node 0 was heard of long ago, node 3 lately.
abbrev heard : List (ℤ × ℕ)
heard = (pos 0, 5) ∷ (pos 3, 50) ∷ []

heard_differ : Distinct (seen_nodes heard)
unfolding contains
heard_differ = (refl, (refl, tt))

dead_nodes_iff_example : (contains (pos 0) (dead_nodes 60 heard) ≡ true) ↔ IsSilent 60 heard (pos 0)
dead_nodes_iff_example = dead_nodes_iff 60 heard (pos 0) heard_differ

-- Nodes 0 and 1 at the address `1:5`.
abbrev two_nodes : Master ℕ
two_nodes = record waiting {
  config = record cut {
    partition = [];
    id_to_addr = (pos 0, 49 ∷ 58 ∷ 53 ∷ []) ∷ (pos 1, 49 ∷ 58 ∷ 53 ∷ []) ∷ [];
  };
}

two_started : (m : Master ℕ) × (start_cluster draw_7_then_3 100 two_nodes ≡ some m)
unfolding start_cluster plug_in_ml.Master.Loop.add_node_addresses generate_partition
    plug_in_ml.Master.Loop.heartbeat_addr plug_in_ml.Text.read_nat plug_in_ml.Text.get_line
    plug_in_ml.Master.Deliver.deliver_config to_message plug_in_ml.Agent.State.put
two_started = (_, refl)

abbrev beat_of_1 : ℤ × ℕ × HeartbeatMessage
beat_of_1 = (pos 1, 120, record { is_live = true; agent_epoch_num = 0 })

master_found_dead_example :
    (last : Master ℕ) × (heartbeats (beat_of_1 ∷ []) two_started.0 ≡ some last)
    × (contains (pos 0) (dead_nodes 140 last.alive_node) ≡ true)
    × ((detect_dead_node 140 last).config.config_changed ≡ true)
unfolding TaskConfig.get_node_ip
master_found_dead_example =
    master_found_dead draw_7_then_3 100 140 two_nodes two_started.0 (beat_of_1 ∷ []) two_started.1
      (omega arith) ((refl, refl), tt) (omega arith)
