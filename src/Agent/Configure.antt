-- ===== src/Agent/Configure.antt =====
-- src/agent/agent.cc: Initialize from the master's answer on, and Reconfigurate.
use plug_in_ml.Base.{
  ℕ, suc, Bool, true, false, Option, some, none, List, [], ◌∷◌, ◌++◌, ℤ, pos, negsuc, get_elem?, at,
  length, ◌==◌, for, ◌>>=◌, if◌then◌else◌,
}
use plug_in_ml.Message.{Addr, Message, ConfigMessage, MessageType, config_of}
use plug_in_ml.Communicator.{Sender, fresh_sender, send, add_id_addr, refresh_addresses}
use plug_in_ml.Partition.{Partition, initialize_array, read_array}
use plug_in_ml.Agent.State.{Agent}

-- `mutable_partition()->ExtractSubrange(0, count, part_vec)`, and the partition made of it.
unfoldable pub extract_partition : ConfigMessage → ℕ → Option Partition
extract_partition config count = do
  part_vec ← read_array 0 count config.partition
  initialize_array config.key_range config.server_num part_vec

unfoldable pub read_ids : ConfigMessage → ℕ → List ℤ → Option (List ℤ)
read_ids config i ids = do id ← get_elem? config.server_id i; some (ids ++ id ∷ [])

module _ {F : Type 0} where
  unfoldable pub register_message : Addr → ℕ → Message F
  register_message ip port = record {
    send_id = negsuc 0;
    recv_id = pos 0;
    message_type = MessageType.register;
    config_msg = none;
    request_msg = none;
    heartbeat_msg = none;
    register_msg = some (record { ip = ip; port = port; is_server = false });
  }

  -- One round of the loop over the servers: the id is kept and its address added.
  unfoldable pub add_server :
      ConfigMessage → ℕ → List ℤ × Sender (Message F) → Option (List ℤ × Sender (Message F))
  add_server config i (ids, sender) = do
    id ← get_elem? config.server_id i
    addr ← at config.node_ip_port id
    some (ids ++ id ∷ [], (add_id_addr id addr sender).1)

  unfoldable pub configure : Message F → Agent F → Option (Agent F)
  configure msg agent = do
    let config = config_of msg
    (ids, sender) ← for config.server_num 0 (add_server config) ([], agent.sender)
    partition ← extract_partition config config.server_num
    some (record agent {
      local_id = msg.recv_id;
      agent_num = config.worker_num;
      server_num = config.server_num;
      key_range = config.key_range;
      server_ids = ids;
      master_ids = agent.master_ids ++ config.master_id;
      sender = sender;
      partition = partition;
      epoch_num = 0;
      reconfig_msg = none;
    })

  -- `Initialize` of a new agent, whose containers are empty: `ip` is what `GetIP` found, `reply`
  -- what the receiver got from the master.
  unfoldable pub initialize :
      Addr → ℕ → Addr → Option (Message F) → Agent F → Option (Bool × Agent F)
  initialize master_addr port ip reply agent =
      let contacted = record agent {
        local_ip = ip;
        listen_port = port;
        sender =
            send (pos 0) (register_message ip port)
              (add_id_addr (pos 0) master_addr fresh_sender).1;
      } in
      if length ip == 0
      then some (false, record agent { listen_port = port; sender = fresh_sender })
      else elim reply [
        | none ↦ some (false, contacted)
        | some msg ↦ configure msg contacted >>= λ configured. some (true, configured)
      ]

  -- `Reconfigurate` reads one partition element more than there are servers.
  unfoldable pub reconfigurate : (Addr → ℤ) → Message F → Agent F → Option (Agent F)
  reconfigurate zmq_close msg agent = do
    let config = config_of msg
    ids ← for config.server_num 0 (read_ids config) []
    partition ← extract_partition config (suc config.server_num)
    some (record agent {
      local_id = msg.recv_id;
      agent_num = config.worker_num;
      server_num = config.server_num;
      key_range = config.key_range;
      server_ids = ids;
      master_ids = config.master_id;
      sender = refresh_addresses zmq_close 0 config.node_ip_port agent.sender;
      partition = partition;
      epoch_num = 0;
      reconfig_msg = none;
    })
