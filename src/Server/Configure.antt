-- ===== src/Server/Configure.antt =====
-- src/server/server.cc: Initialize, the configuration of a server by the master's first message.
use plug_in_ml.Base.{
  ℕ, zero, suc, ◌+◌, ◌-◌, ◌%◌, Bool, true, false, Option, some, none, List, [], ◌∷◌, ◌++◌, ℤ, pos,
  negsuc, ◌-ℤ◌, ◌+ℤ◌, ◌==ℤ◌, ltb_ℤ, pos_part, rem, get_elem?, length, replicate, tail, insert,
  assign, contains, ◌==◌, leb, for, ◌>>=◌, if◌then◌else◌,
}
use plug_in_ml.Floats.{FloatOps, zero_value}
use plug_in_ml.Message.{config_of, Addr, Message, ConfigMessage, MessageType}
use plug_in_ml.Communicator.{fresh_sender, send, add_id_addr}
use plug_in_ml.Server.State.{Server, blank}

-- The remainder by a divisor that may be 0, where C++ has no result.
abbrev pub checked_rem : ℤ → ℕ → Option ℤ
checked_rem a zero = none
checked_rem a (suc k) = some (rem a (suc k))

-- `(partition((i + 1) % server_num_) - partition(i) + key_range_) % key_range_`: how many keys
-- server `i` holds. A negative remainder, of an element that lies above the next one and the key
-- range, is `none`: `std::vector` throws on it, for a copy here, and for the own length, which the
-- source keeps until then, in the first `UpdateParameter`.
unfoldable pub range_length : ConfigMessage → ℕ → Option ℕ
range_length config i = do
  start ← get_elem? config.partition i
  next ← get_elem? config.partition (suc i % config.server_num)
  count ← checked_rem (next -ℤ start +ℤ pos config.key_range) config.key_range
  if ltb_ℤ count (pos 0) then none else some (pos_part count)

-- `agent_ids_.insert` for each worker: the id of an agent that is there is not added again.
unfoldable pub add_agents : List ℤ → List ℤ → List ℤ
add_agents [] ids = ids
add_agents (id ∷ rest) ids = add_agents rest (if contains id ids then ids else ids ++ id ∷ [])

-- `id_to_index_[config_msg.worker_id(i)] = i`
unfoldable pub index_agent : ConfigMessage → ℕ → List (ℤ × ℕ) → Option (List (ℤ × ℕ))
index_agent config i ids = do id ← get_elem? config.worker_id i; some (assign id i ids)

module _ {F : Type 0} where
  -- The fields that tell this server its keys.
  unfoldable pub take_range : ConfigMessage → ℕ → Server F → Option (Server F)
  take_range config i s = do
    start ← get_elem? config.partition i
    count ← range_length config i
    some (record s { local_index = i; start_key = start; parameter_length = count })

  unfoldable pub register_message : Addr → ℕ → Message F
  register_message ip port = record {
    send_id = negsuc 0;
    recv_id = pos 0;
    message_type = MessageType.register;
    config_msg = none;
    request_msg = none;
    heartbeat_msg = none;
    register_msg = some (record { ip = ip; port = port; is_server = true });
  }

  -- A list of 0s in front: the nodes' ids are their places in `node_ip_port`.
  unfoldable pub add_addresses : ℕ → List Addr → Server F → Server F
  add_addresses i [] s = s
  add_addresses i (addr ∷ addrs) s =
      add_addresses (suc i) addrs (record s { sender = (add_id_addr (pos i) addr s.sender).1 })

module _ {F : Type 0} ⦃ops : FloatOps F⦄ where
  -- The copy of the server `j` places before server `i`.
  unfoldable pub add_copy : ConfigMessage → ℕ → ℕ → List (List F) → Option (List (List F))
  add_copy config i j backups = do
    count ← range_length config ((i + config.server_num - j) % config.server_num)
    some (backups ++ replicate count zero_value ∷ [])

  -- One round of the loop over the servers; the flag is `found_local`.
  unfoldable pub add_server : ConfigMessage → ℕ → Server F × Bool → Option (Server F × Bool)
  add_server config i (s, found) = do
    id ← get_elem? config.server_id i
    let added = record s { server_ids = s.server_ids ++ id ∷ []; servers = insert id i s.servers }
    if id ==ℤ s.local_id
        then (do
          placed ← take_range config i added
          backups ← for s.backup_size 1 (add_copy config i) placed.backup_parameters
          some (record placed { backup_parameters = backups }, true))
        else some (added, found)

  -- The containers behind the ranges: agents, masters, zero parameters, zero counts, empty buffers.
  unfoldable pub fill_containers : ConfigMessage → Server F → Option (Server F)
  fill_containers config s = do
    ids ← for s.agent_num 0 (index_agent config) s.id_to_index
    some (record s {
      agent_ids = add_agents config.worker_id s.agent_ids;
      master_ids = s.master_ids ++ config.master_id;
      id_to_index = ids;
      parameters = s.parameters ++ replicate s.parameter_length zero_value;
      finish_count = s.finish_count ++ replicate s.consistency_bound 0;
      version_buffer = s.version_buffer ++ replicate s.agent_num [];
    })

  -- The fields read from the message before the loops.
  unfoldable pub read_config : ℤ → ConfigMessage → Server F → Server F
  read_config recv_id config s = add_addresses 1 (tail config.node_ip_port) (record s {
    local_id = recv_id;
    bottom_version = 0;
    consistency_bound = config.bound;
    agent_num = config.worker_num;
    server_num = config.server_num;
    backup_size = config.backup_size;
    key_range = config.key_range;
  })

  -- The part of `Initialize` from the configuration on; false is a configuration without this
  -- server, or with too many copies.
  unfoldable pub configure : ℤ → ConfigMessage → Server F → Option (Bool × Server F)
  unfolding read_config
  configure recv_id config blank_server =
      let s = read_config recv_id config blank_server in
      if leb s.server_num s.backup_size then some (false, s) else do
        (ranged, found) ← for s.server_num 0 (add_server config) (s, false)
        if found
            then (do filled ← fill_containers config ranged; some (true, filled))
            else some (false, ranged)

  -- `Initialize`: `ip` is what `GetIP` found, `reply` what the receiver got from the master.
  unfoldable pub initialize : Addr → ℕ → Addr → Option (Message F) → Option (Bool × Server F)
  initialize master_addr port ip reply =
      let contacted = (add_id_addr (pos 0) master_addr fresh_sender).1 in
      let s = record (blank {F = F}) {
        sender = send (pos 0) (register_message ip port) contacted;
        local_address = ip;
      } in
      if length ip == 0
      then some (false, record (blank {F = F}) { sender = contacted })
      else elim reply [
        | none ↦ some (false, s)
        | some msg ↦ configure msg.recv_id (config_of msg) s
      ]
