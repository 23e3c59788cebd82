-- ===== src/Master/Loop.antt =====
-- src/master/master.cc: Initialize, one round of MainLoop for a message received, GetDeadNode and
-- one round of DetectDeadNode.
use plug_in_ml.Base.{
  ℕ, zero, suc, ◌+◌, Bool, true, false, Option, some, none, List, [], ◌∷◌, ◌++◌, ℤ, pos, ◌+ℤ◌,
  length, ltb, ◌==◌, assign, contains, ◌>>=◌, if◌then◌else◌,
}
use plug_in_ml.Message.{
  register_of, Addr, Message, MessageType, config, request, heartbeat, register, terminate,
  RegisterMessage, HeartbeatMessage,
}
use plug_in_ml.Communicator.{Sender, fresh_sender, add_id_addr}
use plug_in_ml.Text.{get_line, read_nat, split}
use plug_in_ml.Master.TaskConfig.{
  TaskConfig, append_server, append_agent, append_master, ready, generate_partition, get_node_ip,
  get_ip, fix_config, join_addr,
}
use plug_in_ml.Master.State.{Master, heartbeat_timeout, max_cluster_node}
use plug_in_ml.Master.Deliver.{deliver_config}

-- The parts of `master_ip_port` that are not empty; how many there are.
unfoldable pub append_masters : List Addr → ℕ → TaskConfig → ℕ × TaskConfig
append_masters [] count c = (count, c)
append_masters (ip_port ∷ rest) count c =
    if length ip_port == 0
    then append_masters rest count c
    else append_masters rest (suc count) (append_master ip_port c)

-- A node's heartbeat address: the port is one more.
unfoldable pub heartbeat_addr : Addr → Option Addr
heartbeat_addr addr = do
  let (ip, rest) = get_line 58 addr
  let (port, end) = get_line 58 rest
  number ← read_nat port
  some (join_addr ip (number + 1))

-- `alive_node_[i] = cur_time` for the nodes from `i` on.
unfoldable pub mark_alive : ℕ → ℕ → ℕ → List (ℤ × ℕ) → List (ℤ × ℕ)
mark_alive cur_time zero i alive = alive
mark_alive cur_time (suc n) i alive = mark_alive cur_time n (suc i) (assign (pos i) cur_time alive)

unfoldable pub dead_nodes : ℕ → List (ℤ × ℕ) → List ℤ
dead_nodes cur_time [] = []
dead_nodes cur_time ((id, seen) ∷ rest) =
    if ltb (seen + heartbeat_timeout) cur_time
    then id ∷ dead_nodes cur_time rest
    else dead_nodes cur_time rest

-- The ids of dead nodes are looked up for the log.
unfoldable pub log_nodes : List ℤ → TaskConfig → TaskConfig
log_nodes [] c = c
log_nodes (id ∷ rest) c = log_nodes rest (get_ip id c).1

module _ {F : Type 0} where
  unfoldable pub initialize : Addr → Master F → ℕ × Master F
  unfolding append_masters
  initialize master_ip_port m =
      let (count, c) = append_masters (split 44 master_ip_port) 0 m.config in
      (count, record m { config = c; sender = fresh_sender })

  unfoldable pub process_register : RegisterMessage → Master F → Master F
  process_register r m =
      if r.is_server
      then record m { config = append_server r.ip r.port m.config }
      else record m { config = append_agent r.ip r.port m.config }

  -- Both addresses of each node become known to the sender.
  unfoldable pub add_node_addresses :
      List (ℤ × Addr) → Sender (Message F) → Option (Sender (Message F))
  add_node_addresses [] sender = some sender
  add_node_addresses ((id, addr) ∷ rest) sender = do
    beat ← heartbeat_addr addr
    add_node_addresses rest
        (add_id_addr (id +ℤ pos max_cluster_node) beat (add_id_addr id addr sender).1).1

  -- What follows the registration that makes the cluster ready.
  unfoldable pub start_cluster : (ℕ → ℤ) → ℕ → Master F → Option (Master F)
  start_cluster draw cur_time m = do
    let cut = generate_partition draw m.config
    sender ← add_node_addresses cut.id_to_addr m.sender
    delivered ← deliver_config (record m { config = cut; sender = sender })
    some (record delivered {
      alive_node = mark_alive cur_time (length (get_node_ip cut)) 0 m.alive_node;
      watching = true;
    })

  unfoldable pub handle_register : (ℕ → ℤ) → ℕ → RegisterMessage → Master F → Option (Master F)
  handle_register draw cur_time r m =
      let registered = process_register r m in
      if ready registered.config then start_cluster draw cur_time registered else some registered

  -- A heartbeat must say that its sender lives (`CHECK`); its address is looked up for the log.
  unfoldable pub process_heartbeat : ℕ → ℤ → HeartbeatMessage → Master F → Option (Master F)
  process_heartbeat cur_time send_id h m =
      if h.is_live
      then some (record m {
        alive_node = assign send_id cur_time m.alive_node;
        config = (get_ip send_id m.config).1;
      })
      else none

  unfoldable pub handle_terminate : ℤ → Master F → Bool × Master F
  handle_terminate send_id m =
      let nodes =
        (if contains send_id m.terminated_node
          then m.terminated_node
          else m.terminated_node ++ send_id ∷ []) in
      (length nodes == m.config.worker_num, record m { terminated_node = nodes })

  -- One round of the loop: whether it was the last one, and the state.
  unfoldable pub handle_typed :
      (ℕ → ℤ) → ℕ → Message F → MessageType → Master F → Option (Bool × Master F)
  handle_typed draw cur_time msg config m = some (false, m)
  handle_typed draw cur_time msg request m = some (false, m)
  handle_typed draw cur_time msg heartbeat m = msg.heartbeat_msg >>= λ h.
      process_heartbeat cur_time msg.send_id h m >>= λ m'. some (false, m')
  handle_typed draw cur_time msg register m =
      handle_register draw cur_time (register_of msg) m >>= λ m'. some (false, m')
  handle_typed draw cur_time msg terminate m = some (handle_terminate msg.send_id m)

  -- The loop of `MainLoop` of a lead master, over the messages in the order in which they are
  -- received, each with the draws and the time of its round: whether the loop has ended.
  unfoldable pub main_loop : List ((ℕ → ℤ) × ℕ × Message F) → Master F → Option (Bool × Master F)
  main_loop [] m = some (false, m)
  main_loop ((draw, cur_time, msg) ∷ rest) m =
      handle_typed draw cur_time msg msg.message_type m >>= λ round.
      let more = main_loop rest round.1 in if round.0 then some (true, round.1) else more

  -- One round of `DetectDeadNode`.
  unfoldable pub detect_dead_node : ℕ → Master F → Master F
  unfolding dead_nodes
  detect_dead_node cur_time m =
      let dead = dead_nodes cur_time m.alive_node in
      if length dead == 0
      then m
      else record m { config = fix_config dead (log_nodes dead m.config) }
