-- ===== src/Master/Deliver.antt =====
-- src/master/master.cc: DeliverConfig and DeliverHeartbeat.
use plug_in_ml.Base.{
  ℕ, zero, suc, true, false, Option, some, none, List, [], ◌∷◌, ℤ, pos, ◌+ℤ◌, length, ◌>>=◌,
  if◌then◌else◌,
}
use plug_in_ml.Message.{Message, ConfigMessage, MessageType}
use plug_in_ml.Communicator.{Sender, send}
use plug_in_ml.Master.TaskConfig.{TaskConfig, to_message, get_node_ip}
use plug_in_ml.Master.State.{Master, max_cluster_node}

-- The configuration that goes with the heartbeat: only after a change, and then once.
unfoldable pub pending_config : TaskConfig → Option (Option ConfigMessage)
pending_config c =
    let message = (to_message c >>= λ config. some (some config)) in
    if c.config_changed then message else some none

module _ {F : Type 0} where
  unfoldable pub config_message : ConfigMessage → ℤ → Message F
  config_message config recv_id = record {
    send_id = pos 0;
    recv_id = recv_id;
    message_type = MessageType.config;
    config_msg = some config;
    request_msg = none;
    heartbeat_msg = none;
    register_msg = none;
  }

  -- The loop over the nodes `i`, `i + 1`, ….
  unfoldable pub deliver_to : ConfigMessage → ℕ → ℕ → Sender (Message F) → Sender (Message F)
  deliver_to config zero i sender = sender
  deliver_to config (suc n) i sender =
      deliver_to config n (suc i) (send (pos i) (config_message config (pos i)) sender)

  unfoldable pub deliver_config : Master F → Option (Master F)
  unfolding deliver_to
  deliver_config m = do
    config ← to_message m.config
    some (record m { sender = deliver_to config (length (get_node_ip m.config)) 0 m.sender })

  unfoldable pub heartbeat_message : Option ConfigMessage → ℤ → Message F
  heartbeat_message config recv_id = record {
    send_id = pos 0;
    recv_id = recv_id;
    message_type = MessageType.heartbeat;
    config_msg = config;
    request_msg = none;
    heartbeat_msg = some (record { is_live = true; agent_epoch_num = 0 });
    register_msg = none;
  }

  -- The loop over the ids of one kind: `route` gives the id that the sender knows the node's
  -- heartbeat address by.
  unfoldable pub beat_each :
      (ℤ → ℤ) → Option ConfigMessage → List ℤ → Sender (Message F) → Sender (Message F)
  beat_each route config [] sender = sender
  beat_each route config (id ∷ ids) sender =
      beat_each route config ids (send (route id) (heartbeat_message config id) sender)

  -- Agents are reached by their id plus the largest cluster size, servers by their id.
  unfoldable pub deliver_heartbeat : Master F → Option (Master F)
  deliver_heartbeat m = do
    config ← pending_config m.config
    some (record m {
      config = record m.config { config_changed = false };
      sender =
          beat_each (λ id. id) config m.config.server_id
            (beat_each (λ id. id +ℤ pos max_cluster_node) config m.config.agent_id m.sender);
    })
