-- ===== src/Server/Handle.antt =====
-- src/server/server.cc: Start, one round of the loop for a message received, and the heartbeat.
use plug_in_ml.Base.{true, Option, some, none, List, [], ◌∷◌, ◌>>=◌, ℤ, pos, lookup}
use plug_in_ml.Floats.{FloatOps}
use plug_in_ml.Message.{
  config_of, Addr, Message, MessageType, config, request, heartbeat, register, terminate,
  RequestType, RequestMessage, key_value, key, ack, block,
}
use plug_in_ml.Communicator.{send}
use plug_in_ml.Server.State.{Server}
use plug_in_ml.Server.Pull.{serve_pull}
use plug_in_ml.Server.Push.{serve_push}
use plug_in_ml.Server.Backup.{backup, respond_backup}
use plug_in_ml.Server.Reconfigure.{reconfigure}

module _ {F : Type 0} ⦃ops : FloatOps F⦄ where
  -- A message from a server: its parameters, or a request for ours.
  unfoldable pub handle_server : Server F → Message F → Option (Server F)
  handle_server s msg = elim msg.request_msg [
    | some values ↦ backup s msg
    | none ↦ respond_backup s msg.send_id
  ]

  unfoldable pub handle_request : Server F → ℤ → RequestMessage F → RequestType → Option (Server F)
  handle_request s sender_id body key_value = serve_push s sender_id body
  handle_request s sender_id body key = serve_pull s sender_id body
  handle_request s sender_id body ack = some s
  handle_request s sender_id body block = some s

  -- A message from any other node, by its type. An absent part of a message reads as its default:
  -- an empty push, an empty configuration.
  unfoldable pub handle_typed : (Addr → ℤ) → Server F → Message F → MessageType → Option (Server F)
  unfolding handle_request
  handle_typed zmq_close s msg request = elim msg.request_msg [
    | some body ↦ handle_request s msg.send_id body body.request_type
    | none ↦ serve_push s msg.send_id (record { request_type = key_value; keys = []; values = [] })
  ]
  handle_typed zmq_close s msg config = reconfigure zmq_close (config_of msg) s
  handle_typed zmq_close s msg heartbeat = some s
  handle_typed zmq_close s msg register = some s
  handle_typed zmq_close s msg terminate = some s

  unfoldable pub handle : (Addr → ℤ) → Server F → Message F → Option (Server F)
  unfolding handle_server handle_typed
  handle zmq_close s msg = elim (lookup msg.send_id s.servers) [
    | some index ↦ handle_server s msg
    | none ↦ handle_typed zmq_close s msg msg.message_type
  ]

  -- The loop of `Start`, over the messages in the order in which they are received.
  unfoldable pub start : (Addr → ℤ) → Server F → List (Message F) → Option (Server F)
  start zmq_close s [] = some s
  start zmq_close s (msg ∷ rest) = do s' ← handle zmq_close s msg; start zmq_close s' rest

module _ {F : Type 0} where
  -- `HeartBeat`: the answer to each heartbeat goes to node 0.
  unfoldable pub heart_beat : Server F → Message F → Server F
  heart_beat s received = record s {
    sender =
        send (pos 0)
          (record {
            send_id = s.local_id;
            recv_id = received.send_id;
            message_type = heartbeat;
            config_msg = none;
            request_msg = none;
            heartbeat_msg = some (record { is_live = true; agent_epoch_num = 0 });
            register_msg = none;
          })
          s.sender;
  }
