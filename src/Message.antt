-- ===== src/Message.antt =====
-- src/message/message.proto, as the code uses it. A message is a value: that parsing inverts
-- serialising is protobuf's promise. A `repeated` field is a list, an optional message an `Option`.
-- Keys, ids and partition elements are signed integers; counts (numbers of nodes, the key range,
-- the bound, ports) are natural numbers. An address is the bytes of `<ip>:<port>`.
use plug_in_ml.Base.{ℕ, Bool, false, Option, none, some, List, [], ℤ}

abbrev pub Addr : Type 0
Addr = List ℕ

pub data MessageType : Type 0 where
  config request heartbeat register terminate : MessageType

pub data RequestType : Type 0 where
  key_value key ack block : RequestType

pub record RequestMessage (F : Type 0) : Type 0 where
  pub request_type : RequestType
  pub keys : List ℤ
  pub values : List F

pub record ConfigMessage : Type 0 where
  pub worker_num : ℕ
  pub server_num : ℕ
  pub key_range : ℕ
  pub node_ip_port : List Addr
  pub partition : List ℤ
  pub backup_size : ℕ
  pub server_id : List ℤ
  pub worker_id : List ℤ
  pub master_id : List ℤ
  pub bound : ℕ

pub record RegisterMessage : Type 0 where
  pub ip : Addr
  pub port : ℕ
  pub is_server : Bool

pub record HeartbeatMessage : Type 0 where
  pub is_live : Bool
  pub agent_epoch_num : ℕ

pub record Message (F : Type 0) : Type 0 where
  pub send_id : ℤ
  pub recv_id : ℤ
  pub message_type : MessageType
  pub config_msg : Option ConfigMessage
  pub request_msg : Option (RequestMessage F)
  pub heartbeat_msg : Option HeartbeatMessage
  pub register_msg : Option RegisterMessage

-- The default instances, which `config_msg()` and `register_msg()` of a message without one return.
abbrev pub default_config : ConfigMessage
default_config = record {
  worker_num = 0;
  server_num = 0;
  key_range = 0;
  node_ip_port = [];
  partition = [];
  backup_size = 0;
  server_id = [];
  worker_id = [];
  master_id = [];
  bound = 0;
}

abbrev pub config_of : {F : Type 0} → Message F → ConfigMessage
config_of msg = elim msg.config_msg [ none ↦ default_config | some c ↦ c ]

abbrev pub register_of : {F : Type 0} → Message F → RegisterMessage
register_of msg = elim msg.register_msg [
  | none ↦ record { ip = []; port = 0; is_server = false }
  | some r ↦ r
]
