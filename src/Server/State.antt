-- ===== src/Server/State.antt =====
-- src/server/server.h: the fields of `Server`, and the map `id_to_index_`.
use plug_in_ml.Base.{ℕ, some, none, List, [], ℤ, pos, length, replicate, lookup, insert}
use plug_in_ml.Message.{Addr, Message}
use plug_in_ml.Communicator.{Sender, fresh_sender}
use plug_in_ml.Server.KeyValueList.{KeyValueList}
use plug_in_ml.Server.PullInfo.{PullInfo}

-- `agent_ids_` is a set, kept in the order of insertion.
pub record Server (F : Type 0) : Type 0 where
  pub sender : Sender (Message F)
  pub local_address : Addr
  pub local_index : ℕ
  pub local_id : ℤ
  pub start_key : ℤ
  pub parameter_length : ℕ
  pub consistency_bound : ℕ
  pub bottom_version : ℕ
  pub agent_num : ℕ
  pub server_num : ℕ
  pub key_range : ℕ
  pub backup_size : ℕ
  pub master_ids : List ℤ
  pub server_ids : List ℤ
  pub servers : List (ℤ × ℕ)
  pub agent_ids : List ℤ
  pub parameters : List F
  pub backup_parameters : List (List F)
  pub version_buffer : List (List (KeyValueList F))
  pub finish_count : List ℕ
  pub pull_request : List PullInfo
  pub id_to_index : List (ℤ × ℕ)

-- A server before `Initialize`; the containers are empty.
abbrev pub blank : {F : Type 0} → Server F
blank = record {
  sender = fresh_sender;
  local_address = [];
  local_index = 0;
  local_id = pos 0;
  start_key = pos 0;
  parameter_length = 0;
  consistency_bound = 0;
  bottom_version = 0;
  agent_num = 0;
  server_num = 0;
  key_range = 0;
  backup_size = 0;
  master_ids = [];
  server_ids = [];
  servers = [];
  agent_ids = [];
  parameters = [];
  backup_parameters = [];
  version_buffer = [];
  finish_count = [];
  pull_request = [];
  id_to_index = [];
}

-- What a message other than a configuration leaves alone: the server without what was sent, the
-- parameters, the copies but for how many, and the state of the rounds.
abbrev pub fixed : {F : Type 0} → Server F → Server F
fixed s = record s {
  sender = fresh_sender;
  bottom_version = 0;
  parameters = [];
  backup_parameters = replicate (length s.backup_parameters) [];
  version_buffer = [];
  finish_count = [];
  pull_request = [];
}

-- `m[id]` of a map into numbers: a missing id is first inserted with 0.
unfoldable pub touch : ℤ → List (ℤ × ℕ) → List (ℤ × ℕ)
touch id m = insert id 0 m

unfoldable pub index_of : ℤ → List (ℤ × ℕ) → ℕ
index_of id m = elim (lookup id m) [ none ↦ 0 | some i ↦ i ]
