-- ===== src/Agent/State.antt =====
-- src/channel/shared_memory.h, `shmstruct`, and src/agent/agent.h, the fields of `Agent`.
use plug_in_ml.Base.{ℕ, Option, none, some, List, ℤ, length, set, ltb, take, if◌then◌else◌}
use plug_in_ml.Message.{Addr, Message}
use plug_in_ml.Communicator.{Sender}
use plug_in_ml.Partition.{Partition}

-- `int32 keys[100]` and `float32 values[100]`; the first `size` entries are in use.
pub record ShmStruct (F : Type 0) : Type 0 where
  pub size : ℕ
  pub values : List F
  pub keys : List ℤ

-- A write into an array: `none` where the index is out of range.
unfoldable pub put {ℓ} : {A : Type ℓ} → List A → ℕ → A → Option (List A)
put xs i v = if ltb i (length xs) then some (set xs i v) else none

-- `para_memory` is what `para_memory_` shows the worker; `signals` are the values written to
-- `para_fifo_`, oldest first. `reconfig_msg_` is null or a message.
pub record Agent (F : Type 0) : Type 0 where
  pub local_id : ℤ
  pub local_ip : Addr
  pub listen_port : ℕ
  pub agent_num : ℕ
  pub server_num : ℕ
  pub key_range : ℕ
  pub epoch_num : ℕ
  pub server_ids : List ℤ
  pub master_ids : List ℤ
  pub sender : Sender (Message F)
  pub gradients : ShmStruct F
  pub parameters : ShmStruct F
  pub para_memory : ShmStruct F
  pub signals : List ℕ
  pub partition : Partition
  pub reconfig_msg : Option (Message F)

-- The keys in use, `std::vector<int>(keys, keys + size)`.
abbrev pub used_keys : {F : Type 0} → ShmStruct F → List ℤ
used_keys d = take d.size d.keys
