-- ===== src/Server/Backup.antt =====
-- src/server/server.cc: RequestBackup, Backup, RespondBackup and ExtendParameter, by which servers
-- keep copies of their predecessors' parameters.
use plug_in_ml.Base.{
  ℕ, zero, suc, ◌+◌, ◌-◌, ◌%◌, Option, some, none, List, [], ◌++◌, ℤ, pos, ◌+ℤ◌, get_elem?, set,
  length, replicate, ◌==◌, for, ◌>>=◌, if◌then◌else◌,
}
use plug_in_ml.Message.{Message, MessageType}
use plug_in_ml.Communicator.{send}
use plug_in_ml.Floats.{FloatOps, zero_value}
use plug_in_ml.Server.State.{Server, index_of, touch}
use plug_in_ml.Server.Pull.{key_value_reply, add_entry}

module _ {F : Type 0} where
  unfoldable pub backup_request : ℤ → ℤ → Message F
  backup_request send_id recv_id = record {
    send_id = send_id;
    recv_id = recv_id;
    message_type = MessageType.request;
    config_msg = none;
    request_msg = none;
    heartbeat_msg = none;
    register_msg = none;
  }

  -- The server `i` places before this one, counted round.
  unfoldable pub predecessor : Server F → ℕ → ℕ
  predecessor s i = (s.local_index + s.server_num - i) % s.server_num

  -- Where `i` is more than the index and the number of servers together, the C remainder is not
  -- positive: unless it is 0, the index is out of range.
  unfoldable pub request_backup_from : ℕ → Server F → Option (Server F)
  request_backup_from i s = do
    target ←
        if (i - (s.local_index + s.server_num)) % s.server_num == 0
        then some (predecessor s i)
        else none
    server_id ← get_elem? s.server_ids target
    some (record s { sender = send server_id (backup_request s.local_id server_id) s.sender })

  unfoldable pub request_backup : Server F → Option (Server F)
  request_backup s = for s.backup_size 1 request_backup_from s

  -- The place of a server's copy: 0 for the nearest predecessor.
  unfoldable pub backup_index : Server F → ℤ → ℕ
  backup_index s server_id =
      (s.local_index + s.server_num - 1 - index_of server_id s.servers) % s.server_num

  -- `RespondBackup`: all keys and values of this server.
  unfoldable pub respond_backup : Server F → ℤ → Option (Server F)
  respond_backup s server_id = do
    (keys, values) ←
        for s.parameter_length 0
          (λ i. add_entry (λ j. some (s.start_key +ℤ pos j)) (λ key. get_elem? s.parameters i) i)
          ([], [])
    some (record s {
      sender = send server_id (key_value_reply s.local_id server_id keys values) s.sender;
    })

  -- `ExtendParameter`: copies are put before the parameters until the length is right. The loop
  -- over the copies, from the nearest predecessor on.
  unfoldable pub extend_with : ℕ → ℕ → List (List F) → ℕ → List F → Option (List F)
  extend_with zero i backups target parameters = some parameters
  extend_with (suc n) i backups target parameters =
      let rest =
        get_elem? backups i >>= λ copy. extend_with n (suc i) backups target (copy ++ parameters) in
      if length parameters == target then some parameters else rest

  unfoldable pub extend_parameter : Server F → Option (Server F)
  unfolding extend_with
  extend_parameter s = do
    parameters ← extend_with s.backup_size 0 s.backup_parameters s.parameter_length s.parameters
    some (record s { parameters = parameters })

module _ {F : Type 0} ⦃ops : FloatOps F⦄ where
  -- `backup_parameters_[server_index][i] = request.values(i)`
  unfoldable pub copy_value : List F → ℕ → List F → Option (List F)
  copy_value values i copy = do
    value ← get_elem? values i
    old ← get_elem? copy i
    some (set copy i value)

  -- `Backup`: the values of a server's reply are written over the copy, which is first made anew
  -- if its size differs. `servers_[server_id]` of an id that is not there is inserted with 0.
  unfoldable pub backup : Server F → Message F → Option (Server F)
  backup s msg = do
    request ← msg.request_msg
    let index = backup_index s msg.send_id
    old ← get_elem? s.backup_parameters index
    let size = length request.values
    copy ←
        for size 0 (copy_value request.values)
          (if length old == size then old else replicate size zero_value)
    some (record s {
      servers = touch msg.send_id s.servers;
      backup_parameters = set s.backup_parameters index copy;
    })
