-- ===== src/Server/Push.antt =====
-- src/server/server.cc: ServePush. An update is put into its agent's buffer; when every agent has
-- one, the round is finished: the parameters are updated, the waiting pulls are answered and the
-- predecessors are asked for their parameters.
use plug_in_ml.Base.{
  ℕ, suc, Option, some, List, [], ◌∷◌, ◌++◌, ℤ, get_elem?, set, length, leb, ◌==◌, contains, for,
  ◌>>=◌, if◌then◌else◌, tail,
}
use plug_in_ml.Floats.{FloatOps}
use plug_in_ml.Message.{RequestMessage}
use plug_in_ml.Server.KeyValueList
use plug_in_ml.Server.KeyValueList.{KeyValueList}
use plug_in_ml.Server.State.{Server, index_of, touch}
use plug_in_ml.Server.Update.{update_parameter}
use plug_in_ml.Server.Pull.{respond_to_all}
use plug_in_ml.Server.Backup.{request_backup}

-- `finish_count_[n]++`
unfoldable pub count_finished : ℕ → List ℕ → Option (List ℕ)
count_finished n counts = do count ← get_elem? counts n; some (set counts n (suc count))

module _ {F : Type 0} where
  unfoldable pub add_update_pair : RequestMessage F → ℕ → KeyValueList F → Option (KeyValueList F)
  add_update_pair request i worker_update = do
    key ← get_elem? request.keys i
    value ← get_elem? request.values i
    some (KeyValueList.add_pair key value worker_update)

  unfoldable pub read_update : RequestMessage F → Option (KeyValueList F)
  read_update request = for (length request.keys) 0 (add_update_pair request) KeyValueList.new

  -- The first half of `ServePush`: a full buffer refuses the update.
  unfoldable pub store_update : Server F → ℤ → RequestMessage F → Option (Server F)
  unfolding count_finished
  store_update s sender_id request = do
    let ids = touch sender_id s.id_to_index
    let index = index_of sender_id ids
    buffer ← get_elem? s.version_buffer index
    if leb s.consistency_bound (length buffer) then some (record s { id_to_index = ids }) else (do
      counts ← count_finished (length buffer) s.finish_count
      update ← read_update request
      some (record s {
        id_to_index = ids;
        finish_count = counts;
        version_buffer = set s.version_buffer index (buffer ++ update ∷ []);
      }))

module _ {F : Type 0} ⦃ops : FloatOps F⦄ where
  unfoldable pub end_round : Server F → Option (Server F)
  end_round s = do
    updated ← update_parameter s
    answered ← respond_to_all updated
    request_backup answered

  -- The second half: `finish_count_[0] == agent_num_` ends the round.
  unfoldable pub finish_round : Server F → Option (Server F)
  finish_round s = do
    first ← get_elem? s.finish_count 0
    if first == s.agent_num
        then end_round (record s { finish_count = tail s.finish_count ++ 0 ∷ [] })
        else some s

  unfoldable pub serve_push : Server F → ℤ → RequestMessage F → Option (Server F)
  unfolding store_update finish_round
  serve_push s sender_id request =
      if contains sender_id s.agent_ids
      then (store_update s sender_id request >>= finish_round)
      else some s
