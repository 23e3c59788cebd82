-- ===== src/Cluster/Push.antt =====
-- src/agent/agent.cc, Push, and src/server/server.cc, ServePush: a message of an agent at the server
-- that it goes to.
use plug_in_ml.Base.{
  ℕ, suc, ◌≤◌, ◌<◌, ◌≡◌, refl, ◌∙◌, some, List, [], ◌∷◌, ℤ, get_elem?, length, All, inl, inr,
  lookup, ◌++◌, none, ap, ==ℤ→eq, Bool-cases, if◌then◌else◌, ◌==ℤ◌,
}
use mathlib.Core.Path.{subst}
use plug_in_ml.Message.{Addr, Message, ConfigMessage}
use plug_in_ml.Floats.{FloatOps}
use plug_in_ml.Partition.Owner.{IsPartition}
use plug_in_ml.Partition.Runs.{Run}
use plug_in_ml.Agent.State.{Agent, ShmStruct, used_keys}
use plug_in_ml.Agent.Push.{request_message, push_message, push}
use plug_in_ml.Agent.Blocks.{Blocks, block, finished}
use plug_in_ml.Agent.Deliver.{IsGradient, push-Delivers}
use plug_in_ml.Server.Serving.{IsServing}
use plug_in_ml.Server.Handle.{start}
use plug_in_ml.Server.Steps.{Expected, a_push, start-IsServing}
use plug_in_ml.Server.State.{Server}
use plug_in_ml.Server.Range.{IsSpread}
use plug_in_ml.Cluster.Segment.{HasPlace, run_request, Run-Fits}

-- The messages for one node, in the order in which they were sent.
pub sent_to : {F : Type 0} → ℤ → List (ℤ × Message F) → List (Message F)
sent_to id [] = []
sent_to id ((dst, msg) ∷ rest) =
    let more = sent_to id rest in if dst ==ℤ id then msg ∷ more else more

-- The server at place `i` of the configuration that the agent has, before the last place; no other
-- server has its id, and the agent is not one of the servers.
pub record IsPeer {F : Type 0} (config : ConfigMessage) (agent : Agent F) (i : ℕ) (server_id : ℤ)
    (s : Server F) : Type 0 where
  pub spread : IsSpread config
  pub same_parts : agent.partition.part_vec ≡ config.partition
  pub inner : suc i < config.server_num
  pub has_place : HasPlace config i s
  pub only_place : (j : ℕ) → get_elem? agent.server_ids j ≡ some server_id → j ≡ i
  pub no_server : lookup agent.local_id s.servers ≡ none

module _ {F : Type 0} where
  block-Expected :
      (config : ConfigMessage) (agent : Agent F) (d : ShmStruct F) (s : Server F)
      (start_index stop i : ℕ) (server_id dst : ℤ)
      → IsPeer config agent i server_id s
      → d.size ≤ length d.keys
      → d.size ≤ length d.values
      → Run agent.partition (used_keys d) start_index stop i
      → Expected s (push_message agent.local_id d start_index stop dst)
  unfolding request_message
  block-Expected config agent d s start_index stop i server_id dst peer nk nv run =
      a_push (run_request d start_index stop) peer.no_server refl refl refl (
        Run-Fits config agent.partition d s start_index stop i peer.spread peer.same_parts
          peer.has_place peer.inner nk nv run)

  Blocks-Expected :
      (config : ConfigMessage) (agent : Agent F) (d : ShmStruct F) (s : Server F) (i : ℕ)
      (server_id : ℤ) (start_index : ℕ) (messages : List (ℤ × Message F))
      → IsPeer config agent i server_id s
      → d.size ≤ length d.keys
      → d.size ≤ length d.values
      → Blocks agent.partition agent.server_ids agent.local_id d start_index messages
      → All (Expected s) (sent_to server_id messages)
  unfolding sent_to
  Blocks-Expected config agent d s i server_id start_index [] peer nk nv (finished _ e) = tt
  Blocks-Expected config agent d s i server_id start_index _ peer nk nv
        (block _ stop j dst rest run id more) =
      let tail = Blocks-Expected config agent d s i server_id stop rest peer nk nv more in
      elim (Bool-cases (dst ==ℤ server_id)) [
        | inl same ↦
            let place = peer.only_place j (id ∙ ap some (==ℤ→eq dst server_id same)) in
            let owned = subst (Run agent.partition (used_keys d) start_index stop) place run in
            rw same (
              block-Expected config agent d s start_index stop i server_id dst peer nk nv owned,
              tail,
            )
        | inr other ↦ rw other tail
      ]

module _ {F : Type 0} ⦃ops : FloatOps F⦄ where
  -- An agent's `Push` of gradients without a key twice, and a server that serves, at a place before
  -- the last one of the configuration that both have: the push succeeds, and the server handles all
  -- messages that come to it from this push, reads nothing out of range, and serves on.
  pub push-start :
      (zmq_close : Addr → ℤ) (config : ConfigMessage) (agent : Agent F) (i : ℕ) (server_id : ℤ)
      (s : Server F)
      → IsPartition agent.partition
      → length agent.server_ids ≡ agent.partition.server_num
      → IsGradient agent.partition.key_range agent.gradients
      → IsPeer config agent i server_id s
      → IsServing s
      → (agent' : Agent F) × (messages : List (ℤ × Message F)) × (push agent ≡ some agent')
        × (agent'.sender.sent ≡ agent.sender.sent ++ messages)
        × ((s' : Server F) × (start zmq_close s (sent_to server_id messages) ≡ some s')
            × IsServing s')
  push-start zmq_close config agent i server_id s v ids g peer serving =
      let pushed = push-Delivers agent v ids g in
      let d = pushed.0 in
      let messages = pushed.1 in
      let sent = pushed.3 in
      let done = start-IsServing zmq_close s (sent_to server_id messages) serving (
        Blocks-Expected config agent d s i server_id 0 messages peer sent.some_keys sent.some_values
          sent.blocks) in
      (_, messages, pushed.2, refl, (done.0, done.1, done.2))
