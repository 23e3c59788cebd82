-- ===== src/Cluster/Pull.antt =====
-- src/agent/agent.cc, Pull, and src/server/server.cc, ServePull: the requests of an agent at the
-- servers that they go to, and the answers.
use plug_in_ml.Base.{
  ℕ, ◌≤◌, ◌≡◌, refl, sym, ap, ap₂, ◌∙◌, Bool, true, false, ◌||◌, ◌≤ℤ◌, contains, Option, some, List,
  [], ◌∷◌, ◌++◌, ℤ, get_elem?, length, All, Distinct, arith,
}
use mathlib.Core.Path.{subst}
use mathlib.Core.List.{Permᴰ}
use mathlib.Core.List.Permᴰ
use plug_in_ml.Floats.{FloatOps}
use plug_in_ml.Message.{Addr, Message, ConfigMessage}
use plug_in_ml.Communicator.{send}
use plug_in_ml.Partition.Owner.{IsPartition, InRange, part}
use plug_in_ml.Agent.State.{Agent, ShmStruct, used_keys}
use plug_in_ml.Agent.Push.{slice}
use plug_in_ml.Agent.Pull.{pull}
use plug_in_ml.Agent.Blocks.{slice_split, slice-same, slice-zero}
use plug_in_ml.Agent.Deliver.{used_values}
use plug_in_ml.Agent.Sort.Sorted.{zip}
use plug_in_ml.Agent.Collect.{reply_keys}
use plug_in_ml.Agent.Requests.{
  Requests, finished, run, receivers, pull_message, insert_all, Requests-Distinct,
  contains-insert_all,
}
use plug_in_ml.Agent.Arrivals.{
  Answer, answer_message, bodies, senders, arriving, IsComplete, IsComplete-perm, length-bodies,
  All-bodies, All-perm, length-perm, reply_keys-perm,
}
use plug_in_ml.Agent.Pulled.{
  IsAsked, sorted_keys, length-used_sorted, length-sorted, used_keys-IsSorted, used_keys-All,
  used_sorted-perm, request_loop-sorted, pull-bodies,
}
use plug_in_ml.Server.State.{Server}
use plug_in_ml.Server.Handle.{handle}
use plug_in_ml.Server.Range.{IsSpread}
use plug_in_ml.Cluster.Source.{IsSource, IsHeld, Run-answer}

or_none : (b : Bool) → (b || false) ≡ b
or_none true = refl
or_none false = refl

module _ {F : Type 0} ⦃ops : FloatOps F⦄ where
  -- Each request at the server that it goes to: the server handles it, changes nothing, and sends
  -- the agent one message, its answer.
  pub data Answered (zmq_close : Addr → ℤ) (cluster : ℤ → Server F) (local_id : ℤ)
      : List (ℤ × Message F) → List (Answer F) → Type 0 where
    none_left : Answered zmq_close cluster local_id [] []
    answered :
        (dst : ℤ) (msg : Message F) (rest : List (ℤ × Message F)) (a : Answer F)
        (answers : List (Answer F))
        → a.server_id ≡ dst
        → handle zmq_close (cluster dst) msg
          ≡ some (record (cluster dst) {
            sender = send local_id (answer_message local_id a) (cluster dst).sender;
          })
        → Answered zmq_close cluster local_id rest answers
        → Answered zmq_close cluster local_id ((dst, msg) ∷ rest) (a ∷ answers)

  Requests-Answered :
      (zmq_close : Addr → ℤ) (config : ConfigMessage) (agent : Agent F) (cluster : ℤ → Server F)
      (d : ShmStruct F) (start : ℕ) (messages : List (ℤ × Message F))
      → IsSpread config
      → agent.partition.part_vec ≡ config.partition
      → ((i : ℕ) (dst : ℤ)
          → get_elem? agent.server_ids i ≡ some dst
          → IsSource config agent i dst (cluster dst))
      → d.size ≤ length d.keys
      → All (InRange config.key_range) (used_keys d)
      → Requests agent.partition agent.server_ids agent.local_id d start messages
      → (answers : List (Answer F)) × Answered zmq_close cluster agent.local_id messages answers
        × (senders answers ≡ receivers messages)
        × (reply_keys (bodies answers) ≡ slice start d.size d.keys)
        × All (λ a. All (IsHeld cluster agent) (zip a.keys a.values)) answers
        × (start ≤ d.size)
  unfolding senders receivers reply_keys bodies
  Requests-Answered zmq_close config agent cluster d start [] c cut sources fits ranged
        (finished _ e) =
      ([], none_left, refl, sym (slice-same start d.size d.keys e), tt, omega arith)
  Requests-Answered zmq_close config agent cluster d start _ c cut sources fits ranged
        (run _ stop i dst rest r id more) =
      let a =
        Run-answer zmq_close config agent cluster d start stop i dst c cut (sources i dst id) id
          fits ranged r in
      let later =
        Requests-Answered zmq_close config agent cluster d stop rest c cut sources fits ranged
          more in
      (
        a.0 ∷ later.0,
        answered dst (pull_message agent.local_id d start stop dst) rest a.0 later.0 a.1 a.3
            later.1,
        ap₂ ◌∷◌ a.1 later.2,
        ap₂ (λ x y. x ++ y) a.2 later.3
            ∙ sym (slice_split start stop d.size d.keys (omega (arith, r.progress)) later.5),
        (a.4, later.4),
        omega (arith, r.progress, later.5),
      )

  asked-IsComplete :
      (ids : List ℤ) (answers : List (Answer F))
      → senders answers ≡ ids
      → Distinct ids
      → IsComplete (insert_all ids []) answers
  unfolding contains
  asked-IsComplete ids answers same once = record {
    once = subst Distinct (sym same) once;
    same =
        λ x. contains-insert_all x ids [] ∙ or_none (contains x ids) ∙ ap (contains x) (sym same);
  }

  -- An agent's `Pull`, with the configuration that the servers have too, no id of a server twice, and
  -- keys of the key range from the first element of the partition on; at each place of the list a
  -- server with its parameters that has fewer than `bound` updates of this agent waiting. `Pull`
  -- sends requests that the servers answer at once, none of them twice; whatever order the answers
  -- arrive in, `Pull` ends, and the parameters in use are then the keys that were asked for, each as
  -- often as it was, in some order, and beside each key the value that the server which holds it has.
  pub pull-Answered :
      (zmq_close : Addr → ℤ) (config : ConfigMessage) (agent : Agent F) (cluster : ℤ → Server F)
      (arrange : List (Answer F) → List (Answer F))
      → IsSpread config
      → IsPartition agent.partition
      → agent.partition.part_vec ≡ config.partition
      → agent.partition.key_range ≡ config.key_range
      → length agent.server_ids ≡ agent.partition.server_num
      → Distinct agent.server_ids
      → IsAsked agent
      → ((i : ℕ) (dst : ℤ)
          → get_elem? agent.server_ids i ≡ some dst
          → IsSource config agent i dst (cluster dst))
      → ((answers : List (Answer F)) → Permᴰ (arrange answers) answers)
      → (agent' : Agent F) × (rest : List (Option (Message F))) × (messages : List (ℤ × Message F))
        × (answers : List (Answer F)) × (pull agent (arriving agent.local_id (arrange answers))
            ≡ some (some agent', rest))
        × (agent'.sender.sent ≡ agent.sender.sent ++ messages)
        × Answered zmq_close cluster agent.local_id messages answers
        × Permᴰ (used_keys agent'.parameters) (used_keys agent.parameters)
        × (length (used_values agent'.parameters) ≡ length (used_keys agent'.parameters))
        × All
            (IsHeld cluster agent)
            (zip (used_keys agent'.parameters) (used_values agent'.parameters))
  pull-Answered zmq_close config agent cluster arrange c v cut range ids once asked sources
        arranged =
      let d = sorted_keys agent in
      let sends = request_loop-sorted agent v ids asked in
      let messages = sends.0 in
      let ranged = subst (λ n. All (InRange n) (used_keys agent.parameters)) range asked.ranged in
      let got =
        Requests-Answered zmq_close config agent cluster d 0 messages c cut sources
          (omega (arith, length-sorted agent asked, asked.some_keys))
          (used_keys-All (InRange config.key_range) agent asked ranged) sends.2 in
      let answers = got.0 in
      let order = arranged answers in
      let all_keys : reply_keys (bodies answers) ≡ used_keys d = got.3 ∙ slice-zero d.size d.keys in
      let no_twice =
        Requests-Distinct agent.partition agent.server_ids agent.local_id d v
          (used_keys-IsSorted agent asked)
          (used_keys-All (λ k. part agent.partition.part_vec 0 ≤ℤ k) agent asked asked.none_before)
          once 0 messages sends.2 in
      let asked_servers = asked-IsComplete (receivers messages) answers got.2 no_twice in
      let keys_perm = reply_keys-perm order in
      let pulled =
        pull-bodies agent messages (arrange answers) asked sends.1
          (IsComplete-perm (insert_all (receivers messages) []) order asked_servers)
          (omega
            (arith, length-perm keys_perm, ap length all_keys, length-used_sorted agent asked)) in
      let same_keys = pulled.4 in
      let same_values = pulled.5 in
      (
        pulled.0,
        pulled.1,
        messages,
        answers,
        pulled.2,
        pulled.3,
        got.1,
        rw same_keys (Permᴰ.trans keys_perm (rw all_keys (used_sorted-perm agent asked))),
        rw (same_keys, same_values) (length-bodies (arrange answers)),
        rw (same_keys, same_values)
            (All-bodies (IsHeld cluster agent) (arrange answers) (
              All-perm (λ a. All (IsHeld cluster agent) (zip a.keys a.values)) (Permᴰ.symm order)
                got.4)),
      )
