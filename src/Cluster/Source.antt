-- ===== src/Cluster/Source.antt =====
-- src/agent/agent.cc, Pull, and src/server/server.cc, ServePull: one request of an agent at the
-- server that it goes to.
use plug_in_ml.Base.{
  ℕ, suc, ◌+◌, ◌-◌, ◌≤◌, ◌<◌, ◌≡◌, refl, sym, ap, ◌∙◌, Option, some, none, List, [], ◌∷◌, ℤ,
  get_elem?, get_elem?-drop, at-some, length, length-take_le, take, drop, All, All-get_elem?,
  lookup, arith,
}
use mathlib.Core.Path.{subst}
use plug_in_ml.Floats.{FloatOps}
use plug_in_ml.Message.{Addr, ConfigMessage, RequestMessage, RequestType}
use plug_in_ml.Communicator.{send}
use plug_in_ml.Partition.Owner.{InRange, Owns}
use plug_in_ml.Partition.Runs.{Run}
use plug_in_ml.Agent.State.{Agent, ShmStruct, used_keys}
use plug_in_ml.Agent.Push.{slice, request_message}
use plug_in_ml.Agent.Sort.Sorted.{zip}
use plug_in_ml.Agent.Requests.{pull_message}
use plug_in_ml.Agent.Arrivals.{Answer, answer_message}
use plug_in_ml.Server.KeyValueList.{KeyValueList}
use plug_in_ml.Server.State.{Server}
use plug_in_ml.Server.Pull.{read_pull, pull_index, serve_pull}
use plug_in_ml.Server.Answers.{Answers, Readable, serve_pull-Answers}
use plug_in_ml.Server.Handle.{handle, handle_typed, handle_request}
use plug_in_ml.Server.Range.{IsSpread, pull_index_in_segment}
use plug_in_ml.Cluster.Segment.{HasPlace, Run-Owns, All-of_get, get_elem?-take, take-get_elem?}

-- The server at place `i` of the configuration that the agent has, which knows the agent and has
-- fewer than `bound` of its updates waiting.
pub record IsSource {F : Type 0} (config : ConfigMessage) (agent : Agent F) (i : ℕ) (server_id : ℤ)
    (s : Server F) : Type 0 where
  pub has_place : HasPlace config i s
  pub same_range : s.key_range ≡ config.key_range
  pub sized : length s.parameters ≡ s.parameter_length
  pub own_id : s.local_id ≡ server_id
  pub no_server : lookup agent.local_id s.servers ≡ none
  pub index : ℕ
  pub known : lookup agent.local_id s.id_to_index ≡ some index
  pub buffer : List (KeyValueList F)
  pub waiting : get_elem? s.version_buffer index ≡ some buffer
  pub below : length buffer < s.consistency_bound

module _ {F : Type 0} where
  -- The value beside a key is the parameter that the server which holds the key has for it.
  abbrev pub IsHeld : (ℤ → Server F) → Agent F → ℤ × F → Type 0
  IsHeld cluster agent (key, value) =
      (i : ℕ) × (server_id : ℤ) × Owns agent.partition.part_vec key i
      × (get_elem? agent.server_ids i ≡ some server_id)
      × (read_pull (cluster server_id) key ≡ some value)

  Owns-Readable :
      (config : ConfigMessage) (agent : Agent F) (i : ℕ) (server_id key : ℤ) (s : Server F)
      → IsSpread config
      → IsSource config agent i server_id s
      → InRange config.key_range key
      → Owns config.partition key i
      → Readable (read_pull s) key
  unfolding read_pull
  Owns-Readable config agent i server_id key s c source inside owned =
      let inner =
        pull_index_in_segment config s i key c source.has_place.start source.same_range inside
          owned in
      let len : inner.0 ≡ s.parameter_length =
        some-eq (sym inner.1 ∙ source.has_place.length_field) in
      at-some s.parameters (pull_index s key) inner.2.0
        (omega (arith, inner.2.1, len, source.sized))
    where
      some-eq : {a b : ℕ} → some a ≡ some b → a ≡ b
      some-eq h = cc

  All-Readable :
      (config : ConfigMessage) (agent : Agent F) (i : ℕ) (server_id : ℤ) (s : Server F)
      (keys : List ℤ)
      → IsSpread config
      → IsSource config agent i server_id s
      → All (InRange config.key_range) keys
      → All (λ k. Owns config.partition k i) keys
      → All (Readable (read_pull s)) keys
  All-Readable config agent i server_id s [] c source h o = tt
  All-Readable config agent i server_id s (k ∷ ks) c source h o = (
    Owns-Readable config agent i server_id k s c source h.0 o.0,
    All-Readable config agent i server_id s ks c source h.1 o.1,
  )

  length-Answers :
      (read : ℤ → Option F) (keys : List ℤ) (values : List F)
      → Answers read keys values
      → length values ≡ length keys
  length-Answers read [] [] h = refl
  length-Answers read [] (v ∷ vs) h = elim h [ ]
  length-Answers read (k ∷ ks) [] h = elim h [ ]
  length-Answers read (k ∷ ks) (v ∷ vs) h = ap suc (length-Answers read ks vs h.1)

  Answers-IsHeld :
      (cluster : ℤ → Server F) (agent : Agent F) (i : ℕ) (server_id : ℤ) (keys : List ℤ)
      (values : List F)
      → get_elem? agent.server_ids i ≡ some server_id
      → All (λ k. Owns agent.partition.part_vec k i) keys
      → Answers (read_pull (cluster server_id)) keys values
      → All (IsHeld cluster agent) (zip keys values)
  Answers-IsHeld cluster agent i server_id [] [] id o h = tt
  Answers-IsHeld cluster agent i server_id [] (v ∷ vs) id o h = elim h [ ]
  Answers-IsHeld cluster agent i server_id (k ∷ ks) [] id o h = elim h [ ]
  Answers-IsHeld cluster agent i server_id (k ∷ ks) (v ∷ vs) id o h =
      ((i, server_id, o.0, id, h.0), Answers-IsHeld cluster agent i server_id ks vs id o.1 h.1)

slice-All :
    (P : ℤ → Type 0) (size start stop : ℕ) (keys : List ℤ)
    → stop ≤ size
    → All P (take size keys)
    → All P (slice start stop keys)
slice-All P size start stop keys h all = All-of_get P (slice start stop keys) λ j k e.
    let inside = get_elem?-take (stop - start) j (drop start keys) k e in
    All-get_elem? P (take size keys) (start + j) k all (
      take-get_elem? size (start + j) keys k (omega (arith, inside.0))
        (sym (get_elem?-drop start keys j) ∙ inside.1))

module _ {F : Type 0} ⦃ops : FloatOps F⦄ where
  handle-pull_message :
      (zmq_close : Addr → ℤ) (s : Server F) (local_id : ℤ) (d : ShmStruct F) (start stop : ℕ)
      (dst : ℤ)
      → lookup local_id s.servers ≡ none
      → handle zmq_close s (pull_message local_id d start stop dst)
        ≡ serve_pull s local_id
            (record { request_type = RequestType.key; keys = slice start stop d.keys; values = [] })
  unfolding handle handle_typed handle_request request_message
  handle-pull_message zmq_close s local_id d start stop dst e = rw (handle, e) refl

  -- A server handles the request for a run of its keys, and sends its answer.
  pub Run-answer :
      (zmq_close : Addr → ℤ) (config : ConfigMessage) (agent : Agent F) (cluster : ℤ → Server F)
      (d : ShmStruct F) (start stop i : ℕ) (dst : ℤ)
      → IsSpread config
      → agent.partition.part_vec ≡ config.partition
      → IsSource config agent i dst (cluster dst)
      → get_elem? agent.server_ids i ≡ some dst
      → d.size ≤ length d.keys
      → All (InRange config.key_range) (used_keys d)
      → Run agent.partition (used_keys d) start stop i
      → (a : Answer F) × (a.server_id ≡ dst)
        × (a.keys ≡ slice start stop d.keys)
        × (handle zmq_close (cluster dst) (pull_message agent.local_id d start stop dst)
            ≡ some (record (cluster dst) {
              sender = send agent.local_id (answer_message agent.local_id a) (cluster dst).sender;
            }))
        × All (IsHeld cluster agent) (zip a.keys a.values)
  Run-answer zmq_close config agent cluster d start stop i dst c cut source id fits ranged r =
      let s = cluster dst in
      let within : stop ≤ d.size = omega (arith, r.within, length-take_le d.size d.keys fits) in
      let owned = Run-Owns agent.partition d start stop i r within in
      let same = subst (λ vec. All (λ k. Owns vec k i) (slice start stop d.keys)) cut owned in
      let inside = slice-All (InRange config.key_range) d.size start stop d.keys within ranged in
      let request : RequestMessage F = record {
        request_type = RequestType.key;
        keys = slice start stop d.keys;
        values = [];
      } in
      let answer =
        serve_pull-Answers s agent.local_id request source.index source.known source.buffer
          source.waiting source.below
          (All-Readable config agent i dst s (slice start stop d.keys) c source inside same) in
      (
        record {
          server_id = s.local_id;
          keys = slice start stop d.keys;
          values = answer.0;
          paired = length-Answers (read_pull s) (slice start stop d.keys) answer.0 answer.2;
        },
        source.own_id,
        refl,
        handle-pull_message zmq_close s agent.local_id d start stop dst source.no_server ∙ answer.1,
        Answers-IsHeld cluster agent i dst (slice start stop d.keys) answer.0 id owned answer.2,
      )
