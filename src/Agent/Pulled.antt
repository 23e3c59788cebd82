-- ===== src/Agent/Pulled.antt =====
-- src/agent/agent.cc: Pull as a whole.
use plug_in_ml.Base.{
  ℕ, suc, ◌≤◌, ◌≡◌, refl, sym, ap, ◌∙◌, true, Option, some, List, [], ◌++◌, ℤ, length,
  length-append, length-take_le, take, take-length-append, drop, take-append-drop, All, ◌==◌, arith,
}
use mathlib.Core.Path.{subst}
use mathlib.Core.List.{Permᴰ}
use plug_in_ml.Message.{Message}
use plug_in_ml.Partition.Owner.{IsPartition, InRange}
use plug_in_ml.Agent.State.{Agent, ShmStruct, used_keys}
use plug_in_ml.Agent.Sort.{sort, sort_prefix}
use plug_in_ml.Agent.Pull.{Waiting, request_loop, pull}
use plug_in_ml.Agent.Deliver.{used_values}
use plug_in_ml.Agent.Collect.{reply_keys, reply_values, receive_loop-Holding}
use plug_in_ml.Agent.Requests.{NoneBefore, Requests, receivers, insert_all, request_loop-Requests}
use plug_in_ml.Agent.Arrivals.{Answer, IsComplete, IsComplete-Arrives, bodies, arriving}
use plug_in_ml.Agent.Sort.Order.{length-sort, sort-IsSorted, All-sort, sort-perm}
use plug_in_ml.Partition.Search.{IsSorted}

-- Parameters that can be pulled: `size` entries in both arrays, every key in the key range and none
-- before the first element of the partition.
pub record IsAsked {F : Type 0} (agent : Agent F) : Type 0 where
  pub some_keys : agent.parameters.size ≤ length agent.parameters.keys
  pub some_values : agent.parameters.size ≤ length agent.parameters.values
  pub ranged : All (InRange agent.partition.key_range) (used_keys agent.parameters)
  pub none_before : NoneBefore agent.partition (used_keys agent.parameters)

front :
    {A : Type 0} (n : ℕ) (xs : List A) {all : List A} (left : List A)
    → all ≡ xs ++ left
    → length xs ≡ n
    → take n all ≡ xs
front n xs left e count =
    ap (take n) e ∙ ap (λ m. take m (xs ++ left)) (sym count) ∙ take-length-append xs left

module _ {F : Type 0} where
  -- The parameters after the sort.
  abbrev pub sorted_keys : Agent F → ShmStruct F
  sorted_keys agent = record {
    size = agent.parameters.size;
    values = agent.parameters.values;
    keys = sort_prefix agent.parameters.size agent.parameters.keys;
  }

  pub used_keys-sorted :
      (agent : Agent F)
      → IsAsked agent
      → used_keys (sorted_keys agent) ≡ sort (used_keys agent.parameters)
  used_keys-sorted agent asked =
      let d = agent.parameters in
      let count : d.size ≡ length (sort (take d.size d.keys)) =
        omega
          (arith, length-sort (take d.size d.keys), length-take_le d.size d.keys asked.some_keys) in
      ap (λ n. take n (sort_prefix d.size d.keys)) count
      ∙ take-length-append (sort (take d.size d.keys)) (drop d.size d.keys)

  pub length-used_sorted :
      (agent : Agent F)
      → IsAsked agent
      → length (used_keys (sorted_keys agent)) ≡ agent.parameters.size
  length-used_sorted agent asked =
      let d = agent.parameters in
      omega (
        arith,
        ap length (used_keys-sorted agent asked),
        length-sort (take d.size d.keys),
        length-take_le d.size d.keys asked.some_keys,
      )

  pub length-sorted :
      (agent : Agent F)
      → IsAsked agent
      → length (sorted_keys agent).keys ≡ length agent.parameters.keys
  length-sorted agent asked =
      let d = agent.parameters in
      omega (
        arith,
        length-append (sort (take d.size d.keys)) (drop d.size d.keys),
        length-sort (take d.size d.keys),
        length-append (take d.size d.keys) (drop d.size d.keys),
        ap length (take-append-drop d.size d.keys),
      )

  pub used_keys-IsSorted :
      (agent : Agent F) → IsAsked agent → IsSorted (used_keys (sorted_keys agent))
  used_keys-IsSorted agent asked =
      subst IsSorted (sym (used_keys-sorted agent asked))
        (sort-IsSorted (used_keys agent.parameters))

  pub used_keys-All :
      (P : ℤ → Type 0) (agent : Agent F)
      → IsAsked agent
      → All P (used_keys agent.parameters)
      → All P (used_keys (sorted_keys agent))
  used_keys-All P agent asked h =
      subst (All P) (sym (used_keys-sorted agent asked)) (All-sort P (used_keys agent.parameters) h)

  pub used_sorted-perm :
      (agent : Agent F)
      → IsAsked agent
      → Permᴰ (used_keys (sorted_keys agent)) (used_keys agent.parameters)
  used_sorted-perm agent asked =
      subst (λ l. Permᴰ l (used_keys agent.parameters)) (sym (used_keys-sorted agent asked))
        (sort-perm (used_keys agent.parameters))

  -- What `Pull` sends.
  pub request_loop-sorted :
      (agent : Agent F)
      → IsPartition agent.partition
      → length agent.server_ids ≡ agent.partition.server_num
      → IsAsked agent
      → (messages : List (ℤ × Message F)) × (request_loop
            (suc agent.parameters.size)
            (record agent { parameters = sorted_keys agent })
            0
            []
            agent.sender
          ≡ some (
            insert_all (receivers messages) [],
            record agent.sender { sent = agent.sender.sent ++ messages },
          ))
        × Requests agent.partition agent.server_ids agent.local_id (sorted_keys agent) 0 messages
  request_loop-sorted agent v ids asked =
      let d = agent.parameters in
      request_loop-Requests (suc d.size) (record agent { parameters = sorted_keys agent }) 0 []
        agent.sender v ids (used_keys-IsSorted agent asked)
        (used_keys-All (InRange agent.partition.key_range) agent asked asked.ranged)
        (length-used_sorted agent asked) (omega arith) (omega arith)

  -- The pull is over when each server that was asked has answered once, in whatever order: the
  -- parameters in use are then the entries of the answers.
  pub pull-bodies :
      (agent : Agent F) (messages : List (ℤ × Message F)) (answers : List (Answer F))
      → IsAsked agent
      → request_loop
          (suc agent.parameters.size)
          (record agent { parameters = sorted_keys agent })
          0
          []
          agent.sender
        ≡ some (
          insert_all (receivers messages) [],
          record agent.sender { sent = agent.sender.sent ++ messages },
        )
      → IsComplete (insert_all (receivers messages) []) answers
      → length (reply_keys (bodies answers)) ≡ agent.parameters.size
      → (agent' : Agent F) × (rest : List (Option (Message F))) × (pull agent
            (arriving agent.local_id answers)
          ≡ some (some agent', rest))
        × (agent'.sender.sent ≡ agent.sender.sent ++ messages)
        × (used_keys agent'.parameters ≡ reply_keys (bodies answers))
        × (used_values agent'.parameters ≡ reply_values (bodies answers))
  unfolding pull
  pull-bodies agent messages answers asked sends c size =
      let d = agent.parameters in
      let w : Waiting F = record {
        servers = insert_all (receivers messages) [];
        cur = 0;
        keys = sort_prefix d.size d.keys;
        values = d.values;
      } in
      let received =
        receive_loop-Holding agent.local_id w.servers (arriving agent.local_id answers)
          (bodies answers) (IsComplete-Arrives agent.local_id w.servers answers c) w [] w.keys []
          d.values refl
          (record {
            all_keys = refl;
            all_values = refl;
            counted_keys = refl;
            counted_values = refl;
          })
          (omega (arith, size, asked.some_keys, length-sorted agent asked))
          (omega (arith, size, asked.some_values)) in
      let over : (length received.0.servers == 0) ≡ true = ground (arith, ap length received.3) in
      let h = received.4 in
      (
        record agent {
          sender = record agent.sender { sent = agent.sender.sent ++ messages };
          parameters = record {
            size = received.0.cur;
            values = received.0.values;
            keys = received.0.keys;
          };
        },
        received.1,
        rw (sends, received.2) (rw over refl),
        refl,
        front received.0.cur (reply_keys (bodies answers)) _ h.all_keys h.counted_keys,
        front received.0.cur (reply_values (bodies answers)) _ h.all_values h.counted_values,
      )
