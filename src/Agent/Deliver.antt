-- ===== src/Agent/Deliver.antt =====
-- src/agent/agent.cc: Push on any gradients, the sort included.
use plug_in_ml.Base.{ℕ, ◌≤◌, ◌≡◌, some, List, ◌++◌, ℤ, length, take, All, Distinct, arith}
use mathlib.Core.List.{Perm}
use plug_in_ml.Message.{Message}
use plug_in_ml.Partition.Owner.{IsPartition, InRange}
use plug_in_ml.Agent.State.{Agent, ShmStruct, used_keys}
use plug_in_ml.Agent.Sort.Sorted.{zip, sort_key_value-Sorts}
use plug_in_ml.Agent.Push.{push}
use plug_in_ml.Agent.Blocks.{Blocks, carried_keys, carried_values, push-Blocks}

-- The values in use.
abbrev pub used_values : {F : Type 0} → ShmStruct F → List F
used_values d = take d.size d.values

-- Gradients that can be pushed: `size` entries in both arrays, and no key twice.
pub record IsGradient {F : Type 0} (key_range : ℕ) (d : ShmStruct F) : Type 0 where
  pub some_keys : d.size ≤ length d.keys
  pub some_values : d.size ≤ length d.values
  pub distinct : Distinct (used_keys d)
  pub ranged : All (InRange key_range) (used_keys d)

-- What `Push` sent: the pairs of the gradients, each once, in messages whose keys all belong to the
-- server that the message goes to.
pub record Delivers {F : Type 0} (agent : Agent F) (d : ShmStruct F)
    (messages : List (ℤ × Message F)) : Type 0 where
  pub carried :
      Perm
        (zip (carried_keys messages) (carried_values messages))
        (zip (used_keys agent.gradients) (used_values agent.gradients))
  pub some_keys : d.size ≤ length d.keys
  pub some_values : d.size ≤ length d.values
  pub blocks : Blocks agent.partition agent.server_ids agent.local_id d 0 messages

-- `Push` with at least one server, one ascending element of the partition and one id for each, and
-- gradients without a key twice, every key in the key range: it succeeds, changes nothing but the
-- order of the gradients, and sends each pair of a key and its value exactly once, to the server
-- that holds the key.
pub push-Delivers :
    {F : Type 0} (agent : Agent F)
    → IsPartition agent.partition
    → length agent.server_ids ≡ agent.partition.server_num
    → IsGradient agent.partition.key_range agent.gradients
    → (d : ShmStruct F) × (messages : List (ℤ × Message F)) × (push agent
        ≡ some (record agent {
          gradients = d;
          sender = record agent.sender { sent = agent.sender.sent ++ messages };
        }))
      × Delivers agent d messages
push-Delivers agent v ids g =
    let d = agent.gradients in
    let sorts =
      sort_key_value-Sorts (InRange agent.partition.key_range) d.keys d.values d.size g.some_keys
        g.some_values g.distinct g.ranged in
    let s = sorts.3 in
    let pushed =
      push-Blocks agent sorts.0 sorts.1 sorts.2 v ids s.sorted sorts.4
        (omega (arith, g.some_keys, s.keys_length)) in
    (
      record { size = d.size; values = sorts.1; keys = sorts.0 },
      pushed.0,
      pushed.1,
      record {
        carried = rw (pushed.2, pushed.3) s.same;
        blocks = pushed.4;
        some_keys = omega (arith, g.some_keys, s.keys_length);
        some_values = omega (arith, g.some_values, s.values_length);
      },
    )
