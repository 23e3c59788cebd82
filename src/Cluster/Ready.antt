-- ===== src/Cluster/Ready.antt =====
-- src/master/master.cc, MainLoop, and src/server/server.cc, Initialize: the configuration of a cluster
-- that has become ready, at its servers.
use plug_in_ml.Base.{
  ℕ, ◌<◌, ◌-◌, ◌≤ℤ◌, ◌<ℤ◌, pos, All, ◌≡◌, sym, ap, ◌∙◌, true, some, List, [], ◌++◌, ℤ, length,
  contains, arith,
}
use mathlib.Core.Path.{subst}
use plug_in_ml.Partition.Owner.{InRange}
use plug_in_ml.Floats.{FloatOps}
use plug_in_ml.Message.{Addr}
use plug_in_ml.Agent.Sort.{sort}
use plug_in_ml.Master.TaskConfig.{TaskConfig, draws, generate_partition, ready, to_message}
use plug_in_ml.Agent.Sort.Order.{length-sort, sort-IsSorted, All-sort}
use plug_in_ml.Master.Cut.{length-draws, All-draws}
use plug_in_ml.Master.Fix.{IsAligned}
use plug_in_ml.Master.Registered.{
  IsRegistered, message_of, to_message-IsRegistered, generated-IsRegistered,
}
use plug_in_ml.Server.State.{Server}
use plug_in_ml.Server.Configure.{configure}
use plug_in_ml.Server.Serving.{IsServing}
use plug_in_ml.Server.Started.{IsFresh, IsComplete, configure-IsServing}

-- Draws of the uniform distribution from 1 to the key range less 2.
abbrev pub IsDrawn : (ℕ → ℤ) → ℕ → Type 0
IsDrawn draw key_range = (i : ℕ) → (pos 1 ≤ℤ draw i) × (draw i <ℤ pos (key_range - 1))

-- The flags that a cluster can work with; the uniform distribution of `GeneratePartition` needs a
-- key range above 2.
pub record IsUsable (c : TaskConfig) : Type 0 where
  pub some_key : 2 < c.key_range
  pub some_bound : 0 < c.bound
  pub some_agent : 0 < c.worker_num
  pub copies : c.backup_size < c.server_num

ready_lem :
    (c : TaskConfig)
    → ready c ≡ true
    → (length c.server_id ≡ c.server_num) × (length c.agent_id ≡ c.worker_num)
unfolding ready
ready_lem c h = (ground arith, ground arith)

generated-length :
    (draw : ℕ → ℤ) (c : TaskConfig)
    → c.partition ≡ []
    → length (generate_partition draw c).partition ≡ c.server_num
unfolding generate_partition
generated-length draw c none_yet =
    ap (λ l. length (sort (l ++ draws draw c.server_num 0))) none_yet
    ∙ length-sort (draws draw c.server_num 0)
    ∙ length-draws draw c.server_num 0

generated-IsAligned :
    (draw : ℕ → ℤ) (c : TaskConfig) (addrs : List Addr)
    → IsRegistered c addrs
    → ready c ≡ true
    → c.partition ≡ []
    → IsAligned (generate_partition draw c)
unfolding generate_partition
generated-IsAligned draw c addrs v all none_yet = record {
  parts = generated-length draw c none_yet ∙ sym (ready_lem c all).0;
  sorted = sort-IsSorted (c.partition ++ draws draw c.server_num 0);
  servers = v.servers;
  agents = v.agents;
  apart = v.apart;
}

generated-ranged :
    (draw : ℕ → ℤ) (c : TaskConfig)
    → c.partition ≡ []
    → IsDrawn draw c.key_range
    → All (InRange c.key_range) (generate_partition draw c).partition
unfolding generate_partition
generated-ranged draw c none_yet drawn =
    subst (λ l. All (InRange c.key_range) (sort (l ++ draws draw c.server_num 0))) (sym none_yet)
      (All-sort (InRange c.key_range) (draws draw c.server_num 0) (
        All-draws (InRange c.key_range) draw (λ i. (omega (arith, drawn i), omega (arith, drawn i)))
          c.server_num 0))

generated-IsComplete :
    (draw : ℕ → ℤ) (c : TaskConfig) (addrs : List Addr) (id : ℤ)
    → ready c ≡ true
    → c.partition ≡ []
    → IsDrawn draw c.key_range
    → IsUsable c
    → contains id c.server_id ≡ true
    → IsComplete id (message_of (generate_partition draw c) addrs)
unfolding generate_partition
generated-IsComplete draw c addrs id all none_yet drawn u listed = record {
  listed = record {
    parts = generated-length draw c none_yet;
    ids = (ready_lem c all).0;
    some_key = omega (arith, u.some_key);
    ranged = generated-ranged draw c none_yet drawn;
  };
  some_bound = u.some_bound;
  some_agent = u.some_agent;
  agents = (ready_lem c all).1;
  copies = u.copies;
  own = listed;
}

module _ {F : Type 0} ⦃ops : FloatOps F⦄ where
  -- A configuration whose nodes have all registered, with usable flags and no partition yet: after
  -- `GeneratePartition`, with draws from 1 to the key range less 2, `ToMessage` succeeds, every server of it that starts
  -- with the message returns true from `Initialize` and serves, and the configuration is one that
  -- `FixConfig` keeps in step.
  pub ready-IsServing :
      (draw : ℕ → ℤ) (c : TaskConfig) (addrs : List Addr) (id : ℤ) (s : Server F)
      → IsRegistered c addrs
      → ready c ≡ true
      → c.partition ≡ []
      → IsDrawn draw c.key_range
      → IsUsable c
      → contains id c.server_id ≡ true
      → IsFresh s
      → let config = message_of (generate_partition draw c) addrs in
        (to_message (generate_partition draw c) ≡ some config)
        × ((s' : Server F) × (configure id config s ≡ some (true, s')) × IsServing s')
        × IsAligned (generate_partition draw c)
  ready-IsServing draw c addrs id s v all none_yet drawn u listed f = (
    to_message-IsRegistered (generate_partition draw c) addrs
        (generated-IsRegistered draw c addrs v),
    configure-IsServing id (message_of (generate_partition draw c) addrs) s f
        (generated-IsComplete draw c addrs id all none_yet drawn u listed),
    generated-IsAligned draw c addrs v all none_yet,
  )
