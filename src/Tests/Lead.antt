-- ===== src/Tests/Lead.antt =====
-- src/master/master.cc: two masters, and the theorems on the lead applied to them.
use plug_in_ml.Base.{
  ℕ, Bool, true, false, some, [], ◌∷◌, ◌≤◌, ◌≡◌, ◌≢◌, refl, pos, negsuc, ◌>>=◌, if◌then◌else◌,
}
use plug_in_ml.Message.{Addr}
use plug_in_ml.Communicator.{same_addr}
use plug_in_ml.Master.TaskConfig
use plug_in_ml.Master.TaskConfig.{TaskConfig}
use plug_in_ml.Master.State.{Master}
use plug_in_ml.Master.Loop.{main_loop}
use plug_in_ml.Master.Lead.{
  ZooKeeper, node_name, new_master, enter_main_loop, rounds, create_zookeeper_node, zk_callback,
  initialize_with_zookeeper, set_is_lead,
}
use plug_in_ml.Master.Lead.Election.{
  IsService, notify_all, count_true, count_true-notify_all, loser-leads,
}

-- A service that knows one node, and whether it is there.
abbrev one_node : ZooKeeper Bool
one_node = record {
  create = λ name v z. ((if z then negsuc 109 else pos 0), true);
  watch = λ name z. ((if z then pos 0 else negsuc 100), z);
}

abbrev task : Addr
task = 109 ∷ 108 ∷ []

one_node-IsService : IsService one_node (node_name task) (λ z. z)
one_node-IsService = record {
  made = λ v z e. refl;
  taken = λ v z e. fails z e;
  stays = λ v z e. refl;
  watched = λ z. refl;
}
  where
    fails : (z : Bool) → z ≡ true → (if z then negsuc 109 else pos 0) ≢ pos 0
    fails true e f = cc
    fails false e f = cc

abbrev flags : TaskConfig
unfolding TaskConfig.initialize
flags = TaskConfig.initialize 1 1 10 1 0

abbrev follower : Master ℕ
unfolding new_master
follower = record (new_master flags) { is_lead = false }

-- The node is gone, and two masters hear of it.
count_true-notify_all_example :
    count_true
      (notify_all one_node task ((47 ∷ task, follower) ∷ (47 ∷ task, follower) ∷ []) false).0
    ≤ 1
count_true-notify_all_example =
    count_true-notify_all one_node task (λ z. z)
      ((47 ∷ task, follower) ∷ (47 ∷ task, follower) ∷ []) false one_node-IsService

first_leads :
    (notify_all one_node task ((47 ∷ task, follower) ∷ (47 ∷ task, follower) ∷ []) false).0
    ≡ true ∷ false ∷ []
unfolding notify_all zk_callback create_zookeeper_node node_name follower same_addr set_is_lead
first_leads = refl

loser-leads_example :
    (count : ℕ) × (m : Master ℕ) × (z' : Bool) × (initialize_with_zookeeper one_node task
        (49 ∷ [])
        (new_master flags)
        true
      ≡ ((count, m), z'))
    × ((create_zookeeper_node one_node task true).0 ≢ pos 0)
    × (m.is_lead ≡ true)
    × (enter_main_loop [] m ≡ (main_loop [] m >>= λ end. some (rounds end.0 end.1)))
loser-leads_example =
    loser-leads one_node task (λ z. z) flags (49 ∷ []) [] true one_node-IsService refl
