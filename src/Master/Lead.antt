-- ===== src/Master/Lead.antt =====
-- src/master/master.h and master.cc: which master leads. The code under USE_ZOOKEEPER, the
-- constructor, and the first lines of MainLoop. The service is `ZooKeeper`: `create` is zoo_create
-- with the ephemeral flag, `watch` zoo_exists with a watch.
pub mod Election
use plug_in_ml.Base.{
  ℕ, Bool, true, false, Option, none, some, List, [], ◌∷◌, ℤ, pos, ◌==ℤ◌, take, ◌>>=◌,
  if◌then◌else◌,
}
use plug_in_ml.Message.{Addr, Message}
use plug_in_ml.Communicator.{fresh_sender, same_addr}
use plug_in_ml.Master.TaskConfig.{TaskConfig}
use plug_in_ml.Master.State.{Master}
use plug_in_ml.Master.Loop.{initialize, main_loop}

pub record ZooKeeper (Z : Type 0) : Type 0 where
  pub create : Addr → List ℕ → Z → ℤ × Z
  pub watch : Addr → Z → ℤ × Z

-- A slash and the flag task_name.
unfoldable pub node_name : Addr → Addr
node_name task_name = 47 ∷ task_name

-- "master_ip"; zoo_create is told that it has 5 bytes.
abbrev pub node_value : List ℕ
node_value = take 5 (109 ∷ 97 ∷ 115 ∷ 116 ∷ 101 ∷ 114 ∷ 95 ∷ 105 ∷ 112 ∷ [])

-- How `MainLoop` begins: a master that is not lead sleeps for ever.
pub data MainLoop (F : Type 0) : Type 0 where
  sleeps : MainLoop F
  rounds : Bool → Master F → MainLoop F

module _ {F : Type 0} where
  -- The constructor; `config` is what `config_.Initialize` makes of the flags.
  unfoldable pub new_master : TaskConfig → Master F
  new_master config = record {
    config = config;
    sender = fresh_sender;
    alive_node = [];
    terminated_node = [];
    is_lead = true;
    watching = false;
  }

  unfoldable pub set_is_lead : Bool → Master F → Master F
  set_is_lead is_lead m = record m { is_lead = is_lead }

  -- `MainLoop` on the messages that arrive.
  unfoldable pub enter_main_loop : List ((ℕ → ℤ) × ℕ × Message F) → Master F → Option (MainLoop F)
  enter_main_loop messages m =
      if m.is_lead then (main_loop messages m >>= λ end. some (rounds end.0 end.1)) else some sleeps

module _ {Z : Type 0} (zk : ZooKeeper Z) (task_name : Addr) where
  -- The result of zoo_create.
  unfoldable pub create_zookeeper_node : Z → ℤ × Z
  unfolding node_name
  create_zookeeper_node z =
      let made = zk.create (node_name task_name) node_value z in
      (made.0, (zk.watch (node_name task_name) made.1).1)

module _ {F Z : Type 0} (zk : ZooKeeper Z) (task_name : Addr) where
  -- `ZkCallback`: whether the thread goes on into `MainLoop`.
  unfoldable pub zk_callback : Addr → Master F → Z → Bool × Master F × Z
  unfolding set_is_lead node_name
  zk_callback path m z =
      let made = create_zookeeper_node zk task_name z in
      if same_addr path (node_name task_name)
      then (if made.0 ==ℤ pos 0 then (true, set_is_lead true m, made.1) else (false, m, made.1))
      else (false, m, z)

  unfoldable pub init_zookeeper : Master F → Z → Master F × Z
  init_zookeeper m z =
      let made = create_zookeeper_node zk task_name z in
      (if made.0 ==ℤ pos 0 then record m { is_lead = true } else m, made.1)

  -- `Initialize` of a build with ZooKeeper.
  unfoldable pub initialize_with_zookeeper : Addr → Master F → Z → (ℕ × Master F) × Z
  unfolding init_zookeeper
  initialize_with_zookeeper master_ip_port m z =
      let (m', z') = init_zookeeper m z in (initialize master_ip_port m', z')
