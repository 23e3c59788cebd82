-- ===== src/Master/Lead/Election.antt =====
-- src/master/master.cc: how many masters lead, by what ZooKeeper promises.
use plug_in_ml.Base.{
  ℕ, suc, ◌≤◌, ◌≡◌, ◌≢◌, refl, ap, ◌∙◌, Bool, true, false, some, List, [], ◌∷◌, ℤ, pos, ◌==ℤ◌,
  ==ℤ→eq, ◌>>=◌, if◌then◌else◌, arith, Bool-cases, inl, inr,
}
use plug_in_ml.Message.{Addr, Message}
use plug_in_ml.Communicator.{same_addr}
use plug_in_ml.Master.TaskConfig.{TaskConfig}
use plug_in_ml.Master.State.{Master}
use plug_in_ml.Master.Loop.{initialize, main_loop}
use plug_in_ml.Master.Lead.{
  ZooKeeper, node_name, new_master, enter_main_loop, rounds, create_zookeeper_node, zk_callback,
  init_zookeeper, initialize_with_zookeeper,
}

-- ZooKeeper's promise about one node, where `exists` tells whether the node is there: a creation
-- that succeeds makes it, one that finds it there fails and leaves it, and a watch changes nothing.
pub record IsService {Z : Type 0} (zk : ZooKeeper Z) (name : Addr) (exists : Z → Bool)
    : Type 0 where
  pub made :
      (v : List ℕ) (z : Z) → (zk.create name v z).0 ≡ pos 0 → exists (zk.create name v z).1 ≡ true
  pub taken : (v : List ℕ) (z : Z) → exists z ≡ true → (zk.create name v z).0 ≢ pos 0
  pub stays : (v : List ℕ) (z : Z) → exists z ≡ true → exists (zk.create name v z).1 ≡ true
  pub watched : (z : Z) → exists (zk.watch name z).1 ≡ exists z

module _ {Z : Type 0} (zk : ZooKeeper Z) (task_name : Addr) (exists : Z → Bool)
    (service : IsService zk (node_name task_name) exists) where
  create-taken :
      (z : Z)
      → exists z ≡ true
      → ((create_zookeeper_node zk task_name z).0 ≢ pos 0)
        × (exists (create_zookeeper_node zk task_name z).1 ≡ true)
  unfolding create_zookeeper_node
  create-taken z e = (service.taken _ z e, service.watched _ ∙ service.stays _ z e)

  create-made :
      (z : Z)
      → (create_zookeeper_node zk task_name z).0 ≡ pos 0
      → exists (create_zookeeper_node zk task_name z).1 ≡ true
  unfolding create_zookeeper_node
  create-made z e = service.watched _ ∙ service.made _ z e

module _ {F Z : Type 0} (zk : ZooKeeper Z) (task_name : Addr) where
  -- Notifications of several masters, one after the other: which of them go on into `MainLoop`.
  unfoldable pub notify_all : List (Addr × Master F) → Z → List Bool × Z
  notify_all [] z = ([], z)
  notify_all ((path, m) ∷ rest) z =
      let one = zk_callback zk task_name path m z in
      let more = notify_all rest one.2 in (one.0 ∷ more.0, more.1)

pub count_true : List Bool → ℕ
count_true [] = 0
count_true (b ∷ bs) = if b then suc (count_true bs) else count_true bs

module _ {F Z : Type 0} (zk : ZooKeeper Z) (task_name : Addr) (exists : Z → Bool)
    (service : IsService zk (node_name task_name) exists) where
  callback-taken :
      (path : Addr) (m : Master F) (z : Z)
      → exists z ≡ true
      → ((zk_callback zk task_name path m z).0 ≡ false)
        × (exists (zk_callback zk task_name path m z).2 ≡ true)
  unfolding zk_callback
  callback-taken path m z e =
      let made = create-taken zk task_name exists service z e in
      elim (Bool-cases (same_addr path (node_name task_name))) [
        | inl same ↦ elim (Bool-cases ((create_zookeeper_node zk task_name z).0 ==ℤ pos 0)) [
          | inl ok ↦ absurd (made.0 (==ℤ→eq _ _ ok))
          | inr failed ↦ rw (same, failed) (refl, made.1)
        ]
        | inr other ↦ rw other (refl, e)
      ]

  none_behind :
      (events : List (Addr × Master F)) (z : Z)
      → exists z ≡ true
      → count_true (notify_all zk task_name events z).0 ≡ 0
  unfolding notify_all count_true
  none_behind [] z e = refl
  none_behind ((path, m) ∷ rest) z e =
      let one = callback-taken path m z e in
      rw one.0 (none_behind rest (zk_callback zk task_name path m z).2 one.1)

  callback-made :
      (path : Addr) (m : Master F) (z : Z)
      → (zk_callback zk task_name path m z).0 ≡ true
      → exists (zk_callback zk task_name path m z).2 ≡ true
  unfolding zk_callback
  callback-made path m z e = elim (Bool-cases (same_addr path (node_name task_name))) [
    | inl same ↦ elim (Bool-cases ((create_zookeeper_node zk task_name z).0 ==ℤ pos 0)) [
      | inl ok ↦ rw (same, ok) (create-made zk task_name exists service z (==ℤ→eq _ _ ok))
      | inr failed ↦ let no = rw (same, failed) at e in cc
    ]
    | inr other ↦ let no = rw other at e in cc
  ]

  at_most_one :
      (events : List (Addr × Master F)) (z : Z)
      → count_true (notify_all zk task_name events z).0 ≤ 1
  unfolding notify_all count_true
  at_most_one [] z = omega arith
  at_most_one ((path, m) ∷ rest) z = elim (Bool-cases (zk_callback zk task_name path m z).0) [
    | inl leads ↦ rw leads (
        omega (
          arith,
          none_behind rest (zk_callback zk task_name path m z).2 (callback-made path m z leads),
        ))
    | inr follows ↦ rw follows (at_most_one rest (zk_callback zk task_name path m z).2)
  ]

-- A service that keeps ZooKeeper's promise about the task's node: of any notifications of any
-- masters, one after the other, while nobody deletes the node, at most one leads into `MainLoop`.
pub count_true-notify_all :
    {F Z : Type 0} (zk : ZooKeeper Z) (task_name : Addr) (exists : Z → Bool)
    (events : List (Addr × Master F)) (z : Z)
    → IsService zk (node_name task_name) exists
    → count_true (notify_all zk task_name events z).0 ≤ 1
count_true-notify_all zk task_name exists events z service =
    at_most_one zk task_name exists service events z

initialize-lead :
    {F : Type 0} (master_ip_port : Addr) (m : Master F)
    → (initialize master_ip_port m).1.is_lead ≡ m.is_lead
unfolding initialize
initialize-lead master_ip_port m = refl

init_zookeeper-keeps :
    {F Z : Type 0} (zk : ZooKeeper Z) (task_name : Addr) (m : Master F) (z : Z)
    → (create_zookeeper_node zk task_name z).0 ≢ pos 0
    → (init_zookeeper zk task_name m z).0 ≡ m
unfolding init_zookeeper
init_zookeeper-keeps zk task_name m z failed =
    elim (Bool-cases ((create_zookeeper_node zk task_name z).0 ==ℤ pos 0)) [
      | inl ok ↦ absurd (failed (==ℤ→eq _ _ ok))
      | inr failing ↦ rw failing refl
    ]

-- A master that starts while another one holds the task's node: zoo_create fails, and yet the
-- master leads and `MainLoop` handles messages, as the constructor makes every master the lead.
pub loser-leads :
    {F Z : Type 0} (zk : ZooKeeper Z) (task_name : Addr) (exists : Z → Bool) (config : TaskConfig)
    (master_ip_port : Addr) (messages : List ((ℕ → ℤ) × ℕ × Message F)) (z : Z)
    → IsService zk (node_name task_name) exists
    → exists z ≡ true
    → (count : ℕ) × (m : Master F) × (z' : Z) × (initialize_with_zookeeper zk task_name
          master_ip_port
          (new_master config)
          z
        ≡ ((count, m), z'))
      × ((create_zookeeper_node zk task_name z).0 ≢ pos 0)
      × (m.is_lead ≡ true)
      × (enter_main_loop messages m ≡ (main_loop messages m >>= λ end. some (rounds end.0 end.1)))
unfolding initialize_with_zookeeper enter_main_loop new_master
loser-leads zk task_name exists config master_ip_port messages z service e =
    let taken = create-taken zk task_name exists service z e in
    let kept = init_zookeeper-keeps zk task_name (new_master config) z taken.0 in
    let leads =
      initialize-lead master_ip_port (init_zookeeper zk task_name (new_master config) z).0
      ∙ ap (λ m. m.is_lead) kept in
    (_, _, _, refl, taken.0, leads, rw leads refl)
