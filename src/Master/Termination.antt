-- ===== src/Master/Termination.antt =====
-- src/master/master.cc: MainLoop, which ends when every worker's agent has terminated.
use plug_in_ml.Base.{
  Distinct, ℕ, ◌<◌, ◌≡◌, refl, sym, ap, ◌∙◌, Bool, true, false, ◌||◌, some, List, [], ◌∷◌, ◌++◌, ℤ,
  ◌==ℤ◌, ==ℤ_refl, length, length-append, contains, All, arith, inl, inr,
}
use mathlib.Core.Path.{subst}
use plug_in_ml.Message.{Message, terminate}
use plug_in_ml.Master.State.{Master}
use plug_in_ml.Master.Loop.{handle_typed, main_loop}
use plug_in_ml.Master.Numbered.{contains-snoc, Distinct-snoc}
use plug_in_ml.Master.Rounds.{
  length-le_of_contains, leaver, leaver_first, leavers, IsSettled, Round, keeps, grows,
  handle_typed-Round,
}

module _ {F : Type 0} where
  -- Where the loop stands after some messages.
  data Stands (m m' : Master F) (left : List ℤ) : Bool → Type 0 where
    ended : length m'.terminated_node ≡ m.config.worker_num → Stands m m' left true
    goes_on :
        length m'.terminated_node < m.config.worker_num
        → ((j : ℤ) → contains j m.terminated_node ≡ true → contains j m'.terminated_node ≡ true)
        → ((j : ℤ) → contains j left ≡ true → contains j m'.terminated_node ≡ true)
        → Stands m m' left false

  abbrev Comes : List ((ℕ → ℤ) × ℕ × Message F) → Master F → Type 0
  Comes messages m =
      (b : Bool) × (m' : Master F) × (main_loop messages m ≡ some (b, m'))
      × Distinct m'.terminated_node
      × Stands m m' (leavers messages) b

  keeps-Stands :
      (m m₁ m' : Master F) (msg : Message F) (left : List ℤ) (b : Bool)
      → m₁.config.worker_num ≡ m.config.worker_num
      → ((j : ℤ) → contains j m.terminated_node ≡ true → contains j m₁.terminated_node ≡ true)
      → ((msg.message_type ≡ terminate) → contains msg.send_id m₁.terminated_node ≡ true)
      → Stands m₁ m' left b
      → Stands m m' (leaver msg.message_type msg.send_id ++ left) b
  keeps-Stands m m₁ m' msg left true num kept known (ended full) = ended (full ∙ num)
  keeps-Stands m m₁ m' msg left false num kept known (goes_on few old new) =
      goes_on (omega (arith, few, num)) (λ j h. old j (kept j h))
        λ j h. elim (leaver_first msg.message_type msg.send_id j left h) [
          | inl later ↦ new j later
          | inr (last, same) ↦
              old j (subst (λ k. contains k m₁.terminated_node ≡ true) same (known last))
        ]

  continue_with :
      (draw : ℕ → ℤ) (cur_time : ℕ) (msg : Message F) (rest : List ((ℕ → ℤ) × ℕ × Message F))
      (m : Master F) (round : Bool × Master F)
      → handle_typed draw cur_time msg msg.message_type m ≡ some round
      → Round m msg round
      → Distinct m.terminated_node
      → length m.terminated_node < m.config.worker_num
      → ((m₁ : Master F)
          → Distinct m₁.terminated_node
          → length m₁.terminated_node < m₁.config.worker_num
          → Comes rest m₁)
      → Comes ((draw, cur_time, msg) ∷ rest) m
  unfolding main_loop leavers
  continue_with draw cur_time msg rest m _ done (keeps m₁ same num known) d few go_on =
      let more = go_on m₁ (subst Distinct (sym same) d) (omega (arith, ap length same, num, few)) in
      (
        more.0,
        more.1,
        rw done more.2,
        more.3,
        keeps-Stands m m₁ more.1 msg (leavers rest) more.0 num
            (λ j h. subst (λ l. contains j l ≡ true) (sym same) h)
            (λ t. subst (λ l. contains msg.send_id l ≡ true) (sym same) (known t)) more.4,
      )
  continue_with draw cur_time msg rest m _ done (grows true m₁ more num new e) d few go_on = (
    true,
    m₁,
    rw done refl,
    subst Distinct (sym more) (Distinct-snoc msg.send_id m.terminated_node new d),
    ended (ap length more ∙ ground (arith, e)),
  )
  continue_with draw cur_time msg rest m _ done (grows false m₁ more num new e) d few go_on =
      let added : (j : ℤ)
          → contains j m₁.terminated_node ≡ (contains j m.terminated_node || (msg.send_id ==ℤ j)) =
        λ j. ap (contains j) more ∙ contains-snoc j msg.send_id m.terminated_node in
      let not_all : length m₁.terminated_node < m₁.config.worker_num =
        ground (
          arith,
          e,
          ap length more,
          num,
          few,
          length-append m.terminated_node (msg.send_id ∷ []),
        ) in
      let later =
        go_on m₁ (subst Distinct (sym more) (Distinct-snoc msg.send_id m.terminated_node new d))
          not_all in
      (
        later.0,
        later.1,
        rw done later.2,
        later.3,
        keeps-Stands m m₁ later.1 msg (leavers rest) later.0 num (λ j h. ground (arith, added j, h))
            (λ t. ground (arith, added msg.send_id, ==ℤ_refl msg.send_id)) later.4,
      )

  main_loop-Stands :
      (messages : List ((ℕ → ℤ) × ℕ × Message F)) (m : Master F)
      → All (λ r. IsSettled r.2) messages
      → Distinct m.terminated_node
      → length m.terminated_node < m.config.worker_num
      → Comes messages m
  unfolding main_loop leavers contains
  main_loop-Stands [] m settled d few = (false, m, refl, d, goes_on few (λ j h. h) (λ j h. cc))
  main_loop-Stands ((draw, cur_time, msg) ∷ rest) m settled d few =
      let round = handle_typed-Round draw cur_time msg m settled.0 few in
      continue_with draw cur_time msg rest m round.0 round.1 round.2 d few
        (λ m₁ d₁ few₁. main_loop-Stands rest m₁ settled.1 d₁ few₁)

  -- A lead master at which fewer agents have terminated than there are workers, and messages of a
  -- cluster that has started, among whose senders as many different nodes say that they terminate
  -- as there are workers: the loop ends while it handles these messages, at the one with which the
  -- number of different nodes that have terminated is the number of workers.
  pub main_loop-ends :
      (messages : List ((ℕ → ℤ) × ℕ × Message F)) (m : Master F) (workers : List ℤ)
      → All (λ r. IsSettled r.2) messages
      → Distinct m.terminated_node
      → length m.terminated_node < m.config.worker_num
      → Distinct workers
      → length workers ≡ m.config.worker_num
      → ((j : ℤ) → contains j workers ≡ true → contains j (leavers messages) ≡ true)
      → (m' : Master F) × (main_loop messages m ≡ some (true, m'))
        × Distinct m'.terminated_node
        × (length m'.terminated_node ≡ m.config.worker_num)
  main_loop-ends messages m workers settled d few distinct all leave =
      let r = main_loop-Stands messages m settled d few in ends r.0 r.1 r.2 r.3 r.4
    where
      ends :
          (b : Bool) (m' : Master F)
          → main_loop messages m ≡ some (b, m')
          → Distinct m'.terminated_node
          → Stands m m' (leavers messages) b
          → (m' : Master F) × (main_loop messages m ≡ some (true, m'))
            × Distinct m'.terminated_node
            × (length m'.terminated_node ≡ m.config.worker_num)
      ends true m' e d' (ended full) = (m', e, d', full)
      ends false m' e d' (goes_on fewer old new) = absurd (
          omega (
            arith,
            fewer,
            all,
            length-le_of_contains workers m'.terminated_node distinct (λ j h. new j (leave j h)),
          ))
