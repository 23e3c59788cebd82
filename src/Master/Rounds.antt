-- ===== src/Master/Rounds.antt =====
-- src/master/master.cc: one round of MainLoop in a cluster that has started.
use plug_in_ml.Base.{
  Distinct, ℕ, suc, ◌≤◌, ◌<◌, ◌≡◌, ◌⊎◌, refl, ap, ◌∙◌, Bool, true, false, some, List, [], ◌∷◌, ◌++◌,
  ℤ, ◌==ℤ◌, ==ℤ→eq, ==ℤ_refl, eq_of_parts, length, ◌==◌, contains, assign, if◌then◌else◌, arith,
  Bool-cases, inl, inr,
}
use plug_in_ml.Message.{
  Message, MessageType, config, request, heartbeat, register, terminate, HeartbeatMessage,
}
use plug_in_ml.Master.State.{Master}
use plug_in_ml.Master.Loop.{process_heartbeat, handle_terminate, handle_typed}
use plug_in_ml.Master.TaskConfig.{get_ip}

remove : ℤ → List ℤ → List ℤ
remove w [] = []
remove w (x ∷ xs) = let rest = remove w xs in if x ==ℤ w then xs else x ∷ rest

length-remove :
    (w : ℤ) (xs : List ℤ) → contains w xs ≡ true → suc (length (remove w xs)) ≡ length xs
unfolding remove contains
length-remove w [] h = cc
length-remove w (x ∷ xs) h = ground (arith, length-remove w xs)

contains-remove :
    (w j : ℤ) (xs : List ℤ)
    → (w ==ℤ j) ≡ false
    → contains j xs ≡ true
    → contains j (remove w xs) ≡ true
unfolding remove contains
contains-remove w j [] ne h = cc
contains-remove w j (x ∷ xs) ne h =
    ground (arith, contains-remove w j xs ne, eq_of_parts x w, eq_of_parts x j)

contains-ne :
    (w j : ℤ) (ws : List ℤ) → contains w ws ≡ false → contains j ws ≡ true → (w ==ℤ j) ≡ false
unfolding contains
contains-ne w j [] h k = cc
contains-ne w j (x ∷ ws) h k =
    ground (arith, contains-ne w j ws, eq_of_parts x w, eq_of_parts x j, eq_of_parts w j)

-- A list without repetition is no longer than one that has all its elements.
pub length-le_of_contains :
    (ws xs : List ℤ)
    → Distinct ws
    → ((j : ℤ) → contains j ws ≡ true → contains j xs ≡ true)
    → length ws ≤ length xs
unfolding contains
length-le_of_contains [] xs d h = omega arith
length-le_of_contains (w ∷ ws) xs d h =
    let there = h w (ground (arith, ==ℤ_refl w)) in
    let rest =
      length-le_of_contains ws (remove w xs) d.1
        λ j k. contains-remove w j xs (contains-ne w j ws d.0 k) (h j (ground (arith, k))) in
    omega (arith, rest, length-remove w xs there)

unfoldable pub leaver : MessageType → ℤ → List ℤ
leaver terminate id = id ∷ []
leaver config id = []
leaver request id = []
leaver heartbeat id = []
leaver register id = []

pub leaver_first :
    (type_field : MessageType) (id j : ℤ) (rest : List ℤ)
    → contains j (leaver type_field id ++ rest) ≡ true
    → (contains j rest ≡ true) ⊎ ((type_field ≡ terminate) × (id ≡ j))
unfolding leaver contains
leaver_first config id j rest h = inl h
leaver_first request id j rest h = inl h
leaver_first heartbeat id j rest h = inl h
leaver_first register id j rest h = inl h
leaver_first terminate id j rest h = elim (Bool-cases (id ==ℤ j)) [
  | inl same ↦ inr (refl, ==ℤ→eq id j same)
  | inr other ↦ inl (ground (arith, h, other))
]

module _ {F : Type 0} where
  -- A message of a cluster that has started: no registration, and a heartbeat that says so.
  pub data IsSettled (msg : Message F) : Type 0 where
    wrong_type : (msg.message_type ≡ config) ⊎ (msg.message_type ≡ request) → IsSettled msg
    alive :
        (h : HeartbeatMessage)
        → msg.message_type ≡ heartbeat
        → msg.heartbeat_msg ≡ some h
        → h.is_live ≡ true
        → IsSettled msg
    leaves : msg.message_type ≡ terminate → IsSettled msg

  -- The nodes that say that they terminate.
  unfoldable pub leavers : List ((ℕ → ℤ) × ℕ × Message F) → List ℤ
  leavers [] = []
  leavers ((draw, cur_time, msg) ∷ rest) = leaver msg.message_type msg.send_id ++ leavers rest

  abbrev after_beat : ℕ → ℤ → Master F → Master F
  after_beat cur_time id m = record m {
    alive_node = assign id cur_time m.alive_node;
    config = (get_ip id m.config).1;
  }

  -- What one round does to the set of terminated nodes.
  pub data Round (m : Master F) (msg : Message F) : Bool × Master F → Type 0 where
    keeps :
        (m' : Master F)
        → m'.terminated_node ≡ m.terminated_node
        → m'.config.worker_num ≡ m.config.worker_num
        → ((msg.message_type ≡ terminate) → contains msg.send_id m.terminated_node ≡ true)
        → Round m msg (false, m')
    grows :
        (ended : Bool) (m' : Master F)
        → m'.terminated_node ≡ m.terminated_node ++ msg.send_id ∷ []
        → m'.config.worker_num ≡ m.config.worker_num
        → contains msg.send_id m.terminated_node ≡ false
        → ended ≡ (length (m.terminated_node ++ msg.send_id ∷ []) == m.config.worker_num)
        → Round m msg (ended, m')

  pub handle_typed-Round :
      (draw : ℕ → ℤ) (cur_time : ℕ) (msg : Message F) (m : Master F)
      → IsSettled msg
      → length m.terminated_node < m.config.worker_num
      → (round : Bool × Master F) × (handle_typed draw cur_time msg msg.message_type m ≡ some round)
        × Round m msg round
  unfolding handle_typed process_heartbeat handle_terminate get_ip
  handle_typed-Round draw cur_time msg m (wrong_type (inl e)) few =
      ((false, m), ap (λ k. handle_typed draw cur_time msg k m) e, keeps m refl refl (λ t. cc))
  handle_typed-Round draw cur_time msg m (wrong_type (inr e)) few =
      ((false, m), ap (λ k. handle_typed draw cur_time msg k m) e, keeps m refl refl (λ t. cc))
  handle_typed-Round draw cur_time msg m (alive h e has live) few = (
    (false, after_beat cur_time msg.send_id m),
    ap (λ k. handle_typed draw cur_time msg k m) e ∙ rw (has, live) refl,
    keeps (after_beat cur_time msg.send_id m) refl refl (λ t. cc),
  )
  handle_typed-Round draw cur_time msg m (leaves e) few =
      elim (Bool-cases (contains msg.send_id m.terminated_node)) [
        | inl again ↦
            let goes_on : (length m.terminated_node == m.config.worker_num) ≡ false =
              ground arith in
            (
              (false, m),
              ap (λ k. handle_typed draw cur_time msg k m) e ∙ rw (again, goes_on) refl,
              keeps m refl refl (λ t. again),
            )
        | inr first ↦
            let nodes = m.terminated_node ++ msg.send_id ∷ [] in
            (
              (length nodes == m.config.worker_num, record m { terminated_node = nodes }),
              ap (λ k. handle_typed draw cur_time msg k m) e ∙ rw first refl,
              grows (length nodes == m.config.worker_num) (record m { terminated_node = nodes })
                  refl refl first refl,
            )
      ]
