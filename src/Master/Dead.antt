-- ===== src/Master/Dead.antt =====
-- src/master/master.cc: DetectDeadNode, from the start of the cluster on.
use plug_in_ml.Base.{
  ℕ, zero, suc, ◌+◌, ◌<◌, ◌≡◌, refl, sym, ap, ◌∙◌, true, false, Option, some, List, [], ◌∷◌, ℤ, pos,
  ◌==ℤ◌, length, ◌==◌, lookup, assign, lookup-assign, All, contains, ◌>>=◌, if◌then◌else◌, arith,
  Option-cases, inl, inr,
}
use plug_in_ml.Message.{HeartbeatMessage}
use plug_in_ml.Master.State.{Master, heartbeat_timeout}
use plug_in_ml.Master.TaskConfig.{
  TaskConfig, get_ip, get_node_ip, generate_partition, to_message, fix_node, fix_nodes, fix_config,
}
use plug_in_ml.Master.Deliver.{deliver_config}
use plug_in_ml.Master.Loop.{
  start_cluster, add_node_addresses, mark_alive, dead_nodes, process_heartbeat, detect_dead_node,
  log_nodes,
}
use plug_in_ml.Master.Silent.{IsSilent-dead_nodes}

-- Heartbeats of nodes that live, none of them of node 0.
abbrev pub OfOthers : ℤ × ℕ × HeartbeatMessage → Type 0
OfOthers (id, cur_time, h) = (h.is_live ≡ true) × ((id ==ℤ pos 0) ≡ false)

module _ {F : Type 0} where
  -- The heartbeats, each with the time of its round.
  pub heartbeats : List (ℤ × ℕ × HeartbeatMessage) → Master F → Option (Master F)
  heartbeats [] m = some m
  heartbeats ((id, cur_time, h) ∷ rest) m =
      process_heartbeat cur_time id h m >>= λ m'. heartbeats rest m'

  -- The heartbeat of a node makes it heard of; the others' times stay.
  heartbeat_lem :
      (cur_time : ℕ) (id : ℤ) (h : HeartbeatMessage) (m : Master F)
      → h.is_live ≡ true
      → (m' : Master F) × (process_heartbeat cur_time id h m ≡ some m')
        × (m'.alive_node ≡ assign id cur_time m.alive_node)
  unfolding process_heartbeat
  heartbeat_lem cur_time id h m live = (
    record m { alive_node = assign id cur_time m.alive_node; config = (get_ip id m.config).1 },
    rw live refl,
    refl,
  )

  heartbeats-lookup :
      (beats : List (ℤ × ℕ × HeartbeatMessage)) (m : Master F) (seen : ℕ)
      → All OfOthers beats
      → lookup (pos 0) m.alive_node ≡ some seen
      → (m' : Master F) × (heartbeats beats m ≡ some m')
        × (lookup (pos 0) m'.alive_node ≡ some seen)
  unfolding heartbeats
  heartbeats-lookup [] m seen others e = (m, refl, e)
  heartbeats-lookup ((id, cur_time, h) ∷ rest) m seen others e =
      let one = heartbeat_lem cur_time id h m others.0.0 in
      let kept : lookup (pos 0) one.0.alive_node ≡ some seen =
        ap (lookup (pos 0)) one.2
        ∙ lookup-assign id (pos 0) cur_time m.alive_node
        ∙ rw others.0.1 e in
      let more = heartbeats-lookup rest one.0 seen others.1 kept in
      (more.0, rw one.1 more.1, more.2)

  start_cluster-alive :
      (draw : ℕ → ℤ) (cur_time : ℕ) (m m' : Master F)
      → start_cluster draw cur_time m ≡ some m'
      → m'.alive_node ≡ mark_alive cur_time (length (get_node_ip m.config)) 0 m.alive_node
  unfolding start_cluster deliver_config generate_partition get_node_ip
  start_cluster-alive draw cur_time m m' e =
      elim (Option-cases
        (add_node_addresses (generate_partition draw m.config).id_to_addr m.sender)) [
          | inl stop ↦ let done = rw stop at e in cc
          | inr (sender, known) ↦
              elim (Option-cases (to_message (generate_partition draw m.config))) [
                | inl stop ↦ let done = rw (known, stop) at e in cc
                | inr (config, made) ↦ let done = rw (known, made) at e in sym (same_alive done)
              ]
        ]
    where
      same_alive : {a b : Master F} → some a ≡ some b → a.alive_node ≡ b.alive_node
      same_alive h = cc

mark_alive_behind :
    (cur_time n i : ℕ) (alive : List (ℤ × ℕ))
    → lookup (pos 0) (mark_alive cur_time n (suc i) alive) ≡ lookup (pos 0) alive
unfolding mark_alive
mark_alive_behind cur_time zero i alive = refl
mark_alive_behind cur_time (suc n) i alive =
    mark_alive_behind cur_time n (suc i) (assign (pos (suc i)) cur_time alive)
    ∙ lookup-assign (pos (suc i)) (pos 0) cur_time alive
    ∙ ap (λ b. if b then some cur_time else lookup (pos 0) alive) later
  where
    later : (pos (suc i) ==ℤ pos 0) ≡ false
    later = ground arith

mark_alive-first :
    (cur_time n : ℕ) (alive : List (ℤ × ℕ))
    → 0 < n
    → lookup (pos 0) (mark_alive cur_time n 0 alive) ≡ some cur_time
unfolding mark_alive
mark_alive-first cur_time zero alive h = absurd (omega arith)
mark_alive-first cur_time (suc n) alive h =
    mark_alive_behind cur_time n 0 (assign (pos 0) cur_time alive)
    ∙ lookup-assign (pos 0) (pos 0) cur_time alive

some_dead : (dead : List ℤ) (id : ℤ) → contains id dead ≡ true → (length dead == 0) ≡ false
unfolding contains
some_dead [] id h = cc
some_dead (j ∷ rest) id h = ground arith

fix_nodes-changed :
    (dead : List ℤ) (c : TaskConfig)
    → c.config_changed ≡ true
    → (fix_nodes dead c).config_changed ≡ true
unfolding fix_nodes fix_node
fix_nodes-changed [] c h = h
fix_nodes-changed (id ∷ rest) c h = fix_nodes-changed rest (fix_node id c) (ground (arith, h))

fix_config-changed :
    (dead : List ℤ) (c : TaskConfig) (id : ℤ)
    → contains id dead ≡ true
    → (fix_config dead c).config_changed ≡ true
unfolding fix_config contains
fix_config-changed [] c id h = cc
fix_config-changed (j ∷ rest) c id h =
    fix_nodes-changed (j ∷ rest) (record c { config_changed = true }) refl

module _ {F : Type 0} where
  detect-changed :
      (cur_time : ℕ) (m : Master F) (id : ℤ)
      → contains id (dead_nodes cur_time m.alive_node) ≡ true
      → (detect_dead_node cur_time m).config.config_changed ≡ true
  unfolding detect_dead_node
  detect-changed cur_time m id h = rw (some_dead (dead_nodes cur_time m.alive_node) id h) (
      fix_config-changed (dead_nodes cur_time m.alive_node)
        (log_nodes (dead_nodes cur_time m.alive_node) m.config) id h)

  -- After a cluster of at least one node has started, whatever nodes other than the first send
  -- heartbeats: more than the time-out after the start, `GetDeadNode` returns node 0, and
  -- `DetectDeadNode` marks the configuration as changed.
  pub master_found_dead :
      (draw : ℕ → ℤ) (start_time cur_time : ℕ) (m m' : Master F)
      (beats : List (ℤ × ℕ × HeartbeatMessage))
      → start_cluster draw start_time m ≡ some m'
      → 0 < length (get_node_ip m.config)
      → All OfOthers beats
      → start_time + heartbeat_timeout < cur_time
      → (last : Master F) × (heartbeats beats m' ≡ some last)
        × (contains (pos 0) (dead_nodes cur_time last.alive_node) ≡ true)
        × ((detect_dead_node cur_time last).config.config_changed ≡ true)
  master_found_dead draw start_time cur_time m m' beats started some_node others late =
      let marked =
        ap (lookup (pos 0)) (start_cluster-alive draw start_time m m' started)
        ∙ mark_alive-first start_time (length (get_node_ip m.config)) m.alive_node some_node in
      let after = heartbeats-lookup beats m' start_time others marked in
      let dead =
        IsSilent-dead_nodes cur_time after.0.alive_node (pos 0) (start_time, after.2, late) in
      (after.0, after.1, dead, detect-changed cur_time after.0 (pos 0) dead)
