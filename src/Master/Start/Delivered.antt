-- ===== src/Master/Start/Delivered.antt =====
-- src/master/master.cc: the configuration that every node gets when the cluster is ready.
use plug_in_ml.Base.{
  ℕ, zero, suc, ◌+◌, ◌≤◌, ◌<◌, ◌≡◌, refl, sym, ap, ◌∙◌, true, none, some, List, [], ◌∷◌, ◌++◌, map,
  ℤ, pos, get_elem?, length, All, lookup, arith,
}
use mathlib.Core.Path.{subst}
use mathlib.Core.List.{append_assoc, append-nil}
use plug_in_ml.Message.{Addr, Message, MessageType, ConfigMessage}
use plug_in_ml.Communicator.{Sender, send}
use plug_in_ml.Master.TaskConfig.{TaskConfig, generate_partition, get_node_ip}
use plug_in_ml.Master.State.{Master, max_cluster_node}
use plug_in_ml.Master.Deliver.{config_message, deliver_to, deliver_config}
use plug_in_ml.Master.Loop.{add_node_addresses, mark_alive, start_cluster}
use plug_in_ml.Master.Numbered.{map-numbered}
use plug_in_ml.Master.Registered.{
  IsRegistered, message_of, to_message-IsRegistered, generated-IsRegistered,
}
use plug_in_ml.Master.Start.{IsAddr, Unknown, Knows, add_node_addresses-Knows}

-- A message of the master that tells a node this configuration.
abbrev pub config_for : {F : Type 0} → ConfigMessage → ℤ → Message F
config_for config recv_id = record {
  send_id = pos 0;
  recv_id = recv_id;
  message_type = MessageType.config;
  config_msg = some config;
  request_msg = none;
  heartbeat_msg = none;
  register_msg = none;
}

module _ {F : Type 0} where
  -- One message for each of the `n` nodes from `i` on: the configuration, to it and for it.
  pub record Delivered (config : ConfigMessage) (n i : ℕ) (new : List (ℤ × Message F))
      : Type 0 where
    pub counted : length new ≡ n
    pub each :
        (j : ℕ) → j < n → get_elem? new j ≡ some (pos (j + i), config_for config (pos (j + i)))

  deliver_to-Delivered :
      (config : ConfigMessage) (n i : ℕ) (sender : Sender (Message F))
      → (new : List (ℤ × Message F)) × (deliver_to config n i sender
          ≡ record sender { sent = sender.sent ++ new })
        × Delivered config n i new
  unfolding deliver_to send config_message
  deliver_to-Delivered config zero i sender = (
    [],
    ap (λ l. record sender { sent = l }) (sym (append-nil sender.sent)),
    record { counted = refl; each = λ j h. absurd (omega arith) },
  )
  deliver_to-Delivered config (suc n) i sender =
      let one : ℤ × Message F = (pos i, config_for config (pos i)) in
      let rest =
        deliver_to-Delivered config n (suc i) (send (pos i) (config_for config (pos i)) sender) in
      (
        one ∷ rest.0,
        rest.1 ∙ ap (λ l. record sender { sent = l }) (append_assoc sender.sent (one ∷ []) rest.0),
        record { counted = ap suc rest.2.counted; each = each_one rest.2 },
      )
    where
      shift : (j : ℕ) → j + suc i ≡ suc j + i
      shift j = omega arith

      from_zero : i ≡ 0 + i
      from_zero = omega arith

      each_one :
          {rest : List (ℤ × Message F)}
          → Delivered config n (suc i) rest
          → (j : ℕ) → j < suc n
          → get_elem? ((pos i, config_for config (pos i)) ∷ rest) j
            ≡ some (pos (j + i), config_for config (pos (j + i)))
      each_one d zero h = ap (λ k. some (pos k, config_for config (pos k))) from_zero
      each_one d (suc j) h =
          d.each j (omega arith) ∙ ap (λ k. some (pos k, config_for config (pos k))) (shift j)

none_known : (stop : ℕ) → Unknown 0 stop []
unfolding lookup
none_known stop j lo hi = (refl, refl)

length-get_node_ip :
    (c : TaskConfig) (addrs : List Addr)
    → IsRegistered c addrs
    → length (get_node_ip c) ≡ length addrs
unfolding get_node_ip
length-get_node_ip c addrs v =
    ap (λ t. length (map (λ e. e.1) t)) v.table ∙ ap length (map-numbered 0 addrs)

module _ {F : Type 0} where
  -- A master that has registered nodes with well-formed addresses, at most `max_cluster_node`, and
  -- whose sender knows nobody yet: when the cluster is ready, `MainLoop` cuts the keys, makes two
  -- addresses of every node known to the sender, its own under its id and the one with the next
  -- port under that id plus `max_cluster_node`, sends each node, by its id, exactly one message
  -- with the same configuration, and starts its two threads.
  pub start_cluster-Delivered :
      (draw : ℕ → ℤ) (cur_time : ℕ) (m : Master F) (addrs : List Addr)
      → IsRegistered m.config addrs
      → (good : All IsAddr addrs) → length addrs ≤ max_cluster_node
      → m.sender.id_to_addr ≡ []
      → (m' : Master F) × (new : List (ℤ × Message F)) × (start_cluster draw cur_time m ≡ some m')
        × (m'.sender.sent ≡ m.sender.sent ++ new)
        × Delivered (message_of (generate_partition draw m.config) addrs) (length addrs) 0 new
        × Knows 0 addrs good m'.sender.id_to_addr
        × (m'.watching ≡ true)
  unfolding start_cluster deliver_config
  start_cluster-Delivered draw cur_time m addrs v good limit fresh =
      let cut = generate_partition draw m.config in
      let w = generated-IsRegistered draw m.config addrs v in
      let unknown = subst (Unknown 0 (length addrs)) (sym fresh) (none_known (length addrs)) in
      let known =
        add_node_addresses-Knows 0 (length addrs) addrs m.sender (omega arith) limit good unknown in
      let table = ap (λ t. add_node_addresses t m.sender) w.table ∙ known.1 in
      let made = to_message-IsRegistered cut addrs w in
      let sent = deliver_to-Delivered (message_of cut addrs) (length addrs) 0 known.0 in
      let to_all =
        ap (λ n. deliver_to (message_of cut addrs) n 0 known.0) (length-get_node_ip cut addrs w)
        ∙ sent.1 in
      (
        record m {
          config = cut;
          sender = record known.0 { sent = known.0.sent ++ sent.0 };
          alive_node = mark_alive cur_time (length (get_node_ip cut)) 0 m.alive_node;
          watching = true;
        },
        sent.0,
        rw (table, made, to_all) refl,
        ap (λ l. l ++ sent.0) known.2,
        sent.2,
        known.4,
        refl,
      )
