-- ===== src/Master/Registered.antt =====
-- src/master/task_config.cc, AppendServer, AppendAgent, AppendMaster and ToMessage: ids and addresses
-- of the nodes.
use plug_in_ml.Base.{
  Distinct, ℕ, suc, ◌≡◌, refl, ap, ap₂, ◌∙◌, true, false, some, List, [], ◌∷◌, ◌++◌, map, ℤ, pos,
  ◌<ℤ◌, length, length-append, assign, contains, arith, Bool-cases, inl, inr,
}
use plug_in_ml.Message.{Addr, ConfigMessage}
use plug_in_ml.Master.TaskConfig.{
  TaskConfig, add_node, append_server, append_agent, append_master, join_addr, sort_entries,
  set_addresses, to_message, generate_partition,
}
use plug_in_ml.Master.Numbered.{
  numbered, assign-numbered, sort_entries-numbered, map-numbered, set_addresses-numbered,
  contains-snoc, Distinct-snoc,
}

-- The nodes' addresses are `addrs`, by id, and the next id is their number; no id is used twice.
pub record IsRegistered (c : TaskConfig) (addrs : List Addr) : Type 0 where
  pub table : c.id_to_addr ≡ numbered 0 addrs
  pub next : c.node_id ≡ length addrs
  pub servers : Distinct c.server_id
  pub agents : Distinct c.agent_id
  pub apart : (j : ℤ) → contains j c.agent_id ≡ true → contains j c.server_id ≡ false
  pub servers_below : (j : ℤ) → contains j c.server_id ≡ true → j <ℤ pos c.node_id
  pub agents_below : (j : ℤ) → contains j c.agent_id ≡ true → j <ℤ pos c.node_id

fresh_id :
    (n : ℕ) (ids : List ℤ)
    → ((j : ℤ) → contains j ids ≡ true → j <ℤ pos n)
    → contains (pos n) ids ≡ false
fresh_id n ids below = elim (Bool-cases (contains (pos n) ids)) [
  | inl there ↦ absurd (omega (arith, below (pos n) there))
  | inr other ↦ other
]

snoc_below :
    (n : ℕ) (ids : List ℤ)
    → ((j : ℤ) → contains j ids ≡ true → j <ℤ pos n)
    → (j : ℤ) → contains j (ids ++ pos n ∷ []) ≡ true
    → j <ℤ pos (suc n)
snoc_below n ids below j h = elim (Bool-cases (contains j ids)) [
  | inl old ↦ omega (arith, below j old)
  | inr other ↦ ground (arith, contains-snoc j (pos n) ids, h, other)
]

table_next :
    (c : TaskConfig) (addrs : List Addr) (addr : Addr)
    → IsRegistered c addrs
    → assign (pos c.node_id) addr c.id_to_addr ≡ numbered 0 (addrs ++ addr ∷ [])
table_next c addrs addr v =
    ap (assign (pos c.node_id) addr) v.table
    ∙ assign-numbered 0 c.node_id addr addrs (omega (arith, v.next))

pub append_server-IsRegistered :
    (ip : Addr) (port : ℕ) (c : TaskConfig) (addrs : List Addr)
    → IsRegistered c addrs
    → IsRegistered (append_server ip port c) (addrs ++ join_addr ip port ∷ [])
unfolding append_server add_node
append_server-IsRegistered ip port c addrs v =
    let fresh = fresh_id c.node_id c.server_id v.servers_below in
    record {
      table = table_next c addrs (join_addr ip port) v;
      next = omega (arith, v.next, length-append addrs (join_addr ip port ∷ []));
      servers = Distinct-snoc (pos c.node_id) c.server_id fresh v.servers;
      agents = v.agents;
      apart = λ j h.
          ground
            (arith, contains-snoc j (pos c.node_id) c.server_id, v.apart j h, v.agents_below j h);
      servers_below = snoc_below c.node_id c.server_id v.servers_below;
      agents_below = λ j h. omega (arith, v.agents_below j h);
    }

pub append_agent-IsRegistered :
    (ip : Addr) (port : ℕ) (c : TaskConfig) (addrs : List Addr)
    → IsRegistered c addrs
    → IsRegistered (append_agent ip port c) (addrs ++ join_addr ip port ∷ [])
unfolding append_agent add_node
append_agent-IsRegistered ip port c addrs v =
    let fresh = fresh_id c.node_id c.agent_id v.agents_below in
    let no_server = fresh_id c.node_id c.server_id v.servers_below in
    record {
      table = table_next c addrs (join_addr ip port) v;
      next = omega (arith, v.next, length-append addrs (join_addr ip port ∷ []));
      servers = v.servers;
      agents = Distinct-snoc (pos c.node_id) c.agent_id fresh v.agents;
      apart = λ j h. elim (Bool-cases (contains j c.agent_id)) [
        | inl old ↦ v.apart j old
        | inr other ↦ elim (Bool-cases (contains j c.server_id)) [
          | inl there ↦ absurd (
              ground (
                arith,
                contains-snoc j (pos c.node_id) c.agent_id,
                h,
                other,
                v.servers_below j there,
              ))
          | inr none_there ↦ none_there
        ]
      ];
      servers_below = λ j h. omega (arith, v.servers_below j h);
      agents_below = snoc_below c.node_id c.agent_id v.agents_below;
    }

pub append_master-IsRegistered :
    (addr : Addr) (c : TaskConfig) (addrs : List Addr)
    → IsRegistered c addrs
    → IsRegistered (append_master addr c) (addrs ++ addr ∷ [])
unfolding append_master add_node
append_master-IsRegistered addr c addrs v = record {
  table = table_next c addrs addr v;
  next = omega (arith, v.next, length-append addrs (addr ∷ []));
  servers = v.servers;
  agents = v.agents;
  apart = v.apart;
  servers_below = λ j h. omega (arith, v.servers_below j h);
  agents_below = λ j h. omega (arith, v.agents_below j h);
}

abbrev pub message_of : TaskConfig → List Addr → ConfigMessage
message_of c addrs = record {
  worker_num = c.worker_num;
  server_num = c.server_num;
  key_range = c.key_range;
  node_ip_port = addrs;
  partition = c.partition;
  backup_size = c.backup_size;
  server_id = c.server_id;
  worker_id = c.agent_id;
  master_id = c.master_id;
  bound = c.bound;
}

-- `ToMessage` gives each node's address at the place of its id.
pub to_message-IsRegistered :
    (c : TaskConfig) (addrs : List Addr)
    → IsRegistered c addrs
    → to_message c ≡ some (message_of c addrs)
unfolding to_message
to_message-IsRegistered c addrs v =
    let sorted = ap sort_entries v.table ∙ sort_entries-numbered 0 addrs in
    let listed = ap (map (λ e. e.1)) sorted ∙ map-numbered 0 addrs in
    let put_back : set_addresses c.id_to_addr (map (λ e. e.1) (sort_entries c.id_to_addr))
        ≡ some addrs =
      ap₂ set_addresses v.table listed ∙ set_addresses-numbered 0 [] addrs refl in
    rw put_back refl

-- `GeneratePartition` leaves the nodes alone.
pub generated-IsRegistered :
    (draw : ℕ → ℤ) (c : TaskConfig) (addrs : List Addr)
    → IsRegistered c addrs
    → IsRegistered (generate_partition draw c) addrs
unfolding generate_partition
generated-IsRegistered draw c addrs v = record {
  table = v.table;
  next = v.next;
  servers = v.servers;
  agents = v.agents;
  apart = v.apart;
  servers_below = v.servers_below;
  agents_below = v.agents_below;
}
