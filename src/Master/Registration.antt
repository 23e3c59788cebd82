-- ===== src/Master/Registration.antt =====
-- src/master/master.cc, Initialize and ProcessRegisterMsg: the nodes that come.
use plug_in_ml.Base.{
  ℕ, suc, ℤ, pos, ap, ap₂, ◌∙◌, ◌≡◌, refl, sym, some, List, [], ◌∷◌, ◌++◌, map, length, ◌==◌,
  if◌then◌else◌, contains, Bool-cases, inl, inr,
}
use mathlib.Core.List.{append_assoc, append-nil}
use plug_in_ml.Message.{Addr, RegisterMessage}
use plug_in_ml.Master.TaskConfig.{
  TaskConfig, add_node, append_server, append_agent, append_master, join_addr, insert_entry,
  sort_entries, set_addresses, to_message,
}
use plug_in_ml.Master.State.{Master}
use plug_in_ml.Master.Loop.{initialize, process_register, append_masters}
use plug_in_ml.Text.{split}
use plug_in_ml.Master.TaskConfig
use mathlib.Core.Path.{subst}
use plug_in_ml.Master.Numbered.{numbered}
use plug_in_ml.Master.Registered.{
  IsRegistered, message_of, append_server-IsRegistered, append_agent-IsRegistered,
  append_master-IsRegistered, to_message-IsRegistered,
}

pub initialize-IsRegistered :
    (worker_num server_num key_range bound backup_size : ℕ)
    → IsRegistered (TaskConfig.initialize worker_num server_num key_range bound backup_size) []
unfolding TaskConfig.initialize numbered contains
initialize-IsRegistered worker_num server_num key_range bound backup_size = record {
  table = refl;
  next = refl;
  servers = tt;
  agents = tt;
  apart = λ j h. refl;
  servers_below = λ j h. cc;
  agents_below = λ j h. cc;
}

-- The address of a node that registers.
abbrev pub node_addr : RegisterMessage → Addr
node_addr r = join_addr r.ip r.port

-- The parts that are not empty.
unfoldable pub some_parts : List Addr → List Addr
some_parts [] = []
some_parts (part ∷ rest) =
    let more = some_parts rest in if length part == 0 then more else part ∷ more

append_masters-IsRegistered :
    (parts : List Addr) (count : ℕ) (c : TaskConfig) (addrs : List Addr)
    → IsRegistered c addrs
    → IsRegistered (append_masters parts count c).1 (addrs ++ some_parts parts)
unfolding append_masters some_parts
append_masters-IsRegistered [] count c addrs v = subst (IsRegistered c) (sym (append-nil addrs)) v
append_masters-IsRegistered (part ∷ rest) count c addrs v = elim (Bool-cases (length part == 0)) [
  | inl none_there ↦ rw none_there (append_masters-IsRegistered rest count c addrs v)
  | inr some_part ↦ rw some_part (
      subst (IsRegistered (append_masters rest (suc count) (append_master part c)).1)
        (append_assoc addrs (part ∷ []) (some_parts rest))
        (append_masters-IsRegistered rest (suc count) (append_master part c) (addrs ++ part ∷ [])
          (append_master-IsRegistered part c addrs v)))
]

-- The ids of the servers among registrations, of which the first gets the id `k`.
unfoldable pub servers_from : ℕ → List RegisterMessage → List ℤ
servers_from k [] = []
servers_from k (r ∷ rest) =
    let more = servers_from (suc k) rest in if r.is_server then pos k ∷ more else more

-- The ids of the agents.
unfoldable pub agents_from : ℕ → List RegisterMessage → List ℤ
agents_from k [] = []
agents_from k (r ∷ rest) =
    let more = agents_from (suc k) rest in if r.is_server then more else pos k ∷ more

-- Masters are in neither list.
append_masters-ids :
    (parts : List Addr) (count : ℕ) (c : TaskConfig)
    → ((append_masters parts count c).1.server_id ≡ c.server_id)
      × ((append_masters parts count c).1.agent_id ≡ c.agent_id)
unfolding append_masters append_master add_node
append_masters-ids [] count c = (refl, refl)
append_masters-ids (part ∷ rest) count c = elim (Bool-cases (length part == 0)) [
  | inl none_there ↦ rw none_there (append_masters-ids rest count c)
  | inr some_part ↦ rw some_part (append_masters-ids rest (suc count) (append_master part c))
]

module _ {F : Type 0} where
  -- The registrations, in the order in which they arrive.
  pub register_all : List RegisterMessage → Master F → Master F
  register_all [] m = m
  register_all (r ∷ rest) m = register_all rest (process_register r m)

  process_register-IsRegistered :
      (r : RegisterMessage) (m : Master F) (addrs : List Addr)
      → IsRegistered m.config addrs
      → IsRegistered (process_register r m).config (addrs ++ node_addr r ∷ [])
  unfolding process_register
  process_register-IsRegistered r m addrs v = elim (Bool-cases r.is_server) [
    | inl server ↦ rw server (append_server-IsRegistered r.ip r.port m.config addrs v)
    | inr agent ↦ rw agent (append_agent-IsRegistered r.ip r.port m.config addrs v)
  ]

  register_all-IsRegistered :
      (rs : List RegisterMessage) (m : Master F) (addrs : List Addr)
      → IsRegistered m.config addrs
      → IsRegistered (register_all rs m).config (addrs ++ map node_addr rs)
  unfolding register_all
  register_all-IsRegistered [] m addrs v = subst (IsRegistered m.config) (sym (append-nil addrs)) v
  register_all-IsRegistered (r ∷ rest) m addrs v =
      subst (IsRegistered (register_all rest (process_register r m)).config)
        (append_assoc addrs (node_addr r ∷ []) (map node_addr rest))
        (register_all-IsRegistered rest (process_register r m) (addrs ++ node_addr r ∷ [])
          (process_register-IsRegistered r m addrs v))

  register_all-ids :
      (rs : List RegisterMessage) (m : Master F)
      → ((register_all rs m).config.server_id
          ≡ m.config.server_id ++ servers_from m.config.node_id rs)
        × ((register_all rs m).config.agent_id
            ≡ m.config.agent_id ++ agents_from m.config.node_id rs)
  unfolding register_all process_register servers_from agents_from append_server append_agent
      add_node
  register_all-ids [] m = (sym (append-nil m.config.server_id), sym (append-nil m.config.agent_id))
  register_all-ids (r ∷ rest) m =
      let id = pos m.config.node_id in
      let more = register_all-ids rest (process_register r m) in
      elim (Bool-cases r.is_server) [
        | inl server ↦
            let after = rw server at more in
            rw server (
              after.0
                  ∙ append_assoc m.config.server_id (id ∷ [])
                      (servers_from (suc m.config.node_id) rest),
              after.1,
            )
        | inr agent ↦
            let after = rw agent at more in
            rw agent (
              after.0,
              after.1
                  ∙ append_assoc m.config.agent_id (id ∷ [])
                      (agents_from (suc m.config.node_id) rest),
            )
      ]

  -- A master that starts from the flags, with its own addresses, and any registrations: the nodes
  -- have the ids 0, 1, … in the order in which they came, the masters first, the ids of those that
  -- registered as servers are the list of the servers and those of the others the list of the agents,
  -- both in that order, no id belongs to two, and `ToMessage` succeeds and lists at each id's place
  -- the address that its node gave.
  pub register_all-to_message :
      (worker_num server_num key_range bound backup_size : ℕ) (master_ip_port : Addr)
      (rs : List RegisterMessage) (m : Master F)
      → m.config ≡ TaskConfig.initialize worker_num server_num key_range bound backup_size
      → let c = (register_all rs (initialize master_ip_port m).1).config in
        let addrs = some_parts (split 44 master_ip_port) ++ map node_addr rs in
        let first = length (some_parts (split 44 master_ip_port)) in
        IsRegistered c addrs
        × (c.server_id ≡ servers_from first rs)
        × (c.agent_id ≡ agents_from first rs)
        × (to_message c ≡ some (message_of c addrs))
  unfolding initialize TaskConfig.initialize
  register_all-to_message worker_num server_num key_range bound backup_size master_ip_port rs m e =
      let start =
        subst (λ c. IsRegistered c []) (sym e)
          (initialize-IsRegistered worker_num server_num key_range bound backup_size) in
      let own = append_masters-IsRegistered (split 44 master_ip_port) 0 m.config [] start in
      let all =
        register_all-IsRegistered rs (initialize master_ip_port m).1
          (some_parts (split 44 master_ip_port)) own in
      let started = initialize master_ip_port m in
      let ids = register_all-ids rs started.1 in
      let before = append_masters-ids (split 44 master_ip_port) 0 m.config in
      let servers : started.1.config.server_id ≡ [] = before.0 ∙ ap (λ c. c.server_id) e in
      let agents : started.1.config.agent_id ≡ [] = before.1 ∙ ap (λ c. c.agent_id) e in
      (
        all,
        ids.0 ∙ ap₂ (λ l k. l ++ servers_from k rs) servers own.next,
        ids.1 ∙ ap₂ (λ l k. l ++ agents_from k rs) agents own.next,
        to_message-IsRegistered (register_all rs (initialize master_ip_port m).1).config
            (some_parts (split 44 master_ip_port) ++ map node_addr rs) all,
      )
