-- ===== src/Master/TaskConfig.antt =====
-- src/master/task_config.h and task_config.cc: the configuration of the cluster.
use plug_in_ml.Base.{
  ℕ, zero, suc, Bool, true, false, ◌&&◌, Option, some, none, List, [], ◌∷◌, ◌++◌, ℤ, pos, ltb_ℤ,
  ◌==ℤ◌, negsuc, length, map, lookup, assign, insert, contains, ◌==◌, ◌>>=◌, if◌then◌else◌,
}
use plug_in_ml.Message.{Addr, ConfigMessage}
use plug_in_ml.Text.{print_nat}
use plug_in_ml.Agent.State.{put}
use plug_in_ml.Agent.Sort.{sort}

pub record TaskConfig : Type 0 where
  pub worker_num : ℕ
  pub server_num : ℕ
  pub key_range : ℕ
  pub backup_size : ℕ
  pub partition : List ℤ
  pub server_id : List ℤ
  pub agent_id : List ℤ
  pub master_id : List ℤ
  pub id_to_addr : List (ℤ × Addr)
  pub bound : ℕ
  pub node_id : ℕ
  pub config_changed : Bool

-- `Initialize`: the flags worker_num, server_num, key_range, bound and backup_size.
unfoldable pub initialize : ℕ → ℕ → ℕ → ℕ → ℕ → TaskConfig
initialize worker_num server_num key_range bound backup_size = record {
  worker_num = worker_num;
  server_num = server_num;
  key_range = key_range;
  backup_size = backup_size;
  partition = [];
  server_id = [];
  agent_id = [];
  master_id = [];
  id_to_addr = [];
  bound = bound;
  node_id = 0;
  config_changed = false;
}

-- `ip + ":" + std::to_string(port)`
unfoldable pub join_addr : Addr → ℕ → Addr
join_addr ip port = ip ++ 58 ∷ print_nat port

-- The node gets the next id.
unfoldable pub add_node : Addr → TaskConfig → TaskConfig
add_node addr c = record c {
  id_to_addr = assign (pos c.node_id) addr c.id_to_addr;
  node_id = suc c.node_id;
}

unfoldable pub append_server : Addr → ℕ → TaskConfig → TaskConfig
unfolding add_node
append_server ip port c =
    add_node (join_addr ip port) (record c { server_id = c.server_id ++ pos c.node_id ∷ [] })

unfoldable pub append_agent : Addr → ℕ → TaskConfig → TaskConfig
unfolding add_node
append_agent ip port c =
    add_node (join_addr ip port) (record c { agent_id = c.agent_id ++ pos c.node_id ∷ [] })

unfoldable pub append_master_at : Addr → ℕ → TaskConfig → TaskConfig
unfolding add_node
append_master_at ip port c =
    add_node (join_addr ip port) (record c { master_id = c.master_id ++ pos c.node_id ∷ [] })

unfoldable pub append_master : Addr → TaskConfig → TaskConfig
unfolding add_node
append_master ip_port c =
    add_node ip_port (record c { master_id = c.master_id ++ pos c.node_id ∷ [] })

unfoldable pub ready : TaskConfig → Bool
ready c = (length c.server_id == c.server_num) && (length c.agent_id == c.worker_num)

-- `id_to_addr_[id]` inserts an empty address for an id that is not there.
unfoldable pub get_ip : ℤ → TaskConfig → Addr × TaskConfig
get_ip id c = (
  elim (lookup id c.id_to_addr) [ none ↦ [] | some addr ↦ addr ],
  record c { id_to_addr = insert id [] c.id_to_addr },
)

unfoldable pub get_id_addr : ℤ → TaskConfig → Addr
get_id_addr id c = elim (lookup id c.id_to_addr) [ none ↦ [] | some addr ↦ addr ]

unfoldable pub get_node_ip : TaskConfig → List Addr
get_node_ip c = map (λ entry. entry.1) c.id_to_addr

unfoldable pub is_master_id : ℤ → TaskConfig → Bool
is_master_id id c = contains id c.master_id

unfoldable pub is_server_id : ℤ → TaskConfig → Bool
is_server_id id c = contains id c.server_id

unfoldable pub is_agent_id : ℤ → TaskConfig → Bool
is_agent_id id c = contains id c.agent_id

-- `count` draws of the distribution on [1, key_range - 2], from the `i`-th on.
unfoldable pub draws : (ℕ → ℤ) → ℕ → ℕ → List ℤ
draws draw zero i = []
draws draw (suc count) i = draw i ∷ draws draw count (suc i)

unfoldable pub generate_partition : (ℕ → ℤ) → TaskConfig → TaskConfig
unfolding draws
generate_partition draw c = record c { partition = sort (c.partition ++ draws draw c.server_num 0) }

-- The entries of the table in the order of their ids.
unfoldable pub insert_entry : ℤ × Addr → List (ℤ × Addr) → List (ℤ × Addr)
insert_entry e [] = e ∷ []
insert_entry e (d ∷ ds) = if ltb_ℤ d.0 e.0 then d ∷ insert_entry e ds else e ∷ d ∷ ds

unfoldable pub sort_entries : List (ℤ × Addr) → List (ℤ × Addr)
unfolding insert_entry
sort_entries [] = []
sort_entries (e ∷ es) = insert_entry e (sort_entries es)

-- `set_node_ip_port(id, addr)` for each entry: the id is an index, which has to be in range.
unfoldable pub set_addresses : List (ℤ × Addr) → List Addr → Option (List Addr)
set_addresses [] addrs = some addrs
set_addresses ((pos i, addr) ∷ es) addrs = do addrs' ← put addrs i addr; set_addresses es addrs'
set_addresses ((negsuc i, addr) ∷ es) addrs = none

unfoldable pub to_message : TaskConfig → Option ConfigMessage
unfolding sort_entries set_addresses
to_message c = do
  addrs ← set_addresses c.id_to_addr (map (λ e. e.1) (sort_entries c.id_to_addr))
  some (record {
    worker_num = c.worker_num;
    server_num = c.server_num;
    key_range = c.key_range;
    node_ip_port = addrs;
    partition = c.partition;
    backup_size = c.backup_size;
    server_id = c.server_id;
    worker_id = c.agent_id;
    master_id = c.master_id;
    bound = c.bound;
  })

-- The place of the first occurrence, and a list without the element at a place.
unfoldable pub find_index : ℤ → List ℤ → ℕ
find_index id [] = 0
find_index id (x ∷ xs) = if x ==ℤ id then 0 else suc (find_index id xs)

unfoldable pub erase_at {ℓ} : {A : Type ℓ} → ℕ → List A → List A
erase_at i [] = []
erase_at zero (x ∷ xs) = xs
erase_at (suc i) (x ∷ xs) = x ∷ erase_at i xs

-- One dead node of the loop of `FixConfig`: an agent's id goes, or a server's with its part.
unfoldable pub fix_node : ℤ → TaskConfig → TaskConfig
fix_node id c =
    if is_agent_id id c
    then record c { agent_id = erase_at (find_index id c.agent_id) c.agent_id }
    else (if is_server_id id c
        then record c {
          server_id = erase_at (find_index id c.server_id) c.server_id;
          partition = erase_at (find_index id c.server_id) c.partition;
        }
        else c)

unfoldable pub fix_nodes : List ℤ → TaskConfig → TaskConfig
unfolding fix_node
fix_nodes [] c = c
fix_nodes (id ∷ rest) c = fix_nodes rest (fix_node id c)

unfoldable pub fix_config : List ℤ → TaskConfig → TaskConfig
unfolding fix_nodes
fix_config [] c = c
fix_config (id ∷ rest) c = fix_nodes (id ∷ rest) (record c { config_changed = true })
