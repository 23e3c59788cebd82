-- ===== src/Server/Reconfigure.antt =====
-- src/server/server.cc: Reconfigure, a second configuration while the server runs.
use plug_in_ml.Base.{
  ℕ, zero, suc, ◌-◌, Bool, true, false, Option, some, none, List, [], ◌∷◌, ◌++◌, ℤ, ◌==ℤ◌,
  get_elem?, set, length, lookup, insert, assign, erase, contains, for, ◌>>=◌, if◌then◌else◌,
}
use plug_in_ml.Message.{Addr, ConfigMessage}
use plug_in_ml.Communicator.{refresh_addresses}
use plug_in_ml.Server.State.{Server, index_of, touch}
use plug_in_ml.Server.Pull.{respond_to_all}
use plug_in_ml.Server.Backup.{extend_parameter}
use plug_in_ml.Server.Configure.{take_range, add_agents}

-- `for (i = 0; i < n; i++) finish_count_[i]--`. A count is at least 1 where this runs.
unfoldable pub uncount : ℕ → List ℕ → Option (List ℕ)
uncount zero counts = some counts
uncount (suc n) [] = none
uncount (suc n) (c ∷ counts) = do rest ← uncount n counts; some ((c - 1) ∷ rest)

module _ {F : Type 0} where
  -- The loop over the servers; the copies stay.
  unfoldable pub readd_server : ConfigMessage → ℕ → Server F × Bool → Option (Server F × Bool)
  readd_server config i (s, found) = do
    id ← get_elem? config.server_id i
    let added = record s { server_ids = s.server_ids ++ id ∷ []; servers = insert id i s.servers }
    if id ==ℤ s.local_id
        then (do placed ← take_range config i added; some (placed, true))
        else some (added, found)

  -- An agent that is not in the configuration loses its updates, their counts and its index.
  unfoldable pub drop_agent : ℤ → Server F → Option (Server F)
  drop_agent id s = do
    let ids = touch id s.id_to_index
    let index = index_of id ids
    buffer ← get_elem? s.version_buffer index
    counts ← uncount (length buffer) s.finish_count
    some (record s {
      finish_count = counts;
      version_buffer = set s.version_buffer index [];
      id_to_index = erase id ids;
    })

  unfoldable pub drop_agents : List ℤ → List ℤ → Server F → Option (Server F)
  drop_agents workers [] s = some s
  drop_agents workers (id ∷ rest) s = do
    s' ← (if contains id workers then some s else drop_agent id s)
    drop_agents workers rest s'

  -- A worker without an index gets a new buffer. The loop runs to the agents' number so far.
  unfoldable pub index_worker : ConfigMessage → ℕ → Server F → Option (Server F)
  index_worker config i s = do
    id ← get_elem? config.worker_id i
    some (elim (lookup id s.id_to_index) [
      | some index ↦ s
      | none ↦ record s {
        id_to_index = assign id (length s.version_buffer) s.id_to_index;
        version_buffer = s.version_buffer ++ [] ∷ [];
      }
    ])

  -- What follows the search for this server's range.
  unfoldable pub readmit : (Addr → ℤ) → ConfigMessage → Server F → Option (Server F)
  readmit zmq_close config s = do
    dropped ← drop_agents config.worker_id s.agent_ids (record s {
      sender = refresh_addresses zmq_close 0 config.node_ip_port s.sender;
      master_ids = config.master_id;
    })
    indexed ←
        for dropped.agent_num 0 (index_worker config)
          (record dropped { agent_ids = add_agents config.worker_id [] })
    extended ← extend_parameter indexed
    some (record extended { agent_num = config.worker_num })

  unfoldable pub reconfigure : (Addr → ℤ) → ConfigMessage → Server F → Option (Server F)
  reconfigure zmq_close config s = do
    answered ← respond_to_all s
    (ranged, found) ← for config.server_num 0 (readd_server config) (
      record answered {
        server_num = config.server_num;
        key_range = config.key_range;
        server_ids = [];
        servers = [];
      },
      false,
    )
    if found then readmit zmq_close config ranged else some ranged
