-- ===== src/Server/Renewed.antt =====
-- src/server/server.cc: Reconfigure with a configuration that leaves this server its keys and its
-- agents.
use plug_in_ml.Base.{ℕ, ◌≡◌, refl, sym, ◌∙◌, some, List, [], ◌++◌, ℤ, length, All-map, arith}
use plug_in_ml.Message.{Addr, ConfigMessage}
use plug_in_ml.Message.{Message}
use plug_in_ml.Communicator.{Sender, refresh_addresses}
use plug_in_ml.Server.State.{Server}
use plug_in_ml.Server.Configure.{add_agents}
use plug_in_ml.Server.Reconfigure.{reconfigure}
use plug_in_ml.Server.Respond.{IsRequest, answered, respond_to_all_lem}
use plug_in_ml.Server.Replied.{Behind, Value, Replied, Replies-Replied}
use plug_in_ml.Server.Store.{Waits}
use plug_in_ml.Server.EndRound.{Waits-IsRequest}
use plug_in_ml.Server.Serving.{IsServing}
use plug_in_ml.Server.Containers.{contains-agents}
use plug_in_ml.Server.Readded.{Renews, Lists, readd_all, readmit_lem}

module _ {F : Type 0} where
  -- What the configuration changes.
  abbrev pub renewed :
      Server F → ConfigMessage → Sender (Message F) → List ℤ → List (ℤ × ℕ) → ℕ → Server F
  renewed s config sender ids servers index = record s {
    sender = sender;
    server_num = config.server_num;
    key_range = config.key_range;
    server_ids = ids;
    servers = servers;
    local_index = index;
    master_ids = config.master_id;
    agent_ids = add_agents config.worker_id [];
    agent_num = config.worker_num;
    pull_request = [];
  }

  -- The server after `RespondToAll` and before the loop over the servers.
  abbrev cleared : Server F → ConfigMessage → List (ℤ × Message F) → Server F
  cleared s config sent = record (answered s sent) {
    server_num = config.server_num;
    key_range = config.key_range;
    server_ids = [];
    servers = [];
  }

  cleared-Renews :
      (config : ConfigMessage) (s : Server F) (i : ℕ) (sent : List (ℤ × Message F))
      → Renews config s i
      → Renews config (cleared s config sent) i
  cleared-Renews config s i sent v = record {
    ids = v.ids;
    place = v.place;
    no_twice = v.no_twice;
    same_start = v.same_start;
    same_length = v.same_length;
    copies = v.copies;
    same_num = v.same_num;
    some_workers = v.some_workers;
    kept = v.kept;
    known = v.known;
  }

  renewed-IsServing :
      (s : Server F) (config : ConfigMessage) (i : ℕ) (sender : Sender (Message F)) (ids : List ℤ)
      (servers : List (ℤ × ℕ)) (index : ℕ)
      → IsServing s
      → Renews config s i
      → length ids ≡ config.server_num
      → IsServing (renewed s config sender ids servers index)
  renewed-IsServing s config i sender ids servers index v r count = record {
    filled = record {
      bound_pos = v.filled.bound_pos;
      agents = v.filled.agents ∙ sym r.same_num;
      counts = v.filled.counts;
      full = v.filled.full;
      updates = v.filled.updates;
      sized = v.filled.sized;
      requests = tt;
      peers = count;
      copies = r.copies;
      indexed = λ id j e. omega (arith, v.filled.indexed id j e, r.same_num);
      known = λ id h. r.known id (contains-agents id config.worker_id h);
    };
    unfinished = omega (arith, v.unfinished, r.same_num);
  }

  -- A server that serves gets a second configuration, in which no agent leaves or joins, no server
  -- has two places, and the server stands at place `i` with the segment that it has: `Reconfigure`
  -- reads nothing out of range, answers every request that waits, in order, with its keys and for
  -- each the parameter at its distance from the start, keeps the parameters and the
  -- updates that wait, and the server serves on. Its list of servers is then the configuration's, in
  -- order, its map gives each of them its place there and no other node one, and its own place is `i`.
  pub reconfigure-IsServing :
      (zmq_close : Addr → ℤ) (config : ConfigMessage) (s : Server F) (i : ℕ)
      → IsServing s
      → Renews config s i
      → (s' : Server F) × (replies : List (ℤ × Message F)) × (reconfigure zmq_close config s
          ≡ some s')
        × IsServing s'
        × Replied (Value (Behind s.start_key) s.parameters) s.local_id s.pull_request replies
        × (s'.sender
            ≡ refresh_addresses zmq_close 0 config.node_ip_port
                (record s.sender { sent = s.sender.sent ++ replies }))
        × (s'.pull_request ≡ [])
        × (s'.parameters ≡ s.parameters)
        × (s'.version_buffer ≡ s.version_buffer)
        × (s'.server_num ≡ config.server_num)
        × Lists config config.server_num s'.server_ids s'.servers
        × (s'.local_index ≡ i)
  unfolding reconfigure
  reconfigure-IsServing zmq_close config s i v r =
      let replied = respond_to_all_lem s (
        All-map (Waits s.start_key s.parameter_length) (IsRequest s)
          (λ p w. Waits-IsRequest s p v.filled.sized w) s.pull_request v.filled.requests) in
      let s₁ = cleared s config (s.sender.sent ++ replied.0) in
      let r₁ = cleared-Renews config s i (s.sender.sent ++ replied.0) r in
      let loop = readd_all config s₁ i r₁ refl refl in
      let s₂ = record s₁ { server_ids = loop.0; servers = loop.1; local_index = loop.2 } in
      let admitted = readmit_lem zmq_close config s₂ v.filled.sized r.some_workers r.kept r.known in
      let sender =
        refresh_addresses zmq_close 0 config.node_ip_port
          (record s.sender { sent = s.sender.sent ++ replied.0 }) in
      (
        renewed s config sender loop.0 loop.1 loop.2,
        replied.0,
        rw (replied.1, loop.3, admitted) refl,
        renewed-IsServing s config i sender loop.0 loop.1 loop.2 v r loop.4.counted,
        Replies-Replied s s.pull_request replied.0 replied.2,
        refl,
        refl,
        refl,
        refl,
        refl,
        loop.4,
        loop.5,
      )
