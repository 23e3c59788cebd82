-- ===== src/Server/Started.antt =====
-- src/server/server.cc: Initialize from the configuration on, as a whole.
use plug_in_ml.Base.{
  ℕ, suc, ◌≤◌, ◌<◌, ◌≡◌, refl, sym, ap, ◌∙◌, Bool, true, false, some, List, [], ◌∷◌, ◌++◌, ℤ, pos,
  tail, get_elem?, length, length-append, length-replicate, replicate, All, contains, for,
  for_total, leb, arith, inl, inr, Option-cases,
}
use mathlib.Core.Path.{subst}
use plug_in_ml.Floats.{FloatOps, zero_value}
use plug_in_ml.Message.{Addr, Message, ConfigMessage}
use plug_in_ml.Communicator.{Sender, add_id_addr}
use plug_in_ml.Server.KeyValueList.{KeyValueList}
use plug_in_ml.Server.State.{Server}
use plug_in_ml.Server.Configure.{
  add_addresses, take_range, add_server, add_agents, index_agent, fill_containers, read_config,
  configure,
}
use plug_in_ml.Server.Average.{IsUpdate}
use plug_in_ml.Server.Found.{IsListed, Looked, add_server_total}
use plug_in_ml.Server.Containers.{
  count_longer-replicate, tally-replicate, All-replicate, Indexed, Indexed-empty,
  index_agent-Indexed, contains-agents, contains-place,
}
use plug_in_ml.Server.Serving.{IsServing}

-- A configuration from which the server `recv_id` can start.
pub record IsComplete (recv_id : ℤ) (config : ConfigMessage) : Type 0 where
  pub listed : IsListed config
  pub some_bound : 0 < config.bound
  pub some_agent : 0 < config.worker_num
  pub agents : length config.worker_id ≡ config.worker_num
  pub copies : config.backup_size < config.server_num
  pub own : contains recv_id config.server_id ≡ true

-- What `Initialize` passes on before the configuration is read.
pub record IsFresh {F : Type 0} (s : Server F) : Type 0 where
  pub no_servers : s.server_ids ≡ []
  pub no_agents : s.agent_ids ≡ []
  pub no_parameters : s.parameters ≡ []
  pub no_buffers : s.version_buffer ≡ []
  pub no_counts : s.finish_count ≡ []
  pub no_requests : s.pull_request ≡ []
  pub no_places : s.id_to_index ≡ []

-- What the loop over the servers leaves alone, and how many ids it has kept.
record Ranged {F : Type 0} (config : ConfigMessage) (k : ℕ) (st : Server F × Bool) : Type 0 where
  peers : length st.0.server_ids ≡ k
  bound : st.0.consistency_bound ≡ config.bound
  agent_count : st.0.agent_num ≡ config.worker_num
  server_count : st.0.server_num ≡ config.server_num
  copy_count : st.0.backup_size ≡ config.backup_size
  no_agents : st.0.agent_ids ≡ []
  no_parameters : st.0.parameters ≡ []
  no_buffers : st.0.version_buffer ≡ []
  no_counts : st.0.finish_count ≡ []
  no_requests : st.0.pull_request ≡ []
  no_places : st.0.id_to_index ≡ []

module _ {F : Type 0} ⦃ops : FloatOps F⦄ where
  add_server-Ranged :
      (config : ConfigMessage) (i : ℕ) (st st' : Server F × Bool)
      → add_server config i st ≡ some st'
      → Ranged config i st
      → Ranged config (suc i) st'
  unfolding add_server take_range
  add_server-Ranged config i (s, found) st' e v = record {
    peers = elim (Option-cases (get_elem? config.server_id i)) [
      | inl stop ↦ ground (arith, e, stop)
      | inr (id, here) ↦ ground (arith, e, here, v.peers, length-append s.server_ids (id ∷ []))
    ];
    bound = ground (arith, e, v.bound);
    agent_count = ground (arith, e, v.agent_count);
    server_count = ground (arith, e, v.server_count);
    copy_count = ground (arith, e, v.copy_count);
    no_agents = ground (arith, e, v.no_agents);
    no_parameters = ground (arith, e, v.no_parameters);
    no_buffers = ground (arith, e, v.no_buffers);
    no_counts = ground (arith, e, v.no_counts);
    no_requests = ground (arith, e, v.no_requests);
    no_places = ground (arith, e, v.no_places);
  }

  add_addresses-eq :
      (i : ℕ) (addrs : List Addr) (s : Server F)
      → (c : Sender (Message F)) × (add_addresses i addrs s ≡ record s { sender = c })
  unfolding add_addresses
  add_addresses-eq i [] s = (s.sender, refl)
  add_addresses-eq i (addr ∷ addrs) s =
      let rest =
        add_addresses-eq (suc i) addrs
          (record s { sender = (add_id_addr (pos i) addr s.sender).1 }) in
      (rest.0, rest.1)

  read_config-Ranged :
      (recv_id : ℤ) (config : ConfigMessage) (s : Server F)
      → IsFresh s
      → Ranged config 0 (read_config recv_id config s, false)
  unfolding read_config
  read_config-Ranged recv_id config s f =
      let same = add_addresses-eq 1 (tail config.node_ip_port) (record s {
        local_id = recv_id;
        bottom_version = 0;
        consistency_bound = config.bound;
        agent_num = config.worker_num;
        server_num = config.server_num;
        backup_size = config.backup_size;
        key_range = config.key_range;
      }) in
      rw same.1 (record {
        peers = ap length f.no_servers;
        bound = refl;
        agent_count = refl;
        server_count = refl;
        copy_count = refl;
        no_agents = f.no_agents;
        no_parameters = f.no_parameters;
        no_buffers = f.no_buffers;
        no_counts = f.no_counts;
        no_requests = f.no_requests;
        no_places = f.no_places;
      })

  -- The server with its containers filled.
  abbrev filled : ConfigMessage → Server F → List (ℤ × ℕ) → Server F
  filled config s ids = record s {
    agent_ids = add_agents config.worker_id [];
    master_ids = s.master_ids ++ config.master_id;
    id_to_index = ids;
    parameters = replicate s.parameter_length zero_value;
    finish_count = replicate s.consistency_bound 0;
    version_buffer = replicate s.agent_num [];
  }

  filled-IsServing :
      (config : ConfigMessage) (s : Server F) (ids : List (ℤ × ℕ))
      → 0 < s.consistency_bound
      → 0 < s.agent_num
      → length config.worker_id ≡ s.agent_num
      → s.backup_size < s.server_num
      → length s.server_ids ≡ s.server_num
      → s.pull_request ≡ []
      → Indexed config s.agent_num ids
      → IsServing (filled config s ids)
  filled-IsServing config s ids some_bound some_agent all copies peers none_waiting v = record {
    filled = record {
      bound_pos = some_bound;
      agents = length-replicate s.agent_num [];
      counts = tally-replicate (KeyValueList F) 0 s.consistency_bound s.agent_num;
      full = All-replicate (λ q. length q ≤ s.consistency_bound) s.agent_num [] (omega arith);
      updates = All-replicate (All (IsUpdate s.start_key s.parameter_length)) s.agent_num [] tt;
      sized = length-replicate s.parameter_length zero_value;
      requests = rw none_waiting tt;
      peers = peers;
      copies = copies;
      indexed = v.indexed;
      known = λ id h.
          let place = contains-place id config.worker_id (contains-agents id config.worker_id h) in
          v.known id place.0 (omega (arith, place.1, all)) place.2;
    };
    unfinished = omega (arith, count_longer-replicate (KeyValueList F) 0 s.agent_num);
  }

  fill_containers_lem :
      (config : ConfigMessage) (s : Server F) (found : Bool)
      → Ranged config s.server_num (s, found)
      → length config.worker_id ≡ s.agent_num
      → (ids : List (ℤ × ℕ)) × (fill_containers config s ≡ some (filled config s ids))
        × Indexed config s.agent_num ids
  unfolding fill_containers
  fill_containers_lem config s found v all =
      let loop =
        for_total (Indexed config) (index_agent config) 0 s.agent_num
          (λ k ids lo hi p. index_agent-Indexed config k ids p (omega (arith, all))) s.agent_num 0
          s.id_to_index (omega arith) (omega arith)
          (Indexed-empty config s.id_to_index v.no_places) in
      (loop.0, rw (loop.1, v.no_agents, v.no_parameters, v.no_counts, v.no_buffers) refl, loop.2)

  read_config-local :
      (recv_id : ℤ) (config : ConfigMessage) (s : Server F)
      → (read_config recv_id config s).local_id ≡ recv_id
  unfolding read_config
  read_config-local recv_id config s =
      ap (λ t. t.local_id)
        (add_addresses-eq 1 (tail config.node_ip_port) (record s {
          local_id = recv_id;
          bottom_version = 0;
          consistency_bound = config.bound;
          agent_num = config.worker_num;
          server_num = config.server_num;
          backup_size = config.backup_size;
          key_range = config.key_range;
        })).1

  -- The loop over the servers ends with the own server found.
  find_servers :
      (recv_id : ℤ) (config : ConfigMessage) (s : Server F)
      → IsComplete recv_id config
      → Ranged config 0 (s, false)
      → s.local_id ≡ recv_id
      → (t : Server F) × (for s.server_num 0 (add_server config) (s, false) ≡ some (t, true))
        × Ranged config config.server_num (t, true)
  find_servers recv_id config s c ranged local =
      let place = contains-place recv_id config.server_id c.own in
      let loop =
        for_total (λ k st. Ranged config k st × Looked config recv_id k st) (add_server config) 0
          config.server_num
          (λ i st lo hi p.
            let next = add_server_total config recv_id i st c.listed hi p.1 in
            (next.0, next.1, (add_server-Ranged config i st next.0 next.1 p.0, next.2)))
          s.server_num 0 (s, false) (omega arith) (omega (arith, ranged.server_count))
          (ranged, record { same_id = local; seen = λ j lt e. absurd (omega arith) }) in
      let found = loop.2.1.seen place.0 (omega (arith, place.1, c.listed.ids)) place.2 in
      let same : loop.0 ≡ (loop.0.0, true) = ap (λ b. (loop.0.0, b)) found in
      (loop.0.0, loop.1 ∙ ap some same, subst (Ranged config config.server_num) same loop.2.0)

  -- `Initialize` on a configuration with a positive bound, fewer copies than servers, a partition
  -- element inside the key range and an id for each server, the own id among them, and at least one
  -- worker with an id for each: nothing is read out of range, it returns true, and the server serves.
  pub configure-IsServing :
      (recv_id : ℤ) (config : ConfigMessage) (s : Server F)
      → IsFresh s
      → IsComplete recv_id config
      → (s' : Server F) × (configure recv_id config s ≡ some (true, s')) × IsServing s'
  unfolding configure
  configure-IsServing recv_id config s f c =
      let start = read_config recv_id config s in
      let ranged = read_config-Ranged recv_id config s f in
      let loop = find_servers recv_id config start c ranged (read_config-local recv_id config s) in
      let t = loop.0 in
      let kept = loop.2 in
      let all = c.agents ∙ sym kept.agent_count in
      let same_count = subst (λ k. Ranged config k (t, true)) (sym kept.server_count) kept in
      let fill = fill_containers_lem config t true same_count all in
      let few : leb start.server_num start.backup_size ≡ false =
        ground (arith, ranged.server_count, ranged.copy_count, c.copies) in
      (
        filled config t fill.0,
        rw (few, loop.1, fill.1) refl,
        filled-IsServing config t fill.0 (omega (arith, c.some_bound, kept.bound))
            (omega (arith, c.some_agent, kept.agent_count)) all
            (omega (arith, c.copies, kept.copy_count, kept.server_count)) same_count.peers
            kept.no_requests fill.2,
      )
