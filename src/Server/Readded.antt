-- ===== src/Server/Readded.antt =====
-- src/server/server.cc: the loops of Reconfigure, with a configuration that leaves this server its
-- keys and its agents.
use plug_in_ml.Base.{
  ℕ, zero, suc, ◌+◌, ◌≤◌, ◌<◌, ◌≡◌, refl, sym, ap, ap₂, ◌∙◌, Bool, true, false, none, some, List,
  [], ◌∷◌, ◌++◌, ℤ, ◌==ℤ◌, ==ℤ_refl, ==ℤ→eq, ==ℤ→ne, get_elem?, get_elem?-some, get_elem?-lt,
  length, length-append, lookup, insert, contains, contains-get_elem?, for, for_total, ◌==◌, arith,
  Bool-cases, inl, inr, lookup-insert_new, lookup-insert_other, lookup-insert_old, get_elem?-append,
  get_elem?-middle,
}
use mathlib.Core.Path.{subst}
use native.Mathlib.Decide.{dec_lt}
use plug_in_ml.Message.{Addr, ConfigMessage}
use plug_in_ml.Communicator.{refresh_addresses}
use plug_in_ml.Server.State.{Server}
use plug_in_ml.Server.Backup.{extend_with, extend_parameter}
use plug_in_ml.Server.Configure.{range_length, take_range, add_agents}
use plug_in_ml.Server.Reconfigure.{readd_server, drop_agents, index_worker, readmit}

-- A configuration in which the server stands at place `i`, with the segment that it has, and which
-- has the agents that the server knows, all of them and no other.
pub record Renews {F : Type 0} (config : ConfigMessage) (s : Server F) (i : ℕ) : Type 0 where
  pub ids : length config.server_id ≡ config.server_num
  pub place : get_elem? config.server_id i ≡ some s.local_id
  pub no_twice :
      (j k : ℕ) (id : ℤ)
      → get_elem? config.server_id j ≡ some id
      → get_elem? config.server_id k ≡ some id
      → j ≡ k
  pub same_start : get_elem? config.partition i ≡ some s.start_key
  pub same_length : range_length config i ≡ some s.parameter_length
  pub copies : s.backup_size < config.server_num
  pub same_num : config.worker_num ≡ s.agent_num
  pub some_workers : s.agent_num ≤ length config.worker_id
  pub kept : (id : ℤ) → contains id s.agent_ids ≡ true → contains id config.worker_id ≡ true
  pub known :
      (id : ℤ)
      → contains id config.worker_id ≡ true
      → (index : ℕ) × (lookup id s.id_to_index ≡ some index)

-- The first `k` servers of a configuration, as a server keeps them: their ids in order, and the
-- place of each; no other id has a place.
pub record Lists (config : ConfigMessage) (k : ℕ) (ids : List ℤ) (servers : List (ℤ × ℕ))
    : Type 0 where
  pub counted : length ids ≡ k
  pub each :
      (j : ℕ) (id : ℤ)
      → j < k
      → get_elem? config.server_id j ≡ some id
      → (get_elem? ids j ≡ some id) × (lookup id servers ≡ some j)
  pub others :
      (id : ℤ)
      → ((j : ℕ) → j < k → ¬ (get_elem? config.server_id j ≡ some id))
      → lookup id servers ≡ none

Lists-suc :
    (config : ConfigMessage) (k : ℕ) (ids : List ℤ) (servers : List (ℤ × ℕ)) (id : ℤ)
    → ((j k : ℕ) (x : ℤ)
        → get_elem? config.server_id j ≡ some x
        → get_elem? config.server_id k ≡ some x
        → j ≡ k)
    → get_elem? config.server_id k ≡ some id
    → Lists config k ids servers
    → Lists config (suc k) (ids ++ id ∷ []) (insert id k servers)
Lists-suc config k ids servers id no_twice here l = record {
  counted = omega (arith, l.counted, length-append ids (id ∷ []));
  each = each;
  others = λ x h.
      let apart : (id ==ℤ x) ≡ false =
        ==ℤ-apart id x (λ same. h k (omega arith) (here ∙ ap some same)) in
      lookup-insert_other id x k servers apart ∙ l.others x (λ j lt. h j (omega arith));
}
  where
    ==ℤ-apart : (a b : ℤ) → ¬ (a ≡ b) → (a ==ℤ b) ≡ false
    ==ℤ-apart a b ne = elim (Bool-cases (a ==ℤ b)) [
      | inl same ↦ absurd (ne (==ℤ→eq a b same))
      | inr other ↦ other
    ]

    some-eq : {a b : ℤ} → some a ≡ some b → a ≡ b
    some-eq e = cc

    each :
        (j : ℕ) (x : ℤ)
        → j < suc k
        → get_elem? config.server_id j ≡ some x
        → (get_elem? (ids ++ id ∷ []) j ≡ some x) × (lookup x (insert id k servers) ≡ some j)
    each j x lt e = elim (dec_lt j k) [
      | yes below ↦
          let old = l.each j x below e in
          (get_elem?-append ids (id ∷ []) j x old.0, lookup-insert_old id x k j servers old.1)
      | no last ↦
          let at_end : j ≡ k = omega arith in
          let same : id ≡ x =
            some-eq (sym here ∙ ap (get_elem? config.server_id) (sym at_end) ∙ e) in
          let new : lookup x servers ≡ none =
            l.others x (λ i less f. absurd (omega (arith, no_twice i j x f e))) in
          (
            ap (get_elem? (ids ++ id ∷ [])) (at_end ∙ sym l.counted)
                ∙ get_elem?-middle ids id []
                ∙ ap some same,
            rw same (lookup-insert_new x k servers new) ∙ ap some (sym at_end),
          )
    ]

module _ {F : Type 0} where
  -- After `k` servers of the loop.
  record Readded (config : ConfigMessage) (s : Server F) (i k : ℕ) (st : Server F × Bool)
      : Type 0 where
    server_ids : List ℤ
    servers : List (ℤ × ℕ)
    index : ℕ
    listed : Lists config k server_ids servers
    own : i < k → index ≡ i
    same : st.0 ≡ record s { server_ids = server_ids; servers = servers; local_index = index }
    found : i < k → st.1 ≡ true

  readd_own :
      (config : ConfigMessage) (s : Server F) (k : ℕ) (ids : List ℤ) (servers : List (ℤ × ℕ))
      (index : ℕ) (id : ℤ) (found : Bool)
      → get_elem? config.server_id k ≡ some id
      → (id ==ℤ s.local_id) ≡ true
      → get_elem? config.partition k ≡ some s.start_key
      → range_length config k ≡ some s.parameter_length
      → readd_server config k
          (record s { server_ids = ids; servers = servers; local_index = index }, found)
        ≡ some (
          record s { server_ids = ids ++ id ∷ []; servers = insert id k servers; local_index = k },
          true,
        )
  unfolding readd_server take_range
  readd_own config s k ids servers index id found e own start len = rw (e, own, start, len) refl

  readd_other :
      (config : ConfigMessage) (s : Server F) (k : ℕ) (ids : List ℤ) (servers : List (ℤ × ℕ))
      (index : ℕ) (id : ℤ) (found : Bool)
      → get_elem? config.server_id k ≡ some id
      → (id ==ℤ s.local_id) ≡ false
      → readd_server config k
          (record s { server_ids = ids; servers = servers; local_index = index }, found)
        ≡ some (
          record s {
            server_ids = ids ++ id ∷ [];
            servers = insert id k servers;
            local_index = index;
          },
          found,
        )
  unfolding readd_server
  readd_other config s k ids servers index id found e other = rw (e, other) refl

  readd_step :
      (config : ConfigMessage) (s : Server F) (i k : ℕ) (st : Server F × Bool)
      → Renews config s i
      → k < config.server_num
      → Readded config s i k st
      → (st' : Server F × Bool) × (readd_server config k st ≡ some st')
        × Readded config s i (suc k) st'
  readd_step config s i k (t, found) v h r =
      let id = get_elem?-some config.server_id k (omega (arith, v.ids)) in
      let added = record s {
        server_ids = r.server_ids ++ id.0 ∷ [];
        servers = insert id.0 k r.servers;
        local_index = r.index;
      } in
      elim (Bool-cases (id.0 ==ℤ s.local_id)) [
        | inl here ↦
            let at_place : k ≡ i =
              v.no_twice k i s.local_id (id.1 ∙ ap some (==ℤ→eq id.0 s.local_id here)) v.place in
            (
              (record added { local_index = k }, true),
              ap (λ u. readd_server config k (u, found)) r.same
                  ∙ readd_own config s k r.server_ids r.servers r.index id.0 found id.1 here
                      (ap (get_elem? config.partition) at_place ∙ v.same_start)
                      (ap (range_length config) at_place ∙ v.same_length),
              record {
                server_ids = r.server_ids ++ id.0 ∷ [];
                servers = insert id.0 k r.servers;
                index = k;
                listed = Lists-suc config k r.server_ids r.servers id.0 v.no_twice id.1 r.listed;
                own = λ lt. at_place;
                same = refl;
                found = λ lt. refl;
              },
            )
        | inr other ↦ (
          (added, found),
          ap (λ u. readd_server config k (u, found)) r.same
              ∙ readd_other config s k r.server_ids r.servers r.index id.0 found id.1 other,
          record {
            server_ids = r.server_ids ++ id.0 ∷ [];
            servers = insert id.0 k r.servers;
            index = r.index;
            listed = Lists-suc config k r.server_ids r.servers id.0 v.no_twice id.1 r.listed;
            own = λ lt. r.own (before id.1 other lt);
            same = refl;
            found = λ lt. r.found (before id.1 other lt);
          },
        )
      ]
    where
      same_place : i < suc k → ¬ (i < k) → i ≡ k
      same_place a b = omega arith

      some-eq : {a b : ℤ} → some a ≡ some b → a ≡ b
      some-eq e = cc

      before :
          {id : ℤ}
          → get_elem? config.server_id k ≡ some id
          → (id ==ℤ s.local_id) ≡ false
          → i < suc k
          → i < k
      before {id} e other lt = elim (dec_lt i k) [
        | yes below ↦ below
        | no last ↦ absurd (
            ==ℤ→ne id s.local_id other (
              some-eq (
                sym e
                ∙ subst (λ n. get_elem? config.server_id n ≡ some s.local_id) (same_place lt last)
                    v.place)))
      ]

  -- The loop over the servers finds the own one and keeps its segment.
  pub readd_all :
      (config : ConfigMessage) (s : Server F) (i : ℕ)
      → Renews config s i
      → s.server_ids ≡ []
      → s.servers ≡ []
      → (ids : List ℤ) × (servers : List (ℤ × ℕ)) × (index : ℕ) × (for config.server_num 0
            (readd_server config)
            (s, false)
          ≡ some (record s { server_ids = ids; servers = servers; local_index = index }, true))
        × Lists config config.server_num ids servers
        × (index ≡ i)
  unfolding lookup
  readd_all config s i v e f =
      let loop =
        for_total {0, 0} (λ k st. Readded config s i k st) (readd_server config) 0 config.server_num
          (λ k st lo hi p. readd_step config s i k st v hi p) config.server_num 0 (s, false)
          (omega arith) (omega arith)
          (record {
            server_ids = s.server_ids;
            servers = s.servers;
            index = s.local_index;
            listed = record {
              counted = ap length e;
              each = λ j id lt g. absurd (omega (arith, lt));
              others = λ id h. ap (lookup id) f;
            };
            own = λ lt. absurd (omega (arith, lt));
            same = refl;
            found = λ lt. absurd (omega (arith, lt));
          }) in
      let last = loop.2 in
      let below = get_elem?-lt config.server_id i s.local_id v.place in
      (
        last.server_ids,
        last.servers,
        last.index,
        loop.1 ∙ ap some (ap₂ (λ t b. (t, b)) last.same (last.found (omega (arith, below, v.ids)))),
        last.listed,
        last.own (omega (arith, below, v.ids)),
      )

  drop_none :
      (workers ids : List ℤ) (s : Server F)
      → ((id : ℤ) → contains id ids ≡ true → contains id workers ≡ true)
      → drop_agents workers ids s ≡ some s
  unfolding drop_agents contains
  drop_none workers [] s h = refl
  drop_none workers (id ∷ rest) s h =
      let there : contains id workers ≡ true = h id (ground (arith, ==ℤ_refl id)) in
      rw there (drop_none workers rest s (λ j e. h j (ground (arith, e))))

  index_none :
      (config : ConfigMessage) (n k : ℕ) (s : Server F)
      → k + n ≤ length config.worker_id
      → ((id : ℤ)
          → contains id config.worker_id ≡ true
          → (index : ℕ) × (lookup id s.id_to_index ≡ some index))
      → for n k (index_worker config) s ≡ some s
  unfolding for index_worker
  index_none config zero k s h known = refl
  index_none config (suc n) k s h known =
      let id = get_elem?-some config.worker_id k (omega arith) in
      let index = known id.0 (contains-get_elem? config.worker_id k id.0 id.1) in
      rw (id.1, index.1) (index_none config n (suc k) s (omega arith) known)

  extend_none :
      (n i : ℕ) (backups : List (List F)) (target : ℕ) (parameters : List F)
      → length parameters ≡ target
      → extend_with n i backups target parameters ≡ some parameters
  unfolding extend_with
  extend_none zero i backups target parameters e = refl
  extend_none (suc n) i backups target parameters e =
      let done : (length parameters == target) ≡ true = ground (arith, e) in rw done refl

  pub readmit_lem :
      (zmq_close : Addr → ℤ) (config : ConfigMessage) (s : Server F)
      → length s.parameters ≡ s.parameter_length
      → s.agent_num ≤ length config.worker_id
      → ((id : ℤ) → contains id s.agent_ids ≡ true → contains id config.worker_id ≡ true)
      → ((id : ℤ)
          → contains id config.worker_id ≡ true
          → (index : ℕ) × (lookup id s.id_to_index ≡ some index))
      → readmit zmq_close config s
        ≡ some (record s {
          sender = refresh_addresses zmq_close 0 config.node_ip_port s.sender;
          master_ids = config.master_id;
          agent_ids = add_agents config.worker_id [];
          agent_num = config.worker_num;
        })
  unfolding readmit extend_parameter
  readmit_lem zmq_close config s sized enough kept known =
      let s₁ = record s {
        sender = refresh_addresses zmq_close 0 config.node_ip_port s.sender;
        master_ids = config.master_id;
      } in
      let s₂ = record s₁ { agent_ids = add_agents config.worker_id [] } in
      rw
        (
          drop_none config.worker_id s.agent_ids s₁ kept,
          index_none config s.agent_num 0 s₂ (omega arith) known,
          extend_none s.backup_size 0 s.backup_parameters s.parameter_length s.parameters sized,
        )
        refl
