-- ===== src/Master/Fix.antt =====
-- src/master/task_config.cc: FixConfig, which takes dead nodes out of the configuration.
use plug_in_ml.Base.{
  Distinct, ℕ, zero, suc, ◌-◌, ◌≤◌, ◌<◌, ◌≡◌, refl, ap, ◌∙◌, true, false, not, ◌&&◌, some, List, [],
  ◌∷◌, ℤ, ◌≤ℤ◌, ◌==ℤ◌, length, All, contains, ltb, if◌then◌else◌, arith, Bool-cases, inl, inr,
  eq_of_parts, ==ℤ→eq, ==ℤ_refl, get_elem?, sym, ◌≢◌,
}
use plug_in_ml.Partition.Search.{IsSorted}
use plug_in_ml.Message.{ConfigMessage}
use plug_in_ml.Master.Cut.{to_message-Copies}
use plug_in_ml.Master.TaskConfig.{
  TaskConfig, to_message, find_index, erase_at, fix_node, fix_nodes, fix_config, is_agent_id,
  is_server_id,
}

length-erase_at {ℓ} :
    {A : Type ℓ} (i : ℕ) (xs : List A)
    → length (erase_at i xs) ≡ (if ltb i (length xs) then length xs - 1 else length xs)
unfolding erase_at
length-erase_at zero [] = refl
length-erase_at (suc i) [] = ground arith
length-erase_at zero (x ∷ xs) = ground arith
length-erase_at (suc i) (x ∷ xs) = ground (arith, length-erase_at i xs)

length-erase_lt {ℓ} :
    {A : Type ℓ} (i : ℕ) (xs : List A) → i < length xs → suc (length (erase_at i xs)) ≡ length xs
length-erase_lt i xs h = ground (arith, length-erase_at i xs)

All-erase_at : (P : ℤ → Type 0) (i : ℕ) (xs : List ℤ) → All P xs → All P (erase_at i xs)
unfolding erase_at
All-erase_at P zero [] h = tt
All-erase_at P (suc i) [] h = tt
All-erase_at P zero (x ∷ xs) h = h.1
All-erase_at P (suc i) (x ∷ xs) h = (h.0, All-erase_at P i xs h.1)

erase_at-IsSorted : (i : ℕ) (xs : List ℤ) → IsSorted xs → IsSorted (erase_at i xs)
unfolding erase_at
erase_at-IsSorted zero [] s = tt
erase_at-IsSorted (suc i) [] s = tt
erase_at-IsSorted zero (x ∷ xs) s = s.1
erase_at-IsSorted (suc i) (x ∷ xs) s =
    (All-erase_at (λ y. x ≤ℤ y) i xs s.0, erase_at-IsSorted i xs s.1)

find_index-lt : (id : ℤ) (xs : List ℤ) → contains id xs ≡ true → find_index id xs < length xs
unfolding contains find_index
find_index-lt id [] h = cc
find_index-lt id (x ∷ xs) h = ground (arith, find_index-lt id xs)

-- The list without the first occurrence of an id.
abbrev without : ℤ → List ℤ → List ℤ
without id xs = erase_at (find_index id xs) xs

contains-without :
    (id j : ℤ) (xs : List ℤ)
    → Distinct xs
    → contains j (without id xs) ≡ (contains j xs && not (id ==ℤ j))
unfolding contains find_index erase_at
contains-without id j [] d = refl
contains-without id j (x ∷ xs) d = elim (Bool-cases (x ==ℤ id)) [
  | inl same ↦
      let here : x ≡ id = ground (arith, eq_of_parts x id) in
      ground (arith, same, d.0, here, eq_of_parts x j, eq_of_parts id j)
  | inr other ↦
      ground (arith, other, contains-without id j xs d.1, eq_of_parts x j, eq_of_parts id j)
]

without-Distinct : (id : ℤ) (xs : List ℤ) → Distinct xs → Distinct (without id xs)
unfolding find_index erase_at
without-Distinct id [] d = tt
without-Distinct id (x ∷ xs) d = elim (Bool-cases (x ==ℤ id)) [
  | inl same ↦ rw (same, find_index, erase_at) d.1
  | inr other ↦
      let apart : contains x (without id xs) ≡ false =
        contains-without id x xs d.1 ∙ ap (λ b. b && not (id ==ℤ x)) d.0 in
      rw (other, find_index, erase_at) (apart, without-Distinct id xs d.1)
]

get_elem?-find_index :
    (id : ℤ) (xs : List ℤ) → contains id xs ≡ true → get_elem? xs (find_index id xs) ≡ some id
unfolding contains find_index
get_elem?-find_index id [] h = cc
get_elem?-find_index id (x ∷ xs) h = elim (Bool-cases (x ==ℤ id)) [
  | inl same ↦ rw same (ap some (==ℤ→eq x id same))
  | inr other ↦ rw other (get_elem?-find_index id xs (ground (arith, h, other)))
]

-- Where an element stands after the one at place `k` has gone.
moved : ℕ → ℕ → ℕ
moved zero zero = 0
moved zero (suc i) = i
moved (suc k) zero = 0
moved (suc k) (suc i) = suc (moved k i)

get_elem?-erase_at {ℓ} :
    {A : Type ℓ} (k i : ℕ) (xs : List A)
    → k ≢ i
    → get_elem? (erase_at k xs) (moved k i) ≡ get_elem? xs i
unfolding erase_at moved
get_elem?-erase_at k i [] ne = refl
get_elem?-erase_at zero zero (x ∷ xs) ne = absurd (ne refl)
get_elem?-erase_at zero (suc i) (x ∷ xs) ne = refl
get_elem?-erase_at (suc k) zero (x ∷ xs) ne = refl
get_elem?-erase_at (suc k) (suc i) (x ∷ xs) ne = get_elem?-erase_at k i xs (λ e. ne (ap suc e))

-- What the master relies on between two calls: a part for each server, in ascending order, no id
-- twice, and no node that is both a server and an agent.
pub record IsAligned (c : TaskConfig) : Type 0 where
  pub parts : length c.partition ≡ length c.server_id
  pub sorted : IsSorted c.partition
  pub servers : Distinct c.server_id
  pub agents : Distinct c.agent_id
  pub apart : (j : ℤ) → contains j c.agent_id ≡ true → contains j c.server_id ≡ false

-- `c'` is `c` without the dead nodes.
pub record Fixed (dead : List ℤ) (c c' : TaskConfig) : Type 0 where
  pub aligned : IsAligned c'
  pub agents_left :
      (j : ℤ) → contains j c'.agent_id ≡ (contains j c.agent_id && not (contains j dead))
  pub servers_left :
      (j : ℤ) → contains j c'.server_id ≡ (contains j c.server_id && not (contains j dead))
  pub fewer : length c'.server_id ≤ length c.server_id
  pub strictly :
      (j : ℤ)
      → contains j dead ≡ true
      → contains j c.server_id ≡ true
      → length c'.server_id < length c.server_id
  pub same_count : c'.server_num ≡ c.server_num
  pub parts_left :
      (i : ℕ) (j part : ℤ)
      → get_elem? c.server_id i ≡ some j
      → get_elem? c.partition i ≡ some part
      → contains j dead ≡ false
      → (i' : ℕ) × (get_elem? c'.server_id i' ≡ some j) × (get_elem? c'.partition i' ≡ some part)

-- A server that is not the one that goes keeps its part, at the place to which both move.
other_part :
    (id : ℤ) (servers partition : List ℤ) (i : ℕ) (j part : ℤ)
    → contains id servers ≡ true
    → get_elem? servers i ≡ some j
    → get_elem? partition i ≡ some part
    → contains j (id ∷ []) ≡ false
    → (i' : ℕ) × (get_elem? (without id servers) i' ≡ some j)
      × (get_elem? (erase_at (find_index id servers) partition) i' ≡ some part)
unfolding contains
other_part id servers partition i j part listed e f alive =
    let k = find_index id servers in
    let gone = get_elem?-find_index id servers listed in
    let other : k ≢ i = λ same.
      let both : some id ≡ some j = sym gone ∙ ap (get_elem? servers) same ∙ e in
      let one : id ≡ j = cc in
      let here : (id ==ℤ j) ≡ true = rw one (==ℤ_refl j) in ground (arith, alive, here) in
    (
      moved k i,
      get_elem?-erase_at k i servers other ∙ e,
      get_elem?-erase_at k i partition other ∙ f,
    )

-- A list that lacks the id keeps all, and the list without it keeps the others.
keep_lem :
    (id j : ℤ) (xs : List ℤ)
    → contains id xs ≡ false
    → contains j xs ≡ (contains j xs && not (contains j (id ∷ [])))
unfolding contains
keep_lem id j xs h = ground (arith, h, eq_of_parts id j)

drop_lem :
    (id j : ℤ) (xs : List ℤ)
    → Distinct xs
    → contains j (without id xs) ≡ (contains j xs && not (contains j (id ∷ [])))
unfolding contains
drop_lem id j xs d = ground (arith, contains-without id j xs d)

without-apart :
    (id : ℤ) (xs ys : List ℤ)
    → Distinct xs
    → ((j : ℤ) → contains j xs ≡ true → contains j ys ≡ false)
    → (j : ℤ) → contains j (without id xs) ≡ true
    → contains j ys ≡ false
without-apart id xs ys d apart j h = ground (arith, contains-without id j xs d, apart j)

apart-without :
    (id : ℤ) (xs ys : List ℤ)
    → Distinct ys
    → ((j : ℤ) → contains j xs ≡ true → contains j ys ≡ false)
    → (j : ℤ) → contains j xs ≡ true
    → contains j (without id ys) ≡ false
apart-without id xs ys d apart j h = ground (arith, contains-without id j ys d, apart j h)

one_lem : (id j : ℤ) → contains j (id ∷ []) ≡ true → j ≡ id
unfolding contains
one_lem id j h = ground (arith, eq_of_parts id j)

fix_node-Fixed : (id : ℤ) (c : TaskConfig) → IsAligned c → Fixed (id ∷ []) c (fix_node id c)
unfolding fix_node is_agent_id is_server_id
fix_node-Fixed id c a = elim (Bool-cases (contains id c.agent_id)) [
  | inl agent ↦
      rw (agent, fix_node)
        (record {
          aligned = record {
            parts = a.parts;
            sorted = a.sorted;
            servers = a.servers;
            agents = without-Distinct id c.agent_id a.agents;
            apart = without-apart id c.agent_id c.server_id a.agents a.apart;
          };
          agents_left = λ j. drop_lem id j c.agent_id a.agents;
          servers_left = λ j. keep_lem id j c.server_id (a.apart id agent);
          fewer = omega arith;
          strictly = λ j h k. ground (arith, one_lem id j h, a.apart id agent, k);
          parts_left = λ i j part e f alive. (i, e, f);
          same_count = refl;
        })
  | inr not_agent ↦ elim (Bool-cases (contains id c.server_id)) [
    | inl server ↦
        rw (not_agent, fix_node, server)
          (record {
            aligned = record {
              parts = omega (
                arith,
                a.parts,
                find_index-lt id c.server_id server,
                length-erase_lt (find_index id c.server_id) c.server_id,
                length-erase_lt (find_index id c.server_id) c.partition,
              );
              sorted = erase_at-IsSorted (find_index id c.server_id) c.partition a.sorted;
              servers = without-Distinct id c.server_id a.servers;
              agents = a.agents;
              apart = apart-without id c.agent_id c.server_id a.servers a.apart;
            };
            agents_left = λ j. keep_lem id j c.agent_id not_agent;
            servers_left = λ j. drop_lem id j c.server_id a.servers;
            fewer = omega (
              arith,
              find_index-lt id c.server_id server,
              length-erase_lt (find_index id c.server_id) c.server_id,
            );
            parts_left = λ i j part e f alive.
                other_part id c.server_id c.partition i j part server e f alive;
            strictly = λ j h k. omega (
              arith,
              find_index-lt id c.server_id server,
              length-erase_lt (find_index id c.server_id) c.server_id,
            );
            same_count = refl;
          })
    | inr neither ↦
        rw (not_agent, fix_node, neither)
          (record {
            aligned = a;
            agents_left = λ j. keep_lem id j c.agent_id not_agent;
            servers_left = λ j. keep_lem id j c.server_id neither;
            fewer = omega arith;
            strictly = λ j h k. ground (arith, one_lem id j h, neither, k);
            parts_left = λ i j part e f alive. (i, e, f);
            same_count = refl;
          })
  ]
]

fix_nodes-Fixed : (dead : List ℤ) (c : TaskConfig) → IsAligned c → Fixed dead c (fix_nodes dead c)
unfolding fix_nodes contains
fix_nodes-Fixed [] c a = record {
  aligned = a;
  agents_left = λ j. ground arith;
  servers_left = λ j. ground arith;
  fewer = omega arith;
  strictly = λ j h k. cc;
  parts_left = λ i j part e f alive. (i, e, f);
  same_count = refl;
}
fix_nodes-Fixed (id ∷ dead) c a =
    let one = fix_node-Fixed id c a in
    let rest = fix_nodes-Fixed dead (fix_node id c) one.aligned in
    record {
      aligned = rest.aligned;
      agents_left = λ j. ground (arith, rest.agents_left j, one.agents_left j);
      servers_left = λ j. ground (arith, rest.servers_left j, one.servers_left j);
      fewer = omega (arith, rest.fewer, one.fewer);
      strictly = λ j h k.
          ground
            (arith, rest.fewer, one.fewer, one.servers_left j, one.strictly j, rest.strictly j);
      same_count = rest.same_count ∙ one.same_count;
      parts_left = λ i j part e f alive.
          let first = one.parts_left i j part e f (ground (arith, alive)) in
          rest.parts_left first.0 j part first.1 first.2 (ground (arith, alive));
    }

pub fix_config-Fixed :
    (dead : List ℤ) (c : TaskConfig) → IsAligned c → Fixed dead c (fix_config dead c)
unfolding fix_config
fix_config-Fixed [] c a = fix_nodes-Fixed [] c a
fix_config-Fixed (id ∷ dead) c a =
    let marked = record c { config_changed = true } in
    let f = fix_nodes-Fixed (id ∷ dead) marked (record {
      parts = a.parts;
      sorted = a.sorted;
      servers = a.servers;
      agents = a.agents;
      apart = a.apart;
    }) in
    record {
      aligned = f.aligned;
      agents_left = f.agents_left;
      servers_left = f.servers_left;
      fewer = f.fewer;
      strictly = f.strictly;
      same_count = f.same_count;
      parts_left = f.parts_left;
    }

-- A configuration that had a server for each it states, and lost one: it states more servers than
-- it lists, and a message made of it does too.
pub fix_config-states_more :
    (dead : List ℤ) (c : TaskConfig) (config : ConfigMessage) (id : ℤ)
    → IsAligned c
    → length c.server_id ≡ c.server_num
    → contains id c.server_id ≡ true
    → contains id dead ≡ true
    → to_message (fix_config dead c) ≡ some config
    → length config.server_id < config.server_num
fix_config-states_more dead c config id a full server gone e =
    let f = fix_config-Fixed dead c a in
    let m = to_message-Copies (fix_config dead c) config e in
    omega
      (arith, ap length m.same_servers, m.same_server_num, f.strictly id gone server, f.same_count)
