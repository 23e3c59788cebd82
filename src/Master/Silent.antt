-- ===== src/Master/Silent.antt =====
-- src/master/master.cc: GetDeadNode, against the times of the heartbeats.
use plug_in_ml.Base.{
  Distinct, ℕ, ◌+◌, ◌<◌, ◌≡◌, ◌↔◌, refl, sym, ap, ◌∙◌, true, false, none, some, List, [], ◌∷◌, map,
  ℤ, ◌==ℤ◌, ==ℤ→eq, eq_of_parts, lookup, assign, contains, arith, Bool-cases, inl, inr,
}
use plug_in_ml.Master.State.{heartbeat_timeout}
use plug_in_ml.Master.Loop.{dead_nodes}

-- The nodes that have a time.
abbrev pub seen_nodes : List (ℤ × ℕ) → List ℤ
seen_nodes alive = map (λ e. e.0) alive

-- A node is silent: it was last heard of longer ago than the time-out.
abbrev pub IsSilent : ℕ → List (ℤ × ℕ) → ℤ → Type 0
IsSilent cur_time alive id =
    (seen : ℕ) × (lookup id alive ≡ some seen) × (seen + heartbeat_timeout < cur_time)

unseen :
    (id : ℤ) (alive : List (ℤ × ℕ))
    → contains id (seen_nodes alive) ≡ false
    → lookup id alive ≡ none
unfolding lookup contains
unseen id [] h = refl
unseen id ((j, seen) ∷ alive) h = ground (arith, unseen id alive)

dead-seen :
    (cur_time : ℕ) (alive : List (ℤ × ℕ)) (id : ℤ)
    → contains id (seen_nodes alive) ≡ false
    → contains id (dead_nodes cur_time alive) ≡ false
unfolding dead_nodes contains
dead-seen cur_time [] id h = refl
dead-seen cur_time ((j, seen) ∷ alive) id h = ground (arith, dead-seen cur_time alive id)

dead_nodes-IsSilent :
    (cur_time : ℕ) (alive : List (ℤ × ℕ)) (id : ℤ)
    → Distinct (seen_nodes alive)
    → contains id (dead_nodes cur_time alive) ≡ true
    → IsSilent cur_time alive id
unfolding dead_nodes contains lookup
dead_nodes-IsSilent cur_time [] id d h = cc
dead_nodes-IsSilent cur_time ((j, seen) ∷ alive) id d h = elim (Bool-cases (j ==ℤ id)) [
  | inl same ↦ (
    seen,
    ground (arith, same),
    ground (
      arith,
      same,
      h,
      eq_of_parts j id,
      dead-seen cur_time alive j d.0,
      ap (λ k. contains k (dead_nodes cur_time alive)) (==ℤ→eq j id same),
    ),
  )
  | inr other ↦
      let rest = dead_nodes-IsSilent cur_time alive id d.1 (ground (arith, h, other)) in
      (rest.0, rw other rest.1, rest.2)
]

pub IsSilent-dead_nodes :
    (cur_time : ℕ) (alive : List (ℤ × ℕ)) (id : ℤ)
    → IsSilent cur_time alive id
    → contains id (dead_nodes cur_time alive) ≡ true
unfolding dead_nodes contains lookup
IsSilent-dead_nodes cur_time [] id (seen, e, late) = cc
IsSilent-dead_nodes cur_time ((j, t) ∷ alive) id (seen, e, late) = elim (Bool-cases (j ==ℤ id)) [
  | inl same ↦ ground (arith, same, e, late)
  | inr other ↦
      let rest = IsSilent-dead_nodes cur_time alive id (seen, ground (arith, e, other), late) in
      ground (arith, other, rest)
]

-- Where no node has two times, `GetDeadNode` returns exactly the nodes that were last heard of
-- longer ago than the time-out.
pub dead_nodes_iff :
    (cur_time : ℕ) (alive : List (ℤ × ℕ)) (id : ℤ)
    → Distinct (seen_nodes alive)
    → (contains id (dead_nodes cur_time alive) ≡ true) ↔ IsSilent cur_time alive id
dead_nodes_iff cur_time alive id d =
    (λ h. dead_nodes-IsSilent cur_time alive id d h, λ s. IsSilent-dead_nodes cur_time alive id s)

contains-assign :
    (j id : ℤ) (cur_time : ℕ) (alive : List (ℤ × ℕ))
    → (j ==ℤ id) ≡ false
    → contains j (seen_nodes alive) ≡ false
    → contains j (seen_nodes (assign id cur_time alive)) ≡ false
unfolding contains assign
contains-assign j id cur_time [] ne h = ground (arith, eq_of_parts id j)
contains-assign j id cur_time ((k, seen) ∷ alive) ne h =
    ground (arith, contains-assign j id cur_time alive ne, eq_of_parts k id, eq_of_parts id j)

-- A time that is written over an old one leaves no node with two.
pub Distinct-assign :
    (id : ℤ) (cur_time : ℕ) (alive : List (ℤ × ℕ))
    → Distinct (seen_nodes alive)
    → Distinct (seen_nodes (assign id cur_time alive))
unfolding contains assign
Distinct-assign id cur_time [] d = (refl, tt)
Distinct-assign id cur_time ((k, seen) ∷ alive) d = elim (Bool-cases (k ==ℤ id)) [
  | inl same ↦ rw same (ap (λ j. contains j (seen_nodes alive)) (sym (==ℤ→eq k id same)) ∙ d.0, d.1)
  | inr other ↦
      rw other
        (contains-assign k id cur_time alive other d.0, Distinct-assign id cur_time alive d.1)
]
