-- ===== src/Server/Containers.antt =====
-- src/server/server.cc: the containers that Initialize fills, one entry for each agent or version.
use plug_in_ml.Base.{
  ℕ, zero, suc, ◌<◌, ◌≡◌, refl, ap, ◌∙◌, true, ◌||◌, some, List, [], ◌∷◌, ◌++◌, ℤ, ◌==ℤ◌, get_elem?,
  get_elem?-some, length, replicate, All, lookup, assign, lookup-assign, contains, arith,
  Bool-cases, inl, inr, ==ℤ→eq, ==ℤ_refl, ◌⊎◌,
}
use plug_in_ml.Message.{ConfigMessage}
use plug_in_ml.Server.Configure.{add_agents, index_agent}
use plug_in_ml.Server.Rounds.{count_longer, tally}

pub count_longer-replicate : (A : Type 0) (k n : ℕ) → count_longer {A = A} k (replicate n []) ≡ 0
unfolding count_longer
count_longer-replicate A k zero = refl
count_longer-replicate A k (suc n) = ground (arith, count_longer-replicate A k n)

pub tally-replicate :
    (A : Type 0) (k bound n : ℕ) → replicate bound 0 ≡ tally k bound (replicate {A = List A} n [])
unfolding tally
tally-replicate A k zero n = refl
tally-replicate A k (suc bound) n =
    rw (count_longer-replicate A k n) (ap (◌∷◌ 0) (tally-replicate A (suc k) bound n))

pub All-replicate : {A : Type 0} (P : A → Type 0) (n : ℕ) (a : A) → P a → All P (replicate n a)
All-replicate P zero a p = tt
All-replicate P (suc n) a p = (p, All-replicate P n a p)

-- The places given to the first `k` agents.
pub record Indexed (config : ConfigMessage) (k : ℕ) (ids : List (ℤ × ℕ)) : Type 0 where
  pub indexed : (id : ℤ) (i : ℕ) → lookup id ids ≡ some i → i < k
  pub known :
      (id : ℤ) (j : ℕ)
      → j < k
      → get_elem? config.worker_id j ≡ some id
      → (i : ℕ) × (lookup id ids ≡ some i)

pub Indexed-empty : (config : ConfigMessage) (ids : List (ℤ × ℕ)) → ids ≡ [] → Indexed config 0 ids
unfolding lookup
Indexed-empty config [] e = record {
  indexed = λ id i h. cc;
  known = λ id j lt h. absurd (omega arith);
}
Indexed-empty config (x ∷ ids) e = cc

pub index_agent-Indexed :
    (config : ConfigMessage) (k : ℕ) (ids : List (ℤ × ℕ))
    → Indexed config k ids
    → k < length config.worker_id
    → (ids' : List (ℤ × ℕ)) × (index_agent config k ids ≡ some ids') × Indexed config (suc k) ids'
unfolding index_agent
index_agent-Indexed config k ids v h =
    let id = get_elem?-some config.worker_id k h in
    (
      assign id.0 k ids,
      rw id.1 refl,
      record {
        indexed = λ m i e. ground (arith, lookup-assign id.0 m k ids, e, v.indexed m i);
        known = λ m j lt e. elim (Bool-cases (id.0 ==ℤ m)) [
          | inl same ↦ (k, lookup-assign id.0 m k ids ∙ rw same refl)
          | inr other ↦
              let old = v.known m j (ground (arith, e, id.1, other, ==ℤ_refl m)) e in
              (old.0, lookup-assign id.0 m k ids ∙ rw other old.1)
        ];
      },
    )

contains-snoc :
    (id x : ℤ) (ids : List ℤ) → contains id (ids ++ x ∷ []) ≡ (contains id ids || x ==ℤ id)
unfolding contains
contains-snoc id x [] = ground arith
contains-snoc id x (y ∷ ids) = ground (arith, contains-snoc id x ids)

contains-add_agents :
    (id : ℤ) (new ids : List ℤ)
    → contains id (add_agents new ids) ≡ true
    → (contains id ids ≡ true) ⊎ (contains id new ≡ true)
unfolding contains add_agents
contains-add_agents id [] ids h = inl h
contains-add_agents id (x ∷ new) ids h = ground (
  arith,
  contains-add_agents id new ids,
  contains-add_agents id new (ids ++ x ∷ []),
  h,
  contains-snoc id x ids,
)

pub contains-agents :
    (id : ℤ) (new : List ℤ) → contains id (add_agents new []) ≡ true → contains id new ≡ true
unfolding contains
contains-agents id new h = ground (arith, contains-add_agents id new [] h)

pub contains-place :
    (id : ℤ) (xs : List ℤ)
    → contains id xs ≡ true
    → (j : ℕ) × (j < length xs) × (get_elem? xs j ≡ some id)
unfolding contains
contains-place id [] h = cc
contains-place id (x ∷ xs) h = elim (Bool-cases (x ==ℤ id)) [
  | inl same ↦ (0, omega arith, ap some (==ℤ→eq x id same))
  | inr other ↦
      let rest = contains-place id xs (ground (arith, h, other)) in
      (suc rest.0, omega (arith, rest.1), rest.2)
]
