-- ===== src/Agent/Requests.antt =====
-- src/agent/agent.cc: the requests of Pull, against the partition.
use plug_in_ml.Base.{
  ℕ, zero, suc, ◌-◌, ◌≤◌, ◌<◌, ◌≡◌, refl, sym, ap, ◌∙◌, Bool, true, false, ◌||◌, some, List, [],
  ◌∷◌, ◌++◌, ℤ, pos, ◌≤ℤ◌, ◌==ℤ◌, ==ℤ→eq, get_elem?, get_elem?-some, get_elem?-lt,
  get_elem?-eq-get_or, All-get_elem?, length, All, All-map, Distinct, contains, contains-get_elem?,
  arith, inl, inr, Bool-cases,
}
use mathlib.Core.List.{append_assoc, append-nil}
use mathlib.Core.Path.{subst}
use native.Mathlib.Decide.{dec_lt}
use plug_in_ml.Message.{Message, RequestType}
use plug_in_ml.Communicator.{Sender, send}
use plug_in_ml.Partition.{Partition}
use plug_in_ml.Partition.Search.{IsSorted}
use plug_in_ml.Partition.Owner.{IsPartition, InRange, Owns, part, part-mono}
use plug_in_ml.Partition.Runs.{Run, Owns-lt, next_ending-Run, get_elem?-mono}
use plug_in_ml.Agent.State.{Agent, ShmStruct, used_keys}
use plug_in_ml.Agent.Push.{slice, request_message}
use plug_in_ml.Agent.Pull.{set_insert, request_loop}

-- The request for the keys of a run.
abbrev pub pull_message : {F : Type 0} → ℤ → ShmStruct F → ℕ → ℕ → ℤ → Message F
pull_message local_id d start stop server_id =
    request_message RequestType.key local_id server_id (slice start stop d.keys) []

-- The requests for the keys from `start` on: one run after the other, each to the server that holds
-- all keys of the run.
pub data Requests {F : Type 0} (p : Partition) (ids : List ℤ) (local_id : ℤ) (d : ShmStruct F)
    : ℕ → List (ℤ × Message F) → Type 0 where
  finished : (start : ℕ) → start ≡ d.size → Requests p ids local_id d start []
  run :
      (start stop i : ℕ) (server_id : ℤ) (rest : List (ℤ × Message F))
      → Run p (used_keys d) start stop i
      → get_elem? ids i ≡ some server_id
      → Requests p ids local_id d stop rest
      → Requests p ids local_id d start
          ((server_id, pull_message local_id d start stop server_id) ∷ rest)

-- The receivers, in the order in which they are asked.
unfoldable pub receivers : {F : Type 0} → List (ℤ × Message F) → List ℤ
receivers [] = []
receivers ((dst, msg) ∷ rest) = dst ∷ receivers rest

unfoldable pub insert_all : List ℤ → List ℤ → List ℤ
insert_all [] servers = servers
insert_all (id ∷ ids) servers = insert_all ids (set_insert id servers)

module _ {F : Type 0} where
  pub request_loop-Requests :
      (fuel : ℕ) (agent : Agent F) (start : ℕ) (servers : List ℤ) (sender : Sender (Message F))
      → IsPartition agent.partition
      → length agent.server_ids ≡ agent.partition.server_num
      → IsSorted (used_keys agent.parameters)
      → All (InRange agent.partition.key_range) (used_keys agent.parameters)
      → length (used_keys agent.parameters) ≡ agent.parameters.size
      → start ≤ agent.parameters.size
      → agent.parameters.size - start < fuel
      → (messages : List (ℤ × Message F)) × (request_loop fuel agent start servers sender
          ≡ some (
            insert_all (receivers messages) servers,
            record sender { sent = sender.sent ++ messages },
          ))
        × Requests agent.partition agent.server_ids agent.local_id agent.parameters start messages
  unfolding request_loop send receivers insert_all
  request_loop-Requests zero agent start servers sender v ids s r len at_most fuel_left =
      absurd (omega arith)
  request_loop-Requests (suc fuel) agent start servers sender v ids s r len at_most fuel_left =
      elim (dec_lt start agent.parameters.size) [
        | no over ↦ ([], ground (arith, append-nil sender.sent), finished start (omega arith))
        | yes more ↦
            let next =
              next_ending-Run agent.partition (used_keys agent.parameters) start v s r
                (omega arith) in
            let key = get_elem?-some (used_keys agent.parameters) start (omega arith) in
            let owned =
              next.3.owned start key.0 (omega arith) (omega (arith, next.3.progress)) key.1 in
            let id =
              get_elem?-some agent.server_ids next.1
                (omega (arith, Owns-lt agent.partition.part_vec key.0 next.1 owned, v.sized)) in
            let msg = pull_message agent.local_id agent.parameters start next.0 id.0 in
            let rest =
              request_loop-Requests fuel agent next.0 (set_insert id.0 servers)
                (send id.0 msg sender) v ids s r len (omega (arith, next.3.within))
                (omega (arith, next.3.progress)) in
            (
              (id.0, msg) ∷ rest.0,
              ground
                  (arith, next.2, id.1, rest.1, append_assoc sender.sent ((id.0, msg) ∷ []) rest.0),
              run start next.0 next.1 id.0 rest.0 next.3 id.1 rest.2,
            )
      ]

-- No key lies before the first element of the partition.
abbrev pub NoneBefore : Partition → List ℤ → Type 0
NoneBefore p keys = All (λ k. part p.part_vec 0 ≤ℤ k) keys

from_start : (vec : List ℤ) (k : ℤ) (i : ℕ) → part vec 0 ≤ℤ k → Owns vec k i → part vec i ≤ℤ k
from_start vec k i h (inl (inner, from, below)) = from
from_start vec k i h (inr (last, inl from)) = from
from_start vec k i h (inr (last, inr under)) = absurd (omega arith)

later_owner :
    (vec : List ℤ) (k k' : ℤ) (i j : ℕ)
    → IsSorted vec
    → part vec 0 ≤ℤ k
    → part vec 0 ≤ℤ k'
    → k ≤ℤ k'
    → Owns vec k i
    → Owns vec k' j
    → ¬ Owns vec k' i
    → i < j
later_owner vec k k' i j s h h' up o o' other = elim (dec_lt i j) [
  | yes rising ↦ rising
  | no back ↦ elim (dec_lt j i) [
    | no same ↦ absurd (other (subst (λ n. Owns vec k' n) (equal same back) o'))
    | yes before ↦
        let lower = from_start vec k i h o in
        let mono = part-mono vec (suc j) i s in
        absurd (elim o' [
          | inl (inner, from, below) ↦
              omega (arith, below, lower, up, mono (omega arith) (Owns-lt vec k i o))
          | inr (last, side) ↦ omega (arith, last, Owns-lt vec k i o)
        ])
  ]
]
  where
    equal : ¬ (j < i) → ¬ (i < j) → j ≡ i
    equal a b = omega arith

same_key : (keys : List ℤ) (j : ℕ) (k : ℤ) → get_elem? keys j ≡ some k → part keys j ≡ k
same_key keys j k e =
    some-eq (sym (get_elem?-eq-get_or keys j (pos 0) (get_elem?-lt keys j k e)) ∙ e)
  where
    some-eq : {a b : ℤ} → some a ≡ some b → a ≡ b
    some-eq h = cc

-- The runs of sorted keys go to servers at rising places.
next-Run :
    (p : Partition) (keys : List ℤ) (start stop stop' i j : ℕ)
    → IsPartition p
    → IsSorted keys
    → NoneBefore p keys
    → Run p keys start stop i
    → Run p keys stop stop' j
    → i < j
next-Run p keys start stop stop' i j v s none_before r r' =
    let k = get_elem?-some keys start (omega (arith, r.progress, r.within)) in
    let k' = get_elem?-some keys stop (omega (arith, r'.progress, r'.within)) in
    let first = All-get_elem? (λ z. part p.part_vec 0 ≤ℤ z) keys start k.0 none_before k.1 in
    later_owner p.part_vec k.0 k'.0 i j v.sorted first
      (All-get_elem? (λ z. part p.part_vec 0 ≤ℤ z) keys stop k'.0 none_before k'.1)
      (get_elem?-mono keys start stop k.0 k'.0 s (omega (arith, r.progress)) k.1 k'.1)
      (r.owned start k.0 (omega arith) r.progress k.1)
      (r'.owned stop k'.0 (omega arith) r'.progress k'.1)
      (r.maximal stop k'.0
        (subst (λ z. part p.part_vec 0 ≤ℤ z) (sym (same_key keys start k.0 k.1)) first)
        (omega arith) k'.1)

-- The receivers stand behind place `i` of the list of servers.
abbrev Behind : List ℤ → ℕ → ℤ → Type 0
Behind ids i dst = (j : ℕ) × (get_elem? ids j ≡ some dst) × (i < j)

module _ {F : Type 0} (p : Partition) (ids : List ℤ) (local_id : ℤ) (d : ShmStruct F)
    (v : IsPartition p) (s : IsSorted (used_keys d))
    (none_before : NoneBefore p (used_keys d)) where
  receivers-Behind :
      (start stop i : ℕ) (messages : List (ℤ × Message F))
      → Run p (used_keys d) start stop i
      → Requests p ids local_id d stop messages
      → All (Behind ids i) (receivers messages)
  unfolding receivers
  receivers-Behind start stop i [] r (finished _ e) = tt
  receivers-Behind start stop i _ r (run _ stop' j dst rest r' id more) =
      let up = next-Run p (used_keys d) start stop stop' i j v s none_before r r' in
      (
        (j, id, up),
        All-map (Behind ids j) (Behind ids i) (λ a b. (b.0, b.1, omega (arith, b.2, up)))
            (receivers rest) (receivers-Behind stop stop' j rest r' more),
      )

no_other_place :
    (ids : List ℤ) (i j : ℕ) (x : ℤ)
    → Distinct ids
    → get_elem? ids i ≡ some x
    → get_elem? ids j ≡ some x
    → i < j
    → ⊥
no_other_place [] i j x d e f h = cc
no_other_place (y ∷ ids) zero zero x d e f h = absurd (omega arith)
no_other_place (y ∷ ids) zero (suc j) x d e f h =
    let again = contains-get_elem? ids j x f in ground (arith, d.0)
no_other_place (y ∷ ids) (suc i) zero x d e f h = absurd (omega arith)
no_other_place (y ∷ ids) (suc i) (suc j) x d e f h = no_other_place ids i j x d.1 e f (omega arith)

Behind-other :
    (ids : List ℤ) (i : ℕ) (x : ℤ) (xs : List ℤ)
    → Distinct ids
    → get_elem? ids i ≡ some x
    → All (Behind ids i) xs
    → contains x xs ≡ false
unfolding contains
Behind-other ids i x [] d e h = refl
Behind-other ids i x (y ∷ xs) d e h = elim (Bool-cases (y ==ℤ x)) [
  | inl same ↦ absurd (no_other_place ids i h.0.0 x d e (h.0.1 ∙ ap some (==ℤ→eq y x same)) h.0.2)
  | inr other ↦ rw other (Behind-other ids i x xs d e h.1)
]

module _ {F : Type 0} (p : Partition) (ids : List ℤ) (local_id : ℤ) (d : ShmStruct F)
    (v : IsPartition p) (s : IsSorted (used_keys d)) (none_before : NoneBefore p (used_keys d))
    (once : Distinct ids) where
  -- No server is asked twice.
  pub Requests-Distinct :
      (start : ℕ) (messages : List (ℤ × Message F))
      → Requests p ids local_id d start messages
      → Distinct (receivers messages)
  unfolding receivers
  Requests-Distinct start [] (finished _ e) = tt
  Requests-Distinct start _ (run _ stop i dst rest r id more) = (
    Behind-other ids i dst (receivers rest) once id
        (receivers-Behind p ids local_id d v s none_before start stop i rest r more),
    Requests-Distinct stop rest more,
  )

contains-set_insert :
    (x y : ℤ) (servers : List ℤ)
    → contains x (set_insert y servers) ≡ (y ==ℤ x || contains x servers)
unfolding set_insert contains
contains-set_insert x y servers = elim (Bool-cases (contains y servers)) [
  | inl there ↦ elim (Bool-cases (y ==ℤ x)) [
    | inl same ↦ rw (there, same) (subst (λ z. contains z servers ≡ true) (==ℤ→eq y x same) there)
    | inr other ↦ rw (there, other) refl
  ]
  | inr new ↦ rw new refl
]

or_swap : (a b c : Bool) → (b || (a || c)) ≡ ((a || b) || c)
or_swap true true c = refl
or_swap true false c = refl
or_swap false true c = refl
or_swap false false c = refl

-- The set of servers to wait for has exactly those that were asked.
pub contains-insert_all :
    (x : ℤ) (ids servers : List ℤ)
    → contains x (insert_all ids servers) ≡ (contains x ids || contains x servers)
unfolding insert_all contains
contains-insert_all x [] servers = refl
contains-insert_all x (id ∷ ids) servers =
    contains-insert_all x ids (set_insert id servers)
    ∙ ap (λ b. contains x ids || b) (contains-set_insert x id servers)
    ∙ or_swap (id ==ℤ x) (contains x ids) (contains x servers)
