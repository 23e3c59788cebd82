-- ===== src/Agent/Blocks.antt =====
-- src/agent/agent.cc: the messages of Push, against the partition.
use plug_in_ml.Base.{
  ℕ, zero, suc, ◌-◌, ◌≤◌, ◌<◌, ◌≡◌, refl, sym, ap, ap₂, ◌∙◌, some, none, List, [], ◌∷◌, ◌++◌, ℤ,
  get_elem?, get_elem?-some, length, length-take_le, take, drop, All, arith,
}
use mathlib.Core.List.{append_assoc, append-nil}
use native.Mathlib.Decide.{dec_lt}
use plug_in_ml.Message.{Message}
use plug_in_ml.Communicator.{Sender, send}
use plug_in_ml.Partition.{Partition}
use plug_in_ml.Partition.Search.{IsSorted}
use plug_in_ml.Partition.Owner.{IsPartition, InRange}
use plug_in_ml.Partition.Runs.{Run, Owns-lt, next_ending-Run}
use plug_in_ml.Agent.State.{Agent, ShmStruct, used_keys}
use plug_in_ml.Agent.Push.{slice, request_message, push_message, push_loop, push}
use plug_in_ml.Agent.Sort.{sort_key_value}

sub_suc : (a b : ℕ) → b - a ≡ suc b - suc a
sub_suc a b = omega arith

module _ {ℓ} {A : Type ℓ} where
  take-split : (a b : ℕ) (xs : List A) → a ≤ b → take b xs ≡ take a xs ++ take (b - a) (drop a xs)
  take-split zero b xs h = ap (λ n. take n xs) (omega arith)
  take-split (suc a) zero xs h = absurd (omega arith)
  take-split (suc a) (suc b) [] h = take-none (suc b - suc a)
    where
      take-none : (n : ℕ) → [] ≡ take {A = A} n []
      take-none zero = refl
      take-none (suc n) = refl
  take-split (suc a) (suc b) (x ∷ xs) h =
      ap (◌∷◌ x)
        (take-split a b xs (omega arith) ∙ ap (λ n. take a xs ++ take n (drop a xs)) (sub_suc a b))

  drop-drop : (a b : ℕ) (xs : List A) → a ≤ b → drop (b - a) (drop a xs) ≡ drop b xs
  drop-drop zero b xs h = ap (λ n. drop n xs) (omega arith)
  drop-drop (suc a) zero xs h = absurd (omega arith)
  drop-drop (suc a) (suc b) [] h = drop-none (suc b - suc a)
    where
      drop-none : (n : ℕ) → drop {A = A} n [] ≡ []
      drop-none zero = refl
      drop-none (suc n) = refl
  drop-drop (suc a) (suc b) (x ∷ xs) h =
      ap (λ n. drop n (drop a xs)) (sym (sub_suc a b)) ∙ drop-drop a b xs (omega arith)

  -- A slice is cut at any place inside it.
  pub slice_split :
      (a b c : ℕ) (xs : List A) → a ≤ b → b ≤ c → slice a c xs ≡ slice a b xs ++ slice b c xs
  slice_split a b c xs h k =
      take-split (b - a) (c - a) (drop a xs) (omega arith)
      ∙ ap₂ (λ n ys. slice a b xs ++ take n ys) (omega arith) (drop-drop a b xs h)

  pub slice-same : (a b : ℕ) (xs : List A) → a ≡ b → slice a b xs ≡ []
  slice-same a b xs h = ap (λ n. take n (drop a xs)) nothing
    where
      nothing : b - a ≡ 0
      nothing = omega arith

  pub slice-zero : (n : ℕ) (xs : List A) → slice 0 n xs ≡ take n xs
  slice-zero n xs = ap (λ m. take m xs) all
    where
      all : n - 0 ≡ n
      all = omega arith

-- The messages for the keys from `start` on: one run after the other, each to the server that
-- holds all keys of the run.
pub data Blocks {F : Type 0} (p : Partition) (ids : List ℤ) (local_id : ℤ) (d : ShmStruct F)
    : ℕ → List (ℤ × Message F) → Type 0 where
  finished : (start : ℕ) → start ≡ d.size → Blocks p ids local_id d start []
  block :
      (start stop i : ℕ) (server_id : ℤ) (rest : List (ℤ × Message F))
      → Run p (used_keys d) start stop i
      → get_elem? ids i ≡ some server_id
      → Blocks p ids local_id d stop rest
      → Blocks p ids local_id d start
          ((server_id, push_message local_id d start stop server_id) ∷ rest)

module _ {F : Type 0} where
  -- What a list of messages carries.
  pub carried_keys : List (ℤ × Message F) → List ℤ
  carried_keys [] = []
  carried_keys ((dst, msg) ∷ rest) =
      (elim msg.request_msg [ none ↦ [] | some body ↦ body.keys ]) ++ carried_keys rest

  pub carried_values : List (ℤ × Message F) → List F
  carried_values [] = []
  carried_values ((dst, msg) ∷ rest) =
      (elim msg.request_msg [ none ↦ [] | some body ↦ body.values ]) ++ carried_values rest

  -- Every key and every value goes out exactly once, in order.
  pub Blocks-carried :
      (p : Partition) (ids : List ℤ) (local_id : ℤ) (d : ShmStruct F) (start : ℕ)
      (messages : List (ℤ × Message F))
      → d.size ≤ length d.keys
      → Blocks p ids local_id d start messages
      → (carried_keys messages ≡ slice start d.size d.keys)
        × (carried_values messages ≡ slice start d.size d.values)
        × (start ≤ d.size)
  unfolding carried_keys carried_values request_message
  Blocks-carried p ids local_id d start [] fits (finished _ e) = (
    sym (slice-same start d.size d.keys e),
    sym (slice-same start d.size d.values e),
    omega arith,
  )
  Blocks-carried p ids local_id d start _ fits (block _ stop i server_id rest run id more) =
      let tail = Blocks-carried p ids local_id d stop rest fits more in
      (
        ap (λ r. slice start stop d.keys ++ r) tail.0
            ∙ sym (slice_split start stop d.size d.keys (omega (arith, run.progress)) tail.2),
        ap (λ r. slice start stop d.values ++ r) tail.1
            ∙ sym (slice_split start stop d.size d.values (omega (arith, run.progress)) tail.2),
        omega (arith, run.progress, tail.2),
      )

  push_loop-Blocks :
      (fuel : ℕ) (agent : Agent F) (start : ℕ) (sender : Sender (Message F))
      → IsPartition agent.partition
      → length agent.server_ids ≡ agent.partition.server_num
      → IsSorted (used_keys agent.gradients)
      → All (InRange agent.partition.key_range) (used_keys agent.gradients)
      → length (used_keys agent.gradients) ≡ agent.gradients.size
      → start ≤ agent.gradients.size
      → agent.gradients.size - start < fuel
      → (messages : List (ℤ × Message F)) × (push_loop fuel agent start sender
          ≡ some (record sender { sent = sender.sent ++ messages }))
        × Blocks agent.partition agent.server_ids agent.local_id agent.gradients start messages
  unfolding push_loop send
  push_loop-Blocks zero agent start sender v ids s r len at_most fuel_left = absurd (omega arith)
  push_loop-Blocks (suc fuel) agent start sender v ids s r len at_most fuel_left =
      elim (dec_lt start agent.gradients.size) [
        | no over ↦ ([], ground (arith, append-nil sender.sent), finished start (omega arith))
        | yes more ↦
            let run =
              next_ending-Run agent.partition (used_keys agent.gradients) start v s r
                (omega arith) in
            let key = get_elem?-some (used_keys agent.gradients) start (omega arith) in
            let owned =
              run.3.owned start key.0 (omega arith) (omega (arith, run.3.progress)) key.1 in
            let id =
              get_elem?-some agent.server_ids run.1
                (omega (arith, Owns-lt agent.partition.part_vec key.0 run.1 owned, v.sized)) in
            let sent =
              send id.0 (push_message agent.local_id agent.gradients start run.0 id.0) sender in
            let rest =
              push_loop-Blocks fuel agent run.0 sent v ids s r len (omega (arith, run.3.within))
                (omega (arith, run.3.progress)) in
            (
              (id.0, push_message agent.local_id agent.gradients start run.0 id.0) ∷ rest.0,
              ground (
                arith,
                run.2,
                id.1,
                rest.1,
                append_assoc sender.sent
                    ((id.0, push_message agent.local_id agent.gradients start run.0 id.0) ∷ [])
                    rest.0,
              ),
              block start run.0 run.1 id.0 rest.0 run.3 id.1 rest.2,
            )
      ]

-- `Push` with at least one server, one ascending element of the partition and one id for each, and
-- gradients that the sort leaves in ascending order, every key in the key range: it succeeds, it
-- sends the keys and values in use exactly once and in that order, cut into runs, each run to the
-- server that holds all its keys, and the fuel of one round more than there are keys is enough.
pub push-Blocks :
    {F : Type 0} (agent : Agent F) (keys : List ℤ) (values : List F)
    → sort_key_value agent.gradients.keys agent.gradients.values agent.gradients.size
      ≡ some (keys, values)
    → IsPartition agent.partition
    → length agent.server_ids ≡ agent.partition.server_num
    → IsSorted (take agent.gradients.size keys)
    → All (InRange agent.partition.key_range) (take agent.gradients.size keys)
    → agent.gradients.size ≤ length keys
    → (messages : List (ℤ × Message F)) × (push agent
        ≡ some (record agent {
          gradients = record { size = agent.gradients.size; values = values; keys = keys };
          sender = record agent.sender { sent = agent.sender.sent ++ messages };
        }))
      × (carried_keys messages ≡ take agent.gradients.size keys)
      × (carried_values messages ≡ take agent.gradients.size values)
      × Blocks agent.partition agent.server_ids agent.local_id
          (record { size = agent.gradients.size; values = values; keys = keys })
          0
          messages
unfolding push
push-Blocks agent keys values e v ids s r fits =
    let d = record agent.gradients { values = values; keys = keys } in
    let sorted = record agent { gradients = d } in
    let loop =
      push_loop-Blocks (suc d.size) sorted 0 agent.sender v ids s r
        (length-take_le d.size keys fits) (omega arith) (omega arith) in
    let carried =
      Blocks-carried agent.partition agent.server_ids agent.local_id d 0 loop.0 fits loop.2 in
    (
      loop.0,
      rw e (ground (arith, loop.1)),
      carried.0 ∙ slice-zero d.size keys,
      carried.1 ∙ slice-zero d.size values,
      loop.2,
    )
