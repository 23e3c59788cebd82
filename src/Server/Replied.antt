-- ===== src/Server/Replied.antt =====
-- src/server/server.cc: what RespondToAll and ServePull send, by where the keys lie.
use plug_in_ml.Base.{
  ℕ, ◌≤◌, ◌<◌, ◌≡◌, ◌⊎◌, inl, inr, refl, sym, ap, ◌∙◌, true, Option, some, none, List, [], ◌∷◌,
  ◌++◌, ℤ, pos, negsuc, pos_part, neg_part-nonneg, ◌+ℤ◌, ◌-ℤ◌, ◌<ℤ◌, ltb_ℤ, +ℤ_parts, -ℤ_parts,
  eq_of_parts, at, get_elem?, get_elem?-some, length, All, All-map, lookup, arith, Bool-cases,
  Option-cases,
}
use mathlib.Core.Path.{subst}
use native.Mathlib.Decide.{dec_lt}
use plug_in_ml.Message.{Message, MessageType, RequestMessage, RequestType}
use plug_in_ml.Communicator.{send}
use plug_in_ml.Server.KeyValueList.{KeyValueList}
use plug_in_ml.Server.PullInfo.{PullInfo}
use plug_in_ml.Server.State.{Server}
use plug_in_ml.Server.Pull.{
  key_value_reply, read_blocked, read_pull, pull_index, respond_to_all, serve_pull,
}
use plug_in_ml.Server.Answers.{Answers, Readable, serve_pull-Answers, serve_pull_waits}
use plug_in_ml.Server.Respond.{IsRequest, Replies, respond_to_all_lem}

-- The key `d` places behind `start`.
abbrev pub Behind : ℤ → ℤ → ℕ → Type 0
Behind start key d = key ≡ start +ℤ pos d

-- The key `d` places behind `start`, on the ring of the keys below `key_range`.
abbrev pub Around : ℤ → ℕ → ℤ → ℕ → Type 0
Around start key_range key d =
    Behind start key d ⊎ ((key <ℤ start) × Behind start (key +ℤ pos key_range) d)

module _ (start key : ℤ) (d : ℕ) where
  Behind-distance : Behind start key d → key -ℤ start ≡ pos d
  Behind-distance e =
      eq_of_parts (key -ℤ start) (pos d)
        (rw e (omega (arith, +ℤ_parts start (pos d), -ℤ_parts (start +ℤ pos d) start)))

  distance-Behind : key -ℤ start ≡ pos d → Behind start key d
  distance-Behind e =
      let sum = +ℤ_parts start (pos d) in
      let gap = -ℤ_parts key start in
      let far = ap (λ x. pos_part x) e in
      let flat = neg_part-nonneg (key -ℤ start) (rw e (omega arith)) in
      eq_of_parts key (start +ℤ pos d) (omega (arith, sum, gap, far, flat))

-- Keys and values, one to one.
pub Valued : {F : Type 0} → (ℤ → F → Type 0) → List ℤ → List F → Type 0
Valued P [] [] = Unit
Valued P [] (v ∷ values) = ⊥
Valued P (k ∷ keys) [] = ⊥
Valued P (k ∷ keys) (v ∷ values) = P k v × Valued P keys values

Answers-Valued :
    {F : Type 0} (read : ℤ → Option F) (P : ℤ → F → Type 0)
    → ((k : ℤ) (v : F) → read k ≡ some v → P k v)
    → (keys : List ℤ) (values : List F) → Answers read keys values
    → Valued P keys values
unfolding Valued
Answers-Valued read P h [] [] a = tt
Answers-Valued read P h [] (v ∷ values) a = elim a [ ]
Answers-Valued read P h (k ∷ keys) [] a = elim a [ ]
Answers-Valued read P h (k ∷ keys) (v ∷ values) a =
    (h k v a.0, Answers-Valued read P h keys values a.1)

module _ {F : Type 0} where
  -- `v` is the parameter at a place that fits the key.
  abbrev pub Value : (ℤ → ℕ → Type 0) → List F → ℤ → F → Type 0
  Value Place parameters key v = (d : ℕ) × Place key d × (get_elem? parameters d ≡ some v)

  -- The key has a place among the parameters.
  abbrev pub Placed : (ℤ → ℕ → Type 0) → List F → ℤ → Type 0
  Placed Place parameters key = (d : ℕ) × Place key d × (d < length parameters)

  -- A message of this server to an agent with these keys and a value for each.
  pub record IsReply (P : ℤ → F → Type 0) (local_id agent : ℤ) (keys : List ℤ) (msg : Message F)
      : Type 0 where
    pub values : List F
    pub from : msg.send_id ≡ local_id
    pub to_agent : msg.recv_id ≡ agent
    pub kind : msg.message_type ≡ MessageType.request
    pub body :
        msg.request_msg
        ≡ some (record { request_type = RequestType.key_value; keys = keys; values = values })
    pub valued : Valued P keys values

  key_value_reply-IsReply :
      (read : ℤ → Option F) (P : ℤ → F → Type 0)
      → ((k : ℤ) (v : F) → read k ≡ some v → P k v)
      → (local_id agent : ℤ) (keys : List ℤ) (values : List F) → Answers read keys values
      → IsReply P local_id agent keys (key_value_reply local_id agent keys values)
  unfolding key_value_reply
  key_value_reply-IsReply read P h local_id agent keys values a = record {
    values = values;
    from = refl;
    to_agent = refl;
    kind = refl;
    body = refl;
    valued = Answers-Valued read P h keys values a;
  }

  at-Value :
      (parameters : List F) (i : ℤ) (v : F)
      → at parameters i ≡ some v
      → (i ≡ pos (pos_part i)) × (get_elem? parameters (pos_part i) ≡ some v)
  at-Value parameters (pos n) v e = (refl, e)
  at-Value parameters (negsuc n) v e = cc

  read_blocked-Value :
      (s : Server F) (key : ℤ) (v : F)
      → read_blocked s key ≡ some v
      → Value (Behind s.start_key) s.parameters key v
  unfolding read_blocked
  read_blocked-Value s key v e =
      let here = at-Value s.parameters (key -ℤ s.start_key) v e in
      (pos_part (key -ℤ s.start_key), distance-Behind s.start_key key _ here.0, here.1)

  Placed-read_blocked :
      (s : Server F) (key : ℤ)
      → Placed (Behind s.start_key) s.parameters key
      → Readable (read_blocked s) key
  unfolding read_blocked
  Placed-read_blocked s key (d, place, below) =
      rw (Behind-distance s.start_key key d place) (get_elem?-some s.parameters d below)

  -- The replies to requests: one for each, in order, to the agent that asked, with its keys.
  pub Replied : (ℤ → F → Type 0) → ℤ → List PullInfo → List (ℤ × Message F) → Type 0
  Replied P local_id [] [] = Unit
  Replied P local_id [] (m ∷ sent) = ⊥
  Replied P local_id (p ∷ requests) [] = ⊥
  Replied P local_id (p ∷ requests) (m ∷ sent) =
      (m.0 ≡ p.id) × IsReply P local_id p.id p.keys m.1 × Replied P local_id requests sent

  pub Replies-Replied :
      (s : Server F) (requests : List PullInfo) (sent : List (ℤ × Message F))
      → Replies s requests sent
      → Replied (Value (Behind s.start_key) s.parameters) s.local_id requests sent
  unfolding Replied
  Replies-Replied s [] [] r = tt
  Replies-Replied s [] (m ∷ sent) r = elim r [ ]
  Replies-Replied s (p ∷ requests) [] r = elim r [ ]
  Replies-Replied s (p ∷ requests) ((dst, msg) ∷ sent) ((values, to, is, a), rest) = (
    to,
    subst (IsReply (Value (Behind s.start_key) s.parameters) s.local_id p.id p.keys) (sym is) (
        key_value_reply-IsReply (read_blocked s) (Value (Behind s.start_key) s.parameters)
          (read_blocked-Value s) s.local_id p.id p.keys values a),
    Replies-Replied s requests sent rest,
  )

  -- A waiting request with a count of its keys, each of them behind the start by less than there
  -- are parameters.
  pub record IsNear (s : Server F) (p : PullInfo) : Type 0 where
    pub counted : p.length_field ≡ length p.keys
    pub near : All (Placed (Behind s.start_key) s.parameters) p.keys

  -- `RespondToAll`, where every waiting request asks for keys whose distance from the start of the
  -- segment is below the number of parameters: no request is left waiting, and one reply for each has
  -- been sent, in the order in which they waited, to the agent that asked, with its keys in order and
  -- for each key the parameter at its distance from the start.
  pub respond_to_all-Replied :
      (s : Server F)
      → All (IsNear s) s.pull_request
      → (sent : List (ℤ × Message F)) × (respond_to_all s
          ≡ some (record s {
            pull_request = [];
            sender = record s.sender { sent = s.sender.sent ++ sent };
          }))
        × Replied (Value (Behind s.start_key) s.parameters) s.local_id s.pull_request sent
  respond_to_all-Replied s near =
      let done = respond_to_all_lem s (
        All-map (IsNear s) (IsRequest s)
          (λ p v. record {
            counted = v.counted;
            readable =
                All-map (Placed (Behind s.start_key) s.parameters) (Readable (read_blocked s))
                  (Placed-read_blocked s) p.keys v.near;
          })
          s.pull_request near) in
      (done.0, done.1, Replies-Replied s s.pull_request done.0 done.2)

  pull_index-Around :
      (s : Server F) (key : ℤ) (d : ℕ)
      → pull_index s key ≡ pos d
      → Around s.start_key s.key_range key d
  unfolding pull_index
  pull_index-Around s key d e = elim (Bool-cases (ltb_ℤ (key -ℤ s.start_key) (pos 0))) [
    | inl wraps ↦
        let index : key -ℤ s.start_key +ℤ pos s.key_range ≡ pos d = rw wraps at e in
        inr (
          ground (arith, wraps, -ℤ_parts key s.start_key),
          distance-Behind s.start_key (key +ℤ pos s.key_range) d
              (round key s.start_key s.key_range ∙ index),
        )
    | inr direct ↦
        let index : key -ℤ s.start_key ≡ pos d = rw direct at e in
        inl (distance-Behind s.start_key key d index)
  ]
    where
      round : (a b : ℤ) (k : ℕ) → a +ℤ pos k -ℤ b ≡ a -ℤ b +ℤ pos k
      round a b k = eq_of_parts (a +ℤ pos k -ℤ b) (a -ℤ b +ℤ pos k) (
          omega (
            arith,
            -ℤ_parts (a +ℤ pos k) b,
            +ℤ_parts a (pos k),
            -ℤ_parts a b,
            +ℤ_parts (a -ℤ b) (pos k),
          ))

  Around-pull_index :
      (s : Server F) (key : ℤ) (d : ℕ)
      → Around s.start_key s.key_range key d
      → pull_index s key ≡ pos d
  unfolding pull_index
  Around-pull_index s key d (inl place) =
      let index = Behind-distance s.start_key key d place in rw index (ground arith)
  Around-pull_index s key d (inr (below, place)) =
      let wraps : ltb_ℤ (key -ℤ s.start_key) (pos 0) ≡ true =
        ground (arith, below, -ℤ_parts key s.start_key) in
      let index = Behind-distance s.start_key (key +ℤ pos s.key_range) d place in
      rw wraps (
        eq_of_parts (key -ℤ s.start_key +ℤ pos s.key_range) (pos d) (
          omega (
            arith,
            -ℤ_parts (key +ℤ pos s.key_range) s.start_key,
            +ℤ_parts key (pos s.key_range),
            -ℤ_parts key s.start_key,
            +ℤ_parts (key -ℤ s.start_key) (pos s.key_range),
            ap pos_part index,
            neg_part-nonneg (key +ℤ pos s.key_range -ℤ s.start_key) (rw index (omega arith)),
          )))

  read_pull-Value :
      (s : Server F) (key : ℤ) (v : F)
      → read_pull s key ≡ some v
      → Value (Around s.start_key s.key_range) s.parameters key v
  unfolding read_pull
  read_pull-Value s key v e =
      let here = at-Value s.parameters (pull_index s key) v e in
      (pos_part (pull_index s key), pull_index-Around s key _ here.0, here.1)

  Placed-read_pull :
      (s : Server F) (key : ℤ)
      → Placed (Around s.start_key s.key_range) s.parameters key
      → Readable (read_pull s) key
  unfolding read_pull
  Placed-read_pull s key (d, place, below) =
      rw (Around-pull_index s key d place) (get_elem?-some s.parameters d below)

  -- What `ServePull` comes to: the request of an unknown agent is dropped, one of an agent with at
  -- least `bound` updates waiting waits, and any other is answered.
  pub data Served (s : Server F) (agent : ℤ) (request : RequestMessage F) : Server F → Type 0 where
    dropped : lookup agent s.id_to_index ≡ none → Served s agent request s
    waits :
        (index : ℕ) (buffer : List (KeyValueList F))
        → lookup agent s.id_to_index ≡ some index
        → get_elem? s.version_buffer index ≡ some buffer
        → s.consistency_bound ≤ length buffer
        → Served s agent request (record s {
          pull_request =
              s.pull_request
              ++ record { length_field = length request.keys; id = agent; keys = request.keys }
                ∷ [];
        })
    answered :
        (index : ℕ) (buffer : List (KeyValueList F)) (msg : Message F)
        → lookup agent s.id_to_index ≡ some index
        → get_elem? s.version_buffer index ≡ some buffer
        → length buffer < s.consistency_bound
        → IsReply
            (Value (Around s.start_key s.key_range) s.parameters)
            s.local_id
            agent
            request.keys
            msg
        → Served s agent request
            (record s { sender = record s.sender { sent = s.sender.sent ++ (agent, msg) ∷ [] } })

  foreign-Served :
      (s : Server F) (agent : ℤ) (request : RequestMessage F)
      → lookup agent s.id_to_index ≡ none
      → (s' : Server F) × (serve_pull s agent request ≡ some s') × Served s agent request s'
  unfolding serve_pull
  foreign-Served s agent request e = (s, rw (e, serve_pull) refl, dropped e)

  -- `ServePull` on a server with a buffer for each agent's index, for keys that have a parameter, at
  -- their distance from the start, or at that distance and the key range for keys below the start:
  -- a request of an unknown agent changes nothing. A request of an agent with at least `bound`
  -- updates waiting is put behind the requests that wait, with the agent's id and the keys in order,
  -- and nothing is sent. Any other is answered by one message to the agent, with the keys in order
  -- and for each the parameter at its place, and nothing else changes.
  pub serve_pull-Served :
      (s : Server F) (agent : ℤ) (request : RequestMessage F)
      → ((id : ℤ) (index : ℕ)
          → lookup id s.id_to_index ≡ some index
          → index < length s.version_buffer)
      → All (Placed (Around s.start_key s.key_range) s.parameters) request.keys
      → (s' : Server F) × (serve_pull s agent request ≡ some s') × Served s agent request s'
  unfolding send
  serve_pull-Served s agent request indexed placed =
      elim (Option-cases (lookup agent s.id_to_index)) [
        | inl foreign ↦ foreign-Served s agent request foreign
        | inr (index, known) ↦
            let buffer = get_elem?-some s.version_buffer index (indexed agent index known) in
            elim (dec_lt (length buffer.0) s.consistency_bound) [
              | yes below ↦
                  let answer =
                    serve_pull-Answers s agent request index known buffer.0 buffer.1 below (
                      All-map (Placed (Around s.start_key s.key_range) s.parameters)
                        (Readable (read_pull s)) (Placed-read_pull s) request.keys placed) in
                  (
                    _,
                    answer.1,
                    answered index buffer.0 (key_value_reply s.local_id agent request.keys answer.0)
                        known buffer.1 below
                        (key_value_reply-IsReply (read_pull s)
                          (Value (Around s.start_key s.key_range) s.parameters) (read_pull-Value s)
                          s.local_id agent request.keys answer.0 answer.2),
                  )
              | no ahead ↦ (
                _,
                serve_pull_waits s agent request index known buffer.0 buffer.1 (omega arith),
                waits index buffer.0 known buffer.1 (omega arith),
              )
            ]
      ]
