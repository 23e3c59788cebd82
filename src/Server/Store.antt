-- ===== src/Server/Store.antt =====
-- src/server/server.cc: the first half of ServePush, the update that is put into a buffer.
use plug_in_ml.Base.{
  ℕ, suc, ◌+◌, ◌≤◌, ◌<◌, ◌≡◌, refl, ap, ◌∙◌, true, some, List, [], ◌∷◌, ◌++◌, ℤ, get_elem?,
  get_elem?-some, set, length, length-set, length-append, drop, drop-cons, All, All-set, All-append,
  All-get_elem?, lookup, insert, contains, for, arith,
}
use mathlib.Core.List.{append_assoc, append-nil}
use plug_in_ml.Message.{RequestMessage}
use plug_in_ml.Server.KeyValueList
use plug_in_ml.Server.KeyValueList.{KeyValueList}
use plug_in_ml.Server.PullInfo.{PullInfo}
use plug_in_ml.Server.State.{Server, touch, index_of}
use plug_in_ml.Server.Push.{add_update_pair, read_update, store_update}
use plug_in_ml.Server.Average.{InSegment, IsUpdate}
use plug_in_ml.Server.Rounds.{tally, tally-set, length-tally, AtMost}

-- A waiting request for keys of the segment.
pub record Waits (start : ℤ) (len : ℕ) (p : PullInfo) : Type 0 where
  pub counted : p.length_field ≡ length p.keys
  pub inside : All (InSegment start len) p.keys

-- A push that fits the segment: as many values as keys, every key inside.
pub record Fits {F : Type 0} (start : ℤ) (len : ℕ) (request : RequestMessage F) : Type 0 where
  pub paired : length request.keys ≡ length request.values
  pub inside : All (InSegment start len) request.keys

-- A configured server between two messages, and in the middle of a push.
pub record IsFilled {F : Type 0} (s : Server F) : Type 0 where
  pub bound_pos : 0 < s.consistency_bound
  pub agents : length s.version_buffer ≡ s.agent_num
  pub counts : s.finish_count ≡ tally 0 s.consistency_bound s.version_buffer
  pub full : AtMost s.consistency_bound s.version_buffer
  pub updates : All (All (IsUpdate s.start_key s.parameter_length)) s.version_buffer
  pub sized : length s.parameters ≡ s.parameter_length
  pub requests : All (Waits s.start_key s.parameter_length) s.pull_request
  pub peers : length s.server_ids ≡ s.server_num
  pub copies : s.backup_size < s.server_num
  pub indexed : (id : ℤ) (i : ℕ) → lookup id s.id_to_index ≡ some i → i < s.agent_num
  pub known :
      (id : ℤ) → contains id s.agent_ids ≡ true → (i : ℕ) × (lookup id s.id_to_index ≡ some i)

insert-known : (k : ℤ) (v w : ℕ) (m : List (ℤ × ℕ)) → lookup k m ≡ some w → insert k v m ≡ m
unfolding lookup insert
insert-known k v w [] e = cc
insert-known k v w ((j, u) ∷ m) e = ground (arith, insert-known k v w m)

pub touch-known : (id : ℤ) (i : ℕ) (m : List (ℤ × ℕ)) → lookup id m ≡ some i → touch id m ≡ m
unfolding touch
touch-known id i m e = insert-known id 0 i m e

pub index_of-known : (id : ℤ) (i : ℕ) (m : List (ℤ × ℕ)) → lookup id m ≡ some i → index_of id m ≡ i
unfolding index_of
index_of-known id i m e = rw (e, index_of)

module _ {F : Type 0} where
  read_loop :
      (request : RequestMessage F) (ks : List ℤ) (vs : List F) (i : ℕ) (u : KeyValueList F)
      → drop i request.keys ≡ ks
      → drop i request.values ≡ vs
      → length ks ≡ length vs
      → for (length ks) i (add_update_pair request) u
        ≡ some (record {
          length_field = u.length_field + length ks;
          keys = u.keys ++ ks;
          values = u.values ++ vs;
        })
  unfolding for add_update_pair KeyValueList.add_pair
  read_loop request [] [] i u dk dv e = ground (arith, append-nil u.keys, append-nil u.values)
  read_loop request [] (v ∷ vs) i u dk dv e = absurd (omega arith)
  read_loop request (k ∷ ks) [] i u dk dv e = absurd (omega arith)
  read_loop request (k ∷ ks) (v ∷ vs) i u dk dv e =
      let here = drop-cons request.keys i k ks dk in
      let there = drop-cons request.values i v vs dv in
      rw (here.0, there.0)
        (read_loop request ks vs (suc i) (KeyValueList.add_pair k v u) here.1 there.1 (omega arith)
          ∙ ground (arith, append_assoc u.keys (k ∷ []) ks, append_assoc u.values (v ∷ []) vs))

  -- The list made of a push holds its keys and values, in order.
  read_update_lem :
      (request : RequestMessage F)
      → length request.keys ≡ length request.values
      → read_update request
        ≡ some (record {
          length_field = length request.keys;
          keys = request.keys;
          values = request.values;
        })
  unfolding read_update KeyValueList.new
  read_update_lem request e =
      read_loop request request.keys request.values 0 KeyValueList.new refl refl e ∙ ground arith

  -- What the buffer gets.
  abbrev pub update_of : RequestMessage F → KeyValueList F
  update_of request = record {
    length_field = length request.keys;
    keys = request.keys;
    values = request.values;
  }

  -- The server with one more update in the buffer `index`.
  abbrev pub stored : Server F → ℕ → List (KeyValueList F) → RequestMessage F → Server F
  stored s index buffer request =
      let buffers = set s.version_buffer index (buffer ++ update_of request ∷ []) in
      record s { finish_count = tally 0 s.consistency_bound buffers; version_buffer = buffers }

  -- A full buffer refuses the update: nothing changes.
  pub store_update_full :
      (s : Server F) (id : ℤ) (request : RequestMessage F) (index : ℕ)
      (buffer : List (KeyValueList F))
      → lookup id s.id_to_index ≡ some index
      → get_elem? s.version_buffer index ≡ some buffer
      → s.consistency_bound ≤ length buffer
      → store_update s id request ≡ some s
  unfolding store_update
  store_update_full s id request index buffer e f h =
      let touched = touch-known id index s.id_to_index e in
      let found = index_of-known id index s.id_to_index e in simp (touched, found, f) (ground arith)

  pub store_update_lem :
      (s : Server F) (id : ℤ) (request : RequestMessage F) (index : ℕ)
      (buffer : List (KeyValueList F))
      → IsFilled s
      → lookup id s.id_to_index ≡ some index
      → get_elem? s.version_buffer index ≡ some buffer
      → length buffer < s.consistency_bound
      → length request.keys ≡ length request.values
      → store_update s id request ≡ some (stored s index buffer request)
  unfolding store_update
  store_update_lem s id request index buffer v e f h paired =
      let touched = touch-known id index s.id_to_index e in
      let found = index_of-known id index s.id_to_index e in
      let count =
        get_elem?-some (tally 0 s.consistency_bound s.version_buffer) (length buffer)
          (omega (arith, length-tally 0 s.consistency_bound s.version_buffer)) in
      let raised =
        tally-set (length buffer) 0 s.consistency_bound index s.version_buffer buffer
          (update_of request) f (omega arith) count.0 count.1 in
      let counted = ap (λ c. get_elem? c (length buffer)) v.counts ∙ count.1 in
      simp (touched, found, f)
        (ground (arith, counted, raised, v.counts, read_update_lem request paired))

  pub stored-IsFilled :
      (s : Server F) (request : RequestMessage F) (index : ℕ) (buffer : List (KeyValueList F))
      → IsFilled s
      → Fits s.start_key s.parameter_length request
      → get_elem? s.version_buffer index ≡ some buffer
      → length buffer < s.consistency_bound
      → IsFilled (stored s index buffer request)
  stored-IsFilled s request index buffer v fits f h = record {
    agents = length-set s.version_buffer index (buffer ++ update_of request ∷ []) ∙ v.agents;
    counts = refl;
    full =
        All-set (λ q. length q ≤ s.consistency_bound) s.version_buffer index
          (buffer ++ update_of request ∷ []) v.full
          (omega (arith, length-append buffer (update_of request ∷ [])));
    updates =
        All-set (All (IsUpdate s.start_key s.parameter_length)) s.version_buffer index
          (buffer ++ update_of request ∷ []) v.updates
          (All-append (IsUpdate s.start_key s.parameter_length) buffer (update_of request ∷ [])
            (All-get_elem? (All (IsUpdate s.start_key s.parameter_length)) s.version_buffer index
              buffer v.updates f)
            (record { counted = refl; paired = fits.paired; inside = fits.inside }, tt));
    bound_pos = v.bound_pos;
    sized = v.sized;
    requests = v.requests;
    peers = v.peers;
    copies = v.copies;
    indexed = v.indexed;
    known = v.known;
  }
