-- ===== src/Server/EndRound.antt =====
-- src/server/server.cc: the second half of ServePush, the end of a round.
use plug_in_ml.Base.{
  ℕ, suc, true, ◌==◌, ◌≤◌, ◌+◌, ◌-◌, ◌%◌, ◌<◌, ◌≡◌, ◌≢◌, refl, ap, ◌∙◌, some, List, [], ◌∷◌, ◌++◌,
  map, ℤ, ◌-ℤ◌, at-some, get_elem?, get_elem?-some, length, tail, All, All-map, for_total, arith,
}
use native.Mathlib.Nat.{zero-mod}
use plug_in_ml.Floats.{FloatOps, zero_value, add_value, div_value}
use plug_in_ml.Message.{Message}
use plug_in_ml.Communicator.{Sender, send}
use plug_in_ml.Server.KeyValueList.{KeyValueList}
use plug_in_ml.Server.PullInfo.{PullInfo}
use plug_in_ml.Server.State.{Server}
use plug_in_ml.Server.Pull.{read_blocked}
use plug_in_ml.Server.Backup.{predecessor, backup_request, request_backup_from, request_backup}
use plug_in_ml.Server.Push.{end_round, finish_round}
use plug_in_ml.Server.Average.{InSegment, IsUpdate, HasUpdate, total_fronts, update_parameter_lem}
use plug_in_ml.Server.Answers.{Readable}
use plug_in_ml.Server.Respond.{IsRequest, answered, respond_to_all_lem}
use plug_in_ml.Server.Rounds.{
  count_longer, tally-shift_pos, tally-first, count_longer-All, AtMost-tail,
}
use plug_in_ml.Server.Store.{Waits, IsFilled}

module _ {F : Type 0} where
  InSegment-Readable :
      (s : Server F) (key : ℤ)
      → length s.parameters ≡ s.parameter_length
      → InSegment s.start_key s.parameter_length key
      → Readable (read_blocked s) key
  unfolding read_blocked
  InSegment-Readable s key sized i =
      at-some s.parameters (key -ℤ s.start_key) i.from_start (omega (arith, i.below_end))

  pub Waits-IsRequest :
      (s : Server F) (p : PullInfo)
      → length s.parameters ≡ s.parameter_length
      → Waits s.start_key s.parameter_length p
      → IsRequest s p
  Waits-IsRequest s p sized w = record {
    counted = w.counted;
    readable =
        All-map (InSegment s.start_key s.parameter_length) (Readable (read_blocked s))
          (λ key i. InSegment-Readable s key sized i) p.keys w.inside;
  }

  has_updates :
      (start : ℤ) (len : ℕ) (buffers : List (List (KeyValueList F)))
      → All (All (IsUpdate start len)) buffers
      → All (λ q. 0 < length q) buffers
      → All (HasUpdate start len) buffers
  has_updates start len [] u h = tt
  has_updates start len ([] ∷ qs) u h = absurd (omega arith)
  has_updates start len ((x ∷ q) ∷ qs) u h = (u.0.0, has_updates start len qs u.1 h.1)

  updates-tail :
      (start : ℤ) (len : ℕ) (buffers : List (List (KeyValueList F)))
      → All (All (IsUpdate start len)) buffers
      → All (All (IsUpdate start len)) (map tail buffers)
  updates-tail start len [] u = tt
  updates-tail start len ([] ∷ qs) u = (u.0, updates-tail start len qs u.1)
  updates-tail start len ((x ∷ q) ∷ qs) u = (u.0.1, updates-tail start len qs u.1)

  length-map-tail : (qs : List (List (KeyValueList F))) → length (map tail qs) ≡ length qs
  length-map-tail [] = refl
  length-map-tail (q ∷ qs) = ap suc (length-map-tail qs)

  abbrev with_sender : Server F → Sender (Message F) → Server F
  with_sender s c = record s { sender = c }

  backup_round :
      (s : Server F) (i : ℕ) (t : Server F)
      → length s.server_ids ≡ s.server_num
      → s.backup_size < s.server_num
      → i ≤ s.backup_size
      → (c : Sender (Message F)) × (t ≡ with_sender s c)
      → (t' : Server F) × (request_backup_from i t ≡ some t')
        × ((c : Sender (Message F)) × (t' ≡ with_sender s c))
  unfolding request_backup_from predecessor
  backup_round s i t peers copies near (c, e) =
      let within : (i - (s.local_index + s.server_num)) % s.server_num ≡ 0 =
        ap (λ k. k % s.server_num) (omega arith) ∙ zero-mod s.server_num in
      let none_below : ((i - (s.local_index + s.server_num)) % s.server_num == 0) ≡ true =
        ground (arith, within) in
      let id =
        get_elem?-some s.server_ids ((s.local_index + s.server_num - i) % s.server_num)
          (omega arith) in
      let c' = send id.0 (backup_request s.local_id id.0) c in
      (with_sender s c', rw e (rw (none_below, id.1)), (c', refl))

  -- `RequestBackup` succeeds where every predecessor is in the list of servers, and only sends.
  pub request_backup_lem :
      (s : Server F)
      → length s.server_ids ≡ s.server_num
      → s.backup_size < s.server_num
      → (s' : Server F) × (request_backup s ≡ some s')
        × ((c : Sender (Message F)) × (s' ≡ with_sender s c))
  unfolding request_backup
  request_backup_lem s peers copies =
      for_total (λ i t. (c : Sender (Message F)) × (t ≡ with_sender s c)) request_backup_from 1
        (1 + s.backup_size) (λ i t lo hi p. backup_round s i t peers copies (omega arith) p)
        s.backup_size 1 s (omega arith) refl (s.sender, refl)

module _ {F : Type 0} ⦃ops : FloatOps F⦄ where
  -- The server after a finished round, but for what was sent.
  abbrev pub next_version : Server F → List F → List ℕ → Sender (Message F) → Server F
  next_version s parameters counts c = record s {
    sender = c;
    parameters = parameters;
    version_buffer = map tail s.version_buffer;
    finish_count = counts;
    bottom_version = suc s.bottom_version;
    pull_request = [];
  }

  -- Each parameter plus the average of the updates at the front of the buffers.
  abbrev pub Averages : Server F → List F → Type 0
  Averages s parameters =
      (x : ℕ) (p : F)
      → get_elem? s.parameters x ≡ some p
      → get_elem? parameters x
        ≡ some (
            add_value p
              (div_value (total_fronts s.start_key x s.version_buffer zero_value) s.agent_num))

  pub end_round_lem :
      (s : Server F)
      → IsFilled s
      → count_longer 0 s.version_buffer ≡ s.agent_num
      → (counts : List ℕ)
      → (parameters : List F) × (c : Sender (Message F)) × (end_round
            (record s { finish_count = counts })
          ≡ some (next_version s parameters counts c))
        × (length parameters ≡ s.parameter_length)
        × Averages s parameters
  unfolding end_round
  end_round_lem s v all counts =
      let ready =
        has_updates s.start_key s.parameter_length s.version_buffer v.updates
          (count_longer-All s.version_buffer (omega (arith, v.agents))) in
      let updated =
        update_parameter_lem (record s { finish_count = counts }) v.agents v.sized ready in
      let s₁ = record s {
        finish_count = counts;
        version_buffer = map tail s.version_buffer;
        parameters = updated.0;
        bottom_version = suc s.bottom_version;
      } in
      let replied = respond_to_all_lem s₁ (
        All-map (Waits s.start_key s.parameter_length) (IsRequest s₁)
          (λ p w. Waits-IsRequest s₁ p updated.2 w) s.pull_request v.requests) in
      let asked = request_backup_lem (answered s₁ (s.sender.sent ++ replied.0)) v.peers v.copies in
      (
        updated.0,
        asked.2.0,
        rw (updated.1, replied.1) (asked.1 ∙ ap some asked.2.1),
        updated.2,
        updated.3,
      )

  pub next-IsFilled :
      (s : Server F) (parameters : List F) (c : Sender (Message F))
      → IsFilled s
      → length parameters ≡ s.parameter_length
      → IsFilled (next_version s parameters (tail s.finish_count ++ 0 ∷ []) c)
  next-IsFilled s parameters c v sized = record {
    bound_pos = v.bound_pos;
    agents = length-map-tail s.version_buffer ∙ v.agents;
    counts =
        ap (λ l. tail l ++ 0 ∷ []) v.counts
        ∙ tally-shift_pos s.consistency_bound s.version_buffer v.bound_pos v.full;
    full = AtMost-tail s.consistency_bound s.version_buffer v.full;
    updates = updates-tail s.start_key s.parameter_length s.version_buffer v.updates;
    sized = sized;
    requests = tt;
    peers = v.peers;
    copies = v.copies;
    indexed = v.indexed;
    known = v.known;
  }

  pub finish_round_early :
      (s : Server F)
      → IsFilled s
      → count_longer 0 s.version_buffer ≢ s.agent_num
      → finish_round s ≡ some s
  unfolding finish_round
  finish_round_early s v early =
      let first =
        ap (λ l. get_elem? l 0) v.counts
        ∙ tally-first s.consistency_bound s.version_buffer v.bound_pos in
      rw first (ground (arith, early))

  pub finish_round_last :
      (s : Server F)
      → IsFilled s
      → count_longer 0 s.version_buffer ≡ s.agent_num
      → finish_round s ≡ end_round (record s { finish_count = tail s.finish_count ++ 0 ∷ [] })
  unfolding finish_round
  finish_round_last s v all =
      let first =
        ap (λ l. get_elem? l 0) v.counts
        ∙ tally-first s.consistency_bound s.version_buffer v.bound_pos in
      rw first (ground (arith, all))
