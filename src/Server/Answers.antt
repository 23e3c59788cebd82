-- ===== src/Server/Answers.antt =====
-- src/server/server.cc: the replies of ServePull and RespondToAll.
use plug_in_ml.Base.{
  ℕ, zero, suc, ◌+◌, ◌≤◌, ◌<◌, ◌≡◌, refl, sym, ap, ap₂, ◌∙◌, Option, some, none, List, [], ◌∷◌,
  ◌++◌, ℤ, get_elem?, length, drop, drop-cons, All, for, arith, lookup, Option-cases, inl, inr,
}
use mathlib.Core.List.{append_assoc, append-nil}
use native.Mathlib.Decide.{ℕ_discrete}
use plug_in_ml.Message.{RequestMessage}
use plug_in_ml.Communicator.{send}
use plug_in_ml.Server.PullInfo
use plug_in_ml.Server.KeyValueList.{KeyValueList}
use plug_in_ml.Server.PullInfo.{PullInfo}
use plug_in_ml.Server.State.{Server}
use plug_in_ml.Server.Pull.{
  key_value_reply, add_entry, read_pull, add_keys, blocked_request, answer_pull, serve_pull,
}

add_keys_lem :
    (p : PullInfo) (keys : List ℤ)
    → add_keys p keys
      ≡ record { length_field = p.length_field + length keys; id = p.id; keys = p.keys ++ keys }
unfolding add_keys PullInfo.add_key
add_keys_lem p [] = ground (arith, append-nil p.keys)
add_keys_lem p (k ∷ ks) =
    ground (arith, add_keys_lem (PullInfo.add_key k p) ks, append_assoc p.keys (k ∷ []) ks)

-- The request that is kept for an agent.
blocked_request_lem :
    (sender_id : ℤ) (keys : List ℤ)
    → blocked_request sender_id keys
      ≡ record { length_field = length keys; id = sender_id; keys = keys }
unfolding blocked_request PullInfo.new PullInfo.set_id
blocked_request_lem sender_id keys =
    ground (arith, add_keys_lem (PullInfo.set_id sender_id PullInfo.new) keys)

module _ {F : Type 0} where
  -- Each value is what `read` gives for the key at its place.
  abbrev pub Answers : (ℤ → Option F) → List ℤ → List F → Type 0
  Answers read [] [] = Unit
  Answers read [] (v ∷ vs) = ⊥
  Answers read (k ∷ ks) [] = ⊥
  Answers read (k ∷ ks) (v ∷ vs) = (read k ≡ some v) × Answers read ks vs

  abbrev pub Readable : (ℤ → Option F) → ℤ → Type 0
  Readable read k = (v : F) × (read k ≡ some v)

  -- The loop that fills a reply, from the `i`-th key on.
  pub entries_loop :
      (read : ℤ → Option F) (all ks : List ℤ) (i : ℕ) (keys : List ℤ) (values : List F)
      → drop i all ≡ ks
      → All (Readable read) ks
      → (vs : List F) × (for (length ks) i (add_entry (get_elem? all) read) (keys, values)
          ≡ some (keys ++ ks, values ++ vs))
        × Answers read ks vs
  unfolding for add_entry
  entries_loop read all [] i keys values e h =
      ([], ap some (ap₂ (λ a b. (a, b)) (sym (append-nil keys)) (sym (append-nil values))), tt)
  entries_loop read all (k ∷ ks) i keys values e h =
      let here = drop-cons all i k ks e in
      let v = h.0 in
      let rest =
        entries_loop read all ks (suc i) (keys ++ k ∷ []) (values ++ v.0 ∷ []) here.1 h.1 in
      (
        v.0 ∷ rest.0,
        rw
            (
              here.0,
              v.1,
              rest.1,
              append_assoc keys (k ∷ []) ks,
              append_assoc values (v.0 ∷ []) rest.0,
            )
            refl,
        (v.1, rest.2),
      )

  entry_unread :
      (read : ℤ → Option F) (all : List ℤ) (i : ℕ) (k : ℤ) (entries : List ℤ × List F)
      → get_elem? all i ≡ some k
      → read k ≡ none
      → add_entry (get_elem? all) read i entries ≡ none
  unfolding add_entry
  entry_unread read all i k entries e unread = rw (e, unread)

  -- A key that cannot be read stops the loop.
  pub entries_stop :
      (read : ℤ → Option F) (all : List ℤ) (j : ℕ) (k : ℤ)
      → get_elem? all j ≡ some k
      → read k ≡ none
      → (n i : ℕ) (entries : List ℤ × List F) → i ≤ j
      → j < i + n
      → for n i (add_entry (get_elem? all) read) entries ≡ none
  unfolding for
  entries_stop read all j k e unread zero i entries lo hi = absurd (omega arith)
  entries_stop read all j k e unread (suc n) i entries lo hi = elim (ℕ_discrete i j) [
    | yes same ↦ rw (entry_unread read all i k entries (ap (get_elem? all) same ∙ e) unread)
    | no other ↦ elim (Option-cases (add_entry (get_elem? all) read i entries)) [
      | inl stop ↦ rw stop
      | inr (next, step) ↦
          rw step (entries_stop read all j k e unread n (suc i) next (omega arith) (omega arith))
    ]
  ]

  -- `ServePull` answers a known agent with fewer than `bound` updates waiting, where every key has a
  -- parameter: one reply, to that agent, with the keys asked for, in order, and for each the
  -- parameter read; nothing else changes.
  pub serve_pull-Answers :
      (s : Server F) (sender_id : ℤ) (request : RequestMessage F) (index : ℕ)
      → lookup sender_id s.id_to_index ≡ some index
      → (buffer : List (KeyValueList F)) → get_elem? s.version_buffer index ≡ some buffer
      → length buffer < s.consistency_bound
      → All (Readable (read_pull s)) request.keys
      → (values : List F) × (serve_pull s sender_id request
          ≡ some (record s {
            sender =
                send sender_id (key_value_reply s.local_id sender_id request.keys values) s.sender;
          }))
        × Answers (read_pull s) request.keys values
  unfolding serve_pull answer_pull
  serve_pull-Answers s sender_id request index e buffer f below readable =
      let loop = entries_loop (read_pull s) request.keys request.keys 0 [] [] refl readable in
      (loop.0, rw (e, serve_pull, f) (ground (arith, loop.1)), loop.2)

  -- `ServePull` keeps the request of a known agent with at least `bound` updates waiting: it is put
  -- behind the requests that wait already, with the agent's id and its keys in order; nothing is sent.
  pub serve_pull_waits :
      (s : Server F) (sender_id : ℤ) (request : RequestMessage F) (index : ℕ)
      → lookup sender_id s.id_to_index ≡ some index
      → (buffer : List (KeyValueList F)) → get_elem? s.version_buffer index ≡ some buffer
      → s.consistency_bound ≤ length buffer
      → serve_pull s sender_id request
        ≡ some (record s {
          pull_request =
              s.pull_request
              ++ record { length_field = length request.keys; id = sender_id; keys = request.keys }
                ∷ [];
        })
  unfolding serve_pull
  serve_pull_waits s sender_id request index e buffer f ahead =
      rw (e, serve_pull, f) (ground (arith, blocked_request_lem sender_id request.keys))
