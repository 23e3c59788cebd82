-- ===== src/Server/Serving.antt =====
-- src/server/server.cc: ServePush as a whole, on a server between two messages.
use plug_in_ml.Base.{
  ℕ, suc, ◌≤◌, ◌<◌, ◌≡◌, refl, ◌∙◌, false, some, List, [], ◌∷◌, ◌++◌, map, ℤ, get_elem?,
  get_elem?-some, length, tail, All, lookup, contains, arith, Bool-cases, inl, inr,
}
use native.Mathlib.Decide.{ℕ_discrete, dec_lt}
use plug_in_ml.Floats.{FloatOps}
use plug_in_ml.Message.{RequestMessage}
use plug_in_ml.Server.KeyValueList.{KeyValueList}
use plug_in_ml.Server.State.{Server, fixed}
use plug_in_ml.Server.Push.{finish_round, serve_push}
use plug_in_ml.Server.Rounds.{
  count_longer, count_longer-All, count_longer-set, count_longer-tail, count_longer_mono,
}
use plug_in_ml.Server.EndRound.{
  Averages, next_version, end_round_lem, next-IsFilled, finish_round_early, finish_round_last,
}
use plug_in_ml.Server.Store.{
  update_of, Fits, IsFilled, stored, stored-IsFilled, store_update_full, store_update_lem,
}

-- Between two messages no round is finished: some agent has no update waiting.
pub record IsServing {F : Type 0} (s : Server F) : Type 0 where
  pub filled : IsFilled s
  pub unfinished : count_longer 0 s.version_buffer < s.agent_num

-- The buffer of an agent.
abbrev pub HasBuffer : {F : Type 0} → Server F → ℤ → ℕ → List (KeyValueList F) → Type 0
HasBuffer s id index buffer =
    (lookup id s.id_to_index ≡ some index) × (get_elem? s.version_buffer index ≡ some buffer)

module _ {F : Type 0} ⦃ops : FloatOps F⦄ where
  -- What a push of agent `id` comes to. Unknown agents and full buffers change nothing. Otherwise
  -- the update goes behind the agent's others; if every agent then has one, their average is added
  -- to the parameters, these are taken off, the version goes up and no request is left waiting.
  pub data Pushed (s : Server F) (id : ℤ) (request : RequestMessage F) (s' : Server F)
      : Type 0 where
    unknown : contains id s.agent_ids ≡ false → s' ≡ s → Pushed s id request s'
    refused :
        (index : ℕ) (buffer : List (KeyValueList F))
        → HasBuffer s id index buffer
        → s.consistency_bound ≤ length buffer
        → s' ≡ s
        → Pushed s id request s'
    waits :
        (index : ℕ) (buffer : List (KeyValueList F))
        → HasBuffer s id index buffer
        → length buffer < s.consistency_bound
        → s' ≡ stored s index buffer request
        → count_longer 0 s'.version_buffer < s.agent_num
        → Pushed s id request s'
    finished :
        (index : ℕ) (buffer : List (KeyValueList F))
        → HasBuffer s id index buffer
        → length buffer < s.consistency_bound
        → All (λ q. 0 < length q) (stored s index buffer request).version_buffer
        → s'.version_buffer ≡ map tail (stored s index buffer request).version_buffer
        → s'.bottom_version ≡ suc s.bottom_version
        → s'.pull_request ≡ []
        → Averages (stored s index buffer request) s'.parameters
        → Pushed s id request s'

  stored_push :
      (s : Server F) (id : ℤ) (request : RequestMessage F) (index : ℕ)
      (buffer : List (KeyValueList F))
      → IsServing s
      → Fits s.start_key s.parameter_length request
      → HasBuffer s id index buffer
      → length buffer < s.consistency_bound
      → (s' : Server F) × (finish_round (stored s index buffer request) ≡ some s')
        × IsServing s'
        × Pushed s id request s'
        × (fixed s' ≡ fixed s)
  stored_push s id request index buffer v fits has h =
      let t = stored s index buffer request in
      let filled = stored-IsFilled s request index buffer v.filled fits has.1 h in
      let raised = count_longer-set 0 index s.version_buffer buffer (update_of request) has.1 in
      let above = count_longer-set 1 index s.version_buffer buffer (update_of request) has.1 in
      elim (ℕ_discrete (count_longer 0 t.version_buffer) t.agent_num) [
        | no early ↦
            let fewer : count_longer 0 t.version_buffer < s.agent_num =
              ground (arith, raised, early, v.unfinished) in
            (
              t,
              finish_round_early t filled early,
              record { filled = filled; unfinished = fewer },
              waits index buffer has h refl fewer,
              refl,
            )
        | yes all ↦
            let counts = tail t.finish_count ++ 0 ∷ [] in
            let ended = end_round_lem t filled all counts in
            (
              next_version t ended.0 counts ended.1,
              finish_round_last t filled all ∙ ended.2,
              record {
                filled = next-IsFilled t ended.0 ended.1 filled ended.3;
                unfinished = ground (
                  arith,
                  raised,
                  above,
                  all,
                  v.unfinished,
                  count_longer-tail 0 t.version_buffer,
                  count_longer_mono 0 s.version_buffer,
                );
              },
              finished index buffer has h
                  (count_longer-All t.version_buffer (omega (arith, filled.agents, all))) refl refl
                  refl ended.4,
              refl,
            )
      ]

  pub serve_push-Pushed :
      (s : Server F) (id : ℤ) (request : RequestMessage F)
      → IsServing s
      → Fits s.start_key s.parameter_length request
      → (s' : Server F) × (serve_push s id request ≡ some s')
        × IsServing s'
        × Pushed s id request s'
        × (fixed s' ≡ fixed s)
  unfolding serve_push
  serve_push-Pushed s id request v fits = elim (Bool-cases (contains id s.agent_ids)) [
    | inr foreign ↦ (s, rw foreign, v, unknown foreign refl, refl)
    | inl member ↦
        let place = v.filled.known id member in
        let index = place.0 in
        let buffer =
          get_elem?-some s.version_buffer index
            (omega (arith, v.filled.indexed id index place.1, v.filled.agents)) in
        let has : HasBuffer s id index buffer.0 = (place.1, buffer.1) in
        elim (dec_lt (length buffer.0) s.consistency_bound) [
          | yes room ↦
              let stores =
                store_update_lem s id request index buffer.0 v.filled place.1 buffer.1 room
                  fits.paired in
              let rest = stored_push s id request index buffer.0 v fits has room in
              (rest.0, rw (member, stores) rest.1, rest.2, rest.3, rest.4)
          | no full ↦
              let keeps =
                store_update_full s id request index buffer.0 place.1 buffer.1 (omega arith) in
              let early = finish_round_early s v.filled (omega (arith, v.unfinished)) in
              (s, rw (member, keeps) early, v, refused index buffer.0 has (omega arith) refl, refl)
        ]
  ]
