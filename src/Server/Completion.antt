-- ===== src/Server/Completion.antt =====
-- src/server/server.cc: ServePush, for the pushes that complete a round.
use plug_in_ml.Base.{
  ℕ, suc, ◌+◌, ◌<◌, ◌≡◌, ◌≢◌, refl, ap₂, ◌∙◌, true, some, none, List, [], ◌∷◌, map, ℤ, get_elem?,
  get_elem?-set_ne, set, length, length-set, All, lookup, contains, arith,
}
use mathlib.Core.Path.{subst}
use plug_in_ml.Floats.{FloatOps}
use plug_in_ml.Message.{Addr, Message, request, RequestMessage, key_value}
use plug_in_ml.Server.State.{Server}
use plug_in_ml.Server.Rounds.{count_longer, count_longer-set}
use plug_in_ml.Server.KeyValueList.{KeyValueList}
use plug_in_ml.Server.Store.{Fits, stored, update_of}
use plug_in_ml.Server.Serving.{
  IsServing, HasBuffer, Pushed, unknown, refused, waits, finished, serve_push-Pushed,
}
use plug_in_ml.Server.Handle.{start}
use plug_in_ml.Server.Steps.{handle_push}

All-count_longer :
    {A : Type 0} (qs : List (List A)) → All (λ q. 0 < length q) qs → count_longer 0 qs ≡ length qs
unfolding count_longer
All-count_longer [] h = refl
All-count_longer (q ∷ qs) h = ground (arith, All-count_longer qs h.1, h.0)

none_of_length : {A : Type 0} (xs : List A) → length xs ≡ 0 → xs ≡ []
none_of_length [] h = refl
none_of_length (x ∷ xs) h = absurd (omega arith)

-- A push that fits, of a known agent whose buffer, at `index`, is empty.
pub record FirstPush {F : Type 0} (s : Server F) (index : ℕ) (msg : Message F) : Type 0 where
  pub body : RequestMessage F
  pub other : lookup msg.send_id s.servers ≡ none
  pub typed : msg.message_type ≡ request
  pub has : msg.request_msg ≡ some body
  pub kind : body.request_type ≡ key_value
  pub fits : Fits s.start_key s.parameter_length body
  pub member : contains msg.send_id s.agent_ids ≡ true
  pub empty : HasBuffer s msg.send_id index []

module _ {F : Type 0} where
  -- The pushes are of different agents.
  abbrev pub Differ : List (ℕ × Message F) → Type 0
  Differ [] = Unit
  Differ ((index, msg) ∷ rest) = All (λ q. index ≢ q.0) rest × Differ rest

  stored-FirstPush :
      (s : Server F) (i : ℕ) (body : RequestMessage F) (rest : List (ℕ × Message F))
      → All (λ q. i ≢ q.0) rest
      → All (λ q. FirstPush s q.0 q.1) rest
      → All (λ q. FirstPush (stored s i [] body) q.0 q.1) rest
  stored-FirstPush s i body [] apart h = tt
  stored-FirstPush s i body ((j, msg) ∷ rest) apart h =
      let f = h.0 in
      (
        record {
          body = f.body;
          other = f.other;
          typed = f.typed;
          has = f.has;
          kind = f.kind;
          fits = f.fits;
          member = f.member;
          empty = (
            f.empty.0,
            get_elem?-set_ne s.version_buffer i j (update_of body ∷ []) apart.0 ∙ f.empty.1,
          );
        },
        stored-FirstPush s i body rest apart.1 h.1,
      )

module _ {F : Type 0} ⦃ops : FloatOps F⦄ where
  -- What a first push comes to.
  pub data FirstPushed (s s' : Server F) (index : ℕ) (body : RequestMessage F) : Type 0 where
    goes_on : s' ≡ stored s index [] body → FirstPushed s s' index body
    ends :
        suc (count_longer 0 s.version_buffer) ≡ s.agent_num
        → s'.bottom_version ≡ suc s.bottom_version
        → s'.pull_request ≡ []
        → FirstPushed s s' index body

  raised :
      (s : Server F) (index : ℕ) (body : RequestMessage F)
      → get_elem? s.version_buffer index ≡ some []
      → count_longer 0 (set s.version_buffer index (update_of body ∷ []))
        ≡ suc (count_longer 0 s.version_buffer)
  raised s index body e = count_longer-set 0 index s.version_buffer [] (update_of body) e

  same_buffer :
      (s : Server F) (id : ℤ) (i j : ℕ) (a b : List (KeyValueList F))
      → HasBuffer s id i a
      → HasBuffer s id j b
      → (i ≡ j) × (a ≡ b)
  same_buffer s id i j a b p q = (cc, cc)

  first_push :
      (s s' : Server F) (id : ℤ) (index : ℕ) (body : RequestMessage F)
      → IsServing s
      → contains id s.agent_ids ≡ true
      → HasBuffer s id index []
      → Pushed s id body s'
      → FirstPushed s s' index body
  first_push s s' id index body v member empty (unknown foreign e) = absurd (cc)
  first_push s s' id index body v member empty (refused j buffer has full e) =
      let same = same_buffer s id j index buffer [] has empty in
      absurd (ground (arith, same.1, full, v.filled.bound_pos))
  first_push s s' id index body v member empty (waits j buffer has room e fewer) =
      let same = same_buffer s id j index buffer [] has empty in
      goes_on (e ∙ ap₂ (λ i b. stored s i b body) same.0 same.1)
  first_push s s' id index body v member empty
        (finished j buffer has room all buffers up none_left avg) =
      let same = same_buffer s id j index buffer [] has empty in
      let full = All-count_longer (set s.version_buffer index (update_of body ∷ [])) (
        subst (λ t. All (λ q. 0 < length q) t.version_buffer)
          (ap₂ (λ i b. stored s i b body) same.0 same.1) all) in
      let sized = length-set s.version_buffer index (update_of body ∷ []) in
      ends (omega (arith, full, raised s index body empty.1, sized, v.filled.agents)) up none_left

  -- A server that serves, and one push of each agent that has no update waiting, in any order:
  -- `Start` handles them, and with the last one the round ends. The version has gone up by one and
  -- no pull request is left waiting.
  pub start-ends_round :
      (zmq_close : Addr → ℤ) (s : Server F) (pushes : List (ℕ × Message F))
      → IsServing s
      → All (λ q. FirstPush s q.0 q.1) pushes
      → Differ pushes
      → count_longer 0 s.version_buffer + length pushes ≡ s.agent_num
      → (s' : Server F) × (start zmq_close s (map (λ q. q.1) pushes) ≡ some s')
        × IsServing s'
        × (s'.bottom_version ≡ suc s.bottom_version)
        × (s'.pull_request ≡ [])
  unfolding start
  start-ends_round zmq_close s [] v first apart all = absurd (omega (arith, v.unfinished))
  start-ends_round zmq_close s ((index, msg) ∷ rest) v first apart all =
      let f = first.0 in
      let r = serve_push-Pushed s msg.send_id f.body v f.fits in
      let handled = handle_push zmq_close s msg f.body f.other f.typed f.has f.kind ∙ r.1 in
      elim (first_push s r.0 msg.send_id index f.body v f.member f.empty r.3) [
        | ends last up none_left ↦
            let nothing = none_of_length rest (omega (arith, last, all)) in
            (r.0, rw (handled, nothing) refl, r.2, up, none_left)
        | goes_on e ↦
            let t = stored s index [] f.body in
            let more =
              start-ends_round zmq_close t rest (subst (λ u. IsServing u) e r.2)
                (stored-FirstPush s index f.body rest apart.0 first.1) apart.1
                (omega (arith, all, raised s index f.body f.empty.1)) in
            (more.0, rw (handled, e) more.1, more.2, more.3, more.4)
      ]
