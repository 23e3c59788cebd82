-- ===== src/Server/Respond.antt =====
-- src/server/server.cc: RespondToAll, on the requests that wait.
use plug_in_ml.Base.{
  ℕ, zero, suc, ◌≡◌, refl, sym, ap, ◌∙◌, some, none, List, [], ◌∷◌, ◌++◌, ℤ, ◌-ℤ◌, ◌<ℤ◌, at,
  at-negative, get_elem?, get_elem?-lt, length, All, All-map, for, arith, -ℤ_parts, Option-cases,
  inl, inr,
}
use mathlib.Core.List.{append_assoc, append-nil}
use plug_in_ml.Message.{Message}
use plug_in_ml.Communicator.{send}
use plug_in_ml.Server.PullInfo
use plug_in_ml.Server.PullInfo.{PullInfo}
use plug_in_ml.Server.State.{Server}
use plug_in_ml.Server.Pull.{
  key_value_reply, add_entry, read_blocked, respond_to, respond_each, respond_to_all,
}
use plug_in_ml.Server.Answers.{Answers, Readable, entries_loop, entries_stop}

module _ {F : Type 0} where
  -- A waiting request that can be answered.
  pub record IsRequest (s : Server F) (p : PullInfo) : Type 0 where
    pub counted : p.length_field ≡ length p.keys
    pub readable : All (Readable (read_blocked s)) p.keys

  -- One reply for each request, in order, to the agent that asked, with its keys and their values.
  abbrev pub Replies : Server F → List PullInfo → List (ℤ × Message F) → Type 0
  Replies s [] [] = Unit
  Replies s [] (m ∷ ms) = ⊥
  Replies s (p ∷ ps) [] = ⊥
  Replies s (p ∷ ps) ((dst, msg) ∷ ms) =
      ((values : List F) × (dst ≡ p.id)
        × (msg ≡ key_value_reply s.local_id p.id p.keys values)
        × Answers (read_blocked s) p.keys values)
      × Replies s ps ms

  respond_to_lem :
      (s : Server F) (p : PullInfo)
      → IsRequest s p
      → (values : List F) × (respond_to s p ≡ some (key_value_reply s.local_id p.id p.keys values))
        × Answers (read_blocked s) p.keys values
  unfolding respond_to PullInfo.size PullInfo.key_at
  respond_to_lem s p v =
      let loop = entries_loop (read_blocked s) p.keys p.keys 0 [] [] refl v.readable in
      let counted =
        ap (λ n. for n 0 (add_entry (get_elem? p.keys) (read_blocked s)) ([], [])) v.counted
        ∙ loop.1 in
      (loop.0, ground (arith, counted), loop.2)

  -- The server with no request waiting and these messages sent.
  abbrev pub answered : Server F → List (ℤ × Message F) → Server F
  answered s sent = record s { pull_request = []; sender = record s.sender { sent = sent } }

  respond_each_lem :
      (s : Server F) (ps : List PullInfo)
      → All (IsRequest s) ps
      → (replies : List (ℤ × Message F)) × (respond_each s ps
          ≡ some (answered s (s.sender.sent ++ replies)))
        × Replies s ps replies
  unfolding respond_each read_blocked send
  respond_each_lem s [] h = ([], ap (λ l. some (answered s l)) (sym (append-nil s.sender.sent)), tt)
  respond_each_lem s (p ∷ ps) h =
      let one = respond_to_lem s p h.0 in
      let reply = key_value_reply s.local_id p.id p.keys one.0 in
      let s' = record s { pull_request = ps; sender = send p.id reply s.sender } in
      let rest = respond_each_lem s' ps (
        All-map (IsRequest s) (IsRequest s')
          (λ q v. record { counted = v.counted; readable = v.readable }) ps h.1) in
      (
        (p.id, reply) ∷ rest.0,
        rw one.1 (
            rest.1
            ∙ ap (λ l. some (answered s l))
                (append_assoc s.sender.sent ((p.id, reply) ∷ []) rest.0)),
        ((one.0, refl, refl, one.2), rest.2),
      )

  -- `RespondToAll` with requests that can all be answered: no request is left waiting, and one
  -- reply for each has been sent, in the order in which they waited, to the agent that asked, with
  -- the keys asked for and for each the parameter at the key's distance from the start.
  pub respond_to_all_lem :
      (s : Server F)
      → All (IsRequest s) s.pull_request
      → (replies : List (ℤ × Message F)) × (respond_to_all s
          ≡ some (answered s (s.sender.sent ++ replies)))
        × Replies s s.pull_request replies
  unfolding respond_to_all
  respond_to_all_lem s h = respond_each_lem s s.pull_request h

  respond_to_stop :
      (s : Server F) (p : PullInfo) (j : ℕ) (key : ℤ)
      → p.length_field ≡ length p.keys
      → get_elem? p.keys j ≡ some key
      → key <ℤ s.start_key
      → respond_to s p ≡ none
  unfolding respond_to PullInfo.size PullInfo.key_at read_blocked
  respond_to_stop s p j key counted e below =
      let unread : at s.parameters (key -ℤ s.start_key) ≡ none =
        at-negative s.parameters (key -ℤ s.start_key) (omega (arith, -ℤ_parts key s.start_key)) in
      rw
        (entries_stop (read_blocked s) p.keys j key e unread p.length_field 0 ([], []) (omega arith)
          (omega (arith, get_elem?-lt p.keys j key e)))
        refl

  respond_each_stop :
      (s : Server F) (ps : List PullInfo) (i : ℕ) (p : PullInfo) (j : ℕ) (key : ℤ)
      → get_elem? ps i ≡ some p
      → p.length_field ≡ length p.keys
      → get_elem? p.keys j ≡ some key
      → key <ℤ s.start_key
      → respond_each s ps ≡ none
  unfolding respond_each send
  respond_each_stop s [] i p j key f counted e below = cc
  respond_each_stop s (q ∷ ps) zero p j key f counted e below =
      let same : q ≡ p = cc in
      rw (ap (respond_to s) same ∙ respond_to_stop s p j key counted e below)
  respond_each_stop s (q ∷ ps) (suc i) p j key f counted e below =
      elim (Option-cases (respond_to s q)) [
        | inl stop ↦ rw stop
        | inr (reply, step) ↦ rw step (
            respond_each_stop (record s { pull_request = ps; sender = send q.id reply s.sender }) ps
              i p j key f counted e below)
      ]

  -- A waiting request with a key below the start of this server's segment, as the last server
  -- holds them behind the end of the key range, makes `RespondToAll` read outside the parameters.
  pub respond_to_all_out_of_range :
      (s : Server F) (i : ℕ) (p : PullInfo) (j : ℕ) (key : ℤ)
      → get_elem? s.pull_request i ≡ some p
      → p.length_field ≡ length p.keys
      → get_elem? p.keys j ≡ some key
      → key <ℤ s.start_key
      → respond_to_all s ≡ none
  unfolding respond_to_all
  respond_to_all_out_of_range s i p j key f counted e below =
      respond_each_stop s s.pull_request i p j key f counted e below
