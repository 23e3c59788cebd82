-- ===== src/Server/Pulling.antt =====
-- src/server/server.cc: ServePull as a whole, on a server between two messages.
use plug_in_ml.Base.{
  ◌≡◌, refl, false, some, none, List, [], ◌∷◌, ◌++◌, ℤ, pos, ◌-ℤ◌, ltb_ℤ, at-some, get_elem?-some,
  length, All, All-map, All-append, lookup, arith, inl, inr, Option-cases,
}
use native.Mathlib.Decide.{dec_lt}
use plug_in_ml.Message.{Message, RequestMessage}
use plug_in_ml.Communicator.{Sender}
use plug_in_ml.Server.PullInfo.{PullInfo}
use plug_in_ml.Server.State.{Server, fixed}
use plug_in_ml.Server.Pull.{pull_index, read_pull, serve_pull}
use plug_in_ml.Server.Average.{InSegment}
use plug_in_ml.Server.Answers.{Readable, serve_pull-Answers, serve_pull_waits}
use plug_in_ml.Server.Store.{Waits}
use plug_in_ml.Server.Serving.{IsServing}

module _ {F : Type 0} where
  InSegment-read_pull :
      (s : Server F) (key : ℤ)
      → length s.parameters ≡ s.parameter_length
      → InSegment s.start_key s.parameter_length key
      → Readable (read_pull s) key
  unfolding read_pull pull_index
  InSegment-read_pull s key sized i =
      let direct : ltb_ℤ (key -ℤ s.start_key) (pos 0) ≡ false = ground (arith, i.from_start) in
      rw direct
        (at-some s.parameters (key -ℤ s.start_key) i.from_start (omega (arith, i.below_end)))

  -- Serving does not depend on what was sent, nor on the copies.
  pub beside-IsServing :
      (s : Server F) (c : Sender (Message F)) (copies : List (List F))
      → IsServing s
      → IsServing (record s { sender = c; backup_parameters = copies })
  beside-IsServing s c copies v = record {
    filled = record {
      bound_pos = v.filled.bound_pos;
      agents = v.filled.agents;
      counts = v.filled.counts;
      full = v.filled.full;
      updates = v.filled.updates;
      sized = v.filled.sized;
      requests = v.filled.requests;
      peers = v.filled.peers;
      copies = v.filled.copies;
      indexed = v.filled.indexed;
      known = v.filled.known;
    };
    unfinished = v.unfinished;
  }

  waiting-IsServing :
      (s : Server F) (p : PullInfo)
      → IsServing s
      → Waits s.start_key s.parameter_length p
      → IsServing (record s { pull_request = s.pull_request ++ p ∷ [] })
  waiting-IsServing s p v w = record {
    filled = record {
      bound_pos = v.filled.bound_pos;
      agents = v.filled.agents;
      counts = v.filled.counts;
      full = v.filled.full;
      updates = v.filled.updates;
      sized = v.filled.sized;
      requests =
          All-append (Waits s.start_key s.parameter_length) s.pull_request (p ∷ [])
            v.filled.requests (w, tt);
      peers = v.filled.peers;
      copies = v.filled.copies;
      indexed = v.filled.indexed;
      known = v.filled.known;
    };
    unfinished = v.unfinished;
  }

  -- A request of an unknown node changes nothing.
  serve_pull_foreign :
      (s : Server F) (id : ℤ) (request : RequestMessage F)
      → lookup id s.id_to_index ≡ none
      → serve_pull s id request ≡ some s
  unfolding serve_pull
  serve_pull_foreign s id request e = rw (e, serve_pull) refl

  pub serve_pull-Pulled :
      (s : Server F) (id : ℤ) (request : RequestMessage F)
      → IsServing s
      → All (InSegment s.start_key s.parameter_length) request.keys
      → (s' : Server F) × (serve_pull s id request ≡ some s') × IsServing s' × (fixed s' ≡ fixed s)
  serve_pull-Pulled s id request v inside = elim (Option-cases (lookup id s.id_to_index)) [
    | inl foreign ↦ (s, serve_pull_foreign s id request foreign, v, refl)
    | inr (index, place) ↦
        let buffer =
          get_elem?-some s.version_buffer index
            (omega (arith, v.filled.indexed id index place, v.filled.agents)) in
        elim (dec_lt (length buffer.0) s.consistency_bound) [
          | yes below ↦
              let answer = serve_pull-Answers s id request index place buffer.0 buffer.1 below (
                All-map (InSegment s.start_key s.parameter_length) (Readable (read_pull s))
                  (λ key i. InSegment-read_pull s key v.filled.sized i) request.keys inside) in
              (_, answer.1, beside-IsServing s _ s.backup_parameters v, refl)
          | no ahead ↦ (
            _,
            serve_pull_waits s id request index place buffer.0 buffer.1 (omega arith),
            waiting-IsServing s _ v (record { counted = refl; inside = inside }),
            refl,
          )
        ]
  ]

  -- A pull of any node from a server that serves, with every key in the server's segment from its
  -- start on: `ServePull` reads nothing out of range, and the server serves on.
  pub serve_pull-IsServing :
      (s : Server F) (id : ℤ) (request : RequestMessage F)
      → IsServing s
      → All (InSegment s.start_key s.parameter_length) request.keys
      → (s' : Server F) × (serve_pull s id request ≡ some s') × IsServing s'
  serve_pull-IsServing s id request v inside =
      let r = serve_pull-Pulled s id request v inside in (r.0, r.1, r.2)
