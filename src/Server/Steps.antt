-- ===== src/Server/Steps.antt =====
-- src/server/server.cc: Start, over the messages of a running server.
use plug_in_ml.Base.{
  ℕ, ◌<◌, ◌≡◌, refl, sym, ap, ◌∙◌, some, none, List, [], ◌∷◌, ℤ, get_elem?-some, set, length,
  length-set, length-replicate, replicate, All, All-map, lookup, arith,
}
use mathlib.Core.Path.{subst}
use plug_in_ml.Floats.{FloatOps}
use plug_in_ml.Message.{
  Addr, Message, MessageType, config, request, heartbeat, register, terminate, RequestMessage,
  key_value, key,
}
use plug_in_ml.Communicator.{send}
use plug_in_ml.Server.State.{Server, fixed}
use plug_in_ml.Server.Pull.{serve_pull}
use plug_in_ml.Server.Push.{serve_push}
use plug_in_ml.Server.Backup.{backup_index}
use plug_in_ml.Server.Average.{InSegment}
use plug_in_ml.Server.Store.{Fits}
use plug_in_ml.Server.Serving.{IsServing, serve_push-Pushed}
use plug_in_ml.Server.Pulling.{serve_pull-Pulled, beside-IsServing}
use plug_in_ml.Server.Copies.{own_reply, respond_backup_lem, backup_lem}
use plug_in_ml.Server.Handle.{handle_server, handle_request, handle_typed, handle, start}

-- A message that changes nothing by its type.
pub data IsIgnored : MessageType → Type 0 where
  ignored_heartbeat : IsIgnored heartbeat
  ignored_register : IsIgnored register
  ignored_terminate : IsIgnored terminate

-- A push that fits the segment, a pull of keys from the start up to the start and the length, a
-- message that is ignored, a server's copy that has a place, a server's request for a copy. A pull
-- of keys below the start, as the last server gets them too, is none of these.
pub data Expected {F : Type 0} (s : Server F) (msg : Message F) : Type 0 where
  a_push :
      (body : RequestMessage F)
      → lookup msg.send_id s.servers ≡ none
      → msg.message_type ≡ request
      → msg.request_msg ≡ some body
      → body.request_type ≡ key_value
      → Fits s.start_key s.parameter_length body
      → Expected s msg
  a_pull :
      (body : RequestMessage F)
      → lookup msg.send_id s.servers ≡ none
      → msg.message_type ≡ request
      → msg.request_msg ≡ some body
      → body.request_type ≡ key
      → All (InSegment s.start_key s.parameter_length) body.keys
      → Expected s msg
  nothing : lookup msg.send_id s.servers ≡ none → IsIgnored msg.message_type → Expected s msg
  a_copy :
      (body : RequestMessage F) (i : ℕ)
      → lookup msg.send_id s.servers ≡ some i
      → msg.request_msg ≡ some body
      → backup_index s msg.send_id < length s.backup_parameters
      → Expected s msg
  a_copy_request :
      (i : ℕ) → lookup msg.send_id s.servers ≡ some i → msg.request_msg ≡ none → Expected s msg

module _ {F : Type 0} where
  to_fixed : (s : Server F) (msg : Message F) → Expected s msg → Expected (fixed s) msg
  unfolding backup_index
  to_fixed s msg (a_push body a b c d e) = a_push body a b c d e
  to_fixed s msg (a_pull body a b c d e) = a_pull body a b c d e
  to_fixed s msg (nothing a b) = nothing a b
  to_fixed s msg (a_copy body i a b c) =
      a_copy body i a b
        (omega (arith, c, length-replicate {A = List F} (length s.backup_parameters) []))
  to_fixed s msg (a_copy_request i a b) = a_copy_request i a b

  from_fixed : (s : Server F) (msg : Message F) → Expected (fixed s) msg → Expected s msg
  unfolding backup_index
  from_fixed s msg (a_push body a b c d e) = a_push body a b c d e
  from_fixed s msg (a_pull body a b c d e) = a_pull body a b c d e
  from_fixed s msg (nothing a b) = nothing a b
  from_fixed s msg (a_copy body i a b c) =
      a_copy body i a b
        (omega (arith, c, length-replicate {A = List F} (length s.backup_parameters) []))
  from_fixed s msg (a_copy_request i a b) = a_copy_request i a b

  -- What is expected stays expected.
  Expected-fixed :
      (s s' : Server F) (msg : Message F) → fixed s' ≡ fixed s → Expected s msg → Expected s' msg
  Expected-fixed s s' msg same e =
      from_fixed s' msg (subst (λ t. Expected t msg) (sym same) (to_fixed s msg e))

module _ {F : Type 0} ⦃ops : FloatOps F⦄ where
  handle_ignored :
      (zmq_close : Addr → ℤ) (s : Server F) (msg : Message F) (type_field : MessageType)
      → IsIgnored type_field
      → handle_typed zmq_close s msg type_field ≡ some s
  unfolding handle_typed
  handle_ignored zmq_close s msg config i = elim i [ ]
  handle_ignored zmq_close s msg request i = elim i [ ]
  handle_ignored zmq_close s msg heartbeat ignored_heartbeat = refl
  handle_ignored zmq_close s msg register ignored_register = refl
  handle_ignored zmq_close s msg terminate ignored_terminate = refl

  push_request :
      (s : Server F) (id : ℤ) (body : RequestMessage F)
      → handle_request s id body key_value ≡ serve_push s id body
  unfolding handle_request
  push_request s id body = refl

  pull_request_lem :
      (s : Server F) (id : ℤ) (body : RequestMessage F)
      → handle_request s id body key ≡ serve_pull s id body
  unfolding handle_request
  pull_request_lem s id body = refl

  -- A push reaches `ServePush`.
  pub handle_push :
      (zmq_close : Addr → ℤ) (s : Server F) (msg : Message F) (body : RequestMessage F)
      → lookup msg.send_id s.servers ≡ none
      → msg.message_type ≡ request
      → msg.request_msg ≡ some body
      → body.request_type ≡ key_value
      → handle zmq_close s msg ≡ serve_push s msg.send_id body
  unfolding handle
  handle_push zmq_close s msg body other typed has kind =
      rw (handle, other, typed, handle_typed, has)
        (ap (handle_request s msg.send_id body) kind ∙ push_request s msg.send_id body)

  -- One message: nothing is read out of range, and the server serves on, as the same server.
  handle-IsServing :
      (zmq_close : Addr → ℤ) (s : Server F) (msg : Message F)
      → IsServing s
      → Expected s msg
      → (s' : Server F) × (handle zmq_close s msg ≡ some s') × IsServing s' × (fixed s' ≡ fixed s)
  unfolding handle
  handle-IsServing zmq_close s msg v (a_push body other typed has kind fits) =
      let r = serve_push-Pushed s msg.send_id body v fits in
      (r.0, handle_push zmq_close s msg body other typed has kind ∙ r.1, r.2, r.4)
  handle-IsServing zmq_close s msg v (a_pull body other typed has kind inside) =
      let r = serve_pull-Pulled s msg.send_id body v inside in
      (
        r.0,
        rw (handle, other, typed, handle_typed, has)
            (ap (handle_request s msg.send_id body) kind
              ∙ pull_request_lem s msg.send_id body
              ∙ r.1),
        r.2,
        r.3,
      )
  handle-IsServing zmq_close s msg v (nothing other ignored) =
      (s, rw (handle, other) (handle_ignored zmq_close s msg msg.message_type ignored), v, refl)
  handle-IsServing zmq_close s msg v (a_copy body i known has place) =
      let index = backup_index s msg.send_id in
      let old = get_elem?-some s.backup_parameters index place in
      (
        _,
        rw (handle, known, handle_server, has) (backup_lem s msg body old.0 i known has old.1),
        beside-IsServing s s.sender (set s.backup_parameters index body.values) v,
        ap (λ n. record (fixed s) { backup_parameters = replicate n [] })
            (length-set s.backup_parameters index body.values),
      )
  handle-IsServing zmq_close s msg v (a_copy_request i known none_there) = (
    _,
    rw (handle, known, handle_server, none_there) (respond_backup_lem s msg.send_id v.filled.sized),
    beside-IsServing s (send msg.send_id (own_reply s msg.send_id) s.sender) s.backup_parameters v,
    refl,
  )

  -- A server that serves, and any messages, in any order, of these kinds: pushes that fit its segment,
  -- pulls of keys from its start up to its start and its length (so not of the keys below its start
  -- that the last server also holds), messages that are ignored, copies that have a place, and
  -- requests for a copy. `Start` handles them all and reads nothing out of range, the server serves
  -- on, and only what was sent, the parameters, the copies and the state of the rounds have changed.
  pub start-IsServing :
      (zmq_close : Addr → ℤ) (s : Server F) (messages : List (Message F))
      → IsServing s
      → All (Expected s) messages
      → (s' : Server F) × (start zmq_close s messages ≡ some s')
        × IsServing s'
        × (fixed s' ≡ fixed s)
  unfolding start
  start-IsServing zmq_close s [] v e = (s, refl, v, refl)
  start-IsServing zmq_close s (msg ∷ rest) v e =
      let one = handle-IsServing zmq_close s msg v e.0 in
      let more = start-IsServing zmq_close one.0 rest one.2 (
        All-map (Expected s) (Expected one.0) (λ m x. Expected-fixed s one.0 m one.3 x) rest e.1) in
      (more.0, rw one.1 more.1, more.2, more.3 ∙ one.3)
