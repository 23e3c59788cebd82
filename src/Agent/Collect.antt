-- ===== src/Agent/Collect.antt =====
-- src/agent/agent.cc: Pull, from the first reply on.
use plug_in_ml.Base.{
  ◌≤◌, ◌≡◌, refl, ap, ◌∙◌, true, false, Option, none, some, List, [], ◌∷◌, ◌++◌, ℤ, length,
  length-append, length-drop, drop, ◌==◌, arith,
}
use mathlib.Core.List.{append_assoc}
use plug_in_ml.Message.{Message, RequestMessage}
use plug_in_ml.Agent.Pull.{Waiting, set_erase, accept, receive_loop}
use plug_in_ml.Agent.Reply.{
  Holding, drop_both, take_reply-Holding, cast_Holding, nothing_more, take_reply_ignored,
}

module _ {F : Type 0} where
  -- The replies that the loop takes, in the order in which they arrive, until no server is left:
  -- between them may come errors of `Receive` and messages that fail one of the tests. A reply has
  -- as many values as keys.
  pub data Arrives (local_id : ℤ)
      : List ℤ → List (Option (Message F)) → List (RequestMessage F) → Type 0 where
    complete : (arriving : List (Option (Message F))) → Arrives local_id [] arriving []
    error :
        (s : ℤ) (servers : List ℤ) (rest : List (Option (Message F)))
        (bodies : List (RequestMessage F))
        → Arrives local_id (s ∷ servers) rest bodies
        → Arrives local_id (s ∷ servers) (none ∷ rest) bodies
    ignored :
        (s : ℤ) (servers : List ℤ) (msg : Message F) (rest : List (Option (Message F)))
        (bodies : List (RequestMessage F))
        → accept local_id (s ∷ servers) msg ≡ none
        → Arrives local_id (s ∷ servers) rest bodies
        → Arrives local_id (s ∷ servers) (some msg ∷ rest) bodies
    replies :
        (s : ℤ) (servers : List ℤ) (msg : Message F) (body : RequestMessage F)
        (rest : List (Option (Message F))) (bodies : List (RequestMessage F))
        → accept local_id (s ∷ servers) msg ≡ some body
        → length body.values ≡ length body.keys
        → Arrives local_id (set_erase msg.send_id (s ∷ servers)) rest bodies
        → Arrives local_id (s ∷ servers) (some msg ∷ rest) (body ∷ bodies)

  -- The entries of all replies.
  unfoldable pub reply_keys : List (RequestMessage F) → List ℤ
  reply_keys [] = []
  reply_keys (body ∷ bodies) = body.keys ++ reply_keys bodies

  unfoldable pub reply_values : List (RequestMessage F) → List F
  reply_values [] = []
  reply_values (body ∷ bodies) = body.values ++ reply_values bodies

  pub receive_loop-Holding :
      (local_id : ℤ) (servers : List ℤ) (arriving : List (Option (Message F)))
      (bodies : List (RequestMessage F))
      → Arrives local_id servers arriving bodies
      → (w : Waiting F) (keys keys_left : List ℤ) (values values_left : List F)
      → w.servers ≡ servers
      → Holding w keys keys_left values values_left
      → length (reply_keys bodies) ≤ length keys_left
      → length (reply_keys bodies) ≤ length values_left
      → (w' : Waiting F) × (rest : List (Option (Message F))) × (receive_loop local_id w arriving
          ≡ some (w', rest))
        × (w'.servers ≡ [])
        × Holding w'
            (keys ++ reply_keys bodies)
            (drop (length (reply_keys bodies)) keys_left)
            (values ++ reply_values bodies)
            (drop (length (reply_keys bodies)) values_left)
  unfolding receive_loop reply_keys reply_values
  receive_loop-Holding local_id _ [] _ (complete _) w keys kl values vl e h rk rv =
      (w, [], refl, e, nothing_more w keys kl values vl h)
  receive_loop-Holding local_id _ (none ∷ arriving) _ (complete _) w keys kl values vl e h rk rv =
      let over : (length w.servers == 0) ≡ true = ground (arith, ap length e) in
      (w, none ∷ arriving, rw over refl, e, nothing_more w keys kl values vl h)
  receive_loop-Holding local_id _ (some msg ∷ arriving) _ (complete _) w keys kl values vl e h rk
        rv =
      let over : (length w.servers == 0) ≡ true = ground (arith, ap length e) in
      (w, some msg ∷ arriving, rw over refl, e, nothing_more w keys kl values vl h)
  receive_loop-Holding local_id _ _ _ (error s servers rest bodies more) w keys kl values vl e h rk
        rv =
      let waits : (length w.servers == 0) ≡ false = ground (arith, ap length e) in
      let later =
        receive_loop-Holding local_id (s ∷ servers) rest bodies more w keys kl values vl e h rk
          rv in
      (later.0, later.1, rw waits later.2, later.3, later.4)
  receive_loop-Holding local_id _ _ _ (ignored s servers msg rest bodies failed more) w keys kl
        values vl e h rk rv =
      let waits : (length w.servers == 0) ≡ false = ground (arith, ap length e) in
      let skipped =
        take_reply_ignored local_id w msg (ap (λ l. accept local_id l msg) e ∙ failed) in
      let later =
        receive_loop-Holding local_id (s ∷ servers) rest bodies more w keys kl values vl e h rk
          rv in
      (later.0, later.1, rw (waits, skipped) later.2, later.3, later.4)
  receive_loop-Holding local_id _ _ _ (replies s servers msg body rest bodies passed paired more) w
        keys kl values vl e h rk rv =
      let waits : (length w.servers == 0) ≡ false = ground (arith, ap length e) in
      let total = length-append body.keys (reply_keys bodies) in
      let taken =
        take_reply-Holding local_id w msg body keys kl values vl
          (ap (λ l. accept local_id l msg) e ∙ passed) paired h (omega (arith, rk, total))
          (omega (arith, rv, total)) in
      let n = length body.keys in
      let later =
        receive_loop-Holding local_id (set_erase msg.send_id (s ∷ servers)) rest bodies more taken.0
          (keys ++ body.keys) (drop n kl) (values ++ body.values) (drop n vl)
          (taken.2 ∙ ap (set_erase msg.send_id) e) taken.3
          (omega (arith, rk, total, length-drop n kl))
          (omega (arith, rv, total, length-drop n vl)) in
      (
        later.0,
        later.1,
        rw (waits, taken.1) later.2,
        later.3,
        cast_Holding later.0 later.4 (append_assoc keys body.keys (reply_keys bodies))
            (drop_both n (length (reply_keys bodies)) kl total)
            (append_assoc values body.values (reply_values bodies))
            (drop_both n (length (reply_keys bodies)) vl total),
      )
