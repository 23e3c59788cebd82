-- ===== src/Agent/Reply.antt =====
-- src/agent/agent.cc: Pull, one reply.
use plug_in_ml.Base.{
  ℕ, zero, suc, ◌+◌, ◌≤◌, ◌≡◌, refl, sym, ap, ap₂, ◌∙◌, true, none, some, List, [], ◌∷◌, ◌++◌, ℤ,
  set-middle, length, length-append, drop, drop-cons, for, ltb, arith,
}
use mathlib.Core.List.{append_assoc, append-nil}
use plug_in_ml.Message.{Message, RequestMessage}
use plug_in_ml.Agent.State.{put}
use plug_in_ml.Agent.Pull.{Waiting, set_erase, accept, copy_entry, take_reply}

drop-none : {A : Type 0} (n : ℕ) → drop {A = A} n [] ≡ []
drop-none zero = refl
drop-none (suc n) = refl

drop_add : {A : Type 0} (a b : ℕ) (xs : List A) → drop b (drop a xs) ≡ drop (a + b) xs
drop_add zero b xs = ap (λ n. drop n xs) (omega arith)
drop_add (suc a) b [] = drop-none b ∙ sym (drop-none (suc a + b))
drop_add (suc a) b (x ∷ xs) =
    let same : suc (a + b) ≡ suc a + b = omega arith in
    drop_add a b xs ∙ ap (λ n. drop n (x ∷ xs)) same

pub drop_both :
    {A : Type 0} (a b : ℕ) (xs : List A) {n : ℕ} → n ≡ a + b → drop b (drop a xs) ≡ drop n xs
drop_both a b xs e = drop_add a b xs ∙ ap (λ m. drop m xs) (sym e)

-- `put` at the end of a first part.
put-middle :
    {A : Type 0} (before rest : List A) (old new : A) (i : ℕ)
    → i ≡ length before
    → put (before ++ old ∷ rest) i new ≡ some ((before ++ new ∷ []) ++ rest)
unfolding put
put-middle before rest old new i e =
    let inside : ltb i (length (before ++ old ∷ rest)) ≡ true =
      ground (arith, e, length-append before (old ∷ rest)) in
    rw (inside, e) (ap some (set-middle before old new rest))

module _ {F : Type 0} where
  -- The entries of a reply are written behind what is there.
  copy_loop :
      (body : RequestMessage F) (cur i : ℕ) (ks keys keys_left : List ℤ)
      (vs values values_left : List F)
      → drop i body.keys ≡ ks
      → drop i body.values ≡ vs
      → length vs ≡ length ks
      → length keys ≡ cur + i
      → length values ≡ cur + i
      → length ks ≤ length keys_left
      → length ks ≤ length values_left
      → for (length ks) i (copy_entry body cur) (keys ++ keys_left, values ++ values_left)
        ≡ some (
          (keys ++ ks) ++ drop (length ks) keys_left,
          (values ++ vs) ++ drop (length ks) values_left,
        )
  unfolding for copy_entry
  copy_loop body cur i [] keys kl [] values vl dk dv same nk nv rk rv =
      rw (append-nil keys, append-nil values) refl
  copy_loop body cur i [] keys kl (v ∷ vs) values vl dk dv same nk nv rk rv = absurd (omega arith)
  copy_loop body cur i (k ∷ ks) keys kl [] values vl dk dv same nk nv rk rv = absurd (omega arith)
  copy_loop body cur i (k ∷ ks) keys [] (v ∷ vs) values vl dk dv same nk nv rk rv =
      absurd (omega arith)
  copy_loop body cur i (k ∷ ks) keys (a ∷ kl) (v ∷ vs) values [] dk dv same nk nv rk rv =
      absurd (omega arith)
  copy_loop body cur i (k ∷ ks) keys (a ∷ kl) (v ∷ vs) values (b ∷ vl) dk dv same nk nv rk rv =
      let hk = drop-cons body.keys i k ks dk in
      let hv = drop-cons body.values i v vs dv in
      let pk = put-middle keys kl a k (cur + i) (sym nk) in
      let pv = put-middle values vl b v (cur + i) (sym nv) in
      let rest =
        copy_loop body cur (suc i) ks (keys ++ k ∷ []) kl vs (values ++ v ∷ []) vl hk.1 hv.1
          (omega arith) (omega (arith, nk, length-append keys (k ∷ [])))
          (omega (arith, nv, length-append values (v ∷ []))) (omega arith) (omega arith) in
      rw (hk.0, hv.0, pk, pv, rest, append_assoc keys (k ∷ []) ks, append_assoc values (v ∷ []) vs)
        refl

  -- The first `cur` entries of the arrays, and what lies behind them.
  pub record Holding (w : Waiting F) (keys keys_left : List ℤ) (values values_left : List F)
      : Type 0 where
    pub all_keys : w.keys ≡ keys ++ keys_left
    pub all_values : w.values ≡ values ++ values_left
    pub counted_keys : length keys ≡ w.cur
    pub counted_values : length values ≡ w.cur

  -- One reply: its entries lie behind those that were there.
  pub take_reply-Holding :
      (local_id : ℤ) (w : Waiting F) (msg : Message F) (body : RequestMessage F)
      (keys keys_left : List ℤ) (values values_left : List F)
      → accept local_id w.servers msg ≡ some body
      → length body.values ≡ length body.keys
      → Holding w keys keys_left values values_left
      → length body.keys ≤ length keys_left
      → length body.keys ≤ length values_left
      → (w' : Waiting F) × (take_reply local_id w msg ≡ some w')
        × (w'.servers ≡ set_erase msg.send_id w.servers)
        × Holding w'
            (keys ++ body.keys)
            (drop (length body.keys) keys_left)
            (values ++ body.values)
            (drop (length body.keys) values_left)
  unfolding take_reply
  take_reply-Holding local_id w msg body keys kl values vl taken paired h rk rv =
      let copied =
        copy_loop body w.cur 0 body.keys keys kl body.values values vl refl refl paired
          (omega (arith, h.counted_keys)) (omega (arith, h.counted_values)) rk rv in
      (
        record {
          servers = set_erase msg.send_id w.servers;
          cur = w.cur + length body.keys;
          keys = (keys ++ body.keys) ++ drop (length body.keys) kl;
          values = (values ++ body.values) ++ drop (length body.keys) vl;
        },
        rw (take_reply, taken, h.all_keys, h.all_values, copied) refl,
        refl,
        record {
          all_keys = refl;
          all_values = refl;
          counted_keys = omega (arith, h.counted_keys, length-append keys body.keys);
          counted_values =
              omega (arith, h.counted_values, length-append values body.values, paired);
        },
      )

  pub cast_Holding :
      {keys keys' keys_left keys_left' : List ℤ} {values values' values_left values_left' : List F}
      (w : Waiting F)
      → Holding w keys keys_left values values_left
      → keys ≡ keys'
      → keys_left ≡ keys_left'
      → values ≡ values'
      → values_left ≡ values_left'
      → Holding w keys' keys_left' values' values_left'
  cast_Holding w h a b c d = record {
    all_keys = h.all_keys ∙ ap₂ (λ x y. x ++ y) a b;
    all_values = h.all_values ∙ ap₂ (λ x y. x ++ y) c d;
    counted_keys = sym (ap length a) ∙ h.counted_keys;
    counted_values = sym (ap length c) ∙ h.counted_values;
  }

  pub nothing_more :
      (w : Waiting F) (keys keys_left : List ℤ) (values values_left : List F)
      → Holding w keys keys_left values values_left
      → Holding w (keys ++ []) keys_left (values ++ []) values_left
  nothing_more w keys kl values vl h =
      cast_Holding w h (sym (append-nil keys)) refl (sym (append-nil values)) refl

  pub take_reply_ignored :
      (local_id : ℤ) (w : Waiting F) (msg : Message F)
      → accept local_id w.servers msg ≡ none
      → take_reply local_id w msg ≡ some w
  unfolding take_reply
  take_reply_ignored local_id w msg e = rw (take_reply, e) refl
