-- ===== src/Server/Copies.antt =====
-- src/server/server.cc: RespondBackup and Backup, the two ends of a copy.
use plug_in_ml.Base.{
  ℕ, zero, suc, ◌+◌, ◌-◌, ◌%◌, ◌≤◌, ◌<◌, ◌≡◌, refl, sym, ap, ap₂, ◌∙◌, Bool, true, false, some,
  List, [], ◌∷◌, ◌++◌, ℤ, pos, ◌+ℤ◌, get_elem?, get_elem?-some, get_elem?-middle, set, set-middle,
  length, length-append, length-replicate, replicate, drop, drop-cons, for, lookup, arith, ◌==◌,
  if◌then◌else◌,
}
use mathlib.Core.List.{append_assoc, append-nil}
use native.Mathlib.Nat.{add-mod_right, mod-eq_of_lt}
use native.Mathlib.Decide.{dec_lt}
use plug_in_ml.Floats.{FloatOps, zero_value}
use plug_in_ml.Message.{Message, Addr, RequestType, RequestMessage}
use plug_in_ml.Communicator.{send}
use plug_in_ml.Server.State.{Server}
use plug_in_ml.Server.Pull.{key_value_reply, add_entry}
use plug_in_ml.Server.Backup.{
  backup_request, predecessor, backup_index, respond_backup, copy_value, backup,
}
use plug_in_ml.Server.Handle.{handle, handle_server}
use plug_in_ml.Server.Store.{touch-known, index_of-known}

-- The keys of a segment from its `i`-th on.
pub segment_keys : ℤ → ℕ → ℕ → List ℤ
segment_keys start i zero = []
segment_keys start i (suc n) = (start +ℤ pos i) ∷ segment_keys start (suc i) n

module _ {F : Type 0} where
  respond_loop :
      (start : ℤ) (parameters ps : List F) (i : ℕ) (keys : List ℤ) (values : List F)
      → drop i parameters ≡ ps
      → for
          (length ps)
          i
          (λ i. add_entry (λ j. some (start +ℤ pos j)) (λ key. get_elem? parameters i) i)
          (keys, values)
        ≡ some (keys ++ segment_keys start i (length ps), values ++ ps)
  unfolding for add_entry segment_keys
  respond_loop start parameters [] i keys values e =
      ap some (ap₂ (λ a b. (a, b)) (sym (append-nil keys)) (sym (append-nil values)))
  respond_loop start parameters (p ∷ ps) i keys values e =
      let here = drop-cons parameters i p ps e in
      let k = start +ℤ pos i in
      rw
        (
          here.0,
          respond_loop start parameters ps (suc i) (keys ++ k ∷ []) (values ++ p ∷ []) here.1,
          append_assoc keys (k ∷ []) (segment_keys start (suc i) (length ps)),
          append_assoc values (p ∷ []) ps,
        )
        refl

  -- The reply with all keys and parameters.
  pub own_reply : Server F → ℤ → Message F
  own_reply s dst =
      key_value_reply s.local_id dst (segment_keys s.start_key 0 s.parameter_length) s.parameters

  pub respond_backup_lem :
      (s : Server F) (dst : ℤ)
      → length s.parameters ≡ s.parameter_length
      → respond_backup s dst ≡ some (record s { sender = send dst (own_reply s dst) s.sender })
  unfolding respond_backup own_reply
  respond_backup_lem s dst sized =
      rw (sym sized, respond_loop s.start_key s.parameters s.parameters 0 [] [] refl) refl

module _ {F : Type 0} ⦃ops : FloatOps F⦄ where
  copy_loop :
      (values vs pre old : List F)
      → drop (length pre) values ≡ vs
      → length vs ≡ length old
      → for (length vs) (length pre) (copy_value values) (pre ++ old) ≡ some (pre ++ vs)
  unfolding for copy_value
  copy_loop values [] pre [] e same = refl
  copy_loop values [] pre (o ∷ old) e same = absurd (omega arith)
  copy_loop values (v ∷ vs) pre [] e same = absurd (omega arith)
  copy_loop values (v ∷ vs) pre (o ∷ old) e same =
      let here = drop-cons values (length pre) v vs e in
      let grown : suc (length pre) ≡ length (pre ++ v ∷ []) =
        omega (arith, length-append pre (v ∷ [])) in
      rw (here.0, get_elem?-middle pre o old, set-middle pre o v old, grown)
        (copy_loop values vs (pre ++ v ∷ []) old (ap (λ n. drop n values) (sym grown) ∙ here.1)
            (omega arith)
          ∙ ap some (append_assoc pre (v ∷ []) vs))

  -- The copy is made anew when its length differs, and ends with the values of the reply.
  pub backup_lem :
      (s : Server F) (msg : Message F) (body : RequestMessage F) (old : List F) (i : ℕ)
      → lookup msg.send_id s.servers ≡ some i
      → msg.request_msg ≡ some body
      → get_elem? s.backup_parameters (backup_index s msg.send_id) ≡ some old
      → backup s msg
        ≡ some (record s {
          backup_parameters = set s.backup_parameters (backup_index s msg.send_id) body.values;
        })
  unfolding backup
  backup_lem s msg body old i known has here =
      rw
        (
          has,
          here,
          touch-known msg.send_id i s.servers known,
          copy_loop body.values body.values []
              (if length old == length body.values
                then old
                else replicate (length body.values) zero_value)
              refl (sized (length old == length body.values) refl),
        )
        refl
    where
      sized :
          (b : Bool)
          → (length old == length body.values) ≡ b
          → length body.values
            ≡ length (if b then old else replicate (length body.values) zero_value)
      sized true e = ground arith
      sized false e = sym (length-replicate (length body.values) zero_value)

-- The place of the copy of the server `k` places before.
pub backup_index-predecessor :
    {F : Type 0} (s : Server F) (k : ℕ) (id : ℤ)
    → 0 < k
    → k < s.server_num
    → s.local_index < s.server_num
    → lookup id s.servers ≡ some (predecessor s k)
    → backup_index s id ≡ k - 1
unfolding backup_index predecessor
backup_index-predecessor s k id some_k few own known =
    ap (λ p. (s.local_index + s.server_num - 1 - p) % s.server_num)
      (index_of-known id (predecessor s k) s.servers known)
    ∙ places s.server_num s.local_index k some_k few own
  where
    wraps : (n a b : ℕ) → a < n → b ≡ a + n → b % n ≡ a
    wraps n a b h e = ap (λ m. m % n) e ∙ add-mod_right a n ∙ mod-eq_of_lt h

    stays : (n a b : ℕ) → a < n → b ≡ a → b % n ≡ a
    stays n a b h e = ap (λ m. m % n) e ∙ mod-eq_of_lt h

    places : (n l k : ℕ) → 0 < k → k < n → l < n → (l + n - 1 - (l + n - k) % n) % n ≡ k - 1
    places n l k h few own = elim (dec_lt l k) [
      | yes round ↦
          let p = stays n (l + n - k) (l + n - k) (omega arith) refl in
          stays n (k - 1) (l + n - 1 - (l + n - k) % n) (omega arith) (omega (arith, p))
      | no before ↦
          let p = wraps n (l - k) (l + n - k) (omega arith) (omega arith) in
          wraps n (k - 1) (l + n - 1 - (l + n - k) % n) (omega arith) (omega (arith, p))
    ]

module _ {F : Type 0} ⦃ops : FloatOps F⦄ where
  -- A request for a copy, from server `b` to server `a`, which is `k` places before it, with one
  -- parameter for each key of the segment of `a`: `a` answers with a message after which the copy
  -- `k - 1` of `b` is the parameters of `a`; nothing else of `b` changes.
  pub handle-backup_request :
      (zmq_close : Addr → ℤ) (a b : Server F) (i k : ℕ)
      → length a.parameters ≡ a.parameter_length
      → lookup b.local_id a.servers ≡ some i
      → 0 < k
      → k < b.server_num
      → b.local_index < b.server_num
      → lookup a.local_id b.servers ≡ some (predecessor b k)
      → k ≤ length b.backup_parameters
      → (reply : Message F) × (handle zmq_close a (backup_request b.local_id a.local_id)
          ≡ some (record a { sender = send b.local_id reply a.sender }))
        × (handle zmq_close b reply
            ≡ some (record b { backup_parameters = set b.backup_parameters (k - 1) a.parameters }))
  unfolding handle handle_server backup_request own_reply key_value_reply
  handle-backup_request zmq_close a b i k sized peer some_k few own known kept =
      let slot = backup_index-predecessor b k a.local_id some_k few own known in
      let old = get_elem?-some b.backup_parameters (k - 1) (omega arith) in
      (
        own_reply a b.local_id,
        rw (handle, backup_request, peer, handle_server) (respond_backup_lem a b.local_id sized),
        rw (handle, own_reply, key_value_reply, known, handle_server)
            (backup_lem b (own_reply a b.local_id)
                (record {
                  request_type = RequestType.key_value;
                  keys = segment_keys a.start_key 0 a.parameter_length;
                  values = a.parameters;
                })
                old.0 (predecessor b k) known refl (ap (get_elem? b.backup_parameters) slot ∙ old.1)
              ∙ ap
                  (λ j.
                    some (record b { backup_parameters = set b.backup_parameters j a.parameters }))
                  slot),
      )
