-- ===== src/Cluster/Segment.antt =====
-- src/agent/agent.cc, Push, and src/server/server.cc, ServePush: the keys of one message of an agent
-- and the segment of the server that it goes to.
use plug_in_ml.Base.{
  ℕ, zero, suc, ◌+◌, ◌-◌, ◌≤◌, ◌<◌, ◌≡◌, refl, sym, ◌∙◌, some, List, [], ◌∷◌, ℤ, -ℤ_parts,
  get_elem?, get_elem?-drop, length, length-take_le, length-drop, take, drop, All, All-map, arith,
  inl, inr,
}
use mathlib.Core.Path.{subst}
use plug_in_ml.Message.{ConfigMessage, RequestMessage, RequestType}
use plug_in_ml.Partition.{Partition}
use plug_in_ml.Partition.Owner.{part, Owns}
use plug_in_ml.Partition.Runs.{Run}
use plug_in_ml.Agent.State.{ShmStruct, used_keys}
use plug_in_ml.Agent.Push.{slice}
use plug_in_ml.Server.Handle.{start}
use plug_in_ml.Server.State.{Server}
use plug_in_ml.Server.Configure.{range_length}
use plug_in_ml.Server.Average.{InSegment}
use plug_in_ml.Server.Store.{Fits}
use plug_in_ml.Server.Range.{IsSpread, place, place_lem, inner_arc}

module _ {A : Type 0} where
  pub All-of_get :
      (P : A → Type 0) (xs : List A) → ((j : ℕ) (x : A) → get_elem? xs j ≡ some x → P x) → All P xs
  All-of_get P [] h = tt
  All-of_get P (x ∷ xs) h = (h 0 x refl, All-of_get P xs (λ j y e. h (suc j) y e))

  pub get_elem?-take :
      (n j : ℕ) (xs : List A) (x : A)
      → get_elem? (take n xs) j ≡ some x
      → (j < n) × (get_elem? xs j ≡ some x)
  get_elem?-take zero j xs x e = cc
  get_elem?-take (suc n) j [] x e = cc
  get_elem?-take (suc n) zero (y ∷ xs) x e = (omega arith, e)
  get_elem?-take (suc n) (suc j) (y ∷ xs) x e =
      let rest = get_elem?-take n j xs x e in (omega (arith, rest.0), rest.1)

  pub take-get_elem? :
      (n j : ℕ) (xs : List A) (x : A)
      → j < n
      → get_elem? xs j ≡ some x
      → get_elem? (take n xs) j ≡ some x
  take-get_elem? zero j xs x h e = absurd (omega arith)
  take-get_elem? (suc n) j [] x h e = e
  take-get_elem? (suc n) zero (y ∷ xs) x h e = e
  take-get_elem? (suc n) (suc j) (y ∷ xs) x h e = take-get_elem? n j xs x (omega arith) e

  length-slice :
      (start stop : ℕ) (xs : List A)
      → stop ≤ length xs
      → length (slice start stop xs) ≡ stop - start
  length-slice start stop xs h =
      length-take_le (stop - start) (drop start xs) (omega (arith, length-drop start xs))

-- A key that an inner server owns lies in the segment that the server took.
Owns-InSegment :
    (config : ConfigMessage) (i len : ℕ) (key : ℤ)
    → IsSpread config
    → suc i < config.server_num
    → range_length config i ≡ some len
    → Owns config.partition key i
    → InSegment (part config.partition i) len key
Owns-InSegment config i len key c inner e (inl (_, from, below)) =
    let this = place_lem config i c (omega arith) in
    let next = place_lem config (suc i) c inner in
    let same = some-eq (sym e ∙ inner_arc config i c inner) in
    let parts = -ℤ_parts key (part config.partition i) in
    record {
      from_start = omega (arith, parts, from);
      below_end = omega (arith, parts, below, same, this.3, next.3);
    }
  where
    some-eq : {a b : ℕ} → some a ≡ some b → a ≡ b
    some-eq h = cc
Owns-InSegment config i len key c inner e (inr (last, side)) = absurd (omega (arith, c.sized))

-- The keys of a run are those that its server owns.
pub Run-Owns :
    {F : Type 0} (p : Partition) (d : ShmStruct F) (start stop i : ℕ)
    → Run p (used_keys d) start stop i
    → stop ≤ d.size
    → All (λ k. Owns p.part_vec k i) (slice start stop d.keys)
Run-Owns p d start stop i run h =
    All-of_get (λ k. Owns p.part_vec k i) (slice start stop d.keys)
      λ j k e.
        let inside = get_elem?-take (stop - start) j (drop start d.keys) k e in
        run.owned (start + j) k (omega arith) (omega (arith, inside.0, run.progress)) (
          take-get_elem? d.size (start + j) d.keys k (omega (arith, inside.0))
            (sym (get_elem?-drop start d.keys j) ∙ inside.1))

All-Owns-InSegment :
    (config : ConfigMessage) (i len : ℕ) (keys : List ℤ)
    → IsSpread config
    → suc i < config.server_num
    → range_length config i ≡ some len
    → All (λ k. Owns config.partition k i) keys
    → All (InSegment (part config.partition i) len) keys
All-Owns-InSegment config i len keys c inner e h =
    All-map (λ k. Owns config.partition k i) (InSegment (part config.partition i) len)
      (λ k o. Owns-InSegment config i len k c inner e o) keys h

-- The server took its segment at index `i` of the configuration.
pub record HasPlace {F : Type 0} (config : ConfigMessage) (i : ℕ) (s : Server F) : Type 0 where
  pub start : s.start_key ≡ part config.partition i
  pub length_field : range_length config i ≡ some s.parameter_length

-- The request in a message.
abbrev pub run_request : {F : Type 0} → ShmStruct F → ℕ → ℕ → RequestMessage F
run_request d start stop = record {
  request_type = RequestType.key_value;
  keys = slice start stop d.keys;
  values = slice start stop d.values;
}

pub Run-Fits :
    {F : Type 0} (config : ConfigMessage) (p : Partition) (d : ShmStruct F) (s : Server F)
    (start stop i : ℕ)
    → IsSpread config
    → p.part_vec ≡ config.partition
    → HasPlace config i s
    → suc i < config.server_num
    → d.size ≤ length d.keys
    → d.size ≤ length d.values
    → Run p (used_keys d) start stop i
    → Fits s.start_key s.parameter_length (run_request d start stop)
Run-Fits config p d s start stop i c cut place inner nk nv run =
    let within : stop ≤ d.size = omega (arith, run.within, length-take_le d.size d.keys nk) in
    let owned = Run-Owns p d start stop i run within in
    let same = subst (λ vec. All (λ k. Owns vec k i) (slice start stop d.keys)) cut owned in
    record {
      paired =
          length-slice start stop d.keys (omega arith)
          ∙ sym (length-slice start stop d.values (omega arith));
      inside =
          subst (λ z. All (InSegment z s.parameter_length) (slice start stop d.keys))
            (sym place.start)
            (All-Owns-InSegment config i s.parameter_length (slice start stop d.keys) c inner
              place.length_field same);
    }
