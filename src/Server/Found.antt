-- ===== src/Server/Found.antt =====
-- src/server/server.cc: the loop of Initialize over the servers of a configuration.
use plug_in_ml.Base.{
  ℕ, suc, ◌+◌, ◌-◌, ◌%◌, ◌<◌, ◌≡◌, refl, Bool, true, some, List, [], ◌∷◌, ◌++◌, ℤ, pos, pos_part,
  ◌==ℤ◌, ==ℤ_refl, get_elem?, get_elem?-some, length, insert, replicate, for, for_total, arith, All,
  All-get_elem?, ap, sym, ◌∙◌, pos-pos_part, neg_part-nonneg, Bool-cases, inl, inr,
}
use native.Mathlib.Nat.{mod-lt}
use plug_in_ml.Floats.{FloatOps, zero_value}
use plug_in_ml.Message.{ConfigMessage}
use plug_in_ml.Server.State.{Server}
use plug_in_ml.Partition.Owner.{InRange}
use plug_in_ml.Server.Range.{arc, range_length_lem}
use plug_in_ml.Server.Configure.{range_length, take_range, add_copy, add_server}

-- One partition element inside the key range and one id for each server.
pub record IsListed (config : ConfigMessage) : Type 0 where
  pub parts : length config.partition ≡ config.server_num
  pub ids : length config.server_id ≡ config.server_num
  pub some_key : 0 < config.key_range
  pub ranged : All (InRange config.key_range) config.partition

element_lem :
    (config : ConfigMessage) (i : ℕ) (x : ℤ)
    → IsListed config
    → get_elem? config.partition i ≡ some x
    → (get_elem? config.partition i ≡ some (pos (pos_part x))) × (pos_part x < config.key_range)
element_lem config i x v e =
    let inside = All-get_elem? (InRange config.key_range) config.partition i x v.ranged e in
    (
      e ∙ ap some (sym (pos-pos_part x inside.0)),
      omega (arith, inside.1, neg_part-nonneg x inside.0),
    )

range_length_total :
    (config : ConfigMessage) (i : ℕ)
    → IsListed config
    → i < config.server_num
    → (len : ℕ) × (range_length config i ≡ some len)
range_length_total config i v h =
    let some_server : 0 < config.server_num = omega arith in
    let start = get_elem?-some config.partition i (omega (arith, v.parts)) in
    let next =
      get_elem?-some config.partition (suc i % config.server_num)
        (omega (arith, v.parts, mod-lt (suc i) some_server)) in
    let start_in = element_lem config i start.0 v start.1 in
    let next_in = element_lem config (suc i % config.server_num) next.0 v next.1 in
    (
      arc (pos_part start.0) (pos_part next.0) config.key_range,
      range_length_lem config i (pos_part start.0) (pos_part next.0) start_in.0 next_in.0
          start_in.1,
    )

-- After `k` servers: the id of the own server has not changed, and it was found if it is among them.
pub record Looked {F : Type 0} (config : ConfigMessage) (recv_id : ℤ) (k : ℕ) (st : Server F × Bool)
    : Type 0 where
  pub same_id : st.0.local_id ≡ recv_id
  pub seen : (j : ℕ) → j < k → get_elem? config.server_id j ≡ some recv_id → st.1 ≡ true

module _ {F : Type 0} ⦃ops : FloatOps F⦄ where
  copies_total :
      (config : ConfigMessage) (i n : ℕ) (backups : List (List F))
      → IsListed config
      → 0 < config.server_num
      → (backups' : List (List F)) × (for n 1 (add_copy config i) backups ≡ some backups')
  unfolding add_copy
  copies_total config i n backups v some_server =
      let loop =
        for_total {0, 0} (λ k s. Unit) (add_copy config i) 1 (1 + n)
          (λ j s lo hi p.
            let len =
              range_length_total config ((i + config.server_num - j) % config.server_num) v
                (mod-lt (i + config.server_num - j) some_server) in
            (s ++ replicate len.0 zero_value ∷ [], rw len.1 refl, tt))
          n 1 backups (omega arith) refl tt in
      (loop.0, loop.1)

  -- One round succeeds.
  pub add_server_total :
      (config : ConfigMessage) (recv_id : ℤ) (i : ℕ) (st : Server F × Bool)
      → IsListed config
      → i < config.server_num
      → Looked config recv_id i st
      → (st' : Server F × Bool) × (add_server config i st ≡ some st')
        × Looked config recv_id (suc i) st'
  unfolding add_server take_range
  add_server_total config recv_id i (s, found) v h p =
      let id = get_elem?-some config.server_id i (omega (arith, v.ids)) in
      let added = record s {
        server_ids = s.server_ids ++ id.0 ∷ [];
        servers = insert id.0 i s.servers;
      } in
      elim (Bool-cases (id.0 ==ℤ s.local_id)) [
        | inl own ↦
            let start = get_elem?-some config.partition i (omega (arith, v.parts)) in
            let len = range_length_total config i v h in
            let copies = copies_total config i s.backup_size s.backup_parameters v (omega arith) in
            (
              (
                record added {
                  local_index = i;
                  start_key = start.0;
                  parameter_length = len.0;
                  backup_parameters = copies.0;
                },
                true,
              ),
              rw (id.1, own, start.1, len.1, copies.1) refl,
              record { same_id = p.same_id; seen = λ j lt e. refl },
            )
        | inr other ↦ (
          (added, found),
          rw (id.1, other) refl,
          record {
            same_id = p.same_id;
            seen =
                λ j lt e. ground (arith, e, lt, id.1, other, p.same_id, p.seen j, ==ℤ_refl recv_id);
          },
        )
      ]
