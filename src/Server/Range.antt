-- ===== src/Server/Range.antt =====
-- src/server/server.cc, Initialize and ServePull, against src/agent/partition.cc: the segment that
-- a server takes from the configuration and the arc of keys that the agents send it.
use plug_in_ml.Base.{
  ℕ, zero, suc, false, ltb_ℤ, ◌+◌, ◌-◌, ◌%◌, ◌≤◌, ◌<◌, ◌≡◌, refl, sym, ap, ap₂, ◌∙◌, some, List, [],
  ◌∷◌, ℤ, pos, pos_part, neg_part, neg_part-nonneg, pos-pos_part, ◌-ℤ◌, ◌+ℤ◌, ◌≤ℤ◌, ◌<ℤ◌, -ℤ_parts,
  +ℤ_parts, get_elem?, get_elem?-eq-get_or, length, All, All-get_elem?, arith, inl, inr, ◌⊎◌,
}
use mathlib.Core.Path.{subst}
use native.Mathlib.Nat.{mod-eq_of_lt, mod_self}
use native.Mathlib.Decide.{dec_lt}
use plug_in_ml.Message.{ConfigMessage}
use plug_in_ml.Partition.Search.{IsSorted}
use plug_in_ml.Partition.Owner.{part, part-mono, Owns, InRange}
use plug_in_ml.Server.State.{Server}
use plug_in_ml.Server.Pull.{pull_index}
use plug_in_ml.Server.Configure.{checked_rem, range_length}

-- `(next - start + key_range) % key_range` of elements of the key range, as natural numbers.
checked_rem_lem :
    (start next k : ℕ)
    → start < k
    → checked_rem (pos next -ℤ pos start +ℤ pos k) k ≡ some (pos ((next + k - start) % k))
unfolding ◌-ℤ◌ ◌+ℤ◌
checked_rem_lem start next zero h = elim h [ ]
checked_rem_lem start next (suc k) h = ground arith

pub arc : ℕ → ℕ → ℕ → ℕ
arc start next k = (next + k - start) % k

arc_forward : (start next k : ℕ) → start ≤ next → next < k → arc start next k ≡ next - start
unfolding arc
arc_forward start next k h lt = grind arith

arc_round : (start next k : ℕ) → next < start → start < k → arc start next k ≡ next + k - start
unfolding arc
arc_round start next k h lt = mod-eq_of_lt (omega arith)

not_negative : (n : ℕ) → ltb_ℤ (pos n) (pos 0) ≡ false
not_negative n = ground arith

pub range_length_lem :
    (config : ConfigMessage) (i a b : ℕ)
    → get_elem? config.partition i ≡ some (pos a)
    → get_elem? config.partition (suc i % config.server_num) ≡ some (pos b)
    → a < config.key_range
    → range_length config i ≡ some (arc a b config.key_range)
unfolding range_length arc
range_length_lem config i a b e f h =
    rw (e, f, checked_rem_lem a b config.key_range h, not_negative (arc a b config.key_range)) refl

-- A configuration with one element for each server, in ascending order, inside the key range and
-- not all the same.
pub record IsSpread (config : ConfigMessage) : Type 0 where
  pub sized : length config.partition ≡ config.server_num
  pub sorted : IsSorted config.partition
  pub ranged : All (InRange config.key_range) config.partition
  pub spread : part config.partition 0 <ℤ part config.partition (config.server_num - 1)

-- The element at a place, as a natural number.
abbrev pub place : List ℤ → ℕ → ℕ
place vec i = pos_part (part vec i)

pub place_lem :
    (config : ConfigMessage) (i : ℕ)
    → IsSpread config
    → i < config.server_num
    → (get_elem? config.partition i ≡ some (pos (place config.partition i)))
      × (part config.partition i ≡ pos (place config.partition i))
      × (place config.partition i < config.key_range)
      × (neg_part (part config.partition i) ≡ 0)
place_lem config i c h =
    let here = get_elem?-eq-get_or config.partition i (pos 0) (omega (arith, c.sized)) in
    let inside =
      All-get_elem? (InRange config.key_range) config.partition i (part config.partition i) c.ranged
        here in
    let same = pos-pos_part (part config.partition i) inside.0 in
    let flat = neg_part-nonneg (part config.partition i) inside.0 in
    (here ∙ ap some (sym same), sym same, omega (arith, inside.1, flat), flat)

-- The arc of an inner server, and of the last one.
pub inner_arc :
    (config : ConfigMessage) (i : ℕ)
    → IsSpread config
    → suc i < config.server_num
    → range_length config i ≡ some (place config.partition (suc i) - place config.partition i)
inner_arc config i c h =
    let this = place_lem config i c (omega arith) in
    let next = place_lem config (suc i) c h in
    let up = part-mono config.partition i (suc i) c.sorted (omega arith) (omega (arith, c.sized)) in
    let index : suc i % config.server_num ≡ suc i = mod-eq_of_lt h in
    range_length_lem config i (place config.partition i) (place config.partition (suc i)) this.0
      (ap (get_elem? config.partition) index ∙ next.0) this.2
    ∙ ap some (
        arc_forward (place config.partition i) (place config.partition (suc i)) config.key_range
          (omega (arith, up, this.3, next.3)) next.2)

last_arc :
    (config : ConfigMessage) (i : ℕ)
    → IsSpread config
    → suc i ≡ config.server_num
    → range_length config i
      ≡ some (place config.partition 0 + config.key_range - place config.partition i)
last_arc config i c h =
    let this = place_lem config i c (omega arith) in
    let next = place_lem config 0 c (omega arith) in
    let first_last =
      subst (λ j. part config.partition 0 <ℤ part config.partition j) before c.spread in
    let index : suc i % config.server_num ≡ 0 =
      ap (λ n. n % config.server_num) h ∙ mod_self config.server_num in
    range_length_lem config i (place config.partition i) (place config.partition 0) this.0
      (ap (get_elem? config.partition) index ∙ next.0) this.2
    ∙ ap some (
        arc_round (place config.partition i) (place config.partition 0) config.key_range
          (omega (arith, this.3, next.3, first_last)) this.2)
  where
    before : config.server_num - 1 ≡ i
    before = omega arith

module _ {F : Type 0} (s : Server F) (key : ℤ) where
  pull_index_direct : s.start_key ≤ℤ key → pull_index s key ≡ key -ℤ s.start_key
  unfolding pull_index
  pull_index_direct h = ground (arith, -ℤ_parts key s.start_key)

  pull_index_wrapped : key <ℤ s.start_key → pull_index s key ≡ key -ℤ s.start_key +ℤ pos s.key_range
  unfolding pull_index
  pull_index_wrapped h = ground (arith, -ℤ_parts key s.start_key)

  -- The index lies below `len`.
  abbrev InLength : ℕ → Type 0
  InLength len = (pos 0 ≤ℤ pull_index s key) × (pull_index s key <ℤ pos len)

  direct-InLength : (len : ℕ) → s.start_key ≤ℤ key → key <ℤ s.start_key +ℤ pos len → InLength len
  direct-InLength len h lt =
      let parts = -ℤ_parts key s.start_key in
      let sum = +ℤ_parts s.start_key (pos len) in
      rw (pull_index_direct h) (omega (arith, parts, sum), omega (arith, parts, sum))

  wrapped-InLength :
      (len : ℕ)
      → key <ℤ s.start_key
      → s.start_key ≤ℤ key +ℤ pos s.key_range
      → key +ℤ pos s.key_range <ℤ s.start_key +ℤ pos len
      → InLength len
  wrapped-InLength len h lo hi =
      let parts = -ℤ_parts key s.start_key in
      let sum = +ℤ_parts (key -ℤ s.start_key) (pos s.key_range) in
      let up = +ℤ_parts key (pos s.key_range) in
      let top = +ℤ_parts s.start_key (pos len) in
      rw (pull_index_wrapped h)
        (omega (arith, parts, sum, up, top), omega (arith, parts, sum, up, top))

-- A server that took its segment at index `i` of a configuration whose elements are ascending,
-- inside the key range and not all the same: for every key that the partition gives to server `i`,
-- the index that `ServePull` reads lies inside the segment, the keys behind the end of the key
-- range included.
pub pull_index_in_segment :
    {F : Type 0} (config : ConfigMessage) (s : Server F) (i : ℕ) (key : ℤ)
    → IsSpread config
    → s.start_key ≡ part config.partition i
    → s.key_range ≡ config.key_range
    → InRange config.key_range key
    → Owns config.partition key i
    → (len : ℕ) × (range_length config i ≡ some len)
      × ((pos 0 ≤ℤ pull_index s key) × (pull_index s key <ℤ pos len))
pull_index_in_segment config s i key c start range inside (inl (inner, from, below)) =
    let this = place_lem config i c (omega (arith, c.sized)) in
    let next = place_lem config (suc i) c (omega (arith, c.sized)) in
    let len = place config.partition (suc i) - place config.partition i in
    (
      len,
      inner_arc config i c (omega (arith, c.sized)),
      direct-InLength s key len (rw start from)
          (rw start (omega (arith, this.3, next.3, +ℤ_parts (part config.partition i) (pos len)))),
    )
pull_index_in_segment config s i key c start range inside (inr (last, side)) =
    let this = place_lem config i c (omega (arith, c.sized)) in
    let first = place_lem config 0 c (omega (arith, c.sized)) in
    let flat = neg_part-nonneg key inside.0 in
    let below = part-mono config.partition 0 i c.sorted (omega arith) (omega arith) in
    let len = place config.partition 0 + config.key_range - place config.partition i in
    let top = +ℤ_parts (part config.partition i) (pos len) in
    let up = +ℤ_parts key (pos config.key_range) in
    (
      len,
      last_arc config i c (omega (arith, c.sized)),
      elim side [
        | inl from ↦
            direct-InLength s key len (rw start from)
              (rw start (omega (arith, this.3, first.3, flat, top, inside.1)))
        | inr under ↦
            wrapped-InLength s key len (rw start (omega (arith, below)))
              (rw (start, range) (omega (arith, this.2, this.3, flat, up)))
              (rw (start, range) (omega (arith, this.2, this.3, first.3, flat, top, up)))
      ],
    )

-- With one server, and a partition of one element inside the key range, the segment that the server
-- takes has length 0, although that server holds every key.
pub one_server_empty :
    (config : ConfigMessage) (start : ℕ)
    → config.server_num ≡ 1
    → config.partition ≡ pos start ∷ []
    → start < config.key_range
    → (range_length config 0 ≡ some 0) × ((key : ℤ) → Owns config.partition key 0)
one_server_empty config start one single h = (
  range_length_lem config 0 start start (ap (λ v. get_elem? v 0) single)
        (ap₂ (λ v n. get_elem? v (1 % n)) single one) h
      ∙ ap some (arc_forward start start config.key_range (omega arith) h ∙ nothing),
  λ key. rw single (inr (refl, either key)),
)
  where
    nothing : start - start ≡ 0
    nothing = omega arith

    either : (key : ℤ) → (pos start ≤ℤ key) ⊎ (key <ℤ pos start)
    either key = elim (dec_lt (pos_part key + 0) (start + neg_part key)) [
      | yes under ↦ inr under
      | no over ↦ inl (omega arith)
    ]
