-- ===== src/Server/Average.antt =====
-- src/server/server.cc: what UpdateParameter computes, parameter by parameter.
use plug_in_ml.Base.{
  ℕ, suc, ◌<◌, ◌≡◌, refl, sym, ap, ◌∙◌, some, List, [], ◌∷◌, ◌++◌, map, ℤ, pos, negsuc, ◌-ℤ◌, ◌≤ℤ◌,
  ◌<ℤ◌, ◌==ℤ◌, at, set_at, at-some, pos_part, get_elem?, get_elem?-lt, get_elem?-some,
  get_elem?-set_self, get_elem?-set_ne, set, length, length-append, drop-cons, get_elem?-middle,
  set-middle, get_elem?-replicate, length-set, length-replicate, replicate, drop, tail, All, for,
  for_total, if◌then◌else◌, arith, ltb,
}
use mathlib.Core.List.{append_assoc}
use native.Mathlib.Decide.{ℕ_discrete}
use plug_in_ml.Floats.{FloatOps, zero_value, add_value, div_value}
use plug_in_ml.Server.KeyValueList
use plug_in_ml.Server.KeyValueList.{KeyValueList}
use plug_in_ml.Server.State.{Server}
use plug_in_ml.Server.Update.{merge_pair, merge_agent, average_into, update_parameter}

-- A key of the `len` keys from `start` on.
pub record InSegment (start : ℤ) (len : ℕ) (key : ℤ) : Type 0 where
  pub from_start : pos 0 ≤ℤ key -ℤ start
  pub below_end : key -ℤ start <ℤ pos len

-- An update that fits the segment: as many values as keys, every key inside.
pub record IsUpdate {F : Type 0} (start : ℤ) (len : ℕ) (u : KeyValueList F) : Type 0 where
  pub counted : u.length_field ≡ length u.keys
  pub paired : length u.keys ≡ length u.values
  pub inside : All (InSegment start len) u.keys

-- A buffer whose first update is there and fits.
abbrev pub HasUpdate : {F : Type 0} → ℤ → ℕ → List (KeyValueList F) → Type 0
HasUpdate start len [] = ⊥
HasUpdate start len (u ∷ rest) = IsUpdate start len u

module _ {F : Type 0} ⦃ops : FloatOps F⦄ where
  -- The values of one update for the parameter `x`, added to `sum` in the order of the update.
  unfoldable pub total : ℤ → ℕ → List ℤ → List F → F → F
  total start x [] vs sum = sum
  total start x (k ∷ ks) [] sum = sum
  total start x (k ∷ ks) (v ∷ vs) sum =
      total start x ks vs (if (k -ℤ start) ==ℤ pos x then add_value sum v else sum)

  -- The same for the update at the front of each buffer, in the order of the agents.
  unfoldable pub total_fronts : ℤ → ℕ → List (List (KeyValueList F)) → F → F
  unfolding total
  total_fronts start x [] sum = sum
  total_fronts start x ([] ∷ buffers) sum = total_fronts start x buffers sum
  total_fronts start x ((u ∷ rest) ∷ buffers) sum =
      total_fronts start x buffers (total start x u.keys u.values sum)

  set_at_lem :
      (acc : List F) (z : ℤ) (v old : F) (x : ℕ) (a : F)
      → at acc z ≡ some old
      → get_elem? acc x ≡ some a
      → get_elem? (set_at acc z (add_value old v)) x
        ≡ some (if z ==ℤ pos x then add_value a v else a)
  set_at_lem acc (negsuc d) v old x a e f = cc
  set_at_lem acc (pos d) v old x a e f = elim (ℕ_discrete d x) [
    | yes same ↦
        let same_value : old ≡ a = cc in
        ground
          (arith, same_value, get_elem?-set_self acc d (add_value old v) (get_elem?-lt acc d old e))
    | no other ↦ ground (arith, get_elem?-set_ne acc d x (add_value old v) other)
  ]

  -- One pair: the value is added at the key's place, and nowhere else.
  merge_pair_lem :
      (start : ℤ) (u : KeyValueList F) (j : ℕ) (k : ℤ) (v : F) (acc : List F)
      → get_elem? u.keys j ≡ some k
      → get_elem? u.values j ≡ some v
      → InSegment start (length acc) k
      → (acc' : List F) × (merge_pair start u j acc ≡ some acc')
        × (length acc' ≡ length acc)
        × ((x : ℕ) (a : F)
            → get_elem? acc x ≡ some a
            → get_elem? acc' x ≡ some (if (k -ℤ start) ==ℤ pos x then add_value a v else a))
  unfolding merge_pair KeyValueList.key_at KeyValueList.value_at
  merge_pair_lem start u j k v acc ek ev inside =
      let old = at-some acc (k -ℤ start) inside.from_start inside.below_end in
      let d = pos_part (k -ℤ start) in
      (
        set_at acc (k -ℤ start) (add_value old.0 v),
        rw (ek, ev, old.1) refl,
        length-set acc d (add_value old.0 v),
        λ x a e. set_at_lem acc (k -ℤ start) v old.0 x a old.1 e,
      )

  -- The loop over one update.
  merge_loop :
      (start : ℤ) (u : KeyValueList F) (ks : List ℤ) (vs : List F) (j : ℕ) (acc : List F)
      → drop j u.keys ≡ ks
      → drop j u.values ≡ vs
      → length ks ≡ length vs
      → All (InSegment start (length acc)) ks
      → (acc' : List F) × (for (length ks) j (merge_pair start u) acc ≡ some acc')
        × (length acc' ≡ length acc)
        × ((x : ℕ) (a : F)
            → get_elem? acc x ≡ some a
            → get_elem? acc' x ≡ some (total start x ks vs a))
  unfolding for total
  merge_loop start u [] vs j acc dk dv len inside = (acc, refl, refl, λ x a e. e)
  merge_loop start u (k ∷ ks) [] j acc dk dv len inside = absurd (omega arith)
  merge_loop start u (k ∷ ks) (v ∷ vs) j acc dk dv len inside =
      let here = drop-cons u.keys j k ks dk in
      let there = drop-cons u.values j v vs dv in
      let one = merge_pair_lem start u j k v acc here.0 there.0 inside.0 in
      let rest =
        merge_loop start u ks vs (suc j) one.0 here.1 there.1 (omega arith) (rw one.2 inside.1) in
      (
        rest.0,
        rw one.1 rest.1,
        rest.2 ∙ one.2,
        λ x a e. rest.3 x (if (k -ℤ start) ==ℤ pos x then add_value a v else a) (one.3 x a e),
      )

  -- One agent: its first update leaves the buffer and goes into the sum.
  merge_agent_lem :
      (start : ℤ) (u : KeyValueList F) (q : List (KeyValueList F))
      (done buffers : List (List (KeyValueList F))) (acc : List F)
      → IsUpdate start (length acc) u
      → (acc' : List F) × (merge_agent start (length done) (done ++ (u ∷ q) ∷ buffers, acc)
          ≡ some ((done ++ q ∷ []) ++ buffers, acc'))
        × (length acc' ≡ length acc)
        × ((x : ℕ) (a : F)
            → get_elem? acc x ≡ some a
            → get_elem? acc' x ≡ some (total start x u.keys u.values a))
  unfolding merge_agent KeyValueList.size
  merge_agent_lem start u q done buffers acc good =
      let loop = merge_loop start u u.keys u.values 0 acc refl refl good.paired good.inside in
      let counted : for u.length_field 0 (merge_pair start u) acc ≡ some loop.0 =
        ap (λ n. for n 0 (merge_pair start u) acc) good.counted ∙ loop.1 in
      (
        loop.0,
        rw (get_elem?-middle done (u ∷ q) buffers, counted, set-middle done (u ∷ q) q buffers),
        loop.2,
        loop.3,
      )

  merge_agents_loop :
      (start : ℤ) (rest done : List (List (KeyValueList F))) (i : ℕ) (acc : List F)
      → i ≡ length done
      → All (HasUpdate start (length acc)) rest
      → (acc' : List F) × (for (length rest) i (merge_agent start) (done ++ rest, acc)
          ≡ some (done ++ map tail rest, acc'))
        × (length acc' ≡ length acc)
        × ((x : ℕ) (a : F)
            → get_elem? acc x ≡ some a
            → get_elem? acc' x ≡ some (total_fronts start x rest a))
  unfolding for total_fronts
  merge_agents_loop start [] done i acc e h = (acc, refl, refl, λ x a p. p)
  merge_agents_loop start ([] ∷ buffers) done i acc e h = absurd h.0
  merge_agents_loop start ((u ∷ q) ∷ buffers) done i acc e h =
      let one = merge_agent_lem start u q done buffers acc h.0 in
      let rest =
        merge_agents_loop start buffers (done ++ q ∷ []) (suc i) one.0
          (omega (arith, length-append done (q ∷ []))) (rw one.2 h.1) in
      (
        rest.0,
        rw (e, one.1, ← e, rest.1)
            (ap some (ap (λ b. (b, rest.0)) (append_assoc done (q ∷ []) (map tail buffers)))),
        rest.2 ∙ one.2,
        λ x a p. rest.3 x (total start x u.keys u.values a) (one.3 x a p),
      )

  -- The loop that adds the averages, after `i` of its rounds.
  record Averaged (agent_num : ℕ) (sum old : List F) (i : ℕ) (parameters : List F) : Type 0 where
    same_length : length parameters ≡ length old
    each :
        (x : ℕ) (p u : F)
        → get_elem? old x ≡ some p
        → get_elem? sum x ≡ some u
        → get_elem? parameters x ≡ some (if ltb x i then add_value p (div_value u agent_num) else p)

  average_round :
      (agent_num : ℕ) (sum old : List F) (i : ℕ) (parameters : List F)
      → length sum ≡ length old
      → i < length old
      → Averaged agent_num sum old i parameters
      → (next : List F) × (average_into agent_num sum i parameters ≡ some next)
        × Averaged agent_num sum old (suc i) next
  unfolding average_into
  average_round agent_num sum old i parameters len h done =
      let p = get_elem?-some old i h in
      let u = get_elem?-some sum i (omega arith) in
      let here : get_elem? parameters i ≡ some p.0 = ground (arith, done.each i p.0 u.0 p.1 u.1) in
      let new = add_value p.0 (div_value u.0 agent_num) in
      (
        set parameters i new,
        rw (here, u.1),
        record {
          same_length = length-set parameters i new ∙ done.same_length;
          each = λ x q w e f. elim (ℕ_discrete i x) [
            | yes same ↦
                let old_same : p.0 ≡ q = cc in
                let sum_same : u.0 ≡ w = cc in
                ground (
                  arith,
                  old_same,
                  sum_same,
                  get_elem?-set_self parameters i new (get_elem?-lt parameters i p.0 here),
                )
            | no other ↦
                ground (arith, get_elem?-set_ne parameters i x new other, done.each x q w e f)
          ];
        },
      )

  -- With an update that fits at the front of each agent's buffer, `UpdateParameter` succeeds: it
  -- takes exactly these updates off the buffers, counts one more version, adds to each parameter
  -- the sum of its values in them divided by the number of agents, and changes nothing else.
  pub update_parameter_lem :
      (s : Server F)
      → length s.version_buffer ≡ s.agent_num
      → length s.parameters ≡ s.parameter_length
      → All (HasUpdate s.start_key s.parameter_length) s.version_buffer
      → (parameters : List F) × (update_parameter s
          ≡ some (record s {
            version_buffer = map tail s.version_buffer;
            parameters = parameters;
            bottom_version = suc s.bottom_version;
          }))
        × (length parameters ≡ s.parameter_length)
        × ((x : ℕ) (p : F)
            → get_elem? s.parameters x ≡ some p
            → get_elem? parameters x
              ≡ some (
                  add_value p (
                    div_value
                      (total_fronts s.start_key x s.version_buffer zero_value)
                      s.agent_num)))
  unfolding update_parameter
  update_parameter_lem s agents sized ready =
      let zeros : List F = replicate s.parameter_length zero_value in
      let zeros_length : length zeros ≡ s.parameter_length =
        length-replicate s.parameter_length zero_value in
      let merged =
        merge_agents_loop s.start_key s.version_buffer [] 0 zeros refl (rw zeros_length ready) in
      let merged_all =
        ap (λ n. for n 0 (merge_agent s.start_key) (s.version_buffer, zeros)) (sym agents)
        ∙ merged.1 in
      let averaged =
        for_total (Averaged s.agent_num merged.0 s.parameters) (average_into s.agent_num merged.0) 0
          s.parameter_length
          (λ i ps lo hi done.
            average_round s.agent_num merged.0 s.parameters i ps
              (merged.2 ∙ zeros_length ∙ sym sized) (omega arith) done)
          s.parameter_length 0 s.parameters (omega arith) (omega arith)
          (record { same_length = refl; each = λ x p u e f. ground (arith, e) }) in
      (
        averaged.0,
        rw (merged_all, averaged.1),
        averaged.2.same_length ∙ sized,
        λ x p e.
            let in_range : x < s.parameter_length =
              omega (arith, get_elem?-lt s.parameters x p e) in
            ground (
              arith,
              averaged.2.each x p (total_fronts s.start_key x s.version_buffer zero_value) e (
                  merged.3 x zero_value
                    (get_elem?-replicate s.parameter_length x zero_value in_range)),
            ),
      )
