-- ===== src/Server/Update.antt =====
-- src/server/server.cc: UpdateParameter. It takes one update from the front of each agent's buffer,
-- adds them up key by key, and adds the sum divided by the number of agents to the parameters.
use plug_in_ml.Base.{
  ℕ, suc, Option, some, none, List, [], ◌∷◌, ℤ, ◌-ℤ◌, at, set_at, get_elem?, set, replicate, for,
  ◌>>=◌,
}
use plug_in_ml.Floats.{FloatOps, zero_value, add_value, div_value}
use plug_in_ml.Server.KeyValueList
use plug_in_ml.Server.KeyValueList.{KeyValueList}
use plug_in_ml.Server.State.{Server}

-- `front()` and `pop()` of a queue; of an empty one, `none`.
abbrev pub pop_front {ℓ} : {A : Type ℓ} → List A → Option (A × List A)
pop_front [] = none
pop_front (x ∷ xs) = some (x, xs)

module _ {F : Type 0} ⦃ops : FloatOps F⦄ where
  -- `update[update_i.Key(j) - start_key_] += update_i.Value(j)`
  unfoldable pub merge_pair : ℤ → KeyValueList F → ℕ → List F → Option (List F)
  merge_pair start_key update_i j update = do
    key ← KeyValueList.key_at update_i j
    value ← KeyValueList.value_at update_i j
    old ← at update (key -ℤ start_key)
    some (set_at update (key -ℤ start_key) (add_value old value))

  -- One round of the loop over the agents, on the buffers and the sum.
  unfoldable pub merge_agent :
      ℤ → ℕ → List (List (KeyValueList F)) × List F → Option (List (List (KeyValueList F)) × List F)
  merge_agent start_key i (buffers, update) = do
    buffer ← get_elem? buffers i
    (update_i, rest) ← pop_front buffer
    update' ← for (KeyValueList.size update_i) 0 (merge_pair start_key update_i) update
    some (set buffers i rest, update')

  -- `parameters_[i] += update[i] / agent_num_`
  unfoldable pub average_into : ℕ → List F → ℕ → List F → Option (List F)
  average_into agent_num update i parameters = do
    old ← get_elem? parameters i
    sum ← get_elem? update i
    some (set parameters i (add_value old (div_value sum agent_num)))

  unfoldable pub update_parameter : Server F → Option (Server F)
  update_parameter s = do
    (buffers, update) ←
        for s.agent_num 0 (merge_agent s.start_key)
          (s.version_buffer, replicate s.parameter_length zero_value)
    parameters ← for s.parameter_length 0 (average_into s.agent_num update) s.parameters
    some (record s {
      version_buffer = buffers;
      parameters = parameters;
      bottom_version = suc s.bottom_version;
    })
