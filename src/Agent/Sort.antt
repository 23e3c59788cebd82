-- ===== src/Agent/Sort.antt =====
-- src/agent/agent.cc: SortKeyValue, a sort through a `std::map` from keys to places, and the
-- library's `std::sort`.
pub mod Insert
pub mod Order
pub mod Sorted
use plug_in_ml.Base.{
  ℕ, suc, Option, some, List, [], ◌∷◌, ℤ, ltb_ℤ, leb_ℤ, ◌==ℤ◌, get_elem?, take, drop, for, ◌>>=◌,
  if◌then◌else◌, ◌++◌,
}
use plug_in_ml.Agent.State.{put}

-- `key_map.insert({key, i})`: in ascending order; a key that is there keeps its place.
unfoldable pub map_insert : ℤ → ℕ → List (ℤ × ℕ) → List (ℤ × ℕ)
map_insert k i [] = (k, i) ∷ []
map_insert k i ((j, w) ∷ m) =
    if ltb_ℤ k j
    then (k, i) ∷ (j, w) ∷ m
    else (if k ==ℤ j then (j, w) ∷ m else (j, w) ∷ map_insert k i m)

unfoldable pub insert_place : List ℤ → ℕ → List (ℤ × ℕ) → Option (List (ℤ × ℕ))
unfolding map_insert
insert_place keys i key_map = do key ← get_elem? keys i; some (map_insert key i key_map)

module _ {F : Type 0} where
  -- The loop over the map: its entries are written from place `size` on.
  unfoldable pub write_items :
      List F → List (ℤ × ℕ) → ℕ → List ℤ → List F → Option (List ℤ × List F)
  write_items tmp_values [] size keys values = some (keys, values)
  write_items tmp_values ((key, place) ∷ items) size keys values = do
    value ← get_elem? tmp_values place
    keys' ← put keys size key
    values' ← put values size value
    write_items tmp_values items (suc size) keys' values'

  unfoldable pub sort_key_value : List ℤ → List F → ℕ → Option (List ℤ × List F)
  unfolding insert_place
  sort_key_value keys values size = do
    key_map ← for size 0 (insert_place keys) []
    write_items (take size values) key_map 0 keys values

-- `std::sort` on integers.
unfoldable pub insert_sorted : ℤ → List ℤ → List ℤ
insert_sorted x [] = x ∷ []
insert_sorted x (y ∷ ys) = if leb_ℤ x y then x ∷ y ∷ ys else y ∷ insert_sorted x ys

unfoldable pub sort : List ℤ → List ℤ
unfolding insert_sorted
sort [] = []
sort (x ∷ xs) = insert_sorted x (sort xs)

-- `std::sort(keys, keys + size)`
abbrev pub sort_prefix : ℕ → List ℤ → List ℤ
sort_prefix size keys = sort (take size keys) ++ drop size keys
