-- ===== src/Partition.antt =====
-- src/agent/partition.h and partition.cc: which server holds a key, and how far a run of keys of
-- one server goes. `part_vec_` has one element for each server; server `i` holds the keys from
-- `part_vec_[i]` up to `part_vec_[i + 1]`, and the last one goes round to `part_vec_[0]`.
pub mod Search
pub mod Owner
pub mod Runs
use plug_in_ml.Base.{
  ℕ, suc, ◌+◌, ◌-◌, Bool, true, false, ◌||◌, Option, none, some, List, [], ◌∷◌, ℤ, pos, negsuc,
  ltb_ℤ, leb_ℤ, length, take, drop, get_elem?, at, ◌==◌, sub_ℕ, ◌==ℤ◌, ◌+ℤ◌, if◌then◌else◌, ◌>>=◌,
}
use Search.{lower_bound, upper_bound}

-- `class Partition`
pub record Partition : Type 0 where
  pub key_range : ℕ
  pub server_num : ℕ
  pub part_vec : List ℤ

-- The overload that takes a vector: the fields are set before the size is checked.
pub initialize_vector : Partition → ℕ → ℕ → List ℤ → Bool × Partition
initialize_vector p key_range server_num part_vec =
    if length part_vec == server_num
    then (true, record p { key_range = key_range; server_num = server_num; part_vec = part_vec })
    else (false, record p { key_range = key_range; server_num = server_num })

-- The overload that takes an array: it reads `server_num` elements, `none` where it has fewer.
unfoldable pub read_array : ℕ → ℕ → List ℤ → Option (List ℤ)
read_array i ℕ.zero xs = some []
read_array i (suc n) xs = do x ← get_elem? xs i; rest ← read_array (suc i) n xs; some (x ∷ rest)

unfoldable pub initialize_array : ℕ → ℕ → List ℤ → Option Partition
unfolding read_array
initialize_array key_range server_num part_vec = do
  vec ← read_array 0 server_num part_vec
  some (record { key_range = key_range; server_num = server_num; part_vec = vec })

pub finalize : Partition → Partition
finalize p = record p { part_vec = [] }

-- `GetServerByKey`: -1 outside the key range; `part_vec_[0]` of an empty vector is `none`.
unfoldable pub get_server_by_key : Partition → ℤ → Option ℤ
get_server_by_key p key =
    let first_element = get_elem? p.part_vec 0 in
    if ltb_ℤ key (pos 0) || leb_ℤ (pos p.key_range) key then some (negsuc 0) else do
      first ← first_element
      some (if ltb_ℤ key first then sub_ℕ p.server_num 1 else sub_ℕ (upper_bound key p.part_vec) 1)

-- `lower_bound(keys.begin() + start, keys.end(), bound) - keys.begin()`
abbrev pub bound_from : List ℤ → ℕ → ℤ → ℕ
bound_from keys start bound = start + lower_bound bound (drop start keys)

-- `NextEnding(keys, start, server_id)`: the end of the run of keys that starts at `start`, and the
-- server that holds it. A read out of range is `none`.
unfoldable pub next_ending : Partition → List ℤ → ℕ → Option (ℕ × ℤ)
next_ending p keys start = do
  key ← get_elem? keys start
  server_id ← get_server_by_key p key
  first ← get_elem? p.part_vec 0
  if ltb_ℤ key first
      then some (bound_from keys start first, server_id)
      else (if server_id ==ℤ sub_ℕ p.server_num 1 then some (length keys, server_id) else do
        bound ← at p.part_vec (server_id +ℤ pos 1)
        some (bound_from keys start bound, server_id))
