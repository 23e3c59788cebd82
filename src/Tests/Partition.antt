-- ===== src/Tests/Partition.antt =====
-- Two servers over ten keys: server 0 holds 3 to 6, server 1 the others.
use plug_in_ml.Base.{
  ℕ, suc, ◌≤◌, ◌<◌, ◌≡◌, refl, Option, some, List, [], ◌∷◌, ℤ, pos, negsuc, ◌≤ℤ◌, ◌<ℤ◌, arith, inl,
  inr, ◌⊎◌, ◌↔◌, All, length,
}
use plug_in_ml.Partition.{Partition, get_server_by_key, next_ending}
use plug_in_ml.Partition.Search
use plug_in_ml.Partition.Search.{IsSorted}
use plug_in_ml.Partition.Owner.{Owns, InRange, IsPartition, get_server_by_key_iff}
use plug_in_ml.Partition.Runs.{Run, next_ending-Run}

abbrev two_servers : Partition
two_servers = record { key_range = 10; server_num = 2; part_vec = pos 3 ∷ pos 7 ∷ [] }

abbrev some_keys : List ℤ
some_keys = pos 1 ∷ pos 4 ∷ pos 5 ∷ pos 8 ∷ []

two_servers-IsPartition : IsPartition two_servers
two_servers-IsPartition = record {
  sized = refl;
  served = omega arith;
  sorted = ((omega arith, tt), (tt, tt));
}

some_keys-IsSorted : IsSorted some_keys
some_keys-IsSorted = (
  (omega arith, (omega arith, (omega arith, tt))),
  ((omega arith, (omega arith, tt)), ((omega arith, tt), (tt, tt))),
)

some_keys-InRange : All (InRange 10) some_keys
some_keys-InRange = (
  (omega arith, omega arith),
  ((omega arith, omega arith), ((omega arith, omega arith), ((omega arith, omega arith), tt))),
)

wraps : get_server_by_key two_servers (pos 1) ≡ some (pos 1)
unfolding get_server_by_key Search.upper_bound
wraps = refl

inner_run : next_ending two_servers some_keys 1 ≡ some (3, pos 0)
unfolding next_ending get_server_by_key Search.upper_bound Search.lower_bound plug_in_ml.Base.◌+ℤ◌
inner_run = refl

get_server_by_key_iff_example :
    (get_server_by_key two_servers (pos 8) ≡ some (pos 1)) ↔ Owns (pos 3 ∷ pos 7 ∷ []) (pos 8) 1
get_server_by_key_iff_example =
    get_server_by_key_iff two_servers (pos 8) 1 two_servers-IsPartition (omega arith, omega arith)

next_ending-Run_example :
    (stop : ℕ) × (i : ℕ) × (next_ending two_servers some_keys 1 ≡ some (stop, pos i))
    × Run two_servers some_keys 1 stop i
next_ending-Run_example =
    next_ending-Run two_servers some_keys 1 two_servers-IsPartition some_keys-IsSorted
      some_keys-InRange (omega arith)
