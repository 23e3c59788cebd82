-- ===== src/Tests/Pull.antt =====
-- src/agent/agent.cc, Pull: an agent of the cluster of two servers pulls, and the answers change
-- places on their way.
use plug_in_ml.Base.{
  ℕ, zero, suc, ◌≡◌, refl, Option, some, none, List, [], ◌∷◌, ◌++◌, ℤ, pos, ◌==ℤ◌, get_elem?,
  length, lookup, contains, Distinct, All, arith, if◌then◌else◌, ◌<◌, ◌≤ℤ◌,
}
use mathlib.Core.Path.{subst}
use mathlib.Core.List.{Permᴰ}
use mathlib.Core.List.Permᴰ
use plug_in_ml.Message.{Message, Addr}
use plug_in_ml.Agent.State.{Agent, used_keys}
use plug_in_ml.Agent.Deliver.{used_values}
use plug_in_ml.Agent.Pull.{pull}
use plug_in_ml.Agent.Sort.Sorted.{zip}
use plug_in_ml.Agent.Arrivals.{Answer, arriving}
use plug_in_ml.Agent.Pulled.{IsAsked}
use plug_in_ml.Server.State.{Server}
use plug_in_ml.Server.Configure.{range_length}
use plug_in_ml.Cluster.Source.{IsSource, IsHeld}
use plug_in_ml.Cluster.Pull.{Answered, pull-Answered}
use plug_in_ml.Tests.Server.{whole_numbers, server, last_server, cluster, cluster-IsSpread}
use plug_in_ml.Tests.Agent.{agent}

not_closed : Addr → ℤ
not_closed addr = pos 0

abbrev asker : Agent ℕ
asker = record agent {
  local_id = pos 4;
  partition = record { key_range = 10; server_num = 2; part_vec = pos 3 ∷ pos 6 ∷ [] };
  parameters = record {
    size = 3;
    values = 0 ∷ 0 ∷ 0 ∷ 0 ∷ [];
    keys = pos 8 ∷ pos 4 ∷ pos 6 ∷ pos 0 ∷ [];
  };
}

abbrev two_servers : ℤ → Server ℕ
two_servers id = if id ==ℤ pos 1 then server else last_server

-- The first two answers change places.
abbrev flip : List (Answer ℕ) → List (Answer ℕ)
flip [] = []
flip (a ∷ []) = a ∷ []
flip (a ∷ b ∷ rest) = b ∷ a ∷ rest

flip-perm : (answers : List (Answer ℕ)) → Permᴰ (flip answers) answers
flip-perm [] = Permᴰ.nil
flip-perm (a ∷ []) = Permᴰ.refl (a ∷ [])
flip-perm (a ∷ b ∷ rest) = Permᴰ.swap refl refl

asker-IsAsked : IsAsked asker
asker-IsAsked = record {
  some_keys = omega arith;
  some_values = omega arith;
  ranged =
      ((omega arith, omega arith), ((omega arith, omega arith), ((omega arith, omega arith), tt)));
  none_before = (omega arith, (omega arith, (omega arith, tt)));
}

first_length : range_length cluster 0 ≡ some 3
unfolding range_length plug_in_ml.Base.◌-ℤ◌ plug_in_ml.Base.◌+ℤ◌
first_length = refl

second_length : range_length cluster 1 ≡ some 7
unfolding range_length plug_in_ml.Base.◌-ℤ◌ plug_in_ml.Base.◌+ℤ◌
second_length = refl

no_peers : (id : ℤ) (s : Server ℕ) → s.servers ≡ [] → lookup id s.servers ≡ none
unfolding lookup
no_peers id s e = rw e refl

asker_known : lookup (pos 4) server.id_to_index ≡ some 1
unfolding lookup
asker_known = refl

sources :
    (i : ℕ) (dst : ℤ)
    → get_elem? asker.server_ids i ≡ some dst
    → IsSource cluster asker i dst (two_servers dst)
sources zero dst e =
    subst (λ id. IsSource cluster asker 0 id (two_servers id)) (same e)
      (record {
        has_place = record { start = refl; length_field = first_length };
        same_range = refl;
        sized = refl;
        own_id = refl;
        no_server = no_peers (pos 4) server refl;
        index = 1;
        known = asker_known;
        buffer = [];
        waiting = refl;
        below = omega arith;
      })
  where
    same : some (pos 1) ≡ some dst → pos 1 ≡ dst
    same e = cc
sources (suc zero) dst e =
    subst (λ id. IsSource cluster asker 1 id (two_servers id)) (same e)
      (record {
        has_place = record { start = refl; length_field = second_length };
        same_range = refl;
        sized = refl;
        own_id = refl;
        no_server = no_peers (pos 4) last_server refl;
        index = 1;
        known = asker_known;
        buffer = [];
        waiting = refl;
        below = omega arith;
      })
  where
    same : some (pos 2) ≡ some dst → pos 2 ≡ dst
    same e = cc
sources (suc (suc i)) dst e = cc

two_ids : Distinct asker.server_ids
unfolding contains
two_ids = (refl, (refl, tt))

pull-Answered_example :
    (agent' : Agent ℕ) × (rest : List (Option (Message ℕ))) × (messages : List (ℤ × Message ℕ))
    × (answers : List (Answer ℕ)) × (pull asker (arriving (pos 4) (flip answers))
        ≡ some (some agent', rest))
    × (agent'.sender.sent ≡ messages)
    × Answered not_closed two_servers (pos 4) messages answers
    × Permᴰ (used_keys agent'.parameters) (pos 8 ∷ pos 4 ∷ pos 6 ∷ [])
    × (length (used_values agent'.parameters) ≡ length (used_keys agent'.parameters))
    × All
        (IsHeld two_servers asker)
        (zip (used_keys agent'.parameters) (used_values agent'.parameters))
pull-Answered_example =
    pull-Answered not_closed cluster asker two_servers flip cluster-IsSpread
      (record { sized = refl; served = omega arith; sorted = ((omega arith, tt), (tt, tt)) }) refl
      refl refl two_ids asker-IsAsked sources flip-perm
