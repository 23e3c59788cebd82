-- ===== src/Tests/Reconfigure.antt =====
-- src/server/server.cc, Reconfigure: a server gets its configuration a second time.
use plug_in_ml.Base.{
  ℕ, zero, suc, ◌≡◌, refl, true, some, List, [], ◌∷◌, ◌++◌, ℤ, pos, ◌==ℤ◌, get_elem?, lookup,
  contains, arith, Bool-cases, inl, inr,
}
use plug_in_ml.Message.{Addr, Message}
use plug_in_ml.Communicator.{refresh_addresses}
use plug_in_ml.Server.State.{Server}
use plug_in_ml.Server.Configure.{range_length}
use plug_in_ml.Server.Reconfigure.{reconfigure}
use plug_in_ml.Server.Replied.{Behind, Value, Replied}
use plug_in_ml.Server.Serving.{IsServing}
use plug_in_ml.Server.Readded.{Renews, Lists}
use plug_in_ml.Server.Renewed.{reconfigure-IsServing}
use plug_in_ml.Tests.Server.{whole_numbers, server, server-IsServing, cluster}

keeps_open : Addr → ℤ
keeps_open addr = pos 0

two_servers :
    (j k : ℕ) (id : ℤ)
    → get_elem? cluster.server_id j ≡ some id
    → get_elem? cluster.server_id k ≡ some id
    → j ≡ k
two_servers zero zero id e f = refl
two_servers zero (suc zero) id e f = ground (arith, e, f)
two_servers (suc zero) zero id e f = ground (arith, e, f)
two_servers (suc zero) (suc zero) id e f = refl
two_servers zero (suc (suc k)) id e f = cc
two_servers (suc zero) (suc (suc k)) id e f = cc
two_servers (suc (suc j)) k id e f = cc

own_length : range_length cluster 0 ≡ some 3
unfolding range_length plug_in_ml.Base.◌-ℤ◌ plug_in_ml.Base.◌+ℤ◌
own_length = refl

has_index :
    (id : ℤ)
    → contains id cluster.worker_id ≡ true
    → (index : ℕ) × (lookup id server.id_to_index ≡ some index)
unfolding lookup contains
has_index id h = elim (Bool-cases (pos 3 ==ℤ id)) [
  | inl three ↦ (0, ground (arith, three))
  | inr other ↦ (1, ground (arith, other, h))
]

cluster-Renews : Renews cluster server 0
cluster-Renews = record {
  ids = refl;
  place = refl;
  no_twice = two_servers;
  same_start = refl;
  same_length = own_length;
  copies = omega arith;
  same_num = refl;
  some_workers = omega arith;
  kept = λ id h. h;
  known = has_index;
}

reconfigure-IsServing_example :
    (s' : Server ℕ) × (replies : List (ℤ × Message ℕ)) × (reconfigure keeps_open cluster server
      ≡ some s')
    × IsServing s'
    × Replied (Value (Behind (pos 3)) server.parameters) (pos 1) server.pull_request replies
    × (s'.sender
        ≡ refresh_addresses keeps_open 0 [] (record server.sender { sent = [] ++ replies }))
    × (s'.pull_request ≡ [])
    × (s'.parameters ≡ server.parameters)
    × (s'.version_buffer ≡ server.version_buffer)
    × (s'.server_num ≡ 2)
    × Lists cluster 2 s'.server_ids s'.servers
    × (s'.local_index ≡ 0)
reconfigure-IsServing_example =
    reconfigure-IsServing keeps_open cluster server 0 server-IsServing cluster-Renews
