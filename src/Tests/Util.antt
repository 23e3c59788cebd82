-- ===== src/Tests/Util.antt =====
-- A machine with a loopback, `eth10` and `eth1`.
use plug_in_ml.Base.{ℕ, ◌≡◌, refl, true, false, none, some, List, [], ◌∷◌}
use plug_in_ml.Util.Network.{inet, Ifaddrs, get_ip, strncmp_equal}
use plug_in_ml.Util.Network.First.{BeginsWith, Finds, get_ip-Finds}

abbrev eth1 : List ℕ
eth1 = 101 ∷ 116 ∷ 104 ∷ 49 ∷ []

abbrev machine : List Ifaddrs
machine =
    record { ifa_name = 108 ∷ 111 ∷ []; ifa_addr = some (inet (49 ∷ [])); is_loopback = true }
    ∷ record { ifa_name = eth1; ifa_addr = none; is_loopback = false }
    ∷ record {
      ifa_name = 101 ∷ 116 ∷ 104 ∷ 49 ∷ 48 ∷ [];
      ifa_addr = some (inet (50 ∷ []));
      is_loopback = false;
    }
    ∷ record { ifa_name = eth1; ifa_addr = some (inet (51 ∷ [])); is_loopback = false }
    ∷ []

-- Asked for `eth1`, `GetIP` gives the address of `eth10`.
finds_eth10 : get_ip eth1 machine [] ≡ 50 ∷ []
unfolding get_ip strncmp_equal
finds_eth10 = refl

get_ip-Finds_example :
    (name : List ℕ) × Finds (BeginsWith eth1) machine [] [] name (get_ip eth1 machine [])
get_ip-Finds_example = get_ip-Finds eth1 machine []
