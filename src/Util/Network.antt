-- ===== src/Util/Network.antt =====
-- src/util/network_util.h: GetIP and GetAvailableInterfaceAndIP. The list that getifaddrs makes is
-- an argument; an IPv4 address is the text that inet_ntop makes of it. Names hold no zero byte.
pub mod First
use plug_in_ml.Base.{
  ℕ, zero, suc, ◌+◌, ◌<◌, ◌≡◌, ◌⊎◌, inl, inr, refl, sym, ap, ◌∙◌, Bool, true, false, not, ◌&&◌,
  Option, none, some, List, [], ◌∷◌, ◌++◌, length, All, ◌==◌, if◌then◌else◌, Bool-cases, arith,
}
use mathlib.Core.Path.{subst}
use plug_in_ml.Message.{Addr}

-- The families that the code tells apart: an IPv4 address, or any other.
pub data SockAddr : Type 0 where
  inet : Addr → SockAddr
  other_family : SockAddr

pub record Ifaddrs : Type 0 where
  pub ifa_name : List ℕ
  pub ifa_addr : Option SockAddr
  pub is_loopback : Bool

-- `strncmp(name, interface, n) == 0` for texts without a zero byte.
unfoldable pub strncmp_equal : List ℕ → List ℕ → ℕ → Bool
strncmp_equal a b zero = true
strncmp_equal [] [] (suc n) = true
strncmp_equal [] (y ∷ b) (suc n) = false
strncmp_equal (x ∷ a) [] (suc n) = false
strncmp_equal (x ∷ a) (y ∷ b) (suc n) = x == y && strncmp_equal a b n

-- `GetIP`: `ip` is what the result's place held before.
unfoldable pub get_ip : List ℕ → List Ifaddrs → Addr → Addr
get_ip interface [] ip = ip
get_ip interface (ifa ∷ rest) ip =
    let more = get_ip interface rest ip in
    elim ifa.ifa_addr [
      | none ↦ more
      | some (inet addr) ↦
          if strncmp_equal ifa.ifa_name interface (length interface) then addr else more
      | some other_family ↦ more
    ]

-- `GetAvailableInterfaceAndIP`: the interface and its address.
unfoldable pub get_available_interface_and_ip : List Ifaddrs → List ℕ × Addr
get_available_interface_and_ip [] = ([], [])
get_available_interface_and_ip (ifa ∷ rest) =
    let more = get_available_interface_and_ip rest in
    elim ifa.ifa_addr [
      | none ↦ more
      | some (inet addr) ↦ if ifa.is_loopback then more else (ifa.ifa_name, addr)
      | some other_family ↦ more
    ]
