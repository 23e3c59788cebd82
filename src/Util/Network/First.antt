-- ===== src/Util/Network/First.antt =====
-- src/util/network_util.h: which entry of getifaddrs the two functions take.
use plug_in_ml.Base.{
  ℕ, ◌≡◌, ◌⊎◌, inl, inr, refl, sym, ap, ◌∙◌, Bool, true, false, Option, none, some, List, [], ◌∷◌,
  ◌++◌, length, All, if◌then◌else◌, Bool-cases, arith,
}
use mathlib.Core.Path.{subst}
use plug_in_ml.Message.{Addr}
use plug_in_ml.Util.Network.{
  SockAddr, inet, other_family, Ifaddrs, strncmp_equal, get_ip, get_available_interface_and_ip,
}

-- The comparison holds exactly for names that begin with the interface.
strncmp_equal-append :
    (interface rest : List ℕ)
    → strncmp_equal (interface ++ rest) interface (length interface) ≡ true
unfolding strncmp_equal
strncmp_equal-append [] rest = refl
strncmp_equal-append (x ∷ interface) rest = ground (arith, strncmp_equal-append interface rest)

strncmp_equal-prefix :
    (name interface : List ℕ)
    → strncmp_equal name interface (length interface) ≡ true
    → (rest : List ℕ) × (name ≡ interface ++ rest)
unfolding strncmp_equal
strncmp_equal-prefix name [] h = (name, refl)
strncmp_equal-prefix [] (y ∷ interface) h = cc
strncmp_equal-prefix (x ∷ name) (y ∷ interface) h =
    let tail = strncmp_equal-prefix name interface (ground arith) in
    let head : x ≡ y = ground arith in (tail.0, ap (λ z. z ∷ name) head ∙ ap (λ l. y ∷ l) tail.1)

-- An entry with an IPv4 address that fits.
abbrev pub IsFit : (Ifaddrs → Type 0) → Ifaddrs → Addr → Type 0
IsFit P ifa addr = (ifa.ifa_addr ≡ some (inet addr)) × P ifa

abbrev pub IsUnfit : (Ifaddrs → Type 0) → Ifaddrs → Type 0
IsUnfit P ifa = (addr : Addr) → IsFit P ifa addr → ⊥

-- The first entry that fits.
pub data IsFirst (P : Ifaddrs → Type 0) : List Ifaddrs → List ℕ → Addr → Type 0 where
  here :
      (ifa : Ifaddrs) (rest : List Ifaddrs) (addr : Addr)
      → IsFit P ifa addr
      → IsFirst P (ifa ∷ rest) ifa.ifa_name addr
  later :
      (ifa : Ifaddrs) (rest : List Ifaddrs) (name : List ℕ) (addr : Addr)
      → IsUnfit P ifa
      → IsFirst P rest name addr
      → IsFirst P (ifa ∷ rest) name addr

-- A result: from the first entry that fits, or what it was where none fits.
pub data Finds (P : Ifaddrs → Type 0) (list : List Ifaddrs) (none_name : List ℕ) (none_addr : Addr)
    : List ℕ → Addr → Type 0 where
  found :
      (name : List ℕ) (addr : Addr)
      → IsFirst P list name addr
      → Finds P list none_name none_addr name addr
  not_found : All (IsUnfit P) list → Finds P list none_name none_addr none_name none_addr

skips :
    (P : Ifaddrs → Type 0) (ifa : Ifaddrs) (rest : List Ifaddrs) (n₀ name : List ℕ) (a₀ addr : Addr)
    → IsUnfit P ifa
    → Finds P rest n₀ a₀ name addr
    → Finds P (ifa ∷ rest) n₀ a₀ name addr
skips P ifa rest n₀ name a₀ addr unfit (found _ _ f) =
    found name addr (later ifa rest name addr unfit f)
skips P ifa rest n₀ _ a₀ _ unfit (not_found all) = not_found (unfit, all)

-- The name of the entry begins with the interface's.
abbrev pub BeginsWith : List ℕ → Ifaddrs → Type 0
BeginsWith interface ifa = (rest : List ℕ) × (ifa.ifa_name ≡ interface ++ rest)

-- One entry with no IPv4 address, of another name, and of a name that fits.
get_ip_without :
    (interface : List ℕ) (ifa : Ifaddrs) (rest : List Ifaddrs) (ip : Addr)
    → (ifa.ifa_addr ≡ none) ⊎ (ifa.ifa_addr ≡ some other_family)
    → get_ip interface (ifa ∷ rest) ip ≡ get_ip interface rest ip
unfolding get_ip
get_ip_without interface ifa rest ip (inl e) = rw e refl
get_ip_without interface ifa rest ip (inr e) = rw e refl

get_ip_inet :
    (interface : List ℕ) (ifa : Ifaddrs) (rest : List Ifaddrs) (ip addr : Addr)
    → ifa.ifa_addr ≡ some (inet addr)
    → get_ip interface (ifa ∷ rest) ip ≡ (
        if strncmp_equal ifa.ifa_name interface (length interface)
        then addr
        else get_ip interface rest ip)
unfolding get_ip
get_ip_inet interface ifa rest ip addr e = rw e refl

no_inet :
    (P : Ifaddrs → Type 0) (ifa : Ifaddrs)
    → (ifa.ifa_addr ≡ none) ⊎ (ifa.ifa_addr ≡ some other_family)
    → IsUnfit P ifa
no_inet P ifa (inl e) addr f = let c = sym e ∙ f.0 in cc
no_inet P ifa (inr e) addr f = let c = sym e ∙ f.0 in cc

same_inet : {a b : Addr} → some (inet a) ≡ some (inet b) → a ≡ b
same_inet e = cc

differs : {b : Bool} → b ≡ true → b ≡ false → ⊥
differs h k = cc

-- What an entry has.
SockAddr-cases :
    (o : Option SockAddr)
    → ((o ≡ none) ⊎ (o ≡ some other_family)) ⊎ ((addr : Addr) × (o ≡ some (inet addr)))
SockAddr-cases none = inl (inl refl)
SockAddr-cases (some other_family) = inl (inr refl)
SockAddr-cases (some (inet addr)) = inr (addr, refl)

-- `GetIP` gives the address of the first entry with an IPv4 address whose name begins with the
-- interface's, and leaves its result alone where there is none.
pub get_ip-Finds :
    (interface : List ℕ) (list : List Ifaddrs) (ip : Addr)
    → (name : List ℕ) × Finds (BeginsWith interface) list [] ip name (get_ip interface list ip)
unfolding get_ip
get_ip-Finds interface [] ip = ([], not_found tt)
get_ip-Finds interface (ifa ∷ rest) ip =
    let P = BeginsWith interface in
    let more = get_ip-Finds interface rest ip in
    let next =
      λ (unfit : IsUnfit P ifa) (e : get_ip interface (ifa ∷ rest) ip ≡ get_ip interface rest ip).
        subst (Finds P (ifa ∷ rest) [] ip more.0) (sym e)
          (skips P ifa rest [] more.0 ip (get_ip interface rest ip) unfit more.1) in
    elim (SockAddr-cases ifa.ifa_addr) [
      | inl without ↦
          (more.0, next (no_inet P ifa without) (get_ip_without interface ifa rest ip without))
      | inr (addr, e) ↦
          let result = get_ip_inet interface ifa rest ip addr e in
          elim (Bool-cases (strncmp_equal ifa.ifa_name interface (length interface))) [
            | inl same ↦
                let hit : get_ip interface (ifa ∷ rest) ip ≡ addr = result ∙ rw same refl in
                (
                  ifa.ifa_name,
                  subst (Finds P (ifa ∷ rest) [] ip ifa.ifa_name) (sym hit) (
                      found ifa.ifa_name addr
                        (here ifa rest addr (e, strncmp_equal-prefix ifa.ifa_name interface same))),
                )
            | inr other ↦
                let unfit : IsUnfit P ifa = λ a f.
                  differs
                    (ap (λ n. strncmp_equal n interface (length interface)) f.1.1
                      ∙ strncmp_equal-append interface f.1.0)
                    other in
                (more.0, next unfit (result ∙ rw other refl))
          ]
    ]

available_without :
    (ifa : Ifaddrs) (rest : List Ifaddrs)
    → (ifa.ifa_addr ≡ none) ⊎ (ifa.ifa_addr ≡ some other_family)
    → get_available_interface_and_ip (ifa ∷ rest) ≡ get_available_interface_and_ip rest
unfolding get_available_interface_and_ip
available_without ifa rest (inl e) = rw e refl
available_without ifa rest (inr e) = rw e refl

available_inet :
    (ifa : Ifaddrs) (rest : List Ifaddrs) (addr : Addr)
    → ifa.ifa_addr ≡ some (inet addr)
    → get_available_interface_and_ip (ifa ∷ rest)
      ≡ (if ifa.is_loopback then get_available_interface_and_ip rest else (ifa.ifa_name, addr))
unfolding get_available_interface_and_ip
available_inet ifa rest addr e = rw e refl

-- `GetAvailableInterfaceAndIP` gives the name and address of the first entry with an IPv4 address
-- that is no loopback, and two empty texts where there is none.
pub get_available_interface_and_ip-Finds :
    (list : List Ifaddrs)
    → let result = get_available_interface_and_ip list in
      Finds (λ ifa. ifa.is_loopback ≡ false) list [] [] result.0 result.1
unfolding get_available_interface_and_ip
get_available_interface_and_ip-Finds [] = not_found tt
get_available_interface_and_ip-Finds (ifa ∷ rest) =
    let P = λ (i : Ifaddrs). i.is_loopback ≡ false in
    let all = get_available_interface_and_ip rest in
    let more = get_available_interface_and_ip-Finds rest in
    let next = λ (unfit : IsUnfit P ifa) (e : get_available_interface_and_ip (ifa ∷ rest) ≡ all).
      subst (λ r. Finds P (ifa ∷ rest) [] [] r.0 r.1) (sym e)
        (skips P ifa rest [] all.0 [] all.1 unfit more) in
    elim (SockAddr-cases ifa.ifa_addr) [
      | inl without ↦ next (no_inet P ifa without) (available_without ifa rest without)
      | inr (addr, e) ↦
          let result = available_inet ifa rest addr e in
          elim (Bool-cases ifa.is_loopback) [
            | inl loopback ↦
                next (λ a f. differs loopback f.1)
                  (result ∙ ap (λ b. if b then all else (ifa.ifa_name, addr)) loopback)
            | inr usable ↦
                subst (λ r. Finds P (ifa ∷ rest) [] [] r.0 r.1)
                  (sym (result ∙ ap (λ b. if b then all else (ifa.ifa_name, addr)) usable))
                  (found ifa.ifa_name addr (here ifa rest addr (e, usable)))
          ]
    ]
