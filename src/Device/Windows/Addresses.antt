-- ===== src/Device/Windows/Addresses.antt =====
-- device/device_windows.go, SetInterfaceAddress, setInterfaceAddress4 and setInterfaceAddress6.
-- netip.ParsePrefix and ParseAddr, whose Must forms panic, and winipcfg are parameters. The log has
-- winipcfg's calls with their answers, the newest first.
use Prim.Native.String.{String}
use an_app.Base.{
  ℕ, ◌≡◌, Bool, true, false, Bool-cases, List, [], ◌∷◌, Option, none, some, Option-cases, inl, inr,
  if◌then◌else◌,
}
use an_app.Action.{Result, ok, err, crash}
use an_app.Device.{NetCalls}
use an_app.Device.Addresses.{
  ConfigError, InterfaceConfig, get_interface_config4, get_interface_config6,
}

pub data Family : Type 0 where
  inet : Family
  inet6 : Family

pub data AddressCall (P A E : Type 0) : Type 0 where
  set_ip_addresses : Family → P → Option E → AddressCall P A E
  set_dns : Family → A → Option E → AddressCall P A E

-- The answers of one run: to SetIPAddressesForFamily, to it again, and to SetDNS.
pub record Answers (P A E : Type 0) : Type 0 where
  pub parse_prefix : String → Option P
  pub parse_addr : String → Option A
  pub first : Option E
  pub second : Option E
  pub dns : Option E
  pub already_exists : E → Bool

pub data AddressError (E : Type 0) : Type 0 where
  tun_device_address_error : AddressError E
  passed_on : E → AddressError E

abbrev pub answered : {E : Type 0} → Option E → Result (AddressError E) (Unit {0})
answered none = ok tt
answered (some e) = err (passed_on e)

module _ {P A E : Type 0} (sys : Answers P A E) where
  abbrev pub Outcome : Type 0
  Outcome = Result (AddressError E) (Unit {0}) × List (AddressCall P A E)

  -- After the addresses are set: SetDNS of the gateway.
  unfoldable pub set_gateway : Family → String → List (AddressCall P A E) → Outcome
  set_gateway family gateway log = elim (sys.parse_addr gateway) [
    | none ↦ (crash, log)
    | some a ↦ (answered sys.dns, set_dns family a sys.dns ∷ log)
  ]

  -- An error of the last SetIPAddressesForFamily is returned.
  unfoldable pub go_on : Option E → Family → String → List (AddressCall P A E) → Outcome
  go_on none family gateway log = set_gateway family gateway log
  go_on (some e) family gateway log = (err (passed_on e), log)

  abbrev pub exists : Option E → Bool
  exists none = false
  exists (some e) = sys.already_exists e

  -- setInterfaceAddress4 and 6, which differ in the family.
  unfoldable pub set_interface_address_for : Family → String → String → Outcome
  set_interface_address_for family address gateway = elim (sys.parse_prefix address) [
    | none ↦ (crash, [])
    | some p ↦
        if exists sys.first
        then go_on sys.second family gateway
            (set_ip_addresses family p sys.second ∷ set_ip_addresses family p sys.first ∷ [])
        else go_on sys.first family gateway (set_ip_addresses family p sys.first ∷ [])
  ]

  unfoldable pub try_ipv6 : Result ConfigError InterfaceConfig → String → Outcome
  try_ipv6 (ok c) address = set_interface_address_for inet6 address c.gateway
  try_ipv6 (err e) address = (err tun_device_address_error, [])
  try_ipv6 crash address = (crash, [])

  unfoldable pub try_ipv4 :
      Result ConfigError InterfaceConfig → Result ConfigError InterfaceConfig → String → Outcome
  try_ipv4 (ok c) six address = set_interface_address_for inet address c.gateway
  try_ipv4 (err e) six address = try_ipv6 six address
  try_ipv4 crash six address = (crash, [])

  unfoldable pub set_interface_address : NetCalls → (List ℕ → String) → String → Outcome
  set_interface_address net ip_string address =
      try_ipv4 (get_interface_config4 net ip_string address)
        (get_interface_config6 net ip_string address) address

  -- What follows a SetIPAddressesForFamily that worked.
  pub data AfterSet (f : Family) (log : List (AddressCall P A E)) : Outcome → Type 0 where
    no_gateway : AfterSet f log (crash, log)
    dns_answered : (a : A) → AfterSet f log (answered sys.dns, set_dns f a sys.dns ∷ log)

  -- The calls of a run and its result: SetDNS comes only after a SetIPAddressesForFamily of the same
  -- family that worked, the second attempt only after the first found the address there already, and
  -- without an error or a panic all of it has worked.
  pub data Orderly : Outcome → Type 0 where
    no_address : Orderly (err tun_device_address_error, [])
    no_prefix : Orderly (crash, [])
    once_failed :
        (f : Family) (p : P) (e : E)
        → sys.already_exists e ≡ false
        → Orderly (err (passed_on e), set_ip_addresses f p (some e) ∷ [])
    twice_failed :
        (f : Family) (p : P) (e x : E)
        → sys.already_exists e ≡ true
        → Orderly
            (err (passed_on x), set_ip_addresses f p (some x) ∷ set_ip_addresses f p (some e) ∷ [])
    once_set :
        (f : Family) (p : P) (rest : Outcome)
        → AfterSet f (set_ip_addresses f p none ∷ []) rest
        → Orderly rest
    set_again :
        (f : Family) (p : P) (e : E) (rest : Outcome)
        → sys.already_exists e ≡ true
        → AfterSet f (set_ip_addresses f p none ∷ set_ip_addresses f p (some e) ∷ []) rest
        → Orderly rest

  set_gateway-AfterSet :
      (f : Family) (gateway : String) (log : List (AddressCall P A E))
      → AfterSet f log (set_gateway f gateway log)
  unfolding set_gateway
  set_gateway-AfterSet f gateway log = elim (Option-cases (sys.parse_addr gateway)) [
    | inl bad ↦ rw (bad, set_gateway) no_gateway
    | inr (a, good) ↦ rw (good, set_gateway) (dns_answered a)
  ]

  go_once :
      (o : Option E) (f : Family) (p : P) (gateway : String)
      → exists o ≡ false
      → Orderly (go_on o f gateway (set_ip_addresses f p o ∷ []))
  unfolding go_on
  go_once none f p gateway h = once_set f p _ (set_gateway-AfterSet f gateway _)
  go_once (some e) f p gateway h = once_failed f p e h

  go_twice :
      (o o' : Option E) (f : Family) (p : P) (gateway : String)
      → exists o ≡ true
      → Orderly (go_on o' f gateway (set_ip_addresses f p o' ∷ set_ip_addresses f p o ∷ []))
  unfolding go_on
  go_twice none o' f p gateway h = cc
  go_twice (some e) none f p gateway h = set_again f p e _ h (set_gateway-AfterSet f gateway _)
  go_twice (some e) (some x) f p gateway h = twice_failed f p e x h

  for-Orderly :
      (f : Family) (address gateway : String)
      → Orderly (set_interface_address_for f address gateway)
  unfolding set_interface_address_for
  for-Orderly f address gateway = elim (Option-cases (sys.parse_prefix address)) [
    | inl bad ↦ rw (bad, set_interface_address_for) no_prefix
    | inr (p, good) ↦ elim (Bool-cases (exists sys.first)) [
      | inl again ↦
          rw (good, set_interface_address_for, again)
            (go_twice sys.first sys.second f p gateway again)
      | inr plain ↦
          rw (good, set_interface_address_for, plain) (go_once sys.first f p gateway plain)
    ]
  ]

  -- Every run of SetInterfaceAddress is orderly.
  pub set_interface_address-Orderly :
      (net : NetCalls) (ip_string : List ℕ → String) (address : String)
      → Orderly (set_interface_address net ip_string address)
  unfolding set_interface_address try_ipv4 try_ipv6
  set_interface_address-Orderly net ip_string address =
      go (get_interface_config4 net ip_string address) (get_interface_config6 net ip_string address)
    where
      go6 : (six : Result ConfigError InterfaceConfig) → Orderly (try_ipv6 six address)
      go6 (ok c) = for-Orderly inet6 address c.gateway
      go6 (err e) = no_address
      go6 crash = no_prefix

      go : (four six : Result ConfigError InterfaceConfig) → Orderly (try_ipv4 four six address)
      go (ok c) six = for-Orderly inet address c.gateway
      go (err e) six = go6 six
      go crash six = no_prefix
