-- ===== src/Device.antt =====
-- device/tun.go: the part of the TUN device that all systems share. net.ParseCIDR, To4, To16, the
-- wireguard device and the calls that add routes are parameters. Native has NewDevice, Read and Write,
-- Addresses getInterfaceConfig4 and 6.
pub mod Addresses
pub mod Entries
pub mod Linux
pub mod Native
pub mod Windows
mod Tests
use Prim.Native.String.{String}
use an_app.Base.{
  ℕ, ◌+◌, ◌-◌, ◌%◌, Bool, true, false, List, [], ◌∷◌, ◌++◌, Option, none, some, if◌then◌else◌, ltb,
  length, modify,
}
use an_app.Io.{ReadErr}
use an_app.Net.{Ip, IpNet}

pub data Error : Type 0 where
  parse_error : Error
  route_error : ℕ → Error

-- net.ParseCIDR: the address and the network, or `none` for an error. To4 and To16 are empty for nil.
pub record NetCalls : Type 0 where
  pub parse_cidr : String → Option (Ip × IpNet)
  pub to4 : Ip → Ip
  pub to16 : Ip → Ip

pub data Kind : Type 0 where
  ipv4 : Kind
  ipv6 : Kind
  neither : Kind

unfoldable pub kind_of : NetCalls → Ip → Kind
kind_of net ip =
    if ltb 0 (length (net.to4 ip))
    then ipv4
    else if ltb 0 (length (net.to16 ip))
    then ipv6
    else neither

-- cidr4 and cidr6 with one item more.
unfoldable pub put : Kind → String → List String → List String → List String × List String
put ipv4 item cidr4 cidr6 = (cidr4 ++ (item ∷ []), cidr6)
put ipv6 item cidr4 cidr6 = (cidr4, cidr6 ++ (item ∷ []))
put neither item cidr4 cidr6 = (cidr4, cidr6)

-- The loop of AddRouteEntry; `none` is the error of ParseCIDR.
unfoldable pub split_entries :
    NetCalls → List String → List String → List String → Option (List String × List String)
split_entries net [] cidr4 cidr6 = some (cidr4, cidr6)
split_entries net (item ∷ rest) cidr4 cidr6 = elim (net.parse_cidr item) [
  | none ↦ none
  | some parsed ↦
      let (next4, next6) = put (kind_of net parsed.0) item cidr4 cidr6 in
      split_entries net rest next4 next6
]

-- A call that adds routes. Whether it succeeds, an argument of the definitions below tells.
pub data RouteCall : Type 0 where
  add_route_entry4 : List String → RouteCall
  add_route_entry6 : List String → RouteCall

-- The two calls, each only for a list that is not empty, the second only after the first succeeded:
-- what was called, and the error.
unfoldable pub add_routes6 :
    (RouteCall → Option Error) → List String → List RouteCall × Option Error
add_routes6 system [] = ([], none)
add_routes6 system (c ∷ cs) = (add_route_entry6 (c ∷ cs) ∷ [], system (add_route_entry6 (c ∷ cs)))

unfoldable pub add_routes :
    (RouteCall → Option Error) → List String → List String → List RouteCall × Option Error
add_routes system [] cidr6 = add_routes6 system cidr6
add_routes system (c ∷ cs) cidr6 = elim (system (add_route_entry4 (c ∷ cs))) [
  | some e ↦ (add_route_entry4 (c ∷ cs) ∷ [], some e)
  | none ↦ let (calls, err) = add_routes6 system cidr6 in (add_route_entry4 (c ∷ cs) ∷ calls, err)
]

unfoldable pub add_route_entry :
    NetCalls → (RouteCall → Option Error) → List String → List RouteCall × Option Error
add_route_entry net system cidr = elim (split_entries net cidr [] []) [
  | none ↦ ([], some parse_error)
  | some lists ↦ add_routes system lists.0 lists.1
]
