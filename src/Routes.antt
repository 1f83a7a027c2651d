-- ===== src/Routes.antt =====
-- model/route.go: the route table and the choice of the route for a destination.
-- A `*net.IPNet` may be nil, so a subnet is an option; `none` as a result is the nil dereference of
-- `routes[i].Subnet.Contains`. `contains`, `parse_cidr` and `sort` are net.IPNet.Contains,
-- net.ParseCIDR and sort.Sort, the last taking SortRoutes.Less. The global OutBoundIpv4 is an
-- argument.
pub mod Order
pub mod Select
pub mod Windows
pub mod Linux
pub mod Insertion
pub mod Chosen
mod Tests
use Prim.Native.String.{String}
use an_app.Base.{
  ℕ, ◌+◌, ◌≡◌, Bool, true, false, List, [], ◌∷◌, Option, none, some, if◌then◌else◌, ltb, ◌==◌,
  length,
}
use an_app.Net.{Ip, IpNet}

pub record CustomRoute : Type 0 where
  pub if_name : String
  pub subnet : Option IpNet
  pub ip : Ip
  pub metric : ℕ
  pub if_index : ℕ
  pub bit_count : ℕ

abbrev pub default_if_name : String
default_if_name = "DEFAULT"

pub get_if_name : CustomRoute → String
get_if_name r = r.if_name

-- SortRoutes.Less, on the two elements.
pub less : CustomRoute → CustomRoute → Bool
less a b = if a.bit_count == b.bit_count then ltb a.metric b.metric else ltb b.bit_count a.bit_count

-- The loop that collects the routes whose subnet contains the destination.
pub containing : (IpNet → Ip → Bool) → Ip → List CustomRoute → Option (List CustomRoute)
containing contains dest [] = some []
containing contains dest (r ∷ routes) = elim r.subnet [
  | none ↦ none
  | some n ↦ elim (containing contains dest routes) [
    | none ↦ none
    | some rest ↦ some (if contains n dest then r ∷ rest else rest)
  ]
]

unfoldable pub get_default_route : (String → Option (Ip × IpNet)) → Ip → CustomRoute
get_default_route parse_cidr out_bound_ipv4 = record {
  if_name = default_if_name;
  subnet = elim (parse_cidr "0.0.0.0/0") [ none ↦ none | some (_, ip_net) ↦ some ip_net ];
  ip = out_bound_ipv4;
  metric = 0;
  if_index = 0;
  bit_count = 0;
}

-- `customRoutes[0]` after the sort; the empty case is the default route.
pub first_or : CustomRoute → List CustomRoute → CustomRoute
first_or default [] = default
first_or default (r ∷ _) = r

module _ (contains : IpNet → Ip → Bool) (parse_cidr : String → Option (Ip × IpNet))
    (sort : (CustomRoute → CustomRoute → Bool) → List CustomRoute → List CustomRoute)
    (out_bound_ipv4 : Ip) where
  -- `sort.Sort` of an empty slice is not called, and an empty table is the same as nil.
  pub find_contain_route : Ip → List CustomRoute → Option CustomRoute
  find_contain_route dest routes =
      let default = get_default_route parse_cidr out_bound_ipv4 in
      if length routes == 0 then some default else elim (containing contains dest routes) [
        | none ↦ none
        | some custom_routes ↦ some (
            if length custom_routes == 0
            then default
            else first_or default (sort less custom_routes))
      ]
