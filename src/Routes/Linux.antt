-- ===== src/Routes/Linux.antt =====
-- model/route_linux.go: FindRoutes, which makes one route from the first entry of the main table.
-- netlink's RouteList, net.InterfaceByIndex and Interface.Addrs are parameters. `none` as a result
-- is a fault: `list[0]` of an empty list, or the fields of a nil interface.
use Prim.Native.String.{String}
use text.Mathlib.TextEquality.{IsScalar-prop}
use mathlib.Core.List.{mem-cons, not-mem-nil, mem-cons_self}
use mathlib.Core.Logic.Or
use an_app.Base.{ℕ, ◌≡◌, refl, ap, ◌∙◌, Bool, true, List, [], ◌∷◌, Option, none, some, arith}
use an_app.Net.{Ip, IpNet}
use an_app.Routes.{CustomRoute, find_contain_route}
use an_app.Routes.Order.{Sorts}
use an_app.Routes.Select.{HasSubnets, find_contain_route-best}

CustomRoute-set : IsSet CustomRoute
CustomRoute-set = hlevel IsScalar-prop

-- The fields of netlink.Route that are read.
pub record NlRoute : Type 0 where
  pub link_index : ℕ
  pub priority : ℕ

-- net.Interface: its name, and what Addrs returns (empty on an error).
pub record Interface : Type 0 where
  pub name : String
  pub addrs : List Ip

-- The address loop breaks in its first round; without an address `ip` stays nil.
abbrev first_addr : List Ip → Ip
first_addr [] = []
first_addr (ip ∷ _) = ip

-- The composite literal that is appended.
pub link_route : IpNet → NlRoute → Interface → CustomRoute
link_route default_ipnet l ifc = record {
  if_name = ifc.name;
  subnet = some default_ipnet;
  ip = first_addr ifc.addrs;
  metric = l.priority;
  if_index = l.link_index;
  bit_count = 32;
}

module _ (default_ipnet : IpNet) (interface_by_index : ℕ → Option Interface) where
  -- The error of RouteList is only logged: its list is then empty.
  unfoldable pub find_linux_routes : List NlRoute → Option (List CustomRoute)
  find_linux_routes [] = none
  find_linux_routes (l ∷ ls) = elim (interface_by_index l.link_index) [
    | none ↦ none
    | some ifc ↦ some (link_route default_ipnet l ifc ∷ [])
  ]

  -- The route of the first link serves every destination that 0.0.0.0/0 holds.
  pub linux_route_serves_all :
      (contains : IpNet → Ip → Bool) (parse_cidr : String → Option (Ip × IpNet))
      (sort : (CustomRoute → CustomRoute → Bool) → List CustomRoute → List CustomRoute)
      (out_bound_ipv4 dest : Ip) (l : NlRoute) (ls : List NlRoute) (ifc : Interface)
      (routes : List CustomRoute)
      → Sorts sort
      → contains default_ipnet dest ≡ true
      → interface_by_index l.link_index ≡ some ifc
      → find_linux_routes (l ∷ ls) ≡ some routes
      → find_contain_route contains parse_cidr sort out_bound_ipv4 dest routes
        ≡ some (link_route default_ipnet l ifc)
  unfolding find_linux_routes link_route
  linux_route_serves_all contains parse_cidr sort out_bound dest l ls ifc routes sorts c i f =
      let route = link_route default_ipnet l ifc in
      let table : routes ≡ route ∷ [] = ground arith in
      let subnets : HasSubnets (route ∷ []) = ((default_ipnet, refl), tt) in
      let (r, found, inside, _, _) =
        find_contain_route-best contains parse_cidr sort out_bound dest (route ∷ []) subnets sorts
          route mem-cons_self (default_ipnet, refl, c) in
      let same : r ≡ route =
        Or.elim (CustomRoute-set r route) (mem-cons.0 inside) (λ e. e)
          (λ m. absurd (not-mem-nil m)) in
      rw table (found ∙ ap some same)
