-- ===== src/Sockets/Chosen.antt =====
-- From the route table of Windows to the socket of a dialled connection: model/route_windows.go,
-- model/route.go and protocol/socket/socket_windows.go together.
use Prim.Native.String.{String}
use text.Mathlib.TextEquality.{eq_iff}
use an_app.Base.{
  ℕ, ◌^◌, ◌<◌, ◌≡◌, ◌≢◌, ◌⊎◌, inl, inr, sym, ap, ◌∙◌, Bool, List, [], ◌∷◌, Option, none, some, All,
  of_All, arith,
}
use mathlib.Core.HLevel.{¬_prop}
use native.Mathlib.Bridge.{le_prop}
use an_app.Action.{ok}
use an_app.Net.{Ip, IpNet}
use an_app.Routes.{CustomRoute, get_default_route, find_contain_route}
use an_app.Routes.Order.{Sorts}
use an_app.Routes.Select.{find_contain_route-total}
use an_app.Routes.Windows.{ForwardRow, IfRow, Host, row_route, find_routes}
use an_app.Routes.Windows.Cache.{
  asked, Indexed, find_routes-direct, direct_routes-All, find_routes-IsUsable,
}
use an_app.Routes.Chosen.{usable-HasSubnets}
use an_app.Sockets.{SocketCall, set_int, ipproto_ip, ip_unicast_if, windows_control}
use an_app.Sockets.Order.{stored, network_order, windows_control-binds}

module _ (h : Host) (alias_of : ℕ → String) where
  -- A row with an index of 32 bits that is the one index of its LUID.
  abbrev pub IsNumbered : (ℕ → ℕ) → ForwardRow → Type 0
  IsNumbered index_of t =
      (t.interface_index ≡ index_of t.interface_luid) × (t.interface_index < 2 ^ 32)

  -- A route with the index of an interface that is not the TUN device.
  abbrev pub Outside : CustomRoute → Type 0
  Outside r = (r.if_index < 2 ^ 32) × (alias_of r.if_index ≢ h.tun_name)

  row_route-Outside :
      (t : ForwardRow) (row : IfRow) (row2 : Option ℕ) (rs : List CustomRoute)
      → t.interface_index < 2 ^ 32
      → row.alias ≡ alias_of t.interface_index
      → row_route h t row row2 ≡ some rs
      → All Outside rs
  unfolding row_route
  row_route-Outside t row row2 rs small named e = ground (arith, eq_iff row.alias h.tun_name)

  Outside-prop : (r : CustomRoute) → IsProp (Outside r)
  Outside-prop r = hlevel (le_prop, ¬_prop)

  numbered-Indexed :
      (index_of : ℕ → ℕ) (ts : List ForwardRow)
      → All (IsNumbered index_of) ts
      → Indexed h index_of ts
  numbered-Indexed index_of [] n = tt
  numbered-Indexed index_of (t ∷ ts) (n, ns) = (n.0, numbered-Indexed index_of ts ns)

  -- On the table that FindRoutes has read, the route of any destination is the default one or one of an
  -- interface that is not the TUN.
  pub chosen-Outside :
      (contains : IpNet → Ip → Bool)
      (sort : (CustomRoute → CustomRoute → Bool) → List CustomRoute → List CustomRoute)
      (out_bound_ipv4 dest : Ip) (index_of : ℕ → ℕ) (table : List ForwardRow)
      (routes : List CustomRoute)
      → Sorts sort
      → ((i : ℕ) → (asked h i).alias ≡ alias_of i)
      → All (IsNumbered index_of) table
      → find_routes h (some table) ≡ some routes
      → (r : CustomRoute) × (find_contain_route contains h.parse_cidr sort out_bound_ipv4 dest
            routes
          ≡ some r)
        × ((r ≡ get_default_route h.parse_cidr out_bound_ipv4) ⊎ Outside r)
  chosen-Outside contains sort out_bound dest index_of table routes sorts named numbered found =
      let usable = find_routes-IsUsable h (some table) routes found in
      let direct =
        sym (find_routes-direct h index_of table (numbered-Indexed index_of table numbered))
        ∙ found in
      let outside =
        direct_routes-All h (IsNumbered index_of) Outside
          (λ t rs q e.
            row_route-Outside t (asked h t.interface_index) _ rs q.1 (named t.interface_index) e)
          table routes numbered direct in
      let (r, chosen, from) =
        find_contain_route-total contains h.parse_cidr sort out_bound dest routes
          (usable-HasSubnets h routes usable) sorts in
      (
        r,
        chosen,
        elim from [
          | inl is ↦ inl is
          | inr listed ↦ inr (of_All Outside Outside-prop r routes outside listed)
        ],
      )

  -- The socket of a connection to any destination, on Windows, where GetIfEntry2 answers for the index
  -- that it is asked for and each LUID has one index: FindContainRoute chooses a route on the table that
  -- FindRoutes has read, and when the dialer's control function returns, its one call was a success that
  -- set IP_UNICAST_IF, in network order, to the index of an interface that is not the TUN device, or
  -- to 0, which names no interface, if the route is the default one.
  pub dial_leaves_tun :
      (contains : IpNet → Ip → Bool)
      (sort : (CustomRoute → CustomRoute → Bool) → List CustomRoute → List CustomRoute)
      (out_bound_ipv4 dest : Ip) (index_of : ℕ → ℕ) (table : List ForwardRow)
      (routes : List CustomRoute) {E : Type 0} (sys : SocketCall → Option E) (fd : ℕ)
      (log log' : List SocketCall)
      → Sorts sort
      → ((i : ℕ) → (asked h i).alias ≡ alias_of i)
      → All (IsNumbered index_of) table
      → find_routes h (some table) ≡ some routes
      → (r : CustomRoute) × (find_contain_route contains h.parse_cidr sort out_bound_ipv4 dest
            routes
          ≡ some r)
        × (windows_control sys r fd log ≡ (ok tt, log')
            → (v : ℕ) × (log' ≡ set_int fd ipproto_ip ip_unicast_if v ∷ log)
              × (sys (set_int fd ipproto_ip ip_unicast_if v) ≡ none)
              × (((r ≡ get_default_route h.parse_cidr out_bound_ipv4)
                    × (network_order (stored v) ≡ 0))
                  ⊎ (alias_of (network_order (stored v)) ≢ h.tun_name)))
  unfolding get_default_route
  dial_leaves_tun contains sort out_bound dest index_of table routes {E} sys fd log log' sorts named
        numbered found =
      let (r, chosen, from) =
        chosen-Outside contains sort out_bound dest index_of table routes sorts named numbered
          found in
      let binds =
        λ (small : r.if_index < 2 ^ 32) (e : windows_control sys r fd log ≡ (ok tt, log')).
          windows_control-binds sys r fd log log' small e in
      (
        r,
        chosen,
        λ e. elim from [
          | inl is ↦
              let zero_index : r.if_index ≡ 0 = ap (λ t. t.if_index) is in
              let (v, called, works, order) = binds (omega (arith, zero_index)) e in
              (v, called, works, inl (is, order ∙ zero_index))
          | inr (small, elsewhere) ↦
              let (v, called, works, order) = binds small e in
              (v, called, works, inr (rw order elsewhere))
        ],
      )
