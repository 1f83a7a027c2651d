-- ===== src/Device/Entries.antt =====
-- Which routes AddRouteEntry adds.
use Prim.Native.String.{String}
use mathlib.Core.List.{append_assoc, append-nil}
use an_app.Base.{◌≡◌, refl, ap, ◌∙◌, List, [], ◌∷◌, ◌++◌, Option, some}
use an_app.Net.{Ip, IpNet}
use an_app.Device.{
  Error, NetCalls, Kind, ipv4, ipv6, neither, kind_of, put, split_entries, RouteCall, add_routes,
  add_route_entry,
}

-- Every item is a network in CIDR notation.
pub data Parses (net : NetCalls) : List String → Type 0 where
  nothing : Parses net []
  item :
      {s : String} {rest : List String} (parsed : Ip × IpNet)
      → net.parse_cidr s ≡ some parsed
      → Parses net rest
      → Parses net (s ∷ rest)

abbrev pub keep4 : Kind → String → List String → List String
keep4 ipv4 s rest = s ∷ rest
keep4 ipv6 s rest = rest
keep4 neither s rest = rest

abbrev pub keep6 : Kind → String → List String → List String
keep6 ipv4 s rest = rest
keep6 ipv6 s rest = s ∷ rest
keep6 neither s rest = rest

-- The items of each version, in their order.
abbrev pub entries4 : (net : NetCalls) → {items : List String} → Parses net items → List String
entries4 net nothing = []
entries4 net (item {s} parsed e p) = keep4 (kind_of net parsed.0) s (entries4 net p)

abbrev pub entries6 : (net : NetCalls) → {items : List String} → Parses net items → List String
entries6 net nothing = []
entries6 net (item {s} parsed e p) = keep6 (kind_of net parsed.0) s (entries6 net p)

put-keep :
    (k : Kind) (s : String) (cidr4 cidr6 rest4 rest6 : List String)
    → ((put k s cidr4 cidr6).0 ++ rest4 ≡ cidr4 ++ keep4 k s rest4)
      × ((put k s cidr4 cidr6).1 ++ rest6 ≡ cidr6 ++ keep6 k s rest6)
unfolding put
put-keep ipv4 s a b x y = (append_assoc a (s ∷ []) x, refl)
put-keep ipv6 s a b x y = (refl, append_assoc b (s ∷ []) y)
put-keep neither s a b x y = (refl, refl)

split_entries_lem :
    (net : NetCalls) {items : List String} (p : Parses net items) (cidr4 cidr6 : List String)
    → split_entries net items cidr4 cidr6 ≡ some (cidr4 ++ entries4 net p, cidr6 ++ entries6 net p)
unfolding split_entries
split_entries_lem net nothing a b = rw (append-nil a, append-nil b)
split_entries_lem net (item {s} {rest} parsed e p) a b =
    let k : Kind = kind_of net parsed.0 in
    let kept = put-keep k s a b (entries4 net p) (entries6 net p) in
    rw (e, split_entries)
      (split_entries_lem net p (put k s a b).0 (put k s a b).1
        ∙ ap (λ x. some (x, (put k s a b).1 ++ entries6 net p)) kept.0
        ∙ ap (λ y. some (a ++ keep4 k s (entries4 net p), y)) kept.1)

-- When every entry is a network in CIDR notation, AddRouteEntry hands the IPv4 entries and the IPv6
-- entries to the system, each in their order; it stops at the first refusal.
pub add_route_entry-split :
    (net : NetCalls) (system : RouteCall → Option Error) {items : List String}
    (p : Parses net items)
    → add_route_entry net system items ≡ add_routes system (entries4 net p) (entries6 net p)
unfolding add_route_entry
add_route_entry-split net system p = rw (split_entries_lem net p [] [], add_route_entry)
