-- ===== src/Device/Windows/Entries.antt =====
-- device/device_windows.go: addRouteEntry4, addRouteEntry6, SetInterfaceAddress, setInterfaceAddress4
-- and setInterfaceAddress6. netip, winipcfg and the two getInterfaceConfig functions' answers are
-- parameters. The map of routes is the list of its keys; the order in which Go goes through a map is
-- the system's to choose.
pub mod Exact
use Prim.Native.String.{String}
use an_app.Base.{ℕ, Bool, true, false, List, [], ◌∷◌, Option, none, some, if◌then◌else◌}
use an_app.Script.{Sys, Step, must, Ran, run}

-- winipcfg.RouteData.
pub record RouteData (P : Type 0) : Type 0 where
  pub destination : P
  pub next_hop : String
  pub metric : ℕ

pub data EntryError (E : Type 0) : Type 0 where
  parse_prefix_error : EntryError E
  add_route_error : E → EntryError E

-- netip.ParsePrefix, the comparison of prefixes, AddRoute, and the order of a map's keys.
pub record RouteCalls (W P E : Type 0) : Type 0 where
  pub parse_prefix : String → Option P
  pub same : P → P → Bool
  pub add_route : Sys W (RouteData P) E
  pub in_map_order : W → List P → List P

module _ {W P E : Type 0} (net : RouteCalls W P E) where
  abbrev pub has_key : P → List P → Bool
  has_key p [] = false
  has_key p (q ∷ qs) = let rest = has_key p qs in if net.same p q then true else rest

  abbrev pub set_key : P → List P → List P
  set_key p keys = if has_key p keys then keys else p ∷ keys

  -- The first loop; `none` is the error of ParsePrefix.
  unfoldable pub collect : List String → List P → Option (List P)
  collect [] keys = some keys
  collect (item ∷ rest) keys = elim (net.parse_prefix item) [
    | none ↦ none
    | some p ↦ collect rest (set_key p keys)
  ]

  -- The second loop.
  abbrev pub route_steps : String → List P → List (Step (RouteData P) E (EntryError E))
  route_steps hop [] = []
  route_steps hop (p ∷ ps) =
      must (record { destination = p; next_hop = hop; metric = 0 }) add_route_error
      ∷ route_steps hop ps

  unfoldable pub add_route_entry : String → List String → W → Ran W (RouteData P) (EntryError E)
  add_route_entry hop cidr w = elim (collect cidr []) [
    | none ↦ record { calls = []; err = some parse_prefix_error; world = w }
    | some keys ↦ run net.add_route (route_steps hop (net.in_map_order w keys)) none w
  ]

  abbrev pub add_route_entry4 : List String → W → Ran W (RouteData P) (EntryError E)
  add_route_entry4 = add_route_entry "0.0.0.0"

  abbrev pub add_route_entry6 : List String → W → Ran W (RouteData P) (EntryError E)
  add_route_entry6 = add_route_entry "::"
