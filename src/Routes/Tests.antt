-- ===== src/Routes/Tests.antt =====
-- Runs of the route code and its theorems at concrete tables.
use Prim.Native.String.{String}
use mathlib.Core.List.{Mem, mem-cons_self, not-mem-nil}
use an_app.Base.{
  ℕ, ◌+◌, ◌≤◌, ◌≡◌, refl, Bool, true, false, List, [], ◌∷◌, Option, some, arith, ◌==◌, ◌||◌,
  if◌then◌else◌,
}
use mathlib.Core.Logic.Or
use mathlib.Core.List.{mem-cons}
use mathlib.Core.HLevel.{⊥_prop}
use text.Mathlib.Text.{◌==◌ as str_eq}
use an_app.Net.{Ip, IpNet}
use an_app.Routes.{CustomRoute, less, containing, find_contain_route, first_or}
use an_app.Routes.Insertion.{insertion_sort, insertion_sort-Sorts}
use an_app.Routes.Select.{Holds, HasSubnets, find_contain_route-best}
use an_app.Routes.Linux.{NlRoute, Interface}
use an_app.Routes.Windows.{
  ForwardRow, Host, find_routes, count_bits, count_bytes, count_byte, get_bit, scan_rows,
  interface_rows, row_route,
}
use an_app.Routes.Windows.Bits.{count_bits_bounds}

-- A subnet of the runs holds the addresses with its first byte, and all if its mask is zero.
abbrev first_byte : List ℕ → ℕ
first_byte [] = 0
first_byte (b ∷ _) = b

abbrev holds : IpNet → Ip → Bool
holds n dest = first_byte n.mask == 0 || first_byte n.ip == first_byte dest

abbrev any_net : IpNet
any_net = record { ip = 0 ∷ 0 ∷ 0 ∷ 0 ∷ []; mask = 0 ∷ 0 ∷ 0 ∷ 0 ∷ [] }

abbrev ten_net : IpNet
ten_net = record { ip = 10 ∷ 0 ∷ 0 ∷ 0 ∷ []; mask = 255 ∷ 0 ∷ 0 ∷ 0 ∷ [] }

abbrev parse : String → Option (Ip × IpNet)
parse s = if str_eq s "10.0.0.0/8" then some (10 ∷ 0 ∷ 0 ∷ 0 ∷ [], ten_net) else some ([], any_net)

abbrev address : Ip
address = 192 ∷ 168 ∷ 1 ∷ 4 ∷ []

abbrev out_bound : Ip
out_bound = 1 ∷ 1 ∷ 1 ∷ 1 ∷ []

abbrev inside : Ip
inside = 10 ∷ 1 ∷ 2 ∷ 3 ∷ []

abbrev outside : Ip
outside = 8 ∷ 8 ∷ 8 ∷ 8 ∷ []

abbrev to4 : Ip → Option Ip
to4 ip = some ip

-- Interface 7 is the program's own device.
abbrev host : Host
host = record {
  gt_if_entry2 = λ row. record row {
    interface_luid = row.interface_index + 100;
    connected = true;
    alias = if row.interface_index == 7 then "anApp" else "eth0";
  };
  ip_interface = λ luid. some 25;
  addresses = λ index. address;
  parse_cidr = parse;
  mask_size = λ n. if first_byte n.mask == 0 then 0 else 8;
  to4 = to4;
  tun_name = "anApp";
}

abbrev rows : List ForwardRow
rows =
    record { interface_luid = 103; interface_index = 3; prefix = "0.0.0.0/0"; metric = 10 }
    ∷ record { interface_luid = 103; interface_index = 3; prefix = "10.0.0.0/8"; metric = 5 }
    ∷ record { interface_luid = 107; interface_index = 7; prefix = "0.0.0.0/0"; metric = 1 }
    ∷ []

abbrev any_route : CustomRoute
any_route = record {
  if_name = "eth0";
  subnet = some any_net;
  ip = address;
  metric = 35;
  if_index = 3;
  bit_count = 0;
}

abbrev ten_route : CustomRoute
ten_route = record {
  if_name = "eth0";
  subnet = some ten_net;
  ip = address;
  metric = 30;
  if_index = 3;
  bit_count = 2;
}

find_routes_run : find_routes host (some rows) ≡ some (any_route ∷ ten_route ∷ [])
unfolding find_routes scan_rows interface_rows row_route count_bits count_bytes count_byte get_bit
find_routes_run = refl

chosen_run :
    find_contain_route holds parse insertion_sort out_bound inside (any_route ∷ ten_route ∷ [])
    ≡ some ten_route
unfolding find_contain_route containing less first_or insertion_sort
chosen_run = refl

ten_does_not_hold : (q : CustomRoute) → Mem q (ten_route ∷ []) → ¬ Holds holds outside q
ten_does_not_hold q m (n, e, c) =
    Or.elim ⊥_prop (mem-cons.0 m) (λ same. cc (refused n e same c)) (λ k. not-mem-nil k)
  where
    refused :
        (n : IpNet) → q.subnet ≡ some n → q ≡ ten_route → holds n outside ≡ true → false ≡ true
    refused n e same c = ground arith

ten_table : HasSubnets (any_route ∷ ten_route ∷ [])
ten_table = ((any_net, refl), ((ten_net, refl), tt))

find_contain_route-best_example :
    (r : CustomRoute) × (find_contain_route holds parse insertion_sort out_bound inside
        (any_route ∷ ten_route ∷ [])
      ≡ some r)
    × Mem r (any_route ∷ ten_route ∷ [])
    × Holds holds inside r
    × ((p : CustomRoute)
        → Mem p (any_route ∷ ten_route ∷ [])
        → Holds holds inside p
        → (p.bit_count ≤ r.bit_count) × (p.bit_count ≡ r.bit_count → r.metric ≤ p.metric))
find_contain_route-best_example =
    find_contain_route-best holds parse insertion_sort out_bound inside (any_route ∷ ten_route ∷ [])
      ten_table insertion_sort-Sorts any_route mem-cons_self (any_net, refl, refl)

bounds_run :
    (count_bits to4 address 8 ≤ 8) × (count_bits to4 address 8 ≤ count_bits to4 address (8 + 16))
bounds_run = count_bits_bounds to4 address address 8 16 (λ e. cc) refl

-- On the interface 10.0.0.4, the prefixes /8 and /24 count alike.
abbrev sparse : Ip
sparse = 10 ∷ 0 ∷ 0 ∷ 4 ∷ []

abbrev short_route : CustomRoute
short_route = record ten_route { bit_count = 2; metric = 5 }

abbrev long_route : CustomRoute
long_route = record ten_route { bit_count = 2; metric = 9 }

counts : (2 ≡ count_bits to4 sparse (8 + 16)) × (2 ≡ count_bits to4 sparse 8)
unfolding count_bits count_bytes count_byte get_bit
counts = (refl, refl)

abbrev eth0 : Interface
eth0 = record { name = "eth0"; addrs = address ∷ [] }

abbrev first_link : NlRoute
first_link = record { link_index = 3; priority = 100 }

abbrev interface_of : ℕ → Option Interface
interface_of i = some eth0
