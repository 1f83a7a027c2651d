-- ===== src/Routes/Windows/Adapters/Tests.antt =====
-- A Windows that asks for one larger buffer, and whose adapter 5 has no address.
use an_app.Base.{
  ℕ, ◌+◌, ◌^◌, ◌<◌, ◌≡◌, ◌≢◌, refl, true, List, [], ◌∷◌, none, some, All, if◌then◌else◌, ◌==◌,
  arith,
}
use an_app.Net.{IpNet}
use an_app.Routes.{CustomRoute}
use an_app.Routes.Windows.{
  ForwardRow, Host, find_routes, count_bits, scan_rows, interface_rows, row_route,
}
use an_app.Routes.Windows.Adapters.{
  inet4, Adapter, Status, no_error, buffer_overflow, Calls, IpMap, ip_at, ipv4, visit, walk, found,
  looping, judge, fill_buffer, walk_filled, adapter_addresses,
}
use an_app.Routes.Windows.Adapters.Growth.{adapter_addresses-returns}
use an_app.Routes.Windows.Adapters.Walk.{hidden_adapter_loses_ip}

abbrev wired : Adapter
wired = record { if_index = 3; first_unicast = some (inet4 192 168 1 4) }

abbrev tunnel : Adapter
tunnel = record { if_index = 5; first_unicast = none }

abbrev wireless : Adapter
wireless = record { if_index = 9; first_unicast = some (inet4 192 168 7 4) }

abbrev listed : List Adapter
listed = wired ∷ tunnel ∷ wireless ∷ []

abbrev answer : ℕ → Status × ℕ
answer size = if size == 20_000 then (no_error listed, 20_000) else (buffer_overflow, 20_000)

abbrev windows : Calls
windows n size = answer size

sizes : (n size : ℕ) → (windows n size).1 < 2 ^ 32
sizes n size = ground arith

adapter_addresses-returns_example : adapter_addresses windows (2 ^ 32) ≢ looping
adapter_addresses-returns_example = adapter_addresses-returns windows (2 ^ 32) sizes (omega arith)

abbrev known : IpMap
known = (3, ipv4 192 168 1 4) ∷ []

addresses_run : adapter_addresses windows 2 ≡ found known
unfolding adapter_addresses fill_buffer judge walk_filled walk visit
addresses_run = refl

abbrev any_net : IpNet
any_net = record { ip = 10 ∷ 0 ∷ 0 ∷ 0 ∷ []; mask = 255 ∷ 0 ∷ 0 ∷ 0 ∷ [] }

abbrev host : Host
host = record {
  gt_if_entry2 = λ row. record row {
    interface_luid = row.interface_index + 100;
    connected = true;
    alias = "wlan";
  };
  ip_interface = λ luid. some 25;
  addresses = λ i. ip_at i known;
  parse_cidr = λ s. some ([], any_net);
  mask_size = λ n. 8;
  to4 = λ ip. some ip;
  tun_name = "anApp";
}

abbrev row : ForwardRow
row = record { interface_luid = 109; interface_index = 9; prefix = "10.0.0.0/8"; metric = 10 }

abbrev lost_route : CustomRoute
lost_route = record {
  if_name = "wlan";
  subnet = some any_net;
  ip = [];
  metric = 35;
  if_index = 9;
  bit_count = 0;
}

hidden_adapter_loses_ip_example :
    All (λ r. r.if_index ≡ 9 → (r.ip ≡ []) × (r.bit_count ≡ 0)) (lost_route ∷ [])
unfolding walk visit find_routes scan_rows interface_rows row_route count_bits
hidden_adapter_loses_ip_example =
    hidden_adapter_loses_ip host (λ luid. 9) (row ∷ []) (lost_route ∷ []) (wired ∷ [])
      (wireless ∷ []) tunnel known 9 refl (refl, tt) refl (λ j. refl) (λ r. refl) (refl, tt) refl
