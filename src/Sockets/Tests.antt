-- ===== src/Sockets/Tests.antt =====
-- The dialers on a system where every socket option can be set, and where none can.
use Prim.Native.String.{String}
use an_app.Base.{
  ℕ, ◌+◌, ◌≡◌, ◌≢◌, ◌⊎◌, refl, true, if◌then◌else◌, ◌==◌, List, [], ◌∷◌, Option, none, some, arith,
}
use an_app.Action.{ok}
use an_app.Net.{IpNet}
use an_app.Routes.{CustomRoute, get_if_name, get_default_route, find_contain_route}
use an_app.Routes.Insertion.{insertion_sort, insertion_sort-Sorts}
use an_app.Routes.Windows.{ForwardRow, Host, find_routes, scan_rows, interface_rows, row_route}
use an_app.Sockets.Chosen.{dial_leaves_tun}
use an_app.Tcp.{Address, connected, tcp_handle}
use an_app.Tcp.Calls.{dialled_routes, Leaves, tcp_dials_outside}
use an_app.Sockets.{
  SocketCall, set_int, set_string, ipproto_ip, ip_unicast_if, sol_socket, so_bindtodevice,
  put_uint32, read_uint32, bind4_call, bind4, windows_control, linux_control,
}
use an_app.Sockets.Order.{stored, network_order, windows_control-binds}

abbrev works : SocketCall → Option ℕ
works c = none

abbrev refuses : SocketCall → Option ℕ
refuses c = some 1

abbrev route : CustomRoute
route = record {
  if_name = "eth0";
  subnet = none;
  ip = 192 ∷ 168 ∷ 1 ∷ 2 ∷ [];
  metric = 25;
  if_index = 10;
  bit_count = 24;
}

binds_run :
    (v : ℕ) × (set_int 3 ipproto_ip ip_unicast_if 167772160 ∷ []
      ≡ set_int 3 ipproto_ip ip_unicast_if v ∷ [])
    × (works (set_int 3 ipproto_ip ip_unicast_if v) ≡ none)
    × (network_order (stored v) ≡ 10)
unfolding windows_control bind4 bind4_call read_uint32 put_uint32
binds_run =
    windows_control-binds works route 3 [] (set_int 3 ipproto_ip ip_unicast_if 167772160 ∷ [])
      (omega arith) refl

-- On Linux the dial goes on with a socket that is bound to no interface.
linux_run :
    linux_control refuses route 3 []
    ≡ (ok tt, set_string 3 sol_socket so_bindtodevice (get_if_name route) ∷ [])
unfolding linux_control
linux_run = refl

-- Interface 7 is the TUN device, and interface 3 has the one route.
abbrev alias_of : ℕ → String
alias_of i = if i == 7 then "anApp" else "eth0"

abbrev every_net : IpNet
every_net = record { ip = 0 ∷ 0 ∷ 0 ∷ 0 ∷ []; mask = 0 ∷ 0 ∷ 0 ∷ 0 ∷ [] }

abbrev host : Host
host = record {
  gt_if_entry2 = λ row. record row {
    interface_luid = row.interface_index + 100;
    connected = true;
    alias = alias_of row.interface_index;
  };
  ip_interface = λ luid. some 25;
  addresses = λ index. [];
  parse_cidr = λ s. some ([], every_net);
  mask_size = λ n. 0;
  to4 = λ ip. some ip;
  tun_name = "anApp";
}

abbrev table : List ForwardRow
table = record { interface_luid = 103; interface_index = 3; prefix = "0.0.0.0/0"; metric = 10 } ∷ []

abbrev wired : CustomRoute
wired = record {
  if_name = "eth0";
  subnet = some every_net;
  ip = [];
  metric = 35;
  if_index = 3;
  bit_count = 0;
}

dial_leaves_tun_example :
    (r : CustomRoute) × (find_contain_route
        (λ n dest. true)
        host.parse_cidr
        insertion_sort
        []
        (8 ∷ 8 ∷ 8 ∷ 8 ∷ [])
        (wired ∷ [])
      ≡ some r)
    × (windows_control works r 3 [] ≡ (ok tt, set_int 3 ipproto_ip ip_unicast_if 50331648 ∷ [])
        → (v : ℕ) × (set_int 3 ipproto_ip ip_unicast_if 50331648 ∷ []
            ≡ set_int 3 ipproto_ip ip_unicast_if v ∷ [])
          × (works (set_int 3 ipproto_ip ip_unicast_if v) ≡ none)
          × (((r ≡ get_default_route host.parse_cidr []) × (network_order (stored v) ≡ 0))
              ⊎ (alias_of (network_order (stored v)) ≢ "anApp")))
unfolding find_routes scan_rows interface_rows row_route
dial_leaves_tun_example =
    dial_leaves_tun host alias_of (λ n dest. true) insertion_sort [] (8 ∷ 8 ∷ 8 ∷ 8 ∷ [])
      (λ luid. 3) table (wired ∷ []) works 3 [] (set_int 3 ipproto_ip ip_unicast_if 50331648 ∷ [])
      insertion_sort-Sorts (λ i. refl) ((refl, omega arith), tt) refl

abbrev client : Address
client = (8 ∷ 8 ∷ 8 ∷ 8 ∷ [], 443)

tcp_dials_outside_example :
    (r : CustomRoute) × (dialled_routes (
        tcp_handle
          (λ a. some a)
          (λ ip.
            find_contain_route (λ n dest. true) host.parse_cidr insertion_sort [] ip (wired ∷ []))
          (λ a r. connected)
          client)
      ≡ r ∷ [])
    × Leaves host alias_of [] r
unfolding find_routes scan_rows interface_rows row_route
tcp_dials_outside_example =
    tcp_dials_outside host alias_of (λ n dest. true) insertion_sort [] (λ luid. 3) table
      (wired ∷ []) (λ a. some a) (λ a r. connected) client client insertion_sort-Sorts (λ i. refl)
      ((refl, omega arith), tt) refl refl
