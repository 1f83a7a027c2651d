-- ===== src/Device/Linux/Tests.antt =====
-- Runs of the Linux device.
use Prim.Native.String.{String}
use an_app.Base.Int.{negsuc}
use an_app.Base.{
  ℕ, ◌+◌, ◌≡◌, ◌≢◌, ◌⊎◌, refl, true, false, List, [], ◌∷◌, Option, none, some, if◌then◌else◌, ◌==◌,
  arith,
}
use an_app.Action.{Result}
use an_app.Net.{IpNet}
use an_app.Routes.{CustomRoute}
use an_app.Device.Linux.{
  Rule, Errno, eexist, other, Netlink, Device, refused, main_rule, config, add_rule, find_link,
}
use an_app.Routes.Linux.{NlRoute, Interface, link_route, find_linux_routes}
use an_app.Device.Linux.Watch.{
  Watch, waiting, announcing, Turns, turn, stay, link_changed, routes_freeze, link_change_arrives,
}
use an_app.Device.Linux.Monitor.{Monitored, rounds, settings, no_settings, wanted, rounds-enforced}
use an_app.Device.Linux.Ioctl.{Kernel, World, NetCalls}
use an_app.Device.Linux.Ioctl.Descriptors.{IsClosed, routes4, call, call-IsClosed}
use an_app.Device.Linux.Tun.{Answers}

-- A kernel is the history of its changes.
data Change : Type 0 where
  added : Rule → Change
  deleted : Rule → Change

abbrev History : Type 0
History = List Change

abbrev Has : History → Rule → Type 0
Has [] s = ⊥
Has (added r ∷ k) s = (s ≡ r) ⊎ Has k s
Has (deleted r ∷ k) s = Has k s × (s ≢ r)

abbrev default_rule : Rule
default_rule = record {
  priority = 0;
  table = 0;
  suppress_prefixlen = negsuc 0;
  ip_proto = 0;
  src = none;
}

-- Adding a rule of priority 200 answers EEXIST.
abbrev add : History → Rule → Option Errno × History
add k r = if r.priority == 200 then (some eexist, k) else (none, added r ∷ k)

abbrev netlink : Netlink History
netlink = record {
  new_rule = default_rule;
  rule_add = add;
  rule_del = λ k r. (none, deleted r ∷ k);
  route_add = λ k index net table. (some (other 17), k);
  link_by_name = λ k name. (none, 4);
}

abbrev route : CustomRoute
route = record {
  if_name = "eth0";
  subnet = none;
  ip = 10 ∷ 0 ∷ 0 ∷ 4 ∷ [];
  metric = 1;
  if_index = 2;
  bit_count = 0;
}

abbrev source_net : CustomRoute → Option IpNet
source_net r = some (record { ip = r.ip; mask = 255 ∷ 255 ∷ 255 ∷ 255 ∷ [] })

-- The machine had the first rule of the program already.
abbrev device : Device History
device = record {
  name = "anApp";
  rule_list = [];
  kernel = added (main_rule netlink) ∷ [];
  commands = [];
  updates_source = false;
  monitors_dns = false;
  tun_closed = false;
}

abbrev configured : Result Errno (Unit {0}) × Device History
configured = config netlink "anApp" none (some route) source_net true true "10.0.0.3" device

accepts : (k : History) (r : Rule) → refused (add k r).0 ≡ none
unfolding refused
accepts k r = ground arith

abbrev monitored : Monitored History
monitored = record { enabled = false; answers = 0; device = device }

rounds-enforced_example :
    let after = rounds "10.0.0.3" ((true, true) ∷ (true, true) ∷ []) monitored in
    (settings "anApp" no_settings after.device.commands ≡ wanted "10.0.0.3" true)
    × ((l : String) → l ≢ "anApp" → settings l no_settings after.device.commands ≡ no_settings)
    × (after.enabled ≡ true)
    × (after.answers ≡ 0 + 2)
rounds-enforced_example =
    rounds-enforced "10.0.0.3" ((true, true) ∷ (true, true) ∷ []) monitored (refl, (refl, tt)) refl

-- Requests on descriptor 9 fail with EEXIST.
abbrev sockets : Kernel ℕ
sockets = record {
  socket = λ k family. ((0, k), k + 1);
  ioctl = λ k fd request. (if fd == 9 then (17, 0) else (0, 5), k);
  close_fd = λ k fd. k;
}

abbrev net_calls : NetCalls
net_calls = record {
  parse_cidr = λ s.
      some (10 ∷ 0 ∷ 0 ∷ 0 ∷ [], record { ip = 10 ∷ 0 ∷ 0 ∷ 0 ∷ []; mask = 255 ∷ 0 ∷ 0 ∷ 0 ∷ [] });
  parse_ip = λ s. [];
  to4 = λ ip. ip;
  to16 = λ ip. ip;
  mask_size = λ mask. 8;
}

abbrev fresh : World ℕ
fresh = record { kernel = 9; log = [] }

call-IsClosed_example :
    IsClosed sockets (call sockets net_calls (97 ∷ 110 ∷ []) (routes4 ("10.0.0.0/8" ∷ [])) fresh).1
call-IsClosed_example =
    call-IsClosed sockets net_calls (97 ∷ 110 ∷ []) (routes4 ("10.0.0.0/8" ∷ [])) fresh refl

-- TUNSETIFF answers EPERM, as without the rights for it.
abbrev forbidden : Answers ℕ
forbidden = record {
  open_clone_device = (0, 3);
  new_ifreq = 0;
  tunsetiff = 1;
  set_nonblock = 0;
  create_tun_from_file = (0, 1);
  device_name = λ d. (0, "anApp");
}

-- The TUN device is not found.
abbrev without_link : Netlink History
without_link = record netlink { link_by_name = λ k name. (some (other 19), 0) }

abbrev begun : Watch
begun = record { phase = waiting; routes = []; receiver = false; renewed = 0 }

abbrev announced_once : Watch
announced_once = record { phase = announcing; routes = []; receiver = false; renewed = 0 }

abbrev default_net : IpNet
default_net = record { ip = 0 ∷ 0 ∷ 0 ∷ 0 ∷ []; mask = 0 ∷ 0 ∷ 0 ∷ 0 ∷ [] }

abbrev eth0 : Interface
eth0 = record { name = "eth0"; addrs = (192 ∷ 168 ∷ 1 ∷ 2 ∷ []) ∷ [] }

routes_freeze_example :
    (announced_once.routes ≡ []) × ((announcing ≡ waiting) ⊎ (announcing ≡ announcing))
unfolding config add_rule find_link refused
routes_freeze_example =
    routes_freeze without_link "anApp" none (some route) source_net true true "10.0.0.3" default_net
      (λ i. some eth0) device (other 19) begun announced_once refl refl refl refl
      (turn (link_changed begun refl) (stay announced_once))

abbrev link : NlRoute
link = record { link_index = 2; priority = 100 }

link_change_run :
    Turns default_net
      (λ i. some eth0)
      (record begun { receiver = true })
      (record {
        phase = waiting;
        routes = link_route default_net link eth0 ∷ [];
        receiver = true;
        renewed = 1;
      })
unfolding find_linux_routes
link_change_run =
    link_change_arrives default_net (λ i. some eth0) (record begun { receiver = true }) (link ∷ [])
      (link_route default_net link eth0 ∷ []) refl refl refl
