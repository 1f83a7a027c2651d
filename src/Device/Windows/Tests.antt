-- ===== src/Device/Windows/Tests.antt =====
-- A small Windows: an arbiter of filters, and a platform that counts the calls.
use Prim.Native.String.{String}
use text.Mathlib.Text.{◌==◌ as str_eq}
use text.Mathlib.TextEquality.{eq_iff}
use an_app.Base.{
  ℕ, ◌+◌, ◌<◌, ◌≡◌, refl, ap, true, false, List, [], ◌∷◌, ◌++◌, Option, none, some, ltb,
  if◌then◌else◌, Bool-cases, inl, inr, All, ◌==◌, arith,
}
use an_app.Action.{ok}
use an_app.Device.{NetCalls}
use an_app.Device.Addresses.{get_interface_config4, get_interface_config6, make_config, increment}
use an_app.Device.Windows.Addresses.{
  Answers, Orderly, set_interface_address, try_ipv4, set_interface_address_for, go_on, set_gateway,
  set_ip_addresses, set_dns, inet, set_interface_address-Orderly,
}
use an_app.Script.{Sys, run}
use an_app.Device.Windows.Filters.{Verdict, permit, block, Filter, free_after, FwpCall, config_fwp}
use an_app.Device.Windows.Filters.Verdicts.{
  Connection, matches, added, IsArbiter, config_fwp_blocks_dns,
}
use an_app.Device.Windows.Entries.{RouteCalls, add_route_entry, collect}
use an_app.Device.Windows.Entries.Exact.{requested, entries_once}
use an_app.Device.Windows.Session.{
  Platform, Settings, Adapter, init_gateway, rounds, round, config_filters, close_session, close,
}
use an_app.Device.Windows.Session.Engines.{engines_follow_the_flag}

abbrev stronger : Filter → Option Filter → Option Filter
stronger f none = some f
stronger f (some g) = if ltb f.weight g.weight then some g else some f

abbrev best : List Filter → Connection → Option Filter
best [] c = none
best (f ∷ fs) c = let rest = best fs c in if matches f c then stronger f rest else rest

abbrev verdict : Option Filter → Verdict
verdict none = permit
verdict (some f) = f.action

abbrev by_weight : List Filter → Connection → Verdict
by_weight fs c = verdict (best fs c)

-- Only weaker filters.
abbrev Below : ℕ → Option Filter → Type 0
Below k none = Unit {0}
Below k (some g) = g.weight < k

stronger-Below :
    (k : ℕ) (f : Filter) (g : Option Filter) → f.weight < k → Below k g → Below k (stronger f g)
stronger-Below k f none h b = h
stronger-Below k f (some g) h b = elim (Bool-cases (ltb f.weight g.weight)) [
  | inl lighter ↦ rw lighter b
  | inr heavier ↦ rw heavier h
]

best-Below :
    (k : ℕ) (fs : List Filter) (c : Connection)
    → All (λ g. matches g c ≡ true → g.weight < k) fs
    → Below k (best fs c)
best-Below k [] c h = tt
best-Below k (f ∷ fs) c (h, hs) = elim (Bool-cases (matches f c)) [
  | inl hit ↦ rw hit (stronger-Below k f (best fs c) (h hit) (best-Below k fs c hs))
  | inr miss ↦ rw miss (best-Below k fs c hs)
]

stronger-wins : (f : Filter) (g : Option Filter) → Below f.weight g → stronger f g ≡ some f
stronger-wins f none b = refl
stronger-wins f (some g) b = ground (arith, b)

stronger-loses : (g f : Filter) → g.weight < f.weight → stronger g (some f) ≡ some f
stronger-loses g f h = ground (arith, h)

best-winner :
    (front rest : List Filter) (f : Filter) (c : Connection)
    → matches f c ≡ true
    → All (λ g. matches g c ≡ true → g.weight < f.weight) (front ++ rest)
    → best (front ++ (f ∷ rest)) c ≡ some f
best-winner [] rest f c hit h =
    rw hit (stronger-wins f (best rest c) (best-Below f.weight rest c h))
best-winner (g ∷ front) rest f c hit (h, hs) = elim (Bool-cases (matches g c)) [
  | inl also ↦ rw (also, best-winner front rest f c hit hs) (stronger-loses g f (h also))
  | inr miss ↦ rw miss (best-winner front rest f c hit hs)
]

best-nobody :
    (fs : List Filter) (c : Connection) → All (λ g. matches g c ≡ false) fs → best fs c ≡ none
best-nobody [] c h = refl
best-nobody (f ∷ fs) c (h, hs) = rw h (best-nobody fs c hs)

by_weight-IsArbiter : IsArbiter by_weight
by_weight-IsArbiter = record {
  winner = λ front rest f c hit h. ap verdict (best-winner front rest f c hit h);
  nobody = λ fs c h. ap verdict (best-nobody fs c h);
}

-- Every call works.
abbrev fwp : Sys ℕ FwpCall ℕ
fwp w c = (none, w + 1)

config_fwp_blocks_dns_example :
    by_weight
      (added (config_fwp fwp "anApp" 7 4 0).calls)
      (record { app = 8; local_interface = 2; remote_port = 53 })
    ≡ block
unfolding config_fwp free_after run
config_fwp_blocks_dns_example =
    config_fwp_blocks_dns fwp by_weight by_weight-IsArbiter "anApp" 7 4 0
      (record { app = 8; local_interface = 2; remote_port = 53 }) refl

-- Prefixes are their texts.
abbrev net : RouteCalls ℕ String ℕ
net = record {
  parse_prefix = λ s. some s;
  same = λ p q. str_eq p q;
  add_route = λ w r. (none, w + 1);
  in_map_order = λ w keys. keys;
}

entries_once_run :
    requested net "0.0.0.0/0"
      (add_route_entry net "0.0.0.0" ("10.0.0.0/8" ∷ "0.0.0.0/0" ∷ "0.0.0.0/0" ∷ []) 0).calls
    ≡ 1
unfolding add_route_entry collect run
entries_once_run =
    entries_once net (λ p q. (eq_iff p q).0) (λ w keys p. refl) "0.0.0.0"
      ("10.0.0.0/8" ∷ "0.0.0.0/0" ∷ "0.0.0.0/0" ∷ []) 0 refl "0.0.0.0/0"

-- The engine's handle is one more than the calls so far.
abbrev platform : Platform ℕ String ℕ
platform = record {
  set_ip_addresses = λ s w. (none, w + 1);
  routes = net;
  set_dns = λ a b w. (none, w + 1);
  fwp = fwp;
  new_engine = λ w. w + 1;
  app_id = λ w. 7;
  if_index = λ w. 4;
  close_engine = λ e w. w + 1;
  close_tun = λ w. (none, w + 1);
}

abbrev settings : Settings
settings = record { name = "anApp"; tun_ip = "10.0.0.2/24"; dns1 = "10.0.0.3"; dns2 = "10.0.0.4" }

abbrev fresh : Adapter ℕ
fresh = record {
  fwpm_session = 0;
  enable_enforce_dns = false;
  world = 0;
  engines = [];
  dns_calls = 0;
}

abbrev begun : Adapter ℕ
begun = record fresh { world = 2 }

abbrev switched : Adapter ℕ
switched = record {
  fwpm_session = 3;
  enable_enforce_dns = true;
  world = 11;
  engines = 3 ∷ [];
  dns_calls = 0;
}

handle : (w : ℕ) → (w + 1 == 0) ≡ false
handle w = ground arith

-- DNS is enforced at run time, and the TUN has no DNS server.
engines_follow_the_flag_example :
    (true ≡ true)
    × (switched.engines ≡ 3 ∷ [])
    × ((close platform settings switched).1.engines ≡ [])
    × (switched.dns_calls ≡ 0)
unfolding init_gateway rounds round config_filters config_fwp free_after run close_session
    add_route_entry collect
engines_follow_the_flag_example =
    engines_follow_the_flag platform handle settings (true ∷ []) fresh begun switched (refl, refl)
      refl refl

-- Every text is the network 10.0.0.0, and the address is there already.
abbrev net_calls : NetCalls
net_calls = record {
  parse_cidr = λ s. some (10 ∷ 0 ∷ 0 ∷ 2 ∷ [], record { ip = 10 ∷ 0 ∷ 0 ∷ 0 ∷ []; mask = [] });
  to4 = λ ip. ip;
  to16 = λ ip. ip;
}

abbrev answers : Answers String String ℕ
answers = record {
  parse_prefix = λ s. some s;
  parse_addr = λ s. some s;
  first = some 5010;
  second = none;
  dns = none;
  already_exists = λ e. e == 5010;
}

address_run :
    Orderly answers (set_interface_address answers net_calls (λ ip. "10.0.0.1") "10.0.0.2/24")
address_run = set_interface_address-Orderly answers net_calls (λ ip. "10.0.0.1") "10.0.0.2/24"

retry_run : set_interface_address answers net_calls (λ ip. "10.0.0.1") "10.0.0.2/24" ≡ (
  ok tt,
  set_dns inet "10.0.0.1" none
      ∷ set_ip_addresses inet "10.0.0.2/24" none
      ∷ set_ip_addresses inet "10.0.0.2/24" (some 5010)
      ∷ [],
)
unfolding set_interface_address get_interface_config4 get_interface_config6 make_config increment
    try_ipv4 set_interface_address_for go_on set_gateway
retry_run = refl
