-- ===== src/Device/Linux/Policy/Tests.antt =====
-- A machine with one interface, number 2, whose address is 10.0.0.4.
use an_app.Base.Int.{negsuc}
use an_app.Base.{
  ℕ, ◌<◌, ◌≤◌, ◌≡◌, ◌≢◌, ◌⊎◌, ◌↔◌, inl, inr, refl, sym, ap, Bool, true, false, Bool-cases,
  Option-cases, ◌&&◌, ◌||◌, List, [], ◌∷◌, Option, none, some, if◌then◌else◌, leb, ◌==◌, arith,
}
use an_app.Action.{Result}
use an_app.Net.{Ip, IpNet}
use an_app.Routes.{CustomRoute}
use an_app.Device.Linux.{Rule, Errno, other, Netlink, Device, refused, config}
use an_app.Device.Linux.Rules.{In, IsAdding}
use an_app.Device.Linux.Policy.{Packet, Found, yields, IsPolicyRouting}
use an_app.Device.Linux.Policy.Stages.{config_rules}
use an_app.Device.Linux.Policy.Config.{config_sends_as_meant, Quiet}

-- The kernel: its rules, and the link of table 200.
abbrev Machine : Type 0
Machine = List Rule × Option ℕ

-- A mask of whole bytes.
abbrev covers : List ℕ → List ℕ → List ℕ → Bool
covers [] net4 dest = true
covers (m ∷ ms) [] dest = true
covers (m ∷ ms) (n ∷ ns) [] = false
covers (m ∷ ms) (n ∷ ns) (d ∷ ds) = (m == 0 || n == d) && covers ms ns ds

abbrev contains : IpNet → Ip → Bool
contains n ip = covers n.mask n.ip ip

abbrev local_net : IpNet
local_net = record { ip = 10 ∷ 0 ∷ 0 ∷ 0 ∷ []; mask = 255 ∷ 255 ∷ 255 ∷ 0 ∷ [] }

abbrev main_table : Packet → Found
main_table p = if contains local_net p.dst then some (24, 2) else some (0, 2)

abbrev own_table : Option ℕ → Found
own_table none = none
own_table (some i) = some (0, i)

abbrev tables : Machine → Packet → ℕ → Found
tables k p t = if t == 200 then own_table k.1 else if t == 254 then main_table p else none

abbrev better : Option ℕ → ℕ → Option (ℕ × ℕ) → Option (ℕ × ℕ)
better none n b = b
better (some link) n none = some (n, link)
better (some link) n (some (m, link')) = if leb n m then some (n, link) else some (m, link')

abbrev best : (Rule → Option ℕ) → List Rule → Option (ℕ × ℕ)
best f [] = none
best f (s ∷ rules) = better (f s) s.priority (best f rules)

abbrev link_of : Option (ℕ × ℕ) → Option ℕ
link_of none = none
link_of (some (n, link)) = some link

abbrev decide : Machine → Packet → Option ℕ
decide k p = link_of (best (λ s. yields contains (tables k p) s p) k.0)

abbrev plain : Rule
plain = record { priority = 0; table = 0; suppress_prefixlen = negsuc 0; ip_proto = 0; src = none }

abbrev route_into : Machine → ℕ → ℕ → Option Errno × Machine
route_into k index t = if t == 200 then (none, (k.0, some index)) else (some (other 1), k)

abbrev netlink : Netlink Machine
netlink = record {
  new_rule = plain;
  rule_add = λ k r. (none, (r ∷ k.0, k.1));
  rule_del = λ k r. (some (other 2), k);
  route_add = λ k index n t. route_into k index t;
  link_by_name = λ k name. (none, 7);
}

abbrev Has : Machine → Rule → Type 0
Has k s = In s k.0

module _ (q link : ℕ) where
  -- A candidate that is the rule's own, or later.
  abbrev Later : ℕ → ℕ → Type 0
  Later n l = ((n ≡ q) × (l ≡ link)) ⊎ (q < n)

  abbrev Clear : Option ℕ → ℕ → Type 0
  Clear none n = Unit
  Clear (some l) n = Later n l

  abbrev Fine : Option (ℕ × ℕ) → Type 0
  Fine none = Unit
  Fine (some (n, l)) = Later n l

  better-Fine :
      (o : Option ℕ) (n : ℕ) (b : Option (ℕ × ℕ)) → Clear o n → Fine b → Fine (better o n b)
  better-Fine none n b c h = h
  better-Fine (some l) n none c h = c
  better-Fine (some l) n (some (m, l')) c h = elim (Bool-cases (leb n m)) [
    | inl e ↦ rw e c
    | inr e ↦ rw e h
  ]

  better_first : (b : Option (ℕ × ℕ)) → Fine b → better (some link) q b ≡ some (q, link)
  better_first none h = refl
  better_first (some (m, l')) (inl h) = ground (arith, h)
  better_first (some (m, l')) (inr h) = ground (arith, h)

  better_later : (o : Option ℕ) (n : ℕ) → Clear o n → better o n (some (q, link)) ≡ some (q, link)
  better_later none n c = refl
  better_later (some l) n (inl c) = ground (arith, c)
  better_later (some l) n (inr c) = ground (arith, c)

  module _ (f : Rule → Option ℕ) where
    best-Fine :
        (rules : List Rule)
        → ((s : Rule) → In s rules → Clear (f s) s.priority)
        → Fine (best f rules)
    best-Fine [] h = tt
    best-Fine (s ∷ rules) h =
        better-Fine (f s) s.priority (best f rules) (h s (inl refl))
          (best-Fine rules (λ t i. h t (inr i)))

    best_lem :
        (r : Rule) (rules : List Rule)
        → f r ≡ some link
        → r.priority ≡ q
        → ((s : Rule) → In s rules → Clear (f s) s.priority)
        → In r rules
        → best f rules ≡ some (q, link)
    best_lem r [] gives same h i = absurd i
    best_lem r (s ∷ rules) gives same h (inl e) =
        rw (sym e, gives, same) (better_first (best f rules) (best-Fine rules (λ t i. h t (inr i))))
    best_lem r (s ∷ rules) gives same h (inr i) =
        rw (best_lem r rules gives same (λ t j. h t (inr j)) i)
          (better_later (f s) s.priority (h s (inl refl)))

clear_lem :
    (k : Machine) (p : Packet) (r s : Rule) (link : ℕ)
    → yields contains (tables k p) r p ≡ some link
    → (s.priority ≤ r.priority → (s ≡ r) ⊎ (yields contains (tables k p) s p ≡ none))
    → Clear r.priority link (yields contains (tables k p) s p) s.priority
clear_lem k p r s link gives h = elim (Bool-cases (leb s.priority r.priority)) [
  | inl before ↦ elim (h (ground (arith, before))) [
    | inl same ↦ rw (same, gives) (inl (refl, refl))
    | inr nothing ↦ rw nothing tt
  ]
  | inr after ↦ elim (Option-cases (yields contains (tables k p) s p)) [
    | inl e ↦ rw e tt
    | inr (l, e) ↦ rw e (inr (ground (arith, after)))
  ]
]

others_kept :
    (k : Machine) (index t u : ℕ) (p : Packet)
    → u ≢ t
    → tables (route_into k index t).1 p u ≡ tables k p u
others_kept k index t u p apart = ground arith

route_found :
    (k : Machine) (index t : ℕ) (p : Packet)
    → (route_into k index t).0 ≡ none
    → tables (route_into k index t).1 p t ≡ some (0, index)
route_found k index t p taken = ground arith

netlink-IsPolicyRouting : IsPolicyRouting contains netlink Has tables decide
netlink-IsPolicyRouting = record {
  first_yields = λ k p r link mine gives h. ap link_of (
      best_lem r.priority link (λ s. yields contains (tables k p) s p) r k.0 gives refl
        (λ s i. clear_lem k p r s link gives (h s i)) mine);
  exists = λ k r e. cc e;
  rules_keep_tables = λ k r p t. refl;
  routes_keep_others = λ k index n t u p apart. others_kept k index t u p apart;
  route_found = λ k index n t p taken inside empty. (0, route_found k index t p taken);
}

routed_lem : (k : Machine) (index t : ℕ) (s : Rule) → Has (route_into k index t).1 s ↔ Has k s
routed_lem k index t s = elim (Bool-cases (t == 200)) [
  | inl e ↦ rw e ((λ a. a), (λ a. a))
  | inr e ↦ rw e ((λ a. a), (λ a. a))
]

accepts : refused none ≡ none
unfolding refused
accepts = refl

netlink-IsAdding : IsAdding netlink Has
netlink-IsAdding = record {
  added = λ k r s e. ((λ a. a), (λ a. a));
  not_added = λ k r s e. cc e;
  routed = λ k index n t s. routed_lem k index t s;
}

abbrev first_rule : Rule
first_rule = record plain { table = 255 }

abbrev last_rule : Rule
last_rule = record plain { priority = 32_766; table = 254 }

abbrev device : Device Machine
device = record {
  name = "anApp";
  rule_list = [];
  kernel = (first_rule ∷ last_rule ∷ [], none);
  commands = [];
  updates_source = false;
  monitors_dns = false;
  tun_closed = false;
}

abbrev route : CustomRoute
route = record {
  if_name = "eth0";
  subnet = none;
  ip = 10 ∷ 0 ∷ 0 ∷ 4 ∷ [];
  metric = 1;
  if_index = 2;
  bit_count = 0;
}

abbrev source_net : CustomRoute → Option IpNet
source_net r = some (record { ip = r.ip; mask = 255 ∷ 255 ∷ 255 ∷ 255 ∷ [] })

abbrev everything : IpNet
everything = record { ip = 0 ∷ 0 ∷ 0 ∷ 0 ∷ []; mask = 0 ∷ 0 ∷ 0 ∷ 0 ∷ [] }

-- A TCP packet of another address to the Internet.
abbrev packet : Packet
packet = record { src = 10 ∷ 0 ∷ 0 ∷ 9 ∷ []; dst = 93 ∷ 184 ∷ 216 ∷ 34 ∷ []; protocol = 6 }

quiet_lem :
    Quiet contains netlink Has tables decide netlink-IsAdding netlink-IsPolicyRouting device.kernel
      packet
      (config_rules netlink (source_net route))
unfolding yields
quiet_lem s (inl e) h = inr (rw e ((omega arith), refl))
quiet_lem s (inr (inl e)) h = absurd (omega (arith, rw e at h))
quiet_lem s (inr (inr i)) h = absurd i

-- It enters the TUN device, link 7.
config_sends_as_meant_example :
    let (out, end) =
      config netlink "anApp"
        (some everything)
        (some route)
        source_net
        false
        true
        "10.0.0.3"
        device in
    (out ≡ Result.ok tt) × (decide end.kernel packet ≡ some 7)
config_sends_as_meant_example =
    config_sends_as_meant contains netlink Has tables decide netlink-IsAdding
      netlink-IsPolicyRouting device.kernel packet "anApp" 7 everything route source_net false true
      "10.0.0.3" device refl (record { no_source = refl; any_protocol = refl; no_limit = refl })
      (λ k r. accepts) (λ k. refl) (λ k. refl) refl refl quiet_lem
