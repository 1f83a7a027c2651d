-- ===== src/Device/Linux/Policy.antt =====
-- What Linux documents of policy routing (ip-rule(8)), which the rules that Config of
-- device/device_linux.go adds address. The kernel's tables and its decision are parameters of a
-- contract; a lookup in a table answers the length of the prefix that it has found and the link.
pub mod Stages
pub mod Running
pub mod Config
mod Tests
use an_app.Base.Int.{ℤ, pos, negsuc}
use an_app.Base.{
  ℕ, ◌≤◌, ◌≡◌, ◌≢◌, ◌⊎◌, Bool, true, false, ◌&&◌, ◌||◌, List, Option, none, some, if◌then◌else◌,
  ltb, leb, ◌==◌,
}
use an_app.Net.{Ip, IpNet}
use an_app.Device.Linux.{Rule, Errno, eexist, Netlink, ipproto_icmp}

pub record Packet : Type 0 where
  pub src : Ip
  pub dst : Ip
  pub protocol : ℕ

-- A route of a table: the length of its prefix, and its link.
abbrev pub Found : Type 0
Found = Option (ℕ × ℕ)

-- A rule without a source, or with the protocol 0, does not ask for one.
abbrev pub from_source : (IpNet → Ip → Bool) → Option IpNet → Ip → Bool
from_source contains none ip = true
from_source contains (some n) ip = contains n ip

abbrev pub matches : (IpNet → Ip → Bool) → Rule → Packet → Bool
matches contains r p =
    from_source contains r.src p.src && (r.ip_proto == 0 || r.ip_proto == p.protocol)

-- suppress_prefixlength rejects what is at most that long; -1 rejects nothing.
abbrev pub suppresses : ℤ → ℕ → Bool
suppresses (pos n) len = leb len n
suppresses (negsuc n) len = false

abbrev pub unless_suppressed : ℤ → Found → Option ℕ
unless_suppressed limit none = none
unless_suppressed limit (some (len, link)) = if suppresses limit len then none else some link

-- What a rule makes of a packet, with the kernel's tables.
unfoldable pub yields : (IpNet → Ip → Bool) → (ℕ → Found) → Rule → Packet → Option ℕ
yields contains lookup r p =
    if matches contains r p then unless_suppressed r.suppress_prefixlen (lookup r.table) else none

-- The contract. `tables k p t` is what table t holds for the packet. The first rule by priority
-- that yields a link decides, where rules that tie with it yield nothing; a rule that is there already
-- is EEXIST; rules do not change tables, and a route changes its own table only, in which it is found if
-- nothing else is.
pub record IsPolicyRouting {K : Type 0} (contains : IpNet → Ip → Bool) (net : Netlink K)
    (has : K → Rule → Type 0) (tables : K → Packet → ℕ → Found) (decide : K → Packet → Option ℕ)
    : Type 0 where
  pub first_yields :
      (k : K) (p : Packet) (r : Rule) (link : ℕ)
      → has k r
      → yields contains (tables k p) r p ≡ some link
      → ((s : Rule)
          → has k s
          → s.priority ≤ r.priority
          → (s ≡ r) ⊎ (yields contains (tables k p) s p ≡ none))
      → decide k p ≡ some link
  pub exists : (k : K) (r : Rule) → (net.rule_add k r).0 ≡ some eexist → has k r
  pub rules_keep_tables :
      (k : K) (r : Rule) (p : Packet) (t : ℕ) → tables (net.rule_add k r).1 p t ≡ tables k p t
  pub routes_keep_others :
      (k : K) (index : ℕ) (n : Option IpNet) (t u : ℕ) (p : Packet)
      → u ≢ t
      → tables (net.route_add k index n t).1 p u ≡ tables k p u
  pub route_found :
      (k : K) (index : ℕ) (n : IpNet) (t : ℕ) (p : Packet)
      → (net.route_add k index (some n) t).0 ≡ none
      → contains n p.dst ≡ true
      → tables k p t ≡ none
      → (len : ℕ) × (tables (net.route_add k index (some n) t).1 p t ≡ some (len, index))

-- netlink.NewRule: no source, no protocol, nothing suppressed.
pub record IsNewRule (r : Rule) : Type 0 where
  pub no_source : r.src ≡ none
  pub any_protocol : r.ip_proto ≡ 0
  pub no_limit : r.suppress_prefixlen ≡ negsuc 0

-- Where the machine's packets are meant to go, from what the main table has for them: its own route if
-- that is more than a default route, if the packet is ICMP, or if it comes from the address of the
-- default interface; otherwise the TUN device.
abbrev pub meant : Found → Bool → ℕ → ℕ → ℕ
meant none from_default protocol tun = tun
meant (some (len, link)) from_default protocol tun =
    if from_default || ltb 0 len || protocol == ipproto_icmp then link else tun
