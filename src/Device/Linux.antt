-- ===== src/Device/Linux.antt =====
-- device/device_linux.go, Config and Close, and device/device_dns_linux.go: the policy rules that send
-- the machine's traffic into the TUN device. The kernel behind netlink is a parameter. The device's
-- list holds pointers to rules; the rule for the source address, the fourth, is the one that the
-- goroutine of Config changes in place. The route's IP as a "/32" network, and ParseCIDR of
-- "0.0.0.0/0", are arguments, nil when their parsing fails. The commands of resolvectl are a trace;
-- their errors are dropped. After its goroutine has started, Config tests err once more; that test is
-- left out, since err is still the answer of RuleAdd that was accepted, unless the goroutine, which
-- writes the same variable, has been woken in between.
pub mod Rules
pub mod Closing
pub mod Success
pub mod Monitor
pub mod Ioctl
pub mod Tun
pub mod Watch
pub mod Policy
mod Tests
use Prim.Native.String.{String}
use an_app.Base.Int.{ℤ, pos}
use an_app.Base.{
  ℕ, Bool, true, false, List, [], ◌∷◌, ◌++◌, Option, none, some, if◌then◌else◌, modify,
}
use an_app.Action.{Result, Action, pure, fail, gets, change, fail_if, or_panic, ◌>>=◌, ◌>>◌}
use an_app.Net.{IpNet}
use an_app.Routes.{CustomRoute}

-- The fields of netlink.Rule that the program sets; `new_rule` below is netlink.NewRule.
pub record Rule : Type 0 where
  pub priority : ℕ
  pub table : ℕ
  pub suppress_prefixlen : ℤ
  pub ip_proto : ℕ
  pub src : Option IpNet

pub data Errno : Type 0 where
  eexist : Errno
  other : ℕ → Errno

-- netlink on a kernel state K; link_by_name answers the index of the link.
pub record Netlink (K : Type 0) : Type 0 where
  pub new_rule : Rule
  pub rule_add : K → Rule → Option Errno × K
  pub rule_del : K → Rule → Option Errno × K
  pub route_add : K → ℕ → Option IpNet → ℕ → Option Errno × K
  pub link_by_name : K → String → Option Errno × ℕ

abbrev pub ipproto_icmp : ℕ
ipproto_icmp = 1

-- resolvectl with its arguments.
pub data Command : Type 0 where
  domain : String → String → Command
  default_route : String → String → Command
  dns : String → String → Command
  revert : String → Command

-- The device, and the two goroutines that Config may start.
pub record Device (K : Type 0) : Type 0 where
  pub name : String
  pub rule_list : List Rule
  pub kernel : K
  pub commands : List Command
  pub updates_source : Bool
  pub monitors_dns : Bool
  pub tun_closed : Bool

-- err != nil && err != unix.EEXIST
unfoldable pub refused : Option Errno → Option Errno
refused none = none
refused (some eexist) = none
refused (some (other n)) = some (other n)

-- setDns, when resolvectl is found.
unfoldable pub set_dns : {K : Type 0} → Bool → String → Device K → Device K
set_dns found server d =
    if found
    then record d {
      commands =
          d.commands ++ (domain d.name "~." ∷ default_route d.name "true" ∷ dns d.name server ∷ []);
    }
    else d

module _ {K : Type 0} (net : Netlink K) where
  -- RuleAdd and the append to ruleList.
  unfoldable pub add_rule : Rule → Action (Device K) Errno (Unit {0})
  add_rule rule d =
      let (e, kernel) = net.rule_add d.kernel rule in
      elim (refused e) [
        | some x ↦ (Result.err x, record d { kernel = kernel })
        | none ↦
            (Result.ok tt, record d { kernel = kernel; rule_list = d.rule_list ++ (rule ∷ []) })
      ]

  unfoldable pub find_link : String → Action (Device K) Errno ℕ
  find_link name d =
      let (e, index) = net.link_by_name d.kernel name in
      elim e [ some x ↦ (Result.err x, d) | none ↦ (Result.ok index, d) ]

  -- RouteAdd, whose error is overwritten before it is read.
  unfoldable pub add_default_route : ℕ → Option IpNet → Action (Device K) Errno (Unit {0})
  add_default_route index everything d =
      (Result.ok tt, record d { kernel = (net.route_add d.kernel index everything 200).1 })

  abbrev pub main_rule : Rule
  main_rule = record net.new_rule { priority = 200; table = 254; suppress_prefixlen = pos 0 }

  abbrev pub icmp_rule : Rule
  icmp_rule = record net.new_rule { priority = 201; table = 254; ip_proto = ipproto_icmp }

  abbrev pub tun_rule : Rule
  tun_rule = record net.new_rule { priority = 202; table = 200 }

  abbrev pub source_rule : Option IpNet → Rule
  source_rule src = record net.new_rule { priority = 150; table = 254; src = src }

  -- What Config knows of the rest of the program: the name of the TUN device, "0.0.0.0/0" parsed, the
  -- route of FindContainRoute (nil when its loop met a nil), a route's IP as a network, whether DNS is
  -- enforced, whether resolvectl is found, and the first DNS server.
  module _ (tun_name : String) (everything : Option IpNet) (route : Option CustomRoute)
      (source_net : CustomRoute → Option IpNet) (enforce_dns : Bool) (has_resolvectl : Bool)
      (dns1 : String) where
    unfoldable pub start_monitor : Device K → Device K
    start_monitor d =
        if enforce_dns then record (set_dns has_resolvectl dns1 d) { monitors_dns = true } else d

    unfoldable pub config : Action (Device K) Errno (Unit {0})
    config = do
      change (λ d. record d { rule_list = [] })
      add_rule main_rule
      add_rule icmp_rule
      add_rule tun_rule
      index ← find_link tun_name
      add_default_route index everything
      r ← or_panic route
      add_rule (source_rule (source_net r))
      change (λ d. record d { updates_source = true })
      change start_monitor

  -- One round of the goroutine that Config starts; the route is the one that Config found, and the
  -- rule is that of the list. Errors are logged only.
  unfoldable pub update_source :
      (CustomRoute → Option IpNet) → CustomRoute → Rule → Device K → Device K
  update_source source_net route old d =
      let rule : Rule = record old { src = source_net route } in
      let kernel = (net.rule_add (net.rule_del d.kernel old).1 rule).1 in
      record d { kernel = kernel; rule_list = modify d.rule_list 3 (λ _. rule) }

  -- The loop of Close, and the TUN device; errors of RuleDel are dropped.
  unfoldable pub delete_rules : List Rule → K → K
  delete_rules [] k = k
  delete_rules (rule ∷ rules) k = delete_rules rules (net.rule_del k rule).1

  unfoldable pub close : Device K → Device K
  close d = record d { kernel = delete_rules d.rule_list d.kernel; tun_closed = true }
