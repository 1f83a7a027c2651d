-- ===== src/Device/Linux/Policy/Config.antt =====
-- Where the machine's packets go after Config of device/device_linux.go.
use Prim.Native.String.{String}
use an_app.Base.{
  ℕ, ◌≤◌, ◌≡◌, ◌≢◌, ◌⊎◌, inl, inr, refl, sym, subst, ap, ◌∙◌, Bool, true, List, [], ◌∷◌, Option,
  none, some, Option-cases, All, arith, if◌then◌else◌, ◌==◌,
}
use an_app.Base.Int.{pos, negsuc}
use an_app.Action.{Result}
use an_app.Net.{Ip, IpNet}
use an_app.Routes.{CustomRoute}
use an_app.Device.Linux.{
  Rule, Netlink, Device, refused, main_rule, icmp_rule, tun_rule, source_rule, config, ipproto_icmp,
}
use an_app.Device.Linux.Rules.{In, IsAdding}
use an_app.Device.Linux.Policy.{
  Packet, Found, yields, from_source, unless_suppressed, IsPolicyRouting, IsNewRule, meant,
}
use an_app.Device.Linux.Policy.Stages.{Stage, Leads, config_rules}
use an_app.Device.Linux.Policy.Running.{config-At}

-- The first rule's link, or what comes after it.
abbrev pick : Option ℕ → ℕ → ℕ
pick none other = other
pick (some link) other = link

of_In : (P : Rule → Type 0) (rules : List Rule) (s : Rule) → All P rules → In s rules → P s
of_In P [] s h i = absurd i
of_In P (r ∷ rules) s h (inl e) = subst P (sym e) h.0
of_In P (r ∷ rules) s h (inr i) = of_In P rules s h.1 i

module _ (contains : IpNet → Ip → Bool) (p : Packet) (lookup : ℕ → Found) (r : Rule)
    (new : IsNewRule r) where
  yields_from :
      (n t : ℕ) (src : Option IpNet)
      → yields contains lookup (record r { priority = n; table = t; src = src }) p
        ≡ (if from_source contains src p.src then unless_suppressed (negsuc 0) (lookup t) else none)
  unfolding yields
  yields_from n t src = rw (new.any_protocol, new.no_limit) (ground arith)

  yields_limited :
      (n t : ℕ)
      → yields contains lookup (record r { priority = n; table = t; suppress_prefixlen = pos 0 }) p
        ≡ unless_suppressed (pos 0) (lookup t)
  unfolding yields
  yields_limited n t = rw (new.any_protocol, new.no_source) refl

  yields_icmp :
      (n t : ℕ)
      → yields contains lookup (record r { priority = n; table = t; ip_proto = ipproto_icmp }) p
        ≡ (if p.protocol == ipproto_icmp then unless_suppressed (negsuc 0) (lookup t) else none)
  unfolding yields
  yields_icmp n t = rw (new.no_source, new.no_limit) (ground arith)

  yields_any :
      (n t : ℕ)
      → yields contains lookup (record r { priority = n; table = t }) p
        ≡ unless_suppressed (negsuc 0) (lookup t)
  unfolding yields
  yields_any n t = rw (new.any_protocol, new.no_source, new.no_limit) refl

-- The rules in the order of their priorities mean what is meant.
pick-meant :
    (main : Found) (from_default : Bool) (protocol tun : ℕ)
    → pick (if from_default then unless_suppressed (negsuc 0) main else none) (
        pick
          (unless_suppressed (pos 0) main)
          (pick (if protocol == ipproto_icmp then unless_suppressed (negsuc 0) main else none) tun))
      ≡ meant main from_default protocol tun
pick-meant none from_default protocol tun = ground arith
pick-meant (some (len, link)) from_default protocol tun = ground arith

module _ {K : Type 0} (contains : IpNet → Ip → Bool) (net : Netlink K) (has : K → Rule → Type 0)
    (tables : K → Packet → ℕ → Found) (decide : K → Packet → Option ℕ)
    (rule_laws : IsAdding net has) (laws : IsPolicyRouting contains net has tables decide)
    (start : K) (p : Packet) where
  -- The kernel's own rules that come before those of Config have nothing for the packet.
  abbrev pub Quiet : List Rule → Type 0
  Quiet rules =
      (s : Rule)
      → has start s
      → s.priority ≤ 202
      → In s rules ⊎ ((s.table ≢ 200) × (yields contains (tables start p) s p ≡ none))

  module _ (src : Option IpNet) (index : ℕ) (new : IsNewRule net.new_rule)
      (quiet : Quiet (config_rules net src)) (l : List Rule) (k : K)
      (stage : Stage contains net has tables decide rule_laws laws start p
        (Leads index)
        (config_rules net src)
        l
        k) where
    abbrev now : Rule → Option ℕ
    now s = yields contains (tables k p) s p

    -- A rule decides when those of Config that come before it have nothing.
    decides :
        (r : Rule) (link : ℕ)
        → has k r
        → r.priority ≤ 202
        → now r ≡ some link
        → All (λ s. s.priority ≤ r.priority → (s ≡ r) ⊎ (now s ≡ none)) (config_rules net src)
        → decide k p ≡ some link
    unfolding yields
    decides r link mine early gives clear =
        laws.first_yields k p r link mine gives (λ s there before.
          let listed = λ (i : In s (config_rules net src)).
            of_In (λ q. q.priority ≤ r.priority → (q ≡ r) ⊎ (now q ≡ none)) (config_rules net src) s
              clear i before in
          elim (stage.known s there) [
            | inr i ↦ listed i
            | inl old ↦ elim (quiet s old (omega (arith, before, early))) [
              | inl i ↦ listed i
              | inr (apart, nothing) ↦ inr (rw (stage.others s.table apart) nothing)
            ]
          ])

    -- The last two rules, when the first two have nothing.
    decides_late :
        now (source_rule net src) ≡ none
        → now (main_rule net) ≡ none
        → decide k p ≡ some (pick (now (icmp_rule net)) index)
    unfolding yields
    decides_late sn mn =
        let (main_held, (icmp_held, (tun_held, (source_held, _)))) = stage.held in
        elim (Option-cases (now (icmp_rule net))) [
          | inr (c, ic) ↦ rw ic (
              decides (icmp_rule net) c icmp_held (omega arith) ic (
                (λ _. inr mn),
                ((λ _. inl refl), ((λ h. absurd (omega (arith, h))), ((λ _. inr sn), tt))),
              ))
          | inl icmp_none ↦
              let (len, found) = stage.own in
              rw icmp_none (
                decides (tun_rule net) index tun_held (omega arith)
                  (yields_any contains p (tables k p) net.new_rule new 202 200 ∙ rw found refl)
                  ((λ _. inr mn), ((λ _. inr icmp_none), ((λ _. inl refl), ((λ _. inr sn), tt)))))
        ]

    decides_in_order :
        decide k p
        ≡ some (
            pick
              (now (source_rule net src))
              (pick (now (main_rule net)) (pick (now (icmp_rule net)) index)))
    decides_in_order =
        let (main_held, (icmp_held, (tun_held, (source_held, _)))) = stage.held in
        elim (Option-cases (now (source_rule net src))) [
          | inr (a, sa) ↦ rw sa (
              decides (source_rule net src) a source_held (omega arith) sa (
                (λ h. absurd (omega (arith, h))),
                (
                  (λ h. absurd (omega (arith, h))),
                  ((λ h. absurd (omega (arith, h))), ((λ _. inl refl), tt)),
                ),
              ))
          | inl sn ↦ elim (Option-cases (now (main_rule net))) [
            | inr (b, mb) ↦
                rw (sn, mb)
                  (decides (main_rule net) b main_held (omega arith) mb (
                    (λ _. inl refl),
                    (
                      (λ h. absurd (omega (arith, h))),
                      ((λ h. absurd (omega (arith, h))), ((λ _. inr sn), tt)),
                    ),
                  ))
            | inl mn ↦ rw (sn, mn) (decides_late sn mn)
          ]
        ]

    decides_as_meant :
        decide k p
        ≡ some (meant (tables start p 254) (from_source contains src p.src) p.protocol index)
    decides_as_meant =
        let same : tables k p 254 ≡ tables start p 254 = stage.others 254 (omega arith) in
        let r = net.new_rule in
        decides_in_order
        ∙ ap some (
            rw
              (
                yields_from contains p (tables k p) r new 150 254 src,
                yields_limited contains p (tables k p) r new 200 254,
                yields_icmp contains p (tables k p) r new 201 254,
                same,
              )
              (pick-meant (tables start p 254) (from_source contains src p.src) p.protocol index))

  -- When the kernel takes every rule of Config or has it already, its link is found and RouteAdd takes
  -- the default route of table 200, which was empty: Config succeeds, and every packet then goes where
  -- it is meant to, by what the main table has for it. A route longer than the default one, an ICMP
  -- packet and one from the default address keep the main table's link, and all else enters the TUN
  -- device. A source that is nil counts as the address of every packet. The kernel's own rules of no
  -- later priority are those of Config or have nothing for the packet, and do not look in table 200.
  pub config_sends_as_meant :
      (tun_name : String) (index : ℕ) (n : IpNet) (route : CustomRoute)
      (source_net : CustomRoute → Option IpNet) (enforce_dns has_resolvectl : Bool) (dns1 : String)
      (d : Device K)
      → d.kernel ≡ start
      → IsNewRule net.new_rule
      → ((k : K) (r : Rule) → refused (net.rule_add k r).0 ≡ none)
      → ((k : K) → net.link_by_name k tun_name ≡ (none, index))
      → ((k : K) → (net.route_add k index (some n) 200).0 ≡ none)
      → contains n p.dst ≡ true
      → tables start p 200 ≡ none
      → Quiet (config_rules net (source_net route))
      → let (out, end) =
          config net tun_name (some n) (some route) source_net enforce_dns has_resolvectl dns1 d in
        (out ≡ Result.ok tt)
        × (decide end.kernel p
            ≡ some (
                meant
                  (tables start p 254)
                  (from_source contains (source_net route) p.src)
                  p.protocol
                  index))
  config_sends_as_meant tun_name index n route source_net enforce_dns has_resolvectl dns1 d same new
        accepts finds takes inside empty quiet =
      let (works, stage) =
        config-At contains net has tables decide rule_laws laws start p index tun_name accepts finds
          n takes inside route source_net enforce_dns has_resolvectl dns1 d
          (rw same (record {
            listed = refl;
            held = tt;
            known = λ s a. inl a;
            others = λ t apart. refl;
            own = empty;
          })) in
      (works, decides_as_meant (source_net route) index new quiet _ _ stage)
