-- ===== src/Device/Linux/Success.antt =====
-- When Config succeeds.
use Prim.Native.String.{String}
use an_app.Base.{ℕ, ◌≡◌, refl, ap, ◌∙◌, Bool, true, List, [], ◌∷◌, ◌++◌, Option, none, some, arith}
use an_app.Action.{Worked, ◌>=>◌, Result, change, or_panic}
use an_app.Net.{IpNet}
use an_app.Routes.{CustomRoute}
use an_app.Device.Linux.{
  Rule, Errno, Netlink, Device, refused, add_rule, find_link, add_default_route, main_rule,
  icmp_rule, tun_rule, source_rule, set_dns, start_monitor, config,
}

module _ {K : Type 0} (net : Netlink K) (index : ℕ) (tun_name : String)
    (accepts : (k : K) (r : Rule) → refused (net.rule_add k r).0 ≡ none)
    (finds : (k : K) → net.link_by_name k tun_name ≡ (none, index)) where
  -- The device's list.
  Lists : List Rule → Device K → Type 0
  Lists rules d = d.rule_list ≡ rules

  adds :
      (rule : Rule) (rules : List Rule)
      → Worked {W = Device K} Errno (Lists rules) (Unit {0}) (λ _. Lists (rules ++ (rule ∷ [])))
  unfolding Lists add_rule
  adds rule rules = (
    add_rule net rule,
    λ d h. (
      tt,
      record d { kernel = (net.rule_add d.kernel rule).1; rule_list = d.rule_list ++ (rule ∷ []) },
      rw (accepts d.kernel rule, add_rule),
      ap (λ l. l ++ (rule ∷ [])) h,
    ),
  )

  links : (rules : List Rule) → Worked {W = Device K} Errno (Lists rules) ℕ (λ _. Lists rules)
  unfolding find_link
  links rules =
      (find_link net tun_name, λ d h. (index, d, rw (finds d.kernel, find_link, finds d.kernel), h))

  routes :
      (rules : List Rule) (i : ℕ) (everything : Option IpNet)
      → Worked {W = Device K} Errno (Lists rules) (Unit {0}) (λ _. Lists rules)
  unfolding Lists add_default_route
  routes rules i everything = (
    add_default_route net i everything,
    λ d h. (tt, record d { kernel = (net.route_add d.kernel i everything 200).1 }, refl, h),
  )

  marks :
      (rules : List Rule) → Worked {W = Device K} Errno (Lists rules) (Unit {0}) (λ _. Lists rules)
  unfolding Lists
  marks rules = (
    change (λ d. record d { updates_source = true }),
    λ d h. (tt, record d { updates_source = true }, refl, h),
  )

  module _ (everything : Option IpNet) (route : CustomRoute)
      (source_net : CustomRoute → Option IpNet) (enforce_dns : Bool) (has_resolvectl : Bool)
      (dns1 : String) where
    monitor-list :
        (d : Device K)
        → (start_monitor net tun_name everything
            (some route)
            source_net
            enforce_dns
            has_resolvectl
            dns1
            d).rule_list
          ≡ d.rule_list
    unfolding start_monitor set_dns
    monitor-list d = ground arith

    monitors :
        (rules : List Rule)
        → Worked {W = Device K} Errno (Lists rules) (Unit {0}) (λ _. Lists rules)
    unfolding Lists
    monitors rules = (
      change (
          start_monitor net tun_name everything (some route) source_net enforce_dns has_resolvectl
            dns1),
      λ d h. (
        tt,
        start_monitor net tun_name everything (some route) source_net enforce_dns has_resolvectl
            dns1 d,
        refl,
        monitor-list d ∙ h,
      ),
    )

    gives_route :
        (rules : List Rule)
        → Worked {W = Device K} Errno (Lists rules) CustomRoute (λ r d. (r ≡ route) × Lists rules d)
    gives_route rules = (or_panic (some route), λ d h. (route, d, refl, (refl, h)))

    adds_source :
        (rules : List Rule) (r : CustomRoute)
        → Worked {W = Device K} Errno
            (λ d. (r ≡ route) × Lists rules d)
            (Unit {0})
            (λ _. Lists (rules ++ (source_rule net (source_net route) ∷ [])))
    unfolding add_rule adds
    adds_source rules r = (
      add_rule net (source_rule net (source_net r)),
      λ d h. rw (h.0) ((adds (source_rule net (source_net route)) rules).1 d h.1),
    )

    whole : Worked {W = Device K} Errno (Lists []) (Unit {0}) (λ _.
        Lists
          (main_rule net ∷ icmp_rule net ∷ tun_rule net ∷ source_rule net (source_net route) ∷ []))
    whole = adds (main_rule net) [] >=> λ _. adds (icmp_rule net) (main_rule net ∷ []) >=> λ _.
        adds (tun_rule net) (main_rule net ∷ icmp_rule net ∷ []) >=> λ _.
        links (main_rule net ∷ icmp_rule net ∷ tun_rule net ∷ []) >=> λ i.
        routes (main_rule net ∷ icmp_rule net ∷ tun_rule net ∷ []) i everything >=> λ _.
        gives_route (main_rule net ∷ icmp_rule net ∷ tun_rule net ∷ []) >=> λ r.
        adds_source (main_rule net ∷ icmp_rule net ∷ tun_rule net ∷ []) r >=> λ _.
        marks
          (main_rule net ∷ icmp_rule net ∷ tun_rule net ∷ source_rule net (source_net route) ∷ [])
        >=> λ _.
            monitors (
              main_rule net
              ∷ icmp_rule net
              ∷ tun_rule net
              ∷ source_rule net (source_net route)
              ∷ [])

    -- When the kernel takes every rule or has it already, and the link is found, Config succeeds with
    -- its four rules on the device's list, whatever RouteAdd answers: a default route that could not
    -- be added is not noticed.
    pub config_succeeds :
        (d : Device K)
        → let (out, end) =
            config net tun_name everything
              (some route)
              source_net
              enforce_dns
              has_resolvectl
              dns1
              d in
          (out ≡ Result.ok tt)
          × (end.rule_list
              ≡ main_rule net
                ∷ icmp_rule net
                ∷ tun_rule net
                ∷ source_rule net (source_net route)
                ∷ [])
    unfolding config whole adds links routes marks monitors gives_route adds_source Lists
    config_succeeds d =
        let (a, w, e, listed) = whole.1 (record d { rule_list = [] }) refl in
        (ap (λ r. r.0) e, ap (λ r. r.1.rule_list) e ∙ listed)
