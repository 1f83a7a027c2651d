-- ===== src/Device/Linux/Policy/Running.antt =====
-- Config of device/device_linux.go through its stages, from the first rule to the last goroutine.
use Prim.Native.String.{String}
use an_app.Base.{
  ℕ, ◌≡◌, refl, sym, subst, ap, Bool, true, List, [], ◌∷◌, ◌++◌, Option, none, some, arith,
}
use an_app.Routes.{CustomRoute}
use an_app.Action.{Worked, ◌>=>◌, Result, change, or_panic}
use an_app.Net.{Ip, IpNet}
use an_app.Device.Linux.{
  Rule, Errno, Netlink, Device, refused, add_rule, find_link, add_default_route, main_rule,
  icmp_rule, tun_rule, source_rule, set_dns, start_monitor, config,
}
use an_app.Device.Linux.Rules.{IsAdding}
use an_app.Device.Linux.Policy.{Packet, Found, IsPolicyRouting}
use an_app.Device.Linux.Policy.Stages.{Stage, Leads, config_rules, add-Stage, route-Stage}

module _ {K : Type 0} (contains : IpNet → Ip → Bool) (net : Netlink K) (has : K → Rule → Type 0)
    (tables : K → Packet → ℕ → Found) (decide : K → Packet → Option ℕ)
    (rule_laws : IsAdding net has) (laws : IsPolicyRouting contains net has tables decide)
    (start : K) (p : Packet) where
  -- A device at a stage.
  abbrev pub At : (Found → Type 0) → List Rule → Device K → Type 0
  At T rules d =
      Stage contains net has tables decide rule_laws laws start p T rules d.rule_list d.kernel

  module _ (index : ℕ) (tun_name : String)
      (accepts : (k : K) (r : Rule) → refused (net.rule_add k r).0 ≡ none)
      (finds : (k : K) → net.link_by_name k tun_name ≡ (none, index)) (n : IpNet)
      (takes : (k : K) → (net.route_add k index (some n) 200).0 ≡ none)
      (inside : contains n p.dst ≡ true) where
    adds :
        (T : Found → Type 0) (rule : Rule) (rules : List Rule)
        → Worked {W = Device K} Errno (At T rules) (Unit {0}) (λ _. At T (rules ++ (rule ∷ [])))
    unfolding add_rule
    adds T rule rules = (
      add_rule net rule,
      λ d h. (
        tt,
        record d {
          kernel = (net.rule_add d.kernel rule).1;
          rule_list = d.rule_list ++ (rule ∷ []);
        },
        rw (accepts d.kernel rule, add_rule),
        add-Stage contains net has tables decide rule_laws laws start p T d.rule_list d.kernel rule
            rules (accepts d.kernel rule) h,
      ),
    )

    links :
        (T : Found → Type 0) (rules : List Rule)
        → Worked {W = Device K} Errno (At T rules) ℕ (λ i d. (i ≡ index) × At T rules d)
    unfolding find_link
    links T rules = (
      find_link net tun_name,
      λ d h. (index, d, rw (finds d.kernel, find_link, finds d.kernel), (refl, h)),
    )

    routes :
        (rules : List Rule) (i : ℕ)
        → Worked {W = Device K} Errno
            (λ d. (i ≡ index) × At (λ f. f ≡ none) rules d)
            (Unit {0})
            (λ _. At (Leads index) rules)
    unfolding add_default_route
    routes rules i = (
      add_default_route net i (some n),
      λ d h. (
        tt,
        record d { kernel = (net.route_add d.kernel i (some n) 200).1 },
        refl,
        rw (h.0) (
            route-Stage contains net has tables decide rule_laws laws start p rules d.rule_list
              d.kernel index n (takes d.kernel) inside h.1),
      ),
    )

    module _ (route : CustomRoute) (source_net : CustomRoute → Option IpNet) (enforce_dns : Bool)
        (has_resolvectl : Bool) (dns1 : String) where
      begin_monitor : Device K → Device K
      begin_monitor =
          start_monitor net tun_name (some n) (some route) source_net enforce_dns has_resolvectl
            dns1

      monitor_keeps :
          (d : Device K)
          → ((begin_monitor d).rule_list ≡ d.rule_list) × ((begin_monitor d).kernel ≡ d.kernel)
      unfolding begin_monitor start_monitor set_dns
      monitor_keeps d = ground arith

      monitors :
          Worked {W = Device K} Errno
            (At (Leads index) (config_rules net (source_net route)))
            (Unit {0})
            (λ _. At (Leads index) (config_rules net (source_net route)))
      monitors = (
        change begin_monitor,
        λ d h. (
          tt,
          begin_monitor d,
          refl,
          let (same_list, same_kernel) = monitor_keeps d in
              subst
                (λ l.
                  Stage contains net has tables decide rule_laws laws start p (Leads index)
                    (config_rules net (source_net route)) l (begin_monitor d).kernel)
                (sym same_list)
                (subst
                  (Stage contains net has tables decide rule_laws laws start p (Leads index)
                    (config_rules net (source_net route)) d.rule_list)
                  (sym same_kernel) h),
        ),
      )

      marks :
          Worked {W = Device K} Errno
            (At (Leads index) (config_rules net (source_net route)))
            (Unit {0})
            (λ _. At (Leads index) (config_rules net (source_net route)))
      marks = (
        change (λ d. record d { updates_source = true }),
        λ d h. (tt, record d { updates_source = true }, refl, h),
      )

      gives_route :
          (rules : List Rule)
          → Worked {W = Device K} Errno
              (At (Leads index) rules)
              CustomRoute
              (λ r d. (r ≡ route) × At (Leads index) rules d)
      gives_route rules = (or_panic (some route), λ d h. (route, d, refl, (refl, h)))

      adds_source :
          (r : CustomRoute)
          → Worked {W = Device K} Errno
              (λ d.
                (r ≡ route)
                × At (Leads index) (main_rule net ∷ icmp_rule net ∷ tun_rule net ∷ []) d)
              (Unit {0})
              (λ _. At (Leads index) (config_rules net (source_net route)))
      unfolding add_rule adds
      adds_source r = (
        add_rule net (source_rule net (source_net r)),
        λ d h. rw (h.0) (
            (adds (Leads index) (source_rule net (source_net route))
                (main_rule net ∷ icmp_rule net ∷ tun_rule net ∷ [])).1
              d h.1),
      )

      whole :
          Worked {W = Device K} Errno
            (At (λ f. f ≡ none) [])
            (Unit {0})
            (λ _. At (Leads index) (config_rules net (source_net route)))
      whole = adds (λ f. f ≡ none) (main_rule net) [] >=> λ _.
          adds (λ f. f ≡ none) (icmp_rule net) (main_rule net ∷ []) >=> λ _.
          adds (λ f. f ≡ none) (tun_rule net) (main_rule net ∷ icmp_rule net ∷ []) >=> λ _.
          links (λ f. f ≡ none) (main_rule net ∷ icmp_rule net ∷ tun_rule net ∷ []) >=> λ i.
          routes (main_rule net ∷ icmp_rule net ∷ tun_rule net ∷ []) i >=> λ _.
          gives_route (main_rule net ∷ icmp_rule net ∷ tun_rule net ∷ []) >=> λ r.
          adds_source r >=> λ _. marks >=> λ _. monitors

      -- Config succeeds, its rules are in the kernel, and table 200 leads to the link.
      pub config-At :
          (d : Device K)
          → At (λ f. f ≡ none) [] (record d { rule_list = [] })
          → let (out, end) =
              config net tun_name
                (some n)
                (some route)
                source_net
                enforce_dns
                has_resolvectl
                dns1
                d in
            (out ≡ Result.ok tt) × At (Leads index) (config_rules net (source_net route)) end
      unfolding config whole adds links routes marks monitors gives_route adds_source begin_monitor
      config-At d h =
          let (a, w, e, at) = whole.1 (record d { rule_list = [] }) h in
          (
            ap (λ r. r.0) e,
            subst (λ r. At (Leads index) (config_rules net (source_net route)) r.1) (sym e) at,
          )
