-- ===== src/Device/Linux/Rules.antt =====
-- The policy rules between Config and Close.
use Prim.Native.String.{String}
use an_app.Base.{
  ℕ, ◌≡◌, ◌≢◌, ◌↔◌, ◌⊎◌, refl, sym, subst, inl, inr, Bool, true, List, [], ◌∷◌, ◌++◌, Option, none,
  some, Option-cases, Bool-cases,
}
use an_app.Action.{Action, Keeps, Kept, ◌>>>◌, change, or_panic}
use an_app.Net.{IpNet}
use an_app.Routes.{CustomRoute}
use an_app.Device.Linux.{
  Rule, Errno, eexist, other, Netlink, Device, refused, add_rule, find_link, add_default_route,
  main_rule, icmp_rule, tun_rule, source_rule, set_dns, start_monitor, config,
}

abbrev pub In : Rule → List Rule → Type 0
In r [] = ⊥
In r (s ∷ rules) = (r ≡ s) ⊎ In r rules

pub In-append_left : (r : Rule) (xs ys : List Rule) → In r xs → In r (xs ++ ys)
In-append_left r [] ys h = absurd h
In-append_left r (x ∷ xs) ys (inl e) = inl e
In-append_left r (x ∷ xs) ys (inr h) = inr (In-append_left r xs ys h)

pub In-append_last : (r : Rule) (xs : List Rule) → In r (xs ++ (r ∷ []))
In-append_last r [] = inl refl
In-append_last r (x ∷ xs) = inr (In-append_last r xs)

-- What netlink documents of additions, `has` telling which rules a kernel holds: one that succeeds
-- adds the rule and no other, one that fails changes nothing, and adding a route changes no rule.
pub record IsAdding {K : Type 0} (net : Netlink K) (has : K → Rule → Type 0) : Type 0 where
  pub added :
      (k : K) (r s : Rule)
      → (net.rule_add k r).0 ≡ none
      → has (net.rule_add k r).1 s ↔ ((s ≡ r) ⊎ has k s)
  pub not_added :
      (k : K) (r s : Rule) {e : Errno}
      → (net.rule_add k r).0 ≡ some e
      → has (net.rule_add k r).1 s ↔ has k s
  pub routed :
      (k : K) (index : ℕ) (net4 : Option IpNet) (table : ℕ) (s : Rule)
      → has (net.route_add k index net4 table).1 s ↔ has k s

-- And of deletions: one that succeeds leaves the other rules alone and the rule gone, one that fails
-- changes nothing.
pub record IsRuleTable {K : Type 0} (net : Netlink K) (has : K → Rule → Type 0) : Type 0 where
  pub adding : IsAdding net has
  pub deleted :
      (k : K) (r s : Rule)
      → (net.rule_del k r).0 ≡ none
      → has (net.rule_del k r).1 s ↔ (has k s × (s ≢ r))
  pub not_deleted :
      (k : K) (r s : Rule) {e : Errno}
      → (net.rule_del k r).0 ≡ some e
      → has (net.rule_del k r).1 s ↔ has k s

module _ {K : Type 0} (net : Netlink K) (has : K → Rule → Type 0) (laws : IsAdding net has)
    (start : K) where
  -- The kernel's rules are those of the start and some of the device's list.
  pub record IsTracked (d : Device K) : Type 0 where
    pub kept : (s : Rule) → has start s → has d.kernel s
    pub known : (s : Rule) → has d.kernel s → has start s ⊎ In s d.rule_list

  -- The list only grows, by a rule that may be new to the kernel.
  grows :
      (d : Device K) (kernel : K) (rule : Rule)
      → ((s : Rule) → has kernel s ↔ ((s ≡ rule) ⊎ has d.kernel s))
        ⊎ ((s : Rule) → has kernel s ↔ has d.kernel s)
      → IsTracked d
      → IsTracked (record d { kernel = kernel; rule_list = d.rule_list ++ (rule ∷ []) })
  grows d kernel rule (inl new) h = record {
    kept = λ s b. (new s).1 (inr (h.kept s b));
    known = λ s a. elim ((new s).0 a) [
      | inl same ↦ inr (
          subst (λ x. In x (d.rule_list ++ (rule ∷ []))) (sym same)
            (In-append_last rule d.rule_list))
      | inr old ↦ was_known s old
    ];
  }
    where
      was_known : (s : Rule) → has d.kernel s → has start s ⊎ In s (d.rule_list ++ (rule ∷ []))
      was_known s a = elim (h.known s a) [
        | inl b ↦ inl b
        | inr b ↦ inr (In-append_left s d.rule_list (rule ∷ []) b)
      ]
  grows d kernel rule (inr same) h = record {
    kept = λ s b. (same s).1 (h.kept s b);
    known = λ s a. elim (h.known s ((same s).0 a)) [
      | inl b ↦ inl b
      | inr b ↦ inr (In-append_left s d.rule_list (rule ∷ []) b)
    ];
  }

  stays :
      (d : Device K) (kernel : K)
      → ((s : Rule) → has kernel s ↔ has d.kernel s)
      → IsTracked d
      → IsTracked (record d { kernel = kernel })
  stays d kernel same h = record {
    kept = λ s b. (same s).1 (h.kept s b);
    known = λ s a. h.known s ((same s).0 a);
  }

  add_rule-IsTracked : (rule : Rule) → Keeps IsTracked (add_rule net rule)
  unfolding add_rule refused
  add_rule-IsTracked rule d h = elim (Option-cases (net.rule_add d.kernel rule).0) [
    | inl e ↦
        rw (e, add_rule)
          (grows d (net.rule_add d.kernel rule).1 rule (inl (λ s. laws.added d.kernel rule s e)) h)
    | inr (eexist, e) ↦
        rw (e, add_rule)
          (grows d (net.rule_add d.kernel rule).1 rule (inr (λ s. laws.not_added d.kernel rule s e))
            h)
    | inr (other n, e) ↦
        rw (e, add_rule)
          (stays d (net.rule_add d.kernel rule).1 (λ s. laws.not_added d.kernel rule s e) h)
  ]

  find_link-IsTracked : (name : String) → Keeps IsTracked (find_link net name)
  unfolding find_link
  find_link-IsTracked name d h = elim (Option-cases (net.link_by_name d.kernel name).0) [
    | inl e ↦ rw (e, find_link) h
    | inr (x, e) ↦ rw (e, find_link) h
  ]

  add_default_route-IsTracked :
      (index : ℕ) (everything : Option IpNet)
      → Keeps IsTracked (add_default_route net index everything)
  unfolding add_default_route
  add_default_route-IsTracked index everything d h =
      stays d (net.route_add d.kernel index everything 200).1
        (λ s. laws.routed d.kernel index everything 200 s) h

  or_panic-IsTracked : (route : Option CustomRoute) → Keeps {E = Errno} IsTracked (or_panic route)
  or_panic-IsTracked none d h = h
  or_panic-IsTracked (some r) d h = h

  module _ (tun_name : String) (everything : Option IpNet) (route : Option CustomRoute)
      (source_net : CustomRoute → Option IpNet) (enforce_dns : Bool) (has_resolvectl : Bool)
      (dns1 : String) where
    begin_monitor : Action (Device K) Errno (Unit {0})
    begin_monitor =
        change
          (start_monitor net tun_name everything route source_net enforce_dns has_resolvectl dns1)

    monitor-IsTracked : Keeps IsTracked begin_monitor
    unfolding begin_monitor start_monitor set_dns
    monitor-IsTracked d h = elim (Bool-cases enforce_dns) [
      | inr off ↦ rw (off, start_monitor) h
      | inl on ↦ elim (Bool-cases has_resolvectl) [
        | inl found ↦
            rw (on, start_monitor, found, set_dns) (record { kept = h.kept; known = h.known })
        | inr missing ↦
            rw (on, start_monitor, missing, set_dns) (record { kept = h.kept; known = h.known })
      ]
    ]

    begin_updates : Kept IsTracked Errno (Unit {0})
    begin_updates = (
      change (λ d. record d { updates_source = true }),
      λ d h. record { kept = h.kept; known = h.known },
    )

    -- Config from the first rule on.
    with_rule : (rule : Rule) → Kept IsTracked Errno (Unit {0})
    with_rule rule = (add_rule net rule, add_rule-IsTracked rule)

    rules_kept : Kept IsTracked Errno (Unit {0})
    rules_kept = with_rule (main_rule net) >>> λ _. with_rule (icmp_rule net) >>> λ _.
        with_rule (tun_rule net) >>> λ _.
        (find_link net tun_name, find_link-IsTracked tun_name) >>> λ index.
        (add_default_route net index everything, add_default_route-IsTracked index everything)
        >>> λ _. (or_panic route, or_panic-IsTracked route) >>> λ r.
            with_rule (source_rule net (source_net r)) >>> λ _.
            begin_updates >>> λ _. (begin_monitor, monitor-IsTracked)

    pub config-IsTracked :
        (d : Device K)
        → d.kernel ≡ start
        → IsTracked
            (config net tun_name everything route source_net enforce_dns has_resolvectl dns1 d).1
    unfolding config rules_kept with_rule begin_updates begin_monitor
    config-IsTracked d same =
        rules_kept.1 (record d { rule_list = [] })
          (record {
            kept = λ s b. subst (λ k. has k s) (sym same) b;
            known = λ s a. inl (subst (λ k. has k s) same a);
          })
