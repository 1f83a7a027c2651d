-- ===== src/Device/Linux/Watch.antt =====
-- model/route_linux.go, InitRoute, and the goroutine that device/device_linux.go's Config starts: the
-- first is told of link changes by netlink and announces each on the channel ReaRouteUpdateChan, which
-- holds nothing, before it reads the routes again; the second takes the announcements and renews the
-- rule for the source address. Neither goroutine ends by itself.
use Prim.Native.String.{String}
use an_app.Base.{
  ℕ, ◌+◌, ◌≡◌, refl, subst, ◌∙◌, Bool, true, false, List, [], Option, none, some, ◌⊎◌, inl, inr,
  Option-cases,
}
use an_app.Action.{Result, Action, Keeps, Kept, next, change, or_panic, ◌>>=◌, ◌>>◌}
use an_app.Net.{IpNet}
use an_app.Routes.{CustomRoute}
use an_app.Routes.Linux.{NlRoute, Interface, find_linux_routes}
use an_app.Device.Linux.{
  Netlink, Rule, Device, Errno, refused, add_rule, find_link, add_default_route, main_rule,
  icmp_rule, tun_rule, source_rule, start_monitor, config,
}

-- Where InitRoute's goroutine stands: at the receive, at the send, or before FindRoutes.
pub data Phase : Type 0 where
  waiting : Phase
  announcing : Phase
  reading : Phase

-- The phase, model.Routes, whether the other goroutine runs, and how often it has renewed the rule.
pub record Watch : Type 0 where
  pub phase : Phase
  pub routes : List CustomRoute
  pub receiver : Bool
  pub renewed : ℕ

module _ (default_ipnet : IpNet) (interface_by_index : ℕ → Option Interface) where
  -- A send on the channel waits for a receiver; FindRoutes that faults ends the program.
  pub data Turn : Watch → Watch → Type 0 where
    link_changed : (w : Watch) → w.phase ≡ waiting → Turn w (record w { phase = announcing })
    announced :
        (w : Watch)
        → w.phase ≡ announcing
        → w.receiver ≡ true
        → Turn w (record w { phase = reading; renewed = w.renewed + 1 })
    found :
        (w : Watch) (links : List NlRoute) (routes : List CustomRoute)
        → w.phase ≡ reading
        → find_linux_routes default_ipnet interface_by_index links ≡ some routes
        → Turn w (record w { phase = waiting; routes = routes })

  pub data Turns : Watch → Watch → Type 0 where
    stay : (w : Watch) → Turns w w
    turn : {w1 w2 w3 : Watch} → Turn w1 w2 → Turns w2 w3 → Turns w1 w3

  -- Not yet past the send.
  abbrev Stuck : List CustomRoute → Watch → Type 0
  Stuck routes w =
      (w.receiver ≡ false) × (w.routes ≡ routes) × ((w.phase ≡ waiting) ⊎ (w.phase ≡ announcing))

  Turn-Stuck :
      (routes : List CustomRoute) {w w' : Watch} → Turn w w' → Stuck routes w → Stuck routes w'
  Turn-Stuck routes (link_changed w p) (r, same, at) = (r, same, inr refl)
  Turn-Stuck routes (announced w p on) (r, same, at) = cc
  Turn-Stuck routes (found w links rs p e) (r, same, inl at) = cc
  Turn-Stuck routes (found w links rs p e) (r, same, inr at) = cc

  Turns-Stuck :
      (routes : List CustomRoute) {w w' : Watch} → Turns w w' → Stuck routes w → Stuck routes w'
  Turns-Stuck routes (stay w) h = h
  Turns-Stuck routes (turn one more) h = Turns-Stuck routes more (Turn-Stuck routes one h)

  -- With the receiver, a change of the links comes through: the routes become those of the links then,
  -- and the rule is renewed once, before they are read.
  pub link_change_arrives :
      (w : Watch) (links : List NlRoute) (routes : List CustomRoute)
      → w.phase ≡ waiting
      → w.receiver ≡ true
      → find_linux_routes default_ipnet interface_by_index links ≡ some routes
      → Turns w (record w { phase = waiting; routes = routes; renewed = w.renewed + 1 })
  link_change_arrives w links routes p on e = turn (link_changed w p) (
      turn (announced (record w { phase = announcing }) refl on) (
        turn (found (record w { phase = reading; renewed = w.renewed + 1 }) links routes refl e)
          (stay (record w { phase = waiting; routes = routes; renewed = w.renewed + 1 }))))

-- Config's goroutine is not running when it ends in an error.
abbrev Clean : {K : Type 0} → Result Errno (Unit {0}) → Device K → Type 0
Clean (Result.ok a) d = Unit {0}
Clean (Result.err e) d = d.updates_source ≡ false
Clean Result.crash d = Unit {0}

module _ {K : Type 0} (net : Netlink K) where
  abbrev Idle : Device K → Type 0
  Idle d = d.updates_source ≡ false

  abbrev Ends : Action (Device K) Errno (Unit {0}) → Type 0
  Ends m = (d : Device K) → Idle d → Clean (m d).0 (m d).1

  then_ends :
      {A : Type 0} (m : Action (Device K) Errno A) (f : A → Action (Device K) Errno (Unit {0}))
      → Keeps Idle m
      → ((a : A) → Ends (f a))
      → Ends (m >>= f)
  then_ends {A} m f keeps ends d idle = go (m d).0 (m d).1 (keeps d idle)
    where
      go : (r : Result Errno A) (d' : Device K) → Idle d' → Clean (next r d' f).0 (next r d' f).1
      go (Result.ok a) d' i = ends a d' i
      go (Result.err e) d' i = i
      go Result.crash d' i = tt

  add_rule-Keeps : (rule : Rule) → Keeps Idle (add_rule net rule)
  unfolding add_rule
  add_rule-Keeps rule d idle = elim (Option-cases (refused (net.rule_add d.kernel rule).0)) [
    | inl fine ↦ rw (fine, add_rule) idle
    | inr (x, bad) ↦ rw (bad, add_rule) idle
  ]

  find_link-Keeps : (name : String) → Keeps Idle (find_link net name)
  unfolding find_link
  find_link-Keeps name d idle = elim (Option-cases (net.link_by_name d.kernel name).0) [
    | inl fine ↦ rw (fine, find_link) idle
    | inr (x, bad) ↦ rw (bad, find_link) idle
  ]

  or_panic-Keeps : (r : Option CustomRoute) → Keeps {E = Errno} Idle (or_panic r)
  or_panic-Keeps none d idle = idle
  or_panic-Keeps (some r) d idle = idle

  abbrev Ended : Type 0
  Ended = (m : Action (Device K) Errno (Unit {0})) × Ends m

  infixl 5 ◌>>|◌
  abbrev ◌>>|◌ : {A : Type 0} → Kept Idle Errno A → (A → Ended) → Ended
  (m, keeps) >>| f = (m >>= (λ a. (f a).0), then_ends m (λ a. (f a).0) keeps (λ a. (f a).1))

  with_rule : (rule : Rule) → Kept Idle Errno (Unit {0})
  with_rule rule = (add_rule net rule, add_rule-Keeps rule)

  module _ (tun_name : String) (everything : Option IpNet) (route : Option CustomRoute)
      (source_net : CustomRoute → Option IpNet) (enforce_dns : Bool) (has_resolvectl : Bool)
      (dns1 : String) where
    rules_ended : Ended
    unfolding add_default_route
    rules_ended = with_rule (main_rule net) >>| λ _. with_rule (icmp_rule net) >>| λ _.
        with_rule (tun_rule net) >>| λ _.
        (find_link net tun_name, find_link-Keeps tun_name) >>| λ index.
        (add_default_route net index everything, λ d i. i) >>| λ _.
        (or_panic route, or_panic-Keeps route) >>| λ r.
        with_rule (source_rule net (source_net r)) >>| λ _. (
          change (λ d. record d { updates_source = true })
              >> change (
                  start_monitor net tun_name everything route source_net enforce_dns has_resolvectl
                    dns1),
          λ d i. tt,
        )

    config-Ends :
        Ends (config net tun_name everything route source_net enforce_dns has_resolvectl dns1)
    unfolding config rules_ended with_rule
    config-Ends d idle = rules_ended.1 (record d { rule_list = [] }) idle

    -- When Config ends in an error, from a device that had no goroutine for the source rule: however
    -- the links change afterwards, the program's routes are those that InitRoute had found, and its
    -- goroutine comes no further than the first announcement.
    pub routes_freeze :
        (default_ipnet : IpNet) (interface_by_index : ℕ → Option Interface) (d : Device K)
        (e : Errno) (w w' : Watch)
        → d.updates_source ≡ false
        → (config net tun_name everything route source_net enforce_dns has_resolvectl dns1 d).0
          ≡ Result.err e
        → w.phase ≡ waiting
        → w.receiver
          ≡ (config net tun_name everything route source_net enforce_dns has_resolvectl dns1
              d).1.updates_source
        → Turns default_ipnet interface_by_index w w'
        → (w'.routes ≡ w.routes) × ((w'.phase ≡ waiting) ⊎ (w'.phase ≡ announcing))
    routes_freeze default_ipnet interface_by_index d e w w' idle failed p r turns =
        let after =
          (config net tun_name everything route source_net enforce_dns has_resolvectl dns1 d).1 in
        let clean : after.updates_source ≡ false =
          subst (λ t. Clean t after) failed (config-Ends d idle) in
        let (off, same, at) =
          Turns-Stuck default_ipnet interface_by_index w.routes turns (r ∙ clean, refl, inl p) in
        (same, at)
