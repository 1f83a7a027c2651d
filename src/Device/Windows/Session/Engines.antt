-- ===== src/Device/Windows/Session/Engines.antt =====
-- The engine that the device holds.
use an_app.Base.{
  ℕ, ◌+◌, ◌≡◌, refl, ap, ◌∙◌, Bool, true, false, Bool-cases, not, List, [], ◌∷◌, some, Option-cases,
  inl, inr, if◌then◌else◌, ◌==◌, arith,
}
use an_app.Device.Windows.Session.{
  Platform, Settings, Adapter, remove, config_filters, set_dns4, init_gateway, close_session, round,
  rounds, close,
}
use an_app.Device.Windows.Filters.{config_fwp}
use an_app.Device.Windows.Entries.{add_route_entry4}

-- One engine is open, the device's, when DNS is enforced, and otherwise none.
abbrev pub Holds : {W : Type 0} → Adapter W → Type 0
Holds d =
    ((d.fwpm_session == 0) ≡ not d.enable_enforce_dns)
    × (d.engines ≡ (if d.enable_enforce_dns then d.fwpm_session ∷ [] else []))

abbrev pub last : Bool → List Bool → Bool
last b [] = b
last b (r ∷ rs) = last r rs

module _ {W P E : Type 0} (sys : Platform W P E)
    (handle : (w : W) → (sys.new_engine w == 0) ≡ false) (to : Settings) where
  config_filters-Holds :
      (d d' : Adapter W)
      → d.engines ≡ []
      → d.enable_enforce_dns ≡ true
      → config_filters sys to d ≡ some d'
      → Holds d' × (d'.enable_enforce_dns ≡ true) × (d'.dns_calls ≡ d.dns_calls)
  unfolding config_filters
  config_filters-Holds d d' h on e =
      elim (Option-cases
        (config_fwp sys.fwp to.name (sys.app_id d.world) (sys.if_index d.world) d.world).err) [
          | inr (x, bad) ↦ cc (rw (bad, config_filters) at e)
          | inl good ↦
              let r =
                config_fwp sys.fwp to.name (sys.app_id d.world) (sys.if_index d.world) d.world in
              let now = rw (good, config_filters) at e in
              let is : d' ≡ record d {
                fwpm_session = sys.new_engine d.world;
                world = r.world;
                engines = sys.new_engine d.world ∷ d.engines;
              } =
                cc in
              rw (is, on, h) ((handle d.world, refl), refl, refl)
        ]

  remove-own : (e : ℕ) → remove e (e ∷ []) ≡ []
  remove-own e = ground arith

  close_session-Holds :
      (d : Adapter W)
      → Holds d
      → d.enable_enforce_dns ≡ true
      → let after = close_session sys to (record d { enable_enforce_dns = false }) in
        Holds after × (after.enable_enforce_dns ≡ false) × (after.dns_calls ≡ d.dns_calls)
  unfolding close_session
  close_session-Holds d (zero, one) on =
      let live : (d.fwpm_session == 0) ≡ false = zero ∙ ap not on in
      let own : d.engines ≡ d.fwpm_session ∷ [] =
        one ∙ ap (λ t. if t then d.fwpm_session ∷ [] else []) on in
      rw (live, own, remove-own d.fwpm_session) ((refl, refl), refl, refl)

  round-Holds :
      (request : Bool) (d d' : Adapter W)
      → Holds d
      → round sys to request d ≡ some d'
      → Holds d' × (d'.enable_enforce_dns ≡ request) × (d'.dns_calls ≡ d.dns_calls)
  unfolding round
  round-Holds true d d' h e = elim (Bool-cases d.enable_enforce_dns) [
    | inl on ↦ let now = rw (on, round) at e in let is : d' ≡ d = cc in rw is (h, on, refl)
    | inr off ↦
        config_filters-Holds (record d { enable_enforce_dns = true }) d'
          (h.1 ∙ ap (λ t. if t then d.fwpm_session ∷ [] else []) off) refl (rw (off, round) at e)
  ]
  round-Holds false d d' h e = elim (Bool-cases d.enable_enforce_dns) [
    | inl on ↦
        let now = rw (on, round) at e in
        let is : d' ≡ close_session sys to (record d { enable_enforce_dns = false }) = cc in
        rw is (close_session-Holds d h on)
    | inr off ↦ let now = rw (off, round) at e in let is : d' ≡ d = cc in rw is (h, off, refl)
  ]

  rounds-Holds :
      (requests : List Bool) (d d' : Adapter W)
      → Holds d
      → rounds sys to requests d ≡ some d'
      → Holds d'
        × (d'.enable_enforce_dns ≡ last d.enable_enforce_dns requests)
        × (d'.dns_calls ≡ d.dns_calls)
  unfolding rounds
  rounds-Holds [] d d' h e = let is : d' ≡ d = cc in rw is (h, refl, refl)
  rounds-Holds (r ∷ rs) d d' h e = elim (Option-cases (round sys to r d)) [
    | inl bad ↦ cc (rw (bad, rounds) at e)
    | inr (d1, good) ↦
        let (h1, on1, dns1) = round-Holds r d d1 h good in
        let (h2, on2, dns2) = rounds-Holds rs d1 d' h1 (rw (good, rounds) at e) in
        (h2, on2 ∙ ap (λ t. last t rs) on1, dns2 ∙ dns1)
  ]

  init_gateway-Holds :
      (d d' : Adapter W)
      → (d.fwpm_session ≡ 0) × (d.engines ≡ [])
      → init_gateway sys to d ≡ some d'
      → Holds d'
        × (d'.enable_enforce_dns ≡ d.enable_enforce_dns)
        × (d'.dns_calls ≡ (if d.enable_enforce_dns then d.dns_calls + 1 else d.dns_calls))
  unfolding init_gateway set_dns4
  init_gateway-Holds d d' (zero, none_yet) e =
      elim (Option-cases (sys.routes.parse_prefix to.tun_ip)) [
        | inl unparsed ↦ cc (rw (unparsed, init_gateway) at e)
        | inr (ip, parsed) ↦
            let routed =
              add_route_entry4 sys.routes ("0.0.0.0/0" ∷ []) (sys.set_ip_addresses ip d.world).1 in
            let begun = rw (parsed, init_gateway) at e in
            elim (Option-cases routed.err) [
              | inr (x, bad) ↦ cc (rw bad at begun)
              | inl good ↦
                  let now = rw good at begun in
                  elim (Bool-cases d.enable_enforce_dns) [
                    | inl on ↦
                        let (h, on', dns) =
                          config_filters-Holds
                            (set_dns4 sys to
                              (record d { world = routed.world; enable_enforce_dns = true }))
                            d' none_yet refl (rw on at now) in
                        rw on (h, on', dns)
                    | inr off ↦
                        let same = rw off at now in
                        let is : d' ≡ record d { world = routed.world } = cc in
                        rw (is, off, zero, none_yet) ((refl, refl), refl, refl)
                  ]
            ]
      ]

  close-closes : (d : Adapter W) → Holds d → (close sys to d).1.engines ≡ []
  unfolding close
  close-closes d (zero, one) = elim (Bool-cases d.enable_enforce_dns) [
    | inl on ↦
        let live : (d.fwpm_session == 0) ≡ false = zero ∙ ap not on in
        let own : d.engines ≡ d.fwpm_session ∷ [] =
          one ∙ ap (λ t. if t then d.fwpm_session ∷ [] else []) on in
        rw (live, own) (remove-own d.fwpm_session)
    | inr off ↦
        let dead : (d.fwpm_session == 0) ≡ true = zero ∙ ap not off in
        rw dead (one ∙ ap (λ t. if t then d.fwpm_session ∷ [] else []) off)
  ]

  -- From a device without a session: when InitGateway and then any requests to switch DNS enforcement
  -- are served without a panic, the flag is the last request's (InitGateway's own without any), one
  -- filter engine is open if the flag is on and none if it is off, Close leaves none open, and the DNS
  -- servers of the TUN were set once if the flag was on at the start and never otherwise, whatever was
  -- requested later. FwpmEngineOpen0 is taken to give no zero handle.
  pub engines_follow_the_flag :
      (requests : List Bool) (d started d' : Adapter W)
      → (d.fwpm_session ≡ 0) × (d.engines ≡ [])
      → init_gateway sys to d ≡ some started
      → rounds sys to requests started ≡ some d'
      → (d'.enable_enforce_dns ≡ last d.enable_enforce_dns requests)
        × (d'.engines ≡ (if d'.enable_enforce_dns then d'.fwpm_session ∷ [] else []))
        × ((close sys to d').1.engines ≡ [])
        × (d'.dns_calls ≡ (if d.enable_enforce_dns then d.dns_calls + 1 else d.dns_calls))
  engines_follow_the_flag requests d started d' fresh e e' =
      let (h, on, dns) = init_gateway-Holds d started fresh e in
      let (h', on', dns') = rounds-Holds requests started d' h e' in
      (on' ∙ ap (λ t. last t requests) on, h'.1, close-closes d' h', dns' ∙ dns)
