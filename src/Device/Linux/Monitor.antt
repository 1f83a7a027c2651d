-- ===== src/Device/Linux/Monitor.antt =====
-- device/device_dns_linux.go, monitorEnforceDns: the goroutine that switches the DNS enforcement while
-- the program runs. One round takes a request from a channel and puts one answer on another; the
-- arguments are whether resolvectl is found in that round and the first DNS server.
use Prim.Native.String.{String}
use text.Mathlib.Text.{◌==◌ as str_eq}
use text.Mathlib.TextPositions.{eq_refl}
use an_app.Udp.State.Maps.{str_ne}
use an_app.Base.{
  ℕ, ◌+◌, ◌≡◌, ◌≢◌, refl, sym, subst, ap, ◌∙◌, Bool, true, false, List, [], ◌∷◌, ◌++◌,
  if◌then◌else◌, length, arith, inl, inr, Bool-cases, Option, none, some, All,
}
use an_app.Device.Linux.{Command, domain, default_route, dns, revert, Device, set_dns}

pub record Monitored (K : Type 0) : Type 0 where
  pub enabled : Bool
  pub answers : ℕ
  pub device : Device K

abbrev same_bool : Bool → Bool → Bool
same_bool true b = b
same_bool false b = if b then false else true

-- The branch that reverts the link's settings.
pub revert_dns : {K : Type 0} → Bool → Device K → Device K
revert_dns found d = if found then record d { commands = d.commands ++ (revert d.name ∷ []) } else d

pub round : {K : Type 0} → String → Bool × Bool → Monitored K → Monitored K
round server (request, found) m =
    if same_bool request m.enabled then record m { answers = m.answers + 1 } else record {
      enabled = request;
      answers = m.answers + 1;
      device = if request then set_dns found server m.device else revert_dns found m.device;
    }

pub rounds : {K : Type 0} → String → List (Bool × Bool) → Monitored K → Monitored K
rounds server [] m = m
rounds server (r ∷ rs) m = rounds server rs (round server r m)

-- The settings of one link that resolvectl keeps: the domains, whether the link is a default route for
-- queries, and the server.
pub record Settings : Type 0 where
  pub domains : Option String
  pub is_default_route : Option String
  pub server : Option String

abbrev pub no_settings : Settings
no_settings = record { domains = none; is_default_route = none; server = none }

-- What a command that works does to the settings of a link: it sets one of those of the link that it
-- names, or clears them all, and leaves every other link alone.
abbrev pub applied : String → Settings → Command → Settings
applied l s (domain link which) = if str_eq link l then record s { domains = some which } else s
applied l s (default_route link value) =
    if str_eq link l then record s { is_default_route = some value } else s
applied l s (dns link to) = if str_eq link l then record s { server = some to } else s
applied l s (revert link) = if str_eq link l then no_settings else s

abbrev pub settings : String → Settings → List Command → Settings
settings l s [] = s
settings l s (c ∷ cs) = settings l (applied l s c) cs

-- All queries go over the link to the server, or resolvectl knows nothing of the link.
abbrev pub wanted : String → Bool → Settings
wanted to true = record { domains = some "~."; is_default_route = some "true"; server = some to }
wanted to false = no_settings

settings-append :
    (l : String) (s : Settings) (cs ds : List Command)
    → settings l s (cs ++ ds) ≡ settings l (settings l s cs) ds
settings-append l s [] ds = refl
settings-append l s (c ∷ cs) ds = settings-append l (applied l s c) cs ds

-- The device's own link has the settings of the switch, and every other link what it has had.
pub record IsApplied {K : Type 0} (to : String) (before : String → Settings) (m : Monitored K)
    : Type 0 where
  pub own : settings m.device.name no_settings m.device.commands ≡ wanted to m.enabled
  pub others :
      (l : String)
      → str_eq m.device.name l ≡ false
      → settings l no_settings m.device.commands ≡ before l

set_commands : String → String → List Command
set_commands name to = domain name "~." ∷ default_route name "true" ∷ dns name to ∷ []

settings_on :
    (name to : String) (s : Settings) → settings name s (set_commands name to) ≡ wanted to true
unfolding set_commands
settings_on name to s = rw (eq_refl name) refl

settings_off :
    (name to : String) (s : Settings) → settings name s (revert name ∷ []) ≡ wanted to false
settings_off name to s = rw (eq_refl name) refl

settings_on_other :
    (name to l : String) (s : Settings)
    → str_eq name l ≡ false
    → settings l s (set_commands name to) ≡ s
unfolding set_commands
settings_on_other name to l s other = rw other refl

settings_off_other :
    (name l : String) (s : Settings) → str_eq name l ≡ false → settings l s (revert name ∷ []) ≡ s
settings_off_other name l s other = rw other refl

round-name :
    {K : Type 0} (to : String) (r : Bool × Bool) (m : Monitored K)
    → (round to r m).device.name ≡ m.device.name
unfolding round revert_dns set_dns
round-name to (request, found) m = ground arith

round-IsApplied :
    {K : Type 0} (to : String) (before : String → Settings) (request : Bool) (m : Monitored K)
    → IsApplied to before m
    → IsApplied to before (round to (request, true) m)
unfolding round revert_dns set_dns set_commands
round-IsApplied to before true m h = elim (Bool-cases m.enabled) [
  | inl on ↦
      rw (on, round) (record { own = h.own ∙ ap (wanted to) on; others = λ l d. h.others l d })
  | inr off ↦
      let name = m.device.name in
      rw (off, round)
        (record {
          own =
              settings-append name no_settings m.device.commands (set_commands name to)
              ∙ settings_on name to (settings name no_settings m.device.commands);
          others = λ l d.
              settings-append l no_settings m.device.commands (set_commands name to)
              ∙ settings_on_other name to l (settings l no_settings m.device.commands) d
              ∙ h.others l d;
        })
]
round-IsApplied to before false m h = elim (Bool-cases m.enabled) [
  | inr off ↦
      rw (off, round) (record { own = h.own ∙ ap (wanted to) off; others = λ l d. h.others l d })
  | inl on ↦
      let name = m.device.name in
      rw (on, round)
        (record {
          own =
              settings-append name no_settings m.device.commands (revert name ∷ [])
              ∙ settings_off name to (settings name no_settings m.device.commands);
          others = λ l d.
              settings-append l no_settings m.device.commands (revert name ∷ [])
              ∙ settings_off_other name l (settings l no_settings m.device.commands) d
              ∙ h.others l d;
        })
]

round-answers :
    {K : Type 0} (to : String) (request : Bool) (m : Monitored K)
    → ((round to (request, true) m).enabled ≡ request)
      × ((round to (request, true) m).answers ≡ m.answers + 1)
unfolding round
round-answers to true m = ground arith
round-answers to false m = ground arith

-- The last request, or the switch as it was.
abbrev pub last_request : Bool → List (Bool × Bool) → Bool
last_request b [] = b
last_request b ((request, found) ∷ rs) = last_request request rs

rounds-IsApplied :
    {K : Type 0} (to : String) (before : String → Settings) (rs : List (Bool × Bool))
    (m : Monitored K)
    → All (λ r. r.1 ≡ true) rs
    → IsApplied to before m
    → let after = rounds to rs m in
      IsApplied to before after
      × (after.device.name ≡ m.device.name)
      × (after.enabled ≡ last_request m.enabled rs)
      × (after.answers ≡ m.answers + length rs)
unfolding rounds
rounds-IsApplied to before [] m all h = (h, refl, refl, omega arith)
rounds-IsApplied to before ((request, found) ∷ rs) m (is_found, all) h =
    let next = round to (request, true) m in
    let (switched, counted) = round-answers to request m in
    let (set, name, last, count) =
      rounds-IsApplied to before rs next all (round-IsApplied to before request m h) in
    rw is_found (
      set,
      name ∙ round-name to (request, true) m,
      last ∙ ap (λ b. last_request b rs) switched,
      omega (arith, count, counted),
    )

-- When resolvectl is found in every round, its commands work, and at the start the link's settings are
-- those of the switch: after any sequence of requests, each of which gets one answer, the switch is the
-- last request. The device's link has the domain "~.", is a default route and has this server if the
-- switch is then on, and has no settings if it is off; every other link has the settings that it had.
pub rounds-enforced :
    {K : Type 0} (server : String) (rs : List (Bool × Bool)) (m : Monitored K)
    → All (λ r. r.1 ≡ true) rs
    → settings m.device.name no_settings m.device.commands ≡ wanted server m.enabled
    → let after = rounds server rs m in
      (settings m.device.name no_settings after.device.commands
        ≡ wanted server (last_request m.enabled rs))
      × ((l : String)
          → l ≢ m.device.name
          → settings l no_settings after.device.commands ≡ settings l no_settings m.device.commands)
      × (after.enabled ≡ last_request m.enabled rs)
      × (after.answers ≡ m.answers + length rs)
rounds-enforced server rs m all h =
    let (set, name, last, count) =
      rounds-IsApplied server (λ l. settings l no_settings m.device.commands) rs m all
        (record { own = h; others = λ l d. refl }) in
    (
      subst
          (λ n.
            settings n no_settings (rounds server rs m).device.commands
            ≡ wanted server (last_request m.enabled rs))
          name (set.own ∙ ap (wanted server) last),
      λ l d. set.others l (rw name (str_ne m.device.name l (λ e. d (sym e)))),
      last,
      count,
    )
