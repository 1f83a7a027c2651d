-- ===== src/Device/Windows/Session.antt =====
-- device/device_windows.go: InitGateway, SetDns4, monitorEnforceDns and Close, and the filter engine
-- that they hold. winipcfg, winsys and the adapter are a parameter. The two channels of the monitor
-- are left out: a round is one request, answered at its end.
pub mod Engines
use Prim.Native.String.{String}
use an_app.Base.{
  ℕ, ◌+◌, Bool, true, false, not, List, [], ◌∷◌, Option, none, some, if◌then◌else◌, ◌==◌,
}
use an_app.Script.{Sys, Ran}
use an_app.Device.Windows.Entries.{RouteCalls, add_route_entry4}
use an_app.Device.Windows.Filters.{FwpCall, config_fwp}

-- What the code uses of the system. A call that fails gives an error; new_engine is the handle that
-- FwpmEngineOpen0 writes when it works, app_id and if_index what the platform says of this process
-- and of the TUN.
pub record Platform (W P E : Type 0) : Type 0 where
  pub set_ip_addresses : P → W → Option E × W
  pub routes : RouteCalls W P E
  pub set_dns : String → String → W → Option E × W
  pub fwp : Sys W FwpCall E
  pub new_engine : W → ℕ
  pub app_id : W → ℕ
  pub if_index : W → ℕ
  pub close_engine : ℕ → W → W
  pub close_tun : W → Option E × W

-- The device's name and the addresses of package model.
pub record Settings : Type 0 where
  pub name : String
  pub tun_ip : String
  pub dns1 : String
  pub dns2 : String

-- The device's session, the flag of the configuration and the system; the last two fields keep what
-- the system has been asked for: the engines not closed yet, and how often SetDNS was called.
pub record Adapter (W : Type 0) : Type 0 where
  pub fwpm_session : ℕ
  pub enable_enforce_dns : Bool
  pub world : W
  pub engines : List ℕ
  pub dns_calls : ℕ

abbrev pub remove : ℕ → List ℕ → List ℕ
remove e [] = []
remove e (x ∷ xs) = let rest = remove e xs in if x == e then rest else x ∷ rest

-- A panic ends the program and is `none`: no code of it recovers.
module _ {W P E : Type 0} (sys : Platform W P E) (to : Settings) where
  -- configFwp with the device's session.
  unfoldable pub config_filters : Adapter W → Option (Adapter W)
  config_filters d =
      let r = config_fwp sys.fwp to.name (sys.app_id d.world) (sys.if_index d.world) d.world in
      let engine = sys.new_engine d.world in
      elim r.err [
        | some e ↦ none
        | none ↦
            some (record d { fwpm_session = engine; world = r.world; engines = engine ∷ d.engines })
      ]

  -- An error is only logged; the two addresses are constants that parse.
  unfoldable pub set_dns4 : Adapter W → Adapter W
  set_dns4 d = record d {
    world = (sys.set_dns to.dns1 to.dns2 d.world).1;
    dns_calls = d.dns_calls + 1;
  }

  -- The error of SetIPAddresses is overwritten by that of addRouteEntry4.
  unfoldable pub init_gateway : Adapter W → Option (Adapter W)
  init_gateway d = elim (sys.routes.parse_prefix to.tun_ip) [
    | none ↦ none
    | some ip ↦
        let routed =
          add_route_entry4 sys.routes ("0.0.0.0/0" ∷ []) (sys.set_ip_addresses ip d.world).1 in
        let ready = record d { world = routed.world } in
        elim routed.err [
          | some e ↦ none
          | none ↦ if d.enable_enforce_dns then config_filters (set_dns4 ready) else some ready
        ]
  ]

  unfoldable pub close_session : Adapter W → Adapter W
  close_session d = if d.fwpm_session == 0 then d else record d {
    fwpm_session = 0;
    world = sys.close_engine d.fwpm_session d.world;
    engines = remove d.fwpm_session d.engines;
  }

  abbrev same_bool : Bool → Bool → Bool
  same_bool true b = b
  same_bool false b = not b

  -- One request to monitorEnforceDns.
  unfoldable pub round : Bool → Adapter W → Option (Adapter W)
  round request d =
      let switched = record d { enable_enforce_dns = request } in
      if same_bool request d.enable_enforce_dns
      then some d
      else if request
      then config_filters switched
      else some (close_session switched)

  unfoldable pub rounds : List Bool → Adapter W → Option (Adapter W)
  rounds [] d = some d
  rounds (r ∷ rs) d = elim (round r d) [ none ↦ none | some d' ↦ rounds rs d' ]

  -- Close; the session's number stays in the device.
  unfoldable pub close : Adapter W → Option E × Adapter W
  close d =
      let (e, w) = sys.close_tun d.world in
      let closed = record d { world = w } in
      (
        e,
        if d.fwpm_session == 0 then closed else record closed {
          world = sys.close_engine d.fwpm_session w;
          engines = remove d.fwpm_session d.engines;
        },
      )
