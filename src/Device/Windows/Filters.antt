-- ===== src/Device/Windows/Filters.antt =====
-- device/device_windows.go, configFwp: the filters that it adds to the Windows Filtering Platform,
-- step by step. The platform, GenerateGUID, GetCurrentProcessAppID and InterfaceByName are a
-- parameter: every call may fail, and a failure is a panic; the deferred FwpmFreeMemory0 runs when the
-- process's AppID was found. Keys of layers and sub-layers are left out: all filters are in the one
-- that the function makes, at the layer of outgoing IPv4 connections.
pub mod Verdicts
use Prim.Native.String.{String}
use an_app.Base.{ℕ, ◌-◌, ◌^◌, Bool, true, false, List, [], ◌∷◌, ◌++◌, Option, none, some, ◌==◌}
use an_app.Script.{Sys, Step, must, ignore, Ran, run}

-- A filter's one condition.
pub data Condition : Type 0 where
  app_is : ℕ → Condition
  local_interface_is : ℕ → Condition
  remote_port_is : ℕ → Condition

pub data Verdict : Type 0 where
  permit : Verdict
  block : Verdict

pub record Filter : Type 0 where
  pub name : String
  pub condition : Condition
  pub action : Verdict
  pub weight : ℕ
  pub clear_action_right : Bool

pub data FwpCall : Type 0 where
  engine_open : FwpCall
  generate_guid : FwpCall
  sub_layer_add : ℕ → FwpCall
  get_current_process_app_id : FwpCall
  filter_add : Filter → FwpCall
  interface_by_name : String → FwpCall
  free_app_id : FwpCall

abbrev pub permit_filter : ℕ → Filter
permit_filter app = record {
  name = "protect ipv4";
  condition = app_is app;
  action = permit;
  weight = 13;
  clear_action_right = true;
}

abbrev pub tun_filter : ℕ → Filter
tun_filter index = record {
  name = "allow ipv4";
  condition = local_interface_is index;
  action = permit;
  weight = 11;
  clear_action_right = false;
}

abbrev pub block_dns_filter : Filter
block_dns_filter = record {
  name = "block ipv4 dns";
  condition = remote_port_is 53;
  action = block;
  weight = 10;
  clear_action_right = false;
}

-- The calls before the deferred free, and those after it; the process and the interface's index are
-- what the platform answers. An error is handed to panic as it is.
abbrev pub session_steps : {E : Type 0} → List (Step FwpCall E E)
session_steps =
    must engine_open (λ e. e)
    ∷ must generate_guid (λ e. e)
    ∷ must (sub_layer_add (2 ^ 16 - 1)) (λ e. e)
    ∷ must get_current_process_app_id (λ e. e)
    ∷ []

abbrev pub filter_steps : {E : Type 0} → String → ℕ → ℕ → List (Step FwpCall E E)
filter_steps name app index =
    must (filter_add (permit_filter app)) (λ e. e)
    ∷ must (interface_by_name name) (λ e. e)
    ∷ must (filter_add (tun_filter index)) (λ e. e)
    ∷ must (filter_add block_dns_filter) (λ e. e)
    ∷ []

-- The deferred free, after the filters, however they end.
unfoldable pub free_after : {W E : Type 0} → Sys W FwpCall E → Ran W FwpCall E → Ran W FwpCall E
free_after sys r = record {
  calls = r.calls ++ (free_app_id ∷ []);
  err = r.err;
  world = (sys r.world free_app_id).1;
}

unfoldable pub config_fwp : {W E : Type 0} → Sys W FwpCall E → String → ℕ → ℕ → W → Ran W FwpCall E
config_fwp sys name app index w =
    let begun = run sys session_steps none w in
    elim begun.err [
      | some e ↦ begun
      | none ↦
          let filters = free_after sys (run sys (filter_steps name app index) none begun.world) in
          record { calls = begun.calls ++ filters.calls; err = filters.err; world = filters.world }
    ]
