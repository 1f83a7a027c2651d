-- ===== src/Gv.antt =====
-- gv/gv.go: Start, which sets the gVisor stack up. The stack is a parameter: a call changes it and
-- may answer an error. `start_steps` lists the calls as the function makes them; `start` runs them
-- and adds the deferred Close. NewSubnet is called on constants and only its error matters: it is
-- kept in `err`, which nothing clears. HandleLocal only reads an option.
pub mod Order
mod Tests
use Prim.Native.String.{String}
use an_app.Base.{ℕ, ◌*◌, ◌^◌, Bool, true, false, List, [], ◌∷◌, ◌++◌, Option, none, some}
use an_app.Script.{Sys, Step, must, note, ignore, Ran, run}

pub data NetworkProtocol : Type 0 where
  ipv4 : NetworkProtocol
  ipv6 : NetworkProtocol

pub data StackCall : Type 0 where
  set_default_ttl : NetworkProtocol → ℕ → StackCall
  set_forwarding : NetworkProtocol → Bool → StackCall
  set_icmp_burst : ℕ → StackCall
  set_icmp_limit : ℕ → StackCall
  set_receive_buffer : ℕ → ℕ → ℕ → StackCall
  set_send_buffer : ℕ → ℕ → ℕ → StackCall
  set_congestion_control : String → StackCall
  set_delay : Bool → StackCall
  handle_local : StackCall
  set_moderate_receive_buffer : Bool → StackCall
  set_sack : Bool → StackCall
  new_subnet : StackCall
  set_route_table : StackCall
  set_tcp_handler : ℕ → ℕ → StackCall
  set_udp_handler : StackCall
  create_nic : ℕ → StackCall
  set_spoofing : Bool → StackCall
  set_promiscuous_mode : Bool → StackCall
  close : StackCall

-- An error of Start: its text, and the error of gVisor that the text ends with. The text of the TCP
-- delay is made with the wrong variable, whose value is nil.
pub record Error (E : Type 0) : Type 0 where
  pub text : String
  pub cause : Option E

abbrev pub with_cause : {E : Type 0} → String → E → Error E
with_cause text e = record { text = text; cause = some e }

abbrev pub without_cause : {E : Type 0} → String → E → Error E
without_cause text e = record { text = text; cause = none }

-- NewSubnet's error is kept as it is.
abbrev pub as_it_is : {E : Type 0} → E → Error E
as_it_is e = record { text = ""; cause = some e }

-- The calls up to HandleLocal, and those after it; the last argument of endpoint.NewEndpoint is the
-- MTU.
abbrev pub option_steps : {E : Type 0} → List (Step StackCall E (Error E))
option_steps =
    must (set_default_ttl ipv4 64) (with_cause "set ipv4 default TTL: ")
    ∷ must (set_default_ttl ipv6 64) (with_cause "set ipv6 default TTL: ")
    ∷ must (set_forwarding ipv4 true) (with_cause "set ipv4 forwarding error: ")
    ∷ must (set_forwarding ipv6 true) (with_cause "set ipv6 forwarding error: ")
    ∷ ignore (set_icmp_burst 50)
    ∷ ignore (set_icmp_limit 1000)
    ∷ must (set_receive_buffer (4 * 2 ^ 10) (212 * 2 ^ 10) (4 * 2 ^ 20))
        (with_cause "set TCP receive buffer size range: ")
    ∷ must (set_send_buffer (4 * 2 ^ 10) (212 * 2 ^ 10) (4 * 2 ^ 20))
        (with_cause "set TCP send buffer size range: ")
    ∷ must (set_congestion_control "reno") (with_cause "set TCP congestion control algorithm: ")
    ∷ must (set_delay false) (without_cause "set TCP delay: ")
    ∷ ignore handle_local
    ∷ must (set_moderate_receive_buffer true) (with_cause "set TCP moderate receive buffer: ")
    ∷ must (set_sack true) (with_cause "set TCP SACK: ")
    ∷ []

abbrev pub device_steps : {E : Type 0} → ℕ → List (Step StackCall E (Error E))
device_steps mtu =
    note new_subnet as_it_is
    ∷ ignore set_route_table
    ∷ ignore (set_tcp_handler (16 * 2 ^ 10) (2 ^ 15))
    ∷ ignore set_udp_handler
    ∷ must (create_nic mtu) (with_cause "fail to create NIC in stack: ")
    ∷ ignore (set_spoofing true)
    ∷ must (set_promiscuous_mode true) (with_cause "set promiscuous mode: ")
    ∷ []

abbrev pub start_steps : {E : Type 0} → ℕ → List (Step StackCall E (Error E))
start_steps mtu = option_steps ++ device_steps mtu

-- The deferred function: Close when there is an error.
unfoldable pub close_on_error :
    {W E : Type 0} → Sys W StackCall E → Ran W StackCall (Error E) → Ran W StackCall (Error E)
close_on_error sys r = elim r.err [
  | none ↦ r
  | some e ↦ record { calls = r.calls ++ (close ∷ []); err = some e; world = (sys r.world close).1 }
]

unfoldable pub start : {W E : Type 0} → Sys W StackCall E → ℕ → W → Ran W StackCall (Error E)
start sys mtu w = close_on_error sys (run sys (start_steps mtu) none w)
