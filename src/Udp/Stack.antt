-- ===== src/Udp/Stack.antt =====
-- handler/remoteSocketHandler/udp/forwardUdp.go: what happens to one UDP datagram from the TUN side.
-- gVisor and the net package are parameters: a route with its checksum, TTL and WritePacket, the
-- UDP header's Encode and CalculateChecksum, Buffer.ReadAt, FindRoute, ParseAddrPort,
-- ResolveUDPAddr and IP.String. A nil route or address that is dereferenced is a panic, which the
-- recover of HandleRemotePacket ends. Log lines are left out.
pub mod Answers
pub mod Sending
pub mod Enforced
mod Tests
use Prim.Native.String.{String, ◌++◌ as join}
use an_app.Base.{
  ℕ, zero, suc, ◌+◌, ◌-◌, ◌%◌, ◌^◌, Bool, true, false, not, ◌&&◌, ◌||◌, List, Option, none, some,
  if◌then◌else◌, length,
}
use an_app.Net.{Ip}
use an_app.Io.{ReadErr, eof, other, ReadAt}
use an_app.Config.{ContextConfig, is_enable_enforce_dns, get_enable_enforce_dho}
use an_app.Dns.{Error, Fetched, send_doh}
use an_app.Routes.{CustomRoute}
use an_app.Udp.State.{Datagram}

-- stack.TransportEndpointID: the ports are read.
pub record EndpointId : Type 0 where
  pub local_port : ℕ
  pub remote_port : ℕ

-- header.UDPFields as `send` fills it in.
pub record UdpFields : Type 0 where
  pub src_port : ℕ
  pub dst_port : ℕ
  pub length : ℕ

-- The packet that `send` builds.
pub record Packet : Type 0 where
  pub fields : UdpFields
  pub checksum : ℕ
  pub payload : Datagram

-- *stack.Route; WritePacket takes the packet, the TTL and the TOS, and may refuse.
pub record NetRoute : Type 0 where
  pub requires_tx_checksum : Bool
  pub is_ipv6 : Bool
  pub pseudo_header_checksum : ℕ → ℕ
  pub default_ttl : ℕ
  pub write_packet : Packet → ℕ → ℕ → Option Error

-- UdpStack, with the two counters of the route's statistics that `send` increments.
pub record UdpStack : Type 0 where
  pub no_checksum : Bool
  pub use_default_ttl : Bool
  pub ttl : ℕ
  pub tos : ℕ
  pub packets_sent : ℕ
  pub packet_send_errors : ℕ

-- The argument is not used: the field is always true.
pub new_udp_stack : Bool → UdpStack
new_udp_stack no_checksum = record {
  no_checksum = true;
  use_default_ttl = true;
  ttl = 0;
  tos = 0;
  packets_sent = 0;
  packet_send_errors = 0;
}

abbrev pub udp_minimum_size : ℕ
udp_minimum_size = 8

-- The bytes of the UDP header, and gVisor's UDP.CalculateChecksum over them.
pub record UdpHeader : Type 0 where
  pub encode : UdpFields → List ℕ
  pub calculate_checksum : List ℕ → ℕ → ℕ

module _ (header : UdpHeader) where
  -- `length := uint16(pkt.Size())`: the packet is the pushed header and the payload.
  make_fields : EndpointId → Datagram → UdpFields
  make_fields id payload = record {
    src_port = id.local_port;
    dst_port = id.remote_port;
    length = (udp_minimum_size + length payload) % 2 ^ 16;
  }

  -- `udp.SetChecksum(^udp.CalculateChecksum(xsum))`, or the zero that Encode leaves.
  make_checksum : UdpStack → NetRoute → UdpFields → ℕ
  make_checksum st route fields =
      if route.requires_tx_checksum && (not st.no_checksum || route.is_ipv6)
      then 2 ^ 16
        - 1
        - header.calculate_checksum (header.encode fields)
            (route.pseudo_header_checksum fields.length)
      else 0

  pub make_packet : UdpStack → NetRoute → EndpointId → Datagram → Packet
  unfolding make_fields make_checksum
  make_packet st route id payload =
      let fields = make_fields id payload in
      record { fields = fields; checksum = make_checksum st route fields; payload = payload }

  -- `none` is the dereference of a nil route.
  pub send : UdpStack → Option NetRoute → EndpointId → Datagram → Option (UdpStack × Option Error)
  unfolding make_packet
  send st none id payload = none
  send st (some route) id payload =
      let ttl = if st.use_default_ttl then route.default_ttl else st.ttl in
      let packet = make_packet st route id payload in
      let st' = record st { ttl = ttl } in
      some (elim (route.write_packet packet ttl st.tos) [
        | some err ↦ (record st' { packet_send_errors = st'.packet_send_errors + 1 }, some err)
        | none ↦ (record st' { packets_sent = st'.packets_sent + 1 }, none)
      ])

-- `go attachConnect(identify, data, &connectionState{dst: ...})`
pub record Spawn : Type 0 where
  pub identify : String
  pub datagram : Datagram
  pub dst : String

-- What readRemoteDate does: it returns an error or nil, perhaps after handing data to sendLocal; or
-- it starts attachConnect and returns nil; or it panics.
pub data Reply : Type 0 where
  returned : Option Datagram → Option Error → Reply
  spawned : Spawn → Reply
  panicked : Reply

-- What the libraries answer: ParseAddrPort's port (0 on an error), ResolveUDPAddr's address,
-- IP.String, base64, http.Get, and the choice of a route (FindContainRoute on model.Routes).
pub record Remote : Type 0 where
  pub port_of : String → ℕ
  pub resolve : String → Option Ip
  pub ip_string : Ip → String
  pub encode : List ℕ → String
  pub fetch : String → Fetched
  pub find_route : Ip → Option CustomRoute

-- identify := route.Ip.String() + port + "-" + remoteAddressStr
abbrev pub flow_identify : Remote → CustomRoute → String → String → String
flow_identify r route port remote = join (join (join (r.ip_string route.ip) port) "-") remote

module _ (r : Remote) (config : ContextConfig) where
  -- The DoH branch. `send_local` gives `none` where it panics, else its error.
  answer_dns : (Datagram → Option (Option Error)) → Datagram → Reply
  answer_dns send_local query =
      let (buff, err) = send_doh r.encode r.fetch (get_enable_enforce_dho config) query in
      elim buff [
        | none ↦ returned none err
        | some b ↦ elim err [
          | some e ↦ returned none (some e)
          | none ↦ elim (send_local b) [
            | none ↦ panicked
            | some local_err ↦ returned (some b) local_err
          ]
        ]
      ]

  pub read_remote_date : (Datagram → Option (Option Error)) → Datagram → String → String → Reply
  unfolding answer_dns
  read_remote_date send_local query remote port =
      if is_enable_enforce_dns config config.context_client (r.port_of remote)
      then answer_dns send_local query
      else elim (r.resolve remote) [
        | none ↦ panicked
        | some ip ↦ elim (r.find_route ip) [
          | none ↦ panicked
          | some route ↦ spawned (record {
            identify = flow_identify r route port remote;
            datagram = query;
            dst = remote;
          })
        ]
      ]

-- The size of sourPayloadData.
abbrev pub payload_limit : ℕ
payload_limit = 2024

-- What the closure of HandleRemotePacket does with data for the client.
abbrev pub local_send :
    UdpHeader → UdpStack → Option NetRoute → EndpointId → Datagram → Option (Option Error)
local_send header st route id d = elim (send header st route id d) [
  | none ↦ none
  | some sent ↦ some sent.1
]

-- HandleRemotePacket: `none` is the early return on a read error. The address is the destination's
-- text with ":" and the local port, the port the remote port's text; `route` is FindRoute's answer,
-- whose error is only logged.
pub handle_remote_packet :
    UdpHeader
    → Remote
    → ContextConfig
    → ReadAt
    → UdpStack
    → Option NetRoute
    → EndpointId
    → List ℕ
    → ℕ
    → String
    → String
    → Option Reply
unfolding send read_remote_date
handle_remote_packet header r config read_at st route id packet header_size address port =
    let (payload, perr) = read_at packet payload_limit header_size in
    let reply = read_remote_date r config (local_send header st route id) payload address port in
    elim perr [ none ↦ some reply | some e ↦ elim e [ eof ↦ some reply | other ↦ none ] ]
