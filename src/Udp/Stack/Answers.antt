-- ===== src/Udp/Stack/Answers.antt =====
-- readRemoteDate and HandleRemotePacket: enforced DNS, plain datagrams, and the payload's limit.
use Prim.Native.String.{String}
use an_app.Base.{
  ℕ, ◌≤◌, ◌<◌, ◌≡◌, ◌≢◌, refl, ◌⊎◌, true, false, List, [], Option, none, some, length, take, drop,
  take_of_length-le, arith,
}
use an_app.Net.{Ip}
use an_app.Io.{eof, ReadAt, IsReaderAt}
use an_app.Config.{ContextConfig, is_enable_enforce_dns, get_enable_enforce_dho}
use an_app.Dns.{Error, panicked as fetch_panicked, send_doh, doh_query}
use an_app.Routes.{CustomRoute}
use an_app.Udp.State.{Datagram}
use an_app.Udp.Stack.{
  UdpHeader, UdpStack, NetRoute, EndpointId, Remote, Reply, returned, spawned, Spawn,
  read_remote_date, flow_identify, handle_remote_packet, payload_limit, local_send,
}

module _ (r : Remote) (config : ContextConfig) (send_local : Datagram → Option (Option Error))
    (query : Datagram) (remote port : String) where
  abbrev reply : Reply
  reply = read_remote_date r config send_local query remote port

  -- While DNS is enforced for the destination's port, no datagram leaves on a socket of the flow
  -- map, whatever the HTTP client answers; and what is handed back to the client is exactly the
  -- body that SendDoh returned without an error, with the error of that local send.
  pub enforced_dns_answers :
      is_enable_enforce_dns config config.context_client (r.port_of remote) ≡ true
      → ((s : Spawn) → read_remote_date r config send_local query remote port ≢ spawned s)
        × ((d : Datagram) (err : Option Error)
            → read_remote_date r config send_local query remote port ≡ returned (some d) err
            → (send_doh r.encode r.fetch (get_enable_enforce_dho config) query ≡ (some d, none))
              × (send_local d ≡ some err))
  unfolding read_remote_date
  enforced_dns_answers on = (λ s e. ground arith, λ d err e. ground arith)

  -- A query that is not empty and whose request panics is given up in silence: nothing is handed to
  -- the client, and readRemoteDate reports no error.
  pub panicking_doh_is_silent :
      is_enable_enforce_dns config config.context_client (r.port_of remote) ≡ true
      → query ≢ []
      → r.fetch (doh_query r.encode (get_enable_enforce_dho config) query) ≡ fetch_panicked
      → read_remote_date r config send_local query remote port ≡ returned none none
  unfolding read_remote_date send_doh
  panicking_doh_is_silent on some_query e = ground arith

  -- Any other datagram whose address resolves and has a route starts attachConnect with itself, under
  -- the identify made of the outbound address, the client's port and the destination.
  pub plain_datagram_is_attached :
      (ip : Ip) (route : CustomRoute)
      → is_enable_enforce_dns config config.context_client (r.port_of remote) ≡ false
      → r.resolve remote ≡ some ip
      → r.find_route ip ≡ some route
      → read_remote_date r config send_local query remote port
        ≡ spawned (record {
          identify = flow_identify r route port remote;
          datagram = query;
          dst = remote;
        })
  unfolding read_remote_date
  plain_datagram_is_attached ip route off e f = ground arith

module _ (header : UdpHeader) (r : Remote) (config : ContextConfig) (read_at : ReadAt)
    (st : UdpStack) (route : Option NetRoute) (id : EndpointId) (packet : List ℕ) (header_size : ℕ)
    (address port : String) where
  read_is_good :
      IsReaderAt read_at
      → ((read_at packet payload_limit header_size).1 ≡ none)
        ⊎ ((read_at packet payload_limit header_size).1 ≡ some eof)
  read_is_good reader = ground (
    arith,
    reader.short packet payload_limit header_size,
    reader.more packet payload_limit header_size,
    reader.exact packet payload_limit header_size,
  )

  pub handled :
      (payload : Datagram)
      → IsReaderAt read_at
      → take payload_limit (drop header_size packet) ≡ payload
      → handle_remote_packet header r config read_at st route id packet header_size address port
        ≡ some (read_remote_date r config (local_send header st route id) payload address port)
  unfolding handle_remote_packet
  handled payload reader e =
      ground (arith, read_is_good reader, reader.copies packet payload_limit header_size, e)

  -- With a buffer that reads as io.ReaderAt documents, HandleRemotePacket never ends at its read. A
  -- payload of at most 2024 bytes is handled whole, as readRemoteDate does; of a longer one the first
  -- 2024 bytes are handled as if they were the datagram.
  pub payload_is_cut :
      IsReaderAt read_at
      → let payload = drop header_size packet in
        let answer =
          handle_remote_packet header r config read_at st route id packet header_size address
            port in
        let reply : Datagram → Reply =
          λ d. read_remote_date r config (local_send header st route id) d address port in
        (length payload ≤ 2024 → answer ≡ some (reply payload))
        × (2024 < length payload → answer ≡ some (reply (take 2024 payload)))
  payload_is_cut reader =
      let payload = drop header_size packet in
      (
        λ fits. handled payload reader (take_of_length-le payload_limit payload fits),
        λ long. handled (take 2024 payload) reader refl,
      )
