-- ===== src/Udp/Stack/Enforced.antt =====
-- A DNS query while DNS is enforced, from the packet of the TUN side to the packet that goes back:
-- HandleRemotePacket, readRemoteDate and send of forwardUdp.go, with SendDoh of protocol/dns and the
-- configuration's switch.
use Prim.Native.String.{String, len}
use an_app.Base.{
  ℕ, ◌+◌, ◌≤◌, ◌<◌, ◌≡◌, refl, ap, ◌∙◌, Bool, true, false, List, ◌∷◌, Option, none, some, length,
  take, take_of_length-le, drop, arith,
}
use an_app.Io.{ReadAt, IsReaderAt}
use an_app.Config.{ContextConfig, is_enable_enforce_dns, get_enable_enforce_dho}
use an_app.Dns.{Error, Fetched, panicked, refused, body, send_doh, doh_query}
use an_app.Udp.State.{Datagram}
use an_app.Udp.Stack.{
  UdpHeader, NetRoute, Packet, EndpointId, Remote, Reply, returned, new_udp_stack, udp_minimum_size,
  payload_limit, read_remote_date, local_send, handle_remote_packet, answer_dns,
}
use an_app.Udp.Stack.Answers.{handled}
use an_app.Udp.Stack.Sending.{send_ipv4}

-- The datagram to the client: from the port that it has asked to the port that it has asked from.
abbrev pub answer_packet : EndpointId → Datagram → Packet
answer_packet id b = record {
  fields = record {
    src_port = id.local_port;
    dst_port = id.remote_port;
    length = udp_minimum_size + length b;
  };
  checksum = 0;
  payload = b;
}

-- The answer for what the HTTP client has got: the body, if there was no error, and what the route says
-- to the one packet with it; else no body, with the error, or with none after a panic.
abbrev pub answer_to : NetRoute → EndpointId → Fetched → Reply
answer_to route id panicked = returned none none
answer_to route id (refused e) = returned none (some e)
answer_to route id (body b (some e)) = returned none (some e)
answer_to route id (body b none) =
    returned (some b) (route.write_packet (answer_packet id b) route.default_ttl 0)

module _ (header : UdpHeader) (no_checksum : Bool) (route : NetRoute) (id : EndpointId)
    (v4 : route.is_ipv6 ≡ false) where
  local_send_ipv4 :
      (b : Datagram)
      → length b ≤ 65_527
      → local_send header (new_udp_stack no_checksum) (some route) id b
        ≡ some (route.write_packet (answer_packet id b) route.default_ttl 0)
  local_send_ipv4 b fits = rw (send_ipv4 header no_checksum route id b v4 fits, local_send) refl

  module _ (r : Remote) (config : ContextConfig) (address port : String)
      (switch : config.context_client.enable_enforce_dns ≡ true)
      (url : 0 < len config.context_client.enforce_doh) (to_dns : r.port_of address ≡ 53) where
    is_enforced : is_enable_enforce_dns config config.context_client (r.port_of address) ≡ true
    unfolding is_enable_enforce_dns
    is_enforced = rw (switch, to_dns) (ground (arith, url))

    abbrev asked : ℕ → Datagram → Option Datagram × Option Error
    asked b bs = send_doh r.encode r.fetch (get_enable_enforce_dho config) (b ∷ bs)

    asked-fetched :
        (b : ℕ) (bs : Datagram) (fetched : Fetched)
        → r.fetch (doh_query r.encode config.context_client.enforce_doh (b ∷ bs)) ≡ fetched
        → asked b bs ≡ (elim fetched [
          | panicked ↦ (none, none)
          | refused e ↦ (none, some e)
          | body buff e ↦ (some buff, e)
        ])
    unfolding send_doh get_enable_enforce_dho
    asked-fetched b bs fetched e =
        ap
          (λ (x : Fetched). elim x as (λ _. Option Datagram × Option Error) [
            | panicked ↦ (none, none)
            | refused y ↦ (none, some y)
            | body buff y ↦ (some buff, y)
          ])
          e

    answers :
        (b : ℕ) (bs : Datagram) (fetched : Fetched)
        → asked b bs ≡ (elim fetched [
          | panicked ↦ (none, none)
          | refused e ↦ (none, some e)
          | body buff e ↦ (some buff, e)
        ])
        → ((a : Datagram) → fetched ≡ body a none → length a ≤ 65_527)
        → read_remote_date r config
            (local_send header (new_udp_stack no_checksum) (some route) id)
            (b ∷ bs)
            address
            port
          ≡ answer_to route id fetched
    unfolding read_remote_date answer_dns
    answers b bs panicked e fits = ground (arith, is_enforced, e)
    answers b bs (refused x) e fits = ground (arith, is_enforced, e)
    answers b bs (body a (some x)) e fits = ground (arith, is_enforced, e)
    answers b bs (body a none) e fits =
        ground (arith, is_enforced, e, local_send_ipv4 a (fits a refl))

    -- While DNS is enforced, with a URL, on IPv4 and with a buffer that reads as io.ReaderAt documents:
    -- HandleRemotePacket of a query to port 53 (not empty, of at most 2024 bytes) sends no datagram of its
    -- own, and asks the URL for the whole query. When the HTTP client gets a body without an error, of at
    -- most 65527 bytes, the answer is that body, with what WritePacket says to one packet with exactly
    -- the body, the route's TTL and the port that has asked; an error of the request or of the body is
    -- the answer without a body; and after a panic of the request the answer has neither.
    pub enforced_query_is_answered :
        (read_at : ReadAt) (packet : List ℕ) (header_size : ℕ) (b : ℕ) (bs : Datagram)
        → IsReaderAt read_at
        → drop header_size packet ≡ b ∷ bs
        → length (b ∷ bs) ≤ 2024
        → ((a : Datagram)
            → r.fetch (doh_query r.encode config.context_client.enforce_doh (b ∷ bs)) ≡ body a none
            → length a ≤ 65_527)
        → handle_remote_packet header r config read_at
            (new_udp_stack no_checksum)
            (some route)
            id
            packet
            header_size
            address
            port
          ≡ some (
              answer_to route id
                (r.fetch (doh_query r.encode config.context_client.enforce_doh (b ∷ bs))))
    enforced_query_is_answered read_at packet header_size b bs reader query fits answer =
        handled header r config read_at (new_udp_stack no_checksum) (some route) id packet
          header_size address port (b ∷ bs) reader
          (ap (take payload_limit) query ∙ take_of_length-le payload_limit (b ∷ bs) fits)
        ∙ ap some (answers b bs _ (asked-fetched b bs _ refl) answer)
