-- ===== src/Udp/Stack/Sending.antt =====
-- `send`: the packet that goes back to the client.
use an_app.Base.{◌+◌, ◌≤◌, ◌≡◌, Bool, false, none, some, length, arith}
use an_app.Udp.State.{Datagram}
use an_app.Udp.Stack.{
  UdpHeader, NetRoute, Packet, EndpointId, new_udp_stack, make_packet, send, udp_minimum_size,
}

make_packet_ipv4 :
    (header : UdpHeader) (no_checksum : Bool) (route : NetRoute) (id : EndpointId) (d : Datagram)
    → route.is_ipv6 ≡ false
    → length d ≤ 65527
    → make_packet header (new_udp_stack no_checksum) route id d ≡ record {
      fields = record {
        src_port = id.local_port;
        dst_port = id.remote_port;
        length = udp_minimum_size + length d;
      };
      checksum = 0;
      payload = d;
    }
unfolding make_packet new_udp_stack
make_packet_ipv4 header no_checksum route id d v4 size = ground arith

-- On an IPv4 route, the stack that NewUdpStack makes (whatever its argument) writes, with the
-- route's TTL, the packet from the remote port to the client's: its length field is the true length
-- of a payload of at most 65527 bytes, and it has no checksum. The result is WritePacket's, and one
-- of the two counters goes up.
pub send_ipv4 :
    (header : UdpHeader) (no_checksum : Bool) (route : NetRoute) (id : EndpointId) (d : Datagram)
    → route.is_ipv6 ≡ false
    → length d ≤ 65527
    → let packet : Packet = record {
      fields = record {
        src_port = id.local_port;
        dst_port = id.remote_port;
        length = udp_minimum_size + length d;
      };
      checksum = 0;
      payload = d;
    } in
      let err = route.write_packet packet route.default_ttl 0 in
      send header (new_udp_stack no_checksum) (some route) id d
      ≡ some (
        record (new_udp_stack no_checksum) {
          ttl = route.default_ttl;
          packets_sent = elim err [ none ↦ 1 | some e ↦ 0 ];
          packet_send_errors = elim err [ none ↦ 0 | some e ↦ 1 ];
        },
        err,
      )
unfolding send new_udp_stack
send_ipv4 header no_checksum route id d v4 size =
    rw (make_packet_ipv4 header no_checksum route id d v4 size) (ground arith)
