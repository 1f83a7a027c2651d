-- ===== src/Endpoint/Tests.antt =====
-- Runs of the endpoint with a device that replays a list of packets and records what is written.
use an_app.Base.Int.{ℤ, pos, negsuc}
use an_app.Base.{ℕ, zero, suc, ◌≡◌, refl, List, [], ◌∷◌, ◌++◌, none, some, ◌/◌, arith, length}
use an_app.Io.{other, plain_read, plain_read-IsReaderAt}
use an_app.Endpoint.{
  ipv4, ipv6, protocol_of, DeviceRead, attach_loop, Packet, panicked, DeviceWrite, write_notify,
  Injected,
}
use an_app.Endpoint.Inbound.{Delivers, failed, packet, attach_loop-accepted}
use an_app.Device.Native.{NativeRead, device_read, Queued, queued_packets_reach_stack}
use an_app.Endpoint.Outbound.{write_notify-stuck}

abbrev replay : DeviceRead (List (List ℕ))
replay [] n = (([], some other), [])
replay (p ∷ ps) n = ((p, none), ps)

-- The upper half of the first byte.
abbrev version : List ℕ → ℤ
version [] = negsuc 0
version (b ∷ bs) = pos (b / 16)

abbrev traffic : List (List ℕ)
traffic = (0x45 ∷ 1 ∷ []) ∷ (0x12 ∷ []) ∷ [] ∷ (0x60 ∷ 2 ∷ []) ∷ []

abbrev handed : Injected
handed = (ipv4, 0x45 ∷ 1 ∷ []) ∷ (ipv6, 0x60 ∷ 2 ∷ []) ∷ []

traffic_delivered : Delivers replay traffic traffic []
traffic_delivered = packet refl (packet refl (packet refl (packet refl (failed refl))))

accepted_run : attach_loop replay version 5 traffic [] ≡ some ([], handed)
unfolding protocol_of
accepted_run = attach_loop-accepted replay version traffic_delivered 5 [] (omega arith)

abbrev record_write : DeviceWrite (List (List ℕ))
record_write w buf = (none, w ++ (buf ∷ []))

abbrev small : Packet
small = record {
  network_header = 0x45 ∷ 0 ∷ [];
  transport_header = 17 ∷ [];
  payload = 1 ∷ 2 ∷ 3 ∷ [];
}

abbrev long_list : ℕ → List ℕ
long_list zero = []
long_list (suc n) = 7 ∷ long_list n

length-long_list : (n : ℕ) → length (long_list n) ≡ n
length-long_list zero = refl
length-long_list (suc n) = omega (arith, length-long_list n)

abbrev jumbo : Packet
jumbo = record { network_header = []; transport_header = []; payload = long_list 2049 }

write_notify-stuck_example : write_notify record_write plain_read 6 (some jumbo) [] ≡ none
write_notify-stuck_example =
    write_notify-stuck record_write plain_read plain_read-IsReaderAt 6 jumbo []
      (omega (arith, length-long_list 2049))

-- A nil packet from channel.Endpoint.Read.
nil_packet : write_notify record_write plain_read 1 none [] ≡ some panicked
unfolding write_notify
nil_packet = refl

-- A device under the endpoint whose third read finds nothing.
abbrev wintun : NativeRead (List (List ℕ))
wintun [] n = (record { packets = 0; size = 0; buf = []; err = some other }, [])
wintun ([] ∷ ps) n = (record { packets = 0; size = 0; buf = []; err = none }, ps)
wintun ((b ∷ p) ∷ ps) n =
    (record { packets = 1; size = length (b ∷ p); buf = b ∷ (p ++ (0 ∷ 0 ∷ [])); err = none }, ps)

traffic_queued : Queued wintun traffic traffic []
traffic_queued = Queued.packet refl refl refl refl (
    Queued.packet refl refl refl refl
      (Queued.nothing refl refl refl (Queued.packet refl refl refl refl (Queued.closed refl refl))))

queued_packets_reach_stack_example :
    attach_loop (device_read wintun) version 5 traffic [] ≡ some ([], handed)
unfolding protocol_of
queued_packets_reach_stack_example =
    queued_packets_reach_stack wintun version 5 traffic_queued (omega arith)
