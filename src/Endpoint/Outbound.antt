-- ===== src/Endpoint/Outbound.antt =====
-- What WriteNotify writes to the device.
use an_app.Base.{
  ℕ, zero, suc, ◌+◌, ◌<◌, ◌≤◌, ◌≡◌, refl, List, ◌++◌, none, some, length, arith, take_of_length-le,
}
use an_app.Io.{ReadAt, IsReaderAt}
use an_app.Endpoint.{mtu, Packet, is_eof, copy_body, DeviceWrite, write_buffer, write_notify}

copy_body-short :
    (read_at : ReadAt)
    → IsReaderAt read_at
    → (fuel : ℕ) (body buf : List ℕ) → length body < 2048
    → copy_body read_at (suc fuel) body buf ≡ some (buf ++ body)
unfolding copy_body is_eof
copy_body-short read_at r fuel body buf n = rw (
  r.short body 2048 0 n,
  copy_body,
  r.copies body 2048 0,
  take_of_length-le 2048 body (omega arith),
)

copy_body-long :
    (read_at : ReadAt)
    → IsReaderAt read_at
    → (fuel : ℕ) (body buf : List ℕ) → 2048 < length body
    → copy_body read_at fuel body buf ≡ none
unfolding copy_body is_eof
copy_body-long read_at r zero body buf n = refl
copy_body-long read_at r (suc fuel) body buf n =
    rw (r.more body 2048 0 n, copy_body)
      (copy_body-long read_at r fuel body (buf ++ (read_at body 2048 0).0) n)

-- When gVisor's buffer reads as io.ReaderAt documents, a packet whose headers and payload together
-- fit the MTU of 1500 bytes is written to the device whole and unchanged by one Write, and the call
-- returns, in the first round of its loop.
pub write_notify-whole :
    {W : Type 0} (write : DeviceWrite W) (read_at : ReadAt)
    → IsReaderAt read_at
    → (fuel : ℕ) (pkt : Packet) (w : W)
    → length (pkt.network_header ++ pkt.transport_header) + length pkt.payload ≤ mtu
    → write_notify write read_at (suc fuel) (some pkt) w
      ≡ some (write_buffer write w ((pkt.network_header ++ pkt.transport_header) ++ pkt.payload))
unfolding write_notify
write_notify-whole write read_at r fuel pkt w n = rw (
  copy_body-short read_at r fuel pkt.payload (pkt.network_header ++ pkt.transport_header)
      (omega arith),
  write_notify,
)

-- When gVisor's buffer reads as io.ReaderAt documents, a packet with a payload of more than 2048 bytes
-- is never written: the loop reads the same first 2048 bytes for ever, so after any number of rounds
-- the call still runs, with the mutex locked.
pub write_notify-stuck :
    {W : Type 0} (write : DeviceWrite W) (read_at : ReadAt)
    → IsReaderAt read_at
    → (fuel : ℕ) (pkt : Packet) (w : W) → 2048 < length pkt.payload
    → write_notify write read_at fuel (some pkt) w ≡ none
unfolding write_notify
write_notify-stuck write read_at r fuel pkt w n = rw (
  copy_body-long read_at r fuel pkt.payload (pkt.network_header ++ pkt.transport_header) n,
  write_notify,
)
