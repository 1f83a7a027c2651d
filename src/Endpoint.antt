-- ===== src/Endpoint.antt =====
-- endpoint/endpoint.go: the link endpoint between the TUN device and the gVisor stack. `attach_loop`
-- is the goroutine of Attach, which hands what the device reads to the stack; `write_notify` writes a
-- packet of the stack back to the device. The device, header.IPVersion (an `int`) and the packet that
-- channel.Endpoint.Read answers are parameters; nil from Read is `none`. The field `buff` is scratch
-- space: only its first 0 bytes are ever read. Both loops have fuel, and `none` is a loop that is
-- still running; the length of what the device delivers bounds the fuel of the first.
pub mod Inbound
pub mod Outbound
mod Tests
use an_app.Base.Int.{ℤ, is_ℕ}
use an_app.Base.{
  ℕ, zero, suc, ◌+◌, ◌%◌, ◌^◌, List, [], ◌∷◌, ◌++◌, Bool, true, false, Option, none, some,
  if◌then◌else◌,
}
use an_app.Io.{ReadErr, eof, other, ReadAt}

-- model.MTU
abbrev pub mtu : ℕ
mtu = 1500

pub data Protocol : Type 0 where
  ipv4 : Protocol
  ipv6 : Protocol

-- The switch on header.IPVersion.
pub protocol_of : ℤ → Option Protocol
protocol_of v = if is_ℕ v 4 then some ipv4 else if is_ℕ v 6 then some ipv6 else none

-- The Endpoint over a device, which may be nil: the length of its queue and its MTU, who is told of
-- packets for the device, and the scratch buffer.
pub record LinkEndpoint (D : Type 0) : Type 0 where
  pub queue : ℕ
  pub channel_mtu : ℕ
  pub device : Option D
  pub notifies_itself : Bool
  pub buff : List ℕ

abbrev pub zeros : ℕ → List ℕ
zeros zero = []
zeros (suc n) = 0 ∷ zeros n

-- NewEndpoint. The test for nil compares an interface value that holds a *device.Device, which is
-- never nil, so it does not panic for any device.
unfoldable pub new_endpoint : {D : Type 0} → Option D → ℕ → LinkEndpoint D
new_endpoint dev size = record {
  queue = 512;
  channel_mtu = size % 2 ^ 32;
  device = dev;
  notifies_itself = true;
  buff = zeros size;
}

-- What InjectInbound was called with, in order.
abbrev pub Injected : Type 0
Injected = List (Protocol × List ℕ)

-- A Read into a buffer of that many bytes: the bytes it put there, and its error.
abbrev pub DeviceRead : Type 0 → Type 0
DeviceRead D = D → ℕ → (List ℕ × Option ReadErr) × D

pub inject : Option Protocol → List ℕ → Injected → Injected
inject none buf done = done
inject (some p) buf done = done ++ ((p, buf) ∷ [])

pub attach_loop :
    {D : Type 0} → DeviceRead D → (List ℕ → ℤ) → ℕ → D → Injected → Option (D × Injected)
attach_loop read ip_version zero d done = none
attach_loop read ip_version (suc fuel) d done =
    let ((buf, err), d') = read d (mtu + 4) in
    elim err [
      | some e ↦ some (d', done)
      | none ↦ attach_loop read ip_version fuel d' (inject (protocol_of (ip_version buf)) buf done)
    ]

pub record Packet : Type 0 where
  pub network_header : List ℕ
  pub transport_header : List ℕ
  pub payload : List ℕ

pub is_eof : Option ReadErr → Bool
is_eof none = false
is_eof (some eof) = true
is_eof (some other) = false

-- The `for` loop of WriteNotify, which reads at offset 0 in every round.
pub copy_body : ReadAt → ℕ → List ℕ → List ℕ → Option (List ℕ)
copy_body read_at zero body buf = none
copy_body read_at (suc fuel) body buf =
    let (chunk, err) = read_at body 2048 0 in
    elim (is_eof err) [
      | true ↦ some (buf ++ chunk)
      | false ↦ copy_body read_at fuel body (buf ++ chunk)
    ]

-- How WriteNotify ends: it panicked on the nil packet, with the mutex locked, or it has written to
-- the device and unlocked. An error of the write is logged only.
pub data Notified (W : Type 0) : Type 0 where
  panicked : Notified W
  wrote : Option ReadErr → W → Notified W

-- The device's Write.
abbrev pub DeviceWrite : Type 0 → Type 0
DeviceWrite W = W → List ℕ → Option ReadErr × W

pub write_buffer : {W : Type 0} → DeviceWrite W → W → List ℕ → Notified W
write_buffer write w buf = let (err, w') = write w buf in wrote err w'

pub write_notify :
    {W : Type 0} → DeviceWrite W → ReadAt → ℕ → Option Packet → W → Option (Notified W)
write_notify write read_at fuel none w = some panicked
write_notify write read_at fuel (some pkt) w =
    elim (copy_body read_at fuel pkt.payload (pkt.network_header ++ pkt.transport_header)) [
      | none ↦ none
      | some buf ↦ some (write_buffer write w buf)
    ]
