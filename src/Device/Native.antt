-- ===== src/Device/Native.antt =====
-- device/tun.go: NewDevice, Read and Write, which hand one buffer to wireguard's device, and the stack's
-- endpoint on top of Read (Attach of endpoint/endpoint.go). wireguard's Read is a parameter: with one
-- buffer of that many bytes it answers how many packets it has read, the size that it wrote for the first,
-- what the buffer holds then, and an error.
use an_app.Base.{
  ℕ, ◌+◌, ◌<◌, ◌≡◌, refl, List, [], ◌∷◌, Bool-cases, inl, inr, Option, none, some, if◌then◌else◌,
  ltb, take, length,
}
use an_app.Base.Int.{ℤ}
use an_app.Io.{ReadErr}
use an_app.Endpoint.{mtu, DeviceRead, attach_loop}
use an_app.Endpoint.Inbound.{Delivers, accepted, attach_loop-accepted}

pub record Answer : Type 0 where
  pub packets : ℕ
  pub size : ℕ
  pub buf : List ℕ
  pub err : Option ReadErr

abbrev pub NativeRead : Type 0 → Type 0
NativeRead D = D → ℕ → Answer × D

-- Device.Read, with the bytes that its caller takes from the buffer.
unfoldable pub device_read : {D : Type 0} → NativeRead D → DeviceRead D
device_read native d n =
    let (a, d') = native d n in
    if ltb a.packets 1 then (([], a.err), d') else ((take a.size a.buf, a.err), d')

-- Device.Write: wireguard's Write of the one buffer at offset 0.
unfoldable pub device_write :
    {D E : Type 0} → (D → List (List ℕ) → ℕ → (ℕ × Option E) × D) → D → List ℕ → (ℕ × Option E) × D
device_write native d b = native d (b ∷ []) 0

-- NewDevice: CreateTUN with the MTU of package model.
unfoldable pub new_device : {N D : Type 0} → (N → ℕ → D) → N → D
new_device create_tun name = create_tun name mtu

-- wireguard's device has these packets, one a read, at the start of the buffer, and then it is closed.
pub data Queued {D : Type 0} (native : NativeRead D) : D → List (List ℕ) → D → Type 0 where
  closed :
      {d d' : D} {a : Answer} {e : ReadErr}
      → native d (mtu + 4) ≡ (a, d')
      → a.err ≡ some e
      → Queued native d [] d'
  packet :
      {d d' d'' : D} {a : Answer} {p : List ℕ} {ps : List (List ℕ)}
      → native d (mtu + 4) ≡ (a, d')
      → a.err ≡ none
      → a.packets ≡ 1
      → take a.size a.buf ≡ p
      → Queued native d' ps d''
      → Queued native d (p ∷ ps) d''
  nothing :
      {d d' d'' : D} {a : Answer} {ps : List (List ℕ)}
      → native d (mtu + 4) ≡ (a, d')
      → a.err ≡ none
      → a.packets ≡ 0
      → Queued native d' ps d''
      → Queued native d ([] ∷ ps) d''

device_read-Delivers :
    {D : Type 0} (native : NativeRead D) {d d' : D} {ps : List (List ℕ)}
    → Queued native d ps d'
    → Delivers (device_read native) d ps d'
unfolding device_read
device_read-Delivers native (closed {a} {e = err} e f) = elim (Bool-cases (ltb a.packets 1)) [
  | inl few ↦ Delivers.failed {buf = []} {err = err} (rw (e, few, f) refl)
  | inr many ↦ Delivers.failed {buf = take a.size a.buf} {err = err} (rw (e, many, f) refl)
]
device_read-Delivers native (packet {a} e f g h q) =
    Delivers.packet (rw (e, f, g, h) refl) (device_read-Delivers native q)
device_read-Delivers native (nothing {a} e f g q) =
    Delivers.packet (rw (e, f, g) refl) (device_read-Delivers native q)

-- What wireguard's device has read reaches the stack: when it has these packets and is then closed, the
-- goroutine of Attach, which reads it through Device.Read, ends after that, with any fuel above their
-- number, and has handed to the stack exactly the packets of IP version 4 or 6, each under its protocol,
-- in their order. A read of no packet without an error counts as an empty packet.
pub queued_packets_reach_stack :
    {D : Type 0} (native : NativeRead D) (ip_version : List ℕ → ℤ) {d d' : D} {ps : List (List ℕ)}
    (fuel : ℕ)
    → Queued native d ps d'
    → length ps < fuel
    → attach_loop (device_read native) ip_version fuel d [] ≡ some (d', accepted ip_version ps)
queued_packets_reach_stack native ip_version fuel q n =
    attach_loop-accepted (device_read native) ip_version (device_read-Delivers native q) fuel [] n
