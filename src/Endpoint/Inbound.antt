-- ===== src/Endpoint/Inbound.antt =====
-- What the goroutine of Attach hands to the stack.
use an_app.Base.Int.{ℤ, pos, negsuc}
use an_app.Base.{
  ℕ, zero, suc, ◌+◌, ◌<◌, ◌≡◌, refl, sym, List, [], ◌∷◌, ◌++◌, none, some, length, arith,
  if◌then◌else◌, ◌==◌,
}
use an_app.Io.{ReadErr}
use an_app.Endpoint.{mtu, ipv4, ipv6, protocol_of, Injected, DeviceRead, inject, attach_loop}
use mathlib.Core.List.{append_assoc, append-nil}

-- The device delivers these packets, one a read, and then a read fails.
pub data Delivers {D : Type 0} (read : DeviceRead D) : D → List (List ℕ) → D → Type 0 where
  failed :
      {d d' : D} {buf : List ℕ} {err : ReadErr}
      → read d (mtu + 4) ≡ ((buf, some err), d')
      → Delivers read d [] d'
  packet :
      {d d' d'' : D} {buf : List ℕ} {ps : List (List ℕ)}
      → read d (mtu + 4) ≡ ((buf, none), d')
      → Delivers read d' ps d''
      → Delivers read d (buf ∷ ps) d''

-- A packet of version 4 goes in as IPv4, one of version 6 as IPv6, and any other not at all.
abbrev pub by_version : ℤ → List ℕ → Injected → Injected
by_version (negsuc n) p rest = rest
by_version (pos n) p rest =
    if n == 4 then (ipv4, p) ∷ rest else if n == 6 then (ipv6, p) ∷ rest else rest

abbrev pub accepted : (List ℕ → ℤ) → List (List ℕ) → Injected
accepted ip_version [] = []
accepted ip_version (p ∷ ps) = by_version (ip_version p) p (accepted ip_version ps)

inject-by_version :
    (v : ℤ) (p : List ℕ) (done rest : Injected)
    → inject (protocol_of v) p done ++ rest ≡ done ++ by_version v p rest
unfolding inject protocol_of
inject-by_version (negsuc n) p done rest = refl
inject-by_version (pos n) p done rest =
    ground (arith, append_assoc done ((ipv4, p) ∷ []) rest, append_assoc done ((ipv6, p) ∷ []) rest)

-- When the device delivers packets until a read fails, the goroutine ends after that read, with any
-- fuel above the number of packets, and has handed to the stack exactly the packets of IP version 4
-- or 6, each under its protocol, in the order of delivery; what came with the failed read is dropped.
pub attach_loop-accepted :
    {D : Type 0} (read : DeviceRead D) (ip_version : List ℕ → ℤ) {d d' : D} {ps : List (List ℕ)}
    → Delivers read d ps d'
    → (fuel : ℕ) (done : Injected) → length ps < fuel
    → attach_loop read ip_version fuel d done ≡ some (d', done ++ accepted ip_version ps)
unfolding attach_loop
attach_loop-accepted read ip_version h zero done n = absurd (omega arith)
attach_loop-accepted read ip_version (failed e) (suc fuel) done n =
    rw (e, attach_loop, append-nil done, e)
attach_loop-accepted read ip_version (packet {buf} {ps} e h) (suc fuel) done n =
    rw
      (
        e,
        attach_loop,
        e,
        sym (inject-by_version (ip_version buf) buf done (accepted ip_version ps)),
      )
      (attach_loop-accepted read ip_version h fuel (inject (protocol_of (ip_version buf)) buf done)
        (omega arith))
