-- ===== src/Sockets/Order.antt =====
-- The bytes that the socket option gets.
use an_app.Base.{
  ℕ, ◌+◌, ◌*◌, ◌/◌, ◌%◌, ◌^◌, ◌<◌, ◌≡◌, sym, ap, ◌∙◌, List, ◌∷◌, Option, none, Option-cases, inl,
  inr, arith,
}
use an_app.Action.{ok, crash}
use an_app.Routes.{CustomRoute}
use an_app.Sockets.{
  SocketCall, set_int, ipproto_ip, ip_unicast_if, put_uint32, read_uint32, bind4_call, bind4,
  windows_control,
}

-- The four bytes of an int32 value on a little-endian machine, and the number that bytes in network
-- order stand for.
abbrev pub stored : ℕ → ℕ × ℕ × ℕ × ℕ
stored v = (v % 2 ^ 8, v / 2 ^ 8 % 2 ^ 8, v / 2 ^ 16 % 2 ^ 8, v / 2 ^ 24 % 2 ^ 8)

abbrev pub network_order : ℕ × ℕ × ℕ × ℕ → ℕ
network_order (a, b, c, d) = a * 2 ^ 24 + b * 2 ^ 16 + c * 2 ^ 8 + d

stored-read :
    (a b c d : ℕ)
    → a < 256
    → b < 256
    → c < 256
    → d < 256
    → network_order (stored (read_uint32 (a, b, c, d))) ≡ a * 2 ^ 24 + b * 2 ^ 16 + c * 2 ^ 8 + d
unfolding read_uint32
stored-read a b c d ha hb hc hd = omega (arith, ha, hb, hc, hd)

index_bytes : (i : ℕ) → i < 2 ^ 32 → network_order (stored (read_uint32 (put_uint32 i))) ≡ i
unfolding put_uint32
index_bytes i h =
    stored-read (i / 2 ^ 24 % 2 ^ 8) (i / 2 ^ 16 % 2 ^ 8) (i / 2 ^ 8 % 2 ^ 8) (i % 2 ^ 8)
      (omega arith) (omega arith) (omega arith) (omega arith)
    ∙ omega (arith, h)

-- On Windows, when the control function of the dialer returns: its one call has succeeded, and it has
-- set IP_UNICAST_IF of that socket to bytes that are, in network order, the route's interface index.
pub windows_control-binds :
    {E : Type 0} (sys : SocketCall → Option E) (route : CustomRoute) (fd : ℕ)
    (log log' : List SocketCall)
    → route.if_index < 2 ^ 32
    → windows_control sys route fd log ≡ (ok tt, log')
    → (v : ℕ) × (log' ≡ set_int fd ipproto_ip ip_unicast_if v ∷ log)
      × (sys (set_int fd ipproto_ip ip_unicast_if v) ≡ none)
      × (network_order (stored v) ≡ route.if_index)
unfolding windows_control bind4 bind4_call
windows_control-binds {E} sys route fd log log' small e =
    let v = read_uint32 (put_uint32 (route.if_index % 2 ^ 32)) in
    let same : route.if_index % 2 ^ 32 ≡ route.if_index = omega (arith, small) in
    elim (Option-cases (sys (bind4_call fd route.if_index))) [
      | inl good ↦
          let now = rw (good, windows_control, bind4) at e in
          (
            v,
            ap (λ r. r.1) (sym now),
            good,
            ap (λ t. network_order (stored (read_uint32 (put_uint32 t)))) same
                ∙ index_bytes route.if_index small,
          )
      | inr (x, bad) ↦
          let now = rw (bad, windows_control, bind4) at e in
          let never : crash ≡ ok tt = ap (λ r. r.0) now in cc
    ]
