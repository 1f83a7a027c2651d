-- ===== src/Packet/Tests.antt =====
-- An address, and a packet that holds nothing but its protocol.
use an_app.Base.{ℕ, ◌≡◌, refl, List, [], ◌∷◌, Option, none, some, arith}
use an_app.Packet.{protocol_name, parse_ip_data, sum_octets, ip_to_uint32}
use an_app.Packet.Octets.{bytes_of, ip_to_uint32-bytes_of}

google_run :
    (n : ℕ) × (ip_to_uint32 (λ ip. ip) (8 ∷ 8 ∷ 4 ∷ 4 ∷ []) ≡ some n)
    × (bytes_of n ≡ 8 ∷ 8 ∷ 4 ∷ 4 ∷ [])
google_run =
    ip_to_uint32-bytes_of (λ ip. ip) 8 8 4 4
      (omega arith, (omega arith, (omega arith, (omega arith, tt)))) refl

-- An IPv6 address without dots has no second part.
no_dots_run : ip_to_uint32 (λ ip. 0 ∷ []) (0 ∷ 1 ∷ []) ≡ none
unfolding ip_to_uint32 sum_octets
no_dots_run = refl

abbrev first_byte : List ℕ → Option ℕ
first_byte [] = none
first_byte (b ∷ bs) = some b

udp_run :
    parse_ip_data first_byte (λ p. p) (17 ∷ 0 ∷ [])
    ≡ some (record { header = 17; protocol = "udp" })
unfolding parse_ip_data protocol_name
udp_run = refl
