-- ===== src/Packet.antt =====
-- tool/tool.go, ParseIpData and IPToUInt32, and model/ipPacket.go: the header of a packet, and an
-- address as a number. Header.Parse, IP.String, strings.Split and strconv.Atoi are parameters: octets
-- is what the last three make of an address, 0 for a part that is no number.
pub mod Octets
mod Tests
use Prim.Native.String.{String}
use an_app.Base.{
  ℕ, ◌%◌, ◌^◌, Bool, true, false, List, [], ◌∷◌, Option, none, some, if◌then◌else◌, ◌==◌,
}
use an_app.Base.Words.{add32, shl32}
use an_app.Net.{Ip}

-- H is ipv4.Header.
pub record IpPacket (H : Type 0) : Type 0 where
  pub header : H
  pub protocol : String

-- The switch over header.Protocol.
unfoldable pub protocol_name : ℕ → String
protocol_name p =
    if p == 1 then "icmp" else if p == 6 then "tcp" else if p == 17 then "udp" else "unknown"

-- `none` is the panic for a header that does not parse.
unfoldable pub parse_ip_data :
    {H : Type 0} → (List ℕ → Option H) → (H → ℕ) → List ℕ → Option (IpPacket H)
parse_ip_data parse protocol_of data_bytes = elim (parse data_bytes) [
  | none ↦ none
  | some h ↦ some (record { header = h; protocol = protocol_name (protocol_of h) })
]

-- The sum of uint32(b) << k; a missing part is an index out of range, `none`.
unfoldable pub sum_octets : List ℕ → Option ℕ
sum_octets [] = none
sum_octets (b0 ∷ []) = none
sum_octets (b0 ∷ b1 ∷ []) = none
sum_octets (b0 ∷ b1 ∷ b2 ∷ []) = none
sum_octets (b0 ∷ b1 ∷ b2 ∷ b3 ∷ more) = some (
    add32 (add32 (add32 (shl32 (b0 % 2 ^ 32) 24) (shl32 (b1 % 2 ^ 32) 16)) (shl32 (b2 % 2 ^ 32) 8))
      (b3 % 2 ^ 32))

unfoldable pub ip_to_uint32 : (Ip → List ℕ) → Ip → Option ℕ
ip_to_uint32 octets ip = sum_octets (octets ip)
