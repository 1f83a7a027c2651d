-- ===== src/Packet/Octets.antt =====
-- What IPToUInt32 keeps of an address.
use an_app.Base.{ℕ, ◌+◌, ◌*◌, ◌/◌, ◌%◌, ◌^◌, ◌≡◌, ap, ◌∙◌, List, [], ◌∷◌, some, arith}
use an_app.Base.Words.{Bytes}
use an_app.Net.{Ip}
use an_app.Packet.{sum_octets, ip_to_uint32}

-- The four bytes of a number, the highest first.
abbrev pub bytes_of : ℕ → Ip
bytes_of n = n / 2 ^ 24 ∷ n / 2 ^ 16 % 2 ^ 8 ∷ n / 2 ^ 8 % 2 ^ 8 ∷ n % 2 ^ 8 ∷ []

four :
    {a b c d a' b' c' d' : ℕ}
    → a ≡ a'
    → b ≡ b'
    → c ≡ c'
    → d ≡ d'
    → a ∷ b ∷ c ∷ d ∷ [] ≡ a' ∷ b' ∷ c' ∷ d' ∷ []
four p q r s i = p i ∷ q i ∷ r i ∷ s i ∷ []

-- Of an address of four bytes, written as its four decimal parts, IPToUInt32 makes a number from whose
-- bytes the address comes back: no two addresses have one number.
pub ip_to_uint32-bytes_of :
    (octets : Ip → List ℕ) (a b c d : ℕ)
    → Bytes (a ∷ b ∷ c ∷ d ∷ [])
    → octets (a ∷ b ∷ c ∷ d ∷ []) ≡ a ∷ b ∷ c ∷ d ∷ []
    → (n : ℕ) × (ip_to_uint32 octets (a ∷ b ∷ c ∷ d ∷ []) ≡ some n)
      × (bytes_of n ≡ a ∷ b ∷ c ∷ d ∷ [])
unfolding ip_to_uint32 sum_octets
ip_to_uint32-bytes_of octets a b c d (ha, (hb, (hc, (hd, _)))) e =
    let n = a * 2 ^ 24 + b * 2 ^ 16 + c * 2 ^ 8 + d in
    (
      n,
      ap sum_octets e ∙ ap some (omega (arith, ha, hb, hc, hd)),
      four (omega (arith, ha, hb, hc, hd)) (omega (arith, ha, hb, hc, hd))
          (omega (arith, ha, hb, hc, hd)) (omega (arith, ha, hb, hc, hd)),
    )
