-- ===== src/Checksum/Tests.antt =====
-- Runs of the checksum routines, and their theorems at concrete slices.
use an_app.Base.{ℕ, ◌≡◌, ◌≢◌, refl, List, [], ◌∷◌, ◌++◌, some, arith}
use an_app.Checksum.{
  calculate_checksum, calculate_tcp_checksum, ip_sum, tcp_sum, sum_pairs, tcp_sum_pairs,
  fold_carries,
}
use an_app.Checksum.Rfc.{rfc_checksum}
use an_app.Checksum.Agree.{calculate_checksum-rfc, checksum_verifies, tcp_checksum-odd}

-- An IPv4 header with its checksum field zeroed.
abbrev header : List ℕ
header =
    0x45 ∷ 0x00 ∷ 0x00 ∷ 0x73 ∷ 0x00 ∷ 0x00 ∷ 0x40 ∷ 0x00 ∷ 0x40 ∷ 0x11 ∷ 0x00 ∷ 0x00 ∷ 0xc0 ∷ 0xa8
    ∷ 0x00 ∷ 0x01 ∷ 0xc0 ∷ 0xa8 ∷ 0x00 ∷ 0xc7 ∷ []

abbrev odd : List ℕ
odd = 0x12 ∷ 0x34 ∷ 0x56 ∷ []

header_checksum : calculate_checksum header ≡ some 0xb861
unfolding calculate_checksum ip_sum sum_pairs fold_carries
header_checksum = refl

odd_checksums : (calculate_checksum odd ≡ some 0x97cb) × (calculate_tcp_checksum odd ≡ some 0xed75)
unfolding calculate_checksum ip_sum sum_pairs fold_carries calculate_tcp_checksum tcp_sum
    tcp_sum_pairs
odd_checksums = (refl, refl)

calculate_checksum-rfc_example : calculate_checksum odd ≡ some (rfc_checksum odd)
calculate_checksum-rfc_example = calculate_checksum-rfc odd (omega arith) (omega arith)

checksum_verifies_example : calculate_checksum (header ++ (0xb8 ∷ 0x61 ∷ [])) ≡ some 0
checksum_verifies_example =
    checksum_verifies header 0xb861 (omega arith) refl (omega arith) header_checksum

tcp_checksum-odd_example : (c : ℕ) × (calculate_tcp_checksum odd ≡ some c) × (c ≢ rfc_checksum odd)
tcp_checksum-odd_example = tcp_checksum-odd odd (omega arith) (omega arith) refl (omega arith)
