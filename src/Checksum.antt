-- ===== src/Checksum.antt =====
-- tool/tool.go: CalculateChecksum (the IP header checksum) and CalculateTcpChecksum.
-- A byte slice is a list of numbers. The loops over i, i + 1 are recursions two bytes at a time, and
-- the carry loop runs on fuel: `none` means that the fuel ran out.
pub mod Rfc
pub mod Agree
mod Tests
use Prim.Native.Nat.{bit_and, bit_or}
use an_app.Base.{
  ℕ, zero, suc, ◌+◌, ◌-◌, ◌%◌, ◌^◌, List, [], ◌∷◌, Option, none, some, if◌then◌else◌, ltb, ◌==◌,
  length, get_or,
}
use an_app.Base.Words.{add32, shl32, shr}
use mathlib.Core.Option

-- for i := 0; i < length-1; i += 2 { sum += uint32(data[i])<<8 | uint32(data[i+1]) }
sum_pairs : ℕ → List ℕ → ℕ
sum_pairs sum [] = sum
sum_pairs sum (b ∷ []) = sum
sum_pairs sum (hi ∷ lo ∷ rest) = sum_pairs (add32 sum (bit_or (shl32 hi 8) lo)) rest

-- The same loop of the TCP routine, which joins the bytes by `+`.
tcp_sum_pairs : ℕ → List ℕ → ℕ
tcp_sum_pairs sum [] = sum
tcp_sum_pairs sum (b ∷ []) = sum
tcp_sum_pairs sum (hi ∷ lo ∷ rest) = tcp_sum_pairs (add32 sum (add32 (shl32 hi 8) lo)) rest

-- for (sum >> 16) > 0 { sum = (sum & 0xffff) + (sum >> 16) }
fold_carries : ℕ → ℕ → Option ℕ
fold_carries zero sum = none
fold_carries (suc fuel) sum =
    let rest = fold_carries fuel (add32 (bit_and sum 0xffff) (shr sum 16)) in
    if ltb 0 (shr sum 16) then rest else some sum

-- Two rounds always suffice for a uint32, and one more pass sees that the carry is gone.
abbrev fold_fuel : ℕ
fold_fuel = 3

-- The last byte of the slice, which the code reads only if the length is odd.
abbrev last_byte : List ℕ → ℕ
last_byte d = get_or d (length d - 1) 0

-- What stands in `sum` when the carry loop begins.
ip_sum : List ℕ → ℕ
ip_sum d =
    let sum = sum_pairs 0 d in if length d % 2 == 0 then sum else add32 sum (shl32 (last_byte d) 8)

tcp_sum : List ℕ → ℕ
tcp_sum d =
    let sum = tcp_sum_pairs 0 d in if length d % 2 == 0 then sum else add32 sum (last_byte d)

-- checksum := uint16(^sum)
pub calculate_checksum : List ℕ → Option ℕ
calculate_checksum d =
    Option.map (λ s. (2 ^ 32 - 1 - s) % 2 ^ 16) (fold_carries fold_fuel (ip_sum d))

-- checksum := ^uint16(sum)
pub calculate_tcp_checksum : List ℕ → Option ℕ
calculate_tcp_checksum d =
    Option.map (λ s. 2 ^ 16 - 1 - s % 2 ^ 16) (fold_carries fold_fuel (tcp_sum d))
