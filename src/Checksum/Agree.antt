-- ===== src/Checksum/Agree.antt =====
-- The two checksum routines against RFC 1071.
use Prim.Native.Nat.{bit_or}
use an_app.Base.{
  ℕ, suc, ◌+◌, ◌-◌, ◌*◌, ◌/◌, ◌%◌, ◌^◌, ◌≤◌, ◌<◌, ◌≡◌, ◌≢◌, ◌∙◌, List, [], ◌∷◌, ◌++◌, some,
  if◌then◌else◌, ◌==◌, length, arith, All-append, length-append,
}
use an_app.Base.Words.{Bytes, add32, shl32}
use an_app.Base.Bits.{bit_and_low16, bit_or_byte}
use an_app.Checksum.Rfc.{words, total, residue, rfc_checksum, ones_sum-residue, total-le}
use an_app.Checksum.{
  sum_pairs, tcp_sum_pairs, fold_carries, fold_fuel, last_byte, ip_sum, tcp_sum, calculate_checksum,
  calculate_tcp_checksum,
}

-- Two rounds of the carry loop at most, and their result.
fold_carries_lem : (s : ℕ) → s < 2 ^ 32 → fold_carries fold_fuel s ≡ some (residue s)
unfolding fold_carries
fold_carries_lem s h =
    let s1 = s % 0x10000 + s / 0x10000 in ground (arith, bit_and_low16 s, bit_and_low16 s1)

pair_word : (hi lo : ℕ) → hi < 256 → lo < 256 → bit_or (shl32 hi 8) lo ≡ hi * 256 + lo
pair_word hi lo p q =
    let small : shl32 hi 8 ≡ hi * 256 = omega arith in rw small (bit_or_byte hi lo q)

abbrev finish : ℕ → List ℕ → ℕ
finish sum d = if length d % 2 == 0 then sum else add32 sum (shl32 (last_byte d) 8)

abbrev tcp_finish : ℕ → List ℕ → ℕ
tcp_finish sum d = if length d % 2 == 0 then sum else add32 sum (last_byte d)

-- Two more bytes in front change neither the parity nor the last byte.
last_byte_skip :
    (hi lo x : ℕ) (rest : List ℕ) → last_byte (hi ∷ lo ∷ x ∷ rest) ≡ last_byte (x ∷ rest)
last_byte_skip hi lo x rest =
    let long : length (hi ∷ lo ∷ x ∷ rest) - 1 ≡ suc (suc (length rest)) = omega arith in
    let short : length (x ∷ rest) - 1 ≡ length rest = omega arith in rw (long, short)

parity_skip : (n : ℕ) → (suc (suc n) % 2 == 0) ≡ (n % 2 == 0)
parity_skip n = ground arith

sum_pairs_lem :
    (acc : ℕ) (d : List ℕ)
    → Bytes d
    → acc + total (words d) < 2 ^ 32
    → finish (sum_pairs acc d) d ≡ acc + total (words d)
unfolding sum_pairs
sum_pairs_lem acc [] h m = omega arith
sum_pairs_lem acc (b ∷ []) h m = omega arith
sum_pairs_lem acc (hi ∷ lo ∷ []) h m = rw (pair_word hi lo h.0 h.1.0) (omega arith)
sum_pairs_lem acc (hi ∷ lo ∷ x ∷ rest) h m =
    rw (pair_word hi lo h.0 h.1.0, last_byte_skip hi lo x rest, parity_skip (length (x ∷ rest)))
      (sum_pairs_lem (add32 acc (hi * 256 + lo)) (x ∷ rest) h.1.1 (omega arith) ∙ omega arith)

ip_sum_lem : (d : List ℕ) → Bytes d → length d ≤ 131074 → ip_sum d ≡ total (words d)
unfolding ip_sum
ip_sum_lem d h n = sum_pairs_lem 0 d h (omega (arith, total-le d h)) ∙ omega arith

-- For a slice of at most 131074 bytes, the longest whose word sum cannot overflow the uint32
-- accumulator, CalculateChecksum returns, and returns the checksum of RFC 1071.
pub calculate_checksum-rfc :
    (d : List ℕ) → Bytes d → length d ≤ 131074 → calculate_checksum d ≡ some (rfc_checksum d)
unfolding calculate_checksum
calculate_checksum-rfc d h n =
    let small : total (words d) < 2 ^ 32 = omega (arith, total-le d h) in
    rw (ip_sum_lem d h n, fold_carries_lem (total (words d)) small, ones_sum-residue d h)
      (ground arith)

words-append :
    (d : List ℕ) (hi lo : ℕ)
    → length d % 2 ≡ 0
    → total (words (d ++ (hi ∷ lo ∷ []))) ≡ total (words d) + hi * 256 + lo
words-append [] hi lo e = omega arith
words-append (b ∷ []) hi lo e = absurd (omega arith)
words-append (x ∷ y ∷ rest) hi lo e = omega (arith, words-append rest hi lo (omega arith))

-- The complement of a residue brings the sum to all ones.
complement_cancels :
    (t c : ℕ)
    → 0xffff - residue t ≡ c
    → some (0xffff - residue (t + c / 256 * 256 + c % 256)) ≡ some 0
complement_cancels t c e = ground arith

-- A slice of even length, followed by its own checksum with the high byte first, has the checksum
-- zero: this is how a receiver verifies a packet. The whole has at most 131074 bytes.
pub checksum_verifies :
    (d : List ℕ) (c : ℕ)
    → Bytes d
    → length d % 2 ≡ 0
    → length d ≤ 131072
    → calculate_checksum d ≡ some c
    → calculate_checksum (d ++ (c / 256 ∷ c % 256 ∷ [])) ≡ some 0
checksum_verifies d c h e n made =
    let all = d ++ (c / 256 ∷ c % 256 ∷ []) in
    let value : 0xffff - residue (total (words d)) ≡ c =
      ground (arith, made, calculate_checksum-rfc d h (omega arith), ones_sum-residue d h) in
    let bytes : Bytes all =
      All-append (λ b. b < 256) d (c / 256 ∷ c % 256 ∷ []) h (omega arith, (omega arith, tt)) in
    let size : length all ≤ 131074 = omega (arith, length-append d (c / 256 ∷ c % 256 ∷ [])) in
    calculate_checksum-rfc all bytes size
    ∙ rw (ones_sum-residue all bytes, words-append d (c / 256) (c % 256) e)
        (complement_cancels (total (words d)) c value)

tail_byte : List ℕ → ℕ
tail_byte d = if length d % 2 == 0 then 0 else last_byte d

tcp_pair_word : (hi lo : ℕ) → hi < 256 → lo < 256 → add32 (shl32 hi 8) lo ≡ hi * 256 + lo
tcp_pair_word hi lo p q = omega arith

tcp_sum_pairs_lem :
    (acc : ℕ) (d : List ℕ)
    → Bytes d
    → acc + total (words d) < 2 ^ 32
    → tcp_finish (tcp_sum_pairs acc d) d + 255 * tail_byte d ≡ acc + total (words d)
unfolding tcp_sum_pairs tail_byte
tcp_sum_pairs_lem acc [] h m = omega arith
tcp_sum_pairs_lem acc (b ∷ []) h m = omega arith
tcp_sum_pairs_lem acc (hi ∷ lo ∷ []) h m = omega arith
tcp_sum_pairs_lem acc (hi ∷ lo ∷ x ∷ rest) h m =
    rw (tcp_pair_word hi lo h.0 h.1.0, last_byte_skip hi lo x rest, parity_skip (length (x ∷ rest)))
      (tcp_sum_pairs_lem (add32 acc (hi * 256 + lo)) (x ∷ rest) h.1.1 (omega arith) ∙ omega arith)

tcp_sum_lem :
    (d : List ℕ) → Bytes d → length d ≤ 131074 → tcp_sum d + 255 * tail_byte d ≡ total (words d)
unfolding tcp_sum
tcp_sum_lem d h n = tcp_sum_pairs_lem 0 d h (omega (arith, total-le d h)) ∙ omega arith

tcp_checksum-residue :
    (d : List ℕ)
    → Bytes d
    → length d ≤ 131074
    → calculate_tcp_checksum d ≡ some (0xffff - residue (total (words d) - 255 * tail_byte d))
unfolding calculate_tcp_checksum
tcp_checksum-residue d h n =
    let low : tcp_sum d ≡ total (words d) - 255 * tail_byte d = omega (arith, tcp_sum_lem d h n) in
    let small : total (words d) - 255 * tail_byte d < 2 ^ 32 = omega (arith, total-le d h) in
    rw (low, fold_carries_lem (total (words d) - 255 * tail_byte d) small) (ground arith)

-- On slices of even length (at most 131074 bytes) the TCP routine is the IP routine.
pub tcp_checksum-even :
    (d : List ℕ)
    → Bytes d
    → length d ≤ 131074
    → length d % 2 ≡ 0
    → calculate_tcp_checksum d ≡ calculate_checksum d
unfolding tail_byte
tcp_checksum-even d h n e =
    let same : total (words d) - 255 * tail_byte d ≡ total (words d) = ground arith in
    tcp_checksum-residue d h n ∙ rw (same, calculate_checksum-rfc d h n, ones_sum-residue d h)

last_byte-lt : (d : List ℕ) → Bytes d → last_byte d < 256
last_byte-lt [] h = omega arith
last_byte-lt (b ∷ []) h = omega arith
last_byte-lt (x ∷ y ∷ []) h = omega arith
last_byte-lt (x ∷ y ∷ z ∷ rest) h = rw (last_byte_skip x y z rest) (last_byte-lt (z ∷ rest) h.1.1)

residue_shift :
    (s b : ℕ)
    → 0 < b
    → b < 256
    → 0xffff - residue (s + 255 * b - 255 * b) ≢ 0xffff - residue (s + 255 * b)
residue_shift s b p q = ground arith

-- On a slice of odd length (at most 131074 bytes) whose last byte is not zero, the TCP routine
-- returns, and never the checksum of RFC 1071: it adds the last byte as the low half of its word.
pub tcp_checksum-odd :
    (d : List ℕ)
    → Bytes d
    → length d ≤ 131074
    → length d % 2 ≡ 1
    → 0 < last_byte d
    → (c : ℕ) × (calculate_tcp_checksum d ≡ some c) × (c ≢ rfc_checksum d)
unfolding tail_byte
tcp_checksum-odd d h n e nz =
    let tail : tail_byte d ≡ last_byte d = ground arith in
    let bounds : total (words d) ≡ tcp_sum d + 255 * last_byte d =
      omega (arith, tcp_sum_lem d h n) in
    (
      0xffff - residue (total (words d) - 255 * tail_byte d),
      tcp_checksum-residue d h n,
      rw (ones_sum-residue d h, bounds, tail)
          (residue_shift (tcp_sum d) (last_byte d) nz (last_byte-lt d h)),
    )
