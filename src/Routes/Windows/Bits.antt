-- ===== src/Routes/Windows/Bits.antt =====
-- countBits and getBit: what the bit count of a route is.
use an_app.Base.{
  ℕ, zero, suc, ◌+◌, ◌-◌, ◌/◌, ◌%◌, ◌^◌, ◌≤◌, ◌<◌, ◌≡◌, ◌≢◌, refl, ap, ◌∙◌, true, false, List, [],
  ◌∷◌, ◌++◌, Option, some, if◌then◌else◌, ltb, leb, take, drop, take_nil, All, All-append, length,
  min, arith,
}
use an_app.Base.Int.{pos, is_ℕ}
use an_app.Base.Bits.{bit_and-one}
use native.Mathlib.Nat.{div-div-eq-div-mul, pow-suc}
use an_app.Net.{Ip}
use an_app.Routes.{CustomRoute, less}
use an_app.Routes.Windows.{get_bit, count_byte, count_bytes, count_bits}

-- The bits of an address in the order in which the code reads them: byte by byte, each from its
-- least significant bit. `shifted` starts at a byte and halves it.
abbrev byte_bits : ℕ → ℕ → List ℕ
byte_bits zero b = []
byte_bits (suc k) b = b % 2 ∷ byte_bits k (b / 2)

abbrev pub bits : List ℕ → List ℕ
bits [] = []
bits (b ∷ bs) = byte_bits 8 b ++ bits bs

abbrev pub sum : List ℕ → ℕ
sum [] = 0
sum (x ∷ xs) = x + sum xs

get_bit_lem : (b i : ℕ) → i < 8 → get_bit b (pos i) ≡ pos (b / 2 ^ i % 2)
unfolding get_bit
get_bit_lem b i h =
    let small : ltb 7 i ≡ false = ground arith in rw (small, bit_and-one (b / 2 ^ i))

half_shift : (b i : ℕ) → b / 2 ^ i / 2 ≡ b / 2 ^ (i + 1)
half_shift b i = let next : i + 1 ≡ suc i = omega arith in rw (div-div-eq-div-mul, next, pow-suc)

-- The loop over one byte, with `left` positions still to be counted.
count_byte_lem :
    (k i b mask rec_j count left : ℕ)
    → i + k ≡ 8
    → rec_j + left ≡ mask + 1
    → count_byte k i b mask (rec_j, count)
      ≡ (rec_j + min k left, count + sum (take left (byte_bits k (b / 2 ^ i))))
unfolding count_byte
count_byte_lem zero i b mask rec_j count zero e f = ground arith
count_byte_lem zero i b mask rec_j count (suc left) e f = ground arith
count_byte_lem (suc k) i b mask rec_j count zero e f =
    let stop : leb rec_j mask ≡ false = ground arith in rw stop (ground arith)
count_byte_lem (suc k) i b mask rec_j count (suc left) e f =
    let go : leb rec_j mask ≡ true = ground arith in
    let bit = b / 2 ^ i % 2 in
    let counted : (if is_ℕ (get_bit b (pos i)) 1 then count + 1 else count) ≡ count + bit =
      rw (get_bit_lem b i (omega arith)) (ground arith) in
    rw (go, counted, half_shift b i)
      (count_byte_lem k (i + 1) b mask (rec_j + 1) (count + bit) left (omega arith) (omega arith)
        ∙ ground arith)

length-byte_bits : (k b : ℕ) → length (byte_bits k b) ≡ k
length-byte_bits zero b = refl
length-byte_bits (suc k) b = ap suc (length-byte_bits k (b / 2))

sum-take-append :
    (n : ℕ) (xs ys : List ℕ)
    → sum (take n (xs ++ ys)) ≡ sum (take n xs) + sum (take (n - length xs) ys)
sum-take-append zero xs ys = let none_left : 0 - length xs ≡ 0 = omega arith in rw none_left
sum-take-append (suc n) [] ys =
    let all_left : suc n - length {A = ℕ} [] ≡ suc n = omega arith in rw all_left (omega arith)
sum-take-append (suc n) (x ∷ xs) ys =
    let fewer : suc n - length (x ∷ xs) ≡ n - length xs = omega arith in
    rw fewer (omega (arith, sum-take-append n xs ys))

count_bytes_lem :
    (bs : List ℕ) (mask rec_j count left : ℕ)
    → rec_j + left ≡ mask + 1
    → (count_bytes bs mask (rec_j, count)).1 ≡ count + sum (take left (bits bs))
unfolding count_bytes
count_bytes_lem [] mask rec_j count zero f = omega arith
count_bytes_lem [] mask rec_j count (suc left) f = omega arith
count_bytes_lem (b ∷ bs) mask rec_j count left f =
    let here = sum (take left (byte_bits 8 (b / 2 ^ 0))) in
    let whole : b / 2 ^ 0 ≡ b = omega arith in
    ap (λ st. (count_bytes bs mask st).1)
      (count_byte_lem 8 0 b mask rec_j count left (omega arith) f)
    ∙ count_bytes_lem bs mask (rec_j + min 8 left) (count + here) (left - 8) (omega arith)
    ∙ rw whole (omega (arith, sum-take-append left (byte_bits 8 b) (bits bs)))

-- The count is the number of ones among the first `mask` bits of the interface's address, in the
-- order that `bits` describes; the mask's prefix plays no part but its length.
pub count_bits-sum :
    (to4 : Ip → Option Ip) (ip ip4 : Ip) (mask : ℕ)
    → ip ≢ []
    → to4 ip ≡ some ip4
    → count_bits to4 ip mask ≡ sum (take mask (bits ip4))
unfolding count_bits
count_bits-sum to4 [] ip4 mask h e = absurd (h refl)
count_bits-sum to4 (b ∷ bs) ip4 mask h e =
    rw (e, count_bits) (count_bytes_lem ip4 mask 1 0 mask (omega arith) ∙ omega arith)

sum-take-add :
    (m n : ℕ) (xs : List ℕ) → sum (take (m + n) xs) ≡ sum (take m xs) + sum (take n (drop m xs))
sum-take-add zero n xs = let same : 0 + n ≡ n = omega arith in rw same (omega arith)
sum-take-add (suc m) n [] =
    let next : suc m + n ≡ suc (m + n) = omega arith in rw next (ground (arith, take_nil ℕ n))
sum-take-add (suc m) n (x ∷ xs) =
    let next : suc m + n ≡ suc (m + n) = omega arith in rw next (omega (arith, sum-take-add m n xs))

byte_bits-le : (k b : ℕ) → All (λ x. x ≤ 1) (byte_bits k b)
byte_bits-le zero b = tt
byte_bits-le (suc k) b = (omega arith, byte_bits-le k (b / 2))

bits-le : (bs : List ℕ) → All (λ x. x ≤ 1) (bits bs)
bits-le [] = tt
bits-le (b ∷ bs) = All-append (λ x. x ≤ 1) (byte_bits 8 b) (bits bs) (byte_bits-le 8 b) (bits-le bs)

sum-take-le : (n : ℕ) (xs : List ℕ) → All (λ x. x ≤ 1) xs → sum (take n xs) ≤ n
sum-take-le zero xs h = omega arith
sum-take-le (suc n) [] h = omega arith
sum-take-le (suc n) (x ∷ xs) h = omega (arith, sum-take-le n xs h.1)

-- The count grows with the mask's length, and is never above it.
pub count_bits_bounds :
    (to4 : Ip → Option Ip) (ip ip4 : Ip) (m n : ℕ)
    → ip ≢ []
    → to4 ip ≡ some ip4
    → (count_bits to4 ip m ≤ m) × (count_bits to4 ip m ≤ count_bits to4 ip (m + n))
count_bits_bounds to4 ip ip4 m n h e =
    rw (count_bits-sum to4 ip ip4 m h e, count_bits-sum to4 ip ip4 (m + n) h e)
      (sum-take-le m (bits ip4) (bits-le ip4), omega (arith, sum-take-add m n (bits ip4)))

-- Two routes of one interface, one with the longer prefix m + n and one with the prefix m, are
-- ordered by their metrics alone when the bits of the interface's address that lie between the two
-- lengths are zero: the longer prefix is not preferred.
pub less_ignores_prefix :
    (to4 : Ip → Option Ip) (ip ip4 : Ip) (m n : ℕ) (long short : CustomRoute)
    → ip ≢ []
    → to4 ip ≡ some ip4
    → long.bit_count ≡ count_bits to4 ip (m + n)
    → short.bit_count ≡ count_bits to4 ip m
    → sum (take n (drop m (bits ip4))) ≡ 0
    → less long short ≡ ltb long.metric short.metric
unfolding less
less_ignores_prefix to4 ip ip4 m n long short h e l s z = ground (
  arith,
  count_bits-sum to4 ip ip4 m h e,
  count_bits-sum to4 ip ip4 (m + n) h e,
  sum-take-add m n (bits ip4),
)
