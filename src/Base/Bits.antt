-- ===== src/Base/Bits.antt =====
-- Laws of the native `&` and `|`, from the digit recursion that they stand for.
use Prim.Native.Nat.{
  ℕ, zero, suc, ◌+◌, ◌*◌, ◌/◌, ◌%◌, ◌≤◌, ◌<◌, min, max, bit_and, bit_or, digits, bit_and-bitwise,
  bit_or-bitwise,
}
use mathlib.Core.Path.{◌≡◌, refl}
use native.Mathlib.Omega.{arith}

abbrev and_digits : ℕ → ℕ → ℕ → ℕ
and_digits n a b = digits (λ b. zero) min n a b

abbrev or_digits : ℕ → ℕ → ℕ → ℕ
or_digits n a b = digits (λ b. b) max n a b

-- Fuel that covers the first number suffices.
and_fuel : (n m a b : ℕ) → a ≤ n → a ≤ m → and_digits n a b ≡ and_digits m a b
and_fuel zero zero a b p q = refl
and_fuel zero (suc m) zero b p q = refl
and_fuel zero (suc m) (suc a) b p q = absurd (omega arith)
and_fuel (suc n) zero zero b p q = refl
and_fuel (suc n) zero (suc a) b p q = absurd (omega arith)
and_fuel (suc n) (suc m) zero b p q = refl
and_fuel (suc n) (suc m) (suc a) b p q =
    omega (arith, and_fuel n m (suc a / 2) (b / 2) (omega arith) (omega arith))

or_fuel : (n m a b : ℕ) → a ≤ n → a ≤ m → or_digits n a b ≡ or_digits m a b
or_fuel zero zero a b p q = refl
or_fuel zero (suc m) zero b p q = refl
or_fuel zero (suc m) (suc a) b p q = absurd (omega arith)
or_fuel (suc n) zero zero b p q = refl
or_fuel (suc n) zero (suc a) b p q = absurd (omega arith)
or_fuel (suc n) (suc m) zero b p q = refl
or_fuel (suc n) (suc m) (suc a) b p q =
    omega (arith, or_fuel n m (suc a / 2) (b / 2) (omega arith) (omega arith))

zero-and : (b : ℕ) → bit_and 0 b ≡ 0
zero-and b = bit_and-bitwise 0 b

zero-or : (b : ℕ) → bit_or 0 b ≡ b
zero-or b = bit_or-bitwise 0 b

-- One binary digit of `&` and of `|`.
and_step : (a b : ℕ) → bit_and a b ≡ bit_and (a / 2) (b / 2) * 2 + min (a % 2) (b % 2)
and_step zero b = omega (arith, zero-and b, zero-and (b / 2))
and_step (suc a) b = omega (
  arith,
  bit_and-bitwise (suc a) b,
  bit_and-bitwise (suc a / 2) (b / 2),
  and_fuel a (suc a / 2) (suc a / 2) (b / 2) (omega arith) (omega arith),
)

or_step : (a b : ℕ) → bit_or a b ≡ bit_or (a / 2) (b / 2) * 2 + max (a % 2) (b % 2)
or_step zero b = omega (arith, zero-or b, zero-or (b / 2))
or_step (suc a) b = omega (
  arith,
  bit_or-bitwise (suc a) b,
  bit_or-bitwise (suc a / 2) (b / 2),
  or_fuel a (suc a / 2) (suc a / 2) (b / 2) (omega arith) (omega arith),
)

and-zero_fuel : (n a : ℕ) → a ≤ n → bit_and a 0 ≡ 0
and-zero_fuel n zero h = refl
and-zero_fuel zero (suc a) h = absurd (omega arith)
and-zero_fuel (suc n) (suc a) h =
    omega (arith, and_step (suc a) 0, and-zero_fuel n (suc a / 2) (omega arith))

or-zero_fuel : (n a : ℕ) → a ≤ n → bit_or a 0 ≡ a
or-zero_fuel n zero h = refl
or-zero_fuel zero (suc a) h = absurd (omega arith)
or-zero_fuel (suc n) (suc a) h =
    omega (arith, or_step (suc a) 0, or-zero_fuel n (suc a / 2) (omega arith))

-- A mask that ends in a one keeps the lowest binary digit.
and_odd : (a m : ℕ) → bit_and a (m * 2 + 1) ≡ bit_and (a / 2) m * 2 + a % 2
and_odd a m =
    let half : (m * 2 + 1) / 2 ≡ m = omega arith in
    let low : (m * 2 + 1) % 2 ≡ 1 = omega arith in
    rw (and_step a (m * 2 + 1), half, low) (omega arith)

-- Four ones at the end of a mask keep the lowest hexadecimal digit.
and_nibble :
    (a m : ℕ)
    → bit_and a ((((m * 2 + 1) * 2 + 1) * 2 + 1) * 2 + 1) ≡ bit_and (a / 16) m * 16 + a % 16
and_nibble a m =
    let quarters : a / 2 / 2 / 2 / 2 ≡ a / 16 = omega arith in
    rw
      (
        and_odd a (((m * 2 + 1) * 2 + 1) * 2 + 1),
        and_odd (a / 2) ((m * 2 + 1) * 2 + 1),
        and_odd (a / 2 / 2) (m * 2 + 1),
        and_odd (a / 2 / 2 / 2) m,
        quarters,
      )
      (omega arith)

-- `a & 0xffff`
pub bit_and_low16 : (a : ℕ) → bit_and a 0xffff ≡ a % 0x10000
bit_and_low16 a = omega (
  arith,
  and_nibble a 0xfff,
  and_nibble (a / 16) 0xff,
  and_nibble (a / 16 / 16) 0xf,
  and_nibble (a / 16 / 16 / 16) 0,
  and-zero_fuel (a / 16 / 16 / 16 / 16) (a / 16 / 16 / 16 / 16) (omega arith),
)

-- `|` into the free low digit of an even number.
or_even : (a b : ℕ) → bit_or (a * 2) b ≡ bit_or a (b / 2) * 2 + b % 2
or_even a b =
    let half : a * 2 / 2 ≡ a = omega arith in
    let low : a * 2 % 2 ≡ 0 = omega arith in rw (or_step (a * 2) b, half, low) (omega arith)

or_nibble : (a b : ℕ) → bit_or (a * 2 * 2 * 2 * 2) b ≡ bit_or a (b / 16) * 16 + b % 16
or_nibble a b =
    let quarters : b / 2 / 2 / 2 / 2 ≡ b / 16 = omega arith in
    rw
      (
        or_even (a * 2 * 2 * 2) b,
        or_even (a * 2 * 2) (b / 2),
        or_even (a * 2) (b / 2 / 2),
        or_even a (b / 2 / 2 / 2),
        quarters,
      )
      (omega arith)

-- `a << 8 | b` for a byte `b`
pub bit_or_byte : (a b : ℕ) → b < 256 → bit_or (a * 256) b ≡ a * 256 + b
bit_or_byte a b h =
    let shifted : a * 256 ≡ a * 2 * 2 * 2 * 2 * 2 * 2 * 2 * 2 = omega arith in
    let empty : b / 16 / 16 ≡ 0 = omega arith in
    rw
      (
        shifted,
        or_nibble (a * 2 * 2 * 2 * 2) b,
        or_nibble a (b / 16),
        empty,
        or-zero_fuel a a (omega arith),
      )
      (omega arith)

-- `a & 1`
pub bit_and-one : (a : ℕ) → bit_and a 1 ≡ a % 2
bit_and-one a = omega (arith, and_odd a 0, and-zero_fuel (a / 2) (a / 2) (omega arith))
