-- ===== src/Base/Int.antt =====
-- Signed numbers, where the source's `int` can be negative: `negsuc n` is -(n + 1).
use an_app.Base.Branch.{◌==◌}
use Prim.Native.Nat.{ℕ}
use mathlib.Core.Bool.{Bool, false}

pub data ℤ : Type 0 where
  pos : ℕ → ℤ
  negsuc : ℕ → ℤ

-- Equality with a number that is not negative.
abbrev pub is_ℕ : ℤ → ℕ → Bool
is_ℕ (pos n) m = n == m
is_ℕ (negsuc n) m = false
