-- ===== src/Base/Words.antt =====
-- Machine words as native numbers, and the bit operations of the source on them: a shift is a
-- multiplication or a division, and `&` and `|` are the native operations with their laws below.
use Prim.Native.Nat.{ℕ, ◌+◌, ◌*◌, ◌/◌, ◌%◌, ◌^◌, ◌<◌}
use mathlib.Core.List.{List}
use an_app.Base.Lists.{All}

-- A list of bytes.
abbrev pub Bytes : List ℕ → Type 0
Bytes = All (λ b. b < 256)

-- uint32 addition.
abbrev pub add32 : ℕ → ℕ → ℕ
add32 a b = (a + b) % 2 ^ 32

-- uint32 `<<`.
abbrev pub shl32 : ℕ → ℕ → ℕ
shl32 a k = (a * 2 ^ k) % 2 ^ 32

-- uint32 `>>`.
abbrev pub shr : ℕ → ℕ → ℕ
shr a k = a / 2 ^ k
