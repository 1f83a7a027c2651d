-- ===== src/Checksum/Rfc.antt =====
-- RFC 1071's description of the Internet checksum: the 16-bit words of the data, the last padded
-- with a zero byte, are added in ones' complement (a carry out of 16 bits comes back at the low
-- end), and the sum is complemented.
use an_app.Base.{
  ℕ, ◌+◌, ◌-◌, ◌*◌, ◌/◌, ◌%◌, ◌≤◌, ◌<◌, ◌≡◌, refl, ap, ◌∙◌, List, [], ◌∷◌, if◌then◌else◌, ltb,
  length, arith,
}
use an_app.Base.Words.{Bytes}

abbrev pub words : List ℕ → List ℕ
words [] = []
words (b ∷ []) = (b * 256) ∷ []
words (hi ∷ lo ∷ rest) = (hi * 256 + lo) ∷ words rest

-- End-around carry.
unfoldable pub ones_add : ℕ → ℕ → ℕ
ones_add a b = if ltb (a + b) 0x10000 then a + b else a + b - 0xffff

unfoldable pub ones_sum : List ℕ → ℕ
unfolding ones_add
ones_sum [] = 0
ones_sum (w ∷ ws) = ones_add w (ones_sum ws)

abbrev pub rfc_checksum : List ℕ → ℕ
rfc_checksum d = 0xffff - ones_sum (words d)

-- The plain sum of the words.
abbrev pub total : List ℕ → ℕ
total [] = 0
total (w ∷ ws) = w + total ws

-- The representative of a sum below 2 ^ 16 that end-around carries lead to.
abbrev pub residue : ℕ → ℕ
residue s = if ltb 0 s then (s - 1) % 0xffff + 1 else 0

ones_add-residue : (w s : ℕ) → w < 0x10000 → ones_add w (residue s) ≡ residue (w + s)
unfolding ones_add
ones_add-residue w s h = ground arith

pub ones_sum-residue : (d : List ℕ) → Bytes d → ones_sum (words d) ≡ residue (total (words d))
unfolding ones_sum
ones_sum-residue [] h = refl
ones_sum-residue (b ∷ []) h = ones_add-residue (b * 256) 0 (omega arith)
ones_sum-residue (hi ∷ lo ∷ rest) h =
    ap (ones_add (hi * 256 + lo)) (ones_sum-residue rest h.1.1)
    ∙ ones_add-residue (hi * 256 + lo) (total (words rest)) (omega arith)

pub total-le : (d : List ℕ) → Bytes d → total (words d) ≤ 0xffff * ((length d + 1) / 2)
total-le [] h = omega arith
total-le (b ∷ []) h = omega arith
total-le (hi ∷ lo ∷ rest) h = omega (arith, total-le rest h.1.1)
