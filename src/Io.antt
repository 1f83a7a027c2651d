-- ===== src/Io.antt =====
-- What Go's io package documents of the readers that the program calls.
use an_app.Base.{
  refl, arith, ltb, if◌then◌else◌, ℕ, ◌<◌, ◌≡◌, ◌⊎◌, List, Option, none, some, length, take, drop,
}

pub data ReadErr : Type 0 where
  eof : ReadErr
  other : ReadErr

-- `ReadAt(p, off)` on a buffer: the bytes that it copies to the front of p (its count is their
-- number), and the error.
abbrev pub ReadAt : Type 0
ReadAt = List ℕ → ℕ → ℕ → List ℕ × Option ReadErr

-- io.ReaderAt on bytes in memory: it copies what fits, a short read ends with EOF, a read with more
-- bytes behind it has no error, and one that ends the buffer exactly may have either.
pub record IsReaderAt (read_at : ReadAt) : Type 0 where
  pub copies : (b : List ℕ) (n off : ℕ) → (read_at b n off).0 ≡ take n (drop off b)
  pub short : (b : List ℕ) (n off : ℕ) → length (drop off b) < n → (read_at b n off).1 ≡ some eof
  pub more : (b : List ℕ) (n off : ℕ) → n < length (drop off b) → (read_at b n off).1 ≡ none
  pub exact :
      (b : List ℕ) (n off : ℕ)
      → length (drop off b) ≡ n
      → ((read_at b n off).1 ≡ none) ⊎ ((read_at b n off).1 ≡ some eof)

-- A reader that meets the contract.
abbrev pub plain_read : ReadAt
plain_read b n off = (take n (drop off b), if ltb (length (drop off b)) n then some eof else none)

pub plain_read-IsReaderAt : IsReaderAt plain_read
plain_read-IsReaderAt = record {
  copies = λ b n off. refl;
  short = λ b n off h. ground arith;
  more = λ b n off h. ground arith;
  exact = λ b n off h. ground arith;
}
