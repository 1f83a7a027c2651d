-- ===== src/Copy.antt =====
-- tool/ioutil/ioutil.go: copyBuffer, which copies a reader to a writer. The reader and the writer are
-- parameters with a state of their own: a Read of n bytes answers the bytes that it put at the front
-- of the buffer (io.Reader allows at most n) and an error; a Write answers a count, which may be any
-- `int`, and an error. An int64 is the natural number below 2 ^ 64 with its bits. The loop has fuel,
-- and `none` is a copy that still runs. The argument `send` is never used and is left out.
pub mod Counts
pub mod Complete
mod Tests
use an_app.Base.Int.{ℤ, pos, negsuc}
use an_app.Base.{
  ℕ, zero, suc, ◌+◌, ◌*◌, ◌^◌, ◌%◌, Bool, true, false, List, [], ◌∷◌, Option, none, some,
  if◌then◌else◌, ltb, ◌==◌, length,
}

-- io.EOF, io.ErrShortWrite, errInvalidWrite, and any other error, by a number.
pub data Err : Type 0 where
  eof : Err
  short_write : Err
  invalid_write : Err
  failed : ℕ → Err

abbrev pub Reader : Type 0 → Type 0
Reader S = S → ℕ → (List ℕ × Option Err) × S

abbrev pub Writer : Type 0 → Type 0
Writer W = W → List ℕ → (ℤ × Option Err) × W

-- The buffer's size; the argument is the field N when the reader is an *io.LimitedReader.
pub buffer_size : Option ℤ → ℕ
buffer_size none = 32 * 1024
buffer_size (some (negsuc n)) = 1
buffer_size (some (pos n)) = if ltb n (32 * 1024) then if ltb n 1 then 1 else n else 32 * 1024

-- The count and the error of a Write of nr bytes, after the check for an impossible count.
pub check_count : ℕ → ℤ → Option Err → ℕ × Option Err
check_count nr (negsuc n) none = (0, some invalid_write)
check_count nr (negsuc n) (some e) = (0, some e)
check_count nr (pos n) none = if ltb nr n then (0, some invalid_write) else (n, none)
check_count nr (pos n) (some e) = if ltb nr n then (0, some e) else (n, some e)

-- Why the loop stops after a Write, if it does.
pub write_error : ℕ → ℕ → Option Err → Option Err
write_error nr nw (some e) = some e
write_error nr nw none = if nr == nw then none else some short_write

-- The block under `if nr > 0`: the error that breaks the loop, the new count, the writer.
pub write_chunk : {W : Type 0} → Writer W → W → List ℕ → ℕ → Option Err × (ℕ × W)
write_chunk write w [] written = (none, (written, w))
write_chunk write w (b ∷ bs) written =
    let ((n, ew), w') = write w (b ∷ bs) in
    let (nw, e) = check_count (length (b ∷ bs)) n ew in
    (write_error (length (b ∷ bs)) nw e, ((written + nw) % 2 ^ 64, w'))

-- The error of the copy when a Read has failed.
unfoldable pub read_error : Err → Option Err
read_error eof = none
read_error short_write = some short_write
read_error invalid_write = some invalid_write
read_error (failed n) = some (failed n)

pub record Copied (S W : Type 0) : Type 0 where
  pub written : ℕ
  pub err : Option Err
  pub src : S
  pub dst : W

-- The end of a round: the error that breaks the loop, that of the Read, and the rounds that follow.
pub end_round :
    {S W : Type 0} → Option Err → Option Err → ℕ → S → W → Option (Copied S W) → Option (Copied S W)
end_round (some e) er written s w rest =
    some (record { written = written; err = some e; src = s; dst = w })
end_round none (some e) written s w rest =
    some (record { written = written; err = read_error e; src = s; dst = w })
end_round none none written s w rest = rest

pub copy_loop : {S W : Type 0} → Reader S → Writer W → ℕ → ℕ → S → W → ℕ → Option (Copied S W)
copy_loop read write size zero s w written = none
copy_loop read write size (suc fuel) s w written =
    let ((buf, er), s') = read s size in
    let (stop, (written', w')) = write_chunk write w buf written in
    let rest = copy_loop read write size fuel s' w' written' in
    end_round stop er written' s' w' rest

pub copy_buffer : {S W : Type 0} → Reader S → Writer W → Option ℤ → ℕ → S → W → Option (Copied S W)
copy_buffer read write limit fuel s w = copy_loop read write (buffer_size limit) fuel s w 0
