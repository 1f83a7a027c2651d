-- ===== src/Copy/Complete.antt =====
-- That a copy ends, and what it copies into a writer that takes everything.
use an_app.Base.Int.{ℤ, pos}
use an_app.Base.{
  ℕ, zero, suc, ◌+◌, ◌^◌, ◌%◌, ◌<◌, ◌≤◌, ◌≡◌, ◌≢◌, ◌∙◌, refl, sym, List, [], ◌∷◌, ◌++◌, Option,
  none, some, length, length-append, arith,
}
use an_app.Copy.{
  Err, eof, short_write, invalid_write, failed, Reader, Writer, buffer_size, check_count,
  write_error, write_chunk, read_error, Copied, end_round, copy_loop, copy_buffer,
}
use mathlib.Core.List.{append_assoc, append-nil}

-- From this state, Reads of this size answer these bytes in all, the last one with an error.
pub data Drains {S : Type 0} (read : Reader S) (size : ℕ) : S → List ℕ → Err → S → ℕ → Type 0 where
  last :
      {s s' : S} {p : List ℕ} {e : Err}
      → read s size ≡ ((p, some e), s')
      → Drains read size s p e s' 1
  next :
      {s s' s'' : S} {p bs : List ℕ} {e : Err} {n : ℕ}
      → read s size ≡ ((p, none), s')
      → Drains read size s' bs e s'' n
      → Drains read size s (p ++ bs) e s'' (suc n)

module _ {S W : Type 0} (read : Reader S) (write : Writer W) where
  end_round-returns :
      (stop : Option Err) (written : ℕ) (s : S) (w : W) (rest : Option (Copied S W))
      → ((r : Copied S W) × (rest ≡ some r))
      → (r : Copied S W) × (end_round stop none written s w rest ≡ some r)
  unfolding end_round
  end_round-returns (some e) written s w rest (r, h) = (_, refl)
  end_round-returns none written s w rest (r, h) = (r, h)

  end_round-failed :
      (stop : Option Err) (e : Err) (written : ℕ) (s : S) (w : W) (rest : Option (Copied S W))
      → (r : Copied S W) × (end_round stop (some e) written s w rest ≡ some r)
  unfolding end_round
  end_round-failed (some x) e written s w rest = (_, refl)
  end_round-failed none e written s w rest = (_, refl)

  copy_loop-returns :
      (size : ℕ) {s s' : S} {bs : List ℕ} {e : Err} {n : ℕ}
      → Drains read size s bs e s' n
      → (fuel : ℕ) (w : W) (written : ℕ) → n ≤ fuel
      → (r : Copied S W) × (copy_loop read write size fuel s w written ≡ some r)
  unfolding copy_loop
  copy_loop-returns size (last h) zero w written n = absurd (omega arith)
  copy_loop-returns size (next h d) zero w written n = absurd (omega arith)
  copy_loop-returns size (last {s} {s'} {p} {e} h) (suc fuel) w written n =
      let (stop, (to, w')) = write_chunk write w p written in
      rw (h, copy_loop) (end_round-failed stop e to s' w' (copy_loop read write size fuel s' w' to))
  copy_loop-returns size (next {s} {s'} {p} h d) (suc fuel) w written n =
      let (stop, (to, w')) = write_chunk write w p written in
      rw (h, copy_loop)
        (end_round-returns stop to s' w' (copy_loop read write size fuel s' w' to)
          (copy_loop-returns size d fuel w' to (omega arith)))

  -- When the reader answers an error at its n-th Read at the latest, copyBuffer returns after at most
  -- n rounds, whatever the writer answers.
  pub copy_buffer-returns :
      (limit : Option ℤ) {s s' : S} {bs : List ℕ} {e : Err} {n : ℕ}
      → Drains read (buffer_size limit) s bs e s' n
      → (fuel : ℕ) (w : W) → n ≤ fuel
      → (r : Copied S W) × (copy_buffer read write limit fuel s w ≡ some r)
  unfolding copy_buffer
  copy_buffer-returns limit d fuel w n = copy_loop-returns (buffer_size limit) d fuel w 0 n

-- A writer that takes all of every Write.
pub record TakesAll {W : Type 0} (write : Writer W) (contents : W → List ℕ) : Type 0 where
  pub answers : (w : W) (p : List ℕ) → (write w p).0 ≡ (pos (length p), none)
  pub takes : (w : W) (p : List ℕ) → contents (write w p).1 ≡ contents w ++ p

-- A chunk that goes into such a writer.
pub record Went {W : Type 0} (contents : W → List ℕ) (w : W) (p : List ℕ) (from : ℕ)
    (out : Option Err × (ℕ × W)) : Type 0 where
  pub no_error : out.0 ≡ none
  pub counted : out.1.0 ≡ (from + length p) % 2 ^ 64
  pub gained : contents out.1.1 ≡ contents w ++ p

read_error_eof : (e : Err) → e ≡ eof → read_error e ≡ none
unfolding read_error
read_error_eof e h = rw h refl

read_error_other : (e : Err) → e ≢ eof → read_error e ≡ some e
unfolding read_error
read_error_other eof h = absurd (h refl)
read_error_other short_write h = refl
read_error_other invalid_write h = refl
read_error_other (failed n) h = refl

module _ {S W : Type 0} (read : Reader S) (write : Writer W) (contents : W → List ℕ) where
  check_count-all : (n : ℕ) → check_count n (pos n) none ≡ (n, none)
  unfolding check_count
  check_count-all n = ground arith

  write_error-all : (n : ℕ) → write_error n n none ≡ none
  unfolding write_error
  write_error-all n = ground arith

  write_chunk-Went :
      TakesAll write contents
      → (w : W) (p : List ℕ) (from : ℕ) → from < 2 ^ 64
      → Went contents w p from (write_chunk write w p from)
  unfolding write_chunk
  write_chunk-Went takes w [] from n = record {
    no_error = refl;
    counted = omega arith;
    gained = sym (append-nil (contents w));
  }
  write_chunk-Went takes w (b ∷ bs) from n =
      let size : ℕ = length (b ∷ bs) in
      record {
        no_error = rw (takes.answers w (b ∷ bs), check_count-all size) (write_error-all size);
        counted = rw (takes.answers w (b ∷ bs), check_count-all size);
        gained = takes.takes w (b ∷ bs);
      }

  Copies : Option (Copied S W) → List ℕ → Err → S → W → ℕ → Type 0
  Copies out p e s' w from =
      (r : Copied S W) × ((out ≡ some r)
        × ((contents r.dst ≡ contents w ++ p)
            × ((r.written ≡ (from + length p) % 2 ^ 64) × ((r.err ≡ read_error e) × (r.src ≡ s')))))

  copy_loop-Copies :
      TakesAll write contents
      → (size : ℕ) {s s' : S} {p : List ℕ} {e : Err} {n : ℕ} → Drains read size s p e s' n
      → (fuel : ℕ) (w : W) (from : ℕ) → n ≤ fuel
      → from < 2 ^ 64
      → Copies (copy_loop read write size fuel s w from) p e s' w from
  unfolding copy_loop Copies end_round
  copy_loop-Copies takes size (last h) zero w from n m = absurd (omega arith)
  copy_loop-Copies takes size (next h d) zero w from n m = absurd (omega arith)
  copy_loop-Copies takes size (last {s} {s'} {p} {e} h) (suc fuel) w from n m =
      let went : Went contents w p from (write_chunk write w p from) =
        write_chunk-Went takes w p from m in
      (
        record {
          written = (write_chunk write w p from).1.0;
          err = read_error e;
          src = s';
          dst = (write_chunk write w p from).1.1;
        },
        (rw (h, copy_loop, went.no_error), (went.gained, (went.counted, (refl, refl)))),
      )
  copy_loop-Copies takes size (next {s} {s'} {s''} {p} {bs} {e} h d) (suc fuel) w from n m =
      let went : Went contents w p from (write_chunk write w p from) =
        write_chunk-Went takes w p from m in
      let (r, (out, (gained, (counted, (err, src))))) =
        copy_loop-Copies takes size d fuel (write_chunk write w p from).1.1
          (write_chunk write w p from).1.0 (omega arith) (omega (arith, went.counted)) in
      (
        r,
        (
          rw (h, copy_loop, went.no_error) out,
          (
            rw (gained, went.gained) (append_assoc (contents w) p bs),
            (omega (arith, counted, went.counted, length-append p bs), (err, src)),
          ),
        ),
      )

  -- When the reader answers its bytes with an error at the n-th Read and the writer takes all of every
  -- Write, copyBuffer returns after n rounds: the writer has got all the bytes, also those of the
  -- last Read, the count is their number modulo 2 ^ 64, and the error is none when the reader's is
  -- io.EOF, and the reader's own when it is any other.
  pub copy_buffer-all :
      TakesAll write contents
      → (limit : Option ℤ) {s s' : S} {p : List ℕ} {e : Err} {n : ℕ}
      → Drains read (buffer_size limit) s p e s' n
      → (fuel : ℕ) (w : W) → n ≤ fuel
      → (r : Copied S W) × ((copy_buffer read write limit fuel s w ≡ some r)
          × ((contents r.dst ≡ contents w ++ p)
              × ((r.written ≡ length p % 2 ^ 64)
                  × ((e ≡ eof → r.err ≡ none) × ((e ≢ eof → r.err ≡ some e) × (r.src ≡ s'))))))
  unfolding copy_buffer Copies
  copy_buffer-all takes limit {e} d fuel w n =
      let (r, (out, (gained, (counted, (err, src))))) =
        copy_loop-Copies takes (buffer_size limit) d fuel w 0 n (omega arith) in
      (
        r,
        (
          out,
          (
            gained,
            (
              omega (arith, counted),
              (
                (λ at_end. err ∙ read_error_eof e at_end),
                ((λ broken. err ∙ read_error_other e broken), src),
              ),
            ),
          ),
        ),
      )
