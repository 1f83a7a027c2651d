-- ===== src/Copy/Counts.antt =====
-- What a copy tells about what it did, for any reader and any writer that keeps io.Writer's contract.
use an_app.Base.Int.{ℤ, pos}
use an_app.Base.{
  ℕ, zero, suc, ◌+◌, ◌^◌, ◌%◌, ◌<◌, ◌≤◌, ◌≡◌, refl, sym, subst, List, [], ◌∷◌, ◌++◌, Option, none,
  some, length, take, length-append, take_of_length-le, take_of_prefix, arith,
}
use an_app.Copy.{
  Err, Reader, Writer, buffer_size, check_count, write_error, write_chunk, read_error, Copied,
  end_round, copy_loop, copy_buffer,
}
use mathlib.Core.Option.{some-injective}
use mathlib.Core.List.{append_assoc, append-nil}

-- What io.Writer documents of the count: a Write takes the first n bytes of its argument, n at most
-- their number, and answers n, with an error or without.
pub record IsWriter {W : Type 0} (write : Writer W) (contents : W → List ℕ) : Type 0 where
  pub count : W → List ℕ → ℕ
  pub counts : (w : W) (p : List ℕ) → (write w p).0.0 ≡ pos (count w p)
  pub bound : (w : W) (p : List ℕ) → count w p ≤ length p
  pub takes : (w : W) (p : List ℕ) → contents (write w p).1 ≡ contents w ++ take (count w p) p

-- From one state of the reader to another, some Reads of this size answer these bytes in all.
pub data Reads {S : Type 0} (read : Reader S) (size : ℕ) : S → List ℕ → S → Type 0 where
  done : {s : S} → Reads read size s [] s
  more :
      {s s' : S} {bs : List ℕ}
      → Reads read size (read s size).1 bs s'
      → Reads read size s ((read s size).0.0 ++ bs) s'

-- k of the bytes of p went into the writer between the two states, and the count went up by k.
pub record Took {W : Type 0} (contents : W → List ℕ) (w w' : W) (p : List ℕ) (from to k : ℕ)
    : Type 0 where
  pub at_most : k ≤ length p
  pub gained : contents w' ≡ contents w ++ take k p
  pub counted : to ≡ (from + k) % 2 ^ 64

check_count_of-le : (nr n : ℕ) (e : Option Err) → n ≤ nr → check_count nr (pos n) e ≡ (n, e)
unfolding check_count
check_count_of-le nr n none h = ground arith
check_count_of-le nr n (some e) h = ground arith

write_error-none : (nr nw : ℕ) (e : Option Err) → write_error nr nw e ≡ none → nw ≡ nr
unfolding write_error
write_error-none nr nw none h = ground arith
write_error-none nr nw (some e) h = cc

module _ {S W : Type 0} (read : Reader S) (write : Writer W) (contents : W → List ℕ) where
  -- The copy from here to its end took a prefix of what it read, which is all of it when no error
  -- is answered.
  Counted : ℕ → S → W → ℕ → Copied S W → Type 0
  Counted size s w from r =
      (p : List ℕ) × (k : ℕ) × (Reads read size s p r.src
        × (Took contents w r.dst p from r.written k × (r.err ≡ none → k ≡ length p)))

  write_chunk-Took :
      IsWriter write contents
      → (w : W) (p : List ℕ) (from : ℕ) → from < 2 ^ 64
      → (k : ℕ) × (Took contents w
            (write_chunk write w p from).1.1
            p
            from
            (write_chunk write w p from).1.0
            k
          × ((write_chunk write w p from).0 ≡ none → k ≡ length p))
  unfolding write_chunk
  write_chunk-Took honest w [] from n = (
    0,
    (
      record {
        at_most = omega arith;
        gained = sym (append-nil (contents w));
        counted = omega arith;
      },
      λ e. refl,
    ),
  )
  write_chunk-Took honest w (b ∷ bs) from n =
      let size : ℕ = length (b ∷ bs) in
      let k : ℕ = honest.count w (b ∷ bs) in
      let result : Option Err = (write w (b ∷ bs)).0.1 in
      let checked : check_count size (write w (b ∷ bs)).0.0 result ≡ (k, result) =
        rw (honest.counts w (b ∷ bs)) (check_count_of-le size k result (honest.bound w (b ∷ bs))) in
      (
        k,
        (
          record {
            at_most = honest.bound w (b ∷ bs);
            gained = honest.takes w (b ∷ bs);
            counted = rw checked;
          },
          λ e.
              write_error-none size k result
                (subst (λ c. write_error size c.0 c.1 ≡ none) checked e),
        ),
      )

  -- One round that stops: what it took is a prefix of its one Read.
  round_stops :
      (size : ℕ) (s : S) (w w' : W) (from to k : ℕ) (e : Option Err)
      → Took contents w w' (read s size).0.0 from to k
      → (e ≡ none → k ≡ length (read s size).0.0)
      → Counted size s w from (record { written = to; err = e; src = (read s size).1; dst = w' })
  unfolding Counted
  round_stops size s w w' from to k e took all =
      let p : List ℕ = (read s size).0.0 in
      let same : p ++ [] ≡ p = append-nil p in
      (
        p ++ [],
        k,
        (
          more done,
          (
            record {
              at_most = rw same took.at_most;
              gained = rw same took.gained;
              counted = took.counted;
            },
            λ h. rw same (all h),
          ),
        ),
      )

  -- One round and the rounds after it.
  round_continues :
      (size : ℕ) (s : S) (w w' : W) (from to k : ℕ) (r : Copied S W)
      → Took contents w w' (read s size).0.0 from to k
      → k ≡ length (read s size).0.0
      → Counted size (read s size).1 w' to r
      → Counted size s w from r
  unfolding Counted
  round_continues size s w w' from to k r took all (q, j, (reads, (later, rest))) =
      let p : List ℕ = (read s size).0.0 in
      let prefix : take k p ≡ p = take_of_length-le k p (omega arith) in
      let joined : take (length p + j) (p ++ q) ≡ p ++ take j q = take_of_prefix p q j in
      let whole : length (p ++ q) ≡ length p + length q = length-append p q in
      (
        p ++ q,
        length p + j,
        (
          more reads,
          (
            record {
              at_most = rw whole (omega (arith, later.at_most));
              gained =
                  rw (joined, later.gained, took.gained, prefix)
                    (append_assoc (contents w) p (take j q));
              counted = omega (arith, later.counted, took.counted, all);
            },
            λ h. rw (whole, rest h) refl,
          ),
        ),
      )

  end_round-Counted :
      (size : ℕ) (s : S) (w w' : W) (from to k : ℕ) (stop er : Option Err)
      → (rest : Option (Copied S W)) (r : Copied S W)
      → Took contents w w' (read s size).0.0 from to k
      → (stop ≡ none → k ≡ length (read s size).0.0)
      → (rest ≡ some r → Counted size (read s size).1 w' to r)
      → end_round stop er to (read s size).1 w' rest ≡ some r
      → Counted size s w from r
  unfolding end_round
  end_round-Counted size s w w' from to k (some e) er rest r took all next h =
      subst (Counted size s w from) (some-injective _ r h)
        (round_stops size s w w' from to k (some e) took (λ x. cc))
  end_round-Counted size s w w' from to k none (some e) rest r took all next h =
      subst (Counted size s w from) (some-injective _ r h)
        (round_stops size s w w' from to k (read_error e) took (λ x. all refl))
  end_round-Counted size s w w' from to k none none rest r took all next h =
      round_continues size s w w' from to k r took (all refl) (next h)

  copy_loop-Counted :
      IsWriter write contents
      → (size fuel : ℕ) (s : S) (w : W) (from : ℕ) (r : Copied S W) → from < 2 ^ 64
      → copy_loop read write size fuel s w from ≡ some r
      → Counted size s w from r
  unfolding copy_loop
  copy_loop-Counted honest size zero s w from r n h = cc
  copy_loop-Counted honest size (suc fuel) s w from r n h =
      let p : List ℕ = (read s size).0.0 in
      let chunk = write_chunk write w p from in
      let (k, (took, all)) = write_chunk-Took honest w p from n in
      let small : chunk.1.0 < 2 ^ 64 = omega (arith, took.counted) in
      end_round-Counted size s w chunk.1.1 from chunk.1.0 k chunk.0 (read s size).0.1
        (copy_loop read write size fuel (read s size).1 chunk.1.1 chunk.1.0) r took all
        (copy_loop-Counted honest size fuel (read s size).1 chunk.1.1 chunk.1.0 r small) h

  -- For any reader, and a writer that keeps io.Writer's contract: when copyBuffer returns, the writer
  -- has got a prefix of the bytes that were read, in their order and without a gap; the count returned
  -- is the length of that prefix, modulo 2 ^ 64; and when no error is returned, the prefix is all
  -- that was read.
  pub copy_buffer-counts :
      IsWriter write contents
      → (limit : Option ℤ) (fuel : ℕ) (s : S) (w : W) (r : Copied S W)
      → copy_buffer read write limit fuel s w ≡ some r
      → (p : List ℕ) × (k : ℕ) × (Reads read (buffer_size limit) s p r.src
          × (contents r.dst ≡ contents w ++ take k p)
          × (r.written ≡ k % 2 ^ 64)
          × (k ≤ length p)
          × (r.err ≡ none → k ≡ length p))
  unfolding copy_buffer Counted
  copy_buffer-counts honest limit fuel s w r h =
      let (p, k, (reads, (took, all))) =
        copy_loop-Counted honest (buffer_size limit) fuel s w 0 r (omega arith) h in
      (p, k, (reads, took.gained, omega (arith, took.counted), took.at_most, all))
