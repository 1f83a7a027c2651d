-- ===== src/Copy/Tests.antt =====
-- Runs of the copy with a reader that replays a script, and two writers: one takes all, the other
-- at most two bytes of a Write, without an error.
use an_app.Base.Int.{pos}
use an_app.Base.{
  ℕ, ◌≤◌, ◌^◌, ◌%◌, ◌≡◌, ◌≢◌, refl, List, [], ◌∷◌, ◌++◌, Option, none, some, length, take, min,
  arith,
}
use an_app.Copy.{
  Err, eof, short_write, Reader, Writer, buffer_size, check_count, write_error, write_chunk, Copied,
  end_round, copy_loop, copy_buffer,
}
use an_app.Copy.Counts.{IsWriter, Reads, copy_buffer-counts}
use an_app.Copy.Complete.{Drains, last, next, TakesAll, copy_buffer-returns, copy_buffer-all}

abbrev Script : Type 0
Script = List (List ℕ × Option Err)

abbrev replay : Reader Script
replay [] n = (([], some eof), [])
replay (a ∷ rest) n = (a, rest)

abbrev script : Script
script = (1 ∷ 2 ∷ [], none) ∷ (3 ∷ 4 ∷ 5 ∷ [], none) ∷ (6 ∷ [], some eof) ∷ []

abbrev sink : Writer (List ℕ)
sink w p = ((pos (length p), none), w ++ p)

abbrev small_sink : Writer (List ℕ)
small_sink w p = ((pos (min 2 (length p)), none), w ++ take (min 2 (length p)) p)

sink-TakesAll : TakesAll sink (λ w. w)
sink-TakesAll = record { answers = λ w p. refl; takes = λ w p. refl }

small_sink-IsWriter : IsWriter small_sink (λ w. w)
small_sink-IsWriter = record {
  count = λ w p. min 2 (length p);
  counts = λ w p. refl;
  bound = λ w p. omega arith;
  takes = λ w p. refl;
}

script-Drains : (size : ℕ) → Drains replay size script (1 ∷ 2 ∷ 3 ∷ 4 ∷ 5 ∷ 6 ∷ []) eof [] 3
script-Drains size = next refl (next refl (last refl))

-- The second Write is short, and the copy stops there.
short_copy :
    copy_buffer replay small_sink none 3 script []
    ≡ some (record {
      written = 4;
      err = some short_write;
      src = (6 ∷ [], some eof) ∷ [];
      dst = 1 ∷ 2 ∷ 3 ∷ 4 ∷ [];
    })
unfolding copy_buffer copy_loop write_chunk check_count write_error end_round buffer_size
short_copy = refl

copy_buffer-counts_example :
    (p : List ℕ) × (k : ℕ) × (Reads replay (buffer_size none) script p ((6 ∷ [], some eof) ∷ [])
      × (1 ∷ 2 ∷ 3 ∷ 4 ∷ [] ≡ [] ++ take k p)
      × (4 ≡ k % 2 ^ 64)
      × (k ≤ length p)
      × (some short_write ≡ none → k ≡ length p))
copy_buffer-counts_example =
    copy_buffer-counts replay small_sink (λ w. w) small_sink-IsWriter none 3 script [] _ short_copy

copy_buffer-returns_example :
    (r : Copied Script (List ℕ)) × (copy_buffer replay small_sink none 3 script [] ≡ some r)
copy_buffer-returns_example =
    copy_buffer-returns replay small_sink none (script-Drains (buffer_size none)) 3 [] (omega arith)

copy_buffer-all_example :
    (r : Copied Script (List ℕ)) × ((copy_buffer replay sink none 3 script [] ≡ some r)
      × ((r.dst ≡ [] ++ (1 ∷ 2 ∷ 3 ∷ 4 ∷ 5 ∷ 6 ∷ []))
          × ((r.written ≡ 6 % 2 ^ 64)
              × ((eof ≡ eof → r.err ≡ none) × ((eof ≢ eof → r.err ≡ some eof) × (r.src ≡ []))))))
copy_buffer-all_example =
    copy_buffer-all replay sink (λ w. w) sink-TakesAll none (script-Drains (buffer_size none)) 3 []
      (omega arith)
