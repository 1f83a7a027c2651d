-- ===== src/Routes/Windows/Adapters/Growth.antt =====
-- The loop that grows the buffer ends.
use an_app.Base.{
  ℕ, zero, suc, ◌+◌, ◌^◌, ◌<◌, ◌≤◌, ◌≡◌, ◌≢◌, ◌⊎◌, inl, inr, refl, [], Option, none, some, arith,
}
use an_app.Routes.Windows.Adapters.{
  Status, no_error, buffer_overflow, other_error, Calls, Filled, no_map, adapters, unfinished,
  Round, finish, again, judge, fill_buffer, initial_size, IpMap, walk, looping, result_of,
  walk_filled, adapter_addresses,
}

-- Another round has a larger buffer.
judge-grows : (size : ℕ) (a : Status × ℕ) (l : ℕ) → judge size a ≡ again l → (size < l) × (l ≡ a.1)
unfolding judge
judge-grows size (no_error list, l') l e = ground arith
judge-grows size (buffer_overflow, l') l e = ground arith
judge-grows size (other_error, l') l e = cc

judge_finishes : (size : ℕ) (a : Status × ℕ) (f : Filled) → judge size a ≡ finish f → f ≢ unfinished
unfolding judge
judge_finishes size (no_error list, l') f e = ground arith
judge_finishes size (buffer_overflow, l') f e = ground arith
judge_finishes size (other_error, l') f e = ground arith

Round-cases : (r : Round) → ((f : Filled) × (r ≡ finish f)) ⊎ ((l : ℕ) × (r ≡ again l))
Round-cases (finish f) = inl (f, refl)
Round-cases (again l) = inr (l, refl)

module _ (sys : Calls) (limit : ℕ) (sizes : (n size : ℕ) → (sys n size).1 < limit) where
  fill_buffer-ends :
      (fuel n l : ℕ) → l < limit → limit ≤ l + fuel → fill_buffer sys fuel n l ≢ unfinished
  unfolding fill_buffer
  fill_buffer-ends zero n l small enough = absurd (omega arith)
  fill_buffer-ends (suc fuel) n l small enough = elim (Round-cases (judge l (sys n l))) [
    | inl (f, e) ↦ rw (e, fill_buffer) (judge_finishes l (sys n l) f e)
    | inr (l', e) ↦
        let (more, written) = judge-grows l (sys n l) l' e in
        rw (e, fill_buffer)
          (fill_buffer-ends fuel (n + 1) l' (rw written (sizes n l)) (omega (arith, more, enough)))
  ]

walk_filled-ne-looping : (f : Filled) → f ≢ unfinished → walk_filled f ≢ looping
unfolding walk_filled
walk_filled-ne-looping no_map h = ground arith
walk_filled-ne-looping (adapters list) h = go (walk list [])
  where
    go : (o : Option IpMap) → result_of o ≢ looping
    go none = ground arith
    go (some m) = ground arith
walk_filled-ne-looping unfinished h = absurd (h refl)

-- adapterAddresses ends, whatever sizes below 2^32, as a uint32 holds them, Windows asks for and
-- however often it asks for more: 2^32 - 15000 rounds are enough, since each asks for more bytes than
-- the one before.
pub adapter_addresses-returns :
    (sys : Calls) (fuel : ℕ)
    → ((n size : ℕ) → (sys n size).1 < 2 ^ 32)
    → 2 ^ 32 ≤ 15_000 + fuel
    → adapter_addresses sys fuel ≢ looping
unfolding adapter_addresses
adapter_addresses-returns sys fuel sizes enough =
    walk_filled-ne-looping (fill_buffer sys fuel 0 initial_size)
      (fill_buffer-ends sys (2 ^ 32) sizes fuel 0 initial_size (omega arith) enough)
