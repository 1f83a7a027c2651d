-- ===== src/Log/Reach.antt =====
-- Which sinks a message of the log reaches.
use an_app.Base.Int.{pos}
use an_app.Base.{
  ℕ, ◌≡◌, refl, ap, sym, ◌∙◌, List, [], ◌∷◌, ◌++◌, false, none, length, if◌then◌else◌,
}
use an_app.Log.{
  Sink, AnyWriter, sink, multi, Writers, nobody, writer, append_writers, all_writers, multi_writer,
  write, write_each, sink_string, goes_on, write_string, string_each,
}
use mathlib.Core.List.{append_assoc}

-- The sinks under some writers, in the order of the writers.
unfoldable mutual
  pub sinks : {W : Type 0} → AnyWriter W → List (Sink W)
  sinks (sink s) = s ∷ []
  sinks (multi ws) = sinks_each ws

  pub sinks_each : {W : Type 0} → Writers W → List (Sink W)
  sinks_each nobody = []
  sinks_each (writer a ws) = sinks a ++ sinks_each ws

-- One Write of the bytes to each sink, whatever the earlier ones answered.
abbrev pub write_sinks : {W : Type 0} → List (Sink W) → W → List ℕ → W
write_sinks [] w p = w
write_sinks (s ∷ ss) w p = write_sinks ss (s.write_bytes w p).1 p

write_sinks-append :
    {W : Type 0} (xs ys : List (Sink W)) (w : W) (p : List ℕ)
    → write_sinks (xs ++ ys) w p ≡ write_sinks ys (write_sinks xs w p) p
write_sinks-append [] ys w p = refl
write_sinks-append (s ∷ xs) ys w p = write_sinks-append xs ys (s.write_bytes w p).1 p

mutual
  unfolding write sinks

  write_lem :
      {W : Type 0} (a : AnyWriter W) (w : W) (p : List ℕ)
      → (write a w p).1 ≡ write_sinks (sinks a) w p
  write_lem (sink s) w p = refl
  write_lem (multi ws) w p = write_each_lem ws w p

  write_each_lem :
      {W : Type 0} (ws : Writers W) (w : W) (p : List ℕ)
      → write_each ws w p ≡ write_sinks (sinks_each ws) w p
  write_each_lem nobody w p = refl
  write_each_lem (writer a ws) w p =
      write_each_lem ws (write a w p).1 p
      ∙ ap (λ v. write_sinks (sinks_each ws) v p) (write_lem a w p)
      ∙ sym (write_sinks-append (sinks a) (sinks_each ws) w p)

sinks-append_writers :
    {W : Type 0} (ws more : Writers W)
    → sinks_each (append_writers ws more) ≡ sinks_each ws ++ sinks_each more
unfolding append_writers sinks
sinks-append_writers nobody more = refl
sinks-append_writers (writer a ws) more =
    ap (λ t. sinks a ++ t) (sinks-append_writers ws more)
    ∙ sym (append_assoc (sinks a) (sinks_each ws) (sinks_each more))

sinks-all_writers : {W : Type 0} (ws : Writers W) → sinks_each (all_writers ws) ≡ sinks_each ws
unfolding all_writers sinks
sinks-all_writers nobody = refl
sinks-all_writers (writer (sink s) ws) = ap (λ t. s ∷ t) (sinks-all_writers ws)
sinks-all_writers (writer (multi inner) ws) =
    sinks-append_writers inner (all_writers ws)
    ∙ ap (λ t. sinks_each inner ++ t) (sinks-all_writers ws)

-- Write on what MultiWriter returns hands the whole message once to every sink under its arguments,
-- in their order, also after sinks that failed or were short, and answers the full count and no error.
pub multi_writer-write :
    {W : Type 0} (ws : Writers W) (w : W) (p : List ℕ)
    → write (multi_writer ws) w p ≡ ((pos (length p), none), write_sinks (sinks_each ws) w p)
unfolding write multi_writer
multi_writer-write ws w p =
    ap (λ v. ((pos (length p), none), v))
      (write_each_lem (all_writers ws) w p ∙ ap (λ t. write_sinks t w p) (sinks-all_writers ws))

-- A sink whose WriteString (or Write) never takes the whole message without an error.
abbrev pub Fails : {W : Type 0} → Sink W → Type 0
Fails {W} s = (w : W) (p : List ℕ) → goes_on (sink_string s w p).0 (length p) ≡ false

string_each-stops :
    {W : Type 0} (front back : Writers W) (s : Sink W) (w : W) (p : List ℕ)
    → Fails s
    → string_each (append_writers front (writer (sink s) back)) w p
      ≡ string_each (append_writers front (writer (sink s) nobody)) w p
unfolding write_string append_writers
string_each-stops {W} nobody back s w p fails =
    let after : W = (sink_string s w p).1 in
    ap (λ b. if b then string_each back after p else after) (fails w p)
    ∙ sym (ap (λ b. if b then after else after) (fails w p))
string_each-stops (writer a front) back s w p fails =
    let (answer, after) = write_string a w p in
    ap (λ v. if goes_on answer (length p) then v else after)
      (string_each-stops front back s after p fails)

-- WriteString stops at a sink that fails or is short: for a sink that always does, the writers behind
-- it do not matter, and get nothing, yet the full count and no error are answered.
pub write_string-stops :
    {W : Type 0} (front back : Writers W) (s : Sink W) (w : W) (p : List ℕ)
    → Fails s
    → write_string (multi (append_writers front (writer (sink s) back))) w p
      ≡ ((pos (length p), none), string_each (append_writers front (writer (sink s) nobody)) w p)
unfolding write_string
write_string-stops front back s w p fails =
    ap (λ v. ((pos (length p), none), v)) (string_each-stops front back s w p fails)
