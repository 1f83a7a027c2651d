-- ===== src/Log.antt =====
-- tool/log/logTool.go: the multiWriter of the log, which writes to the console and to a file. A sink
-- is a writer that is not a *multiWriter: its Write, and its WriteString when it is an
-- io.StringWriter, act on a shared world and answer a count and an error. A string is the list of
-- its bytes. Files has the log's file.
pub mod Files
pub mod Reach
mod Tests
use an_app.Base.Int.{ℤ, pos, is_ℕ}
use an_app.Base.{ℕ, Bool, true, false, List, Option, none, some, if◌then◌else◌, length}

-- A Write's count and error; the error is a number.
abbrev pub Answer : Type 0
Answer = ℤ × Option ℕ

pub record Sink (W : Type 0) : Type 0 where
  pub write_bytes : W → List ℕ → Answer × W
  pub write_text : Option (W → List ℕ → Answer × W)

-- An io.Writer: a sink or a *multiWriter with its field `writers`.
mutual
  pub data AnyWriter (W : Type 0) : Type 0 where
    sink : Sink W → AnyWriter W
    multi : Writers W → AnyWriter W

  pub data Writers (W : Type 0) : Type 0 where
    nobody : Writers W
    writer : AnyWriter W → Writers W → Writers W

pub append_writers : {W : Type 0} → Writers W → Writers W → Writers W
append_writers nobody more = more
append_writers (writer a ws) more = writer a (append_writers ws more)

-- The loop of MultiWriter.
pub all_writers : {W : Type 0} → Writers W → Writers W
all_writers nobody = nobody
all_writers (writer (multi inner) ws) = append_writers inner (all_writers ws)
all_writers (writer (sink s) ws) = writer (sink s) (all_writers ws)

pub multi_writer : {W : Type 0} → Writers W → AnyWriter W
multi_writer ws = multi (all_writers ws)

-- Write: the loop goes on after an error or a short count, and the answer is fixed.
unfoldable mutual
  pub write : {W : Type 0} → AnyWriter W → W → List ℕ → Answer × W
  write (sink s) w p = s.write_bytes w p
  write (multi ws) w p = ((pos (length p), none), write_each ws w p)

  pub write_each : {W : Type 0} → Writers W → W → List ℕ → W
  write_each nobody w p = w
  write_each (writer a ws) w p = write_each ws (write a w p).1 p

-- A sink under WriteString: a sink without one gets the bytes.
pub sink_string : {W : Type 0} → Sink W → W → List ℕ → Answer × W
sink_string s w p = elim s.write_text [ none ↦ s.write_bytes w p | some f ↦ f w p ]

-- Whether the loop of WriteString goes on.
pub goes_on : Answer → ℕ → Bool
goes_on (n, some e) size = false
goes_on (n, none) size = is_ℕ n size

-- WriteString: the loop breaks after an error or a short count, and the answer is fixed.
unfoldable mutual
  pub write_string : {W : Type 0} → AnyWriter W → W → List ℕ → Answer × W
  write_string (sink s) w p = sink_string s w p
  write_string (multi ws) w p = ((pos (length p), none), string_each ws w p)

  pub string_each : {W : Type 0} → Writers W → W → List ℕ → W
  string_each nobody w p = w
  string_each (writer a ws) w p =
      let (answer, w') = write_string a w p in
      let rest = string_each ws w' p in if goes_on answer (length p) then rest else w'
