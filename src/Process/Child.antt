-- ===== src/Process/Child.antt =====
-- tool/procTool/procTool.go: CreatChildProcess, which starts the program again and copies its output to
-- the log. exec.Command and bufio.Scanner are parameters. The goroutine that copies the output has
-- fuel, and `none` is a goroutine that is still reading.
use Prim.Native.String.{String}
use an_app.Base.{
  ℕ, zero, suc, ◌<◌, ◌≡◌, refl, ap, ◌∙◌, Bool, true, false, List, [], ◌∷◌, ◌++◌, map, Option, none,
  some, length, All, arith,
}
use mathlib.Core.List.{append_assoc, append-nil}

-- What the goroutine logs.
pub data Entry (E : Type 0) : Type 0 where
  got_output : Entry E
  line : String → Entry E
  stream_error : E → Entry E

-- Scan with the Text that follows it, and Err.
pub record Scanner (S E : Type 0) : Type 0 where
  pub scan : S → Option (String × S)
  pub err : S → Option E

module _ {S E : Type 0} (sc : Scanner S E) where
  abbrev pub report : Option E → List (Entry E) → List (Entry E)
  report none log = log
  report (some e) log = log ++ (stream_error e ∷ [])

  -- for s.Scan(), and Err after it.
  unfoldable pub scan_lines : ℕ → S → List (Entry E) → Option (List (Entry E))
  scan_lines zero s log = none
  scan_lines (suc fuel) s log = elim (sc.scan s) [
    | none ↦ some (report (sc.err s) log)
    | some (text, s') ↦ scan_lines fuel s' (log ++ (line text ∷ []))
  ]

  unfoldable pub handle_stdout : ℕ → S → Option (List (Entry E))
  handle_stdout fuel s = scan_lines fuel s (got_output ∷ [])

-- exec.Cmd: its pipe, or the error of StdoutPipe, and Start.
pub record Command (S E : Type 0) : Type 0 where
  pub path : String
  pub args : List String
  pub stdout_pipe : Option S
  pub start : Option E

pub record Child (S E : Type 0) : Type 0 where
  pub command : Command S E
  pub reading : Option S
  pub error : Option E

-- The command is returned with the error of Start; a pipe that could not be made is only logged, and
-- the child starts without a reader.
unfoldable pub creat_child_process :
    {S E : Type 0} → (String → List String → Command S E) → String → List String → Child S E
creat_child_process command file_path arg =
    let procd = command file_path arg in
    record { command = procd; reading = procd.stdout_pipe; error = procd.start }

-- What bufio documents of a Scanner by lines: it yields the lines of its input in their order, a line
-- that does not fit its buffer ends it with an error, and the end of the input ends it without one.
pub record IsLineScanner {S E : Type 0} (sc : Scanner S E) (input : S → List String)
    (fits : String → Bool) (too_long : E) : Type 0 where
  pub at_end : (s : S) → input s ≡ [] → (sc.scan s ≡ none) × (sc.err s ≡ none)
  pub at_line :
      (s : S) (text : String) (rest : List String)
      → input s ≡ text ∷ rest
      → fits text ≡ true
      → (s' : S) × (sc.scan s ≡ some (text, s')) × (input s' ≡ rest)
  pub at_long_line :
      (s : S) (text : String) (rest : List String)
      → input s ≡ text ∷ rest
      → fits text ≡ false
      → (sc.scan s ≡ none) × (sc.err s ≡ some too_long)

module _ {S E : Type 0} (sc : Scanner S E) (input : S → List String) (fits : String → Bool)
    (too_long : E) (laws : IsLineScanner sc input fits too_long) where
  -- The lines that fit, and then what the end leaves: an error for a line that does not fit.
  abbrev ending : List String → List (Entry E)
  ending [] = []
  ending (long ∷ rest) = stream_error too_long ∷ []

  abbrev Stops : List String → Type 0
  Stops [] = Unit
  Stops (long ∷ rest) = fits long ≡ false

  scan_lines_end :
      (rest : List String) (fuel : ℕ) (s : S) (log : List (Entry E))
      → input s ≡ rest
      → Stops rest
      → 0 < fuel
      → scan_lines sc fuel s log ≡ some (log ++ ending rest)
  unfolding scan_lines
  scan_lines_end rest zero s log e h n = absurd (omega arith)
  scan_lines_end [] (suc fuel) s log e h n =
      rw ((laws.at_end s e).0, (laws.at_end s e).1, scan_lines, append-nil log) refl
  scan_lines_end (long ∷ rest) (suc fuel) s log e h n =
      rw ((laws.at_long_line s long rest e h).0, (laws.at_long_line s long rest e h).1, scan_lines)
        refl

  scan_lines_all :
      (front rest : List String) (fuel : ℕ) (s : S) (log : List (Entry E))
      → input s ≡ front ++ rest
      → All (λ t. fits t ≡ true) front
      → Stops rest
      → length front < fuel
      → scan_lines sc fuel s log ≡ some (log ++ (map line front ++ ending rest))
  unfolding scan_lines
  scan_lines_all front rest zero s log e h stops n = absurd (omega arith)
  scan_lines_all [] rest (suc fuel) s log e h stops n =
      scan_lines_end rest (suc fuel) s log e stops n
  scan_lines_all (t ∷ front) rest (suc fuel) s log e (f, h) stops n =
      let (s', scanned, left) = laws.at_line s t (front ++ rest) e f in
      rw (scanned, scan_lines)
        (scan_lines_all front rest fuel s' (log ++ (line t ∷ [])) left h stops (omega arith)
          ∙ ap some (append_assoc log (line t ∷ []) (map line front ++ ending rest)))

  -- The log gets the daemon's lines in their order, up to the first that does not fit the scanner's
  -- buffer, and then the goroutine is at its end: if there is such a line, with its error, and neither
  -- that line nor anything behind it is ever read.
  pub handle_stdout_lem :
      (front rest : List String) (fuel : ℕ) (s : S)
      → input s ≡ front ++ rest
      → All (λ t. fits t ≡ true) front
      → Stops rest
      → length front < fuel
      → handle_stdout sc fuel s ≡ some (got_output ∷ (map line front ++ ending rest))
  unfolding handle_stdout
  handle_stdout_lem front rest fuel s e h stops n =
      scan_lines_all front rest fuel s (got_output ∷ []) e h stops n

  -- The output that a daemon writes behind a line that does not fit is not read: the goroutine has
  -- ended with the error of that line, after logging the lines before it in their order.
  pub long_line_ends_output :
      (front : List String) (long : String) (behind : List String) (fuel : ℕ) (s : S)
      → input s ≡ front ++ (long ∷ behind)
      → All (λ t. fits t ≡ true) front
      → fits long ≡ false
      → length front < fuel
      → handle_stdout sc fuel s
        ≡ some (got_output ∷ (map line front ++ (stream_error too_long ∷ [])))
  long_line_ends_output front long behind fuel s e h stops n =
      handle_stdout_lem front (long ∷ behind) fuel s e h stops n
