-- ===== src/Log/Tests.antt =====
-- Runs of the log's writers. The world is the text of the console and that of the file; the console
-- is closed, and answers an error.
use an_app.Base.Int.{pos}
use an_app.Base.{ℕ, ◌≡◌, refl, List, [], ◌∷◌, ◌++◌, Bool, true, false, Option, none, some, length}
use an_app.Log.{Sink, sink, multi, Writers, nobody, writer, multi_writer, write}
use an_app.Log.Reach.{sinks, multi_writer-write}
use an_app.Log.Files.{Stat, present, absent, Os, creat_log, create_dir, path_exists, make_missing}

abbrev Texts : Type 0
Texts = List ℕ × List ℕ

abbrev closed_console : Sink Texts
closed_console = record { write_bytes = λ w p. ((pos 0, some 1), w); write_text = none }

abbrev file : Sink Texts
file = record { write_bytes = λ w p. ((pos (length p), none), (w.0, w.1 ++ p)); write_text = none }

abbrev both : Writers Texts
both = writer (multi (writer (sink closed_console) nobody)) (writer (sink file) nobody)

-- The file gets the message although the console is closed.
multi_writer-write_example :
    write (multi_writer both) ([], []) (1 ∷ 2 ∷ []) ≡ ((pos 2, none), ([], 1 ∷ 2 ∷ []))
unfolding sinks
multi_writer-write_example = multi_writer-write both ([], []) (1 ∷ 2 ∷ [])

-- A disk is whether the directory of the log is there.
abbrev found : Bool → Stat ℕ
found true = present
found false = absent

abbrev opened : Bool → Option ℕ
opened true = none
opened false = some 2

abbrev os : Os Bool ℕ
os = record {
  stat = λ d path. found d;
  mkdir = λ d path. (none, true);
  open_append = λ d path. (opened d, d);
}

creat_log_run :
    (creat_log os closed_console file (sink closed_console) false).0
    ≡ multi_writer (writer (sink closed_console) (writer (sink file) nobody))
unfolding creat_log create_dir path_exists make_missing
creat_log_run = refl
