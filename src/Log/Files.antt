-- ===== src/Log/Files.antt =====
-- tool/log/logTool.go, CreatLog, createDir and PathExists: the file of the log. os is a parameter; the
-- console and the opened file are sinks. The output of the log package changes only at SetOutput; its
-- flags and what is logged meanwhile are left out.
use Prim.Native.String.{String}
use an_app.Base.{◌≡◌, refl, Bool, true, false, Option, none, some}
use an_app.Log.{Sink, AnyWriter, sink, nobody, writer, multi_writer}

-- os.Stat: the path is there, is not (os.IsNotExist), or an error of another kind.
pub data Stat (E : Type 0) : Type 0 where
  present : Stat E
  absent : Stat E
  stat_error : E → Stat E

pub record Os (D E : Type 0) : Type 0 where
  pub stat : D → String → Stat E
  pub mkdir : D → String → Option E × D
  pub open_append : D → String → Option E × D

unfoldable pub path_exists : {E : Type 0} → Stat E → Bool × Option E
path_exists present = (true, none)
path_exists absent = (false, none)
path_exists (stat_error e) = (false, some e)

module _ {D E : Type 0} (os : Os D E) where
  -- Mkdir, whose error is only logged, unless the path is there or Stat fails.
  unfoldable pub make_missing : Bool × Option E → String → D → D
  make_missing (exist, some e) dir d = d
  make_missing (true, none) dir d = d
  make_missing (false, none) dir d = (os.mkdir d dir).1

  unfoldable pub create_dir : String → D → D
  create_dir dir d = make_missing (path_exists (os.stat d dir)) dir d

  -- The log's output, given the one so far.
  unfoldable pub creat_log : {W : Type 0} → Sink W → Sink W → AnyWriter W → D → AnyWriter W × D
  creat_log stdout f output d =
      let (e, after) = os.open_append (create_dir "log" d) "./log/log.log" in
      elim e [
        | some x ↦ (output, after)
        | none ↦ (multi_writer (writer (sink stdout) (writer (sink f) nobody)), after)
      ]

  -- Where a directory that is there can hold the file, and Mkdir makes a missing one: the log goes to
  -- the console and to the file after CreatLog, whether the directory was there before or not.
  pub creat_log-output :
      {W : Type 0} (stdout f : Sink W) (output : AnyWriter W) (d : D)
      → ((d' : D) → os.stat d' "log" ≡ present → (os.open_append d' "./log/log.log").0 ≡ none)
      → ((d' : D) → os.stat d' "log" ≡ absent → os.stat (os.mkdir d' "log").1 "log" ≡ present)
      → ((e : E) → os.stat d "log" ≡ stat_error e → ⊥)
      → (creat_log stdout f output d).0
        ≡ multi_writer (writer (sink stdout) (writer (sink f) nobody))
  unfolding creat_log create_dir path_exists make_missing
  creat_log-output stdout f output d opens made no_error =
      let here = there (os.stat d "log") refl in
      rw (opens (create_dir "log" d) here, creat_log) refl
    where
      there : (s : Stat E) → os.stat d "log" ≡ s → os.stat (create_dir "log" d) "log" ≡ present
      there present e = rw (e, create_dir) e
      there absent e = rw (e, create_dir) (made d e)
      there (stat_error x) e = absurd (no_error x e)
