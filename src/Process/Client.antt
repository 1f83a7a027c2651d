-- ===== src/Process/Client.antt =====
-- app/v2/main.go, main, and app/v2/client/client.go, CreateClient: what is called in which order, and
-- what happens to the answers. The calls are parameters here; most are modelled in other files.
-- runtime.GOMAXPROCS and the log are left out.
pub mod Closing
use Prim.Native.String.{String}
use text.Mathlib.Text.{◌==◌}
use an_app.Base.{ℕ, Bool, true, false, List, [], ◌∷◌, Option, none, some, if◌then◌else◌}
use an_app.Action.{Result, ok, err, crash, Action, pure, panic, finally, next, ◌>>=◌, ◌>>◌}

pub data Call : Type 0 where
  creat_log : Call
  decode_file : Call
  init_route : Call
  new_device : Call
  init_gateway : Call
  config : Call
  start_stack : Call
  init_daemon_monitor : Call
  close_device : Call
  creat_child_process : Call
  manage_daemon_monitor : Call
  signal_child : Call

pub data Answer : Type 0 where
  done : Answer
  failed : Answer
  panicked : Answer

pub record World (K : Type 0) : Type 0 where
  pub kernel : K
  pub log : List Call

abbrev pub result : Answer → Result (Unit {0}) (Unit {0})
result done = ok tt
result failed = err tt
result panicked = crash

-- An error that is only logged.
abbrev pub forgiven : Result (Unit {0}) (Unit {0}) → Result (Unit {0}) (Unit {0})
forgiven (ok a) = ok tt
forgiven (err e) = ok tt
forgiven crash = crash

-- An error that is handed to panic.
abbrev pub insisted : Result (Unit {0}) (Unit {0}) → Result (Unit {0}) (Unit {0})
insisted (ok a) = ok tt
insisted (err e) = crash
insisted crash = crash

module _ {K : Type 0} (sys : K → Call → Answer × K) where
  abbrev pub after : Call → World K → World K
  after c w = record { kernel = (sys w.kernel c).1; log = c ∷ w.log }

  unfoldable pub call : Call → Action (World K) (Unit {0}) (Unit {0})
  call c w = (result (sys w.kernel c).0, after c w)

  unfoldable pub logged : Call → Action (World K) (Unit {0}) (Unit {0})
  logged c w = (forgiven (result (sys w.kernel c).0), after c w)

  unfoldable pub demanded : Call → Action (World K) (Unit {0}) (Unit {0})
  demanded c w = (insisted (result (sys w.kernel c).0), after c w)

  -- CreateClient before the device's close is deferred; only NewDevice's error ends it.
  unfoldable pub prepare : Action (World K) (Unit {0}) (Unit {0})
  prepare = do logged init_route; call new_device; logged init_gateway; logged config

  unfoldable pub serve : Action (World K) (Unit {0}) (Unit {0})
  serve = do logged start_stack; logged init_daemon_monitor

  unfoldable pub create_client : Action (World K) (Unit {0}) (Unit {0})
  create_client = do prepare; finally serve (after close_device)

  -- The two branches of main; an error of DecodeFile is a panic, and context is the file's.
  unfoldable pub run_daemon : String → Action (World K) (Unit {0}) (Unit {0})
  run_daemon context = do
    logged creat_log
    demanded decode_file
    if context == "client" then create_client else pure tt

  unfoldable pub run_manager : Action (World K) (Unit {0}) (Unit {0})
  run_manager = do call creat_child_process; logged manage_daemon_monitor; logged signal_child

  unfoldable pub main : List String → String → Action (World K) (Unit {0}) (Unit {0})
  main [] context = run_manager
  main (program ∷ []) context = run_manager
  main (program ∷ arg ∷ args) context = if arg == "daemon" then run_daemon context else run_manager
