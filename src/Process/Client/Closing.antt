-- ===== src/Process/Client/Closing.antt =====
-- The device's close, in every run of main.
use Prim.Native.String.{String}
use text.Mathlib.Text.{◌==◌}
use an_app.Base.{
  ◌≡◌, refl, ◌⊎◌, inl, inr, Bool, true, false, List, [], ◌∷◌, if◌then◌else◌, Bool-cases,
}
use an_app.Action.{Result, ok, err, crash, Action, pure, next, ◌>>◌, finally, Keeps, ◌>>>◌}
use an_app.Process.Client.{
  Call, creat_log, decode_file, init_route, new_device, init_gateway, config, start_stack,
  init_daemon_monitor, close_device, creat_child_process, manage_daemon_monitor, signal_child,
  Answer, done, failed, panicked, World, result, forgiven, after, call, logged, demanded, prepare,
  serve, create_client, run_daemon, run_manager, main,
}

-- Calls that neither serve the device nor close it.
abbrev quiet : Call → Bool
quiet creat_log = true
quiet decode_file = true
quiet init_route = true
quiet new_device = true
quiet init_gateway = true
quiet config = true
quiet start_stack = false
quiet init_daemon_monitor = false
quiet close_device = false
quiet creat_child_process = true
quiet manage_daemon_monitor = true
quiet signal_child = true

abbrev pub AllQuiet : List Call → Type 0
AllQuiet [] = Unit {0}
AllQuiet (c ∷ cs) = (quiet c ≡ true) × AllQuiet cs

-- The newest call comes first: the close, after it the wait for the end unless the stack panicked, and
-- the stack's start.
pub data Served : List Call → Type 0 where
  to_the_end :
      (cs : List Call)
      → AllQuiet cs
      → Served (close_device ∷ init_daemon_monitor ∷ start_stack ∷ cs)
  panicking : (cs : List Call) → AllQuiet cs → Served (close_device ∷ start_stack ∷ cs)

-- A call whose error is logged goes on or panics.
forgiven-cases : (a : Answer) → (forgiven (result a) ≡ ok tt) ⊎ (forgiven (result a) ≡ crash)
forgiven-cases done = inl refl
forgiven-cases failed = inl refl
forgiven-cases panicked = inr refl

module _ {K : Type 0} (sys : K → Call → Answer × K) where
  abbrev Silent : World K → Type 0
  Silent w = AllQuiet w.log

  kept_call : (c : Call) → quiet c ≡ true → Keeps Silent (call sys c)
  unfolding call
  kept_call c q w s = (q, s)

  kept_logged : (c : Call) → quiet c ≡ true → Keeps Silent (logged sys c)
  unfolding logged
  kept_logged c q w s = (q, s)

  kept_demanded : (c : Call) → quiet c ≡ true → Keeps Silent (demanded sys c)
  unfolding demanded
  kept_demanded c q w s = (q, s)

  prepare-Keeps : Keeps Silent (prepare sys)
  unfolding prepare
  prepare-Keeps =
      ((logged sys init_route, kept_logged init_route refl) >>> λ _.
      (call sys new_device, kept_call new_device refl) >>> λ _.
      (logged sys init_gateway, kept_logged init_gateway refl) >>> λ _.
      (logged sys config, kept_logged config refl)).1

  run_manager-Keeps : Keeps Silent (run_manager sys)
  unfolding run_manager
  run_manager-Keeps =
      ((call sys creat_child_process, kept_call creat_child_process refl) >>> λ _.
      (logged sys manage_daemon_monitor, kept_logged manage_daemon_monitor refl) >>> λ _.
      (logged sys signal_child, kept_logged signal_child refl)).1

  -- The end of CreateClient, from what its beginning has come to.
  abbrev Ends : World K → Type 0
  Ends w = AllQuiet w.log ⊎ Served w.log

  finish :
      (r : Result (Unit {0}) (Unit {0})) (w : World K)
      → Silent w
      → Ends (next r w (λ _. finally (serve sys) (after sys close_device))).1
  unfolding serve logged
  finish (err e) w s = inl s
  finish crash w s = inl s
  finish (ok a) w s = elim (forgiven-cases (sys w.kernel start_stack).0) [
    | inl e ↦ rw e (inr (to_the_end w.log s))
    | inr e ↦ rw e (inr (panicking w.log s))
  ]

  create_client-Ends : (w : World K) → Silent w → Ends (create_client sys w).1
  unfolding create_client
  create_client-Ends w s = finish (prepare sys w).0 (prepare sys w).1 (prepare-Keeps w s)

  quiet_then :
      (m k : Action (World K) (Unit {0}) (Unit {0}))
      → Keeps Silent m
      → ((w : World K) → Silent w → Ends (k w).1)
      → (w : World K) → Silent w
      → Ends ((m >> k) w).1
  quiet_then m k keeps ends w s = go (m w).0 (m w).1 (keeps w s)
    where
      go :
          (r : Result (Unit {0}) (Unit {0})) (w' : World K)
          → Silent w'
          → Ends (next r w' (λ _. k)).1
      go (ok a) w' s' = ends w' s'
      go (err e) w' s' = inl s'
      go crash w' s' = inl s'

  run_daemon-Ends : (context : String) (w : World K) → Silent w → Ends (run_daemon sys context w).1
  unfolding run_daemon
  run_daemon-Ends context =
      quiet_then (logged sys creat_log) _ (kept_logged creat_log refl)
        (quiet_then (demanded sys decode_file) _ (kept_demanded decode_file refl) client)
    where
      client :
          (w : World K)
          → Silent w
          → Ends ((if context == "client" then create_client sys else pure tt) w).1
      client w s = elim (Bool-cases (context == "client")) [
        | inl is ↦ rw is (create_client-Ends w s)
        | inr other ↦ rw other (inl s)
      ]

  -- Whatever the command line, the configuration and the answers of the calls, an error or a panic
  -- among them: main either never starts the stack and never closes a device, or the stack's start is
  -- followed by the wait for the end, unless the start panicked, and the device's close is the last
  -- call and the only close.
  pub main_closes :
      (args : List String) (context : String) (w : World K)
      → w.log ≡ []
      → AllQuiet (main sys args context w).1.log ⊎ Served (main sys args context w).1.log
  unfolding main
  main_closes [] context w e = inl (run_manager-Keeps w (rw e tt))
  main_closes (program ∷ []) context w e = inl (run_manager-Keeps w (rw e tt))
  main_closes (program ∷ arg ∷ args) context w e = elim (Bool-cases (arg == "daemon")) [
    | inl is ↦ rw is (run_daemon-Ends context w (rw e tt))
    | inr other ↦ rw other (inl (run_manager-Keeps w (rw e tt)))
  ]
