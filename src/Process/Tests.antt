-- ===== src/Process/Tests.antt =====
-- Linux and Windows as the systems, and runs of main.
use Prim.Native.String.{String, len}
use an_app.Base.{
  ℕ, ◌≤◌, inr, ◌≡◌, refl, Bool, true, false, List, [], ◌∷◌, ◌⊎◌, Option, none, some, ltb,
  if◌then◌else◌, arith,
}
use an_app.Process.Child.{
  got_output, line, stream_error, Scanner, handle_stdout, Command, creat_child_process,
  IsLineScanner, long_line_ends_output,
}
use an_app.Process.{
  interrupt, hangup, Ending, exit, by_signal, state, wait_error, found, signs, daemon_takes,
  manager_takes, parent_round, monitor_parent_process,
}
use an_app.Process.Lifecycle.{
  Os, Manager, Daemon, Move, program, moves, starting, act, watching, ended, killed, serving, dead,
  deliver, send_interrupt, after_kill, manager_signalled, manager_ends, daemon_starts, still, move,
  Alone, rest, Stopping, no_orphan, daemon_follows, killed_parent_unnoticed,
}
use an_app.Process.Client.{
  Call, creat_log, decode_file, init_route, new_device, init_gateway, config, start_stack,
  init_daemon_monitor, close_device, Answer, done, failed, World, call, logged, demanded, prepare,
  serve, create_client, run_daemon, main,
}
use an_app.Process.Client.Closing.{AllQuiet, Served, main_closes}

-- On Unix Exited is false of a process that a signal ended, and Wait of a process that is no child is
-- an error.
abbrev unix_exited : Ending → Bool
unix_exited exit = true
unix_exited by_signal = false

abbrev linux : Os
linux = record { interrupts = true; exited = unix_exited; gone_parent = found wait_error }

-- On Windows os.Interrupt cannot be sent, and Wait serves any process.
abbrev windows : Os
windows = record { interrupts = false; exited = λ _. true; gone_parent = found (state exit) }

no_orphan_example : Stopping (deliver interrupt serving)
unfolding send_interrupt manager_takes
no_orphan_example = no_orphan linux (deliver interrupt serving) refl (
    move (daemon_starts watching) (
      move (manager_signalled hangup serving refl)
        (move (manager_ends serving) (still ended (send_interrupt linux serving)))))

-- The daemon has not yet seen that its manager was killed.
followed : Alone windows killed starting killed serving
followed = act (daemon_starts killed) (rest killed serving)

daemon_follows_example :
    (moves followed ≤ 3)
    × (3 ≤ 3)
    × (((e : Ending) × (serving ≡ dead e))
        ⊎ ((m'' : Manager) × (d'' : Daemon) × Move windows program killed serving m'' d''))
    × ((e : Ending) → serving ≡ dead e → (starting ≡ dead e) ⊎ (e ≡ exit))
daemon_follows_example = daemon_follows followed after_kill (inr (exit, refl, refl))

killed_run : (killed ≡ killed) × (serving ≡ serving)
unfolding parent_round signs
killed_run = killed_parent_unnoticed linux killed serving refl (rest killed serving)

-- A hangup, which the daemon does not ask for, ends it without its exit.
hangup_run : deliver hangup serving ≡ dead by_signal
unfolding deliver daemon_takes
hangup_run = refl

-- However often the daemon on Linux looks for a parent that is gone.
monitor_run : monitor_parent_process unix_exited (found wait_error ∷ found wait_error ∷ []) ≡ false
unfolding monitor_parent_process parent_round signs
monitor_run = refl

-- A stack that does not start.
abbrev failing_stack : Bool → Call → Answer × Bool
failing_stack k start_stack = (failed, k)
failing_stack k c = (done, k)

abbrev started : World Bool
started = record { kernel = true; log = [] }

main_closes_example :
    AllQuiet (main failing_stack ("anApp" ∷ "daemon" ∷ []) "client" started).1.log
    ⊎ Served (main failing_stack ("anApp" ∷ "daemon" ∷ []) "client" started).1.log
main_closes_example = main_closes failing_stack ("anApp" ∷ "daemon" ∷ []) "client" started refl

-- The program waits on after the failure.
main_run :
    (main failing_stack ("anApp" ∷ "daemon" ∷ []) "client" started).1.log
    ≡ close_device ∷ init_daemon_monitor ∷ start_stack ∷ config ∷ init_gateway ∷ new_device
      ∷ init_route ∷ decode_file ∷ creat_log ∷ []
unfolding main run_daemon create_client prepare serve logged demanded call
main_run = refl

-- A scanner whose buffer takes lines of up to nine characters.
abbrev short : String → Bool
short text = ltb (len text) 10

abbrev next_line : List String → Option (String × List String)
next_line [] = none
next_line (text ∷ texts) = if short text then some (text, texts) else none

abbrev scan_error : List String → Option ℕ
scan_error [] = none
scan_error (text ∷ texts) = some 64

abbrev scanner : Scanner (List String) ℕ
scanner = record { scan = next_line; err = scan_error }

scanner-IsLineScanner : IsLineScanner scanner (λ s. s) short 64
scanner-IsLineScanner = record {
  at_end = λ s e. rw e (refl, refl);
  at_line = λ s text rest e f. (rest, rw (e, f) refl, refl);
  at_long_line = λ s text rest e f. rw e (rw f refl, refl);
}

long_line_ends_output_example :
    handle_stdout scanner 9 ("serving" ∷ "a line that is too long" ∷ "lost" ∷ [])
    ≡ some (got_output ∷ line "serving" ∷ stream_error 64 ∷ [])
long_line_ends_output_example =
    long_line_ends_output scanner (λ s. s) short 64 scanner-IsLineScanner ("serving" ∷ [])
      "a line that is too long" ("lost" ∷ []) 9
      ("serving" ∷ "a line that is too long" ∷ "lost" ∷ []) refl (refl, tt) refl (omega arith)

-- Start works although StdoutPipe has failed, and nothing reads the child's output.
abbrev no_pipe : Command (List String) ℕ
no_pipe = record { path = "/anApp"; args = "daemon" ∷ []; stdout_pipe = none; start = none }

unread_run :
    creat_child_process (λ path args. no_pipe) "/anApp" ("daemon" ∷ [])
    ≡ record { command = no_pipe; reading = none; error = none }
unfolding creat_child_process
unread_run = refl
