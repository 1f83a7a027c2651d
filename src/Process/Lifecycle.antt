-- ===== src/Process/Lifecycle.antt =====
-- The two processes side by side: what each does when the other ends.
use an_app.Base.{
  ℕ, suc, ◌≤◌, ◌⊎◌, arith, ◌≡◌, refl, Bool, true, false, if◌then◌else◌, some, inl, inr, Bool-cases,
}
use an_app.Process.{
  Signal, interrupt, Ending, exit, by_signal, state, ParentAnswer, no_process, found, signs,
  daemon_takes, manager_takes, monitor_daemon_process, parent_round,
}

-- What the code uses of the system: whether Process.Signal delivers os.Interrupt, what
-- ProcessState.Exited says of an ending, and what FindProcess and Wait answer for a parent that is gone.
pub record Os : Type 0 where
  pub interrupts : Bool
  pub exited : Ending → Bool
  pub gone_parent : ParentAnswer

-- ManageDaemonMonitor, its return, and the end of main.
pub data Manager : Type 0 where
  watching : Manager
  returned : Manager
  ended : Manager
  killed : Manager

-- Before signal.Notify, in InitDaemonMonitor's loop, after it, and the ends.
pub data Daemon : Type 0 where
  starting : Daemon
  serving : Daemon
  closing : Daemon
  dead : Ending → Daemon

-- A signal to the daemon. The default action ends a process that has not asked for the signal.
unfoldable pub deliver : Signal → Daemon → Daemon
deliver s starting = dead by_signal
deliver s serving = if daemon_takes s then closing else dead by_signal
deliver s closing = if daemon_takes s then closing else dead by_signal
deliver s (dead e) = dead e

-- main's last call; its error is dropped.
unfoldable pub send_interrupt : Os → Daemon → Daemon
send_interrupt os d = if os.interrupts then deliver interrupt d else d

-- Done by the program, or from outside.
pub data Cause : Type 0 where
  program : Cause
  outside : Cause

pub data Gone : Manager → Type 0 where
  after_end : Gone ended
  after_kill : Gone killed

pub data Move (os : Os) : Cause → Manager → Daemon → Manager → Daemon → Type 0 where
  manager_signalled :
      (s : Signal) (d : Daemon) → manager_takes s ≡ true → Move os outside watching d returned d
  manager_killed : (m : Manager) (d : Daemon) → Move os outside m d killed d
  manager_sees :
      (e : Ending)
      → monitor_daemon_process os.exited (some (state e)) ≡ true
      → Move os program watching (dead e) returned (dead e)
  manager_ends : (d : Daemon) → Move os program returned d ended (send_interrupt os d)
  daemon_starts : (m : Manager) → Move os program m starting m serving
  daemon_signalled : (s : Signal) (m : Manager) (d : Daemon) → Move os outside m d m (deliver s d)
  daemon_sees :
      (m : Manager)
      → Gone m
      → parent_round os.exited os.gone_parent ≡ true
      → Move os program m serving m closing
  daemon_closes : (m : Manager) → Move os program m closing m (dead exit)

-- Moves in a row, from either cause, and of the program alone.
pub data Moves (os : Os) : Manager → Daemon → Manager → Daemon → Type 0 where
  still : (m : Manager) (d : Daemon) → Moves os m d m d
  move :
      {c : Cause} {m1 m2 m3 : Manager} {d1 d2 d3 : Daemon}
      → Move os c m1 d1 m2 d2
      → Moves os m2 d2 m3 d3
      → Moves os m1 d1 m3 d3

pub data Alone (os : Os) : Manager → Daemon → Manager → Daemon → Type 0 where
  rest : (m : Manager) (d : Daemon) → Alone os m d m d
  act :
      {m1 m2 m3 : Manager} {d1 d2 d3 : Daemon}
      → Move os program m1 d1 m2 d2
      → Alone os m2 d2 m3 d3
      → Alone os m1 d1 m3 d3

-- The daemon is dead, or on its way there.
pub data Stopping : Daemon → Type 0 where
  on_its_way : Stopping closing
  already : (e : Ending) → Stopping (dead e)

-- Once the manager has ended, the daemon is stopping.
abbrev Told : Manager → Daemon → Type 0
Told watching d = Unit {0}
Told returned d = Unit {0}
Told ended d = Stopping d
Told killed d = Unit {0}

deliver-Stopping : (s : Signal) (d : Daemon) → Stopping d → Stopping (deliver s d)
unfolding deliver
deliver-Stopping s d on_its_way = elim (Bool-cases (daemon_takes s)) [
  | inl takes ↦ rw (takes, deliver) on_its_way
  | inr not_taken ↦ rw (not_taken, deliver) (already by_signal)
]
deliver-Stopping s d (already e) = already e

interrupt-Stopping : (d : Daemon) → Stopping (deliver interrupt d)
unfolding deliver daemon_takes
interrupt-Stopping starting = already by_signal
interrupt-Stopping serving = on_its_way
interrupt-Stopping closing = on_its_way
interrupt-Stopping (dead e) = already e

Told-map : (m : Manager) {d d' : Daemon} → (Stopping d → Stopping d') → Told m d → Told m d'
Told-map watching f t = tt
Told-map returned f t = tt
Told-map ended f t = f t
Told-map killed f t = tt

starting-going : Stopping starting → ⊥
starting-going g = elim g [ ]

Told-Move :
    {os : Os} {c : Cause} {m m' : Manager} {d d' : Daemon}
    → os.interrupts ≡ true
    → Move os c m d m' d'
    → Told m d
    → Told m' d'
unfolding send_interrupt
Told-Move h (manager_signalled s d takes) t = tt
Told-Move h (manager_killed m d) t = tt
Told-Move h (manager_sees e sees) t = tt
Told-Move h (manager_ends d) t = rw (h, send_interrupt) (interrupt-Stopping d)
Told-Move h (daemon_starts m) t = Told-map m (λ g. absurd (starting-going g)) t
Told-Move h (daemon_signalled s m d) t = Told-map m (deliver-Stopping s d) t
Told-Move h (daemon_sees m gone sees) t = Told-map m (λ g. on_its_way) t
Told-Move h (daemon_closes m) t = Told-map m (λ g. already exit) t

Told-Moves :
    {os : Os} {m m' : Manager} {d d' : Daemon}
    → os.interrupts ≡ true
    → Moves os m d m' d'
    → Told m d
    → Told m' d'
Told-Moves h (still m d) t = t
Told-Moves h (move one more) t = Told-Moves h more (Told-Move h one t)

-- Where Process.Signal delivers the interrupt: however the two processes move, and whatever signals
-- they get, from the manager's watch and the daemon's start, once the manager has come to the end of
-- main the daemon is past its loop or dead.
pub no_orphan :
    (os : Os) (d : Daemon) → os.interrupts ≡ true → Moves os watching starting ended d → Stopping d
no_orphan os d h moves = Told-Moves h moves tt

-- The system tells that a process is gone: FindProcess finds none, or Wait has its state, of which Exited
-- is true.
abbrev pub TellsGone : Os → Type 0
TellsGone os =
    (os.gone_parent ≡ no_process)
    ⊎ ((e : Ending) × (os.gone_parent ≡ found (state e)) × (os.exited e ≡ true))

tells-parent_round : (os : Os) → TellsGone os → parent_round os.exited os.gone_parent ≡ true
unfolding parent_round signs
tells-parent_round os (inl none_there) = rw none_there refl
tells-parent_round os (inr (e, answers, is_exited)) = rw (answers, is_exited) refl

abbrev pub moves : {os : Os} {m m' : Manager} {d d' : Daemon} → Alone os m d m' d' → ℕ
moves (rest m d) = 0
moves (act one more) = suc (moves more)

-- How many moves a daemon is from its end, at most.
abbrev pub steps_left : Daemon → ℕ
steps_left starting = 3
steps_left serving = 2
steps_left closing = 1
steps_left (dead e) = 0

-- A move without a manager: one step less to go, the same manager, and no death but by an exit.
record Onward (m m' : Manager) (d d' : Daemon) : Type 0 where
  less : suc (steps_left d') ≤ steps_left d
  still_gone : Gone m'
  exits : (e : Ending) → d' ≡ dead e → e ≡ exit

exit_only : (e : Ending) → dead exit ≡ dead e → e ≡ exit
exit_only exit same = refl
exit_only by_signal same = cc

Move-Onward :
    {os : Os} {m m' : Manager} {d d' : Daemon}
    → Gone m
    → Move os program m d m' d'
    → Onward m m' d d'
Move-Onward gone (manager_sees e sees) = elim gone [ ]
Move-Onward gone (manager_ends d) = elim gone [ ]
Move-Onward gone (daemon_starts m) = record {
  less = omega arith;
  still_gone = gone;
  exits = λ e same. cc;
}
Move-Onward gone (daemon_sees m g sees) = record {
  less = omega arith;
  still_gone = gone;
  exits = λ e same. cc;
}
Move-Onward gone (daemon_closes m) = record {
  less = omega arith;
  still_gone = gone;
  exits = exit_only;
}

can_go_on :
    (os : Os) (m : Manager) (d : Daemon)
    → Gone m
    → TellsGone os
    → ((e : Ending) × (d ≡ dead e)) ⊎ ((m' : Manager) × (d' : Daemon) × Move os program m d m' d')
can_go_on os m starting gone t = inr (m, serving, daemon_starts m)
can_go_on os m serving gone t = inr (m, closing, daemon_sees m gone (tells-parent_round os t))
can_go_on os m closing gone t = inr (m, dead exit, daemon_closes m)
can_go_on os m (dead e) gone t = inl (e, refl)

at_most_three : (d : Daemon) → steps_left d ≤ 3
at_most_three starting = omega arith
at_most_three serving = omega arith
at_most_three closing = omega arith
at_most_three (dead e) = omega arith

-- Where the system tells that a process is gone: a daemon whose manager has ended or was killed comes by
-- itself to an end, whatever it was doing and however the two move on: no run of the program's own
-- moves has more than three of them, the last state of a run is the daemon's death or has a next move,
-- and a daemon that was not dead before has died by its own exit.
pub daemon_follows :
    {os : Os} {m m' : Manager} {d d' : Daemon} (run : Alone os m d m' d')
    → Gone m
    → TellsGone os
    → (moves run ≤ steps_left d)
      × (steps_left d ≤ 3)
      × (((e : Ending) × (d' ≡ dead e))
          ⊎ ((m'' : Manager) × (d'' : Daemon) × Move os program m' d' m'' d''))
      × ((e : Ending) → d' ≡ dead e → (d ≡ dead e) ⊎ (e ≡ exit))
daemon_follows {os} (rest m d) gone t =
    (omega arith, at_most_three d, can_go_on os m d gone t, λ e same. inl same)
daemon_follows {os} (act {m1} {m2} {m3} {d1} {d2} {d3} one more) gone t =
    let h = Move-Onward gone one in
    let (short, few, next, ends) = daemon_follows more h.still_gone t in
    (
      omega (arith, short, h.less),
      at_most_three d1,
      next,
      λ e same. elim (ends e same) [ inl before ↦ inr (h.exits e before) | inr own ↦ inr own ],
    )

-- Where it does not tell that the parent is gone, a daemon that serves when its manager is killed goes
-- on serving: nothing that the program does by itself ends it.
pub killed_parent_unnoticed :
    (os : Os) (m' : Manager) (d' : Daemon)
    → parent_round os.exited os.gone_parent ≡ false
    → Alone os killed serving m' d'
    → (m' ≡ killed) × (d' ≡ serving)
killed_parent_unnoticed os m' d' h (rest m d) = (refl, refl)
killed_parent_unnoticed os m' d' h (act (daemon_sees m gone sees) more) = cc

-- Where a process that a signal ended has not exited in the words of Exited, the manager of a daemon
-- that a signal has ended watches on: nothing that the program does by itself ends it.
pub killed_daemon_unnoticed :
    (os : Os) (m' : Manager) (d' : Daemon)
    → os.exited by_signal ≡ false
    → Alone os watching (dead by_signal) m' d'
    → (m' ≡ watching) × (d' ≡ dead by_signal)
unfolding monitor_daemon_process signs
killed_daemon_unnoticed os m' d' h (rest m d) = (refl, refl)
killed_daemon_unnoticed os m' d' h (act (manager_sees e sees) more) = cc
