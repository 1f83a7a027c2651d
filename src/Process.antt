-- ===== src/Process.antt =====
-- app/v2/main.go, app/v2/client/client.go and tool/procTool: the manager, which starts the program
-- again as its daemon and watches it, and the daemon, which serves the TUN device and watches the
-- manager. os, os/exec, os/signal, syscall and toml are parameters; procTool_linux.go and
-- procTool_windows.go are the same code.
pub mod Client
pub mod Child
pub mod Lifecycle
mod Tests
use an_app.Base.{Bool, true, false, not, ◌&&◌, List, [], ◌∷◌, Option, none, some, if◌then◌else◌}

pub data Signal : Type 0 where
  interrupt : Signal
  terminate : Signal
  hangup : Signal
  kill : Signal

-- How a process ends: by its own exit, or by a signal.
pub data Ending : Type 0 where
  exit : Ending
  by_signal : Ending

-- os.Process.Wait: a state, or an error without one.
pub data WaitAnswer : Type 0 where
  state : Ending → WaitAnswer
  wait_error : WaitAnswer

-- os.FindProcess and the Wait that follows it.
pub data ParentAnswer : Type 0 where
  no_process : ParentAnswer
  found : WaitAnswer → ParentAnswer

module _ (exited : Ending → Bool) where
  -- Whether the answer of Wait is put on eSign.
  unfoldable pub signs : WaitAnswer → Bool
  signs (state e) = exited e
  signs wait_error = false

  -- monitorDaemonProcess; its process may be nil.
  unfoldable pub monitor_daemon_process : Option WaitAnswer → Bool
  monitor_daemon_process none = true
  monitor_daemon_process (some w) = signs w

  -- One round of monitorParentProcess, and its loop over what the system answers.
  unfoldable pub parent_round : ParentAnswer → Bool
  parent_round no_process = true
  parent_round (found w) = signs w

  unfoldable pub monitor_parent_process : List ParentAnswer → Bool
  monitor_parent_process [] = false
  monitor_parent_process (a ∷ rest) =
      let later = monitor_parent_process rest in if parent_round a then true else later

-- signal.Notify of InitDaemonMonitor and of ManageDaemonMonitor; SIGKILL never reaches a handler.
unfoldable pub daemon_takes : Signal → Bool
daemon_takes interrupt = true
daemon_takes terminate = true
daemon_takes hangup = false
daemon_takes kill = false

unfoldable pub manager_takes : Signal → Bool
manager_takes interrupt = true
manager_takes terminate = true
manager_takes hangup = true
manager_takes kill = false
