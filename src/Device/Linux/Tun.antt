-- ===== src/Device/Linux/Tun.antt =====
-- device/device_tun_linux.go, CreateTUN0, and CreateTUN of device/device_linux.go. The system calls,
-- NewIfreq, CreateTUNFromFile and the name of the device are parameters; an errno is 0 for none. The
-- log has what happens to the descriptor of /dev/net/tun.
use Prim.Native.String.{String}
use an_app.Base.{
  ℕ, ◌≡◌, not, ◌&&◌, ◌||◌, List, [], ◌∷◌, Option, none, some, if◌then◌else◌, ◌==◌, arith,
}
use an_app.Action.{Result, Action, pure, ◌>>=◌, ◌>>◌}

pub data Event : Type 0 where
  opened : ℕ → Event
  closed : ℕ → Event
  handed_over : ℕ → Event

-- The error texts: the missing clone device, and an error that is passed on.
pub data Error : Type 0 where
  no_clone_device : Error
  passed_on : ℕ → Error

-- errno ENOENT, for os.IsNotExist.
abbrev pub enoent : ℕ
enoent = 2

-- The system's answers in one run; a TUN device D is what CreateTUNFromFile returns.
pub record Answers (D : Type 0) : Type 0 where
  pub open_clone_device : ℕ × ℕ
  pub new_ifreq : ℕ
  pub tunsetiff : ℕ
  pub set_nonblock : ℕ
  pub create_tun_from_file : ℕ × D
  pub device_name : D → ℕ × String

module _ {D : Type 0} (sys : Answers D) where
  pub open_clone : Action (List Event) Error ℕ
  open_clone log =
      let (e, fd) = sys.open_clone_device in
      if e == 0
      then (Result.ok fd, opened fd ∷ log)
      else (Result.err (if e == enoent then no_clone_device else passed_on e), log)

  pub check : ℕ → Action (List Event) Error (Unit {0})
  check e log = if e == 0 then (Result.ok tt, log) else (Result.err (passed_on e), log)

  -- SetNonblock is the only step after which the descriptor is closed on an error.
  pub go_nonblocking : ℕ → Action (List Event) Error (Unit {0})
  go_nonblocking fd log =
      if sys.set_nonblock == 0
      then (Result.ok tt, log)
      else (Result.err (passed_on sys.set_nonblock), closed fd ∷ log)

  -- os.NewFile owns the descriptor from here on.
  pub make_device : ℕ → Action (List Event) Error D
  make_device fd log =
      let (e, d) = sys.create_tun_from_file in
      if e == 0
      then (Result.ok d, handed_over fd ∷ log)
      else (Result.err (passed_on e), handed_over fd ∷ log)

  pub create_tun0 : Action (List Event) Error D
  create_tun0 = do
    fd ← open_clone
    check sys.new_ifreq
    check sys.tunsetiff
    go_nonblocking fd
    make_device fd

  -- The device and its name; on an error of Name the device is returned with the error.
  pub create_tun : Action (List Event) Error (D × String)
  create_tun = do d ← create_tun0; let named = sys.device_name d; check named.0; pure (d, named.1)

-- The descriptor that is still in the hands of the function, for a log with the newest event first.
abbrev pub left_open : List Event → Option ℕ
left_open [] = none
left_open (opened n ∷ log) = some n
left_open (closed n ∷ log) = none
left_open (handed_over n ∷ log) = none

-- CreateTUN0 leaves the descriptor open, with nobody to close it, exactly when the clone device was
-- opened and then NewIfreq or TUNSETIFF failed; the failure of SetNonblock closes it, and in all
-- other runs the file owns it or there is none.
pub create_tun0_leaks :
    {D : Type 0} (sys : Answers D)
    → left_open (create_tun0 sys []).1 ≡ (
        if sys.open_clone_device.0 == 0 && (not (sys.new_ifreq == 0) || not (sys.tunsetiff == 0))
        then some sys.open_clone_device.1
        else none)
unfolding create_tun0 open_clone check go_nonblocking make_device
create_tun0_leaks sys = ground arith
