-- ===== src/Tcp.antt =====
-- handler/remoteSocketHandler/tcp/buildSocket.go: a TCP connection from the TUN side. gVisor's
-- request and endpoint, the net package and the dialer are parameters; what the handlers call of them
-- is the list of the calls, in order. io.Copy ends at some time with some error, which is logged
-- only. A panic ends TcpHandle: its deferred function recovers it and closes nothing.
pub mod Calls
mod Tests
use an_app.Base.{ℕ, Bool, true, false, List, [], ◌∷◌, ◌++◌, Option, none, some}
use an_app.Net.{Ip}
use an_app.Routes.{CustomRoute}

-- net.TCPAddr: the address and the port.
abbrev pub Address : Type 0
Address = Ip × ℕ

pub data Call : Type 0 where
  complete : Bool → Call
  keep_alive : Call
  keep_alive_idle : Call
  keep_alive_interval : Call
  spawn_tcp_handle : Address → Address → Call

-- The function that sets the keepalive; the two options may be refused, and its error is dropped.
unfoldable pub set_keep_alive : Bool → List Call
set_keep_alive false = keep_alive ∷ keep_alive_idle ∷ []
set_keep_alive true = keep_alive ∷ keep_alive_idle ∷ keep_alive_interval ∷ []

-- HandleStream; the tests are whether the endpoint was created and whether it took the idle option.
unfoldable pub handle_stream : Bool → Bool → Address → Address → List Call
handle_stream false idle_ok local remote = complete true ∷ []
handle_stream true idle_ok local remote =
    complete false ∷ (set_keep_alive idle_ok ++ (spawn_tcp_handle local remote ∷ []))

-- What TcpHandle does to the connection from the TUN side (`tcp`) and to the one that it dials.
pub data Action : Type 0 where
  dial : Address → CustomRoute → Action
  set_conn_keep_alive : Action
  spawn_copy_out : Action
  copy_in : Action
  close_conn : Action
  close_tcp : Action

-- How a dial ends. The Control function of the Windows dialer panics when the socket cannot be bound.
pub data Dialled : Type 0 where
  connected : Dialled
  refused : Dialled
  panicked : Dialled

unfoldable pub after_dial : Dialled → List Action
after_dial connected =
    set_conn_keep_alive ∷ spawn_copy_out ∷ copy_in ∷ close_conn ∷ close_tcp ∷ close_conn ∷ []
after_dial refused = []
after_dial panicked = []

-- TcpHandle: what ResolveTCPAddr makes of the local address (nil on an error, whose IP is then read),
-- the route of FindContainRoute, and the dial. The last Close is the deferred one. When the dial is
-- refused, route.Ip is only printed.
unfoldable pub tcp_handle :
    (Address → Option Address)
    → (Ip → Option CustomRoute)
    → (Address → CustomRoute → Dialled)
    → Address
    → List Action
tcp_handle resolve find_route dialler local = elim (resolve local) [
  | none ↦ []
  | some remote ↦ elim (find_route remote.0) [
    | none ↦ []
    | some route ↦ dial remote route ∷ after_dial (dialler remote route)
  ]
]
