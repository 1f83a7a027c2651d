-- ===== src/Sockets.antt =====
-- protocol/socket/socket_linux.go and socket_windows.go: GetDialer, whose control function binds a new
-- socket to the interface of a route, and bind4 and bind6. setsockopt is a parameter: it answers a
-- call with an error or none; RawConn.Control runs the function on the socket. The time limit of five
-- seconds is the dialer's. Windows runs on little-endian machines.
pub mod Order
pub mod Chosen
mod Tests
use Prim.Native.String.{String}
use an_app.Base.{ℕ, ◌+◌, ◌*◌, ◌/◌, ◌%◌, ◌^◌, List, [], ◌∷◌, Option, none, some}
use an_app.Action.{Result, ok, crash, Action}
use an_app.Routes.{CustomRoute, get_if_name}

-- syscall.SetsockoptString and SetsockoptInt with the socket, the level, the option and the value.
pub data SocketCall : Type 0 where
  set_string : ℕ → ℕ → ℕ → String → SocketCall
  set_int : ℕ → ℕ → ℕ → ℕ → SocketCall

abbrev pub sol_socket : ℕ
sol_socket = 1

abbrev pub so_bindtodevice : ℕ
so_bindtodevice = 25

abbrev pub ipproto_ip : ℕ
ipproto_ip = 0

abbrev pub ipproto_ipv6 : ℕ
ipproto_ipv6 = 41

abbrev pub ip_unicast_if : ℕ
ip_unicast_if = 31

abbrev pub ipv6_unicast_if : ℕ
ipv6_unicast_if = 31

-- binary.BigEndian.PutUint32 of uint32(i), and the uint32 that a little-endian machine reads.
unfoldable pub put_uint32 : ℕ → ℕ × ℕ × ℕ × ℕ
put_uint32 i = (i / 2 ^ 24 % 2 ^ 8, i / 2 ^ 16 % 2 ^ 8, i / 2 ^ 8 % 2 ^ 8, i % 2 ^ 8)

unfoldable pub read_uint32 : ℕ × ℕ × ℕ × ℕ → ℕ
read_uint32 (a, b, c, d) = a + b * 2 ^ 8 + c * 2 ^ 16 + d * 2 ^ 24

unfoldable pub bind4_call : ℕ → ℕ → SocketCall
bind4_call handle index =
    set_int handle ipproto_ip ip_unicast_if (read_uint32 (put_uint32 (index % 2 ^ 32)))

-- The calls so far, the newest first.
module _ {E : Type 0} (sys : SocketCall → Option E) where
  unfoldable pub bind4 : ℕ → ℕ → List SocketCall → Option E × List SocketCall
  bind4 handle index log = (sys (bind4_call handle index), bind4_call handle index ∷ log)

  unfoldable pub bind6 : ℕ → ℕ → List SocketCall → Option E × List SocketCall
  bind6 handle index log =
      let call = set_int handle ipproto_ipv6 ipv6_unicast_if index in (sys call, call ∷ log)

  -- The control functions: Windows panics when the socket is not bound, Linux only logs it.
  unfoldable pub windows_control : CustomRoute → ℕ → Action (List SocketCall) E (Unit {0})
  windows_control route fd log =
      let (e, after) = bind4 fd route.if_index log in
      elim e [ none ↦ (ok tt, after) | some x ↦ (crash, after) ]

  unfoldable pub linux_control : CustomRoute → ℕ → Action (List SocketCall) E (Unit {0})
  linux_control route fd log =
      (ok tt, set_string fd sol_socket so_bindtodevice (get_if_name route) ∷ log)
