-- ===== src/Udp/Forwarder.antt =====
-- handler/remoteSocketHandler/udp/forwardUtil.go: the Forwarder, a reverse NAT that gives every client
-- address its own socket to one server. The `*connection` objects live on a heap that the map
-- `connections` points into, and the dialled sockets on another. Every goroutine is cut where others
-- can run in between: handle into `handle_enter` (the first critical section), `handle_dial` (from
-- the dial to the connect callback), `write_udp`, `read_failed`, and for a client that is already
-- known `handle_found` (from <-conn.available) and `touch` (`handle` is all of it); the janitor into `janitor_collect` and
-- `janitor_remove` (Janitor, with Close and Connected). A dial has no effect on the maps, so it stands in one step with the critical
-- section after it. `none` as a result is a panic. Times and the timeout are natural numbers. The
-- callbacks are the list of their calls; the map is listed in the order of its insertions.
pub mod Janitor
pub mod Waiting
pub mod Pointers
pub mod Stranded
pub mod Readers
pub mod Clients
pub mod MapOrder
pub mod Removal
pub mod Serving
mod Tests
use Prim.Native.String.{String}
use an_app.Base.{
  ℕ, ◌+◌, ◌/◌, Bool, true, false, List, [], ◌∷◌, ◌++◌, Option, none, some, if◌then◌else◌, ltb,
  length, get_elem?, modify, map, ◌==◌,
}
use an_app.Udp.State.{Datagram, Conn, write_conn, lookup, insert, delete}

pub record Connection : Type 0 where
  pub available_closed : Bool
  pub udp : Option ℕ
  pub last_active : ℕ

pub data Event : Type 0 where
  connected : String → Event
  disconnected : String → Event

pub record Forwarder : Type 0 where
  pub connections : List (String × ℕ)
  pub heap : List Connection
  pub sockets : List Conn
  pub events : List Event
  pub timeout : ℕ
  pub closed : Bool
  pub listening : Bool

-- What Forward returns, before any datagram.
pub forward : ℕ → Forwarder
forward timeout = record {
  connections = [];
  heap = [];
  sockets = [];
  events = [];
  timeout = timeout;
  closed = false;
  listening = true;
}

abbrev pub close_socket : Conn → Conn
close_socket c = record c { is_open = false }

-- Close on a *net.UDPConn, which answers an error and does nothing when it is nil.
abbrev pub close_udp : Option ℕ → List Conn → List Conn
close_udp none cs = cs
close_udp (some n) cs = modify cs n close_socket

-- The first critical section: whether the client was found, and its object.
pub handle_enter : Forwarder → String → ℕ → Forwarder × (Bool × ℕ)
handle_enter f addr now = elim (lookup addr f.connections) [
  | some p ↦ (f, (true, p))
  | none ↦ (
    record f {
      connections = insert addr (length f.heap) f.connections;
      heap = f.heap ++ (record { available_closed = false; udp = none; last_active = now } ∷ []);
    },
    (false, length f.heap),
  )
]

-- f.dst.IP.To4()[0] == 127, where To4 is nil for an IPv6 address.
pub binds_loopback : List ℕ → Option Bool
binds_loopback [] = none
binds_loopback (b ∷ bs) = some (b == 127)

abbrev pub publish : ℕ → ℕ → Connection → Connection
publish n now c = record c { available_closed = true; udp = some n; last_active = now }

-- The object gets its socket, and its channel is closed; a closed channel cannot be closed again.
pub publish_at : Forwarder → String → ℕ → ℕ → ℕ → Option Forwarder
publish_at f addr now n p = elim (get_elem? f.heap p) [
  | none ↦ none
  | some c ↦
      if c.available_closed
      then none
      else some (record f {
        heap = modify f.heap p (publish n now);
        events = f.events ++ (connected addr ∷ []);
      })
]

-- A dial that has made a new socket.
pub dial_succeeded : Forwarder → String → ℕ → Option Forwarder
dial_succeeded f addr now =
    let dialled : Forwarder = record f {
      sockets = f.sockets ++ (record { is_open = true; wire = [] } ∷ []);
    } in
    elim (lookup addr f.connections) [
      | none ↦ none
      | some p ↦ publish_at dialled addr now (length f.sockets) p
    ]

pub dial_failed : Forwarder → String → Forwarder
dial_failed f addr = record f { connections = delete addr f.connections }

-- The dial, with or without a loopback source; the dialler tells whether it succeeds. The result
-- tells which socket it made.
pub handle_dial : (Bool → Bool) → List ℕ → Forwarder → String → ℕ → Option (Forwarder × Option ℕ)
handle_dial dial to4 f addr now = elim (binds_loopback to4) [
  | none ↦ none
  | some local ↦
      if dial local
      then elim (dial_succeeded f addr now) [
        | none ↦ none
        | some g ↦ some (g, some (length f.sockets))
      ]
      else some (dial_failed f addr, none)
]

-- WriteMsgUDP on a socket; its error is logged only.
pub write_udp : Forwarder → ℕ → Datagram → Forwarder
write_udp f n buf = record f { sockets = modify f.sockets n (write_conn buf) }

-- The end of the read loop of a client's goroutine.
pub read_failed : Forwarder → String → ℕ → Forwarder
read_failed f addr n = record f {
  connections = delete addr f.connections;
  sockets = modify f.sockets n close_socket;
  events = f.events ++ (disconnected addr ∷ []);
}

-- How a goroutine that found its client fares: it waits for the channel, it panics on a nil udp, or
-- it has written.
pub data Wait : Type 0 where
  blocked : Wait
  panicked : Wait
  wrote : Forwarder → Wait

pub handle_available : Forwarder → Connection → Datagram → Wait
handle_available f c buf =
    if c.available_closed
    then elim c.udp [ none ↦ panicked | some n ↦ wrote (write_udp f n buf) ]
    else blocked

pub handle_found : Forwarder → ℕ → Datagram → Wait
handle_found f p buf = elim (get_elem? f.heap p) [
  | none ↦ blocked
  | some c ↦ handle_available f c buf
]

abbrev pub set_active : ℕ → Connection → Connection
set_active now c = record c { last_active = now }

-- lastActive.Before(time.Now().Add(f.timeout / 4)) for the client's object, if there is one.
unfoldable pub should_change_time : Forwarder → String → ℕ → Bool
should_change_time f addr now = elim (lookup addr f.connections) [
  | none ↦ false
  | some p ↦ elim (get_elem? f.heap p) [
    | none ↦ false
    | some c ↦ ltb c.last_active (now + f.timeout / 4)
  ]
]

-- The last critical section of handle.
pub change_time : Forwarder → String → ℕ → Forwarder
change_time f addr now = elim (lookup addr f.connections) [
  | none ↦ f
  | some p ↦ record f { heap = modify f.heap p (set_active now) }
]

pub touch : Forwarder → String → ℕ → Forwarder
touch f addr now = if should_change_time f addr now then change_time f addr now else f

-- A call of handle that nothing interrupts, up to its read loop: it waits, it panics, or it is done.
pub data Handled : Type 0 where
  waiting : Handled
  crashed : Handled
  handled : Forwarder → Handled

pub after_dial : Datagram → Option (Forwarder × Option ℕ) → Handled
after_dial buf none = crashed
after_dial buf (some (g, none)) = handled g
after_dial buf (some (g, some n)) = handled (write_udp g n buf)

pub after_wait : String → ℕ → Wait → Handled
after_wait addr now blocked = waiting
after_wait addr now panicked = crashed
after_wait addr now (wrote g) = handled (touch g addr now)

pub handle : (Bool → Bool) → List ℕ → Forwarder → String → Datagram → ℕ → Handled
handle dial to4 f addr buf now =
    let (g, (found, p)) = handle_enter f addr now in
    if found
    then after_wait addr now (handle_found g p buf)
    else after_dial buf (handle_dial dial to4 g addr now)
