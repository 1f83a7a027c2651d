-- ===== src/Udp/Forwarder/Janitor.antt =====
-- The janitor of handler/remoteSocketHandler/udp/forwardUtil.go, and Close and Connected, on the
-- state of the parent module. The janitor's two critical sections are separate definitions.
use Prim.Native.String.{String}
use an_app.Base.{
  ℕ, ◌+◌, Bool, true, false, List, [], ◌∷◌, ◌++◌, Option, none, some, if◌then◌else◌, ltb, get_elem?,
  map,
}
use an_app.Udp.State.{Conn, lookup, delete}
use an_app.Udp.Forwarder.{Connection, Forwarder, disconnected, close_udp}

-- Whether the janitor takes an entry; a pointer always leads to an object.
unfoldable pub is_idle : Forwarder → ℕ → ℕ → Bool
is_idle f now p = elim (get_elem? f.heap p) [
  | none ↦ false
  | some c ↦ ltb (c.last_active + f.timeout) now
]

-- The janitor under the read lock: the keys to delete.
unfoldable pub collect : Forwarder → ℕ → List (String × ℕ) → List String
collect f now [] = []
collect f now ((k, p) ∷ m) = if is_idle f now p then k ∷ collect f now m else collect f now m

unfoldable pub janitor_collect : Forwarder → ℕ → List String
janitor_collect f now = collect f now f.connections

abbrev pub udp_at : List Connection → ℕ → Option ℕ
udp_at heap p = elim (get_elem? heap p) [ none ↦ none | some c ↦ c.udp ]

unfoldable pub remove_at : Forwarder → String → ℕ → Forwarder
remove_at f k p = record f {
  connections = delete k f.connections;
  sockets = close_udp (udp_at f.heap p) f.sockets;
}

-- The janitor under the write lock; a key that is gone is a nil dereference.
unfoldable pub janitor_remove : Forwarder → List String → Option Forwarder
janitor_remove f [] = some f
janitor_remove f (k ∷ ks) = elim (lookup k f.connections) [
  | none ↦ none
  | some p ↦ janitor_remove (remove_at f k p) ks
]

-- The janitor's calls of disconnectCallback.
unfoldable pub janitor_notify : Forwarder → List String → Forwarder
janitor_notify f ks = record f { events = f.events ++ map disconnected ks }

-- A pass of the janitor that nothing interrupts.
unfoldable janitor_pass : Forwarder → ℕ → Option Forwarder
janitor_pass f now =
    let keys = janitor_collect f now in
    elim (janitor_remove f keys) [ none ↦ none | some g ↦ some (janitor_notify g keys) ]

abbrev pub close_all : List Connection → List (String × ℕ) → List Conn → List Conn
close_all heap [] cs = cs
close_all heap ((k, p) ∷ m) cs = close_all heap m (close_udp (udp_at heap p) cs)

unfoldable pub close_forwarder : Forwarder → Forwarder
close_forwarder f = record f {
  closed = true;
  listening = false;
  sockets = close_all f.heap f.connections f.sockets;
}

-- Connected
unfoldable connected_clients : Forwarder → List String
connected_clients f = map (λ e. e.0) f.connections
