-- ===== src/Udp/Forwarder/Clients.antt =====
-- The datagrams of one client, handled one after another.
use Prim.Native.String.{String}
use text.Mathlib.TextPositions.{eq_refl}
use an_app.Base.{
  ℕ, ◌≡◌, refl, Bool, true, false, List, [], ◌∷◌, ◌++◌, none, some, length, get_elem?,
  get_elem?-length, get_elem?-modify_self, modify, modify-append_last, map, Bool-cases, inl, ◌==◌,
  inr, subst,
}
use an_app.Udp.State.{Datagram, Conn, write_conn, lookup, insert}
use an_app.Udp.State.Maps.{lookup-insert}
use an_app.Udp.Forwarder.{
  Connection, Forwarder, handle_enter, binds_loopback, publish, publish_at, dial_succeeded,
  handle_dial, write_udp, connected, wrote, handle_available, handle_found, set_active,
  should_change_time, change_time, touch, Handled, waiting, crashed, handled, after_dial,
  after_wait, handle,
}
use mathlib.Core.List.{append_assoc, append-nil}

-- The client is mapped to an object whose socket is the last one, and this was written to it.
pub record Serves (f : Forwarder) (addr : String) (base : List Conn) (wire : List Datagram)
    : Type 0 where
  pub at : ℕ
  pub object : Connection
  pub mapped : lookup addr f.connections ≡ some at
  pub has : get_elem? f.heap at ≡ some object
  pub is_available : object.available_closed ≡ true
  pub udp : object.udp ≡ some (length base)
  pub sockets : f.sockets ≡ base ++ (record { is_open = true; wire = wire } ∷ [])

change_time-Serves :
    (f : Forwarder) (addr : String) (base : List Conn) (wire : List Datagram) (now : ℕ)
    → Serves f addr base wire
    → Serves (change_time f addr now) addr base wire
unfolding change_time
change_time-Serves f addr base wire now h =
    rw (h.mapped, change_time)
      (record {
        at = h.at;
        object = set_active now h.object;
        mapped = h.mapped;
        has = get_elem?-modify_self f.heap h.at (set_active now) h.object h.has;
        is_available = h.is_available;
        udp = h.udp;
        sockets = h.sockets;
      })

touch-Serves :
    (f : Forwarder) (addr : String) (base : List Conn) (wire : List Datagram) (now : ℕ)
    → Serves f addr base wire
    → Serves (touch f addr now) addr base wire
unfolding touch
touch-Serves f addr base wire now h = elim (Bool-cases (should_change_time f addr now)) [
  | inl e ↦ rw (touch, e) (change_time-Serves f addr base wire now h)
  | inr e ↦ rw (touch, e) h
]

write-Serves :
    (f : Forwarder) (addr : String) (base : List Conn) (wire : List Datagram) (buf : Datagram)
    → Serves f addr base wire
    → Serves (write_udp f (length base) buf) addr base (wire ++ (buf ∷ []))
unfolding write_udp
write-Serves f addr base wire buf h = record {
  at = h.at;
  object = h.object;
  mapped = h.mapped;
  has = h.has;
  is_available = h.is_available;
  udp = h.udp;
  sockets =
      rw h.sockets
        (modify-append_last base (record { is_open = true; wire = wire }) (write_conn buf));
}

Outcome : Handled → String → List Conn → List Datagram → Type 0
Outcome out addr base wire = (g : Forwarder) × (out ≡ handled g) × Serves g addr base wire

handle-known :
    (dial : Bool → Bool) (to4 : List ℕ) (f : Forwarder) (addr : String) (base : List Conn)
    (wire : List Datagram) (buf : Datagram) (now : ℕ)
    → Serves f addr base wire
    → Outcome (handle dial to4 f addr buf now) addr base (wire ++ (buf ∷ []))
unfolding Outcome handle handle_enter handle_found handle_available after_wait
handle-known dial to4 f addr base wire buf now h =
    let enters : handle_enter f addr now ≡ (f, (true, h.at)) = rw (h.mapped, handle_enter) in
    let writes : handle_found f h.at buf ≡ wrote (write_udp f (length base) buf) =
      rw (h.has, handle_found, h.is_available, h.udp, handle_available) in
    (
      touch (write_udp f (length base) buf) addr now,
      rw (enters, handle, writes),
      touch-Serves (write_udp f (length base) buf) addr base (wire ++ (buf ∷ [])) now
          (write-Serves f addr base wire buf h),
    )

-- The state after a first datagram, up to its Write.
abbrev first_state : Forwarder → String → ℕ → Forwarder
first_state f addr now = record f {
  connections = insert addr (length f.heap) f.connections;
  heap =
      modify (f.heap ++ (record { available_closed = false; udp = none; last_active = now } ∷ []))
        (length f.heap) (publish (length f.sockets) now);
  sockets = f.sockets ++ (record { is_open = true; wire = [] } ∷ []);
  events = f.events ++ (connected addr ∷ []);
}

lookup_of_inserted : (k : String) (p : ℕ) (m : List (String × ℕ)) → lookup k (insert k p m) ≡ some p
lookup_of_inserted k p m = rw (lookup-insert k k p m, eq_refl k)

first_state-Serves :
    (f : Forwarder) (addr : String) (now : ℕ) → Serves (first_state f addr now) addr f.sockets []
first_state-Serves f addr now =
    let made : Connection = record { available_closed = false; udp = none; last_active = now } in
    record {
      at = length f.heap;
      object = publish (length f.sockets) now made;
      mapped = lookup_of_inserted addr (length f.heap) f.connections;
      has =
          get_elem?-modify_self (f.heap ++ (made ∷ [])) (length f.heap)
            (publish (length f.sockets) now) made (get_elem?-length f.heap [] made);
      is_available = refl;
      udp = refl;
      sockets = refl;
    }

-- The state between the first critical section and the dial.
abbrev entered : Forwarder → String → ℕ → Forwarder
entered f addr now = record f {
  connections = insert addr (length f.heap) f.connections;
  heap = f.heap ++ (record { available_closed = false; udp = none; last_active = now } ∷ []);
}

dials_first :
    (f : Forwarder) (addr : String) (now : ℕ)
    → dial_succeeded (entered f addr now) addr now ≡ some (first_state f addr now)
unfolding dial_succeeded publish_at
dials_first f addr now =
    let made : Connection = record { available_closed = false; udp = none; last_active = now } in
    rw (
      lookup_of_inserted addr (length f.heap) f.connections,
      dial_succeeded,
      get_elem?-length f.heap [] made,
      publish_at,
    )

handle-new :
    (dial : Bool → Bool) (b : ℕ) (to4 : List ℕ) (f : Forwarder) (addr : String) (buf : Datagram)
    (now : ℕ)
    → lookup addr f.connections ≡ none
    → dial (b == 127) ≡ true
    → Outcome (handle dial (b ∷ to4) f addr buf now) addr f.sockets (buf ∷ [])
unfolding Outcome handle handle_enter handle_dial binds_loopback after_dial
handle-new dial b to4 f addr buf now new ok =
    let enters : handle_enter f addr now ≡ (entered f addr now, (false, length f.heap)) =
      rw (new, handle_enter) in
    let first : Forwarder = first_state f addr now in
    (
      write_udp first (length f.sockets) buf,
      rw (enters, handle, ok, handle_dial, dials_first f addr now, enters),
      write-Serves first addr f.sockets [] buf (first_state-Serves f addr now),
    )

-- The calls of handle for one client's datagrams, each with its time, one after another.
pub handle_all : (Bool → Bool) → List ℕ → String → List (Datagram × ℕ) → Forwarder → Handled
handle_all dial to4 addr [] f = handled f
handle_all dial to4 addr ((buf, now) ∷ rest) f = elim (handle dial to4 f addr buf now) [
  | waiting ↦ waiting
  | crashed ↦ crashed
  | handled g ↦ handle_all dial to4 addr rest g
]

handle_all-known :
    (dial : Bool → Bool) (to4 : List ℕ) (addr : String) (base : List Conn)
    → (rest : List (Datagram × ℕ)) (f : Forwarder) (wire : List Datagram) → Serves f addr base wire
    → Outcome (handle_all dial to4 addr rest f) addr base (wire ++ map (λ d. d.0) rest)
unfolding handle_all Outcome
handle_all-known dial to4 addr base [] f wire h = (f, refl, rw (append-nil wire) h)
handle_all-known dial to4 addr base ((buf, now) ∷ rest) f wire h =
    let (g, e, s) = handle-known dial to4 f addr base wire buf now h in
    let (k, e', s') = handle_all-known dial to4 addr base rest g (wire ++ (buf ∷ [])) s in
    (
      k,
      rw (e, handle_all) e',
      subst (Serves k addr base) (append_assoc wire (buf ∷ []) (map (λ d. d.0) rest)) s',
    )

-- When the dial for a new client succeeds, and the server has an IPv4 address, the client's
-- datagrams, handled one after another by handle, neither wait nor panic: exactly one socket is
-- dialled for all of them, every other socket is left alone, and the new one gets all the datagrams
-- in their order.
pub client_keeps_one_socket :
    (dial : Bool → Bool) (b : ℕ) (to4 : List ℕ) (f : Forwarder) (addr : String) (buf : Datagram)
    (now : ℕ) (rest : List (Datagram × ℕ))
    → lookup addr f.connections ≡ none
    → dial (b == 127) ≡ true
    → (g : Forwarder) × (handle_all dial (b ∷ to4) addr ((buf, now) ∷ rest) f ≡ handled g)
      × (g.sockets
          ≡ f.sockets ++ (record { is_open = true; wire = buf ∷ map (λ d. d.0) rest } ∷ []))
unfolding handle_all Outcome
client_keeps_one_socket dial b to4 f addr buf now rest new ok =
    let (g, e, s) = handle-new dial b to4 f addr buf now new ok in
    let (k, e', s') = handle_all-known dial (b ∷ to4) addr f.sockets rest g (buf ∷ []) s in
    (k, rw (e, handle_all) e', s'.sockets)
