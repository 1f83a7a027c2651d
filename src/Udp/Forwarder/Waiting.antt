-- ===== src/Udp/Forwarder/Waiting.antt =====
-- The steps of the Forwarder's goroutines, and what a goroutine that waits for a dial can rely on.
use Prim.Native.String.{String}
use an_app.Base.{
  ℕ, ◌≡◌, ◌≢◌, inl, inr, true, false, List, [], ◌∷◌, none, some, All, All-modify, All-append,
  All-get_elem?, length, modify, ◌++◌, ap, sym, Option-cases, Bool-cases, get_elem?,
}
use mathlib.Core.Option.{some-injective}
use an_app.Udp.State.{Datagram, lookup}
use an_app.Udp.Forwarder.{
  Connection, Forwarder, forward, handle_enter, publish, publish_at, dial_succeeded, dial_failed,
  write_udp, read_failed, panicked, handle_available, handle_found, set_active, change_time,
}
use an_app.Udp.Forwarder.Janitor.{remove_at, janitor_notify, close_forwarder}

-- One step of some goroutine. Any step may come at any time, so this allows at least what the
-- program does.
pub data Step : Forwarder → Forwarder → Type 0 where
  enters : (f : Forwarder) (addr : String) (now : ℕ) → Step f (handle_enter f addr now).0
  dials :
      (f g : Forwarder) (addr : String) (now : ℕ) → dial_succeeded f addr now ≡ some g → Step f g
  dial_fails : (f : Forwarder) (addr : String) → Step f (dial_failed f addr)
  writes : (f : Forwarder) (n : ℕ) (buf : Datagram) → Step f (write_udp f n buf)
  fails_to_read : (f : Forwarder) (addr : String) (n : ℕ) → Step f (read_failed f addr n)
  touches : (f : Forwarder) (addr : String) (now : ℕ) → Step f (change_time f addr now)
  removes : (f : Forwarder) (addr : String) (p : ℕ) → Step f (remove_at f addr p)
  notifies : (f : Forwarder) (ks : List String) → Step f (janitor_notify f ks)
  closes : (f : Forwarder) → Step f (close_forwarder f)

pub data Reach (f : Forwarder) : Forwarder → Type 0 where
  here : Reach f f
  next : {g h : Forwarder} → Reach f g → Step g h → Reach f h

-- What a dial that succeeds has done: the object that the map has got the socket.
pub record Published (f g : Forwarder) (addr : String) (now : ℕ) : Type 0 where
  pub at : ℕ
  pub object : Connection
  pub mapped : lookup addr f.connections ≡ some at
  pub has : get_elem? f.heap at ≡ some object
  pub waited : object.available_closed ≡ false
  pub heap : g.heap ≡ modify f.heap at (publish (length f.sockets) now)
  pub kept : g.connections ≡ f.connections
  pub opened : g.sockets ≡ f.sockets ++ (record { is_open = true; wire = [] } ∷ [])

open_channel :
    (f g : Forwarder) (addr : String) (now n p : ℕ)
    → publish_at f addr now n p ≡ some g
    → (c : Connection) × (get_elem? f.heap p ≡ some c)
      × (c.available_closed ≡ false)
      × (g.heap ≡ modify f.heap p (publish n now))
      × (g.connections ≡ f.connections)
      × (g.sockets ≡ f.sockets)
unfolding publish_at
open_channel f g addr now n p h = elim (Option-cases (get_elem? f.heap p)) [
  | inl e ↦ cc (rw (e, publish_at) at h)
  | inr (c, e) ↦ elim (Bool-cases c.available_closed) [
    | inl a ↦ cc (rw (e, publish_at, a) at h)
    | inr a ↦
        let same = some-injective _ g (rw (e, publish_at, a) at h) in
        (
          c,
          e,
          a,
          ap (λ x. x.heap) (sym same),
          ap (λ x. x.connections) (sym same),
          ap (λ x. x.sockets) (sym same),
        )
  ]
]

pub dial_succeeded-Published :
    (f g : Forwarder) (addr : String) (now : ℕ)
    → dial_succeeded f addr now ≡ some g
    → Published f g addr now
unfolding dial_succeeded
dial_succeeded-Published f g addr now h = elim (Option-cases (lookup addr f.connections)) [
  | inl e ↦ cc (rw (e, dial_succeeded) at h)
  | inr (p, e) ↦
      let (c, has, waited, heap, kept, opened) =
        open_channel
          (record f { sockets = f.sockets ++ (record { is_open = true; wire = [] } ∷ []) }) g addr
          now (length f.sockets) p (rw (e, dial_succeeded) at h) in
      record {
        at = p;
        object = c;
        mapped = e;
        has = has;
        waited = waited;
        heap = heap;
        kept = kept;
        opened = opened;
      }
]

-- An object whose channel is closed has a socket.
abbrev pub IsPublished : Connection → Type 0
IsPublished c = c.available_closed ≡ true → c.udp ≢ none

abbrev pub IsSound : Forwarder → Type 0
IsSound f = All IsPublished f.heap

enter-IsSound :
    (f : Forwarder) (addr : String) (now : ℕ) → IsSound f → IsSound (handle_enter f addr now).0
unfolding handle_enter
enter-IsSound f addr now h = elim (Option-cases (lookup addr f.connections)) [
  | inr (p, e) ↦ rw (e, handle_enter) h
  | inl e ↦
      let made : List Connection =
        record { available_closed = false; udp = none; last_active = now } ∷ [] in
      rw (e, handle_enter) (All-append IsPublished f.heap made h (λ x. cc, tt))
]

change_time-IsSound :
    (f : Forwarder) (addr : String) (now : ℕ) → IsSound f → IsSound (change_time f addr now)
unfolding change_time
change_time-IsSound f addr now h = elim (Option-cases (lookup addr f.connections)) [
  | inl e ↦ rw (e, change_time) h
  | inr (p, e) ↦ rw (e, change_time) (All-modify IsPublished f.heap p (set_active now) (λ c s. s) h)
]

Step-IsSound : {f g : Forwarder} → Step f g → IsSound f → IsSound g
unfolding dial_failed write_udp read_failed remove_at janitor_notify close_forwarder
Step-IsSound (enters f addr now) h = enter-IsSound f addr now h
Step-IsSound (dials f g addr now e) h =
    let d = dial_succeeded-Published f g addr now e in
    rw d.heap
      (All-modify IsPublished f.heap d.at (publish (length f.sockets) now) (λ c s x. λ y. cc) h)
Step-IsSound (dial_fails f addr) h = h
Step-IsSound (writes f n buf) h = h
Step-IsSound (fails_to_read f addr n) h = h
Step-IsSound (touches f addr now) h = change_time-IsSound f addr now h
Step-IsSound (removes f addr p) h = h
Step-IsSound (notifies f ks) h = h
Step-IsSound (closes f) h = h

Reach-IsSound : {f g : Forwarder} → Reach f g → IsSound f → IsSound g
Reach-IsSound here h = h
Reach-IsSound (next r s) h = Step-IsSound s (Reach-IsSound r h)

available_never_panics :
    (f : Forwarder) (c : Connection) (buf : Datagram)
    → IsPublished c
    → handle_available f c buf ≢ panicked
unfolding handle_available
available_never_panics f c buf h e = elim (Bool-cases c.available_closed) [
  | inr w ↦ cc (rw (w, handle_available) at e)
  | inl w ↦ elim (Option-cases c.udp) [
    | inl n ↦ h w n
    | inr (n, u) ↦ cc (rw (w, u, handle_available) at e)
  ]
]

-- In every interleaving since Forward, a goroutine that found its client never writes through a nil
-- udp: it waits for the channel of its object, whichever that is, or it writes.
pub waiter_never_panics :
    (timeout : ℕ) (f : Forwarder)
    → Reach (forward timeout) f
    → (p : ℕ) (buf : Datagram) → handle_found f p buf ≢ panicked
unfolding handle_found forward
waiter_never_panics timeout f r p buf e =
    let sound : IsSound f = Reach-IsSound r tt in
    elim (Option-cases (get_elem? f.heap p)) [
      | inl n ↦ cc (rw (n, handle_found) at e)
      | inr (c, g) ↦
          available_never_panics f c buf (All-get_elem? IsPublished f.heap p c sound g)
            (rw (g, handle_found) at e)
    ]
