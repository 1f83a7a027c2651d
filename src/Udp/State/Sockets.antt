-- ===== src/Udp/State/Sockets.antt =====
-- The sockets of the heap of connectionState objects under the updates of the code.
use mathlib.Core.Option
use an_app.Base.{
  ℕ, zero, suc, ◌≡◌, ◌≢◌, refl, ap, true, false, List, [], ◌∷◌, ◌++◌, Option, none, some,
  if◌then◌else◌, ◌==◌, get_elem?, modify, arith,
}
use an_app.Udp.State.{
  Datagram, Conn, ConnState, dialled, write_conn, write_state, close_state, is_writable,
}

-- The socket of an object.
abbrev pub socket : List ConnState → ℕ → Option Conn
socket [] p = none
socket (s ∷ ss) zero = s.conn
socket (s ∷ ss) (suc p) = socket ss p

abbrev pub close_conn : Conn → Conn
close_conn c = record c { is_open = false }

abbrev pub new_conn : Conn
new_conn = record { is_open = true; wire = [] }

pub socket-write :
    (states : List ConnState) (q p : ℕ) (b : Datagram)
    → socket (modify states q (write_state b)) p
      ≡ (if q == p then Option.map (write_conn b) (socket states p) else socket states p)
socket-write [] q p b = ground arith
socket-write (s ∷ ss) zero zero b = ground arith
socket-write (s ∷ ss) zero (suc p) b = ground arith
socket-write (s ∷ ss) (suc q) zero b = ground arith
socket-write (s ∷ ss) (suc q) (suc p) b = ground (arith, socket-write ss q p b)

pub socket-close :
    (states : List ConnState) (q p : ℕ)
    → socket (modify states q close_state) p
      ≡ (if q == p then Option.map close_conn (socket states p) else socket states p)
socket-close [] q p = ground arith
socket-close (s ∷ ss) zero zero = ground arith
socket-close (s ∷ ss) zero (suc p) = ground arith
socket-close (s ∷ ss) (suc q) zero = ground arith
socket-close (s ∷ ss) (suc q) (suc p) = ground (arith, socket-close ss q p)

pub socket-dial :
    (states : List ConnState) (q p : ℕ)
    → q ≢ p
    → socket (modify states q dialled) p ≡ socket states p
socket-dial [] q p n = refl
socket-dial (s ∷ ss) zero zero n = absurd (n refl)
socket-dial (s ∷ ss) zero (suc p) n = refl
socket-dial (s ∷ ss) (suc q) zero n = refl
socket-dial (s ∷ ss) (suc q) (suc p) n = socket-dial ss q p (λ e. n (ap suc e))

pub socket-dial_self :
    (states : List ConnState) (p : ℕ) (s : ConnState)
    → get_elem? states p ≡ some s
    → socket (modify states p dialled) p ≡ some new_conn
socket-dial_self [] p s e = cc
socket-dial_self (x ∷ ss) zero s e = refl
socket-dial_self (x ∷ ss) (suc p) s e = socket-dial_self ss p s e

pub socket-append :
    (states more : List ConnState) (p : ℕ) (c : Conn)
    → socket states p ≡ some c
    → socket (states ++ more) p ≡ some c
socket-append [] more p c e = cc
socket-append (s ∷ ss) more zero c e = e
socket-append (s ∷ ss) more (suc p) c e = socket-append ss more p c e

-- A read of an object is a read of its socket.
pub socket_of_get :
    (states : List ConnState) (p : ℕ) (s : ConnState)
    → get_elem? states p ≡ some s
    → socket states p ≡ s.conn
socket_of_get [] p s e = cc
socket_of_get (x ∷ ss) zero s e = ground arith
socket_of_get (x ∷ ss) (suc p) s e = socket_of_get ss p s e

pub is_writable-socket :
    (states : List ConnState) (p : ℕ)
    → is_writable states p ≡ elim (socket states p) [ none ↦ false | some c ↦ c.is_open ]
is_writable-socket [] p = refl
is_writable-socket (x ∷ ss) zero = refl
is_writable-socket (x ∷ ss) (suc p) = is_writable-socket ss p

pub socket_of_none :
    (states : List ConnState) (r : ℕ) → get_elem? states r ≡ none → socket states r ≡ none
socket_of_none [] r e = refl
socket_of_none (x ∷ ss) zero e = cc
socket_of_none (x ∷ ss) (suc r) e = socket_of_none ss r e
