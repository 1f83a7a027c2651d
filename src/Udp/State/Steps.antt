-- ===== src/Udp/State/Steps.antt =====
-- What any interleaving of attachConnect goroutines and ended copies keeps.
use Prim.Native.String.{String}
use an_app.Base.{
  ℕ, ◌≡◌, ◌≢◌, refl, sym, ◌∙◌, inl, inr, Bool, false, List, [], ◌∷◌, none, some, All, All-modify,
  All-append, All-get_elem?, get_elem?, arith, Option-cases, Bool-cases,
}
use an_app.Udp.State.{
  Datagram, Conn, ConnState, World, dropped, lookup, enter, write_found, stop, new_state,
  attach_connect, dialled, write_state, close_state,
}
use text.Mathlib.TextEquality.{eq_iff}
use an_app.Udp.State.Sockets.{
  socket, close_conn, socket-append, socket-dial, socket-write, socket-close, socket_of_get,
  is_writable-socket, socket_of_none,
}
use an_app.Udp.State.Maps.{lookup-insert, lookup-delete, str_ne}

-- The object of a pointer has been made and has not been dialled.
abbrev pub IsFresh : World → ℕ → Type 0
IsFresh w p = (s : ConnState) × (get_elem? w.states p ≡ some s) × (s.conn ≡ none)

-- One step of some goroutine. A goroutine enters with the object that it made for itself; it
-- writes where its lookup or its entry has led it.
pub data Step : World → World → Type 0 where
  makes : (w : World) (dst : String) → Step w (new_state w dst).0
  enters :
      (w : World) (dial_ok : Bool) (identify : String) (p : ℕ)
      → IsFresh w p
      → Step w (enter dial_ok w identify p).0
  writes : (w : World) (p : ℕ) (buff : Datagram) → Step w (write_found w p buff).0
  stops : (w : World) (p : ℕ) → Step w (stop w p)

pub data Reach (v : World) : World → Type 0 where
  here : Reach v v
  next : {w u : World} → Reach v w → Step w u → Reach v u

-- Every object has the empty identify that readRemoteDate leaves.
abbrev pub IsAnonymous : World → Type 0
IsAnonymous w = All (λ s. s.identify ≡ "") w.states

-- The flow is mapped to an object whose socket is closed.
pub record IsStale (f : String) (p : ℕ) (w : World) : Type 0 where
  pub anonymous : IsAnonymous w
  pub mapped : lookup f w.connections ≡ some p
  pub conn : Conn
  pub has : socket w.states p ≡ some conn
  pub closed : conn.is_open ≡ false

module _ (f : String) (p : ℕ) (named : f ≢ "") where
  makes-IsStale : (w : World) (dst : String) → IsStale f p w → IsStale f p (new_state w dst).0
  unfolding new_state
  makes-IsStale w dst h =
      let made : List ConnState = record { identify = ""; dst = dst; conn = none } ∷ [] in
      record {
        anonymous = All-append (λ s. s.identify ≡ "") w.states made h.anonymous (refl, tt);
        mapped = h.mapped;
        conn = h.conn;
        has = socket-append w.states made p h.conn h.has;
        closed = h.closed;
      }

  enters-IsStale :
      (w : World) (dial_ok : Bool) (identify : String) (q : ℕ)
      → IsFresh w q
      → IsStale f p w
      → IsStale f p (enter dial_ok w identify q).0
  unfolding enter
  enters-IsStale w dial_ok identify q (s, e, n) h =
      elim (Option-cases (lookup identify w.connections)) [
        | inr (r, known) ↦ rw (known, enter) h
        | inl unknown ↦
            rw (unknown, enter)
              (elim (Bool-cases dial_ok) [
                | inl good ↦ rw good (record {
                  anonymous =
                      All-modify (λ s. s.identify ≡ "") w.states q dialled (λ s i. i) h.anonymous;
                  mapped = ground (
                    arith,
                    h.mapped,
                    unknown,
                    lookup-insert identify f q w.connections,
                    eq_iff identify f,
                  );
                  conn = h.conn;
                  has = socket-dial w.states q p (λ same. cc (other same)) ∙ h.has;
                  closed = h.closed;
                })
                | inr bad ↦ rw bad h
              ])
      ]
    where
      other : q ≡ p → none ≡ some h.conn
      other same = sym n ∙ sym (socket_of_get w.states q s e) ∙ rw same h.has

  writes-IsStale :
      (w : World) (q : ℕ) (buff : Datagram) → IsStale f p w → IsStale f p (write_found w q buff).0
  unfolding write_found
  writes-IsStale w q buff h = record {
    anonymous =
        All-modify (λ s. s.identify ≡ "") w.states q (write_state buff) (λ s i. i) h.anonymous;
    mapped = h.mapped;
    conn = h.conn;
    has = ground (arith, socket-write w.states q p buff, h.has, h.closed);
    closed = h.closed;
  }

  stops-IsStale : (w : World) (q : ℕ) → IsStale f p w → IsStale f p (stop w q)
  unfolding stop
  stops-IsStale w q h = elim (Option-cases (get_elem? w.states q)) [
    | inl e ↦ rw (e, stop) h
    | inr (s, e) ↦
        rw (e, stop)
          (record {
            anonymous =
                All-modify (λ s. s.identify ≡ "") w.states q close_state (λ s i. i) h.anonymous;
            mapped = ground (
              arith,
              h.mapped,
              All-get_elem? (λ s. s.identify ≡ "") w.states q s h.anonymous e,
              lookup-delete s.identify f w.connections,
              str_ne s.identify f,
            );
            conn = h.conn;
            has = ground (arith, socket-close w.states q p, h.has, h.closed);
            closed = h.closed;
          })
  ]

  Step-IsStale : {v w : World} → Step v w → IsStale f p v → IsStale f p w
  Step-IsStale (makes w dst) h = makes-IsStale w dst h
  Step-IsStale (enters w dial_ok identify q fresh) h = enters-IsStale w dial_ok identify q fresh h
  Step-IsStale (writes w q buff) h = writes-IsStale w q buff h
  Step-IsStale (stops w q) h = stops-IsStale w q h

  Reach-IsStale : {v w : World} → Reach v w → IsStale f p v → IsStale f p w
  Reach-IsStale here h = h
  Reach-IsStale (next r s) h = Step-IsStale s (Reach-IsStale r h)

  -- A stale flow's datagrams are written to its closed socket, and change no socket.
  attach_stale :
      (w : World) (dial_ok : Bool) (buff : Datagram) (q : ℕ)
      → IsStale f p w
      → ((attach_connect dial_ok w f buff q).1 ≡ dropped p)
        × ((r : ℕ) → socket (attach_connect dial_ok w f buff q).0.states r ≡ socket w.states r)
  unfolding attach_connect
  attach_stale w dial_ok buff q h = (
    ground (arith, h.mapped, is_writable-socket w.states p, h.has, h.closed),
    λ r. ground (arith, h.mapped, socket-write w.states p r buff, h.has, h.closed),
  )

  -- The end of a flow's copy leaves it stale: `run` deletes the entry of the empty identify.
  stop-IsStale :
      (w : World) (c : Conn)
      → IsAnonymous w
      → lookup f w.connections ≡ some p
      → socket w.states p ≡ some c
      → IsStale f p (stop w p)
  unfolding stop
  stop-IsStale w c a m s = elim (Option-cases (get_elem? w.states p)) [
    | inl e ↦ cc (socket_of_none w.states p e, s)
    | inr (t, e) ↦
        rw (e, stop)
          (record {
            anonymous = All-modify (λ s. s.identify ≡ "") w.states p close_state (λ s i. i) a;
            mapped = ground (
              arith,
              m,
              All-get_elem? (λ s. s.identify ≡ "") w.states p t a e,
              lookup-delete t.identify f w.connections,
              str_ne t.identify f,
            );
            conn = close_conn c;
            has = ground (arith, socket-close w.states p p, s);
            closed = refl;
          })
  ]

-- Once the copy of a flow has ended, nothing brings the flow back: whatever steps other goroutines
-- take after that, each further datagram of the flow is written to the closed socket and reaches no
-- socket at all. The flow has a name other than "", and the objects are those that readRemoteDate
-- makes.
pub ended_flow_never_recovers :
    (f : String) (p : ℕ) (v w : World) (c : Conn) (dial_ok : Bool) (buff : Datagram) (q : ℕ)
    → f ≢ ""
    → IsAnonymous v
    → lookup f v.connections ≡ some p
    → socket v.states p ≡ some c
    → Reach (stop v p) w
    → ((attach_connect dial_ok w f buff q).1 ≡ dropped p)
      × ((r : ℕ) → socket (attach_connect dial_ok w f buff q).0.states r ≡ socket w.states r)
ended_flow_never_recovers f p v w c dial_ok buff q named a m s r =
    attach_stale f p named w dial_ok buff q
      (Reach-IsStale f p named r (stop-IsStale f p named v c a m s))
