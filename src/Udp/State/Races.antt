-- ===== src/Udp/State/Races.antt =====
-- Interleavings of attachConnect: sockets stay dialled, and a lost datagram.
use Prim.Native.String.{String}
use text.Mathlib.Text.{◌==◌ as str_eq}
use text.Mathlib.TextPositions.{eq_refl}
use an_app.Base.{
  ℕ, ◌≡◌, sym, subst, ◌∙◌, inl, inr, Bool, true, false, [], ◌∷◌, none, some, if◌then◌else◌, ◌==◌,
  ==_iff, get_elem?, modify, Option-cases, Bool-cases, arith,
}
use an_app.Udp.State.{
  Datagram, Conn, ConnState, World, Pc, missed, found, sent, dropped, lost, failed, lookup, delete,
  insert, look, enter, write_found, stop, new_state, dialled, write_conn,
}
use an_app.Udp.State.Maps.{lookup-insert, lookup-delete}
use an_app.Udp.State.Sockets.{
  socket, new_conn, close_conn, socket-append, socket-write, socket-close, socket-dial,
  socket-dial_self, socket_of_get,
}
use an_app.Udp.State.Steps.{Step, Reach, makes, enters, writes, stops, here, next, IsFresh}

-- Whatever the map points to has a socket.
abbrev pub IsDialled : World → Type 0
IsDialled w =
    (f : String) (p : ℕ)
    → lookup f w.connections ≡ some p
    → (c : Conn) × (socket w.states p ≡ some c)

makes-IsDialled : (w : World) (dst : String) → IsDialled w → IsDialled (new_state w dst).0
unfolding new_state
makes-IsDialled w dst h f p m =
    let (c, e) = h f p m in
    (c, socket-append w.states (record { identify = ""; dst = dst; conn = none } ∷ []) p c e)

dial_keeps :
    (w : World) (identify : String) (q : ℕ) (s : ConnState)
    → get_elem? w.states q ≡ some s
    → IsDialled w
    → (f : String) (p : ℕ) → lookup f (insert identify q w.connections) ≡ some p
    → (c : Conn) × (socket (modify w.states q dialled) p ≡ some c)
dial_keeps w identify q s e h f p m = elim (Bool-cases (q == p)) [
  | inl same ↦
      let is_same = (==_iff q p).0 same in
      (new_conn, rw (← is_same) (socket-dial_self w.states q s e))
  | inr other ↦ elim (Bool-cases (str_eq identify f)) [
    | inl mine ↦ cc (not_mine other (rw (lookup-insert identify f q w.connections, mine) at m))
    | inr theirs ↦
        let (c, k) = h f p (rw (lookup-insert identify f q w.connections, theirs) at m) in
        (c, socket-dial w.states q p (λ same. cc (not_other other same)) ∙ k)
  ]
]
  where
    not_other : (q == p) ≡ false → q ≡ p → true ≡ false
    not_other o same = ground arith

    not_mine : (q == p) ≡ false → some q ≡ some p → true ≡ false
    not_mine o same = ground arith

enters-IsDialled :
    (w : World) (dial_ok : Bool) (identify : String) (q : ℕ)
    → IsFresh w q
    → IsDialled w
    → IsDialled (enter dial_ok w identify q).0
unfolding enter
enters-IsDialled w dial_ok identify q (s, e, n) h =
    elim (Option-cases (lookup identify w.connections)) [
      | inr (r, known) ↦ rw (known, enter) h
      | inl unknown ↦ elim (Bool-cases dial_ok) [
        | inl good ↦ rw (unknown, good, enter) (dial_keeps w identify q s e h)
        | inr bad ↦ rw (unknown, bad, enter) h
      ]
    ]

writes-IsDialled :
    (w : World) (q : ℕ) (b : Datagram) → IsDialled w → IsDialled (write_found w q b).0
unfolding write_found
writes-IsDialled w q b h f p m =
    let (c, e) = h f p m in
    (if q == p then write_conn b c else c, ground (arith, socket-write w.states q p b, e))

stops-IsDialled : (w : World) (q : ℕ) → IsDialled w → IsDialled (stop w q)
unfolding stop
stops-IsDialled w q h = elim (Option-cases (get_elem? w.states q)) [
  | inl e ↦ rw (e, stop) h
  | inr (s, e) ↦
      rw (e, stop)
        (λ f p m.
          let (c, k) = h f p (kept s f p m) in
          (if q == p then close_conn c else c, ground (arith, socket-close w.states q p, k)))
]
  where
    kept :
        (s : ConnState) (f : String) (p : ℕ)
        → lookup f (delete s.identify w.connections) ≡ some p
        → lookup f w.connections ≡ some p
    kept s f p m = ground (arith, lookup-delete s.identify f w.connections)

-- In every interleaving from a world where this holds, as the empty one, whatever the flow map points to
-- has a socket.
pub Reach-IsDialled : {v w : World} → IsDialled v → Reach v w → IsDialled w
Reach-IsDialled h here = h
Reach-IsDialled h (next r (makes w dst)) = makes-IsDialled w dst (Reach-IsDialled h r)
Reach-IsDialled h (next r (enters w d f q fresh)) =
    enters-IsDialled w d f q fresh (Reach-IsDialled h r)
Reach-IsDialled h (next r (writes w q b)) = writes-IsDialled w q b (Reach-IsDialled h r)
Reach-IsDialled h (next r (stops w q)) = stops-IsDialled w q (Reach-IsDialled h r)

-- The object has a socket, open or closed.
abbrev pub HasSocket : ℕ → World → Type 0
HasSocket p w = (c : Conn) × (socket w.states p ≡ some c)

-- No step takes the socket from an object, also when the flow map has lost it.
Step-HasSocket : (p : ℕ) {v w : World} → Step v w → HasSocket p v → HasSocket p w
unfolding new_state enter write_found stop
Step-HasSocket p (makes w dst) (c, e) =
    (c, socket-append w.states (record { identify = ""; dst = dst; conn = none } ∷ []) p c e)
Step-HasSocket p (enters w dial_ok identify q (s, got, bare)) (c, e) =
    elim (Option-cases (lookup identify w.connections)) [
      | inr (r, known) ↦ rw (known, enter) (c, e)
      | inl unknown ↦ elim (Bool-cases dial_ok) [
        | inr bad ↦ rw (unknown, bad, enter) (c, e)
        | inl good ↦
            rw (unknown, good, enter) (c, socket-dial w.states q p (λ same. cc (mine same)) ∙ e)
      ]
    ]
  where
    mine : q ≡ p → none ≡ some c
    mine same = sym bare ∙ sym (socket_of_get w.states q s got) ∙ rw same e
Step-HasSocket p (writes w q b) (c, e) =
    (if q == p then write_conn b c else c, ground (arith, socket-write w.states q p b, e))
Step-HasSocket p (stops w q) (c, e) = elim (Option-cases (get_elem? w.states q)) [
  | inl n ↦ rw (n, stop) (c, e)
  | inr (s, got) ↦
      rw (got, stop)
        (if q == p then close_conn c else c, ground (arith, socket-close w.states q p, e))
]

Reach-HasSocket : (p : ℕ) {v w : World} → Reach v w → HasSocket p v → HasSocket p w
Reach-HasSocket p here h = h
Reach-HasSocket p (next r s) h = Step-HasSocket p s (Reach-HasSocket p r h)

-- Where a goroutine stands that will write through a pointer.
abbrev pub Holds : World → Pc → Type 0
Holds w missed = Unit {0}
Holds w (found p) = HasSocket p w
Holds w (sent p) = Unit {0}
Holds w (dropped p) = Unit {0}
Holds w lost = Unit {0}
Holds w failed = Unit {0}

look-Holds : (w : World) (f : String) → IsDialled w → Holds w (look w f)
unfolding look
look-Holds w f h = elim (Option-cases (lookup f w.connections)) [
  | inl e ↦ rw (e, look) tt
  | inr (p, e) ↦ rw (e, look) (h f p e)
]

enter-Holds :
    (w : World) (dial_ok : Bool) (f : String) (q : ℕ)
    → IsFresh w q
    → let (w', pc) = enter dial_ok w f q in Holds w' pc
unfolding enter
enter-Holds w dial_ok f q (s, got, bare) = elim (Option-cases (lookup f w.connections)) [
  | inr (r, known) ↦ rw (known, enter) tt
  | inl unknown ↦ elim (Bool-cases dial_ok) [
    | inr bad ↦ rw (unknown, bad, enter) tt
    | inl good ↦ rw (unknown, good, enter) (new_conn, socket-dial_self w.states q s got)
  ]
]

-- From a world where whatever is mapped has a socket, as the empty one: a goroutine of attachConnect that
-- has its pointer, from its lookup or from its own dial, never writes through a nil connection. Whatever
-- steps others take before its Write, and also when the flow has been unmapped in the meantime, the
-- object that it points to has a socket.
pub writer_never_meets_nil :
    {u v : World} (f : String) (p : ℕ)
    → IsDialled u
    → Reach u v
    → ((w : World) → look v f ≡ found p → Reach v w → HasSocket p w)
      × ((w : World) (dial_ok : Bool) (q : ℕ)
          → IsFresh v q
          → (enter dial_ok v f q).1 ≡ found p
          → Reach (enter dial_ok v f q).0 w
          → HasSocket p w)
writer_never_meets_nil {u} {v} f p h r = (
  λ w at more. Reach-HasSocket p more (subst (Holds v) at (look-Holds v f (Reach-IsDialled h r))),
  λ w dial_ok q fresh at more.
      Reach-HasSocket p more
        (subst (Holds (enter dial_ok v f q).0) at (enter-Holds v dial_ok f q fresh)),
)

-- When two goroutines of an unmapped flow have both missed the first lookup, the one that takes the
-- lock second finds the connection of the first and ends without writing its datagram: the world
-- stays as the first left it, whatever the dialler would answer.
pub second_of_two_misses_is_lost :
    (w : World) (f : String) (p q : ℕ) (dial_ok : Bool)
    → look w f ≡ missed
    → let (w', pc) = enter true w f p in (pc ≡ found p) × (enter dial_ok w' f q ≡ (w', lost))
unfolding look enter
second_of_two_misses_is_lost w f p q dial_ok m =
    (ground arith, ground (arith, lookup-insert f f p w.connections, eq_refl f))
