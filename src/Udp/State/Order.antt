-- ===== src/Udp/State/Order.antt =====
-- A flow's datagrams, one after another.
use Prim.Native.String.{String}
use text.Mathlib.TextPositions.{eq_refl}
use mathlib.Core.List.{append-nil, append_assoc}
use an_app.Base.{
  ℕ, zero, suc, ◌≡◌, ◌≢◌, refl, sym, subst, Bool, true, false, List, [], ◌∷◌, ◌++◌, none, some,
  length, modify, get_elem?-length, arith,
}
use an_app.Udp.State.{Datagram, ConnState, World, dialled, lookup, deliver}
use an_app.Udp.State.Maps.{lookup-insert, str_ne}
use an_app.Udp.State.Sockets.{socket, socket-dial, socket-write, socket-dial_self}

abbrev made : String → List ConnState
made dst = record { identify = ""; dst = dst; conn = none } ∷ []

-- The flow is mapped to an open socket that was written these datagrams, and but for it the flows and
-- the sockets are those of a world before.
record Carries (v : World) (f : String) (p : ℕ) (sent : List Datagram) (w : World) : Type 0 where
  mapped : lookup f w.connections ≡ some p
  socket_is : socket w.states p ≡ some (record { is_open = true; wire = sent })
  no_other : (r : ℕ) → r ≢ p → socket w.states r ≡ socket v.states r
  other_flows : (g : String) → g ≢ f → lookup g w.connections ≡ lookup g v.connections

-- A new object has no socket.
socket_made :
    (states : List ConnState) (dst : String) (r : ℕ)
    → socket (states ++ made dst) r ≡ socket states r
socket_made [] dst zero = refl
socket_made [] dst (suc r) = refl
socket_made (s ∷ ss) dst zero = refl
socket_made (s ∷ ss) dst (suc r) = socket_made ss dst r

deliver-Carries :
    (v : World) (dial_ok : Bool) (f dst : String) (p : ℕ) (sent : List Datagram) (b : Datagram)
    (w : World)
    → Carries v f p sent w
    → Carries v f p (sent ++ (b ∷ [])) (deliver dial_ok w f dst b)
unfolding deliver
deliver-Carries v dial_ok f dst p sent b w h = record {
  mapped = ground (arith, h.mapped);
  socket_is = ground (
    arith,
    h.mapped,
    h.socket_is,
    socket_made w.states dst p,
    socket-write (w.states ++ made dst) p p b,
  );
  no_other = λ r n. ground (
    arith,
    h.mapped,
    n,
    h.no_other r n,
    socket_made w.states dst r,
    socket-write (w.states ++ made dst) p r b,
  );
  other_flows = λ g n. ground (arith, h.mapped, h.other_flows g n);
}

deliver_first :
    (f dst : String) (b : Datagram) (w : World)
    → lookup f w.connections ≡ none
    → Carries w f (length w.states) (b ∷ []) (deliver true w f dst b)
unfolding deliver
deliver_first f dst b w u =
    let p = length w.states in
    let grown = w.states ++ made dst in
    record {
      mapped = ground (arith, u, lookup-insert f f p w.connections, eq_refl f);
      socket_is = ground (
        arith,
        u,
        socket-dial_self grown p (record { identify = ""; dst = dst; conn = none })
            (get_elem?-length w.states [] (record { identify = ""; dst = dst; conn = none })),
        socket-write (modify grown p dialled) p p b,
      );
      no_other = λ r n. ground (
        arith,
        u,
        n,
        socket-dial grown p r (λ e. n (sym e)),
        socket_made w.states dst r,
        socket-write (modify grown p dialled) p r b,
      );
      other_flows =
          λ g n. ground (arith, u, lookup-insert f g p w.connections, str_ne f g (λ e. n (sym e)));
    }

-- Datagram after datagram of one flow, each with what the dialler would answer.
pub deliver_all : World → String → String → List (Bool × Datagram) → World
deliver_all w f dst [] = w
deliver_all w f dst ((dial_ok, b) ∷ bs) = deliver_all (deliver dial_ok w f dst b) f dst bs

abbrev pub datagrams : List (Bool × Datagram) → List Datagram
datagrams [] = []
datagrams ((dial_ok, b) ∷ bs) = b ∷ datagrams bs

deliver_all-Carries :
    (v : World) (f dst : String) (p : ℕ) (sent : List Datagram) (bs : List (Bool × Datagram))
    (w : World)
    → Carries v f p sent w
    → Carries v f p (sent ++ datagrams bs) (deliver_all w f dst bs)
unfolding deliver_all
deliver_all-Carries v f dst p sent [] w h = rw (append-nil sent) h
deliver_all-Carries v f dst p sent ((dial_ok, b) ∷ bs) w h =
    subst (λ l. Carries v f p l (deliver_all (deliver dial_ok w f dst b) f dst bs))
      (append_assoc sent (b ∷ []) (datagrams bs))
      (deliver_all-Carries v f dst p (sent ++ (b ∷ [])) bs (deliver dial_ok w f dst b)
        (deliver-Carries v dial_ok f dst p sent b w h))

-- A flow that is not mapped yet, and whose first dial succeeds, gets one socket: all its datagrams,
-- handled one after another, are written to that socket in their order, whatever the dialler would
-- answer later; no other object gets a socket or has its own changed, and no other flow is mapped anew.
pub flow_keeps_one_socket :
    (f dst : String) (b : Datagram) (bs : List (Bool × Datagram)) (w : World)
    → lookup f w.connections ≡ none
    → let w' = deliver_all w f dst ((true, b) ∷ bs) in
      (lookup f w'.connections ≡ some (length w.states))
      × (socket w'.states (length w.states)
          ≡ some (record { is_open = true; wire = b ∷ datagrams bs }))
      × ((r : ℕ) → r ≢ length w.states → socket w'.states r ≡ socket w.states r)
      × ((g : String) → g ≢ f → lookup g w'.connections ≡ lookup g w.connections)
unfolding deliver_all
flow_keeps_one_socket f dst b bs w u =
    let h =
      deliver_all-Carries w f dst (length w.states) (b ∷ []) bs _ (deliver_first f dst b w u) in
    (h.mapped, h.socket_is, h.no_other, h.other_flows)

-- A dial that fails leaves the flow as it was: every flow is mapped as before, and no object has got a
-- socket, so the datagram is lost.
pub failed_dial_changes_nothing :
    (f dst : String) (b : Datagram) (w : World)
    → lookup f w.connections ≡ none
    → let w' = deliver false w f dst b in
      (w'.connections ≡ w.connections) × ((r : ℕ) → socket w'.states r ≡ socket w.states r)
unfolding deliver
failed_dial_changes_nothing f dst b w u =
    (ground (arith, u), λ r. ground (arith, u, socket_made w.states dst r))
