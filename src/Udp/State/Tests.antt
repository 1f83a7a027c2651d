-- ===== src/Udp/State/Tests.antt =====
-- Runs of attachConnect, and the theorems at concrete worlds.
use Prim.Native.String.{String}
use an_app.Base.{ℕ, ◌≡◌, ◌≢◌, refl, Bool, true, false, List, [], ◌∷◌, none, some}
use an_app.Udp.State.{
  Datagram, Conn, World, missed, found, dropped, lost, lookup, look, insert, enter, attach_connect,
  new_state, stop, deliver, write_local,
}
use an_app.Udp.State.Sockets.{socket}
use an_app.Udp.State.Steps.{Reach, IsFresh, here, next, makes, stops, ended_flow_never_recovers}
use an_app.Udp.State.Order.{deliver_all, flow_keeps_one_socket}
use an_app.Udp.State.Races.{
  IsDialled, HasSocket, writer_never_meets_nil, Reach-IsDialled, second_of_two_misses_is_lost,
}

abbrev empty : World
empty = record { connections = []; states = [] }

abbrev flow : String
flow = "10.0.0.25000-1.1.1.1:53"

abbrev server : String
server = "1.1.1.1:53"

abbrev flow_conn : Conn
flow_conn = record { is_open = true; wire = (7 ∷ []) ∷ [] }

-- One datagram has gone out.
abbrev busy : World
busy = record {
  connections = (flow, 0) ∷ [];
  states = record { identify = ""; dst = server; conn = some flow_conn } ∷ [];
}

deliver_run : deliver true empty flow server (7 ∷ []) ≡ busy
unfolding deliver lookup insert
deliver_run = refl

write_local_runs :
    (write_local {E = String} (λ d. none) (1 ∷ 2 ∷ []) ≡ (2, none))
    × (write_local {E = String} (λ d. some "down") (1 ∷ 2 ∷ []) ≡ (0, some "down"))
unfolding write_local
write_local_runs = (refl, refl)

abbrev two : List (Bool × Datagram)
two = (false, 8 ∷ []) ∷ []

flow_keeps_one_socket_example :
    let w = deliver_all empty flow server ((true, 7 ∷ []) ∷ two) in
    (lookup flow w.connections ≡ some 0)
    × (socket w.states 0 ≡ some (record { is_open = true; wire = (7 ∷ []) ∷ (8 ∷ []) ∷ [] }))
    × ((r : ℕ) → r ≢ 0 → socket w.states r ≡ none)
    × ((g : String) → g ≢ flow → lookup g w.connections ≡ lookup g empty.connections)
flow_keeps_one_socket_example = flow_keeps_one_socket flow server (7 ∷ []) two empty none_yet
  where
    none_yet : lookup flow empty.connections ≡ none
    none_yet = unfold lookup in refl

busy_maps : lookup flow busy.connections ≡ some 0
unfolding lookup
busy_maps = refl

flow_named : flow ≢ ""
flow_named e = cc

-- After the copy has ended, another goroutine has made an object.
abbrev later : World
later = (new_state (stop busy 0) server).0

ended_flow_never_recovers_example :
    ((attach_connect true later flow (9 ∷ []) 1).1 ≡ dropped 0)
    × ((r : ℕ)
        → socket (attach_connect true later flow (9 ∷ []) 1).0.states r ≡ socket later.states r)
ended_flow_never_recovers_example =
    ended_flow_never_recovers flow 0 busy later flow_conn true (9 ∷ []) 1 flow_named (refl, tt)
      busy_maps refl (next here (makes (stop busy 0) server))

empty-IsDialled : IsDialled empty
unfolding lookup
empty-IsDialled f p m = cc

socket_run : IsDialled (new_state empty server).0
socket_run = Reach-IsDialled empty-IsDialled (next here (makes empty server))

abbrev first : World
first = (new_state empty server).0

writer_never_meets_nil_example :
    ((w : World) → look first flow ≡ found 0 → Reach first w → HasSocket 0 w)
    × ((w : World) (dial_ok : Bool) (q : ℕ)
        → IsFresh first q
        → (enter dial_ok first flow q).1 ≡ found 0
        → Reach (enter dial_ok first flow q).0 w
        → HasSocket 0 w)
writer_never_meets_nil_example =
    writer_never_meets_nil {u = empty} flow 0 empty-IsDialled (next here (makes empty server))

-- The writer's copy ends before its Write, and another goroutine has come in.
writer_run : HasSocket 0 (stop (enter true first flow 0).0 0)
unfolding enter lookup insert new_state
writer_run =
    (writer_never_meets_nil {u = empty} {v = first} flow 0 empty-IsDialled
        (next here (makes empty server))).1
      _ true 0 (_, refl, refl) refl (next here (stops (enter true first flow 0).0 0))

missed_yet : look empty flow ≡ missed
unfolding look lookup
missed_yet = refl

second_of_two_misses_is_lost_example :
    let (w, pc) = enter true empty flow 0 in (pc ≡ found 0) × (enter true w flow 1 ≡ (w, lost))
second_of_two_misses_is_lost_example = second_of_two_misses_is_lost empty flow 0 1 true missed_yet
