-- ===== src/Udp/Forwarder/Serving.antt =====
-- The rest of handler/remoteSocketHandler/udp/forwardUtil.go: Forward, which makes the Forwarder, run,
-- which reads the clients' datagrams, and the read loop of a client's goroutine, which takes the
-- server's answers back. ResolveUDPAddr, ListenUDP and what the sockets read are parameters. Both loops
-- read into a buffer of 4096 bytes, and a longer datagram loses its end. The goroutines that `run`
-- starts are the list of their arguments; what the listener sends is a list of datagrams with their
-- addresses, and an error of a write is only logged. The setters OnConnect and OnDisconnect replace a
-- callback.
use Prim.Native.String.{String}
use mathlib.Core.List.{append_assoc, append-nil}
use text.Mathlib.TextPositions.{eq_refl}
use an_app.Base.{
  ℕ, ◌≡◌, refl, sym, ap, ◌∙◌, List, [], ◌∷◌, ◌++◌, map, Bool, Bool-cases, inl, inr, ◌&&◌,
  if◌then◌else◌, Option, none, some, take,
}
use an_app.Action.{Result, ok, err}
use an_app.Udp.State.{Datagram, lookup}
use an_app.Udp.State.Maps.{lookup-delete}
use an_app.Udp.Forwarder.{Forwarder, forward, read_failed}

abbrev pub datagram_buffer_size : ℕ
datagram_buffer_size = 4096

-- A datagram of the listener's socket, and the client that it comes from or goes to.
pub record Message : Type 0 where
  pub addr : String
  pub payload : Datagram

-- buf[:n] after a read.
unfoldable pub into_buffer : Datagram → Datagram
into_buffer d = take datagram_buffer_size d

pub data Read (M : Type 0) : Type 0 where
  received : M → Read M
  read_fails : Read M

-- run, over what the listener reads: the goroutines of handle that it has started.
unfoldable pub run : List (Read Message) → List Message → List Message
run [] started = started
run (received m ∷ reads) started =
    run reads (started ++ (record m { payload = into_buffer m.payload } ∷ []))
run (read_fails ∷ reads) started = started

-- An answer that the socket to the server reads, and whether WriteMsgUDP on the listener then works for
-- it. A listener that is closed sends nothing, and the error of a write is only logged.
pub record Answer : Type 0 where
  pub payload : Datagram
  pub writes : Bool

abbrev pub sends : Forwarder → Answer → Bool
sends f a = f.listening && a.writes

unfoldable pub write_back : Forwarder → String → Answer → List Message → List Message
write_back f addr a sent =
    if sends f a
    then sent ++ (record { addr = addr; payload = into_buffer a.payload } ∷ [])
    else sent

-- The read loop of a client, over what the socket n to the server reads, and what it sends. Close by
-- another goroutine in between is an answer whose write fails.
unfoldable pub read_loop :
    Forwarder → String → ℕ → List (Read Answer) → List Message → Forwarder × List Message
read_loop f addr n [] sent = (f, sent)
read_loop f addr n (received a ∷ reads) sent = read_loop f addr n reads (write_back f addr a sent)
read_loop f addr n (read_fails ∷ reads) sent = (read_failed f addr n, sent)

-- What ResolveUDPAddr makes of an address, and ListenUDP of its answer.
pub record Network (A E : Type 0) : Type 0 where
  pub resolve_udp_addr : String → Result E A
  pub listen_udp : A → Option E

-- The callbacks, which the program that uses the Forwarder may set, with the state that they work on.
pub record Callbacks (C : Type 0) : Type 0 where
  pub connect_callback : String → C → C
  pub disconnect_callback : String → C → C

abbrev pub no_callbacks : {C : Type 0} → Callbacks C
no_callbacks = record { connect_callback = λ addr c. c; disconnect_callback = λ addr c. c }

abbrev pub on_connect : {C : Type 0} → Callbacks C → (String → C → C) → Callbacks C
on_connect cs callback = record cs { connect_callback = callback }

abbrev pub on_disconnect : {C : Type 0} → Callbacks C → (String → C → C) → Callbacks C
on_disconnect cs callback = record cs { disconnect_callback = callback }

-- What Forward returns beside the Forwarder of the parent module.
pub record Started (A : Type 0) : Type 0 where
  pub src : A
  pub dst : A
  pub forwarder : Forwarder

abbrev pub listening_on : {A E : Type 0} → A → A → ℕ → Option E → Result E (Started A)
listening_on src dst timeout none =
    ok (record { src = src; dst = dst; forwarder = forward timeout })
listening_on src dst timeout (some e) = err e

abbrev pub then_to : {A B E : Type 0} → Result E A → (A → Result E B) → Result E B
then_to (ok a) f = f a
then_to (err e) f = err e
then_to Result.crash f = Result.crash

unfoldable pub start_forward :
    {A E : Type 0} → Network A E → String → String → ℕ → Result E (Started A)
start_forward net src dst timeout =
    then_to (net.resolve_udp_addr src)
      (λ s. then_to (net.resolve_udp_addr dst) (λ d. listening_on s d timeout (net.listen_udp s)))

abbrev pub answered : Forwarder → String → List Answer → List Message
answered f addr [] = []
answered f addr (a ∷ xs) =
    let rest = answered f addr xs in
    if sends f a then record { addr = addr; payload = into_buffer a.payload } ∷ rest else rest

write_back-answered :
    (f : Forwarder) (addr : String) (a : Answer) (xs : List Answer) (sent : List Message)
    → write_back f addr a sent ++ answered f addr xs ≡ sent ++ answered f addr (a ∷ xs)
unfolding write_back
write_back-answered f addr a xs sent = elim (Bool-cases (sends f a)) [
  | inl works ↦ rw works (
      append_assoc sent (record { addr = addr; payload = into_buffer a.payload } ∷ [])
        (answered f addr xs))
  | inr fails ↦ rw fails refl
]

read_loop_all :
    (f : Forwarder) (addr : String) (n : ℕ) (xs : List Answer) (rest : List (Read Answer))
    (sent : List Message)
    → read_loop f addr n (map received xs ++ (read_fails ∷ rest)) sent
      ≡ (read_failed f addr n, sent ++ answered f addr xs)
unfolding read_loop
read_loop_all f addr n [] rest sent = ap (λ t. (read_failed f addr n, t)) (sym (append-nil sent))
read_loop_all f addr n (a ∷ xs) rest sent =
    read_loop_all f addr n xs rest (write_back f addr a sent)
    ∙ ap (λ t. (read_failed f addr n, t)) (write_back-answered f addr a xs sent)

-- A client's loop ends at the first read that fails, and unmaps the client; until then it sends the
-- client, in their order, the answers whose write works, each cut to 4096 bytes, and none at all if the
-- listener is closed.
pub answers_go_back :
    (f : Forwarder) (addr : String) (n : ℕ) (xs : List Answer) (rest : List (Read Answer))
    → let (after, sent) = read_loop f addr n (map received xs ++ (read_fails ∷ rest)) [] in
      (sent ≡ answered f addr xs) × (lookup addr after.connections ≡ none)
unfolding read_failed
answers_go_back f addr n xs rest =
    rw (read_loop_all f addr n xs rest [])
      (refl, rw (lookup-delete addr addr f.connections, eq_refl addr) refl)
