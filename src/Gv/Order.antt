-- ===== src/Gv/Order.antt =====
-- What Start has called when it ends.
use an_app.Base.{
  ℕ, ◌≡◌, refl, ap, All, Option, some, List, [], ◌∷◌, ◌++◌, Bool, true, false, ◌&&◌, ◌||◌, not,
  none, some, arith, Option-cases, inl, inr, ◌⊎◌,
}
use an_app.Script.{
  Sys, Step, must, note, ignore, Ran, run, after_call, calls_of, IsPrefix, run-IsPrefix,
  run_complete,
}
use an_app.Gv.{
  StackCall, ipv4, ipv6, set_default_ttl, set_forwarding, set_icmp_burst, set_icmp_limit,
  set_receive_buffer, set_send_buffer, set_congestion_control, set_delay, handle_local,
  set_moderate_receive_buffer, set_sack, new_subnet, set_route_table, set_spoofing,
  set_promiscuous_mode, set_tcp_handler, set_udp_handler, create_nic, close, Error, start_steps,
  close_on_error, start,
}

-- All calls of Start, in order.
abbrev pub start_calls : Type 0 → ℕ → List StackCall
start_calls E mtu = calls_of (start_steps {E = E} mtu)

-- How Start ends: without an error and with all its calls made, or with one and closed.
abbrev pub Ends : {W E : Type 0} → Sys W StackCall E → ℕ → Ran W StackCall (Error E) → Type 0
Ends {E} sys mtu r =
    ((r.err ≡ none) × (r.calls ≡ start_calls E mtu))
    ⊎ ((e : Error E) × (p : List StackCall) × (r.err ≡ some e)
        × IsPrefix p (start_calls E mtu)
        × (r.calls ≡ p ++ (close ∷ [])))

close_on_error-Ends :
    {W E : Type 0} (sys : Sys W StackCall E) (mtu : ℕ) (r : Ran W StackCall (Error E))
    → IsPrefix r.calls (start_calls E mtu)
    → (r.err ≡ none → r.calls ≡ start_calls E mtu)
    → Ends sys mtu (close_on_error sys r)
unfolding close_on_error
close_on_error-Ends sys mtu r p complete = elim (Option-cases r.err) [
  | inl ok ↦ rw (ok, close_on_error) (inl (ok, complete ok))
  | inr (e, bad) ↦ rw (bad, close_on_error) (inr (e, r.calls, refl, p, refl))
]

-- The calls that set the stack up, as gv.go has them, for an MTU.
abbrev pub set_up : ℕ → List StackCall
set_up mtu =
    set_default_ttl ipv4 64
    ∷ set_default_ttl ipv6 64
    ∷ set_forwarding ipv4 true
    ∷ set_forwarding ipv6 true
    ∷ set_icmp_burst 50
    ∷ set_icmp_limit 1000
    ∷ set_receive_buffer 4_096 217_088 4_194_304
    ∷ set_send_buffer 4_096 217_088 4_194_304
    ∷ set_congestion_control "reno"
    ∷ set_delay false
    ∷ handle_local
    ∷ set_moderate_receive_buffer true
    ∷ set_sack true
    ∷ new_subnet
    ∷ set_route_table
    ∷ set_tcp_handler 16_384 32_768
    ∷ set_udp_handler
    ∷ create_nic mtu
    ∷ set_spoofing true
    ∷ set_promiscuous_mode true
    ∷ []

-- What a failing call does to Start.
pub data Weight : Type 0 where
  fatal : Weight
  kept : Weight
  dropped : Weight

-- The calls that cannot fail, or whose answer nobody reads, and NewSubnet, whose error is kept to the
-- end; any other failure ends Start.
abbrev pub weight : StackCall → Weight
weight (set_default_ttl p n) = fatal
weight (set_forwarding p b) = fatal
weight (set_icmp_burst n) = dropped
weight (set_icmp_limit n) = dropped
weight (set_receive_buffer a b c) = fatal
weight (set_send_buffer a b c) = fatal
weight (set_congestion_control s) = fatal
weight (set_delay b) = fatal
weight handle_local = dropped
weight (set_moderate_receive_buffer b) = fatal
weight (set_sack b) = fatal
weight new_subnet = kept
weight set_route_table = dropped
weight (set_tcp_handler a b) = dropped
weight set_udp_handler = dropped
weight (create_nic n) = fatal
weight (set_spoofing b) = dropped
weight (set_promiscuous_mode b) = fatal
weight close = dropped

-- Calls in a row on the stack, and whether an error is kept so far: a fatal failure is followed by Close
-- and nothing else, and a kept one by the other calls and then Close. The answer tells what was called,
-- and whether Start returns an error.
abbrev pub fail_with :
    Weight → List StackCall × Bool → (Bool → List StackCall × Bool) → Bool → List StackCall × Bool
fail_with fatal closed go_on failed = closed
fail_with kept closed go_on failed = go_on true
fail_with dropped closed go_on failed = go_on failed

abbrev pub at_end : Bool → List StackCall × Bool
at_end true = (close ∷ [], true)
at_end false = ([], false)

abbrev pub then_call : StackCall → List StackCall × Bool → List StackCall × Bool
then_call c (calls, failed) = (c ∷ calls, failed)

abbrev pub sets_up :
    {W E : Type 0} → Sys W StackCall E → List StackCall → Bool → W → List StackCall × Bool
sets_up sys [] failed w = at_end failed
sets_up sys (c ∷ cs) failed w =
    let go_on : Bool → List StackCall × Bool = λ f. sets_up sys cs f (sys w c).1 in
    then_call c (elim (sys w c).0 [
      | none ↦ go_on failed
      | some e ↦ fail_with (weight c) (close ∷ [], true) go_on failed
    ])

abbrev pub has_error : {A : Type 0} → Option A → Bool
has_error none = false
has_error (some a) = true

-- A step treats a failure as its call's weight says.
abbrev IsWeighed : {E R : Type 0} → Step StackCall E R → Type 0
IsWeighed (must c wrap) = weight c ≡ fatal
IsWeighed (note c wrap) = weight c ≡ kept
IsWeighed (ignore c) = weight c ≡ dropped

abbrev seen : {W R : Type 0} → Ran W StackCall R → List StackCall × Bool
seen r = (r.calls, has_error r.err)

close_on_error-call :
    {W E : Type 0} (sys : Sys W StackCall E) (c : StackCall) (r : Ran W StackCall (Error E))
    → seen (close_on_error sys (after_call c r)) ≡ then_call c (seen (close_on_error sys r))
unfolding close_on_error
close_on_error-call sys c r = elim (Option-cases r.err) [
  | inl e ↦ rw (e, close_on_error) refl
  | inr (x, e) ↦ rw (e, close_on_error) refl
]

run-sets_up :
    {W E : Type 0} (sys : Sys W StackCall E) (steps : List (Step StackCall E (Error E)))
    (err : Option (Error E)) (w : W)
    → All IsWeighed steps
    → seen (close_on_error sys (run sys steps err w))
      ≡ sets_up sys (calls_of steps) (has_error err) w
unfolding run close_on_error
run-sets_up sys [] none w h = refl
run-sets_up sys [] (some e) w h = refl
run-sets_up sys (must c wrap ∷ steps) err w (h, hs) = elim (Option-cases (sys w c).0) [
  | inl ok ↦
      rw (ok, run, close_on_error-call sys c)
        (ap (then_call c) (run-sets_up sys steps err (sys w c).1 hs))
  | inr (e, bad) ↦ rw (bad, run, h) refl
]
run-sets_up sys (note c wrap ∷ steps) err w (h, hs) = elim (Option-cases (sys w c).0) [
  | inl ok ↦
      rw (ok, run, close_on_error-call sys c)
        (ap (then_call c) (run-sets_up sys steps err (sys w c).1 hs))
  | inr (e, bad) ↦
      rw (bad, run, close_on_error-call sys c, h)
        (ap (then_call c) (run-sets_up sys steps (some (wrap e)) (sys w c).1 hs))
]
run-sets_up sys (ignore c ∷ steps) err w (h, hs) = elim (Option-cases (sys w c).0) [
  | inl ok ↦
      rw (ok, run, close_on_error-call sys c)
        (ap (then_call c) (run-sets_up sys steps err (sys w c).1 hs))
  | inr (e, bad) ↦
      rw (bad, run, close_on_error-call sys c, h)
        (ap (then_call c) (run-sets_up sys steps err (sys w c).1 hs))
]

start_steps-IsWeighed : (E : Type 0) (mtu : ℕ) → All IsWeighed (start_steps {E = E} mtu)
start_steps-IsWeighed E mtu = ground arith

-- Start sets the stack up as listed here, whatever the stack answers: it makes these twenty calls with
-- these values in this order; the first failure of a fatal one ends it with an error, and Close is then
-- the only call that follows; an error of NewSubnet is kept, the other calls are made, and then Close;
-- and in no other case is Close called or an error returned.
pub start-sets_up :
    {W E : Type 0} (sys : Sys W StackCall E) (mtu : ℕ) (w : W)
    → ((start sys mtu w).calls ≡ (sets_up sys (set_up mtu) false w).0)
      × (has_error (start sys mtu w).err ≡ (sets_up sys (set_up mtu) false w).1)
unfolding start
start-sets_up {E} sys mtu w =
    let same = run-sets_up sys (start_steps {E = E} mtu) none w (start_steps-IsWeighed E mtu) in
    (ap (λ r. r.0) same, ap (λ r. r.1) same)

-- Whatever the stack answers, Start either returns no error and has made all its calls in order, or
-- it returns an error, and what it called is the front of these calls and then Close, once.
pub start-Ends :
    {W E : Type 0} (sys : Sys W StackCall E) (mtu : ℕ) (w : W) → Ends sys mtu (start sys mtu w)
unfolding start
start-Ends sys mtu w =
    let r = run sys (start_steps mtu) none w in
    close_on_error-Ends sys mtu r (run-IsPrefix sys (start_steps mtu) none w)
      (run_complete sys (start_steps mtu) w)

abbrev pub is_tcp_handler : StackCall → Bool
is_tcp_handler c = elim c [ set_tcp_handler window in_flight ↦ true | _ ↦ false ]

abbrev pub is_udp_handler : StackCall → Bool
is_udp_handler c = elim c [ set_udp_handler ↦ true | _ ↦ false ]

abbrev pub is_create_nic : StackCall → Bool
is_create_nic c = elim c [ create_nic mtu ↦ true | _ ↦ false ]

-- Every NIC of these calls is created after both handlers; the arguments tell which are set already.
abbrev pub handlers_first : Bool → Bool → List StackCall → Bool
handlers_first tcp udp [] = true
handlers_first tcp udp (c ∷ cs) =
    (not (is_create_nic c) || tcp && udp)
    && handlers_first (tcp || is_tcp_handler c) (udp || is_udp_handler c) cs

&&-true : (a b : Bool) → (a && b) ≡ true → (a ≡ true) × (b ≡ true)
&&-true a b h = ground arith

handlers_first-front :
    (p rest : List StackCall) (tcp udp : Bool)
    → handlers_first tcp udp (p ++ rest) ≡ true
    → handlers_first tcp udp (p ++ (close ∷ [])) ≡ true
handlers_first-front [] rest tcp udp h = ground arith
handlers_first-front (c ∷ p) rest tcp udp h =
    let (now, later) =
      &&-true (not (is_create_nic c) || tcp && udp)
        (handlers_first (tcp || is_tcp_handler c) (udp || is_udp_handler c) (p ++ rest)) h in
    rw (now, handlers_first-front p rest (tcp || is_tcp_handler c) (udp || is_udp_handler c) later)

-- The NIC, which makes packets come in, is never created before the TCP and the UDP handler are set.
pub start_sets_handlers_first :
    {W E : Type 0} (sys : Sys W StackCall E) (mtu : ℕ) (w : W)
    → handlers_first false false (start sys mtu w).calls ≡ true
start_sets_handlers_first sys mtu w = elim (start-Ends sys mtu w) [
  | inl (ok, all) ↦ rw all
  | inr (e, p, bad, (rest, front), all) ↦
      rw all (handlers_first-front p rest false false (rw front))
]
