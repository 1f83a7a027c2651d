-- ===== src/Udp/Forwarder/Tests.antt =====
-- Runs of the Forwarder with a timeout of 100 and one client.
use Prim.Native.String.{String}
use mathlib.Core.List.{Mem, mem-cons_self}
use mathlib.Core.List.{Perm, Permᴰ}
use text.Mathlib.Text.{◌==◌ as str_eq}
use an_app.Base.{
  ℕ, ◌≡◌, ◌≢◌, refl, true, false, List, [], ◌∷◌, ◌++◌, none, some, get_elem?, arith, map,
  if◌then◌else◌,
}
use an_app.Action.{ok, err}
use an_app.Udp.Forwarder.MapOrder.{janitor_remove-any_order}
use an_app.Udp.Forwarder.Serving.{
  Answer, received, read_fails, read_loop, answers_go_back, Network, start_forward, run,
  into_buffer,
}
use an_app.Udp.State.{lookup, insert, delete}
use an_app.Udp.Forwarder.{
  Connection, Forwarder, forward, handle_enter, publish_at, dial_succeeded, dial_failed,
  read_failed, blocked, panicked, handle_available, handle_found, handled,
}
use an_app.Udp.Forwarder.Janitor.{is_idle, collect, janitor_collect, remove_at, janitor_remove}
use an_app.Udp.Forwarder.Waiting.{here, next, enters, waiter_never_panics}
use an_app.Udp.Forwarder.Clients.{handle_all, client_keeps_one_socket}
use an_app.Udp.Forwarder.Stranded.{failed_dial_strands}
use an_app.Udp.Forwarder.Readers.{janitor_race_panics, old_reader_deletes_new}

abbrev client : String
client = "10.0.0.2:5353"

-- One client with a socket, last active at the time 7.
abbrev served : Forwarder
served = record {
  connections = (client, 0) ∷ [];
  heap = record { available_closed = true; udp = some 0; last_active = 7 } ∷ [];
  sockets = record { is_open = true; wire = (1 ∷ []) ∷ [] } ∷ [];
  events = [];
  timeout = 100;
  closed = false;
  listening = true;
}

waiter_never_panics_example :
    handle_found (handle_enter (forward 100) client 7).0 0 (1 ∷ []) ≢ panicked
waiter_never_panics_example =
    waiter_never_panics 100 (handle_enter (forward 100) client 7).0
      (next here (enters (forward 100) client 7)) 0 (1 ∷ [])

-- The client enters again after its dial has failed; the goroutine of the first object still waits.
abbrev after_failure : Forwarder
after_failure = dial_failed (handle_enter (forward 100) client 7).0 client

no_client : lookup client (forward 100).connections ≡ none
unfolding lookup forward
no_client = refl

failed_dial_strands_example :
    handle_found
      (handle_enter after_failure client 9).0
      (handle_enter (forward 100) client 7).1.1
      (1 ∷ [])
    ≡ blocked
failed_dial_strands_example =
    failed_dial_strands 100 (forward 100) (handle_enter after_failure client 9).0 client 7 (1 ∷ [])
      here no_client (next here (enters after_failure client 9))

idle_client : Mem client (janitor_collect served 108)
unfolding janitor_collect collect is_idle
idle_client = mem-cons_self

janitor_race_panics_example :
    janitor_remove (read_failed served client 0) (janitor_collect served 108) ≡ none
janitor_race_panics_example = janitor_race_panics served 108 client 0 idle_client

-- The client's second life: object 1, socket 1.
abbrev returned : Forwarder
returned = record {
  connections = (client, 1) ∷ [];
  heap =
      record { available_closed = true; udp = some 0; last_active = 7 }
      ∷ record { available_closed = true; udp = some 1; last_active = 110 }
      ∷ [];
  sockets =
      record { is_open = false; wire = (1 ∷ []) ∷ [] } ∷ record { is_open = true; wire = [] } ∷ [];
  events = an_app.Udp.Forwarder.connected client ∷ [];
  timeout = 100;
  closed = false;
  listening = true;
}

returns :
    dial_succeeded (handle_enter (remove_at served client 0) client 109).0 client 110
    ≡ some returned
unfolding dial_succeeded handle_enter remove_at publish_at lookup insert delete
returns = refl

old_reader_deletes_new_example :
    (lookup client (read_failed returned client 0).connections ≡ none)
    × (get_elem? (read_failed returned client 0).sockets 1
        ≡ some (record { is_open = true; wire = [] }))
old_reader_deletes_new_example =
    old_reader_deletes_new served returned client 0 0 109 110 refl (omega arith) returns

client_keeps_one_socket_example :
    (g : Forwarder) × (handle_all
        (λ local. true)
        (10 ∷ 0 ∷ 0 ∷ 1 ∷ [])
        "10.0.0.3:99"
        ((1 ∷ [], 8) ∷ (2 ∷ [], 9) ∷ [])
        served
      ≡ handled g)
    × (g.sockets
        ≡ record { is_open = true; wire = (1 ∷ []) ∷ [] }
          ∷ record { is_open = true; wire = (1 ∷ []) ∷ (2 ∷ []) ∷ [] }
          ∷ [])
unfolding lookup
client_keeps_one_socket_example =
    client_keeps_one_socket (λ local. true) 10 (0 ∷ 0 ∷ 1 ∷ []) served "10.0.0.3:99" (1 ∷ []) 8
      ((2 ∷ [], 9) ∷ []) refl refl

-- The two keys of a map in either order.
abbrev other_client : String
other_client = "10.0.0.7:99"

swapped : Perm (client ∷ other_client ∷ []) (other_client ∷ client ∷ [])
swapped = ∣ Permᴰ.swap refl refl ∣₁

order_run :
    janitor_remove returned (client ∷ other_client ∷ [])
    ≡ janitor_remove returned (other_client ∷ client ∷ [])
order_run =
    janitor_remove-any_order returned (client ∷ other_client ∷ []) (other_client ∷ client ∷ [])
      swapped

-- Two clients with a socket each, and what is left of them.
abbrev client_conn : ℕ → Connection
client_conn n = record { available_closed = true; udp = some n; last_active = 7 }

abbrev two_clients : Forwarder
two_clients = record served {
  connections = (client, 0) ∷ (other_client, 1) ∷ [];
  heap = client_conn 0 ∷ client_conn 1 ∷ [];
  sockets = record { is_open = true; wire = [] } ∷ record { is_open = true; wire = [] } ∷ [];
}

abbrev no_clients : Forwarder
no_clients = record two_clients {
  connections = [];
  sockets = record { is_open = false; wire = [] } ∷ record { is_open = false; wire = [] } ∷ [];
}

-- The write of the second answer fails.
abbrev replies : List Answer
replies =
    record { payload = 4 ∷ []; writes = true } ∷ record { payload = 5 ∷ []; writes = false } ∷ []

answers_run :
    let (after, sent) = read_loop served client 0 (map received replies ++ (read_fails ∷ [])) [] in
    (sent ≡ record { addr = client; payload = 4 ∷ [] } ∷ [])
    × (lookup client after.connections ≡ none)
unfolding into_buffer
answers_run = answers_go_back served client 0 replies []

-- An address that does not resolve, and a listener that starts a goroutine for one datagram.
abbrev network : Network String ℕ
network = record {
  resolve_udp_addr = λ s. if str_eq s "" then err 1 else ok s;
  listen_udp = λ a. none;
}

unresolved_run : start_forward network ":53" "" 100 ≡ err 1
unfolding start_forward
unresolved_run = refl

listening_run :
    start_forward network ":53" "10.0.0.1:53" 100
    ≡ ok (record { src = ":53"; dst = "10.0.0.1:53"; forwarder = forward 100 })
unfolding start_forward
listening_run = refl

serving_run :
    run
      (received (record { addr = client; payload = 7 ∷ [] })
        ∷ read_fails
        ∷ received (record { addr = client; payload = 8 ∷ [] })
        ∷ [])
      []
    ≡ record { addr = client; payload = 7 ∷ [] } ∷ []
unfolding run into_buffer
serving_run = refl
