-- ===== src/Udp/Stack/Tests.antt =====
-- Runs of the UDP stack, and its theorems at concrete datagrams.
use an_app.Base.{
  ℕ, ◌≤◌, ◌<◌, ◌≡◌, ◌≢◌, refl, sym, arith, true, false, List, [], ◌∷◌, Option, none, some, length,
  take,
}
use an_app.Io.{plain_read, plain_read-IsReaderAt}
use an_app.Config.{ContextConfig, is_enable_enforce_dns, get_enable_enforce_dho}
use an_app.Dns.{Error, Fetched, panicked, body, send_doh}
use an_app.Routes.{CustomRoute}
use an_app.Udp.State.{Datagram}
use an_app.Udp.Stack.{
  UdpHeader, UdpStack, NetRoute, EndpointId, Remote, Reply, returned, spawned, Spawn, new_udp_stack,
  read_remote_date, handle_remote_packet, local_send,
}
use an_app.Udp.Stack.Enforced.{answer_packet, enforced_query_is_answered}
use an_app.Udp.Stack.Answers.{enforced_dns_answers, payload_is_cut}

abbrev config : ContextConfig
config = record {
  title = "anApp";
  app = record { context = "client" };
  init_net = record { ip = "" };
  context_server = record { port = ""; ip = ""; path = ""; key = "" };
  context_client = record {
    direct = false;
    enable_enforce_dns = true;
    enforce_doh = "https://1.12.12.12/dns-query";
  };
}

abbrev eth0_route : CustomRoute
eth0_route = record {
  if_name = "eth0";
  subnet = none;
  ip = 192 ∷ 168 ∷ 1 ∷ 4 ∷ [];
  metric = 0;
  if_index = 3;
  bit_count = 0;
}

-- One host, with the port that its address has and the answer of its HTTP client.
abbrev remote_at : ℕ → Fetched → Remote
remote_at port fetched = record {
  port_of = λ address. port;
  resolve = λ address. some (8 ∷ 8 ∷ 8 ∷ 8 ∷ []);
  ip_string = λ ip. "192.168.1.4";
  encode = λ bytes. "AAEC";
  fetch = λ url. fetched;
  find_route = λ ip. some eth0_route;
}

abbrev query : Datagram
query = 0 ∷ 1 ∷ 2 ∷ []

abbrev accept : Datagram → Option (Option Error)
accept d = some none

abbrev dns_host : Remote
dns_host = remote_at 53 (body (9 ∷ 9 ∷ []) none)

abbrev broken_host : Remote
broken_host = remote_at 53 panicked

abbrev web_host : Remote
web_host = remote_at 443 panicked

answered :
    read_remote_date dns_host config accept query "8.8.8.8:53" "5000"
    ≡ returned (some (9 ∷ 9 ∷ [])) none
unfolding read_remote_date is_enable_enforce_dns send_doh get_enable_enforce_dho
answered = refl

enforced : is_enable_enforce_dns config config.context_client 53 ≡ true
unfolding is_enable_enforce_dns
enforced = refl

not_enforced : is_enable_enforce_dns config config.context_client 443 ≡ false
unfolding is_enable_enforce_dns
not_enforced = refl

answers_run :
    ((s : Spawn) → read_remote_date dns_host config accept query "8.8.8.8:53" "5000" ≢ spawned s)
    × ((d : Datagram) (err : Option Error)
        → read_remote_date dns_host config accept query "8.8.8.8:53" "5000" ≡ returned (some d) err
        → (send_doh dns_host.encode dns_host.fetch (get_enable_enforce_dho config) query
            ≡ (some d, none))
          × (accept d ≡ some err))
answers_run = enforced_dns_answers dns_host config accept query "8.8.8.8:53" "5000" enforced

query_is_some : query ≢ []
query_is_some e = cc

abbrev header : UdpHeader
header = record {
  encode = λ f. f.src_port ∷ f.dst_port ∷ f.length ∷ [];
  calculate_checksum = λ b x. x;
}

abbrev endpoint_id : EndpointId
endpoint_id = record { local_port = 443; remote_port = 5000 }

abbrev net_route : NetRoute
net_route = record {
  requires_tx_checksum = true;
  is_ipv6 = false;
  pseudo_header_checksum = λ length. length;
  default_ttl = 64;
  write_packet = λ p ttl tos. none;
}

abbrev fresh : UdpStack
fresh = record {
  no_checksum = true;
  use_default_ttl = true;
  ttl = 0;
  tos = 0;
  packets_sent = 0;
  packet_send_errors = 0;
}

abbrev handle_example : List ℕ → Option Reply
handle_example packet =
    handle_remote_packet header web_host config plain_read fresh (some net_route) endpoint_id packet
      2 "8.8.8.8:443" "5000"

abbrev reply_example : Datagram → Reply
reply_example d =
    read_remote_date web_host config (local_send header fresh (some net_route) endpoint_id) d
      "8.8.8.8:443" "5000"

payload_is_cut_example :
    (length query ≤ 2024 → handle_example (7 ∷ 7 ∷ query) ≡ some (reply_example query))
    × (2024 < length query
        → handle_example (7 ∷ 7 ∷ query) ≡ some (reply_example (take 2024 query)))
payload_is_cut_example =
    payload_is_cut header web_host config plain_read fresh (some net_route) endpoint_id
      (7 ∷ 7 ∷ query) 2 "8.8.8.8:443" "5000" plain_read-IsReaderAt

short_body : (a : Datagram) → body (9 ∷ 9 ∷ []) none ≡ body a none → length a ≤ 65_527
short_body a e = let same : 9 ∷ 9 ∷ [] ≡ a = cc in rw (sym same) (omega arith)

-- The query of three bytes behind a header of two, and the packet that goes back.
enforced_query_is_answered_example :
    handle_remote_packet header dns_host config plain_read
      (new_udp_stack true)
      (some net_route)
      endpoint_id
      (7 ∷ 7 ∷ query)
      2
      "8.8.8.8:53"
      "5000"
    ≡ some (
        returned
          (some (9 ∷ 9 ∷ []))
          (net_route.write_packet (answer_packet endpoint_id (9 ∷ 9 ∷ [])) 64 0))
enforced_query_is_answered_example =
    enforced_query_is_answered header true net_route endpoint_id refl dns_host config "8.8.8.8:53"
      "5000" refl (ground arith) refl plain_read (7 ∷ 7 ∷ query) 2 0 (1 ∷ 2 ∷ [])
      plain_read-IsReaderAt refl (omega arith) short_body
