-- ===== src/Config/IpConfig.antt =====
-- model/ipConfig.go: the program's global variables and what sets them, and GetReleaseUdpPort, which
-- nothing calls. net is a parameter: ListenUDP at port 0 of every address gives a listener or an error.
-- The unbuffered channel of the route updates is the goroutine's of Device/Linux/Watch.
use Prim.Native.String.{String}
use an_app.Base.{ℕ, ◌⊎◌, inl, inr, List, [], ◌∷◌, Option, none, some}
use an_app.Net.{Ip}
use an_app.Routes.{CustomRoute}
use an_app.Config.{ContextConfig}

pub record Globals : Type 0 where
  pub tun_name : String
  pub tun_ip : String
  pub dns1 : String
  pub dns2 : String
  pub out_bound_ipv4 : Ip
  pub out_bound_ipv6 : Ip
  pub tun_mtu : ℕ
  pub context_config_imp : ContextConfig
  pub routes : List CustomRoute

-- init, from the zero values of the rest.
unfoldable pub init : ContextConfig → Globals
init zero_config = record {
  tun_name = "anApp";
  tun_ip = "10.0.0.2/24";
  dns1 = "10.0.0.3";
  dns2 = "10.0.0.4";
  out_bound_ipv4 = 1 ∷ 1 ∷ 1 ∷ 1 ∷ [];
  out_bound_ipv6 = [];
  tun_mtu = 1500;
  context_config_imp = zero_config;
  routes = [];
}

unfoldable pub set_context_config : ContextConfig → Globals → Globals
set_context_config c g = record g { context_config_imp = c }

-- The world's listeners, and what LocalAddr says of one.
pub record UdpNet (W L E : Type 0) : Type 0 where
  pub listen_udp : Ip → ℕ → W → (E ⊎ L) × W
  pub local_port : L → W → ℕ
  pub close : L → W → W

-- The listener is closed when the function returns.
unfoldable pub get_release_udp_port : {W L E : Type 0} → UdpNet W L E → W → (ℕ × Option E) × W
get_release_udp_port net w =
    let (listener, listening) = net.listen_udp (0 ∷ 0 ∷ 0 ∷ 0 ∷ []) 0 w in
    elim listener [
      | inl e ↦ ((0, some e), listening)
      | inr l ↦ ((net.local_port l listening, none), net.close l listening)
    ]
