-- ===== src/Device/Addresses.antt =====
-- device/tun.go, getInterfaceConfig4 and getInterfaceConfig6: the parts of an interface's address, and
-- the gateway, which is the first address of its network. IP.String is a parameter, as are ParseCIDR,
-- To4 and To16; To4 gives the network's own bytes, so the increment is made in place, on a value that
-- nobody reads again.
use Prim.Native.String.{String}
use an_app.Base.{
  ℕ, zero, suc, ◌+◌, ◌/◌, ◌%◌, ◌^◌, ◌<◌, ◌≡◌, refl, false, [], ◌∷◌, Option, none, some, length,
  if◌then◌else◌, ◌==◌, arith,
}
use an_app.Action.{Result, ok, err, crash}
use an_app.Net.{Ip, IpNet}
use an_app.Device.{NetCalls}

pub data ConfigError : Type 0 where
  parse_error : ConfigError
  not_ipv4_address : ConfigError
  not_ipv6_address : ConfigError

pub record InterfaceConfig : Type 0 where
  pub addr : String
  pub mask : String
  pub gateway : String

-- ip[i]++ on a byte; `none` is an index out of range.
unfoldable pub increment : ℕ → Ip → Option Ip
increment i [] = none
increment zero (b ∷ bs) = some ((b + 1) % 2 ^ 8 ∷ bs)
increment (suc i) (b ∷ bs) = elim (increment i bs) [ none ↦ none | some cs ↦ some (b ∷ cs) ]

module _ (net : NetCalls) (ip_string : Ip → String) where
  -- The end of both functions: the address, the mask and the network's bytes with the last one more.
  unfoldable pub make_config : Ip → IpNet → ℕ → Ip → Result ConfigError InterfaceConfig
  make_config ip ip_net last network = elim (increment last network) [
    | none ↦ crash
    | some gateway ↦
        ok (record {
          addr = ip_string ip;
          mask = ip_string ip_net.mask;
          gateway = ip_string gateway;
        })
  ]

  unfoldable pub get_interface_config4 : String → Result ConfigError InterfaceConfig
  get_interface_config4 cidr = elim (net.parse_cidr cidr) [
    | none ↦ err parse_error
    | some parsed ↦
        if length (net.to4 parsed.0) == 0
        then err not_ipv4_address
        else make_config (net.to4 parsed.0) parsed.1 3 (net.to4 parsed.1.ip)
  ]

  unfoldable pub get_interface_config6 : String → Result ConfigError InterfaceConfig
  get_interface_config6 cidr = elim (net.parse_cidr cidr) [
    | none ↦ err parse_error
    | some parsed ↦
        if length (net.to16 parsed.0) == 0
        then err not_ipv6_address
        else make_config (net.to16 parsed.0) parsed.1 15 (net.to16 parsed.1.ip)
  ]

  -- The gateway of an IPv4 network whose mask leaves at least one bit for hosts, so that its last
  -- byte is even: no byte wraps, and it differs from the network's own address in the last bit alone.
  pub get_interface_config4-gateway :
      (cidr : String) (ip : Ip) (ip_net : IpNet) (a b c d : ℕ)
      → net.parse_cidr cidr ≡ some (ip, ip_net)
      → (length (net.to4 ip) == 0) ≡ false
      → net.to4 ip_net.ip ≡ a ∷ b ∷ c ∷ d ∷ []
      → d < 256
      → d % 2 ≡ 0
      → (g : ℕ) × (get_interface_config4 cidr
          ≡ ok (record {
            addr = ip_string (net.to4 ip);
            mask = ip_string ip_net.mask;
            gateway = ip_string (a ∷ b ∷ c ∷ g ∷ []);
          }))
        × (g < 256)
        × (g / 2 ≡ d / 2)
        × (g % 2 ≡ 1)
  unfolding get_interface_config4 make_config increment
  get_interface_config4-gateway cidr ip ip_net a b c d parsed is4 network small even = (
    (d + 1) % 2 ^ 8,
    rw (parsed, get_interface_config4, is4, network) refl,
    omega (arith, small, even),
    omega (arith, small, even),
    omega (arith, small, even),
  )
