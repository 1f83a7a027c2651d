-- ===== src/Routes/Windows/Adapters.antt =====
-- model/route_windows.go: adapterAddresses, which asks Windows for its adapters until the buffer is
-- large enough and then walks the list in the buffer. GetAdaptersAddresses is a
-- parameter: a call with a buffer of `size` bytes answers what it did and the size that it writes
-- back. `unfinished` is a loop that the fuel does not see to its end; a panic is `panicked`.
pub mod Growth
pub mod Walk
mod Tests
use an_app.Base.{
  ℕ, zero, suc, ◌+◌, ◌-◌, ◌^◌, Bool, true, false, List, [], ◌∷◌, ◌++◌, Option, none, some,
  if◌then◌else◌, leb, ◌==◌,
}
use an_app.Net.{Ip}
use an_app.Routes.{CustomRoute}
use an_app.Routes.Windows.{ForwardRow, Host, find_routes}

-- RawSockaddrAny.Sockaddr of an adapter's first address: the type assertion wants an IPv4 address.
pub data Sockaddr : Type 0 where
  inet4 : ℕ → ℕ → ℕ → ℕ → Sockaddr
  other_family : Sockaddr
  unreadable : Sockaddr

-- The fields of IpAdapterAddresses that are read. A buffer that Windows has not written to reads as an
-- adapter without an address, as an empty list does.
pub record Adapter : Type 0 where
  pub if_index : ℕ
  pub first_unicast : Option Sockaddr

pub data Status : Type 0 where
  no_error : List Adapter → Status
  buffer_overflow : Status
  other_error : Status

-- The answers to the calls, counted from 0, by the size of the buffer.
abbrev pub Calls : Type 0
Calls = ℕ → ℕ → Status × ℕ

-- What the loop comes to: a nil map, the list, or another round.
pub data Filled : Type 0 where
  no_map : Filled
  adapters : List Adapter → Filled
  unfinished : Filled

-- One round's answer: finish, or the size for the next round.
pub data Round : Type 0 where
  finish : Filled → Round
  again : ℕ → Round

unfoldable pub judge : ℕ → Status × ℕ → Round
judge size (no_error list, l) = finish (if l == 0 then no_map else adapters list)
judge size (buffer_overflow, l) = if leb l size then finish no_map else again l
judge size (other_error, l) = finish no_map

unfoldable pub fill_buffer : Calls → ℕ → ℕ → ℕ → Filled
fill_buffer sys zero n l = unfinished
fill_buffer sys (suc fuel) n l = elim (judge l (sys n l)) [
  | finish f ↦ f
  | again l' ↦ fill_buffer sys fuel (n + 1) l'
]

abbrev pub initial_size : ℕ
initial_size = 15_000

-- net.IPv4
abbrev pub ipv4 : ℕ → ℕ → ℕ → ℕ → Ip
ipv4 a b c d = 0 ∷ 0 ∷ 0 ∷ 0 ∷ 0 ∷ 0 ∷ 0 ∷ 0 ∷ 0 ∷ 0 ∷ 255 ∷ 255 ∷ a ∷ b ∷ c ∷ d ∷ []

-- map[uint32]net.IP, the newest entry first.
abbrev pub IpMap : Type 0
IpMap = List (ℕ × Ip)

abbrev pub ip_at : ℕ → IpMap → Ip
ip_at i [] = []
ip_at i ((j, ip) ∷ m) = let rest = ip_at i m in if j == i then ip else rest

-- One adapter of the walk, which goes on with a map or ends: it ends at an adapter without an address,
-- and `none` is a panic.
unfoldable pub visit : Option Sockaddr → ℕ → IpMap → (IpMap → Option IpMap) → Option IpMap
visit none index m go_on = some m
visit (some (inet4 a b c d)) index m go_on = go_on ((index, ipv4 a b c d) ∷ m)
visit (some other_family) index m go_on = none
visit (some unreadable) index m go_on = go_on m

unfoldable pub walk : List Adapter → IpMap → Option IpMap
walk [] m = some m
walk (aa ∷ rest) m = visit aa.first_unicast aa.if_index m (walk rest)

pub data Addresses : Type 0 where
  found : IpMap → Addresses
  panicked : Addresses
  looping : Addresses

abbrev pub result_of : Option IpMap → Addresses
result_of none = panicked
result_of (some m) = found m

-- A nil map reads as an empty one.
unfoldable pub walk_filled : Filled → Addresses
walk_filled no_map = found []
walk_filled (adapters list) = result_of (walk list [])
walk_filled unfinished = looping

unfoldable pub adapter_addresses : Calls → ℕ → Addresses
adapter_addresses sys fuel = walk_filled (fill_buffer sys fuel 0 initial_size)
