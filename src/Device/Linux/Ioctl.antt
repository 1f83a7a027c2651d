-- ===== src/Device/Linux/Ioctl.antt =====
-- device/device_linux.go: the functions that configure the interface through ioctl, each on a socket
-- of its own. The kernel is a parameter: it answers a call with an errno, 0 for none, and a number
-- (a descriptor, an index, flags). The log has the calls that matter for the descriptor, the newest
-- first. ParseCIDR, To4, To16, ParseIP and IPMask.Size are parameters; a nil IP that is indexed is a
-- panic. An interface name is cut to 16 bytes and filled with zeros.
pub mod Descriptors
pub mod Memory
pub mod Layout
pub mod Headers
mod Tests
use an_app.Base.{
  ℕ, zero, suc, ◌+◌, ◌-◌, ◌%◌, ◌^◌, Bool, true, false, List, [], ◌∷◌, ◌++◌, Option, none, some,
  if◌then◌else◌, ◌==◌, take, length, ltb,
}
use Prim.Native.Nat.{bit_or}
use Prim.Native.String.{String}
use an_app.Action.{Result, Action, pure, panic, fail, finally, or_panic, ◌>>=◌, ◌>>◌}
use an_app.Net.{Ip, IpNet}

pub data Family : Type 0 where
  inet : Family
  inet6 : Family

-- The requests, with what the request structure holds.
pub data Request : Type 0 where
  get_index : List ℕ → Request
  set_address : List ℕ → Ip → Request
  set_netmask : List ℕ → List ℕ → Request
  set_address6 : Ip → ℕ → ℕ → Request
  add_route : List ℕ → Ip → List ℕ → Request
  add_route6 : Ip → ℕ → ℕ → ℕ → Request
  get_flags : List ℕ → Request
  set_flags : List ℕ → ℕ → Request

pub data Event : Type 0 where
  opened : ℕ → Event
  requested : ℕ → Request → Event
  closed : ℕ → Event

-- The error of Socket, and os.NewSyscallError.
pub data Error : Type 0 where
  errno : ℕ → Error
  syscall_error : String → ℕ → Error

pub record Kernel (K : Type 0) : Type 0 where
  pub socket : K → Family → (ℕ × ℕ) × K
  pub ioctl : K → ℕ → Request → (ℕ × ℕ) × K
  pub close_fd : K → ℕ → K

pub record World (K : Type 0) : Type 0 where
  pub kernel : K
  pub log : List Event

pub record NetCalls : Type 0 where
  pub parse_cidr : String → Option (Ip × IpNet)
  pub parse_ip : String → Ip
  pub to4 : Ip → Ip
  pub to16 : Ip → Ip
  pub mask_size : List ℕ → ℕ

-- copy(ifr_name[:], d.Name[:])
pub if_name : List ℕ → List ℕ
if_name name =
    take 16 (name ++ (0 ∷ 0 ∷ 0 ∷ 0 ∷ 0 ∷ 0 ∷ 0 ∷ 0 ∷ 0 ∷ 0 ∷ 0 ∷ 0 ∷ 0 ∷ 0 ∷ 0 ∷ 0 ∷ []))

-- IFF_UP | IFF_RUNNING, RTF_UP and RTF_HOST.
abbrev pub iff_up_running : ℕ
iff_up_running = 0x41

abbrev pub rtf_up : ℕ
rtf_up = 1

abbrev pub rtf_host : ℕ
rtf_host = 4

-- &ip[0]
pub indexed : {W : Type 0} → Ip → Action W Error Ip
indexed [] = panic
indexed (b ∷ bs) = pure (b ∷ bs)

-- [4]byte(ip)
pub array4 : {W : Type 0} → Ip → Action W Error Ip
array4 ip w = if ltb (length ip) 4 then panic w else pure (take 4 ip) w

-- A call whose error is dropped.
abbrev pub without_error : Result Error (Unit {0}) → Result Error (Unit {0})
without_error (Result.ok a) = Result.ok tt
without_error (Result.err e) = Result.ok tt
without_error Result.crash = Result.crash

pub dropped : {W : Type 0} → Action W Error (Unit {0}) → Action W Error (Unit {0})
dropped m w = let (r, w') = m w in (without_error r, w')

module _ {K : Type 0} (sys : Kernel K) where
  pub open_socket : Family → Action (World K) Error ℕ
  open_socket family w =
      let ((e, fd), kernel) = sys.socket w.kernel family in
      if e == 0
      then (Result.ok fd, record { kernel = kernel; log = opened fd ∷ w.log })
      else (Result.err (errno e), record w { kernel = kernel })

  pub close_socket : ℕ → World K → World K
  close_socket fd w = record { kernel = sys.close_fd w.kernel fd; log = closed fd ∷ w.log }

  -- An ioctl, with the name in its error.
  pub ask : String → ℕ → Request → Action (World K) Error ℕ
  ask name fd request w =
      let ((e, value), kernel) = sys.ioctl w.kernel fd request in
      let after : World K = record { kernel = kernel; log = requested fd request ∷ w.log } in
      if e == 0 then (Result.ok value, after) else (Result.err (syscall_error name e), after)

  pub tell : String → ℕ → Request → Action (World K) Error (Unit {0})
  tell name fd request = do value ← ask name fd request; pure tt

  pub with_socket :
      Family → (ℕ → Action (World K) Error (Unit {0})) → Action (World K) Error (Unit {0})
  with_socket family body = do fd ← open_socket family; finally (body fd) (close_socket fd)

  pub address4_body : List ℕ → Ip → List ℕ → ℕ → Action (World K) Error (Unit {0})
  address4_body name addr mask fd = do
    tell "ioctl: SIOCSIFADDR" fd (set_address (if_name name) addr)
    tell "ioctl: SIOCSIFNETMASK" fd (set_netmask (if_name name) mask)

  pub set_interface_address4 : List ℕ → Ip → List ℕ → Action (World K) Error (Unit {0})
  set_interface_address4 name addr mask = with_socket inet (address4_body name addr mask)

  pub address6_body : NetCalls → List ℕ → Ip → Ip → ℕ → Action (World K) Error (Unit {0})
  address6_body net name addr mask fd = do
    index ← ask "ioctl: SIOCGIFINDEX" fd (get_index (if_name name))
    tell "ioctl: SIOCSIFADDR" fd (set_address6 addr (net.mask_size mask % 2 ^ 32) index)

  -- parse6 takes the address and the mask apart before the socket is opened.
  pub set_interface_address6 :
      NetCalls → List ℕ → String → String → Action (World K) Error (Unit {0})
  set_interface_address6 net name addr mask = do
    addr16 ← indexed (net.to16 (net.parse_ip addr))
    mask16 ← indexed (net.to16 (net.parse_ip mask))
    with_socket inet6 (address6_body net name addr16 mask16)

  pub routes4_body : NetCalls → List ℕ → List String → ℕ → Action (World K) Error (Unit {0})
  routes4_body net name [] fd = pure tt
  routes4_body net name (item ∷ rest) fd = do
    parsed ← or_panic (net.parse_cidr item)
    ip ← indexed (net.to4 parsed.1.ip)
    mask ← indexed (net.to4 parsed.1.mask)
    tell "ioctl: SIOCADDRT" fd (add_route (if_name name) ip mask)
    routes4_body net name rest fd

  pub add_route_entry4 : NetCalls → List ℕ → List String → Action (World K) Error (Unit {0})
  add_route_entry4 net name cidr = with_socket inet (routes4_body net name cidr)

  abbrev pub route6_flags : ℕ → ℕ
  route6_flags ones = if ones == 128 then bit_or rtf_up rtf_host else rtf_up

  pub routes6_loop : NetCalls → ℕ → List String → ℕ → Action (World K) Error (Unit {0})
  routes6_loop net index [] fd = pure tt
  routes6_loop net index (item ∷ rest) fd = do
    parsed ← or_panic (net.parse_cidr item)
    ip ← indexed (net.to16 parsed.1.ip)
    let ones = net.mask_size (net.to16 parsed.1.mask)
    tell "ioctl: SIOCADDRT" fd (add_route6 ip (ones % 2 ^ 16) (route6_flags ones) index)
    routes6_loop net index rest fd

  pub routes6_body : NetCalls → List ℕ → List String → ℕ → Action (World K) Error (Unit {0})
  routes6_body net name cidr fd = do
    index ← ask "ioctl: SIOCGIFINDEX" fd (get_index (if_name name))
    routes6_loop net index cidr fd

  pub add_route_entry6 : NetCalls → List ℕ → List String → Action (World K) Error (Unit {0})
  add_route_entry6 net name cidr = with_socket inet6 (routes6_body net name cidr)

  pub activate_body : List ℕ → ℕ → Action (World K) Error (Unit {0})
  activate_body name fd = do
    flags ← ask "ioctl: SIOCGIFFLAGS" fd (get_flags (if_name name))
    tell "ioctl: SIOCSIFFLAGS" fd (set_flags (if_name name) (bit_or flags iff_up_running))

  pub activate : List ℕ → Action (World K) Error (Unit {0})
  activate name = with_socket inet (activate_body name)

  -- The address of the TUN device; both errors are dropped.
  pub init_gateway : NetCalls → List ℕ → String → Action (World K) Error (Unit {0})
  init_gateway net name tun_ip = do
    parsed ← or_panic (net.parse_cidr tun_ip)
    addr ← array4 (net.to4 parsed.0)
    mask ← array4 parsed.1.mask
    dropped (set_interface_address4 name addr mask)
    dropped (activate name)
