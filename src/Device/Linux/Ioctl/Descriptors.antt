-- ===== src/Device/Linux/Ioctl/Descriptors.antt =====
-- Every descriptor that these functions open is closed again.
use Prim.Native.Nat.{bit_or}
use Prim.Native.String.{String}
use an_app.Base.{
  ℕ, ◌%◌, ◌^◌, ◌≡◌, refl, List, [], ◌∷◌, Option, none, some, if◌then◌else◌, ◌==◌, arith, ltb,
  length, Bool-cases, inl, inr,
}
use an_app.Action.{Action, Keeps, Kept, ◌>>>◌, pure, or_panic, finally}
use an_app.Net.{Ip}
use an_app.Device.Linux.Ioctl.{
  Family, inet, inet6, Request, get_index, set_address, set_netmask, set_address6, add_route,
  add_route6, get_flags, set_flags, Event, opened, requested, closed, Error, Kernel, World,
  NetCalls, if_name, iff_up_running, indexed, open_socket, close_socket, ask, tell, with_socket,
  address4_body, set_interface_address4, address6_body, set_interface_address6, routes4_body,
  add_route_entry4, route6_flags, routes6_loop, routes6_body, add_route_entry6, activate_body,
  activate, array4, dropped, init_gateway,
}

-- The descriptor that is open after a log: `some none` for none at all. A log that opens a second
-- one, or uses or closes another than the open one, is `none`.
abbrev pub use_fd : Option ℕ → ℕ → Option (Option ℕ) → Option (Option ℕ)
use_fd after n none = none
use_fd after n (some none) = none
use_fd after n (some (some m)) = if n == m then some after else none

abbrev pub open_fd : ℕ → Option (Option ℕ) → Option (Option ℕ)
open_fd n none = none
open_fd n (some none) = some (some n)
open_fd n (some (some m)) = none

abbrev pub held : List Event → Option (Option ℕ)
held [] = some none
held (opened n ∷ log) = open_fd n (held log)
held (requested n r ∷ log) = use_fd (some n) n (held log)
held (closed n ∷ log) = use_fd none n (held log)

use_fd_same : (after : Option ℕ) (n : ℕ) → use_fd after n (some (some n)) ≡ some after
use_fd_same after n = ground arith

module _ {K : Type 0} (sys : Kernel K) where
  abbrev pub IsClosed : World K → Type 0
  IsClosed w = held w.log ≡ some none

  abbrev Holds : ℕ → World K → Type 0
  Holds fd w = held w.log ≡ some (some fd)

  asks : (fd : ℕ) (name : String) (r : Request) → Kept (Holds fd) Error ℕ
  unfolding ask
  asks fd name r = (
    ask sys name fd r,
    λ w h. elim (Bool-cases ((sys.ioctl w.kernel fd r).0.0 == 0)) [
      | inl good ↦ rw (good, ask, h) (use_fd_same (some fd) fd)
      | inr bad ↦ rw (bad, ask, h) (use_fd_same (some fd) fd)
    ],
  )

  tells : (fd : ℕ) (name : String) (r : Request) → Kept (Holds fd) Error (Unit {0})
  unfolding asks tell
  tells fd name r = (tell sys name fd r, (asks fd name r >>> λ v. (pure tt, λ w h. h)).1)

  ends : (fd : ℕ) → Kept (Holds fd) Error (Unit {0})
  ends fd = (pure tt, λ w h. h)

  indexed-Keeps : (P : World K → Type 0) (ip : Ip) → Keeps P (indexed ip)
  unfolding indexed
  indexed-Keeps P [] w h = h
  indexed-Keeps P (b ∷ bs) w h = h

  points : {P : World K → Type 0} (ip : Ip) → Kept P Error Ip
  points ip = (indexed ip, indexed-Keeps _ ip)

  or_panic-Keeps :
      (P : World K → Type 0) {A : Type 0} (o : Option A) → Keeps {E = Error} P (or_panic o)
  or_panic-Keeps P none w h = h
  or_panic-Keeps P (some a) w h = h

  array4-Keeps : (P : World K → Type 0) (ip : Ip) → Keeps P (array4 ip)
  unfolding array4
  array4-Keeps P ip w h = elim (Bool-cases (ltb (length ip) 4)) [
    | inl short ↦ rw (short, array4) h
    | inr fits ↦ rw (fits, array4) h
  ]

  arrays : {P : World K → Type 0} (ip : Ip) → Kept P Error Ip
  arrays ip = (array4 ip, array4-Keeps _ ip)

  dropped-Keeps :
      (P : World K → Type 0) (m : Action (World K) Error (Unit {0}))
      → Keeps P m
      → Keeps P (dropped m)
  unfolding dropped
  dropped-Keeps P m keeps = keeps

  gives : {P : World K → Type 0} {A : Type 0} (o : Option A) → Kept P Error A
  gives o = (or_panic o, or_panic-Keeps _ o)

  closes :
      (fd : ℕ) (m : Action (World K) Error (Unit {0}))
      → Keeps (Holds fd) m
      → (w : World K) → Holds fd w
      → IsClosed (finally m (close_socket sys fd) w).1
  unfolding close_socket
  closes fd m keeps w h = rw (keeps w h) (use_fd_same none fd)

  with_socket-IsClosed :
      (family : Family) (body : ℕ → Action (World K) Error (Unit {0}))
      → ((fd : ℕ) → Keeps (Holds fd) (body fd))
      → Keeps IsClosed (with_socket sys family body)
  unfolding with_socket open_socket
  with_socket-IsClosed family body keeps w h =
      let ((e, fd), kernel) = sys.socket w.kernel family in
      elim (Bool-cases (e == 0)) [
        | inl good ↦
            rw (good, with_socket, open_socket)
              (closes fd (body fd) (keeps fd) (record { kernel = kernel; log = opened fd ∷ w.log })
                (rw h refl))
        | inr bad ↦ rw (bad, with_socket, open_socket) h
      ]

  address4_body-Keeps :
      (name : List ℕ) (addr : Ip) (mask : List ℕ) (fd : ℕ)
      → Keeps (Holds fd) (address4_body sys name addr mask fd)
  unfolding address4_body tells
  address4_body-Keeps name addr mask fd =
      (tells fd "ioctl: SIOCSIFADDR" (set_address (if_name name) addr) >>> λ _.
      tells fd "ioctl: SIOCSIFNETMASK" (set_netmask (if_name name) mask)).1

  address6_body-Keeps :
      (net : NetCalls) (name : List ℕ) (addr mask : Ip) (fd : ℕ)
      → Keeps (Holds fd) (address6_body sys net name addr mask fd)
  unfolding address6_body tells asks
  address6_body-Keeps net name addr mask fd =
      (asks fd "ioctl: SIOCGIFINDEX" (get_index (if_name name)) >>> λ index.
      tells fd "ioctl: SIOCSIFADDR" (set_address6 addr (net.mask_size mask % 2 ^ 32) index)).1

  routes4_body-Keeps :
      (net : NetCalls) (name : List ℕ) (cidr : List String) (fd : ℕ)
      → Keeps (Holds fd) (routes4_body sys net name cidr fd)
  unfolding routes4_body tells gives points
  routes4_body-Keeps net name [] fd = λ w h. h
  routes4_body-Keeps net name (item ∷ rest) fd =
      (gives (net.parse_cidr item) >>> λ n. points (net.to4 n.1.ip) >>> λ ip.
      points (net.to4 n.1.mask) >>> λ mask.
      tells fd "ioctl: SIOCADDRT" (add_route (if_name name) ip mask) >>> λ _.
      (routes4_body sys net name rest fd, routes4_body-Keeps net name rest fd)).1

  routes6_loop-Keeps :
      (net : NetCalls) (index : ℕ) (cidr : List String) (fd : ℕ)
      → Keeps (Holds fd) (routes6_loop sys net index cidr fd)
  unfolding routes6_loop tells gives points
  routes6_loop-Keeps net index [] fd = λ w h. h
  routes6_loop-Keeps net index (item ∷ rest) fd =
      (gives (net.parse_cidr item) >>> λ n. points (net.to16 n.1.ip) >>> λ ip.
      tells fd "ioctl: SIOCADDRT" (
        add_route6 ip (net.mask_size (net.to16 n.1.mask) % 2 ^ 16)
          (route6_flags sys (net.mask_size (net.to16 n.1.mask))) index)
      >>> λ _. (routes6_loop sys net index rest fd, routes6_loop-Keeps net index rest fd)).1

  routes6_body-Keeps :
      (net : NetCalls) (name : List ℕ) (cidr : List String) (fd : ℕ)
      → Keeps (Holds fd) (routes6_body sys net name cidr fd)
  unfolding routes6_body asks
  routes6_body-Keeps net name cidr fd =
      (asks fd "ioctl: SIOCGIFINDEX" (get_index (if_name name)) >>> λ index.
      (routes6_loop sys net index cidr fd, routes6_loop-Keeps net index cidr fd)).1

  activate_body-Keeps : (name : List ℕ) (fd : ℕ) → Keeps (Holds fd) (activate_body sys name fd)
  unfolding activate_body asks tells
  activate_body-Keeps name fd =
      (asks fd "ioctl: SIOCGIFFLAGS" (get_flags (if_name name)) >>> λ flags.
      tells fd "ioctl: SIOCSIFFLAGS" (set_flags (if_name name) (bit_or flags iff_up_running))).1

  address4-IsClosed :
      (name : List ℕ) (addr : Ip) (mask : List ℕ)
      → Keeps IsClosed (set_interface_address4 sys name addr mask)
  unfolding set_interface_address4
  address4-IsClosed name addr mask =
      with_socket-IsClosed inet (address4_body sys name addr mask)
        (address4_body-Keeps name addr mask)

  activate-IsClosed : (name : List ℕ) → Keeps IsClosed (activate sys name)
  unfolding activate
  activate-IsClosed name =
      with_socket-IsClosed inet (activate_body sys name) (activate_body-Keeps name)

-- The functions with their arguments.
pub data Call : Type 0 where
  address4 : Ip → List ℕ → Call
  address6 : String → String → Call
  routes4 : List String → Call
  routes6 : List String → Call
  activation : Call
  gateway : String → Call

abbrev pub call :
    {K : Type 0} → Kernel K → NetCalls → List ℕ → Call → Action (World K) Error (Unit {0})
call sys net name (address4 addr mask) = set_interface_address4 sys name addr mask
call sys net name (address6 addr mask) = set_interface_address6 sys net name addr mask
call sys net name (routes4 cidr) = add_route_entry4 sys net name cidr
call sys net name (routes6 cidr) = add_route_entry6 sys net name cidr
call sys net name activation = activate sys name
call sys net name (gateway tun_ip) = init_gateway sys net name tun_ip

-- Whatever the kernel answers, and also when an address is nil and the function panics, each of the
-- functions that configure the interface leaves no descriptor open, uses only the one that it
-- has opened, and closes it once.
pub call-IsClosed :
    {K : Type 0} (sys : Kernel K) (net : NetCalls) (name : List ℕ) (c : Call) (w : World K)
    → IsClosed sys w
    → IsClosed sys (call sys net name c w).1
unfolding set_interface_address6 add_route_entry4 add_route_entry6 points gives arrays init_gateway
call-IsClosed sys net name (address4 addr mask) = address4-IsClosed sys name addr mask
call-IsClosed sys net name (address6 addr mask) =
    (points sys (net.to16 (net.parse_ip addr)) >>> λ a.
    points sys (net.to16 (net.parse_ip mask)) >>> λ m. (
      with_socket sys inet6 (address6_body sys net name a m),
      with_socket-IsClosed sys inet6 (address6_body sys net name a m)
          (address6_body-Keeps sys net name a m),
    )).1
call-IsClosed sys net name (routes4 cidr) =
    with_socket-IsClosed sys inet (routes4_body sys net name cidr)
      (routes4_body-Keeps sys net name cidr)
call-IsClosed sys net name (routes6 cidr) =
    with_socket-IsClosed sys inet6 (routes6_body sys net name cidr)
      (routes6_body-Keeps sys net name cidr)
call-IsClosed sys net name activation = activate-IsClosed sys name
call-IsClosed sys net name (gateway tun_ip) =
    (gives sys (net.parse_cidr tun_ip) >>> λ n. arrays sys (net.to4 n.0) >>> λ addr.
    arrays sys n.1.mask >>> λ mask.
    (
      dropped (set_interface_address4 sys name addr mask),
      dropped-Keeps sys (IsClosed sys) _ (address4-IsClosed sys name addr mask),
    )
    >>> λ _. (
      dropped (activate sys name),
      dropped-Keeps sys (IsClosed sys) _ (activate-IsClosed sys name),
    )).1
