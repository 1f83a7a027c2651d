-- ===== src/Tcp/Calls.antt =====
-- What the TCP handlers do on every branch.
use Prim.Native.String.{String}
use an_app.Base.{
  ℕ, ◌⊎◌, ◌≡◌, ◌≢◌, refl, Bool, true, false, not, List, [], ◌∷◌, Option, some, Option-cases, inl,
  inr, if◌then◌else◌, All,
}
use an_app.Net.{Ip, IpNet}
use an_app.Routes.{CustomRoute, get_default_route, find_contain_route}
use an_app.Routes.Order.{Sorts}
use an_app.Routes.Windows.{ForwardRow, Host, find_routes}
use an_app.Routes.Windows.Cache.{asked}
use an_app.Sockets.Chosen.{IsNumbered, Outside, chosen-Outside}
use an_app.Tcp.{
  Address, Call, complete, keep_alive, keep_alive_idle, keep_alive_interval, spawn_tcp_handle,
  set_keep_alive, handle_stream, Action, dial, set_conn_keep_alive, spawn_copy_out, copy_in,
  close_conn, close_tcp, Dialled, connected, refused, panicked, after_dial, tcp_handle,
}

-- The arguments of the calls of Complete.
abbrev pub completions : List Call → List Bool
completions [] = []
completions (complete b ∷ cs) = b ∷ completions cs
completions (keep_alive ∷ cs) = completions cs
completions (keep_alive_idle ∷ cs) = completions cs
completions (keep_alive_interval ∷ cs) = completions cs
completions (spawn_tcp_handle l r ∷ cs) = completions cs

-- The arguments of the goroutines that run TcpHandle.
abbrev pub spawned : List Call → List (Address × Address)
spawned [] = []
spawned (complete b ∷ cs) = spawned cs
spawned (keep_alive ∷ cs) = spawned cs
spawned (keep_alive_idle ∷ cs) = spawned cs
spawned (keep_alive_interval ∷ cs) = spawned cs
spawned (spawn_tcp_handle l r ∷ cs) = (l, r) ∷ spawned cs

-- On every branch HandleStream calls Complete exactly once, to reset the connection just when the
-- endpoint could not be created, and it hands over to one TcpHandle just when it could, whether or
-- not the keepalive options were taken.
pub handle_stream_completes_once :
    (created idle_ok : Bool) (local remote : Address)
    → (completions (handle_stream created idle_ok local remote) ≡ not created ∷ [])
      × (spawned (handle_stream created idle_ok local remote)
          ≡ (if created then (local, remote) ∷ [] else []))
unfolding handle_stream set_keep_alive
handle_stream_completes_once false idle_ok local remote = (refl, refl)
handle_stream_completes_once true false local remote = (refl, refl)
handle_stream_completes_once true true local remote = (refl, refl)

abbrev pub closes_tcp : List Action → Bool
closes_tcp [] = false
closes_tcp (dial a r ∷ rest) = closes_tcp rest
closes_tcp (set_conn_keep_alive ∷ rest) = closes_tcp rest
closes_tcp (spawn_copy_out ∷ rest) = closes_tcp rest
closes_tcp (copy_in ∷ rest) = closes_tcp rest
closes_tcp (close_conn ∷ rest) = closes_tcp rest
closes_tcp (close_tcp ∷ rest) = true

after_dial-leaks : (d : Dialled) → d ≢ connected → closes_tcp (after_dial d) ≡ false
unfolding after_dial
after_dial-leaks connected h = absurd (h refl)
after_dial-leaks refused h = refl
after_dial-leaks panicked h = refl

-- When the dialer connects nowhere, TcpHandle ends without closing the connection from the TUN side,
-- whatever the address resolves to and whichever route is found.
pub tcp_handle_leaks :
    (resolve : Address → Option Address) (find_route : Ip → Option CustomRoute)
    (dialler : Address → CustomRoute → Dialled) (local : Address)
    → ((a : Address) (r : CustomRoute) → dialler a r ≢ connected)
    → closes_tcp (tcp_handle resolve find_route dialler local) ≡ false
unfolding tcp_handle
tcp_handle_leaks resolve find_route dialler local h = elim (Option-cases (resolve local)) [
  | inl e ↦ rw (e, tcp_handle)
  | inr (remote, e) ↦ elim (Option-cases (find_route remote.0)) [
    | inl n ↦ rw (e, tcp_handle, n)
    | inr (route, f) ↦
        rw (e, tcp_handle, f) (after_dial-leaks (dialler remote route) (h remote route))
  ]
]

-- The routes over which a run dials.
abbrev pub dialled_routes : List Action → List CustomRoute
dialled_routes [] = []
dialled_routes (dial a r ∷ rest) = r ∷ dialled_routes rest
dialled_routes (set_conn_keep_alive ∷ rest) = dialled_routes rest
dialled_routes (spawn_copy_out ∷ rest) = dialled_routes rest
dialled_routes (copy_in ∷ rest) = dialled_routes rest
dialled_routes (close_conn ∷ rest) = dialled_routes rest
dialled_routes (close_tcp ∷ rest) = dialled_routes rest

after_dial-dialled_routes : (d : Dialled) → dialled_routes (after_dial d) ≡ []
unfolding after_dial
after_dial-dialled_routes connected = refl
after_dial-dialled_routes refused = refl
after_dial-dialled_routes panicked = refl

-- A route over which a run may dial on Windows: the default one, or one of an interface that is not the
-- TUN device.
abbrev pub Leaves : (h : Host) → (ℕ → String) → Ip → CustomRoute → Type 0
Leaves h alias_of out_bound_ipv4 r =
    (r ≡ get_default_route h.parse_cidr out_bound_ipv4) ⊎ Outside h alias_of r

-- With the route table that FindRoutes of Windows has read, where GetIfEntry2 answers for the index that
-- it is asked for and each LUID has one index: for an address that resolves, TcpHandle dials exactly
-- once, over a route whose interface index is of an interface that is not the program's own TUN device,
-- or over the default route, which names no interface.
pub tcp_dials_outside :
    (h : Host) (alias_of : ℕ → String) (contains : IpNet → Ip → Bool)
    (sort : (CustomRoute → CustomRoute → Bool) → List CustomRoute → List CustomRoute)
    (out_bound_ipv4 : Ip) (index_of : ℕ → ℕ) (table : List ForwardRow) (routes : List CustomRoute)
    (resolve : Address → Option Address) (dialler : Address → CustomRoute → Dialled)
    (local remote : Address)
    → Sorts sort
    → ((i : ℕ) → (asked h i).alias ≡ alias_of i)
    → All (IsNumbered h alias_of index_of) table
    → find_routes h (some table) ≡ some routes
    → resolve local ≡ some remote
    → (r : CustomRoute) × (dialled_routes (
          tcp_handle resolve
            (λ ip. find_contain_route contains h.parse_cidr sort out_bound_ipv4 ip routes)
            dialler
            local)
        ≡ r ∷ [])
      × Leaves h alias_of out_bound_ipv4 r
unfolding tcp_handle
tcp_dials_outside h alias_of contains sort out index_of table routes resolve dialler local remote
      sorts named numbered found e =
    let (r, chosen, leaves) =
      chosen-Outside h alias_of contains sort out remote.0 index_of table routes sorts named
        numbered found in
    (r, rw (e, tcp_handle, chosen, after_dial-dialled_routes (dialler remote r)) refl, leaves)
