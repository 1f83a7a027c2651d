-- ===== src/Routes/Windows/Cache.antt =====
-- FindRoutes on Windows: the two caches change nothing, and what every route satisfies.
use text.Mathlib.TextEquality.{eq_iff}
use an_app.Base.{
  ℕ, ◌<◌, ◌^◌, ◌≡◌, ◌≢◌, refl, ap, ◌∙◌, ◌⊎◌, inl, inr, List, [], ◌∷◌, ◌++◌, Option, none, some, All,
  All-append, arith, Option-cases, sym, subst,
}
use an_app.Net.{IpNet}
use mathlib.Core.List.{append_assoc, append-nil}
use mathlib.Core.Option
use an_app.Routes.{CustomRoute}
use an_app.Routes.Windows.{
  ForwardRow, IfRow, zero_row, lookup, Host, Scan, miss_rows, interface_rows, row_route, scan_rows,
  find_routes,
}

module _ (h : Host) where
  -- The interface row that Windows has for an index.
  abbrev pub asked : ℕ → IfRow
  asked index = h.gt_if_entry2 (record zero_row { interface_index = index })

  -- FindRoutes without the maps: each row asks Windows anew.
  abbrev pub direct_routes : List ForwardRow → Option (List CustomRoute)
  direct_routes [] = some []
  direct_routes (t ∷ ts) =
      let row = asked t.interface_index in
      elim (row_route h t row (h.ip_interface row.interface_luid)) [
        | none ↦ none
        | some rs ↦ elim (direct_routes ts) [ none ↦ none | some rest ↦ some (rs ++ rest) ]
      ]

  -- One interface index for each LUID.
  abbrev pub Indexed : (ℕ → ℕ) → List ForwardRow → Type 0
  Indexed index_of = All (λ t. t.interface_index ≡ index_of t.interface_luid)

  -- What the maps hold at one LUID: nothing, or what Windows answers.
  abbrev Cached : (ℕ → ℕ) → Scan → ℕ → Type 0
  Cached index_of s k =
      ((lookup k s.if_rows ≡ none) × (lookup k s.ip_if_rows ≡ none))
      ⊎ ((lookup k s.if_rows ≡ some (asked (index_of k)))
          × (lookup k s.ip_if_rows ≡ some (h.ip_interface (asked (index_of k)).interface_luid)))

  interface_rows-Cached :
      (index_of : ℕ → ℕ) (s : Scan) (t : ForwardRow)
      → t.interface_index ≡ index_of t.interface_luid
      → ((k : ℕ) → Cached index_of s k)
      → ((interface_rows h s t).1 ≡ asked t.interface_index)
        × ((interface_rows h s t).2 ≡ h.ip_interface (asked t.interface_index).interface_luid)
        × ((interface_rows h s t).0.routes ≡ s.routes)
  unfolding interface_rows miss_rows
  interface_rows-Cached index_of s t e c = ground (arith, c t.interface_luid)

  interface_rows-keeps :
      (index_of : ℕ → ℕ) (s : Scan) (t : ForwardRow)
      → t.interface_index ≡ index_of t.interface_luid
      → ((k : ℕ) → Cached index_of s k)
      → (k : ℕ) → Cached index_of (interface_rows h s t).0 k
  unfolding interface_rows miss_rows lookup
  interface_rows-keeps index_of s t e c k = ground (arith, c t.interface_luid, c k)

  scan_rows-direct :
      (index_of : ℕ → ℕ) (ts : List ForwardRow) (s : Scan)
      → Indexed index_of ts
      → ((k : ℕ) → Cached index_of s k)
      → Option.map (λ r. r.routes) (scan_rows h ts s)
        ≡ Option.map (λ rs. s.routes ++ rs) (direct_routes ts)
  unfolding scan_rows
  scan_rows-direct index_of [] s i c = ap some (sym (append-nil s.routes))
  scan_rows-direct index_of (t ∷ ts) s i c =
      let found = interface_rows-Cached index_of s t i.0 c in
      let s' = (interface_rows h s t).0 in
      let row = asked t.interface_index in
      let row2 = h.ip_interface row.interface_luid in
      rw (found.0, found.1, scan_rows)
        (elim (Option-cases (row_route h t row row2)) [
          | inl e ↦ rw (e, direct_routes)
          | inr (rs, e) ↦
              rw (e, direct_routes)
                (scan_rows-direct index_of ts (record s' { routes = s'.routes ++ rs }) i.1
                    (interface_rows-keeps index_of s t i.0 c)
                  ∙ rw found.2 (regroup s.routes rs (direct_routes ts)))
        ])
    where
      regroup :
          (xs ys : List CustomRoute) (o : Option (List CustomRoute))
          → Option.map (λ r. (xs ++ ys) ++ r) o
            ≡ Option.map (λ r. xs ++ r) (elim o [ none ↦ none | some rest ↦ some (ys ++ rest) ])
      regroup xs ys none = refl
      regroup xs ys (some rest) = ap some (append_assoc xs ys rest)

  -- With one interface index for each LUID, FindRoutes returns what it would return without its
  -- maps, asking Windows for each row; it faults exactly when that does.
  pub find_routes-direct :
      (index_of : ℕ → ℕ) (ts : List ForwardRow)
      → Indexed index_of ts
      → find_routes h (some ts) ≡ direct_routes ts
  unfolding find_routes lookup
  find_routes-direct index_of ts i =
      let empty : Scan = record { if_rows = []; ip_if_rows = []; routes = [] } in
      let same = scan_rows-direct index_of ts empty i (λ k. inl (refl, refl)) in
      as_map (scan_rows h ts empty) ∙ same ∙ plain (direct_routes ts)
    where
      as_map :
          (o : Option Scan)
          → elim o [ none ↦ none | some s ↦ some s.routes ] ≡ Option.map (λ r. r.routes) o
      as_map none = refl
      as_map (some s) = refl

      plain : (o : Option (List CustomRoute)) → Option.map (λ rs. [] ++ rs) o ≡ o
      plain none = refl
      plain (some rs) = refl

  -- What a route of the table satisfies.
  pub record IsUsable (r : CustomRoute) : Type 0 where
    pub subnet : (n : IpNet) × (r.subnet ≡ some n)
    pub not_tun : r.if_name ≢ h.tun_name
    pub metric : r.metric < 2 ^ 32

  row_route-IsUsable :
      (t : ForwardRow) (row : IfRow) (row2 : Option ℕ) (rs : List CustomRoute)
      → row_route h t row row2 ≡ some rs
      → All IsUsable rs
  unfolding row_route
  row_route-IsUsable t row row2 rs e = ground (arith, eq_iff row.alias h.tun_name)

  interface_rows-routes : (s : Scan) (t : ForwardRow) → (interface_rows h s t).0.routes ≡ s.routes
  unfolding interface_rows miss_rows
  interface_rows-routes s t = ground arith

  scan_rows-IsUsable :
      (ts : List ForwardRow) (s s' : Scan)
      → All IsUsable s.routes
      → scan_rows h ts s ≡ some s'
      → All IsUsable s'.routes
  unfolding scan_rows
  scan_rows-IsUsable [] s s' u e = ground arith
  scan_rows-IsUsable (t ∷ ts) s s' u e =
      let (next, row, row2) = interface_rows h s t in
      elim (Option-cases (row_route h t row row2)) [
        | inl p ↦ cc p
        | inr (rs, p) ↦
            scan_rows-IsUsable ts (record next { routes = next.routes ++ rs }) s'
              (All-append IsUsable next.routes rs (rw (interface_rows-routes s t) u)
                (row_route-IsUsable t row row2 rs p))
              (rw (p, scan_rows) at e)
      ]

  -- Every route that FindRoutes returns has a subnet, a metric that fits 32 bits, and an interface
  -- other than the program's own TUN device.
  pub find_routes-IsUsable :
      (table : Option (List ForwardRow)) (rs : List CustomRoute)
      → find_routes h table ≡ some rs
      → All IsUsable rs
  unfolding find_routes
  find_routes-IsUsable none rs e = ground arith
  find_routes-IsUsable (some ts) rs e =
      let empty : Scan = record { if_rows = []; ip_if_rows = []; routes = [] } in
      elim (Option-cases (scan_rows h ts empty)) [
        | inl p ↦ cc p
        | inr (s, p) ↦
            let same : s.routes ≡ rs = ground (arith, p) in
            rw same at (scan_rows-IsUsable ts empty s tt p)
      ]

  -- What holds of the routes of every row of a kind holds of all routes.
  pub direct_routes-All :
      (Q : ForwardRow → Type 0) (P : CustomRoute → Type 0)
      → ((t : ForwardRow) (rs : List CustomRoute)
          → Q t
          → row_route h t
              (asked t.interface_index)
              (h.ip_interface (asked t.interface_index).interface_luid)
            ≡ some rs
          → All P rs)
      → (ts : List ForwardRow) (routes : List CustomRoute) → All Q ts
      → direct_routes ts ≡ some routes
      → All P routes
  direct_routes-All Q P each [] routes q e = let same : [] ≡ routes = cc in subst (All P) same tt
  direct_routes-All Q P each (t ∷ ts) routes (q, qs) e =
      elim (Option-cases (
        row_route h t (asked t.interface_index)
          (h.ip_interface (asked t.interface_index).interface_luid))) [
            | inl bad ↦ cc (rw (bad, direct_routes) at e)
            | inr (rs, good) ↦ elim (Option-cases (direct_routes ts)) [
              | inl bad ↦ cc (rw (good, direct_routes, bad) at e)
              | inr (more, fine) ↦
                  let same : rs ++ more ≡ routes = cc (rw (good, direct_routes, fine) at e) in
                  subst (All P) same (
                    All-append P rs more (each t rs q good)
                      (direct_routes-All Q P each ts more qs fine))
            ]
          ]
