-- ===== src/Routes/Windows/Changes.antt =====
-- model/route_windows.go: InitRoute, which registers FindRoutes for the changes that Windows announces.
-- The routes of the program stay nil until the first of them.
use Prim.Native.String.{String}
use an_app.Base.{
  ◌≡◌, refl, sym, subst, ◌∙◌, ◌⊎◌, inl, inr, Bool, List, [], ◌∷◌, Option, none, some, Option-cases,
}
use mathlib.Core.List.{Mem, not-mem-nil}
use an_app.Net.{Ip, IpNet}
use an_app.Routes.{CustomRoute, get_default_route, find_contain_route}
use an_app.Routes.Order.{Sorts}
use an_app.Routes.Select.{find_contain_route-total}
use an_app.Routes.Windows.{Host, ForwardRow, find_routes}
use an_app.Routes.Windows.Cache.{find_routes-IsUsable}
use an_app.Routes.Chosen.{usable-HasSubnets}

-- What Windows answers when a callback runs.
pub record Reading : Type 0 where
  pub host : Host
  pub table : Option (List ForwardRow)

-- Either callback: Routes = FindRoutes(). `none` is its panic.
unfoldable pub on_change : Reading → Option (List CustomRoute)
on_change x = find_routes x.host x.table

-- The program's routes after some changes.
unfoldable pub init_route : List CustomRoute → List Reading → Option (List CustomRoute)
init_route routes [] = some routes
init_route routes (x ∷ xs) = elim (on_change x) [ none ↦ none | some rs ↦ init_route rs xs ]

abbrev pub latest : List Reading → Option Reading
latest [] = none
latest (x ∷ []) = some x
latest (x ∷ y ∷ xs) = latest (y ∷ xs)

init_route_step :
    (before : List CustomRoute) (x : Reading) (xs : List Reading) (rs : List CustomRoute)
    → on_change x ≡ some rs
    → init_route before (x ∷ xs) ≡ init_route rs xs
unfolding init_route
init_route_step before x xs rs e = rw (e, init_route) refl

init_route_panics :
    (before : List CustomRoute) (x : Reading) (xs : List Reading)
    → on_change x ≡ none
    → init_route before (x ∷ xs) ≡ none
unfolding init_route
init_route_panics before x xs e = rw (e, init_route) refl

init_route-latest :
    (before : List CustomRoute) (x : Reading) (xs : List Reading) (routes : List CustomRoute)
    → init_route before (x ∷ xs) ≡ some routes
    → (y : Reading) × (latest (x ∷ xs) ≡ some y) × (find_routes y.host y.table ≡ some routes)
unfolding on_change init_route
init_route-latest before x [] routes e = elim (Option-cases (on_change x)) [
  | inl n ↦ cc (sym (init_route_panics before x [] n) ∙ e)
  | inr (rs, s) ↦ (x, refl, s ∙ sym (init_route_step before x [] rs s) ∙ e)
]
init_route-latest before x (y ∷ xs) routes e = elim (Option-cases (on_change x)) [
  | inl n ↦ cc (sym (init_route_panics before x (y ∷ xs) n) ∙ e)
  | inr (rs, s) ↦
      init_route-latest rs y xs routes (sym (init_route_step before x (y ∷ xs) rs s) ∙ e)
]

-- From the start, whatever changes Windows announces: unless a callback panics, the program's routes are
-- those of the last reading and FindContainRoute chooses one of them or the default route for every
-- destination; before the first announcement it is the default route for all.
pub chooses_from_latest :
    (contains : IpNet → Ip → Bool) (parse_cidr : String → Option (Ip × IpNet))
    (sort : (CustomRoute → CustomRoute → Bool) → List CustomRoute → List CustomRoute)
    (out_bound_ipv4 dest : Ip) (changes : List Reading) (routes : List CustomRoute)
    → Sorts sort
    → init_route [] changes ≡ some routes
    → (r : CustomRoute) × (find_contain_route contains parse_cidr sort out_bound_ipv4 dest routes
        ≡ some r)
      × ((r ≡ get_default_route parse_cidr out_bound_ipv4)
          ⊎ ((y : Reading) × (latest changes ≡ some y)
              × (find_routes y.host y.table ≡ some routes)
              × Mem r routes))
unfolding init_route
chooses_from_latest contains parse_cidr sort out_bound dest [] routes sorts e =
    let none_yet : routes ≡ [] = cc in
    let (r, chosen, from) =
      find_contain_route-total contains parse_cidr sort out_bound dest routes (rw none_yet tt)
        sorts in
    (
      r,
      chosen,
      elim from [ inl d ↦ inl d | inr m ↦ absurd (not-mem-nil (subst (Mem r) none_yet m)) ],
    )
chooses_from_latest contains parse_cidr sort out_bound dest (x ∷ xs) routes sorts e =
    let (y, last, read) = init_route-latest [] x xs routes e in
    let (r, chosen, from) =
      find_contain_route-total contains parse_cidr sort out_bound dest routes
        (usable-HasSubnets y.host routes (find_routes-IsUsable y.host y.table routes read)) sorts in
    (r, chosen, elim from [ inl d ↦ inl d | inr m ↦ inr (y, last, read, m) ])
