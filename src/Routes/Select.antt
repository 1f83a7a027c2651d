-- ===== src/Routes/Select.antt =====
-- FindContainRoute: what it returns on every table.
use Prim.Native.String.{String}
use mathlib.Core.List.{
  Mem, Perm, mem-cons, not-mem-nil, mem-cons_self, mem-cons_of_mem, filter, mem-filter,
}
use mathlib.Core.Bool.{Bool-discrete, Bool-set}
use mathlib.Core.List.Perm
use mathlib.Core.Logic.Or
use an_app.Base.{
  ◌≡◌, refl, ◌⊎◌, inl, inr, ◌≤◌, ◌↔◌, of_All, subst, sym, Bool, true, false, List, [], ◌∷◌, Option,
  none, some, ◌==◌, All, arith, length, Bool-cases,
}
use an_app.Net.{Ip, IpNet}
use an_app.Routes.{CustomRoute, less, containing, get_default_route, first_or, find_contain_route}
use an_app.Routes.Order.{Ascending, Sorts, less-StrictWeak}

-- A table whose routes all have a subnet: what FindRoutes builds.
abbrev pub HasSubnets : List CustomRoute → Type 0
HasSubnets routes = All (λ r. (n : IpNet) × (r.subnet ≡ some n)) routes

-- The route's subnet holds the destination.
abbrev pub Holds : (IpNet → Ip → Bool) → Ip → CustomRoute → Type 0
Holds contains dest r = (n : IpNet) × (r.subnet ≡ some n) × (contains n dest ≡ true)

abbrev holds : (IpNet → Ip → Bool) → Ip → CustomRoute → Bool
holds contains dest r = elim r.subnet [ none ↦ false | some n ↦ contains n dest ]

module _ (contains : IpNet → Ip → Bool) (dest : Ip) where
  holds-Dec : (r : CustomRoute) → Dec (holds contains dest r ≡ true)
  holds-Dec r = Bool-discrete (holds contains dest r) true

  collect : List CustomRoute → List CustomRoute
  unfolding holds-Dec
  collect = filter holds-Dec

  containing-collect :
      (rs : List CustomRoute) → HasSubnets rs → containing contains dest rs ≡ some (collect rs)
  unfolding containing collect
  containing-collect [] h = refl
  containing-collect (r ∷ rs) h = ground (arith, containing-collect rs h.1)

  holds-Holds : (r : CustomRoute) → holds contains dest r ≡ true → Holds contains dest r
  holds-Holds r = go r.subnet
    where
      go :
          (s : Option IpNet)
          → (elim s [ none ↦ false | some n ↦ contains n dest ]) ≡ true
          → (n : IpNet) × (s ≡ some n) × (contains n dest ≡ true)
      go none e = cc
      go (some n) e = (n, refl, e)

  Holds-holds : (r : CustomRoute) → Holds contains dest r → holds contains dest r ≡ true
  Holds-holds r h = ground arith

  not_holds : (r : CustomRoute) → ¬ Holds contains dest r → holds contains dest r ≡ false
  not_holds r n = elim (Bool-cases (holds contains dest r)) [
    | inl e ↦ absurd (n (holds-Holds r e))
    | inr e ↦ e
  ]

  mem-collect :
      (r : CustomRoute) (rs : List CustomRoute)
      → Mem r (collect rs) ↔ (Mem r rs × (holds contains dest r ≡ true))
  unfolding collect
  mem-collect r rs = mem-filter holds-Dec

  collect-nil :
      (rs : List CustomRoute)
      → ((q : CustomRoute) → Mem q rs → holds contains dest q ≡ false)
      → collect rs ≡ []
  unfolding collect
  collect-nil [] h = refl
  collect-nil (r ∷ rs) h =
      ground (arith, h r mem-cons_self, collect-nil rs (λ q m. h q (mem-cons_of_mem r m)))

-- The first element of an ascending list that is not empty.
first_or-least :
    (d q : CustomRoute) (xs : List CustomRoute)
    → Ascending less xs
    → Mem q xs
    → Mem (first_or d xs) xs × ((p : CustomRoute) → Mem p xs → less p (first_or d xs) ≡ false)
unfolding first_or
first_or-least d q [] a m = absurd (not-mem-nil m)
first_or-least d q (x ∷ xs) a m = (
  mem-cons_self,
  λ p i.
      Or.elim (Bool-set _ _) (mem-cons.0 i)
        (λ e. subst (λ t. less t x ≡ false) (sym e) (less-StrictWeak.irrefl x))
        (of_All (λ b. less b x ≡ false) (λ b. Bool-set _ _) p xs a.0),
)

-- Not being less, in numbers.
not_less :
    (p r : CustomRoute)
    → less p r ≡ false
    → (p.bit_count ≤ r.bit_count) × (p.bit_count ≡ r.bit_count → r.metric ≤ p.metric)
unfolding less
not_less p r e = (ground arith, λ same. ground arith)

length-pos_of_mem {ℓ} : {A : Type ℓ} (a : A) (xs : List A) → Mem a xs → (length xs == 0) ≡ false
length-pos_of_mem a [] m = absurd (not-mem-nil m)
length-pos_of_mem a (x ∷ xs) m = ground arith

module _ (contains : IpNet → Ip → Bool) (parse_cidr : String → Option (Ip × IpNet))
    (sort : (CustomRoute → CustomRoute → Bool) → List CustomRoute → List CustomRoute)
    (out_bound_ipv4 : Ip) (dest : Ip) (routes : List CustomRoute)
    (subnets : HasSubnets routes) where
  -- If no route's subnet holds the destination, also on an empty table, the default route is
  -- returned: the interface named DEFAULT with the outbound address.
  pub find_contain_route-default :
      ((q : CustomRoute) → Mem q routes → ¬ Holds contains dest q)
      → find_contain_route contains parse_cidr sort out_bound_ipv4 dest routes
        ≡ some (get_default_route parse_cidr out_bound_ipv4)
  unfolding find_contain_route
  find_contain_route-default h =
      let nothing = collect-nil contains dest routes (λ q m. not_holds contains dest q (h q m)) in
      ground (arith, containing-collect contains dest routes subnets, nothing)

  -- If some route's subnet holds the destination, the route returned is one of the table, its
  -- subnet holds the destination, and no such route is better: none has a larger bit count, nor the
  -- same bit count and a smaller metric.
  pub find_contain_route-best :
      (sorts : Sorts sort) (q : CustomRoute)
      → Mem q routes
      → Holds contains dest q
      → (r : CustomRoute) × (find_contain_route contains parse_cidr sort out_bound_ipv4 dest routes
          ≡ some r)
        × Mem r routes
        × Holds contains dest r
        × ((p : CustomRoute)
            → Mem p routes
            → Holds contains dest p
            → (p.bit_count ≤ r.bit_count) × (p.bit_count ≡ r.bit_count → r.metric ≤ p.metric))
  unfolding find_contain_route
  find_contain_route-best sorts q m h =
      let chosen = collect contains dest routes in
      let ordered = sort less chosen in
      let default = get_default_route parse_cidr out_bound_ipv4 in
      let listed = mem-collect contains dest in
      let same : Perm ordered chosen = sorts.permutes less chosen in
      let mine = (listed q routes).1 (m, Holds-holds contains dest q h) in
      let least =
        first_or-least default q ordered (sorts.orders less chosen less-StrictWeak)
          ((Perm.mem_iff same).1 mine) in
      let found = (listed (first_or default ordered) routes).0 ((Perm.mem_iff same).0 least.0) in
      (
        first_or default ordered,
        rw (
          containing-collect contains dest routes subnets,
          length-pos_of_mem q routes m,
          length-pos_of_mem q chosen mine,
        ),
        found.0,
        holds-Holds contains dest (first_or default ordered) found.1,
        λ p i k. not_less p (first_or default ordered) (
            least.1 p
              ((Perm.mem_iff same).1 ((listed p routes).1 (i, Holds-holds contains dest p k)))),
      )

  -- A route is always returned: the default route or one of the table.
  pub find_contain_route-total :
      Sorts sort
      → (r : CustomRoute) × (find_contain_route contains parse_cidr sort out_bound_ipv4 dest routes
          ≡ some r)
        × ((r ≡ get_default_route parse_cidr out_bound_ipv4) ⊎ Mem r routes)
  unfolding find_contain_route
  find_contain_route-total sorts = go (collect contains dest routes) refl
    where
      go :
          (xs : List CustomRoute)
          → collect contains dest routes ≡ xs
          → (r : CustomRoute) × (find_contain_route contains parse_cidr sort out_bound_ipv4 dest
                routes
              ≡ some r)
            × ((r ≡ get_default_route parse_cidr out_bound_ipv4) ⊎ Mem r routes)
      go [] e = (
        get_default_route parse_cidr out_bound_ipv4,
        ground (arith, containing-collect contains dest routes subnets, e),
        inl refl,
      )
      go (x ∷ xs) e =
          let mine : Mem x (collect contains dest routes) = rw e mem-cons_self in
          let listed = (mem-collect contains dest x routes).0 mine in
          let (r, found, inside, _, _) =
            find_contain_route-best sorts x listed.0 (holds-Holds contains dest x listed.1) in
          (r, found, inr inside)
