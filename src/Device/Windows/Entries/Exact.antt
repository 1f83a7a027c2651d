-- ===== src/Device/Windows/Entries/Exact.antt =====
-- Which routes addRouteEntry4 and addRouteEntry6 ask the system for.
use Prim.Native.String.{String}
use an_app.Base.{
  ℕ, ◌+◌, ◌≡◌, refl, ap, ◌∙◌, Bool, true, false, Bool-cases, List, [], ◌∷◌, none, some,
  Option-cases, inl, inr, if◌then◌else◌, arith,
}
use an_app.Script.{calls_of, run_complete}
use an_app.Device.Windows.Entries.{
  RouteData, RouteCalls, has_key, set_key, collect, route_steps, add_route_entry,
}

module _ {W P E : Type 0} (net : RouteCalls W P E) where
  abbrev pub count : P → List P → ℕ
  count p [] = 0
  count p (q ∷ qs) = let rest = count p qs in if net.same p q then rest + 1 else rest

  -- How often a destination has been asked for.
  abbrev pub requested : P → List (RouteData P) → ℕ
  requested p [] = 0
  requested p (r ∷ rs) =
      let rest = requested p rs in if net.same p r.destination then rest + 1 else rest

  -- Some item of a list stands for the prefix.
  abbrev pub listed : P → List String → Bool
  listed p [] = false
  listed p (item ∷ rest) =
      let below = listed p rest in
      elim (net.parse_prefix item) [ none ↦ below | some q ↦ if net.same p q then true else below ]

  abbrev pub all_parse : List String → Bool
  all_parse [] = true
  all_parse (item ∷ rest) =
      let below = all_parse rest in elim (net.parse_prefix item) [ none ↦ false | some q ↦ below ]

  abbrev pub once : Bool → ℕ
  once b = if b then 1 else 0

  -- No destination is twice among the keys.
  abbrev Distinct : List P → Type 0
  Distinct keys = (p : P) → count p keys ≡ once (has_key net p keys)

  module _ (same_eq : (a b : P) → net.same a b ≡ true → a ≡ b) where
    set_key-Distinct : (q : P) (keys : List P) → Distinct keys → Distinct (set_key net q keys)
    set_key-Distinct q keys h p = elim (Bool-cases (has_key net q keys)) [
      | inl old ↦ rw old (h p)
      | inr new ↦ elim (Bool-cases (net.same p q)) [
        | inl e ↦
            let none_yet : count p keys ≡ 0 =
              h p ∙ ap (λ t. once (has_key net t keys)) (same_eq p q e) ∙ ap once new in
            rw (new, e, none_yet) refl
        | inr e ↦ rw (new, e) (h p)
      ]
    ]

    has_key-set_key :
        (p q : P) (keys : List P)
        → has_key net p (set_key net q keys) ≡ (if net.same p q then true else has_key net p keys)
    has_key-set_key p q keys = elim (Bool-cases (has_key net q keys)) [
      | inl old ↦ elim (Bool-cases (net.same p q)) [
        | inl e ↦ rw (old, e) (ap (λ t. has_key net t keys) (same_eq p q e) ∙ old)
        | inr e ↦ rw (old, e) refl
      ]
      | inr new ↦ rw new refl
    ]

    -- What the first loop leaves.
    collect-Distinct :
        (items : List String) (keys found : List P)
        → Distinct keys
        → collect net items keys ≡ some found
        → Distinct found
          × ((p : P) → has_key net p found ≡ (if listed p items then true else has_key net p keys))
    unfolding collect
    collect-Distinct [] keys found h e =
        let is : found ≡ keys = cc in (λ p. rw is (h p), λ p. rw is refl)
    collect-Distinct (item ∷ rest) keys found h e = elim (Option-cases (net.parse_prefix item)) [
      | inl bad ↦ cc (rw (bad, collect) at e)
      | inr (q, good) ↦
          let (d, has) =
            collect-Distinct rest (set_key net q keys) found (set_key-Distinct q keys h)
              (rw (good, collect) at e) in
          (
            d,
            λ p.
                rw (good, listed)
                  (has p
                    ∙ ap (λ t. if listed p rest then true else t) (has_key-set_key p q keys)
                    ∙ ground (arith)),
          )
    ]

    requested-routes :
        (hop : String) (p : P) (keys : List P)
        → requested p (calls_of (route_steps net hop keys)) ≡ count p keys
    requested-routes hop p [] = refl
    requested-routes hop p (q ∷ qs) =
        ap (λ t. if net.same p q then t + 1 else t) (requested-routes hop p qs)

    -- When AddRoute fails for no item, every destination that the items stand for is asked for exactly
    -- once, however often it is listed, and no other.
    pub entries_once :
        (in_order : (w : W) (keys : List P) (p : P)
          → count p (net.in_map_order w keys) ≡ count p keys)
        → (hop : String) (items : List String) (w : W)
        → (add_route_entry net hop items w).err ≡ none
        → (p : P) → requested p (add_route_entry net hop items w).calls ≡ once (listed p items)
    unfolding add_route_entry
    entries_once in_order hop items w h p = elim (Option-cases (collect net items [])) [
      | inl bad ↦ cc (rw (bad, add_route_entry) at h)
      | inr (keys, good) ↦
          let (d, has) = collect-Distinct items [] keys (λ q. refl) good in
          let done =
            run_complete net.add_route (route_steps net hop (net.in_map_order w keys)) w
              (rw (good, add_route_entry) at h) in
          rw (good, add_route_entry, done)
            (requested-routes hop p (net.in_map_order w keys)
              ∙ in_order w keys p
              ∙ d p
              ∙ ap once (has p)
              ∙ ground (arith))
    ]
