-- ===== src/Routes/Windows/Adapters/Walk.antt =====
-- An adapter without an address hides those behind it, and what that makes of their routes.
use an_app.Base.{
  ℕ, ◌≡◌, refl, sym, ap, ◌∙◌, false, List, [], ◌∷◌, ◌++◌, Option, none, some, All, ◌==◌, arith,
}
use an_app.Routes.{CustomRoute}
use an_app.Routes.Windows.{Host, ForwardRow, IfRow, count_bits, row_route, find_routes}
use an_app.Routes.Windows.Cache.{asked, Indexed, find_routes-direct, direct_routes-All}
use an_app.Routes.Windows.Adapters.{
  Sockaddr, inet4, other_family, unreadable, Adapter, IpMap, ip_at, visit, walk,
}

visit-cong :
    (s : Option Sockaddr) (i : ℕ) (m : IpMap) (f g : IpMap → Option IpMap)
    → ((m' : IpMap) → f m' ≡ g m')
    → visit s i m f ≡ visit s i m g
unfolding visit
visit-cong none i m f g h = refl
visit-cong (some (inet4 a b c d)) i m f g h = h _
visit-cong (some other_family) i m f g h = refl
visit-cong (some unreadable) i m f g h = h m

-- The walk never comes past an adapter without an address.
walk_stops :
    (front rest : List Adapter) (aa : Adapter) (m : IpMap)
    → aa.first_unicast ≡ none
    → walk (front ++ (aa ∷ rest)) m ≡ walk front m
unfolding walk visit
walk_stops [] rest aa m h = rw (h, visit) refl
walk_stops (a ∷ front) rest aa m h =
    visit-cong a.first_unicast a.if_index m _ _ (λ m'. walk_stops front rest aa m' h)

-- No adapter of a list is that of the index.
abbrev pub Lacks : ℕ → List Adapter → Type 0
Lacks i = All (λ a. (a.if_index == i) ≡ false)

visit-Lacks :
    (s : Option Sockaddr) (i j : ℕ) (m m' : IpMap) (f : IpMap → Option IpMap)
    → (j == i) ≡ false
    → ((n : IpMap) → f n ≡ some m' → ip_at i m' ≡ ip_at i n)
    → visit s j m f ≡ some m'
    → ip_at i m' ≡ ip_at i m
unfolding visit
visit-Lacks none i j m m' f d h e = let same : m ≡ m' = cc in ap (ip_at i) (sym same)
visit-Lacks (some (inet4 a b c d')) i j m m' f d h e = h _ e ∙ rw d refl
visit-Lacks (some other_family) i j m m' f d h e = cc
visit-Lacks (some unreadable) i j m m' f d h e = h m e

walk-Lacks :
    (i : ℕ) (list : List Adapter) (m m' : IpMap)
    → Lacks i list
    → walk list m ≡ some m'
    → ip_at i m' ≡ ip_at i m
unfolding walk
walk-Lacks i [] m m' l e = let same : m ≡ m' = cc in ap (ip_at i) (sym same)
walk-Lacks i (a ∷ list) m m' (d, l) e =
    visit-Lacks a.first_unicast i a.if_index m m' (walk list) d (λ n. walk-Lacks i list n m' l) e

row_route_without_ip :
    (h : Host) (i : ℕ) (t : ForwardRow) (row : IfRow) (row2 : Option ℕ) (rs : List CustomRoute)
    → (t.interface_index ≡ i → h.addresses row.interface_index ≡ [])
    → row_route h t row row2 ≡ some rs
    → All (λ r. r.if_index ≡ i → (r.ip ≡ []) × (r.bit_count ≡ 0)) rs
unfolding row_route count_bits
row_route_without_ip h i t row row2 rs none_here e = ground arith

-- Windows lists an adapter without an address before that of interface i: then, with one interface
-- index for each LUID, every route of interface i that FindRoutes returns has no IP, and the bit count
-- 0 of the default route, whatever address the interface has and however long its prefix is.
pub hidden_adapter_loses_ip :
    (h : Host) (index_of : ℕ → ℕ) (ts : List ForwardRow) (routes : List CustomRoute)
    (front rest : List Adapter) (aa : Adapter) (m : IpMap) (i : ℕ)
    → aa.first_unicast ≡ none
    → Lacks i front
    → walk (front ++ (aa ∷ rest)) [] ≡ some m
    → ((j : ℕ) → h.addresses j ≡ ip_at j m)
    → ((row : IfRow) → (h.gt_if_entry2 row).interface_index ≡ row.interface_index)
    → Indexed h index_of ts
    → find_routes h (some ts) ≡ some routes
    → All (λ r. r.if_index ≡ i → (r.ip ≡ []) × (r.bit_count ≡ 0)) routes
hidden_adapter_loses_ip h index_of ts routes front rest aa m i bare lacks walked reads fills indexed
      found =
    let m_front = sym (walk_stops front rest aa [] bare) ∙ walked in
    let lost : h.addresses i ≡ [] = reads i ∙ walk-Lacks i front [] m lacks m_front in
    direct_routes-All h (λ t. t.interface_index ≡ index_of t.interface_luid) _
      (λ t rs q e.
        row_route_without_ip h i t (asked h t.interface_index) _ rs
          (λ same. ap h.addresses (fills _ ∙ same) ∙ lost) e)
      ts routes indexed (sym (find_routes-direct h index_of ts indexed) ∙ found)
