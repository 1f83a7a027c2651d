-- ===== src/Device/Linux/Policy/Stages.antt =====
-- The kernel during Config.
use an_app.Base.{
  ℕ, ◌≡◌, ◌≢◌, ◌⊎◌, inl, inr, refl, sym, subst, ap, ◌∙◌, Bool, true, List, [], ◌∷◌, ◌++◌, Option,
  none, some, Option-cases, All, All-append,
}
use an_app.Net.{Ip, IpNet}
use an_app.Device.Linux.{
  Rule, eexist, other, Netlink, refused, main_rule, icmp_rule, tun_rule, source_rule,
}
use an_app.Device.Linux.Rules.{In, In-append_left, In-append_last, IsAdding}
use an_app.Device.Linux.Policy.{Packet, Found, IsPolicyRouting}

-- A table that leads to a link.
abbrev pub Leads : ℕ → Found → Type 0
Leads index f = (len : ℕ) × (f ≡ some (len, index))

-- The rules of Config.
abbrev pub config_rules : {K : Type 0} → Netlink K → Option IpNet → List Rule
config_rules net src = main_rule net ∷ icmp_rule net ∷ tun_rule net ∷ source_rule net src ∷ []

module _ {K : Type 0} (contains : IpNet → Ip → Bool) (net : Netlink K) (has : K → Rule → Type 0)
    (tables : K → Packet → ℕ → Found) (decide : K → Packet → Option ℕ)
    (rule_laws : IsAdding net has) (laws : IsPolicyRouting contains net has tables decide)
    (start : K) (p : Packet) where
  -- The rules so far are on the list and in the kernel, which has else only its own; table 200 has what
  -- is said of it, and the other tables are as they were.
  pub record Stage (T : Found → Type 0) (rules : List Rule) (l : List Rule) (k : K) : Type 0 where
    pub listed : l ≡ rules
    pub held : All (has k) rules
    pub known : (s : Rule) → has k s → has start s ⊎ In s rules
    pub others : (t : ℕ) → t ≢ 200 → tables k p t ≡ tables start p t
    pub own : T (tables k p 200)

  held_after :
      (k k' : K) (rules : List Rule)
      → ((s : Rule) → has k s → has k' s)
      → All (has k) rules
      → All (has k') rules
  held_after k k' [] f h = tt
  held_after k k' (s ∷ rules) f (h, hs) = (f s h, held_after k k' rules f hs)

  module _ (T : Found → Type 0) where
    adds_to :
        (l : List Rule) (k : K) (r : Rule) (rules : List Rule)
        → ((s : Rule) → has k s → has (net.rule_add k r).1 s)
        → has (net.rule_add k r).1 r
        → ((s : Rule) → has (net.rule_add k r).1 s → (s ≡ r) ⊎ has k s)
        → Stage T rules l k
        → Stage T (rules ++ (r ∷ [])) (l ++ (r ∷ [])) (net.rule_add k r).1
    adds_to l k r rules keeps mine only h = record {
      listed = ap (λ xs. xs ++ (r ∷ [])) h.listed;
      held =
          All-append (has (net.rule_add k r).1) rules (r ∷ [])
            (held_after k (net.rule_add k r).1 rules keeps h.held) (mine, tt);
      known = λ s a. elim (only s a) [
        | inl same ↦ inr (subst (λ x. In x (rules ++ (r ∷ []))) (sym same) (In-append_last r rules))
        | inr old ↦ elim (h.known s old) [
          | inl b ↦ inl b
          | inr b ↦ inr (In-append_left s rules (r ∷ []) b)
        ]
      ];
      others = λ t n. laws.rules_keep_tables k r p t ∙ h.others t n;
      own = subst T (sym (laws.rules_keep_tables k r p 200)) h.own;
    }

    pub add-Stage :
        (l : List Rule) (k : K) (r : Rule) (rules : List Rule)
        → refused (net.rule_add k r).0 ≡ none
        → Stage T rules l k
        → Stage T (rules ++ (r ∷ [])) (l ++ (r ∷ [])) (net.rule_add k r).1
    unfolding refused
    add-Stage l k r rules accepted h = elim (Option-cases (net.rule_add k r).0) [
      | inl e ↦
          adds_to l k r rules (λ s a. (rule_laws.added k r s e).1 (inr a))
            ((rule_laws.added k r r e).1 (inl refl)) (λ s a. (rule_laws.added k r s e).0 a) h
      | inr (eexist, e) ↦
          adds_to l k r rules (λ s a. (rule_laws.not_added k r s e).1 a)
            ((rule_laws.not_added k r r e).1 (laws.exists k r e))
            (λ s a. inr ((rule_laws.not_added k r s e).0 a)) h
      | inr (other n, e) ↦ cc (rw e at accepted)
    ]

  pub route-Stage :
      (rules : List Rule) (l : List Rule) (k : K) (index : ℕ) (n : IpNet)
      → (net.route_add k index (some n) 200).0 ≡ none
      → contains n p.dst ≡ true
      → Stage (λ f. f ≡ none) rules l k
      → Stage (Leads index) rules l (net.route_add k index (some n) 200).1
  route-Stage rules l k index n accepted inside h = record {
    listed = h.listed;
    held =
        held_after k (net.route_add k index (some n) 200).1 rules
          (λ s. (rule_laws.routed k index (some n) 200 s).1) h.held;
    known = λ s a. h.known s ((rule_laws.routed k index (some n) 200 s).0 a);
    others = λ t d. laws.routes_keep_others k index (some n) 200 t p d ∙ h.others t d;
    own = laws.route_found k index n 200 p accepted inside h.own;
  }
