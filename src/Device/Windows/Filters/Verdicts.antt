-- ===== src/Device/Windows/Filters/Verdicts.antt =====
-- What the filters let through.
use Prim.Native.String.{String}
use an_app.Base.{
  ℕ, ◌<◌, ◌≡◌, ap, ◌∙◌, Bool, true, false, not, ◌&&◌, List, [], ◌∷◌, ◌++◌, none, if◌then◌else◌,
  ◌==◌, All, Bool-cases, Option-cases, inl, inr, arith,
}
use an_app.Script.{Sys, Ran, run, run_complete}
use an_app.Device.Windows.Filters.{
  Condition, app_is, local_interface_is, remote_port_is, Verdict, permit, block, Filter, FwpCall,
  engine_open, generate_guid, sub_layer_add, get_current_process_app_id, filter_add,
  interface_by_name, free_app_id, permit_filter, tun_filter, block_dns_filter, session_steps,
  filter_steps, free_after, config_fwp,
}

-- An outgoing IPv4 connection.
pub record Connection : Type 0 where
  pub app : ℕ
  pub local_interface : ℕ
  pub remote_port : ℕ

abbrev pub holds : Condition → Connection → Bool
holds (app_is a) c = c.app == a
holds (local_interface_is i) c = c.local_interface == i
holds (remote_port_is p) c = c.remote_port == p

abbrev pub matches : Filter → Connection → Bool
matches f c = holds f.condition c

-- The filters that some calls have added.
abbrev pub added : List FwpCall → List Filter
added [] = []
added (engine_open ∷ cs) = added cs
added (generate_guid ∷ cs) = added cs
added (sub_layer_add w ∷ cs) = added cs
added (get_current_process_app_id ∷ cs) = added cs
added (filter_add f ∷ cs) = f ∷ added cs
added (interface_by_name n ∷ cs) = added cs
added (free_app_id ∷ cs) = added cs

-- The platform's arbitration in a sub-layer: of the filters that match, the one of the largest weight
-- decides, and a connection that none matches is let through.
pub record IsArbiter (decide : List Filter → Connection → Verdict) : Type 0 where
  pub winner :
      (front rest : List Filter) (f : Filter) (c : Connection)
      → matches f c ≡ true
      → All (λ g. matches g c ≡ true → g.weight < f.weight) (front ++ rest)
      → decide (front ++ (f ∷ rest)) c ≡ f.action
  pub nobody :
      (fs : List Filter) (c : Connection) → All (λ g. matches g c ≡ false) fs → decide fs c ≡ permit

-- A run that does not panic has added the three filters.
config_fwp-added :
    {W E : Type 0} (sys : Sys W FwpCall E) (name : String) (app index : ℕ) (w : W)
    → (config_fwp sys name app index w).err ≡ none
    → added (config_fwp sys name app index w).calls
      ≡ permit_filter app ∷ tun_filter index ∷ block_dns_filter ∷ []
unfolding config_fwp free_after
config_fwp-added {W} {E} sys name app index w h =
    let begun : Ran W FwpCall E = run sys session_steps none w in
    elim (Option-cases begun.err) [
      | inr (e, bad) ↦ cc (rw (bad, config_fwp) at h)
      | inl good ↦
          let filters : Ran W FwpCall E = run sys (filter_steps name app index) none begun.world in
          let session_done = run_complete sys session_steps w good in
          let filters_done =
            run_complete sys (filter_steps name app index) begun.world
              (rw (good, config_fwp) at h) in
          rw (good, config_fwp, session_done, filters_done)
    ]

-- What the three filters decide.
abbrev pub allowed : ℕ → ℕ → Connection → Verdict
allowed app index c =
    if c.remote_port == 53 && not (c.app == app) && not (c.local_interface == index)
    then block
    else permit

three_decide :
    (decide : List Filter → Connection → Verdict)
    → IsArbiter decide
    → (app index : ℕ) (c : Connection)
    → decide (permit_filter app ∷ tun_filter index ∷ block_dns_filter ∷ []) c ≡ allowed app index c
three_decide decide laws app index c = elim (Bool-cases (c.app == app)) [
  | inl own ↦
      laws.winner [] (tun_filter index ∷ block_dns_filter ∷ []) (permit_filter app) c own
        ((λ _. omega arith), ((λ _. omega arith), tt))
      ∙ (ground (arith, own))
  | inr foreign ↦ elim (Bool-cases (c.local_interface == index)) [
    | inl inside ↦
        laws.winner (permit_filter app ∷ []) (block_dns_filter ∷ []) (tun_filter index) c inside
          ((λ e. cc), ((λ _. omega arith), tt))
        ∙ (ground (arith, inside))
    | inr outside ↦ elim (Bool-cases (c.remote_port == 53)) [
      | inl dns ↦
          laws.winner (permit_filter app ∷ tun_filter index ∷ []) [] block_dns_filter c dns
            ((λ e. cc), ((λ e. cc), tt))
          ∙ (ground (arith, foreign, outside, dns))
      | inr other ↦
          laws.nobody (permit_filter app ∷ tun_filter index ∷ block_dns_filter ∷ []) c
            (foreign, (outside, (other, tt)))
          ∙ (ground (arith, other))
    ]
  ]
]

-- When configFwp returns without a panic, the platform that arbitrates by weight blocks exactly the
-- outgoing IPv4 connections to port 53 that are neither of this process nor made from the TUN's
-- interface, whatever the platform's answers are, and every other connection is let through by the
-- filters of this sub-layer.
pub config_fwp_blocks_dns :
    {W E : Type 0} (sys : Sys W FwpCall E) (decide : List Filter → Connection → Verdict)
    → IsArbiter decide
    → (name : String) (app index : ℕ) (w : W) (c : Connection)
    → (config_fwp sys name app index w).err ≡ none
    → decide (added (config_fwp sys name app index w).calls) c ≡ allowed app index c
config_fwp_blocks_dns sys decide laws name app index w c h =
    ap (λ fs. decide fs c) (config_fwp-added sys name app index w h)
    ∙ three_decide decide laws app index c
