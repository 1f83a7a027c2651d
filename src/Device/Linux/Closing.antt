-- ===== src/Device/Linux/Closing.antt =====
-- device/device_linux.go, Close: the policy rules that it deletes after Config. RuleDel's errors are
-- dropped.
use Prim.Native.String.{String}
use an_app.Base.{◌≡◌, ◌∙◌, sym, subst, inl, inr, List, [], ◌∷◌, some, Option-cases}
use an_app.Device.Linux.{Rule, Errno, Netlink, Device, delete_rules, close}
use an_app.Device.Linux.Rules.{IsRuleTable}

delete_fails :
    {K : Type 0} (net : Netlink K) (has : K → Rule → Type 0)
    → IsRuleTable net has
    → (s : Rule) → ((k : K) → (e : Errno) × ((net.rule_del k s).0 ≡ some e))
    → (rules : List Rule) (k : K) → has k s
    → has (delete_rules net rules k) s
unfolding delete_rules
delete_fails net has laws s fails [] k h = h
delete_fails net has laws s fails (r ∷ rules) k h =
    delete_fails net has laws s fails rules (net.rule_del k r).1 kept
  where
    kept : has (net.rule_del k r).1 s
    kept = elim (Option-cases (net.rule_del k r).0) [
      | inr (x, e) ↦ (laws.not_deleted k r s e).1 h
      | inl e ↦ (laws.deleted k r s e).1 (
        h,
        λ same.
            let (x, bad) = fails k in
            cc (sym e ∙ subst (λ q. (net.rule_del k q).0 ≡ some x) same bad),
      )
    ]

-- A rule that RuleDel always refuses is still there after Close, whose caller does not hear of it.
pub refused_rule_stays :
    {K : Type 0} (net : Netlink K) (has : K → Rule → Type 0) (d : Device K) (s : Rule)
    → IsRuleTable net has
    → ((k : K) → (e : Errno) × ((net.rule_del k s).0 ≡ some e))
    → has d.kernel s
    → has (close net d).kernel s
unfolding close
refused_rule_stays net has d s laws fails h =
    delete_fails net has laws s fails d.rule_list d.kernel h
