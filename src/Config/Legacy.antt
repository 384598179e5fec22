-- ===== src/Config/Legacy.antt =====
-- focus-core/src/config.rs: the repair of website allowlists of an older policy.
use bloc_kuntu.Common.{
  ◌≡◌, refl, ap, ◌≢◌, true, none, List, [], ◌∷◌, map, arith, if◌then◌else◌, All,
}
use bloc_kuntu.Config.{RuleTier, tier_eq, ListMode, mode_eq, RuleConfig, Config}

normalize_tier : RuleConfig → RuleConfig
normalize_tier rule =
    if tier_eq rule.tier RuleTier.hard
    then record rule { tier = RuleTier.scheduled_block }
    else rule

normalize_allowance : RuleConfig → RuleConfig
normalize_allowance rule =
    if tier_eq rule.tier RuleTier.scheduled_block then record rule { allowance_id = none } else rule

-- The body of the loop.
unfoldable pub normalize_legacy_rule : RuleConfig → RuleConfig
unfolding normalize_tier normalize_allowance
normalize_legacy_rule rule =
    if mode_eq rule.mode ListMode.allowlist
    then normalize_allowance (normalize_tier (record rule { enabled = true }))
    else rule

unfoldable pub normalize_legacy_website_allowlists : Config → Config
normalize_legacy_website_allowlists c = record c { rules = map normalize_legacy_rule c.rules }

-- What `validate` asks of a website allowlist's tier, switch and allowance.
pub record IsRepaired (rule : RuleConfig) : Type 0 where
  pub tiered : rule.mode ≡ ListMode.allowlist → rule.tier ≢ RuleTier.hard
  pub switched_on : rule.mode ≡ ListMode.allowlist → rule.enabled ≡ true
  pub strict_tier_unmetered :
      rule.mode ≡ ListMode.allowlist
      → rule.tier ≡ RuleTier.scheduled_block
      → rule.allowance_id ≡ none

normalize_legacy_rule-IsRepaired : (rule : RuleConfig) → IsRepaired (normalize_legacy_rule rule)
unfolding normalize_legacy_rule
normalize_legacy_rule-IsRepaired rule = ground arith

normalize_legacy_rule_same :
    (rule : RuleConfig) → IsRepaired rule → normalize_legacy_rule rule ≡ rule
unfolding normalize_legacy_rule
normalize_legacy_rule_same rule r = ground arith

All-IsRepaired : (rules : List RuleConfig) → All IsRepaired (map normalize_legacy_rule rules)
All-IsRepaired [] = tt
All-IsRepaired (r ∷ rs) = (normalize_legacy_rule-IsRepaired r, All-IsRepaired rs)

map_same :
    (rules : List RuleConfig) → All IsRepaired rules → map normalize_legacy_rule rules ≡ rules
map_same [] h = refl
map_same (r ∷ rs) (h, hs) = cc (normalize_legacy_rule_same r h, map_same rs hs)

-- After the repair no website allowlist is Tier 1 or switched off, and none of Tier 2 has an
-- allowance; a policy in which this already holds of every list is left as it is.
pub normalize_legacy_website_allowlists-IsRepaired :
    (c : Config)
    → All IsRepaired (normalize_legacy_website_allowlists c).rules
      × (All IsRepaired c.rules → normalize_legacy_website_allowlists c ≡ c)
unfolding normalize_legacy_website_allowlists
normalize_legacy_website_allowlists-IsRepaired c =
    (All-IsRepaired c.rules, λ h. ap (λ rs. record c { rules = rs }) (map_same c.rules h))
