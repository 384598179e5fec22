-- ===== src/Edits/Agreement.antt =====
-- focusd/src/rpc.rs, rule_is_active_at and app_rule_is_active_at against the engine's own tests.
use bloc_kuntu.Common.{◌≡◌, refl, inl, inr, false, Bool-cases}
use bloc_kuntu.Config.{RuleConfig, AppRuleConfig}
use bloc_kuntu.Platform.{Platform}
use bloc_kuntu.Config.{tier-cases}
use bloc_kuntu.Policy.Schedule.{window_is_active, schedule_is_active, schedule_id_is_active}
use bloc_kuntu.Policy.Schedule as Schedule
use bloc_kuntu.Policy.Activity.{
  Context, schedule_ids_are_active, rule_is_active, app_rule_is_active,
}
use bloc_kuntu.Edits.{
  schedule_is_active_at, schedule_ids_are_active_at, rule_is_active_at, app_rule_is_active_at,
}

-- While the clock does not count as tampered, the daemon's test of a website list is the engine's.
pub rule_is_active_at-agrees :
    (p : Platform) (ctx : Context) (r : RuleConfig)
    → ctx.clock_tampered ≡ false
    → rule_is_active_at p.chrono r ctx.config ctx.now ≡ rule_is_active p ctx r
unfolding rule_is_active_at rule_is_active schedule_ids_are_active_at schedule_is_active_at
    schedule_is_active window_is_active schedule_id_is_active Schedule.schedule_ids_are_active_at
    schedule_ids_are_active
rule_is_active_at-agrees p ctx r honest = elim (Bool-cases r.enabled) [
  | inr off ↦ rw off refl
  | inl on ↦ elim (tier-cases r.tier) [
    | inl hard ↦ rw (on, hard) refl
    | inr (inl scheduled) ↦ rw (on, scheduled, honest) refl
    | inr (inr controlled) ↦ rw (on, controlled, honest) refl
  ]
]

-- While the clock does not count as tampered, the daemon's test of an application list is the
-- engine's.
pub app_rule_is_active_at-agrees :
    (p : Platform) (ctx : Context) (r : AppRuleConfig)
    → ctx.clock_tampered ≡ false
    → app_rule_is_active_at p.chrono r ctx.config ctx.now ≡ app_rule_is_active p ctx r
unfolding app_rule_is_active_at app_rule_is_active schedule_ids_are_active_at schedule_is_active_at
    schedule_is_active window_is_active schedule_id_is_active Schedule.schedule_ids_are_active_at
    schedule_ids_are_active
app_rule_is_active_at-agrees p ctx r honest = elim (Bool-cases r.enabled) [
  | inr off ↦ rw off refl
  | inl on ↦ elim (tier-cases r.tier) [
    | inl hard ↦ rw (on, hard) refl
    | inr (inl scheduled) ↦ rw (on, scheduled, honest) refl
    | inr (inr controlled) ↦ rw (on, controlled, honest) refl
  ]
]
