-- ===== src/Policy/Metering.antt =====
-- focus-core/src/policy.rs: which list a visit is charged to, and which lists a process uses up.
use bloc_kuntu.Common.{
  ℕ, Bool, false, ◌&&◌, ◌||◌, Option, none, some, List, [], ◌∷◌, if◌then◌else◌, is_some, any,
}
use bloc_kuntu.Common.Results.{ok, err, ◌>>=◌}
use bloc_kuntu.Text.{Text}
use bloc_kuntu.Config.{RuleTier, RuleConfig, AppRuleConfig}
use bloc_kuntu.Types.{Error, Fallible, VisitState, ProcessIdentity}
use bloc_kuntu.Platform.{Platform}
use bloc_kuntu.Store.{Database}
use bloc_kuntu.Store.Visits.{insert_visit_start, update_visit_heartbeat, end_visit}
use bloc_kuntu.Policy.Matching.{NormalizedUrl, parse}
use bloc_kuntu.Policy.Activity.{
  Context, now_utc, detox_block_for_app, matching_rules, matching_app_rules, app_rule_is_active,
  controlled_rule_is_active, controlled_app_rule_is_active,
}
use bloc_kuntu.Policy.Usage.{allowance_minutes}
use bloc_kuntu.Policy.Evaluate.{Strictness, beats, controlled_rule_strictness}

-- `.unwrap_or(false)`
abbrev or_false : Fallible Bool → Bool
or_false (ok b) = b
or_false (err e) = false

abbrev Best : Type 0
Best = Option (RuleConfig × Strictness)

abbrev keep : RuleConfig → Strictness → Best → Best
keep r s best = if beats best s then some (r, s) else best

module _ (p : Platform) (ctx : Context) where
  -- The strictest active list with an allowance, or else the strictest active list.
  visit_loop : NormalizedUrl → Best → Best → List RuleConfig → Option RuleConfig
  visit_loop url metered active [] = elim metered [
    | some (r, _) ↦ some r
    | none ↦ elim active [ none ↦ none | some (r, _) ↦ some r ]
  ]
  visit_loop url metered active (r ∷ rs) =
      let on = or_false (controlled_rule_is_active p ctx r) in
      let s = controlled_rule_strictness p ctx url r in
      visit_loop url
        (if on && is_some (allowance_minutes p ctx r.allowance_id)
          then keep r s metered
          else metered)
        (if on then keep r s active else active) rs

  unfoldable pub visit_rule_for_url : NormalizedUrl → Option RuleConfig
  unfolding visit_loop
  visit_rule_for_url url =
      visit_loop url none none (matching_rules p ctx url RuleTier.controlled_access)

  unfoldable pub site_usage_is_metered : Text → Bool
  site_usage_is_metered url = elim (parse p url) [
    | none ↦ false
    | some parsed ↦ elim (visit_rule_for_url parsed) [
      | none ↦ false
      | some r ↦ is_some (allowance_minutes p ctx r.allowance_id)
    ]
  ]

  abbrev rule_id_of : Option RuleConfig → Option Text
  rule_id_of none = none
  rule_id_of (some r) = some r.id

  abbrev target_of : Option Text → Text → Text
  target_of none url = url
  target_of (some host) url = host

  unfoldable pub record_visit_start : Text → Text → Database × Fallible VisitState
  record_visit_start url tab_id = elim (parse p url) [
    | none ↦ (ctx.database, err Error.url)
    | some parsed ↦
        insert_visit_start (rule_id_of (visit_rule_for_url parsed)) (target_of parsed.host url) url
          tab_id (now_utc ctx) ctx.database
  ]

  unfoldable pub record_visit_heartbeat : ℕ → Database × Fallible (Unit {0})
  record_visit_heartbeat visit_id = update_visit_heartbeat visit_id (now_utc ctx) ctx.database

  unfoldable pub record_visit_end : ℕ → Database × Fallible (Unit {0})
  record_visit_end visit_id = end_visit visit_id (now_utc ctx) ctx.database

  -- The loop that collects `metered`.
  metered_loop : List AppRuleConfig → Fallible (List Text)
  metered_loop [] = ok []
  metered_loop (r ∷ rs) =
      let rest = metered_loop rs in
      do
        active ← controlled_app_rule_is_active p ctx r
        others ← rest
        ok (
            if active && is_some (allowance_minutes p ctx r.allowance_id)
            then r.id ∷ others
            else others)

  unfoldable pub metered_app_rule_ids_for_process : ProcessIdentity → Fallible (List Text)
  unfolding metered_loop
  metered_app_rule_ids_for_process process = do
    detox ← detox_block_for_app ctx process
    let strict =
        any (app_rule_is_active p ctx) (matching_app_rules ctx process RuleTier.scheduled_block)
    let hard = any (app_rule_is_active p ctx) (matching_app_rules ctx process RuleTier.hard)
    let rest = metered_loop (matching_app_rules ctx process RuleTier.controlled_access)
    (if is_some detox || strict || hard then ok [] else rest)
