-- ===== src/Policy/Evaluate.antt =====
-- focus-core/src/policy.rs: the decision on an address and on a process.
pub mod Strictest
pub mod Metered
pub mod Loops
pub mod Allowed
pub mod AllowedApp
pub mod FailClosed
use bloc_kuntu.Common.{
  ℕ, zero, suc, ◌+◌, ◌-◌, ◌*◌, ◌/◌, ◌%◌, ◌≤◌, ◌<◌, ◌≡◌, refl, ◌∙◌, ◌≢◌, ◌↔◌, ◌⊎◌, inl, inr, Bool,
  true, false, not, ◌&&◌, ◌||◌, Option, none, some, List, [], ◌∷◌, ◌++◌, map, arith, ltb, ◌==◌,
  if◌then◌else◌, lt→ltb, tests, Bool-cases, Option-cases, and-true, All, Any, filter, find, head?,
  max_by_key, sort_by, All-map, Any-map, All-Any,
}
use bloc_kuntu.Common.Results.{Result, ok, err, ◌>>=◌, ◌>>◌, >>=-eq-ok}
use bloc_kuntu.Text.{Text}
use bloc_kuntu.Config.{RuleTier, AllowanceConfig, RuleConfig, AppRuleConfig}
use bloc_kuntu.Types.{
  Error, Fallible, ControlledBlockReason, DetoxTargetKind, BlockReason, Decision, is_block,
  DetoxSession, UnlockState, ProcessIdentity,
}
use bloc_kuntu.Platform.{Platform}
use bloc_kuntu.Store.Unlocks.{active_unlock_for_rule}
use bloc_kuntu.Policy.Matching.{NormalizedUrl, parse, matched_pattern_specificity}
use bloc_kuntu.Policy.Activity.{
  Context, now_utc, detox_block_for_url, detox_block_for_app, matching_rules, matching_app_rules,
  rule_is_active, app_rule_is_active, controlled_rule_is_active, controlled_app_rule_is_active,
}
use bloc_kuntu.Policy.Usage.{
  find_allowance, allowance_minutes, used_seconds_for_site_rule_on_day,
  used_seconds_for_app_rule_today,
}

-- `ControlledRuleStrictness`
pub record Strictness : Type 0 where
  pub allowance_minutes : Option ℕ
  pub pattern_specificity : ℕ

stricter_allowance : Option ℕ → Option ℕ → Bool → Bool
stricter_allowance none (some right) tie = true
stricter_allowance (some left) none tie = false
stricter_allowance (some left) (some right) tie = if left == right then tie else ltb left right
stricter_allowance none none tie = tie

unfoldable pub is_stricter_than : Strictness → Strictness → Bool
unfolding stricter_allowance
is_stricter_than a b =
    stricter_allowance a.allowance_minutes b.allowance_minutes
      (ltb b.pattern_specificity a.pattern_specificity)

-- `.as_ref().map(|(_, current)| strictness.is_stricter_than(*current)).unwrap_or(true)`
abbrev pub beats {ℓ} : {A : Type ℓ} → Option (A × Strictness) → Strictness → Bool
beats none s = true
beats (some (_, current)) s = is_stricter_than s current

-- The loop over the matching Tier 3 lists. An error of the activity test ends it.
module _ {R : Type 0} (active : R → Fallible Bool) (evaluate : R → Decision)
    (strictness : R → Strictness) where
  unfoldable pub step_controlled :
      R → Option (Decision × Strictness) → Option (Decision × Strictness)
  step_controlled r best =
      let decision = evaluate r in
      if is_block decision && beats best (strictness r) then some (decision, strictness r) else best

  unfoldable pub controlled_loop :
      Option (Decision × Strictness) → List R → Fallible (Option (Decision × Strictness))
  controlled_loop best [] = ok best
  controlled_loop best (r ∷ rs) =
      let skipped = controlled_loop best rs in
      let taken = controlled_loop (step_controlled r best) rs in
      do on ← active r; if on then taken else skipped

abbrev pub runtime_error : Error → Decision
runtime_error e = Decision.block (BlockReason.runtime_error e)

-- `.map(|(decision, _)| decision).unwrap_or(Decision::Allow)`
abbrev pub decision_of : Fallible (Option (Decision × Strictness)) → Decision
decision_of (err e) = runtime_error e
decision_of (ok none) = Decision.allow
decision_of (ok (some (decision, _))) = decision

abbrev pub controlled_block : Text → Text → ControlledBlockReason → Decision
controlled_block id name reason = Decision.block (BlockReason.controlled_access id name reason)

module _ (p : Platform) (ctx : Context) where
  -- The comparison of the time used with the allowance.
  unfoldable pub within_allowance : Text → Text → ℕ → Fallible ℕ → Decision
  within_allowance id name daily_minutes (err e) = runtime_error e
  within_allowance id name daily_minutes (ok used_seconds) =
      if ltb used_seconds (daily_minutes * 60)
      then Decision.allow
      else controlled_block id name ControlledBlockReason.allowance_exhausted

  unfoldable pub by_allowance : Text → Text → Option Text → Fallible ℕ → Decision
  by_allowance id name none used = controlled_block id name ControlledBlockReason.no_allowance
  by_allowance id name (some allowance_id) used = elim (find_allowance p ctx allowance_id) [
    | none ↦ controlled_block id name ControlledBlockReason.no_allowance
    | some a ↦ within_allowance id name a.daily_minutes used
  ]

  -- `evaluate_controlled_rule_fields`; `used` is what the two kinds of list read.
  unfoldable pub evaluate_controlled_rule_fields : Text → Text → Option Text → Fallible ℕ → Decision
  evaluate_controlled_rule_fields id name allowance_id used =
      if ctx.clock_tampered
      then controlled_block id name ControlledBlockReason.unlock_required
      else elim (active_unlock_for_rule id (now_utc ctx) ctx.database) [
        | err e ↦ runtime_error e
        | ok (some unlock) ↦ Decision.allow
        | ok none ↦ by_allowance id name allowance_id used
      ]

  unfoldable pub evaluate_controlled_rule : RuleConfig → Decision
  evaluate_controlled_rule r =
      evaluate_controlled_rule_fields r.id r.name r.allowance_id
        (used_seconds_for_site_rule_on_day p ctx r)

  unfoldable pub evaluate_controlled_app_rule : AppRuleConfig → Decision
  evaluate_controlled_app_rule r =
      evaluate_controlled_rule_fields r.id r.name r.allowance_id
        (used_seconds_for_app_rule_today p ctx r.id)

  unfoldable pub controlled_rule_strictness : NormalizedUrl → RuleConfig → Strictness
  controlled_rule_strictness url r = record {
    allowance_minutes = allowance_minutes p ctx r.allowance_id;
    pattern_specificity = matched_pattern_specificity p r url;
  }

  unfoldable pub controlled_app_rule_strictness : AppRuleConfig → Strictness
  controlled_app_rule_strictness r = record {
    allowance_minutes = allowance_minutes p ctx r.allowance_id;
    pattern_specificity = 0;
  }

-- The order of the tests, over the parts that the two decisions compute: the matching Tier 1 list,
-- the Detox that blocks, the active Tier 2 list, and the Tier 3 loop.
abbrev pub decide_in_order :
    Option (Text × Text)
    → Fallible (Option BlockReason)
    → Option (Text × Text)
    → Fallible (Option (Decision × Strictness))
    → Decision
decide_in_order (some (id, name)) detox scheduled controlled =
    Decision.block (BlockReason.hard_block id name)
decide_in_order none (err e) scheduled controlled = runtime_error e
decide_in_order none (ok (some reason)) scheduled controlled = Decision.block reason
decide_in_order none (ok none) (some (id, name)) controlled =
    Decision.block (BlockReason.scheduled_block id name)
decide_in_order none (ok none) none controlled = decision_of controlled

abbrev pub rule_label : Option RuleConfig → Option (Text × Text)
rule_label none = none
rule_label (some r) = some (r.id, r.name)

abbrev pub app_rule_label : Option AppRuleConfig → Option (Text × Text)
app_rule_label none = none
app_rule_label (some r) = some (r.id, r.name)

module _ (p : Platform) (ctx : Context) where
  unfoldable pub evaluate_parsed : NormalizedUrl → Decision
  evaluate_parsed url =
      decide_in_order (rule_label (head? (matching_rules p ctx url RuleTier.hard)))
        (detox_block_for_url p ctx url)
        (rule_label
          (find (rule_is_active p ctx) (matching_rules p ctx url RuleTier.scheduled_block)))
        (controlled_loop (controlled_rule_is_active p ctx) (evaluate_controlled_rule p ctx)
          (controlled_rule_strictness p ctx url) none
          (matching_rules p ctx url RuleTier.controlled_access))

  unfoldable pub evaluate_url : Text → Decision
  evaluate_url url = elim (parse p url) [
    | none ↦ Decision.block (BlockReason.invalid_url url)
    | some parsed ↦ evaluate_parsed parsed
  ]

  unfoldable pub evaluate_app : ProcessIdentity → Decision
  evaluate_app process =
      decide_in_order (app_rule_label (head? (matching_app_rules ctx process RuleTier.hard)))
        (detox_block_for_app ctx process)
        (app_rule_label (
          find (app_rule_is_active p ctx)
            (matching_app_rules ctx process RuleTier.scheduled_block)))
        (controlled_loop (controlled_app_rule_is_active p ctx) (evaluate_controlled_app_rule p ctx)
          (controlled_app_rule_strictness p ctx) none
          (matching_app_rules ctx process RuleTier.controlled_access))
