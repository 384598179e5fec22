-- ===== src/Policy/Evaluate/AllowedApp.antt =====
-- focus-core/src/policy.rs, evaluate_app: when a process is allowed, list by list.
use bloc_kuntu.Common.{◌≡◌, ◌↔◌, true, false, none, some, List, arith, All}
use bloc_kuntu.Common.Results.{ok, >>=-eq-ok}
use bloc_kuntu.Config.{RuleTier, AppRuleConfig}
use bloc_kuntu.Types.{DetoxTargetKind, Decision, DetoxSession, ProcessIdentity}
use bloc_kuntu.Platform.{Platform}
use bloc_kuntu.Store.{id_member}
use bloc_kuntu.Policy.Matching.{app_rule_applies}
use bloc_kuntu.Policy.Activity.{
  Context, active_sessions, detox_loop, in_tier, covers_process, detox_block_for_app,
  matching_app_rules, app_rule_is_active, controlled_app_rule_is_active,
}
use bloc_kuntu.Policy.Evaluate.{
  evaluate_controlled_app_rule, controlled_app_rule_strictness, evaluate_app,
}
use bloc_kuntu.Policy.Evaluate.Loops.{
  Passes, head?-none→All, All→head?-none, find-none→All, All→find-none, detox_loop-none→All,
  All→detox_loop-none, LetsPass, loop-none→All, All→loop-none, loop-Blocks, filters→All,
  All→filters, decision_of-allow, decide_in_order-allow, detox_result-none, app_rule_label-none,
}

module _ (p : Platform) (ctx : Context) (process : ProcessIdentity) where
  -- A list of the tier that is enabled and matches the process.
  abbrev pub HitsProcess : RuleTier → AppRuleConfig → Type 0
  HitsProcess tier =
      Passes (λ (r : AppRuleConfig). in_tier r.tier r.enabled tier)
        (λ r. app_rule_applies r process)

  -- No Tier 1 list matches the process; the Detox sessions could be read and none names a Tier 2
  -- list that matches it; no Tier 2 list that matches it is active; and each Tier 3 list that
  -- matches it is known to be inactive, or active with an unlock or allowance in force.
  pub record AllowsProcess : Type 0 where
    pub no_hard : All (λ r. ¬ HitsProcess RuleTier.hard r) ctx.config.app_rules
    pub sessions : List DetoxSession
    pub sessions_read : active_sessions ctx ≡ ok sessions
    pub no_detox :
        All
          (λ (r : AppRuleConfig).
            covers_process ctx process r ≡ true
            → All (λ (s : DetoxSession). id_member r.id s.app_rule_ids ≡ false) sessions)
          ctx.config.app_rules
    pub no_scheduled :
        All
          (λ r. HitsProcess RuleTier.scheduled_block r → app_rule_is_active p ctx r ≡ false)
          ctx.config.app_rules
    pub controlled_pass :
        All
          (λ r.
            HitsProcess RuleTier.controlled_access r
            → LetsPass
                (controlled_app_rule_is_active p ctx)
                (evaluate_controlled_app_rule p ctx)
                (controlled_app_rule_strictness p ctx)
                r)
          ctx.config.app_rules

  allow→AllowsProcess : evaluate_app p ctx process ≡ Decision.allow → AllowsProcess
  unfolding evaluate_app matching_app_rules detox_block_for_app
  allow→AllowsProcess h =
      let (no_hard, no_detox, no_scheduled, passes) = decide_in_order-allow _ _ _ _ h in
      let (sessions, read, found) = >>=-eq-ok (active_sessions ctx) _ no_detox in
      let untouched : detox_loop (covers_process ctx process) (λ r. r.id) (λ r. r.name)
            (λ s. s.app_rule_ids) sessions none ctx.config.app_rules
          ≡ none =
        detox_result-none DetoxTargetKind.app_rule _ (ground arith) in
      record {
        no_hard = head?-none→All _ _ ctx.config.app_rules (app_rule_label-none _ no_hard);
        sessions = sessions;
        sessions_read = read;
        no_detox =
            (detox_loop-none→All (covers_process ctx process) (λ r. r.id) (λ r. r.name)
              (λ s. s.app_rule_ids) sessions ctx.config.app_rules none untouched).1;
        no_scheduled =
            find-none→All _ _ _ ctx.config.app_rules (app_rule_label-none _ no_scheduled);
        controlled_pass = filters→All _ _ _ ctx.config.app_rules (
            loop-none→All _ _ _ _ (
              decision_of-allow _
                (λ b e.
                  loop-Blocks _ _ (controlled_app_rule_strictness p ctx) none (some b)
                    (matching_app_rules ctx process RuleTier.controlled_access) tt e)
                passes));
      }

  AllowsProcess→allow : AllowsProcess → evaluate_app p ctx process ≡ Decision.allow
  unfolding evaluate_app matching_app_rules detox_block_for_app
  AllowsProcess→allow a = rw (
    All→head?-none _ _ ctx.config.app_rules a.no_hard,
    a.sessions_read,
    All→detox_loop-none (covers_process ctx process) (λ r. r.id) (λ r. r.name) (λ s. s.app_rule_ids)
        a.sessions ctx.config.app_rules a.no_detox,
    All→find-none _ _ (app_rule_is_active p ctx) ctx.config.app_rules a.no_scheduled,
    All→loop-none (controlled_app_rule_is_active p ctx) (evaluate_controlled_app_rule p ctx)
        (controlled_app_rule_strictness p ctx) _
        (All→filters _ _ _ ctx.config.app_rules a.controlled_pass),
  )

-- A process is allowed exactly when no enabled Tier 1 application list matches it; the Detox
-- sessions could be read and none of them names an enabled Tier 2 list that matches it; no Tier 2
-- list that matches it is active; and each Tier 3 list that matches it is known to be inactive, or
-- is active and its own evaluation allows.
pub evaluate_app-allow_iff :
    (p : Platform) (ctx : Context) (process : ProcessIdentity)
    → (evaluate_app p ctx process ≡ Decision.allow) ↔ AllowsProcess p ctx process
evaluate_app-allow_iff p ctx process =
    (allow→AllowsProcess p ctx process, AllowsProcess→allow p ctx process)
