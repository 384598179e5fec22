-- ===== src/Policy/Evaluate/Allowed.antt =====
-- focus-core/src/policy.rs, evaluate_url: when an address is allowed, list by list.
use bloc_kuntu.Common.{◌≡◌, refl, ◌↔◌, true, false, Option, none, some, List, arith, All}
use bloc_kuntu.Common.Results.{ok, >>=-eq-ok}
use bloc_kuntu.Text.{Text}
use bloc_kuntu.Config.{RuleTier, RuleConfig}
use bloc_kuntu.Types.{DetoxTargetKind, BlockReason, Decision, DetoxSession}
use bloc_kuntu.Platform.{Platform}
use bloc_kuntu.Store.{id_member}
use bloc_kuntu.Policy.Matching.{NormalizedUrl, parse, site_rule_applies}
use bloc_kuntu.Policy.Activity.{
  Context, active_sessions, detox_loop, in_tier, covers_url, detox_block_for_url, matching_rules,
  rule_is_active, controlled_rule_is_active,
}
use bloc_kuntu.Policy.Evaluate.{
  evaluate_controlled_rule, controlled_rule_strictness, evaluate_parsed, evaluate_url,
}
use bloc_kuntu.Policy.Evaluate.Loops.{
  Passes, head?-none→All, All→head?-none, find-none→All, All→find-none, detox_loop-none→All,
  All→detox_loop-none, LetsPass, loop-none→All, All→loop-none, loop-Blocks, filters→All,
  All→filters, decision_of-allow, decide_in_order-allow, detox_result-none, rule_label-none,
}

module _ (p : Platform) (ctx : Context) (url : NormalizedUrl) where
  -- A list of the tier that is enabled and covers the address.
  abbrev pub HitsUrl : RuleTier → RuleConfig → Type 0
  HitsUrl tier =
      Passes (λ (r : RuleConfig). in_tier r.tier r.enabled tier) (λ r. site_rule_applies p r url)

  -- No Tier 1 list covers the address; the Detox sessions could be read and none names a Tier 2
  -- list that covers it; no Tier 2 list that covers it is active; and each Tier 3 list that
  -- covers it is known to be inactive, or active with an unlock or allowance in force.
  pub record AllowsUrl : Type 0 where
    pub no_hard : All (λ r. ¬ HitsUrl RuleTier.hard r) ctx.config.rules
    pub sessions : List DetoxSession
    pub sessions_read : active_sessions ctx ≡ ok sessions
    pub no_detox :
        All
          (λ (r : RuleConfig).
            covers_url p ctx url r ≡ true
            → All (λ (s : DetoxSession). id_member r.id s.site_rule_ids ≡ false) sessions)
          ctx.config.rules
    pub no_scheduled :
        All
          (λ r. HitsUrl RuleTier.scheduled_block r → rule_is_active p ctx r ≡ false)
          ctx.config.rules
    pub controlled_pass :
        All
          (λ r.
            HitsUrl RuleTier.controlled_access r
            → LetsPass
                (controlled_rule_is_active p ctx)
                (evaluate_controlled_rule p ctx)
                (controlled_rule_strictness p ctx url)
                r)
          ctx.config.rules

  allow→AllowsUrl : evaluate_parsed p ctx url ≡ Decision.allow → AllowsUrl
  unfolding evaluate_parsed matching_rules detox_block_for_url
  allow→AllowsUrl h =
      let (no_hard, no_detox, no_scheduled, passes) = decide_in_order-allow _ _ _ _ h in
      let (sessions, read, found) = >>=-eq-ok (active_sessions ctx) _ no_detox in
      let untouched : detox_loop (covers_url p ctx url) (λ r. r.id) (λ r. r.name)
            (λ s. s.site_rule_ids) sessions none ctx.config.rules
          ≡ none =
        detox_result-none DetoxTargetKind.site_rule _ (ground arith) in
      record {
        no_hard = head?-none→All _ _ ctx.config.rules (rule_label-none _ no_hard);
        sessions = sessions;
        sessions_read = read;
        no_detox =
            (detox_loop-none→All (covers_url p ctx url) (λ r. r.id) (λ r. r.name)
              (λ s. s.site_rule_ids) sessions ctx.config.rules none untouched).1;
        no_scheduled = find-none→All _ _ _ ctx.config.rules (rule_label-none _ no_scheduled);
        controlled_pass = filters→All _ _ _ ctx.config.rules (
            loop-none→All _ _ _ _ (
              decision_of-allow _
                (λ b e.
                  loop-Blocks _ _ (controlled_rule_strictness p ctx url) none (some b)
                    (matching_rules p ctx url RuleTier.controlled_access) tt e)
                passes));
      }

  AllowsUrl→allow : AllowsUrl → evaluate_parsed p ctx url ≡ Decision.allow
  unfolding evaluate_parsed matching_rules detox_block_for_url
  AllowsUrl→allow a = rw (
    All→head?-none _ _ ctx.config.rules a.no_hard,
    a.sessions_read,
    All→detox_loop-none (covers_url p ctx url) (λ r. r.id) (λ r. r.name) (λ s. s.site_rule_ids)
        a.sessions ctx.config.rules a.no_detox,
    All→find-none _ _ (rule_is_active p ctx) ctx.config.rules a.no_scheduled,
    All→loop-none (controlled_rule_is_active p ctx) (evaluate_controlled_rule p ctx)
        (controlled_rule_strictness p ctx url) _
        (All→filters _ _ _ ctx.config.rules a.controlled_pass),
  )

-- An address is allowed exactly when it parses and no list stands against it: no enabled Tier 1
-- list covers it; the Detox sessions could be read and none of them names an enabled Tier 2 list
-- that covers it; no Tier 2 list that covers it is active; and each Tier 3 list that covers it is
-- known to be inactive, or is active and its own evaluation allows.
pub evaluate_url-allow_iff :
    (p : Platform) (ctx : Context) (url : Text)
    → (evaluate_url p ctx url ≡ Decision.allow)
      ↔ ((parsed : NormalizedUrl) × (parse p url ≡ some parsed) × AllowsUrl p ctx parsed)
unfolding evaluate_url
evaluate_url-allow_iff p ctx url = (to (parse p url) refl, from)
  where
    to :
        (o : Option NormalizedUrl)
        → parse p url ≡ o
        → evaluate_url p ctx url ≡ Decision.allow
        → (parsed : NormalizedUrl) × (parse p url ≡ some parsed) × AllowsUrl p ctx parsed
    to none e h =
        let bad : Decision.block (BlockReason.invalid_url url) ≡ Decision.allow =
          rw (e, evaluate_url) at h in
        cc
    to (some parsed) e h = (parsed, e, allow→AllowsUrl p ctx parsed (rw (e, evaluate_url) at h))

    from :
        (parsed : NormalizedUrl) × (parse p url ≡ some parsed) × AllowsUrl p ctx parsed
        → evaluate_url p ctx url ≡ Decision.allow
    from (parsed, e, a) = rw (e, evaluate_url) (AllowsUrl→allow p ctx parsed a)
