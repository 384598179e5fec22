-- ===== src/Policy/Unlock/Resolve.antt =====
-- focus-core/src/policy.rs: the lists that the target of an unlock request names.
pub mod Applications
pub mod Sites
pub mod Targets
use bloc_kuntu.Common.{
  Bool, true, false, ◌&&◌, ◌||◌, Option, none, some, List, [], ◌∷◌, map, if◌then◌else◌, filter,
  find, head?, is_empty, max_by_key, filter_map,
}
use bloc_kuntu.Common.Results.{ok, err, ◌>>=◌}
use bloc_kuntu.Text.{Text, text_eq, trim}
use bloc_kuntu.Config.{RuleTier, tier_eq, RuleConfig, AppRuleConfig}
use bloc_kuntu.Types.{UnlockError, Error, Fallible, BlockReason, is_block, DetoxSession}
use bloc_kuntu.Platform.{Instant, Platform}
use bloc_kuntu.Store.{id_member}
use bloc_kuntu.Policy.Matching.{NormalizedUrl, normalize_unlock_url_target, app_rule_target_matches}
use bloc_kuntu.Policy.Activity.{
  Context, active_sessions, timestamp_micros, in_tier, detox_block_for_url, matching_rules,
  rule_is_active, app_rule_is_active, controlled_rule_is_active, controlled_app_rule_is_active,
}
use bloc_kuntu.Policy.Evaluate.{
  Strictness, beats, evaluate_controlled_rule, controlled_rule_strictness,
}

-- `ResolvedUnlockRule`
pub record Resolved : Type 0 where
  pub id : Text
  pub target : Text

abbrev fail : {A : Type 0} → UnlockError → Fallible A
fail e = err (Error.unlock e)

unfoldable pub unlock_rule_from_app : AppRuleConfig → Text → Fallible Resolved
unlock_rule_from_app r target = elim r.tier [
  | RuleTier.hard ↦ err (Error.unlock (UnlockError.target_is_hard_blocked r.id))
  | RuleTier.scheduled_block ↦ err (Error.unlock (UnlockError.target_is_scheduled_blocked r.id))
  | RuleTier.controlled_access ↦ ok (record { id = r.id; target = target })
]

module _ (p : Platform) (ctx : Context) where
  -- Names come before ids.
  unfoldable pub application_lists_for_unlock : Text → List AppRuleConfig
  application_lists_for_unlock target =
      let named =
        filter
          (λ (r : AppRuleConfig). text_eq (p.to_lowercase (trim r.name)) (p.to_lowercase target))
          ctx.config.app_rules in
      if is_empty named
      then filter (λ (r : AppRuleConfig). text_eq r.id target) ctx.config.app_rules
      else named

  push_eligible : Bool → Fallible Resolved → Fallible (List Resolved) → Fallible (List Resolved)
  push_eligible false resolved rest = rest
  push_eligible true resolved rest = do r ← resolved; others ← rest; ok (r ∷ others)

  -- The loop that collects `eligible`.
  unfoldable pub eligible_rules : Text → List AppRuleConfig → Fallible (List Resolved)
  unfolding push_eligible
  eligible_rules target [] = ok []
  eligible_rules target (r ∷ rs) =
      let rest = eligible_rules target rs in
      if in_tier r.tier r.enabled RuleTier.controlled_access
      then (do
        active ← controlled_app_rule_is_active p ctx r
        push_eligible active (unlock_rule_from_app r target) rest)
      else rest

  -- A Detox session that holds one of the lists: the first list it holds, its id and its end.
  session_hit : List Text → DetoxSession → Option (Text × Text × Instant)
  session_hit ids s = elim (find (λ id. id_member id s.app_rule_ids) ids) [
    | none ↦ none
    | some id ↦ some (id, s.id, s.ends_at)
  ]

  latest_hit : List Text → List DetoxSession → Option (Text × Text × Instant)
  latest_hit ids sessions =
      max_by_key (λ hit. timestamp_micros hit.2) (filter_map (session_hit ids) sessions)

  strict_ids : (AppRuleConfig → Bool) → List AppRuleConfig → List Text
  strict_ids test rules =
      map (λ (r : AppRuleConfig). r.id)
        (filter test
          (filter (λ (r : AppRuleConfig). in_tier r.tier r.enabled RuleTier.scheduled_block) rules))

  url_detox : Text → Fallible (Option BlockReason)
  url_detox target = elim (normalize_unlock_url_target p target) [
    | none ↦ ok none
    | some parsed ↦ detox_block_for_url p ctx parsed
  ]

  -- The part behind the address: a Detox over an application that the target itself matches.
  app_detox : Text → Option BlockReason → Fallible (Option (Text × Text × Instant))
  app_detox target (some (BlockReason.detox session name rule rule_name kind ends_at)) =
      ok (some (rule, session, ends_at))
  app_detox target other = do
    sessions ← active_sessions ctx
    ok (
        latest_hit
          (strict_ids (λ r. text_eq r.id target || app_rule_target_matches r target)
            ctx.config.app_rules)
          sessions)

  unfoldable pub active_detox_for_unlock_target : Text → Fallible (Option (Text × Text × Instant))
  unfolding app_detox url_detox latest_hit session_hit strict_ids
  active_detox_for_unlock_target target =
      let named = application_lists_for_unlock target in
      if is_empty named then (do reason ← url_detox target; app_detox target reason) else (do
        sessions ← active_sessions ctx
        ok (latest_hit (strict_ids (λ _. true) named) sessions))

  -- `controlled_rule_for_unlock`: the strictest active list, and the strictest that blocks.
  abbrev keep_stricter :
      RuleConfig → Strictness → Option (RuleConfig × Strictness) → Option (RuleConfig × Strictness)
  keep_stricter r s best = if beats best s then some (r, s) else best

  unlock_loop :
      NormalizedUrl
      → Option (RuleConfig × Strictness)
      → Option (RuleConfig × Strictness)
      → List RuleConfig
      → Fallible (Option RuleConfig)
  unlock_loop url active blocking [] = ok (elim blocking [
    | some (r, _) ↦ some r
    | none ↦ elim active [ none ↦ none | some (r, _) ↦ some r ]
  ])
  unlock_loop url active blocking (r ∷ rs) =
      let s = controlled_rule_strictness p ctx url r in
      let skipped = unlock_loop url active blocking rs in
      let taken =
        unlock_loop url (keep_stricter r s active)
          (if is_block (evaluate_controlled_rule p ctx r)
            then keep_stricter r s blocking
            else blocking)
          rs in
      do on ← controlled_rule_is_active p ctx r; if on then taken else skipped

  unfoldable pub controlled_rule_for_unlock : NormalizedUrl → Fallible (Option RuleConfig)
  unfolding unlock_loop
  controlled_rule_for_unlock url =
      unlock_loop url none none (matching_rules p ctx url RuleTier.controlled_access)

  -- The part of `resolve_unlock_rule` on a target that is an address.
  unfoldable pub resolve_url : NormalizedUrl → Fallible (Option Resolved)
  resolve_url url = elim (head? (matching_rules p ctx url RuleTier.hard)) [
    | some r ↦ err (Error.unlock (UnlockError.target_is_hard_blocked r.id))
    | none ↦
        elim (find (rule_is_active p ctx) (matching_rules p ctx url RuleTier.scheduled_block)) [
          | some r ↦ err (Error.unlock (UnlockError.target_is_scheduled_blocked r.id))
          | none ↦ do
            found ← controlled_rule_for_unlock url
            ok (elim found [
              | none ↦ none
              | some r ↦ some (record { id = r.id; target = url.url_without_fragment })
            ])
        ]
  ]

  unfoldable pub resolve_target_url : Text → Fallible (Option Resolved)
  resolve_target_url target = elim (normalize_unlock_url_target p target) [
    | none ↦ ok none
    | some url ↦ resolve_url url
  ]

  -- The loop over the named lists: the first that is on decides.
  unfoldable pub resolve_named : Text → List AppRuleConfig → Fallible Resolved
  resolve_named target [] = err (Error.unlock (UnlockError.unknown_target target))
  resolve_named target (r ∷ rs) =
      let rest = resolve_named target rs in
      if r.enabled && (tier_eq r.tier RuleTier.hard || app_rule_is_active p ctx r)
      then unlock_rule_from_app r target
      else rest

  -- The last loop: the first active Tier 3 list that the target matches.
  unfoldable pub resolve_controlled_app : Text → List AppRuleConfig → Fallible Resolved
  resolve_controlled_app target [] = err (Error.unlock (UnlockError.unknown_target target))
  resolve_controlled_app target (r ∷ rs) =
      let rest = resolve_controlled_app target rs in
      if in_tier r.tier r.enabled RuleTier.controlled_access && app_rule_target_matches r target
      then (do
        active ← controlled_app_rule_is_active p ctx r
        if active then unlock_rule_from_app r target else rest)
      else rest

  -- The part of `resolve_unlock_rule` on a target that is the value of a matcher.
  unfoldable pub resolve_matcher : Text → Fallible Resolved
  resolve_matcher target =
      elim (find (λ r. in_tier r.tier r.enabled RuleTier.hard && app_rule_target_matches r target)
        ctx.config.app_rules) [
          | some r ↦ err (Error.unlock (UnlockError.target_is_hard_blocked r.id))
          | none ↦
              elim (find
                (λ r.
                  in_tier r.tier r.enabled RuleTier.scheduled_block
                  && app_rule_is_active p ctx r
                  && app_rule_target_matches r target)
                ctx.config.app_rules) [
                  | some r ↦ err (Error.unlock (UnlockError.target_is_scheduled_blocked r.id))
                  | none ↦ resolve_controlled_app target ctx.config.app_rules
                ]
        ]

  unfoldable pub resolve_unlock_rule : Text → Fallible Resolved
  unfolding resolve_named resolve_target_url resolve_url resolve_matcher resolve_controlled_app
  resolve_unlock_rule target =
      let named = application_lists_for_unlock target in
      if is_empty named
      then (do
        by_url ← resolve_target_url target
        elim by_url [ some resolved ↦ ok resolved | none ↦ resolve_matcher target ])
      else resolve_named target named

  -- The part of `resolve_unlock_rules` behind the eligible lists.
  unfoldable pub resolve_single : Text → Option (Text × Text × Instant) → Fallible (List Resolved)
  resolve_single target (some (rule_id, session_id, ends_at)) =
      err (Error.unlock (UnlockError.target_in_active_detox rule_id session_id ends_at))
  resolve_single target none = do r ← resolve_unlock_rule target; ok (r ∷ [])

  unfoldable pub resolve_rest : Text → List Resolved → Fallible (List Resolved)
  resolve_rest target [] = do
    detox ← active_detox_for_unlock_target target
    resolve_single target detox
  resolve_rest target (r ∷ rs) = ok (r ∷ rs)

  unfoldable pub resolve_unlock_rules : Text → Fallible (List Resolved)
  resolve_unlock_rules target = do
    eligible ← eligible_rules target (application_lists_for_unlock target)
    resolve_rest target eligible
