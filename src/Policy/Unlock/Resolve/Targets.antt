-- ===== src/Policy/Unlock/Resolve/Targets.antt =====
-- focus-core/src/policy.rs, resolve_unlock_rules: what a target resolves to.
use bloc_kuntu.Common.{
  ◌≡◌, sym, ap, ◌∙◌, ◌≢◌, inl, inr, ◌&&◌, Option, none, some, List, [], ◌∷◌, arith, Bool-cases,
  Option-cases, All, Any, filter, find, is_empty, All-map,
}
use bloc_kuntu.Common.Results.{ok, >>=-eq-ok}
use bloc_kuntu.Text.{Text, text_eq, trim}
use bloc_kuntu.Config.{RuleTier, AppRuleConfig}
use bloc_kuntu.Platform.{Instant, Platform}
use mathlib.Core.Path.{subst}
use bloc_kuntu.Policy.Matching.{app_rule_target_matches}
use bloc_kuntu.Policy.Activity.{Context, in_tier, app_rule_is_active}
use bloc_kuntu.Policy.Unlock.Resolve.{
  Resolved, application_lists_for_unlock, eligible_rules, active_detox_for_unlock_target,
  resolve_target_url, resolve_matcher, resolve_unlock_rule, resolve_single, resolve_rest,
  resolve_unlock_rules,
}
use bloc_kuntu.Policy.Unlock.Resolve.Applications.{
  IsControlled, AppNamed, Any-of_filter, ok-ne-err, ok-some-same, resolve_named-IsControlled,
  resolve_controlled_app-IsControlled, eligible_rules-IsControlled,
}
use bloc_kuntu.Policy.Unlock.Resolve.Sites.{resolve_target_url-IsControlled}

module _ (p : Platform) (ctx : Context) where
  resolve_matcher-IsControlled :
      (target : Text) (resolved : Resolved)
      → resolve_matcher p ctx target ≡ ok resolved
      → Any (AppNamed resolved.id) ctx.config.app_rules
  unfolding resolve_matcher
  resolve_matcher-IsControlled target resolved h =
      elim (Option-cases (
        find (λ r. in_tier r.tier r.enabled RuleTier.hard && app_rule_target_matches r target)
          ctx.config.app_rules)) [
            | inr (r, e) ↦ absurd (ok-ne-err (sym (rw (resolve_matcher, e) at h)))
            | inl e ↦
                elim (Option-cases (
                  find
                    (λ r.
                      in_tier r.tier r.enabled RuleTier.scheduled_block
                      && app_rule_is_active p ctx r
                      && app_rule_target_matches r target)
                    ctx.config.app_rules)) [
                      | inr (r, e') ↦ absurd (ok-ne-err (sym (rw (resolve_matcher, e, e') at h)))
                      | inl e' ↦
                          resolve_controlled_app-IsControlled p ctx target ctx.config.app_rules
                            resolved (rw (resolve_matcher, e, e') at h)
                    ]
          ]

  named-AppNamed :
      (target id : Text)
      → Any (AppNamed id) (application_lists_for_unlock p ctx target)
      → Any (AppNamed id) ctx.config.app_rules
  unfolding application_lists_for_unlock
  named-AppNamed target id h =
      elim (Bool-cases (
        is_empty (
          filter
            (λ (r : AppRuleConfig). text_eq (p.to_lowercase (trim r.name)) (p.to_lowercase target))
            ctx.config.app_rules))) [
              | inl e ↦
                  Any-of_filter (AppNamed id) (λ (r : AppRuleConfig). text_eq r.id target)
                    ctx.config.app_rules (rw (application_lists_for_unlock, e) at h)
              | inr e ↦
                  Any-of_filter (AppNamed id) _ ctx.config.app_rules
                    (rw (application_lists_for_unlock, e) at h)
            ]

  resolve_unlock_rule-IsControlled :
      (target : Text) (resolved : Resolved)
      → resolve_unlock_rule p ctx target ≡ ok resolved
      → IsControlled ctx.config resolved.id
  unfolding resolve_unlock_rule
  resolve_unlock_rule-IsControlled target resolved h =
      elim (Bool-cases (is_empty (application_lists_for_unlock p ctx target))) [
        | inr e ↦ inr (
            named-AppNamed target resolved.id (
              resolve_named-IsControlled p ctx target _ resolved
                (rw (resolve_unlock_rule, e) at h)))
        | inl e ↦
            let opened = rw (resolve_unlock_rule, e) at h in
            let (by_url, read, rest) = >>=-eq-ok (resolve_target_url p ctx target) _ opened in
            elim (Option-cases by_url) [
              | inl missed ↦ inr (resolve_matcher-IsControlled target resolved (rw missed at rest))
              | inr (found, hit) ↦
                  let same_found : found ≡ resolved = ok-some-same (rw hit at rest) in
                  subst (λ (r : Resolved). IsControlled ctx.config r.id) same_found
                    (inl (resolve_target_url-IsControlled p ctx target found (read ∙ ap ok hit)))
            ]
      ]

  resolve_single-IsControlled :
      (target : Text) (detox : Option (Text × Text × Instant)) (rules : List Resolved)
      → resolve_single p ctx target detox ≡ ok rules
      → All (λ (r : Resolved). IsControlled ctx.config r.id) rules × (rules ≢ [])
  unfolding resolve_single
  resolve_single-IsControlled target (some (rule_id, session_id, ends_at)) rules h =
      absurd (ok-ne-err (sym h))
  resolve_single-IsControlled target none rules h =
      let (r, read, rest) = >>=-eq-ok (resolve_unlock_rule p ctx target) _ h in
      let same_list : r ∷ [] ≡ rules = ground arith in
      subst
        (λ (l : List Resolved). All (λ (r : Resolved). IsControlled ctx.config r.id) l × (l ≢ []))
        same_list ((resolve_unlock_rule-IsControlled target r read, tt), λ e. cc)

  resolve_rest-IsControlled :
      (target : Text) (eligible rules : List Resolved)
      → All (λ (r : Resolved). IsControlled ctx.config r.id) eligible
      → resolve_rest p ctx target eligible ≡ ok rules
      → All (λ (r : Resolved). IsControlled ctx.config r.id) rules × (rules ≢ [])
  unfolding resolve_rest resolve_single
  resolve_rest-IsControlled target (r ∷ rs) rules good h =
      let same_list : r ∷ rs ≡ rules = ground arith in
      subst
        (λ (l : List Resolved). All (λ (r : Resolved). IsControlled ctx.config r.id) l × (l ≢ []))
        same_list (good, λ e. cc)
  resolve_rest-IsControlled target [] rules good h =
      let (detox, read, rest) = >>=-eq-ok (active_detox_for_unlock_target p ctx target) _ h in
      resolve_single-IsControlled target detox rules rest

  -- What the target of an unlock request resolves to, when it does, is at least one list, and every
  -- one of them is an enabled Tier 3 list of the policy.
  pub resolve_unlock_rules-IsControlled :
      (target : Text) (rules : List Resolved)
      → resolve_unlock_rules p ctx target ≡ ok rules
      → All (λ (r : Resolved). IsControlled ctx.config r.id) rules × (rules ≢ [])
  unfolding resolve_unlock_rules
  resolve_unlock_rules-IsControlled target rules h =
      let (eligible, read, rest) =
        >>=-eq-ok (eligible_rules p ctx target (application_lists_for_unlock p ctx target)) _ h in
      resolve_rest-IsControlled target eligible rules
        (All-map _ (λ (r : Resolved). IsControlled ctx.config r.id)
          (λ (r : Resolved) m. inr (named-AppNamed target r.id m)) eligible
          (eligible_rules-IsControlled p ctx target _ eligible read))
        rest
