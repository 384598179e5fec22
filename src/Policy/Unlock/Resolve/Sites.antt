-- ===== src/Policy/Unlock/Resolve/Sites.antt =====
-- focus-core/src/policy.rs, controlled_rule_for_unlock: lemmas on website lists.
use bloc_kuntu.Common.{
  ◌≡◌, refl, sym, ap, ◌∙◌, inl, inr, Option, none, some, List, [], ◌∷◌, arith, Bool-cases,
  Option-cases, All, Any, filter, find, head?, All-filter, Any-map,
}
use bloc_kuntu.Common.Results.{ok, >>=-eq-ok}
use bloc_kuntu.Text.{Text}
use bloc_kuntu.Config.{RuleTier, RuleConfig}
use bloc_kuntu.Types.{is_block}
use bloc_kuntu.Platform.{Platform}
use mathlib.Core.Path.{subst}
use bloc_kuntu.Policy.Matching.{site_rule_applies, NormalizedUrl, normalize_unlock_url_target}
use bloc_kuntu.Policy.Activity.{
  Context, in_tier, matching_rules, rule_is_active, controlled_rule_is_active,
}
use bloc_kuntu.Policy.Evaluate.{
  Strictness, beats, evaluate_controlled_rule, controlled_rule_strictness,
}
use bloc_kuntu.Policy.Unlock.Resolve.{
  Resolved, keep_stricter, unlock_loop, controlled_rule_for_unlock, resolve_url, resolve_target_url,
}
use bloc_kuntu.Policy.Unlock.Resolve.Applications.{
  IsOpenable, SiteNamed, ok-ne-err, ok-none-ne-some, ok-same_id,
}

module _ (p : Platform) (ctx : Context) where
  -- An entry of the loop over the Tier 3 lists, if there is one.
  abbrev OnEntry : (RuleConfig → Type 0) → Option (RuleConfig × Strictness) → Type 0
  OnEntry P none = Unit {0}
  OnEntry P (some (r, _)) = P r

  keep_stricter-OnEntry :
      (P : RuleConfig → Type 0) (r : RuleConfig) (s : Strictness)
      (best : Option (RuleConfig × Strictness))
      → P r
      → OnEntry P best
      → OnEntry P (keep_stricter p ctx r s best)
  keep_stricter-OnEntry P r s best h hb = elim (Bool-cases (beats best s)) [
    | inl e ↦ rw (keep_stricter, e) h
    | inr e ↦ rw (keep_stricter, e) hb
  ]

  unlock_loop-All :
      (P : RuleConfig → Type 0) (url : NormalizedUrl)
      (active blocking : Option (RuleConfig × Strictness)) (rs : List RuleConfig) (r : RuleConfig)
      → OnEntry P active
      → OnEntry P blocking
      → All P rs
      → unlock_loop p ctx url active blocking rs ≡ ok (some r)
      → P r
  unfolding unlock_loop
  unlock_loop-All P url none none [] r ha hb hs h = absurd (ground arith)
  unlock_loop-All P url (some (a, _)) none [] r ha hb hs h =
      let same_rule : a ≡ r = ground arith in subst P same_rule ha
  unlock_loop-All P url active (some (b, _)) [] r ha hb hs h =
      let same_rule : b ≡ r = ground arith in subst P same_rule hb
  unlock_loop-All P url active blocking (k ∷ rs) r ha hb (hk, hs) h =
      let (on, _, rest) = >>=-eq-ok (controlled_rule_is_active p ctx k) _ h in
      let s = controlled_rule_strictness p ctx url k in
      elim (Bool-cases on) [
        | inr off ↦ unlock_loop-All P url active blocking rs r ha hb hs (rw off at rest)
        | inl on' ↦ elim (Bool-cases (is_block (evaluate_controlled_rule p ctx k))) [
          | inl e ↦
              unlock_loop-All P url (keep_stricter p ctx k s active)
                (keep_stricter p ctx k s blocking) rs r (keep_stricter-OnEntry P k s active hk ha)
                (keep_stricter-OnEntry P k s blocking hk hb) hs (rw (on', e) at rest)
          | inr e ↦
              unlock_loop-All P url (keep_stricter p ctx k s active) blocking rs r
                (keep_stricter-OnEntry P k s active hk ha) hb hs (rw (on', e) at rest)
        ]
      ]

  OpenableSite : RuleConfig → Type 0
  OpenableSite r = Any (SiteNamed r.id) ctx.config.rules

  same_site :
      (r : RuleConfig) → IsOpenable r.tier r.enabled → (k : RuleConfig) → k ≡ r → SiteNamed r.id k
  same_site r (tiered, on) k e = (
    ap (λ (x : RuleConfig). x.id) e,
    (ap (λ (x : RuleConfig). x.tier) e ∙ tiered, ap (λ (x : RuleConfig). x.enabled) e ∙ on),
  )

  member-openable :
      (rs : List RuleConfig)
      → ((r : RuleConfig) → Any (λ k. k ≡ r) rs → IsOpenable r.tier r.enabled → OpenableSite r)
      → All OpenableSite
          (filter (λ (r : RuleConfig). in_tier r.tier r.enabled RuleTier.controlled_access) rs)
  member-openable [] up = tt
  member-openable (r ∷ rs) up =
      let rest = member-openable rs (λ k m o. up k (inr m) o) in
      elim (Bool-cases (in_tier r.tier r.enabled RuleTier.controlled_access)) [
        | inr e ↦ rw (filter, e) rest
        | inl e ↦ rw (filter, e) (up r (inl refl) (ground arith, ground arith), rest)
      ]

  matching-OpenableSite :
      (url : NormalizedUrl) → All OpenableSite (matching_rules p ctx url RuleTier.controlled_access)
  unfolding matching_rules OpenableSite
  matching-OpenableSite url =
      All-filter OpenableSite (λ r. site_rule_applies p r url) _
        (member-openable ctx.config.rules (λ r m o.
          Any-map (λ k. k ≡ r) (SiteNamed r.id) (λ k e. same_site r o k e) ctx.config.rules m))

  controlled_rule_for_unlock-OpenableSite :
      (url : NormalizedUrl) (r : RuleConfig)
      → controlled_rule_for_unlock p ctx url ≡ ok (some r)
      → OpenableSite r
  unfolding controlled_rule_for_unlock
  controlled_rule_for_unlock-OpenableSite url r h =
      unlock_loop-All OpenableSite url none none _ r tt tt (matching-OpenableSite url) h

  resolve_url-IsControlled :
      (url : NormalizedUrl) (resolved : Resolved)
      → resolve_url p ctx url ≡ ok (some resolved)
      → Any (SiteNamed resolved.id) ctx.config.rules
  unfolding resolve_url OpenableSite
  resolve_url-IsControlled url resolved h =
      elim (Option-cases (head? (matching_rules p ctx url RuleTier.hard))) [
        | inr (r, e) ↦ absurd (ok-ne-err (sym (rw (resolve_url, e) at h)))
        | inl e ↦
            elim (Option-cases
              (find (rule_is_active p ctx) (matching_rules p ctx url RuleTier.scheduled_block))) [
                | inr (r, e') ↦ absurd (ok-ne-err (sym (rw (resolve_url, e, e') at h)))
                | inl e' ↦
                    let opened = rw (resolve_url, e, e') at h in
                    let (found, read, rest) =
                      >>=-eq-ok (controlled_rule_for_unlock p ctx url) _ opened in
                    elim (Option-cases found) [
                      | inl none_found ↦ absurd (ok-none-ne-some (rw none_found at rest))
                      | inr (r, some_found) ↦
                          let same_id : r.id ≡ resolved.id = ok-same_id (rw some_found at rest) in
                          subst (λ id. Any (SiteNamed id) ctx.config.rules) same_id
                            (controlled_rule_for_unlock-OpenableSite url r
                              (read ∙ ap ok some_found))
                    ]
              ]
      ]

  pub resolve_target_url-IsControlled :
      (target : Text) (resolved : Resolved)
      → resolve_target_url p ctx target ≡ ok (some resolved)
      → Any (SiteNamed resolved.id) ctx.config.rules
  unfolding resolve_target_url
  resolve_target_url-IsControlled target resolved h =
      elim (Option-cases (normalize_unlock_url_target p target)) [
        | inl e ↦ absurd (ok-none-ne-some (rw (resolve_target_url, e) at h))
        | inr (url, e) ↦ resolve_url-IsControlled url resolved (rw (resolve_target_url, e) at h)
      ]
