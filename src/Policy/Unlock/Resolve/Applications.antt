-- ===== src/Policy/Unlock/Resolve/Applications.antt =====
-- focus-core/src/policy.rs, resolve_unlock_rules: lemmas on application lists.
use bloc_kuntu.Common.{
  ◌≡◌, sym, ◌⊎◌, inl, inr, Bool, true, ◌&&◌, ◌||◌, Option, none, some, List, [], ◌∷◌, arith,
  Bool-cases, All, Any, filter, All-map,
}
use bloc_kuntu.Common.Results.{ok, err, >>=-eq-ok}
use bloc_kuntu.Text.{Text}
use bloc_kuntu.Config.{RuleTier, tier_eq, RuleConfig, AppRuleConfig, Config}
use bloc_kuntu.Types.{Error, Fallible}
use bloc_kuntu.Platform.{Platform}
use mathlib.Core.Path.{subst}
use bloc_kuntu.Policy.Matching.{app_rule_target_matches}
use bloc_kuntu.Policy.Activity.{Context, in_tier, app_rule_is_active, controlled_app_rule_is_active}
use bloc_kuntu.Policy.Unlock.Resolve.{
  Resolved, unlock_rule_from_app, eligible_rules, push_eligible, resolve_named,
  resolve_controlled_app,
}

-- An enabled Tier 3 list, by its fields.
abbrev pub IsOpenable : RuleTier → Bool → Type 0
IsOpenable tier enabled = (tier ≡ RuleTier.controlled_access) × (enabled ≡ true)

-- The id is that of an enabled Tier 3 list of the policy.
abbrev pub IsControlled : Config → Text → Type 0
IsControlled config id =
    Any (λ (r : RuleConfig). (r.id ≡ id) × IsOpenable r.tier r.enabled) config.rules
    ⊎ Any (λ (r : AppRuleConfig). (r.id ≡ id) × IsOpenable r.tier r.enabled) config.app_rules

abbrev pub AppNamed : Text → AppRuleConfig → Type 0
AppNamed id r = (r.id ≡ id) × IsOpenable r.tier r.enabled

abbrev pub SiteNamed : Text → RuleConfig → Type 0
SiteNamed id r = (r.id ≡ id) × IsOpenable r.tier r.enabled

pub Any-of_filter :
    {A : Type 0} (P : A → Type 0) (test : A → Bool) (xs : List A)
    → Any P (filter test xs)
    → Any P xs
Any-of_filter P test [] h = h
Any-of_filter P test (x ∷ xs) h = elim (Bool-cases (test x)) [
  | inr e ↦ inr (Any-of_filter P test xs (rw (filter, e) at h))
  | inl e ↦
      let opened : Any P (x ∷ filter test xs) = rw (filter, e) at h in
      elim opened [ inl y ↦ inl y | inr y ↦ inr (Any-of_filter P test xs y) ]
]

pub unlock_rule_from_app-ok :
    (r : AppRuleConfig) (target : Text) (resolved : Resolved)
    → unlock_rule_from_app r target ≡ ok resolved
    → (resolved.id ≡ r.id) × (r.tier ≡ RuleTier.controlled_access)
unfolding unlock_rule_from_app
unlock_rule_from_app-ok r target resolved h = ground arith

pub ok-ne-err : {A : Type 0} {a : A} {e : Error} → Path (Fallible A) (ok a) (err e) → ⊥
ok-ne-err h = cc

pub ok-none-ne-some : {r : Resolved} → Path (Fallible (Option Resolved)) (ok none) (ok (some r)) → ⊥
ok-none-ne-some h = cc

pub ok-same_id :
    {a b : Resolved} → Path (Fallible (Option Resolved)) (ok (some a)) (ok (some b)) → a.id ≡ b.id
ok-same_id h = ground arith

pub ok-some-same : {a b : Resolved} → Path (Fallible Resolved) (ok a) (ok b) → a ≡ b
ok-some-same h = ground arith

module _ (p : Platform) (ctx : Context) where
  pub resolve_named-IsControlled :
      (target : Text) (rs : List AppRuleConfig) (resolved : Resolved)
      → resolve_named p ctx target rs ≡ ok resolved
      → Any (AppNamed resolved.id) rs
  unfolding resolve_named
  resolve_named-IsControlled target [] resolved h = absurd (ground arith)
  resolve_named-IsControlled target (r ∷ rs) resolved h =
      elim (Bool-cases
        (r.enabled && (tier_eq r.tier RuleTier.hard || app_rule_is_active p ctx r))) [
          | inl e ↦
              let (same_id, tiered) =
                unlock_rule_from_app-ok r target resolved (rw (resolve_named, e) at h) in
              inl (sym same_id, (tiered, ground arith))
          | inr e ↦ inr (resolve_named-IsControlled target rs resolved (rw (resolve_named, e) at h))
        ]

  pub resolve_controlled_app-IsControlled :
      (target : Text) (rs : List AppRuleConfig) (resolved : Resolved)
      → resolve_controlled_app p ctx target rs ≡ ok resolved
      → Any (AppNamed resolved.id) rs
  unfolding resolve_controlled_app
  resolve_controlled_app-IsControlled target [] resolved h = absurd (ground arith)
  resolve_controlled_app-IsControlled target (r ∷ rs) resolved h =
      elim (Bool-cases
        (in_tier r.tier r.enabled RuleTier.controlled_access && app_rule_target_matches r target)) [
          | inr e ↦ inr (
              resolve_controlled_app-IsControlled target rs resolved
                (rw (resolve_controlled_app, e) at h))
          | inl e ↦
              let opened = rw (resolve_controlled_app, e) at h in
              let (active, _, rest) = >>=-eq-ok (controlled_app_rule_is_active p ctx r) _ opened in
              elim (Bool-cases active) [
                | inr off ↦
                    inr (resolve_controlled_app-IsControlled target rs resolved (rw off at rest))
                | inl on ↦
                    let (same_id, tiered) =
                      unlock_rule_from_app-ok r target resolved (rw on at rest) in
                    inl (sym same_id, (tiered, ground arith))
              ]
        ]

  pub eligible_rules-IsControlled :
      (target : Text) (rs : List AppRuleConfig) (found : List Resolved)
      → eligible_rules p ctx target rs ≡ ok found
      → All (λ (f : Resolved). Any (AppNamed f.id) rs) found
  unfolding eligible_rules push_eligible
  eligible_rules-IsControlled target [] found h =
      let nothing : [] ≡ found = ground arith in
      subst (All (λ (f : Resolved). Any (AppNamed f.id) [])) nothing tt
  eligible_rules-IsControlled target (r ∷ rs) found h =
      let keep : (fs : List Resolved)
          → eligible_rules p ctx target rs ≡ ok fs
          → All (λ (f : Resolved). Any (AppNamed f.id) (r ∷ rs)) fs =
        λ fs e.
          All-map (λ (f : Resolved). Any (AppNamed f.id) rs)
            (λ (f : Resolved). Any (AppNamed f.id) (r ∷ rs)) (λ f h'. inr h') fs
            (eligible_rules-IsControlled target rs fs e) in
      elim (Bool-cases (in_tier r.tier r.enabled RuleTier.controlled_access)) [
        | inr e ↦ keep found (rw (eligible_rules, e) at h)
        | inl e ↦
            let opened = rw (eligible_rules, e) at h in
            let (active, _, rest) = >>=-eq-ok (controlled_app_rule_is_active p ctx r) _ opened in
            elim (Bool-cases active) [
              | inr off ↦ keep found (rw (push_eligible, off) at rest)
              | inl on ↦
                  let pushed = rw (push_eligible, on) at rest in
                  let (first, e₁, rest₁) = >>=-eq-ok (unlock_rule_from_app r target) _ pushed in
                  let (others, e₂, rest₂) = >>=-eq-ok (eligible_rules p ctx target rs) _ rest₁ in
                  let (same_id, tiered) = unlock_rule_from_app-ok r target first e₁ in
                  let same_list : first ∷ others ≡ found = ground arith in
                  subst (All (λ (f : Resolved). Any (AppNamed f.id) (r ∷ rs))) same_list
                    (inl (sym same_id, (tiered, ground arith)), keep others e₂)
            ]
      ]
