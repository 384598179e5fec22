-- ===== src/Config/Validate/Sound.antt =====
-- focus-core/src/config.rs, Config::validate: what single checks establish.
use bloc_kuntu.Common.{
  ℕ, ◌+◌, ◌≤◌, ◌≡◌, ◌∙◌, ◌≢◌, inl, inr, Bool, true, false, Option, none, some, List, [], ◌∷◌, arith,
  if◌then◌else◌, Bool-cases, All, Any, is_empty, any→Any, Any-map,
}
use bloc_kuntu.Common.Results.{ok, for_each}
use bloc_kuntu.Text.{Text, text_eq, trim}
use bloc_kuntu.Config.{RuleTier, ListMode, RuleConfig, AppRuleConfig}
use bloc_kuntu.Text.Laws.{text_eq_iff}
use bloc_kuntu.Platform.{Platform}
use bloc_kuntu.Config.Validate.{
  Label, rule, app_rule, Links, KnownIds, require_identifier, has_id, ensure_unique_from,
  ensure_unique_ids, validate_pattern, validate_app_matcher, link_allowance, validate_allowlist,
  validate_tier, validate_schedule_ids, validate_rule, validate_app_rule,
}

-- How often an id stands in a list.
abbrev pub occurrences : Text → List Text → ℕ
occurrences a [] = 0
occurrences a (x ∷ xs) = (if text_eq x a then 1 else 0) + occurrences a xs

ensure_unique_from-occurrences :
    (label : Label) (seen ids : List Text)
    → ensure_unique_from label seen ids ≡ ok tt
    → (a : Text) → (occurrences a ids ≤ 1) × (has_id a seen ≡ true → occurrences a ids ≡ 0)
unfolding ensure_unique_from
ensure_unique_from-occurrences label seen [] h a = omega arith
ensure_unique_from-occurrences label seen (id ∷ ids) h a =
    let fresh : has_id id seen ≡ false = ground arith in
    let ih =
      ensure_unique_from-occurrences label (id ∷ seen) ids
        (ground (arith, require_identifier label id)) a in
    elim (Bool-cases (text_eq id a)) [
      | inl e ↦
          let same_id : id ≡ a = (text_eq_iff id a).0 e in
          let unseen : has_id a seen ≡ false = rw (← same_id) fresh in ground (arith, e, ih, unseen)
      | inr e ↦ ground (arith, e, ih)
    ]

pub ensure_unique_ids-occurrences :
    (label : Label) (ids : List Text)
    → ensure_unique_ids label ids ≡ ok tt
    → (a : Text) → occurrences a ids ≤ 1
unfolding ensure_unique_ids
ensure_unique_ids-occurrences label ids h a = (ensure_unique_from-occurrences label [] ids h a).0

has_id→Any : (a : Text) (ids : List Text) → has_id a ids ≡ true → Any (λ k. k ≡ a) ids
has_id→Any a ids h =
    Any-map (λ k. text_eq k a ≡ true) (λ k. k ≡ a) (λ k. (text_eq_iff k a).0) ids
      (any→Any (λ k. text_eq k a) ids h)

pub has_id-false : (a : Text) (ids : List Text) → has_id a ids ≡ false → ¬ Any (λ k. k ≡ a) ids
has_id-false a [] h q = elim q [ ]
has_id-false a (k ∷ ids) h (inl e) = ground (arith, text_eq_iff k a)
has_id-false a (k ∷ ids) h (inr q) = has_id-false a ids (ground arith) q

-- What is asked of a website list and of an application list alike.
pub record IsValidList (known : KnownIds) (id name : Text) (tier : RuleTier) (enabled : Bool)
    (mode : ListMode) (schedule_ids : List Text) (allowance_id : Option Text) : Type 0 where
  pub identified : (trim id ≡ id) × (id ≢ [])
  pub named : trim name ≢ []
  pub schedules_known : All (λ s. Any (λ k. k ≡ s) known.schedule_ids) schedule_ids
  pub allowance_known : (a : Text) → allowance_id ≡ some a → Any (λ k. k ≡ a) known.allowance_ids
  pub metered_tier : (a : Text) → allowance_id ≡ some a → tier ≡ RuleTier.controlled_access
  pub allowlist_tier : mode ≡ ListMode.allowlist → tier ≢ RuleTier.hard
  pub allowlist_on : mode ≡ ListMode.allowlist → enabled ≡ true

pub is_empty-false : (s : Text) → is_empty s ≡ false → s ≢ []
is_empty-false [] h e = cc
is_empty-false (c ∷ s) h e = cc

identifier_facts :
    (label : Label) (id : Text) → require_identifier label id ≡ ok tt → (trim id ≡ id) × (id ≢ [])
unfolding require_identifier
identifier_facts label id h =
    let kept : trim id ≡ id = (text_eq_iff (trim id) id).0 (ground arith) in
    let full : trim id ≢ [] = is_empty-false (trim id) (ground arith) in
    (kept, λ e. full (kept ∙ e))

schedules_known_facts :
    (label : Label) (id : Text) (known ids : List Text)
    → validate_schedule_ids label id known ids ≡ ok tt
    → All (λ s. Any (λ k. k ≡ s) known) ids
unfolding validate_schedule_ids
schedules_known_facts label id known [] h = tt
schedules_known_facts label id known (s ∷ ids) h =
    (has_id→Any s known (ground arith), schedules_known_facts label id known ids (ground arith))

allowance_known_facts :
    (label : Label) (known : List Text) (id : Text) (o : Option Text) (links links' : Links)
    → link_allowance label known id o links ≡ ok links'
    → (a : Text) → o ≡ some a
    → Any (λ k. k ≡ a) known
unfolding link_allowance
allowance_known_facts label known id none links links' h a e = cc
allowance_known_facts label known id (some b) links links' h a e = has_id→Any a known (ground arith)

tier_facts :
    (label : Label) (id : Text) (tier : RuleTier) (o : Option Text)
    → validate_tier label id tier o ≡ ok tt
    → (a : Text) → o ≡ some a
    → tier ≡ RuleTier.controlled_access
unfolding validate_tier
tier_facts label id tier o h a e = ground arith

allowlist_facts :
    (label : Label) (id : Text) (mode : ListMode) (tier : RuleTier) (enabled : Bool)
    → validate_allowlist label id mode tier enabled ≡ ok tt
    → mode ≡ ListMode.allowlist
    → (tier ≢ RuleTier.hard) × (enabled ≡ true)
unfolding validate_allowlist
allowlist_facts label id mode tier enabled h e = ground arith

-- The facts that the rounds of the loop over the site rules establish, one by one.
module _ (p : Platform) (known : KnownIds) (r : RuleConfig) (links links' : Links)
    (accepted : validate_rule p known r links ≡ ok links') where
  pub rule_facts :
      (require_identifier rule r.id ≡ ok tt)
      × (is_empty (trim r.name) ≡ false)
      × (is_empty r.patterns ≡ false)
      × (for_each (validate_pattern p r.id) r.patterns ≡ ok tt)
      × (validate_schedule_ids rule r.id known.schedule_ids r.schedule_ids ≡ ok tt)
      × (validate_allowlist rule r.id r.mode r.tier r.enabled ≡ ok tt)
      × (link_allowance rule known.allowance_ids r.id r.allowance_id links ≡ ok links')
      × (validate_tier rule r.id r.tier r.allowance_id ≡ ok tt)
  unfolding validate_rule
  rule_facts = ground arith

  pub rule-IsValidList :
      IsValidList known r.id r.name r.tier r.enabled r.mode r.schedule_ids r.allowance_id
  rule-IsValidList =
      let (ident, name, _, _, scheds, allow, link, tier) = rule_facts in
      record {
        identified = identifier_facts rule r.id ident;
        named = is_empty-false (trim r.name) name;
        schedules_known = schedules_known_facts rule r.id known.schedule_ids r.schedule_ids scheds;
        allowance_known =
            allowance_known_facts rule known.allowance_ids r.id r.allowance_id links links' link;
        metered_tier = tier_facts rule r.id r.tier r.allowance_id tier;
        allowlist_tier = λ e. (allowlist_facts rule r.id r.mode r.tier r.enabled allow e).0;
        allowlist_on = λ e. (allowlist_facts rule r.id r.mode r.tier r.enabled allow e).1;
      }

module _ (p : Platform) (known : KnownIds) (r : AppRuleConfig) (links links' : Links)
    (accepted : validate_app_rule p known r links ≡ ok links') where
  pub app_rule_facts :
      (require_identifier app_rule r.id ≡ ok tt)
      × (has_id r.id known.site_rule_ids ≡ false)
      × (is_empty (trim r.name) ≡ false)
      × (validate_allowlist app_rule r.id r.mode r.tier r.enabled ≡ ok tt)
      × (is_empty r.matchers ≡ false)
      × (for_each (validate_app_matcher r.id) r.matchers ≡ ok tt)
      × (validate_schedule_ids app_rule r.id known.schedule_ids r.schedule_ids ≡ ok tt)
      × (link_allowance app_rule known.allowance_ids r.id r.allowance_id links ≡ ok links')
      × (validate_tier app_rule r.id r.tier r.allowance_id ≡ ok tt)
  unfolding validate_app_rule
  app_rule_facts = ground arith

  pub app_rule-IsValidList :
      IsValidList known r.id r.name r.tier r.enabled r.mode r.schedule_ids r.allowance_id
  app_rule-IsValidList =
      let (ident, _, name, allow, _, _, scheds, link, tier) = app_rule_facts in
      record {
        identified = identifier_facts app_rule r.id ident;
        named = is_empty-false (trim r.name) name;
        schedules_known =
            schedules_known_facts app_rule r.id known.schedule_ids r.schedule_ids scheds;
        allowance_known =
            allowance_known_facts app_rule known.allowance_ids r.id r.allowance_id links links'
              link;
        metered_tier = tier_facts app_rule r.id r.tier r.allowance_id tier;
        allowlist_tier = λ e. (allowlist_facts app_rule r.id r.mode r.tier r.enabled allow e).0;
        allowlist_on = λ e. (allowlist_facts app_rule r.id r.mode r.tier r.enabled allow e).1;
      }
