-- ===== src/Edits.antt =====
-- focusd/src/rpc.rs: the tests by which the daemon tells a harmless edit of the policy from one
-- that weakens it, and its own copies of the activity tests.
pub mod Additive
pub mod Agreement
use bloc_kuntu.Common.{
  zero, suc, ◌+◌, ◌-◌, ◌*◌, ◌/◌, ◌%◌, ◌≤◌, ◌<◌, ◌≡◌, refl, ap, ◌∙◌, ◌≢◌, ◌↔◌, ◌⊎◌, inl, inr, Bool,
  true, false, not, ◌&&◌, ◌||◌, Option, none, some, List, [], ◌∷◌, ◌++◌, map, arith, ltb, leb, ◌==◌,
  if◌then◌else◌, tests, Bool-cases, same, same_iff, length, any, all, filter, find, is_empty,
}
use bloc_kuntu.Common.Results.{ok, ◌>>=◌, ◌>>◌}
use bloc_kuntu.Text.{Text, text_eq}
use bloc_kuntu.Config.{
  RuleTier, tier_eq, ListMode, mode_eq, matcher_kind_eq, pattern_kind_eq, schedule_day_eq,
  TimeOfDay, ScheduleWindow, ScheduleConfig, AllowanceConfig, RulePatternConfig, AppMatcherConfig,
  RuleConfig, AppRuleConfig, Config,
}
use bloc_kuntu.Types.{Fallible, DetoxSession, ProcessIdentity}
use bloc_kuntu.Platform.{DateTime, Chrono, Platform}
use bloc_kuntu.Config.Time.{includes, previous, minutes_after_midnight}
use bloc_kuntu.Store.{Database, id_member}
use bloc_kuntu.Store.Detox.{active_detox_sessions}
use bloc_kuntu.Policy.Schedule.{current_minute, current_weekday}

-- The derived `==` of what the tests compare.
abbrev pub option_eq : Option Text → Option Text → Bool
option_eq none none = true
option_eq none (some t) = false
option_eq (some s) none = false
option_eq (some s) (some t) = text_eq s t

abbrev pub texts_eq : List Text → List Text → Bool
texts_eq [] [] = true
texts_eq [] (t ∷ ts) = false
texts_eq (s ∷ ss) [] = false
texts_eq (s ∷ ss) (t ∷ ts) = text_eq s t && texts_eq ss ts

abbrev pub pattern_eq : RulePatternConfig → RulePatternConfig → Bool
pattern_eq a b =
    pattern_kind_eq a.kind b.kind
    && text_eq a.value b.value
    && same a.match_subdomains b.match_subdomains

abbrev pub matcher_eq : AppMatcherConfig → AppMatcherConfig → Bool
matcher_eq a b = matcher_kind_eq a.kind b.kind && text_eq a.value b.value

abbrev pub time_eq : TimeOfDay → TimeOfDay → Bool
time_eq a b = a.hour == b.hour && a.minute == b.minute

abbrev pub window_eq : ScheduleWindow → ScheduleWindow → Bool
window_eq a b =
    schedule_day_eq a.weekday b.weekday && time_eq a.start b.start && time_eq a.end b.end

module _ {A : Type 0} (eq : A → A → Bool) where
  -- `current.iter().zip(proposed.iter()).all(|(current, proposed)| current == proposed)`
  abbrev pub zip_all : List A → List A → Bool
  zip_all [] proposed = true
  zip_all (c ∷ cs) [] = true
  zip_all (c ∷ cs) (d ∷ ds) = eq c d && zip_all cs ds

  -- The members of a blocklist may only be added behind those that are there.
  abbrev pub extends : List A → List A → Bool
  extends current proposed = leb (length current) (length proposed) && zip_all current proposed

  -- The members of an allowlist may only be removed.
  abbrev pub shrinks : List A → List A → Bool
  shrinks current proposed =
      leb (length proposed) (length current) && all (λ d. any (λ c. eq c d) current) proposed

  abbrev pub members_are_additive : ListMode → List A → List A → Bool
  members_are_additive ListMode.blocklist current proposed = extends current proposed
  members_are_additive ListMode.allowlist current proposed = shrinks current proposed

unfoldable pub site_list_edit_is_additive : RuleConfig → RuleConfig → Bool
site_list_edit_is_additive current proposed =
    let unchanged_fields =
      text_eq current.id proposed.id
      && text_eq current.name proposed.name
      && tier_eq current.tier proposed.tier
      && same current.enabled proposed.enabled
      && mode_eq current.mode proposed.mode
      && texts_eq current.schedule_ids proposed.schedule_ids
      && option_eq current.allowance_id proposed.allowance_id in
    if not unchanged_fields
    then false
    else members_are_additive pattern_eq current.mode current.patterns proposed.patterns

unfoldable pub app_rule_edit_is_additive : AppRuleConfig → AppRuleConfig → Bool
app_rule_edit_is_additive current proposed =
    let unchanged_fields =
      text_eq current.id proposed.id
      && text_eq current.name proposed.name
      && tier_eq current.tier proposed.tier
      && same current.enabled proposed.enabled
      && mode_eq current.mode proposed.mode
      && texts_eq current.schedule_ids proposed.schedule_ids
      && option_eq current.allowance_id proposed.allowance_id in
    if not unchanged_fields
    then false
    else members_are_additive matcher_eq current.mode current.matchers proposed.matchers

unfoldable pub schedule_edit_is_additive : ScheduleConfig → ScheduleConfig → Bool
schedule_edit_is_additive current proposed =
    text_eq current.id proposed.id
    && option_eq current.name proposed.name
    && leb (length current.windows) (length proposed.windows)
    && zip_all window_eq current.windows proposed.windows

-- `same_id_membership`
unfoldable pub same_id_membership : List Text → List Text → Bool
same_id_membership left right = length left == length right && all (λ id. id_member id right) left

abbrev ids_attached : Text → List RuleConfig → List Text
ids_attached schedule_id rules =
    map (λ (r : RuleConfig). r.id)
      (filter
        (λ (r : RuleConfig).
          not (tier_eq r.tier RuleTier.hard) && id_member schedule_id r.schedule_ids)
        rules)

abbrev app_ids_attached : Text → List AppRuleConfig → List Text
app_ids_attached schedule_id rules =
    map (λ (r : AppRuleConfig). r.id)
      (filter
        (λ (r : AppRuleConfig).
          not (tier_eq r.tier RuleTier.hard) && id_member schedule_id r.schedule_ids)
        rules)

abbrev changed_from : Option (List Text) → List Text → Bool
changed_from none attached = false
changed_from (some requested) attached = not (same_id_membership requested attached)

unfoldable pub schedule_target_updates_change :
    Config → Text → Option (List Text) → Option (List Text) → Bool
unfolding same_id_membership
schedule_target_updates_change config schedule_id site_rule_ids app_rule_ids =
    changed_from site_rule_ids (ids_attached schedule_id config.rules)
    || changed_from app_rule_ids (app_ids_attached schedule_id config.app_rules)

abbrev pub uses : Text → Option Text → Bool
uses id none = false
uses id (some a) = text_eq a id

-- `position` and `remove`: the first allowance with the id goes.
unfoldable pub remove_first : Text → List AllowanceConfig → List AllowanceConfig
remove_first id [] = []
remove_first id (a ∷ rest) =
    let kept = remove_first id rest in if text_eq a.id id then rest else a ∷ kept

unfoldable pub remove_unreferenced_allowance : Config → Option Text → Config
unfolding remove_first
remove_unreferenced_allowance config none = config
remove_unreferenced_allowance config (some id) =
    if any (λ (r : RuleConfig). uses id r.allowance_id) config.rules
      || any (λ (r : AppRuleConfig). uses id r.allowance_id) config.app_rules
    then config
    else record config { allowances = remove_first id config.allowances }

module _ (c : Chrono) where
  -- The daemon's `schedule_is_active_at`, `schedule_ids_are_active_at` and `rule_is_active_at`.
  unfoldable pub schedule_is_active_at : ScheduleConfig → DateTime → Bool
  schedule_is_active_at schedule now =
      any
        (λ (w : ScheduleWindow).
          let start = minutes_after_midnight w.start in
          let end = minutes_after_midnight w.end in
          if ltb start end
          then includes w.weekday (current_weekday c now)
            && leb start (current_minute c now)
            && ltb (current_minute c now) end
          else (includes w.weekday (current_weekday c now) && leb start (current_minute c now))
            || (includes w.weekday (previous (current_weekday c now))
                && ltb (current_minute c now) end))
        schedule.windows

  schedule_id_is_active_at : Config → DateTime → Text → Bool
  schedule_id_is_active_at config now id =
      elim (find (λ (s : ScheduleConfig). text_eq s.id id) config.schedules) [
        | none ↦ true
        | some s ↦ schedule_is_active_at s now
      ]

  unfoldable pub schedule_ids_are_active_at : List Text → Config → DateTime → Bool
  unfolding schedule_id_is_active_at
  schedule_ids_are_active_at schedule_ids config now =
      not (is_empty schedule_ids) && any (schedule_id_is_active_at config now) schedule_ids

  tier_is_active_at : RuleTier → List Text → Config → DateTime → Bool
  tier_is_active_at RuleTier.hard ids config now = true
  tier_is_active_at RuleTier.scheduled_block ids config now =
      schedule_ids_are_active_at ids config now
  tier_is_active_at RuleTier.controlled_access ids config now =
      schedule_ids_are_active_at ids config now

  unfoldable pub rule_is_active_at : RuleConfig → Config → DateTime → Bool
  unfolding tier_is_active_at
  rule_is_active_at r config now =
      if not r.enabled then false else tier_is_active_at r.tier r.schedule_ids config now

  unfoldable pub app_rule_is_active_at : AppRuleConfig → Config → DateTime → Bool
  unfolding tier_is_active_at
  app_rule_is_active_at r config now =
      if not r.enabled then false else tier_is_active_at r.tier r.schedule_ids config now

-- `site_rule_in_active_detox` and `app_rule_in_active_detox`
unfoldable pub in_active_detox :
    (DetoxSession → List Text) → Database → Text → DateTime → Fallible Bool
in_active_detox ids db rule_id now = do
  sessions ← active_detox_sessions now.utc db
  ok (any (λ s. id_member rule_id (ids s)) sessions)
