-- ===== src/Config/Validate.antt =====
-- focus-core/src/config.rs: `Config::validate` and the checks that it calls. An error is a
-- constructor with the values that the message names.
pub mod Sound
pub mod Links
use bloc_kuntu.Common.{
  ℕ, zero, suc, ◌+◌, ◌-◌, ◌*◌, ◌/◌, ◌%◌, ◌≤◌, ◌<◌, ◌≡◌, refl, ap, ◌∙◌, ◌≢◌, ◌↔◌, ◌⊎◌, inl, inr,
  Bool, true, false, not, ◌&&◌, ◌||◌, Option, none, some, List, [], ◌∷◌, ◌++◌, map, arith, ◌==◌,
  if◌then◌else◌, tests, Bool-cases, is_some, All, Any, any, is_empty, filter_map, any→Any, Any-map,
}
use bloc_kuntu.Common.Results.{
  Result, ok, err, ◌>>=◌, ◌>>◌, reject_if, for_each, >>=-eq-ok, >>-eq-ok, reject_if-eq-ok,
}
use bloc_kuntu.Text.{Text, lit, text_eq, starts_with, ends_with, contains, contains_char, trim}
use bloc_kuntu.Config.{
  RuleTier, tier_eq, ListMode, mode_eq, AppMatcherKind, RulePatternKind, TimeOfDay, ScheduleWindow,
  ScheduleConfig, AllowanceConfig, RulePatternConfig, AppMatcherConfig, RuleConfig, AppRuleConfig,
  Config,
}
use bloc_kuntu.Platform.{Platform}

-- The words that the messages use for a kind of item.
pub data Label : Type 0 where
  rule app_rule schedule allowance : Label

pub data ConfigError : Type 0 where
  empty_id : Label → ConfigError
  padded_id duplicate_id : Label → Text → ConfigError
  zero_grace_seconds : ConfigError
  empty_window : Text → TimeOfDay → ConfigError
  empty_name no_members : Label → Text → ConfigError
  empty_member padded_member : Label → Text → ConfigError
  not_a_host not_structural no_suffix invalid_url bad_path_prefix : Text → Text → ConfigError
  relative_path slash_in_name : Text → Text → ConfigError
  missing_schedule missing_allowance : Label → Text → Text → ConfigError
  hard_allowlist disabled_allowlist : Label → Text → ConfigError
  allowance_linked : Text → Text → Label → Text → ConfigError
  allowance_forbidden : RuleTier → Label → Text → ConfigError
  site_rule_conflict : Text → ConfigError

abbrev pub Check : Type 0
Check = Result ConfigError (Unit {0})

unfoldable pub require_identifier : Label → Text → Check
require_identifier label id = do
  let trimmed = trim id
  reject_if (is_empty trimmed) (empty_id label)
  reject_if (not (text_eq trimmed id)) (padded_id label id)

abbrev pub has_id : Text → List Text → Bool
has_id id ids = any (λ other. text_eq other id) ids

-- `seen` is the HashSet of the loop.
unfoldable pub ensure_unique_from : Label → List Text → List Text → Check
ensure_unique_from label seen [] = ok tt
ensure_unique_from label seen (id ∷ ids) =
    let rest = ensure_unique_from label (id ∷ seen) ids in
    require_identifier label id >> (reject_if (has_id id seen) (duplicate_id label id) >> rest)

unfoldable pub ensure_unique_ids : Label → List Text → Check
ensure_unique_ids label ids = ensure_unique_from label [] ids

unfoldable pub validate_host_like : Text → Text → Check
validate_host_like rule_id value = do
  reject_if (starts_with value (lit ".") || ends_with value (lit ".") || contains_char b'*' value)
      (not_structural value rule_id)
  reject_if (not (contains_char b'.' value)) (no_suffix value rule_id)

module _ (p : Platform) where
  validate_pattern_kind : RulePatternKind → Text → Text → Check
  validate_pattern_kind RulePatternKind.domain rule_id value = do
    reject_if (contains_char b'/' value || contains value (lit "://")) (not_a_host value rule_id)
    validate_host_like rule_id value
  validate_pattern_kind RulePatternKind.exact_url rule_id value =
      reject_if (not (is_some (p.url_parse value))) (invalid_url value rule_id)
  validate_pattern_kind RulePatternKind.url_prefix rule_id value =
      reject_if (not (is_some (p.url_parse value))) (invalid_url value rule_id)
  validate_pattern_kind RulePatternKind.url_contains rule_id value = ok tt
  validate_pattern_kind RulePatternKind.path_prefix rule_id value =
      reject_if (not (starts_with value (lit "/")) && not (contains_char b'/' value))
        (bad_path_prefix value rule_id)

  unfoldable pub validate_pattern : Text → RulePatternConfig → Check
  unfolding validate_pattern_kind
  validate_pattern rule_id pattern = do
    let value = trim pattern.value
    reject_if (is_empty value) (empty_member rule rule_id)
    reject_if (not (text_eq value pattern.value)) (padded_member rule rule_id)
    validate_pattern_kind pattern.kind rule_id value

validate_matcher_kind : AppMatcherKind → Text → Text → Check
validate_matcher_kind AppMatcherKind.executable_path rule_id value =
    reject_if (not (starts_with value (lit "/"))) (relative_path value rule_id)
validate_matcher_kind AppMatcherKind.executable_basename rule_id value =
    reject_if (contains_char b'/' value) (slash_in_name value rule_id)
validate_matcher_kind AppMatcherKind.command_name rule_id value =
    reject_if (contains_char b'/' value) (slash_in_name value rule_id)
validate_matcher_kind AppMatcherKind.desktop_id rule_id value =
    reject_if (contains_char b'/' value) (slash_in_name value rule_id)
validate_matcher_kind AppMatcherKind.window_title_exact rule_id value = ok tt
validate_matcher_kind AppMatcherKind.window_title_contains rule_id value = ok tt

unfoldable pub validate_app_matcher : Text → AppMatcherConfig → Check
unfolding validate_matcher_kind
validate_app_matcher rule_id matcher = do
  let value = trim matcher.value
  reject_if (is_empty value) (empty_member app_rule rule_id)
  reject_if (not (text_eq value matcher.value)) (padded_member app_rule rule_id)
  validate_matcher_kind matcher.kind rule_id value

-- The derived `==` of `TimeOfDay`.
abbrev pub time_eq : TimeOfDay → TimeOfDay → Bool
time_eq a b = a.hour == b.hour && a.minute == b.minute

unfoldable pub validate_schedule : ScheduleConfig → Check
validate_schedule s = do
  require_identifier schedule s.id
  for_each (λ (w : ScheduleWindow). reject_if (time_eq w.start w.end) (empty_window s.id w.start))
      s.windows

-- `allowance_links`, the allowance of each list that has one so far, the last list first.
abbrev pub Links : Type 0
Links = List (Text × Text)

unfoldable pub linked_to : Text → Links → Option Text
linked_to a [] = none
linked_to a ((b, list) ∷ links) =
    let rest = linked_to a links in if text_eq b a then some list else rest

-- `allowance_links.insert(..)`, which rejects a second link.
insert_link : Label → Text → Text → Option Text → Links → Result ConfigError Links
insert_link label id a none links = ok ((a, id) ∷ links)
insert_link label id a (some existing) links = err (allowance_linked a existing label id)

unfoldable pub link_allowance :
    Label → List Text → Text → Option Text → Links → Result ConfigError Links
unfolding insert_link
link_allowance label allowance_ids id none links = ok links
link_allowance label allowance_ids id (some a) links = do
  reject_if (not (has_id a allowance_ids)) (missing_allowance label id a)
  insert_link label id a (linked_to a links) links

unfoldable pub validate_allowlist : Label → Text → ListMode → RuleTier → Bool → Check
validate_allowlist label id mode tier enabled = do
  reject_if (mode_eq mode ListMode.allowlist && tier_eq tier RuleTier.hard)
      (hard_allowlist label id)
  reject_if (mode_eq mode ListMode.allowlist && not enabled) (disabled_allowlist label id)

unfoldable pub validate_tier : Label → Text → RuleTier → Option Text → Check
validate_tier label id RuleTier.controlled_access a = ok tt
validate_tier label id tier a = reject_if (is_some a) (allowance_forbidden tier label id)

unfoldable pub validate_schedule_ids : Label → Text → List Text → List Text → Check
validate_schedule_ids label id known schedule_ids =
    for_each (λ s. reject_if (not (has_id s known)) (missing_schedule label id s)) schedule_ids

-- The ids that `validate` collects before its loops.
pub record KnownIds : Type 0 where
  pub schedule_ids : List Text
  pub site_rule_ids : List Text
  pub allowance_ids : List Text

module _ (p : Platform) (known : KnownIds) where
  -- One round of the loop over `self.rules`.
  unfoldable pub validate_rule : RuleConfig → Links → Result ConfigError Links
  validate_rule r links = do
    require_identifier rule r.id
    reject_if (is_empty (trim r.name)) (empty_name rule r.id)
    reject_if (is_empty r.patterns) (no_members rule r.id)
    for_each (validate_pattern p r.id) r.patterns
    validate_schedule_ids rule r.id known.schedule_ids r.schedule_ids
    validate_allowlist rule r.id r.mode r.tier r.enabled
    links' ← link_allowance rule known.allowance_ids r.id r.allowance_id links
    validate_tier rule r.id r.tier r.allowance_id
    ok links'

  -- One round of the loop over `self.app_rules`.
  unfoldable pub validate_app_rule : AppRuleConfig → Links → Result ConfigError Links
  validate_app_rule r links = do
    require_identifier app_rule r.id
    reject_if (has_id r.id known.site_rule_ids) (site_rule_conflict r.id)
    reject_if (is_empty (trim r.name)) (empty_name app_rule r.id)
    validate_allowlist app_rule r.id r.mode r.tier r.enabled
    reject_if (is_empty r.matchers) (no_members app_rule r.id)
    for_each (validate_app_matcher r.id) r.matchers
    validate_schedule_ids app_rule r.id known.schedule_ids r.schedule_ids
    links' ← link_allowance app_rule known.allowance_ids r.id r.allowance_id links
    validate_tier app_rule r.id r.tier r.allowance_id
    ok links'

-- A loop that threads the links through its rounds.
unfoldable pub fold_links :
    {A : Type 0}
    → (A → Links → Result ConfigError Links)
    → List A
    → Links
    → Result ConfigError Links
fold_links check [] links = ok links
fold_links check (x ∷ xs) links = do links' ← check x links; fold_links check xs links'

unfoldable pub known_ids : Config → KnownIds
known_ids c = record {
  schedule_ids = map (λ (s : ScheduleConfig). s.id) c.schedules;
  site_rule_ids = map (λ (r : RuleConfig). r.id) c.rules;
  allowance_ids = map (λ (a : AllowanceConfig). a.id) c.allowances;
}

unfoldable pub validate : Platform → Config → Check
validate p c = do
  let known = known_ids c
  ensure_unique_ids rule known.site_rule_ids
  ensure_unique_ids app_rule (map (λ (r : AppRuleConfig). r.id) c.app_rules)
  ensure_unique_ids schedule known.schedule_ids
  ensure_unique_ids allowance known.allowance_ids
  reject_if (c.strict_mode.grace_seconds == 0) zero_grace_seconds
  for_each validate_schedule c.schedules
  for_each (λ (a : AllowanceConfig). require_identifier allowance a.id) c.allowances
  links ← fold_links (validate_rule p known) c.rules []
  _ ← fold_links (validate_app_rule p known) c.app_rules links
  ok tt
