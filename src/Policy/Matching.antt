-- ===== src/Policy/Matching.antt =====
-- focus-core/src/policy.rs: which patterns match an address and which matchers match a process.
use bloc_kuntu.Common.{
  ℕ, max, Bool, true, false, not, ◌&&◌, ◌||◌, Option, none, some, List, [], ◌∷◌, ◌++◌, map, ◌==◌,
  if◌then◌else◌, any, filter,
}
use bloc_kuntu.Text.{
  Text, lit, text_eq, starts_with, ends_with, contains, split_once, trim_end_matches,
  to_ascii_lowercase, eq_ignore_ascii_case,
}
use bloc_kuntu.Config.{
  ListMode, AppMatcherKind, RulePatternKind, RulePatternConfig, AppMatcherConfig, RuleConfig,
  AppRuleConfig,
}
use bloc_kuntu.Types.{ProcessIdentity}
use bloc_kuntu.Platform.{ParsedUrl, Platform}

pub record NormalizedUrl : Type 0 where
  pub url_without_fragment : Text
  pub host : Option Text
  pub path : Text

abbrev is_dot : ℕ → Bool
is_dot c = c == b'.'

unfoldable pub normalized_pattern_value : Text → Text
normalized_pattern_value value = to_ascii_lowercase (trim_end_matches is_dot value)

normalized : ParsedUrl → NormalizedUrl
normalized u = record {
  url_without_fragment = u.serialization;
  host = elim u.host_str [
    | none ↦ none
    | some h ↦ some (to_ascii_lowercase (trim_end_matches is_dot h))
  ];
  path = u.path;
}

module _ (p : Platform) where
  -- `NormalizedUrl::parse`
  unfoldable pub parse : Text → Option NormalizedUrl
  unfolding normalized
  parse value = elim (p.url_parse value) [ none ↦ none | some u ↦ some (normalized u) ]

  unfoldable pub normalize_url_pattern : Text → Option Text
  normalize_url_pattern pattern = elim (p.url_parse pattern) [
    | none ↦ none
    | some u ↦ some u.serialization
  ]

  unfoldable pub normalize_unlock_url_target : Text → Option NormalizedUrl
  normalize_unlock_url_target target = elim (parse target) [
    | none ↦ parse (lit "https://" ++ target)
    | some u ↦ some u
  ]

abbrev host_is : Option Text → Text → Bool
host_is none value = false
host_is (some host) value = text_eq host value

unfoldable pub path_prefix_matches : Text → NormalizedUrl → Bool
path_prefix_matches pattern url =
    if starts_with pattern (lit "/")
    then starts_with url.path pattern
    else elim (split_once b'/' pattern) [
      | none ↦ false
      | some (host, path) ↦
          host_is url.host (normalized_pattern_value host) && starts_with url.path (b'/' ∷ path)
    ]

domain_matches : Text → Bool → Option Text → Bool
domain_matches value match_subdomains none = false
domain_matches value match_subdomains (some host) =
    text_eq host value || (match_subdomains && ends_with host (b'.' ∷ value))

abbrev satisfies : Option Text → (Text → Bool) → Bool
satisfies none test = false
satisfies (some t) test = test t

module _ (p : Platform) where
  kind_matches : RulePatternKind → RulePatternConfig → NormalizedUrl → Bool
  kind_matches RulePatternKind.domain pattern url =
      domain_matches (normalized_pattern_value pattern.value) pattern.match_subdomains url.host
  kind_matches RulePatternKind.exact_url pattern url =
      satisfies (normalize_url_pattern p pattern.value) (λ t. text_eq url.url_without_fragment t)
  kind_matches RulePatternKind.url_prefix pattern url =
      satisfies (normalize_url_pattern p pattern.value)
        (λ t. starts_with url.url_without_fragment t)
  kind_matches RulePatternKind.url_contains pattern url =
      contains (to_ascii_lowercase url.url_without_fragment) (to_ascii_lowercase pattern.value)
  kind_matches RulePatternKind.path_prefix pattern url = path_prefix_matches pattern.value url

  unfoldable pub pattern_matches : RulePatternConfig → NormalizedUrl → Bool
  unfolding kind_matches domain_matches
  pattern_matches pattern url = kind_matches pattern.kind pattern url

-- `match rule.mode { Blocklist => member, Allowlist => !member }`
abbrev pub applies_by_mode : ListMode → Bool → Bool
applies_by_mode ListMode.blocklist member = member
applies_by_mode ListMode.allowlist member = not member

module _ (p : Platform) where
  unfoldable pub site_rule_applies : RuleConfig → NormalizedUrl → Bool
  site_rule_applies rule url =
      applies_by_mode rule.mode (any (λ pattern. pattern_matches p pattern url) rule.patterns)

kind_specificity : RulePatternKind → Bool → ℕ
kind_specificity RulePatternKind.exact_url match_subdomains = 4
kind_specificity RulePatternKind.path_prefix match_subdomains = 3
kind_specificity RulePatternKind.url_prefix match_subdomains = 3
kind_specificity RulePatternKind.url_contains match_subdomains = 2
kind_specificity RulePatternKind.domain false = 2
kind_specificity RulePatternKind.domain true = 1

unfoldable pub pattern_specificity : RulePatternConfig → ℕ
unfolding kind_specificity
pattern_specificity pattern = kind_specificity pattern.kind pattern.match_subdomains

-- `.max().unwrap_or(0)`
unfoldable pub max_or_zero : List ℕ → ℕ
max_or_zero [] = 0
max_or_zero (n ∷ ns) = max n (max_or_zero ns)

unfoldable pub matched_pattern_specificity : Platform → RuleConfig → NormalizedUrl → ℕ
matched_pattern_specificity p rule url =
    max_or_zero
      (map pattern_specificity (filter (λ pattern. pattern_matches p pattern url) rule.patterns))

-- `matches_case_insensitively`
unfoldable pub matches_case_insensitively : AppMatcherKind → Bool
matches_case_insensitively AppMatcherKind.executable_basename = true
matches_case_insensitively AppMatcherKind.command_name = true
matches_case_insensitively AppMatcherKind.desktop_id = true
matches_case_insensitively AppMatcherKind.executable_path = false
matches_case_insensitively AppMatcherKind.window_title_exact = false
matches_case_insensitively AppMatcherKind.window_title_contains = false

unfoldable pub app_matcher_value_matches : AppMatcherKind → Text → Text → Bool
app_matcher_value_matches kind actual expected =
    if matches_case_insensitively kind
    then eq_ignore_ascii_case actual expected
    else text_eq actual expected

kind_matches_process : AppMatcherKind → Text → ProcessIdentity → Bool
kind_matches_process AppMatcherKind.executable_path value process =
    satisfies process.executable_path
      (λ actual. app_matcher_value_matches AppMatcherKind.executable_path actual value)
kind_matches_process AppMatcherKind.executable_basename value process =
    satisfies process.executable_basename
      (λ actual. app_matcher_value_matches AppMatcherKind.executable_basename actual value)
kind_matches_process AppMatcherKind.command_name value process =
    satisfies process.command_name
      (λ actual. app_matcher_value_matches AppMatcherKind.command_name actual value)
kind_matches_process AppMatcherKind.desktop_id value process =
    satisfies process.desktop_id
      (λ actual. app_matcher_value_matches AppMatcherKind.desktop_id actual value)
kind_matches_process AppMatcherKind.window_title_exact value process =
    any (λ title. app_matcher_value_matches AppMatcherKind.window_title_exact title value)
      process.window_titles
kind_matches_process AppMatcherKind.window_title_contains value process =
    any (λ title. contains (to_ascii_lowercase title) (to_ascii_lowercase value))
      process.window_titles

unfoldable pub app_matcher_matches : AppMatcherConfig → ProcessIdentity → Bool
unfolding kind_matches_process
app_matcher_matches matcher process = kind_matches_process matcher.kind matcher.value process

unfoldable pub app_rule_applies : AppRuleConfig → ProcessIdentity → Bool
app_rule_applies rule process =
    applies_by_mode rule.mode (any (λ matcher. app_matcher_matches matcher process) rule.matchers)

unfoldable pub app_rule_target_matches : AppRuleConfig → Text → Bool
app_rule_target_matches rule target = applies_by_mode rule.mode (
    any
      (λ (matcher : AppMatcherConfig). app_matcher_value_matches matcher.kind matcher.value target)
      rule.matchers)
