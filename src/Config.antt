-- ===== src/Config.antt =====
-- focus-core/src/config.rs: the policy's data types, and the derived `==` of those that are
-- compared.
pub mod Time
pub mod Validate
pub mod Equality
pub mod Legacy
use bloc_kuntu.Common.{◌≡◌, refl, ◌⊎◌, inl, inr, ℕ, Bool, Option, List, ◌==◌}
use bloc_kuntu.Text.{Text}

pub data RuleTier : Type 0 where
  hard scheduled_block controlled_access : RuleTier

pub data ListMode : Type 0 where
  blocklist allowlist : ListMode

pub data AppMatcherKind : Type 0 where
  executable_path executable_basename command_name desktop_id : AppMatcherKind
  window_title_exact window_title_contains : AppMatcherKind

pub data RulePatternKind : Type 0 where
  domain exact_url url_prefix url_contains path_prefix : RulePatternKind

pub data Weekday : Type 0 where
  mon tue wed thu fri sat sun : Weekday

pub data ScheduleDay : Type 0 where
  everyday workdays weekend : ScheduleDay
  mon tue wed thu fri sat sun : ScheduleDay

-- Both fields are u8.
pub record TimeOfDay : Type 0 where
  pub hour : ℕ
  pub minute : ℕ

pub record ScheduleWindow : Type 0 where
  pub weekday : ScheduleDay
  pub start : TimeOfDay
  pub end : TimeOfDay

pub record ScheduleConfig : Type 0 where
  pub id : Text
  pub name : Option Text
  pub windows : List ScheduleWindow

pub record AllowanceConfig : Type 0 where
  pub id : Text
  pub name : Option Text
  pub daily_minutes : ℕ

pub record RulePatternConfig : Type 0 where
  pub kind : RulePatternKind
  pub value : Text
  pub match_subdomains : Bool

pub record AppMatcherConfig : Type 0 where
  pub kind : AppMatcherKind
  pub value : Text

pub record RuleConfig : Type 0 where
  pub id : Text
  pub name : Text
  pub tier : RuleTier
  pub enabled : Bool
  pub mode : ListMode
  pub patterns : List RulePatternConfig
  pub schedule_ids : List Text
  pub allowance_id : Option Text

pub record AppRuleConfig : Type 0 where
  pub id : Text
  pub name : Text
  pub tier : RuleTier
  pub enabled : Bool
  pub mode : ListMode
  pub matchers : List AppMatcherConfig
  pub schedule_ids : List Text
  pub allowance_id : Option Text

pub record StrictModeConfig : Type 0 where
  pub require_firefox_extension : Bool
  pub require_chrome_extension : Bool
  pub kill_supported_browser_if_extension_stale : Bool
  pub block_unsupported_browsers : Bool
  pub grace_seconds : ℕ

pub record Config : Type 0 where
  pub rules : List RuleConfig
  pub app_rules : List AppRuleConfig
  pub schedules : List ScheduleConfig
  pub allowances : List AllowanceConfig
  pub strict_mode : StrictModeConfig

-- The derived `==` of each enum compares the places of the two variants.
abbrev pub tier_place : RuleTier → ℕ
tier_place RuleTier.hard = 0
tier_place RuleTier.scheduled_block = 1
tier_place RuleTier.controlled_access = 2

abbrev pub tier_eq : RuleTier → RuleTier → Bool
tier_eq a b = tier_place a == tier_place b

abbrev pub mode_place : ListMode → ℕ
mode_place ListMode.blocklist = 0
mode_place ListMode.allowlist = 1

abbrev pub mode_eq : ListMode → ListMode → Bool
mode_eq a b = mode_place a == mode_place b

abbrev pub matcher_kind_place : AppMatcherKind → ℕ
matcher_kind_place AppMatcherKind.executable_path = 0
matcher_kind_place AppMatcherKind.executable_basename = 1
matcher_kind_place AppMatcherKind.command_name = 2
matcher_kind_place AppMatcherKind.desktop_id = 3
matcher_kind_place AppMatcherKind.window_title_exact = 4
matcher_kind_place AppMatcherKind.window_title_contains = 5

abbrev pub matcher_kind_eq : AppMatcherKind → AppMatcherKind → Bool
matcher_kind_eq a b = matcher_kind_place a == matcher_kind_place b

abbrev pub pattern_kind_place : RulePatternKind → ℕ
pattern_kind_place RulePatternKind.domain = 0
pattern_kind_place RulePatternKind.exact_url = 1
pattern_kind_place RulePatternKind.url_prefix = 2
pattern_kind_place RulePatternKind.url_contains = 3
pattern_kind_place RulePatternKind.path_prefix = 4

abbrev pub pattern_kind_eq : RulePatternKind → RulePatternKind → Bool
pattern_kind_eq a b = pattern_kind_place a == pattern_kind_place b

abbrev weekday_place : Weekday → ℕ
weekday_place Weekday.mon = 0
weekday_place Weekday.tue = 1
weekday_place Weekday.wed = 2
weekday_place Weekday.thu = 3
weekday_place Weekday.fri = 4
weekday_place Weekday.sat = 5
weekday_place Weekday.sun = 6

abbrev pub weekday_eq : Weekday → Weekday → Bool
weekday_eq a b = weekday_place a == weekday_place b

abbrev pub schedule_day_place : ScheduleDay → ℕ
schedule_day_place ScheduleDay.everyday = 0
schedule_day_place ScheduleDay.workdays = 1
schedule_day_place ScheduleDay.weekend = 2
schedule_day_place ScheduleDay.mon = 3
schedule_day_place ScheduleDay.tue = 4
schedule_day_place ScheduleDay.wed = 5
schedule_day_place ScheduleDay.thu = 6
schedule_day_place ScheduleDay.fri = 7
schedule_day_place ScheduleDay.sat = 8
schedule_day_place ScheduleDay.sun = 9

abbrev pub schedule_day_eq : ScheduleDay → ScheduleDay → Bool
schedule_day_eq a b = schedule_day_place a == schedule_day_place b

pub tier-cases :
    (t : RuleTier)
    → (t ≡ RuleTier.hard) ⊎ ((t ≡ RuleTier.scheduled_block) ⊎ (t ≡ RuleTier.controlled_access))
tier-cases RuleTier.hard = inl refl
tier-cases RuleTier.scheduled_block = inr (inl refl)
tier-cases RuleTier.controlled_access = inr (inr refl)
