-- ===== src/Config/Equality.antt =====
-- focus-core/src/config.rs, the derived == of enums: equal by the test and equal.
use mathlib.Core.Path.{◌≡◌, refl, sym, ap, ◌∙◌}
use bloc_kuntu.Common.{ℕ, true, ◌==◌, ==_iff, if◌then◌else◌}
use bloc_kuntu.Config.{
  RuleTier, tier_place, tier_eq, ListMode, mode_place, mode_eq, AppMatcherKind, matcher_kind_place,
  matcher_kind_eq, RulePatternKind, pattern_kind_place, pattern_kind_eq, ScheduleDay,
  schedule_day_place, schedule_day_eq,
}

-- Equal places mean equal variants, once the variants can be read off their places.
decoded :
    {A : Type 0} (place : A → ℕ) (variant : ℕ → A)
    → ((a : A) → variant (place a) ≡ a)
    → (a b : A) → (place a == place b) ≡ true
    → a ≡ b
decoded place variant back a b h =
    sym (back a) ∙ ap variant ((==_iff (place a) (place b)).0 h) ∙ back b

tier_at : ℕ → RuleTier
tier_at n =
    if n == 0
    then RuleTier.hard
    else if n == 1
    then RuleTier.scheduled_block
    else RuleTier.controlled_access

tier_at-place : (a : RuleTier) → tier_at (tier_place a) ≡ a
unfolding tier_at
tier_at-place RuleTier.hard = refl
tier_at-place RuleTier.scheduled_block = refl
tier_at-place RuleTier.controlled_access = refl

pub tier_eq→≡ : (a b : RuleTier) → tier_eq a b ≡ true → a ≡ b
tier_eq→≡ = decoded tier_place tier_at tier_at-place

mode_at : ℕ → ListMode
mode_at n = if n == 0 then ListMode.blocklist else ListMode.allowlist

mode_at-place : (a : ListMode) → mode_at (mode_place a) ≡ a
unfolding mode_at
mode_at-place ListMode.blocklist = refl
mode_at-place ListMode.allowlist = refl

pub mode_eq→≡ : (a b : ListMode) → mode_eq a b ≡ true → a ≡ b
mode_eq→≡ = decoded mode_place mode_at mode_at-place

matcher_kind_at : ℕ → AppMatcherKind
matcher_kind_at n =
    if n == 0
    then AppMatcherKind.executable_path
    else if n == 1
    then AppMatcherKind.executable_basename
    else if n == 2
    then AppMatcherKind.command_name
    else if n == 3
    then AppMatcherKind.desktop_id
    else if n == 4
    then AppMatcherKind.window_title_exact
    else AppMatcherKind.window_title_contains

matcher_kind_at-place : (a : AppMatcherKind) → matcher_kind_at (matcher_kind_place a) ≡ a
unfolding matcher_kind_at
matcher_kind_at-place AppMatcherKind.executable_path = refl
matcher_kind_at-place AppMatcherKind.executable_basename = refl
matcher_kind_at-place AppMatcherKind.command_name = refl
matcher_kind_at-place AppMatcherKind.desktop_id = refl
matcher_kind_at-place AppMatcherKind.window_title_exact = refl
matcher_kind_at-place AppMatcherKind.window_title_contains = refl

pub matcher_kind_eq→≡ : (a b : AppMatcherKind) → matcher_kind_eq a b ≡ true → a ≡ b
matcher_kind_eq→≡ = decoded matcher_kind_place matcher_kind_at matcher_kind_at-place

pattern_kind_at : ℕ → RulePatternKind
pattern_kind_at n =
    if n == 0
    then RulePatternKind.domain
    else if n == 1
    then RulePatternKind.exact_url
    else if n == 2
    then RulePatternKind.url_prefix
    else if n == 3
    then RulePatternKind.url_contains
    else RulePatternKind.path_prefix

pattern_kind_at-place : (a : RulePatternKind) → pattern_kind_at (pattern_kind_place a) ≡ a
unfolding pattern_kind_at
pattern_kind_at-place RulePatternKind.domain = refl
pattern_kind_at-place RulePatternKind.exact_url = refl
pattern_kind_at-place RulePatternKind.url_prefix = refl
pattern_kind_at-place RulePatternKind.url_contains = refl
pattern_kind_at-place RulePatternKind.path_prefix = refl

pub pattern_kind_eq→≡ : (a b : RulePatternKind) → pattern_kind_eq a b ≡ true → a ≡ b
pattern_kind_eq→≡ = decoded pattern_kind_place pattern_kind_at pattern_kind_at-place

schedule_day_at : ℕ → ScheduleDay
schedule_day_at n =
    if n == 0
    then ScheduleDay.everyday
    else if n == 1
    then ScheduleDay.workdays
    else if n == 2
    then ScheduleDay.weekend
    else if n == 3
    then ScheduleDay.mon
    else if n == 4
    then ScheduleDay.tue
    else if n == 5
    then ScheduleDay.wed
    else if n == 6
    then ScheduleDay.thu
    else if n == 7
    then ScheduleDay.fri
    else if n == 8
    then ScheduleDay.sat
    else ScheduleDay.sun

schedule_day_at-place : (a : ScheduleDay) → schedule_day_at (schedule_day_place a) ≡ a
unfolding schedule_day_at
schedule_day_at-place ScheduleDay.everyday = refl
schedule_day_at-place ScheduleDay.workdays = refl
schedule_day_at-place ScheduleDay.weekend = refl
schedule_day_at-place ScheduleDay.mon = refl
schedule_day_at-place ScheduleDay.tue = refl
schedule_day_at-place ScheduleDay.wed = refl
schedule_day_at-place ScheduleDay.thu = refl
schedule_day_at-place ScheduleDay.fri = refl
schedule_day_at-place ScheduleDay.sat = refl
schedule_day_at-place ScheduleDay.sun = refl

pub schedule_day_eq→≡ : (a b : ScheduleDay) → schedule_day_eq a b ≡ true → a ≡ b
schedule_day_eq→≡ = decoded schedule_day_place schedule_day_at schedule_day_at-place
