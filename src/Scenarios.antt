-- ===== src/Scenarios.antt =====
-- A sample policy and database, on which the theorems are applied and the definitions run.
pub mod Decisions
mod Unlocking
mod Metering
pub mod Policies
mod Requests
mod Changes
mod Machine
use bloc_kuntu.Common.{
  ℕ, zero, suc, ◌+◌, ◌-◌, ◌*◌, ◌/◌, ◌%◌, ◌≤◌, ◌<◌, ◌≡◌, refl, ap, ◌∙◌, ◌≢◌, ◌↔◌, ◌⊎◌, inl, Bool,
  true, false, ◌&&◌, ◌||◌, Option, none, some, List, [], ◌∷◌, ◌++◌, map, arith, leb, ◌==◌,
  if◌then◌else◌, tests, All, Any, sort_by,
}
use bloc_kuntu.Text.{
  Text, lit, text_eq, strip_prefix, starts_with, ends_with, contains, contains_char, split_once,
  trim_start_matches, trim_end_matches, is_whitespace, trim, split_whitespace, join, ascii_lower,
  to_ascii_lowercase, eq_ignore_ascii_case, byte_len,
}
use bloc_kuntu.Config.{
  RuleTier, ListMode, AppMatcherKind, RulePatternKind, Weekday, ScheduleDay, TimeOfDay,
  ScheduleWindow, ScheduleConfig, RulePatternConfig, AppMatcherConfig, RuleConfig, AppRuleConfig,
  Config,
}
use bloc_kuntu.Types.{
  Error, Fallible, ControlledBlockReason, BlockReason, Decision, DetoxSession, UnlockState,
  ProcessIdentity,
}
use bloc_kuntu.Platform.{
  Instant, second, minute_ns, day_ns, Day, DateTime, Chrono, ParsedUrl, Platform,
}
use bloc_kuntu.Store.{Database, DetoxRow}
use bloc_kuntu.Policy.Activity.{Context}

-- A stand-in for the `url` crate on plain addresses, and a calendar at UTC.
abbrev address : Text → Option ParsedUrl
unfolding strip_prefix split_once
address value = elim (strip_prefix value (lit "https://")) [
  | none ↦ none
  | some rest ↦ elim (split_once b'/' rest) [
    | none ↦ none
    | some (host, path) ↦
        some (record { serialization = value; host_str = some host; path = b'/' ∷ path })
  ]
]

abbrev weekday_of : Day → Weekday
weekday_of day =
    let n = day % 7 in
    if n == 0
    then Weekday.thu
    else if n == 1
    then Weekday.fri
    else if n == 2
    then Weekday.sat
    else if n == 3
    then Weekday.sun
    else if n == 4
    then Weekday.mon
    else if n == 5
    then Weekday.tue
    else Weekday.wed

abbrev hour_length : Instant
hour_length = 60 * minute_ns

abbrev utc : Chrono
utc = record {
  date = λ _ t. t / day_ns;
  weekday = weekday_of;
  hour = λ _ t. t % day_ns / hour_length;
  minute = λ _ t. t % hour_length / minute_ns;
  at_time = λ _ day hour minute. day * day_ns + hour * hour_length + minute * minute_ns;
}

abbrev sample_platform : Platform
sample_platform = record {
  url_parse = address;
  is_alphabetic = λ c. leb b'a' c && leb c b'z';
  to_lowercase = λ t. map ascii_lower t;
  chrono = utc;
}

abbrev news_domain : RulePatternConfig
news_domain = record {
  kind = RulePatternKind.domain;
  value = lit "news.test";
  match_subdomains = true;
}

abbrev news : RuleConfig
news = record {
  id = lit "news";
  name = lit "News";
  tier = RuleTier.scheduled_block;
  enabled = true;
  mode = ListMode.blocklist;
  patterns = news_domain ∷ [];
  schedule_ids = lit "work" ∷ [];
  allowance_id = none;
}

abbrev video_domain : RulePatternConfig
video_domain = record {
  kind = RulePatternKind.domain;
  value = lit "video.test";
  match_subdomains = false;
}

abbrev video : RuleConfig
video = record {
  id = lit "video";
  name = lit "Video";
  tier = RuleTier.controlled_access;
  enabled = true;
  mode = ListMode.blocklist;
  patterns = video_domain ∷ [];
  schedule_ids = lit "work" ∷ [];
  allowance_id = none;
}

abbrev game_matcher : AppMatcherConfig
game_matcher = record { kind = AppMatcherKind.command_name; value = lit "game" }

abbrev games : AppRuleConfig
games = record {
  id = lit "games";
  name = lit "Games";
  tier = RuleTier.scheduled_block;
  enabled = true;
  mode = ListMode.blocklist;
  matchers = game_matcher ∷ [];
  schedule_ids = lit "work" ∷ [];
  allowance_id = none;
}

abbrev chat_matcher : AppMatcherConfig
chat_matcher = record { kind = AppMatcherKind.command_name; value = lit "chat" }

abbrev chat : AppRuleConfig
chat = record {
  id = lit "chat";
  name = lit "Chat";
  tier = RuleTier.controlled_access;
  enabled = true;
  mode = ListMode.blocklist;
  matchers = chat_matcher ∷ [];
  schedule_ids = lit "work" ∷ [];
  allowance_id = none;
}

abbrev work_window : ScheduleWindow
work_window = record {
  weekday = ScheduleDay.workdays;
  start = record { hour = 9; minute = 0 };
  end = record { hour = 17; minute = 30 };
}

abbrev work : ScheduleConfig
work = record { id = lit "work"; name = none; windows = work_window ∷ [] }

abbrev sample_config : Config
sample_config = record {
  rules = news ∷ video ∷ [];
  app_rules = games ∷ chat ∷ [];
  schedules = work ∷ [];
  allowances = [];
  strict_mode = record {
    require_firefox_extension = true;
    require_chrome_extension = false;
    kill_supported_browser_if_extension_stale = true;
    block_unsupported_browsers = true;
    grace_seconds = 30;
  };
}

-- A Detox of both Tier 2 lists on the first day, from 18:00 to 20:00.
abbrev evening : DetoxRow
evening = record {
  id = lit "evening";
  name = none;
  starts_at = 64_800_000_000;
  ends_at = 72_000_000_000;
  cancelled_at = none;
  site_rule_ids = lit "news" ∷ [];
  app_rule_ids = lit "games" ∷ [];
}

abbrev sample_database : Database
sample_database = record {
  unlocks = [];
  visits = [];
  app_usage_sessions = [];
  detox_sessions = evening ∷ [];
  events = [];
  service_states = λ _. none;
  policy = sample_config;
  schedule_states = [];
  next_unlock = 1;
  next_visit = 1;
  next_app_usage = 1;
  failure = λ _. none;
}

-- The sample at an hour and a minute of Thursday 1 January 1970.
abbrev context_at : ℕ → ℕ → Bool → Context
context_at hour minute tampered = record {
  config = sample_config;
  database = sample_database;
  now = record { utc = hour * hour_length + minute * minute_ns; offset = 0 };
  clock_tampered = tampered;
}
