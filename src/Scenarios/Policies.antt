-- ===== src/Scenarios/Policies.antt =====
-- focus-core/src/config.rs and focusd/src/rpc.rs: policies read, checked, repaired and edited.
use bloc_kuntu.Common.{◌≡◌, refl, true, false, none, some, [], ◌∷◌, arith, All}
use bloc_kuntu.Common.Results.{ok}
use bloc_kuntu.Text.{
  lit, text_eq, starts_with, ends_with, contains, contains_char, split_once, trim_start_matches,
  trim_end_matches, is_whitespace, trim, to_ascii_lowercase, eq_ignore_ascii_case, byte_len,
}
use bloc_kuntu.Config.{
  RuleTier, ListMode, ScheduleDay, TimeOfDay, ScheduleConfig, RuleConfig, AppRuleConfig, Config,
}
use bloc_kuntu.Types.{ProcessIdentity}
use bloc_kuntu.Config.Time.{from_str, to_string}
use bloc_kuntu.Config.Time.Roundtrip.{IsTime, from_str-IsTime, from_str-to_string}
use bloc_kuntu.Config.Legacy.{
  IsRepaired, normalize_legacy_website_allowlists, normalize_legacy_website_allowlists-IsRepaired,
}
use bloc_kuntu.Config.Validate.{validate}
use bloc_kuntu.Config.Validate.Links.{IsValid, validate-IsValid}
use bloc_kuntu.Policy.Matching.{
  NormalizedUrl, site_rule_applies, app_rule_applies, pattern_matches, normalized_pattern_value,
}
use bloc_kuntu.Policy.Schedule.{schedule_is_active}
use bloc_kuntu.Policy.Activity.{Context, rule_is_active, app_rule_is_active}
use bloc_kuntu.Edits.{
  site_list_edit_is_additive, app_rule_edit_is_additive, schedule_edit_is_additive,
  rule_is_active_at, app_rule_is_active_at,
}
use bloc_kuntu.Edits.Additive.{site_list_edit-applies, app_rule_edit-applies, schedule_edit-active}
use bloc_kuntu.Edits.Agreement.{rule_is_active_at-agrees, app_rule_is_active_at-agrees}
use bloc_kuntu.Scenarios.{
  sample_platform, utc, sample_config, news, news_domain, video_domain, games, game_matcher,
  chat_matcher, work, work_window, context_at,
}

abbrev half_past_nine : TimeOfDay
half_past_nine = record { hour = 9; minute = 30 }

from_str-to_string_example : from_str (to_string half_past_nine) ≡ ok half_past_nine
from_str-to_string_example = from_str-to_string half_past_nine (omega arith, omega arith)

reads_half_past_nine : from_str (lit "09:30") ≡ ok half_past_nine
unfolding from_str split_once bloc_kuntu.Config.Time.from_parts byte_len
    bloc_kuntu.Config.Time.or_error bloc_kuntu.Config.Time.parse_u8 bloc_kuntu.Config.Time.new
reads_half_past_nine = refl

from_str-IsTime_example : IsTime half_past_nine
from_str-IsTime_example = from_str-IsTime (lit "09:30") half_past_nine reads_half_past_nine

pub sample_accepted : validate sample_platform sample_config ≡ ok tt
unfolding validate bloc_kuntu.Config.Validate.ensure_unique_ids
    bloc_kuntu.Config.Validate.ensure_unique_from bloc_kuntu.Config.Validate.known_ids
    bloc_kuntu.Config.Validate.require_identifier trim text_eq
    bloc_kuntu.Config.Validate.validate_schedule bloc_kuntu.Config.Validate.fold_links
    bloc_kuntu.Config.Validate.validate_rule bloc_kuntu.Config.Validate.validate_pattern
    contains_char contains bloc_kuntu.Config.Validate.validate_host_like ends_with
    bloc_kuntu.Config.Validate.validate_schedule_ids bloc_kuntu.Config.Validate.validate_allowlist
    bloc_kuntu.Config.Validate.link_allowance bloc_kuntu.Config.Validate.linked_to
    bloc_kuntu.Config.Validate.validate_app_matcher bloc_kuntu.Config.Validate.validate_app_rule
    bloc_kuntu.Config.Validate.validate_tier is_whitespace starts_with trim_end_matches
    trim_start_matches
sample_accepted = refl

validate-IsValid_example : IsValid sample_config
validate-IsValid_example = validate-IsValid sample_platform sample_config sample_accepted

-- A switched off Tier 1 allowlist of an older policy.
abbrev old_config : Config
old_config = record sample_config {
  rules = record news { tier = RuleTier.hard; mode = ListMode.allowlist; enabled = false } ∷ [];
}

normalize_legacy_website_allowlists-IsRepaired_example :
    All IsRepaired (normalize_legacy_website_allowlists old_config).rules
    × (All IsRepaired old_config.rules
        → normalize_legacy_website_allowlists old_config ≡ old_config)
normalize_legacy_website_allowlists-IsRepaired_example =
    normalize_legacy_website_allowlists-IsRepaired old_config

abbrev more_news : RuleConfig
more_news = record news { patterns = news_domain ∷ video_domain ∷ [] }

abbrev news_url : NormalizedUrl
news_url = record {
  url_without_fragment = lit "https://news.test/";
  host = some (lit "news.test");
  path = lit "/";
}

news_applies : site_rule_applies sample_platform news news_url ≡ true
unfolding site_rule_applies pattern_matches text_eq normalized_pattern_value to_ascii_lowercase
    trim_end_matches ends_with
news_applies = refl

more_news_additive : site_list_edit_is_additive news more_news ≡ true
unfolding site_list_edit_is_additive text_eq
more_news_additive = refl

site_list_edit-applies_example : site_rule_applies sample_platform more_news news_url ≡ true
site_list_edit-applies_example =
    site_list_edit-applies sample_platform news more_news news_url more_news_additive news_applies

-- An allowlist for the game and the chat, and the same for the game alone.
abbrev two_allowed : AppRuleConfig
two_allowed = record games {
  mode = ListMode.allowlist;
  matchers = game_matcher ∷ chat_matcher ∷ [];
}

abbrev one_allowed : AppRuleConfig
one_allowed = record games { mode = ListMode.allowlist }

abbrev shell : ProcessIdentity
shell = record {
  pid = none;
  executable_path = none;
  executable_basename = none;
  command_name = some (lit "sh");
  desktop_id = none;
  window_titles = [];
}

shell_blocked : app_rule_applies two_allowed shell ≡ true
unfolding app_rule_applies bloc_kuntu.Policy.Matching.app_matcher_matches
    bloc_kuntu.Policy.Matching.app_matcher_value_matches
    bloc_kuntu.Policy.Matching.matches_case_insensitively eq_ignore_ascii_case
shell_blocked = refl

one_allowed_additive : app_rule_edit_is_additive two_allowed one_allowed ≡ true
unfolding app_rule_edit_is_additive text_eq
one_allowed_additive = refl

app_rule_edit-applies_example : app_rule_applies one_allowed shell ≡ true
app_rule_edit-applies_example =
    app_rule_edit-applies two_allowed one_allowed shell one_allowed_additive shell_blocked

abbrev longer_work : ScheduleConfig
longer_work = record work {
  windows =
      work_window
      ∷ record {
        weekday = ScheduleDay.weekend;
        start = record { hour = 22; minute = 0 };
        end = record { hour = 6; minute = 0 };
      }
      ∷ [];
}

abbrev at_noon : Context
at_noon = context_at 12 0 false

work_at_noon : schedule_is_active utc work at_noon.now ≡ true
unfolding schedule_is_active bloc_kuntu.Policy.Schedule.window_is_active
    bloc_kuntu.Config.Time.minutes_after_midnight bloc_kuntu.Config.Time.includes
work_at_noon = refl

longer_work_additive : schedule_edit_is_additive work longer_work ≡ true
unfolding schedule_edit_is_additive text_eq
longer_work_additive = refl

schedule_edit-active_example : schedule_is_active utc longer_work at_noon.now ≡ true
schedule_edit-active_example =
    schedule_edit-active utc work longer_work at_noon.now longer_work_additive work_at_noon

rule_is_active_at-agrees_example :
    rule_is_active_at utc news sample_config at_noon.now
    ≡ rule_is_active sample_platform at_noon news
rule_is_active_at-agrees_example = rule_is_active_at-agrees sample_platform at_noon news refl

app_rule_is_active_at-agrees_example :
    app_rule_is_active_at utc games sample_config at_noon.now
    ≡ app_rule_is_active sample_platform at_noon games
app_rule_is_active_at-agrees_example =
    app_rule_is_active_at-agrees sample_platform at_noon games refl
