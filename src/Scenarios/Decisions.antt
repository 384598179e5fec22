-- ===== src/Scenarios/Decisions.antt =====
-- focus-core/src/policy.rs, evaluate_url and evaluate_app: decisions on the sample.
use mathlib.Core.List.{Memᴰ}
use bloc_kuntu.Common.{
  ◌≡◌, refl, ◌≢◌, ◌↔◌, ◌⊎◌, inl, true, false, none, some, [], ◌∷◌, arith, sort_by,
}
use bloc_kuntu.Common.Results.{ok}
use bloc_kuntu.Text.{
  Text, lit, text_eq, ends_with, split_once, trim_end_matches, ascii_lower, to_ascii_lowercase,
  eq_ignore_ascii_case,
}
use bloc_kuntu.Config.{RulePatternKind, RuleConfig, Config}
use bloc_kuntu.Types.{ControlledBlockReason, BlockReason, Decision, ProcessIdentity}
use bloc_kuntu.Store.{format_time}
use bloc_kuntu.Store.Unlocks.{active_unlock_for_rule}
use bloc_kuntu.Policy.Matching.{
  NormalizedUrl, parse, pattern_matches, site_rule_applies, app_matcher_matches, app_rule_applies,
  app_matcher_value_matches, matches_case_insensitively, normalized_pattern_value,
}
use bloc_kuntu.Policy.Activity.{Context, now_utc, controlled_rule_is_active}
use bloc_kuntu.Policy.Evaluate.{
  Strictness, controlled_loop, evaluate_controlled_rule, evaluate_controlled_rule_fields,
  controlled_rule_strictness, evaluate_url, evaluate_app,
}
use bloc_kuntu.Policy.Evaluate.Allowed.{AllowsUrl, evaluate_url-allow_iff}
use bloc_kuntu.Policy.Evaluate.AllowedApp.{AllowsProcess, evaluate_app-allow_iff}
use bloc_kuntu.Policy.Evaluate.FailClosed.{detox-blocks_url, detox-blocks_app, tampered-blocks_url}
use bloc_kuntu.Policy.Evaluate.Strictest.{IsStrictest, controlled_loop-IsStrictest}
use bloc_kuntu.Policy.Evaluate.Metered.{
  HasTimeLeft, HasUnlock, evaluate_controlled_rule_fields-allow_iff,
}
use bloc_kuntu.Scenarios.{sample_platform, news, video, games, context_at}

abbrev pub news_page : Text
news_page = lit "https://www.news.test/today"

abbrev pub news_url : NormalizedUrl
news_url = record {
  url_without_fragment = news_page;
  host = some (lit "www.news.test");
  path = lit "/today";
}

abbrev game : ProcessIdentity
game = record {
  pid = some 7;
  executable_path = none;
  executable_basename = none;
  command_name = some (lit "game");
  desktop_id = none;
  window_titles = [];
}

-- 19:00, outside working hours and inside the Detox.
abbrev at_evening : Context
at_evening = context_at 19 0 false

-- 12:00, inside working hours.
abbrev at_noon : Context
at_noon = context_at 12 0 false

abbrev at_night_tampered : Context
at_night_tampered = context_at 22 0 true

pub parse_news : parse sample_platform news_page ≡ some news_url
unfolding parse bloc_kuntu.Scenarios.address to_ascii_lowercase trim_end_matches
parse_news = refl

pub news_applies : site_rule_applies sample_platform news news_url ≡ true
unfolding site_rule_applies pattern_matches text_eq normalized_pattern_value to_ascii_lowercase
    trim_end_matches ends_with
news_applies = refl

game_applies : app_rule_applies games game ≡ true
unfolding app_rule_applies app_matcher_matches app_matcher_value_matches matches_case_insensitively
    eq_ignore_ascii_case
game_applies = refl

evaluate_url-allow_iff_example :
    (evaluate_url sample_platform at_noon news_page ≡ Decision.allow) ↔ (
      (parsed : NormalizedUrl) × (parse sample_platform news_page ≡ some parsed)
      × AllowsUrl sample_platform at_noon parsed)
evaluate_url-allow_iff_example = evaluate_url-allow_iff sample_platform at_noon news_page

evaluate_app-allow_iff_example :
    (evaluate_app sample_platform at_noon game ≡ Decision.allow)
    ↔ AllowsProcess sample_platform at_noon game
evaluate_app-allow_iff_example = evaluate_app-allow_iff sample_platform at_noon game

detox-blocks_url_example : evaluate_url sample_platform at_evening news_page ≢ Decision.allow
unfolding format_time text_eq
detox-blocks_url_example =
    detox-blocks_url sample_platform at_evening news_page news_url news parse_news (Memᴰ.head refl)
      (refl, news_applies) (inl ((refl, omega arith, omega arith), refl))

detox-blocks_app_example : evaluate_app sample_platform at_evening game ≢ Decision.allow
unfolding format_time text_eq
detox-blocks_app_example =
    detox-blocks_app sample_platform at_evening game games (Memᴰ.head refl) (refl, game_applies)
      (inl ((refl, omega arith, omega arith), refl))

tampered-blocks_url_example :
    evaluate_url sample_platform at_night_tampered news_page ≢ Decision.allow
tampered-blocks_url_example =
    tampered-blocks_url sample_platform at_night_tampered refl news_page news_url news parse_news
      (Memᴰ.head refl) refl (λ e. cc) news_applies

evaluate_controlled_rule_fields-allow_iff_example :
    (evaluate_controlled_rule_fields sample_platform at_noon video.id video.name none (ok 0)
      ≡ Decision.allow)
    ↔ ((at_noon.clock_tampered ≡ false)
        × (HasUnlock sample_platform at_noon video.id
            ⊎ ((active_unlock_for_rule video.id (now_utc at_noon) at_noon.database ≡ ok none)
                × HasTimeLeft sample_platform at_noon none (ok 0))))
evaluate_controlled_rule_fields-allow_iff_example =
    evaluate_controlled_rule_fields-allow_iff sample_platform at_noon video.id video.name none
      (ok 0)

-- An address that two Tier 3 lists block; the second names it exactly.
abbrev video_url : NormalizedUrl
video_url = record {
  url_without_fragment = lit "https://video.test/a";
  host = some (lit "video.test");
  path = lit "/a";
}

abbrev video_page : RuleConfig
video_page = record video {
  id = lit "page";
  patterns =
      record {
        kind = RulePatternKind.exact_url;
        value = lit "https://video.test/a";
        match_subdomains = false;
      }
      ∷ [];
}

abbrev page_decision : Decision
page_decision =
    Decision.block
      (BlockReason.controlled_access (lit "page") (lit "Video") ControlledBlockReason.no_allowance)

abbrev page_strictness : Strictness
page_strictness = controlled_rule_strictness sample_platform at_noon video_url video_page

video_loop :
    controlled_loop
      (controlled_rule_is_active sample_platform at_noon)
      (evaluate_controlled_rule sample_platform at_noon)
      (controlled_rule_strictness sample_platform at_noon video_url)
      none
      (video ∷ video_page ∷ [])
    ≡ ok (some (page_decision, page_strictness))
unfolding controlled_loop controlled_rule_is_active evaluate_controlled_rule
    controlled_rule_strictness bloc_kuntu.Policy.Activity.rule_is_active
    bloc_kuntu.Policy.Activity.schedule_ids_are_active
    bloc_kuntu.Policy.Schedule.schedule_ids_are_active_at
    bloc_kuntu.Policy.Schedule.schedule_id_is_active text_eq
    bloc_kuntu.Policy.Schedule.schedule_is_active bloc_kuntu.Policy.Schedule.window_is_active
    bloc_kuntu.Config.Time.minutes_after_midnight bloc_kuntu.Config.Time.includes
    bloc_kuntu.Policy.Evaluate.step_controlled evaluate_controlled_rule_fields
    active_unlock_for_rule bloc_kuntu.Store.Unlocks.read_unlock sort_by
    bloc_kuntu.Policy.Evaluate.by_allowance bloc_kuntu.Policy.Evaluate.is_stricter_than
    bloc_kuntu.Policy.Usage.allowance_minutes bloc_kuntu.Policy.Matching.matched_pattern_specificity
    bloc_kuntu.Policy.Matching.max_or_zero bloc_kuntu.Policy.Matching.normalize_url_pattern
    normalized_pattern_value pattern_matches bloc_kuntu.Policy.Matching.pattern_specificity
    site_rule_applies ascii_lower ends_with split_once to_ascii_lowercase trim_end_matches
    bloc_kuntu.Scenarios.address format_time
video_loop = refl

controlled_loop-IsStrictest_example :
    IsStrictest
      (controlled_rule_is_active sample_platform at_noon)
      (evaluate_controlled_rule sample_platform at_noon)
      (controlled_rule_strictness sample_platform at_noon video_url)
      (video ∷ video_page ∷ [])
      page_decision
      page_strictness
controlled_loop-IsStrictest_example =
    controlled_loop-IsStrictest (controlled_rule_is_active sample_platform at_noon)
      (evaluate_controlled_rule sample_platform at_noon)
      (controlled_rule_strictness sample_platform at_noon video_url) (video ∷ video_page ∷ [])
      page_decision page_strictness video_loop
