-- ===== src/Scenarios/Metering.antt =====
-- focus-core/src/policy.rs and focus-core/src/db.rs: seconds and visits counted on the sample.
use bloc_kuntu.Common.{
  All, ◌-◌, ◌*◌, ◌/◌, ◌≤◌, ◌≡◌, refl, ◌↔◌, false, none, some, List, [], ◌∷◌, arith, Any, sort_by,
}
use bloc_kuntu.Text.{lit, text_eq}
use bloc_kuntu.Common.Results.{ok}
use bloc_kuntu.Platform.{Instant, second}
use bloc_kuntu.Store.Detox.{Interval, detox_intervals_for_site_rule_between}
use bloc_kuntu.Store.Visits.Counting.{open_visits}
use bloc_kuntu.Store.Visits.Open.{
  Failures, VisitCall, starts, ends, IsOnePerTab, after_calls, after_calls-IsOnePerTab,
}
use bloc_kuntu.Policy.Activity.{Context}
use bloc_kuntu.Policy.Usage.{
  all_intervals, schedules_of, rule_active_seconds_between, merge_loop, window_on, clip,
}
use bloc_kuntu.Policy.Usage.Windows.{IsCalendar, IsOfDay, HasTimes}
use bloc_kuntu.Config.{ScheduleWindow}
use bloc_kuntu.Policy.Usage.Merging.{IsIn, IsApart, total_seconds}
use bloc_kuntu.Policy.Usage.Bounds.{
  Counts, rule_active_seconds_between-IsMerged, rule_active_seconds_between-le_period,
}
use bloc_kuntu.Scenarios.{
  work, sample_config, sample_database, sample_platform, utc, news, context_at, hour_length,
}

abbrev at_noon : Context
at_noon = context_at 12 0 false

-- Working hours from 9:00 to 17:30, and the Detox from 18:00.
counted_until_seven :
    rule_active_seconds_between sample_platform at_noon news (8 * hour_length) (19 * hour_length) 0
    ≡ ok 34200
unfolding rule_active_seconds_between detox_intervals_for_site_rule_between merge_loop sort_by
    text_eq bloc_kuntu.Store.format_time bloc_kuntu.Store.parse_time all_intervals
    bloc_kuntu.Policy.Usage.date_intervals bloc_kuntu.Policy.Usage.schedule_intervals
    bloc_kuntu.Policy.Usage.window_intervals bloc_kuntu.Config.Time.includes clip window_on
counted_until_seven = refl

utc-IsCalendar : IsCalendar utc
utc-IsCalendar = record {
  from_date = λ o t date hour minute h m le. omega (arith, h, m, le);
  until_date = λ o t date hour minute h m lt. omega (arith, h, m, lt);
  in_order = λ o s t le. omega (arith, le);
}

windows-IsOfDay : All (λ (w : ScheduleWindow). IsOfDay w.start × IsOfDay w.end) work.windows
windows-IsOfDay = ((((omega arith), (omega arith)), ((omega arith), (omega arith))), tt)

sample-HasTimes : HasTimes sample_config.schedules
sample-HasTimes = (windows-IsOfDay, tt)

rule_active_seconds_between-IsMerged_example :
    (detox : List Interval) × (detox_intervals_for_site_rule_between news.id
        (8 * hour_length)
        (19 * hour_length)
        at_noon.database
      ≡ ok detox)
    × ((ms : List Interval) × (34200 ≡ total_seconds ms)
        × IsApart ms
        × ((t : Instant)
            → Counts sample_platform at_noon news (8 * hour_length) (19 * hour_length) 0 detox t
              ↔ Any (IsIn t) ms))
rule_active_seconds_between-IsMerged_example =
    rule_active_seconds_between-IsMerged sample_platform at_noon news (8 * hour_length)
      (19 * hour_length) 0 utc-IsCalendar sample-HasTimes counted_until_seven (omega arith)

rule_active_seconds_between-le_period_example :
    34200 ≤ (19 * hour_length - 8 * hour_length) / second
rule_active_seconds_between-le_period_example =
    rule_active_seconds_between-le_period sample_platform at_noon news (8 * hour_length)
      (19 * hour_length) 0 counted_until_seven

abbrev three_calls : List (Failures × VisitCall)
three_calls =
    (λ _. none, starts none (lit "news.test") (lit "https://news.test/") (lit "tab") 1000)
    ∷ (λ _. none, starts none (lit "news.test") (lit "https://news.test/b") (lit "tab") 2000)
    ∷ (λ _. some (lit "disk full"), ends 1 3000)
    ∷ []

sample-IsOnePerTab : IsOnePerTab sample_database
unfolding open_visits
sample-IsOnePerTab tab = omega arith

after_calls-IsOnePerTab_example : IsOnePerTab (after_calls three_calls sample_database)
after_calls-IsOnePerTab_example =
    after_calls-IsOnePerTab three_calls sample_database sample-IsOnePerTab
