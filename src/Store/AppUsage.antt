-- ===== src/Store/AppUsage.antt =====
-- focus-core/src/db.rs: the time that applications were in use.
use bloc_kuntu.Common.{
  ℕ, ◌+◌, ◌-◌, ◌/◌, min, max, Bool, ◌&&◌, none, some, List, [], ◌∷◌, ltb, if◌then◌else◌, filter,
}
use bloc_kuntu.Text.{Text, text_eq}
use bloc_kuntu.Platform.{Instant, second}
use bloc_kuntu.Types.{Fallible}
use bloc_kuntu.Store.{
  Stamp, format_time, parse_time, AppUsageRow, Database, attempt, read_app_usage,
}

abbrev in_period : Text → Stamp → Stamp → Stamp → AppUsageRow → Bool
in_period rule_id period_start period_end now s =
    text_eq s.rule_id rule_id
    && ltb s.started_at period_end
    && ltb period_start (elim s.ended_at [ none ↦ now | some e ↦ e ])

-- One round of the loop: the seconds of the session inside the period, up to now.
unfoldable pub session_seconds : Instant → Instant → Instant → AppUsageRow → ℕ
session_seconds period_start period_end now s =
    let ended_at : Instant = elim s.ended_at [ none ↦ now | some e ↦ parse_time e ] in
    let clamped_start = max (parse_time s.started_at) period_start in
    let clamped_end = min (min ended_at now) period_end in
    if ltb clamped_start clamped_end then (clamped_end - clamped_start) / second else 0

unfoldable pub sum_sessions : Instant → Instant → Instant → List AppUsageRow → ℕ
sum_sessions period_start period_end now [] = 0
sum_sessions period_start period_end now (s ∷ rest) =
    session_seconds period_start period_end now s + sum_sessions period_start period_end now rest

unfoldable pub used_seconds_for_app_rule_between :
    Text → Instant → Instant → Instant → Database → Fallible ℕ
used_seconds_for_app_rule_between rule_id period_start period_end now db =
    attempt db (read_app_usage rule_id) (
      sum_sessions period_start period_end now (
        filter
          (in_period rule_id (format_time period_start) (format_time period_end) (format_time now))
          db.app_usage_sessions))
