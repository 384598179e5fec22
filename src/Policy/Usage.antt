-- ===== src/Policy/Usage.antt =====
-- focus-core/src/policy.rs: how much of its daily allowance a list has used.
pub mod Merging
pub mod Collected
pub mod Windows
pub mod Bounds
use bloc_kuntu.Common.{
  ℕ, zero, suc, ◌+◌, ◌-◌, ◌*◌, ◌/◌, min, max, Bool, false, ◌&&◌, ◌||◌, Option, none, some, List, [],
  ◌∷◌, ◌++◌, ltb, leb, ◌==◌, if◌then◌else◌, is_some, filter, find, sort_by, filter_map,
}
use bloc_kuntu.Common.Results.{ok, ◌>>=◌}
use bloc_kuntu.Text.{Text, text_eq}
use bloc_kuntu.Config.{
  RuleTier, TimeOfDay, ScheduleWindow, ScheduleConfig, AllowanceConfig, RuleConfig, AppRuleConfig,
}
use bloc_kuntu.Types.{Fallible, AllowanceStatus}
use bloc_kuntu.Platform.{Instant, second, day_ns, Offset, Day, DateTime, Chrono, Platform}
use bloc_kuntu.Config.Time.{includes}
use bloc_kuntu.Store.{id_member}
use bloc_kuntu.Store.Detox.{Interval, detox_intervals_for_site_rule_between}
use bloc_kuntu.Store.Visits.{VisitUsage, visit_usage_between}
use bloc_kuntu.Store.AppUsage.{used_seconds_for_app_rule_between}
use bloc_kuntu.Policy.Matching.{parse, site_rule_applies}
use bloc_kuntu.Policy.Activity.{Context, now_utc, in_tier}

-- The derived `<` of `TimeOfDay`.
abbrev pub time_lt : TimeOfDay → TimeOfDay → Bool
time_lt a b = ltb a.hour b.hour || (a.hour == b.hour && ltb a.minute b.minute)

-- `window_start` and `window_end` of a window on a date.
unfoldable pub window_on : Chrono → Offset → Day → ScheduleWindow → Interval
window_on c offset date w =
    let end_date = if time_lt w.start w.end then date else suc date in
    (
      c.at_time offset date w.start.hour w.start.minute,
      c.at_time offset end_date w.end.hour w.end.minute,
    )

-- The part of an interval between `start` and `end`, if there is one.
unfoldable pub clip : Instant → Instant → Interval → Option Interval
clip start end i =
    let overlap_start = max i.0 start in
    let overlap_end = min i.1 end in
    if ltb overlap_start overlap_end then some (overlap_start, overlap_end) else none

module _ (c : Chrono) (offset : Offset) (start end : Instant) where
  -- The loop over the windows of one schedule on one date.
  unfoldable pub window_intervals : Day → List ScheduleWindow → List Interval
  window_intervals date windows =
      filter_map
        (λ (w : ScheduleWindow).
          if includes w.weekday (c.weekday date)
          then clip start end (window_on c offset date w)
          else none)
        windows

  -- The loop over the schedules of the list on one date.
  unfoldable pub schedule_intervals : Day → List ScheduleConfig → List Interval
  schedule_intervals date [] = []
  schedule_intervals date (s ∷ rest) =
      window_intervals date s.windows ++ schedule_intervals date rest

  -- `while date <= final_date`, by the number of rounds.
  unfoldable pub date_intervals : ℕ → Day → List ScheduleConfig → List Interval
  date_intervals zero date schedules = []
  date_intervals (suc rounds) date schedules =
      schedule_intervals date schedules ++ date_intervals rounds (suc date) schedules

  -- From the day before `start` to the day of `end`.
  unfoldable pub all_intervals : List ScheduleConfig → List Interval
  all_intervals schedules =
      let first = c.date offset start - 1 in
      date_intervals (suc (c.date offset end) - first) first schedules

abbrev pub starts_before : Interval → Interval → Bool
starts_before a b = leb a.0 b.0

-- `num_seconds` of an interval's length
abbrev pub seconds_of : Interval → ℕ
seconds_of i = (i.1 - i.0) / second

-- The merging loop over the sorted intervals: the total so far, and the interval that grows.
unfoldable pub merge_loop : ℕ → Option Interval → List Interval → ℕ
merge_loop total none [] = total
merge_loop total (some a) [] = total + seconds_of a
merge_loop total none (i ∷ rest) = merge_loop total (some i) rest
merge_loop total (some a) (i ∷ rest) =
    let joined = merge_loop total (some (a.0, max a.1 i.1)) rest in
    let apart = merge_loop (total + seconds_of a) (some i) rest in
    if leb i.0 a.1 then joined else apart

module _ (p : Platform) (ctx : Context) where
  abbrev pub schedules_of : List Text → List ScheduleConfig
  schedules_of ids = filter (λ (s : ScheduleConfig). id_member s.id ids) ctx.config.schedules

  unfoldable pub rule_active_seconds_between : RuleConfig → Instant → Instant → Offset → Fallible ℕ
  rule_active_seconds_between rule start end offset = if leb end start then ok 0 else (do
    detox ← detox_intervals_for_site_rule_between rule.id start end ctx.database
    ok (
        merge_loop 0 none (
          sort_by starts_before
            (detox ++ all_intervals p.chrono offset start end (schedules_of rule.schedule_ids)))))

  -- `local_day_bounds`
  unfoldable pub local_day_bounds : DateTime → Instant × Instant
  local_day_bounds now =
      let day_start = p.chrono.at_time now.offset (p.chrono.date now.offset now.utc) 0 0 in
      (day_start, day_start + day_ns)

  -- Whether a visit counts for the list: recorded for it, or at an address that it covers.
  unfoldable pub visit_counts : RuleConfig → VisitUsage → Bool
  visit_counts rule v =
      (elim v.rule_id [ none ↦ false | some id ↦ text_eq id rule.id ])
      || elim (parse p v.url) [ none ↦ false | some url ↦ site_rule_applies p rule url ]

  -- One round of the loop over the visits.
  unfoldable pub visit_seconds : RuleConfig → VisitUsage → Fallible ℕ
  visit_seconds rule v =
      let (day_start, day_end) = local_day_bounds ctx.now in
      let ended_at : Instant = elim v.ended_at [ none ↦ v.last_heartbeat_at | some t ↦ t ] in
      let clamped_start = max v.started_at day_start in
      let clamped_end = min (min ended_at (now_utc ctx)) day_end in
      if visit_counts rule v
      then (if ltb clamped_start clamped_end
          then rule_active_seconds_between rule clamped_start clamped_end ctx.now.offset
          else ok 0)
      else ok 0

  unfoldable pub sum_visits : RuleConfig → List VisitUsage → Fallible ℕ
  sum_visits rule [] = ok 0
  sum_visits rule (v ∷ rest) =
      let later = sum_visits rule rest in
      do seconds ← visit_seconds rule v; total ← later; ok (seconds + total)

  unfoldable pub used_seconds_for_site_rule_on_day : RuleConfig → Fallible ℕ
  used_seconds_for_site_rule_on_day rule =
      let (day_start, day_end) = local_day_bounds ctx.now in
      do visits ← visit_usage_between day_start day_end ctx.database; sum_visits rule visits

  abbrev pub find_allowance : Text → Option AllowanceConfig
  find_allowance id = find (λ (a : AllowanceConfig). text_eq a.id id) ctx.config.allowances

  -- `rule_allowance_minutes` and `app_rule_allowance_minutes`
  unfoldable pub allowance_minutes : Option Text → Option ℕ
  allowance_minutes none = none
  allowance_minutes (some id) = elim (find_allowance id) [
    | none ↦ none
    | some a ↦ some a.daily_minutes
  ]

  unfoldable pub used_seconds_for_app_rule_today : Text → Fallible ℕ
  used_seconds_for_app_rule_today id =
      let (day_start, day_end) = local_day_bounds ctx.now in
      used_seconds_for_app_rule_between id day_start day_end (now_utc ctx) ctx.database

  -- The filter and the body of the two loops of `allowance_statuses`, over the fields they read.
  status_of :
      RuleTier
      → Bool
      → Option Text
      → Text
      → Text
      → Fallible ℕ
      → Fallible (List AllowanceStatus)
      → Fallible (List AllowanceStatus)
  status_of tier enabled allowance_id id name used rest =
      if in_tier tier enabled RuleTier.controlled_access && is_some allowance_id
      then elim (allowance_minutes allowance_id) [
        | none ↦ rest
        | some total_minutes ↦ do
          used_seconds ← used
          later ← rest
          ok (
              record {
                rule_id = id;
                rule_name = name;
                remaining_seconds = total_minutes * 60 - used_seconds;
              }
              ∷ later)
      ]
      else rest

  app_statuses : List AppRuleConfig → Fallible (List AllowanceStatus)
  app_statuses [] = ok []
  app_statuses (r ∷ rest) =
      status_of r.tier r.enabled r.allowance_id r.id r.name (used_seconds_for_app_rule_today r.id)
        (app_statuses rest)

  site_statuses : List RuleConfig → Fallible (List AllowanceStatus)
  site_statuses [] = app_statuses ctx.config.app_rules
  site_statuses (r ∷ rest) =
      status_of r.tier r.enabled r.allowance_id r.id r.name (used_seconds_for_site_rule_on_day r)
        (site_statuses rest)

  unfoldable pub allowance_statuses : Fallible (List AllowanceStatus)
  unfolding site_statuses app_statuses status_of
  allowance_statuses = site_statuses ctx.config.rules
