-- ===== src/Policy/Schedule.antt =====
-- focus-core/src/policy.rs: when a schedule is active, and when the schedules of a list are.
use bloc_kuntu.Common.{
  ℕ, ◌+◌, ◌*◌, Bool, true, not, ◌&&◌, ◌||◌, none, some, List, ltb, leb, if◌then◌else◌, any, find,
  is_empty,
}
use bloc_kuntu.Text.{Text, text_eq}
use bloc_kuntu.Config.{Weekday, ScheduleWindow, ScheduleConfig, Config}
use bloc_kuntu.Platform.{DateTime, Chrono}
use bloc_kuntu.Config.Time.{includes, previous, minutes_after_midnight}

-- The test of one window at a weekday and a minute of the day.
unfoldable pub window_is_active : ScheduleWindow → Weekday → ℕ → Bool
window_is_active window weekday minute =
    let start = minutes_after_midnight window.start in
    let end = minutes_after_midnight window.end in
    if ltb start end
    then includes window.weekday weekday && leb start minute && ltb minute end
    else (includes window.weekday weekday && leb start minute)
      || (includes window.weekday (previous weekday) && ltb minute end)

module _ (c : Chrono) where
  -- `now.hour() as u16 * 60 + now.minute() as u16`
  abbrev pub current_minute : DateTime → ℕ
  current_minute now = c.hour now.offset now.utc * 60 + c.minute now.offset now.utc

  abbrev pub current_weekday : DateTime → Weekday
  current_weekday now = c.weekday (c.date now.offset now.utc)

  unfoldable pub schedule_is_active : ScheduleConfig → DateTime → Bool
  schedule_is_active schedule now =
      any (λ w. window_is_active w (current_weekday now) (current_minute now)) schedule.windows

  -- A schedule that the policy does not have counts as active.
  unfoldable pub schedule_id_is_active : Config → DateTime → Text → Bool
  schedule_id_is_active config now id =
      elim (find (λ (s : ScheduleConfig). text_eq s.id id) config.schedules) [
        | none ↦ true
        | some s ↦ schedule_is_active s now
      ]

  unfoldable pub schedule_ids_are_active_at : List Text → Config → DateTime → Bool → Bool
  schedule_ids_are_active_at schedule_ids config now clock_tampered =
      if clock_tampered
      then not (is_empty schedule_ids)
      else not (is_empty schedule_ids) && any (schedule_id_is_active config now) schedule_ids
