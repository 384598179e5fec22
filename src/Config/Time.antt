-- ===== src/Config/Time.antt =====
-- focus-core/src/config.rs: days of the week, and times of day with their text form.
pub mod Roundtrip
use bloc_kuntu.Common.{
  ℕ, zero, suc, ◌+◌, ◌-◌, ◌*◌, ◌/◌, ◌%◌, ◌≤◌, ◌<◌, ◌≡◌, refl, ◌∙◌, ◌≢◌, ◌↔◌, ◌⊎◌, inl, inr, Bool,
  true, false, not, ◌&&◌, ◌||◌, Option, none, some, [], ◌∷◌, ◌++◌, arith, ltb, leb, ◌==◌,
  if◌then◌else◌, tests, Option-cases,
}
use bloc_kuntu.Common.Results.{Result, ok, err, ◌>>=◌, ◌>>◌, reject_if}
use bloc_kuntu.Text.{Text, split_once, byte_len}
use bloc_kuntu.Config.{Weekday, weekday_eq, ScheduleDay, TimeOfDay}

unfoldable pub includes : ScheduleDay → Weekday → Bool
includes ScheduleDay.everyday weekday = true
includes ScheduleDay.workdays weekday =
    weekday_eq weekday Weekday.mon
    || weekday_eq weekday Weekday.tue
    || weekday_eq weekday Weekday.wed
    || weekday_eq weekday Weekday.thu
    || weekday_eq weekday Weekday.fri
includes ScheduleDay.weekend weekday =
    weekday_eq weekday Weekday.sat || weekday_eq weekday Weekday.sun
includes ScheduleDay.mon weekday = weekday_eq weekday Weekday.mon
includes ScheduleDay.tue weekday = weekday_eq weekday Weekday.tue
includes ScheduleDay.wed weekday = weekday_eq weekday Weekday.wed
includes ScheduleDay.thu weekday = weekday_eq weekday Weekday.thu
includes ScheduleDay.fri weekday = weekday_eq weekday Weekday.fri
includes ScheduleDay.sat weekday = weekday_eq weekday Weekday.sat
includes ScheduleDay.sun weekday = weekday_eq weekday Weekday.sun

unfoldable pub previous : Weekday → Weekday
previous Weekday.mon = Weekday.sun
previous Weekday.tue = Weekday.mon
previous Weekday.wed = Weekday.tue
previous Weekday.thu = Weekday.wed
previous Weekday.fri = Weekday.thu
previous Weekday.sat = Weekday.fri
previous Weekday.sun = Weekday.sat

-- The messages of `TimeOfDay::new` and `from_str`.
pub data TimeError : Type 0 where
  not_hh_mm not_zero_padded bad_hour bad_minute : TimeError
  invalid_time_of_day : ℕ → ℕ → TimeError

-- `TimeOfDay::new`
unfoldable pub new : ℕ → ℕ → Result TimeError TimeOfDay
new hour minute =
    if ltb 23 hour || ltb 59 minute
    then err (invalid_time_of_day hour minute)
    else ok (record { hour = hour; minute = minute })

-- The product stays below 2 ^ 16 for all u8 fields.
unfoldable pub minutes_after_midnight : TimeOfDay → ℕ
minutes_after_midnight t = t.hour * 60 + t.minute

-- `str::parse::<u8>` of the standard library: an optional `+`, then decimal digits, at most 255.
parse_digits : ℕ → Text → Option ℕ
parse_digits acc [] = some acc
parse_digits acc (c ∷ s) =
    let rest = parse_digits (acc * 10 + (c - b'0')) s in
    if leb b'0' c && leb c b'9' && leb (acc * 10 + (c - b'0')) 255 then rest else none

unfoldable pub parse_u8 : Text → Option ℕ
unfolding parse_digits
parse_u8 [] = none
parse_u8 (c ∷ []) = parse_digits 0 (c ∷ [])
parse_u8 (c ∷ d ∷ s) = if c == b'+' then parse_digits 0 (d ∷ s) else parse_digits 0 (c ∷ d ∷ s)

unfoldable pub or_error : Option ℕ → TimeError → Result TimeError ℕ
or_error none e = err e
or_error (some n) e = ok n

-- The part of `from_str` that follows the split at the colon.
unfoldable pub from_parts : Text → Text → Result TimeError TimeOfDay
from_parts hour minute = do
  reject_if (not (byte_len hour == 2) || not (byte_len minute == 2)) not_zero_padded
  h ← or_error (parse_u8 hour) bad_hour
  m ← or_error (parse_u8 minute) bad_minute
  new h m

unfoldable pub from_str : Text → Result TimeError TimeOfDay
from_str value = elim (split_once b':' value) [
  | none ↦ err not_hh_mm
  | some (hour, minute) ↦ from_parts hour minute
]

-- `{:02}` of a u8
pad2 : ℕ → Text
pad2 n =
    if ltb n 100
    then (b'0' + n / 10) ∷ (b'0' + n % 10) ∷ []
    else (b'0' + n / 100) ∷ (b'0' + n / 10 % 10) ∷ (b'0' + n % 10) ∷ []

-- `Display`, which `Serialize` writes.
unfoldable pub to_string : TimeOfDay → Text
unfolding pad2
to_string t = pad2 t.hour ++ (b':' ∷ pad2 t.minute)
