-- ===== src/Platform.antt =====
-- What the program takes from outside its source: the `url` crate, `chrono`, and the Unicode tables
-- of the standard library. Each is an operation of this record, so every definition that uses one
-- is a function of it.
use bloc_kuntu.Common.{ℕ, Bool, Option}
use bloc_kuntu.Text.{Text}
use bloc_kuntu.Config.{Weekday}

-- A `DateTime<Utc>`: nanoseconds since the Unix epoch. Earlier instants are not represented.
abbrev pub Instant : Type 0
Instant = ℕ

abbrev pub second : Instant
second = 1_000_000_000

abbrev pub minute_ns : Instant
minute_ns = 60_000_000_000

abbrev pub day_ns : Instant
day_ns = 86_400_000_000_000

-- A `FixedOffset`, by a code that only chrono reads.
abbrev pub Offset : Type 0
Offset = ℕ

-- A `NaiveDate`, by its number in the calendar: `succ_opt` is `suc`.
abbrev pub Day : Type 0
Day = ℕ

-- `DateTime<FixedOffset>`
pub record DateTime : Type 0 where
  pub utc : Instant
  pub offset : Offset

pub record Chrono : Type 0 where
  -- `date_naive()` of an instant at an offset
  pub date : Offset → Instant → Day
  pub weekday : Day → Weekday
  pub hour : Offset → Instant → ℕ
  pub minute : Offset → Instant → ℕ
  -- `offset.with_ymd_and_hms(year, month, day, hour, minute, 0).single()`
  pub at_time : Offset → Day → ℕ → ℕ → Instant

-- The observations of a `Url` from which the fragment is removed.
pub record ParsedUrl : Type 0 where
  pub serialization : Text
  pub host_str : Option Text
  pub path : Text

pub record Platform : Type 0 where
  -- `Url::parse(value)` and then `set_fragment(None)`
  pub url_parse : Text → Option ParsedUrl
  pub is_alphabetic : ℕ → Bool
  pub to_lowercase : Text → Text
  pub chrono : Chrono
