-- ===== src/Config/Time/Roundtrip.antt =====
-- focus-core/src/config.rs, TimeOfDay: reading a time of day and writing it.
use bloc_kuntu.Common.{
  ℕ, ◌+◌, ◌/◌, ◌%◌, ◌≤◌, ◌<◌, ◌≡◌, inl, inr, some, [], ◌∷◌, ◌++◌, arith, Option-cases,
}
use bloc_kuntu.Common.Results.{ok}
use bloc_kuntu.Text.{Text, split_once, byte_len}
use bloc_kuntu.Config.{TimeOfDay}
use bloc_kuntu.Config.Time.{new, parse_u8, from_parts, from_str, or_error, pad2, to_string}

abbrev pub IsTime : TimeOfDay → Type 0
IsTime t = (t.hour ≤ 23) × (t.minute ≤ 59)

from_parts-IsTime : (h m : Text) {t : TimeOfDay} → from_parts h m ≡ ok t → IsTime t
unfolding from_parts or_error new
from_parts-IsTime h m e = ground arith

-- A text that `from_str` accepts gives an hour up to 23 and a minute up to 59.
pub from_str-IsTime : (s : Text) (t : TimeOfDay) → from_str s ≡ ok t → IsTime t
unfolding from_str
from_str-IsTime s t e = elim (Option-cases (split_once b':' s)) [
  | inl missing ↦ ground arith
  | inr (p, found) ↦ from_parts-IsTime p.0 p.1 (ground arith)
]

-- Two digits read back.
digit_pair : ℕ → Text
digit_pair n = (b'0' + n / 10) ∷ (b'0' + n % 10) ∷ []

parse_u8-digit_pair : (n : ℕ) → n < 100 → parse_u8 (digit_pair n) ≡ some n
unfolding parse_u8 digit_pair
parse_u8-digit_pair n h = ground arith

pad2-digit_pair : (n : ℕ) → n < 100 → pad2 n ≡ digit_pair n
unfolding pad2 digit_pair
pad2-digit_pair n h = ground arith

byte_len-digit_pair : (n : ℕ) → n < 100 → byte_len (digit_pair n) ≡ 2
unfolding byte_len digit_pair
byte_len-digit_pair n h = ground arith

split_once-digit_pair :
    (n : ℕ) (s : Text)
    → n < 100
    → split_once b':' (digit_pair n ++ (b':' ∷ s)) ≡ some (digit_pair n, s)
unfolding split_once digit_pair
split_once-digit_pair n s h = ground arith

from_parts-digit_pair :
    (h m : ℕ)
    → h ≤ 23
    → m ≤ 59
    → from_parts (digit_pair h) (digit_pair m) ≡ ok (record { hour = h; minute = m })
unfolding from_parts or_error new
from_parts-digit_pair h m p q = ground (
  arith,
  parse_u8-digit_pair h,
  parse_u8-digit_pair m,
  byte_len-digit_pair h,
  byte_len-digit_pair m,
)

-- What `Display` writes for a valid time of day, `from_str` reads back.
pub from_str-to_string : (t : TimeOfDay) → IsTime t → from_str (to_string t) ≡ ok t
unfolding from_str to_string
from_str-to_string t (p, q) =
    rw (pad2-digit_pair t.hour (omega arith), pad2-digit_pair t.minute (omega arith))
      (rw (split_once-digit_pair t.hour (digit_pair t.minute) (omega arith), from_str)
        (from_parts-digit_pair t.hour t.minute p q))

-- A sign passes for a digit: `+` and a digit make two bytes that `parse::<u8>` reads.
signed_parts :
    (a b : ℕ)
    → a < 10
    → b < 10
    → from_str (b'+' ∷ (b'0' + a) ∷ b':' ∷ b'+' ∷ (b'0' + b) ∷ [])
      ≡ ok (record { hour = a; minute = b })
unfolding from_str from_parts or_error new parse_u8 byte_len split_once
signed_parts a b p q = ground arith
