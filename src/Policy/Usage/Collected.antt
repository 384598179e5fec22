-- ===== src/Policy/Usage/Collected.antt =====
-- focus-core/src/policy.rs, rule_active_seconds_between: the loop over the dates collects the
-- instants of the period that are in a window of one of the dates.
use bloc_kuntu.Common.{
  ℕ, zero, suc, ◌+◌, ◌≤◌, ◌<◌, min, max, ◌≡◌, refl, inl, inr, true, Option, none, some, List, [],
  ◌∷◌, arith, ltb, lt→ltb, ◌==◌, if◌then◌else◌, Bool-cases, Any, Any-map,
}
use mathlib.Core.Path.{subst}
use bloc_kuntu.Common.Members.{
  Any-append_left, Any-append_right, Any-of_append, filter_map-Any, filter_map-Any_of,
}
use bloc_kuntu.Config.{ScheduleWindow, ScheduleConfig}
use bloc_kuntu.Config.Time.{includes}
use bloc_kuntu.Platform.{Instant, Offset, Day, Chrono}
use bloc_kuntu.Store.Detox.{Interval}
use bloc_kuntu.Policy.Usage.{clip, window_on, window_intervals, schedule_intervals, date_intervals}
use bloc_kuntu.Policy.Usage.Merging.{IsIn}

module _ (start end t : Instant) where
  -- The instant is in the period.
  abbrev pub IsBetween : Type 0
  IsBetween = (start ≤ t) × (t < end)

  clip-IsIn :
      (j : Interval)
      → IsBetween
      → IsIn t j
      → (i : Interval) × (clip start end j ≡ some i) × IsIn t i
  unfolding clip
  clip-IsIn j (after, before) (from, until) =
      let proper : ltb (max j.0 start) (min j.1 end) ≡ true = lt→ltb _ _ (omega arith) in
      ((max j.0 start, min j.1 end), rw proper refl, (omega arith, omega arith))

  clip-IsIn_of : (j i : Interval) → clip start end j ≡ some i → IsIn t i → IsBetween × IsIn t j
  unfolding clip
  clip-IsIn_of j i e (from, until) = elim (Bool-cases (ltb (max j.0 start) (min j.1 end))) [
    | inr f ↦ absurd (ground arith)
    | inl f ↦
        let same_start : max j.0 start ≡ i.0 = ground arith in
        let same_end : min j.1 end ≡ i.1 = ground arith in
        ((omega arith, omega arith), (omega arith, omega arith))
  ]

module _ (c : Chrono) (o : Offset) (t : Instant) where
  -- The instant is in a window of the date, in the words of the code.
  abbrev pub InWindow : Day → ScheduleWindow → Type 0
  InWindow date w = (includes w.weekday (c.weekday date) ≡ true) × IsIn t (window_on c o date w)

  -- Some window of the date is open.
  abbrev pub OnDate : Day → List ScheduleConfig → Type 0
  OnDate date = Any (λ (s : ScheduleConfig). Any (InWindow date) s.windows)

module _ (c : Chrono) (o : Offset) (start end t : Instant) where
  abbrev part : Day → ScheduleWindow → Option Interval
  part date w =
      if includes w.weekday (c.weekday date) then clip start end (window_on c o date w) else none

  part-found :
      (date : Day) (w : ScheduleWindow)
      → IsBetween start end t
      → InWindow c o t date w
      → (i : Interval) × (part date w ≡ some i) × IsIn t i
  part-found date w between (day, h) =
      let (i, e, inside) = clip-IsIn start end t (window_on c o date w) between h in
      (i, rw day e, inside)

  part-InWindow :
      (date : Day) (w : ScheduleWindow) (i : Interval)
      → part date w ≡ some i
      → IsIn t i
      → IsBetween start end t × InWindow c o t date w
  part-InWindow date w i e inside = elim (Bool-cases (includes w.weekday (c.weekday date))) [
    | inr f ↦ absurd (ground arith)
    | inl f ↦
        let (between, h) = clip-IsIn_of start end t (window_on c o date w) i (rw f at e) inside in
        (between, (f, h))
  ]

  schedule_intervals-Any :
      (date : Day) (ss : List ScheduleConfig)
      → IsBetween start end t
      → OnDate c o t date ss
      → Any (IsIn t) (schedule_intervals c o start end date ss)
  unfolding schedule_intervals window_intervals
  schedule_intervals-Any date [] between h = elim h [ ]
  schedule_intervals-Any date (s ∷ ss) between (inl h) =
      Any-append_left (IsIn t) (window_intervals c o start end date s.windows) _ (
        filter_map-Any (part date) (IsIn t) (InWindow c o t date) (λ w. part-found date w between)
          s.windows h)
  schedule_intervals-Any date (s ∷ ss) between (inr h) =
      Any-append_right (IsIn t) (window_intervals c o start end date s.windows) _
        (schedule_intervals-Any date ss between h)

  schedule_intervals-Any_of :
      (date : Day) (ss : List ScheduleConfig)
      → Any (IsIn t) (schedule_intervals c o start end date ss)
      → IsBetween start end t × OnDate c o t date ss
  unfolding schedule_intervals window_intervals
  schedule_intervals-Any_of date [] h = elim h [ ]
  schedule_intervals-Any_of date (s ∷ ss) h =
      elim (Any-of_append (IsIn t) (window_intervals c o start end date s.windows) _ h) [
        | inl k ↦
            let both =
              filter_map-Any_of (part date) (IsIn t)
                (λ w. IsBetween start end t × InWindow c o t date w) (part-InWindow date) s.windows
                k in
            (
              first_of (InWindow c o t date) s.windows both,
              inl (Any-map _ _ (λ w p. p.1) s.windows both),
            )
        | inr k ↦ let (between, rest) = schedule_intervals-Any_of date ss k in (between, inr rest)
      ]
    where
      first_of :
          {P : Type 0} (Q : ScheduleWindow → Type 0) (ws : List ScheduleWindow)
          → Any (λ w. P × Q w) ws
          → P
      first_of Q [] h = elim h [ ]
      first_of Q (w ∷ ws) (inl (p, q)) = p
      first_of Q (w ∷ ws) (inr h) = first_of Q ws h

  pub date_intervals-Any :
      (rounds : ℕ) (from date : Day) (ss : List ScheduleConfig)
      → IsBetween start end t
      → from ≤ date
      → date < from + rounds
      → OnDate c o t date ss
      → Any (IsIn t) (date_intervals c o start end rounds from ss)
  unfolding date_intervals
  date_intervals-Any zero from date ss between le lt h = absurd (omega arith)
  date_intervals-Any (suc rounds) from date ss between le lt h = elim (Bool-cases (from == date)) [
    | inl e ↦
        let same_date : date ≡ from = ground arith in
        Any-append_left (IsIn t) (schedule_intervals c o start end from ss) _
          (schedule_intervals-Any from ss between (subst (λ d. OnDate c o t d ss) same_date h))
    | inr e ↦
        Any-append_right (IsIn t) (schedule_intervals c o start end from ss) _
          (date_intervals-Any rounds (suc from) date ss between (ground arith) (omega arith) h)
  ]

  pub date_intervals-Any_of :
      (rounds : ℕ) (from : Day) (ss : List ScheduleConfig)
      → Any (IsIn t) (date_intervals c o start end rounds from ss)
      → IsBetween start end t × ((date : Day) × OnDate c o t date ss)
  unfolding date_intervals
  date_intervals-Any_of zero from ss h = elim h [ ]
  date_intervals-Any_of (suc rounds) from ss h =
      elim (Any-of_append (IsIn t) (schedule_intervals c o start end from ss) _ h) [
        | inl k ↦
            let (between, found) = schedule_intervals-Any_of from ss k in (between, (from, found))
        | inr k ↦ date_intervals-Any_of rounds (suc from) ss k
      ]
