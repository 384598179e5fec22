-- ===== src/Policy/Usage/Windows.antt =====
-- focus-core/src/policy.rs, rule_active_seconds_between: the loop over the dates and the windows of
-- the schedules finds every instant of the period at which a window is open.
use bloc_kuntu.Common.{
  ℕ, suc, ◌+◌, ◌-◌, ◌*◌, ◌≤◌, ◌<◌, ◌≡◌, refl, sym, ◌↔◌, inl, inr, Bool, true, false, List, [], ◌∷◌,
  arith, ltb, if◌then◌else◌, Bool-cases, All, Any, filter,
}
use mathlib.Core.Path.{subst}
use bloc_kuntu.Text.{Text}
use bloc_kuntu.Config.{TimeOfDay, ScheduleWindow, ScheduleConfig}
use bloc_kuntu.Config.Time.{includes}
use bloc_kuntu.Platform.{Instant, Offset, Day, Chrono}
use bloc_kuntu.Store.{id_member}
use bloc_kuntu.Policy.Usage.{time_lt, window_on, all_intervals}
use bloc_kuntu.Policy.Usage.Merging.{IsIn}
use bloc_kuntu.Policy.Usage.Collected.{
  IsBetween, InWindow, OnDate, date_intervals-Any, date_intervals-Any_of,
}

-- An hour and a minute of a day.
abbrev pub IsOfDay : TimeOfDay → Type 0
IsOfDay t = (t.hour ≤ 23) × (t.minute ≤ 59)

-- What a calendar with a fixed offset promises: a time of a day is on its date, and dates follow one
-- another as instants do.
pub record IsCalendar (c : Chrono) : Type 0 where
  pub from_date :
      (o : Offset) (t : Instant) (date : Day) (hour minute : ℕ)
      → hour ≤ 23
      → minute ≤ 59
      → c.at_time o date hour minute ≤ t
      → date ≤ c.date o t
  pub until_date :
      (o : Offset) (t : Instant) (date : Day) (hour minute : ℕ)
      → hour ≤ 23
      → minute ≤ 59
      → t < c.at_time o date hour minute
      → c.date o t ≤ date
  pub in_order : (o : Offset) (s t : Instant) → s ≤ t → c.date o s ≤ c.date o t

-- The window is open at the instant, opened on the date: it is for that day of the week, and the
-- instant is from its start on that date until its end, the next day where the end is not after the
-- start.
pub record IsOpen (c : Chrono) (o : Offset) (t : Instant) (date : Day) (w : ScheduleWindow)
    : Type 0 where
  pub on_day : includes w.weekday (c.weekday date) ≡ true
  pub from : c.at_time o date w.start.hour w.start.minute ≤ t
  pub until :
      t
      < c.at_time o
          (if ltb (w.start.hour * 60 + w.start.minute) (w.end.hour * 60 + w.end.minute)
            then date
            else suc date)
          w.end.hour
          w.end.minute

-- Some window of a schedule that has one of the ids is open at the instant.
abbrev pub IsScheduled : Chrono → Offset → Instant → List Text → List ScheduleConfig → Type 0
IsScheduled c o t ids schedules =
    (date : Day) × Any
      (λ (s : ScheduleConfig). (id_member s.id ids ≡ true) × Any (IsOpen c o t date) s.windows)
      schedules

-- The times of all windows are times of a day.
abbrev pub HasTimes : List ScheduleConfig → Type 0
HasTimes = All (λ (s : ScheduleConfig).
    All (λ (w : ScheduleWindow). IsOfDay w.start × IsOfDay w.end) s.windows)

time_lt_minutes :
    (a b : TimeOfDay)
    → IsOfDay a
    → IsOfDay b
    → time_lt a b ≡ ltb (a.hour * 60 + a.minute) (b.hour * 60 + b.minute)
time_lt_minutes a b (h, m) (h', m') = ground arith

module _ (c : Chrono) (o : Offset) (t : Instant) where
  IsOpen-InWindow :
      (date : Day) (w : ScheduleWindow)
      → IsOfDay w.start × IsOfDay w.end
      → IsOpen c o t date w ↔ InWindow c o t date w
  unfolding window_on
  IsOpen-InWindow date w (from_time, until_time) =
      let same_test = time_lt_minutes w.start w.end from_time until_time in
      (
        λ h. (
          h.on_day,
          (
            h.from,
            subst (λ b. t < c.at_time o (if b then date else suc date) w.end.hour w.end.minute)
                (sym same_test) h.until,
          ),
        ),
        λ h. record {
          on_day = h.0;
          from = h.1.0;
          until =
              subst (λ b. t < c.at_time o (if b then date else suc date) w.end.hour w.end.minute)
                same_test h.1.1;
        },
      )

  windows_iff :
      (date : Day) (ws : List ScheduleWindow)
      → All (λ (w : ScheduleWindow). IsOfDay w.start × IsOfDay w.end) ws
      → Any (IsOpen c o t date) ws ↔ Any (InWindow c o t date) ws
  windows_iff date [] times = (λ h. h, λ h. h)
  windows_iff date (w ∷ ws) (time, times) =
      let first = IsOpen-InWindow date w time in
      let rest = windows_iff date ws times in
      (
        λ h. elim h [ inl x ↦ inl (first.0 x) | inr x ↦ inr (rest.0 x) ],
        λ h. elim h [ inl x ↦ inl (first.1 x) | inr x ↦ inr (rest.1 x) ],
      )

  module _ (ids : List Text) where
    abbrev Opens : Day → List ScheduleConfig → Type 0
    Opens date =
        Any
          (λ (s : ScheduleConfig). (id_member s.id ids ≡ true) × Any (IsOpen c o t date) s.windows)

    selected : List ScheduleConfig → List ScheduleConfig
    selected schedules = filter (λ (s : ScheduleConfig). id_member s.id ids) schedules

    OnDate-iff :
        (date : Day) (ss : List ScheduleConfig)
        → HasTimes ss
        → Opens date ss ↔ OnDate c o t date (selected ss)
    unfolding selected
    OnDate-iff date [] times = (λ h. h, λ h. h)
    OnDate-iff date (s ∷ ss) (time, times) =
        let first = windows_iff date s.windows time in
        let rest = OnDate-iff date ss times in
        elim (Bool-cases (id_member s.id ids)) [
          | inl e ↦
              rw (e, selected)
                (
                  (λ h. elim h [ inl x ↦ inl (first.0 x.1) | inr x ↦ inr (rest.0 x) ]),
                  (λ h. elim h [ inl x ↦ inl (refl, first.1 x) | inr x ↦ inr (rest.1 x) ]),
                )
          | inr e ↦
              rw (e, selected)
                (
                  (λ h. elim h [ inl x ↦ absurd (false-ne-true x.0) | inr x ↦ rest.0 x ]),
                  (λ h. inr (rest.1 h)),
                )
        ]
      where
        false-ne-true : ◌≡◌ {A = Bool} false true → ⊥
        false-ne-true e = cc

    module _ (cal : IsCalendar c) where
      window_near :
          (date : Day) (ws : List ScheduleWindow)
          → All (λ (w : ScheduleWindow). IsOfDay w.start × IsOfDay w.end) ws
          → Any (IsOpen c o t date) ws
          → (date ≤ c.date o t) × (c.date o t ≤ suc date)
      window_near date [] times h = elim h [ ]
      window_near date (w ∷ ws) (time, times) (inr h) = window_near date ws times h
      window_near date (w ∷ ws) ((from_time, until_time), times) (inl h) =
          let after = cal.from_date o t date _ _ from_time.0 from_time.1 h.from in
          let before = cal.until_date o t _ _ _ until_time.0 until_time.1 h.until in
          let next =
            next_date (ltb (w.start.hour * 60 + w.start.minute) (w.end.hour * 60 + w.end.minute))
              date in
          (after, omega (arith, before, next))
        where
          next_date : (b : Bool) (date : Day) → (if b then date else suc date) ≤ suc date
          next_date true date = omega arith
          next_date false date = omega arith

      schedule_near :
          (date : Day) (ss : List ScheduleConfig)
          → HasTimes ss
          → Opens date ss
          → (date ≤ c.date o t) × (c.date o t ≤ suc date)
      schedule_near date [] times h = elim h [ ]
      schedule_near date (s ∷ ss) (time, times) (inl h) = window_near date s.windows time h.1
      schedule_near date (s ∷ ss) (time, times) (inr h) = schedule_near date ss times h

      -- The intervals of the schedules hold the instants of the period at which a window is open.
      pub all_intervals-IsScheduled :
          (start end : Instant) (schedules : List ScheduleConfig)
          → HasTimes schedules
          → (IsBetween start end t × IsScheduled c o t ids schedules)
            ↔ Any (IsIn t) (
                all_intervals c o start end
                  (filter (λ (s : ScheduleConfig). id_member s.id ids) schedules))
      unfolding all_intervals selected
      all_intervals-IsScheduled start end schedules times = (
        λ h.
            let (between, (date, opens)) = h in
            let (low, high) = schedule_near date schedules times opens in
            let from_start = cal.in_order o start t between.0 in
            let to_end = cal.in_order o t end (omega (arith, between.1)) in
            date_intervals-Any c o start end t _ (c.date o start - 1) date _ between (omega arith)
              (omega arith) ((OnDate-iff date schedules times).0 opens),
        λ h.
            let (between, (date, found)) = date_intervals-Any_of c o start end t _ _ _ h in
            (between, (date, (OnDate-iff date schedules times).1 found)),
      )
