-- ===== src/Policy/Usage/Bounds.antt =====
-- focus-core/src/policy.rs, rule_active_seconds_between: which instants are counted, and how many
-- seconds there can be.
use bloc_kuntu.Common.{
  ◌⊎◌, ℕ, zero, suc, ◌-◌, ◌/◌, ◌≤◌, ◌<◌, max, ◌≡◌, refl, sym, ◌∙◌, ◌↔◌, inl, inr, false, Option,
  none, some, List, [], ◌∷◌, ◌++◌, arith, ltb, leb, if◌then◌else◌, ltb→lt, leb→gt, Bool-cases, All,
  Any, sort_by, filter_map,
}
use bloc_kuntu.Common.Results.{ok, >>=-eq-ok}
use bloc_kuntu.Text.{Text}
use bloc_kuntu.Config.{ScheduleWindow, ScheduleConfig, RuleConfig}
use bloc_kuntu.Platform.{Instant, second, Offset, Day, Chrono, Platform}
use mathlib.Core.Path.{subst}
use bloc_kuntu.Config.Time.{includes}
use bloc_kuntu.Types.{Fallible}
use bloc_kuntu.Common.Members.{
  Any-of_sort_by, Any-sort_by, Any-append_left, Any-append_right, All-sort_by, All-append,
}
use bloc_kuntu.Store.{Database, attempt-eq-ok, DetoxRow}
use bloc_kuntu.Store.Detox.{Interval, clip_row, detox_intervals_for_site_rule_between}
use bloc_kuntu.Policy.Activity.{Context}
use bloc_kuntu.Policy.Usage.{
  clip, window_on, window_intervals, schedule_intervals, date_intervals, all_intervals,
  starts_before, schedules_of, rule_active_seconds_between,
}
use bloc_kuntu.Policy.Usage.Collected.{IsBetween}
use bloc_kuntu.Policy.Usage.Windows.{IsCalendar, IsScheduled, HasTimes, all_intervals-IsScheduled}
use bloc_kuntu.Common.Members.{Any-of_append}
use bloc_kuntu.Policy.Usage.Merging.{
  IsIn, IsApart, total_seconds, merge_loop-IsMerged, sort_by-IsSorted,
}

-- The interval is within the period and not empty.
abbrev pub IsWithin : Instant → Instant → Interval → Type 0
IsWithin start end i = (start ≤ i.0) × (i.0 < i.1) × (i.1 ≤ end)

kept-All :
    {B : Type 0} (P : B → Type 0) (o : Option B) (ys : List B)
    → ((y : B) → o ≡ some y → P y)
    → All P ys
    → All P (elim o [ none ↦ ys | some y ↦ y ∷ ys ])
kept-All P none ys good h = h
kept-All P (some y) ys good h = (good y refl, h)

filter_map-All :
    {A B : Type 0} (f : A → Option B) (P : B → Type 0)
    → ((x : A) (y : B) → f x ≡ some y → P y)
    → (xs : List A) → All P (filter_map f xs)
filter_map-All f P good [] = tt
filter_map-All f P good (x ∷ xs) = kept-All P (f x) _ (good x) (filter_map-All f P good xs)

ok-injective : {a b : ℕ} → Path (Fallible ℕ) (ok a) (ok b) → a ≡ b
ok-injective h = cc

lt→leb_false : (a b : ℕ) → b < a → leb a b ≡ false
lt→leb_false a b h = ground arith

after_gap :
    (from bound end : Instant) (rest : List Interval)
    → All (λ k. bound < k.0) rest
    → All (IsWithin from end) rest
    → All (IsWithin bound end) rest
after_gap from bound end [] gaps within = tt
after_gap from bound end (k ∷ rest) (gap, gaps) ((_, proper, before), within) =
    ((omega arith, proper, before), after_gap from bound end rest gaps within)

-- Apart intervals of a period have together no more seconds than the period.
total_seconds-le :
    (from end : Instant) (ms : List Interval)
    → from ≤ end
    → IsApart ms
    → All (IsWithin from end) ms
    → total_seconds ms ≤ (end - from) / second
unfolding IsApart total_seconds
total_seconds-le from end [] le apart within = omega arith
total_seconds-le from end (m ∷ rest) le (gap, apart) ((after, proper, before), within) =
    let later =
      total_seconds-le m.1 end rest before apart (after_gap from m.1 end rest gap within) in
    omega arith

cut-IsWithin :
    (start end a b : Instant) (i : Interval)
    → start ≤ a
    → b ≤ end
    → (if ltb a b then some (a, b) else none) ≡ some i
    → IsWithin start end i
cut-IsWithin start end a b i from until h = elim (Bool-cases (ltb a b)) [
  | inr e ↦ absurd (ground arith)
  | inl e ↦
      let same_pair : (a, b) ≡ i = ground arith in
      subst (IsWithin start end) same_pair (from, ltb→lt _ _ e, until)
]

clip_row-IsWithin :
    (start end : Instant) (row : DetoxRow) (i : Interval)
    → clip_row start end row ≡ some i
    → IsWithin start end i
clip_row-IsWithin start end row i h = cut-IsWithin start end _ _ i (omega arith) (omega arith) h

clip-IsWithin :
    (start end : Instant) (j i : Interval) → clip start end j ≡ some i → IsWithin start end i
unfolding clip
clip-IsWithin start end j i h = cut-IsWithin start end _ _ i (omega arith) (omega arith) h

detox-IsWithin :
    (id : Text) (start end : Instant) (db : Database) {detox : List Interval}
    → detox_intervals_for_site_rule_between id start end db ≡ ok detox
    → All (IsWithin start end) detox
unfolding detox_intervals_for_site_rule_between
detox-IsWithin id start end db h =
    rw (← attempt-eq-ok db _ _ h) (filter_map-All _ _ (clip_row-IsWithin start end) _)

module _ (c : Chrono) (offset : Offset) (start end : Instant) where
  window_interval-IsWithin :
      (date : Day) (w : ScheduleWindow) (i : Interval)
      → (if includes w.weekday (c.weekday date)
          then clip start end (window_on c offset date w)
          else none)
        ≡ some i
      → IsWithin start end i
  window_interval-IsWithin date w i h = elim (Bool-cases (includes w.weekday (c.weekday date))) [
    | inr e ↦ absurd (ground arith)
    | inl e ↦ clip-IsWithin start end (window_on c offset date w) i (rw e at h)
  ]

  schedules-IsWithin :
      (date : Day) (ss : List ScheduleConfig)
      → All (IsWithin start end) (schedule_intervals c offset start end date ss)
  unfolding schedule_intervals window_intervals
  schedules-IsWithin date [] = tt
  schedules-IsWithin date (s ∷ rest) =
      All-append (IsWithin start end) (window_intervals c offset start end date s.windows) _
        (filter_map-All _ _ (window_interval-IsWithin date) s.windows)
        (schedules-IsWithin date rest)

  dates-IsWithin :
      (rounds : ℕ) (date : Day) (ss : List ScheduleConfig)
      → All (IsWithin start end) (date_intervals c offset start end rounds date ss)
  unfolding date_intervals
  dates-IsWithin zero date ss = tt
  dates-IsWithin (suc rounds) date ss =
      All-append (IsWithin start end) (schedule_intervals c offset start end date ss) _
        (schedules-IsWithin date ss) (dates-IsWithin rounds (suc date) ss)

module _ (p : Platform) (ctx : Context) (rule : RuleConfig) (start end : Instant)
    (offset : Offset) where
  abbrev schedule_part : List Interval
  schedule_part = all_intervals p.chrono offset start end (schedules_of p ctx rule.schedule_ids)

  -- What a successful count added up.
  record Counted (n : ℕ) : Type 0 where
    detox : List Interval
    detox_read : detox_intervals_for_site_rule_between rule.id start end ctx.database ≡ ok detox
    parts : List Interval
    counted : n ≡ total_seconds parts
    separate : IsApart parts
    covers : (t : Instant) → Any (IsIn t) (detox ++ schedule_part) ↔ Any (IsIn t) parts
    within : All (IsWithin start end) parts

  join-IsWithin :
      (a i : Interval)
      → IsWithin start end a
      → IsWithin start end i
      → IsWithin start end (a.0, max a.1 i.1)
  join-IsWithin a i (from, proper, until) (_, _, until') = (from, omega arith, omega arith)

  count-Counted :
      (n : ℕ)
      → rule_active_seconds_between p ctx rule start end offset ≡ ok n
      → start < end
      → Counted n
  unfolding rule_active_seconds_between all_intervals
  count-Counted n h before =
      let opened = rw (rule_active_seconds_between, lt→leb_false end start before) at h in
      let (detox, read, summed) =
        >>=-eq-ok (detox_intervals_for_site_rule_between rule.id start end ctx.database) _ opened in
      let intervals = detox ++ schedule_part in
      let sorted = sort_by starts_before intervals in
      let (ms, total, merged, kept) = merge_loop-IsMerged sorted (sort_by-IsSorted intervals) in
      let inside =
        All-append (IsWithin start end) detox schedule_part
          (detox-IsWithin rule.id start end ctx.database read)
          (dates-IsWithin p.chrono offset start end _ _ _) in
      record {
        detox = detox;
        detox_read = read;
        parts = ms;
        counted = sym (ok-injective summed) ∙ total;
        separate = merged.separate;
        covers = λ t. (
          (λ x. (merged.covers t).0 (Any-sort_by (IsIn t) starts_before intervals x)),
          (λ x. Any-of_sort_by (IsIn t) starts_before intervals ((merged.covers t).1 x)),
        );
        within =
            kept (IsWithin start end) join-IsWithin
              (All-sort_by (IsWithin start end) starts_before intervals inside);
      }

  -- An instant counts: a Detox interval holds it, or it is in the period and a window is open.
  abbrev pub Counts : List Interval → Instant → Type 0
  Counts detox t =
      Any (IsIn t) detox
      ⊎ (IsBetween start end t
          × IsScheduled p.chrono offset t rule.schedule_ids ctx.config.schedules)

  -- The active seconds of a list in a period, when they can be read, are those of intervals apart
  -- from each other that hold exactly the instants of the Detox intervals of the list and the
  -- instants of the period at which a window of one of its schedules is open: an instant that several
  -- of them hold counts once. A window is open from its start on a day that it is for, until its end,
  -- which may be on the next day. The calendar must keep a time of a day on its date and the dates in
  -- order, and the windows must have times of a day.
  pub rule_active_seconds_between-IsMerged :
      {n : ℕ}
      → IsCalendar p.chrono
      → HasTimes ctx.config.schedules
      → rule_active_seconds_between p ctx rule start end offset ≡ ok n
      → start < end
      → (detox : List Interval) × (detox_intervals_for_site_rule_between rule.id start end
            ctx.database
          ≡ ok detox)
        × ((ms : List Interval) × (n ≡ total_seconds ms)
            × IsApart ms
            × ((t : Instant) → Counts detox t ↔ Any (IsIn t) ms))
  rule_active_seconds_between-IsMerged {n} cal times h before =
      let c = count-Counted n h before in
      let windows : (t : Instant)
          → (IsBetween start end t
              × IsScheduled p.chrono offset t rule.schedule_ids ctx.config.schedules)
            ↔ Any (IsIn t) schedule_part =
        λ t.
          all_intervals-IsScheduled p.chrono offset t rule.schedule_ids cal start end
            ctx.config.schedules times in
      (
        c.detox,
        c.detox_read,
        (
          c.parts,
          c.counted,
          c.separate,
          λ t. (
            (λ x. (c.covers t).0 (elim x [
              | inl y ↦ Any-append_left (IsIn t) c.detox schedule_part y
              | inr y ↦ Any-append_right (IsIn t) c.detox schedule_part ((windows t).0 y)
            ])),
            (λ x. elim (Any-of_append (IsIn t) c.detox schedule_part ((c.covers t).1 x)) [
              | inl y ↦ inl y
              | inr y ↦ inr ((windows t).1 y)
            ]),
          ),
        ),
      )

  -- The active seconds of a list in a period are never more than the seconds of the period.
  pub rule_active_seconds_between-le_period :
      {n : ℕ}
      → rule_active_seconds_between p ctx rule start end offset ≡ ok n
      → n ≤ (end - start) / second
  unfolding rule_active_seconds_between
  rule_active_seconds_between-le_period {n} h = elim (Bool-cases (leb end start)) [
    | inl e ↦
        let zero_seconds : ok 0 ≡ ok n = rw (rule_active_seconds_between, e) at h in
        let none_counted : 0 ≡ n = ok-injective zero_seconds in omega arith
    | inr e ↦
        let before : start < end = leb→gt _ _ e in
        let c = count-Counted n h before in
        let bound = total_seconds-le start end c.parts (omega arith) c.separate c.within in
        rw (c.counted) bound
  ]
