-- ===== src/Store/Visits.antt =====
-- focus-core/src/db.rs: visits of websites.
pub mod Counting
pub mod Open
use bloc_kuntu.Common.{
  ℕ, ◌+◌, Bool, not, ◌&&◌, Option, none, some, List, [], ◌∷◌, ◌++◌, map, ltb, ◌==◌, if◌then◌else◌,
  is_some, filter,
}
use bloc_kuntu.Common.Results.{ok, err}
use bloc_kuntu.Text.{Text, text_eq}
use bloc_kuntu.Platform.{Instant}
use bloc_kuntu.Types.{Fallible, VisitState}
use bloc_kuntu.Store.{
  Stamp, format_time, parse_time, VisitRow, Database, attempt, commit, read_visit_usage,
  close_tab_visits, write_visit, write_visit_heartbeat, write_visit_end,
}

pub record VisitUsage : Type 0 where
  pub rule_id : Option Text
  pub url : Text
  pub started_at : Instant
  pub last_heartbeat_at : Instant
  pub ended_at : Option Instant

abbrev pub is_open : VisitRow → Bool
is_open v = not (is_some v.ended_at)

-- COALESCE(ended_at, last_heartbeat_at, now); `last_heartbeat_at` is NOT NULL.
abbrev last_moment : VisitRow → Stamp
last_moment v = elim v.ended_at [ none ↦ v.last_heartbeat_at | some s ↦ s ]

usage_of_row : VisitRow → VisitUsage
usage_of_row v = record {
  rule_id = v.rule_id;
  url = v.url;
  started_at = parse_time v.started_at;
  last_heartbeat_at = parse_time v.last_heartbeat_at;
  ended_at = elim v.ended_at [ none ↦ none | some s ↦ some (parse_time s) ];
}

unfoldable pub visit_usage_between : Instant → Instant → Database → Fallible (List VisitUsage)
unfolding usage_of_row
visit_usage_between period_start period_end db = attempt db read_visit_usage (
    map usage_of_row (
      filter
        (λ (v : VisitRow).
          ltb v.started_at (format_time period_end)
          && ltb (format_time period_start) (last_moment v))
        db.visits))

abbrev pub end_row : Stamp → VisitRow → VisitRow
end_row now v = record v { ended_at = some now; last_heartbeat_at = now }

-- UPDATE visits SET .. WHERE tab_id = ?2 AND ended_at IS NULL
unfoldable pub close_tab : Stamp → Text → VisitRow → VisitRow
close_tab now tab_id v = if text_eq v.tab_id tab_id && is_open v then end_row now v else v

unfoldable pub insert_visit :
    Option Text → Text → Text → Text → Instant → Database → Database × Fallible VisitState
insert_visit rule_id target url tab_id now db =
    let row : VisitRow = record {
      id = db.next_visit;
      rule_id = rule_id;
      target = target;
      url = url;
      tab_id = tab_id;
      started_at = format_time now;
      last_heartbeat_at = format_time now;
      ended_at = none;
    } in
    let state : VisitState = record {
      id = db.next_visit;
      target = target;
      rule_id = rule_id;
      url = url;
      tab_id = tab_id;
      started_at = now;
      last_heartbeat_at = now;
      ended_at = none;
    } in
    commit db write_visit
      (record db { visits = db.visits ++ row ∷ []; next_visit = db.next_visit + 1 }, state)

unfoldable pub after_close :
    Database × Fallible (Unit {0})
    → (Database → Database × Fallible VisitState)
    → Database × Fallible VisitState
after_close (db, ok _) next = next db
after_close (db, err e) next = (db, err e)

-- Two statements outside a transaction: the first stays done where the second fails.
unfoldable pub insert_visit_start :
    Option Text → Text → Text → Text → Instant → Database → Database × Fallible VisitState
unfolding after_close
insert_visit_start rule_id target url tab_id now db =
    after_close
      (commit db close_tab_visits
        (record db { visits = map (close_tab (format_time now) tab_id) db.visits }, tt))
      (insert_visit rule_id target url tab_id now)

unfoldable pub heartbeat_row : Stamp → ℕ → VisitRow → VisitRow
heartbeat_row now id v = if v.id == id && is_open v then record v { last_heartbeat_at = now } else v

unfoldable pub update_visit_heartbeat : ℕ → Instant → Database → Database × Fallible (Unit {0})
unfolding heartbeat_row
update_visit_heartbeat visit_id now db =
    commit db write_visit_heartbeat
      (record db { visits = map (heartbeat_row (format_time now) visit_id) db.visits }, tt)

unfoldable pub end_visit_row : Stamp → ℕ → VisitRow → VisitRow
end_visit_row now id v = if v.id == id && is_open v then end_row now v else v

unfoldable pub end_visit : ℕ → Instant → Database → Database × Fallible (Unit {0})
unfolding end_visit_row
end_visit visit_id now db =
    commit db write_visit_end
      (record db { visits = map (end_visit_row (format_time now) visit_id) db.visits }, tt)
