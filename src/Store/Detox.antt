-- ===== src/Store/Detox.antt =====
-- focus-core/src/db.rs: Detox sessions.
use bloc_kuntu.Common.{
  min, max, Bool, true, false, not, ◌&&◌, ◌||◌, Option, none, some, List, [], ◌∷◌, ◌++◌, map, ltb,
  leb, ◌==◌, if◌then◌else◌, is_some, any, filter, find, sort_by, filter_map,
}
use bloc_kuntu.Common.Results.{err}
use bloc_kuntu.Text.{Text, lit, text_eq}
use bloc_kuntu.Platform.{Instant}
use bloc_kuntu.Types.{Error, Fallible, DetoxSession}
use bloc_kuntu.Store.{
  Stamp, format_time, parse_time, DetoxRow, Database, attempt, commit, id_member, is_distinct,
  read_active_detox, read_uncancelled_detox, read_detox_intervals, write_detox, write_detox_cancel,
}

-- `detox_session_base_from_row` with the rule ids of the two target tables.
unfoldable pub session_of_row : DetoxRow → DetoxSession
session_of_row r = record {
  id = r.id;
  name = r.name;
  starts_at = parse_time r.starts_at;
  ends_at = parse_time r.ends_at;
  cancelled_at = elim r.cancelled_at [ none ↦ none | some s ↦ some (parse_time s) ];
  site_rule_ids = r.site_rule_ids;
  app_rule_ids = r.app_rule_ids;
}

unfoldable pub row_of_session : DetoxSession → DetoxRow
row_of_session s = record {
  id = s.id;
  name = s.name;
  starts_at = format_time s.starts_at;
  ends_at = format_time s.ends_at;
  cancelled_at = elim s.cancelled_at [ none ↦ none | some t ↦ some (format_time t) ];
  site_rule_ids = s.site_rule_ids;
  app_rule_ids = s.app_rule_ids;
}

-- SQLite compares texts by their bytes.
text_le : Text → Text → Bool
text_le [] t = true
text_le (c ∷ s) [] = false
text_le (c ∷ s) (d ∷ t) = ltb c d || (c == d && text_le s t)

-- ORDER BY ends_at DESC, starts_at DESC, id
unfoldable pub ends_later : DetoxRow → DetoxRow → Bool
unfolding text_le
ends_later a b =
    ltb b.ends_at a.ends_at
    || (a.ends_at == b.ends_at
        && (ltb b.starts_at a.starts_at || (a.starts_at == b.starts_at && text_le a.id b.id)))

abbrev pub is_uncancelled : DetoxRow → Bool
is_uncancelled r = not (is_some r.cancelled_at)

abbrev pub is_active_row : Stamp → DetoxRow → Bool
is_active_row now r = leb r.starts_at now && (ltb now r.ends_at && is_uncancelled r)

unfoldable pub active_detox_sessions : Instant → Database → Fallible (List DetoxSession)
active_detox_sessions now db = attempt db read_active_detox (
    map session_of_row
      (sort_by ends_later (filter (is_active_row (format_time now)) db.detox_sessions)))

unfoldable pub uncancelled_detox_sessions : Database → Fallible (List DetoxSession)
uncancelled_detox_sessions db =
    attempt db read_uncancelled_detox
      (map session_of_row (sort_by ends_later (filter is_uncancelled db.detox_sessions)))

-- The WHERE clause of `detox_intervals_for_site_rule_between`.
abbrev pub overlaps : Text → Stamp → Stamp → DetoxRow → Bool
overlaps rule_id start end r =
    id_member rule_id r.site_rule_ids
    && ltb r.starts_at end
    && ltb start r.ends_at
    && elim r.cancelled_at [ none ↦ true | some c ↦ ltb start c ]

-- When the session's block ended: at its end, or when it was cancelled before.
abbrev pub effective_end : DetoxRow → Instant
effective_end r = elim r.cancelled_at [
  | none ↦ parse_time r.ends_at
  | some c ↦ min (parse_time r.ends_at) (parse_time c)
]

abbrev pub Interval : Type 0
Interval = Instant × Instant

abbrev pub clip_row : Instant → Instant → DetoxRow → Option Interval
clip_row start end r =
    let overlap_start = max (parse_time r.starts_at) start in
    let overlap_end = min (effective_end r) end in
    if ltb overlap_start overlap_end then some (overlap_start, overlap_end) else none

abbrev starts_earlier : DetoxRow → DetoxRow → Bool
starts_earlier a b =
    ltb a.starts_at b.starts_at || (a.starts_at == b.starts_at && leb a.ends_at b.ends_at)

unfoldable pub detox_intervals_for_site_rule_between :
    Text → Instant → Instant → Database → Fallible (List Interval)
detox_intervals_for_site_rule_between rule_id start end db =
    attempt db (read_detox_intervals rule_id) (
      filter_map (clip_row start end) (
        sort_by starts_earlier
          (filter (overlaps rule_id (format_time start) (format_time end)) db.detox_sessions)))

-- The keys of the three tables: the session's id is new and no list is named twice.
unfoldable pub insert_detox_session : DetoxSession → Database → Database × Fallible DetoxSession
insert_detox_session s db =
    let is_new = not (any (λ (r : DetoxRow). text_eq r.id s.id) db.detox_sessions) in
    if is_new && is_distinct s.site_rule_ids && is_distinct s.app_rule_ids
    then commit db write_detox
        (record db { detox_sessions = db.detox_sessions ++ row_of_session s ∷ [] }, s)
    else (db, err (Error.database (lit "UNIQUE constraint failed")))

cancel_row : Text → Stamp → DetoxRow → DetoxRow
cancel_row id at r =
    if text_eq r.id id && is_uncancelled r then record r { cancelled_at = some at } else r

-- The UPDATE of `cancel_detox_session`, and the row that it then reads.
unfoldable pub cancel_detox_session :
    Text → Instant → Database → Database × Fallible (Option DetoxSession)
unfolding cancel_row
cancel_detox_session id cancelled_at db =
    let rows = map (cancel_row id (format_time cancelled_at)) db.detox_sessions in
    commit db write_detox_cancel (
      record db { detox_sessions = rows },
      elim (find (λ (r : DetoxRow). text_eq r.id id) rows) [
        | none ↦ none
        | some r ↦ some (session_of_row r)
      ],
    )
