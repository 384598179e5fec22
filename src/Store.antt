-- ===== src/Store.antt =====
-- focus-core/src/db.rs: the tables of the SQLite database that the policy engine reads and writes.
-- A query is the list function that its SQL text states. A read is a function of the database; a
-- write returns the new database beside its result, also where it fails. Which calls SQLite fails
-- is part of the database, `failure`, one outcome for each call with its arguments.
pub mod Unlocks
pub mod Detox
pub mod Visits
pub mod AppUsage
pub mod Services
use bloc_kuntu.Common.{
  ℕ, zero, suc, ◌+◌, ◌-◌, ◌*◌, ◌/◌, ◌%◌, ◌≤◌, ◌<◌, min, max, ◌≡◌, refl, sym, ap, ◌∙◌, ◌≢◌, ◌↔◌, ◌⊎◌,
  inl, inr, Bool, true, false, not, ◌&&◌, ◌||◌, Option, none, some, List, [], ◌∷◌, ◌++◌, map, arith,
  ltb, leb, ◌==◌, if◌then◌else◌, lt→ltb, tests, Bool-cases, Option-cases, and-true, is_some, All,
  Any, length, any, filter, find, head?, sort_by, filter_map, Any-map,
}
use bloc_kuntu.Common.Results.{ok, err, ◌>>=◌, ◌>>◌}
use bloc_kuntu.Text.{Text, lit, text_eq}
use bloc_kuntu.Platform.{Instant, second}
use bloc_kuntu.Config.{Config}
use bloc_kuntu.Types.{Error, Fallible, DetoxSession, database}

-- The text of `format_time`: microseconds since the epoch. For the years 0 to 9999 its texts are
-- ordered as the instants are.
abbrev pub Stamp : Type 0
Stamp = ℕ

unfoldable pub format_time : Instant → Stamp
format_time t = t / 1000

unfoldable pub parse_time : Stamp → Instant
parse_time s = s * 1000

pub record UnlockTarget : Type 0 where
  pub rule_id : Text
  pub revoked : Bool

-- A row of `unlocks` with its rows of `unlock_rule_targets`, in the order of `position`.
pub record UnlockRow : Type 0 where
  pub id : ℕ
  pub target : Text
  pub rule_id : Text
  pub reason : Text
  pub minutes : ℕ
  pub started_at : Stamp
  pub expires_at : Stamp
  pub targets : List UnlockTarget

pub record VisitRow : Type 0 where
  pub id : ℕ
  pub rule_id : Option Text
  pub target : Text
  pub url : Text
  pub tab_id : Text
  pub started_at : Stamp
  pub last_heartbeat_at : Stamp
  pub ended_at : Option Stamp

pub record AppUsageRow : Type 0 where
  pub id : ℕ
  pub rule_id : Text
  pub started_at : Stamp
  pub last_seen_at : Stamp
  pub ended_at : Option Stamp

-- A row of `detox_sessions` with its two target tables, in the order of `position`.
pub record DetoxRow : Type 0 where
  pub id : Text
  pub name : Option Text
  pub starts_at : Stamp
  pub ends_at : Stamp
  pub cancelled_at : Option Stamp
  pub site_rule_ids : List Text
  pub app_rule_ids : List Text

pub record EventRow : Type 0 where
  pub kind : Text
  pub target : Option Text
  pub details : Option Text
  pub created_at : Stamp

-- A row of `notification_lifecycle_state` of the kind "schedule".
pub record LifecycleRow : Type 0 where
  pub target_id : Text
  pub active : Bool

-- The calls that SQLite may fail.
pub data Query : Type 0 where
  read_active_detox read_uncancelled_detox : Query
  read_detox_intervals read_active_unlock read_app_usage : Text → Query
  read_unlock_reasons read_unlock_count read_visit_usage : Query
  write_unlock write_event write_detox write_detox_cancel : Query
  close_tab_visits write_visit write_visit_heartbeat write_visit_end : Query
  read_service_state read_detox_session write_lifecycle : Text → Query
  write_service_states write_policy_config sync_schedule_totals read_lifecycle : Query
  read_heartbeats : Query

-- `service_states` is a table from keys to values, `policy` what is read from the tables of the
-- policy. The
-- counters are those of AUTOINCREMENT.
pub record Database : Type 0 where
  pub unlocks : List UnlockRow
  pub visits : List VisitRow
  pub app_usage_sessions : List AppUsageRow
  pub detox_sessions : List DetoxRow
  pub events : List EventRow
  pub service_states : Text → Option Text
  pub policy : Config
  pub schedule_states : List LifecycleRow
  pub next_unlock : ℕ
  pub next_visit : ℕ
  pub next_app_usage : ℕ
  pub failure : Query → Option Text

-- A read.
abbrev pub attempt : {A : Type 0} → Database → Query → A → Fallible A
attempt db q a = elim (db.failure q) [ none ↦ ok a | some message ↦ err (Error.database message) ]

-- A statement or transaction that writes: a failure leaves the tables as they are.
abbrev pub commit : {A : Type 0} → Database → Query → Database × A → Database × Fallible A
commit db q (db', a) = elim (db.failure q) [
  | none ↦ (db', ok a)
  | some message ↦ (db, err (Error.database message))
]

abbrev pub id_member : Text → List Text → Bool
id_member id ids = any (λ candidate. text_eq candidate id) ids

-- No element twice, as a PRIMARY KEY asks of the ids of one session or unlock.
unfoldable pub is_distinct : List Text → Bool
is_distinct [] = true
is_distinct (x ∷ xs) = not (id_member x xs) && is_distinct xs

-- `record_event`: the row of `events`; the totals and the log file are left out.
unfoldable pub record_event :
    Text → Option Text → Option Text → Instant → Database → Database × Fallible (Unit {0})
record_event kind target details now db =
    let row : EventRow = record {
      kind = kind;
      target = target;
      details = details;
      created_at = format_time now;
    } in
    commit db write_event (record db { events = db.events ++ row ∷ [] }, tt)

pub attempt-eq-ok :
    {A : Type 0} (db : Database) (q : Query) (a : A) {b : A} → attempt db q a ≡ ok b → a ≡ b
attempt-eq-ok db q a h = ground arith

pub attempt-done :
    {A : Type 0} (db : Database) (q : Query) (a : A) → db.failure q ≡ none → attempt db q a ≡ ok a
attempt-done db q a fine = rw (attempt, fine) refl

pub attempt-done_bind :
    {A B : Type 0} (db : Database) (q : Query) (a : A) (f : A → Fallible B)
    → db.failure q ≡ none
    → (attempt db q a >>= f) ≡ f a
attempt-done_bind db q a f fine = ap (λ m. m >>= f) (attempt-done db q a fine)

-- A write is done, or fails and leaves the database as it is.
pub commit-cases :
    {A : Type 0} (db : Database) (q : Query) (result : Database × A)
    → (commit db q result ≡ (result.0, ok result.1))
      ⊎ ((message : Text) × (commit db q result ≡ (db, err (Error.database message))))
commit-cases db q result = elim (Option-cases (db.failure q)) [
  | inl done ↦ inl (rw (commit, done) refl)
  | inr (message, failed) ↦ inr (message, rw (commit, failed) refl)
]
