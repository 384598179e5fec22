-- ===== src/Store/Visits/Open.antt =====
-- focus-core/src/db.rs, insert_visit_start, update_visit_heartbeat and end_visit: the open visits
-- of a tab over sequences of calls.
use bloc_kuntu.Common.{
  ℕ, ◌≤◌, ◌≡◌, refl, sym, ◌∙◌, ◌⊎◌, inl, inr, true, Option, none, List, [], ◌∷◌, ◌++◌, map, arith,
  Bool-cases, Option-cases,
}
use bloc_kuntu.Text.{Text, text_eq}
use bloc_kuntu.Platform.{Instant}
use mathlib.Core.Path.{subst}
use bloc_kuntu.Text.Laws.{text_eq_iff}
use bloc_kuntu.Store.{
  Query, Stamp, VisitRow, Database, format_time, commit, commit-cases, close_tab_visits,
  write_visit, write_visit_heartbeat, write_visit_end,
}
use bloc_kuntu.Store.Visits.{
  close_tab, insert_visit, after_close, insert_visit_start, heartbeat_row, update_visit_heartbeat,
  end_visit_row, end_visit,
}
use bloc_kuntu.Store.Visits.Counting.{
  is_open_in, open_visits, open_visits-map, open_visits-append, open_visits-closed,
  open_visits-single, open_visits-other,
}

-- No tab has two open visits.
abbrev pub IsOnePerTab : Database → Type 0
IsOnePerTab db = (tab : Text) → open_visits tab db.visits ≤ 1

-- A call of a browser, with what it passes and the time of the call.
pub data VisitCall : Type 0 where
  starts : Option Text → Text → Text → Text → Instant → VisitCall
  beats ends : ℕ → Instant → VisitCall

unfoldable pub after_call : VisitCall → Database → Database
after_call (starts rule_id target url tab_id now) db =
    (insert_visit_start rule_id target url tab_id now db).0
after_call (beats visit_id now) db = (update_visit_heartbeat visit_id now db).0
after_call (ends visit_id now) db = (end_visit visit_id now db).0

-- Which statements SQLite fails during a call.
abbrev pub Failures : Type 0
Failures = Query → Option Text

-- The calls one after the other, each on the database that the one before it left.
unfoldable pub after_calls : List (Failures × VisitCall) → Database → Database
after_calls [] db = db
after_calls ((failure, call) ∷ calls) db =
    after_calls calls (after_call call (record db { failure = failure }))

closes_more :
    (q : Query) (f : VisitRow → VisitRow) (db : Database)
    → ((tab : Text) (v : VisitRow) → is_open_in tab (f v) ≡ true → is_open_in tab v ≡ true)
    → IsOnePerTab db
    → IsOnePerTab (commit db q (record db { visits = map f db.visits }, tt)).0
closes_more q f db closes one tab =
    elim (commit-cases db q (record db { visits = map f db.visits }, tt)) [
      | inl done ↦ let fewer = open_visits-map tab f (closes tab) db.visits in rw done (omega arith)
      | inr (message, failed) ↦ rw failed (one tab)
    ]

close_tab-closes :
    (now : Stamp) (tab' tab : Text) (v : VisitRow)
    → is_open_in tab (close_tab now tab' v) ≡ true
    → is_open_in tab v ≡ true
unfolding close_tab
close_tab-closes now tab' tab v h = ground arith

heartbeat_row-closes :
    (now : Stamp) (id : ℕ) (tab : Text) (v : VisitRow)
    → is_open_in tab (heartbeat_row now id v) ≡ true
    → is_open_in tab v ≡ true
unfolding heartbeat_row
heartbeat_row-closes now id tab v h = ground arith

end_visit_row-closes :
    (now : Stamp) (id : ℕ) (tab : Text) (v : VisitRow)
    → is_open_in tab (end_visit_row now id v) ≡ true
    → is_open_in tab v ≡ true
unfolding end_visit_row
end_visit_row-closes now id tab v h = ground arith

-- The table after a new visit: one more row, of the tab, or the same rows.
insert_visit-visits :
    (rule_id : Option Text) (target url tab_id : Text) (now : Instant) (db : Database)
    → ((row : VisitRow) × (row.tab_id ≡ tab_id)
        × ((insert_visit rule_id target url tab_id now db).0.visits ≡ db.visits ++ row ∷ []))
      ⊎ ((insert_visit rule_id target url tab_id now db).0.visits ≡ db.visits)
unfolding insert_visit
insert_visit-visits rule_id target url tab_id now db =
    elim (Option-cases (db.failure write_visit)) [
      | inl done ↦ inl (
        record {
          id = db.next_visit;
          rule_id = rule_id;
          target = target;
          url = url;
          tab_id = tab_id;
          started_at = format_time now;
          last_heartbeat_at = format_time now;
          ended_at = none;
        },
        refl,
        rw (commit, done) refl,
      )
      | inr (message, failed) ↦ inr (rw (commit, failed) refl)
    ]

-- A new visit in a tab that has no open one.
insert_visit-IsOnePerTab :
    (rule_id : Option Text) (target url tab_id : Text) (now : Instant) (db : Database)
    → IsOnePerTab db
    → open_visits tab_id db.visits ≡ 0
    → IsOnePerTab (insert_visit rule_id target url tab_id now db).0
insert_visit-IsOnePerTab rule_id target url tab_id now db one none_open tab =
    elim (insert_visit-visits rule_id target url tab_id now db) [
      | inr same_rows ↦ rw same_rows (one tab)
      | inl (row, of_tab, more) ↦
          let grown = open_visits-append tab db.visits row in
          let before = one tab in
          elim (Bool-cases (text_eq row.tab_id tab)) [
            | inl e ↦
                let same_tab : tab_id ≡ tab = sym of_tab ∙ (text_eq_iff row.tab_id tab).0 e in
                let closed : open_visits tab db.visits ≡ 0 =
                  subst (λ t. open_visits t db.visits ≡ 0) same_tab none_open in
                let single = open_visits-single tab row in rw more (omega arith)
            | inr e ↦ let nothing = open_visits-other tab row e in rw more (omega arith)
          ]
    ]

insert_visit_start-IsOnePerTab :
    (rule_id : Option Text) (target url tab_id : Text) (now : Instant) (db : Database)
    → IsOnePerTab db
    → IsOnePerTab (insert_visit_start rule_id target url tab_id now db).0
unfolding insert_visit_start after_close
insert_visit_start-IsOnePerTab rule_id target url tab_id now db one =
    let closed : Database = record db {
      visits = map (close_tab (format_time now) tab_id) db.visits;
    } in
    let still : IsOnePerTab closed = λ tab.
      let fewer =
        open_visits-map tab (close_tab (format_time now) tab_id)
          (close_tab-closes (format_time now) tab_id tab) db.visits in
      let before = one tab in omega arith in
    elim (commit-cases db close_tab_visits (closed, tt)) [
      | inr (message, failed) ↦ rw failed one
      | inl done ↦ rw done (
          insert_visit-IsOnePerTab rule_id target url tab_id now closed still
            (open_visits-closed (format_time now) tab_id db.visits))
    ]

after_call-IsOnePerTab :
    (call : VisitCall) (db : Database) → IsOnePerTab db → IsOnePerTab (after_call call db)
unfolding after_call update_visit_heartbeat end_visit
after_call-IsOnePerTab (starts rule_id target url tab_id now) db one =
    insert_visit_start-IsOnePerTab rule_id target url tab_id now db one
after_call-IsOnePerTab (beats visit_id now) db one =
    closes_more write_visit_heartbeat (heartbeat_row (format_time now) visit_id) db
      (heartbeat_row-closes (format_time now) visit_id) one
after_call-IsOnePerTab (ends visit_id now) db one =
    closes_more write_visit_end (end_visit_row (format_time now) visit_id) db
      (end_visit_row-closes (format_time now) visit_id) one

-- Over any sequence of calls, whatever statements fail during each of them, a database in which no
-- tab has two open visits stays one.
pub after_calls-IsOnePerTab :
    (calls : List (Failures × VisitCall)) (db : Database)
    → IsOnePerTab db
    → IsOnePerTab (after_calls calls db)
unfolding after_calls
after_calls-IsOnePerTab [] db one = one
after_calls-IsOnePerTab ((failure, call) ∷ calls) db one =
    let failing : Database = record db { failure = failure } in
    after_calls-IsOnePerTab calls (after_call call failing)
      (after_call-IsOnePerTab call failing one)
