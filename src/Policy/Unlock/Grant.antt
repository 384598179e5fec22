-- ===== src/Policy/Unlock/Grant.antt =====
-- focus-core/src/policy.rs, request_unlock: what a granted request stores, how many an hour allows,
-- and what it opens.
use bloc_kuntu.Common.{
  head?, ℕ, ◌+◌, ◌*◌, ◌≤◌, ◌<◌, ◌≡◌, refl, sym, ap, ◌∙◌, ◌≢◌, inl, inr, true, false, Option, none,
  some, List, [], ◌∷◌, ◌++◌, arith, Option-cases, All,
}
use bloc_kuntu.Common.Results.{Result-cases, ok, err, >>=-eq-ok}
use bloc_kuntu.Text.{Text, lit}
use bloc_kuntu.Types.{Error, Fallible, Decision, UnlockState}
use bloc_kuntu.Platform.{Instant, second, minute_ns, Platform}
use mathlib.Core.Path.{subst}
use bloc_kuntu.Common.Members.{Any-append_right}
use bloc_kuntu.Store.{
  format_time, UnlockRow, Database, commit, id_member, record_event, write_event,
  read_active_unlock,
}
use bloc_kuntu.Store.Unlocks.{new_row, new_unlock, unlocks_rule, insert_unlock}
use bloc_kuntu.Store.Unlocks.Granted.{
  active_unlock_for_rule-some, insert_unlock-cases, new_row-unlocks_rule,
}
use bloc_kuntu.Policy.Evaluate.{evaluate_controlled_rule_fields}
use bloc_kuntu.Policy.Evaluate.Metered.{evaluate_controlled_rule_fields-allow_iff}
use bloc_kuntu.Policy.Activity.{Context, now_utc}
use bloc_kuntu.Policy.Unlock.{
  tier_3_unlock_minutes, hour_ns, authorize, ids_of, grant_details, after_insert, grant,
  request_unlock,
}
use bloc_kuntu.Policy.Unlock.Resolve.{Resolved}
use bloc_kuntu.Policy.Unlock.Authorized.{IsBeforeHour, IsAuthorized, authorize-IsAuthorized}

-- The unlock of two minutes for the lists.
abbrev pub two_minutes : Context → List Resolved → Text → Text → UnlockRow
two_minutes ctx rules target cleaned =
    new_row ctx.database.next_unlock target (ids_of rules) tier_3_unlock_minutes cleaned
      (now_utc ctx) (now_utc ctx + tier_3_unlock_minutes * minute_ns)

-- What a grant did: the database holds the row of the unlock, which lasts two minutes.
pub record IsGranted (ctx : Context) (rules : List Resolved) (cleaned : Text) (db : Database)
    (unlock : UnlockState) : Type 0 where
  pub first : Resolved
  pub is_first : head? rules ≡ some first
  pub is_stored :
      db.unlocks ≡ ctx.database.unlocks ++ two_minutes ctx rules first.target cleaned ∷ []
  pub failure_same : db.failure ≡ ctx.database.failure
  pub unlock_same :
      unlock
      ≡ new_unlock ctx.database.next_unlock first.target
          (ids_of rules)
          tier_3_unlock_minutes
          cleaned
          (now_utc ctx)
          (now_utc ctx + tier_3_unlock_minutes * minute_ns)

record_event-keeps :
    (kind : Text) (target details : Option Text) (now : Instant) (db : Database)
    → ((record_event kind target details now db).0.unlocks ≡ db.unlocks)
      × ((record_event kind target details now db).0.failure ≡ db.failure)
unfolding record_event
record_event-keeps kind target details now db = elim (Option-cases (db.failure write_event)) [
  | inl done ↦ (rw (commit, done) refl, rw (commit, done) refl)
  | inr (message, failed) ↦ (rw (commit, failed) refl, rw (commit, failed) refl)
]

after_insert-eq-ok :
    (target details : Text) (now : Instant) (db : Database) (unlock : UnlockState) {db' : Database}
    {granted : UnlockState}
    → after_insert target details now (db, ok unlock) ≡ (db', ok granted)
    → (db'.unlocks ≡ db.unlocks) × (db'.failure ≡ db.failure) × (granted ≡ unlock)
unfolding after_insert
after_insert-eq-ok target details now db unlock {db'} {granted} h =
    let logged = record_event (lit "unlock_granted") (some target) (some details) now db in
    let (rows, fails) =
      record_event-keeps (lit "unlock_granted") (some target) (some details) now db in
    let same_db : logged.0 ≡ db' = ap (λ r. r.0) h in
    let (_, _, same_unlock) = >>=-eq-ok logged.1 (λ _. ok unlock) (ap (λ r. r.1) h) in
    (sym (ap (λ d. d.unlocks) same_db) ∙ rows, sym (ap (λ d. d.failure) same_db) ∙ fails, cc)

after_insert-ne-ok :
    (target details : Text) (now : Instant) (db : Database) (e : Error) {db' : Database}
    {granted : UnlockState}
    → after_insert target details now (db, err e) ≢ (db', ok granted)
unfolding after_insert
after_insert-ne-ok target details now db e h = cc

pub grant-IsGranted :
    (ctx : Context) (rules : List Resolved) (cleaned : Text) {db : Database} {unlock : UnlockState}
    → grant ctx rules cleaned ≡ (db, ok unlock)
    → IsGranted ctx rules cleaned db unlock
unfolding grant
grant-IsGranted ctx [] cleaned h = absurd cc
grant-IsGranted ctx (r ∷ rs) cleaned {db} {unlock} h =
    let details = grant_details (r ∷ rs) in
    let write =
      insert_unlock r.target (ids_of (r ∷ rs)) tier_3_unlock_minutes cleaned (now_utc ctx)
        (now_utc ctx + tier_3_unlock_minutes * minute_ns) ctx.database in
    elim (insert_unlock-cases r.target (ids_of (r ∷ rs)) tier_3_unlock_minutes cleaned (now_utc ctx)
      (now_utc ctx + tier_3_unlock_minutes * minute_ns) ctx.database) [
        | inr (e, failed) ↦ absurd (
            after_insert-ne-ok r.target details (now_utc ctx) ctx.database e
              (sym (ap (after_insert r.target details (now_utc ctx)) failed) ∙ h))
        | inl done ↦
            let (rows, fails, same_unlock) =
              after_insert-eq-ok r.target details (now_utc ctx) _ _
                (sym (ap (after_insert r.target details (now_utc ctx)) done) ∙ h) in
            record {
              first = r;
              is_first = refl;
              is_stored = rows;
              failure_same = fails;
              unlock_same = same_unlock;
            }
      ]

fallible-ne : {E A : Type 0} (e : E) {a : A} → err e ≢ ok a
fallible-ne e h = cc

-- A request that is granted was authorized: its target resolved to lists, its cleaned reason has at
-- least 20 letters and is not the reason of a stored unlock, and every stored unlock started before
-- the last hour. The new database holds the stored unlocks and behind them one of two minutes, for
-- the lists that the target resolved to and under the target of the first of them.
pub request_unlock-IsGranted :
    (p : Platform) (ctx : Context) (target reason : Text) {db : Database} {unlock : UnlockState}
    → request_unlock p ctx target reason ≡ (db, ok unlock)
    → (rules : List Resolved) × ((cleaned : Text) × IsAuthorized p ctx target reason rules cleaned
        × IsGranted ctx rules cleaned db unlock)
unfolding request_unlock
request_unlock-IsGranted p ctx target reason h =
    elim (Result-cases (authorize p ctx target reason)) [
      | inr (e, failed) ↦ absurd (fallible-ne _ (ap (λ r. r.1) (rw (request_unlock, failed) at h)))
      | inl ((rules, cleaned), passed) ↦ (
        rules,
        (
          cleaned,
          authorize-IsAuthorized p ctx target reason passed,
          grant-IsGranted ctx rules cleaned (rw (request_unlock, passed) at h),
        ),
      )
    ]

IsBeforeHour-not :
    (start now : Instant) (u : UnlockRow)
    → now ≤ start + hour_ns
    → u.started_at ≡ format_time start
    → ¬ IsBeforeHour now u
unfolding format_time
IsBeforeHour-not start now u late at before = omega arith

All-append_last : {A : Type 0} (P : A → Type 0) (xs : List A) (x : A) → All P (xs ++ x ∷ []) → P x
All-append_last P [] x (h, _) = h
All-append_last P (y ∷ ys) x (_, hs) = All-append_last P ys x hs

-- After a granted request, with its unlocks still stored, no request of the next hour is granted,
-- whatever its target and reason are.
pub request_unlock-once_an_hour :
    (p : Platform) (ctx later : Context) (target reason target' reason' : Text) {db db' : Database}
    {unlock unlock' : UnlockState}
    → request_unlock p ctx target reason ≡ (db, ok unlock)
    → later.database.unlocks ≡ db.unlocks
    → now_utc later ≤ now_utc ctx + hour_ns
    → request_unlock p later target' reason' ≢ (db', ok unlock')
request_unlock-once_an_hour p ctx later target reason target' reason' first kept soon second =
    let (rules, (cleaned, _, granted)) = request_unlock-IsGranted p ctx target reason first in
    let (_, (_, authorized, _)) = request_unlock-IsGranted p later target' reason' second in
    IsBeforeHour-not (now_utc ctx) (now_utc later)
      (two_minutes ctx rules granted.first.target cleaned) soon refl
      (All-append_last (IsBeforeHour (now_utc later)) ctx.database.unlocks _
        (subst (All (IsBeforeHour (now_utc later))) (kept ∙ granted.is_stored) authorized.is_alone))

-- A granted unlock opens the Tier 3 lists that it names: at every time before its expiry, with
-- its database, an untampered clock and a query that does not fail, the list lets its target pass.
pub request_unlock-opens :
    (p : Platform) (ctx later : Context) (target reason : Text) {unlock : UnlockState}
    (id name : Text) (allowance_id : Option Text) (used : Fallible ℕ)
    → request_unlock p ctx target reason ≡ (later.database, ok unlock)
    → id_member id unlock.rule_ids ≡ true
    → format_time (now_utc later) < format_time unlock.expires_at
    → later.database.failure (read_active_unlock id) ≡ none
    → later.clock_tampered ≡ false
    → evaluate_controlled_rule_fields p later id name allowance_id used ≡ Decision.allow
request_unlock-opens p ctx later target reason {unlock} id name allowance_id used first named early
      read honest =
    let (rules, (cleaned, _, granted)) = request_unlock-IsGranted p ctx target reason first in
    let row = two_minutes ctx rules granted.first.target cleaned in
    let selected =
      new_row-unlocks_rule ctx.database.next_unlock granted.first.target (ids_of rules)
        tier_3_unlock_minutes cleaned (now_utc ctx)
        (now_utc ctx + tier_3_unlock_minutes * minute_ns) (now_utc later) id
        (ap (λ (u : UnlockState). id_member id u.rule_ids) (sym granted.unlock_same) ∙ named)
        (subst (λ (u : UnlockState). format_time (now_utc later) < format_time u.expires_at)
          granted.unlock_same early) in
    (evaluate_controlled_rule_fields-allow_iff p later id name allowance_id used).1 (
      honest,
      inl (
          active_unlock_for_rule-some id (now_utc later) later.database read (
            rw granted.is_stored (
              Any-append_right (λ u. unlocks_rule id (format_time (now_utc later)) u ≡ true)
                ctx.database.unlocks (row ∷ []) (inl selected)))),
    )
