-- ===== src/Store/Unlocks/Granted.antt =====
-- focus-core/src/db.rs, active_unlock_for_rule and insert_unlock: lemmas on reading an unlock and
-- on storing one.
use bloc_kuntu.Common.{
  ℕ, ◌<◌, ◌≡◌, refl, sym, ap, ◌∙◌, ◌≢◌, ◌⊎◌, inl, inr, Bool, true, false, ◌&&◌, ◌||◌, none, some,
  List, [], ◌∷◌, map, arith, lt→ltb, Bool-cases, Option-cases, All, Any, any, filter, head?,
  sort_by, Any-map,
}
use bloc_kuntu.Common.Results.{ok, err}
use bloc_kuntu.Text.{Text, lit, text_eq}
use bloc_kuntu.Common.Members.{
  Any-filter, Any-sort_by, All-sort_by, filter-All, head?-All, head?-some-All,
}
use bloc_kuntu.Platform.{Instant}
use bloc_kuntu.Types.{Error, UnlockState}
use bloc_kuntu.Store.{
  Stamp, format_time, parse_time, UnlockTarget, UnlockRow, Database, commit-cases, write_unlock,
  attempt-done_bind, id_member, is_distinct, read_active_unlock,
}
use bloc_kuntu.Store.Unlocks.{
  is_live_target, unlocks_rule, live_rule_ids, unlock_from_row, read_unlock, later_expiry,
  active_unlock_for_rule, fresh_target, new_row, new_unlock, add_unlock, insert_unlock,
}

ok-ne-err : {E A : Type 0} {a : A} {e : E} → ok a ≢ err e
ok-ne-err h = cc

live_rule_ids-cons :
    (id : Text) (ts : List UnlockTarget)
    → any (is_live_target id) ts ≡ true
    → (first : Text) × ((rest : List Text) × (live_rule_ids ts ≡ first ∷ rest))
live_rule_ids-cons id [] h = cc
live_rule_ids-cons id (t ∷ ts) h = elim (Bool-cases t.revoked) [
  | inl r ↦ rw r (live_rule_ids-cons id ts (ground arith))
  | inr r ↦ rw r (t.rule_id, (live_rule_ids ts, refl))
]

-- A row that the query selects is read without a panic.
read_unlock-selected :
    (id : Text) (now : Stamp) (u : UnlockRow)
    → unlocks_rule id now u ≡ true
    → (s : UnlockState) × (read_unlock (some u) ≡ ok (some s))
unfolding read_unlock unlock_from_row
read_unlock-selected id now u h =
    let (first, (rest, e)) = live_rule_ids-cons id u.targets (ground arith) in
    rw e (
      record {
        id = u.id;
        target = u.target;
        rule_id = first;
        rule_ids = first ∷ rest;
        minutes = u.minutes;
        reason = u.reason;
        started_at = parse_time u.started_at;
        expires_at = parse_time u.expires_at;
      },
      refl,
    )

module _ (id : Text) (now : Instant) (db : Database) where
  abbrev selected : List UnlockRow
  selected = sort_by later_expiry (filter (unlocks_rule id (format_time now)) db.unlocks)

  selected-All : All (λ u. unlocks_rule id (format_time now) u ≡ true) selected
  selected-All =
      All-sort_by _ later_expiry _ (filter-All (unlocks_rule id (format_time now)) db.unlocks)

  first_row :
      db.failure (read_active_unlock id) ≡ none
      → active_unlock_for_rule id now db ≡ read_unlock (head? selected)
  unfolding active_unlock_for_rule
  first_row fine = attempt-done_bind db (read_active_unlock id) (head? selected) read_unlock fine

  read_found :
      (u : UnlockRow)
      → head? selected ≡ some u
      → (s : UnlockState) × (read_unlock (head? selected) ≡ ok (some s))
  read_found u found = rw found (
      read_unlock-selected id (format_time now) u (
        head?-some-All (λ v. unlocks_rule id (format_time now) v ≡ true) selected selected-All
          found))

  -- Reading the active unlock of a list never runs out of the ids that it indexes.
  pub active_unlock_for_rule-ne-panicked : active_unlock_for_rule id now db ≢ err Error.panicked
  unfolding active_unlock_for_rule read_unlock
  active_unlock_for_rule-ne-panicked h = elim (Option-cases (db.failure (read_active_unlock id))) [
    | inr (message, failed) ↦ ground arith
    | inl fine ↦ elim (Option-cases (head? selected)) [
      | inl nothing ↦ ground arith
      | inr (u, found) ↦
          let (s, read) = read_found u found in
          let step = first_row fine in ok-ne-err (sym read ∙ sym step ∙ h)
    ]
  ]

  -- An unlock of the list that has not expired is found, unless the query fails.
  pub active_unlock_for_rule-some :
      db.failure (read_active_unlock id) ≡ none
      → Any (λ u. unlocks_rule id (format_time now) u ≡ true) db.unlocks
      → (s : UnlockState) × (active_unlock_for_rule id now db ≡ ok (some s))
  unfolding active_unlock_for_rule
  active_unlock_for_rule-some fine some_row =
      let (u, found, chosen) =
        head?-All (λ v. unlocks_rule id (format_time now) v ≡ true) (λ _. Unit {0}) selected
          selected-All
          (Any-sort_by _ later_expiry _ (
            Any-filter _ (unlocks_rule id (format_time now)) db.unlocks
              (Any-map _ _ (λ v h. (tt, h)) db.unlocks some_row))) in
      let (s, read) = read_found u found in (s, first_row fine ∙ read)

-- The transaction stores the unlock that it returns, or it fails and stores nothing.
pub insert_unlock-cases :
    (target : Text) (ids : List Text) (minutes : ℕ) (reason : Text) (from until : Instant)
    (db : Database)
    → (insert_unlock target ids minutes reason from until db ≡ (
      add_unlock (new_row db.next_unlock target ids minutes reason from until) db,
      ok (new_unlock db.next_unlock target ids minutes reason from until),
    ))
      ⊎ ((e : Error) × (insert_unlock target ids minutes reason from until db ≡ (db, err e)))
unfolding insert_unlock
insert_unlock-cases target [] minutes reason from until db = inr (Error.unlock_requires_rule, refl)
insert_unlock-cases target (id ∷ ids) minutes reason from until db =
    elim (Bool-cases (is_distinct (id ∷ ids))) [
      | inr twice ↦ inr (Error.database (lit "UNIQUE constraint failed"), rw twice refl)
      | inl once ↦
          elim (commit-cases db write_unlock (
            add_unlock (new_row db.next_unlock target (id ∷ ids) minutes reason from until) db,
            new_unlock db.next_unlock target (id ∷ ids) minutes reason from until,
          )) [
            | inl done ↦ inl (rw once done)
            | inr (message, failed) ↦ inr (Error.database message, rw once failed)
          ]
    ]

and-true_right : (b : Bool) → b && true ≡ b
and-true_right true = refl
and-true_right false = refl

live_targets-fresh :
    (id : Text) (ids : List Text)
    → any (is_live_target id) (map fresh_target ids) ≡ id_member id ids
live_targets-fresh id [] = refl
live_targets-fresh id (x ∷ xs) =
    rw (live_targets-fresh id xs) (ap (λ b. b || id_member id xs) (and-true_right (text_eq x id)))

-- The row of a new unlock is one that the query for the active unlock of each of its lists selects,
-- for as long as it lasts.
pub new_row-unlocks_rule :
    (n : ℕ) (target : Text) (ids : List Text) (minutes : ℕ) (reason : Text)
    (from until now : Instant) (id : Text)
    → id_member id ids ≡ true
    → format_time now < format_time until
    → unlocks_rule id (format_time now) (new_row n target ids minutes reason from until) ≡ true
new_row-unlocks_rule n target ids minutes reason from until now id named early =
    rw (unlocks_rule, is_live_target, lt→ltb _ _ early, live_targets-fresh id ids, named) refl
