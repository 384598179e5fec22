-- ===== src/Store/Unlocks.antt =====
-- focus-core/src/db.rs: manual unlocks.
pub mod Granted
pub mod Revoked
use bloc_kuntu.Common.{
  ℕ, zero, suc, ◌+◌, ◌-◌, ◌*◌, ◌/◌, ◌%◌, ◌≤◌, ◌<◌, min, ◌≡◌, refl, sym, ap, ◌∙◌, ◌≢◌, ◌↔◌, ◌⊎◌, inl,
  inr, Bool, true, false, not, ◌&&◌, ◌||◌, Option, none, some, List, [], ◌∷◌, ◌++◌, map, arith, ltb,
  leb, ◌==◌, if◌then◌else◌, lt→ltb, tests, Bool-cases, Option-cases, and-true, All, Any, length,
  any, filter, head?, sort_by, Any-map,
}
use bloc_kuntu.Common.Results.{ok, err, ◌>>=◌, ◌>>◌}
use bloc_kuntu.Text.{Text, lit, text_eq}
use bloc_kuntu.Platform.{Instant}
use bloc_kuntu.Types.{Error, Fallible, UnlockState}
use bloc_kuntu.Store.{
  Stamp, format_time, parse_time, UnlockTarget, UnlockRow, Database, attempt, commit, id_member,
  is_distinct, read_active_unlock, read_unlock_reasons, read_unlock_count, write_unlock,
}

abbrev pub is_live_target : Text → UnlockTarget → Bool
is_live_target rule_id t = text_eq t.rule_id rule_id && not t.revoked

-- The WHERE clause of `active_unlock_for_rule`.
abbrev pub unlocks_rule : Text → Stamp → UnlockRow → Bool
unlocks_rule rule_id now u = any (is_live_target rule_id) u.targets && ltb now u.expires_at

abbrev pub live_rule_ids : List UnlockTarget → List Text
live_rule_ids targets = map (λ (t : UnlockTarget). t.rule_id) (filter (λ t. not t.revoked) targets)

-- `unlock_from_row`, and the ids read afterwards; `ids[0]` panics on an empty list.
unfoldable pub unlock_from_row : UnlockRow → List Text → Fallible UnlockState
unlock_from_row u [] = err Error.panicked
unlock_from_row u (rule_id ∷ ids) = ok (record {
  id = u.id;
  target = u.target;
  rule_id = rule_id;
  rule_ids = rule_id ∷ ids;
  minutes = u.minutes;
  reason = u.reason;
  started_at = parse_time u.started_at;
  expires_at = parse_time u.expires_at;
})

unfoldable pub read_unlock : Option UnlockRow → Fallible (Option UnlockState)
read_unlock none = ok none
read_unlock (some u) = do state ← unlock_from_row u (live_rule_ids u.targets); ok (some state)

abbrev pub later_expiry : UnlockRow → UnlockRow → Bool
later_expiry a b = leb b.expires_at a.expires_at

unfoldable pub active_unlock_for_rule : Text → Instant → Database → Fallible (Option UnlockState)
active_unlock_for_rule rule_id now db = do
  row ←
      attempt db (read_active_unlock rule_id)
        (head? (sort_by later_expiry (filter (unlocks_rule rule_id (format_time now)) db.unlocks)))
  read_unlock row

-- The count is read into a u32.
unfoldable pub count_unlocks_since : Instant → Database → Fallible ℕ
count_unlocks_since since db = attempt db read_unlock_count (
    min (length (filter (λ (u : UnlockRow). leb (format_time since) u.started_at) db.unlocks))
      4294967295)

unfoldable pub unlock_reasons : Database → Fallible (List Text)
unlock_reasons db = attempt db read_unlock_reasons (map (λ (u : UnlockRow). u.reason) db.unlocks)

abbrev pub fresh_target : Text → UnlockTarget
fresh_target rule_id = record { rule_id = rule_id; revoked = false }

-- The row that `insert_unlock` writes, and the unlock that it returns.
abbrev pub new_row : ℕ → Text → List Text → ℕ → Text → Instant → Instant → UnlockRow
new_row id target rule_ids minutes reason started_at expires_at = record {
  id = id;
  target = target;
  rule_id = elim (head? rule_ids) [ none ↦ [] | some rule_id ↦ rule_id ];
  reason = reason;
  minutes = minutes;
  started_at = format_time started_at;
  expires_at = format_time expires_at;
  targets = map fresh_target rule_ids;
}

abbrev pub new_unlock : ℕ → Text → List Text → ℕ → Text → Instant → Instant → UnlockState
new_unlock id target rule_ids minutes reason started_at expires_at = record {
  id = id;
  target = target;
  rule_id = elim (head? rule_ids) [ none ↦ [] | some rule_id ↦ rule_id ];
  rule_ids = rule_ids;
  minutes = minutes;
  reason = reason;
  started_at = started_at;
  expires_at = expires_at;
}

abbrev pub add_unlock : UnlockRow → Database → Database
add_unlock row db = record db { unlocks = db.unlocks ++ row ∷ []; next_unlock = db.next_unlock + 1 }

-- The transaction of `insert_unlock`. A list named twice breaks the key of `unlock_rule_targets`.
unfoldable pub insert_unlock :
    Text → List Text → ℕ → Text → Instant → Instant → Database → Database × Fallible UnlockState
insert_unlock target [] minutes reason started_at expires_at db =
    (db, err Error.unlock_requires_rule)
insert_unlock target (rule_id ∷ ids) minutes reason started_at expires_at db =
    if is_distinct (rule_id ∷ ids)
    then commit db write_unlock (
      add_unlock
          (new_row db.next_unlock target (rule_id ∷ ids) minutes reason started_at expires_at) db,
      new_unlock db.next_unlock target (rule_id ∷ ids) minutes reason started_at expires_at,
    )
    else (db, err (Error.database (lit "UNIQUE constraint failed")))
