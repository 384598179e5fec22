-- ===== src/Policy/Unlock.antt =====
-- focus-core/src/policy.rs: a request for a manual unlock, from the target to the grant.
pub mod Resolve
pub mod Authorized
pub mod Grant
use bloc_kuntu.Common.{
  ℕ, zero, suc, ◌+◌, ◌-◌, ◌*◌, ◌/◌, ◌%◌, ◌≤◌, ◌<◌, ◌≡◌, refl, sym, ap, ◌∙◌, ◌≢◌, ◌↔◌, ◌⊎◌, inl, inr,
  Bool, true, false, not, ◌&&◌, ◌||◌, Option, none, some, List, [], ◌∷◌, ◌++◌, map, arith, ltb, leb,
  ◌==◌, if◌then◌else◌, ltb→ge, leb→gt, tests, Bool-cases, Option-cases, same, All, Any, length, any,
  filter, find, head?, is_empty, max_by_key, filter_map, any-false→All, All-filter, All-map,
  Any-map,
}
use bloc_kuntu.Common.Results.{
  Result, ok, err, ◌>>=◌, ◌>>◌, reject_if, >>=-eq-ok, >>-eq-ok, reject_if-eq-ok,
}
use bloc_kuntu.Text.{Text, lit, text_eq, trim, split_whitespace, join}
use bloc_kuntu.Config.{RuleTier, tier_eq, RuleConfig, AppRuleConfig, Config}
use bloc_kuntu.Types.{
  UnlockError, Error, Fallible, BlockReason, Decision, is_block, DetoxSession, UnlockState,
}
use bloc_kuntu.Platform.{Instant, second, minute_ns, Platform}
use bloc_kuntu.Store.{Database, record_event}
use bloc_kuntu.Store.Unlocks.{
  active_unlock_for_rule, count_unlocks_since, unlock_reasons, insert_unlock,
}
use bloc_kuntu.Policy.Activity.{Context, now_utc}
use Resolve.{Resolved, resolve_unlock_rules}

abbrev pub tier_3_unlock_minutes : ℕ
tier_3_unlock_minutes = 2

abbrev pub global_unlocks_per_hour : ℕ
global_unlocks_per_hour = 1

abbrev pub min_unlock_reason_letters : ℕ
min_unlock_reason_letters = 20

abbrev pub hour_ns : Instant
hour_ns = 3_600_000_000_000

unfoldable pub clean_unlock_reason : Text → Text
clean_unlock_reason reason = join (lit " ") (split_whitespace reason)

unfoldable pub normalize_unlock_reason : Platform → Text → Text
normalize_unlock_reason p reason = p.to_lowercase (clean_unlock_reason reason)

unfoldable pub letter_count : Platform → Text → ℕ
letter_count p reason = length (filter p.is_alphabetic reason)

-- The loop that rejects a list with an active unlock.
unfoldable pub reject_active : Context → List Resolved → Fallible (Unit {0})
reject_active ctx [] = ok tt
reject_active ctx (r ∷ rs) =
    let rest = reject_active ctx rs in
    do
      active ← active_unlock_for_rule r.id (now_utc ctx) ctx.database
      elim active [
        | none ↦ rest
        | some unlock ↦
            err (Error.unlock (UnlockError.unlock_already_active r.id unlock.expires_at))
      ]

-- No stored unlock has the same reason, compared without case.
unfoldable pub reject_used : Platform → Context → Text → Fallible (Unit {0})
reject_used p ctx cleaned = do
  reasons ← unlock_reasons ctx.database
  reject_if
      (any
        (λ existing.
          text_eq (normalize_unlock_reason p existing) (normalize_unlock_reason p cleaned))
        reasons)
      (Error.unlock UnlockError.reason_already_used)

unfoldable pub reject_over_quota : Context → Fallible (Unit {0})
reject_over_quota ctx = do
  unlocks_in_hour ← count_unlocks_since (now_utc ctx - hour_ns) ctx.database
  reject_if (leb global_unlocks_per_hour unlocks_in_hour)
      (Error.unlock (UnlockError.hourly_quota_exceeded global_unlocks_per_hour))

unfoldable pub check_reason : Platform → Text → Fallible (Unit {0})
check_reason p cleaned =
    reject_if (is_empty cleaned) (Error.unlock UnlockError.empty_reason)
    >> reject_if (ltb (letter_count p cleaned) min_unlock_reason_letters) (
        Error.unlock
          (UnlockError.reason_too_short min_unlock_reason_letters (letter_count p cleaned)))

-- The checks between the resolved lists and the grant.
unfoldable pub admit : Platform → Context → List Resolved → Text → Fallible (Unit {0})
admit p ctx rules cleaned =
    check_reason p cleaned
    >> (reject_used p ctx cleaned >> (reject_active ctx rules >> reject_over_quota ctx))

-- All that `request_unlock` checks before it writes: the lists, and the cleaned reason.
unfoldable pub authorize : Platform → Context → Text → Text → Fallible (List Resolved × Text)
authorize p ctx target reason = do
  reject_if (is_empty (trim target)) (Error.unlock UnlockError.empty_target)
  rules ← resolve_unlock_rules p ctx (trim target)
  admit p ctx rules (clean_unlock_reason reason)
  ok (rules, clean_unlock_reason reason)

abbrev pub ids_of : List Resolved → List Text
ids_of = map (λ (r : Resolved). r.id)

unfoldable pub grant_details : List Resolved → Text
grant_details [] = []
grant_details (r ∷ rs) =
    lit "rule_id="
    ++ (r.id ++ (lit ";rule_ids=" ++ (join (lit ",") (ids_of (r ∷ rs)) ++ lit ";minutes=2")))

-- The event after the grant. Its failure is returned, and the grant stays.
unfoldable pub after_insert :
    Text → Text → Instant → Database × Fallible UnlockState → Database × Fallible UnlockState
after_insert target details now (db, err e) = (db, err e)
after_insert target details now (db, ok unlock) =
    let (db', logged) = record_event (lit "unlock_granted") (some target) (some details) now db in
    (db', logged >>= λ _. ok unlock)

-- The writes of `request_unlock`; `rules[0]` panics on an empty list.
unfoldable pub grant : Context → List Resolved → Text → Database × Fallible UnlockState
unfolding after_insert grant_details
grant ctx [] reason = (ctx.database, err Error.panicked)
grant ctx (r ∷ rs) reason = after_insert r.target (grant_details (r ∷ rs)) (now_utc ctx) (
    insert_unlock r.target (ids_of (r ∷ rs)) tier_3_unlock_minutes reason (now_utc ctx)
      (now_utc ctx + tier_3_unlock_minutes * minute_ns) ctx.database)

unfoldable pub request_unlock : Platform → Context → Text → Text → Database × Fallible UnlockState
request_unlock p ctx target reason = elim (authorize p ctx target reason) [
  | err e ↦ (ctx.database, err e)
  | ok (rules, cleaned) ↦ grant ctx rules cleaned
]
