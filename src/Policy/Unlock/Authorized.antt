-- ===== src/Policy/Unlock/Authorized.antt =====
-- focus-core/src/policy.rs, request_unlock: what a request has to pass before anything is written.
use bloc_kuntu.Common.{
  ◌-◌, ◌≤◌, ◌<◌, ◌≡◌, refl, ap, ◌∙◌, inl, inr, false, List, [], ◌∷◌, map, arith, leb, ltb→ge,
  leb→gt, Bool-cases, All, length, filter, is_empty, any-false→All,
}
use bloc_kuntu.Common.Results.{ok, reject_if, >>=-eq-ok, >>-eq-ok, reject_if-eq-ok}
use bloc_kuntu.Text.{Text, text_eq, trim}
use bloc_kuntu.Types.{UnlockError, Error}
use bloc_kuntu.Platform.{Instant, Platform}
use mathlib.Core.Path.{subst}
use bloc_kuntu.Store.{Stamp, format_time, UnlockRow, attempt-eq-ok}
use bloc_kuntu.Store.Unlocks.{count_unlocks_since, unlock_reasons}
use bloc_kuntu.Policy.Activity.{Context, now_utc}
use bloc_kuntu.Policy.Unlock.{
  hour_ns, clean_unlock_reason, normalize_unlock_reason, letter_count, reject_active, reject_used,
  reject_over_quota, check_reason, admit, authorize,
}
use bloc_kuntu.Policy.Unlock.Resolve.{Resolved, resolve_unlock_rules}

-- The row started before the hour that ends at `now`.
abbrev pub IsBeforeHour : Instant → UnlockRow → Type 0
IsBeforeHour now u = u.started_at < format_time (now - hour_ns)

-- What `authorize` found out about a request.
pub record IsAuthorized (p : Platform) (ctx : Context) (target reason : Text)
    (rules : List Resolved) (cleaned : Text) : Type 0 where
  pub are_resolved : resolve_unlock_rules p ctx (trim target) ≡ ok rules
  pub is_clean : cleaned ≡ clean_unlock_reason reason
  pub has_letters : 20 ≤ letter_count p cleaned
  pub is_new :
      All
        (λ (u : UnlockRow).
          text_eq (normalize_unlock_reason p u.reason) (normalize_unlock_reason p cleaned) ≡ false)
        ctx.database.unlocks
  pub is_alone : All (IsBeforeHour (now_utc ctx)) ctx.database.unlocks

count-zero :
    (since : Stamp) (rows : List UnlockRow)
    → length (filter (λ (u : UnlockRow). leb since u.started_at) rows) ≡ 0
    → All (λ (u : UnlockRow). u.started_at < since) rows
count-zero since [] h = tt
count-zero since (u ∷ rows) h = elim (Bool-cases (leb since u.started_at)) [
  | inl e ↦ absurd (ground arith)
  | inr e ↦ (leb→gt _ _ e, count-zero since rows (ground arith))
]

All-of_map :
    {A B : Type 0} (f : A → B) (P : B → Type 0) (xs : List A)
    → All P (map f xs)
    → All (λ x. P (f x)) xs
All-of_map f P [] h = tt
All-of_map f P (x ∷ xs) (h, hs) = (h, All-of_map f P xs hs)

reject_used-eq-ok :
    (p : Platform) (ctx : Context) (cleaned : Text)
    → reject_used p ctx cleaned ≡ ok tt
    → All
        (λ (u : UnlockRow).
          text_eq (normalize_unlock_reason p u.reason) (normalize_unlock_reason p cleaned) ≡ false)
        ctx.database.unlocks
unfolding reject_used unlock_reasons
reject_used-eq-ok p ctx cleaned h =
    let (reasons, read, fresh) = >>=-eq-ok (unlock_reasons ctx.database) _ h in
    let all_reasons = attempt-eq-ok ctx.database _ _ read in
    let unused = reject_if-eq-ok _ _ fresh in
    All-of_map (λ (u : UnlockRow). u.reason) _ ctx.database.unlocks
      (any-false→All
        (λ existing.
          text_eq (normalize_unlock_reason p existing) (normalize_unlock_reason p cleaned))
        _ (rw all_reasons unused))

reject_over_quota-eq-ok :
    (ctx : Context)
    → reject_over_quota ctx ≡ ok tt
    → All (IsBeforeHour (now_utc ctx)) ctx.database.unlocks
unfolding reject_over_quota count_unlocks_since
reject_over_quota-eq-ok ctx h =
    let (n, read, few) = >>=-eq-ok (count_unlocks_since (now_utc ctx - hour_ns) ctx.database) _ h in
    let counted = attempt-eq-ok ctx.database _ _ read in
    let small = reject_if-eq-ok _ _ few in count-zero _ ctx.database.unlocks (ground arith)

pub authorize-IsAuthorized :
    (p : Platform) (ctx : Context) (target reason : Text) {rules : List Resolved} {cleaned : Text}
    → authorize p ctx target reason ≡ ok (rules, cleaned)
    → IsAuthorized p ctx target reason rules cleaned
unfolding authorize admit check_reason
authorize-IsAuthorized p ctx target reason {rules} {cleaned} h =
    let (_, h1) =
      >>-eq-ok (reject_if (is_empty (trim target)) (Error.unlock UnlockError.empty_target)) _ h in
    let (resolved, found, h2) = >>=-eq-ok (resolve_unlock_rules p ctx (trim target)) _ h1 in
    let (admitted, final) = >>-eq-ok (admit p ctx resolved (clean_unlock_reason reason)) _ h2 in
    let (checked, h3) = >>-eq-ok (check_reason p (clean_unlock_reason reason)) _ admitted in
    let (_, long) =
      >>-eq-ok
        (reject_if (is_empty (clean_unlock_reason reason)) (Error.unlock UnlockError.empty_reason))
        _ checked in
    let (fresh, h4) = >>-eq-ok (reject_used p ctx (clean_unlock_reason reason)) _ h3 in
    let (_, quota) = >>-eq-ok (reject_active ctx resolved) _ h4 in
    let same_text : clean_unlock_reason reason ≡ cleaned = cc in
    let same_rules : resolved ≡ rules = cc in
    subst (IsAuthorized p ctx target reason rules) same_text (record {
      are_resolved = found ∙ ap ok same_rules;
      is_clean = refl;
      has_letters = ltb→ge _ _ (reject_if-eq-ok _ _ long);
      is_new = reject_used-eq-ok p ctx _ fresh;
      is_alone = reject_over_quota-eq-ok ctx quota;
    })
