-- ===== src/Store/Unlocks/Revoked.antt =====
-- focus-core/src/db.rs, replace_policy_config: the unlocks of lists that are gone.
use bloc_kuntu.Common.{
  ◌≡◌, refl, sym, ap, ◌∙◌, inl, inr, false, not, ◌&&◌, none, List, [], ◌∷◌, map, leb, Bool-cases,
  any, filter, length, head?, sort_by, min,
}
use bloc_kuntu.Common.Results.{ok, err}
use bloc_kuntu.Text.{Text, text_eq}
use bloc_kuntu.Text.Laws.{text_eq_iff}
use bloc_kuntu.Config.{Config}
use bloc_kuntu.Platform.{Instant, Platform}
use bloc_kuntu.Types.{Error, Fallible}
use bloc_kuntu.Store.{
  Stamp, format_time, UnlockTarget, UnlockRow, Database, read_active_unlock, attempt,
  attempt-done_bind, read_unlock_count, read_unlock_reasons,
}
use bloc_kuntu.Store.Services.{
  has_list, revoke_target, revoke_missing, replace_policy_config, replace_policy_config-cases,
}
use bloc_kuntu.Store.Unlocks.{
  is_live_target, unlocks_rule, active_unlock_for_rule, count_unlocks_since, unlock_reasons,
  read_unlock, later_expiry,
}

module _ (config : Config) where
  module _ (id : Text) (gone : has_list config id ≡ false) where
    revoke_target-dead : (t : UnlockTarget) → is_live_target id (revoke_target config t) ≡ false
    revoke_target-dead t = elim (Bool-cases (text_eq t.rule_id id)) [
      | inr other ↦ elim (Bool-cases (not t.revoked && not (has_list config t.rule_id))) [
        | inl e ↦ rw (e, other) refl
        | inr e ↦ rw (e, other) refl
      ]
      | inl own ↦
          let same_id : t.rule_id ≡ id = (text_eq_iff t.rule_id id).0 own in
          let missing : has_list config t.rule_id ≡ false = rw same_id gone in
          elim (Bool-cases t.revoked) [
            | inl r ↦ rw (r, own) refl
            | inr r ↦ rw (r, missing, own) refl
          ]
    ]

    targets_dead :
        (ts : List UnlockTarget) → any (is_live_target id) (map (revoke_target config) ts) ≡ false
    targets_dead [] = refl
    targets_dead (t ∷ ts) = rw (revoke_target-dead t, targets_dead ts) refl

    none_selected :
        (now : Stamp) (us : List UnlockRow)
        → filter (unlocks_rule id now) (map (revoke_missing config) us) ≡ []
    none_selected now [] = refl
    none_selected now (u ∷ us) = rw (targets_dead u.targets, none_selected now us) refl

  same_count :
      (since : Stamp) (us : List UnlockRow)
      → length (filter (λ (u : UnlockRow). leb since u.started_at) (map (revoke_missing config) us))
        ≡ length (filter (λ (u : UnlockRow). leb since u.started_at) us)
  same_count since [] = refl
  same_count since (u ∷ us) = elim (Bool-cases (leb since u.started_at)) [
    | inl e ↦ rw (e, same_count since us) refl
    | inr e ↦ rw (e, same_count since us) refl
  ]

  same_reasons :
      (us : List UnlockRow)
      → map (λ (u : UnlockRow). u.reason) (map (revoke_missing config) us)
        ≡ map (λ (u : UnlockRow). u.reason) us
  same_reasons [] = refl
  same_reasons (u ∷ us) = rw (same_reasons us) refl

-- Once the stored policy is replaced by one that does not have a list, no unlock of the list is
-- active, where SQLite does not fail the query; the count of unlocks and the reasons, by which later
-- requests are judged, are what they were.
pub replace_policy_config-revokes :
    (p : Platform) (config : Config) (db : Database) (id : Text) (now since : Instant)
    → (replace_policy_config p config db).1 ≡ ok tt
    → has_list config id ≡ false
    → db.failure (read_active_unlock id) ≡ none
    → (active_unlock_for_rule id now (replace_policy_config p config db).0 ≡ ok none)
      × (count_unlocks_since since (replace_policy_config p config db).0
          ≡ count_unlocks_since since db)
      × (unlock_reasons (replace_policy_config p config db).0 ≡ unlock_reasons db)
unfolding active_unlock_for_rule count_unlocks_since unlock_reasons read_unlock sort_by
replace_policy_config-revokes p config db id now since done gone fine =
    elim (replace_policy_config-cases p config db) [
      | inl written ↦ (
        rw written (
            attempt-done_bind db (read_active_unlock id) _ read_unlock fine
            ∙ ap (λ us. read_unlock (head? (sort_by later_expiry us)))
                (none_selected config id gone (format_time now) db.unlocks)),
        rw written (
            ap (λ n. attempt db read_unlock_count (min n 4294967295))
              (same_count config (format_time since) db.unlocks)),
        rw written (ap (attempt db read_unlock_reasons) (same_reasons config db.unlocks)),
      )
      | inr (e, failed) ↦ absurd (err-ne-ok (sym (ap (λ x. x.1) failed) ∙ done))
    ]
  where
    err-ne-ok : {e : Error} → ◌≡◌ {A = Fallible (Unit {0})} (err e) (ok tt) → ⊥
    err-ne-ok h = cc
