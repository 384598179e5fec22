-- ===== src/Policy/Evaluate/Metered.antt =====
-- focus-core/src/policy.rs, evaluate_controlled_rule_fields: when a Tier 3 list lets its target
-- pass.
use bloc_kuntu.Common.{
  ℕ, ◌*◌, ◌<◌, ◌≡◌, refl, ◌↔◌, ◌⊎◌, inl, inr, false, Option, none, some, arith, lt→ltb,
  Option-cases,
}
use bloc_kuntu.Common.Results.{ok, err, Result-cases}
use bloc_kuntu.Text.{Text}
use bloc_kuntu.Config.{AllowanceConfig}
use bloc_kuntu.Types.{Fallible, Decision, UnlockState}
use bloc_kuntu.Platform.{Platform}
use bloc_kuntu.Store.Unlocks.{active_unlock_for_rule}
use bloc_kuntu.Policy.Activity.{Context, now_utc}
use bloc_kuntu.Policy.Usage.{find_allowance}
use bloc_kuntu.Policy.Evaluate.{within_allowance, by_allowance, evaluate_controlled_rule_fields}

module _ (p : Platform) (ctx : Context) where
  -- The allowance leaves time: it is the policy's, and less of it is used than there is.
  abbrev pub HasTimeLeft : Option Text → Fallible ℕ → Type 0
  HasTimeLeft allowance_id used =
      (id : Text) × (allowance_id ≡ some id)
      × ((a : AllowanceConfig) × (find_allowance p ctx id ≡ some a)
          × ((n : ℕ) × (used ≡ ok n) × (n < a.daily_minutes * 60)))

  abbrev pub HasUnlock : Text → Type 0
  HasUnlock id =
      (u : UnlockState) × (active_unlock_for_rule id (now_utc ctx) ctx.database ≡ ok (some u))

  by_allowance-HasTimeLeft :
      (id name : Text) (allowance_id : Option Text) (used : Fallible ℕ)
      → by_allowance p ctx id name allowance_id used ≡ Decision.allow
      → HasTimeLeft allowance_id used
  unfolding by_allowance within_allowance
  by_allowance-HasTimeLeft id name none used h = cc
  by_allowance-HasTimeLeft id name (some a) (err e) h =
      elim (Option-cases (find_allowance p ctx a)) [
        | inl missing ↦ absurd (ground arith)
        | inr (w, found) ↦ absurd (ground arith)
      ]
  by_allowance-HasTimeLeft id name (some a) (ok n) h =
      elim (Option-cases (find_allowance p ctx a)) [
        | inl missing ↦ absurd (ground arith)
        | inr (w, found) ↦ (a, refl, (w, found, (n, refl, ground arith)))
      ]

  HasTimeLeft-by_allowance :
      (id name : Text) (allowance_id : Option Text) (used : Fallible ℕ)
      → HasTimeLeft allowance_id used
      → by_allowance p ctx id name allowance_id used ≡ Decision.allow
  unfolding by_allowance within_allowance
  HasTimeLeft-by_allowance id name allowance_id used (a, e, (w, found, (n, u, less))) =
      rw (e, by_allowance, found, u, lt→ltb _ _ less)

  -- A Tier 3 list lets its target pass exactly when the clock does not count as tampered, the
  -- unlocks could be read, and an unlock of the list is active or its allowance leaves time.
  pub evaluate_controlled_rule_fields-allow_iff :
      (id name : Text) (allowance_id : Option Text) (used : Fallible ℕ)
      → (evaluate_controlled_rule_fields p ctx id name allowance_id used ≡ Decision.allow) ↔ (
          (ctx.clock_tampered ≡ false)
          × (HasUnlock id
              ⊎ ((active_unlock_for_rule id (now_utc ctx) ctx.database ≡ ok none)
                  × HasTimeLeft allowance_id used)))
  unfolding evaluate_controlled_rule_fields
  evaluate_controlled_rule_fields-allow_iff id name allowance_id used = (to, from)
    where
      to :
          evaluate_controlled_rule_fields p ctx id name allowance_id used ≡ Decision.allow
          → (ctx.clock_tampered ≡ false)
            × (HasUnlock id
                ⊎ ((active_unlock_for_rule id (now_utc ctx) ctx.database ≡ ok none)
                    × HasTimeLeft allowance_id used))
      to h = elim (Result-cases (active_unlock_for_rule id (now_utc ctx) ctx.database)) [
        | inr (e, failed) ↦ absurd (ground arith)
        | inl (o, read) ↦ elim (Option-cases o) [
          | inr (u, is_u) ↦ (ground arith, inl (u, rw is_u at read))
          | inl is_none ↦ (
            ground arith,
            inr (
              rw is_none at read,
              by_allowance-HasTimeLeft id name allowance_id used (ground arith),
            ),
          )
        ]
      ]

      from :
          (ctx.clock_tampered ≡ false)
            × (HasUnlock id
                ⊎ ((active_unlock_for_rule id (now_utc ctx) ctx.database ≡ ok none)
                    × HasTimeLeft allowance_id used))
          → evaluate_controlled_rule_fields p ctx id name allowance_id used ≡ Decision.allow
      from (calm, inl (u, read)) = rw (calm, evaluate_controlled_rule_fields, read)
      from (calm, inr (read, left)) =
          rw (calm, evaluate_controlled_rule_fields, read)
            (HasTimeLeft-by_allowance id name allowance_id used left)
