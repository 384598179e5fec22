-- ===== src/Daemon/Schedules.antt =====
-- focusd/src/rpc.rs: the policies that the handlers of schedules would save.
pub mod Covered
pub mod Targets
use bloc_kuntu.Common.{
  zero, suc, ◌+◌, ◌-◌, ◌*◌, ◌/◌, ◌%◌, ◌≤◌, ◌<◌, ◌≡◌, refl, sym, ap, ◌∙◌, ◌≢◌, ◌↔◌, ◌⊎◌, inl, inr,
  Bool, true, false, not, ◌&&◌, ◌||◌, Option, none, some, List, [], ◌∷◌, ◌++◌, map, arith, ◌==◌,
  if◌then◌else◌, tests, Bool-cases, or-false, same, All, all, filter, is_empty,
}
use bloc_kuntu.Common.Results.{ok, ◌>>=◌, ◌>>◌, reject_if, for_each, >>=-eq-ok, >>-eq-ok}
use bloc_kuntu.Text.{Text, text_eq, trim}
use bloc_kuntu.Config.{RuleTier, tier_eq, ScheduleConfig, RuleConfig, AppRuleConfig, Config}
use bloc_kuntu.Types.{Fallible}
use bloc_kuntu.Platform.{DateTime}
use bloc_kuntu.Store.{Database, id_member}
use bloc_kuntu.Edits.{rule_is_active_at, app_rule_is_active_at}
use bloc_kuntu.Daemon.{
  ItemKind, site_list, app_rule, currently_active, unknown, DaemonError, Outcome, refuse, ◌&&?◌,
  Environment,
}
use bloc_kuntu.Daemon.Lists.{
  find_item, put, remove, check_delete, site_in_detox, app_in_detox, edit_window,
}
use bloc_kuntu.Edits.{
  schedule_edit_is_additive, schedule_target_updates_change, schedule_is_active_at,
}
use bloc_kuntu.Daemon.{schedule, tier_1_target}
use bloc_kuntu.Daemon.Import.{schedule_eq}

unfoldable pub normalized_from : List Text → List Text → List Text
normalized_from unique [] = unique
normalized_from unique (id ∷ ids) =
    let id' = trim id in
    normalized_from (if is_empty id' || id_member id' unique then unique else unique ++ id' ∷ [])
      ids

unfoldable pub normalized_unique_ids : List Text → List Text
unfolding normalized_from
normalized_unique_ids ids = normalized_from [] ids

unfoldable pub target_found :
    {A : Type 0} → ItemKind → (A → RuleTier) → Text → Option A → Outcome (Unit {0})
target_found kind tier_of id none = refuse (unknown kind id)
target_found kind tier_of id (some item) =
    reject_if (tier_eq (tier_of item) RuleTier.hard)
      (DaemonError.invalid_request (tier_1_target kind id))

unfoldable pub validate_detox_targets : Config → List Text → List Text → Outcome (Unit {0})
unfolding target_found
validate_detox_targets config site_rule_ids app_rule_ids = do
  for_each
      (λ id.
        target_found site_list (λ (r : RuleConfig). r.tier) id
          (find_item (λ (r : RuleConfig). r.id) id config.rules))
      site_rule_ids
  for_each
      (λ id.
        target_found app_rule (λ (r : AppRuleConfig). r.tier) id
          (find_item (λ (r : AppRuleConfig). r.id) id config.app_rules))
      app_rule_ids

-- `retain(|id| id != schedule_id)`
abbrev pub without : Text → List Text → List Text
without id ids = filter (λ candidate. not (text_eq candidate id)) ids

-- The lists of a policy in force have distinct ids, so a list that is looked up by its id is
-- itself. The attachment of a list that is asked for and is not there, or is there and not asked
-- for.
abbrev attachment_changes : Text → List Text → Text → RuleTier → List Text → Bool
attachment_changes schedule_id rule_ids id tier schedule_ids =
    not (tier_eq tier RuleTier.hard)
    && not (same (id_member schedule_id schedule_ids) (id_member id rule_ids))

abbrev reattach : Text → List Text → Text → RuleTier → List Text → List Text
reattach schedule_id rule_ids id tier schedule_ids =
    if attachment_changes schedule_id rule_ids id tier schedule_ids
    then without schedule_id schedule_ids
      ++ (if id_member id rule_ids then schedule_id ∷ [] else [])
    else schedule_ids

module _ (env : Environment) (config : Config) (db : Database) (now : DateTime) where
  abbrev check_reattached : ItemKind → Text → Outcome Bool → Bool → Outcome (Unit {0})
  check_reattached kind id detox active =
      check_delete kind id detox active (edit_window env config db now)

  unfoldable pub site_targets_allowed : Text → List Text → Outcome (Unit {0})
  site_targets_allowed schedule_id rule_ids =
      for_each
        (λ (r : RuleConfig).
          check_reattached site_list r.id (site_in_detox env config db now r.id)
            (rule_is_active_at env.platform.chrono r config now))
        (filter
          (λ (r : RuleConfig). attachment_changes schedule_id rule_ids r.id r.tier r.schedule_ids)
          config.rules)

  unfoldable pub app_targets_allowed : Text → List Text → Outcome (Unit {0})
  app_targets_allowed schedule_id rule_ids =
      for_each
        (λ (r : AppRuleConfig).
          check_reattached app_rule r.id (app_in_detox env config db now r.id)
            (app_rule_is_active_at env.platform.chrono r config now))
        (filter
          (λ (r : AppRuleConfig).
            attachment_changes schedule_id rule_ids r.id r.tier r.schedule_ids)
          config.app_rules)

  unfoldable pub attach_sites : Text → Option (List Text) → Config → Outcome Config
  unfolding site_targets_allowed
  attach_sites schedule_id none next = ok next
  attach_sites schedule_id (some rule_ids) next = do
    site_targets_allowed schedule_id rule_ids
    ok (record next {
      rules =
          map
            (λ (r : RuleConfig). record r {
              schedule_ids = reattach schedule_id rule_ids r.id r.tier r.schedule_ids;
            })
            next.rules;
    })

  unfoldable pub attach_apps : Text → Option (List Text) → Config → Outcome Config
  unfolding app_targets_allowed
  attach_apps schedule_id none next = ok next
  attach_apps schedule_id (some rule_ids) next = do
    app_targets_allowed schedule_id rule_ids
    ok (record next {
      app_rules =
          map
            (λ (r : AppRuleConfig). record r {
              schedule_ids = reattach schedule_id rule_ids r.id r.tier r.schedule_ids;
            })
            next.app_rules;
    })

  unfoldable pub apply_schedule_target_updates :
      Text → Option (List Text) → Option (List Text) → Config → Outcome Config
  unfolding attach_sites attach_apps
  apply_schedule_target_updates schedule_id site_rule_ids app_rule_ids next = do
    next' ← attach_sites schedule_id site_rule_ids next
    attach_apps schedule_id app_rule_ids next'

  unfoldable pub check_schedule : ScheduleConfig → Bool → Option ScheduleConfig → Outcome (Unit {0})
  check_schedule new targets_change none = ok tt
  check_schedule new targets_change (some current) = do
    let weakened = not (schedule_eq current new) && not (schedule_edit_is_additive current new)
    let active = schedule_is_active_at env.platform.chrono current now
    retargeted ←
        (active && not weakened && targets_change)
        &&? (edit_window env config db now >>= λ w. ok (not w))
    reject_if ((active && weakened) || retargeted)
        (DaemonError.invalid_request (currently_active schedule current.id))

  unfoldable pub targets_valid : Option (List Text) → Option (List Text) → Outcome (Unit {0})
  targets_valid none none = ok tt
  targets_valid (some sites) none = validate_detox_targets config sites []
  targets_valid none (some apps) = validate_detox_targets config [] apps
  targets_valid (some sites) (some apps) = do
    validate_detox_targets config sites []
    validate_detox_targets config [] apps

  -- The target lists have been through `normalized_unique_ids`.
  unfoldable pub stage_normalized :
      ScheduleConfig → Option (List Text) → Option (List Text) → Outcome Config
  unfolding targets_valid check_schedule
  stage_normalized new sites apps = do
    targets_valid sites apps
    let id_of : ScheduleConfig → Text = λ s. s.id
    check_schedule new (schedule_target_updates_change config new.id sites apps)
        (find_item id_of new.id config.schedules)
    apply_schedule_target_updates new.id sites apps
        (record config { schedules = put id_of new config.schedules })

  abbrev pub normalized : Option (List Text) → Option (List Text)
  normalized none = none
  normalized (some ids) = some (normalized_unique_ids ids)

  -- The policy that `upsert_schedule_method` would save.
  unfoldable pub stage_schedule :
      ScheduleConfig → Option (List Text) → Option (List Text) → Outcome Config
  unfolding stage_normalized
  stage_schedule new site_rule_ids app_rule_ids =
      stage_normalized new (normalized site_rule_ids) (normalized app_rule_ids)

  unfoldable pub without_schedule : Text → Option ScheduleConfig → Outcome Config
  without_schedule id none = refuse (unknown schedule id)
  without_schedule id (some current) = do
    reject_if (schedule_is_active_at env.platform.chrono current now)
        (DaemonError.invalid_request (currently_active schedule current.id))
    ok (record config {
      schedules = remove (λ (s : ScheduleConfig). s.id) id config.schedules;
      rules =
          map (λ (r : RuleConfig). record r { schedule_ids = without current.id r.schedule_ids })
            config.rules;
      app_rules =
          map (λ (r : AppRuleConfig). record r { schedule_ids = without current.id r.schedule_ids })
            config.app_rules;
    })

  unfoldable pub stage_schedule_removal : Text → Outcome Config
  unfolding without_schedule
  stage_schedule_removal id =
      without_schedule id (find_item (λ (s : ScheduleConfig). s.id) id config.schedules)
