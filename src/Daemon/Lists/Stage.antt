-- ===== src/Daemon/Lists/Stage.antt =====
-- focusd/src/rpc.rs: the policies that the handlers of lists and allowances would save.
use bloc_kuntu.Common.{not, Option, none, some, List, if◌then◌else◌, is_some, find}
use bloc_kuntu.Common.Results.{ok, ◌>>=◌, ◌>>◌, reject_if}
use bloc_kuntu.Text.{Text}
use bloc_kuntu.Config.{AllowanceConfig, RuleConfig, AppRuleConfig, Config}
use bloc_kuntu.Platform.{DateTime}
use bloc_kuntu.Store.{Database}
use bloc_kuntu.Edits.{
  option_eq, site_list_edit_is_additive, app_rule_edit_is_additive, remove_unreferenced_allowance,
  rule_is_active_at, app_rule_is_active_at, uses,
}
use bloc_kuntu.Daemon.{
  ItemKind, allowance, site_list, app_rule, currently_active, unknown, still_used, DaemonError,
  Outcome, refuse, Environment,
}
use bloc_kuntu.Daemon.Lists.{
  rule_eq, app_rule_eq, find_item, put, remove, check_edit, check_delete, site_in_detox,
  app_in_detox, edit_window, allowance_is_active_at, stage_list_allowance,
}

module _ (env : Environment) (config : Config) (db : Database) (now : DateTime) where
  unfoldable pub check_site_list : RuleConfig → Option RuleConfig → Outcome (Unit {0})
  check_site_list new none = ok tt
  check_site_list new (some current) =
      check_edit site_list current.id (not (rule_eq current new))
        (site_list_edit_is_additive current new) (site_in_detox env config db now current.id)
        (rule_is_active_at env.platform.chrono current config now) (edit_window env config db now)

  unfoldable pub check_app_rule : AppRuleConfig → Option AppRuleConfig → Outcome (Unit {0})
  check_app_rule new none = ok tt
  check_app_rule new (some current) =
      check_edit app_rule current.id (not (app_rule_eq current new))
        (app_rule_edit_is_additive current new) (app_in_detox env config db now current.id)
        (app_rule_is_active_at env.platform.chrono current config now)
        (edit_window env config db now)

  unfoldable pub allowance_of : {A : Type 0} → (A → Option Text) → Option A → Option Text
  allowance_of link none = none
  allowance_of link (some item) = link item

  -- An allowance that the list gave up, and that nothing else uses, goes.
  unfoldable pub drop_allowance : Option Text → Option Text → Config → Config
  drop_allowance old new next =
      if option_eq old new then next else remove_unreferenced_allowance next old

  -- The policy that `upsert_site_list_method` would save.
  unfoldable pub stage_site_list : Option AllowanceConfig → RuleConfig → Outcome Config
  unfolding check_site_list allowance_of drop_allowance
  stage_site_list given new = do
    next ← stage_list_allowance env config db now given new.allowance_id new.tier config
    let id_of : RuleConfig → Text = λ r. r.id
    let link : RuleConfig → Option Text = λ r. r.allowance_id
    let current = find_item id_of new.id next.rules
    check_site_list new current
    let changed = record next { rules = put id_of new next.rules }
    ok (
        drop_allowance (allowance_of link current)
          (allowance_of link (find_item id_of new.id changed.rules)) changed)

  unfoldable pub stage_app_rule : Option AllowanceConfig → AppRuleConfig → Outcome Config
  unfolding check_app_rule allowance_of drop_allowance
  stage_app_rule given new = do
    next ← stage_list_allowance env config db now given new.allowance_id new.tier config
    let id_of : AppRuleConfig → Text = λ r. r.id
    let link : AppRuleConfig → Option Text = λ r. r.allowance_id
    let current = find_item id_of new.id next.app_rules
    check_app_rule new current
    let changed = record next { app_rules = put id_of new next.app_rules }
    ok (
        drop_allowance (allowance_of link current)
          (allowance_of link (find_item id_of new.id changed.app_rules)) changed)

  unfoldable pub without_site_list : Text → Option RuleConfig → Outcome Config
  without_site_list id none = refuse (unknown site_list id)
  without_site_list id (some current) = do
    check_delete site_list current.id (site_in_detox env config db now current.id)
        (rule_is_active_at env.platform.chrono current config now) (edit_window env config db now)
    ok (
        remove_unreferenced_allowance
          (record config { rules = remove (λ (r : RuleConfig). r.id) id config.rules })
          current.allowance_id)

  unfoldable pub stage_site_list_removal : Text → Outcome Config
  unfolding without_site_list
  stage_site_list_removal id =
      without_site_list id (find_item (λ (r : RuleConfig). r.id) id config.rules)

  unfoldable pub without_app_rule : Text → Option AppRuleConfig → Outcome Config
  without_app_rule id none = refuse (unknown app_rule id)
  without_app_rule id (some current) = do
    check_delete app_rule current.id (app_in_detox env config db now current.id)
        (app_rule_is_active_at env.platform.chrono current config now)
        (edit_window env config db now)
    ok (
        remove_unreferenced_allowance
          (record config { app_rules = remove (λ (r : AppRuleConfig). r.id) id config.app_rules })
          current.allowance_id)

  unfoldable pub stage_app_rule_removal : Text → Outcome Config
  unfolding without_app_rule
  stage_app_rule_removal id =
      without_app_rule id (find_item (λ (r : AppRuleConfig). r.id) id config.app_rules)

  unfoldable pub users : {A : Type 0} → (A → Option Text) → Text → List A → Option A
  users link allowance_id items = find (λ item. uses allowance_id (link item)) items

  unfoldable pub refuse_used :
      {A : Type 0} → ItemKind → (A → Text) → Text → Option A → Outcome (Unit {0})
  refuse_used kind id_of allowance_id none = ok tt
  refuse_used kind id_of allowance_id (some item) =
      refuse (still_used allowance_id kind (id_of item))

  unfoldable pub stage_allowance_removal : Text → Outcome Config
  unfolding users refuse_used
  stage_allowance_removal id = do
    let known = find_item (λ (a : AllowanceConfig). a.id) id config.allowances
    reject_if (not (is_some known)) (DaemonError.invalid_request (unknown allowance id))
    active ← allowance_is_active_at env config db now id
    reject_if active (DaemonError.invalid_request (currently_active allowance id))
    refuse_used site_list (λ (r : RuleConfig). r.id) id
        (users (λ (r : RuleConfig). r.allowance_id) id config.rules)
    refuse_used app_rule (λ (r : AppRuleConfig). r.id) id
        (users (λ (r : AppRuleConfig). r.allowance_id) id config.app_rules)
    ok (record config { allowances = remove (λ (a : AllowanceConfig). a.id) id config.allowances })
