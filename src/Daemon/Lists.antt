-- ===== src/Daemon/Lists.antt =====
-- focusd/src/rpc.rs: saving and deleting lists and allowances. A handler first computes the policy
-- that it would save, and may refuse; then `save` puts it in force.
pub mod Stage
pub mod Covered
pub mod Edited
pub mod Removed
use bloc_kuntu.Common.{
  zero, suc, ◌+◌, ◌-◌, ◌*◌, ◌/◌, ◌%◌, ◌≤◌, ◌<◌, ◌≡◌, refl, sym, ap, ◌∙◌, ◌≢◌, ◌↔◌, ◌⊎◌, inl, inr,
  Bool, true, false, not, ◌&&◌, ◌||◌, Option, none, some, List, [], ◌∷◌, ◌++◌, map, arith, ◌==◌,
  if◌then◌else◌, tests, Bool-cases, same, same_iff, is_some, any, find,
}
use bloc_kuntu.Common.Results.{ok, ◌>>=◌, ◌>>◌, reject_if, >>=-eq-ok, >>-eq-ok, reject_if-eq-ok}
use bloc_kuntu.Text.{Text, text_eq}
use bloc_kuntu.Config.{
  RuleTier, tier_eq, mode_eq, AllowanceConfig, RuleConfig, AppRuleConfig, Config,
}
use bloc_kuntu.Types.{Fallible, DetoxSession}
use bloc_kuntu.Platform.{DateTime}
use bloc_kuntu.Store.{Database, id_member}
use bloc_kuntu.Store.Detox.{active_detox_sessions}
use bloc_kuntu.Edits.{
  option_eq, texts_eq, pattern_eq, matcher_eq, site_list_edit_is_additive,
  app_rule_edit_is_additive, remove_unreferenced_allowance, rule_is_active_at,
  app_rule_is_active_at, in_active_detox, uses,
}
use bloc_kuntu.Daemon.{
  ItemKind, allowance, site_list, app_rule, Refusal, currently_active, unknown, still_used,
  foreign_allowance, DaemonError, Outcome, refuse, from_core, ◌&&?◌, Environment,
}
use bloc_kuntu.Daemon.Access.{tier1_edit_window_active}

-- The derived `==` of lists and allowances.
abbrev pub list_eq : {A : Type 0} → (A → A → Bool) → List A → List A → Bool
list_eq eq [] [] = true
list_eq eq [] (y ∷ ys) = false
list_eq eq (x ∷ xs) [] = false
list_eq eq (x ∷ xs) (y ∷ ys) = eq x y && list_eq eq xs ys

abbrev pub rule_eq : RuleConfig → RuleConfig → Bool
rule_eq a b =
    text_eq a.id b.id
    && text_eq a.name b.name
    && tier_eq a.tier b.tier
    && same a.enabled b.enabled
    && mode_eq a.mode b.mode
    && list_eq pattern_eq a.patterns b.patterns
    && texts_eq a.schedule_ids b.schedule_ids
    && option_eq a.allowance_id b.allowance_id

abbrev pub app_rule_eq : AppRuleConfig → AppRuleConfig → Bool
app_rule_eq a b =
    text_eq a.id b.id
    && text_eq a.name b.name
    && tier_eq a.tier b.tier
    && same a.enabled b.enabled
    && mode_eq a.mode b.mode
    && list_eq matcher_eq a.matchers b.matchers
    && texts_eq a.schedule_ids b.schedule_ids
    && option_eq a.allowance_id b.allowance_id

abbrev pub allowance_eq : AllowanceConfig → AllowanceConfig → Bool
allowance_eq a b =
    text_eq a.id b.id && option_eq a.name b.name && a.daily_minutes == b.daily_minutes

-- What the lists of either kind, schedules and allowances share: items with an id in a vector.
module _ {A : Type 0} (id_of : A → Text) where
  -- `.iter().find(|candidate| candidate.id == id)`
  abbrev pub find_item : Text → List A → Option A
  find_item id items = find (λ item. text_eq (id_of item) id) items

  -- `match position { Some(index) => items[index] = item, None => items.push(item) }`
  abbrev pub put : A → List A → List A
  put item [] = item ∷ []
  put item (x ∷ items) =
      let rest = put item items in if text_eq (id_of x) (id_of item) then item ∷ items else x ∷ rest

  -- `items.remove(index)` of the first item with the id
  abbrev pub remove : Text → List A → List A
  remove id [] = []
  remove id (x ∷ items) =
      let rest = remove id items in if text_eq (id_of x) id then items else x ∷ rest

-- The two refusals of an edit: under a Detox, and while the list is active outside the edit window.
unfoldable pub check_edit :
    ItemKind → Text → Bool → Bool → Outcome Bool → Bool → Outcome Bool → Outcome (Unit {0})
check_edit kind id changed additive detox active window = do
  in_detox ← changed &&? detox
  reject_if (in_detox && not additive)
      (DaemonError.invalid_request (Refusal.in_active_detox kind id))
  is_open ← (changed && active && not additive) &&? (window >>= λ w. ok (not w))
  reject_if is_open (DaemonError.invalid_request (currently_active kind id))

unfoldable pub check_delete :
    ItemKind → Text → Outcome Bool → Bool → Outcome Bool → Outcome (Unit {0})
check_delete kind id detox active window = do
  in_detox ← detox
  reject_if in_detox (DaemonError.invalid_request (Refusal.in_active_detox kind id))
  is_closed ← active &&? (window >>= λ w. ok (not w))
  reject_if is_closed (DaemonError.invalid_request (currently_active kind id))

module _ (env : Environment) (config : Config) (db : Database) (now : DateTime) where
  abbrev pub site_in_detox : Text → Outcome Bool
  site_in_detox id = from_core (in_active_detox (λ (s : DetoxSession). s.site_rule_ids) db id now)

  abbrev pub app_in_detox : Text → Outcome Bool
  app_in_detox id = from_core (in_active_detox (λ (s : DetoxSession). s.app_rule_ids) db id now)

  abbrev pub edit_window : Outcome Bool
  edit_window = tier1_edit_window_active env db now

  -- `for rule in rules { if uses && in_detox(rule)? { return Ok(true) } }`
  any_in_detox : (Text → Outcome Bool) → Text → List (Text × Option Text) → Outcome Bool
  any_in_detox in_detox allowance_id [] = ok false
  any_in_detox in_detox allowance_id ((id, a) ∷ rules) = do
    let rest = any_in_detox in_detox allowance_id rules
    found ← uses allowance_id a &&? in_detox id
    if found then ok true else rest

  unfoldable pub allowance_in_active_detox : Text → Outcome Bool
  unfolding any_in_detox
  allowance_in_active_detox allowance_id = do
    site ←
        any_in_detox site_in_detox allowance_id
          (map (λ (r : RuleConfig). (r.id, r.allowance_id)) config.rules)
    if site
        then ok true
        else any_in_detox app_in_detox allowance_id
            (map (λ (r : AppRuleConfig). (r.id, r.allowance_id)) config.app_rules)

  abbrev session_uses : Text → DetoxSession → Bool
  session_uses allowance_id s =
      any (λ (r : RuleConfig). uses allowance_id r.allowance_id && id_member r.id s.site_rule_ids)
        config.rules
      || any
          (λ (r : AppRuleConfig). uses allowance_id r.allowance_id && id_member r.id s.app_rule_ids)
          config.app_rules

  unfoldable pub allowance_is_active_at : Text → Outcome Bool
  allowance_is_active_at allowance_id =
      let c = env.platform.chrono in
      if any
          (λ (r : RuleConfig). uses allowance_id r.allowance_id && rule_is_active_at c r config now)
          config.rules
        || any
            (λ (r : AppRuleConfig).
              uses allowance_id r.allowance_id && app_rule_is_active_at c r config now)
            config.app_rules
      then ok true
      else from_core (active_detox_sessions now.utc db) >>= λ sessions.
          ok (any (session_uses allowance_id) sessions)

  -- The window is asked first, and a Detox only while it is open.
  allowance_is_locked : Text → Outcome Bool
  allowance_is_locked id = do
    window ← edit_window
    if not window then ok true else allowance_in_active_detox id

  unfoldable pub check_allowance : AllowanceConfig → Option AllowanceConfig → Outcome (Unit {0})
  unfolding allowance_is_locked
  check_allowance new none = ok tt
  check_allowance new (some current) = do
    let changed = not (allowance_eq current new)
    active ← changed &&? allowance_is_active_at current.id
    locked ← active &&? allowance_is_locked current.id
    reject_if locked (DaemonError.invalid_request (currently_active allowance current.id))

  unfoldable pub stage_allowance : AllowanceConfig → Config → Outcome Config
  unfolding check_allowance
  stage_allowance new next = do
    check_allowance new (find_item (λ (a : AllowanceConfig). a.id) new.id next.allowances)
    ok (record next { allowances = put (λ (a : AllowanceConfig). a.id) new next.allowances })

  unfoldable pub stage_list_allowance :
      Option AllowanceConfig → Option Text → RuleTier → Config → Outcome Config
  stage_list_allowance none allowance_id tier next = ok next
  stage_list_allowance (some new) allowance_id tier next = do
    reject_if (not (tier_eq tier RuleTier.controlled_access) || not (uses new.id allowance_id))
        (DaemonError.invalid_request foreign_allowance)
    stage_allowance new next
