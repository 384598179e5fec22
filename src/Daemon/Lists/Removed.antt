-- ===== src/Daemon/Lists/Removed.antt =====
-- focusd/src/rpc.rs: the website list that a Detox session names, in the policies that the handlers
-- of deletions, application lists and allowances would save.
use bloc_kuntu.Common.{
  ◌≡◌, refl, sym, ap, ◌∙◌, inl, inr, true, false, not, Option, none, some, Bool-cases, same,
  is_some,
}
use bloc_kuntu.Common.Results.{ok, ok-injective, reject_if, >>=-eq-ok, >>-eq-ok}
use bloc_kuntu.Text.{Text, text_eq}
use bloc_kuntu.Config.{AllowanceConfig, RuleConfig, AppRuleConfig, Config}
use mathlib.Core.Path.{subst}
use bloc_kuntu.Platform.{DateTime}
use bloc_kuntu.Store.{Database}
use bloc_kuntu.Text.Laws.{text_eq_iff}
use bloc_kuntu.Policy.Matching.{NormalizedUrl}
use bloc_kuntu.Edits.{option_eq, rule_is_active_at}
use bloc_kuntu.Daemon.{site_list, DaemonError, Environment}
use bloc_kuntu.Daemon.Items.{find_item-has_id, find_item-remove_other}
use bloc_kuntu.Daemon.Lists.{
  find_item, remove, check_delete, site_in_detox, edit_window, stage_list_allowance,
}
use bloc_kuntu.Daemon.Lists.Covered.{
  IsYes, check_delete-refused, CoversUrl, remove_unreferenced-rules, CoversUrl-rules,
}
use bloc_kuntu.Daemon.Lists.Stage.{
  drop_allowance, without_site_list, stage_site_list_removal, stage_app_rule, without_app_rule,
  stage_app_rule_removal, stage_allowance_removal,
}
use bloc_kuntu.Daemon.Lists.Edited.{locked_as, stage_list_allowance-rules}
use bloc_kuntu.Daemon.Lists.Stage.{check_app_rule, refuse_used, users}
use bloc_kuntu.Daemon.{app_rule, allowance, unknown, currently_active}
use bloc_kuntu.Daemon.Lists.{app_in_detox, allowance_is_active_at}
use bloc_kuntu.Edits.{app_rule_is_active_at}

abbrev id_of : RuleConfig → Text
id_of r = r.id

module _ (env : Environment) (config : Config) (db : Database) (now : DateTime) (i : Text)
    (url : NormalizedUrl) (locked : IsYes (site_in_detox env config db now i)) where
  abbrev Covers : Config → Type 0
  Covers = CoversUrl env.platform i url

  -- A list in a Detox cannot be deleted.
  not_removed :
      (id : Text) (current : RuleConfig) (final : Config)
      → text_eq current.id id ≡ true
      → without_site_list env config db now id (some current) ≡ ok final
      → text_eq id i ≡ false
  unfolding without_site_list
  not_removed id current final same h = elim (Bool-cases (text_eq id i)) [
    | inr e ↦ e
    | inl e ↦
        let (checked, _) =
          >>-eq-ok
            (check_delete site_list current.id (site_in_detox env config db now current.id)
              (rule_is_active_at env.platform.chrono current config now)
              (edit_window env config db now))
            _ h in
        let is_i : text_eq current.id i ≡ true =
          subst (λ t. text_eq t i ≡ true) (sym ((text_eq_iff current.id id).0 same)) e in
        absurd (
          check_delete-refused site_list current.id _ _ _
            (locked_as env config db now i url locked current.id is_i) checked)
  ]

  removed-Covers :
      (id : Text) (current : Option RuleConfig) (final : Config)
      → find_item id_of id config.rules ≡ current
      → without_site_list env config db now id current ≡ ok final
      → Covers config
      → Covers final
  unfolding without_site_list
  removed-Covers id none final found h c = cc
  removed-Covers id (some current) final found h c =
      let other =
        not_removed id current final (find_item-has_id id_of id config.rules current found) h in
      let (_, h') =
        >>-eq-ok
          (check_delete site_list current.id (site_in_detox env config db now current.id)
            (rule_is_active_at env.platform.chrono current config now)
            (edit_window env config db now))
          _ h in
      let removed = record config { rules = remove id_of id config.rules } in
      let c' : Covers removed = record {
        list = c.list;
        found = find_item-remove_other id_of i id config.rules other ∙ c.found;
        in_force = c.in_force;
        applies = c.applies;
      } in
      subst Covers (ok-injective h') (
        CoversUrl-rules env.platform i url removed _
          (remove_unreferenced-rules env.platform i url removed current.allowance_id) c')

  pub stage_site_list_removal-Covers :
      (id : Text) (final : Config)
      → stage_site_list_removal env config db now id ≡ ok final
      → Covers config
      → Covers final
  unfolding stage_site_list_removal
  stage_site_list_removal-Covers id final h c =
      removed-Covers id (find_item id_of id config.rules) final refl h c

  drop_allowance-rules :
      (old new : Option Text) (next : Config)
      → (drop_allowance env config db now old new next).rules ≡ next.rules
  unfolding drop_allowance
  drop_allowance-rules old new next = elim (Bool-cases (option_eq old new)) [
    | inl e ↦ rw e refl
    | inr e ↦ rw e (remove_unreferenced-rules env.platform i url next old)
  ]

  pub stage_app_rule-rules :
      (given : Option AllowanceConfig) (new : AppRuleConfig) (final : Config)
      → stage_app_rule env config db now given new ≡ ok final
      → final.rules ≡ config.rules
  unfolding stage_app_rule
  stage_app_rule-rules given new final h =
      let (next, staged, h₁) =
        >>=-eq-ok (stage_list_allowance env config db now given new.allowance_id new.tier config) _
          h in
      let (_, h₂) =
        >>-eq-ok
          (check_app_rule env config db now new
            (find_item (λ (r : AppRuleConfig). r.id) new.id next.app_rules))
          _ h₁ in
      ap (λ (c : Config). c.rules) (sym (ok-injective h₂))
      ∙ drop_allowance-rules _ _ _
      ∙ stage_list_allowance-rules env config db now i url locked given new.allowance_id new.tier
          next staged

  without_app_rule-rules :
      (id : Text) (current : Option AppRuleConfig) (final : Config)
      → without_app_rule env config db now id current ≡ ok final
      → final.rules ≡ config.rules
  unfolding without_app_rule
  without_app_rule-rules id none final h = cc
  without_app_rule-rules id (some current) final h =
      let (_, h') =
        >>-eq-ok
          (check_delete app_rule current.id (app_in_detox env config db now current.id)
            (app_rule_is_active_at env.platform.chrono current config now)
            (edit_window env config db now))
          _ h in
      ap (λ (c : Config). c.rules) (sym (ok-injective h'))
      ∙ remove_unreferenced-rules env.platform i url _ current.allowance_id

  pub stage_app_rule_removal-rules :
      (id : Text) (final : Config)
      → stage_app_rule_removal env config db now id ≡ ok final
      → final.rules ≡ config.rules
  unfolding stage_app_rule_removal
  stage_app_rule_removal-rules id final h = without_app_rule-rules id _ final h

  pub stage_allowance_removal-rules :
      (id : Text) (final : Config)
      → stage_allowance_removal env config db now id ≡ ok final
      → final.rules ≡ config.rules
  unfolding stage_allowance_removal
  stage_allowance_removal-rules id final h =
      let known = find_item (λ (a : AllowanceConfig). a.id) id config.allowances in
      let (_, h₁) =
        >>-eq-ok
          (reject_if (not (is_some known)) (DaemonError.invalid_request (unknown allowance id))) _
          h in
      let (active, _, h₂) = >>=-eq-ok (allowance_is_active_at env config db now id) _ h₁ in
      let (_, h₃) =
        >>-eq-ok (reject_if active (DaemonError.invalid_request (currently_active allowance id))) _
          h₂ in
      let (_, h₄) =
        >>-eq-ok
          (refuse_used env config db now site_list (λ (r : RuleConfig). r.id) id
            (users env config db now (λ (r : RuleConfig). r.allowance_id) id config.rules))
          _ h₃ in
      let (_, h₅) =
        >>-eq-ok
          (refuse_used env config db now app_rule (λ (r : AppRuleConfig). r.id) id
            (users env config db now (λ (r : AppRuleConfig). r.allowance_id) id config.app_rules))
          _ h₄ in
      ap (λ (c : Config). c.rules) (sym (ok-injective h₅))
