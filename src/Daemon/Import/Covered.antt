-- ===== src/Daemon/Import/Covered.antt =====
-- focusd/src/rpc.rs: the website list that a Detox session names, in the policy that an import
-- would save.
use bloc_kuntu.Common.{ℕ, ◌≡◌, sym, ap, ◌∙◌, arith}
use bloc_kuntu.Common.Results.{ok, ok-injective, >>=-eq-ok}
use bloc_kuntu.Text.{Text}
use bloc_kuntu.Config.{ScheduleConfig, AllowanceConfig, RuleConfig, AppRuleConfig, Config}
use mathlib.Core.Path.{subst}
use bloc_kuntu.Platform.{Platform}
use bloc_kuntu.Policy.Matching.{NormalizedUrl}
use bloc_kuntu.Daemon.{site_list}
use bloc_kuntu.Daemon.Lists.{rule_eq, find_item}
use bloc_kuntu.Daemon.Lists.Covered.{CoversUrl, CoversUrl-rules}
use bloc_kuntu.Daemon.{app_rule, allowance}
use bloc_kuntu.Daemon.{schedule}
use bloc_kuntu.Daemon.Items.{find_item-append}
use bloc_kuntu.Daemon.{app_rule, allowance, schedule, site_list}
use bloc_kuntu.Daemon.Lists.{app_rule_eq, allowance_eq}
use bloc_kuntu.Daemon.Import.{
  append_unique_by_id, append_policy_config, schedule_eq, ensure_mandatory_app_rules, stage_import,
}
use bloc_kuntu.Daemon.Import.Append.{append_unique_by_id-Extends}

abbrev id_of : RuleConfig → Text
id_of r = r.id

module _ (p : Platform) (i : Text) (url : NormalizedUrl) where
  appended_covers :
      (current imported next : Config) (added : ℕ)
      → append_policy_config current imported ≡ ok (next, added)
      → CoversUrl p i url current
      → CoversUrl p i url next
  unfolding append_policy_config
  appended_covers current imported next added h c =
      let (_, _, h₁) =
        >>=-eq-ok
          (append_unique_by_id (λ (x : AllowanceConfig). x.id) allowance_eq allowance
            current.allowances imported.allowances)
          _ h in
      let (_, _, h₂) =
        >>=-eq-ok
          (append_unique_by_id (λ (x : ScheduleConfig). x.id) schedule_eq schedule current.schedules
            imported.schedules)
          _ h₁ in
      let ((rules, r), appended, h₃) =
        >>=-eq-ok (append_unique_by_id id_of rule_eq site_list current.rules imported.rules) _ h₂ in
      let (_, _, h₄) =
        >>=-eq-ok
          (append_unique_by_id (λ (x : AppRuleConfig). x.id) app_rule_eq app_rule current.app_rules
            imported.app_rules)
          _ h₃ in
      let (extended, _) =
        append_unique_by_id-Extends id_of rule_eq site_list current.rules imported.rules rules r
          appended in
      let same : rules ≡ next.rules = ap (λ x. x.0.rules) (ok-injective h₄) in
      record {
        list = c.list;
        found =
            ap (find_item id_of i) (sym same ∙ extended.behind)
            ∙ find_item-append id_of i current.rules extended.new c.list c.found;
        in_force = c.in_force;
        applies = c.applies;
      }

  mandatory-rules : (config : Config) → (ensure_mandatory_app_rules config).rules ≡ config.rules
  unfolding ensure_mandatory_app_rules
  mandatory-rules config = ground arith

  pub stage_import-covers :
      (config imported final : Config)
      → stage_import config imported ≡ ok final
      → CoversUrl p i url config
      → CoversUrl p i url final
  unfolding stage_import
  stage_import-covers config imported final h c =
      let ((next, added), appended, h') = >>=-eq-ok (append_policy_config config imported) _ h in
      subst (CoversUrl p i url) (ok-injective h') (
        CoversUrl-rules p i url next _ (mandatory-rules next)
          (appended_covers config imported next added appended c))
