-- ===== src/Daemon/Import.antt =====
-- focusd/src/rpc.rs, import_policy_toml_method, and focusd/src/app.rs: what an import appends to
-- the policy, and the application list that every policy must have. The TOML text is read by serde;
-- the model starts from the policy that is read.
pub mod Append
pub mod Covered
use bloc_kuntu.Common.{
  ℕ, zero, suc, ◌+◌, ◌-◌, ◌*◌, ◌/◌, ◌%◌, ◌≤◌, ◌<◌, min, ◌≡◌, refl, sym, ap, ◌∙◌, ◌≢◌, ◌↔◌, ◌⊎◌, inl,
  inr, Bool, true, false, not, ◌&&◌, ◌||◌, Option, none, some, List, [], ◌∷◌, ◌++◌, map, append-nil,
  append_assoc, arith, ◌==◌, if◌then◌else◌, tests, Bool-cases, same, All, length, any,
}
use bloc_kuntu.Common.Results.{ok, ◌>>=◌, ◌>>◌, >>=-eq-ok}
use bloc_kuntu.Text.{Text, lit, text_eq}
use bloc_kuntu.Config.{
  RuleTier, ListMode, AppMatcherKind, ScheduleConfig, AllowanceConfig, RuleConfig, AppRuleConfig,
  Config,
}
use bloc_kuntu.Edits.{option_eq, window_eq}
use bloc_kuntu.Daemon.{
  ItemKind, allowance, schedule, site_list, app_rule, import_conflict, Outcome, refuse,
}
use bloc_kuntu.Daemon.Lists.{list_eq, rule_eq, app_rule_eq, allowance_eq, find_item, put, remove}

abbrev pub schedule_eq : ScheduleConfig → ScheduleConfig → Bool
schedule_eq a b =
    text_eq a.id b.id && option_eq a.name b.name && list_eq window_eq a.windows b.windows

module _ {A : Type 0} (id_of : A → Text) (eq : A → A → Bool) (kind : ItemKind) where
  -- One round of the loop: the items, and how many were added.
  unfoldable pub append_one : A → Option A → List A → ℕ → Outcome (List A × ℕ)
  append_one item none current added = ok (current ++ item ∷ [], added + 1)
  append_one item (some existing) current added =
      if eq existing item then ok (current, added) else refuse (import_conflict kind (id_of item))

  unfoldable pub append_from : List A → List A → ℕ → Outcome (List A × ℕ)
  append_from [] current added = ok (current, added)
  append_from (item ∷ imported) current added = do
    (next, more) ← append_one item (find_item id_of (id_of item) current) current added
    append_from imported next more

  unfoldable pub append_unique_by_id : List A → List A → Outcome (List A × ℕ)
  unfolding append_from append_one
  append_unique_by_id current imported = append_from imported current 0

unfoldable pub append_policy_config : Config → Config → Outcome (Config × ℕ)
unfolding append_unique_by_id
append_policy_config current imported = do
  (allowances, a) ←
      append_unique_by_id (λ (x : AllowanceConfig). x.id) allowance_eq allowance current.allowances
        imported.allowances
  (schedules, s) ←
      append_unique_by_id (λ (x : ScheduleConfig). x.id) schedule_eq schedule current.schedules
        imported.schedules
  (rules, r) ←
      append_unique_by_id (λ (x : RuleConfig). x.id) rule_eq site_list current.rules imported.rules
  (app_rules, p) ←
      append_unique_by_id (λ (x : AppRuleConfig). x.id) app_rule_eq app_rule current.app_rules
        imported.app_rules
  ok (
    record current {
      allowances = allowances;
      schedules = schedules;
      rules = rules;
      app_rules = app_rules;
    },
    a + s + r + p,
  )

unsupported_browser_matchers : List (AppMatcherKind × Text)
unsupported_browser_matchers =
    let executable_basename = AppMatcherKind.executable_basename in
    let command_name = AppMatcherKind.command_name in
    let desktop_id = AppMatcherKind.desktop_id in
    let window_title_contains = AppMatcherKind.window_title_contains in
    (executable_basename, lit "epiphany")
    ∷ (command_name, lit "epiphany")
    ∷ (desktop_id, lit "org.gnome.Epiphany.desktop")
    ∷ (executable_basename, lit "falkon")
    ∷ (command_name, lit "falkon")
    ∷ (desktop_id, lit "org.kde.falkon.desktop")
    ∷ (executable_basename, lit "qutebrowser")
    ∷ (command_name, lit "qutebrowser")
    ∷ (desktop_id, lit "org.qutebrowser.qutebrowser.desktop")
    ∷ (executable_basename, lit "midori")
    ∷ (command_name, lit "midori")
    ∷ (desktop_id, lit "midori.desktop")
    ∷ (executable_basename, lit "min")
    ∷ (command_name, lit "min")
    ∷ (desktop_id, lit "min.desktop")
    ∷ (executable_basename, lit "nyxt")
    ∷ (command_name, lit "nyxt")
    ∷ (desktop_id, lit "nyxt.desktop")
    ∷ (executable_basename, lit "torbrowser")
    ∷ (command_name, lit "torbrowser")
    ∷ (executable_basename, lit "start-tor-browser")
    ∷ (command_name, lit "start-tor-browser")
    ∷ (desktop_id, lit "torbrowser.desktop")
    ∷ (window_title_contains, lit "Tor Browser")
    ∷ (desktop_id, lit "org.chromium.Chromium.desktop")
    ∷ (desktop_id, lit "brave_brave.desktop")
    ∷ (desktop_id, lit "opera_opera.desktop")
    ∷ (desktop_id, lit "vivaldi_vivaldi-stable.desktop")
    ∷ []

unfoldable pub unsupported_browser_rule : AppRuleConfig
unfolding unsupported_browser_matchers
unsupported_browser_rule = record {
  id = lit "unsupported-browsers-hard";
  name = lit "Unsupported browsers hard block";
  tier = RuleTier.hard;
  enabled = true;
  mode = ListMode.blocklist;
  matchers =
      map (λ (m : AppMatcherKind × Text). record { kind = m.0; value = m.1 })
        unsupported_browser_matchers;
  schedule_ids = [];
  allowance_id = none;
}

-- The list stands as it must, or not at all.
unfoldable pub ensure_mandatory_app_rules : Config → Config
unfolding unsupported_browser_rule
ensure_mandatory_app_rules config =
    let id_of : AppRuleConfig → Text = λ r. r.id in
    if not config.strict_mode.block_unsupported_browsers
    then record config {
      app_rules = remove id_of (lit "unsupported-browsers-hard") config.app_rules;
    }
    else record config { app_rules = put id_of unsupported_browser_rule config.app_rules }

-- The policy that an import would save.
unfoldable pub stage_import : Config → Config → Outcome Config
unfolding append_policy_config ensure_mandatory_app_rules
stage_import config imported = do
  (next, added) ← append_policy_config config imported
  ok (ensure_mandatory_app_rules next)
