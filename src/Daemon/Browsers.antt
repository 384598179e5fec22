-- ===== src/Daemon/Browsers.antt =====
-- focusd/src/rpc.rs, repair_chromium_policies_for_current_settings: which addresses the policies of
-- the Chromium browsers block, the limit on their number, and the repair of the policies. The fields
-- of the settings that only reports show are left out.
use bloc_kuntu.Common.{
  Bool, true, false, not, ◌&&◌, ◌||◌, Option, none, some, List, [], ◌∷◌, ltb, ◌==◌, if◌then◌else◌,
  filter, any, length,
}
use bloc_kuntu.Common.Results.{ok, ◌>>=◌, reject_if}
use bloc_kuntu.Text.{Text, lit, text_eq, trim_start_matches}
use bloc_kuntu.Config.{
  RuleTier, tier_eq, ListMode, mode_eq, RulePatternKind, RulePatternConfig, RuleConfig, Config,
}
use bloc_kuntu.Types.{DetoxSession}
use bloc_kuntu.Platform.{Instant, DateTime}
use bloc_kuntu.Store.{Database, id_member, attempt, read_heartbeats}
use bloc_kuntu.Store.Services.{service_state}
use bloc_kuntu.Store.Detox.{active_detox_sessions}
use bloc_kuntu.Policy.Schedule.{schedule_ids_are_active_at}
use bloc_kuntu.Daemon.{
  invalid_mode, invalid_scope, url_limit_exceeded, DaemonError, Outcome, refuse, from_core, Action,
  and_then, give, ask, system, repair_browsers, Environment,
}
use bloc_kuntu.Daemon.Clock.{ClockSample, status_tampered, update_clock_integrity}
use bloc_kuntu.Daemon.Access.{no_active_schedule_or_detox_at, uninstall_handoff_active}
use bloc_kuntu.Daemon.Hosts.{insert_domain}

pub data ChromiumIncognitoMode : Type 0 where
  disabled manual_consent policy_url_blocking : ChromiumIncognitoMode

pub data ChromiumIncognitoDisableScope : Type 0 where
  all_time active_schedule_or_detox : ChromiumIncognitoDisableScope

pub record ChromiumIncognitoPolicySettings : Type 0 where
  pub mode : ChromiumIncognitoMode
  pub url_blocklist : List Text

abbrev pub chromium_incognito_mode_key : Text
chromium_incognito_mode_key = lit "chromium_incognito_mode"

abbrev pub chromium_incognito_disable_scope_key : Text
chromium_incognito_disable_scope_key = lit "chromium_incognito_disable_scope"

incognito_mode_of : Option Text → Outcome ChromiumIncognitoMode
incognito_mode_of none = ok ChromiumIncognitoMode.manual_consent
incognito_mode_of (some text) =
    if text_eq text (lit "disabled")
    then ok ChromiumIncognitoMode.disabled
    else if text_eq text (lit "manual_consent")
    then ok ChromiumIncognitoMode.manual_consent
    else if text_eq text (lit "policy_url_blocking")
    then ok ChromiumIncognitoMode.policy_url_blocking
    else refuse (invalid_mode text)

unfoldable pub chromium_incognito_mode : Database → Outcome ChromiumIncognitoMode
unfolding incognito_mode_of
chromium_incognito_mode db =
    from_core (service_state chromium_incognito_mode_key db) >>= incognito_mode_of

disable_scope_of : Option Text → Outcome ChromiumIncognitoDisableScope
disable_scope_of none = ok ChromiumIncognitoDisableScope.all_time
disable_scope_of (some text) =
    if text_eq text (lit "all_time")
    then ok ChromiumIncognitoDisableScope.all_time
    else if text_eq text (lit "active_schedule_or_detox")
    then ok ChromiumIncognitoDisableScope.active_schedule_or_detox
    else refuse (invalid_scope text)

unfoldable pub chromium_incognito_disable_scope : Database → Outcome ChromiumIncognitoDisableScope
unfolding disable_scope_of
chromium_incognito_disable_scope db =
    from_core (service_state chromium_incognito_disable_scope_key db) >>= disable_scope_of

-- The entry of a pattern in a URL blocklist, where it can be expressed.
abbrev pub blocklist_entry : RulePatternConfig → Option Text
blocklist_entry pattern = elim pattern.kind [
  | RulePatternKind.domain ↦ some (
      if pattern.match_subdomains
      then pattern.value
      else b'.' ∷ trim_start_matches (λ c. c == b'.') pattern.value)
  | RulePatternKind.exact_url ↦ some pattern.value
  | RulePatternKind.url_prefix ↦ some pattern.value
  | RulePatternKind.url_contains ↦ none
  | RulePatternKind.path_prefix ↦ none
]

-- The set of entries is the list of its members in their order.
abbrev pub add_entries : List RulePatternConfig → List Text → List Text
add_entries [] entries = entries
add_entries (pattern ∷ patterns) entries = elim (blocklist_entry pattern) [
  | none ↦ add_entries patterns entries
  | some entry ↦ add_entries patterns (insert_domain entry entries)
]

abbrev pub add_rule_entries : List RuleConfig → List Text → List Text
add_rule_entries [] entries = entries
add_rule_entries (r ∷ rules) entries = add_rule_entries rules (add_entries r.patterns entries)

module _ (env : Environment) (config : Config) (db : Database) (now : DateTime)
    (clock_tampered : Bool) where
  unfoldable pub chromium_incognito_private_browsing_disabled :
      ChromiumIncognitoDisableScope → Outcome Bool
  chromium_incognito_private_browsing_disabled scope =
      if clock_tampered then ok true else elim scope [
        | all_time ↦ ok true
        | active_schedule_or_detox ↦ do
          idle ← no_active_schedule_or_detox_at env config db now
          ok (not idle)
      ]

  -- Whether a list's patterns are entries of the URL blocklist.
  abbrev pub blocks_in_browser : List DetoxSession → RuleConfig → Bool
  blocks_in_browser sessions r =
      r.enabled
      && mode_eq r.mode ListMode.blocklist
      && (tier_eq r.tier RuleTier.hard
          || any (λ (s : DetoxSession). id_member r.id s.site_rule_ids) sessions
          || schedule_ids_are_active_at env.platform.chrono r.schedule_ids config now
              clock_tampered)

  unfoldable pub chromium_incognito_url_blocklist : Outcome (List Text)
  chromium_incognito_url_blocklist = do
    sessions ← from_core (active_detox_sessions now.utc db)
    ok (add_rule_entries (filter (blocks_in_browser sessions) config.rules) [])

  -- The mode in effect: private browsing is disabled only where the scope says so.
  effective_mode : ChromiumIncognitoMode → Bool → ChromiumIncognitoMode
  effective_mode disabled false = ChromiumIncognitoMode.manual_consent
  effective_mode disabled true = ChromiumIncognitoMode.disabled
  effective_mode manual_consent b = ChromiumIncognitoMode.manual_consent
  effective_mode policy_url_blocking b = ChromiumIncognitoMode.policy_url_blocking

  is_disabled : ChromiumIncognitoMode → Bool
  is_disabled disabled = true
  is_disabled manual_consent = false
  is_disabled policy_url_blocking = false

  settings_of : ChromiumIncognitoMode → Outcome ChromiumIncognitoPolicySettings
  unfolding chromium_incognito_url_blocklist
  settings_of disabled = ok (record { mode = ChromiumIncognitoMode.disabled; url_blocklist = [] })
  settings_of manual_consent =
      ok (record { mode = ChromiumIncognitoMode.manual_consent; url_blocklist = [] })
  settings_of policy_url_blocking = do
    entries ← chromium_incognito_url_blocklist
    ok (record { mode = ChromiumIncognitoMode.policy_url_blocking; url_blocklist = entries })

  -- `current_chromium_incognito_policy_settings`
  unfoldable pub chromium_incognito_policy_settings : Outcome ChromiumIncognitoPolicySettings
  unfolding chromium_incognito_mode chromium_incognito_disable_scope
      chromium_incognito_private_browsing_disabled effective_mode is_disabled settings_of
  chromium_incognito_policy_settings = do
    configured ← chromium_incognito_mode db
    scope ← chromium_incognito_disable_scope db
    private ←
        if is_disabled configured
        then chromium_incognito_private_browsing_disabled scope
        else ok false
    settings_of (effective_mode configured private)

-- `ensure_chromium_incognito_url_blocklist_within_limit`; other modes have no blocklist.
unfoldable pub ensure_within_limit : ChromiumIncognitoPolicySettings → Outcome (Unit {0})
ensure_within_limit settings =
    reject_if (ltb 1000 (length settings.url_blocklist))
      (DaemonError.invalid_request (url_limit_exceeded (length settings.url_blocklist)))

module _ (env : Environment) where
  -- The loop over the browsers reads which of them have an extension, and writes their files.
  unfoldable pub repair_each : Action (Unit {0})
  repair_each =
      and_then (ask (λ d. from_core (attempt d.database read_heartbeats tt)))
        (λ _. system repair_browsers)

  unfoldable pub repair_for_settings : ChromiumIncognitoPolicySettings → Instant → Action (Unit {0})
  unfolding ensure_within_limit repair_each
  repair_for_settings settings checked_at d =
      (if d.has_chromium_policies
          then and_then (ask (λ _. ensure_within_limit settings)) (λ _.
            and_then (ask (λ e. uninstall_handoff_active env e.database checked_at))
              (λ uninstalling. if uninstalling then give tt else repair_each))
          else give tt)
        d

  -- The clocks are read and judged again; a tampered clock does not refuse here.
  unfoldable pub repair_chromium_policies_for_current_settings : ClockSample → Action (Unit {0})
  unfolding chromium_incognito_policy_settings repair_for_settings
  repair_chromium_policies_for_current_settings again =
      and_then (update_clock_integrity env again) (λ status.
        and_then
          (ask (λ d.
            chromium_incognito_policy_settings env d.config d.database again.wall
              (text_eq status.0 status_tampered)))
          (λ settings. repair_for_settings settings again.wall.utc))
