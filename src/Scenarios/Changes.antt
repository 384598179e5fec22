-- ===== src/Scenarios/Changes.antt =====
-- focusd/src: what single handlers of the sample daemon do.
use bloc_kuntu.Common.{
  inr, inl, ap, arith, ◌*◌, ◌≡◌, refl, inl, false, Option, none, some, List, [], ◌∷◌, All,
}
use bloc_kuntu.Common.Results.{ok, err}
use bloc_kuntu.Config.{RuleConfig, Config}
use bloc_kuntu.Text.{Text, lit, text_eq, trim_end_matches, trim, to_ascii_lowercase}
use mathlib.Core.List.{Memᴰ}
use bloc_kuntu.Platform.{minute_ns}
use bloc_kuntu.Types.{Error, DetoxSession}
use bloc_kuntu.Store.{Query, is_distinct, write_policy_config}
use bloc_kuntu.Daemon.{site_list, Daemon, DaemonError}
use bloc_kuntu.Store.Services.{
  attachments_are_distinct, write_policy_tables, write_if_valid, replace_policy_config,
}
use bloc_kuntu.Daemon.Save.{write_policy, save}
use bloc_kuntu.Daemon.Requests.Installed.{IsInstalled, save-IsInstalled}
use bloc_kuntu.Scenarios.Policies.{sample_accepted}
use bloc_kuntu.Daemon.Save.Consistent.{with_snapshot, write_policy-rolls_back}
use bloc_kuntu.Daemon.Lists.{rule_eq}
use bloc_kuntu.Daemon.Import.{append_unique_by_id}
use bloc_kuntu.Daemon.Import.Append.{Extends, Includes, append_unique_by_id-Extends}
use bloc_kuntu.Daemon.Schedules.{normalized_unique_ids}
use bloc_kuntu.Daemon.Schedules.Targets.{IsNormal, normalized_unique_ids-IsNormal}
use bloc_kuntu.Daemon.Detox.{StartDetoxParams, next_detox_session_id, start_detox_method}
use bloc_kuntu.Daemon.Detox.Fresh.{Ends, next_detox_session_id-Ends}
use bloc_kuntu.Daemon.Detox.Granted.{start_detox_method-stores}
use bloc_kuntu.Daemon.Detox.Started.{IsAllowed, IsStarted, start_detox_method-IsStarted}
use bloc_kuntu.Daemon.Access.{unlock_tier1_edit_method, uninstall_handoff_active}
use bloc_kuntu.Daemon.Access.Window.{IsAuthorized, IsOpened, unlock_tier1_edit_method-opens}
use bloc_kuntu.Daemon.Hosts.{
  managed_domains_with_active_detox, render_managed_block, replace_managed_block, entry, domain_of,
}
use bloc_kuntu.Daemon.Hosts.Written.{Holds, replace_managed_block-blocks}
use bloc_kuntu.Scenarios.{
  sample_platform, utc, sample_config, sample_database, news, news_domain, video,
}
use bloc_kuntu.Scenarios.Machine.{sample_at, sample_environment, sample_daemon, at}

abbrev fewer_lists : Config
fewer_lists = record sample_config { rules = news ∷ [] }

is_policy_write : Query → Option Text
is_policy_write write_policy_config = some (lit "disk full")
is_policy_write q = none

abbrev full_disk : Daemon
full_disk = record sample_daemon { database = record sample_database { failure = is_policy_write } }

disk_full :
    (replace_policy_config sample_platform sample_config full_disk.database).1
    ≡ err (Error.database (lit "disk full"))
unfolding replace_policy_config write_if_valid write_policy_tables attachments_are_distinct
    is_distinct is_policy_write text_eq
disk_full = ap (λ r. (write_if_valid r sample_config full_disk.database).1) sample_accepted

write_policy-rolls_back_example :
    write_policy sample_environment fewer_lists sample_config
      (with_snapshot sample_environment full_disk fewer_lists sample_config)
    ≡ (
      with_snapshot sample_environment full_disk fewer_lists sample_config,
      err (DaemonError.core (Error.database (lit "disk full"))),
    )
write_policy-rolls_back_example =
    write_policy-rolls_back sample_environment full_disk fewer_lists sample_config
      (Error.database (lit "disk full")) refl refl disk_full

append_both :
    append_unique_by_id (λ (r : RuleConfig). r.id) rule_eq site_list (news ∷ []) (video ∷ news ∷ [])
    ≡ ok (news ∷ video ∷ [], 1)
unfolding append_unique_by_id bloc_kuntu.Daemon.Import.append_from
    bloc_kuntu.Daemon.Import.append_one text_eq
append_both = refl

append_unique_by_id-Extends_example :
    Extends (λ (r : RuleConfig). r.id) rule_eq site_list (news ∷ []) (news ∷ video ∷ []) 0 1
    × All
        (Includes (λ (r : RuleConfig). r.id) rule_eq site_list (news ∷ video ∷ []))
        (video ∷ news ∷ [])
append_unique_by_id-Extends_example =
    append_unique_by_id-Extends (λ (r : RuleConfig). r.id) rule_eq site_list (news ∷ [])
      (video ∷ news ∷ []) (news ∷ video ∷ []) 1 append_both

abbrev asked_ids : List Text
asked_ids = lit " news" ∷ lit "" ∷ lit "news" ∷ []

normalized_unique_ids-IsNormal_example : IsNormal asked_ids (normalized_unique_ids asked_ids)
normalized_unique_ids-IsNormal_example = normalized_unique_ids-IsNormal asked_ids

next_detox_session_id-Ends_example :
    Ends sample_database (next_detox_session_id 5000 sample_database)
next_detox_session_id-Ends_example = next_detox_session_id-Ends sample_database 5000

abbrev half_an_hour : StartDetoxParams
half_an_hour = record {
  name = some (lit "focus");
  duration_minutes = 30;
  site_rule_ids = lit "news" ∷ [];
  app_rule_ids = [];
}

abbrev focus : DetoxSession
focus = record {
  id = lit "detox-0";
  name = some (lit "focus");
  starts_at = 0;
  ends_at = 30 * minute_ns;
  cancelled_at = none;
  site_rule_ids = lit "news" ∷ [];
  app_rule_ids = [];
}

abbrev quiet_daemon : Daemon
quiet_daemon = record sample_daemon { hosts = none; has_chromium_policies = false }

focus_starts :
    (start_detox_method sample_environment half_an_hour (at 0 0) (sample_at 0 0) quiet_daemon).1
    ≡ ok (some focus)
unfolding start_detox_method bloc_kuntu.Daemon.and_then bloc_kuntu.Daemon.ask normalized_unique_ids
    trim bloc_kuntu.Daemon.Access.uninstall_handoff_active bloc_kuntu.Store.Services.service_state
    bloc_kuntu.Daemon.Schedules.validate_detox_targets text_eq
    bloc_kuntu.Store.Services.detox_session bloc_kuntu.Daemon.store
    bloc_kuntu.Store.Detox.insert_detox_session is_distinct bloc_kuntu.Store.record_event
    bloc_kuntu.Daemon.Save.repair_hosts_after_policy_change
    bloc_kuntu.Store.Detox.active_detox_sessions
    bloc_kuntu.Daemon.Hosts.Repair.verify_and_repair_with_active_detox bloc_kuntu.Daemon.system
    bloc_kuntu.Daemon.give bloc_kuntu.Daemon.Detox.decimal
    bloc_kuntu.Daemon.Browsers.repair_chromium_policies_for_current_settings
    bloc_kuntu.Daemon.Clock.update_clock_integrity bloc_kuntu.Daemon.Clock.previous_sample
    bloc_kuntu.Store.Services.set_service_states bloc_kuntu.Daemon.Clock.clock_violation
focus_starts = refl

start_detox_method-IsStarted_example :
    IsStarted sample_environment half_an_hour
      (at 0 0)
      (sample_at 0 0)
      quiet_daemon
      focus
      (start_detox_method sample_environment half_an_hour
        (at 0 0)
        (sample_at 0 0)
        quiet_daemon).0.database.detox_sessions
start_detox_method-IsStarted_example =
    start_detox_method-IsStarted sample_environment half_an_hour (at 0 0) (sample_at 0 0)
      quiet_daemon focus focus_starts

focus-IsAllowed :
    IsAllowed half_an_hour
      (normalized_unique_ids half_an_hour.site_rule_ids)
      (normalized_unique_ids half_an_hour.app_rule_ids)
      sample_config
unfolding normalized_unique_ids trim text_eq
focus-IsAllowed = record {
  least = omega arith;
  most = omega arith;
  some_target = refl;
  site_targets = ((news, refl, refl), tt);
  app_targets = tt;
}

no_uninstall : uninstall_handoff_active sample_environment sample_daemon.database 0 ≡ ok false
unfolding uninstall_handoff_active bloc_kuntu.Store.Services.service_state text_eq
no_uninstall = refl

start_detox_method-stores_example :
    (s : DetoxSession) × IsStarted sample_environment half_an_hour
      (at 0 0)
      (sample_at 0 0)
      sample_daemon
      s
      (start_detox_method sample_environment half_an_hour
        (at 0 0)
        (sample_at 0 0)
        sample_daemon).0.database.detox_sessions
start_detox_method-stores_example =
    start_detox_method-stores sample_environment half_an_hour (at 0 0) (sample_at 0 0) sample_daemon
      (λ id. refl) refl focus-IsAllowed no_uninstall

abbrev phrase : Text
phrase = lit " let me edit lists "

edits_unlocked :
    (unlock_tier1_edit_method sample_environment phrase (at 12 0) sample_daemon).1 ≡ ok tt
unfolding unlock_tier1_edit_method bloc_kuntu.Daemon.and_then bloc_kuntu.Daemon.ask trim
    bloc_kuntu.Daemon.Access.tier1_edit_credential_matches bloc_kuntu.Store.Services.service_state
    text_eq bloc_kuntu.Daemon.Access.protected_access_mode
    bloc_kuntu.Daemon.Access.protected_access_is_open bloc_kuntu.Daemon.store
    bloc_kuntu.Store.Services.set_service_state bloc_kuntu.Store.record_event
edits_unlocked = refl

unlock_tier1_edit_method-opens_example :
    IsAuthorized sample_environment phrase (at 12 0) sample_daemon
    × IsOpened sample_environment phrase
        (at 12 0)
        (unlock_tier1_edit_method sample_environment phrase
          (at 12 0)
          sample_daemon).0.database.service_states
unlock_tier1_edit_method-opens_example =
    unlock_tier1_edit_method-opens sample_environment phrase (at 12 0) sample_daemon (λ t. refl)
      edits_unlocked

replace_managed_block-blocks_example :
    Holds
      (replace_managed_block (lit "127.0.0.1 localhost") (
        render_managed_block
          (managed_domains_with_active_detox utc sample_config (at 12 0) false [])))
      (entry (domain_of news_domain))
unfolding trim_end_matches trim to_ascii_lowercase
    bloc_kuntu.Policy.Schedule.schedule_ids_are_active_at
    bloc_kuntu.Policy.Schedule.schedule_id_is_active text_eq
    bloc_kuntu.Policy.Schedule.schedule_is_active bloc_kuntu.Policy.Schedule.window_is_active
    bloc_kuntu.Config.Time.minutes_after_midnight bloc_kuntu.Config.Time.includes
replace_managed_block-blocks_example =
    replace_managed_block-blocks utc sample_config (at 12 0) false [] news news_domain
      (lit "127.0.0.1 localhost") refl
      (record {
        listed = Memᴰ.head refl;
        own_id = refl;
        enabled = refl;
        is_blocklist = refl;
        reason = inr (refl, inl refl);
      })
      (Memᴰ.head refl)

-- A daemon whose policy in force has one list less.
abbrev smaller_daemon : Daemon
smaller_daemon = record sample_daemon { config = fewer_lists; recovery = some fewer_lists }

save-IsInstalled_example :
    ((save sample_environment sample_config false
        (lit "allowance_saved")
        (lit "news_time")
        []
        (at 12 0)
        (at 12 0)
        smaller_daemon).1
      ≡ ok tt)
    × IsInstalled sample_config
        (save sample_environment sample_config false
          (lit "allowance_saved")
          (lit "news_time")
          []
          (at 12 0)
          (at 12 0)
          smaller_daemon).0
unfolding is_distinct text_eq
save-IsInstalled_example =
    save-IsInstalled sample_environment sample_config sample_accepted (refl, (refl, tt))
      (refl, (refl, tt)) false (lit "allowance_saved") (lit "news_time") [] (at 12 0) (at 12 0)
      smaller_daemon (record { calls = λ q. refl; answers = λ c. refl })
