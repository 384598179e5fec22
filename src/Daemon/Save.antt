-- ===== src/Daemon/Save.antt =====
-- focusd/src/rpc.rs, persist_policy_config and what follows it in the handlers: a changed policy is
-- validated, written to the snapshot file and the database, put in force, and the hosts file is
-- repaired. The totals of `sync_schedule_activity_totals`, a table that only statistics read, are
-- left out; that the call may fail is not.
pub mod Consistent
use bloc_kuntu.Common.{
  zero, suc, ◌+◌, ◌-◌, ◌*◌, ◌/◌, ◌%◌, ◌≤◌, ◌<◌, ◌≡◌, refl, ◌∙◌, ◌≢◌, ◌↔◌, ◌⊎◌, Bool, true, false,
  ◌&&◌, ◌||◌, Option, none, some, List, [], ◌∷◌, ◌++◌, arith, ◌==◌, if◌then◌else◌, tests, is_some,
  any,
}
use bloc_kuntu.Common.Results.{Result, ok, err, ◌>>=◌, ◌>>◌}
use bloc_kuntu.Text.{Text, lit, text_eq}
use bloc_kuntu.Config.{ScheduleConfig, Config}
use bloc_kuntu.Config.Validate.{ConfigError, validate}
use bloc_kuntu.Types.{Error, Fallible}
use bloc_kuntu.Platform.{DateTime, Instant}
use bloc_kuntu.Store.{LifecycleRow, attempt, record_event, sync_schedule_totals}
use bloc_kuntu.Store.Services.{
  replace_policy_config, notification_lifecycle_states, set_notification_lifecycle_state,
  delete_notification_lifecycle_state,
}
use bloc_kuntu.Store.Detox.{active_detox_sessions}
use bloc_kuntu.Edits.{schedule_ids_are_active_at}
use bloc_kuntu.Daemon.{
  DaemonError, Outcome, from_core, Daemon, Action, and_then, give, ask, system, store, IoResult,
  done, failed, failed_late, IoCall, lock_recovery, publish_recovery, roll_back_recovery, HostsFile,
  Environment,
}
use bloc_kuntu.Daemon.Access.{uninstall_handoff_active}
use bloc_kuntu.Daemon.Hosts.{HostsRepairStatus, already_compliant, repaired, skipped_inactive}
use bloc_kuntu.Daemon.Hosts.Repair.{verify_and_repair_with_active_detox}

-- `?` on a result of `validate_config`.
abbrev pub from_config : {A : Type 0} → Result ConfigError A → Outcome A
from_config (ok a) = ok a
from_config (err e) = err (DaemonError.config e)

unfoldable pub snapshot_answer : IoResult → Config → Action (Unit {0})
snapshot_answer done config d = (record d { recovery = some config }, ok tt)
snapshot_answer (failed message) config d = (d, err (DaemonError.io message))
snapshot_answer (failed_late message) config d =
    (record d { recovery = some config }, err (DaemonError.io message))

-- `policy_recovery.write(config)`; the file may be replaced though the call fails.
unfoldable pub write_recovery : IoCall → Config → Action (Unit {0})
unfolding snapshot_answer
write_recovery call config d =
    (if is_some d.recovery then snapshot_answer (d.answer call) config else give tt) d

-- `database_error.to_string()`, of the errors that the call returns for a valid policy.
abbrev error_text : DaemonError → Text
error_text (DaemonError.io message) = message
error_text (DaemonError.core (Error.database message)) = message
error_text e = []

unfoldable pub report : DaemonError → Daemon × Outcome (Unit {0}) → Daemon × Outcome (Unit {0})
report database_error (d, ok _) = (d, err database_error)
report database_error (d, err e) =
    (d, err (DaemonError.policy_persistence_rollback (error_text database_error) (error_text e)))

-- After a failed write to the database the snapshot gets the old policy again.
unfoldable pub roll_back : Config → DaemonError → Action (Unit {0})
unfolding write_recovery report
roll_back previous database_error d =
    report database_error (write_recovery roll_back_recovery previous d)

unfoldable pub settle : Config → Daemon × Outcome (Unit {0}) → Daemon × Outcome (Unit {0})
unfolding roll_back
settle previous (d, ok _) = (d, ok tt)
settle previous (d, err e) = roll_back previous e d

abbrev pub lock_policy_recovery : Action (Unit {0})
lock_policy_recovery d = (if is_some d.recovery then system lock_recovery else give tt) d

abbrev pub sync_schedule_activity_totals : Daemon → Outcome (Unit {0})
sync_schedule_activity_totals d = from_core (attempt d.database sync_schedule_totals tt)

module _ (env : Environment) where
  unfoldable pub put_in_force : Config → Result ConfigError (Unit {0}) → Action (Unit {0})
  put_in_force config (ok _) d = (record d { config = config }, ok tt)
  put_in_force config (err e) d = (d, err (DaemonError.config e))

  -- `FocusCore::replace_config`
  unfoldable pub replace_config : Config → Action (Unit {0})
  unfolding put_in_force
  replace_config config = put_in_force config (validate env.platform config)

  unfoldable pub replace_stored : Config → Config → Action (Unit {0})
  unfolding settle
  replace_stored previous next d =
      settle previous (store (replace_policy_config env.platform next) d)

  unfoldable pub set_states : List ScheduleConfig → DateTime → Action (Unit {0})
  set_states [] now d = give tt d
  set_states (s ∷ schedules) now d =
      let active = schedule_ids_are_active_at env.platform.chrono (s.id ∷ []) d.config now in
      and_then (store (set_notification_lifecycle_state s.id active))
        (λ _. set_states schedules now) d

  unfoldable pub delete_states : List LifecycleRow → Action (Unit {0})
  delete_states [] d = give tt d
  delete_states (row ∷ rows) d =
      let known = any (λ (s : ScheduleConfig). text_eq s.id row.target_id) d.config.schedules in
      (if known
          then delete_states rows
          else and_then (store (delete_notification_lifecycle_state row.target_id))
              (λ _. delete_states rows))
        d

  unfoldable pub rebaseline_schedule_notification_states : DateTime → Action (Unit {0})
  unfolding set_states delete_states
  rebaseline_schedule_notification_states now =
      and_then (ask (λ d. from_core (notification_lifecycle_states d.database))) (λ existing.
        and_then (λ d. set_states d.config.schedules now d) (λ _. delete_states existing))

  -- What comes before the first write, and what comes after the policy is in force.
  unfoldable pub before_write : Config → Action (Unit {0})
  before_write next =
      and_then (ask (λ _. from_config (validate env.platform next)))
        (λ _. and_then lock_policy_recovery (λ _. ask sync_schedule_activity_totals))

  unfoldable pub after_write : DateTime → Action (Unit {0})
  unfolding rebaseline_schedule_notification_states
  after_write now =
      and_then (ask sync_schedule_activity_totals)
        (λ _. rebaseline_schedule_notification_states now)

  unfoldable pub write_policy : Config → Config → Action (Unit {0})
  unfolding replace_stored replace_config
  write_policy previous next =
      and_then (write_recovery publish_recovery next)
        (λ _. and_then (replace_stored previous next) (λ _. replace_config next))

  unfoldable pub persist_policy_config : Config → DateTime → Action (Unit {0})
  unfolding before_write write_policy after_write
  persist_policy_config next now d =
      and_then (before_write next)
        (λ _. and_then (write_policy d.config next) (λ _. after_write now)) d

  unfoldable pub repair_with : HostsFile → DateTime → Instant → Action (Option HostsRepairStatus)
  repair_with f now checked_at =
      and_then (ask (λ d. uninstall_handoff_active env d.database checked_at)) (λ uninstalling.
        if uninstalling
        then give (some skipped_inactive)
        else and_then (ask (λ d. from_core (active_detox_sessions now.utc d.database))) (λ sessions.
          and_then
            (λ d.
              verify_and_repair_with_active_detox env.platform.chrono d.config sessions now false f
                d)
            (λ status. give (some status))))

  unfoldable pub repair_from :
      Option HostsFile → DateTime → Instant → Action (Option HostsRepairStatus)
  unfolding repair_with
  repair_from none now checked_at = give none
  repair_from (some f) now checked_at = repair_with f now checked_at

  unfoldable pub repair_hosts_after_policy_change :
      DateTime → Instant → Action (Option HostsRepairStatus)
  unfolding repair_from
  repair_hosts_after_policy_change now checked_at d = repair_from d.hosts now checked_at d

  hosts_repair_detail : Option HostsRepairStatus → Text
  hosts_repair_detail none = []
  hosts_repair_detail (some already_compliant) = lit ";hosts=AlreadyCompliant"
  hosts_repair_detail (some repaired) = lit ";hosts=Repaired"
  hosts_repair_detail (some skipped_inactive) = lit ";hosts=SkippedInactive"

  -- The end of a handler. `now` is the time of the request, `later` that read while it is handled.
  unfoldable pub save : Config → Bool → Text → Text → Text → DateTime → DateTime → Action (Unit {0})
  unfolding persist_policy_config repair_hosts_after_policy_change hosts_repair_detail
  save next repairs kind id detail now later =
      and_then (ask (λ _. from_config (validate env.platform next))) (λ _.
        and_then (persist_policy_config next later) (λ _.
          and_then (if repairs then repair_hosts_after_policy_change now later.utc else give none)
            (λ status. store (
              record_event kind (some id) (some (detail ++ hosts_repair_detail status))
                later.utc))))
