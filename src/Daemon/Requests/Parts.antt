-- ===== src/Daemon/Requests/Parts.antt =====
-- focusd/src/rpc.rs and focusd/src/clock_guard.rs: the parts of a request that change neither the
-- policy nor a session.
use bloc_kuntu.Common.{refl, inl, inr, Bool, true, false, Option, none, some, List, [], ◌∷◌, any}
use bloc_kuntu.Text.{Text, text_eq}
use bloc_kuntu.Config.{ScheduleConfig}
use bloc_kuntu.Platform.{Instant, DateTime}
use bloc_kuntu.Store.{
  LifecycleRow, record_event, write_event, write_service_states, write_lifecycle,
}
use bloc_kuntu.Store.Services.{
  set_service_states, set_service_state, set_notification_lifecycle_state,
  delete_notification_lifecycle_state,
}
use bloc_kuntu.Daemon.{
  repair_browsers, Daemon, Action, and_then, store, IoCall, HostsFile, Environment, sample_clock,
  read_hosts, read_hosts_flag, set_hosts_flag, clear_hosts_flag, write_hosts,
}
use bloc_kuntu.Daemon.Clock.{
  ClockSample, tell, persist_sample, after_reading, update_clock_integrity, ensure_trusted,
  Previous,
}
use bloc_kuntu.Daemon.Access.{open_window}
use bloc_kuntu.Daemon.Hosts.{repaired}
use bloc_kuntu.Daemon.Hosts.Repair.{
  verify_and_repair_with_active_detox, write_expected, make_immutable, clear_immutable_if_needed,
  set_immutable, write_hosts_atomically,
}
use bloc_kuntu.Daemon.Save.{
  set_states, delete_states, rebaseline_schedule_notification_states, after_write,
  repair_hosts_after_policy_change, repair_with, repair_from,
}
use bloc_kuntu.Daemon.Browsers.{
  ChromiumIncognitoPolicySettings, repair_each, repair_for_settings,
  repair_chromium_policies_for_current_settings,
}
use bloc_kuntu.Daemon.Requests.Keeps.{
  SameCore, SameCore-refl, SameCore-trans, Keeps, give-Keeps, ask-Keeps, and_then-Keeps, if-Keeps,
  system-Keeps, store-Keeps, IoResult-cases,
}

set_service_states-Keeps : (values : List (Text × Text)) → Keeps (store (set_service_states values))
unfolding set_service_states
set_service_states-Keeps values = store-Keeps write_service_states _ (λ db. refl) (λ db. refl)

set_service_state-Keeps : (key value : Text) → Keeps (store (set_service_state key value))
unfolding set_service_state set_service_states
set_service_state-Keeps key value = store-Keeps write_service_states _ (λ db. refl) (λ db. refl)

set_lifecycle-Keeps :
    (id : Text) (active : Bool) → Keeps (store (set_notification_lifecycle_state id active))
unfolding set_notification_lifecycle_state
set_lifecycle-Keeps id active = store-Keeps (write_lifecycle id) _ (λ db. refl) (λ db. refl)

delete_lifecycle-Keeps : (id : Text) → Keeps (store (delete_notification_lifecycle_state id))
unfolding delete_notification_lifecycle_state
delete_lifecycle-Keeps id = store-Keeps (write_lifecycle id) _ (λ db. refl) (λ db. refl)

pub record_event-Keeps :
    (kind : Text) (target details : Option Text) (now : Instant)
    → Keeps (store (record_event kind target details now))
unfolding record_event
record_event-Keeps kind target details now = store-Keeps write_event _ (λ db. refl) (λ db. refl)

module _ (env : Environment) where
  tell-Keeps :
      (b : Bool) (detail : Text) (sample : ClockSample) (d : Daemon)
      → SameCore d (tell env b detail sample d)
  unfolding tell
  tell-Keeps false detail sample d = SameCore-refl d
  tell-Keeps true detail sample d = (record_event-Keeps _ _ _ _).kept d

  after_reading-Keeps :
      (sample : ClockSample) (previous : Previous env) → Keeps (after_reading env sample previous)
  unfolding after_reading persist_sample
  after_reading-Keeps sample previous = record {
    kept = λ d.
        SameCore-trans (tell-Keeps _ _ sample d)
          ((and_then-Keeps (set_service_states-Keeps _) (λ _. give-Keeps _)).kept _);
  }

  pub update_clock_integrity-Keeps :
      (sample : ClockSample) → Keeps (update_clock_integrity env sample)
  unfolding update_clock_integrity
  update_clock_integrity-Keeps sample =
      and_then-Keeps (system-Keeps sample_clock)
        (λ _. and_then-Keeps (ask-Keeps _) (after_reading-Keeps sample))

  pub ensure_trusted-Keeps : Keeps (ensure_trusted env)
  unfolding ensure_trusted
  ensure_trusted-Keeps = and_then-Keeps (system-Keeps sample_clock) (λ _. ask-Keeps _)

  pub open_window-Keeps : (now : DateTime) → Keeps (open_window env now)
  unfolding open_window
  open_window-Keeps now =
      and_then-Keeps (set_service_state-Keeps _ _) (λ _. record_event-Keeps _ _ _ _)

  set_states-Keeps :
      (schedules : List ScheduleConfig) (now : DateTime) → Keeps (set_states env schedules now)
  unfolding set_states
  set_states-Keeps [] now = record { kept = (give-Keeps tt).kept }
  set_states-Keeps (s ∷ schedules) now = record {
    kept = λ d.
        (and_then-Keeps (set_lifecycle-Keeps s.id _) (λ _. set_states-Keeps schedules now)).kept d;
  }

  delete_states-Keeps : (rows : List LifecycleRow) → Keeps (delete_states env rows)
  unfolding delete_states
  delete_states-Keeps [] = record { kept = (give-Keeps tt).kept }
  delete_states-Keeps (row ∷ rows) = record {
    kept = λ d.
        let known = any (λ (s : ScheduleConfig). text_eq s.id row.target_id) d.config.schedules in
        let delete : Action (Unit {0}) =
          store (delete_notification_lifecycle_state row.target_id) in
        let others = delete_states-Keeps rows in
        (if-Keeps {m = delete_states env rows} {n = and_then delete (λ _. delete_states env rows)}
            known others (and_then-Keeps (delete_lifecycle-Keeps row.target_id) (λ _. others))).kept
          d;
  }

  pub after_write-Keeps : (now : DateTime) → Keeps (after_write env now)
  unfolding after_write rebaseline_schedule_notification_states
  after_write-Keeps now = and_then-Keeps (ask-Keeps _) (λ _.
      and_then-Keeps (ask-Keeps _) (λ existing.
        and_then-Keeps (record { kept = λ d. (set_states-Keeps d.config.schedules now).kept d })
          (λ _. delete_states-Keeps existing)))

  write_hosts_atomically-Keeps :
      (f : HostsFile) (text : Text) → Keeps (write_hosts_atomically f text)
  unfolding write_hosts_atomically
  write_hosts_atomically-Keeps f text = record {
    kept = λ d. elim (IoResult-cases (d.answer write_hosts)) [
      | inl e ↦
          rw (e, write_hosts_atomically) (record { config = refl; policy = refl; sessions = refl })
      | inr (inl (message, e)) ↦ rw (e, write_hosts_atomically) (SameCore-refl d)
      | inr (inr (message, e)) ↦
          rw (e, write_hosts_atomically) (record { config = refl; policy = refl; sessions = refl })
    ];
  }

  set_immutable-Keeps : (c : IoCall) (b : Bool) (f : HostsFile) → Keeps (set_immutable c b f)
  unfolding set_immutable
  set_immutable-Keeps c b f =
      and_then-Keeps (system-Keeps c)
        (λ _. record { kept = λ d. record { config = refl; policy = refl; sessions = refl } })

  clear_immutable_if_needed-Keeps : (f : HostsFile) → Keeps (clear_immutable_if_needed f)
  unfolding clear_immutable_if_needed
  clear_immutable_if_needed-Keeps f =
      if-Keeps _ (set_immutable-Keeps clear_hosts_flag false f) (give-Keeps f)

  write_expected-Keeps : (expected : Text) (f : HostsFile) → Keeps (write_expected expected f)
  unfolding write_expected
  write_expected-Keeps expected f = if-Keeps _ (give-Keeps (f, false)) (
      and_then-Keeps (clear_immutable_if_needed-Keeps f) (λ g.
        and_then-Keeps (write_hosts_atomically-Keeps g expected) (λ g'. give-Keeps (g', true))))

  make_immutable-Keeps : (written : HostsFile × Bool) → Keeps (make_immutable written)
  unfolding make_immutable
  make_immutable-Keeps (f, changed) =
      if-Keeps _
        (and_then-Keeps (system-Keeps read_hosts_flag) (λ _.
          if-Keeps _ (give-Keeps _) (
            and_then-Keeps (set_immutable-Keeps set_hosts_flag true f) (λ _. give-Keeps repaired))))
        (give-Keeps _)

  repair_with-Keeps :
      (f : HostsFile) (now : DateTime) (checked_at : Instant)
      → Keeps (repair_with env f now checked_at)
  unfolding repair_with verify_and_repair_with_active_detox
  repair_with-Keeps f now checked_at = and_then-Keeps (ask-Keeps _) (λ uninstalling.
      if-Keeps uninstalling (give-Keeps _) (
        and_then-Keeps (ask-Keeps _) (λ sessions.
          and_then-Keeps
            (record {
              kept = λ d.
                  (and_then-Keeps (system-Keeps read_hosts)
                      (λ _. and_then-Keeps (write_expected-Keeps _ f) make_immutable-Keeps)).kept
                    d;
            })
            (λ status. give-Keeps (some status)))))

  repair_from-Keeps :
      (hosts : Option HostsFile) (now : DateTime) (checked_at : Instant)
      → Keeps (repair_from env hosts now checked_at)
  unfolding repair_from
  repair_from-Keeps none now checked_at = give-Keeps none
  repair_from-Keeps (some f) now checked_at = repair_with-Keeps f now checked_at

  pub repair_hosts-Keeps :
      (now : DateTime) (checked_at : Instant)
      → Keeps (repair_hosts_after_policy_change env now checked_at)
  unfolding repair_hosts_after_policy_change
  repair_hosts-Keeps now checked_at = record {
    kept = λ d. (repair_from-Keeps d.hosts now checked_at).kept d;
  }

  repair_for_settings-Keeps :
      (settings : ChromiumIncognitoPolicySettings) (checked_at : Instant)
      → Keeps (repair_for_settings env settings checked_at)
  unfolding repair_for_settings repair_each
  repair_for_settings-Keeps settings checked_at = record {
    kept = λ d.
        (if-Keeps d.has_chromium_policies
            (and_then-Keeps (ask-Keeps _) (λ _. and_then-Keeps (ask-Keeps _) (λ uninstalling.
              if-Keeps uninstalling (give-Keeps tt)
                (and_then-Keeps (ask-Keeps _) (λ _. system-Keeps repair_browsers)))))
            (give-Keeps tt)).kept
          d;
  }

  pub repair_chromium-Keeps :
      (again : ClockSample) → Keeps (repair_chromium_policies_for_current_settings env again)
  unfolding repair_chromium_policies_for_current_settings
  repair_chromium-Keeps again = and_then-Keeps (update_clock_integrity-Keeps again) (λ status.
      and_then-Keeps (ask-Keeps _) (λ settings. repair_for_settings-Keeps settings again.wall.utc))
