-- ===== src/Daemon/Requests/Installed.antt =====
-- focusd/src/rpc.rs, persist_policy_config: a valid policy is saved, as long as no call fails.
use bloc_kuntu.Common.{
  true, All, All→all, sym, ◌≡◌, refl, ap, ◌∙◌, inl, inr, Bool, none, List, [], ◌∷◌, Bool-cases,
  is_some,
}
use bloc_kuntu.Common.Results.{ok, err}
use bloc_kuntu.Text.{Text}
use bloc_kuntu.Config.{RuleConfig, AppRuleConfig, Config, ScheduleConfig}
use bloc_kuntu.Config.Validate.{validate}
use bloc_kuntu.Platform.{DateTime}
use mathlib.Core.Path.{subst}
use bloc_kuntu.Daemon.Requests.Consistent.{IsStored, rows_of-IsStored}
use bloc_kuntu.Store.{
  is_distinct, LifecycleRow, commit, attempt-done, write_lifecycle, write_policy_config,
  sync_schedule_totals, read_lifecycle,
}
use bloc_kuntu.Store.Services.{
  rows_of, attachments_are_distinct, write_if_valid, write_policy_tables, replace_policy_config,
  notification_lifecycle_states, set_notification_lifecycle_state,
  delete_notification_lifecycle_state,
}
use bloc_kuntu.Daemon.{
  Outcome, Daemon, Action, follow, and_then, give, ask, store, from_core, lock_recovery,
  publish_recovery, Environment,
}
use bloc_kuntu.Daemon.Works.{
  IsFine, IsOk, Works, give-Works, ask-Works, and_then-Works, if-Works, system-Works, store-Works,
  record_event-Works, repair_hosts-Works,
}
use bloc_kuntu.Daemon.Save.{
  set_states, delete_states, rebaseline_schedule_notification_states, before_write, after_write,
  write_policy, persist_policy_config, save, from_config, sync_schedule_activity_totals,
  put_in_force, replace_config, write_recovery, snapshot_answer, replace_stored, settle,
}
use bloc_kuntu.Daemon.Requests.Keeps.{Keeps, and_then-Keeps, if-Keeps, give-Keeps}
use bloc_kuntu.Daemon.Requests.Parts.{record_event-Keeps, repair_hosts-Keeps, after_write-Keeps}

-- The policy is in force, and the tables hold its items.
pub record IsInstalled (next : Config) (d : Daemon) : Type 0 where
  pub config : d.config ≡ next
  pub stored : IsStored d.database.policy next

-- The policy is in force and written to the tables.
record IsWritten (next : Config) (d : Daemon) : Type 0 where
  pub config : d.config ≡ next
  pub policy : d.database.policy ≡ rows_of next

-- An action that works and leaves it so.
record Installs {A : Type 0} (next : Config) (m : Action A) : Type 0 where
  works : (d : Daemon) → IsFine d → IsOk (m d).1 × IsFine (m d).0
  installed : (d : Daemon) → IsFine d → IsWritten next (m d).0

module _ {A B : Type 0} (next : Config) {rest : A → Action B} where
  follow-Installs :
      (out : Daemon × Outcome A)
      → IsOk out.1 × IsFine out.0
      → ((a : A) → Installs next (rest a))
      → IsWritten next (follow out rest).0
  follow-Installs (d, err e) ((a, h), fine) others = cc
  follow-Installs (d, ok a) (returned, fine) others = (others a).installed d fine

  and_then-Installs :
      {first : Action A}
      → Works first
      → ((a : A) → Installs next (rest a))
      → Installs next (and_then first rest)
  unfolding and_then
  and_then-Installs {first} w others = record {
    works = λ d fine.
        (and_then-Works w (λ a. record { works = λ d'. (others a).works d' })).works d fine;
    installed = λ d fine. follow-Installs (first d) (w.works d fine) others;
  }

  follow-kept :
      (out : Daemon × Outcome A)
      → IsWritten next out.0
      → ((a : A) → Keeps (rest a))
      → IsWritten next (follow out rest).0
  follow-kept (d, err e) h others = h
  follow-kept (d, ok a) h others =
      let same = (others a).kept d in
      record { config = same.config ∙ h.config; policy = same.policy ∙ h.policy }

  Installs-kept :
      {first : Action A}
      → Installs next first
      → ((a : A) → Works (rest a))
      → ((a : A) → Keeps (rest a))
      → Installs next (and_then first rest)
  unfolding and_then
  Installs-kept {first} w ws ks = record {
    works = λ d fine. (and_then-Works (record { works = λ d'. w.works d' }) ws).works d fine;
    installed = λ d fine. follow-kept (first d) (w.installed d fine) ks;
  }

module _ (env : Environment) where
  set_states-Works :
      (schedules : List ScheduleConfig) (now : DateTime) → Works (set_states env schedules now)
  unfolding set_states set_notification_lifecycle_state
  set_states-Works [] now = give-Works tt
  set_states-Works (s ∷ schedules) now = record {
    works = λ d.
        (and_then-Works (store-Works (write_lifecycle s.id) _ (λ db. refl))
            (λ _. set_states-Works schedules now)).works
          d;
  }

  delete_states-Works : (rows : List LifecycleRow) → Works (delete_states env rows)
  unfolding delete_states delete_notification_lifecycle_state
  delete_states-Works [] = give-Works tt
  delete_states-Works (row ∷ rows) = record {
    works = λ d.
        (if-Works _ (delete_states-Works rows) (
            and_then-Works (store-Works (write_lifecycle row.target_id) _ (λ db. refl))
              (λ _. delete_states-Works rows))).works
          d;
  }

  totals-IsOk : (d : Daemon) → IsFine d → IsOk (sync_schedule_activity_totals d)
  totals-IsOk d fine = (
    tt,
    ap from_core
        (attempt-done d.database sync_schedule_totals tt (fine.calls sync_schedule_totals)),
  )

  after_write-Works : (now : DateTime) → Works (after_write env now)
  unfolding after_write rebaseline_schedule_notification_states notification_lifecycle_states
  after_write-Works now = and_then-Works (ask-Works _ totals-IsOk) (λ _.
      and_then-Works
        (ask-Works _ (λ d fine.
          (_, ap from_core (attempt-done d.database read_lifecycle _ (fine.calls read_lifecycle)))))
        (λ existing.
          and_then-Works (record { works = λ d. (set_states-Works d.config.schedules now).works d })
            (λ _. delete_states-Works existing)))

  module _ (next : Config) (valid : validate env.platform next ≡ ok tt)
      (rules : All (λ (r : RuleConfig). is_distinct r.schedule_ids ≡ true) next.rules)
      (app_rules : All
        (λ (r : AppRuleConfig). is_distinct r.schedule_ids ≡ true)
        next.app_rules) where
    distinct : attachments_are_distinct next ≡ true
    unfolding attachments_are_distinct
    distinct =
        rw
          (
            All→all (λ (r : RuleConfig). is_distinct r.schedule_ids) next.rules rules,
            All→all (λ (r : AppRuleConfig). is_distinct r.schedule_ids) next.app_rules app_rules,
          )
          refl

    validated-Works : Works (ask (λ _. from_config (validate env.platform next)))
    validated-Works = ask-Works _ (λ d fine. (tt, ap from_config valid))

    before_write-Works : Works (before_write env next)
    unfolding before_write
    before_write-Works = and_then-Works validated-Works (λ _.
        and_then-Works
          (record {
            works = λ d.
                (if-Works (is_some d.recovery) (system-Works lock_recovery) (give-Works tt)).works
                  d;
          })
          (λ _. ask-Works _ totals-IsOk))

    write_recovery-Works : Works (write_recovery publish_recovery next)
    unfolding write_recovery snapshot_answer give
    write_recovery-Works = record {
      works = λ d fine. elim (Bool-cases (is_some d.recovery)) [
        | inl e ↦
            rw (e, fine.answers publish_recovery)
              ((tt, refl), record { calls = fine.calls; answers = fine.answers })
        | inr e ↦ rw e ((tt, refl), fine)
      ];
    }

    store_policy-Installs :
        (previous : Config)
        → Installs next (and_then (replace_stored env previous next) (λ _. replace_config env next))
    unfolding and_then replace_stored settle store replace_policy_config replace_config put_in_force
    store_policy-Installs previous = record {
      works = λ d fine.
          rw
            (
              valid,
              write_if_valid,
              write_policy_tables,
              distinct,
              commit,
              fine.calls write_policy_config,
            )
            ((tt, refl), record { calls = fine.calls; answers = fine.answers });
      installed = λ d fine.
          rw
            (
              valid,
              write_if_valid,
              write_policy_tables,
              distinct,
              commit,
              fine.calls write_policy_config,
            )
            (record { config = refl; policy = refl });
    }

    write_policy-Installs : (previous : Config) → Installs next (write_policy env previous next)
    unfolding write_policy
    write_policy-Installs previous =
        and_then-Installs next write_recovery-Works (λ _. store_policy-Installs previous)

    persist-Installs : (now : DateTime) → Installs next (persist_policy_config env next now)
    unfolding persist_policy_config
    persist-Installs now =
        let steps : (d : Daemon)
            → Installs next (
                and_then (before_write env next)
                  (λ _. and_then (write_policy env d.config next) (λ _. after_write env now))) =
          λ d. and_then-Installs next before_write-Works (λ _.
            Installs-kept next (write_policy-Installs d.config) (λ _. after_write-Works now)
              (λ _. after_write-Keeps env now)) in
        record { works = λ d. (steps d).works d; installed = λ d. (steps d).installed d }

    -- A policy that `validate` accepts, and in which no list names a schedule twice, is saved where no
    -- call fails: the request returns, the policy is then the one in force, and the tables hold its
    -- items.
    pub save-IsInstalled :
        (repairs : Bool) (kind id detail : Text) (now later : DateTime) (d : Daemon)
        → IsFine d
        → ((save env next repairs kind id detail now later d).1 ≡ ok tt)
          × IsInstalled next (save env next repairs kind id detail now later d).0
    unfolding save
    save-IsInstalled repairs kind id detail now later d fine =
        let saved = and_then-Installs next validated-Works (λ _.
          Installs-kept next (persist-Installs later)
            (λ _.
              and_then-Works
                (if-Works repairs (repair_hosts-Works env now later.utc) (give-Works none))
                (λ status. record_event-Works _ _ _ _))
            (λ _.
              and_then-Keeps
                (if-Keeps repairs (repair_hosts-Keeps env now later.utc) (give-Keeps none))
                (λ status. record_event-Keeps _ _ _ _))) in
        let written = saved.installed d fine in
        (
          (saved.works d fine).0.1,
          record {
            config = written.config;
            stored =
                subst (λ stored. IsStored stored next) (sym written.policy) (rows_of-IsStored next);
          },
        )
