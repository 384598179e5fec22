-- ===== src/Daemon/Requests/Handled.antt =====
-- focusd/src/rpc.rs: what one request does, whatever it is and whatever fails meanwhile.
use bloc_kuntu.Common.{◌≡◌, refl, ap, ◌∙◌, ◌⊎◌, inl, inr, Option, none, some, ◌++◌}
use bloc_kuntu.Common.Results.{ok, err}
use bloc_kuntu.Config.{Config}
use bloc_kuntu.Config.Validate.{validate}
use bloc_kuntu.Platform.{DateTime}
use bloc_kuntu.Daemon.{Daemon, Outcome, Action, follow, and_then, Environment}
use bloc_kuntu.Daemon.Clock.{ClockSample, update_clock_integrity, ensure_trusted, guarded}
use bloc_kuntu.Daemon.Access.{authorize_unlock, unlock_tier1_edit_method}
use bloc_kuntu.Daemon.Lists.{stage_allowance}
use bloc_kuntu.Daemon.Lists.Stage.{
  stage_site_list, stage_site_list_removal, stage_app_rule, stage_app_rule_removal,
  stage_allowance_removal,
}
use bloc_kuntu.Daemon.Schedules.{stage_schedule, stage_schedule_removal}
use bloc_kuntu.Daemon.Import.{stage_import}
use bloc_kuntu.Daemon.Requests.{
  Request, upsert_site_list, delete_site_list, upsert_app_rule, delete_app_rule, upsert_allowance,
  delete_allowance, upsert_schedule, delete_schedule, import_policy, start_detox, cancel_detox,
  unlock_tier1_edit, Call, during, handle, call,
}
use bloc_kuntu.Daemon.Requests.Keeps.{SameCore, SameCore-trans, ask-Keeps, and_then-Keeps}
use bloc_kuntu.Daemon.Requests.Parts.{
  update_clock_integrity-Keeps, ensure_trusted-Keeps, open_window-Keeps,
}
use bloc_kuntu.Daemon.Requests.Saved.{Installed, IsStagedAndSaved, stage_and_save-IsStagedAndSaved}
use bloc_kuntu.Daemon.Requests.Started.{Grows, SameCore-Grows, start-Grows}

module _ (env : Environment) where
  -- The policy that a request would save, for those that save one.
  abbrev pub stage_of : DateTime → Request → Option (Daemon → Outcome Config)
  stage_of now (upsert_site_list given r) =
      some (λ d. stage_site_list env d.config d.database now given r)
  stage_of now (delete_site_list id) =
      some (λ d. stage_site_list_removal env d.config d.database now id)
  stage_of now (upsert_app_rule given r) =
      some (λ d. stage_app_rule env d.config d.database now given r)
  stage_of now (delete_app_rule id) =
      some (λ d. stage_app_rule_removal env d.config d.database now id)
  stage_of now (upsert_allowance a) =
      some (λ d. stage_allowance env d.config d.database now a d.config)
  stage_of now (delete_allowance id) =
      some (λ d. stage_allowance_removal env d.config d.database now id)
  stage_of now (upsert_schedule s sites apps) =
      some (λ d. stage_schedule env d.config d.database now s sites apps)
  stage_of now (delete_schedule id) =
      some (λ d. stage_schedule_removal env d.config d.database now id)
  stage_of now (import_policy imported) = some (λ d. stage_import d.config imported)
  stage_of now (start_detox params) = none
  stage_of now (cancel_detox id) = none
  stage_of now (unlock_tier1_edit phrase) = none

  abbrev IsHandled : Option (Daemon → Outcome Config) → Daemon → Daemon → Type 0
  IsHandled none d d' = Grows d d'
  IsHandled (some stage) d d' = IsStagedAndSaved env stage d d'

  handle-IsHandled :
      (r : Request) (later : ClockSample) (now : DateTime) (d : Daemon)
      → IsHandled (stage_of now r) d (handle env r later now d).0
  unfolding handle unlock_tier1_edit_method
  handle-IsHandled (upsert_site_list given r) later now d =
      stage_and_save-IsStagedAndSaved env _ _ _ _ _ _ _ d
  handle-IsHandled (delete_site_list id) later now d =
      stage_and_save-IsStagedAndSaved env _ _ _ _ _ _ _ d
  handle-IsHandled (upsert_app_rule given r) later now d =
      stage_and_save-IsStagedAndSaved env _ _ _ _ _ _ _ d
  handle-IsHandled (delete_app_rule id) later now d =
      stage_and_save-IsStagedAndSaved env _ _ _ _ _ _ _ d
  handle-IsHandled (upsert_allowance a) later now d =
      stage_and_save-IsStagedAndSaved env _ _ _ _ _ _ _ d
  handle-IsHandled (delete_allowance id) later now d =
      stage_and_save-IsStagedAndSaved env _ _ _ _ _ _ _ d
  handle-IsHandled (upsert_schedule s sites apps) later now d =
      stage_and_save-IsStagedAndSaved env _ _ _ _ _ _ _ d
  handle-IsHandled (delete_schedule id) later now d =
      stage_and_save-IsStagedAndSaved env _ _ _ _ _ _ _ d
  handle-IsHandled (import_policy imported) later now d =
      stage_and_save-IsStagedAndSaved env _ _ _ _ _ _ _ d
  handle-IsHandled (start_detox params) later now d = start-Grows env params now later d
  handle-IsHandled (cancel_detox id) later now d = SameCore-Grows ((ask-Keeps _).kept d)
  handle-IsHandled (unlock_tier1_edit phrase) later now d = SameCore-Grows (
      (and_then-Keeps (ask-Keeps (authorize_unlock env phrase now))
          (λ _. open_window-Keeps env now)).kept
        d)

  -- The request has put another policy in force, staged from the one before.
  pub record Changed (c : Call) (d d' : Daemon) : Type 0 where
    pub stage : Daemon → Outcome Config
    pub is_stage : stage_of c.sample.wall c.request ≡ some stage
    pub before : Daemon
    pub same : SameCore d before
    pub next : Config
    pub staged : stage before ≡ ok next
    pub valid : validate env.platform next ≡ ok tt
    pub installed : Installed next before d'

  abbrev pub HasEffect : Call → Daemon → Daemon → Type 0
  HasEffect c d d' = Grows d d' ⊎ Changed c d d'

  Grows-after : {a b c : Daemon} → SameCore a b → Grows b c → Grows a c
  Grows-after p q = record {
    config = q.config ∙ p.config;
    policy = q.policy ∙ p.policy;
    started = q.started;
    sessions = q.sessions ∙ ap (λ rows. rows ++ q.started) p.sessions;
  }

  effect_of :
      (c : Call) (d before d' : Daemon) (stage : Option (Daemon → Outcome Config))
      → stage_of c.sample.wall c.request ≡ stage
      → SameCore d before
      → IsHandled stage before d'
      → HasEffect c d d'
  effect_of c d before d' none e p h = inl (Grows-after p h)
  effect_of c d before d' (some stage) e p (inl h) = inl (SameCore-Grows (SameCore-trans p h))
  effect_of c d before d' (some stage) e p (inr (next, staged, valid, installed)) = inr (record {
    stage = stage;
    is_stage = e;
    before = before;
    same = p;
    next = next;
    staged = staged;
    valid = valid;
    installed = installed;
  })

  follow-HasEffect :
      {A B : Type 0} (c : Call) (d : Daemon) (out : Daemon × Outcome A) (rest : A → Action B)
      → SameCore d out.0
      → ((a : A) (before : Daemon) → SameCore d before → HasEffect c d (rest a before).0)
      → HasEffect c d (follow out rest).0
  follow-HasEffect c d (d', err e) rest p q = inl (SameCore-Grows p)
  follow-HasEffect c d (d', ok a) rest p q = q a d' p

  same_during : (c : Call) (d : Daemon) → SameCore d (during c d)
  same_during c d = record { config = refl; policy = refl; sessions = refl }

  pub call-HasEffect : (c : Call) (d : Daemon) → HasEffect c d (call env c d).0
  unfolding call guarded and_then
  call-HasEffect c d =
      follow-HasEffect c d (update_clock_integrity env c.sample (during c d)) _
        (SameCore-trans (same_during c d)
          ((update_clock_integrity-Keeps env c.sample).kept (during c d)))
        (λ _ d₁ same.
          follow-HasEffect c d (ensure_trusted env d₁) _
            (SameCore-trans same ((ensure_trusted-Keeps env).kept d₁))
            (λ _ d₂ same'.
              effect_of c d d₂ _ _ refl same'
                (handle-IsHandled c.request c.later c.sample.wall d₂)))
