-- ===== src/Daemon/Requests/Saved.antt =====
-- focusd/src/rpc.rs, persist_policy_config: what saving a policy does to the one in force.
use bloc_kuntu.Common.{◌≡◌, refl, ap, ◌∙◌, ◌⊎◌, inl, inr, Bool, none, is_some}
use bloc_kuntu.Common.Results.{Result, ok, err}
use bloc_kuntu.Text.{Text}
use bloc_kuntu.Config.{Config}
use bloc_kuntu.Config.Validate.{ConfigError, validate}
use bloc_kuntu.Platform.{DateTime, Platform}
use bloc_kuntu.Store.Services.{rows_of, replace_policy_config, replace_policy_config-cases}
use bloc_kuntu.Daemon.{
  DaemonError, Outcome, Daemon, Action, follow, and_then, ask, store, IoCall, IoResult, done,
  failed, failed_late, publish_recovery, roll_back_recovery, lock_recovery, Environment,
}
use bloc_kuntu.Daemon.Save.{
  from_config, snapshot_answer, write_recovery, report, roll_back, settle, replace_stored,
  put_in_force, replace_config, before_write, write_policy, persist_policy_config, save,
}
use bloc_kuntu.Daemon.Requests.{stage_and_save}
use bloc_kuntu.Daemon.Requests.Keeps.{
  SameCore, SameCore-refl, SameCore-trans, Keeps, give-Keeps, ask-Keeps, and_then-Keeps, if-Keeps,
  system-Keeps,
}
use bloc_kuntu.Daemon.Requests.Parts.{after_write-Keeps, repair_hosts-Keeps, record_event-Keeps}

-- The policy is in force and stored; the sessions are as they were.
pub record Installed (next : Config) (d d' : Daemon) : Type 0 where
  pub config : d'.config ≡ next
  pub policy : d'.database.policy ≡ rows_of next
  pub sessions : d'.database.detox_sessions ≡ d.database.detox_sessions

-- All or nothing.
abbrev pub IsSaved : Config → Daemon → Daemon → Type 0
IsSaved next d d' = SameCore d d' ⊎ Installed next d d'

pub record Saves {A : Type 0} (next : Config) (m : Action A) : Type 0 where
  pub saved : (d : Daemon) → IsSaved next d (m d).0

kept-IsSaved : {next : Config} {a b c : Daemon} → SameCore a b → IsSaved next b c → IsSaved next a c
kept-IsSaved p (inl q) = inl (SameCore-trans p q)
kept-IsSaved p (inr q) =
    inr (record { config = q.config; policy = q.policy; sessions = q.sessions ∙ p.sessions })

IsSaved-kept : {next : Config} {a b c : Daemon} → IsSaved next a b → SameCore b c → IsSaved next a c
IsSaved-kept (inl p) q = inl (SameCore-trans p q)
IsSaved-kept (inr p) q = inr (record {
  config = q.config ∙ p.config;
  policy = q.policy ∙ p.policy;
  sessions = q.sessions ∙ p.sessions;
})

module _ {A B : Type 0} (next : Config) where
  follow_saving :
      (d : Daemon) (out : Daemon × Outcome A) (rest : A → Action B)
      → SameCore d out.0
      → ((a : A) → Saves next (rest a))
      → IsSaved next d (follow out rest).0
  follow_saving d (d', err e) rest p q = inl p
  follow_saving d (d', ok a) rest p q = kept-IsSaved p ((q a).saved d')

  follow_keeping :
      (d : Daemon) (out : Daemon × Outcome A) (rest : A → Action B)
      → IsSaved next d out.0
      → ((a : A) → Keeps (rest a))
      → IsSaved next d (follow out rest).0
  follow_keeping d (d', err e) rest p q = p
  follow_keeping d (d', ok a) rest p q = IsSaved-kept p ((q a).kept d')

  Keeps-Saves :
      {first : Action A} {rest : A → Action B}
      → Keeps first
      → ((a : A) → Saves next (rest a))
      → Saves next (and_then first rest)
  unfolding and_then
  Keeps-Saves {first} {rest} p q = record {
    saved = λ d. follow_saving d (first d) rest (p.kept d) q;
  }

  Saves-Keeps :
      {first : Action A} {rest : A → Action B}
      → Saves next first
      → ((a : A) → Keeps (rest a))
      → Saves next (and_then first rest)
  unfolding and_then
  Saves-Keeps {first} {rest} p q = record {
    saved = λ d. follow_keeping d (first d) rest (p.saved d) q;
  }

snapshot_answer-Keeps : (r : IoResult) (config : Config) → Keeps (snapshot_answer r config)
unfolding snapshot_answer
snapshot_answer-Keeps done config = record {
  kept = λ d. record { config = refl; policy = refl; sessions = refl };
}
snapshot_answer-Keeps (failed message) config = record { kept = SameCore-refl }
snapshot_answer-Keeps (failed_late message) config = record {
  kept = λ d. record { config = refl; policy = refl; sessions = refl };
}

write_recovery-Keeps : (c : IoCall) (config : Config) → Keeps (write_recovery c config)
unfolding write_recovery
write_recovery-Keeps c config = record {
  kept = λ d.
      (if-Keeps (is_some d.recovery) (snapshot_answer-Keeps (d.answer c) config)
          (give-Keeps tt)).kept
        d;
}

-- A roll-back ends in an error, so nothing follows it.
report_kept :
    (e : DaemonError) (d : Daemon) (out : Daemon × Outcome (Unit {0}))
    (rest : Unit {0} → Action (Unit {0}))
    → SameCore d out.0
    → SameCore d (follow (report e out) rest).0
unfolding report
report_kept e d (d', ok tt) rest h = h
report_kept e d (d', err e') rest h = h

-- What the write to the database did.
abbrev IsStored : Config → Daemon → Daemon × Outcome (Unit {0}) → Type 0
IsStored next d (d', ok _) =
    (d'.database.policy ≡ rows_of next) × (d'.database.detox_sessions ≡ d.database.detox_sessions)
IsStored next d (d', err e) = SameCore d d'

store-IsStored :
    (p : Platform) (next : Config) (d : Daemon)
    → IsStored next d (store (replace_policy_config p next) d)
unfolding store
store-IsStored p next d = elim (replace_policy_config-cases p next d.database) [
  | inl e ↦ rw (e, store) (refl, refl)
  | inr (message, e) ↦ rw (e, store) (SameCore-refl d)
]

module _ (env : Environment) (next : Config) (valid : validate env.platform next ≡ ok tt) where
  replace_config_lem :
      (d : Daemon) → replace_config env next d ≡ (record d { config = next }, ok tt)
  unfolding replace_config put_in_force
  replace_config_lem d = ap (λ r. put_in_force env next r d) valid

  -- A policy that is stored is put in force: that step cannot fail any more.
  settled :
      (previous : Config) (d : Daemon) (out : Daemon × Outcome (Unit {0}))
      → IsStored next d out
      → IsSaved next d (follow (settle previous out) (λ _. replace_config env next)).0
  unfolding settle roll_back
  settled previous d (d', ok tt) (policy, sessions) =
      rw (replace_config_lem d')
        (inr (record { config = refl; policy = policy; sessions = sessions }))
  settled previous d (d', err e) kept = inl (
      SameCore-trans kept
        (report_kept e d' _ _ ((write_recovery-Keeps roll_back_recovery previous).kept d')))

  write_policy-Saves : (previous : Config) → Saves next (write_policy env previous next)
  unfolding write_policy replace_stored
  write_policy-Saves previous = Keeps-Saves next (write_recovery-Keeps publish_recovery next) (λ _.
      record {
        saved = λ d. unfold and_then in settled previous d _ (store-IsStored env.platform next d);
      })

  before_write-Keeps : Keeps (before_write env next)
  unfolding before_write
  before_write-Keeps = and_then-Keeps (ask-Keeps _) (λ _.
      and_then-Keeps
        (record {
          kept = λ d.
              (if-Keeps (is_some d.recovery) (system-Keeps lock_recovery) (give-Keeps tt)).kept d;
        })
        (λ _. ask-Keeps _))

  persist-Saves : (now : DateTime) → Saves next (persist_policy_config env next now)
  unfolding persist_policy_config
  persist-Saves now = record {
    saved = λ d.
        (Keeps-Saves next before_write-Keeps (λ _.
            Saves-Keeps next (write_policy-Saves d.config) (λ _. after_write-Keeps env now))).saved
          d;
  }

module _ (env : Environment) where
  checked_then :
      (next : Config) (m : Action (Unit {0})) (d : Daemon) (r : Result ConfigError (Unit {0}))
      → (r ≡ ok tt → IsSaved next d (m d).0)
      → SameCore d (follow (d, from_config r) (λ _. m)).0
        ⊎ ((r ≡ ok tt) × Installed next d (follow (d, from_config r) (λ _. m)).0)
  checked_then next m d (err e) h = inl (SameCore-refl d)
  checked_then next m d (ok tt) h = elim (h refl) [ inl p ↦ inl p | inr p ↦ inr (refl, p) ]

  -- A policy that is put in force has been accepted by `validate`.
  save-cases :
      (next : Config) (repairs : Bool) (kind id detail : Text) (now later : DateTime) (d : Daemon)
      → SameCore d (save env next repairs kind id detail now later d).0
        ⊎ ((validate env.platform next ≡ ok tt)
            × Installed next d (save env next repairs kind id detail now later d).0)
  unfolding save and_then ask
  save-cases next repairs kind id detail now later d =
      checked_then next _ d (validate env.platform next) (λ valid.
        (Saves-Keeps next (persist-Saves env next valid later) (λ _.
            and_then-Keeps
              (if-Keeps repairs (repair_hosts-Keeps env now later.utc) (give-Keeps none))
              (λ status. record_event-Keeps _ _ _ _))).saved
          d)

  -- A handler changes nothing of the policy, or puts in force the policy that it staged.
  abbrev pub IsStagedAndSaved : (Daemon → Outcome Config) → Daemon → Daemon → Type 0
  IsStagedAndSaved stage d d' =
      SameCore d d'
      ⊎ ((next : Config) × (stage d ≡ ok next)
          × (validate env.platform next ≡ ok tt)
          × Installed next d d')

  module _ (stage : Daemon → Outcome Config) (repairs : Bool) (kind id detail : Text)
      (now later : DateTime) (d : Daemon) where
    saved_from :
        (r : Outcome Config)
        → stage d ≡ r
        → IsStagedAndSaved stage d
            (follow (d, r) (λ next. save env next repairs kind id detail now later)).0
    saved_from (err e) h = inl (SameCore-refl d)
    saved_from (ok next) h = elim (save-cases next repairs kind id detail now later d) [
      | inl p ↦ inl p
      | inr (valid, p) ↦ inr (next, h, valid, p)
    ]

    pub stage_and_save-IsStagedAndSaved :
        IsStagedAndSaved stage d (stage_and_save env stage repairs kind id detail now later d).0
    unfolding stage_and_save and_then ask
    stage_and_save-IsStagedAndSaved = saved_from (stage d) refl
