-- ===== src/Store/Services.antt =====
-- focus-core/src/db.rs: the service states, the stored policy, the lifecycle states of schedules,
-- and one Detox session by its id.
use bloc_kuntu.Common.{
  ◌≡◌, refl, sym, ap, ◌∙◌, ◌⊎◌, inl, inr, Bool-cases, Bool, true, not, ◌&&◌, ◌||◌, map, all, any,
  sort_by, Option, none, some, List, [], ◌∷◌, if◌then◌else◌, filter, find,
}
use bloc_kuntu.Common.Results.{Result, ok, err}
use bloc_kuntu.Text.{Text, lit, text_eq, text_lt}
use bloc_kuntu.Config.{RuleConfig, AppRuleConfig, ScheduleConfig, AllowanceConfig, Config}
use bloc_kuntu.Config.Validate.{ConfigError, validate}
use bloc_kuntu.Platform.{Platform}
use bloc_kuntu.Types.{Error, Fallible, DetoxSession}
use bloc_kuntu.Store.{
  Database, LifecycleRow, DetoxRow, UnlockRow, UnlockTarget, is_distinct, attempt, commit,
  commit-cases, read_service_state, read_detox_session, write_lifecycle, write_service_states,
  write_policy_config, read_lifecycle,
}
use bloc_kuntu.Store.Detox.{session_of_row}

unfoldable pub service_state : Text → Database → Fallible (Option Text)
service_state key db = attempt db (read_service_state key) (db.service_states key)

abbrev pub put_all : List (Text × Text) → (Text → Option Text) → Text → Option Text
put_all [] states = states
put_all ((key, value) ∷ values) states =
    put_all values (λ k. if text_eq k key then some value else states k)

-- One transaction; `updated_at` is left out.
unfoldable pub set_service_states : List (Text × Text) → Database → Database × Fallible (Unit {0})
set_service_states values db =
    commit db write_service_states
      (record db { service_states = put_all values db.service_states }, tt)

unfoldable pub set_service_state : Text → Text → Database → Database × Fallible (Unit {0})
unfolding set_service_states
set_service_state key value db = set_service_states ((key, value) ∷ []) db

-- `ORDER BY id`, in which the tables of the policy are read; they keep no other order of the items.
abbrev pub by_id : {A : Type 0} → (A → Text) → List A → List A
by_id id_of = sort_by (λ a b. not (text_lt (id_of b) (id_of a)))

-- What is read back of a policy that is stored. Windows, members and schedule ids keep their order,
-- for which they have a column.
abbrev pub rows_of : Config → Config
rows_of config = record {
  rules = by_id (λ (r : RuleConfig). r.id) config.rules;
  app_rules = by_id (λ (r : AppRuleConfig). r.id) config.app_rules;
  schedules = by_id (λ (s : ScheduleConfig). s.id) config.schedules;
  allowances = by_id (λ (a : AllowanceConfig). a.id) config.allowances;
  strict_mode = config.strict_mode;
}

-- PRIMARY KEY(list_id, schedule_id) and PRIMARY KEY(rule_id, schedule_id): no list names a schedule
-- twice. The other keys hold of a valid policy.
unfoldable pub attachments_are_distinct : Config → Bool
attachments_are_distinct config =
    all (λ (r : RuleConfig). is_distinct r.schedule_ids) config.rules
    && all (λ (r : AppRuleConfig). is_distinct r.schedule_ids) config.app_rules

-- Whether `policy_site_lists` or `policy_app_rules` has the id.
abbrev pub has_list : Config → Text → Bool
has_list config id =
    any (λ (r : RuleConfig). text_eq r.id id) config.rules
    || any (λ (r : AppRuleConfig). text_eq r.id id) config.app_rules

-- `UPDATE unlock_rule_targets SET revoked = 1` for the lists that are missing.
abbrev pub revoke_target : Config → UnlockTarget → UnlockTarget
revoke_target config t =
    if not t.revoked && not (has_list config t.rule_id) then record t { revoked = true } else t

abbrev pub revoke_missing : Config → UnlockRow → UnlockRow
revoke_missing config u = record u { targets = map (revoke_target config) u.targets }

-- The transaction: all of its statements are done, or none.
unfoldable pub write_policy_tables : Config → Database → Database × Fallible (Unit {0})
unfolding attachments_are_distinct
write_policy_tables config db =
    if attachments_are_distinct config
    then commit db write_policy_config (
      record db { policy = rows_of config; unlocks = map (revoke_missing config) db.unlocks },
      tt,
    )
    else (db, err (Error.database (lit "UNIQUE constraint failed")))

unfoldable pub write_if_valid :
    Result ConfigError (Unit {0}) → Config → Database → Database × Fallible (Unit {0})
unfolding write_policy_tables
write_if_valid (err e) config db = (db, err (Error.config e))
write_if_valid (ok _) config db = write_policy_tables config db

unfoldable pub replace_policy_config : Platform → Config → Database → Database × Fallible (Unit {0})
unfolding write_if_valid
replace_policy_config p config = write_if_valid (validate p config) config

module _ (config : Config) (db : Database) where
  -- The tables are written, or the database is as it was.
  write_policy_tables-cases :
      (write_policy_tables config db ≡ (
        record db { policy = rows_of config; unlocks = map (revoke_missing config) db.unlocks },
        ok tt,
      ))
      ⊎ ((e : Error) × (write_policy_tables config db ≡ (db, err e)))
  unfolding write_policy_tables
  write_policy_tables-cases = elim (Bool-cases (attachments_are_distinct config)) [
    | inr e ↦
        inr (Error.database (lit "UNIQUE constraint failed"), rw (e, write_policy_tables) refl)
    | inl e ↦
        elim (commit-cases db write_policy_config (
          record db { policy = rows_of config; unlocks = map (revoke_missing config) db.unlocks },
          tt,
        )) [
          | inl written ↦ inl (rw (e, write_policy_tables) written)
          | inr (message, failed) ↦ inr (Error.database message, rw (e, write_policy_tables) failed)
        ]
  ]

  write_if_valid-cases :
      (r : Result ConfigError (Unit {0}))
      → (write_if_valid r config db ≡ (
        record db { policy = rows_of config; unlocks = map (revoke_missing config) db.unlocks },
        ok tt,
      ))
        ⊎ ((e : Error) × (write_if_valid r config db ≡ (db, err e)))
  unfolding write_if_valid
  write_if_valid-cases (ok tt) = write_policy_tables-cases
  write_if_valid-cases (err e) = inr (Error.config e, refl)

pub replace_policy_config-cases :
    (p : Platform) (config : Config) (db : Database)
    → (replace_policy_config p config db ≡ (
      record db { policy = rows_of config; unlocks = map (revoke_missing config) db.unlocks },
      ok tt,
    ))
      ⊎ ((e : Error) × (replace_policy_config p config db ≡ (db, err e)))
unfolding replace_policy_config
replace_policy_config-cases p config db = write_if_valid-cases config db (validate p config)

pub replace_policy_config-failed :
    (p : Platform) (config : Config) (db : Database) (e : Error)
    → (replace_policy_config p config db).1 ≡ err e
    → replace_policy_config p config db ≡ (db, err e)
replace_policy_config-failed p config db e h = elim (replace_policy_config-cases p config db) [
  | inl written ↦ absurd (ok-ne-err (sym (ap (λ x. x.1) written) ∙ h))
  | inr (e', failed) ↦
      failed ∙ ap (λ (r : Fallible (Unit {0})). (db, r)) (sym (ap (λ x. x.1) failed) ∙ h)
]
  where
    ok-ne-err : {x : Error} → ◌≡◌ {A = Fallible (Unit {0})} (ok tt) (err x) → ⊥
    ok-ne-err h = cc

unfoldable pub notification_lifecycle_states : Database → Fallible (List LifecycleRow)
notification_lifecycle_states db = attempt db read_lifecycle db.schedule_states

-- INSERT .. ON CONFLICT(kind, target_id) DO UPDATE
unfoldable pub put_state : Text → Bool → List LifecycleRow → List LifecycleRow
put_state id active [] = record { target_id = id; active = active } ∷ []
put_state id active (row ∷ rows) =
    let rest = put_state id active rows in
    if text_eq row.target_id id then record row { active = active } ∷ rows else row ∷ rest

unfoldable pub set_notification_lifecycle_state :
    Text → Bool → Database → Database × Fallible (Unit {0})
unfolding put_state
set_notification_lifecycle_state id active db =
    commit db (write_lifecycle id)
      (record db { schedule_states = put_state id active db.schedule_states }, tt)

unfoldable pub delete_notification_lifecycle_state :
    Text → Database → Database × Fallible (Unit {0})
delete_notification_lifecycle_state id db = commit db (write_lifecycle id) (
  record db {
    schedule_states =
        filter (λ (row : LifecycleRow). not (text_eq row.target_id id)) db.schedule_states;
  },
  tt,
)

-- The id is the table's key: at most one row has it.
unfoldable pub detox_session : Text → Database → Fallible (Option DetoxSession)
detox_session id db =
    attempt db (read_detox_session id)
      (elim (find (λ (r : DetoxRow). text_eq r.id id) db.detox_sessions) [
        | none ↦ none
        | some row ↦ some (session_of_row row)
      ])
