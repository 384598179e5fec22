-- ===== src/Daemon/Detox/Granted.antt =====
-- focusd/src/rpc.rs, start_detox_method: which requests start a session.
use bloc_kuntu.Common.{
  ◌++◌, ◌≡◌, refl, sym, ◌∙◌, inl, inr, true, false, Option, none, some, List, [], ◌∷◌, arith, ltb,
  ◌==◌, All, any, All-map, map,
}
use bloc_kuntu.Common.Results.{Result, ok, for_each}
use bloc_kuntu.Text.{Text, text_eq}
use bloc_kuntu.Config.{RuleTier, RuleConfig, AppRuleConfig, Config}
use bloc_kuntu.Types.{DetoxSession}
use bloc_kuntu.Platform.{DateTime}
use bloc_kuntu.Store.{DetoxRow, is_distinct, id_member, read_detox_session, write_detox, commit}
use bloc_kuntu.Store.Detox.{row_of_session, insert_detox_session}
use bloc_kuntu.Daemon.{ItemKind, site_list, app_rule, Daemon, and_then, ask, store, Environment}
use bloc_kuntu.Daemon.Clock.{ClockSample}
use bloc_kuntu.Daemon.Requests.Started.{after_start-Keeps}
use bloc_kuntu.Daemon.Access.{uninstall_handoff_active}
use bloc_kuntu.Daemon.Lists.{find_item}
use bloc_kuntu.Daemon.Schedules.{target_found, validate_detox_targets, normalized_unique_ids}
use bloc_kuntu.Daemon.Schedules.Targets.{normalized_unique_ids-IsNormal}
use bloc_kuntu.Daemon.Detox.{
  StartDetoxParams, check_start, new_session, prepare_session, insert_session, start_detox_method,
}
use bloc_kuntu.Daemon.Detox.Fresh.{ids, next_detox_session_id-Ends}
use bloc_kuntu.Daemon.Detox.Started.{IsTarget, IsAllowed, IsStarted}

for_each-ok :
    {E A : Type 0} (check : A → Result E (Unit {0})) (xs : List A)
    → All (λ x. check x ≡ ok tt) xs
    → for_each check xs ≡ ok tt
for_each-ok check [] h = refl
for_each-ok check (x ∷ xs) (first, rest) = rw (first, for_each-ok check xs rest) refl

IsTarget-found :
    {A : Type 0} (kind : ItemKind) (id_of : A → Text) (tier_of : A → RuleTier) (items : List A)
    (id : Text)
    → IsTarget id_of tier_of items id
    → target_found kind tier_of id (find_item id_of id items) ≡ ok tt
unfolding target_found
IsTarget-found kind id_of tier_of items id (item, found, tier) = rw (found, target_found, tier) refl

targets-found :
    (config : Config) (sites apps : List Text)
    → All (IsTarget (λ (r : RuleConfig). r.id) (λ (r : RuleConfig). r.tier) config.rules) sites
    → All
        (IsTarget (λ (r : AppRuleConfig). r.id) (λ (r : AppRuleConfig). r.tier) config.app_rules)
        apps
    → validate_detox_targets config sites apps ≡ ok tt
unfolding validate_detox_targets
targets-found config sites apps hs ha =
    let site = for_each-ok _ sites (
      All-map _ _
        (λ id.
          IsTarget-found site_list (λ (r : RuleConfig). r.id) (λ (r : RuleConfig). r.tier)
            config.rules id)
        sites hs) in
    let app = for_each-ok _ apps (
      All-map _ _
        (λ id.
          IsTarget-found app_rule (λ (r : AppRuleConfig). r.id) (λ (r : AppRuleConfig). r.tier)
            config.app_rules id)
        apps ha) in
    rw (site, app) refl

module _ (env : Environment) (params : StartDetoxParams) (now : DateTime)
    (again : ClockSample) where
  check_start-passes :
      (sites apps : List Text) (d : Daemon)
      → IsAllowed params sites apps d.config
      → uninstall_handoff_active env d.database again.wall.utc ≡ ok false
      → check_start env params sites apps again.wall.utc d ≡ ok tt
  unfolding check_start
  check_start-passes sites apps d h idle =
      let positive : (params.duration_minutes == 0) ≡ false = let p = h.least in ground arith in
      let short : ltb 120_960 params.duration_minutes ≡ false = let p = h.most in ground arith in
      rw
        (
          positive,
          short,
          h.some_target,
          idle,
          targets-found d.config sites apps h.site_targets h.app_targets,
          check_start,
        )
        refl

  any-id :
      (id : Text) (rows : List DetoxRow)
      → any (λ (r : DetoxRow). text_eq r.id id) rows
        ≡ id_member id (map (λ (r : DetoxRow). r.id) rows)
  any-id id [] = refl
  any-id id (r ∷ rows) = let rest = any-id id rows in ground arith

  insert_stores :
      (s : DetoxSession) (d : Daemon)
      → d.database.failure write_detox ≡ none
      → id_member s.id (ids d.database) ≡ false
      → is_distinct s.site_rule_ids ≡ true
      → is_distinct s.app_rule_ids ≡ true
      → store (insert_detox_session s) d ≡ (
        record d {
          database = record d.database {
            detox_sessions = d.database.detox_sessions ++ row_of_session s ∷ [];
          };
        },
        ok s,
      )
  unfolding store insert_detox_session
  insert_stores s d written fresh sites apps =
      let is_new = any-id s.id d.database.detox_sessions ∙ fresh in
      rw (store, insert_detox_session, is_new, sites, apps, commit, written) refl

  prepare_session-returns :
      (sites apps : List Text) (d : Daemon)
      → ((id : Text) → d.database.failure (read_detox_session id) ≡ none)
      → IsAllowed params sites apps d.config
      → uninstall_handoff_active env d.database again.wall.utc ≡ ok false
      → (id : Text) × (prepare_session env params sites apps now again.wall.utc d
          ≡ ok (some (new_session env params sites apps now id)))
        × (id_member id (ids d.database) ≡ false)
  unfolding prepare_session
  prepare_session-returns sites apps d readable h idle =
      elim (next_detox_session_id-Ends d.database now.utc) [
        | inl (id, found, fresh) ↦
            (id, rw (prepare_session, check_start-passes sites apps d h idle, found) refl, fresh)
        | inr (id, message, failed, _) ↦ absurd (none-ne-some (sym (readable _) ∙ failed))
      ]
    where
      none-ne-some : {t : Text} → ◌≡◌ {A = Option Text} none (some t) → ⊥
      none-ne-some e = cc

  -- A request that is allowed stores its session, unless an uninstall is in progress, where SQLite
  -- does not fail the check for that, the search for an id and the insertion. This is so whatever
  -- happens afterwards: the answer may still be an error, of the event, the hosts file or the policies
  -- of the browsers.
  pub start_detox_method-stores :
      (d : Daemon)
      → ((id : Text) → d.database.failure (read_detox_session id) ≡ none)
      → d.database.failure write_detox ≡ none
      → IsAllowed params
          (normalized_unique_ids params.site_rule_ids)
          (normalized_unique_ids params.app_rule_ids)
          d.config
      → uninstall_handoff_active env d.database again.wall.utc ≡ ok false
      → (s : DetoxSession) × IsStarted env params now again d s
          (start_detox_method env params now again d).0.database.detox_sessions
  unfolding start_detox_method and_then ask insert_session new_session
  start_detox_method-stores d readable written h idle =
      let sites = normalized_unique_ids params.site_rule_ids in
      let apps = normalized_unique_ids params.app_rule_ids in
      let (id, made, fresh) = prepare_session-returns sites apps d readable h idle in
      let s = new_session env params sites apps now id in
      let stored =
        insert_stores s d written fresh
          (normalized_unique_ids-IsNormal params.site_rule_ids).distinct
          (normalized_unique_ids-IsNormal params.app_rule_ids).distinct in
      (
        s,
        record {
          allowed = h;
          starts_at = refl;
          ends_at = refl;
          uncancelled = refl;
          stored = rw (made, stored) ((after_start-Keeps env params now again s).kept _).sessions;
        },
      )
