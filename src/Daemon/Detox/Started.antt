-- ===== src/Daemon/Detox/Started.antt =====
-- focusd/src/rpc.rs, start_detox_method: what a start that succeeds has done.
use bloc_kuntu.Common.{
  ◌+◌, ◌*◌, ◌≤◌, ◌≡◌, refl, sym, ap, ◌∙◌, inl, inr, false, not, ◌&&◌, Option, none, some, List, [],
  ◌∷◌, ◌++◌, arith, ltb, ◌==◌, ltb→ge, Bool-cases, same, All, any, is_empty, All-map,
}
use bloc_kuntu.Common.Results.{
  ok, err, ok-injective, reject_if, for_each, >>=-eq-ok, >>-eq-ok, reject_if-eq-ok, for_each-eq-ok,
}
use mathlib.Core.Path.{subst}
use bloc_kuntu.Text.{Text, text_eq}
use bloc_kuntu.Config.{RuleTier, tier_eq, RuleConfig, AppRuleConfig, Config}
use bloc_kuntu.Types.{DetoxSession}
use bloc_kuntu.Platform.{minute_ns, DateTime}
use bloc_kuntu.Store.{DetoxRow, commit-cases, is_distinct, write_detox}
use bloc_kuntu.Store.Detox.{insert_detox_session, row_of_session}
use bloc_kuntu.Daemon.{
  ItemKind, site_list, app_rule, zero_duration, long_duration, no_detox_target,
  uninstall_in_progress, DaemonError, Outcome, Daemon, follow, follow-eq-ok, follow-state, and_then,
  give, ask, store, Environment,
}
use bloc_kuntu.Daemon.Requests.Started.{after_start-Keeps}
use bloc_kuntu.Daemon.Clock.{ClockSample}
use bloc_kuntu.Daemon.Browsers.{repair_chromium_policies_for_current_settings}
use bloc_kuntu.Daemon.Access.{uninstall_handoff_active}
use bloc_kuntu.Daemon.Lists.{find_item}
use bloc_kuntu.Daemon.Save.{repair_hosts_after_policy_change}
use bloc_kuntu.Daemon.Schedules.{target_found, validate_detox_targets, normalized_unique_ids}
use bloc_kuntu.Daemon.Detox.{
  StartDetoxParams, max_detox_duration_minutes, check_start, new_session, prepare_session,
  insert_session, next_detox_session_id, start_detox_method, after_start,
}

-- The list exists and is not Tier 1.
abbrev pub IsTarget : {A : Type 0} → (A → Text) → (A → RuleTier) → List A → Text → Type 0
IsTarget {A} id_of tier_of items id =
    (item : A) × (find_item id_of id items ≡ some item)
    × (tier_eq (tier_of item) RuleTier.hard ≡ false)

target_found-IsTarget :
    {A : Type 0} (kind : ItemKind) (id_of : A → Text) (tier_of : A → RuleTier) (items : List A)
    (id : Text) (found : Option A)
    → find_item id_of id items ≡ found
    → target_found kind tier_of id found ≡ ok tt
    → IsTarget id_of tier_of items id
unfolding target_found
target_found-IsTarget kind id_of tier_of items id none e h = cc
target_found-IsTarget kind id_of tier_of items id (some item) e h =
    (item, e, reject_if-eq-ok (tier_eq (tier_of item) RuleTier.hard) _ h)

targets-IsTarget :
    (config : Config) (sites apps : List Text)
    → validate_detox_targets config sites apps ≡ ok tt
    → All (IsTarget (λ (r : RuleConfig). r.id) (λ (r : RuleConfig). r.tier) config.rules) sites
      × All
          (IsTarget (λ (r : AppRuleConfig). r.id) (λ (r : AppRuleConfig). r.tier) config.app_rules)
          apps
unfolding validate_detox_targets
targets-IsTarget config sites apps h =
    let site : Text → Outcome (Unit {0}) = λ id.
      target_found site_list (λ (r : RuleConfig). r.tier) id
        (find_item (λ (r : RuleConfig). r.id) id config.rules) in
    let app : Text → Outcome (Unit {0}) = λ id.
      target_found app_rule (λ (r : AppRuleConfig). r.tier) id
        (find_item (λ (r : AppRuleConfig). r.id) id config.app_rules) in
    let (h₁, h₂) = >>-eq-ok (for_each site sites) _ h in
    (
      All-map _ _ (λ id. target_found-IsTarget site_list _ _ config.rules id _ refl) sites
          (for_each-eq-ok site sites h₁),
      All-map _ _ (λ id. target_found-IsTarget app_rule _ _ config.app_rules id _ refl) apps
          (for_each-eq-ok app apps h₂),
    )

-- A list is named, the time is one minute to twelve weeks, and every list that is named exists in
-- the policy and is not Tier 1.
pub record IsAllowed (params : StartDetoxParams) (sites apps : List Text) (config : Config)
    : Type 0 where
  pub least : 1 ≤ params.duration_minutes
  pub most : params.duration_minutes ≤ 120_960
  pub some_target : (is_empty sites && is_empty apps) ≡ false
  pub site_targets :
      All (IsTarget (λ (r : RuleConfig). r.id) (λ (r : RuleConfig). r.tier) config.rules) sites
  pub app_targets :
      All
        (IsTarget (λ (r : AppRuleConfig). r.id) (λ (r : AppRuleConfig). r.tier) config.app_rules)
        apps

module _ (env : Environment) (params : StartDetoxParams) (now : DateTime)
    (again : ClockSample) where
  check_start-IsAllowed :
      (sites apps : List Text) (d : Daemon)
      → check_start env params sites apps again.wall.utc d ≡ ok tt
      → IsAllowed params sites apps d.config
  unfolding check_start
  check_start-IsAllowed sites apps d h =
      let minutes = params.duration_minutes in
      let (p₁, h₁) =
        >>-eq-ok (reject_if (minutes == 0) (DaemonError.invalid_request zero_duration)) _ h in
      let (p₂, h₂) =
        >>-eq-ok
          (reject_if (ltb max_detox_duration_minutes minutes)
            (DaemonError.invalid_request long_duration))
          _ h₁ in
      let (p₃, h₃) =
        >>-eq-ok
          (reject_if (is_empty sites && is_empty apps)
            (DaemonError.invalid_request no_detox_target))
          _ h₂ in
      let (uninstalling, _, h₄) =
        >>=-eq-ok (uninstall_handoff_active env d.database again.wall.utc) _ h₃ in
      let (_, h₅) =
        >>-eq-ok (reject_if uninstalling (DaemonError.invalid_request uninstall_in_progress)) _
          h₄ in
      let (site_targets, app_targets) = targets-IsTarget d.config sites apps h₅ in
      let positive = reject_if-eq-ok (minutes == 0) _ p₁ in
      record {
        least = ground arith;
        most = ltb→ge max_detox_duration_minutes minutes (reject_if-eq-ok _ _ p₂);
        some_target = reject_if-eq-ok _ _ p₃;
        site_targets = site_targets;
        app_targets = app_targets;
      }

  -- What is true of a session that was started, and of the sessions that are stored then.
  pub record IsStarted (d : Daemon) (s : DetoxSession) (rows : List DetoxRow) : Type 0 where
    pub allowed : IsAllowed params s.site_rule_ids s.app_rule_ids d.config
    pub starts_at : s.starts_at ≡ now.utc
    pub ends_at : s.ends_at ≡ now.utc + params.duration_minutes * minute_ns
    pub uncancelled : s.cancelled_at ≡ none
    pub stored : rows ≡ d.database.detox_sessions ++ row_of_session s ∷ []

  insert-stored :
      (s s' : DetoxSession) (d : Daemon)
      → (store (insert_detox_session s) d).1 ≡ ok s'
      → (s ≡ s')
        × ((store (insert_detox_session s) d).0.database.detox_sessions
            ≡ d.database.detox_sessions ++ row_of_session s ∷ [])
  unfolding store insert_detox_session
  insert-stored s s' d h =
      let is_new = not (any (λ (r : DetoxRow). text_eq r.id s.id) d.database.detox_sessions) in
      elim (Bool-cases (is_new && is_distinct s.site_rule_ids && is_distinct s.app_rule_ids)) [
        | inr e ↦ absurd (refused (rw (e, store, insert_detox_session) at h))
        | inl e ↦
            elim (commit-cases d.database write_detox (
              record d.database {
                detox_sessions = d.database.detox_sessions ++ row_of_session s ∷ [];
              },
              s,
            )) [
              | inl done ↦ (
                ok-injective (rw (e, done, store, insert_detox_session) at h),
                rw (e, done, store, insert_detox_session) refl,
              )
              | inr (message, failed) ↦
                  absurd (refused (rw (e, failed, store, insert_detox_session) at h))
            ]
      ]
    where
      refused :
          {e : DaemonError} {x : DetoxSession} → ◌≡◌ {A = Outcome DetoxSession} (err e) (ok x) → ⊥
      refused h = cc

  prepared :
      (sites apps : List Text) (d : Daemon) (s : DetoxSession)
      → prepare_session env params sites apps now again.wall.utc d ≡ ok (some s)
      → IsAllowed params sites apps d.config
        × ((id : Text) × (new_session env params sites apps now id ≡ s))
  unfolding prepare_session
  prepared sites apps d s h =
      let (checked, h₁) = >>-eq-ok (check_start env params sites apps again.wall.utc d) _ h in
      let (id, _, h₂) = >>=-eq-ok (next_detox_session_id now.utc d.database) _ h₁ in
      (check_start-IsAllowed sites apps d checked, session_of id (ok-injective h₂))
    where
      session_of :
          (id : Option Text)
          → ◌≡◌ {A = Option DetoxSession}
              (elim id [ none ↦ none | some t ↦ some (new_session env params sites apps now t) ])
              (some s)
          → (id : Text) × (new_session env params sites apps now id ≡ s)
      session_of none e = cc
      session_of (some t) e = (t, ground arith)

  -- The session that is returned is the one that was inserted.
  pub after_start-answer :
      (s : DetoxSession) (answer : Option DetoxSession) (d : Daemon)
      → (after_start env params now again s d).1 ≡ ok answer
      → some s ≡ answer
  unfolding after_start and_then give
  after_start-answer s answer d h =
      let (_, _, h₁) = follow-eq-ok (store _ d) _ answer h in
      let (_, _, h₂) =
        follow-eq-ok (repair_hosts_after_policy_change env now again.wall.utc _) _ answer h₁ in
      let (_, _, h₃) =
        follow-eq-ok (repair_chromium_policies_for_current_settings env again _) _ answer h₂ in
      ok-injective h₃

  after_start-returns :
      (s₁ s : DetoxSession) (d : Daemon)
      → (after_start env params now again s₁ d).1 ≡ ok (some s)
      → s₁ ≡ s
  after_start-returns s₁ s d h = some-injective (after_start-answer s₁ (some s) d h)
    where
      some-injective :
          {a b : DetoxSession} → ◌≡◌ {A = Option DetoxSession} (some a) (some b) → a ≡ b
      some-injective e = cc

  inserted :
      (s₀ s : DetoxSession) (d : Daemon)
      → (insert_session env params now again (some s₀) d).1 ≡ ok (some s)
      → (s₀ ≡ s)
        × ((insert_session env params now again (some s₀) d).0.database.detox_sessions
            ≡ d.database.detox_sessions ++ row_of_session s₀ ∷ [])
  unfolding insert_session and_then
  inserted s₀ s d h =
      let out = store (insert_detox_session s₀) d in
      let rest = after_start env params now again in
      let (s₁, done, h₁) = follow-eq-ok out rest (some s) h in
      let (same, sessions) = insert-stored s₀ s₁ d done in
      let after = (after_start-Keeps env params now again s₁).kept out.0 in
      (
        same ∙ after_start-returns s₁ s out.0 h₁,
        ap (λ x. x.0.database.detox_sessions) (follow-state out rest s₁ done)
            ∙ after.sessions
            ∙ sessions,
      )

  finished :
      (sites apps : List Text) (d : Daemon) (s : DetoxSession) (r : Outcome (Option DetoxSession))
      → prepare_session env params sites apps now again.wall.utc d ≡ r
      → (follow (d, r) (insert_session env params now again)).1 ≡ ok (some s)
      → IsStarted d s
          (follow (d, r) (insert_session env params now again)).0.database.detox_sessions
  unfolding insert_session give new_session
  finished sites apps d s (err e) p h = cc
  finished sites apps d s (ok none) p h = cc
  finished sites apps d s (ok (some s₀)) p h =
      let (allowed, (id, made)) = prepared sites apps d s₀ p in
      let (same, sessions) = inserted s₀ s d h in
      let is_new : new_session env params sites apps now id ≡ s = made ∙ same in
      record {
        allowed =
            subst (λ (x : DetoxSession). IsAllowed params x.site_rule_ids x.app_rule_ids d.config)
              is_new allowed;
        starts_at = sym (ap (λ (x : DetoxSession). x.starts_at) is_new);
        ends_at = sym (ap (λ (x : DetoxSession). x.ends_at) is_new);
        uncancelled = sym (ap (λ (x : DetoxSession). x.cancelled_at) is_new);
        stored = sessions ∙ ap (λ x. d.database.detox_sessions ++ row_of_session x ∷ []) same;
      }

  -- A start that succeeds has stored one session behind the others. It runs from the time of the
  -- request for the minutes that were asked for, one minute to twelve weeks; it names a list; and
  -- every list that it names exists in the policy and is not Tier 1.
  pub start_detox_method-IsStarted :
      (d : Daemon) (s : DetoxSession)
      → (start_detox_method env params now again d).1 ≡ ok (some s)
      → IsStarted d s (start_detox_method env params now again d).0.database.detox_sessions
  unfolding start_detox_method and_then ask
  start_detox_method-IsStarted d s h =
      finished (normalized_unique_ids params.site_rule_ids)
        (normalized_unique_ids params.app_rule_ids) d s _ refl h
