-- ===== src/Policy/Evaluate/FailClosed.antt =====
-- focus-core/src/policy.rs, evaluate_url and evaluate_app: decisions under a Detox and under a
-- tampered clock.
use bloc_kuntu.Common.{
  ◌≤◌, ◌<◌, ◌≡◌, refl, ◌≢◌, inl, inr, Bool, true, false, some, List, [], ◌∷◌, arith, Bool-cases,
  Any, Any-map,
}
use bloc_kuntu.Common.Results.{ok}
use bloc_kuntu.Text.{Text}
use bloc_kuntu.Config.{tier-cases, RuleTier, RuleConfig, AppRuleConfig}
use bloc_kuntu.Types.{Decision, DetoxSession, ProcessIdentity}
use bloc_kuntu.Platform.{Platform}
use mathlib.Core.List.{Memᴰ}
use bloc_kuntu.Common.Members.{All-Memᴰ, Any-filter, Any-sort_by, Any-map_of, not-All-Any}
use bloc_kuntu.Store.{
  Stamp, DetoxRow, read_active_detox, read_uncancelled_detox, attempt-eq-ok, format_time, id_member,
}
use bloc_kuntu.Store.Detox.{
  is_uncancelled, is_active_row, session_of_row, ends_later, active_detox_sessions,
  uncancelled_detox_sessions,
}
use bloc_kuntu.Policy.Matching.{NormalizedUrl, parse, site_rule_applies}
use bloc_kuntu.Policy.Schedule.{schedule_ids_are_active_at}
use bloc_kuntu.Policy.Activity.{
  Context, now_utc, active_sessions, covers_url, covers_process, rule_is_active,
  controlled_rule_is_active, schedule_ids_are_active,
}
use bloc_kuntu.Policy.Evaluate.{
  evaluate_controlled_rule_fields, evaluate_controlled_rule, evaluate_url, evaluate_app,
}
use bloc_kuntu.Policy.Evaluate.Allowed.{HitsUrl, evaluate_url-allow_iff}
use bloc_kuntu.Policy.Evaluate.AllowedApp.{HitsProcess, evaluate_app-allow_iff}

-- A session in the database that is not cancelled and, by the clock, in force.
abbrev pub IsInForce : Stamp → DetoxRow → Type 0
IsInForce now row = (is_uncancelled row ≡ true) × (row.starts_at ≤ now) × (now < row.ends_at)

module _ (ctx : Context) (ids : DetoxSession → List Text) (row_ids : DetoxRow → List Text)
    (id : Text) (agree : (row : DetoxRow) → ids (session_of_row row) ≡ row_ids row) where
  Hit : DetoxRow → Type 0
  Hit row = IsInForce (format_time (now_utc ctx)) row × (id_member id (row_ids row) ≡ true)

  read_all :
      (sessions : List DetoxSession)
      → Any Hit ctx.database.detox_sessions
      → uncancelled_detox_sessions ctx.database ≡ ok sessions
      → Any (λ s. id_member id (ids s) ≡ true) sessions
  unfolding uncancelled_detox_sessions Hit
  read_all sessions force read = rw (← attempt-eq-ok ctx.database read_uncancelled_detox _ read) (
      Any-map_of _ session_of_row _ (
        Any-sort_by _ ends_later _ (
          Any-filter _ is_uncancelled ctx.database.detox_sessions
            (Any-map Hit _ (λ row h. (rw (agree row) h.1, h.0.0)) _ force))))

  read_current :
      (sessions : List DetoxSession)
      → Any Hit ctx.database.detox_sessions
      → active_detox_sessions (now_utc ctx) ctx.database ≡ ok sessions
      → Any (λ s. id_member id (ids s) ≡ true) sessions
  unfolding active_detox_sessions Hit
  read_current sessions force read = rw (← attempt-eq-ok ctx.database read_active_detox _ read) (
      Any-map_of _ session_of_row _ (
        Any-sort_by _ ends_later _ (
          Any-filter _ (is_active_row (format_time (now_utc ctx))) ctx.database.detox_sessions
            (Any-map Hit _ (λ row h. (rw (agree row) h.1, ground (arith, h.0))) _ force))))

  -- A session in force is among the sessions read, tampered clock or not.
  in_force-sessions :
      (sessions : List DetoxSession)
      → Any Hit ctx.database.detox_sessions
      → active_sessions ctx ≡ ok sessions
      → Any (λ s. id_member id (ids s) ≡ true) sessions
  unfolding active_sessions
  in_force-sessions sessions force read = elim (Bool-cases ctx.clock_tampered) [
    | inl t ↦ read_all sessions force (ground arith)
    | inr t ↦ read_current sessions force (ground arith)
  ]

-- Some session in force names the list.
abbrev pub SessionNames : Context → (DetoxRow → List Text) → Text → Type 0
SessionNames ctx row_ids id =
    Any (λ row. IsInForce (format_time (now_utc ctx)) row × (id_member id (row_ids row) ≡ true))
      ctx.database.detox_sessions

not-both : {b : Bool} → b ≡ false → b ≡ true → ⊥
not-both e f = cc

-- While a session is in force and not cancelled, no address is allowed that an enabled Tier 2 list
-- which the session names covers, whether or not the clock counts as tampered.
pub detox-blocks_url :
    (p : Platform) (ctx : Context) (url : Text) (parsed : NormalizedUrl) (r : RuleConfig)
    → parse p url ≡ some parsed
    → Memᴰ r ctx.config.rules
    → HitsUrl p ctx parsed RuleTier.scheduled_block r
    → SessionNames ctx (λ row. row.site_rule_ids) r.id
    → evaluate_url p ctx url ≢ Decision.allow
unfolding session_of_row covers_url Hit
detox-blocks_url p ctx url parsed r e m hit force h =
    let (other, e', a) = (evaluate_url-allow_iff p ctx url).0 h in
    let same_url : other ≡ parsed = cc in
    let covered : covers_url p ctx other r ≡ true = rw same_url (ground arith) in
    not-All-Any _ _ a.sessions (λ s. not-both) (All-Memᴰ _ ctx.config.rules a.no_detox m covered)
      (in_force-sessions ctx (λ s. s.site_rule_ids) (λ row. row.site_rule_ids) r.id (λ row. refl)
        a.sessions force a.sessions_read)

-- While a session is in force and not cancelled, no process is allowed that an enabled Tier 2
-- application list which the session names matches, whether or not the clock counts as tampered.
pub detox-blocks_app :
    (p : Platform) (ctx : Context) (process : ProcessIdentity) (r : AppRuleConfig)
    → Memᴰ r ctx.config.app_rules
    → HitsProcess p ctx process RuleTier.scheduled_block r
    → SessionNames ctx (λ row. row.app_rule_ids) r.id
    → evaluate_app p ctx process ≢ Decision.allow
unfolding session_of_row covers_process Hit
detox-blocks_app p ctx process r m hit force h =
    let a = (evaluate_app-allow_iff p ctx process).0 h in
    not-All-Any _ _ a.sessions (λ s. not-both)
      (All-Memᴰ _ ctx.config.app_rules a.no_detox m (ground arith))
      (in_force-sessions ctx (λ s. s.app_rule_ids) (λ row. row.app_rule_ids) r.id (λ row. refl)
        a.sessions force a.sessions_read)

module _ (p : Platform) (ctx : Context) (tampered : ctx.clock_tampered ≡ true) where
  tampered-schedules : (ids : List Text) → ids ≢ [] → schedule_ids_are_active p ctx ids ≡ true
  unfolding schedule_ids_are_active schedule_ids_are_active_at
  tampered-schedules [] h = absurd (h refl)
  tampered-schedules (id ∷ ids) h = rw tampered

  tampered-active :
      (r : RuleConfig) → r.enabled ≡ true → r.schedule_ids ≢ [] → rule_is_active p ctx r ≡ true
  unfolding rule_is_active
  tampered-active r on h = ground (arith, tampered-schedules r.schedule_ids h)

  tampered-controlled_active :
      (r : RuleConfig)
      → r.enabled ≡ true
      → r.schedule_ids ≢ []
      → controlled_rule_is_active p ctx r ≡ ok true
  unfolding controlled_rule_is_active
  tampered-controlled_active r on h = ground (arith, tampered-active r on h)

  tampered-evaluate : (r : RuleConfig) → evaluate_controlled_rule p ctx r ≢ Decision.allow
  unfolding evaluate_controlled_rule evaluate_controlled_rule_fields
  tampered-evaluate r h = ground arith

  -- While the clock counts as tampered, an enabled list of any tier that is attached to a schedule
  -- blocks every address that it covers.
  pub tampered-blocks_url :
      (url : Text) (parsed : NormalizedUrl) (r : RuleConfig)
      → parse p url ≡ some parsed
      → Memᴰ r ctx.config.rules
      → r.enabled ≡ true
      → r.schedule_ids ≢ []
      → site_rule_applies p r parsed ≡ true
      → evaluate_url p ctx url ≢ Decision.allow
  tampered-blocks_url url parsed r e m on attached applies h =
      let (other, e', a) = (evaluate_url-allow_iff p ctx url).0 h in
      let same_url : other ≡ parsed = cc in
      let covered : site_rule_applies p r other ≡ true = rw same_url applies in
      elim (tier-cases r.tier) [
        | inl t ↦ All-Memᴰ _ ctx.config.rules a.no_hard m (ground arith, covered)
        | inr (inl t) ↦
            not-both (All-Memᴰ _ ctx.config.rules a.no_scheduled m (ground arith, covered))
              (tampered-active r on attached)
        | inr (inr t) ↦
            elim (All-Memᴰ _ ctx.config.rules a.controlled_pass m (ground arith, covered)) [
              | inl off ↦ cc (tampered-controlled_active r on attached)
              | inr q ↦ tampered-evaluate r q.1
            ]
      ]
