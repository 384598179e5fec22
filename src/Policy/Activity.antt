-- ===== src/Policy/Activity.antt =====
-- focus-core/src/policy.rs: which lists match, which are active, and which Detox blocks.
use bloc_kuntu.Common.{
  ℕ, ◌/◌, Bool, true, false, not, ◌&&◌, Option, none, some, List, [], ◌∷◌, ltb, if◌then◌else◌, any,
  filter, max_by_key,
}
use bloc_kuntu.Common.Results.{ok, ◌>>=◌}
use bloc_kuntu.Text.{Text}
use bloc_kuntu.Config.{RuleTier, tier_eq, RuleConfig, AppRuleConfig, Config}
use bloc_kuntu.Types.{Fallible, DetoxTargetKind, BlockReason, DetoxSession, ProcessIdentity}
use bloc_kuntu.Platform.{Instant, DateTime, Platform}
use bloc_kuntu.Store.{Database, id_member}
use bloc_kuntu.Store.Detox.{active_detox_sessions, uncancelled_detox_sessions}
use bloc_kuntu.Policy.Matching.{NormalizedUrl, site_rule_applies, app_rule_applies}
use bloc_kuntu.Policy.Schedule.{schedule_ids_are_active_at}

-- `EvaluationContext`
pub record Context : Type 0 where
  pub config : Config
  pub database : Database
  pub now : DateTime
  pub clock_tampered : Bool

abbrev pub now_utc : Context → Instant
now_utc ctx = ctx.now.utc

-- While the clock is tampered with, every uncancelled session counts as active.
unfoldable pub active_sessions : Context → Fallible (List DetoxSession)
active_sessions ctx =
    if ctx.clock_tampered
    then uncancelled_detox_sessions ctx.database
    else active_detox_sessions (now_utc ctx) ctx.database

-- `timestamp_micros`
abbrev pub timestamp_micros : Instant → ℕ
timestamp_micros t = t / 1000

abbrev pub ends_micros : DetoxSession → ℕ
ends_micros s = timestamp_micros s.ends_at

-- The session with the latest end among those that name the list.
unfoldable pub latest_session :
    (DetoxSession → List Text) → Text → List DetoxSession → Option DetoxSession
latest_session ids id sessions =
    max_by_key ends_micros (filter (λ s. id_member id (ids s)) sessions)

-- `block` is replaced where the new session ends strictly later.
abbrev pub replaces : Option (DetoxSession × Text × Text) → DetoxSession → Bool
replaces none s = true
replaces (some (current, _, _)) s = ltb (ends_micros current) (ends_micros s)

-- The loop of `detox_block_for_url` and `detox_block_for_app` over the lists of the policy: the
-- session, the list's id and its name.
module _ {R : Type 0} (covers : R → Bool) (id name : R → Text) (ids : DetoxSession → List Text)
    (sessions : List DetoxSession) where
  unfoldable pub detox_loop :
      Option (DetoxSession × Text × Text) → List R → Option (DetoxSession × Text × Text)
  detox_loop block [] = block
  detox_loop block (r ∷ rs) =
      detox_loop
        (if covers r
          then elim (latest_session ids (id r) sessions) [
            | none ↦ block
            | some s ↦ if replaces block s then some (s, id r, name r) else block
          ]
          else block)
        rs

abbrev pub detox_reason : DetoxTargetKind → DetoxSession × Text × Text → BlockReason
detox_reason kind (s, id, name) = BlockReason.detox s.id s.name id name kind s.ends_at

abbrev pub detox_result : DetoxTargetKind → Option (DetoxSession × Text × Text) → Option BlockReason
detox_result kind none = none
detox_result kind (some found) = some (detox_reason kind found)

abbrev pub in_tier : RuleTier → Bool → RuleTier → Bool
in_tier tier enabled wanted = enabled && tier_eq tier wanted

module _ (p : Platform) (ctx : Context) where
  unfoldable pub covers_url : NormalizedUrl → RuleConfig → Bool
  covers_url url r = in_tier r.tier r.enabled RuleTier.scheduled_block && site_rule_applies p r url

  unfoldable pub detox_block_for_url : NormalizedUrl → Fallible (Option BlockReason)
  detox_block_for_url url = do
    sessions ← active_sessions ctx
    ok (
        detox_result DetoxTargetKind.site_rule (
          detox_loop (covers_url url) (λ r. r.id) (λ r. r.name) (λ s. s.site_rule_ids) sessions none
            ctx.config.rules))

  -- `matching_rules`
  unfoldable pub matching_rules : NormalizedUrl → RuleTier → List RuleConfig
  matching_rules url tier =
      filter (λ r. site_rule_applies p r url)
        (filter (λ (r : RuleConfig). in_tier r.tier r.enabled tier) ctx.config.rules)

  -- `schedule_ids_are_active`
  unfoldable pub schedule_ids_are_active : List Text → Bool
  schedule_ids_are_active ids =
      schedule_ids_are_active_at p.chrono ids ctx.config ctx.now ctx.clock_tampered

  -- `rule_is_active` and `app_rule_is_active` on the fields that they read.
  tier_is_active : RuleTier → List Text → Bool
  tier_is_active RuleTier.hard ids = true
  tier_is_active RuleTier.scheduled_block ids = schedule_ids_are_active ids
  tier_is_active RuleTier.controlled_access ids = schedule_ids_are_active ids

  unfoldable pub rule_is_active : RuleConfig → Bool
  unfolding tier_is_active
  rule_is_active r = if not r.enabled then false else tier_is_active r.tier r.schedule_ids

  unfoldable pub app_rule_is_active : AppRuleConfig → Bool
  unfolding tier_is_active
  app_rule_is_active r = if not r.enabled then false else tier_is_active r.tier r.schedule_ids

  -- `?` stands behind `&&` and `||`: the sessions are read only where they decide.
  either_or_detox : Bool → Bool → (DetoxSession → List Text) → Text → Fallible Bool
  either_or_detox false active ids id = ok false
  either_or_detox true true ids id = ok true
  either_or_detox true false ids id = do
    sessions ← active_sessions ctx
    ok (any (λ s. id_member id (ids s)) sessions)

  unfoldable pub controlled_rule_is_active : RuleConfig → Fallible Bool
  unfolding either_or_detox
  controlled_rule_is_active r =
      either_or_detox r.enabled (rule_is_active r) (λ s. s.site_rule_ids) r.id

  unfoldable pub controlled_app_rule_is_active : AppRuleConfig → Fallible Bool
  unfolding either_or_detox
  controlled_app_rule_is_active r =
      either_or_detox r.enabled (app_rule_is_active r) (λ s. s.app_rule_ids) r.id

module _ (ctx : Context) where
  unfoldable pub covers_process : ProcessIdentity → AppRuleConfig → Bool
  covers_process process r =
      in_tier r.tier r.enabled RuleTier.scheduled_block && app_rule_applies r process

  unfoldable pub detox_block_for_app : ProcessIdentity → Fallible (Option BlockReason)
  detox_block_for_app process = do
    sessions ← active_sessions ctx
    ok (
        detox_result DetoxTargetKind.app_rule (
          detox_loop (covers_process process) (λ r. r.id) (λ r. r.name) (λ s. s.app_rule_ids)
            sessions none ctx.config.app_rules))

  -- `matching_app_rules`
  unfoldable pub matching_app_rules : ProcessIdentity → RuleTier → List AppRuleConfig
  matching_app_rules process tier =
      filter (λ r. app_rule_applies r process)
        (filter (λ (r : AppRuleConfig). in_tier r.tier r.enabled tier) ctx.config.app_rules)
