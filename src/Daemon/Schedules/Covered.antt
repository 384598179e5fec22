-- ===== src/Daemon/Schedules/Covered.antt =====
-- focusd/src/rpc.rs: the website list that a Detox session names, in the policies that the handlers
-- of schedules would save.
use bloc_kuntu.Common.{◌≡◌, refl, sym, ap, ◌∙◌, Option, none, some, List, map, same}
use bloc_kuntu.Common.Results.{ok, ok-injective, reject_if, >>=-eq-ok, >>-eq-ok}
use bloc_kuntu.Text.{Text}
use bloc_kuntu.Config.{ScheduleConfig, RuleConfig, Config}
use mathlib.Core.Path.{subst}
use bloc_kuntu.Platform.{DateTime, Platform}
use bloc_kuntu.Store.{Database}
use bloc_kuntu.Policy.Matching.{NormalizedUrl, site_rule_applies}
use bloc_kuntu.Daemon.{DaemonError, Environment}
use bloc_kuntu.Daemon.Lists.{find_item}
use bloc_kuntu.Daemon.Lists.Covered.{CoversUrl, CoversUrl-rules}
use bloc_kuntu.Daemon.{currently_active}
use bloc_kuntu.Daemon.Items.{find_item-map}
use bloc_kuntu.Daemon.{schedule, currently_active}
use bloc_kuntu.Edits.{schedule_is_active_at, schedule_target_updates_change}
use bloc_kuntu.Daemon.Schedules.{
  reattach, without, site_targets_allowed, app_targets_allowed, attach_sites, attach_apps,
  apply_schedule_target_updates, check_schedule, targets_valid, stage_normalized, normalized,
  stage_schedule, without_schedule, stage_schedule_removal,
}

abbrev id_of : RuleConfig → Text
id_of r = r.id

module _ (p : Platform) (i : Text) (url : NormalizedUrl) where
  -- The schedules of a list do not decide which addresses it covers.
  CoversUrl-attached :
      (ids : RuleConfig → List Text) (config next : Config)
      → next.rules ≡ map (λ (r : RuleConfig). record r { schedule_ids = ids r }) config.rules
      → CoversUrl p i url config
      → CoversUrl p i url next
  unfolding site_rule_applies
  CoversUrl-attached ids config next same c = record {
    list = record c.list { schedule_ids = ids c.list };
    found =
        ap (find_item id_of i) same
        ∙ find_item-map id_of (λ r. record r { schedule_ids = ids r }) (λ r. refl) i config.rules
            c.list c.found;
    in_force = c.in_force;
    applies = c.applies;
  }

module _ (env : Environment) (config : Config) (db : Database) (now : DateTime) (i : Text)
    (url : NormalizedUrl) where
  abbrev Covers : Config → Type 0
  Covers = CoversUrl env.platform i url

  attach_sites-Covers :
      (schedule_id : Text) (ids : Option (List Text)) (next final : Config)
      → attach_sites env config db now schedule_id ids next ≡ ok final
      → Covers next
      → Covers final
  unfolding attach_sites
  attach_sites-Covers schedule_id none next final h c = subst Covers (ok-injective h) c
  attach_sites-Covers schedule_id (some ids) next final h c =
      let (_, h') = >>-eq-ok (site_targets_allowed env config db now schedule_id ids) _ h in
      CoversUrl-attached env.platform i url
        (λ r. reattach schedule_id ids r.id r.tier r.schedule_ids) next final
        (ap (λ (x : Config). x.rules) (sym (ok-injective h'))) c

  attach_apps-rules :
      (schedule_id : Text) (ids : Option (List Text)) (next final : Config)
      → attach_apps env config db now schedule_id ids next ≡ ok final
      → final.rules ≡ next.rules
  unfolding attach_apps
  attach_apps-rules schedule_id none next final h =
      ap (λ (x : Config). x.rules) (sym (ok-injective h))
  attach_apps-rules schedule_id (some ids) next final h =
      let (_, h') = >>-eq-ok (app_targets_allowed env config db now schedule_id ids) _ h in
      ap (λ (x : Config). x.rules) (sym (ok-injective h'))

  apply-Covers :
      (schedule_id : Text) (sites apps : Option (List Text)) (next final : Config)
      → apply_schedule_target_updates env config db now schedule_id sites apps next ≡ ok final
      → Covers next
      → Covers final
  unfolding apply_schedule_target_updates
  apply-Covers schedule_id sites apps next final h c =
      let (next', attached, h') =
        >>=-eq-ok (attach_sites env config db now schedule_id sites next) _ h in
      CoversUrl-rules env.platform i url next' final
        (attach_apps-rules schedule_id apps next' final h')
        (attach_sites-Covers schedule_id sites next next' attached c)

  pub stage_schedule-Covers :
      (new : ScheduleConfig) (sites apps : Option (List Text)) (final : Config)
      → stage_schedule env config db now new sites apps ≡ ok final
      → Covers config
      → Covers final
  unfolding stage_schedule stage_normalized
  stage_schedule-Covers new sites apps final h c =
      let sites' = normalized env config db now sites in
      let apps' = normalized env config db now apps in
      let (_, h₁) = >>-eq-ok (targets_valid env config db now sites' apps') _ h in
      let (_, h₂) =
        >>-eq-ok
          (check_schedule env config db now new
            (schedule_target_updates_change config new.id sites' apps')
            (find_item (λ (s : ScheduleConfig). s.id) new.id config.schedules))
          _ h₁ in
      apply-Covers new.id sites' apps' _ final h₂
        (CoversUrl-rules env.platform i url config _ refl c)

  without_schedule-Covers :
      (id : Text) (current : Option ScheduleConfig) (final : Config)
      → without_schedule env config db now id current ≡ ok final
      → Covers config
      → Covers final
  unfolding without_schedule
  without_schedule-Covers id none final h c = cc
  without_schedule-Covers id (some current) final h c =
      let (_, h') =
        >>-eq-ok
          (reject_if (schedule_is_active_at env.platform.chrono current now)
            (DaemonError.invalid_request (currently_active schedule current.id)))
          _ h in
      CoversUrl-attached env.platform i url (λ r. without current.id r.schedule_ids) config final
        (ap (λ (x : Config). x.rules) (sym (ok-injective h'))) c

  pub stage_schedule_removal-Covers :
      (id : Text) (final : Config)
      → stage_schedule_removal env config db now id ≡ ok final
      → Covers config
      → Covers final
  unfolding stage_schedule_removal
  stage_schedule_removal-Covers id final h c =
      without_schedule-Covers id (find_item (λ (s : ScheduleConfig). s.id) id config.schedules)
        final h c
