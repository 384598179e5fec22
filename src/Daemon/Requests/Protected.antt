-- ===== src/Daemon/Requests/Protected.antt =====
-- focusd/src/rpc.rs with focus-core/src/policy.rs: a Detox against every sequence of requests.
use bloc_kuntu.Common.{
  ◌≡◌, sym, ◌∙◌, inl, inr, true, Option, none, some, List, arith, Any, any, Any→any, Any-map,
}
use bloc_kuntu.Common.Results.{ok, ok-injective, >>=-eq-ok}
use mathlib.Core.Path.{subst}
use bloc_kuntu.Text.{Text}
use bloc_kuntu.Config.{Config}
use bloc_kuntu.Types.{DetoxSession}
use bloc_kuntu.Platform.{DateTime}
use bloc_kuntu.Common.Members.{Any-filter, Any-sort_by, Any-map_of}
use bloc_kuntu.Store.{Database, DetoxRow, read_active_detox, attempt-eq-ok, format_time, id_member}
use bloc_kuntu.Store.Detox.{is_active_row, session_of_row, ends_later, active_detox_sessions}
use bloc_kuntu.Edits.{in_active_detox}
use bloc_kuntu.Policy.Matching.{NormalizedUrl}
use bloc_kuntu.Policy.Evaluate.FailClosed.{IsInForce}
use bloc_kuntu.Daemon.{Daemon, Outcome, from_core-eq-ok, Environment}
use bloc_kuntu.Daemon.Lists.{site_in_detox}
use bloc_kuntu.Daemon.Lists.Covered.{IsYes, CoversUrl, CoversUrl-rules}
use bloc_kuntu.Daemon.Lists.Edited.{stage_site_list-Covers, stage_allowance-rules}
use bloc_kuntu.Daemon.Lists.Removed.{
  stage_site_list_removal-Covers, stage_app_rule-rules, stage_app_rule_removal-rules,
  stage_allowance_removal-rules,
}
use bloc_kuntu.Daemon.Schedules.Covered.{stage_schedule-Covers, stage_schedule_removal-Covers}
use bloc_kuntu.Daemon.Import.Covered.{stage_import-covers}
use bloc_kuntu.Daemon.Requests.{
  Request, upsert_site_list, delete_site_list, upsert_app_rule, delete_app_rule, upsert_allowance,
  delete_allowance, upsert_schedule, delete_schedule, import_policy, start_detox, cancel_detox,
  unlock_tier1_edit, Call,
}
use bloc_kuntu.Daemon.Requests.Handled.{stage_of, HasEffect}

-- Some session in force at the time names the website list.
abbrev pub IsNamed : Text → DateTime → List DetoxRow → Type 0
IsNamed i now rows =
    Any (λ row. IsInForce (format_time now.utc) row × (id_member i row.site_rule_ids ≡ true)) rows

-- Where the sessions can be read, the list is found to be in a Detox.
named-IsYes :
    (env : Environment) (config : Config) (db : Database) (now : DateTime) (i : Text)
    → IsNamed i now db.detox_sessions
    → IsYes (site_in_detox env config db now i)
unfolding in_active_detox active_detox_sessions session_of_row
named-IsYes env config db now i named b h =
    let asked =
      from_core-eq-ok (in_active_detox (λ (s : DetoxSession). s.site_rule_ids) db i now) b h in
    let (sessions, read, found) = >>=-eq-ok (active_detox_sessions now.utc db) _ asked in
    let active = is_active_row (format_time now.utc) in
    let among : Any (λ (s : DetoxSession). id_member i s.site_rule_ids ≡ true) sessions =
      rw (← attempt-eq-ok db read_active_detox _ read) (
        Any-map_of _ session_of_row _ (
          Any-sort_by _ ends_later _ (
            Any-filter _ active db.detox_sessions (
              Any-map _ _ (λ row hit. (hit.1, ground (arith, hit.0))) db.detox_sessions named)))) in
    let yes_found : any (λ (s : DetoxSession). id_member i s.site_rule_ids) sessions ≡ true =
      Any→any (λ (s : DetoxSession). id_member i s.site_rule_ids) sessions among in
    sym (ok-injective found) ∙ yes_found

staged_as :
    (f g : Daemon → Outcome Config) (d : Daemon) (next : Config)
    → ◌≡◌ {A = Option (Daemon → Outcome Config)} (some f) (some g)
    → g d ≡ ok next
    → f d ≡ ok next
staged_as f g d next e h =
    subst
      (λ (o : Option (Daemon → Outcome Config)). elim o [ none ↦ Unit | some k ↦ k d ≡ ok next ])
      (sym e) h

none-ne-some :
    {f : Daemon → Outcome Config} → ◌≡◌ {A = Option (Daemon → Outcome Config)} none (some f) → ⊥
none-ne-some e = cc

module _ (env : Environment) (i : Text) (url : NormalizedUrl) where
  abbrev pub Covers : Config → Type 0
  Covers = CoversUrl env.platform i url

  -- No request stages a policy in which a list of a running Detox covers less.
  stage-Covers :
      (now : DateTime) (r : Request) (stage : Daemon → Outcome Config) (d : Daemon) (next : Config)
      → stage_of env now r ≡ some stage
      → IsNamed i now d.database.detox_sessions
      → stage d ≡ ok next
      → Covers d.config
      → Covers next
  stage-Covers now (upsert_site_list given new) stage d next e named h =
      stage_site_list-Covers env d.config d.database now i url
        (named-IsYes env d.config d.database now i named) given new next (staged_as _ _ d next e h)
  stage-Covers now (delete_site_list id) stage d next e named h =
      stage_site_list_removal-Covers env d.config d.database now i url
        (named-IsYes env d.config d.database now i named) id next (staged_as _ _ d next e h)
  stage-Covers now (upsert_app_rule given new) stage d next e named h =
      CoversUrl-rules env.platform i url d.config next (
        stage_app_rule-rules env d.config d.database now i url
          (named-IsYes env d.config d.database now i named) given new next
          (staged_as _ _ d next e h))
  stage-Covers now (delete_app_rule id) stage d next e named h =
      CoversUrl-rules env.platform i url d.config next (
        stage_app_rule_removal-rules env d.config d.database now i url
          (named-IsYes env d.config d.database now i named) id next (staged_as _ _ d next e h))
  stage-Covers now (upsert_allowance a) stage d next e named h =
      CoversUrl-rules env.platform i url d.config next (
        stage_allowance-rules env d.config d.database now i url
          (named-IsYes env d.config d.database now i named) a d.config next
          (staged_as _ _ d next e h))
  stage-Covers now (delete_allowance id) stage d next e named h =
      CoversUrl-rules env.platform i url d.config next (
        stage_allowance_removal-rules env d.config d.database now i url
          (named-IsYes env d.config d.database now i named) id next (staged_as _ _ d next e h))
  stage-Covers now (upsert_schedule s sites apps) stage d next e named h =
      stage_schedule-Covers env d.config d.database now i url s sites apps next
        (staged_as _ _ d next e h)
  stage-Covers now (delete_schedule id) stage d next e named h =
      stage_schedule_removal-Covers env d.config d.database now i url id next
        (staged_as _ _ d next e h)
  stage-Covers now (import_policy imported) stage d next e named h =
      stage_import-covers env.platform i url d.config imported next (staged_as _ _ d next e h)
  stage-Covers now (start_detox params) stage d next e named h = absurd (none-ne-some e)
  stage-Covers now (cancel_detox id) stage d next e named h = absurd (none-ne-some e)
  stage-Covers now (unlock_tier1_edit phrase) stage d next e named h = absurd (none-ne-some e)

  pub call-Covers :
      (c : Call) (d d' : Daemon)
      → HasEffect env c d d'
      → IsNamed i c.sample.wall d.database.detox_sessions
      → Covers d.config
      → Covers d'.config
  call-Covers c d d' (inl grown) named covered = subst Covers (sym grown.config) covered
  call-Covers c d d' (inr changed) named covered =
      let named' = subst (IsNamed i c.sample.wall) (sym changed.same.sessions) named in
      let covered' = subst Covers (sym changed.same.config) covered in
      subst Covers (sym changed.installed.config) (
        stage-Covers c.sample.wall c.request changed.stage changed.before changed.next
          changed.is_stage named' changed.staged covered')
