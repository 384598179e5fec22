-- ===== src/Daemon/Requests.antt =====
-- focusd/src/rpc.rs: the requests that change the policy, a Detox or the edit window, each with the
-- guard of the clock that its handler begins with.
pub mod Keeps
mod Parts
mod Saved
pub mod Started
pub mod Handled
pub mod Protected
pub mod Enforced
pub mod Consistent
pub mod Latched
pub mod Installed
use bloc_kuntu.Common.{
  zero, suc, ◌+◌, ◌-◌, ◌*◌, ◌/◌, ◌%◌, ◌≤◌, ◌<◌, ◌≡◌, refl, sym, ap, ◌∙◌, ◌≢◌, ◌↔◌, ◌⊎◌, inl, inr,
  Bool, true, false, not, ◌&&◌, ◌||◌, Option, none, some, List, [], ◌∷◌, ◌++◌, map, append-nil,
  append_assoc, arith, ◌==◌, if◌then◌else◌, tests, Bool-cases, same, is_some, All, Any, any, filter,
  sort_by, Any→any, Any-map,
}
use bloc_kuntu.Common.Results.{Result, ok, err, ◌>>=◌, ◌>>◌, >>=-eq-ok}
use bloc_kuntu.Text.{Text, lit}
use bloc_kuntu.Config.{ScheduleConfig, AllowanceConfig, RuleConfig, AppRuleConfig, Config}
use bloc_kuntu.Platform.{Instant, DateTime}
use bloc_kuntu.Store.{Query}
use bloc_kuntu.Daemon.{
  IoCall, IoResult, Outcome, Daemon, Action, follow, and_then, give, ask, store, system,
  Environment,
}
use bloc_kuntu.Daemon.Clock.{ClockSample, guarded}
use bloc_kuntu.Daemon.Access.{unlock_tier1_edit_method}
use bloc_kuntu.Daemon.Save.{save}
use bloc_kuntu.Daemon.Lists.Stage.{
  stage_site_list, stage_site_list_removal, stage_app_rule, stage_app_rule_removal,
}
use bloc_kuntu.Daemon.Lists.{stage_allowance}
use bloc_kuntu.Daemon.Lists.Stage.{stage_allowance_removal}
use bloc_kuntu.Daemon.Schedules.{stage_schedule, stage_schedule_removal}
use bloc_kuntu.Daemon.Import.{stage_import}
use bloc_kuntu.Daemon.Detox.{StartDetoxParams, start_detox_method, cancel_detox_method}

pub data Request : Type 0 where
  upsert_site_list : Option AllowanceConfig → RuleConfig → Request
  delete_site_list : Text → Request
  upsert_app_rule : Option AllowanceConfig → AppRuleConfig → Request
  delete_app_rule : Text → Request
  upsert_allowance : AllowanceConfig → Request
  delete_allowance : Text → Request
  upsert_schedule : ScheduleConfig → Option (List Text) → Option (List Text) → Request
  delete_schedule : Text → Request
  import_policy : Config → Request
  start_detox : StartDetoxParams → Request
  cancel_detox : Text → Request
  unlock_tier1_edit : Text → Request

abbrev gui_edit : Text
gui_edit = lit "GUI structured edit"

-- A request with what the clocks read when it arrives and while it is handled, and what SQLite and
-- the operating system answer meanwhile.
pub record Call : Type 0 where
  pub request : Request
  pub sample : ClockSample
  pub later : ClockSample
  pub failure : Query → Option Text
  pub answer : IoCall → IoResult

abbrev pub during : Call → Daemon → Daemon
during c d = record d { database = record d.database { failure = c.failure }; answer = c.answer }

module _ (env : Environment) where
  -- The policy is staged from the one in force; a refusal leaves everything as it is.
  unfoldable pub stage_and_save :
      (Daemon → Outcome Config)
      → Bool
      → Text
      → Text
      → Text
      → DateTime
      → DateTime
      → Action (Unit {0})
  stage_and_save stage repairs kind id detail now later =
      and_then (ask stage) (λ next. save env next repairs kind id detail now later)

  -- A handler behind the guard of the clock. The details of an import's event are kept without the
  -- numbers that they print.
  unfoldable pub handle : Request → ClockSample → DateTime → Action (Unit {0})
  unfolding stage_and_save
  handle (upsert_site_list given r) later now =
      stage_and_save (λ d. stage_site_list env d.config d.database now given r) true
        (lit "site_list_saved") r.id gui_edit now later.wall
  handle (delete_site_list id) later now =
      stage_and_save (λ d. stage_site_list_removal env d.config d.database now id) true
        (lit "site_list_deleted") id gui_edit now later.wall
  handle (upsert_app_rule given r) later now =
      stage_and_save (λ d. stage_app_rule env d.config d.database now given r) false
        (lit "app_rule_saved") r.id gui_edit now later.wall
  handle (delete_app_rule id) later now =
      stage_and_save (λ d. stage_app_rule_removal env d.config d.database now id) false
        (lit "app_rule_deleted") id gui_edit now later.wall
  handle (upsert_allowance a) later now =
      stage_and_save (λ d. stage_allowance env d.config d.database now a d.config) false
        (lit "allowance_saved") a.id gui_edit now later.wall
  handle (delete_allowance id) later now =
      stage_and_save (λ d. stage_allowance_removal env d.config d.database now id) false
        (lit "allowance_deleted") id gui_edit now later.wall
  handle (upsert_schedule s sites apps) later now =
      stage_and_save (λ d. stage_schedule env d.config d.database now s sites apps) false
        (lit "schedule_saved") s.id gui_edit now later.wall
  handle (delete_schedule id) later now =
      stage_and_save (λ d. stage_schedule_removal env d.config d.database now id) false
        (lit "schedule_deleted") id gui_edit now later.wall
  handle (import_policy imported) later now =
      stage_and_save (λ d. stage_import d.config imported) true (lit "policy_appended")
        (lit "policy") (lit "TOML append") now later.wall
  handle (start_detox params) later now =
      and_then (start_detox_method env params now later) (λ _. give tt)
  handle (cancel_detox id) later now = ask (cancel_detox_method id)
  handle (unlock_tier1_edit phrase) later now = unlock_tier1_edit_method env phrase now

  unfoldable pub call : Call → Action (Unit {0})
  unfolding handle
  call c d = guarded env c.sample (handle c.request c.later) (during c d)

  -- The state after requests one after the other, whatever each of them returned.
  unfoldable pub after_calls : List Call → Daemon → Daemon
  unfolding call
  after_calls [] d = d
  after_calls (c ∷ cs) d = after_calls cs (call c d).0
