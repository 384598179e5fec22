-- ===== src/Daemon/Detox.antt =====
-- focusd/src/rpc.rs: starting a Detox, and the refusal to cancel one. The notification that a start
-- queues, whose failure is ignored, is left out.
pub mod Fresh
pub mod Started
pub mod Granted
use bloc_kuntu.Common.{
  ℕ, zero, suc, ◌+◌, ◌-◌, ◌*◌, ◌/◌, ◌%◌, ◌≤◌, ◌<◌, ◌≡◌, refl, sym, ap, ◌∙◌, ◌≢◌, ◌↔◌, ◌⊎◌, inl, inr,
  Bool, true, false, not, ◌&&◌, ◌||◌, Option, none, some, List, [], ◌∷◌, ◌++◌, map, reverse,
  append-nil, arith, ltb, ◌==◌, if◌then◌else◌, ltb→ge, tests, Bool-cases, Option-cases, same,
  is_some, All, length, any, filter, find, is_empty, All-map,
}
use bloc_kuntu.Common.Results.{
  Result, ok, err, ◌>>=◌, ◌>>◌, reject_if, for_each, >>=-eq-ok, >>-eq-ok, reject_if-eq-ok,
  for_each-eq-ok,
}
use bloc_kuntu.Text.{Text, lit, text_eq, trim, join}
use bloc_kuntu.Types.{DetoxSession}
use bloc_kuntu.Platform.{Instant, minute_ns, DateTime}
use bloc_kuntu.Store.{Database, record_event}
use bloc_kuntu.Store.Services.{detox_session}
use bloc_kuntu.Store.Detox.{insert_detox_session}
use bloc_kuntu.Daemon.{
  unknown_detox, zero_duration, long_duration, no_detox_target, uninstall_in_progress,
  detox_cannot_be_cancelled, DaemonError, Outcome, refuse, from_core, Daemon, Action, follow,
  and_then, give, ask, system, store, Environment,
}
use bloc_kuntu.Daemon.Clock.{ClockSample}
use bloc_kuntu.Daemon.Browsers.{repair_chromium_policies_for_current_settings}
use bloc_kuntu.Daemon.Access.{uninstall_handoff_active}
use bloc_kuntu.Daemon.Save.{repair_hosts_after_policy_change}
use bloc_kuntu.Daemon.Schedules.{normalized_unique_ids, validate_detox_targets}

-- A number in decimal digits, the last digit first; the fuel is the number itself.
unfoldable pub digits : ℕ → ℕ → Text
digits zero n = (48 + n % 10) ∷ []
digits (suc fuel) n =
    let rest = digits fuel (n / 10) in if ltb n 10 then (48 + n) ∷ [] else (48 + n % 10) ∷ rest

-- `to_string()` of a number
unfoldable pub decimal : ℕ → Text
unfolding digits
decimal n = reverse (digits n n)

-- `detox-{now.timestamp_micros()}`
abbrev pub base_id : Instant → Text
base_id now = lit "detox-" ++ decimal (now / 1000)

abbrev pub with_suffix : Text → ℕ → Text
with_suffix base suffix = base ++ (lit "-" ++ decimal suffix)

-- The loop, with the id that it tries and the next suffix. It returns nothing where the fuel ends.
unfoldable pub first_free : ℕ → Text → Text → ℕ → Database → Outcome (Option Text)
first_free zero base id suffix db = ok none
first_free (suc fuel) base id suffix db = do
  let rest = first_free fuel base (with_suffix base suffix) (suffix + 1) db
  found ← from_core (detox_session id db)
  if is_some found then rest else ok (some id)

-- More rounds than there are sessions.
unfoldable pub next_detox_session_id : Instant → Database → Outcome (Option Text)
unfolding first_free
next_detox_session_id now db =
    first_free (suc (length db.detox_sessions)) (base_id now) (base_id now) 2 db

pub record StartDetoxParams : Type 0 where
  pub name : Option Text
  pub duration_minutes : ℕ
  pub site_rule_ids : List Text
  pub app_rule_ids : List Text

-- Twelve weeks.
abbrev pub max_detox_duration_minutes : ℕ
max_detox_duration_minutes = 12 * 7 * 24 * 60

-- `.map(trim).filter(|name| !name.is_empty())`
abbrev pub clean_name : Option Text → Option Text
clean_name none = none
clean_name (some name) = if is_empty (trim name) then none else some (trim name)

module _ (env : Environment) where
  unfoldable pub check_start :
      StartDetoxParams → List Text → List Text → Instant → Daemon → Outcome (Unit {0})
  check_start params sites apps checked_at d = do
    reject_if (params.duration_minutes == 0) (DaemonError.invalid_request zero_duration)
    reject_if (ltb max_detox_duration_minutes params.duration_minutes)
        (DaemonError.invalid_request long_duration)
    reject_if (is_empty sites && is_empty apps) (DaemonError.invalid_request no_detox_target)
    uninstalling ← uninstall_handoff_active env d.database checked_at
    reject_if uninstalling (DaemonError.invalid_request uninstall_in_progress)
    validate_detox_targets d.config sites apps

  unfoldable pub new_session :
      StartDetoxParams → List Text → List Text → DateTime → Text → DetoxSession
  new_session params sites apps now id = record {
    id = id;
    name = clean_name params.name;
    starts_at = now.utc;
    ends_at = now.utc + params.duration_minutes * minute_ns;
    cancelled_at = none;
    site_rule_ids = sites;
    app_rule_ids = apps;
  }

  unfoldable pub prepare_session :
      StartDetoxParams
      → List Text
      → List Text
      → DateTime
      → Instant
      → Daemon
      → Outcome (Option DetoxSession)
  unfolding check_start new_session next_detox_session_id
  prepare_session params sites apps now checked_at d = do
    check_start params sites apps checked_at d
    id ← next_detox_session_id now.utc d.database
    ok (elim id [ none ↦ none | some t ↦ some (new_session params sites apps now t) ])

  started_details : StartDetoxParams → DetoxSession → Text
  started_details params s =
      lit "duration_minutes="
      ++ (decimal params.duration_minutes
          ++ (lit ";site_rules="
              ++ (join (lit ",") s.site_rule_ids
                  ++ (lit ";app_rules=" ++ join (lit ",") s.app_rule_ids))))

  -- What follows the insertion of the session.
  unfoldable pub after_start :
      StartDetoxParams → DateTime → ClockSample → DetoxSession → Action (Option DetoxSession)
  unfolding started_details
  after_start params now again s =
      and_then
        (store (
          record_event (lit "detox_started") (some s.id) (some (started_details params s)) now.utc))
        (λ _. and_then (repair_hosts_after_policy_change env now again.wall.utc) (λ _.
          and_then (repair_chromium_policies_for_current_settings env again) (λ _. give (some s))))

  unfoldable pub insert_session :
      StartDetoxParams → DateTime → ClockSample → Option DetoxSession → Action (Option DetoxSession)
  unfolding after_start
  insert_session params now again none = give none
  insert_session params now again (some s) =
      and_then (store (insert_detox_session s)) (after_start params now again)

  -- `again` is what the clocks read while the request is handled; a result without a session stands
  -- for a loop that does not end.
  unfoldable pub start_detox_method :
      StartDetoxParams → DateTime → ClockSample → Action (Option DetoxSession)
  unfolding prepare_session insert_session
  start_detox_method params now again =
      let sites = normalized_unique_ids params.site_rule_ids in
      let apps = normalized_unique_ids params.app_rule_ids in
      and_then (ask (prepare_session params sites apps now again.wall.utc))
        (insert_session params now again)

-- There is no branch that succeeds.
unfoldable pub cancel_detox_method : Text → Daemon → Outcome (Unit {0})
cancel_detox_method id d = do
  session ← from_core (detox_session id d.database)
  reject_if (not (is_some session)) (DaemonError.invalid_request (unknown_detox id))
  refuse detox_cannot_be_cancelled
