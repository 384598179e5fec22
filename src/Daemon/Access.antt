-- ===== src/Daemon/Access.antt =====
-- focusd/src/rpc.rs: the window in which protected edits are allowed, the credential that opens it,
-- and the hand-over to an uninstall.
pub mod Window
use bloc_kuntu.Common.{
  zero, suc, ◌+◌, ◌-◌, ◌*◌, ◌/◌, ◌%◌, ◌≤◌, ◌<◌, ◌≡◌, refl, ap, ◌∙◌, ◌≢◌, ◌↔◌, ◌⊎◌, inl, inr, Bool,
  true, false, not, ◌&&◌, ◌||◌, Option, none, some, List, [], ◌∷◌, ◌++◌, arith, ltb, leb, ◌==◌,
  if◌then◌else◌, tests, same, any, all, is_empty,
}
use bloc_kuntu.Common.Results.{
  ok, err, ◌>>=◌, ◌>>◌, reject_if, >>=-eq-ok, >>-eq-ok, reject_if-eq-ok,
}
use bloc_kuntu.Text.{Text, lit, text_eq, trim}
use bloc_kuntu.Config.{Weekday, weekday_eq, ScheduleConfig, Config}
use bloc_kuntu.Types.{Fallible}
use bloc_kuntu.Platform.{Instant, minute_ns, DateTime, Chrono}
use bloc_kuntu.Store.{Database, record_event}
use bloc_kuntu.Store.Services.{service_state, set_service_state}
use bloc_kuntu.Store.Detox.{active_detox_sessions}
use bloc_kuntu.Policy.Schedule.{current_minute, current_weekday}
use bloc_kuntu.Edits.{schedule_is_active_at}
use bloc_kuntu.Daemon.{
  ProtectedAccessMode, sunday, no_active_schedule_or_detox, all_time, invalid_mode, access_closed,
  no_credential, wrong_credential, DaemonError, Outcome, refuse, from_core, ◌&&?◌, Daemon, Action,
  follow, and_then, ask, store, done, failed, failed_late, read_edit_key, Environment,
}

abbrev pub tier1_edit_unlock_until_key : Text
tier1_edit_unlock_until_key = lit "tier1_edit_unlocked_until"

abbrev pub credential_salt_key : Text
credential_salt_key = lit "tier1_edit_credential_salt"

abbrev pub credential_hash_key : Text
credential_hash_key = lit "tier1_edit_credential_hash"

abbrev pub protected_access_mode_key : Text
protected_access_mode_key = lit "protected_access_mode"

abbrev pub operator_window_key : Text
operator_window_key = lit "operator_window_restriction_enabled"

abbrev pub browser_extension_mode_key : Text
browser_extension_mode_key = lit "browser_extension_mode"

abbrev pub uninstalling_until_key : Text
uninstalling_until_key = lit "browser_extension_uninstalling_until"

-- Sunday, 20:00 to 23:59.
unfoldable pub operator_window_open : Chrono → DateTime → Bool
operator_window_open c now =
    weekday_eq (current_weekday c now) Weekday.sun
    && leb (20 * 60) (current_minute c now)
    && leb (current_minute c now) (23 * 60 + 59)

mode_of : Text → Outcome ProtectedAccessMode
mode_of text =
    if text_eq text (lit "sunday")
    then ok sunday
    else if text_eq text (lit "no_active_schedule_or_detox")
    then ok no_active_schedule_or_detox
    else if text_eq text (lit "all_time")
    then ok all_time
    else refuse (invalid_mode text)

pub is_text : Text → Option Text → Bool
is_text text none = false
is_text text (some t) = text_eq t text

-- The older setting, where no mode is stored.
mode_or_legacy : Database → Option Text → Outcome ProtectedAccessMode
unfolding mode_of is_text
mode_or_legacy db (some text) = mode_of text
mode_or_legacy db none = do
  restricted ← from_core (service_state operator_window_key db)
  ok (if is_text (lit "true") restricted then sunday else all_time)

unfoldable pub protected_access_mode : Database → Outcome ProtectedAccessMode
unfolding mode_or_legacy
protected_access_mode db = do
  mode ← from_core (service_state protected_access_mode_key db)
  mode_or_legacy db mode

unfoldable pub is_later : Instant → Option Instant → Bool
is_later now none = false
is_later now (some until) = ltb now until

module _ (env : Environment) where
  abbrev pub read_instant : Option Text → Option Instant
  read_instant none = none
  read_instant (some text) = env.parse_rfc3339 text

  unfoldable pub tier1_edit_unlocked_until : Database → Outcome (Option Instant)
  tier1_edit_unlocked_until db = do
    value ← from_core (service_state tier1_edit_unlock_until_key db)
    ok (read_instant value)

  unfoldable pub tier1_edit_window_active : Database → DateTime → Outcome Bool
  unfolding tier1_edit_unlocked_until is_later
  tier1_edit_window_active db now = do
    until ← tier1_edit_unlocked_until db
    ok (is_later now.utc until)

  unfoldable pub uninstall_handoff_active : Database → Instant → Outcome Bool
  unfolding is_text is_later
  uninstall_handoff_active db now = do
    mode ← from_core (service_state browser_extension_mode_key db)
    if not (is_text (lit "uninstalling") mode) then ok false else do
      until ← from_core (service_state uninstalling_until_key db)
      ok (is_later now (read_instant until))

  abbrev chrono_of : Chrono
  chrono_of = env.platform.chrono

  unfoldable pub no_active_schedule_or_detox_at : Config → Database → DateTime → Outcome Bool
  no_active_schedule_or_detox_at config db now = do
    let schedule_active =
        any (λ (s : ScheduleConfig). schedule_is_active_at chrono_of s now) config.schedules
    sessions ← from_core (active_detox_sessions now.utc db)
    ok (not schedule_active && is_empty sessions)

  open_under : ProtectedAccessMode → Config → Database → DateTime → Outcome Bool
  unfolding no_active_schedule_or_detox_at operator_window_open
  open_under sunday config db now = ok (operator_window_open chrono_of now)
  open_under no_active_schedule_or_detox config db now =
      no_active_schedule_or_detox_at config db now
  open_under all_time config db now = ok true

  unfoldable pub protected_access_is_open : Config → Database → DateTime → Bool → Outcome Bool
  unfolding open_under
  protected_access_is_open config db now true = ok false
  protected_access_is_open config db now false = do
    mode ← protected_access_mode db
    open_under mode config db now

  unfoldable pub unsupported_browser_block_is_active :
      Config → Database → DateTime → Bool → Outcome Bool
  unfolding open_under
  unsupported_browser_block_is_active config db now clock_tampered = do
    if not config.strict_mode.block_unsupported_browsers || clock_tampered
        then ok config.strict_mode.block_unsupported_browsers
        else do mode ← protected_access_mode db; open_under mode config db now

  filled : Option Text → Option Text
  filled none = none
  filled (some []) = none
  filled (some (c ∷ t)) = some (c ∷ t)

  key_matches : Text → Daemon → Outcome Bool
  unfolding is_text
  key_matches phrase d = elim (d.answer read_edit_key) [
    | done ↦ ok (is_text phrase d.edit_key)
    | failed message ↦ err (DaemonError.io message)
    | failed_late message ↦ err (DaemonError.io message)
  ]

  salted_matches : Text → Text → Option Text → Daemon → Outcome Bool
  unfolding key_matches
  salted_matches phrase salt none d = key_matches phrase d
  salted_matches phrase salt (some expected) d =
      ok (text_eq (env.credential_hash salt phrase) expected)

  salt_matches : Text → Option Text → Daemon → Outcome Bool
  unfolding salted_matches key_matches filled
  salt_matches phrase none d = key_matches phrase d
  salt_matches phrase (some salt) d = do
    expected ← from_core (service_state credential_hash_key d.database)
    salted_matches phrase salt (filled expected) d

  unfoldable pub tier1_edit_credential_matches : Text → Daemon → Outcome Bool
  unfolding salt_matches filled
  tier1_edit_credential_matches phrase d = do
    salt ← from_core (service_state credential_salt_key d.database)
    salt_matches phrase (filled salt) d

  -- The checks of `unlock_tier1_edit_method`.
  unfoldable pub authorize_unlock : Text → DateTime → Daemon → Outcome (Unit {0})
  authorize_unlock phrase now d = do
    reject_if (is_empty (trim phrase)) (DaemonError.invalid_request no_credential)
    matches ← tier1_edit_credential_matches (trim phrase) d
    reject_if (not matches) (DaemonError.invalid_request wrong_credential)
    mode ← protected_access_mode d.database
    is_open ← protected_access_is_open d.config d.database now false
    reject_if (not is_open) (DaemonError.invalid_request (access_closed mode))

  unfoldable pub open_window : DateTime → Action (Unit {0})
  open_window now =
      and_then
        (store (
          set_service_state tier1_edit_unlock_until_key (env.to_rfc3339 (now.utc + 5 * minute_ns))))
        (λ _. store (
          record_event (lit "tier1_edit_unlocked") (some (lit "site_lists"))
            (some (
              lit
                "Website and application list edits across all tiers unlocked for 5 minutes; Detox restrictions remain in force"))
            now.utc))

  -- The handler, without the status that it reports at the end.
  unfoldable pub unlock_tier1_edit_method : Text → DateTime → Action (Unit {0})
  unfolding authorize_unlock open_window
  unlock_tier1_edit_method phrase now =
      and_then (ask (authorize_unlock phrase now)) (λ _. open_window now)
