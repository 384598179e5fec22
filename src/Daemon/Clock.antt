-- ===== src/Daemon/Clock.antt =====
-- focusd/src/clock_guard.rs: the clock is compared with the uptime, and a violation is kept. An
-- uptime is counted in milliseconds, as it is stored; the rounding of `f64` is left out. Time is
-- that of the machine: a client's time is trusted only by tests.
pub mod Latch
pub mod Drift
use bloc_kuntu.Common.{
  ℕ, zero, suc, ◌+◌, ◌-◌, ◌*◌, ◌/◌, ◌%◌, ◌≤◌, ◌<◌, ◌≡◌, refl, sym, ap, ◌∙◌, ◌≢◌, ◌↔◌, ◌⊎◌, inl, inr,
  Bool, true, false, not, ◌&&◌, ◌||◌, Option, none, some, List, [], ◌∷◌, ◌++◌, arith, ltb, ◌==◌,
  if◌then◌else◌, ltb→lt, ltb→ge, tests, Bool-cases, same, is_empty,
}
use bloc_kuntu.Common.Results.{ok, err, ◌>>=◌, ◌>>◌, reject_if, >>=-eq-ok, reject_if-eq-ok}
use bloc_kuntu.Text.{Text, lit, text_eq}
use bloc_kuntu.Platform.{Instant, second, DateTime}
use bloc_kuntu.Types.{Fallible}
use bloc_kuntu.Store.{Database, record_event}
use bloc_kuntu.Store.Services.{service_state, set_service_states}
use bloc_kuntu.Daemon.{
  clock_tampered, invalid_time, DaemonError, Outcome, refuse, from_core, Daemon, Action, follow,
  and_then, give, ask, system, store, sample_clock, Environment,
}

abbrev pub status_key : Text
status_key = lit "clock_guard.status"

abbrev pub detail_key : Text
detail_key = lit "clock_guard.detail"

abbrev pub last_wall_utc_key : Text
last_wall_utc_key = lit "clock_guard.last_wall_utc"

abbrev pub last_boot_id_key : Text
last_boot_id_key = lit "clock_guard.last_boot_id"

abbrev pub last_boottime_key : Text
last_boottime_key = lit "clock_guard.last_boottime_seconds"

abbrev pub status_ok : Text
status_ok = lit "ok"

abbrev pub status_tampered : Text
status_tampered = lit "tampered"

-- What the machine's clocks read; `wall` is `Local::now()`.
pub record ClockSample : Type 0 where
  pub wall : DateTime
  pub boot_id : Text
  pub boottime : ℕ

-- The messages of `clock_violation`, without the numbers that they print.
pub data ClockViolation : Type 0 where
  backwards_across_reboot uptime_backwards drifted : ClockViolation

abbrev pub violation_text : ClockViolation → Text
violation_text backwards_across_reboot = lit "System clock moved backwards across reboot."
violation_text uptime_backwards = lit "System monotonic uptime moved backwards."
violation_text drifted = lit "System clock drifted while monotonic uptime advanced."

-- `(a - b).num_seconds()`, where `a` is not before `b`.
abbrev pub seconds_between : Instant → Instant → ℕ
seconds_between a b = (a - b) / second

-- Whole seconds between two instants, whichever is first: `num_seconds().abs()`.
abbrev pub apart : Instant → Instant → ℕ
apart a b = seconds_between a b + seconds_between b a

-- `wall` against `previous_wall` and the uptime that has passed since, which may be negative by
-- up to a second: both sides of the comparison are moved by the smaller uptime.
unfoldable pub compare_sample : ClockSample → Instant → Text → ℕ → Option ClockViolation
compare_sample sample previous_wall previous_boot_id previous_boottime =
    let wall = sample.wall.utc in
    let ms : ℕ = 1_000_000 in
    if not (text_eq previous_boot_id sample.boot_id)
    then if ltb 300 (seconds_between previous_wall wall) then some backwards_across_reboot else none
    else if ltb (sample.boottime + 1000) previous_boottime
    then some uptime_backwards
    else if ltb 300 (apart (wall + previous_boottime * ms) (previous_wall + sample.boottime * ms))
    then some drifted
    else none

unfoldable pub clock_violation :
    ClockSample → Option Instant → Option Text → Option ℕ → Option ClockViolation
unfolding compare_sample
clock_violation sample none boot_id boottime = none
clock_violation sample (some wall) none boottime = none
clock_violation sample (some wall) (some boot_id) none = none
clock_violation sample (some wall) (some boot_id) (some boottime) =
    compare_sample sample wall boot_id boottime

abbrev or_default : Text → Option Text → Text
or_default text none = text
or_default text (some t) = t

module _ (env : Environment) where
  -- `.as_deref().map(parse_utc).transpose()?`
  unfoldable pub parse_utc : Option Text → Outcome (Option Instant)
  parse_utc none = ok none
  parse_utc (some text) = elim (env.parse_rfc3339 text) [
    | none ↦ refuse (invalid_time text)
    | some t ↦ ok (some t)
  ]

  pub record Previous : Type 0 where
    pub state : Text
    pub detail : Text
    pub wall : Option Instant
    pub boot_id : Option Text
    pub boottime : Option ℕ

  unfoldable pub previous_sample : Database → Outcome Previous
  unfolding parse_utc
  previous_sample db = do
    state ← from_core (service_state status_key db)
    detail ← from_core (service_state detail_key db)
    wall_text ← from_core (service_state last_wall_utc_key db)
    wall ← parse_utc wall_text
    boot_id ← from_core (service_state last_boot_id_key db)
    boottime ← from_core (service_state last_boottime_key db)
    ok (record {
      state = or_default status_ok state;
      detail = or_default [] detail;
      wall = wall;
      boot_id = boot_id;
      boottime = elim boottime [ none ↦ none | some text ↦ env.parse_uptime text ];
    })

  -- The state to be stored, its detail, and whether an event tells of it.
  unfoldable pub next_status : Previous → Option ClockViolation → Text × Text × Bool
  next_status previous violation =
      if text_eq previous.state status_tampered
      then elim violation [
        | some v ↦ (status_tampered, violation_text v, false)
        | none ↦ (
          status_tampered,
          if is_empty previous.detail
              then lit "System clock tampering was detected previously."
              else previous.detail,
          false,
        )
      ]
      else elim violation [
        | some v ↦ (status_tampered, violation_text v, true)
        | none ↦ (status_ok, lit "Clock movement matches monotonic system uptime.", false)
      ]

  unfoldable pub persist_sample : ClockSample → Text → Text → Action (Unit {0})
  persist_sample sample state detail = store (
      set_service_states (
        (status_key, state)
        ∷ (detail_key, detail)
        ∷ (last_wall_utc_key, env.to_rfc3339 sample.wall.utc)
        ∷ (last_boot_id_key, sample.boot_id)
        ∷ (last_boottime_key, env.uptime_text sample.boottime)
        ∷ []))

  -- `let _ = database.record_event(..)`: a failure is ignored.
  unfoldable pub tell : Bool → Text → ClockSample → Daemon → Daemon
  tell false detail sample d = d
  tell true detail sample d =
      (store
        (record_event (lit "clock_tamper_detected") (some (lit "system_clock")) (some detail)
          sample.wall.utc)
        d).0

  unfoldable pub after_reading : ClockSample → Previous → Action (Text × Text)
  unfolding tell next_status persist_sample
  after_reading sample previous d =
      let violation = clock_violation sample previous.wall previous.boot_id previous.boottime in
      let next = next_status previous violation in
      and_then (persist_sample sample next.0 next.1) (λ _. give (next.0, next.1))
        (tell next.2 next.1 sample d)

  -- The state and its detail.
  unfoldable pub update_clock_integrity : ClockSample → Action (Text × Text)
  unfolding after_reading
  update_clock_integrity sample =
      and_then (system sample_clock)
        (λ _. and_then (ask (λ d. previous_sample d.database)) (after_reading sample))

  unfoldable pub check_status : Database → Outcome (Unit {0})
  check_status db = do
    state ← from_core (service_state status_key db)
    detail ← from_core (service_state detail_key db)
    wall_text ← from_core (service_state last_wall_utc_key db)
    _ ← parse_utc wall_text
    reject_if (text_eq (or_default status_ok state) status_tampered) (
        DaemonError.invalid_request (
          clock_tampered
            (or_default (lit "Clock baseline has not detected suspicious movement.") detail)))

  -- `status` reads the clocks again and the stored time, and fails where they cannot be read.
  unfoldable pub ensure_trusted : Action (Unit {0})
  ensure_trusted = and_then (system sample_clock) (λ _. ask (λ d. check_status d.database))

  -- `guarded_now` and `reject_if_clock_tampered`, with which every request below begins.
  unfoldable pub guarded : {A : Type 0} → ClockSample → (DateTime → Action A) → Action A
  unfolding ensure_trusted
  guarded sample handler =
      and_then (update_clock_integrity sample)
        (λ _. and_then ensure_trusted (λ _. handler sample.wall))
