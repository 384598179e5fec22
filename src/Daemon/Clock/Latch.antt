-- ===== src/Daemon/Clock/Latch.antt =====
-- focusd/src/clock_guard.rs: a tampered clock stays one.
use bloc_kuntu.Common.{
  ◌≡◌, refl, sym, ap, ◌∙◌, ◌≢◌, inl, inr, true, false, Option, none, some, List, [], ◌∷◌, arith,
}
use bloc_kuntu.Common.Results.{ok, err, ok-injective, >>=-eq-ok, reject_if-eq-ok}
use mathlib.Core.Path.{subst}
use bloc_kuntu.Text.{Text, text_eq, lit}
use bloc_kuntu.Store.{
  Database, commit-cases, attempt-eq-ok, read_service_state, write_service_states,
}
use bloc_kuntu.Store.Services.{service_state, set_service_states, put_all}
use bloc_kuntu.Daemon.{
  Outcome, from_core, from_core-eq-ok, Daemon, Action, follow, and_then, give, ask, system, store,
  IoCall, sample_clock, Environment,
}
use bloc_kuntu.Daemon.Clock.{
  status_key, detail_key, last_wall_utc_key, last_boot_id_key, last_boottime_key, status_tampered,
  ClockSample, ClockViolation, Previous, previous_sample, parse_utc, clock_violation, next_status,
  persist_sample, tell, after_reading, update_clock_integrity, check_status, ensure_trusted,
  or_default,
}

-- The stored status.
abbrev pub IsTampered : Database → Type 0
IsTampered db = db.service_states status_key ≡ some status_tampered

read_status :
    (db : Database) (key : Text) (value : Option Text)
    → from_core (service_state key db) ≡ ok value
    → db.service_states key ≡ value
unfolding service_state
read_status db key value h =
    attempt-eq-ok db (read_service_state key) _ (from_core-eq-ok (service_state key db) value h)

tampered_text : text_eq status_tampered status_tampered ≡ true
unfolding text_eq
tampered_text = refl

module _ (env : Environment) where
  next_status-tampered :
      (previous : Previous env) (violation : Option ClockViolation)
      → previous.state ≡ status_tampered
      → ((next_status env previous violation).0 ≡ status_tampered)
        × ((next_status env previous violation).2 ≡ false)
  unfolding next_status
  next_status-tampered previous none h = rw h (rw tampered_text (refl, refl))
  next_status-tampered previous (some v) h = rw h (rw tampered_text (refl, refl))

  previous_sample-tampered :
      (db : Database) (previous : Previous env)
      → IsTampered db
      → previous_sample env db ≡ ok previous
      → previous.state ≡ status_tampered
  unfolding previous_sample
  previous_sample-tampered db previous t h =
      let (state, read, h₁) = >>=-eq-ok (from_core (service_state status_key db)) _ h in
      let (detail, _, h₂) = >>=-eq-ok (from_core (service_state detail_key db)) _ h₁ in
      let (wall_text, _, h₃) = >>=-eq-ok (from_core (service_state last_wall_utc_key db)) _ h₂ in
      let (wall, _, h₄) = >>=-eq-ok (parse_utc env wall_text) _ h₃ in
      let (boot_id, _, h₅) = >>=-eq-ok (from_core (service_state last_boot_id_key db)) _ h₄ in
      let (boottime, _, h₆) = >>=-eq-ok (from_core (service_state last_boottime_key db)) _ h₅ in
      let same : state ≡ some status_tampered = sym (read_status db status_key state read) ∙ t in
      sym (ap (λ (x : Previous env). x.state) (ok-injective h₆)) ∙ ap (or_default (lit "ok")) same

  -- The other keys that a sample is stored under are not that of the status.
  stored_status :
      (state detail wall boot_id uptime : Text) (states : Text → Option Text)
      → put_all
          ((status_key, state)
            ∷ (detail_key, detail)
            ∷ (last_wall_utc_key, wall)
            ∷ (last_boot_id_key, boot_id)
            ∷ (last_boottime_key, uptime)
            ∷ [])
          states
          status_key
        ≡ some state
  unfolding text_eq
  stored_status state detail wall boot_id uptime states = refl

  persist_sample-IsTampered :
      (sample : ClockSample) (state detail : Text) (d : Daemon)
      → state ≡ status_tampered
      → IsTampered d.database
      → IsTampered (persist_sample env sample state detail d).0.database
  unfolding persist_sample store set_service_states
  persist_sample-IsTampered sample state detail d is_tampered t =
      let values : List (Text × Text) =
        (status_key, state)
        ∷ (detail_key, detail)
        ∷ (last_wall_utc_key, env.to_rfc3339 sample.wall.utc)
        ∷ (last_boot_id_key, sample.boot_id)
        ∷ (last_boottime_key, env.uptime_text sample.boottime)
        ∷ [] in
      elim (commit-cases d.database write_service_states
        (record d.database { service_states = put_all values d.database.service_states }, tt)) [
          | inl e ↦
              rw (e, store)
                (stored_status state detail _ _ _ d.database.service_states ∙ ap some is_tampered)
          | inr (message, e) ↦ rw (e, store) t
        ]

  follow-give :
      {A B : Type 0} (out : Daemon × Outcome A) (b : B) → (follow out (λ _. give b)).0 ≡ out.0
  unfolding give
  follow-give (d, err e) b = refl
  follow-give (d, ok a) b = refl

  after_reading-IsTampered :
      (sample : ClockSample) (previous : Previous env) (d : Daemon)
      → previous.state ≡ status_tampered
      → IsTampered d.database
      → IsTampered (after_reading env sample previous d).0.database
  unfolding after_reading and_then tell
  after_reading-IsTampered sample previous d h t =
      let violation = clock_violation sample previous.wall previous.boot_id previous.boottime in
      let next = next_status env previous violation in
      let (state, quiet) = next_status-tampered previous violation h in
      let out = persist_sample env sample next.0 next.1 (tell env next.2 next.1 sample d) in
      subst (λ (x : Daemon). IsTampered x.database) (sym (follow-give out (next.0, next.1)))
        (persist_sample-IsTampered sample next.0 next.1 (tell env next.2 next.1 sample d) state
          (subst (λ b. IsTampered (tell env b next.1 sample d).database) (sym quiet) t))

  -- What happens to the state, however a chain of calls ends.
  follow-IsTampered :
      {A B : Type 0} (out : Daemon × Outcome A) (rest : A → Action B)
      → IsTampered out.0.database
      → ((a : A) → out.1 ≡ ok a → IsTampered (rest a out.0).0.database)
      → IsTampered (follow out rest).0.database
  follow-IsTampered (d, err e) rest t k = t
  follow-IsTampered (d, ok a) rest t k = k a refl

  pub system-database : (c : IoCall) (d : Daemon) → (system c d).0.database ≡ d.database
  unfolding system
  system-database c d = ground arith

  pub update_clock_integrity-IsTampered :
      (sample : ClockSample) (d : Daemon)
      → IsTampered d.database
      → IsTampered (update_clock_integrity env sample d).0.database
  unfolding update_clock_integrity and_then ask
  update_clock_integrity-IsTampered sample d t =
      let t' = subst IsTampered (sym (system-database sample_clock d)) t in
      follow-IsTampered (system sample_clock d) _ t' (λ _ _.
        follow-IsTampered
          ((system sample_clock d).0, previous_sample env (system sample_clock d).0.database) _ t'
          (λ previous read.
            after_reading-IsTampered sample previous (system sample_clock d).0
              (previous_sample-tampered (system sample_clock d).0.database previous t' read) t'))

  check_status-refuses : (db : Database) → IsTampered db → check_status env db ≢ ok tt
  unfolding check_status
  check_status-refuses db t h =
      let (state, read, h₁) = >>=-eq-ok (from_core (service_state status_key db)) _ h in
      let (detail, _, h₂) = >>=-eq-ok (from_core (service_state detail_key db)) _ h₁ in
      let (wall_text, _, h₃) = >>=-eq-ok (from_core (service_state last_wall_utc_key db)) _ h₂ in
      let (wall, _, h₄) = >>=-eq-ok (parse_utc env wall_text) _ h₃ in
      let passed = reject_if-eq-ok (text_eq (or_default (lit "ok") state) status_tampered) _ h₄ in
      let is_tampered : state ≡ some status_tampered =
        sym (read_status db status_key state read) ∙ t in
      let seen : text_eq (or_default (lit "ok") state) status_tampered ≡ true =
        ap (λ o. text_eq (or_default (lit "ok") o) status_tampered) is_tampered ∙ tampered_text in
      cc

  follow-refuses :
      (out : Daemon × Outcome (Unit {0}))
      → IsTampered out.0.database
      → (follow out (λ _. ask (λ d. check_status env d.database))).1 ≢ ok tt
  unfolding ask
  follow-refuses (d, err e) t h = cc
  follow-refuses (d, ok a) t h = check_status-refuses d.database t h

  -- The guard refuses.
  pub ensure_trusted-refuses :
      (d : Daemon) → IsTampered d.database → (ensure_trusted env d).1 ≢ ok tt
  unfolding ensure_trusted and_then
  ensure_trusted-refuses d t =
      follow-refuses (system sample_clock d)
        (subst IsTampered (sym (system-database sample_clock d)) t)
