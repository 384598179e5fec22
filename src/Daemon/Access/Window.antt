-- ===== src/Daemon/Access/Window.antt =====
-- focusd/src/rpc.rs, unlock_tier1_edit_method: who opens the edit window, and for how long.
use bloc_kuntu.Common.{
  ◌+◌, ◌*◌, ◌≡◌, refl, ap, ◌∙◌, inl, inr, Bool, true, false, not, Option, none, some, List, [], ◌∷◌,
  arith, ltb, same, is_empty,
}
use bloc_kuntu.Common.Results.{ok, err, reject_if, >>=-eq-ok, >>-eq-ok, reject_if-eq-ok}
use bloc_kuntu.Text.{Text, text_eq, lit, trim}
use bloc_kuntu.Platform.{Instant, minute_ns, DateTime}
use bloc_kuntu.Store.{
  Database, commit-cases, attempt-done, read_service_state, write_service_states, record_event,
}
use bloc_kuntu.Store.Services.{service_state, set_service_state, set_service_states, put_all}
use bloc_kuntu.Daemon.{
  no_credential, wrong_credential, DaemonError, Outcome, Daemon, Action, follow-eq-ok, follow-state,
  and_then, ask, store, Environment,
}
use bloc_kuntu.Daemon.Access.{
  tier1_edit_unlock_until_key, tier1_edit_unlocked_until, tier1_edit_window_active,
  protected_access_mode, protected_access_is_open, tier1_edit_credential_matches, authorize_unlock,
  open_window, unlock_tier1_edit_method, is_later,
}

-- What RFC 3339 promises: an instant that is written can be read back.
abbrev pub ReadsBack : Environment → Type 0
ReadsBack env = (t : Instant) → env.parse_rfc3339 (env.to_rfc3339 t) ≡ some t

record_event_states :
    (kind : Text) (target details : Option Text) (now : Instant) (d : Daemon)
    → (store (record_event kind target details now) d).0.database.service_states
      ≡ d.database.service_states
unfolding store record_event
record_event_states kind target details now d = ground arith

module _ (env : Environment) (phrase : Text) (now : DateTime) where
  -- The phrase is the credential, and protected access is open.
  pub record IsAuthorized (d : Daemon) : Type 0 where
    pub credential : tier1_edit_credential_matches env (trim phrase) d ≡ ok true
    pub access : protected_access_is_open env d.config d.database now false ≡ ok true

  -- When the window ends.
  abbrev pub window_end : Instant
  window_end = now.utc + 5 * minute_ns

  authorize_unlock-IsAuthorized :
      (d : Daemon) → authorize_unlock env phrase now d ≡ ok tt → IsAuthorized d
  unfolding authorize_unlock
  authorize_unlock-IsAuthorized d h =
      let (_, h₁) =
        >>-eq-ok (reject_if (is_empty (trim phrase)) (DaemonError.invalid_request no_credential)) _
          h in
      let (matches, read, h₂) =
        >>=-eq-ok (tier1_edit_credential_matches env (trim phrase) d) _ h₁ in
      let (passed, h₃) =
        >>-eq-ok (reject_if (not matches) (DaemonError.invalid_request wrong_credential)) _ h₂ in
      let (mode, _, h₄) = >>=-eq-ok (protected_access_mode d.database) _ h₃ in
      let (is_open, asked, h₅) =
        >>=-eq-ok (protected_access_is_open env d.config d.database now false) _ h₄ in
      let is_credential = reject_if-eq-ok (not matches) _ passed in
      let is_access = reject_if-eq-ok (not is_open) _ h₅ in
      record {
        credential = read ∙ ap (λ b. ok b) (truth matches is_credential);
        access = asked ∙ ap (λ b. ok b) (truth is_open is_access);
      }
    where
      truth : (b : Bool) → not b ≡ false → b ≡ true
      truth true e = refl
      truth false e = cc

  store_window :
      (d : Daemon)
      → (store (set_service_state tier1_edit_unlock_until_key (env.to_rfc3339 window_end)) d).1
        ≡ ok tt
      → (store
            (set_service_state tier1_edit_unlock_until_key (env.to_rfc3339 window_end))
            d).0.database.service_states
          tier1_edit_unlock_until_key
        ≡ some (env.to_rfc3339 window_end)
  unfolding store set_service_state set_service_states text_eq
  store_window d h =
      let values : List (Text × Text) =
        (tier1_edit_unlock_until_key, env.to_rfc3339 window_end) ∷ [] in
      elim (commit-cases d.database write_service_states
        (record d.database { service_states = put_all values d.database.service_states }, tt)) [
          | inl e ↦ rw (e, store) refl
          | inr (message, e) ↦ absurd (refused (rw (e, store) at h))
        ]
    where
      refused : {e : DaemonError} → ◌≡◌ {A = Outcome (Unit {0})} (err e) (ok tt) → ⊥
      refused h = cc

  open_window_states :
      (d : Daemon)
      → (open_window env now d).1 ≡ ok tt
      → (open_window env now d).0.database.service_states tier1_edit_unlock_until_key
        ≡ some (env.to_rfc3339 window_end)
  unfolding open_window and_then
  open_window_states d h =
      let out =
        store (set_service_state tier1_edit_unlock_until_key (env.to_rfc3339 window_end)) d in
      let event : Unit {0} → Action (Unit {0}) = λ _. store (
        record_event (lit "tier1_edit_unlocked") (some (lit "site_lists"))
          (some (
            lit
              "Website and application list edits across all tiers unlocked for 5 minutes; Detox restrictions remain in force"))
          now.utc) in
      let (a, done, _) = follow-eq-ok out event tt h in
      let key = tier1_edit_unlock_until_key in
      ap (λ x. x.0.database.service_states key) (follow-state out event a done)
      ∙ ap (λ states. states key) (record_event_states _ _ _ now.utc out.0)
      ∙ store_window d done

  -- What a granted unlock means for later edits: in every database with the service states that it
  -- left, and where the entry can be read, the window is open up to its end and not from then on.
  abbrev pub IsOpened : (Text → Option Text) → Type 0
  IsOpened states =
      (db : Database) (later : DateTime)
      → db.service_states ≡ states
      → db.failure (read_service_state tier1_edit_unlock_until_key) ≡ none
      → tier1_edit_window_active env db later ≡ ok (ltb later.utc window_end)

  window_read :
      (states : Text → Option Text)
      → ReadsBack env
      → states tier1_edit_unlock_until_key ≡ some (env.to_rfc3339 window_end)
      → IsOpened states
  unfolding tier1_edit_window_active tier1_edit_unlocked_until service_state is_later
  window_read states back held db later same fine =
      let value : db.service_states tier1_edit_unlock_until_key ≡ some (env.to_rfc3339 window_end) =
        ap (λ f. f tier1_edit_unlock_until_key) same ∙ held in
      let read =
        attempt-done db (read_service_state tier1_edit_unlock_until_key)
          (db.service_states tier1_edit_unlock_until_key) fine in
      rw read (rw value (rw (back window_end) refl))

  -- An unlock is granted only for the credential and while protected access is open; then the edit
  -- window is open until five minutes after the request, and not from then on.
  pub unlock_tier1_edit_method-opens :
      (d : Daemon)
      → ReadsBack env
      → (unlock_tier1_edit_method env phrase now d).1 ≡ ok tt
      → IsAuthorized d
        × IsOpened (unlock_tier1_edit_method env phrase now d).0.database.service_states
  unfolding unlock_tier1_edit_method and_then ask
  unlock_tier1_edit_method-opens d back h =
      let out = ask (authorize_unlock env phrase now) d in
      let rest : Unit {0} → Action (Unit {0}) = λ _. open_window env now in
      let (a, checked, h') = follow-eq-ok out rest tt h in
      let states = ap (λ x. x.0.database.service_states) (follow-state out rest a checked) in
      (
        authorize_unlock-IsAuthorized d checked,
        window_read _ back
            (ap (λ f. f tier1_edit_unlock_until_key) states ∙ open_window_states d h'),
      )
