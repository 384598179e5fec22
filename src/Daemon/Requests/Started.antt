-- ===== src/Daemon/Requests/Started.antt =====
-- focusd/src/rpc.rs: what requests do to the stored Detox sessions.
use bloc_kuntu.Common.{
  ◌≡◌, refl, sym, ◌∙◌, inl, inr, not, ◌&&◌, Option, none, some, List, [], ◌∷◌, ◌++◌, append-nil,
  Bool-cases, any,
}
use bloc_kuntu.Common.Results.{ok, err}
use bloc_kuntu.Types.{DetoxSession}
use bloc_kuntu.Platform.{DateTime}
use bloc_kuntu.Store.{DetoxRow, is_distinct, commit-cases, write_detox}
use bloc_kuntu.Store.Detox.{insert_detox_session, row_of_session}
use bloc_kuntu.Text.{text_eq}
use bloc_kuntu.Daemon.{Daemon, Outcome, Action, follow, and_then, give, ask, store, Environment}
use bloc_kuntu.Daemon.Detox.{StartDetoxParams, after_start, insert_session, start_detox_method}
use bloc_kuntu.Daemon.Requests.Keeps.{SameCore, SameCore-refl, Keeps, give-Keeps, and_then-Keeps}
use bloc_kuntu.Daemon.Clock.{ClockSample}
use bloc_kuntu.Daemon.Requests.Parts.{repair_chromium-Keeps, record_event-Keeps, repair_hosts-Keeps}

-- The policy is the same, and the sessions that were there are, with others behind them.
pub record Grows (d d' : Daemon) : Type 0 where
  pub config : d'.config ≡ d.config
  pub policy : d'.database.policy ≡ d.database.policy
  pub started : List DetoxRow
  pub sessions : d'.database.detox_sessions ≡ d.database.detox_sessions ++ started

pub SameCore-Grows : {d d' : Daemon} → SameCore d d' → Grows d d'
SameCore-Grows {d} p = record {
  config = p.config;
  policy = p.policy;
  started = [];
  sessions = p.sessions ∙ sym (append-nil d.database.detox_sessions);
}

Grows-kept : {a b c : Daemon} → Grows a b → SameCore b c → Grows a c
Grows-kept p q = record {
  config = q.config ∙ p.config;
  policy = q.policy ∙ p.policy;
  started = p.started;
  sessions = q.sessions ∙ p.sessions;
}

follow-Grows :
    {A B : Type 0} (d : Daemon) (out : Daemon × Outcome A) (rest : A → Action B)
    → Grows d out.0
    → ((a : A) → Keeps (rest a))
    → Grows d (follow out rest).0
follow-Grows d (d', err e) rest p q = p
follow-Grows d (d', ok a) rest p q = Grows-kept p ((q a).kept d')

insert-Grows : (s : DetoxSession) (d : Daemon) → Grows d (store (insert_detox_session s) d).0
unfolding store insert_detox_session
insert-Grows s d =
    let is_new = not (any (λ (r : DetoxRow). text_eq r.id s.id) d.database.detox_sessions) in
    elim (Bool-cases (is_new && is_distinct s.site_rule_ids && is_distinct s.app_rule_ids)) [
      | inr e ↦ rw (e, store, insert_detox_session) (SameCore-Grows (SameCore-refl d))
      | inl e ↦
          elim (commit-cases d.database write_detox (
            record d.database {
              detox_sessions = d.database.detox_sessions ++ row_of_session s ∷ [];
            },
            s,
          )) [
            | inl done ↦
                rw (e, done, store, insert_detox_session)
                  (record {
                    config = refl;
                    policy = refl;
                    started = row_of_session s ∷ [];
                    sessions = refl;
                  })
            | inr (message, failed) ↦
                rw (e, failed, store, insert_detox_session) (SameCore-Grows (SameCore-refl d))
          ]
    ]

module _ (env : Environment) (params : StartDetoxParams) (now : DateTime)
    (again : ClockSample) where
  pub after_start-Keeps : (s : DetoxSession) → Keeps (after_start env params now again s)
  unfolding after_start
  after_start-Keeps s = and_then-Keeps (record_event-Keeps _ _ _ _) (λ _.
      and_then-Keeps (repair_hosts-Keeps env now again.wall.utc)
        (λ _. and_then-Keeps (repair_chromium-Keeps env again) (λ _. give-Keeps (some s))))

  insert_session-Grows :
      (s : Option DetoxSession) (d : Daemon) → Grows d (insert_session env params now again s d).0
  unfolding insert_session and_then
  insert_session-Grows none d = SameCore-Grows ((give-Keeps none).kept d)
  insert_session-Grows (some s) d =
      follow-Grows d (store (insert_detox_session s) d) _ (insert-Grows s d) after_start-Keeps

  started-Grows :
      (r : Outcome (Option DetoxSession)) (d : Daemon)
      → Grows d (follow (d, r) (insert_session env params now again)).0
  started-Grows (err e) d = SameCore-Grows (SameCore-refl d)
  started-Grows (ok s) d = insert_session-Grows s d

  pub start_detox_method-Grows :
      (d : Daemon) → Grows d (start_detox_method env params now again d).0
  unfolding start_detox_method and_then ask
  start_detox_method-Grows d = started-Grows _ d

  -- The handler of the request.
  pub start-Grows :
      (d : Daemon) → Grows d (and_then (start_detox_method env params now again) (λ _. give tt) d).0
  unfolding and_then
  start-Grows d =
      follow-Grows d (start_detox_method env params now again d) _ (start_detox_method-Grows d)
        (λ _. give-Keeps tt)
