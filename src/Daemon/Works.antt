-- ===== src/Daemon/Works.antt =====
-- focusd/src/rpc.rs and focusd/src/hosts.rs: actions that succeed as long as no call does fail.
use bloc_kuntu.Common.{
  ◌≡◌, refl, ap, ◌∙◌, inl, inr, Bool, true, false, Option, none, some, if◌then◌else◌, Bool-cases,
}
use bloc_kuntu.Common.Results.{ok, err}
use bloc_kuntu.Text.{Text, lit}
use bloc_kuntu.Platform.{Instant, DateTime}
use bloc_kuntu.Store.{
  Database, Query, commit, attempt-done, read_service_state, read_active_detox, write_event,
  record_event,
}
use bloc_kuntu.Store.Services.{service_state}
use bloc_kuntu.Store.Detox.{active_detox_sessions}
use bloc_kuntu.Daemon.{
  Outcome, Daemon, Action, follow, and_then, give, ask, system, store, from_core, IoCall, done,
  Environment, HostsFile, read_hosts_flag, set_hosts_flag, read_hosts, clear_hosts_flag,
  write_hosts,
}
use bloc_kuntu.Daemon.Access.{
  uninstall_handoff_active, is_text, browser_extension_mode_key, uninstalling_until_key,
  read_instant, is_later,
}
use bloc_kuntu.Daemon.Hosts.{repaired}
use bloc_kuntu.Daemon.Hosts.Repair.{
  verify_and_repair_with_active_detox, write_expected, make_immutable, clear_immutable_if_needed,
  set_immutable, write_hosts_atomically,
}
use bloc_kuntu.Daemon.Save.{repair_hosts_after_policy_change, repair_with, repair_from}

-- Neither SQLite nor the operating system fails a call.
pub record IsFine (d : Daemon) : Type 0 where
  pub calls : (q : Query) → d.database.failure q ≡ none
  pub answers : (c : IoCall) → d.answer c ≡ done

-- What it returned is a value.
abbrev pub IsOk : {A : Type 0} → Outcome A → Type 0
IsOk {A} r = (a : A) × (r ≡ ok a)

-- The action returns a value, and calls do not fail afterwards either.
pub record Works {A : Type 0} (m : Action A) : Type 0 where
  pub works : (d : Daemon) → IsFine d → IsOk (m d).1 × IsFine (m d).0

pub give-Works : {A : Type 0} (a : A) → Works (give a)
unfolding give
give-Works a = record { works = λ d fine. ((a, refl), fine) }

pub ask-Works :
    {A : Type 0} (read : Daemon → Outcome A)
    → ((d : Daemon) → IsFine d → IsOk (read d))
    → Works (ask read)
unfolding ask
ask-Works read reads = record { works = λ d fine. (reads d fine, fine) }

follow-IsOk :
    {A B : Type 0} (out : Daemon × Outcome A) (rest : A → Action B)
    → IsOk out.1 × IsFine out.0
    → ((a : A) → Works (rest a))
    → IsOk (follow out rest).1 × IsFine (follow out rest).0
follow-IsOk (d, err e) rest ((a, h), fine) others = cc
follow-IsOk (d, ok a) rest (first, fine) others = (others a).works d fine

pub and_then-Works :
    {A B : Type 0} {first : Action A} {rest : A → Action B}
    → Works first
    → ((a : A) → Works (rest a))
    → Works (and_then first rest)
unfolding and_then
and_then-Works {first} {rest} w ws = record {
  works = λ d fine. follow-IsOk (first d) rest (w.works d fine) ws;
}

pub if-Works :
    {A : Type 0} {m n : Action A} (b : Bool) → Works m → Works n → Works (if b then m else n)
if-Works true w w' = w
if-Works false w w' = w'

system_works : (c : IoCall) (d : Daemon) → IsFine d → IsOk (system c d).1 × IsFine (system c d).0
unfolding system
system_works c d fine = rw (fine.answers c, system) ((tt, refl), fine)

pub system-Works : (c : IoCall) → Works (system c)
system-Works c = record { works = system_works c }

module _ {A : Type 0} (q : Query) (change : Database → Database × A)
    (failure : (db : Database) → (change db).0.failure ≡ db.failure) where
  store_works :
      (d : Daemon)
      → IsFine d
      → IsOk (store (λ db. commit db q (change db)) d).1
        × IsFine (store (λ db. commit db q (change db)) d).0
  unfolding store
  store_works d fine =
      rw (commit, fine.calls q)
        (
          ((change d.database).1, refl),
          record {
            calls = λ p. ap (λ f. f p) (failure d.database) ∙ fine.calls p;
            answers = fine.answers;
          },
        )

  -- A write that the database takes.
  pub store-Works : Works (store (λ db. commit db q (change db)))
  store-Works = record { works = store_works }

pub record_event-Works :
    (kind : Text) (target details : Option Text) (now : Instant)
    → Works (store (record_event kind target details now))
unfolding record_event
record_event-Works kind target details now = store-Works write_event _ (λ db. refl)

service_state-fine :
    (key : Text) (d : Daemon)
    → IsFine d
    → service_state key d.database ≡ ok (d.database.service_states key)
unfolding service_state
service_state-fine key d fine =
    attempt-done d.database (read_service_state key) _ (fine.calls (read_service_state key))

module _ (env : Environment) where
  uninstall_handoff_active-IsOk :
      (checked_at : Instant) (d : Daemon)
      → IsFine d
      → IsOk (uninstall_handoff_active env d.database checked_at)
  unfolding uninstall_handoff_active
  uninstall_handoff_active-IsOk checked_at d fine =
      let mode = service_state-fine browser_extension_mode_key d fine in
      let until = service_state-fine uninstalling_until_key d fine in
      elim (Bool-cases
        (is_text (lit "uninstalling") (d.database.service_states browser_extension_mode_key))) [
          | inl e ↦ (
            is_later checked_at
                (read_instant env (d.database.service_states uninstalling_until_key)),
            rw (uninstall_handoff_active, mode, e, until) refl,
          )
          | inr e ↦ (false, rw (uninstall_handoff_active, mode, e) refl)
        ]

  active_detox_sessions-IsOk :
      (now : DateTime) (d : Daemon)
      → IsFine d
      → IsOk (from_core (active_detox_sessions now.utc d.database))
  unfolding active_detox_sessions
  active_detox_sessions-IsOk now d fine =
      (_, ap from_core (attempt-done d.database read_active_detox _ (fine.calls read_active_detox)))

  write_hosts_atomically_works :
      (f : HostsFile) (text : Text) (d : Daemon)
      → IsFine d
      → IsOk (write_hosts_atomically f text d).1 × IsFine (write_hosts_atomically f text d).0
  unfolding write_hosts_atomically
  write_hosts_atomically_works f text d fine =
      rw (fine.answers write_hosts, write_hosts_atomically)
        ((_, refl), record { calls = fine.calls; answers = fine.answers })

  set_immutable-Works :
      (c : IoCall) (enabled : Bool) (f : HostsFile) → Works (set_immutable c enabled f)
  unfolding set_immutable
  set_immutable-Works c enabled f = and_then-Works (system-Works c) (λ _. record {
    works = λ d fine. ((_, refl), record { calls = fine.calls; answers = fine.answers });
  })

  clear_immutable-Works : (f : HostsFile) → Works (clear_immutable_if_needed f)
  unfolding clear_immutable_if_needed
  clear_immutable-Works f = if-Works _ (set_immutable-Works clear_hosts_flag false f) (give-Works f)

  write_expected-Works : (expected : Text) (f : HostsFile) → Works (write_expected expected f)
  unfolding write_expected
  write_expected-Works expected f = if-Works _ (give-Works _) (
      and_then-Works (clear_immutable-Works f) (λ g.
        and_then-Works (record { works = write_hosts_atomically_works g expected })
          (λ g'. give-Works _)))

  make_immutable-Works : (written : HostsFile × Bool) → Works (make_immutable written)
  unfolding make_immutable
  make_immutable-Works (f, changed) =
      if-Works _
        (and_then-Works (system-Works read_hosts_flag) (λ _.
          if-Works _ (give-Works _) (
            and_then-Works (set_immutable-Works set_hosts_flag true f) (λ _. give-Works repaired))))
        (give-Works _)

  repair_with-Works :
      (f : HostsFile) (now : DateTime) (checked_at : Instant)
      → Works (repair_with env f now checked_at)
  unfolding repair_with verify_and_repair_with_active_detox
  repair_with-Works f now checked_at =
      and_then-Works (ask-Works _ (uninstall_handoff_active-IsOk checked_at)) (λ uninstalling.
        if-Works uninstalling (give-Works _) (
          and_then-Works (ask-Works _ (active_detox_sessions-IsOk now)) (λ sessions.
            and_then-Works
              (record {
                works = λ d.
                    (and_then-Works (system-Works read_hosts)
                        (λ _. and_then-Works (write_expected-Works _ f) make_immutable-Works)).works
                      d;
              })
              (λ status. give-Works (some status)))))

  repair_from-Works :
      (hosts : Option HostsFile) (now : DateTime) (checked_at : Instant)
      → Works (repair_from env hosts now checked_at)
  unfolding repair_from
  repair_from-Works none now checked_at = give-Works none
  repair_from-Works (some f) now checked_at = repair_with-Works f now checked_at

  pub repair_hosts-Works :
      (now : DateTime) (checked_at : Instant)
      → Works (repair_hosts_after_policy_change env now checked_at)
  unfolding repair_hosts_after_policy_change
  repair_hosts-Works now checked_at = record {
    works = λ d. (repair_from-Works d.hosts now checked_at).works d;
  }
