-- ===== src/Daemon/Requests/Keeps.antt =====
-- focusd/src/rpc.rs: what the parts of the handlers leave as it is.
use bloc_kuntu.Common.{◌≡◌, refl, ◌∙◌, ◌⊎◌, inl, inr, Bool, true, false, if◌then◌else◌}
use bloc_kuntu.Common.Results.{ok, err}
use bloc_kuntu.Text.{Text}
use bloc_kuntu.Store.{Database, Query, commit, commit-cases}
use bloc_kuntu.Daemon.{
  Outcome, Daemon, Action, follow, and_then, give, ask, system, store, IoCall, IoResult, done,
  failed, failed_late,
}

-- The policy in force, the stored one and the Detox sessions are the same.
pub record SameCore (d d' : Daemon) : Type 0 where
  pub config : d'.config ≡ d.config
  pub policy : d'.database.policy ≡ d.database.policy
  pub sessions : d'.database.detox_sessions ≡ d.database.detox_sessions

pub SameCore-refl : (d : Daemon) → SameCore d d
SameCore-refl d = record { config = refl; policy = refl; sessions = refl }

pub SameCore-trans : {a b c : Daemon} → SameCore a b → SameCore b c → SameCore a c
SameCore-trans p q = record {
  config = q.config ∙ p.config;
  policy = q.policy ∙ p.policy;
  sessions = q.sessions ∙ p.sessions;
}

-- An action that leaves them so, also where it fails.
pub record Keeps {A : Type 0} (m : Action A) : Type 0 where
  pub kept : (d : Daemon) → SameCore d (m d).0

pub give-Keeps : {A : Type 0} (a : A) → Keeps (give a)
unfolding give
give-Keeps a = record { kept = λ d. SameCore-refl d }

pub ask-Keeps : {A : Type 0} (read : Daemon → Outcome A) → Keeps (ask read)
unfolding ask
ask-Keeps read = record { kept = λ d. SameCore-refl d }

pub follow-Keeps :
    {A B : Type 0} (d : Daemon) (out : Daemon × Outcome A) (rest : A → Action B)
    → SameCore d out.0
    → ((a : A) → Keeps (rest a))
    → SameCore d (follow out rest).0
follow-Keeps d (d', err e) rest first others = first
follow-Keeps d (d', ok a) rest first others = SameCore-trans first ((others a).kept d')

pub and_then-Keeps :
    {A B : Type 0} {first : Action A} {rest : A → Action B}
    → Keeps first
    → ((a : A) → Keeps (rest a))
    → Keeps (and_then first rest)
unfolding and_then
and_then-Keeps {first} {rest} k ks = record {
  kept = λ d. follow-Keeps d (first d) rest (k.kept d) ks;
}

pub if-Keeps :
    {A : Type 0} {m n : Action A} (b : Bool) → Keeps m → Keeps n → Keeps (if b then m else n)
if-Keeps true k k' = k
if-Keeps false k k' = k'

pub IoResult-cases :
    (r : IoResult) → (r ≡ done) ⊎ ((t : Text) × (r ≡ failed t)) ⊎ ((t : Text) × (r ≡ failed_late t))
IoResult-cases done = inl refl
IoResult-cases (failed message) = inr (inl (message, refl))
IoResult-cases (failed_late message) = inr (inr (message, refl))

system_kept : (c : IoCall) (d : Daemon) → SameCore d (system c d).0
unfolding system
system_kept c d = elim (IoResult-cases (d.answer c)) [
  | inl e ↦ rw (e, system) (SameCore-refl d)
  | inr (inl (message, e)) ↦ rw (e, system) (SameCore-refl d)
  | inr (inr (message, e)) ↦ rw (e, system) (SameCore-refl d)
]

pub system-Keeps : (c : IoCall) → Keeps (system c)
system-Keeps c = record { kept = system_kept c }

module _ {A : Type 0} (q : Query) (change : Database → Database × A)
    (policy : (db : Database) → (change db).0.policy ≡ db.policy)
    (sessions : (db : Database) → (change db).0.detox_sessions ≡ db.detox_sessions) where
  store_kept : (d : Daemon) → SameCore d (store (λ db. commit db q (change db)) d).0
  unfolding store
  store_kept d = elim (commit-cases d.database q (change d.database)) [
    | inl e ↦
        rw e (record { config = refl; policy = policy d.database; sessions = sessions d.database })
    | inr (message, e) ↦ rw e (SameCore-refl d)
  ]

  -- A write that leaves the tables of the policy and the sessions as they are.
  pub store-Keeps : Keeps (store (λ db. commit db q (change db)))
  store-Keeps = record { kept = store_kept }
