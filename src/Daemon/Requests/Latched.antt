-- ===== src/Daemon/Requests/Latched.antt =====
-- focusd/src/rpc.rs with focusd/src/clock_guard.rs: requests under a tampered clock.
use bloc_kuntu.Common.{◌≡◌, refl, sym, ap, ◌∙◌, ◌≢◌, List, [], ◌∷◌}
use bloc_kuntu.Common.Results.{ok, err}
use mathlib.Core.Path.{subst}
use bloc_kuntu.Daemon.{
  Outcome, Daemon, Action, follow, and_then, ask, system, sample_clock, Environment,
}
use bloc_kuntu.Daemon.Clock.{update_clock_integrity, check_status, ensure_trusted, guarded}
use bloc_kuntu.Daemon.Clock.Latch.{
  IsTampered, system-database, update_clock_integrity-IsTampered, ensure_trusted-refuses,
}
use bloc_kuntu.Daemon.Requests.{Call, during, call, after_calls}
use bloc_kuntu.Daemon.Requests.Keeps.{SameCore, SameCore-refl, SameCore-trans}
use bloc_kuntu.Daemon.Requests.Parts.{update_clock_integrity-Keeps, ensure_trusted-Keeps}

-- A refusal that leaves the policy, the sessions and the status of the clock as they are.
pub record Refuses (d : Daemon) (out : Daemon × Outcome (Unit {0})) : Type 0 where
  pub same : SameCore d out.0
  pub tampered : IsTampered out.0.database
  pub refused : out.1 ≢ ok tt

Refuses-after :
    {d d' : Daemon} {out : Daemon × Outcome (Unit {0})}
    → SameCore d d'
    → Refuses d' out
    → Refuses d out
Refuses-after p r = record {
  same = SameCore-trans p r.same;
  tampered = r.tampered;
  refused = r.refused;
}

not_reached :
    (d : Daemon) (out : Daemon × Outcome (Unit {0})) (rest : Unit {0} → Action (Unit {0}))
    → Refuses d out
    → Refuses d (follow out rest)
not_reached d (d', err e) rest r = r
not_reached d (d', ok tt) rest r = absurd (r.refused refl)

first_then :
    {A : Type 0} (d : Daemon) (out : Daemon × Outcome A) (rest : A → Action (Unit {0}))
    → SameCore d out.0
    → IsTampered out.0.database
    → ((a : A) → Refuses out.0 (rest a out.0))
    → Refuses d (follow out rest)
first_then d (d', err e) rest p t k = record { same = p; tampered = t; refused = λ h. cc }
first_then d (d', ok a) rest p t k = Refuses-after p (k a)

module _ (env : Environment) where
  ask_database :
      (out : Daemon × Outcome (Unit {0}))
      → (follow out (λ _. ask (λ d. check_status env d.database))).0 ≡ out.0
  unfolding ask
  ask_database (d, err e) = refl
  ask_database (d, ok a) = refl

  ensure_trusted-Refuses : (d : Daemon) → IsTampered d.database → Refuses d (ensure_trusted env d)
  unfolding ensure_trusted and_then
  ensure_trusted-Refuses d t = record {
    same = (ensure_trusted-Keeps env).kept d;
    tampered =
        subst IsTampered
          (sym (
            ap (λ (x : Daemon). x.database) (ask_database (system sample_clock d))
            ∙ system-database env sample_clock d))
          t;
    refused = ensure_trusted-refuses env d t;
  }

  -- A request under a clock that counts as tampered is refused: the policy in force, the stored
  -- policy and the Detox sessions stay as they are, and so does the status, whatever the clocks
  -- read then.
  pub call-Refuses : (c : Call) (d : Daemon) → IsTampered d.database → Refuses d (call env c d)
  unfolding call guarded and_then
  call-Refuses c d t =
      let start = during c d in
      let out = update_clock_integrity env c.sample start in
      first_then d out _
        (SameCore-trans (record { config = refl; policy = refl; sessions = refl })
          ((update_clock_integrity-Keeps env c.sample).kept start))
        (update_clock_integrity-IsTampered env c.sample start t)
        (λ _.
          not_reached out.0 (ensure_trusted env out.0) _
            (ensure_trusted-Refuses out.0 (update_clock_integrity-IsTampered env c.sample start t)))

  -- The status is a latch: under a clock that counts as tampered no sequence of requests changes
  -- the policy in force, the stored one or a Detox session, nor clears the status.
  pub after_calls-latched :
      (cs : List Call) (d : Daemon)
      → IsTampered d.database
      → SameCore d (after_calls env cs d) × IsTampered (after_calls env cs d).database
  unfolding after_calls
  after_calls-latched [] d t = (SameCore-refl d, t)
  after_calls-latched (c ∷ cs) d t =
      let first = call-Refuses c d t in
      let (rest, t') = after_calls-latched cs (call env c d).0 first.tampered in
      (SameCore-trans first.same rest, t')
