-- ===== src/Daemon/Requests/Consistent.antt =====
-- focusd/src/rpc.rs with focus-core/src/core.rs: the policy in force and the stored one.
use bloc_kuntu.Common.{◌≡◌, refl, sym, inl, inr, List, [], ◌∷◌}
use mathlib.Core.Path.{subst}
use bloc_kuntu.Common.Members.{IsPermutation, sort_by-IsPermutation}
use bloc_kuntu.Config.{Config}
use bloc_kuntu.Store.Services.{rows_of}
use bloc_kuntu.Config.Validate.Links.{IsValid, validate-IsValid}
use bloc_kuntu.Daemon.{Daemon, Environment}
use bloc_kuntu.Daemon.Requests.{Call, call, after_calls}
use bloc_kuntu.Daemon.Requests.Handled.{HasEffect, call-HasEffect}

-- The tables hold the items of the policy, each once; they do not keep the order of its lists.
pub record IsStored (stored config : Config) : Type 0 where
  pub rules : IsPermutation stored.rules config.rules
  pub app_rules : IsPermutation stored.app_rules config.app_rules
  pub schedules : IsPermutation stored.schedules config.schedules
  pub allowances : IsPermutation stored.allowances config.allowances
  pub strict_mode : stored.strict_mode ≡ config.strict_mode

pub rows_of-IsStored : (config : Config) → IsStored (rows_of config) config
rows_of-IsStored config = record {
  rules = sort_by-IsPermutation _ config.rules;
  app_rules = sort_by-IsPermutation _ config.app_rules;
  schedules = sort_by-IsPermutation _ config.schedules;
  allowances = sort_by-IsPermutation _ config.allowances;
  strict_mode = refl;
}

-- The policy in force is valid, and the database holds its items.
pub record IsConsistent (d : Daemon) : Type 0 where
  pub valid : IsValid d.config
  pub stored : IsStored d.database.policy d.config

module _ (env : Environment) where
  call-IsConsistent :
      (c : Call) (d d' : Daemon) → HasEffect env c d d' → IsConsistent d → IsConsistent d'
  call-IsConsistent c d d' (inl grown) h = record {
    valid = subst IsValid (sym grown.config) h.valid;
    stored =
        subst (IsStored d'.database.policy) (sym grown.config)
          (subst (λ stored. IsStored stored d.config) (sym grown.policy) h.stored);
  }
  call-IsConsistent c d d' (inr changed) h = record {
    valid =
        subst IsValid (sym changed.installed.config)
          (validate-IsValid env.platform changed.next changed.valid);
    stored = subst (IsStored d'.database.policy) (sym changed.installed.config) (
        subst (λ stored. IsStored stored changed.next) (sym changed.installed.policy)
          (rows_of-IsStored changed.next));
  }

  -- Over any requests, whatever SQLite and the operating system answer, a policy in force that is
  -- valid and whose items are the stored ones stays so.
  pub after_calls-IsConsistent :
      (cs : List Call) (d : Daemon) → IsConsistent d → IsConsistent (after_calls env cs d)
  unfolding after_calls
  after_calls-IsConsistent [] d h = h
  after_calls-IsConsistent (c ∷ cs) d h =
      after_calls-IsConsistent cs (call env c d).0
        (call-IsConsistent c d _ (call-HasEffect env c d) h)
