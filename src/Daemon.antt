-- ===== src/Daemon.antt =====
-- focusd/src/rpc.rs, RpcContext, and focusd/src/error.rs: the daemon's state, its errors, and
-- functions that change the state. A request runs with the core locked, so one after the other; a
-- poisoned lock is left out. What a system call or a call of SQLite answers is part of the state.
pub mod Hosts
pub mod Clock
pub mod Access
pub mod Save
pub mod Lists
mod Items
pub mod Import
pub mod Schedules
pub mod Browsers
pub mod Works
pub mod Detox
pub mod Requests
use bloc_kuntu.Common.{
  ℕ, zero, suc, ◌+◌, ◌-◌, ◌*◌, ◌/◌, ◌%◌, ◌≤◌, ◌<◌, min, ◌≡◌, refl, sym, ap, ◌∙◌, ◌≢◌, ◌↔◌, ◌⊎◌, inl,
  inr, Bool, true, false, not, ◌&&◌, ◌||◌, Option, none, some, List, [], ◌∷◌, ◌++◌, map, reverse,
  append-nil, append_assoc, arith, ltb, leb, ◌==◌, if◌then◌else◌, ltb→lt, ltb→ge, tests, Bool-cases,
  Option-cases, or-false, same, same_iff, is_some, All, Any, length, any, all, filter, find,
  is_empty, sort_by, Any→any, All-map, Any-map,
}
use bloc_kuntu.Common.Results.{
  Result, ok, err, ok-injective, ◌>>=◌, ◌>>◌, reject_if, for_each, >>=-eq-ok, >>-eq-ok,
  reject_if-eq-ok, for_each-eq-ok,
}
use bloc_kuntu.Text.{Text}
use bloc_kuntu.Config.{Config}
use bloc_kuntu.Config.Validate.{ConfigError}
use bloc_kuntu.Types.{Error, Fallible}
use bloc_kuntu.Platform.{Instant, Platform}
use bloc_kuntu.Store.{Database}

-- The items of a policy, in the order in which an import appends them.
pub data ItemKind : Type 0 where
  allowance schedule site_list app_rule : ItemKind

pub data ProtectedAccessMode : Type 0 where
  sunday no_active_schedule_or_detox all_time : ProtectedAccessMode

-- The messages of `DaemonError::InvalidRequest`.
pub data Refusal : Type 0 where
  currently_active in_active_detox : ItemKind → Text → Refusal
  unknown : ItemKind → Text → Refusal
  unknown_detox : Text → Refusal
  -- the allowance, the kind of the list that uses it, and the list
  still_used : Text → ItemKind → Text → Refusal
  foreign_allowance : Refusal
  tier_1_target : ItemKind → Text → Refusal
  import_conflict : ItemKind → Text → Refusal
  zero_duration long_duration no_detox_target uninstall_in_progress : Refusal
  detox_cannot_be_cancelled : Refusal
  clock_tampered invalid_time : Text → Refusal
  invalid_mode invalid_scope : Text → Refusal
  url_limit_exceeded : ℕ → Refusal
  access_closed : ProtectedAccessMode → Refusal
  no_credential wrong_credential : Refusal

pub data DaemonError : Type 0 where
  core : Error → DaemonError
  config : ConfigError → DaemonError
  io : Text → DaemonError
  policy_persistence_rollback : Text → Text → DaemonError
  invalid_request : Refusal → DaemonError

abbrev pub Outcome : Type 0 → Type 0
Outcome A = Result DaemonError A

abbrev pub refuse : {A : Type 0} → Refusal → Outcome A
refuse reason = err (DaemonError.invalid_request reason)

-- `?` on a result of focus_core.
abbrev pub from_core : {A : Type 0} → Fallible A → Outcome A
from_core (ok a) = ok a
from_core (err e) = err (DaemonError.core e)

-- `a && b?`: `b` is asked only where `a` holds.
abbrev pub ◌&&?◌ : Bool → Outcome Bool → Outcome Bool
true &&? b = b
false &&? b = ok false

infixl 6 ◌&&?◌
-- The calls of the operating system.
pub data IoCall : Type 0 where
  lock_recovery publish_recovery roll_back_recovery : IoCall
  read_hosts write_hosts clear_hosts_flag read_hosts_flag set_hosts_flag : IoCall
  sample_clock read_edit_key repair_browsers : IoCall

-- A file is replaced by renaming another, and steps follow that may fail too.
pub data IoResult : Type 0 where
  done : IoResult
  failed failed_late : Text → IoResult

-- `HostsManager`, with the file and its immutable flag; `none` is a file that is not there.
pub record HostsFile : Type 0 where
  pub contents : Option Text
  pub enforce_immutable : Bool
  pub immutable : Bool

-- `recovery` is the policy in the snapshot file where the daemon keeps one, `edit_key` the first
-- line of the key file that is not blank, `has_chromium_policies` whether the daemon was given policies
-- of Chromium browsers to manage.
pub record Daemon : Type 0 where
  pub config : Config
  pub database : Database
  pub recovery : Option Config
  pub hosts : Option HostsFile
  pub edit_key : Option Text
  pub has_chromium_policies : Bool
  pub answer : IoCall → IoResult

-- A function of the daemon that may fail; what it changed before stays changed.
abbrev pub Action : Type 0 → Type 0
Action A = Daemon → Daemon × Outcome A

abbrev pub follow : {A B : Type 0} → Daemon × Outcome A → (A → Action B) → Daemon × Outcome B
follow (d, err e) rest = (d, err e)
follow (d, ok a) rest = rest a d

-- `first?` and then the rest.
unfoldable pub and_then : {A B : Type 0} → Action A → (A → Action B) → Action B
and_then first rest d = follow (first d) rest

-- `Ok(a)`
unfoldable pub give : {A : Type 0} → A → Action A
give a d = (d, ok a)

-- A call that changes nothing.
unfoldable pub ask : {A : Type 0} → (Daemon → Outcome A) → Action A
ask read d = (d, read d)

unfoldable pub system : IoCall → Action (Unit {0})
system call d = elim (d.answer call) [
  | done ↦ (d, ok tt)
  | failed message ↦ (d, err (DaemonError.io message))
  | failed_late message ↦ (d, err (DaemonError.io message))
]

-- A call that writes to the database.
unfoldable pub store : {A : Type 0} → (Database → Database × Fallible A) → Action A
store write d =
    let result = write d.database in (record d { database = result.0 }, from_core result.1)

-- What the daemon takes from outside its source beside `Platform`: RFC 3339 texts, the texts of an
-- uptime in milliseconds, and the SHA-256 of a salt and a phrase.
pub record Environment : Type 0 where
  pub platform : Platform
  pub to_rfc3339 : Instant → Text
  pub parse_rfc3339 : Text → Option Instant
  pub uptime_text : ℕ → Text
  pub parse_uptime : Text → Option ℕ
  pub credential_hash : Text → Text → Text

pub from_core-eq-ok : {A : Type 0} (r : Fallible A) (a : A) → from_core r ≡ ok a → r ≡ ok a
from_core-eq-ok (ok b) a h = ground arith
from_core-eq-ok (err e) a h = cc

module _ {A B : Type 0} where
  -- A chain that returns a value got one from its first step.
  pub follow-eq-ok :
      (out : Daemon × Outcome A) (rest : A → Action B) (b : B)
      → (follow out rest).1 ≡ ok b
      → (a : A) × (out.1 ≡ ok a) × ((rest a out.0).1 ≡ ok b)
  follow-eq-ok (d, err e) rest b h = cc
  follow-eq-ok (d, ok a) rest b h = (a, refl, h)

  pub follow-state :
      (out : Daemon × Outcome A) (rest : A → Action B) (a : A)
      → out.1 ≡ ok a
      → follow out rest ≡ rest a out.0
  follow-state (d, err e) rest a h = cc
  follow-state (d, ok b) rest a h = ap (λ x. rest x d) (ok-injective h)
