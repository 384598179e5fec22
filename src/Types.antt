-- ===== src/Types.antt =====
-- focus-core/src/types.rs and focus-core/src/error.rs: decisions, their reasons, and errors.
use bloc_kuntu.Common.{ℕ, Bool, true, false, Option, List}
use bloc_kuntu.Common.Results.{Result}
use bloc_kuntu.Text.{Text}
use bloc_kuntu.Platform.{Instant}
use bloc_kuntu.Config.Validate.{ConfigError}

pub data UnlockError : Type 0 where
  empty_target empty_reason : UnlockError
  reason_too_short : ℕ → ℕ → UnlockError
  reason_already_used : UnlockError
  unknown_target target_is_hard_blocked target_is_scheduled_blocked : Text → UnlockError
  -- the rule, the session, and when it ends
  target_in_active_detox : Text → Text → Instant → UnlockError
  unlock_already_active : Text → Instant → UnlockError
  hourly_quota_exceeded : ℕ → UnlockError

-- `database` carries the message of SQLite; `panicked` stands for an index out of range.
pub data Error : Type 0 where
  database : Text → Error
  config : ConfigError → Error
  url : Error
  unlock_requires_rule : Error
  unlock : UnlockError → Error
  panicked : Error

abbrev pub Fallible : Type 0 → Type 0
Fallible A = Result Error A

pub data ControlledBlockReason : Type 0 where
  no_allowance allowance_exhausted unlock_required : ControlledBlockReason

pub data DetoxTargetKind : Type 0 where
  site_rule app_rule : DetoxTargetKind

-- The message of `runtime_error` is kept as the error that it is printed from.
pub data BlockReason : Type 0 where
  invalid_url : Text → BlockReason
  detox : Text → Option Text → Text → Text → DetoxTargetKind → Instant → BlockReason
  hard_block scheduled_block : Text → Text → BlockReason
  controlled_access : Text → Text → ControlledBlockReason → BlockReason
  runtime_error : Error → BlockReason

pub data Decision : Type 0 where
  allow : Decision
  block : BlockReason → Decision

abbrev pub is_block : Decision → Bool
is_block Decision.allow = false
is_block (Decision.block r) = true

pub record DetoxSession : Type 0 where
  pub id : Text
  pub name : Option Text
  pub starts_at : Instant
  pub ends_at : Instant
  pub cancelled_at : Option Instant
  pub site_rule_ids : List Text
  pub app_rule_ids : List Text

pub record UnlockState : Type 0 where
  pub id : ℕ
  pub target : Text
  pub rule_id : Text
  pub rule_ids : List Text
  pub minutes : ℕ
  pub reason : Text
  pub started_at : Instant
  pub expires_at : Instant

pub record VisitState : Type 0 where
  pub id : ℕ
  pub target : Text
  pub rule_id : Option Text
  pub url : Text
  pub tab_id : Text
  pub started_at : Instant
  pub last_heartbeat_at : Instant
  pub ended_at : Option Instant

pub record AllowanceStatus : Type 0 where
  pub rule_id : Text
  pub rule_name : Text
  pub remaining_seconds : ℕ

pub record ProcessIdentity : Type 0 where
  pub pid : Option ℕ
  pub executable_path : Option Text
  pub executable_basename : Option Text
  pub command_name : Option Text
  pub desktop_id : Option Text
  pub window_titles : List Text
