-- ===== src/Daemon/Save/Consistent.antt =====
-- focusd/src/rpc.rs, persist_policy_config: the snapshot file and the database when a write fails.
use bloc_kuntu.Common.{◌≡◌, some, arith}
use bloc_kuntu.Common.Results.{err}
use bloc_kuntu.Config.{Config}
use bloc_kuntu.Types.{Error}
use bloc_kuntu.Store.Services.{replace_policy_config, replace_policy_config-failed}
use bloc_kuntu.Daemon.{
  DaemonError, Daemon, and_then, store, done, publish_recovery, roll_back_recovery, Environment,
}
use bloc_kuntu.Daemon.Save.{
  snapshot_answer, write_recovery, report, roll_back, settle, replace_stored, write_policy,
}

module _ (env : Environment) (d : Daemon) (previous next : Config) where
  -- The daemon with a snapshot of the policy that is in force.
  abbrev pub with_snapshot : Daemon
  with_snapshot = record d { recovery = some previous }

  -- Where the new policy cannot be written to the database, and the snapshot file can be written, the
  -- daemon and its files are as they were, the snapshot too, and the error is that of the write.
  pub write_policy-rolls_back :
      (e : Error)
      → d.answer publish_recovery ≡ done
      → d.answer roll_back_recovery ≡ done
      → (replace_policy_config env.platform next d.database).1 ≡ err e
      → write_policy env previous next with_snapshot ≡ (with_snapshot, err (DaemonError.core e))
  unfolding write_policy and_then write_recovery snapshot_answer replace_stored settle roll_back
      report store
  write_policy-rolls_back e published rolled refused =
      let same = replace_policy_config-failed env.platform next d.database e refused in
      ground (arith, published, rolled, same)
