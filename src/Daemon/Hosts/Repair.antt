-- ===== src/Daemon/Hosts/Repair.antt =====
-- focusd/src/hosts.rs, HostsManager: writing the hosts file.
use bloc_kuntu.Common.{Bool, true, false, ◌&&◌, none, some, List, [], if◌then◌else◌, is_some}
use bloc_kuntu.Common.Results.{ok, err}
use bloc_kuntu.Text.{Text, text_eq}
use bloc_kuntu.Config.{Config}
use bloc_kuntu.Types.{DetoxSession}
use bloc_kuntu.Platform.{DateTime, Chrono}
use bloc_kuntu.Daemon.{
  Daemon, DaemonError, Action, and_then, give, system, IoCall, HostsFile, read_hosts, write_hosts,
  clear_hosts_flag, read_hosts_flag, set_hosts_flag, done, failed, failed_late,
}
use bloc_kuntu.Daemon.Hosts.{
  HostsRepairStatus, already_compliant, repaired, managed_domains_with_active_detox,
  render_managed_block, replace_managed_block, normalize_line_endings,
}

-- The file as it is read: a file that is not there is empty.
abbrev pub current_text : HostsFile → Text
current_text f = elim f.contents [ none ↦ [] | some text ↦ text ]

abbrev pub put_hosts : HostsFile → Daemon → Daemon
put_hosts f d = record d { hosts = some f }

-- The new file has no immutable flag. The contents are in place once the file is renamed; setting
-- its mode comes after.
unfoldable pub write_hosts_atomically : HostsFile → Text → Action HostsFile
write_hosts_atomically f text d =
    let f' = record f { contents = some text; immutable = false } in
    elim (d.answer write_hosts) [
      | done ↦ (put_hosts f' d, ok f')
      | failed message ↦ (d, err (DaemonError.io message))
      | failed_late message ↦ (put_hosts f' d, err (DaemonError.io message))
    ]

unfoldable pub set_immutable : IoCall → Bool → HostsFile → Action HostsFile
set_immutable call enabled f =
    let f' = record f { immutable = enabled } in
    and_then (system call) (λ _ d. (put_hosts f' d, ok f'))

unfoldable pub clear_immutable_if_needed : HostsFile → Action HostsFile
clear_immutable_if_needed f =
    if f.enforce_immutable && is_some f.contents
    then set_immutable clear_hosts_flag false f
    else give f

-- The file afterwards, and whether it was written.
unfoldable pub write_expected : Text → HostsFile → Action (HostsFile × Bool)
unfolding clear_immutable_if_needed
write_expected expected f =
    if text_eq (normalize_line_endings (current_text f)) (normalize_line_endings expected)
    then give (f, false)
    else and_then (clear_immutable_if_needed f)
        (λ g. and_then (write_hosts_atomically g expected) (λ g'. give (g', true)))

unfoldable pub make_immutable : HostsFile × Bool → Action HostsRepairStatus
make_immutable (f, changed) =
    let status = if changed then repaired else already_compliant in
    if f.enforce_immutable
    then and_then (system read_hosts_flag) (λ _.
      if f.immutable
      then give status
      else and_then (set_immutable set_hosts_flag true f) (λ _. give repaired))
    else give status

unfoldable pub verify_and_repair_with_active_detox :
    Chrono → Config → List DetoxSession → DateTime → Bool → HostsFile → Action HostsRepairStatus
unfolding write_expected make_immutable
verify_and_repair_with_active_detox c config sessions now clock_tampered f =
    let domains = managed_domains_with_active_detox c config now clock_tampered sessions in
    let expected = replace_managed_block (current_text f) (render_managed_block domains) in
    and_then (system read_hosts) (λ _. and_then (write_expected expected f) make_immutable)
