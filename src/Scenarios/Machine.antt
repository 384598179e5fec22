-- ===== src/Scenarios/Machine.antt =====
-- focusd/src: a daemon on the sample policy, and its machine.
use bloc_kuntu.Common.{ℕ, ◌+◌, ◌*◌, true, Option, none, some, [], ◌∷◌, ◌++◌}
use bloc_kuntu.Text.{Text, lit}
use bloc_kuntu.Platform.{DateTime}
use bloc_kuntu.Daemon.{Daemon, Environment, HostsFile, done}
use bloc_kuntu.Daemon.Clock.{ClockSample}
use bloc_kuntu.Daemon.Requests.{Request, Call}
use bloc_kuntu.Scenarios.{sample_platform, sample_config, sample_database, hour_length}

abbrev read_one : Text → Option ℕ
read_one [] = none
read_one (n ∷ s) = some n

-- A stand-in that writes a number as one sign.
abbrev pub sample_environment : Environment
sample_environment = record {
  platform = sample_platform;
  to_rfc3339 = λ t. t ∷ [];
  parse_rfc3339 = read_one;
  uptime_text = λ n. n ∷ [];
  parse_uptime = read_one;
  credential_hash = λ salt phrase. salt ++ phrase;
}

abbrev pub sample_hosts : HostsFile
sample_hosts = record {
  contents = some (lit "127.0.0.1 localhost");
  enforce_immutable = true;
  immutable = true;
}

abbrev pub sample_daemon : Daemon
sample_daemon = record {
  config = sample_config;
  database = sample_database;
  recovery = some sample_config;
  hosts = some sample_hosts;
  edit_key = some (lit "let me edit lists");
  has_chromium_policies = true;
  answer = λ _. done;
}

abbrev pub at : ℕ → ℕ → DateTime
at hour minute = record { utc = hour * hour_length + minute * 60_000_000_000; offset = 0 }

abbrev pub sample_at : ℕ → ℕ → ClockSample
sample_at hour minute = record {
  wall = at hour minute;
  boot_id = lit "boot";
  boottime = hour * 3_600_000 + minute * 60_000;
}

abbrev pub call_at : ℕ → ℕ → Request → Call
call_at hour minute request = record {
  request = request;
  sample = sample_at hour minute;
  later = sample_at hour minute;
  failure = λ _. none;
  answer = λ _. done;
}
