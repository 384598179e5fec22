-- ===== src/Scenarios/Requests.antt =====
-- focusd/src: requests to the sample daemon.
use bloc_kuntu.Common.{
  ◌≡◌, refl, ◌≢◌, ◌↔◌, false, none, some, List, [], ◌∷◌, ◌++◌, arith, if◌then◌else◌,
}
use bloc_kuntu.Config.{RuleConfig}
use mathlib.Core.List.{Memᴰ}
use bloc_kuntu.Text.{lit, text_eq}
use bloc_kuntu.Types.{Decision}
use bloc_kuntu.Store.{DetoxRow, format_time}
use bloc_kuntu.Policy.Evaluate.{evaluate_url}
use bloc_kuntu.Config.Validate.Links.{validate-IsValid}
use bloc_kuntu.Daemon.{Daemon}
use bloc_kuntu.Daemon.Requests.{
  upsert_site_list, delete_site_list, delete_schedule, cancel_detox, Call, after_calls,
}
use bloc_kuntu.Daemon.Requests.Keeps.{SameCore}
use bloc_kuntu.Daemon.Requests.Enforced.{after_calls-blocks_url, after_calls-sessions}
use bloc_kuntu.Daemon.Requests.Consistent.{IsConsistent, after_calls-IsConsistent}
use bloc_kuntu.Daemon.Requests.Latched.{after_calls-latched}
use bloc_kuntu.Daemon.Clock.{status_key, status_tampered, compare_sample}
use bloc_kuntu.Daemon.Clock.Latch.{IsTampered}
use bloc_kuntu.Daemon.Clock.Drift.{IsHonest, compare_sample-none_iff}
use mathlib.Core.List.Permᴰ
use bloc_kuntu.Scenarios.{
  sample_platform, sample_config, sample_database, news, news_domain, evening,
}
use bloc_kuntu.Scenarios.Decisions.{news_page, news_url, parse_news, news_applies}
use bloc_kuntu.Scenarios.Policies.{sample_accepted}
use bloc_kuntu.Scenarios.Machine.{sample_environment, sample_daemon, at, sample_at, call_at}

-- The list without its pattern for subdomains.
abbrev less_news : RuleConfig
less_news = record news { patterns = record news_domain { match_subdomains = false } ∷ [] }

-- Requests in the evening, while the session runs: none of them may get the list out of the way.
abbrev evening_calls : List Call
evening_calls =
    call_at 18 30 (delete_site_list (lit "news"))
    ∷ call_at 18 31 (upsert_site_list none less_news)
    ∷ call_at 18 32 (delete_schedule (lit "work"))
    ∷ call_at 18 33 (cancel_detox (lit "evening"))
    ∷ []

abbrev after_evening : Daemon
after_evening = after_calls sample_environment evening_calls sample_daemon

after_calls-blocks_url_example :
    evaluate_url sample_platform
      (record {
        config = after_evening.config;
        database = after_evening.database;
        now = at 19 0;
        clock_tampered = false;
      })
      news_page
    ≢ Decision.allow
unfolding format_time text_eq
after_calls-blocks_url_example =
    after_calls-blocks_url sample_environment evening_calls sample_daemon evening news news_page
      news_url (at 19 0) false parse_news refl refl news_applies (Memᴰ.head refl) refl
      (
        (refl, omega arith, omega arith),
        (
          (refl, omega arith, omega arith),
          ((refl, omega arith, omega arith), ((refl, omega arith, omega arith), tt)),
        ),
      )
      (refl, omega arith, omega arith)

after_calls-sessions_example :
    (started : List DetoxRow) × (after_evening.database.detox_sessions
      ≡ sample_daemon.database.detox_sessions ++ started)
after_calls-sessions_example = after_calls-sessions sample_environment evening_calls sample_daemon

after_calls-IsConsistent_example : IsConsistent after_evening
after_calls-IsConsistent_example =
    after_calls-IsConsistent sample_environment evening_calls sample_daemon (record {
      valid = validate-IsValid sample_platform sample_config sample_accepted;
      stored = record {
        rules = Permᴰ.refl _;
        app_rules = Permᴰ.refl _;
        schedules = Permᴰ.refl _;
        allowances = Permᴰ.refl _;
        strict_mode = refl;
      };
    })

-- The sample with a clock that went back.
abbrev tampered_daemon : Daemon
tampered_daemon = record sample_daemon {
  database = record sample_database {
    service_states = λ key. if text_eq key status_key then some status_tampered else none;
  };
}

is_tampered : IsTampered tampered_daemon.database
unfolding text_eq
is_tampered = refl

after_calls-latched_example :
    SameCore tampered_daemon (after_calls sample_environment evening_calls tampered_daemon)
    × IsTampered (after_calls sample_environment evening_calls tampered_daemon).database
after_calls-latched_example =
    after_calls-latched sample_environment evening_calls tampered_daemon is_tampered

compare_sample-none_iff_example :
    (compare_sample (sample_at 12 0) (at 11 0).utc (lit "boot") 39_600_000 ≡ none)
    ↔ IsHonest (sample_at 12 0) (at 11 0).utc (lit "boot") 39_600_000
compare_sample-none_iff_example =
    compare_sample-none_iff (sample_at 12 0) (at 11 0).utc (lit "boot") 39_600_000
