-- ===== src/Lib.antt =====
-- BlocKuntu keeps a person away from websites and applications that they chose to block. A daemon
-- holds a policy of lists in three tiers: Tier 1 lists always block, Tier 2 lists block while a
-- schedule or a Detox session says so, and Tier 3 lists are metered by an allowance and may be
-- opened for two minutes by a manual unlock. This development models the policy engine of
-- focus-core, the tables that it reads and writes, and the daemon (focusd) as far as its requests
-- change the policy, start a Detox session or open the window for edits: each request passes the
-- guard of the clock, is told harmless or refused, is saved to the snapshot and the database, and
-- repairs the hosts file.
--
-- Files and the code they model:
--   Config            focus-core/src/config.rs, the data types and their derived ==
--   Config/Time       focus-core/src/config.rs, Weekday, ScheduleDay and TimeOfDay
--   Config/Validate   focus-core/src/config.rs, Config::validate; Sound and Links hold its proofs
--   Config/Legacy     focus-core/src/config.rs, normalize_legacy_website_allowlists
--   Types             focus-core/src/types.rs and focus-core/src/error.rs
--   Store             focus-core/src/db.rs: Unlocks, Detox, Visits and AppUsage, the tables that the
--                     engine uses, and Services, those of the daemon, with a function for each
--                     query; Visits/Open, Unlocks/Granted and Unlocks/Revoked hold proofs
--   Policy/Matching   focus-core/src/policy.rs, pattern_matches to NormalizedUrl
--   Policy/Schedule   focus-core/src/policy.rs, schedule_is_active, schedule_ids_are_active_at
--   Policy/Activity   focus-core/src/policy.rs, which lists match, which are active, Detox
--   Policy/Usage      focus-core/src/policy.rs, active seconds, visits and allowances; Collected,
--                     Windows, Merging and Bounds hold proofs
--   Policy/Evaluate   focus-core/src/policy.rs, evaluate_url and evaluate_app; its children hold the
--                     theorems on their decisions
--   Policy/Unlock     focus-core/src/policy.rs, request_unlock; Resolve finds the lists of a target
--   Policy/Metering   focus-core/src/policy.rs, the visits that the browsers report
--   Edits             focusd/src/rpc.rs, site_list_edit_is_additive to schedule_is_active_at
--   Daemon            the state of the daemon, its errors and the calls of the operating system
--   Daemon/Clock      focusd/src/clock_guard.rs, and guarded_now of focusd/src/rpc.rs; Latch and
--                     Drift hold proofs
--   Daemon/Access     focusd/src/rpc.rs, unlock_tier1_edit_method and protected access; Window holds
--                     the proofs
--   Daemon/Save       focusd/src/rpc.rs, persist_policy_config; replace_config of
--                     focus-core/src/core.rs; write of focusd/src/policy_recovery.rs
--   Daemon/Hosts      focusd/src/hosts.rs, the text of the hosts file; Repair writes it, Block and
--                     Written hold proofs
--   Daemon/Lists      focusd/src/rpc.rs, the requests on website lists, application lists and
--                     allowances: the checks, with the staged policies in Stage and proofs below
--   Daemon/Schedules  focusd/src/rpc.rs, the requests on schedules, and normalized_unique_ids
--   Daemon/Import     focusd/src/rpc.rs, append_policy_config; ensure_mandatory_app_rules of
--                     focusd/src/app.rs
--   Daemon/Browsers   focusd/src/rpc.rs, repair_chromium_policies_for_current_settings; the modes
--                     of focusd/src/chrome_policy.rs
--   Daemon/Detox      focusd/src/rpc.rs, start_detox_method and cancel_detox_method
--   Daemon/Requests   focusd/src/rpc.rs, the requests and sequences of them, with the theorems on
--                     every sequence below
--   Daemon/Works      lemmas on actions that succeed while no call fails
--   Daemon/Items      lemmas on the lookup of items by id
--   Platform          what the program takes from the url crate, chrono and Unicode's tables
--   Text, Common      the methods of str that the program calls, and shared helpers
--   Scenarios         a sample policy and database, with tests
--
-- The engine is PolicyEngine: a policy, a database and a time make the Context of a call. A method
-- that only reads is a function of the context. One that writes returns the new database beside its
-- result, also where it fails. A query is the list function that its SQL text states; which calls
-- SQLite fails is a function in the database, with one outcome for each call and its arguments, so
-- a theorem that names no failure is about all of them. The tables of the policy are kept as they
-- are read back, each ordered by id; replacing them validates the policy first, needs the keys of
-- the tables to be free of duplicates, and revokes the unlocks of lists that are gone.
--
-- A handler of the daemon is an action: a function from the daemon to the daemon afterwards and the
-- outcome. Calls of the operating system and of SQLite have an answer in the state, and a request
-- brings new answers with it, so a theorem on a sequence of requests is about all of them. Requests
-- run one after another, as behind the lock of the daemon, which is never poisoned. A write of the
-- snapshot may fail before or after the file is replaced. The hash of a credential and the texts of
-- times and uptimes are parameters; uptimes are milliseconds. A time that a client sends is
-- ignored, as outside of tests. The writing of the browsers' policy files is one call of the
-- operating system, and the reading of the extensions' heartbeats one of SQLite.
--
-- Instants are nanoseconds since the epoch as natural numbers, and the stored texts of times are
-- microseconds. Subtraction stops at the epoch. Durations, ids and counts are natural numbers,
-- since they are bounded far below their machine types by the lengths of a day and of the tables;
-- the count of unlocks is cut at the range of u32 as the code does. An index out of range is the
-- error `panicked`. Messages of errors are left out where only their kind matters. Every loop of
-- the modelled code goes over a list or a range of days, so recursion is structural and there is no
-- fuel but the number of days, which the period itself gives, and two more: the search for the id
-- of a Detox session has as many rounds as there are sessions and one more, which is proved to be
-- enough, and the digits of a number have the number itself.
--
-- Not modelled: reading and writing TOML and JSON, migrations, notifications, heartbeats, the
-- totals of schedules (only that the call may fail) and the event log file; the numbers in the
-- event of an import; the requests that only report, those for settings of browsers and for
-- diagnostics, and prepare_uninstall; the daemon's loop and socket; process scanning, the status of
-- the hosts file and the removal of its block, the policy files of browsers, the native messaging
-- host, the graphical interface and the browser extensions.
pub mod Common
pub mod Text
pub mod Config
pub mod Platform
pub mod Types
pub mod Store
pub mod Policy
pub mod Edits
pub mod Daemon
pub mod Scenarios
