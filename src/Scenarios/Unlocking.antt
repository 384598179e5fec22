-- ===== src/Scenarios/Unlocking.antt =====
-- focus-core/src/policy.rs, request_unlock: requests on the sample.
use bloc_kuntu.Common.{
  ◌+◌, ◌*◌, ◌≡◌, refl, ap, ◌≢◌, false, Option, none, List, [], ◌∷◌, arith, All, sort_by,
}
use bloc_kuntu.Common.Results.{ok, err}
use bloc_kuntu.Text.{Text, lit, text_eq, trim, split_whitespace, join, ascii_lower}
use bloc_kuntu.Config.{Config}
use bloc_kuntu.Types.{Error, Fallible, Decision, UnlockState}
use bloc_kuntu.Platform.{minute_ns}
use bloc_kuntu.Store.{Query, read_active_unlock, Database, format_time, is_distinct}
use bloc_kuntu.Store.Unlocks.{active_unlock_for_rule, count_unlocks_since, unlock_reasons, new_row}
use bloc_kuntu.Store.Unlocks.Revoked.{replace_policy_config-revokes}
use bloc_kuntu.Store.Services.{
  attachments_are_distinct, write_policy_tables, write_if_valid, replace_policy_config,
}
use bloc_kuntu.Scenarios.Policies.{sample_accepted}
use bloc_kuntu.Store.Unlocks.Granted.{active_unlock_for_rule-ne-panicked}
use bloc_kuntu.Policy.Activity.{Context, now_utc}
use bloc_kuntu.Policy.Evaluate.{evaluate_controlled_rule_fields}
use bloc_kuntu.Policy.Unlock.{request_unlock, authorize, grant, admit}
use bloc_kuntu.Policy.Unlock.Resolve.{Resolved, resolve_unlock_rules, application_lists_for_unlock}
use bloc_kuntu.Policy.Unlock.Resolve.Applications.{IsControlled}
use bloc_kuntu.Policy.Unlock.Resolve.Targets.{resolve_unlock_rules-IsControlled}
use bloc_kuntu.Policy.Unlock.Authorized.{IsAuthorized}
use bloc_kuntu.Policy.Unlock.Grant.{
  IsGranted, request_unlock-IsGranted, request_unlock-once_an_hour, request_unlock-opens,
}
use bloc_kuntu.Scenarios.{sample_platform, sample_config, sample_database, context_at}

abbrev reason : Text
reason = lit "  asking  a colleague for the report "

abbrev at_noon : Context
at_noon = context_at 12 0 false

abbrev outcome : Database × Fallible UnlockState
outcome = request_unlock sample_platform at_noon (lit "chat") reason

abbrev granted : UnlockState
granted = record {
  id = 1;
  target = lit "chat";
  rule_id = lit "chat";
  rule_ids = lit "chat" ∷ [];
  minutes = 2;
  reason = lit "asking a colleague for the report";
  started_at = now_utc at_noon;
  expires_at = now_utc at_noon + 2 * minute_ns;
}

chat_granted : outcome ≡ (outcome.0, ok granted)
unfolding request_unlock authorize trim resolve_unlock_rules
    bloc_kuntu.Policy.Unlock.Resolve.eligible_rules application_lists_for_unlock text_eq ascii_lower
    bloc_kuntu.Policy.Activity.controlled_app_rule_is_active
    bloc_kuntu.Policy.Activity.app_rule_is_active bloc_kuntu.Policy.Activity.schedule_ids_are_active
    bloc_kuntu.Policy.Schedule.schedule_ids_are_active_at
    bloc_kuntu.Policy.Schedule.schedule_id_is_active bloc_kuntu.Policy.Schedule.schedule_is_active
    bloc_kuntu.Policy.Schedule.window_is_active bloc_kuntu.Config.Time.minutes_after_midnight
    bloc_kuntu.Config.Time.includes bloc_kuntu.Policy.Unlock.Resolve.unlock_rule_from_app
    bloc_kuntu.Policy.Unlock.Resolve.resolve_rest admit bloc_kuntu.Policy.Unlock.check_reason
    bloc_kuntu.Policy.Unlock.clean_unlock_reason split_whitespace join
    bloc_kuntu.Policy.Unlock.letter_count bloc_kuntu.Policy.Unlock.reject_used
    bloc_kuntu.Store.Unlocks.unlock_reasons bloc_kuntu.Policy.Unlock.reject_active
    bloc_kuntu.Policy.Unlock.reject_over_quota bloc_kuntu.Store.Unlocks.count_unlocks_since
    active_unlock_for_rule sort_by bloc_kuntu.Store.Unlocks.read_unlock format_time grant
    bloc_kuntu.Policy.Unlock.after_insert bloc_kuntu.Policy.Unlock.grant_details
    bloc_kuntu.Store.Unlocks.insert_unlock bloc_kuntu.Store.is_distinct
    bloc_kuntu.Store.record_event
chat_granted = refl

-- One minute later, with what the grant stored.
abbrev a_minute_later : Context
a_minute_later = record at_noon {
  database = outcome.0;
  now = record { utc = now_utc at_noon + minute_ns; offset = 0 };
}

abbrev another_reason : Text
another_reason = lit "watching the recording of the meeting"

request_unlock-IsGranted_example :
    (rules : List Resolved) × ((cleaned : Text) × IsAuthorized sample_platform at_noon
        (lit "chat")
        reason
        rules
        cleaned
      × IsGranted at_noon rules cleaned outcome.0 granted)
request_unlock-IsGranted_example =
    request_unlock-IsGranted sample_platform at_noon (lit "chat") reason chat_granted

request_unlock-once_an_hour_example :
    request_unlock sample_platform a_minute_later (lit "chat") another_reason
    ≢ (outcome.0, ok granted)
request_unlock-once_an_hour_example =
    request_unlock-once_an_hour sample_platform at_noon a_minute_later (lit "chat") reason
      (lit "chat") another_reason chat_granted refl (omega arith)

request_unlock-opens_example :
    evaluate_controlled_rule_fields sample_platform a_minute_later
      (lit "chat")
      (lit "Chat")
      none
      (ok 0)
    ≡ Decision.allow
unfolding text_eq format_time
request_unlock-opens_example =
    request_unlock-opens sample_platform at_noon a_minute_later (lit "chat") reason (lit "chat")
      (lit "Chat") none (ok 0) chat_granted refl (omega arith)
      (ap (λ (failure : Query → Option Text). failure (read_active_unlock (lit "chat")))
        (request_unlock-IsGranted sample_platform at_noon (lit "chat") reason
          chat_granted).1.2.failure_same)
      refl

active_unlock_for_rule-ne-panicked_example :
    active_unlock_for_rule (lit "chat") (now_utc a_minute_later) outcome.0 ≢ err Error.panicked
active_unlock_for_rule-ne-panicked_example =
    active_unlock_for_rule-ne-panicked (lit "chat") (now_utc a_minute_later) outcome.0

abbrev only_chat : List Resolved
only_chat = record { id = lit "chat"; target = lit "chat" } ∷ []

chat_resolved : resolve_unlock_rules sample_platform at_noon (lit "chat") ≡ ok only_chat
unfolding resolve_unlock_rules bloc_kuntu.Policy.Unlock.Resolve.eligible_rules
    application_lists_for_unlock text_eq ascii_lower trim
    bloc_kuntu.Policy.Activity.controlled_app_rule_is_active
    bloc_kuntu.Policy.Activity.app_rule_is_active bloc_kuntu.Policy.Activity.schedule_ids_are_active
    bloc_kuntu.Policy.Schedule.schedule_ids_are_active_at
    bloc_kuntu.Policy.Schedule.schedule_id_is_active bloc_kuntu.Policy.Schedule.schedule_is_active
    bloc_kuntu.Policy.Schedule.window_is_active bloc_kuntu.Config.Time.minutes_after_midnight
    bloc_kuntu.Config.Time.includes bloc_kuntu.Policy.Unlock.Resolve.unlock_rule_from_app
    bloc_kuntu.Policy.Unlock.Resolve.resolve_rest
chat_resolved = refl

resolve_unlock_rules-IsControlled_example :
    All (λ (r : Resolved). IsControlled sample_config r.id) only_chat × (only_chat ≢ [])
resolve_unlock_rules-IsControlled_example =
    resolve_unlock_rules-IsControlled sample_platform at_noon (lit "chat") only_chat chat_resolved

-- The unlock was granted for two lists, of which the policy to be stored has one.
abbrev with_forum : Database
with_forum = record sample_database {
  unlocks =
      new_row 1 (lit "forum") (lit "forum" ∷ lit "chat" ∷ []) 2 reason (now_utc at_noon)
        (now_utc at_noon + 2 * minute_ns)
      ∷ [];
}

sample_stored : (replace_policy_config sample_platform sample_config with_forum).1 ≡ ok tt
unfolding replace_policy_config write_if_valid write_policy_tables attachments_are_distinct
    is_distinct text_eq
sample_stored = ap (λ r. (write_if_valid r sample_config with_forum).1) sample_accepted

replace_policy_config-revokes_example :
    (active_unlock_for_rule
        (lit "forum")
        (now_utc at_noon)
        (replace_policy_config sample_platform sample_config with_forum).0
      ≡ ok none)
    × (count_unlocks_since
          (now_utc at_noon)
          (replace_policy_config sample_platform sample_config with_forum).0
        ≡ count_unlocks_since (now_utc at_noon) with_forum)
    × (unlock_reasons (replace_policy_config sample_platform sample_config with_forum).0
        ≡ unlock_reasons with_forum)
unfolding text_eq
replace_policy_config-revokes_example =
    replace_policy_config-revokes sample_platform sample_config with_forum (lit "forum")
      (now_utc at_noon) (now_utc at_noon) sample_stored refl refl
