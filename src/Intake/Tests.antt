-- ===== src/Intake/Tests.antt =====
-- Recording a command on the tables of the fixture.
use live_route.Base.{String, ◌≡◌, refl, false, Option, none, some, [], ◌∷◌, string_discrete}
use live_route.Base.Table.{find_where, update_where, any_where}
use live_route.Base.Result.{ok, err, commit_as, durable_command_blocked}
use live_route.Uuid.{valid_canonical_uuid, valid_scan}
use live_route.Store.{Db, Trip, IntentState, CommandKind}
use live_route.Fixture.{up, db, intent}
use live_route.Intake.{
  Clock, new_intent, new_row, intent_clashes, row_clashes, write_recorded, record_runtime_first,
}
use live_route.Intake.Recorded.{
  RecordRuntimeCommandRequest, RecordedCommand, recorded_command, kind_is_runtime_first,
  validate_plan, validate_record_runtime_command, scan_recorded_command, is_unresolved,
}
use live_route.Intake.Stored.{IsReady, IsStored, record_runtime_first-Stored}
use live_route.Intake.Replay.{replayed, record_runtime_first-again}

-- The one command of the trip is rejected.
abbrev pub quiet : Db
quiet = record db { intents = record intent { state = IntentState.rejected } ∷ [] }

abbrev pub request : RecordRuntimeCommandRequest
request = record {
  intent_id = "0197f3a2-0000-7000-8000-000000000011";
  outbox_id = "0197f3a2-0000-7000-8000-000000000012";
  trip_id = "0197f3a2-0000-7000-8000-00000000000a";
  owner_user_id = "0197f3a2-0000-7000-8000-0000000000ff";
  message_id = "0197f3a2-0000-7000-8000-000000000013";
  event_id = "0197f3a2-0000-7000-8000-000000000013";
  expected_trip_revision = 4;
  kind = CommandKind.travel_delay;
  command_expires_at = none;
  payload_digest = "abcdef0123456789abcdef0123456789";
  command_payload = some "{}";
  event_payload = some "{}";
  planned_current_plan = none;
}

-- The same message with another digest.
abbrev altered : RecordRuntimeCommandRequest
altered = record request { payload_digest = "00000000000000000000000000000000" }

abbrev pub clock : Clock
clock = record { allocated = 10; recorded = 20; queued = 30 }

abbrev pub sha256 : String → String
sha256 s = s

abbrev pub plan_id : String → Option String
plan_id s = none

abbrev result : RecordedCommand
result = recorded_command false (new_intent request 4 20) (some (new_row request 4 30))

abbrev after : Db
after = write_recorded request 4 clock quiet

recorded : record_runtime_first sha256 plan_id up clock request quiet ≡ (ok result, after)
unfolding record_runtime_first validate_record_runtime_command kind_is_runtime_first validate_plan
    valid_canonical_uuid valid_scan string_discrete find_where any_where update_where is_unresolved
    intent_clashes row_clashes scan_recorded_command commit_as
recorded = refl

record_runtime_first-Stored_example :
    (before : Trip) × IsReady request quiet before
    × IsStored clock request quiet after before
    × (result.mutation_sequence ≡ before.next_mutation_sequence)
record_runtime_first-Stored_example =
    record_runtime_first-Stored sha256 plan_id up clock quiet after request result recorded refl

record_runtime_first-again_example :
    record_runtime_first sha256 plan_id up clock altered after
    ≡ (replayed request altered result, after)
unfolding validate_record_runtime_command kind_is_runtime_first validate_plan valid_canonical_uuid
    valid_scan string_discrete
record_runtime_first-again_example =
    record_runtime_first-again sha256 plan_id up up clock clock quiet after request altered result
      tt recorded (refl, refl, refl) refl (λ stage. refl)

-- A second command has to wait.
blocked :
    record_runtime_first sha256 plan_id up clock
      (record request {
        intent_id = "0197f3a2-0000-7000-8000-000000000021";
        message_id = "0197f3a2-0000-7000-8000-000000000023";
        event_id = "0197f3a2-0000-7000-8000-000000000023";
      })
      after
    ≡ (err durable_command_blocked, after)
unfolding record_runtime_first validate_record_runtime_command kind_is_runtime_first validate_plan
    valid_canonical_uuid valid_scan string_discrete find_where any_where update_where is_unresolved
blocked = refl
