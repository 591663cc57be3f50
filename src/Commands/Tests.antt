-- ===== src/Commands/Tests.antt =====
-- A history on the tables of the fixture: the pending command is rejected and a new one is recorded.
use live_route.Base.{◌≡◌, refl, none, some, List, [], ◌∷◌, arith, string_discrete}
use live_route.Base.Table.{find_where, count_where, any_where, update_where}
use live_route.Base.Result.{commit_as}
use live_route.Store.{CommandKind}
use live_route.Fixture.{up, db}
use live_route.Uuid.{valid_canonical_uuid, valid_scan}
use live_route.Terminal.{finalize_terminal, is_pending_intent}
use live_route.Terminal.Rows.{FinalizeTerminalCommandRequest, validate_terminal_finalization}
use live_route.Intake.{Clock, record_runtime_first, intent_clashes, row_clashes}
use live_route.Intake.Recorded.{
  RecordRuntimeCommandRequest, is_unresolved, kind_is_runtime_first, validate_plan,
  validate_record_runtime_command, scan_recorded_command,
}
use live_route.Intake.Numbered.{IsNumbered}
use live_route.Commands.{Call, records, rejects, run, run-IsNumbered}

abbrev late : FinalizeTerminalCommandRequest
late = record {
  trip_id = "0197f3a2-0000-7000-8000-00000000000a";
  intent_id = "0197f3a2-0000-7000-8000-000000000001";
  outbox_id = "0197f3a2-0000-7000-8000-000000000004";
  event_id = "0197f3a2-0000-7000-8000-000000000003";
  mutation_sequence = 3;
  expected_trip_revision = 4;
  resulting_planner_state_version = 9;
  status = "COMMAND_EXPIRED";
  outcome_payload = some "{}";
}

abbrev next : RecordRuntimeCommandRequest
next = record {
  intent_id = "0197f3a2-0000-7000-8000-000000000011";
  outbox_id = "0197f3a2-0000-7000-8000-000000000012";
  trip_id = "0197f3a2-0000-7000-8000-00000000000a";
  owner_user_id = "0197f3a2-0000-7000-8000-0000000000ff";
  message_id = "0197f3a2-0000-7000-8000-000000000013";
  event_id = "0197f3a2-0000-7000-8000-000000000013";
  expected_trip_revision = 4;
  kind = CommandKind.travel_delay;
  command_expires_at = none;
  payload_digest = "abcdef0123456789abcdef0123456789";
  command_payload = some "{}";
  event_payload = some "{}";
  planned_current_plan = none;
}

abbrev clock : Clock
clock = record { allocated = 10; recorded = 20; queued = 30 }

abbrev calls : List Call
calls = rejects up 7_000 late ∷ records up clock next ∷ []

db-IsNumbered : IsNumbered db
unfolding find_where count_where is_unresolved
db-IsNumbered = record {
  keyed = (tt, tt);
  below = λ id t e. (λ s. ground (arith, e), tt);
  single = λ id. ground arith;
}

run-IsNumbered_example : IsNumbered (run (λ s. s) (λ s. none) db calls)
run-IsNumbered_example = run-IsNumbered (λ s. s) (λ s. none) db calls db-IsNumbered

-- Both calls succeed, and one command is unresolved after them.
numbered :
    count_where
      (is_unresolved "0197f3a2-0000-7000-8000-00000000000a")
      (run (λ s. s) (λ s. none) db calls).intents
    ≡ 1
unfolding count_where is_unresolved run finalize_terminal record_runtime_first
    validate_terminal_finalization validate_record_runtime_command kind_is_runtime_first
    validate_plan valid_canonical_uuid valid_scan string_discrete find_where any_where update_where
    commit_as is_pending_intent intent_clashes row_clashes scan_recorded_command
numbered = refl
