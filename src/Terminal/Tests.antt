-- ===== src/Terminal/Tests.antt =====
-- A command that is rejected once, and again.
use live_route.Base.{◌+◌, ◌≡◌, refl, false, some, List, [], ◌∷◌, string_discrete}
use live_route.Base.Table.{find_where, update_where}
use live_route.Base.Result.{ok, commit_as}
use live_route.Uuid.{valid_canonical_uuid, valid_scan}
use live_route.Store.{Db, Trip, Intent, Outbox, IntentState, DeliveryState}
use live_route.Fixture.{up, trip, intent, row, first_row, second_row, db}
use live_route.Terminal.{
  write_terminal, terminal_first, terminal_rows, terminal_outbox, terminal_intent, terminal_trip,
  is_pending_intent, finalize_terminal_tx, finalize_terminal,
}
use live_route.Terminal.Rows.{
  FinalizeTerminalCommandRequest, FinalizedCommand, finalized_command, advance, resolve_intent,
  resolve_outbox, terminal_status_valid, validate_terminal_finalization,
}
use live_route.Terminal.Resolved.{WasNext, IsResolved, finalize_terminal-Resolved}
use live_route.Terminal.Replay.{as_duplicate, finalize_terminal-again}
use live_route.Terminal.Sequence.{Call, run, firsts, sequence_of, run-sequence}

abbrev request : FinalizeTerminalCommandRequest
request = record {
  trip_id = "0197f3a2-0000-7000-8000-00000000000a";
  intent_id = "0197f3a2-0000-7000-8000-000000000001";
  outbox_id = "0197f3a2-0000-7000-8000-000000000004";
  event_id = "0197f3a2-0000-7000-8000-000000000003";
  mutation_sequence = 3;
  expected_trip_revision = 4;
  resulting_planner_state_version = 8;
  status = "INFEASIBLE";
  outcome_payload = some "{}";
}

abbrev finalized : FinalizedCommand
finalized = finalized_command request IntentState.rejected "INFEASIBLE" 4 7_000 false

abbrev finalized_db : Db
finalized_db = record db {
  trips = advance 3 7_000 trip ∷ [];
  intents = resolve_intent request 4 7_000 intent ∷ [];
  outbox =
      first_row
      ∷ second_row
      ∷ resolve_outbox DeliveryState.terminal_rejected "INFEASIBLE" 7_000 row
      ∷ [];
}

finalizes : finalize_terminal up 7_000 db request ≡ (ok finalized, finalized_db)
unfolding finalize_terminal finalize_terminal_tx terminal_trip terminal_intent terminal_outbox
    terminal_rows terminal_first is_pending_intent write_terminal validate_terminal_finalization
    terminal_status_valid valid_canonical_uuid valid_scan find_where update_where commit_as
    string_discrete
finalizes = refl

finalize_terminal-Resolved_example :
    (before : Trip) × (command : Intent) × (entry : Outbox) × WasNext request db before command
      entry
    × IsResolved 7_000 request finalized_db before command entry
finalize_terminal-Resolved_example =
    finalize_terminal-Resolved up 7_000 db finalized_db request finalized finalizes refl

finalize_terminal-again_example :
    finalize_terminal up 8_000 finalized_db request ≡ (ok (as_duplicate finalized), finalized_db)
finalize_terminal-again_example =
    finalize_terminal-again up up 7_000 8_000 db finalized_db request finalized (λ _. refl)
      finalizes

abbrev history : List Call
history =
    record { link = up; now = 7_000; request = request }
    ∷ record { link = up; now = 8_000; request = request }
    ∷ []

run-sequence_example :
    sequence_of "0197f3a2-0000-7000-8000-00000000000a" (run db history)
    ≡ sequence_of "0197f3a2-0000-7000-8000-00000000000a" db
      + firsts "0197f3a2-0000-7000-8000-00000000000a" db history
run-sequence_example = run-sequence "0197f3a2-0000-7000-8000-00000000000a" db history
