-- ===== src/Decision/Tests.antt =====
-- A proposal that is rejected.
use live_route.Base.{◌+◌, if◌then◌else◌, ◌≡◌, refl, false, none, some, [], ◌∷◌, string_discrete}
use live_route.Base.Table.{find_where, update_where}
use live_route.Base.Result.{ok, commit_as}
use live_route.Uuid.{valid_canonical_uuid, valid_scan}
use live_route.Store.{Db, Trip, Intent, Outbox, Proposal, ProposalState, DeliveryState, CommandKind}
use live_route.Proposal.{is_trip}
use live_route.Terminal.{is_pending_intent}
use live_route.Terminal.Rows.{FinalizedCommand, resolve_outbox}
use live_route.Fixture.{up, trip, intent, row, first_row, second_row, db as db_of_commands}
use live_route.Decision.{
  write_decision, decision_first, decision_rows, decision_locked, decision_tx,
  finalize_proposal_decision,
}
use live_route.Decision.Rows.{
  FinalizeProposalDecisionRequest, decided_command, decide, advance_decided, resolve_decision,
  resolves, validate_proposal_decision,
}
use live_route.Decision.Stored.{WasNext, IsStored, finalize_proposal_decision-Stored}
use live_route.Decision.Settled.{
  Resolved, finalize_proposal_decision-Resolved, finalize_proposal_decision-advance,
}

abbrev rejects : Intent
rejects = record intent { command_kind = CommandKind.reject_proposal }

abbrev proposal : Proposal
proposal = record {
  id = "0197f3a2-0000-7000-8000-00000000000d";
  trip_id = "0197f3a2-0000-7000-8000-00000000000a";
  base_current_plan_id = "0197f3a2-0000-7000-8000-00000000000b";
  source_runtime_epoch = 7;
  source_planner_state_version = 3;
  source_trip_revision = 4;
  source_accepted_mutation_sequence = 2;
  payload = "p";
  payload_size_bytes = 1;
  checksum_sha256 = "c";
  state = ProposalState.pending;
  decision_message_id = none;
  created_at = 600;
  decided_at = none;
}

abbrev db : Db
db = record db_of_commands { intents = rejects ∷ []; proposals = proposal ∷ [] }

abbrev request : FinalizeProposalDecisionRequest
request = record {
  trip_id = "0197f3a2-0000-7000-8000-00000000000a";
  intent_id = "0197f3a2-0000-7000-8000-000000000001";
  outbox_id = "0197f3a2-0000-7000-8000-000000000004";
  event_id = "0197f3a2-0000-7000-8000-000000000003";
  mutation_sequence = 3;
  expected_trip_revision = 4;
  resulting_planner_state_version = 8;
  identity = record {
    proposal_id = "0197f3a2-0000-7000-8000-00000000000d";
    source_runtime_epoch = 7;
    source_planner_state_version = 3;
    base_current_plan_id = "0197f3a2-0000-7000-8000-00000000000b";
  };
  outcome_payload = some "{}";
}

abbrev result : FinalizedCommand
result = decided_command request false 7_000 false

abbrev decided_db : Db
decided_db = record db {
  proposals = decide false "0197f3a2-0000-7000-8000-000000000002" 7_000 proposal ∷ [];
  trips = advance_decided 5 3 7_000 trip ∷ [];
  intents = resolve_decision request false 7_000 rejects ∷ [];
  outbox = first_row ∷ second_row ∷ resolve_outbox DeliveryState.accepted "OK" 7_000 row ∷ [];
}

decides : finalize_proposal_decision up 7_000 db request false ≡ (ok result, decided_db)
unfolding finalize_proposal_decision decision_tx decision_locked decision_rows decision_first
    is_pending_intent write_decision resolves validate_proposal_decision valid_canonical_uuid
    valid_scan find_where update_where commit_as string_discrete
decides = refl

finalize_proposal_decision-Stored_example :
    (before : Trip) × (command : Intent) × (entry : Outbox) × (decided : Proposal) × WasNext request
      false db before command entry decided
    × IsStored request false 7_000 decided_db command entry
finalize_proposal_decision-Stored_example =
    finalize_proposal_decision-Stored up 7_000 db decided_db request false result decides refl

finalize_proposal_decision-Resolved_example : Resolved request decided_db
finalize_proposal_decision-Resolved_example =
    finalize_proposal_decision-Resolved up 7_000 db decided_db request false result decides

finalize_proposal_decision-advance_example :
    (before : Trip) × (after : Trip) × (find_where (is_trip request.trip_id) db.trips ≡ some before)
    × (find_where (is_trip request.trip_id) decided_db.trips ≡ some after)
    × (after.trip_revision ≡ 5)
    × (after.finalized_mutation_sequence ≡ 3)
    × (after.finalized_mutation_sequence ≡ before.finalized_mutation_sequence + 1)
    × (after.trip_revision ≡ (if false then before.trip_revision else before.trip_revision + 1))
finalize_proposal_decision-advance_example =
    finalize_proposal_decision-advance up 7_000 db decided_db request false result decides refl
