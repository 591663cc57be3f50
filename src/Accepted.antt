-- ===== src/Accepted.antt =====
-- FinalizeAcceptedMutation of backend/internal/persistence/accepted_mutations.go: a command that the
-- runtime applied is written into the trip.
pub mod Mutation
pub mod Apply
pub mod Outcome
pub mod Effects
pub mod Isolated
pub mod Hours
pub mod Replay
mod Tests
use live_route.Base.{
  ℕ, ◌+◌, String, Bool, true, false, ◌&&◌, ◌||◌, not, Option, none, some, ◌==◌, same,
}
use live_route.Base.Table.{find_where, update_where}
use live_route.Base.Result.{
  Result, ok, err, ◌>>=◌, ◌>>◌, guard, Link, reach, transact, commit_as, trip_not_found,
  command_not_found, command_finalization_conflict, command_finalization_out_of_order,
  trip_revision_stale, begin, lock_trip, read_intent, read_outbox, read_clock, compare_payload,
  read_proposals, write_proposals, write_trip, write_intent, write_outbox,
}
use live_route.Store.{
  Db, Trip, Intent, Outbox, Proposal, IntentState, DeliveryState, CommandKind, is_pending_proposal,
}
use live_route.Lease.{max_int64, stale_proposal}
use live_route.Proposal.{is_trip, is_pending_for}
use live_route.Decision.Rows.{advance_decided}
use live_route.Terminal.{is_pending_intent}
use live_route.Terminal.Rows.{
  FinalizedCommand, same_intent_state, same_delivery_state, has_text, has_number, is_set, time_of,
  payload_matches, is_runtime_intent, is_outbox_of, has_intent_id, has_outbox_id, resolve_outbox,
}
use live_route.Accepted.Mutation.{
  FinalizeAcceptedMutationRequest, validate_accepted_mutation_request, kind_text,
}
use live_route.Accepted.Apply.{apply_accepted_mutation}

abbrev pub applied_command : FinalizeAcceptedMutationRequest → ℕ → Bool → FinalizedCommand
applied_command r time duplicate = record {
  intent_id = r.intent_id;
  outbox_id = r.outbox_id;
  trip_id = r.trip_id;
  event_id = r.event_id;
  mutation_sequence = r.mutation_sequence;
  state = IntentState.applied;
  status = "OK";
  resulting_trip_revision = r.expected_trip_revision + 1;
  resulting_planner_state_version = r.resulting_planner_state_version;
  finalized_at = time;
  duplicate = duplicate;
}

abbrev pub apply_intent : FinalizeAcceptedMutationRequest → ℕ → Intent → Intent
apply_intent r now i = record i {
  state = IntentState.applied;
  outcome_status = some "OK";
  outcome_payload = r.outcome_payload;
  resulting_trip_revision = some (r.expected_trip_revision + 1);
  resulting_planner_state_version = some r.resulting_planner_state_version;
  finalized_at = some now;
}

-- The UPDATEs after the mutation is applied.
unfoldable pub write_accepted : FinalizeAcceptedMutationRequest → ℕ → ℕ → Db → Db
write_accepted r sequence now db = record db {
  proposals = update_where (is_pending_for r.trip_id) (stale_proposal now) db.proposals;
  trips =
      update_where (is_trip r.trip_id) (advance_decided (r.expected_trip_revision + 1) sequence now)
        db.trips;
  intents = update_where (has_intent_id r.intent_id) (apply_intent r now) db.intents;
  outbox =
      update_where (has_outbox_id r.outbox_id) (resolve_outbox DeliveryState.accepted "OK" now)
        db.outbox;
}

unfoldable pub accepted_is_stored : FinalizeAcceptedMutationRequest → Intent → Outbox → Bool
accepted_is_stored r i o =
    same_intent_state i.state IntentState.applied
    && has_text i.outcome_status "OK"
    && has_number i.resulting_trip_revision (r.expected_trip_revision + 1)
    && has_number i.resulting_planner_state_version r.resulting_planner_state_version
    && is_set i.finalized_at
    && same_delivery_state o.delivery_state DeliveryState.accepted

pub accepted_again :
    Link → Db → FinalizeAcceptedMutationRequest → Intent → Outbox → Result (FinalizedCommand × Db)
accepted_again link db r i o = do
  reach link compare_payload
  matches ← payload_matches i.outcome_payload r.outcome_payload
  guard (accepted_is_stored r i o && matches) command_finalization_conflict
  commit_as link (applied_command r (time_of i.finalized_at) true) db

-- From the lock of the proposals to the commit.
pub accepted_write :
    Link → ℕ → FinalizeAcceptedMutationRequest → Intent → Db → Result (FinalizedCommand × Db)
accepted_write link now r i db = do
  reach link read_proposals
  reach link read_clock
  reach link write_proposals
  reach link write_trip
  reach link write_intent
  reach link write_outbox
  commit_as link (applied_command r now false) (write_accepted r i.mutation_sequence now db)

pub accepted_first :
    Link
    → ℕ
    → Db
    → FinalizeAcceptedMutationRequest
    → CommandKind
    → Trip
    → Intent
    → Result (FinalizedCommand × Db)
unfolding accepted_write
accepted_first link now db r kind trip i = do
  guard (trip.trip_revision == i.expected_trip_revision) trip_revision_stale
  guard
      (not (
        trip.finalized_mutation_sequence == max_int64
        || not (trip.finalized_mutation_sequence + 1 == i.mutation_sequence)))
      command_finalization_out_of_order
  changed ← apply_accepted_mutation link r.trip_id r.mutation kind db
  accepted_write link now r i changed

-- The part of the transaction after the three rows are locked.
pub accepted_rows :
    Link
    → ℕ
    → Db
    → FinalizeAcceptedMutationRequest
    → CommandKind
    → Trip
    → Intent
    → Outbox
    → Result (FinalizedCommand × Db)
unfolding accepted_again accepted_first is_pending_intent
accepted_rows link now db r kind trip i o = do
  guard
      (same i.event_id r.event_id
        && i.mutation_sequence == r.mutation_sequence
        && i.expected_trip_revision == r.expected_trip_revision
        && same (kind_text i.command_kind) (kind_text kind))
      command_finalization_conflict
  elim (is_pending_intent i.state) [
    | true ↦ accepted_first link now db r kind trip i
    | false ↦ accepted_again link db r i o
  ]

pub accepted_outbox :
    Link
    → ℕ
    → Db
    → FinalizeAcceptedMutationRequest
    → CommandKind
    → Trip
    → Intent
    → Option Outbox
    → Result (FinalizedCommand × Db)
unfolding accepted_rows
accepted_outbox link now db r kind trip i none = err command_not_found
accepted_outbox link now db r kind trip i (some o) = accepted_rows link now db r kind trip i o

pub accepted_intent :
    Link
    → ℕ
    → Db
    → FinalizeAcceptedMutationRequest
    → CommandKind
    → Trip
    → Option Intent
    → Result (FinalizedCommand × Db)
unfolding accepted_outbox
accepted_intent link now db r kind trip none = err command_not_found
accepted_intent link now db r kind trip (some i) = do
  reach link read_outbox
  accepted_outbox link now db r kind trip i
      (find_where (is_outbox_of r.outbox_id r.intent_id r.trip_id) db.outbox)

pub accepted_trip :
    Link
    → ℕ
    → Db
    → FinalizeAcceptedMutationRequest
    → CommandKind
    → Option Trip
    → Result (FinalizedCommand × Db)
unfolding accepted_intent
accepted_trip link now db r kind none = err trip_not_found
accepted_trip link now db r kind (some trip) = do
  reach link read_intent
  accepted_intent link now db r kind trip
      (find_where (is_runtime_intent r.intent_id r.trip_id) db.intents)

pub finalize_accepted_tx :
    Link → ℕ → Db → FinalizeAcceptedMutationRequest → Result (FinalizedCommand × Db)
unfolding accepted_trip
finalize_accepted_tx link now db r = do
  kind ← validate_accepted_mutation_request r
  reach link begin
  reach link lock_trip
  accepted_trip link now db r kind (find_where (is_trip r.trip_id) db.trips)

unfoldable pub finalize_accepted_mutation :
    Link → ℕ → Db → FinalizeAcceptedMutationRequest → Result FinalizedCommand × Db
unfolding finalize_accepted_tx accepted_is_stored
finalize_accepted_mutation link now db r = transact db (finalize_accepted_tx link now db r)
