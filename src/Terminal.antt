-- ===== src/Terminal.antt =====
-- FinalizeTerminal of backend/internal/persistence/command_finalization.go: the rejection of a
-- command that the runtime did not apply. A JSON payload is its jsonb normal form, or none when it is
-- not valid JSON.
pub mod Rows
pub mod Outcome
pub mod Resolved
pub mod Replay
pub mod Sequence
mod Tests
use live_route.Base.{
  ℕ, ◌+◌, ◌-◌, ◌^◌, String, Bool, true, false, ◌&&◌, ◌||◌, not, Option, none, some, List, [], ◌∷◌,
  ltb, leb, ◌==◌, if◌then◌else◌, same,
}
use live_route.Base.Table.{find_where, update_where}
use live_route.Base.Result.{
  Result, ok, err, ◌>>=◌, ◌>>◌, guard, Link, reach, transact, commit_as, database, invalid_input,
  trip_not_found, command_not_found, command_finalization_conflict,
  command_finalization_out_of_order, proposal_finalization_required, trip_revision_stale, begin,
  lock_trip, read_intent, read_outbox, read_clock, compare_payload, write_trip, write_intent,
  write_outbox,
}
use live_route.Uuid.{valid_canonical_uuid}
use live_route.Store.{
  Db, Trip, Intent, Outbox, IntentState, DeliveryState, ApplicationOrder, CommandKind,
}
use live_route.Lease.{max_int64}
use live_route.Proposal.{is_trip}
use live_route.Terminal.Rows.{
  FinalizeTerminalCommandRequest, FinalizedCommand, terminal_status_valid, is_json,
  validate_terminal_finalization, terminal_intent_state, same_intent_state, same_delivery_state,
  is_runtime_first, is_decision, has_text, has_number, is_set, time_of, text_of, payload_matches,
  is_runtime_intent, is_outbox_of, finalized_command, has_intent_id, has_outbox_id, advance,
  resolve_intent, resolve_outbox,
}

-- The three UPDATEs of a first finalization.
unfoldable pub write_terminal : FinalizeTerminalCommandRequest → ℕ → ℕ → ℕ → Db → Db
write_terminal r sequence revision now db = record db {
  trips = update_where (is_trip r.trip_id) (advance sequence now) db.trips;
  intents = update_where (has_intent_id r.intent_id) (resolve_intent r revision now) db.intents;
  outbox =
      update_where (has_outbox_id r.outbox_id)
        (resolve_outbox DeliveryState.terminal_rejected r.status now) db.outbox;
}

-- The stored outcome is the one that the request asks for.
unfoldable pub outcome_is_stored : FinalizeTerminalCommandRequest → Intent → Outbox → Bool
outcome_is_stored r i o =
    same_intent_state i.state (terminal_intent_state r.status)
    && has_text i.outcome_status r.status
    && has_number i.resulting_trip_revision i.expected_trip_revision
    && has_number i.resulting_planner_state_version r.resulting_planner_state_version
    && is_set i.finalized_at
    && same_delivery_state o.delivery_state DeliveryState.terminal_rejected

pub terminal_again :
    Link → Db → FinalizeTerminalCommandRequest → Intent → Outbox → Result (FinalizedCommand × Db)
terminal_again link db r i o = do
  reach link compare_payload
  matches ← payload_matches i.outcome_payload r.outcome_payload
  guard (outcome_is_stored r i o && matches) command_finalization_conflict
  commit_as link
      (finalized_command r i.state (text_of i.outcome_status) i.expected_trip_revision
        (time_of i.finalized_at) true)
      db

pub terminal_first :
    Link → ℕ → Db → FinalizeTerminalCommandRequest → Trip → Intent → Result (FinalizedCommand × Db)
terminal_first link now db r trip i = do
  guard (trip.trip_revision == i.expected_trip_revision) trip_revision_stale
  guard
      (not (
        trip.finalized_mutation_sequence == max_int64
        || not (trip.finalized_mutation_sequence + 1 == i.mutation_sequence)))
      command_finalization_out_of_order
  reach link read_clock
  reach link write_trip
  reach link write_intent
  reach link write_outbox
  commit_as link
      (finalized_command r (terminal_intent_state r.status) r.status trip.trip_revision now false)
      (write_terminal r i.mutation_sequence trip.trip_revision now db)

unfoldable pub is_pending_intent : IntentState → Bool
is_pending_intent IntentState.pending = true
is_pending_intent _ = false

-- The part of the transaction after the three rows are locked.
pub terminal_rows :
    Link
    → ℕ
    → Db
    → FinalizeTerminalCommandRequest
    → Trip
    → Intent
    → Outbox
    → Result (FinalizedCommand × Db)
unfolding terminal_again terminal_first is_pending_intent
terminal_rows link now db r trip i o = do
  guard
      (same i.event_id r.event_id
        && i.mutation_sequence == r.mutation_sequence
        && i.expected_trip_revision == r.expected_trip_revision)
      command_finalization_conflict
  guard (not (same r.status "STALE" && is_decision i.command_kind)) proposal_finalization_required
  elim (is_pending_intent i.state) [
    | true ↦ terminal_first link now db r trip i
    | false ↦ terminal_again link db r i o
  ]

pub terminal_outbox :
    Link
    → ℕ
    → Db
    → FinalizeTerminalCommandRequest
    → Trip
    → Intent
    → Option Outbox
    → Result (FinalizedCommand × Db)
unfolding terminal_rows
terminal_outbox link now db r trip i none = err command_not_found
terminal_outbox link now db r trip i (some o) = terminal_rows link now db r trip i o

pub terminal_intent :
    Link
    → ℕ
    → Db
    → FinalizeTerminalCommandRequest
    → Trip
    → Option Intent
    → Result (FinalizedCommand × Db)
unfolding terminal_outbox
terminal_intent link now db r trip none = err command_not_found
terminal_intent link now db r trip (some i) = do
  reach link read_outbox
  terminal_outbox link now db r trip i
      (find_where (is_outbox_of r.outbox_id r.intent_id r.trip_id) db.outbox)

pub terminal_trip :
    Link → ℕ → Db → FinalizeTerminalCommandRequest → Option Trip → Result (FinalizedCommand × Db)
unfolding terminal_intent
terminal_trip link now db r none = err trip_not_found
terminal_trip link now db r (some trip) = do
  reach link read_intent
  terminal_intent link now db r trip
      (find_where (is_runtime_intent r.intent_id r.trip_id) db.intents)

pub finalize_terminal_tx :
    Link → ℕ → Db → FinalizeTerminalCommandRequest → Result (FinalizedCommand × Db)
unfolding terminal_trip validate_terminal_finalization
finalize_terminal_tx link now db r = do
  validate_terminal_finalization r
  reach link begin
  reach link lock_trip
  terminal_trip link now db r (find_where (is_trip r.trip_id) db.trips)

unfoldable pub finalize_terminal :
    Link → ℕ → Db → FinalizeTerminalCommandRequest → Result FinalizedCommand × Db
unfolding finalize_terminal_tx write_terminal outcome_is_stored
finalize_terminal link now db r = transact db (finalize_terminal_tx link now db r)
