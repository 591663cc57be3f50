-- ===== src/Intake.antt =====
-- The recording of a runtime-first command: RecordRuntimeFirst of backend/internal/persistence/
-- commands.go with its validation and its scan. A JSON payload is its jsonb normal form, or none when
-- it is not valid JSON. SHA-256 and the plan id that parseCurrentPlan reads from a payload, none for
-- its error, are parameters.
pub mod Recorded
pub mod Outcome
pub mod Replay
pub mod Stored
pub mod Numbered
mod Tests
use live_route.Base.{
  ℕ, ◌+◌, String, Bool, true, false, ◌&&◌, ◌||◌, not, Option, none, some, List, [], ◌∷◌, ◌++◌, ltb,
  ◌==◌, if◌then◌else◌, same,
}
use live_route.Base.Table.{find_where, update_where, any_where}
use live_route.Base.Result.{
  Result, ok, err, ◌>>=◌, ◌>>◌, guard, Link, reach, transact, commit_as, database, invalid_input,
  storage_contract, trip_not_found, trip_revision_stale, idempotency_key_reused,
  durable_command_blocked, mutation_sequence_exhausted, begin, lock_trip, read_intent,
  lock_unresolved, lock_outbox, allocate_sequence, insert_intent, insert_outbox,
}
use live_route.Uuid.{valid_canonical_uuid}
use live_route.Store.{
  Db, Trip, Intent, Outbox, IntentState, SyncState, DeliveryState, ApplicationOrder, CommandKind,
}
use live_route.Lease.{max_int64}
use live_route.Proposal.{is_trip, byte_count}
use live_route.Terminal.Rows.{is_json, text_of, same_intent_state, is_runtime_first}
use live_route.Mirror.{same_sync_state}
use live_route.Intake.Recorded.{
  kind_is_runtime_first, PlannedCurrentPlan, RecordRuntimeCommandRequest, RecordedCommand,
  validate_plan, validate_record_runtime_command, is_message, is_row_of, row_id, valid_or_null,
  recorded_command, scan_recorded_command, is_unresolved, planned,
}

-- The readings of clock_timestamp() by the three writes.
pub record Clock : Type 0 where
  pub allocated : ℕ
  pub recorded : ℕ
  pub queued : ℕ

abbrev pub allocate : ℕ → Trip → Trip
allocate now t = record t {
  next_mutation_sequence = t.next_mutation_sequence + 1;
  updated_at = now;
}

abbrev pub new_intent : RecordRuntimeCommandRequest → ℕ → ℕ → Intent
new_intent r sequence now = record {
  id = r.intent_id;
  trip_id = r.trip_id;
  message_id = r.message_id;
  event_id = r.event_id;
  mutation_sequence = sequence;
  expected_trip_revision = r.expected_trip_revision;
  command_kind = r.kind;
  command_expires_at = r.command_expires_at;
  application_order = ApplicationOrder.runtime_first;
  digest_algorithm = "rfc8785-sha256-v1";
  payload_digest = r.payload_digest;
  command_payload = text_of r.command_payload;
  planned_current_plan_id = planned (λ p. p.id) r.planned_current_plan;
  planned_current_plan_payload = planned (λ p. p.payload) r.planned_current_plan;
  planned_current_plan_checksum_sha256 = planned (λ p. p.checksum) r.planned_current_plan;
  state = IntentState.pending;
  outcome_status = none;
  outcome_payload = none;
  resulting_trip_revision = none;
  resulting_planner_state_version = none;
  resulting_current_plan_id = none;
  runtime_sync_state = SyncState.not_required;
  recorded_at = now;
  finalized_at = none;
}

abbrev pub new_row : RecordRuntimeCommandRequest → ℕ → ℕ → Outbox
new_row r sequence now = record {
  id = r.outbox_id;
  command_intent_id = r.intent_id;
  trip_id = r.trip_id;
  mutation_sequence = sequence;
  event_schema_version = 1;
  event_payload = text_of r.event_payload;
  delivery_state = DeliveryState.pending;
  attempt_count = 0;
  next_attempt_at = now;
  last_attempt_at = none;
  last_status = none;
  claim_owner = none;
  claim_expires_at = none;
  finalization_confirmed_at = none;
  updated_at = now;
}

-- The primary key and the UNIQUE constraints of command_intents and of planner_outbox.
unfoldable pub intent_clashes : Intent → Intent → Bool
intent_clashes i j =
    same j.id i.id
    || same j.trip_id i.trip_id
      && (same j.message_id i.message_id
          || same j.event_id i.event_id
          || j.mutation_sequence == i.mutation_sequence)

unfoldable pub row_clashes : Outbox → Outbox → Bool
row_clashes o p =
    same p.id o.id
    || same p.command_intent_id o.command_intent_id
    || same p.trip_id o.trip_id && p.mutation_sequence == o.mutation_sequence

pub write_recorded : RecordRuntimeCommandRequest → ℕ → Clock → Db → Db
write_recorded r sequence c db = record db {
  trips = update_where (is_trip r.trip_id) (allocate c.allocated) db.trips;
  intents = db.intents ++ new_intent r sequence c.recorded ∷ [];
  outbox = db.outbox ++ new_row r sequence c.queued ∷ [];
}

-- recordedCommandSelect and its scan, in the given tables.
abbrev pub read_recorded :
    RecordRuntimeCommandRequest → Bool → Db → Option Intent → Result RecordedCommand
read_recorded r duplicate db none = err (database read_intent)
read_recorded r duplicate db (some i) =
    scan_recorded_command duplicate i (find_where (is_row_of i.id) db.outbox)

-- RecordRuntimeFirst when the message has an intent.
pub record_again : Link → RecordRuntimeCommandRequest → Db → Intent → Result (RecordedCommand × Db)
record_again link r db i = do
  existing ← scan_recorded_command true i (find_where (is_row_of i.id) db.outbox)
  guard (same i.digest_algorithm "rfc8785-sha256-v1" && same i.payload_digest r.payload_digest)
      idempotency_key_reused
  commit_as link existing db

-- And when it has none.
pub record_first :
    Link → Clock → RecordRuntimeCommandRequest → Db → Trip → Result (RecordedCommand × Db)
unfolding write_recorded
record_first link c r db t = do
  guard (t.trip_revision == r.expected_trip_revision) trip_revision_stale
  guard (not (t.next_mutation_sequence == 0 || t.next_mutation_sequence == max_int64))
      mutation_sequence_exhausted
  reach link lock_unresolved
  reach link lock_outbox
  guard (not (any_where (is_unresolved r.trip_id) db.intents)) durable_command_blocked
  reach link allocate_sequence
  guard
      (not
        (any_where (intent_clashes (new_intent r t.next_mutation_sequence c.recorded)) db.intents))
      (database insert_intent)
  reach link insert_intent
  guard (not (any_where (row_clashes (new_row r t.next_mutation_sequence c.queued)) db.outbox))
      (database insert_outbox)
  reach link insert_outbox
  let db' = write_recorded r t.next_mutation_sequence c db
  recorded ← read_recorded r false db' (find_where (is_message r.trip_id r.message_id) db'.intents)
  commit_as link recorded db'

pub record_row :
    Link
    → Clock
    → RecordRuntimeCommandRequest
    → Db
    → Trip
    → Option Intent
    → Result (RecordedCommand × Db)
unfolding record_again record_first
record_row link c r db t none = record_first link c r db t
record_row link c r db t (some i) = record_again link r db i

-- SELECT ... WHERE id = $1 AND owner_user_id = $2
abbrev pub is_trip_of : String → String → Trip → Bool
is_trip_of trip_id owner_user_id t = same t.id trip_id && same t.owner_user_id owner_user_id

pub record_trip :
    Link → Clock → RecordRuntimeCommandRequest → Db → Option Trip → Result (RecordedCommand × Db)
unfolding record_row
record_trip link c r db none = err trip_not_found
record_trip link c r db (some t) = do
  reach link read_intent
  record_row link c r db t (find_where (is_message r.trip_id r.message_id) db.intents)

module _ (sha256 : String → String) (plan_id : String → Option String) where
  pub record_tx : Link → Clock → RecordRuntimeCommandRequest → Db → Result (RecordedCommand × Db)
  unfolding record_trip
  record_tx link c r db = do
    validate_record_runtime_command sha256 plan_id r
    reach link begin
    reach link lock_trip
    record_trip link c r db (find_where (is_trip_of r.trip_id r.owner_user_id) db.trips)

  unfoldable pub record_runtime_first :
      Link → Clock → RecordRuntimeCommandRequest → Db → Result RecordedCommand × Db
  unfolding record_tx
  record_runtime_first link c r db = transact db (record_tx link c r db)
