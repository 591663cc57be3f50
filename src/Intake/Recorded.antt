-- ===== src/Intake/Recorded.antt =====
-- What RecordRuntimeFirst of backend/internal/persistence/commands.go is asked for, its validation,
-- and recordedCommandSelect with its scan.
use live_route.Base.{
  ℕ, String, Bool, true, false, ◌&&◌, ◌||◌, not, Option, none, some, ltb, ◌==◌, same,
}
use live_route.Base.Result.{Result, ok, err, ◌>>◌, guard, invalid_input, storage_contract}
use live_route.Uuid.{valid_canonical_uuid}
use live_route.Store.{Intent, Outbox, IntentState, SyncState, CommandKind}
use live_route.Lease.{max_int64}
use live_route.Proposal.{byte_count}
use live_route.Terminal.Rows.{is_json, same_intent_state, is_runtime_first}
use live_route.Mirror.{same_sync_state}

-- CommandKind.isRuntimeFirst
unfoldable pub kind_is_runtime_first : CommandKind → Bool
kind_is_runtime_first CommandKind.activity_status_changed = true
kind_is_runtime_first CommandKind.activity_delayed = true
kind_is_runtime_first CommandKind.reservation_changed = true
kind_is_runtime_first CommandKind.mandatory_deadline_changed = true
kind_is_runtime_first CommandKind.operating_hours_changed = true
kind_is_runtime_first CommandKind.place_found_closed = true
kind_is_runtime_first CommandKind.travel_delay = true
kind_is_runtime_first CommandKind.accept_proposal = true
kind_is_runtime_first CommandKind.reject_proposal = true
kind_is_runtime_first _ = false

pub record PlannedCurrentPlan : Type 0 where
  pub id : String
  pub payload : String
  pub checksum : String

pub record RecordRuntimeCommandRequest : Type 0 where
  pub intent_id : String
  pub outbox_id : String
  pub trip_id : String
  pub owner_user_id : String
  pub message_id : String
  pub event_id : String
  pub expected_trip_revision : ℕ
  pub kind : CommandKind
  pub command_expires_at : Option ℕ
  pub payload_digest : String
  pub command_payload : Option String
  pub event_payload : Option String
  pub planned_current_plan : Option PlannedCurrentPlan

pub record RecordedCommand : Type 0 where
  pub intent_id : String
  pub outbox_id : String
  pub trip_id : String
  pub message_id : String
  pub event_id : String
  pub mutation_sequence : ℕ
  pub expected_trip_revision : ℕ
  pub kind : CommandKind
  pub state : IntentState
  pub runtime_sync_state : SyncState
  pub outcome_status : Option String
  pub outcome_payload : Option String
  pub resulting_trip_revision : Option ℕ
  pub resulting_current_plan_id : Option String
  pub resulting_planner_state_version : Option ℕ
  pub recorded_at : ℕ
  pub finalized_at : Option ℕ
  pub duplicate : Bool

module _ (sha256 : String → String) (plan_id : String → Option String) where
  abbrev names_plan : Option String → String → Bool
  names_plan none id = false
  names_plan (some parsed) id = same parsed id

  -- The part of the validation that depends on the kind.
  unfoldable pub validate_plan : CommandKind → Option PlannedCurrentPlan → Result (Unit {0})
  validate_plan CommandKind.accept_proposal none = err invalid_input
  validate_plan CommandKind.accept_proposal (some p) = do
    guard (valid_canonical_uuid p.id && not (byte_count p.payload == 0)) invalid_input
    guard (same (sha256 p.payload) p.checksum) invalid_input
    guard (names_plan (plan_id p.payload) p.id) invalid_input
  validate_plan kind none = ok tt
  validate_plan kind (some p) = err invalid_input

  unfoldable pub validate_record_runtime_command : RecordRuntimeCommandRequest → Result (Unit {0})
  unfolding kind_is_runtime_first validate_plan
  validate_record_runtime_command r = do
    guard
        (valid_canonical_uuid r.intent_id
          && valid_canonical_uuid r.outbox_id
          && valid_canonical_uuid r.trip_id
          && valid_canonical_uuid r.owner_user_id
          && valid_canonical_uuid r.message_id
          && valid_canonical_uuid r.event_id)
        invalid_input
    guard (same r.event_id r.message_id) invalid_input
    guard (not (ltb max_int64 r.expected_trip_revision)) invalid_input
    guard (kind_is_runtime_first r.kind) invalid_input
    guard (is_json r.command_payload && is_json r.event_payload) invalid_input
    validate_plan r.kind r.planned_current_plan

-- recordedCommandSelect: the intent of a message, and the row of the outbox that is joined to it.
abbrev pub is_message : String → String → Intent → Bool
is_message trip_id message_id i = same i.trip_id trip_id && same i.message_id message_id

abbrev pub is_row_of : String → Outbox → Bool
is_row_of intent_id o = same o.command_intent_id intent_id

abbrev pub row_id : Option Outbox → String
row_id none = ""
row_id (some o) = o.id

abbrev pub valid_or_null : Option String → Bool
valid_or_null none = true
valid_or_null (some id) = valid_canonical_uuid id

abbrev pub recorded_command : Bool → Intent → Option Outbox → RecordedCommand
recorded_command duplicate i o = record {
  intent_id = i.id;
  outbox_id = row_id o;
  trip_id = i.trip_id;
  message_id = i.message_id;
  event_id = i.event_id;
  mutation_sequence = i.mutation_sequence;
  expected_trip_revision = i.expected_trip_revision;
  kind = i.command_kind;
  state = i.state;
  runtime_sync_state = i.runtime_sync_state;
  outcome_status = i.outcome_status;
  outcome_payload = i.outcome_payload;
  resulting_trip_revision = i.resulting_trip_revision;
  resulting_current_plan_id = i.resulting_current_plan_id;
  resulting_planner_state_version = i.resulting_planner_state_version;
  recorded_at = i.recorded_at;
  finalized_at = i.finalized_at;
  duplicate = duplicate;
}

-- scanRecordedCommand. A jsonb value is valid JSON, and the columns that are natural numbers are not
-- negative.
unfoldable pub scan_recorded_command : Bool → Intent → Option Outbox → Result RecordedCommand
scan_recorded_command duplicate i o = do
  guard (not (i.mutation_sequence == 0) && byte_count i.payload_digest == 32) storage_contract
  guard (valid_or_null i.resulting_current_plan_id) storage_contract
  ok (recorded_command duplicate i o)

-- The rows that the query for unresolved commands locks.
unfoldable pub is_unresolved : String → Intent → Bool
is_unresolved trip_id i =
    same i.trip_id trip_id
    && (is_runtime_first i.application_order && same_intent_state i.state IntentState.pending
        || not (is_runtime_first i.application_order)
          && (same_sync_state i.runtime_sync_state SyncState.pending
              || same_sync_state i.runtime_sync_state SyncState.paused_internal))

abbrev pub planned : {A : Type 0} → (PlannedCurrentPlan → A) → Option PlannedCurrentPlan → Option A
planned f none = none
planned f (some p) = some (f p)
