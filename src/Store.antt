-- ===== src/Store.antt =====
-- The PostgreSQL tables that the repositories of backend/internal/persistence share, as migrations/
-- declare them. A text column with a CHECK on its values is a data type; a timestamptz is a number of
-- microseconds since Go's zero time; uuid, bytea and jsonb values are texts. A bigint with a CHECK
-- that it is not negative is a natural number.
use live_route.Base.{ℕ, ℤ, String, Bool, true, false, List, Option}

pub data ProposalState : Type 0 where
  pending accepted rejected stale superseded : ProposalState

pub data IntentState : Type 0 where
  pending applied rejected expired : IntentState

pub data SyncState : Type 0 where
  not_required pending synced paused_internal : SyncState

pub data DeliveryState : Type 0 where
  pending paused_internal accepted terminal_rejected : DeliveryState

pub data ApplicationOrder : Type 0 where
  canonical_first runtime_first : ApplicationOrder

pub data CommandKind : Type 0 where
  create_trip activity_status_changed activity_delayed trip_edited reservation_changed : CommandKind
  mandatory_deadline_changed operating_hours_changed place_found_closed travel_delay : CommandKind
  replace_current_plan accept_proposal reject_proposal : CommandKind

pub record Trip : Type 0 where
  pub id : String
  pub owner_user_id : String
  pub trip_revision : ℕ
  pub finalized_mutation_sequence : ℕ
  pub next_mutation_sequence : ℕ
  pub current_plan_id : String
  pub updated_at : ℕ

-- A row of trip_runtime_leases, and the RuntimeLease that is scanned from it.
pub record RuntimeLease : Type 0 where
  pub trip_id : String
  pub holder_id : String
  pub runtime_epoch : ℕ
  pub lease_expires_at : ℕ
  pub renewed_at : ℕ

pub record Proposal : Type 0 where
  pub id : String
  pub trip_id : String
  pub base_current_plan_id : String
  pub source_runtime_epoch : ℕ
  pub source_planner_state_version : ℕ
  pub source_trip_revision : ℕ
  pub source_accepted_mutation_sequence : ℕ
  pub payload : String
  pub payload_size_bytes : ℕ
  pub checksum_sha256 : String
  pub state : ProposalState
  pub decision_message_id : Option String
  pub created_at : ℕ
  pub decided_at : Option ℕ

pub record Intent : Type 0 where
  pub id : String
  pub trip_id : String
  pub message_id : String
  pub event_id : String
  pub mutation_sequence : ℕ
  pub expected_trip_revision : ℕ
  pub command_kind : CommandKind
  pub command_expires_at : Option ℕ
  pub application_order : ApplicationOrder
  pub digest_algorithm : String
  pub payload_digest : String
  pub command_payload : String
  pub planned_current_plan_id : Option String
  pub planned_current_plan_payload : Option String
  pub planned_current_plan_checksum_sha256 : Option String
  pub state : IntentState
  pub outcome_status : Option String
  pub outcome_payload : Option String
  pub resulting_trip_revision : Option ℕ
  pub resulting_planner_state_version : Option ℕ
  pub resulting_current_plan_id : Option String
  pub runtime_sync_state : SyncState
  pub recorded_at : ℕ
  pub finalized_at : Option ℕ

pub record Outbox : Type 0 where
  pub id : String
  pub command_intent_id : String
  pub trip_id : String
  pub mutation_sequence : ℕ
  pub event_schema_version : ℕ
  pub event_payload : String
  pub delivery_state : DeliveryState
  pub attempt_count : ℕ
  pub next_attempt_at : ℕ
  pub last_attempt_at : Option ℕ
  pub last_status : Option String
  pub claim_owner : Option String
  pub claim_expires_at : Option ℕ
  pub finalization_confirmed_at : Option ℕ
  pub updated_at : ℕ

-- A row of trip_activities, in the columns that commands change. The timestamps of the three tables
-- that follow are written from Unix milliseconds, an int64.
pub record Activity : Type 0 where
  pub id : String
  pub trip_id : String
  pub activity_state : String
  pub activity_delay_seconds : ℕ
  pub found_closed_at : Option ℤ
  pub reservation_start : Option ℤ
  pub reservation_grace_seconds : ℕ
  pub mandatory_deadline : Option ℤ

pub record ActivityWindow : Type 0 where
  pub trip_id : String
  pub activity_id : String
  pub window_index : ℕ
  pub opens_at : ℤ
  pub closes_at : ℤ

pub record TravelDelay : Type 0 where
  pub trip_id : String
  pub from_activity_id : String
  pub to_activity_id : String
  pub additional_seconds : ℕ
  pub observed_at : ℤ

pub record Db : Type 0 where
  pub trips : List Trip
  pub leases : List RuntimeLease
  pub proposals : List Proposal
  pub intents : List Intent
  pub outbox : List Outbox
  pub activities : List Activity
  pub open_windows : List ActivityWindow
  pub travel_delays : List TravelDelay

abbrev pub is_pending_proposal : ProposalState → Bool
is_pending_proposal ProposalState.pending = true
is_pending_proposal _ = false
