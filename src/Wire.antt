-- ===== src/Wire.antt =====
-- The messages of the planner's protocol, proto/liveroute/v1/planner.proto, with the fields that the
-- dispatchers of backend/internal/dispatch read or write. A getter on a part that is not given finds
-- nothing; a nil response is one without a payload.
use live_route.Base.{ℕ, ℤ, String, Bool, Option, none, some, List}

pub data StatusCode : Type 0 where
  unspecified ok_status duplicate stale invalid_argument unauthenticated : StatusCode
  permission_denied not_found idempotency_key_reused inactive_trip resource_exhausted : StatusCode
  deadline_exceeded command_expired cancelled infeasible provider_unavailable : StatusCode
  durability_unavailable unavailable unsupported_version snapshot_not_ready : StatusCode
  snapshot_incompatible internal matrix_too_large : StatusCode

pub data EventDisposition : Type 0 where
  unspecified accepted duplicate stale rejected : EventDisposition

pub data StaleReason : Type 0 where
  unspecified epoch mutation_sequence observation_sequence trip_revision : StaleReason
  planner_state_version plan_proposal : StaleReason

pub data PlanDecision : Type 0 where
  unspecified accept reject : PlanDecision

pub data ActivityState : Type 0 where
  unspecified planned started completed skipped : ActivityState

pub record TimeWindow : Type 0 where
  pub opens_at_unix_ms : ℤ
  pub closes_at_unix_ms : ℤ

pub record PlanDecisionEvent : Type 0 where
  pub decision : PlanDecision
  pub proposal_id : String
  pub source_runtime_epoch : ℕ
  pub source_planner_state_version : ℕ
  pub base_current_plan_id : String

-- The oneof `event` of ApplyTripEvent. The contents of the others are not read.
pub data TripEvent : Type 0 where
  activity_status_changed : String → ActivityState → TripEvent
  activity_delayed : String → ℕ → TripEvent
  reservation_changed : String → Option ℤ → ℕ → TripEvent
  mandatory_deadline_changed : String → ℤ → TripEvent
  operating_hours_changed : String → List TimeWindow → TripEvent
  place_found_closed : String → ℤ → TripEvent
  travel_delay : String → String → ℕ → TripEvent
  plan_decision : PlanDecisionEvent → TripEvent
  trip_edited current_plan_replaced location_updated velocity_updated : TripEvent
  heading_updated route_deviation_detected advisory_update not_given : TripEvent

pub record ApplyTripEvent : Type 0 where
  pub event_id : String
  pub occurred_at_unix_ms : ℤ
  pub event : TripEvent

pub data RequestPayload : Type 0 where
  apply_event : ApplyTripEvent → RequestPayload
  confirm_finalized_mutations : ℕ → RequestPayload

pub record PlannerStreamRequest : Type 0 where
  pub request_id : String
  pub trip_id : String
  pub runtime_epoch : ℕ
  pub mutation_sequence : ℕ
  pub observation_sequence : ℕ
  pub expected_planner_state_version : Option ℕ
  pub expires_at_unix_ms : ℕ
  pub expected_trip_revision : Option ℕ
  pub payload : RequestPayload

pub record EventAcknowledged : Type 0 where
  pub disposition : EventDisposition
  pub status : StatusCode
  pub retryable : Bool
  pub stale_reason : StaleReason
  pub event_id : String
  pub resolved_mutation_sequence : ℕ
  pub resolved_observation_sequence : ℕ
  pub resulting_current_plan_id : String

pub record PlannerError : Type 0 where
  pub status : StatusCode
  pub retryable : Bool

pub record FinalizedMutationsAcknowledged : Type 0 where
  pub status : StatusCode
  pub finalized_mutation_sequence : ℕ

pub data ResponsePayload : Type 0 where
  event_acknowledged : EventAcknowledged → ResponsePayload
  finalized_mutations_acknowledged : FinalizedMutationsAcknowledged → ResponsePayload
  error : PlannerError → ResponsePayload
  other : ResponsePayload

pub record PlannerStreamResponse : Type 0 where
  pub request_id : String
  pub trip_id : String
  pub runtime_epoch : ℕ
  pub accepted_mutation_sequence : ℕ
  pub planner_state_version : ℕ
  pub trip_revision : ℕ
  pub payload : ResponsePayload

abbrev pub get_event_acknowledged : PlannerStreamResponse → Option EventAcknowledged
get_event_acknowledged r = elim r.payload [ event_acknowledged a ↦ some a | _ ↦ none ]

abbrev pub get_finalized_mutations_acknowledged :
    PlannerStreamResponse → Option FinalizedMutationsAcknowledged
get_finalized_mutations_acknowledged r = elim r.payload [
  | finalized_mutations_acknowledged a ↦ some a
  | _ ↦ none
]

abbrev pub get_error : PlannerStreamResponse → Option PlannerError
get_error r = elim r.payload [ error e ↦ some e | _ ↦ none ]

abbrev pub get_plan_decision : ApplyTripEvent → Option PlanDecisionEvent
get_plan_decision e = elim e.event [ plan_decision d ↦ some d | _ ↦ none ]
