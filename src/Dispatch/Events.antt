-- ===== src/Dispatch/Events.antt =====
-- The tests of backend/internal/dispatch/dispatcher.go and runtime_finalizer.go on events, statuses and
-- dispositions.
use live_route.Base.{String, Bool, true, false, Option, none, some}
use live_route.Store.{CommandKind}
use live_route.Wire.{StatusCode, EventDisposition, PlanDecision, TripEvent}

abbrev pub is_accept : PlanDecision → Bool
is_accept PlanDecision.accept = true
is_accept _ = false

abbrev pub is_reject : PlanDecision → Bool
is_reject PlanDecision.reject = true
is_reject _ = false

unfoldable pub event_matches_command : CommandKind → TripEvent → Bool
event_matches_command CommandKind.activity_status_changed (TripEvent.activity_status_changed a b) =
    true
event_matches_command CommandKind.activity_delayed (TripEvent.activity_delayed a b) = true
event_matches_command CommandKind.reservation_changed (TripEvent.reservation_changed a b c) = true
event_matches_command CommandKind.mandatory_deadline_changed
      (TripEvent.mandatory_deadline_changed a b) =
    true
event_matches_command CommandKind.operating_hours_changed (TripEvent.operating_hours_changed a b) =
    true
event_matches_command CommandKind.place_found_closed (TripEvent.place_found_closed a b) = true
event_matches_command CommandKind.travel_delay (TripEvent.travel_delay a b c) = true
event_matches_command CommandKind.accept_proposal (TripEvent.plan_decision d) = is_accept d.decision
event_matches_command CommandKind.reject_proposal (TripEvent.plan_decision d) = is_reject d.decision
event_matches_command CommandKind.trip_edited TripEvent.trip_edited = true
event_matches_command CommandKind.replace_current_plan TripEvent.current_plan_replaced = true
event_matches_command _ _ = false

-- statusName
unfoldable pub status_name : StatusCode → String
status_name StatusCode.unspecified = "INTERNAL"
status_name StatusCode.ok_status = "OK"
status_name StatusCode.duplicate = "DUPLICATE"
status_name StatusCode.stale = "STALE"
status_name StatusCode.invalid_argument = "INVALID_ARGUMENT"
status_name StatusCode.unauthenticated = "UNAUTHENTICATED"
status_name StatusCode.permission_denied = "PERMISSION_DENIED"
status_name StatusCode.not_found = "NOT_FOUND"
status_name StatusCode.idempotency_key_reused = "IDEMPOTENCY_KEY_REUSED"
status_name StatusCode.inactive_trip = "INACTIVE_TRIP"
status_name StatusCode.resource_exhausted = "RESOURCE_EXHAUSTED"
status_name StatusCode.deadline_exceeded = "DEADLINE_EXCEEDED"
status_name StatusCode.command_expired = "COMMAND_EXPIRED"
status_name StatusCode.cancelled = "CANCELLED"
status_name StatusCode.infeasible = "INFEASIBLE"
status_name StatusCode.provider_unavailable = "PROVIDER_UNAVAILABLE"
status_name StatusCode.durability_unavailable = "DURABILITY_UNAVAILABLE"
status_name StatusCode.unavailable = "UNAVAILABLE"
status_name StatusCode.unsupported_version = "UNSUPPORTED_VERSION"
status_name StatusCode.snapshot_not_ready = "SNAPSHOT_NOT_READY"
status_name StatusCode.snapshot_incompatible = "SNAPSHOT_INCOMPATIBLE"
status_name StatusCode.internal = "INTERNAL"
status_name StatusCode.matrix_too_large = "MATRIX_TOO_LARGE"

abbrev pub is_accepted : EventDisposition → Bool
is_accepted EventDisposition.accepted = true
is_accepted EventDisposition.duplicate = true
is_accepted _ = false

abbrev pub is_unspecified : EventDisposition → Bool
is_unspecified EventDisposition.unspecified = true
is_unspecified _ = false

abbrev pub is_ok_or_duplicate : StatusCode → Bool
is_ok_or_duplicate StatusCode.ok_status = true
is_ok_or_duplicate StatusCode.duplicate = true
is_ok_or_duplicate _ = false

-- terminalStatus; none is its false.
unfoldable pub terminal_status : StatusCode → Option String
terminal_status StatusCode.stale = some "STALE"
terminal_status StatusCode.invalid_argument = some "INVALID_ARGUMENT"
terminal_status StatusCode.not_found = some "NOT_FOUND"
terminal_status StatusCode.command_expired = some "COMMAND_EXPIRED"
terminal_status StatusCode.infeasible = some "INFEASIBLE"
terminal_status _ = none

abbrev is_given : Option String → Bool
is_given none = false
is_given (some _) = true

unfoldable pub is_terminal : StatusCode → Bool
unfolding terminal_status
is_terminal s = is_given (terminal_status s)
