-- ===== src/Telemetry.antt =====
-- TelemetryDispatcher.Dispatch of backend/internal/dispatch/telemetry.go, on the supervisor. The planner
-- client and NewRequestID are parameters, and so are the steps that other calls take between the
-- reservation and the commit. The context is not nil, and the id that Dispatch writes into the caller's
-- event shows in the request.
pub mod Settled
mod Tests
use live_route.Base.{
  ℕ, ◌+◌, ◌/◌, String, Bool, false, not, ◌&&◌, Option, none, some, List, ◌==◌, if◌then◌else◌, same,
}
use live_route.Base.Result.{Result, ok, err, telemetry_invalid, telemetry_uncorrelated}
use live_route.Supervisor.{RuntimeSupervisor, RuntimeVersions}
use live_route.Supervisor.Commits.{reserve_observation, commit_observation}
use live_route.Supervisor.Steps.{Step, run}
use live_route.Dispatch.Events.{status_name}
use live_route.Wire.{
  ApplyTripEvent, RequestPayload, PlannerStreamRequest, EventAcknowledged, PlannerStreamResponse,
  EventDisposition, apply_event, get_event_acknowledged,
}

-- What a call meets: NewRequestID, the clock and the timeout in nanoseconds, the steps of other calls
-- until the planner has answered, and its answer.
pub record Surroundings : Type 0 where
  pub new_request_id : Result String
  pub now : ℕ
  pub timeout : ℕ
  pub meanwhile : List Step
  pub exchange : PlannerStreamRequest → Result PlannerStreamResponse

-- The supervisor, the observation number and the response.
abbrev pub Dispatched : Type 0
Dispatched = RuntimeSupervisor × ℕ × Result PlannerStreamResponse

abbrev pub apply_request :
    Surroundings → String → ApplyTripEvent → String → RuntimeVersions → ℕ → PlannerStreamRequest
apply_request x trip_id event id v next = record {
  request_id = id;
  trip_id = trip_id;
  runtime_epoch = v.runtime_epoch;
  mutation_sequence = 0;
  observation_sequence = next;
  expected_planner_state_version = none;
  expected_trip_revision = none;
  expires_at_unix_ms = (x.now + x.timeout) / 1_000_000;
  payload = apply_event (record event { event_id = id });
}

-- The id of the event that the request carries.
abbrev pub request_event_id : RequestPayload → String
request_event_id (apply_event event) = event.event_id
request_event_id _ = ""

unfoldable pub correlates : PlannerStreamRequest → PlannerStreamResponse → EventAcknowledged → Bool
correlates q r a =
    same r.request_id q.request_id
    && same r.trip_id q.trip_id
    && r.runtime_epoch == q.runtime_epoch
    && same a.event_id (request_event_id q.payload)

abbrev pub committed :
    ℕ → PlannerStreamResponse → RuntimeSupervisor × Result (Unit {0}) → Dispatched
committed next r (s, ok _) = (s, next, ok r)
committed next r (s, err e) = (s, next, err e)

abbrev pub acknowledge :
    RuntimeSupervisor
    → PlannerStreamRequest
    → PlannerStreamResponse
    → Option EventAcknowledged
    → Dispatched
acknowledge s q r none = (s, q.observation_sequence, err telemetry_uncorrelated)
acknowledge s q r (some a) =
    if not (correlates q r a)
    then (s, q.observation_sequence, err telemetry_uncorrelated)
    else committed q.observation_sequence r (
        commit_observation s q.trip_id r.runtime_epoch a.resolved_observation_sequence
          r.accepted_mutation_sequence r.planner_state_version)

abbrev pub answered :
    RuntimeSupervisor → PlannerStreamRequest → Result PlannerStreamResponse → Dispatched
answered s q (err e) = (s, q.observation_sequence, err e)
answered s q (ok r) = acknowledge s q r (get_event_acknowledged r)

-- After the reservation.
abbrev pub request_of :
    Surroundings
    → RuntimeSupervisor
    → String
    → ApplyTripEvent
    → RuntimeVersions
    → ℕ
    → Result String
    → Dispatched
request_of x s trip_id event v next (err e) = (s, 0, err e)
request_of x s trip_id event v next (ok id) =
    let q = apply_request x trip_id event id v next in answered (run s x.meanwhile) q (x.exchange q)

abbrev pub reserved :
    Surroundings
    → String
    → ApplyTripEvent
    → RuntimeSupervisor × Result (RuntimeVersions × ℕ)
    → Dispatched
reserved x trip_id event (s, err e) = (s, 0, err e)
reserved x trip_id event (s, ok (v, next)) = request_of x s trip_id event v next x.new_request_id

unfoldable pub dispatch :
    Surroundings → RuntimeSupervisor → String → Option ApplyTripEvent → Dispatched
dispatch x s trip_id none = (s, 0, err telemetry_invalid)
dispatch x s trip_id (some event) = reserved x trip_id event (reserve_observation s trip_id)

-- TelemetryDisposition, with the flag for the client to try again.
unfoldable pub telemetry_disposition : PlannerStreamResponse → String × String × Bool
telemetry_disposition r = elim (get_event_acknowledged r) [
  | none ↦ ("rejected", "INTERNAL", false)
  | some ack ↦ elim ack.disposition [
    | EventDisposition.accepted ↦ ("accepted", status_name ack.status, false)
    | EventDisposition.duplicate ↦ ("accepted", status_name ack.status, false)
    | EventDisposition.stale ↦ ("dropped", status_name ack.status, false)
    | _ ↦ ("rejected", status_name ack.status, ack.retryable)
  ]
]
