-- ===== src/Telemetry/Tests.antt =====
-- Dispatch at a concrete input.
use live_route.Base.{pos, String, false, some, [], ◌∷◌, ◌≡◌, refl, string_discrete}
use live_route.Base.Dict.{lookup, insert, erase, string_key}
use live_route.Base.Result.{Result, ok}
use live_route.Supervisor.{RuntimeSupervisor, RuntimeVersions, deactivate}
use live_route.Supervisor.Commits.{reserve_observation, commit_observation}
use live_route.Supervisor.Steps.{loses, observes, step, run}
use live_route.Wire.{
  ApplyTripEvent, PlannerStreamRequest, PlannerStreamResponse, TripEvent, EventDisposition,
  StatusCode, StaleReason, event_acknowledged,
}
use live_route.Telemetry.{Surroundings, request_event_id, correlates, dispatch}
use live_route.Telemetry.Settled.{IsSettled, dispatch-IsSettled}

abbrev trip : String
trip = "11111111-1111-4111-8111-111111111111"

abbrev versions : RuntimeVersions
versions = record {
  runtime_epoch = 5;
  planner_state_version = 2;
  accepted_mutation_sequence = 7;
  accepted_observation_sequence = 3;
}

abbrev active : RuntimeSupervisor
active = record {
  max_active_trips = 2;
  active = (trip, 0) ∷ [];
  activating = [];
  state = (trip, versions) ∷ [];
  next_observation = (trip, 3) ∷ [];
  closed = false;
  resolved = [];
  cancelled = [];
  calls = 1;
}

abbrev after_reserving : RuntimeSupervisor
after_reserving = record active { next_observation = (trip, 4) ∷ [] }

-- A planner that accepts everything.
abbrev accepts : PlannerStreamRequest → Result PlannerStreamResponse
accepts q = ok (record {
  request_id = q.request_id;
  trip_id = q.trip_id;
  runtime_epoch = q.runtime_epoch;
  accepted_mutation_sequence = 7;
  planner_state_version = 4;
  trip_revision = 0;
  payload = event_acknowledged (record {
    disposition = EventDisposition.accepted;
    status = StatusCode.ok_status;
    retryable = false;
    stale_reason = StaleReason.unspecified;
    event_id = request_event_id q.payload;
    resolved_mutation_sequence = 0;
    resolved_observation_sequence = q.observation_sequence;
    resulting_current_plan_id = "";
  });
})

-- Another observation is committed before the planner answers.
abbrev busy : Surroundings
busy = record {
  new_request_id = ok "request";
  now = 5_000_000;
  timeout = 2_000_000;
  meanwhile = observes trip 5 9 8 1 ∷ [];
  exchange = accepts;
}

abbrev moved : ApplyTripEvent
moved = record { event_id = ""; occurred_at_unix_ms = pos 3; event = TripEvent.location_updated }

dispatch-IsSettled_example :
    IsSettled trip 5 4 (run after_reserving busy.meanwhile) (dispatch busy active trip (some moved))
unfolding reserve_observation lookup string_discrete insert
dispatch-IsSettled_example =
    dispatch-IsSettled busy active after_reserving trip moved versions 4 "request" refl refl

-- The commit keeps the later observation.
dispatch-busy :
    lookup trip (dispatch busy active trip (some moved)).0.state
    ≡ some (record {
      runtime_epoch = 5;
      planner_state_version = 4;
      accepted_mutation_sequence = 8;
      accepted_observation_sequence = 9;
    })
unfolding dispatch reserve_observation run correlates commit_observation step lookup string_discrete
    insert
dispatch-busy = refl

-- The trip loses its lease before the planner answers.
dispatch-late :
    (dispatch (record busy { meanwhile = loses trip ∷ [] }) active trip (some moved)).0.state ≡ []
unfolding dispatch reserve_observation run correlates commit_observation step lookup string_discrete
    insert erase deactivate
dispatch-late = refl
