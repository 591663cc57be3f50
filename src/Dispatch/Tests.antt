-- ===== src/Dispatch/Tests.antt =====
-- A pass at concrete inputs: over a store of one row that is due until it is settled, and over the
-- tables of the fixture.
use live_route.Base.{
  String, Bool, true, false, ◌||◌, none, some, List, [], ◌∷◌, if◌then◌else◌, same, pos, ◌+◌, ◌≡◌,
  refl, string_discrete,
}
use live_route.Base.Result.{ok, err, command_not_found}
use live_route.Store.{ApplicationOrder, CommandKind, IntentState, RuntimeLease, Activity}
use live_route.Lease.{nanoseconds}
use live_route.Terminal.Rows.{FinalizedCommand}
use live_route.Delivery.Claims.{ClaimedOutboxRow}
use live_route.Wire.{
  ApplyTripEvent, TripEvent, EventDisposition, StatusCode, StaleReason, PlannerStreamRequest,
  PlannerStreamResponse, EventAcknowledged, ResponsePayload, apply_event,
  confirm_finalized_mutations,
}
use live_route.Dispatch.{
  run_once, recover_confirmations, recover_each, dispatch_rows, dispatch, confirm,
}
use live_route.Dispatch.Events.{event_matches_command}
use live_route.Dispatch.Requests.{Dispatcher, Call, answers}
use live_route.Dispatch.Pass.{Reported}
use live_route.Dispatch.Database
use live_route.Dispatch.Database.{World, Backend}
use live_route.Dispatch.Resolved.{settled, Orderly, worker_laws, run_once-worker-Reported}
use live_route.Fixture.{up, db}
use live_route.Dispatch.Kinds.{HasKind, is_mutation_command, accepted_mutation-HasKind}
use live_route.Dispatch.Finalizer.{accepted_mutation}

-- The rows that are settled.
abbrev Settled : Type 0
Settled = List String

abbrev is_in : Settled → String → Bool
is_in [] id = false
is_in (x ∷ xs) id = same x id || is_in xs id

abbrev row : ClaimedOutboxRow
row = record {
  id = "0197f3a2-0000-7000-8000-000000000004";
  command_intent_id = "0197f3a2-0000-7000-8000-000000000001";
  trip_id = "0197f3a2-0000-7000-8000-00000000000a";
  mutation_sequence = 3;
  event_schema_version = 1;
  event_payload = "stored";
  attempt_count = 1;
  claim_expires_at = 9_000;
  event_id = "0197f3a2-0000-7000-8000-000000000003";
  expected_trip_revision = 4;
  application_order = ApplicationOrder.runtime_first;
  command_kind = CommandKind.activity_delayed;
  command_expires_at = none;
  resulting_trip_revision = 0;
  resulting_current_plan_id = "";
}

abbrev event : ApplyTripEvent
event = record {
  event_id = "0197f3a2-0000-7000-8000-000000000003";
  occurred_at_unix_ms = pos 1_000;
  event = TripEvent.activity_delayed "0197f3a2-0000-7000-8000-000000000009" 600;
}

abbrev lease : RuntimeLease
lease = record {
  trip_id = "0197f3a2-0000-7000-8000-00000000000a";
  holder_id = "planner";
  runtime_epoch = 5;
  lease_expires_at = 90_000;
  renewed_at = 100;
}

-- A planner that applies every event and confirms every sequence.
abbrev reply : PlannerStreamRequest → ResponsePayload
reply q = elim q.payload [
  | apply_event e ↦ ResponsePayload.event_acknowledged (record {
    disposition = EventDisposition.accepted;
    status = StatusCode.ok_status;
    retryable = false;
    stale_reason = StaleReason.unspecified;
    event_id = e.event_id;
    resolved_mutation_sequence = q.mutation_sequence;
    resolved_observation_sequence = 0;
    resulting_current_plan_id = "";
  })
  | confirm_finalized_mutations n ↦
      ResponsePayload.finalized_mutations_acknowledged
        (record { status = StatusCode.ok_status; finalized_mutation_sequence = n })
]

abbrev exchange : PlannerStreamRequest → Call Settled PlannerStreamResponse
exchange q s = (
  ok (record {
    request_id = q.request_id;
    trip_id = q.trip_id;
    runtime_epoch = q.runtime_epoch;
    accepted_mutation_sequence = 3;
    planner_state_version = 4;
    trip_revision = 4;
    payload = reply q;
  }),
  s,
)

abbrev finalize :
    ClaimedOutboxRow
    → ApplyTripEvent
    → PlannerStreamResponse
    → EventAcknowledged
    → Call Settled FinalizedCommand
finalize r e answer ack s = (
  ok (record {
    intent_id = r.command_intent_id;
    outbox_id = r.id;
    trip_id = r.trip_id;
    event_id = r.event_id;
    mutation_sequence = r.mutation_sequence;
    state = IntentState.applied;
    status = "OK";
    resulting_trip_revision = r.expected_trip_revision;
    resulting_planner_state_version = answer.planner_state_version;
    finalized_at = 1_000;
    duplicate = false;
  }),
  r.id ∷ s,
)

abbrev worker : Dispatcher Settled
worker = record {
  config = record {
    claim_owner = "worker";
    lease_holder = "planner";
    batch_size = 10;
    claim_duration = nanoseconds 1_000_000;
    attempt_timeout = 5_000_000;
  };
  claim_due = λ owner n t s. (ok (if is_in s row.id then [] else row ∷ []), s);
  release_for_retry = λ r owner status t s. (ok tt, s);
  pause_internal = λ r owner status s. (ok tt, s);
  pending_finalization_confirmations = λ n s. (ok [], s);
  current = λ trip holder s. ok lease;
  exchange = exchange;
  finalize_canonical_mirror = λ q s. (err command_not_found, s);
  finalize = finalize;
  confirm_finalized = λ q s. (
    ok (record {
      trip_id = q.trip_id;
      finalized_mutation_sequence = q.finalized_mutation_sequence;
      confirmed_at = 1_000;
      rows_confirmed = 1;
      duplicate = false;
    }),
    s,
  );
  now = λ s. 7_000_000;
  retry_delay = λ n s. ok (nanoseconds 1_000_000);
  new_request_id = λ s. ok "0197f3a2-0000-7000-8000-0000000000aa";
  decode_stored_event = λ p. if same p "stored" then some event else none;
}

one_pass : run_once worker [] ≡ (row.id ∷ [], 1, [])
unfolding run_once string_discrete recover_confirmations recover_each dispatch_rows dispatch
    event_matches_command answers confirm
one_pass = refl

two_passes : run_once worker (row.id ∷ []) ≡ (row.id ∷ [], 0, [])
unfolding run_once string_discrete recover_confirmations recover_each dispatch_rows
two_passes = refl

-- Over the stores: the fixture's row, whose claim has expired, a lease and the row's activity.
abbrev museum : Activity
museum = record {
  id = "0197f3a2-0000-7000-8000-000000000009";
  trip_id = "0197f3a2-0000-7000-8000-00000000000a";
  activity_state = "planned";
  activity_delay_seconds = 0;
  found_closed_at = none;
  reservation_start = none;
  reservation_grace_seconds = 0;
  mandatory_deadline = none;
}

abbrev due : World
due = record { db = record db { activities = museum ∷ []; leases = lease ∷ [] }; calls = 0 }

abbrev backend : Backend
backend = record {
  config = worker.config;
  link = λ n. up;
  clock = λ n. 10_000 + n;
  locked = λ n o. false;
  others = λ n tables. tables;
  now = λ n. 7_000_000;
  planner = λ n q. (exchange q []).0;
  rand_int = λ n limit. some 0;
  new_request_id = λ n. ok "0197f3a2-0000-7000-8000-0000000000aa";
  valid_json = λ p. true;
  decode_stored_event = λ p. some event;
  stable_outcome = λ id status version. ok "{}";
  finalize_proposal_acceptance = λ link now tables q. (err command_not_found, tables);
}

backend-Orderly : Orderly backend
backend-Orderly = record {
  others_keep = λ n tables id h. h;
  acceptance_settles =
      λ link now tables q. record { keeps = λ id h. h; settles = λ a tables' e. absurd (cc) };
}

run_once-worker-Reported_example :
    Reported
      (Database.worker backend)
      settled
      (worker_laws backend backend-Orderly)
      due
      (run_once (Database.worker backend) due)
run_once-worker-Reported_example = run_once-worker-Reported backend backend-Orderly due

accepted_mutation-HasKind_example : HasKind CommandKind.activity_delayed (accepted_mutation event)
unfolding is_mutation_command event_matches_command
accepted_mutation-HasKind_example =
    accepted_mutation-HasKind CommandKind.activity_delayed event refl refl
