-- ===== src/Dispatch/Finalizer.antt =====
-- RuntimeFinalizer of backend/internal/dispatch/runtime_finalizer.go over the store that it is given.
-- json.Marshal in stableOutcome is a parameter.
use live_route.Base.{ℕ, String, Bool, true, false, ◌&&◌, Option, none, some, if◌then◌else◌, map}
use live_route.Base.Result.{
  Result, ok, err, acknowledgement_not_terminal, decision_invalid, unsupported_event,
}
use live_route.Decision.Rows.{FinalizeProposalDecisionRequest}
use live_route.Terminal.Rows.{FinalizeTerminalCommandRequest, FinalizedCommand}
use live_route.Accepted.Mutation.{AcceptedMutation, FinalizeAcceptedMutationRequest, OpenWindow}
use live_route.Delivery.Claims.{ClaimedOutboxRow}
use live_route.Wire.{
  ApplyTripEvent, TripEvent, ActivityState, TimeWindow, PlanDecision, PlanDecisionEvent, StatusCode,
  StaleReason, EventAcknowledged, PlannerStreamResponse, get_plan_decision,
}
use live_route.Dispatch.Requests.{Call}
use live_route.Dispatch.Events.{status_name, is_accepted, terminal_status}

pub record RuntimeCommandStore (S : Type 0) : Type 0 where
  pub finalize_accepted_mutation : FinalizeAcceptedMutationRequest → Call S FinalizedCommand
  pub finalize_proposal_acceptance : FinalizeProposalDecisionRequest → Call S FinalizedCommand
  pub finalize_proposal_rejection : FinalizeProposalDecisionRequest → Call S FinalizedCommand
  pub finalize_stale_proposal_decision : FinalizeProposalDecisionRequest → Call S FinalizedCommand
  pub finalize_terminal : FinalizeTerminalCommandRequest → Call S FinalizedCommand

abbrev pub proposal_request :
    ClaimedOutboxRow → PlanDecisionEvent → ℕ → String → FinalizeProposalDecisionRequest
proposal_request row decision version outcome = record {
  trip_id = row.trip_id;
  intent_id = row.command_intent_id;
  outbox_id = row.id;
  event_id = row.event_id;
  mutation_sequence = row.mutation_sequence;
  expected_trip_revision = row.expected_trip_revision;
  resulting_planner_state_version = version;
  identity = record {
    proposal_id = decision.proposal_id;
    source_runtime_epoch = decision.source_runtime_epoch;
    source_planner_state_version = decision.source_planner_state_version;
    base_current_plan_id = decision.base_current_plan_id;
  };
  outcome_payload = some outcome;
}

abbrev pub terminal_request :
    ClaimedOutboxRow → ℕ → String → String → FinalizeTerminalCommandRequest
terminal_request row version status outcome = record {
  trip_id = row.trip_id;
  intent_id = row.command_intent_id;
  outbox_id = row.id;
  event_id = row.event_id;
  mutation_sequence = row.mutation_sequence;
  expected_trip_revision = row.expected_trip_revision;
  resulting_planner_state_version = version;
  status = status;
  outcome_payload = some outcome;
}

abbrev pub mutation_request :
    ClaimedOutboxRow → ℕ → AcceptedMutation → String → FinalizeAcceptedMutationRequest
mutation_request row version mutation outcome = record {
  trip_id = row.trip_id;
  intent_id = row.command_intent_id;
  outbox_id = row.id;
  event_id = row.event_id;
  mutation_sequence = row.mutation_sequence;
  expected_trip_revision = row.expected_trip_revision;
  resulting_planner_state_version = version;
  mutation = mutation;
  outcome_payload = some outcome;
}

abbrev state_text : ActivityState → String
state_text ActivityState.planned = "planned"
state_text ActivityState.started = "started"
state_text ActivityState.completed = "completed"
state_text ActivityState.skipped = "skipped"
state_text ActivityState.unspecified = ""

abbrev open_window : TimeWindow → OpenWindow
open_window w = record {
  opens_at_unix_milliseconds = w.opens_at_unix_ms;
  closes_at_unix_milliseconds = w.closes_at_unix_ms;
}

abbrev no_mutation : AcceptedMutation
no_mutation = record {
  activity_status = none;
  activity_delay = none;
  reservation = none;
  mandatory_deadline = none;
  operating_hours = none;
  place_found_closed = none;
  travel_delay = none;
}

-- acceptedMutation
abbrev pub mutation_of : ApplyTripEvent → TripEvent → Result AcceptedMutation
mutation_of e (TripEvent.activity_status_changed id state) = ok (record no_mutation {
  activity_status = some (record { activity_id = id; state = state_text state });
})
mutation_of e (TripEvent.activity_delayed id seconds) = ok (record no_mutation {
  activity_delay = some (record { activity_id = id; delay_seconds = seconds });
})
mutation_of e (TripEvent.reservation_changed id start grace) = ok (record no_mutation {
  reservation = some (record {
    activity_id = id;
    reservation_start_unix_milliseconds = start;
    reservation_grace_seconds = grace;
  });
})
mutation_of e (TripEvent.mandatory_deadline_changed id finish) = ok (record no_mutation {
  mandatory_deadline = some (record { activity_id = id; latest_finish_unix_milliseconds = finish });
})
mutation_of e (TripEvent.operating_hours_changed id windows) = ok (record no_mutation {
  operating_hours = some (record { activity_id = id; open_windows = map open_window windows });
})
mutation_of e (TripEvent.place_found_closed id observed) = ok (record no_mutation {
  place_found_closed = some (record { activity_id = id; observed_at_unix_milliseconds = observed });
})
mutation_of e (TripEvent.travel_delay from to seconds) = ok (record no_mutation {
  travel_delay = some (record {
    from_activity_id = from;
    to_activity_id = to;
    additional_seconds = seconds;
    observed_at_unix_milliseconds = e.occurred_at_unix_ms;
  });
})
mutation_of e _ = err unsupported_event

unfoldable pub accepted_mutation : ApplyTripEvent → Result AcceptedMutation
accepted_mutation e = mutation_of e e.event

abbrev pub is_stale : StatusCode → Bool
is_stale StatusCode.stale = true
is_stale _ = false

abbrev pub is_plan_proposal : StaleReason → Bool
is_plan_proposal StaleReason.plan_proposal = true
is_plan_proposal _ = false

module _ {S : Type 0} (stable_outcome : String → String → ℕ → Result String)
    (store : RuntimeCommandStore S) where
  abbrev pub decided_accepted :
      PlanDecision → FinalizeProposalDecisionRequest → Call S FinalizedCommand
  decided_accepted PlanDecision.accept q s = store.finalize_proposal_acceptance q s
  decided_accepted PlanDecision.reject q s = store.finalize_proposal_rejection q s
  decided_accepted PlanDecision.unspecified q s = (err decision_invalid, s)

  abbrev pub mutated_accepted :
      ClaimedOutboxRow → ℕ → String → Result AcceptedMutation → Call S FinalizedCommand
  mutated_accepted row version outcome (err e) s = (err e, s)
  mutated_accepted row version outcome (ok m) s =
      store.finalize_accepted_mutation (mutation_request row version m outcome) s

  abbrev pub accepted_with :
      ClaimedOutboxRow
      → ApplyTripEvent
      → ℕ
      → String
      → Option PlanDecisionEvent
      → Call S FinalizedCommand
  accepted_with row event version outcome none s =
      mutated_accepted row version outcome (accepted_mutation event) s
  accepted_with row event version outcome (some decision) s =
      decided_accepted decision.decision (proposal_request row decision version outcome) s

  abbrev pub accepted_outcome :
      ClaimedOutboxRow → ApplyTripEvent → ℕ → Result String → Call S FinalizedCommand
  accepted_outcome row event version (err e) s = (err e, s)
  accepted_outcome row event version (ok outcome) s =
      accepted_with row event version outcome (get_plan_decision event) s

  -- finalizeAccepted
  unfoldable pub finalize_accepted :
      ClaimedOutboxRow → ApplyTripEvent → PlannerStreamResponse → Call S FinalizedCommand
  finalize_accepted row event r s =
      accepted_outcome row event r.planner_state_version
        (stable_outcome row.event_id "OK" r.planner_state_version) s

  abbrev pub rejected_with :
      ClaimedOutboxRow
      → ℕ
      → EventAcknowledged
      → String
      → String
      → Option PlanDecisionEvent
      → Call S FinalizedCommand
  rejected_with row version ack status outcome none s =
      store.finalize_terminal (terminal_request row version status outcome) s
  rejected_with row version ack status outcome (some decision) s =
      if is_stale ack.status && is_plan_proposal ack.stale_reason
      then store.finalize_stale_proposal_decision (proposal_request row decision version outcome) s
      else store.finalize_terminal (terminal_request row version status outcome) s

  abbrev pub rejected_outcome :
      ClaimedOutboxRow
      → ApplyTripEvent
      → ℕ
      → EventAcknowledged
      → String
      → Result String
      → Call S FinalizedCommand
  rejected_outcome row event version ack status (err e) s = (err e, s)
  rejected_outcome row event version ack status (ok outcome) s =
      rejected_with row version ack status outcome (get_plan_decision event) s

  abbrev pub finalize_rejected :
      ClaimedOutboxRow
      → ApplyTripEvent
      → ℕ
      → EventAcknowledged
      → Option String
      → Call S FinalizedCommand
  finalize_rejected row event version ack none s = (err acknowledgement_not_terminal, s)
  finalize_rejected row event version ack (some status) s =
      rejected_outcome row event version ack status
        (stable_outcome row.event_id (status_name ack.status) version) s

  unfoldable pub finalize :
      ClaimedOutboxRow
      → ApplyTripEvent
      → PlannerStreamResponse
      → EventAcknowledged
      → Call S FinalizedCommand
  unfolding finalize_accepted
  finalize row event r ack s =
      if is_accepted ack.disposition
      then finalize_accepted row event r s
      else finalize_rejected row event r.planner_state_version ack (terminal_status ack.status) s
