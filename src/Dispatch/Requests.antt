-- ===== src/Dispatch/Requests.antt =====
-- What the dispatcher of backend/internal/dispatch/dispatcher.go is given, and its requests and tests
-- on a row, a response and an acknowledgement.
use live_route.Base.{
  ℕ, String, Bool, true, false, not, ◌&&◌, ◌||◌, Option, none, some, List, ◌==◌, ltb, if◌then◌else◌,
  same,
}
use live_route.Base.Result.{Result, ok, err}
use live_route.Store.{CommandKind, RuntimeLease}
use live_route.Lease.{Duration}
use live_route.Terminal.Rows.{FinalizedCommand, is_runtime_first}
use live_route.Mirror.{FinalizeCanonicalMirrorRequest, FinalizedCanonicalMirror}
use live_route.Confirm.{ConfirmFinalizedMutationsRequest, ConfirmedFinalizedMutations}
use live_route.Delivery.Claims.{ClaimedOutboxRow}
use live_route.Delivery.Pending.{PendingFinalizationConfirmation}
use live_route.Wire.{
  ApplyTripEvent, PlannerStreamRequest, EventAcknowledged, PlannerStreamResponse,
  FinalizedMutationsAcknowledged, PlanDecisionEvent, apply_event, get_plan_decision,
}
use live_route.Dispatch.Events.{
  status_name, is_accepted, is_ok_or_duplicate, is_unspecified, is_terminal,
}

pub record Config : Type 0 where
  pub claim_owner : String
  pub lease_holder : String
  pub batch_size : ℕ
  pub claim_duration : Duration
  pub attempt_timeout : ℕ

-- A call of an interface.
abbrev pub Call : Type 0 → Type 0 → Type 0
Call S A = S → Result A × S

-- The struct, with the interfaces that it holds. `now` is in nanoseconds, as is the timeout.
pub record Dispatcher (S : Type 0) : Type 0 where
  pub config : Config
  pub claim_due : String → ℕ → Duration → Call S (List ClaimedOutboxRow)
  pub release_for_retry : ClaimedOutboxRow → String → String → Duration → Call S (Unit {0})
  pub pause_internal : ClaimedOutboxRow → String → String → Call S (Unit {0})
  pub pending_finalization_confirmations : ℕ → Call S (List PendingFinalizationConfirmation)
  pub current : String → String → S → Result RuntimeLease
  pub exchange : PlannerStreamRequest → Call S PlannerStreamResponse
  pub finalize_canonical_mirror : FinalizeCanonicalMirrorRequest → Call S FinalizedCanonicalMirror
  pub finalize :
      ClaimedOutboxRow
      → ApplyTripEvent
      → PlannerStreamResponse
      → EventAcknowledged
      → Call S FinalizedCommand
  pub confirm_finalized : ConfirmFinalizedMutationsRequest → Call S ConfirmedFinalizedMutations
  pub now : S → ℕ
  pub retry_delay : ℕ → S → Result Duration
  pub new_request_id : S → Result String
  pub decode_stored_event : String → Option ApplyTripEvent

-- The state, whether the row is resolved, and the error.
abbrev pub Dispatched : Type 0 → Type 0
Dispatched S = S × Bool × Result (Unit {0})

abbrev pub unresolved : {S : Type 0} → Result (Unit {0}) × S → Dispatched S
unresolved (r, s) = (s, false, r)

abbrev pub without_value : {S A : Type 0} → Result A × S → Result (Unit {0}) × S
without_value (ok a, s) = (ok tt, s)
without_value (err e, s) = (err e, s)

abbrev pub confirms :
    PlannerStreamRequest → ℕ → PlannerStreamResponse → Option FinalizedMutationsAcknowledged → Bool
confirms q sequence r none = false
confirms q sequence r (some ack) =
    same r.request_id q.request_id
    && same r.trip_id q.trip_id
    && r.runtime_epoch == q.runtime_epoch
    && is_ok_or_duplicate ack.status
    && not (ltb ack.finalized_mutation_sequence sequence)

abbrev pub mirror_request :
    ClaimedOutboxRow → PlannerStreamResponse → EventAcknowledged → FinalizeCanonicalMirrorRequest
mirror_request row r ack = record {
  trip_id = row.trip_id;
  intent_id = row.command_intent_id;
  outbox_id = row.id;
  event_id = row.event_id;
  mutation_sequence = row.mutation_sequence;
  expected_trip_revision = row.expected_trip_revision;
  resulting_trip_revision = r.trip_revision;
  resulting_current_plan_id = ack.resulting_current_plan_id;
}

unfoldable pub answers :
    ClaimedOutboxRow → PlannerStreamRequest → PlannerStreamResponse → EventAcknowledged → Bool
answers row q r ack =
    same r.request_id q.request_id
    && same r.trip_id row.trip_id
    && r.runtime_epoch == q.runtime_epoch
    && same ack.event_id row.event_id
    && not (ltb ack.resolved_mutation_sequence row.mutation_sequence)

-- What is to be done about an acknowledgement before it is correlated.
pub data Verdict : Type 0 where
  again : String → Verdict
  stop : Verdict
  go_on : Verdict

abbrev pub verdict : ClaimedOutboxRow → EventAcknowledged → Verdict
verdict row ack =
    let accepted = is_accepted ack.disposition && is_ok_or_duplicate ack.status in
    if not (is_runtime_first row.application_order) && not accepted
    then (if ack.retryable then again (status_name ack.status) else stop)
    else if is_runtime_first row.application_order && ack.retryable
    then again (status_name ack.status)
    else if is_runtime_first row.application_order
        && not (is_ok_or_duplicate ack.status)
        && (not (is_terminal ack.status) || is_unspecified ack.disposition)
    then stop
    else go_on

abbrev expected_version : Option PlanDecisionEvent → Option ℕ
expected_version none = none
expected_version (some e) = some e.source_planner_state_version

abbrev pub apply_request :
    ClaimedOutboxRow → ApplyTripEvent → RuntimeLease → ℕ → String → PlannerStreamRequest
apply_request row event lease expires id = record {
  request_id = id;
  trip_id = row.trip_id;
  runtime_epoch = lease.runtime_epoch;
  mutation_sequence = row.mutation_sequence;
  observation_sequence = 0;
  expected_planner_state_version = expected_version (get_plan_decision event);
  expires_at_unix_ms = expires;
  expected_trip_revision = some row.expected_trip_revision;
  payload = apply_event event;
}

abbrev is_mirrored : CommandKind → Bool
is_mirrored CommandKind.trip_edited = true
is_mirrored CommandKind.replace_current_plan = true
is_mirrored _ = false

-- A canonical-first row that does not say what it resulted in.
unfoldable pub lacks_result : ClaimedOutboxRow → Bool
lacks_result row =
    row.resulting_trip_revision == 0
    || same row.resulting_current_plan_id ""
    || not (is_mirrored row.command_kind)
