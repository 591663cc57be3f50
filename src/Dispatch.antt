-- ===== src/Dispatch.antt =====
-- Dispatcher of backend/internal/dispatch/dispatcher.go over the interfaces that it is given: what a
-- worker does with each row of the outbox. The interfaces act on a state S. A context is not
-- cancelled, DecodeStoredEvent and NewRequestID are parts of the interfaces, and the callback
-- onRuntimeFinalized, which has no result, is left out.
pub mod Requests
pub mod Events
pub mod Settled
pub mod Pass
pub mod Finalizer
pub mod Kinds
pub mod Stores
pub mod Kept
pub mod Held
pub mod Database
pub mod Outcomes
pub mod Resolved
mod Tests
use live_route.Base.{
  ℕ, ◌+◌, ◌/◌, String, Bool, true, false, not, ◌&&◌, ◌||◌, Option, none, some, List, [], ◌∷◌, ◌==◌,
  ltb, if◌then◌else◌, same,
}
use live_route.Base.Result.{Error, Result, ok, err, confirmation_conflict}
use live_route.Store.{ApplicationOrder, CommandKind, RuntimeLease}
use live_route.Lease.{Duration}
use live_route.Terminal.Rows.{FinalizedCommand, is_runtime_first}
use live_route.Mirror.{FinalizeCanonicalMirrorRequest, FinalizedCanonicalMirror}
use live_route.Confirm.{ConfirmFinalizedMutationsRequest, ConfirmedFinalizedMutations}
use live_route.Delivery.Claims.{ClaimedOutboxRow}
use live_route.Delivery.Pending.{PendingFinalizationConfirmation}
use live_route.Wire.{
  ApplyTripEvent, RequestPayload, PlannerStreamRequest, EventAcknowledged, PlannerStreamResponse,
  PlannerError, FinalizedMutationsAcknowledged, PlanDecisionEvent, apply_event,
  confirm_finalized_mutations, get_event_acknowledged, get_finalized_mutations_acknowledged,
  get_error, get_plan_decision,
}
use live_route.Dispatch.Events.{
  event_matches_command, status_name, is_accepted, is_ok_or_duplicate, is_unspecified,
  terminal_status, is_terminal,
}
use live_route.Dispatch.Requests.{
  Config, Call, Dispatcher, Dispatched, unresolved, without_value, confirms, mirror_request,
  answers, Verdict, again, stop, go_on, verdict, apply_request, lacks_result,
}

module _ {S : Type 0} (d : Dispatcher S) where
  abbrev released : ClaimedOutboxRow → String → S → Result Duration → Result (Unit {0}) × S
  released row status s (err e) = (err e, s)
  released row status s (ok delay) = d.release_for_retry row (d.config).claim_owner status delay s

  unfoldable pub retry : ClaimedOutboxRow → String → S → Result (Unit {0}) × S
  retry row status s = released row status s (d.retry_delay row.attempt_count s)

  unfoldable pub pause : ClaimedOutboxRow → String → S → Result (Unit {0}) × S
  pause row status s = d.pause_internal row (d.config).claim_owner status s

  -- dispatcher.now().Add(dispatcher.config.AttemptTimeout).UnixMilli()
  abbrev expiry : S → ℕ
  expiry s = (d.now s + (d.config).attempt_timeout) / 1_000_000

  abbrev pub confirmation_request : String → ℕ → ℕ → S → String → PlannerStreamRequest
  confirmation_request trip_id epoch sequence s id = record {
    request_id = id;
    trip_id = trip_id;
    runtime_epoch = epoch;
    mutation_sequence = 0;
    observation_sequence = 0;
    expected_planner_state_version = none;
    expires_at_unix_ms = expiry s;
    expected_trip_revision = none;
    payload = confirm_finalized_mutations sequence;
  }

  abbrev confirm_answered :
      PlannerStreamRequest → ℕ → Result PlannerStreamResponse × S → Result (Unit {0}) × S
  confirm_answered q sequence (err e, s) = (err e, s)
  confirm_answered q sequence (ok r, s) =
      if not (confirms q sequence r (get_finalized_mutations_acknowledged r))
      then (err confirmation_conflict, s)
      else without_value (
          d.confirm_finalized
            (record { trip_id = q.trip_id; finalized_mutation_sequence = sequence }) s)

  abbrev confirm_requested : String → ℕ → ℕ → S → Result String → Result (Unit {0}) × S
  confirm_requested trip_id epoch sequence s (err e) = (err e, s)
  confirm_requested trip_id epoch sequence s (ok id) =
      let q = confirmation_request trip_id epoch sequence s id in
      confirm_answered q sequence (d.exchange q s)

  unfoldable pub confirm : String → ℕ → ℕ → S → Result (Unit {0}) × S
  confirm trip_id epoch sequence s = confirm_requested trip_id epoch sequence s (d.new_request_id s)

  -- The last steps: a confirmation that fails does not make the row unresolved.
  abbrev confirmed : Result (Unit {0}) × S → Dispatched S
  confirmed (r, s) = (s, true, r)

  abbrev pub finalized : {A : Type 0} → ClaimedOutboxRow → ℕ → Result A × S → Dispatched S
  finalized row epoch (err e, s) = (s, false, err e)
  finalized row epoch (ok a, s) = confirmed (confirm row.trip_id epoch row.mutation_sequence s)

  -- An acknowledgement that is correlated with the request is finalized.
  abbrev pub resolve :
      ClaimedOutboxRow
      → ApplyTripEvent
      → PlannerStreamRequest
      → PlannerStreamResponse
      → EventAcknowledged
      → S
      → Dispatched S
  resolve row event q r ack s =
      if is_runtime_first row.application_order
      then finalized row q.runtime_epoch (d.finalize row event r ack s)
      else finalized row q.runtime_epoch (d.finalize_canonical_mirror (mirror_request row r ack) s)

  abbrev decided :
      Verdict
      → ClaimedOutboxRow
      → ApplyTripEvent
      → PlannerStreamRequest
      → PlannerStreamResponse
      → EventAcknowledged
      → S
      → Dispatched S
  decided (again status) row event q r ack s = unresolved (retry row status s)
  decided stop row event q r ack s = unresolved (pause row "INTERNAL" s)
  decided go_on row event q r ack s =
      if not (answers row q r ack)
      then unresolved (pause row "INTERNAL" s)
      else resolve row event q r ack s

  -- A response without an acknowledgement.
  abbrev refused : ClaimedOutboxRow → S → Option PlannerError → Result (Unit {0}) × S
  refused row s none = pause row "INTERNAL" s
  refused row s (some e) =
      if e.retryable then retry row (status_name e.status) s else pause row "INTERNAL" s

  abbrev acknowledged :
      ClaimedOutboxRow
      → ApplyTripEvent
      → PlannerStreamRequest
      → PlannerStreamResponse
      → S
      → Option EventAcknowledged
      → Dispatched S
  acknowledged row event q r s none = unresolved (refused row s (get_error r))
  acknowledged row event q r s (some ack) = decided (verdict row ack) row event q r ack s

  abbrev answered :
      ClaimedOutboxRow
      → ApplyTripEvent
      → PlannerStreamRequest
      → Result PlannerStreamResponse × S
      → Dispatched S
  answered row event q (err e, s) = unresolved (retry row "UNAVAILABLE" s)
  answered row event q (ok r, s) = acknowledged row event q r s (get_event_acknowledged r)

  abbrev requested :
      ClaimedOutboxRow → ApplyTripEvent → RuntimeLease → S → Result String → Dispatched S
  requested row event lease s (err e) = unresolved (retry row "INTERNAL" s)
  requested row event lease s (ok id) =
      let q = apply_request row event lease (expiry s) id in answered row event q (d.exchange q s)

  abbrev leased : ClaimedOutboxRow → ApplyTripEvent → S → Result RuntimeLease → Dispatched S
  leased row event s (err e) = unresolved (retry row "UNAVAILABLE" s)
  leased row event s (ok lease) = requested row event lease s (d.new_request_id s)

  abbrev stored : ClaimedOutboxRow → S → Option ApplyTripEvent → Dispatched S
  stored row s none = unresolved (pause row "INVALID_STORED_EVENT" s)
  stored row s (some event) =
      if not (same event.event_id row.event_id)
        || not (event_matches_command row.command_kind event.event)
        || not (is_runtime_first row.application_order) && lacks_result row
      then unresolved (pause row "INVALID_STORED_EVENT" s)
      else leased row event s (d.current row.trip_id (d.config).lease_holder s)

  unfoldable pub dispatch : ClaimedOutboxRow → S → Dispatched S
  dispatch row s =
      if not (row.event_schema_version == 1)
      then unresolved (pause row "INVALID_STORED_EVENT" s)
      else stored row s (d.decode_stored_event row.event_payload)

  -- The state, the number of resolved rows, and the errors that are joined.
  abbrev pub Pass : Type 0
  Pass = S × ℕ × List Error

  abbrev counted : Dispatched S → Pass → Pass
  counted (s, resolved, r) (s', n, es) =
      (s', if resolved then n + 1 else n, elim r [ ok _ ↦ es | err e ↦ e ∷ es ])

  -- The loop of RunOnce.
  unfoldable pub dispatch_rows : List ClaimedOutboxRow → S → Pass
  dispatch_rows [] s = (s, 0, [])
  dispatch_rows (row ∷ rows) s = let one = dispatch row s in counted one (dispatch_rows rows one.0)

  -- The loop of recoverConfirmations, which stops at the first confirmation that fails.
  abbrev after_confirm : Result (Unit {0}) × S → (S → Result (Unit {0}) × S) → Result (Unit {0}) × S
  after_confirm (err e, s) rest = (err e, s)
  after_confirm (ok _, s) rest = rest s

  abbrev recover_one : String → ℕ → S → Result RuntimeLease → Result (Unit {0}) × S
  recover_one trip_id sequence s (err e) = (ok tt, s)
  recover_one trip_id sequence s (ok lease) = confirm trip_id lease.runtime_epoch sequence s

  unfoldable pub recover_each : List PendingFinalizationConfirmation → S → Result (Unit {0}) × S
  recover_each [] s = (ok tt, s)
  recover_each (v ∷ vs) s =
      after_confirm
        (recover_one v.trip_id v.finalized_mutation_sequence s
          (d.current v.trip_id (d.config).lease_holder s))
        (recover_each vs)

  abbrev recover_pending : Result (List PendingFinalizationConfirmation) × S → Result (Unit {0}) × S
  recover_pending (err e, s) = (err e, s)
  recover_pending (ok values, s) = recover_each values s

  unfoldable pub recover_confirmations : S → Result (Unit {0}) × S
  recover_confirmations s =
      recover_pending (d.pending_finalization_confirmations (d.config).batch_size s)

  abbrev claimed : Result (List ClaimedOutboxRow) × S → Pass
  claimed (err e, s) = (s, 0, e ∷ [])
  claimed (ok rows, s) = dispatch_rows rows s

  abbrev recovered : Result (Unit {0}) × S → Pass
  recovered (err e, s) = (s, 0, e ∷ [])
  recovered (ok _, s) =
      claimed (d.claim_due (d.config).claim_owner (d.config).batch_size (d.config).claim_duration s)

  unfoldable pub run_once : S → Pass
  run_once s = recovered (recover_confirmations s)
