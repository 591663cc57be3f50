-- ===== src/Dispatch/Settled.antt =====
-- A pass of the dispatcher over a store that keeps settled rows settled.
use live_route.Base.{
  ℕ, String, Bool, true, not, ◌&&◌, ◌||◌, Option, none, some, ◌==◌, same, ◌≡◌, refl, both_branches,
}
use live_route.Base.Result.{Result, ok, err}
use live_route.Store.{RuntimeLease}
use live_route.Lease.{Duration}
use live_route.Terminal.Rows.{FinalizedCommand, is_runtime_first}
use live_route.Mirror.{FinalizeCanonicalMirrorRequest, FinalizedCanonicalMirror}
use live_route.Confirm.{ConfirmFinalizedMutationsRequest}
use live_route.Delivery.Claims.{ClaimedOutboxRow}
use live_route.Wire.{
  ApplyTripEvent, PlannerStreamRequest, EventAcknowledged, PlannerStreamResponse, PlannerError,
  get_event_acknowledged, get_error, get_finalized_mutations_acknowledged,
}
use live_route.Dispatch.Events.{event_matches_command}
use live_route.Dispatch.{
  confirmation_request, released, retry, pause, confirm, confirm_requested, confirm_answered,
  finalized, resolve, decided, refused, acknowledged, answered, requested, leased, stored, dispatch,
  expiry,
}
use live_route.Dispatch.Requests.{
  Dispatcher, Dispatched, unresolved, without_value, Verdict, again, stop, go_on, verdict, confirms,
  answers, mirror_request, lacks_result, apply_request,
}

-- What the interfaces promise of the rows that are settled: accepted or terminally rejected.
pub record Laws {S : Type 0} (d : Dispatcher S) (settled : S → String → Bool) : Type 0 where
  pub claim_keeps :
      (owner : String) (n : ℕ) (t : Duration) (s : S) (id : String)
      → settled s id ≡ true
      → settled (d.claim_due owner n t s).1 id ≡ true
  pub release_keeps :
      (row : ClaimedOutboxRow) (owner status : String) (t : Duration) (s : S) (id : String)
      → settled s id ≡ true
      → settled (d.release_for_retry row owner status t s).1 id ≡ true
  pub pause_keeps :
      (row : ClaimedOutboxRow) (owner status : String) (s : S) (id : String)
      → settled s id ≡ true
      → settled (d.pause_internal row owner status s).1 id ≡ true
  pub pending_keeps :
      (n : ℕ) (s : S) (id : String)
      → settled s id ≡ true
      → settled (d.pending_finalization_confirmations n s).1 id ≡ true
  pub exchange_keeps :
      (q : PlannerStreamRequest) (s : S) (id : String)
      → settled s id ≡ true
      → settled (d.exchange q s).1 id ≡ true
  pub mirror_keeps :
      (q : FinalizeCanonicalMirrorRequest) (s : S) (id : String)
      → settled s id ≡ true
      → settled (d.finalize_canonical_mirror q s).1 id ≡ true
  pub finalize_keeps :
      (row : ClaimedOutboxRow) (event : ApplyTripEvent) (r : PlannerStreamResponse)
      (ack : EventAcknowledged) (s : S) (id : String)
      → settled s id ≡ true
      → settled (d.finalize row event r ack s).1 id ≡ true
  pub confirm_keeps :
      (q : ConfirmFinalizedMutationsRequest) (s : S) (id : String)
      → settled s id ≡ true
      → settled (d.confirm_finalized q s).1 id ≡ true
  pub mirror_settles :
      (q : FinalizeCanonicalMirrorRequest) (s s' : S) (m : FinalizedCanonicalMirror)
      → d.finalize_canonical_mirror q s ≡ (ok m, s')
      → settled s' q.outbox_id ≡ true
  pub finalize_settles :
      (row : ClaimedOutboxRow) (event : ApplyTripEvent) (r : PlannerStreamResponse)
      (ack : EventAcknowledged) (s s' : S) (c : FinalizedCommand)
      → d.finalize row event r ack s ≡ (ok c, s')
      → settled s' row.id ≡ true

module _ {S : Type 0} (d : Dispatcher S) (settled : S → String → Bool) (k : Laws d settled) where
  abbrev pub Keeps : S → S → Type 0
  Keeps s s' = (id : String) → settled s id ≡ true → settled s' id ≡ true

  -- Settled rows stay, and a row that is reported as resolved is settled.
  abbrev pub IsSound : ClaimedOutboxRow → S → Dispatched S → Type 0
  IsSound row s (s', b, r) = Keeps s s' × (b ≡ true → settled s' row.id ≡ true)

  released-Keeps :
      (row : ClaimedOutboxRow) (status : String) (s : S) (r : Result Duration)
      → Keeps s (released d row status s r).1
  released-Keeps row status s (err e) id h = h
  released-Keeps row status s (ok t) id h = k.release_keeps row _ status t s id h

  retry-Keeps :
      (row : ClaimedOutboxRow) (status : String) (s : S) → Keeps s (retry d row status s).1
  unfolding retry
  retry-Keeps row status s = released-Keeps row status s (d.retry_delay row.attempt_count s)

  pause-Keeps :
      (row : ClaimedOutboxRow) (status : String) (s : S) → Keeps s (pause d row status s).1
  unfolding pause
  pause-Keeps row status s = k.pause_keeps row _ status s

  without_value-Keeps :
      {A : Type 0} (s : S) (p : Result A × S) → Keeps s p.1 → Keeps s (without_value p).1
  without_value-Keeps s (ok a, s') h = h
  without_value-Keeps s (err e, s') h = h

  confirm_answered-Keeps :
      (q : PlannerStreamRequest) (n : ℕ) (s : S) (p : Result PlannerStreamResponse × S)
      → Keeps s p.1
      → Keeps s (confirm_answered d q n p).1
  confirm_answered-Keeps q n s (err e, s') h = h
  confirm_answered-Keeps q n s (ok r, s') h =
      both_branches (λ (z : Result (Unit {0}) × S). Keeps s z.1)
        (not (confirms q n r (get_finalized_mutations_acknowledged r))) (λ _. h)
        (λ _.
          let c : ConfirmFinalizedMutationsRequest = record {
            trip_id = q.trip_id;
            finalized_mutation_sequence = n;
          } in
          without_value-Keeps s (d.confirm_finalized c s')
            (λ id g. k.confirm_keeps c s' id (h id g)))

  confirm_requested-Keeps :
      (t : String) (epoch n : ℕ) (s : S) (r : Result String)
      → Keeps s (confirm_requested d t epoch n s r).1
  confirm_requested-Keeps t epoch n s (err e) = λ id h. h
  confirm_requested-Keeps t epoch n s (ok i) =
      let q = confirmation_request d t epoch n s i in
      confirm_answered-Keeps q n s (d.exchange q s) (k.exchange_keeps q s)

  pub confirm-Keeps : (t : String) (epoch n : ℕ) (s : S) → Keeps s (confirm d t epoch n s).1
  unfolding confirm
  confirm-Keeps t epoch n s = confirm_requested-Keeps t epoch n s (d.new_request_id s)

  unresolved-IsSound :
      (row : ClaimedOutboxRow) (s : S) (p : Result (Unit {0}) × S)
      → Keeps s p.1
      → IsSound row s (unresolved p)
  unresolved-IsSound row s (r, s') h = (h, λ e. absurd (cc))

  retry-IsSound :
      (row : ClaimedOutboxRow) (status : String) (s s' : S)
      → Keeps s s'
      → IsSound row s (unresolved (retry d row status s'))
  retry-IsSound row status s s' h =
      unresolved-IsSound row s (retry d row status s')
        (λ id o. retry-Keeps row status s' id (h id o))

  pause-IsSound :
      (row : ClaimedOutboxRow) (status : String) (s s' : S)
      → Keeps s s'
      → IsSound row s (unresolved (pause d row status s'))
  pause-IsSound row status s s' h =
      unresolved-IsSound row s (pause d row status s')
        (λ id o. pause-Keeps row status s' id (h id o))

  finalized-IsSound :
      {A : Type 0} (row : ClaimedOutboxRow) (epoch : ℕ) (s : S) (p : Result A × S)
      → Keeps s p.1
      → ((a : A) (s' : S) → p ≡ (ok a, s') → settled s' row.id ≡ true)
      → IsSound row s (finalized d row epoch p)
  finalized-IsSound row epoch s (err e, s') h g = (h, λ e. absurd (cc))
  finalized-IsSound row epoch s (ok a, s') h g =
      let c = confirm-Keeps row.trip_id epoch row.mutation_sequence s' in
      (λ id o. c id (h id o), λ _. c row.id (g a s' refl))

  -- The state in which the planner's answer is dealt with may be another one than at the start.
  module _ (row : ClaimedOutboxRow) (event : ApplyTripEvent) (s : S) where
    resolve-IsSound :
        (q : PlannerStreamRequest) (r : PlannerStreamResponse) (ack : EventAcknowledged) (s' : S)
        → Keeps s s'
        → IsSound row s (resolve d row event q r ack s')
    resolve-IsSound q r ack s' h =
        both_branches (IsSound row s) (is_runtime_first row.application_order)
          (λ _.
            finalized-IsSound row q.runtime_epoch s (d.finalize row event r ack s')
              (λ id o. k.finalize_keeps row event r ack s' id (h id o))
              (λ c z e. k.finalize_settles row event r ack s' z c e))
          (λ _.
            finalized-IsSound row q.runtime_epoch s
              (d.finalize_canonical_mirror (mirror_request row r ack) s')
              (λ id o. k.mirror_keeps (mirror_request row r ack) s' id (h id o))
              (λ m z e. k.mirror_settles (mirror_request row r ack) s' z m e))

    decided-IsSound :
        (v : Verdict) (q : PlannerStreamRequest) (r : PlannerStreamResponse)
        (ack : EventAcknowledged) (s' : S)
        → Keeps s s'
        → IsSound row s (decided d v row event q r ack s')
    decided-IsSound (again status) q r ack s' h = retry-IsSound row status s s' h
    decided-IsSound stop q r ack s' h = pause-IsSound row _ s s' h
    decided-IsSound go_on q r ack s' h =
        both_branches (IsSound row s) (not (answers row q r ack)) (λ _. pause-IsSound row _ s s' h)
          (λ _. resolve-IsSound q r ack s' h)

    refused-Keeps : (s' : S) (e : Option PlannerError) → Keeps s' (refused d row s' e).1
    refused-Keeps s' none = pause-Keeps row _ s'
    refused-Keeps s' (some e) =
        both_branches (λ (z : Result (Unit {0}) × S). Keeps s' z.1) e.retryable
          (λ _. retry-Keeps row _ s') (λ _. pause-Keeps row _ s')

    acknowledged-IsSound :
        (q : PlannerStreamRequest) (r : PlannerStreamResponse) (s' : S)
        (a : Option EventAcknowledged)
        → Keeps s s'
        → IsSound row s (acknowledged d row event q r s' a)
    acknowledged-IsSound q r s' none h =
        unresolved-IsSound row s (refused d row s' (get_error r))
          (λ id o. refused-Keeps s' (get_error r) id (h id o))
    acknowledged-IsSound q r s' (some ack) h = decided-IsSound (verdict row ack) q r ack s' h

    answered-IsSound :
        (q : PlannerStreamRequest) (p : Result PlannerStreamResponse × S)
        → Keeps s p.1
        → IsSound row s (answered d row event q p)
    answered-IsSound q (err e, s') h = retry-IsSound row _ s s' h
    answered-IsSound q (ok r, s') h = acknowledged-IsSound q r s' (get_event_acknowledged r) h

    requested-IsSound :
        (lease : RuntimeLease) (r : Result String) → IsSound row s (requested d row event lease s r)
    requested-IsSound lease (err e) = retry-IsSound row _ s s (λ id o. o)
    requested-IsSound lease (ok id) =
        let q = apply_request row event lease (expiry d s) id in
        answered-IsSound q (d.exchange q s) (k.exchange_keeps q s)

    leased-IsSound : (r : Result RuntimeLease) → IsSound row s (leased d row event s r)
    leased-IsSound (err e) = retry-IsSound row _ s s (λ id o. o)
    leased-IsSound (ok lease) = requested-IsSound lease (d.new_request_id s)

  stored-IsSound :
      (row : ClaimedOutboxRow) (s : S) (e : Option ApplyTripEvent)
      → IsSound row s (stored d row s e)
  stored-IsSound row s none = pause-IsSound row _ s s (λ id o. o)
  stored-IsSound row s (some event) =
      both_branches (IsSound row s)
        (not (same event.event_id row.event_id)
          || not (event_matches_command row.command_kind event.event)
          || not (is_runtime_first row.application_order) && lacks_result row)
        (λ _. pause-IsSound row _ s s (λ id o. o))
        (λ _. leased-IsSound row event s (d.current row.trip_id (d.config).lease_holder s))

  pub dispatch-IsSound : (row : ClaimedOutboxRow) (s : S) → IsSound row s (dispatch d row s)
  unfolding dispatch
  dispatch-IsSound row s =
      both_branches (IsSound row s) (not (row.event_schema_version == 1))
        (λ _. pause-IsSound row _ s s (λ id o. o))
        (λ _. stored-IsSound row s (d.decode_stored_event row.event_payload))
