-- ===== src/Accepted/Replay.antt =====
-- A FinalizeAcceptedMutation that is sent again.
use mathlib.Core.Path.{subst}
use live_route.Base.{
  ℕ, ◌+◌, ◌≡◌, refl, ap, ◌∙◌, inl, inr, true, false, some, arith, same, same_self,
}
use live_route.Base.Table.{
  find_where, find_where-update_where_self, find_where-update_where_hit, find_where-holds,
}
use live_route.Base.Result.{
  ok, Link, Stage, commit_as, begin, lock_trip, read_intent, read_outbox, compare_payload, commit,
}
use live_route.Store.{Db, Trip, Intent, Outbox, DeliveryState, CommandKind}
use live_route.Proposal.{is_trip}
use live_route.Decision.Rows.{advance_decided}
use live_route.Terminal.{is_pending_intent}
use live_route.Terminal.Rows.{
  FinalizedCommand, is_runtime_intent, is_outbox_of, has_intent_id, has_outbox_id, time_of,
  payload_matches, resolve_outbox, is_json,
}
use live_route.Terminal.Outcome.{payload_matches_self}
use live_route.Terminal.Replay.{as_duplicate}
use live_route.Accepted.{
  applied_command, apply_intent, write_accepted, accepted_is_stored, accepted_again, accepted_rows,
  accepted_outbox, accepted_intent, accepted_trip, finalize_accepted_tx, finalize_accepted_mutation,
}
use live_route.Accepted.Mutation.{
  FinalizeAcceptedMutationRequest, validate_accepted_mutation_request, kind_text,
}
use live_route.Accepted.Effects.{Keeps, apply-Keeps}
use live_route.Accepted.Outcome.{Applied, First, finalize_accepted_mutation-Applied}

valid-is_json :
    (r : FinalizeAcceptedMutationRequest) (kind : CommandKind)
    → validate_accepted_mutation_request r ≡ ok kind
    → is_json r.outcome_payload ≡ true
unfolding validate_accepted_mutation_request
valid-is_json r kind h = ground arith

module _ (link : Link) (now : ℕ) (db : Db) (r : FinalizeAcceptedMutationRequest) where
  run_again :
      (kind : CommandKind) (trip : Trip) (i : Intent) (o : Outbox)
      → ((stage : Stage) → link stage ≡ false)
      → validate_accepted_mutation_request r ≡ ok kind
      → find_where (is_trip r.trip_id) db.trips ≡ some trip
      → find_where (is_runtime_intent r.intent_id r.trip_id) db.intents ≡ some i
      → find_where (is_outbox_of r.outbox_id r.intent_id r.trip_id) db.outbox ≡ some o
      → i.event_id ≡ r.event_id
      → i.mutation_sequence ≡ r.mutation_sequence
      → i.expected_trip_revision ≡ r.expected_trip_revision
      → same (kind_text i.command_kind) (kind_text kind) ≡ true
      → is_pending_intent i.state ≡ false
      → accepted_is_stored r i o ≡ true
      → payload_matches i.outcome_payload r.outcome_payload ≡ ok true
      → finalize_accepted_mutation link now db r
        ≡ (ok (applied_command r (time_of i.finalized_at) true), db)
  unfolding finalize_accepted_mutation finalize_accepted_tx accepted_trip accepted_intent
      accepted_outbox accepted_rows accepted_again commit_as
  run_again kind trip i o up v et ei eo e1 e2 e3 ek p s m = ground (
    arith,
    v,
    up begin,
    up lock_trip,
    up read_intent,
    up read_outbox,
    up compare_payload,
    up commit,
    et,
    ei,
    eo,
    e1,
    e2,
    e3,
    ek,
    p,
    s,
    m,
    same_self i.event_id,
    same_self r.event_id,
  )

  -- The rows of a first finalization.
  module _ (sequence : ℕ) (mid : Db) (k : Keeps db mid) where
    trip_kept :
        (trip : Trip)
        → find_where (is_trip r.trip_id) db.trips ≡ some trip
        → find_where (is_trip r.trip_id) (write_accepted r sequence now mid).trips
          ≡ some (advance_decided (r.expected_trip_revision + 1) sequence now trip)
    unfolding write_accepted
    trip_kept trip e =
        find_where-update_where_self (is_trip r.trip_id)
          (advance_decided (r.expected_trip_revision + 1) sequence now) mid.trips (λ x h. h)
          (ap (find_where (is_trip r.trip_id)) k.trips ∙ e)

    intent_resolved :
        (i : Intent)
        → find_where (is_runtime_intent r.intent_id r.trip_id) db.intents ≡ some i
        → find_where
            (is_runtime_intent r.intent_id r.trip_id)
            (write_accepted r sequence now mid).intents
          ≡ some (apply_intent r now i)
    unfolding write_accepted
    intent_resolved i e =
        find_where-update_where_hit _ (has_intent_id r.intent_id) (apply_intent r now) mid.intents
          (λ x. refl)
          (ground (arith, find_where-holds (is_runtime_intent r.intent_id r.trip_id) db.intents e))
          (ap (find_where (is_runtime_intent r.intent_id r.trip_id)) k.intents ∙ e)

    outbox_resolved :
        (o : Outbox)
        → find_where (is_outbox_of r.outbox_id r.intent_id r.trip_id) db.outbox ≡ some o
        → find_where
            (is_outbox_of r.outbox_id r.intent_id r.trip_id)
            (write_accepted r sequence now mid).outbox
          ≡ some (resolve_outbox DeliveryState.accepted "OK" now o)
    unfolding write_accepted
    outbox_resolved o e =
        find_where-update_where_hit _ (has_outbox_id r.outbox_id)
          (resolve_outbox DeliveryState.accepted "OK" now) mid.outbox (λ x. refl)
          (ground
            (arith, find_where-holds (is_outbox_of r.outbox_id r.intent_id r.trip_id) db.outbox e))
          (ap (find_where (is_outbox_of r.outbox_id r.intent_id r.trip_id)) k.outbox ∙ e)

  stored_first :
      (i : Intent) (o : Outbox)
      → accepted_is_stored r
          (apply_intent r now i)
          (resolve_outbox DeliveryState.accepted "OK" now o)
        ≡ true
  unfolding accepted_is_stored
  stored_first i o = ground (arith, same_self "OK")

  resolved_first : (i : Intent) → is_pending_intent (apply_intent r now i).state ≡ false
  unfolding is_pending_intent
  resolved_first i = refl

module _ (link link' : Link) (now now' : ℕ) (db db' : Db) (r : FinalizeAcceptedMutationRequest)
    (res : FinalizedCommand) where
  again-First :
      (d : Applied link now db db' r res)
      → ((stage : Stage) → link' stage ≡ false)
      → First link now db db' r res d.kind d.trip d.intent
      → finalize_accepted_mutation link' now' db' r ≡ (ok (as_duplicate res), db')
  again-First d up f =
      let n : ℕ = (d.intent).mutation_sequence in
      let w : Db = write_accepted r n now f.changed in
      let k = apply-Keeps link r.trip_id r.mutation db f.changed d.kind f.applied in
      let ran : finalize_accepted_mutation link' now' w r ≡ (ok (applied_command r now true), w) =
        run_again link' now' w r d.kind
          (advance_decided (r.expected_trip_revision + 1) n now d.trip)
          (apply_intent r now d.intent) (resolve_outbox DeliveryState.accepted "OK" now d.outbox) up
          d.valid (trip_kept link now db r n f.changed k d.trip d.trip_found)
          (intent_resolved link now db r n f.changed k d.intent d.intent_found)
          (outbox_resolved link now db r n f.changed k d.outbox d.outbox_found) d.identity.0
          d.identity.1 d.identity.2 d.same_kind (resolved_first link now db r d.intent)
          (stored_first link now db r d.intent d.outbox)
          (payload_matches_self r.outcome_payload (valid-is_json r d.kind d.valid)) in
      subst (λ z. finalize_accepted_mutation link' now' z r ≡ (ok (as_duplicate res), z)) f.written
        (ran ∙ ap (λ x. (ok (as_duplicate x), w)) f.result)

  -- A FinalizeAcceptedMutation that succeeded can be sent again at any later time: if the driver does
  -- not fail, it returns the same result, time of finalization included, now marked as a duplicate,
  -- and the tables stay as they are, so that the mutation is not applied twice.
  pub finalize_accepted_mutation-again :
      ((stage : Stage) → link' stage ≡ false)
      → finalize_accepted_mutation link now db r ≡ (ok res, db')
      → finalize_accepted_mutation link' now' db' r ≡ (ok (as_duplicate res), db')
  finalize_accepted_mutation-again up h =
      let d = finalize_accepted_mutation-Applied link now db db' r res h in
      elim d.how [
        | inl a ↦
            subst (λ z. finalize_accepted_mutation link' now' z r ≡ (ok (as_duplicate res), z))
              a.unchanged
              (run_again link' now' db r d.kind d.trip d.intent d.outbox up d.valid d.trip_found
                  d.intent_found d.outbox_found d.identity.0 d.identity.1 d.identity.2 d.same_kind
                  a.resolved a.stored a.payload
                ∙ ap (λ x. (ok (as_duplicate x), db)) a.result)
        | inr f ↦ again-First d up f
      ]
