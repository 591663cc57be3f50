-- ===== src/Accepted/Outcome.antt =====
-- What a FinalizeAcceptedMutation that succeeds found and wrote.
use live_route.Base.{
  ℕ, ◌+◌, ◌≡◌, refl, ◌⊎◌, inl, inr, true, false, Option, none, some, arith, same, Bool-cases,
}
use live_route.Base.Table.{find_where}
use live_route.Base.Result.{Result, ok, err, Link, transact_ok, commit_as_ok, >>=-eq-ok}
use live_route.Store.{Db, Trip, Intent, Outbox, CommandKind}
use live_route.Proposal.{is_trip}
use live_route.Terminal.{is_pending_intent}
use live_route.Terminal.Rows.{
  FinalizedCommand, is_runtime_intent, is_outbox_of, time_of, payload_matches,
}
use live_route.Accepted.Mutation.{
  FinalizeAcceptedMutationRequest, validate_accepted_mutation_request, kind_text,
}
use live_route.Accepted.Apply.{apply_accepted_mutation}
use live_route.Accepted.{
  applied_command, write_accepted, accepted_is_stored, accepted_again, accepted_write,
  accepted_first, accepted_rows, accepted_outbox, accepted_intent, accepted_trip,
  finalize_accepted_tx, finalize_accepted_mutation,
}

module _ (link : Link) (now : ℕ) (db db' : Db) (r : FinalizeAcceptedMutationRequest)
    (res : FinalizedCommand) where
  -- The command was applied before, with the outcome that the request gives.
  pub record Again (i : Intent) (o : Outbox) : Type 0 where
    pub resolved : is_pending_intent i.state ≡ false
    pub stored : accepted_is_stored r i o ≡ true
    pub payload : payload_matches i.outcome_payload r.outcome_payload ≡ ok true
    pub result : applied_command r (time_of i.finalized_at) true ≡ res
    pub unchanged : db ≡ db'

  -- The command is the next one of its trip, at the trip's revision, and its mutation is applied
  -- before the rows of the command are written.
  pub record First (kind : CommandKind) (trip : Trip) (i : Intent) : Type 0 where
    pub unresolved : is_pending_intent i.state ≡ true
    pub at_revision : trip.trip_revision ≡ i.expected_trip_revision
    pub next : trip.finalized_mutation_sequence + 1 ≡ i.mutation_sequence
    pub changed : Db
    pub applied : apply_accepted_mutation link r.trip_id r.mutation kind db ≡ ok changed
    pub result : applied_command r now false ≡ res
    pub written : write_accepted r i.mutation_sequence now changed ≡ db'

  pub record Applied : Type 0 where
    pub kind : CommandKind
    pub trip : Trip
    pub intent : Intent
    pub outbox : Outbox
    pub valid : validate_accepted_mutation_request r ≡ ok kind
    pub trip_found : find_where (is_trip r.trip_id) db.trips ≡ some trip
    pub intent_found : find_where (is_runtime_intent r.intent_id r.trip_id) db.intents ≡ some intent
    pub outbox_found :
        find_where (is_outbox_of r.outbox_id r.intent_id r.trip_id) db.outbox ≡ some outbox
    pub identity :
        (intent.event_id ≡ r.event_id)
        × (intent.mutation_sequence ≡ r.mutation_sequence)
        × (intent.expected_trip_revision ≡ r.expected_trip_revision)
    pub same_kind : same (kind_text intent.command_kind) (kind_text kind) ≡ true
    pub how : Again intent outbox ⊎ First kind trip intent

  accepted_again-Again :
      (i : Intent) (o : Outbox)
      → is_pending_intent i.state ≡ false
      → accepted_again link db r i o ≡ ok (res, db')
      → Again i o
  unfolding accepted_again
  accepted_again-Again i o p h =
      let (e, d) =
        commit_as_ok link (applied_command r (time_of i.finalized_at) true) db {b = res} {t = db'}
          (ground arith) in
      record {
        resolved = p;
        stored = ground arith;
        payload = ground arith;
        result = e;
        unchanged = d;
      }

  accepted_write-eq :
      (i : Intent) (mid : Db)
      → accepted_write link now r i mid ≡ ok (res, db')
      → (applied_command r now false ≡ res) × (write_accepted r i.mutation_sequence now mid ≡ db')
  unfolding accepted_write
  accepted_write-eq i mid h =
      commit_as_ok link (applied_command r now false) (write_accepted r i.mutation_sequence now mid)
        {b = res} {t = db'} (ground arith)

  accepted_first-First :
      (kind : CommandKind) (trip : Trip) (i : Intent)
      → is_pending_intent i.state ≡ true
      → accepted_first link now db r kind trip i ≡ ok (res, db')
      → First kind trip i
  unfolding accepted_first
  accepted_first-First kind trip i p h =
      let (mid, e, w) =
        >>=-eq-ok (apply_accepted_mutation link r.trip_id r.mutation kind db)
          (accepted_write link now r i) {b = (res, db')} (ground arith) in
      let (e', d) = accepted_write-eq i mid w in
      record {
        unresolved = p;
        at_revision = ground arith;
        next = ground arith;
        changed = mid;
        applied = e;
        result = e';
        written = d;
      }

  rows_ok :
      (kind : CommandKind) (trip : Trip) (i : Intent) (o : Outbox)
      → validate_accepted_mutation_request r ≡ ok kind
      → find_where (is_trip r.trip_id) db.trips ≡ some trip
      → find_where (is_runtime_intent r.intent_id r.trip_id) db.intents ≡ some i
      → find_where (is_outbox_of r.outbox_id r.intent_id r.trip_id) db.outbox ≡ some o
      → accepted_rows link now db r kind trip i o ≡ ok (res, db')
      → Applied
  unfolding accepted_rows
  rows_ok kind trip i o v et ei eo h = record {
    kind = kind;
    trip = trip;
    intent = i;
    outbox = o;
    valid = v;
    trip_found = et;
    intent_found = ei;
    outbox_found = eo;
    identity = (ground arith, ground arith, ground arith);
    same_kind = ground arith;
    how = elim (Bool-cases (is_pending_intent i.state)) [
      | inl e ↦ inr (accepted_first-First kind trip i e (ground arith))
      | inr e ↦ inl (accepted_again-Again i o e (ground arith))
    ];
  }

  outbox_ok :
      (kind : CommandKind) (trip : Trip) (i : Intent) (o : Option Outbox)
      → validate_accepted_mutation_request r ≡ ok kind
      → find_where (is_trip r.trip_id) db.trips ≡ some trip
      → find_where (is_runtime_intent r.intent_id r.trip_id) db.intents ≡ some i
      → find_where (is_outbox_of r.outbox_id r.intent_id r.trip_id) db.outbox ≡ o
      → accepted_outbox link now db r kind trip i o ≡ ok (res, db')
      → Applied
  unfolding accepted_outbox
  outbox_ok kind trip i none v et ei eo h = absurd (cc)
  outbox_ok kind trip i (some o) v et ei eo h = rows_ok kind trip i o v et ei eo h

  intent_ok :
      (kind : CommandKind) (trip : Trip) (i : Option Intent)
      → validate_accepted_mutation_request r ≡ ok kind
      → find_where (is_trip r.trip_id) db.trips ≡ some trip
      → find_where (is_runtime_intent r.intent_id r.trip_id) db.intents ≡ i
      → accepted_intent link now db r kind trip i ≡ ok (res, db')
      → Applied
  unfolding accepted_intent
  intent_ok kind trip none v et ei h = absurd (cc)
  intent_ok kind trip (some i) v et ei h = outbox_ok kind trip i _ v et ei refl (ground arith)

  trip_ok :
      (kind : CommandKind) (trip : Option Trip)
      → validate_accepted_mutation_request r ≡ ok kind
      → find_where (is_trip r.trip_id) db.trips ≡ trip
      → accepted_trip link now db r kind trip ≡ ok (res, db')
      → Applied
  unfolding accepted_trip
  trip_ok kind none v et h = absurd (cc)
  trip_ok kind (some trip) v et h = intent_ok kind trip _ v et refl (ground arith)

  tx_ok :
      (k : Result CommandKind)
      → validate_accepted_mutation_request r ≡ k
      → finalize_accepted_tx link now db r ≡ ok (res, db')
      → Applied
  unfolding finalize_accepted_tx
  tx_ok (err e) v h = absurd (ground (arith, v))
  tx_ok (ok kind) v h = trip_ok kind _ v refl (ground (arith, v))

  -- A FinalizeAcceptedMutation that succeeds was valid and found the trip, the runtime-first intent
  -- and its outbox row, and the intent has the request's event, mutation sequence, expected revision
  -- and kind. Either the intent was applied before with this outcome, and nothing changes; or it was
  -- pending, the trip was at the expected revision, the sequence is the one after the last that the
  -- trip finalized, the mutation is applied and the rows of the command are written.
  pub finalize_accepted_mutation-Applied :
      finalize_accepted_mutation link now db r ≡ (ok res, db') → Applied
  unfolding finalize_accepted_mutation
  finalize_accepted_mutation-Applied h =
      tx_ok _ refl (transact_ok db (finalize_accepted_tx link now db r) h)
