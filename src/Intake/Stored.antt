-- ===== src/Intake/Stored.antt =====
-- The tables before and after a RecordRuntimeFirst that records a command.
use mathlib.Core.Path.{subst}
use live_route.Base.{
  ◌+◌, String, ◌≡◌, ◌≢◌, refl, sym, ap, inl, inr, true, false, Option, none, some, [], ◌∷◌, ◌++◌,
  arith,
}
use live_route.Base.Table.{find_where, any_where}
use live_route.Base.Result.{ok, Link}
use live_route.Store.{
  Db, Trip, Intent, Outbox, IntentState, SyncState, DeliveryState, ApplicationOrder,
}
use live_route.Lease.{max_int64}
use live_route.Terminal.Rows.{text_of}
use live_route.Intake.{Clock, is_trip_of, write_recorded, record_runtime_first}
use live_route.Intake.Recorded.{
  RecordRuntimeCommandRequest, RecordedCommand, is_message, is_unresolved, recorded_command,
  scan_recorded_command, planned,
}
use live_route.Intake.Outcome.{trip_kept, record_runtime_first-Recorded}

module _ (r : RecordRuntimeCommandRequest) where
  -- The message is new, and the trip is ready for a command.
  pub record IsReady (db : Db) (trip : Trip) : Type 0 where
    pub trip_found : find_where (is_trip_of r.trip_id r.owner_user_id) db.trips ≡ some trip
    pub is_new : find_where (is_message r.trip_id r.message_id) db.intents ≡ none
    pub at_revision : trip.trip_revision ≡ r.expected_trip_revision
    pub in_range : (trip.next_mutation_sequence ≢ 0) × (trip.next_mutation_sequence ≢ max_int64)
    pub free : any_where (is_unresolved r.trip_id) db.intents ≡ false

module _ (c : Clock) (r : RecordRuntimeCommandRequest) where
  -- The trip's next sequence is taken, by one new intent and one new row of the outbox.
  pub record IsStored (db db' : Db) (trip : Trip) : Type 0 where
    pub trip_row :
        find_where (is_trip_of r.trip_id r.owner_user_id) db'.trips
        ≡ some (record trip {
          next_mutation_sequence = trip.next_mutation_sequence + 1;
          updated_at = c.allocated;
        })
    pub intents :
        db'.intents
        ≡ db.intents
          ++ record {
            id = r.intent_id;
            trip_id = r.trip_id;
            message_id = r.message_id;
            event_id = r.event_id;
            mutation_sequence = trip.next_mutation_sequence;
            expected_trip_revision = r.expected_trip_revision;
            command_kind = r.kind;
            command_expires_at = r.command_expires_at;
            application_order = ApplicationOrder.runtime_first;
            digest_algorithm = "rfc8785-sha256-v1";
            payload_digest = r.payload_digest;
            command_payload = text_of r.command_payload;
            planned_current_plan_id = planned (λ p. p.id) r.planned_current_plan;
            planned_current_plan_payload = planned (λ p. p.payload) r.planned_current_plan;
            planned_current_plan_checksum_sha256 = planned (λ p. p.checksum) r.planned_current_plan;
            state = IntentState.pending;
            outcome_status = none;
            outcome_payload = none;
            resulting_trip_revision = none;
            resulting_planner_state_version = none;
            resulting_current_plan_id = none;
            runtime_sync_state = SyncState.not_required;
            recorded_at = c.recorded;
            finalized_at = none;
          }
            ∷ []
    pub outbox :
        db'.outbox
        ≡ db.outbox
          ++ record {
            id = r.outbox_id;
            command_intent_id = r.intent_id;
            trip_id = r.trip_id;
            mutation_sequence = trip.next_mutation_sequence;
            event_schema_version = 1;
            event_payload = text_of r.event_payload;
            delivery_state = DeliveryState.pending;
            attempt_count = 0;
            next_attempt_at = c.queued;
            last_attempt_at = none;
            last_status = none;
            claim_owner = none;
            claim_expires_at = none;
            finalization_confirmed_at = none;
            updated_at = c.queued;
          }
            ∷ []

  written-IsStored :
      (db : Db) (trip : Trip)
      → find_where (is_trip_of r.trip_id r.owner_user_id) db.trips ≡ some trip
      → IsStored db (write_recorded r trip.next_mutation_sequence c db) trip
  unfolding write_recorded
  written-IsStored db trip e = record {
    trip_row = trip_kept c db r trip.next_mutation_sequence trip e;
    intents = refl;
    outbox = refl;
  }

scanned_duplicate :
    (i : Intent) (o : Option Outbox) (res : RecordedCommand)
    → scan_recorded_command true i o ≡ ok res
    → res.duplicate ≡ true
unfolding scan_recorded_command
scanned_duplicate i o res h =
    let e : recorded_command true i o ≡ res = ground (arith, h) in
    sym (ap (λ (x : RecordedCommand). x.duplicate) e)

-- A RecordRuntimeFirst that records a command, one whose result is not a duplicate, found the owner's
-- trip at the expected revision, with a next sequence in range and no unresolved command, and the
-- message new. After it the trip's next sequence is one more, the intents hold one more row, pending,
-- with what the request says and the sequence that was the trip's next one, and the outbox holds one
-- more row for it, pending and never attempted; the result carries this sequence.
pub record_runtime_first-Stored :
    (sha256 : String → String) (plan_id : String → Option String) (link : Link) (c : Clock)
    (db db' : Db) (r : RecordRuntimeCommandRequest) (res : RecordedCommand)
    → record_runtime_first sha256 plan_id link c r db ≡ (ok res, db')
    → res.duplicate ≡ false
    → (trip : Trip) × IsReady r db trip
      × IsStored c r db db' trip
      × (res.mutation_sequence ≡ trip.next_mutation_sequence)
record_runtime_first-Stored sha256 plan_id link c db db' r res h fresh =
    let d = record_runtime_first-Recorded link c db db' r res sha256 plan_id h in
    elim d.how [
      | inl (i, _, a) ↦ absurd (
          let e : res.duplicate ≡ true = scanned_duplicate i _ res a.scanned in
          ground (arith, e, fresh))
      | inr (ei, f) ↦ (
        d.trip,
        record {
          trip_found = d.trip_found;
          is_new = ei;
          at_revision = f.at_revision;
          in_range = f.in_range;
          free = f.free;
        },
        subst (λ (x : Db). IsStored c r db x d.trip) f.written
            (written-IsStored c r db d.trip d.trip_found),
        sym (ap (λ (x : RecordedCommand). x.mutation_sequence) f.result),
      )
    ]
