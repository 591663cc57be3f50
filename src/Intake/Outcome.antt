-- ===== src/Intake/Outcome.antt =====
-- What a RecordRuntimeFirst that succeeds found and wrote.
use live_route.Base.{
  ℕ, ◌≡◌, ◌≢◌, refl, ap, ◌∙◌, ◌⊎◌, inl, inr, true, false, String, Option, none, some, arith, same,
  same_self, sym, ◌==◌,
}
use live_route.Base.Table.{find_where, any_where, find_where-update_where_hit, find_where-holds}
use live_route.Base.Table.Keyed.{find_where-append_found, find_where-none_of_any}
use live_route.Base.Result.{Result, ok, err, Link, transact_ok, commit_as_ok}
use live_route.Store.{Db, Trip, Intent}
use live_route.Lease.{max_int64}
use live_route.Proposal.{is_trip, byte_count}
use live_route.Intake.{
  Clock, is_trip_of, new_intent, new_row, allocate, intent_clashes, row_clashes, write_recorded,
  read_recorded, record_again, record_first, record_row, record_trip, record_tx,
  record_runtime_first,
}
use live_route.Intake.Recorded.{
  RecordRuntimeCommandRequest, RecordedCommand, is_message, is_row_of, is_unresolved,
  recorded_command, scan_recorded_command,
}

module _ (c : Clock) (db : Db) (r : RecordRuntimeCommandRequest) (n : ℕ) where
  pub trip_kept :
      (trip : Trip)
      → find_where (is_trip_of r.trip_id r.owner_user_id) db.trips ≡ some trip
      → find_where (is_trip_of r.trip_id r.owner_user_id) (write_recorded r n c db).trips
        ≡ some (allocate c.allocated trip)
  unfolding write_recorded
  trip_kept trip e =
      find_where-update_where_hit _ (is_trip r.trip_id) (allocate c.allocated) db.trips (λ x. refl)
        (ground (arith, find_where-holds _ _ e)) e

  pub intent_added :
      find_where (is_message r.trip_id r.message_id) db.intents ≡ none
      → find_where (is_message r.trip_id r.message_id) (write_recorded r n c db).intents
        ≡ some (new_intent r n c.recorded)
  unfolding write_recorded
  intent_added e =
      find_where-append_found (is_message r.trip_id r.message_id) db.intents
        (new_intent r n c.recorded) e (ground (arith, same_self r.trip_id, same_self r.message_id))

  pub row_added :
      any_where (row_clashes (new_row r n c.queued)) db.outbox ≡ false
      → find_where (is_row_of r.intent_id) (write_recorded r n c db).outbox
        ≡ some (new_row r n c.queued)
  unfolding write_recorded row_clashes
  row_added e =
      find_where-append_found (is_row_of r.intent_id) db.outbox (new_row r n c.queued)
        (find_where-none_of_any _ _ db.outbox (λ o e. ground (arith, e)) e) (same_self r.intent_id)

module _ (link : Link) (c : Clock) (db db' : Db) (r : RecordRuntimeCommandRequest)
    (res : RecordedCommand) where
  -- The message was recorded before with the digest of this request.
  pub record Again (i : Intent) : Type 0 where
    pub digest : same i.payload_digest r.payload_digest ≡ true
    pub algorithm : same i.digest_algorithm "rfc8785-sha256-v1" ≡ true
    pub scanned : scan_recorded_command true i (find_where (is_row_of i.id) db.outbox) ≡ ok res
    pub unchanged : db ≡ db'

  -- The message is new, and the trip has no unresolved command.
  pub record First (trip : Trip) : Type 0 where
    pub at_revision : trip.trip_revision ≡ r.expected_trip_revision
    pub in_range : (trip.next_mutation_sequence ≢ 0) × (trip.next_mutation_sequence ≢ max_int64)
    pub free : any_where (is_unresolved r.trip_id) db.intents ≡ false
    pub no_clash :
        any_where (intent_clashes (new_intent r trip.next_mutation_sequence c.recorded)) db.intents
        ≡ false
    pub no_row_clash :
        any_where (row_clashes (new_row r trip.next_mutation_sequence c.queued)) db.outbox ≡ false
    pub sized : (byte_count r.payload_digest == 32) ≡ true
    pub result :
        recorded_command false
          (new_intent r trip.next_mutation_sequence c.recorded)
          (some (new_row r trip.next_mutation_sequence c.queued))
        ≡ res
    pub written : write_recorded r trip.next_mutation_sequence c db ≡ db'

  pub record Recorded : Type 0 where
    pub trip : Trip
    pub trip_found : find_where (is_trip_of r.trip_id r.owner_user_id) db.trips ≡ some trip
    pub how :
        ((i : Intent) × (find_where (is_message r.trip_id r.message_id) db.intents ≡ some i)
          × Again i)
        ⊎ ((find_where (is_message r.trip_id r.message_id) db.intents ≡ none) × First trip)

  -- What the SELECT after the two INSERTs reads.
  read_first :
      (n : ℕ)
      → find_where (is_message r.trip_id r.message_id) db.intents ≡ none
      → any_where (row_clashes (new_row r n c.queued)) db.outbox ≡ false
      → read_recorded r false
          (write_recorded r n c db)
          (find_where (is_message r.trip_id r.message_id) (write_recorded r n c db).intents)
        ≡ scan_recorded_command false (new_intent r n c.recorded) (some (new_row r n c.queued))
  read_first n ei er =
      ap (read_recorded r false (write_recorded r n c db)) (intent_added c db r n ei)
      ∙ ap (scan_recorded_command false (new_intent r n c.recorded)) (row_added c db r n er)

  record_again-Again :
      (i : Intent) (s : Result RecordedCommand)
      → scan_recorded_command true i (find_where (is_row_of i.id) db.outbox) ≡ s
      → record_again link r db i ≡ ok (res, db')
      → Again i
  unfolding record_again
  record_again-Again i (err e) es h = absurd (ground (arith, h, es))
  record_again-Again i (ok existing) es h =
      let (e, d) = commit_as_ok link existing db {b = res} {t = db'} (ground (arith, h, es)) in
      record {
        digest = ground (arith, h, es);
        algorithm = ground (arith, h, es);
        scanned = ground (arith, es, e);
        unchanged = d;
      }

  record_first-First :
      (trip : Trip) (s : Result RecordedCommand)
      → find_where (is_message r.trip_id r.message_id) db.intents ≡ none
      → read_recorded r false (write_recorded r trip.next_mutation_sequence c db) (
          find_where
            (is_message r.trip_id r.message_id)
            (write_recorded r trip.next_mutation_sequence c db).intents)
        ≡ s
      → record_first link c r db trip ≡ ok (res, db')
      → First trip
  unfolding record_first scan_recorded_command
  record_first-First trip (err e) ei es h = absurd (ground (arith, h, es))
  record_first-First trip (ok recorded) ei es h =
      let (e, d) =
        commit_as_ok link recorded (write_recorded r trip.next_mutation_sequence c db) {b = res}
          {t = db'} (ground (arith, h, es)) in
      let no_row_clash : any_where (row_clashes (new_row r trip.next_mutation_sequence c.queued))
            db.outbox
          ≡ false =
        ground (arith, h) in
      let scanned = sym (read_first trip.next_mutation_sequence ei no_row_clash) ∙ es in
      record {
        at_revision = ground (arith, h);
        in_range = (ground (arith, h), ground (arith, h));
        free = ground (arith, h);
        no_clash = ground (arith, h);
        no_row_clash = no_row_clash;
        sized = ground (arith, scanned);
        result = ground (arith, scanned, e);
        written = d;
      }

  row_ok :
      (trip : Trip) (i : Option Intent)
      → find_where (is_trip_of r.trip_id r.owner_user_id) db.trips ≡ some trip
      → find_where (is_message r.trip_id r.message_id) db.intents ≡ i
      → record_row link c r db trip i ≡ ok (res, db')
      → Recorded
  unfolding record_row
  row_ok trip none et ei h = record {
    trip = trip;
    trip_found = et;
    how = inr (ei, record_first-First trip _ ei refl h);
  }
  row_ok trip (some i) et ei h = record {
    trip = trip;
    trip_found = et;
    how = inl (i, ei, record_again-Again i _ refl h);
  }

  trip_ok :
      (trip : Option Trip)
      → find_where (is_trip_of r.trip_id r.owner_user_id) db.trips ≡ trip
      → record_trip link c r db trip ≡ ok (res, db')
      → Recorded
  unfolding record_trip
  trip_ok none et h = absurd (cc)
  trip_ok (some trip) et h = row_ok trip _ et refl (ground (arith, h))

  module _ (sha256 : String → String) (plan_id : String → Option String) where
    tx_ok :
        record_tx sha256 plan_id link c r db ≡ ok (res, db')
        → record_trip link c r db (find_where (is_trip_of r.trip_id r.owner_user_id) db.trips)
          ≡ ok (res, db')
    unfolding record_tx
    tx_ok h = ground (arith, h)

    -- A RecordRuntimeFirst that succeeds found the trip of the owner. Either the message was recorded
    -- before with the digest of the request, nothing changes and the stored command is the result; or
    -- the message is new, the trip is at the expected revision and has no unresolved command, its next
    -- sequence is in range and taken by no row, and the result shows the new intent and outbox row of
    -- this sequence, which are written with the trip's next sequence raised by one.
    pub record_runtime_first-Recorded :
        record_runtime_first sha256 plan_id link c r db ≡ (ok res, db') → Recorded
    unfolding record_runtime_first
    record_runtime_first-Recorded h =
        trip_ok _ refl (tx_ok (transact_ok db (record_tx sha256 plan_id link c r db) h))
