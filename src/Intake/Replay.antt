-- ===== src/Intake/Replay.antt =====
-- A RecordRuntimeFirst whose message was recorded before.
use mathlib.Core.Path.{subst}
use live_route.Base.{
  ℕ, ◌≡◌, ◌≢◌, refl, ◌∙◌, sym, ap, inl, inr, true, false, String, Option, none, some, arith, same,
  same_self, same_iff, if◌then◌else◌, ◌==◌,
}
use live_route.Base.Table.{find_where}
use live_route.Base.Result.{
  Result, ok, err, Link, Stage, commit_as, begin, lock_trip, read_intent, commit,
  idempotency_key_reused,
}
use live_route.Store.{Db, Trip, Intent, Outbox}
use live_route.Proposal.{byte_count}
use live_route.Intake.{
  Clock, is_trip_of, new_intent, new_row, allocate, record_again, record_row, record_trip,
  record_tx, record_runtime_first,
}
use live_route.Intake.Recorded.{
  RecordRuntimeCommandRequest, RecordedCommand, is_message, is_row_of, recorded_command,
  scan_recorded_command, validate_record_runtime_command,
}
use live_route.Intake.Outcome.{
  Recorded, Again, First, trip_kept, intent_added, row_added, record_runtime_first-Recorded,
}

-- The result as a replay shows it.
abbrev pub as_duplicate : RecordedCommand → RecordedCommand
as_duplicate res = record res { duplicate = true }

-- A request for the same message of the same trip and owner.
abbrev pub SameMessage : RecordRuntimeCommandRequest → RecordRuntimeCommandRequest → Type 0
SameMessage r q =
    (q.trip_id ≡ r.trip_id) × (q.owner_user_id ≡ r.owner_user_id) × (q.message_id ≡ r.message_id)

-- The answer to it, by its digest.
abbrev pub replayed :
    RecordRuntimeCommandRequest
    → RecordRuntimeCommandRequest
    → RecordedCommand
    → Result RecordedCommand
replayed r q res =
    if same r.payload_digest q.payload_digest
    then ok (as_duplicate res)
    else err idempotency_key_reused

module _ (sha256 : String → String) (plan_id : String → Option String) where
  run_again :
      (link : Link) (c : Clock) (q : RecordRuntimeCommandRequest) (db : Db) (u : Unit {0})
      (trip : Trip) (i : Intent) (d : RecordedCommand)
      → ((stage : Stage) → link stage ≡ false)
      → validate_record_runtime_command sha256 plan_id q ≡ ok u
      → find_where (is_trip_of q.trip_id q.owner_user_id) db.trips ≡ some trip
      → find_where (is_message q.trip_id q.message_id) db.intents ≡ some i
      → scan_recorded_command true i (find_where (is_row_of i.id) db.outbox) ≡ ok d
      → same i.digest_algorithm "rfc8785-sha256-v1" ≡ true
      → record_runtime_first sha256 plan_id link c q db ≡ (
        (if same i.payload_digest q.payload_digest then ok d else err idempotency_key_reused),
        db,
      )
  unfolding record_runtime_first record_tx record_trip record_row record_again commit_as
  run_again link c q db u trip i d up v et ei es a =
      ground (arith, v, up begin, up lock_trip, up read_intent, up commit, et, ei, es, a)

scan-as_duplicate :
    (i : Intent) (o : Option Outbox) (res : RecordedCommand)
    → scan_recorded_command true i o ≡ ok res
    → as_duplicate res ≡ res
unfolding scan_recorded_command
scan-as_duplicate i o res h =
    let e : recorded_command true i o ≡ res = ground (arith, h) in sym (ap as_duplicate e) ∙ e

scan_first :
    (c : Clock) (r : RecordRuntimeCommandRequest) (n : ℕ) (o : Option Outbox)
    → n ≢ 0
    → (byte_count r.payload_digest == 32) ≡ true
    → scan_recorded_command true (new_intent r n c.recorded) o
      ≡ ok (recorded_command true (new_intent r n c.recorded) o)
unfolding scan_recorded_command
scan_first c r n o p q = ground (arith, p, q)

module _ (link : Link) (c : Clock) (r : RecordRuntimeCommandRequest) (res : RecordedCommand) where
  -- What a later request for the message finds in the tables.
  record Stored (db' : Db) : Type 0 where
    trip : Trip
    intent : Intent
    trip_stored : find_where (is_trip_of r.trip_id r.owner_user_id) db'.trips ≡ some trip
    intent_stored : find_where (is_message r.trip_id r.message_id) db'.intents ≡ some intent
    scanned :
        scan_recorded_command true intent (find_where (is_row_of intent.id) db'.outbox)
        ≡ ok (as_duplicate res)
    algorithm : same intent.digest_algorithm "rfc8785-sha256-v1" ≡ true
    digest : intent.payload_digest ≡ r.payload_digest

  Again-Stored :
      (db db' : Db) (t : Trip) (i : Intent)
      → find_where (is_trip_of r.trip_id r.owner_user_id) db.trips ≡ some t
      → find_where (is_message r.trip_id r.message_id) db.intents ≡ some i
      → Again link c db db' r res i
      → Stored db'
  Again-Stored db db' t i et ei a = subst Stored a.unchanged (record {
    trip = t;
    intent = i;
    trip_stored = et;
    intent_stored = ei;
    scanned = a.scanned ∙ ap ok (sym (scan-as_duplicate i _ res a.scanned));
    algorithm = a.algorithm;
    digest = same_iff _ _ a.digest;
  })

  First-Stored :
      (db db' : Db) (t : Trip)
      → find_where (is_trip_of r.trip_id r.owner_user_id) db.trips ≡ some t
      → find_where (is_message r.trip_id r.message_id) db.intents ≡ none
      → First link c db db' r res t
      → Stored db'
  First-Stored db db' t et ei f =
      let n = t.next_mutation_sequence in
      subst Stored f.written (record {
        trip = allocate c.allocated t;
        intent = new_intent r n c.recorded;
        trip_stored = trip_kept c db r n t et;
        intent_stored = intent_added c db r n ei;
        scanned =
            ap (scan_recorded_command true (new_intent r n c.recorded))
              (row_added c db r n f.no_row_clash)
            ∙ scan_first c r n (some (new_row r n c.queued)) f.in_range.0 f.sized
            ∙ ap ok (ap as_duplicate f.result);
        algorithm = same_self "rfc8785-sha256-v1";
        digest = refl;
      })

  Recorded-Stored : (db db' : Db) → Recorded link c db db' r res → Stored db'
  Recorded-Stored db db' d = elim d.how [
    | inl (i, ei, a) ↦ Again-Stored db db' d.trip i d.trip_found ei a
    | inr (ei, f) ↦ First-Stored db db' d.trip d.trip_found ei f
  ]

-- After a message was recorded, or found recorded, every valid request for the message of the same
-- trip and owner, sent when the driver does not fail, writes nothing: with the same digest it gets the
-- same result, marked as a duplicate, and with another digest ErrIdempotencyKeyReused, whatever else
-- of the request differs.
pub record_runtime_first-again :
    (sha256 : String → String) (plan_id : String → Option String) (link link' : Link) (c c' : Clock)
    (db db' : Db) (r q : RecordRuntimeCommandRequest) (res : RecordedCommand) (u : Unit {0})
    → record_runtime_first sha256 plan_id link c r db ≡ (ok res, db')
    → SameMessage r q
    → validate_record_runtime_command sha256 plan_id q ≡ ok u
    → ((stage : Stage) → link' stage ≡ false)
    → record_runtime_first sha256 plan_id link' c' q db' ≡ (replayed r q res, db')
record_runtime_first-again sha256 plan_id link link' c c' db db' r q res u h s v up =
    let st =
      Recorded-Stored link c r res db db'
        (record_runtime_first-Recorded link c db db' r res sha256 plan_id h) in
    run_again sha256 plan_id link' c' q db' u st.trip st.intent (as_duplicate res) up v
      (ap (λ t. find_where (is_trip_of t q.owner_user_id) db'.trips) s.0
        ∙ ap (λ o. find_where (is_trip_of r.trip_id o) db'.trips) s.1
        ∙ st.trip_stored)
      (ap (λ t. find_where (is_message t q.message_id) db'.intents) s.0
        ∙ ap (λ m. find_where (is_message r.trip_id m) db'.intents) s.2
        ∙ st.intent_stored)
      st.scanned st.algorithm
    ∙ ap
        (λ p. (
          (if same p q.payload_digest then ok (as_duplicate res) else err idempotency_key_reused),
          db',
        ))
        st.digest
