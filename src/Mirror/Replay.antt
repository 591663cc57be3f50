-- ===== src/Mirror/Replay.antt =====
-- A FinalizeCanonicalMirror that is sent again after it succeeded.
use mathlib.Core.Path.{subst}
use live_route.Base.{
  ℕ, String, ◌≡◌, refl, ap, ◌∙◌, inl, inr, Bool, true, false, Option, some, arith, Option-cases,
  same,
}
use live_route.Base.Table.{find_where, find_where-update_where_hit, find_where-holds}
use live_route.Base.Result.{
  ok, Link, Stage, commit_as, begin, lock_trip, read_intent, read_outbox, commit,
}
use live_route.Store.{Db, Trip, Intent, Outbox, SyncState, DeliveryState}
use live_route.Lease.{lock_trip_row}
use live_route.Terminal.Rows.{is_outbox_of, text_of}
use live_route.Mirror.{
  FinalizeCanonicalMirrorRequest, FinalizedCanonicalMirror, finished,
  canonical_mirror_identity_matches, canonical_mirror_result, is_canonical_intent, is_synced, both,
  write_mirror, mirror_pending, mirror_rows, mirror_outbox, mirror_intent, mirror_tx,
  finalize_canonical_mirror, validate_canonical_mirror_finalization, set_sync, unclaim,
}
use live_route.Mirror.Outcome.{Again, Pending, Ended, finalize_canonical_mirror-Ended}

-- The lock of the trip depends on the table of trips and on the driver only.
pub lock_again :
    (link link' : Link) (db db' : Db) (trip_id : String)
    → ((stage : Stage) → link' stage ≡ false)
    → db.trips ≡ db'.trips
    → lock_trip_row link db trip_id ≡ ok (tt {0})
    → lock_trip_row link' db' trip_id ≡ ok (tt {0})
unfolding lock_trip_row
lock_again link link' db db' trip_id up e h =
    elim (Option-cases (find_where (λ (t : Trip). same t.id trip_id) db.trips)) [
      | inl n ↦ absurd (ground (arith, n))
      | inr found ↦
          let f : find_where (λ (t : Trip). same t.id trip_id) db'.trips ≡ some found.0 =
            subst (λ ts. find_where (λ (t : Trip). same t.id trip_id) ts ≡ some found.0) e
              found.1 in
          ground (arith, up lock_trip, f)
    ]

module _ (link : Link) (now : ℕ) (db : Db) (r : FinalizeCanonicalMirrorRequest) where
  run_synced :
      (i : Intent) (o : Outbox)
      → ((stage : Stage) → link stage ≡ false)
      → validate_canonical_mirror_finalization r ≡ ok (tt {0})
      → lock_trip_row link db r.trip_id ≡ ok (tt {0})
      → find_where (is_canonical_intent r.intent_id r.trip_id) db.intents ≡ some i
      → find_where (is_outbox_of r.outbox_id r.intent_id r.trip_id) db.outbox ≡ some o
      → is_synced i.runtime_sync_state o.delivery_state ≡ true
      → both i.runtime_sync_state o.delivery_state SyncState.synced DeliveryState.accepted ≡ true
      → canonical_mirror_identity_matches r i ≡ true
      → finalize_canonical_mirror link now db r ≡ (
        ok (
            canonical_mirror_result r
              (text_of i.resulting_current_plan_id)
              i.runtime_sync_state
              o.delivery_state
              true),
        db,
      )
  unfolding finalize_canonical_mirror mirror_tx mirror_intent mirror_outbox mirror_rows commit_as
  run_synced i o up v l ei eo s b m =
      ground (arith, v, l, up begin, up read_intent, up read_outbox, up commit, ei, eo, s, b, m)

  trips_kept : db.trips ≡ (write_mirror r now db).trips
  unfolding write_mirror
  trips_kept = refl

  intent_synced :
      (i : Intent) (o : Outbox)
      → both i.runtime_sync_state o.delivery_state SyncState.pending DeliveryState.pending ≡ true
      → find_where (is_canonical_intent r.intent_id r.trip_id) db.intents ≡ some i
      → find_where (is_canonical_intent r.intent_id r.trip_id) (write_mirror r now db).intents
        ≡ some (set_sync SyncState.synced i)
  unfolding write_mirror both
  intent_synced i o b e =
      find_where-update_where_hit _ _ (set_sync SyncState.synced) db.intents (λ x. refl)
        (ground (arith, find_where-holds _ _ e)) e

  outbox_accepted :
      (i : Intent) (o : Outbox)
      → both i.runtime_sync_state o.delivery_state SyncState.pending DeliveryState.pending ≡ true
      → find_where (is_outbox_of r.outbox_id r.intent_id r.trip_id) db.outbox ≡ some o
      → find_where (is_outbox_of r.outbox_id r.intent_id r.trip_id) (write_mirror r now db).outbox
        ≡ some (unclaim DeliveryState.accepted "OK" now o)
  unfolding write_mirror both
  outbox_accepted i o b e =
      find_where-update_where_hit _ _ (unclaim DeliveryState.accepted "OK" now) db.outbox
        (λ x. refl) (ground (arith, find_where-holds _ _ e)) e

  same_identity :
      (i : Intent)
      → canonical_mirror_identity_matches r i ≡ true
      → canonical_mirror_identity_matches r (set_sync SyncState.synced i) ≡ true
  unfolding canonical_mirror_identity_matches
  same_identity i h = h

  accepted_now :
      (i : Intent) (o : Outbox)
      → (is_synced
            (set_sync SyncState.synced i).runtime_sync_state
            (unclaim DeliveryState.accepted "OK" now o).delivery_state
          ≡ true)
        × (both
              (set_sync SyncState.synced i).runtime_sync_state
              (unclaim DeliveryState.accepted "OK" now o).delivery_state
              SyncState.synced
              DeliveryState.accepted
            ≡ true)
  unfolding is_synced both
  accepted_now i o = (refl, refl)

  first_ok :
      (db' : Db) (m : FinalizedCanonicalMirror) (plan : Option String) (matches : Bool)
      → mirror_pending link now db r plan matches ≡ ok (finished m, db')
      → (matches ≡ true)
        × (canonical_mirror_result r (text_of plan) SyncState.synced DeliveryState.accepted false
            ≡ m)
        × (write_mirror r now db ≡ db')
  unfolding mirror_pending commit_as
  first_ok db' m plan true h = (refl, ground arith, ground arith)
  first_ok db' m plan false h = absurd (ground arith)

abbrev pub as_duplicate : FinalizedCanonicalMirror → FinalizedCanonicalMirror
as_duplicate m = record m { duplicate = true }

finished_inj : {m n : FinalizedCanonicalMirror} → finished m ≡ finished n → m ≡ n
finished_inj h = ground arith

module _ (link link' : Link) (now now' : ℕ) (db db' : Db) (r : FinalizeCanonicalMirrorRequest)
    (m : FinalizedCanonicalMirror) (up : (stage : Stage) → link' stage ≡ false) where
  abbrev Replayed : Db → Type 0
  Replayed d = finalize_canonical_mirror link' now' d r ≡ (ok (as_duplicate m), d)

  again :
      (e : Ended link now db db' r (finished m))
      → Again link now db db' r (finished m) e.intent e.outbox
      → Replayed db'
  again e a = subst Replayed a.unchanged (
      run_synced link' now' db r e.intent e.outbox up e.valid
        (lock_again link link' db db r.trip_id up refl e.locked) e.intent_found e.outbox_found
        a.synced a.settled a.identity
      ∙ ap (λ x. (ok (as_duplicate x), db)) (finished_inj a.result))

  first :
      (e : Ended link now db db' r (finished m))
      → Pending link now db db' r (finished m) e.intent e.outbox
      → Replayed db'
  first e p =
      let (matches, result, written) =
        first_ok link now db r db' m (e.intent).resulting_current_plan_id
          (canonical_mirror_identity_matches r e.intent) p.rest in
      let w : Db = write_mirror r now db in
      let (s, b) = accepted_now link now db r e.intent e.outbox in
      subst Replayed written (
        run_synced link' now' w r (set_sync SyncState.synced e.intent)
          (unclaim DeliveryState.accepted "OK" now e.outbox) up e.valid
          (lock_again link link' db w r.trip_id up (trips_kept link now db r) e.locked)
          (intent_synced link now db r e.intent e.outbox p.waiting e.intent_found)
          (outbox_accepted link now db r e.intent e.outbox p.waiting e.outbox_found) s b
          (same_identity link now db r e.intent matches)
        ∙ ap (λ x. (ok (as_duplicate x), w)) result)

  -- A FinalizeCanonicalMirror that succeeded can be sent again at any later time: if the driver does
  -- not fail, it returns the same result, marked as a duplicate, and the tables stay as they are.
  pub finalize_canonical_mirror-again :
      finalize_canonical_mirror link now db r ≡ (ok m, db') → Replayed db'
  finalize_canonical_mirror-again h =
      let e = finalize_canonical_mirror-Ended link now db db' r m h in
      elim e.how [ inl a ↦ again e a | inr p ↦ first e p ]
