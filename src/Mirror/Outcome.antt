-- ===== src/Mirror/Outcome.antt =====
-- What a FinalizeCanonicalMirror found, by the way that its transaction ended.
use live_route.Base.{ℕ, ◌≡◌, refl, ◌⊎◌, inl, inr, true, Option, none, some, arith, Bool-cases}
use live_route.Base.Table.{find_where}
use live_route.Base.Result.{Result, ok, err, Link, transact, commit_as_ok}
use live_route.Store.{Db, Intent, Outbox, SyncState, DeliveryState}
use live_route.Lease.{lock_trip_row}
use live_route.Terminal.Rows.{is_outbox_of, text_of}
use live_route.Mirror.{
  FinalizeCanonicalMirrorRequest, FinalizedCanonicalMirror, Ending, finished, refused, unpack,
  canonical_mirror_identity_matches, canonical_mirror_result, is_canonical_intent, is_synced, both,
  mirror_pending, mirror_rows, mirror_outbox, mirror_intent, mirror_tx, finalize_canonical_mirror,
  validate_canonical_mirror_finalization,
}

module _ (link : Link) (now : ℕ) (db db' : Db) (r : FinalizeCanonicalMirrorRequest) where
  -- The mirror was finalized before.
  pub record Again (e : Ending) (i : Intent) (o : Outbox) : Type 0 where
    pub synced : is_synced i.runtime_sync_state o.delivery_state ≡ true
    pub settled :
        both i.runtime_sync_state o.delivery_state SyncState.synced DeliveryState.accepted ≡ true
    pub identity : canonical_mirror_identity_matches r i ≡ true
    pub result :
        finished (
          canonical_mirror_result r
            (text_of i.resulting_current_plan_id)
            i.runtime_sync_state
            o.delivery_state
            true)
        ≡ e
    pub unchanged : db ≡ db'

  -- Both rows were pending; what happens depends on the identity.
  pub record Pending (e : Ending) (i : Intent) (o : Outbox) : Type 0 where
    pub waiting :
        both i.runtime_sync_state o.delivery_state SyncState.pending DeliveryState.pending ≡ true
    pub rest :
        mirror_pending link now db r i.resulting_current_plan_id
          (canonical_mirror_identity_matches r i)
        ≡ ok (e, db')

  pub record Ended (e : Ending) : Type 0 where
    pub intent : Intent
    pub outbox : Outbox
    pub intent_found :
        find_where (is_canonical_intent r.intent_id r.trip_id) db.intents ≡ some intent
    pub outbox_found :
        find_where (is_outbox_of r.outbox_id r.intent_id r.trip_id) db.outbox ≡ some outbox
    pub locked : lock_trip_row link db r.trip_id ≡ ok (tt {0})
    pub valid : validate_canonical_mirror_finalization r ≡ ok (tt {0})
    pub how : Again e intent outbox ⊎ Pending e intent outbox

  rows_ok :
      (e : Ending) (i : Intent) (o : Outbox)
      → mirror_rows link now db r i o ≡ ok (e, db')
      → Again e i o ⊎ Pending e i o
  unfolding mirror_rows
  rows_ok e i o h = elim (Bool-cases (is_synced i.runtime_sync_state o.delivery_state)) [
    | inl s ↦
        let (p, d) =
          commit_as_ok link
            (finished (
              canonical_mirror_result r (text_of i.resulting_current_plan_id) i.runtime_sync_state
                o.delivery_state true))
            db {b = e} {t = db'} (ground arith) in
        inl (record {
          synced = s;
          settled = ground arith;
          identity = ground arith;
          result = p;
          unchanged = d;
        })
    | inr s ↦ inr (record { waiting = ground arith; rest = ground arith })
  ]

  -- The checks before the rows are read.
  abbrev Admitted : Type 0
  Admitted =
      (lock_trip_row link db r.trip_id ≡ ok (tt {0}))
      × (validate_canonical_mirror_finalization r ≡ ok (tt {0}))

  outbox_ok :
      (e : Ending) (i : Intent) (o : Option Outbox)
      → Admitted
      → find_where (is_canonical_intent r.intent_id r.trip_id) db.intents ≡ some i
      → find_where (is_outbox_of r.outbox_id r.intent_id r.trip_id) db.outbox ≡ o
      → mirror_outbox link now db r i o ≡ ok (e, db')
      → Ended e
  unfolding mirror_outbox
  outbox_ok e i none v ei eo h = absurd (cc)
  outbox_ok e i (some o) v ei eo h = record {
    intent = i;
    outbox = o;
    intent_found = ei;
    outbox_found = eo;
    locked = v.0;
    valid = v.1;
    how = rows_ok e i o h;
  }

  intent_ok :
      (e : Ending) (i : Option Intent)
      → Admitted
      → find_where (is_canonical_intent r.intent_id r.trip_id) db.intents ≡ i
      → mirror_intent link now db r i ≡ ok (e, db')
      → Ended e
  unfolding mirror_intent
  intent_ok e none v ei h = absurd (cc)
  intent_ok e (some i) v ei h = outbox_ok e i _ v ei refl (ground arith)

  locked_ok :
      (e : Ending) (x : Result (Unit {0}))
      → lock_trip_row link db r.trip_id ≡ x
      → mirror_tx link now db r ≡ ok (e, db')
      → Admitted
        × (mirror_intent link now db r
              (find_where (is_canonical_intent r.intent_id r.trip_id) db.intents)
            ≡ ok (e, db'))
  unfolding mirror_tx validate_canonical_mirror_finalization
  locked_ok e (ok tt) l h = ((l, ground arith), ground arith)
  locked_ok e (err x) l h = absurd (ground arith)

  pub mirror_tx-Ended : (e : Ending) → mirror_tx link now db r ≡ ok (e, db') → Ended e
  mirror_tx-Ended e h = let (v, rest) = locked_ok e _ refl h in intent_ok e _ v refl rest

  unpacked :
      (x : Result (Ending × Db)) (m : FinalizedCanonicalMirror)
      → unpack (transact db x) ≡ (ok m, db')
      → x ≡ ok (finished m, db')
  unpacked (ok (finished n, d)) m h = ground arith
  unpacked (ok (refused e, d)) m h = absurd (ground arith)
  unpacked (err e) m h = absurd (ground arith)

  pub finalize_canonical_mirror-Ended :
      (m : FinalizedCanonicalMirror)
      → finalize_canonical_mirror link now db r ≡ (ok m, db')
      → Ended (finished m)
  unfolding finalize_canonical_mirror
  finalize_canonical_mirror-Ended m h = mirror_tx-Ended (finished m) (unpacked _ m h)
