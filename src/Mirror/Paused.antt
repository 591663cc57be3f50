-- ===== src/Mirror/Paused.antt =====
-- An acknowledgement whose identity conflicts with the stored command.
use mathlib.Core.Path.{subst}
use live_route.Base.{
  ℕ, String, ◌≡◌, ◌≢◌, refl, ◌⊎◌, inl, inr, Bool, true, false, Option, none, some, arith,
  Option-cases, same, List, [], ◌∷◌, All, ap, ◌∙◌,
}
use live_route.Base.Table.{find_where, find_where-update_where_hit, find_where-holds}
use live_route.Base.Result.{
  Result, ok, err, Error, Link, Stage, transact, canonical_mirror_identity, canonical_mirror_paused,
  begin, read_intent, read_outbox, commit_as,
}
use live_route.Store.{Db, Trip, Intent, Outbox, SyncState, DeliveryState}
use live_route.Lease.{lock_trip_row}
use live_route.Terminal.Rows.{is_outbox_of}
use live_route.Mirror.{
  FinalizeCanonicalMirrorRequest, FinalizedCanonicalMirror, Ending, finished, refused, unpack,
  canonical_mirror_identity_matches, is_canonical_intent, is_synced, is_paused, both,
  pause_canonical_mirror, mirror_pending, mirror_rows, mirror_outbox, mirror_intent, mirror_tx,
  finalize_canonical_mirror, validate_canonical_mirror_finalization, set_sync, unclaim,
}
use live_route.Mirror.Outcome.{Again, Pending, Ended, mirror_tx-Ended}
use live_route.Mirror.Replay.{lock_again}

-- The transaction does not fail with the identity error: it ends with it.
module _ (link : Link) (now : ℕ) (db : Db) (r : FinalizeCanonicalMirrorRequest) where
  IsOther : Result (Ending × Db) → Type 0
  IsOther x = x ≡ err canonical_mirror_identity → ⊥

  pending-IsOther :
      (plan : Option String) (matches : Bool) → IsOther (mirror_pending link now db r plan matches)
  unfolding IsOther mirror_pending commit_as
  pending-IsOther plan true h = ground arith
  pending-IsOther plan false h = ground arith

  rows-IsOther : (i : Intent) (o : Outbox) → IsOther (mirror_rows link now db r i o)
  unfolding IsOther mirror_rows commit_as
  rows-IsOther i o h =
      ground
        (arith, pending-IsOther i.resulting_current_plan_id (canonical_mirror_identity_matches r i))

  outbox-IsOther : (i : Intent) (o : Option Outbox) → IsOther (mirror_outbox link now db r i o)
  unfolding IsOther mirror_outbox
  outbox-IsOther i none h = ground arith
  outbox-IsOther i (some o) h = rows-IsOther i o h

  intent-IsOther : (i : Option Intent) → IsOther (mirror_intent link now db r i)
  unfolding IsOther mirror_intent
  intent-IsOther none h = ground arith
  intent-IsOther (some i) h = ground (
    arith,
    outbox-IsOther i (find_where (is_outbox_of r.outbox_id r.intent_id r.trip_id) db.outbox),
  )

  locked_other :
      (x : Result (Unit {0}))
      → lock_trip_row link db r.trip_id ≡ x
      → x ≢ err canonical_mirror_identity
  unfolding lock_trip_row
  locked_other x e h =
      elim (Option-cases (find_where (λ (t : Trip). same t.id r.trip_id) db.trips)) [
        | inl n ↦ ground (arith, n)
        | inr f ↦ ground (arith, f.1)
      ]

  tx-IsOther : IsOther (mirror_tx link now db r)
  unfolding IsOther mirror_tx validate_canonical_mirror_finalization
  tx-IsOther h = ground (
    arith,
    locked_other (lock_trip_row link db r.trip_id) refl,
    intent-IsOther (find_where (is_canonical_intent r.intent_id r.trip_id) db.intents),
  )

  refused_of :
      (db' : Db) (x : Result (Ending × Db))
      → (x ≡ err canonical_mirror_identity → ⊥)
      → unpack (transact db x) ≡ (err canonical_mirror_identity, db')
      → x ≡ ok (refused canonical_mirror_identity, db')
  refused_of db' (ok (finished m, d)) n h = absurd (ground arith)
  refused_of db' (ok (refused e, d)) n h = ground arith
  refused_of db' (err e) n h = absurd (ground arith)

  -- What a transaction that refuses the identity writes.
  paused_ok :
      (db' : Db) (plan : Option String) (matches : Bool)
      → mirror_pending link now db r plan matches ≡ ok (refused canonical_mirror_identity, db')
      → pause_canonical_mirror r.intent_id r.outbox_id now db ≡ db'
  unfolding mirror_pending commit_as
  paused_ok db' plan true h = absurd (ground arith)
  paused_ok db' plan false h = ground arith

  trips_kept : db.trips ≡ (pause_canonical_mirror r.intent_id r.outbox_id now db).trips
  unfolding pause_canonical_mirror
  trips_kept = refl

  intent_paused :
      (i : Intent) (o : Outbox)
      → both i.runtime_sync_state o.delivery_state SyncState.pending DeliveryState.pending ≡ true
      → find_where (is_canonical_intent r.intent_id r.trip_id) db.intents ≡ some i
      → find_where
          (is_canonical_intent r.intent_id r.trip_id)
          (pause_canonical_mirror r.intent_id r.outbox_id now db).intents
        ≡ some (set_sync SyncState.paused_internal i)
  unfolding pause_canonical_mirror both
  intent_paused i o b e =
      find_where-update_where_hit _ _ (set_sync SyncState.paused_internal) db.intents (λ x. refl)
        (ground (arith, find_where-holds _ _ e)) e

  outbox_paused :
      (i : Intent) (o : Outbox)
      → both i.runtime_sync_state o.delivery_state SyncState.pending DeliveryState.pending ≡ true
      → find_where (is_outbox_of r.outbox_id r.intent_id r.trip_id) db.outbox ≡ some o
      → find_where
          (is_outbox_of r.outbox_id r.intent_id r.trip_id)
          (pause_canonical_mirror r.intent_id r.outbox_id now db).outbox
        ≡ some (unclaim DeliveryState.paused_internal "INTERNAL" now o)
  unfolding pause_canonical_mirror both
  outbox_paused i o b e =
      find_where-update_where_hit _ _ (unclaim DeliveryState.paused_internal "INTERNAL" now)
        db.outbox (λ x. refl) (ground (arith, find_where-holds _ _ e)) e

  run_paused :
      (i : Intent) (o : Outbox)
      → ((stage : Stage) → link stage ≡ false)
      → validate_canonical_mirror_finalization r ≡ ok (tt {0})
      → lock_trip_row link db r.trip_id ≡ ok (tt {0})
      → find_where (is_canonical_intent r.intent_id r.trip_id) db.intents ≡ some i
      → find_where (is_outbox_of r.outbox_id r.intent_id r.trip_id) db.outbox ≡ some o
      → i.runtime_sync_state ≡ SyncState.paused_internal
      → o.delivery_state ≡ DeliveryState.paused_internal
      → finalize_canonical_mirror link now db r ≡ (err canonical_mirror_paused, db)
  unfolding finalize_canonical_mirror mirror_tx mirror_intent mirror_outbox mirror_rows is_synced
      is_paused
  run_paused i o up v l ei eo s d =
      ground (arith, v, l, up begin, up read_intent, up read_outbox, ei, eo, s, d)

-- A later acknowledgement of the same command, with any content.
abbrev pub SameCommand : FinalizeCanonicalMirrorRequest → FinalizeCanonicalMirrorRequest → Type 0
SameCommand r s =
    (s.trip_id ≡ r.trip_id) × (s.intent_id ≡ r.intent_id) × (s.outbox_id ≡ r.outbox_id)

refused_result : (e : Error) (m : FinalizedCanonicalMirror) → finished m ≢ refused e
refused_result e m h = ground arith

module _ (link link' : Link) (now now' : ℕ) (db db' : Db) (r : FinalizeCanonicalMirrorRequest) where
  waiting :
      (i : Intent) (o : Outbox)
      → Again link now db db' r (refused canonical_mirror_identity) i o
        ⊎ Pending link now db db' r (refused canonical_mirror_identity) i o
      → Pending link now db db' r (refused canonical_mirror_identity) i o
  waiting i o (inl a) = absurd (refused_result _ _ a.result)
  waiting i o (inr p) = p

  ended :
      finalize_canonical_mirror link now db r ≡ (err canonical_mirror_identity, db')
      → Ended link now db db' r (refused canonical_mirror_identity)
  unfolding finalize_canonical_mirror IsOther
  ended h =
      mirror_tx-Ended link now db db' r (refused canonical_mirror_identity)
        (refused_of link now db r db' (mirror_tx link now db r) (tx-IsOther link now db r) h)

  next_paused :
      (s : FinalizeCanonicalMirrorRequest)
      → ((stage : Stage) → link' stage ≡ false)
      → validate_canonical_mirror_finalization s ≡ ok (tt {0})
      → SameCommand r s
      → finalize_canonical_mirror link now db r ≡ (err canonical_mirror_identity, db')
      → finalize_canonical_mirror link' now' db' s ≡ (err canonical_mirror_paused, db')
  next_paused s up v (t, i, o) h =
      let e = ended h in
      let p = waiting e.intent e.outbox e.how in
      let w : Db = pause_canonical_mirror r.intent_id r.outbox_id now db in
      let written : w ≡ db' =
        paused_ok link now db r db' (e.intent).resulting_current_plan_id
          (canonical_mirror_identity_matches r e.intent) p.rest in
      subst (λ d. finalize_canonical_mirror link' now' d s ≡ (err canonical_mirror_paused, d))
        written
        (run_paused link' now' w s (set_sync SyncState.paused_internal e.intent)
          (unclaim DeliveryState.paused_internal "INTERNAL" now e.outbox) up v
          (rw t (lock_again link link' db w r.trip_id up (trips_kept link now db r) e.locked))
          (rw (t, i) (intent_paused link now db r e.intent e.outbox p.waiting e.intent_found))
          (rw (t, i, o) (outbox_paused link now db r e.intent e.outbox p.waiting e.outbox_found))
          refl refl)

-- Well-formed acknowledgements of one command, each with the reading of the clock, one after the other.
abbrev pub IsReplay : FinalizeCanonicalMirrorRequest → ℕ × FinalizeCanonicalMirrorRequest → Type 0
IsReplay r (now, s) = (validate_canonical_mirror_finalization s ≡ ok (tt {0})) × SameCommand r s

unfoldable pub replay : Link → List (ℕ × FinalizeCanonicalMirrorRequest) → Db → Db
replay link [] db = db
replay link (a ∷ acks) db = replay link acks (finalize_canonical_mirror link a.0 db a.1).1

module _ (link link' : Link) (now : ℕ) (db db' : Db) (r : FinalizeCanonicalMirrorRequest)
    (up : (stage : Stage) → link' stage ≡ false)
    (h : finalize_canonical_mirror link now db r ≡ (err canonical_mirror_identity, db')) where
  replay-eq :
      (acks : List (ℕ × FinalizeCanonicalMirrorRequest))
      → All (IsReplay r) acks
      → replay link' acks db' ≡ db'
  unfolding replay
  replay-eq [] k = refl
  replay-eq (a ∷ acks) k =
      ap (λ (p : Result FinalizedCanonicalMirror × Db). replay link' acks p.1)
        (next_paused link link' now a.0 db db' r a.1 up k.0.0 k.0.1 h)
      ∙ replay-eq acks k.1

  -- An acknowledgement that conflicts with the stored identity is refused, and the refusal is
  -- committed: after any sequence of well-formed acknowledgements of the command and nothing else, a
  -- further one, even with the right identity, is refused as paused, and the tables are as the first
  -- one left them, if the driver does not fail.
  pub finalize_canonical_mirror-paused :
      (acks : List (ℕ × FinalizeCanonicalMirrorRequest)) (now' : ℕ)
      (s : FinalizeCanonicalMirrorRequest)
      → All (IsReplay r) acks
      → IsReplay r (now', s)
      → finalize_canonical_mirror link' now' (replay link' acks db') s
        ≡ (err canonical_mirror_paused, db')
  finalize_canonical_mirror-paused acks now' s k v =
      ap (λ d. finalize_canonical_mirror link' now' d s) (replay-eq acks k)
      ∙ next_paused link link' now now' db db' r s up v.0 v.1 h
