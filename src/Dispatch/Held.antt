-- ===== src/Dispatch/Held.antt =====
-- The store methods that the dispatcher calls besides the finalizations of a runtime's outcome: they
-- keep settled rows, and the finalization of a mirror settles its row.
use live_route.Base.{
  ℕ, zero, suc, ◌+◌, ◌*◌, String, Bool, true, false, ◌&&◌, Option, some, List, ◌≡◌, refl, ap, arith,
  inl, inr,
}
use mathlib.Core.Path.{subst}
use live_route.Base.Table.{find_where, select_where, any_where, find_where-holds}
use live_route.Base.Result.{
  Result, ok, err, Link, transact, transact_cases, commit_as_ok, canonical_mirror_identity,
}
use live_route.Store.{Db, Intent, Outbox, SyncState, DeliveryState}
use live_route.Lease.{Duration, milliseconds}
use live_route.Confirm.{
  ConfirmFinalizedMutationsRequest, ConfirmedFinalizedMutations, is_settled, unconfirmed,
  confirm_row, confirm_finalized_mutations, confirm_tx, confirm_rows, write_confirmed, confirmed,
  latest_confirmation, is_covered,
}
use live_route.Terminal.Rows.{same_delivery_state, is_outbox_of, text_of}
use live_route.Mirror.{
  FinalizeCanonicalMirrorRequest, FinalizedCanonicalMirror, Ending, finished, refused, unpack,
  canonical_mirror_identity_matches, canonical_mirror_result, both, pending_outbox, unclaim,
  pause_canonical_mirror, write_mirror, mirror_pending, mirror_tx, finalize_canonical_mirror,
}
use live_route.Confirm.Covered.{confirm-Scanned}
use live_route.Mirror.Outcome.{Again, mirror_tx-Ended}
use live_route.Delivery.Claims.{ClaimedOutboxRow, candidates, claim, is_among, write_claims}
use live_route.Delivery.{
  claim_due, claim_rows, checked, release_for_retry, retry_rows, microseconds, pause_internal,
  pause_rows, is_claimed, retry_at, pause_row,
}
use live_route.Dispatch.Stores.{
  is_settled_row, is_settled_in, KeepsRows, update-KeepsRows, found_settled, any_where_of_update,
}
use live_route.Dispatch.Kept.{Settles, Ends}

-- A row that waits is not settled.
waiting_unsettled :
    (s : DeliveryState)
    → same_delivery_state s DeliveryState.pending ≡ true
    → is_settled s ≡ true
    → false ≡ true
waiting_unsettled DeliveryState.pending h g = g
waiting_unsettled DeliveryState.paused_internal h g = g
waiting_unsettled DeliveryState.accepted h g = h
waiting_unsettled DeliveryState.terminal_rejected h g = h

module _ (link : Link) (now : ℕ) (db db' : Db) (r : FinalizeCanonicalMirrorRequest) where
  paused-KeepsRows : pause_canonical_mirror r.intent_id r.outbox_id now db ≡ db' → KeepsRows db db'
  unfolding pause_canonical_mirror
  paused-KeepsRows e =
      update-KeepsRows db db' (pending_outbox r.outbox_id)
        (unclaim DeliveryState.paused_internal "INTERNAL" now) (ap (λ (d : Db). d.outbox) e)
        (λ x. refl) (λ x p s. waiting_unsettled x.delivery_state (ground arith) s)

  written-Ends :
      (o : Outbox)
      → find_where (is_outbox_of r.outbox_id r.intent_id r.trip_id) db.outbox ≡ some o
      → same_delivery_state o.delivery_state DeliveryState.pending ≡ true
      → write_mirror r now db ≡ db'
      → Ends db r.outbox_id db'
  unfolding write_mirror is_settled_in
  written-Ends o f w e =
      let p : Outbox → Bool = λ x.
        is_outbox_of r.outbox_id r.intent_id r.trip_id x
        && same_delivery_state x.delivery_state DeliveryState.pending in
      let u = unclaim DeliveryState.accepted "OK" now in
      let e' = ap (λ (d : Db). d.outbox) e in
      let here =
        find_where-holds (is_outbox_of r.outbox_id r.intent_id r.trip_id) db.outbox {a = o} f in
      (
        update-KeepsRows db db' p u e' (λ x. refl) (λ x v s. refl),
        subst (λ z. any_where (is_settled_row r.outbox_id) z ≡ true) e'
            (any_where_of_update (is_settled_row r.outbox_id)
              (is_outbox_of r.outbox_id r.intent_id r.trip_id) p u db.outbox o f
              (ground (arith, here, w)) (ground (arith, here))),
      )

  -- The two ways of a mirror that waits.
  IsRight : Ending → Type 0
  IsRight (finished m) = Ends db r.outbox_id db'
  IsRight (refused e) = KeepsRows db db'

  pending-IsRight :
      (e : Ending) (o : Outbox) (plan : Option String) (b : Bool)
      → find_where (is_outbox_of r.outbox_id r.intent_id r.trip_id) db.outbox ≡ some o
      → same_delivery_state o.delivery_state DeliveryState.pending ≡ true
      → mirror_pending link now db r plan b ≡ ok (e, db')
      → IsRight e
  unfolding mirror_pending IsRight
  pending-IsRight e o plan false f w h =
      let (q, d) =
        commit_as_ok link (refused canonical_mirror_identity)
          (pause_canonical_mirror r.intent_id r.outbox_id now db) {b = e} {t = db'}
          (ground arith) in
      subst IsRight q (paused-KeepsRows d)
  pending-IsRight e o plan true f w h =
      let (q, d) =
        commit_as_ok link
          (finished (
            canonical_mirror_result r (text_of plan) SyncState.synced DeliveryState.accepted false))
          (write_mirror r now db) {b = e} {t = db'} (ground arith) in
      subst IsRight q (written-Ends o f w d)

  Again-IsRight :
      (e : Ending) (i : Intent) (o : Outbox)
      → find_where (is_outbox_of r.outbox_id r.intent_id r.trip_id) db.outbox ≡ some o
      → Again link now db db' r e i o
      → IsRight e
  unfolding both IsRight
  Again-IsRight e i o f a = subst IsRight a.result (
      subst (Ends db r.outbox_id) a.unchanged (
        (λ id h. h),
        found_settled db r.outbox_id r.intent_id r.trip_id o DeliveryState.accepted f
            (ground (arith, a.settled)) refl,
      ))

  Ended-IsRight : (e : Ending) → mirror_tx link now db r ≡ ok (e, db') → IsRight e
  unfolding both
  Ended-IsRight e h =
      let t = mirror_tx-Ended link now db db' r e h in
      elim t.how [
        | inl a ↦ Again-IsRight e t.intent t.outbox t.outbox_found a
        | inr p ↦
            pending-IsRight e t.outbox (t.intent).resulting_current_plan_id
              (canonical_mirror_identity_matches r t.intent) t.outbox_found
              (ground (arith, p.waiting)) p.rest
      ]

unpacked-Settles :
    (link : Link) (now : ℕ) (db : Db) (r : FinalizeCanonicalMirrorRequest)
    (x : Result (Ending × Db))
    → ((e : Ending) (db' : Db) → x ≡ ok (e, db') → IsRight link now db db' r e)
    → Settles db r.outbox_id (unpack (transact db x))
unfolding IsRight
unpacked-Settles link now db r (ok (finished m, db')) k = record {
  keeps = (k (finished m) db' refl).0;
  settles = λ n d f.
      subst (λ z. is_settled_in z r.outbox_id ≡ true)
        (ap (λ (p : Result FinalizedCanonicalMirror × Db). p.1) f) (k (finished m) db' refl).1;
}
unpacked-Settles link now db r (ok (refused e, db')) k = record {
  keeps = k (refused e) db' refl;
  settles = λ n d f. absurd (cc);
}
unpacked-Settles link now db r (err e) k = record {
  keeps = λ id h. h;
  settles = λ n d f. absurd (cc);
}

pub finalize_canonical_mirror-Settles :
    (link : Link) (now : ℕ) (db : Db) (r : FinalizeCanonicalMirrorRequest)
    → Settles db r.outbox_id (finalize_canonical_mirror link now db r)
unfolding finalize_canonical_mirror
finalize_canonical_mirror-Settles link now db r =
    unpacked-Settles link now db r (mirror_tx link now db r)
      (λ e db' h. Ended-IsRight link now db db' r e h)

checked-KeepsRows :
    {A : Type 0} (db : Db) (g : Result (Unit {0})) (p : Result A × Db)
    → KeepsRows db p.1
    → KeepsRows db (checked db g p).1
checked-KeepsRows db (ok u) p k = k
checked-KeepsRows db (err e) p k = λ id h. h

claim_rows-KeepsRows :
    (valid_json : String → Bool) (owner : String) (expires now : ℕ) (chosen : List Outbox) (db : Db)
    → KeepsRows db (claim_rows valid_json owner expires now chosen db).1
unfolding claim_rows write_claims
claim_rows-KeepsRows valid_json owner expires now chosen db =
    update-KeepsRows db (write_claims owner expires now chosen db) (is_among chosen)
      (claim owner expires now) refl (λ x. refl) (λ x p s. s)

pub claim_due-KeepsRows :
    (valid_json : String → Bool) (link : Link) (now : ℕ) (locked : Outbox → Bool) (db : Db)
    (owner : String) (n : ℕ) (t : Duration)
    → KeepsRows db (claim_due valid_json link now locked db owner n t).1
unfolding claim_due
claim_due-KeepsRows valid_json link now locked db owner n t = checked-KeepsRows db _ _ (
    claim_rows-KeepsRows valid_json owner (now + milliseconds t * 1000) now
      (candidates locked now n db.outbox) db)

pub release_for_retry-KeepsRows :
    (link : Link) (now : ℕ) (db : Db) (row : ClaimedOutboxRow) (owner status : String)
    (t : Duration)
    → KeepsRows db (release_for_retry link now db row owner status t).1
unfolding release_for_retry retry_rows
release_for_retry-KeepsRows link now db row owner status t =
    checked-KeepsRows db _ (_, retry_rows row owner status (now + microseconds t) now db)
      (update-KeepsRows db (retry_rows row owner status (now + microseconds t) now db)
        (is_claimed row owner now) (retry_at (now + microseconds t) status now) refl (λ x. refl)
        (λ x p s. s))

pub pause_internal-KeepsRows :
    (link : Link) (now : ℕ) (db : Db) (row : ClaimedOutboxRow) (owner reason : String)
    → KeepsRows db (pause_internal link now db row owner reason).1
unfolding pause_internal pause_rows
pause_internal-KeepsRows link now db row owner reason =
    checked-KeepsRows db _ (_, pause_rows row owner reason now db)
      (update-KeepsRows db (pause_rows row owner reason now db) (is_claimed row owner now)
        (pause_row reason now) refl (λ x. refl)
        (λ x p s. waiting_unsettled x.delivery_state (ground arith) s))

confirm_rows-KeepsRows :
    (link : Link) (now : ℕ) (db db' : Db) (r : ConfirmFinalizedMutationsRequest)
    (res : ConfirmedFinalizedMutations) (counts : ℕ × Bool)
    → confirm_rows link now db r counts ≡ ok (res, db')
    → KeepsRows db db'
unfolding confirm_rows write_confirmed
confirm_rows-KeepsRows link now db db' r res (suc n, b) h =
    let (q, d) =
      commit_as_ok link (confirmed r now (suc n)) (write_confirmed r now db) {b = res} {t = db'}
        (ground arith) in
    update-KeepsRows db db' (unconfirmed r.trip_id r.finalized_mutation_sequence) (confirm_row now)
      (ap (λ (d : Db). d.outbox) d) (λ x. refl) (λ x p s. s)
confirm_rows-KeepsRows link now db db' r res (zero, true) h =
    let (q, d) =
      commit_as_ok link
        (confirmed r
          (latest_confirmation
            (select_where (is_covered r.trip_id r.finalized_mutation_sequence) db.outbox))
          0)
        db {b = res} {t = db'} (ground arith) in
    subst (KeepsRows db) d (λ id g. g)
confirm_rows-KeepsRows link now db db' r res (zero, false) h =
    let (q, d) = commit_as_ok link (confirmed r 0 0) db {b = res} {t = db'} (ground arith) in
    subst (KeepsRows db) d (λ id g. g)

pub confirm_finalized_mutations-KeepsRows :
    (link : Link) (now : ℕ) (db : Db) (r : ConfirmFinalizedMutationsRequest)
    → KeepsRows db (confirm_finalized_mutations link now db r).1
unfolding confirm_finalized_mutations
confirm_finalized_mutations-KeepsRows link now db r =
    transact_cases (KeepsRows db) db (confirm_tx link now db r) (λ id h. h)
      (λ a db' e.
        let s = confirm-Scanned link now db db' r a (ap (transact db) e) in
        confirm_rows-KeepsRows link now db db' r a s.counts s.rest)
