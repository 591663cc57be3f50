-- ===== src/Confirm/Replay.antt =====
-- A confirmation that is sent again.
use mathlib.Core.Path.{subst}
use live_route.Base.{
  ℕ, zero, suc, ◌≤◌, ◌≡◌, refl, ap, Bool, true, false, some, List, [], ◌∷◌, arith, All,
}
use live_route.Base.Table.{find_where, select_where, All-select_where}
use live_route.Base.Result.{
  ok, Link, Stage, transact_ok, commit_as, commit_as_ok, begin, lock_trip, read_outbox, read_clock,
  commit,
}
use live_route.Store.{Db, Trip, Outbox}
use live_route.Proposal.{is_trip}
use live_route.Confirm.{
  ConfirmFinalizedMutationsRequest, ConfirmedFinalizedMutations, is_covered, scan_rows,
  latest_confirmation, write_confirmed, confirmed, confirm_rows, confirm_trip, confirm_tx,
  confirm_finalized_mutations, validate_finalization_confirmation,
}
use live_route.Confirm.Covered.{IsSettled, IsConfirmed, confirm-Scanned, confirm-Acknowledged}

scan_nothing :
    (os : List Outbox)
    → All (λ o. IsSettled o × IsConfirmed o) os
    → (b : Bool) × (scan_rows os ≡ ok (0, b))
unfolding scan_rows
scan_nothing [] h = (false, refl)
scan_nothing (o ∷ os) h =
    let (b, e) = scan_nothing os h.1 in
    let conf = (h.0).1 in let settled = (h.0).0 in (true, ground arith)

module _ (link : Link) (now : ℕ) (db : Db) (r : ConfirmFinalizedMutationsRequest) where
  rest_again :
      (b : Bool)
      → ((stage : Stage) → link stage ≡ false)
      → (time : ℕ) × (confirm_rows link now db r (0, b) ≡ ok (confirmed r time 0, db))
  unfolding confirm_rows commit_as
  rest_again true up = (
    latest_confirmation
        (select_where (is_covered r.trip_id r.finalized_mutation_sequence) db.outbox),
    ground (arith, up read_clock, up commit),
  )
  rest_again false up = (0, ground (arith, up commit))

  run_again :
      (trip : Trip) (b : Bool) (time : ℕ) (u : Unit {0})
      → ((stage : Stage) → link stage ≡ false)
      → validate_finalization_confirmation r ≡ ok u
      → find_where (is_trip r.trip_id) db.trips ≡ some trip
      → r.finalized_mutation_sequence ≤ trip.finalized_mutation_sequence
      → scan_rows (select_where (is_covered r.trip_id r.finalized_mutation_sequence) db.outbox)
        ≡ ok (0, b)
      → confirm_rows link now db r (0, b) ≡ ok (confirmed r time 0, db)
      → confirm_finalized_mutations link now db r ≡ (ok (confirmed r time 0), db)
  unfolding confirm_finalized_mutations confirm_tx confirm_trip
  run_again trip b time u up v e le s c =
      ground (arith, v, up begin, up lock_trip, up read_outbox, e, le, s, c)

module _ (link link' : Link) (now now' : ℕ) (db db' : Db) (r : ConfirmFinalizedMutationsRequest)
    (res : ConfirmedFinalizedMutations) where
  valid_tx :
      confirm_tx link now db r ≡ ok (res, db') → validate_finalization_confirmation r ≡ ok (tt {0})
  unfolding confirm_tx
  valid_tx h = ground arith

  trips_kept :
      (counts : ℕ × Bool) → confirm_rows link now db r counts ≡ ok (res, db') → db.trips ≡ db'.trips
  unfolding confirm_rows write_confirmed
  trips_kept (suc n, b) h =
      ap (λ (d : Db). d.trips)
        (commit_as_ok link (confirmed r now (suc n)) (write_confirmed r now db) {b = res} {t = db'}
          (ground arith)).1
  trips_kept (zero, true) h =
      ap (λ (d : Db). d.trips)
        (commit_as_ok link
          (confirmed r
            (latest_confirmation
              (select_where (is_covered r.trip_id r.finalized_mutation_sequence) db.outbox))
            0)
          db {b = res} {t = db'} (ground arith)).1
  trips_kept (zero, false) h =
      ap (λ (d : Db). d.trips)
        (commit_as_ok link (confirmed r 0 0) db {b = res} {t = db'} (ground arith)).1

  -- A confirmation that succeeded can be sent again at any later time: if the driver does not fail, it
  -- succeeds as a duplicate that confirms no row, and the tables stay as they are.
  pub confirm-again :
      ((stage : Stage) → link' stage ≡ false)
      → confirm_finalized_mutations link now db r ≡ (ok res, db')
      → (time : ℕ) × (confirm_finalized_mutations link' now' db' r ≡ (ok (confirmed r time 0), db'))
  unfolding confirm_finalized_mutations
  confirm-again up h =
      let s = confirm-Scanned link now db db' r res h in
      let (_, acknowledged) = confirm-Acknowledged link now db db' r res h in
      let (b, e) = scan_nothing _ (
        All-select_where (λ o. IsSettled o × IsConfirmed o)
          (is_covered r.trip_id r.finalized_mutation_sequence) db'.outbox acknowledged) in
      let (time, again) = rest_again link' now' db' r b up in
      (
        time,
        run_again link' now' db' r s.trip b time tt up
            (valid_tx (transact_ok db (confirm_tx link now db r) h))
            (subst (λ ts. find_where (is_trip r.trip_id) ts ≡ some s.trip)
              (trips_kept s.counts s.rest) s.trip_found)
            s.finalized e again,
      )
