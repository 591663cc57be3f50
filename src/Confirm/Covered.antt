-- ===== src/Confirm/Covered.antt =====
-- What a confirmation covers: the outbox rows up to its sequence, all of them settled.
use mathlib.Core.Path.{subst}
use live_route.Base.{
  ℕ, zero, suc, inl, inr, ◌≤◌, String, ◌≡◌, refl, Bool, true, false, Option, none, some, List, [],
  ◌∷◌, arith, All, All-map, All-both,
}
use live_route.Base.Table.{find_where, select_where, All-update_where_to, All-of_select_where}
use live_route.Base.Result.{Result-cases, ok, Link, transact_ok, commit_as_ok}
use live_route.Store.{Db, Trip, Outbox}
use live_route.Proposal.{is_trip}
use live_route.Confirm.{
  ConfirmFinalizedMutationsRequest, ConfirmedFinalizedMutations, is_covered, is_settled,
  is_confirmed, scan_rows, latest_confirmation, unconfirmed, confirm_row, write_confirmed,
  confirmed, confirm_rows, confirm_trip, confirm_tx, confirm_finalized_mutations,
}

abbrev pub IsSettled : Outbox → Type 0
IsSettled o = is_settled o.delivery_state ≡ true

abbrev pub IsConfirmed : Outbox → Type 0
IsConfirmed o = is_confirmed o.finalization_confirmed_at ≡ true

tail_ok :
    (o : Outbox) (os : List Outbox) (c : ℕ × Bool)
    → scan_rows (o ∷ os) ≡ ok c
    → (d : ℕ × Bool) × (scan_rows os ≡ ok d)
unfolding scan_rows
tail_ok o os c h = elim (Result-cases (scan_rows os)) [
  | inl found ↦ found
  | inr failed ↦ absurd (ground (arith, failed.1))
]

scan_rows-IsSettled : (os : List Outbox) (c : ℕ × Bool) → scan_rows os ≡ ok c → All IsSettled os
unfolding scan_rows
scan_rows-IsSettled [] c h = tt
scan_rows-IsSettled (o ∷ os) c h =
    let (d, e) = tail_ok o os c h in (ground arith, scan_rows-IsSettled os d e)

tail_zero :
    (o : Outbox) (os : List Outbox) (c : ℕ × Bool)
    → scan_rows (o ∷ os) ≡ ok c
    → c.0 ≡ 0
    → (d : ℕ × Bool) × (scan_rows os ≡ ok d) × (d.0 ≡ 0) × IsConfirmed o
unfolding scan_rows
tail_zero o os c h z = let (d, e) = tail_ok o os c h in (d, e, ground (arith, e), ground (arith, e))

scan_rows-IsConfirmed :
    (os : List Outbox) (c : ℕ × Bool) → scan_rows os ≡ ok c → c.0 ≡ 0 → All IsConfirmed os
unfolding scan_rows
scan_rows-IsConfirmed [] c h z = tt
scan_rows-IsConfirmed (o ∷ os) c h z =
    let (d, e, z', conf) = tail_zero o os c h z in (conf, scan_rows-IsConfirmed os d e z')

-- Both halves of a row's protocol: it is settled, and the runtime knows it.
abbrev pub Acknowledged : String → ℕ → Outbox → Type 0
Acknowledged trip_id sequence o = is_covered trip_id sequence o ≡ true → IsSettled o × IsConfirmed o

module _ (link : Link) (now : ℕ) (db db' : Db) (r : ConfirmFinalizedMutationsRequest)
    (res : ConfirmedFinalizedMutations) where
  abbrev pub covered_rows : List Outbox
  covered_rows = select_where (is_covered r.trip_id r.finalized_mutation_sequence) db.outbox

  -- What a confirmation that succeeded had read.
  pub record Scanned : Type 0 where
    pub trip : Trip
    pub trip_found : find_where (is_trip r.trip_id) db.trips ≡ some trip
    pub finalized : r.finalized_mutation_sequence ≤ trip.finalized_mutation_sequence
    pub counts : ℕ × Bool
    pub scanned : scan_rows covered_rows ≡ ok counts
    pub rest : confirm_rows link now db r counts ≡ ok (res, db')

  trip_ok :
      (trip : Option Trip)
      → find_where (is_trip r.trip_id) db.trips ≡ trip
      → confirm_trip link now db r trip ≡ ok (res, db')
      → Scanned
  unfolding confirm_trip
  trip_ok none e h = absurd (cc)
  trip_ok (some trip) e h = elim (Result-cases (scan_rows covered_rows)) [
    | inl found ↦ record {
      trip = trip;
      trip_found = e;
      finalized = ground arith;
      counts = found.0;
      scanned = found.1;
      rest = ground (arith, found.1);
    }
    | inr failed ↦ absurd (ground (arith, failed.1))
  ]

  tx_ok :
      confirm_tx link now db r ≡ ok (res, db')
      → confirm_trip link now db r (find_where (is_trip r.trip_id) db.trips) ≡ ok (res, db')
  unfolding confirm_tx
  tx_ok h = ground arith

  pub confirm-Scanned : confirm_finalized_mutations link now db r ≡ (ok res, db') → Scanned
  unfolding confirm_finalized_mutations
  confirm-Scanned h = trip_ok _ refl (tx_ok (transact_ok db (confirm_tx link now db r) h))

  confirm_one :
      (o : Outbox)
      → unconfirmed r.trip_id r.finalized_mutation_sequence o ≡ true
      → Acknowledged r.trip_id r.finalized_mutation_sequence (confirm_row now o)
  confirm_one o h c = (ground arith, refl)

  skip_one :
      (o : Outbox)
      → unconfirmed r.trip_id r.finalized_mutation_sequence o ≡ false
      → (is_covered r.trip_id r.finalized_mutation_sequence o ≡ true → IsSettled o)
      → Acknowledged r.trip_id r.finalized_mutation_sequence o
  skip_one o h s c = let settled = s c in (settled, ground arith)

  kept :
      db ≡ db'
      → All
          (λ o. is_covered r.trip_id r.finalized_mutation_sequence o ≡ true → IsSettled o)
          db.outbox
      → All
          (λ o. is_covered r.trip_id r.finalized_mutation_sequence o ≡ true → IsConfirmed o)
          db.outbox
      → All (Acknowledged r.trip_id r.finalized_mutation_sequence) db'.outbox
  kept e s c =
      subst (λ (d : Db). All (Acknowledged r.trip_id r.finalized_mutation_sequence) d.outbox) e
        (All-map _ _ db.outbox (λ o k hit. (k.0 hit, k.1 hit)) (All-both _ _ db.outbox s c))

  pub written_ok :
      (counts : ℕ × Bool)
      → confirm_rows link now db r counts ≡ ok (res, db')
      → All
          (λ o. is_covered r.trip_id r.finalized_mutation_sequence o ≡ true → IsSettled o)
          db.outbox
      → (counts.0 ≡ 0
          → All
              (λ o. is_covered r.trip_id r.finalized_mutation_sequence o ≡ true → IsConfirmed o)
              db.outbox)
      → All (Acknowledged r.trip_id r.finalized_mutation_sequence) db'.outbox
  unfolding confirm_rows write_confirmed
  written_ok (suc n, b) h s c =
      let (_, w) =
        commit_as_ok link (confirmed r now (suc n)) (write_confirmed r now db) {b = res} {t = db'}
          (ground arith) in
      subst (λ (d : Db). All (Acknowledged r.trip_id r.finalized_mutation_sequence) d.outbox) w
        (All-update_where_to _ _ (unconfirmed r.trip_id r.finalized_mutation_sequence)
          (confirm_row now) db.outbox (λ o e _. confirm_one o e) (λ o e k. skip_one o e k) s)
  written_ok (zero, true) h s c =
      kept
        (commit_as_ok link (confirmed r (latest_confirmation covered_rows) 0) db {b = res} {t = db'}
          (ground arith)).1
        s (c refl)
  written_ok (zero, false) h s c =
      kept (commit_as_ok link (confirmed r 0 0) db {b = res} {t = db'} (ground arith)).1 s (c refl)

  -- A confirmation that succeeds covers no more than the trip has finalized, and after it every outbox
  -- row of the trip up to the confirmed sequence is accepted or terminally rejected and has its
  -- time of confirmation: no pending or paused row is ever covered.
  pub confirm-Acknowledged :
      confirm_finalized_mutations link now db r ≡ (ok res, db')
      → ((trip : Trip) × (find_where (is_trip r.trip_id) db.trips ≡ some trip)
          × (r.finalized_mutation_sequence ≤ trip.finalized_mutation_sequence))
        × All (Acknowledged r.trip_id r.finalized_mutation_sequence) db'.outbox
  confirm-Acknowledged h =
      let s = confirm-Scanned h in
      (
        (s.trip, s.trip_found, s.finalized),
        written_ok s.counts s.rest
            (All-of_select_where IsSettled _ db.outbox
              (scan_rows-IsSettled covered_rows s.counts s.scanned))
            (λ z.
              All-of_select_where IsConfirmed _ db.outbox
                (scan_rows-IsConfirmed covered_rows s.counts s.scanned z)),
      )
