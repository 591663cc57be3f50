-- ===== src/Lease/History.antt =====
-- Histories of lease calls, and the case rules by which the proofs go through one call.
use mathlib.Core.Path.{subst}
use live_route.Base.{
  ℕ, ◌+◌, ◌≤◌, String, ◌≡◌, refl, true, Option, none, some, List, [], ◌∷◌, arith, ◌==◌,
}
use live_route.Base.Table.{find_where, count_where}
use live_route.Base.Result.{ok, Link, transact_cases, commit_as, commit_as_ok}
use live_route.Store.{Db, RuntimeLease}
use live_route.Lease.{
  Duration, for_trip, renewable, is_held, acquire_tx, renew_tx, release_tx, fresh_lease, take_over,
  extend, acquire, acquire_row, renew, renew_row, release, insert_lease, write_take_over,
  write_renewal, delete_lease,
}

-- A call of a LeaseStore method, with the driver's behaviour and the readings of the clock.
pub data Call : Type 0 where
  acquires : Link → ℕ → ℕ → String → String → Duration → Call
  renews : Link → ℕ → String → String → ℕ → Duration → Call
  releases : Link → String → String → ℕ → Call

unfoldable pub step : Db → Call → Db
step db (acquires link read_at write_at trip_id holder_id duration) =
    (acquire link read_at write_at db trip_id holder_id duration).1
step db (renews link now trip_id holder_id epoch duration) =
    (renew link now db trip_id holder_id epoch duration).1
step db (releases link trip_id holder_id epoch) = (release link db trip_id holder_id epoch).1

unfoldable pub run : Db → List Call → Db
run db [] = db
run db (c ∷ cs) = run (step db c) cs

-- What a transaction that reached its end wrote.
module _ (link : Link) (db db' : Db) (trip_id holder_id : String) where
  pub acquire_tx_ok :
      (read_at write_at : ℕ) (duration : Duration) (lease : RuntimeLease)
      → acquire_tx link read_at write_at db trip_id holder_id duration ≡ ok (lease, db')
      → acquire_row link read_at write_at db trip_id holder_id duration
          (find_where (for_trip trip_id) db.leases)
        ≡ ok (lease, db')
  unfolding acquire_tx
  acquire_tx_ok read_at write_at duration lease h = ground arith

  -- What an acquisition found, gave and wrote.
  abbrev pub Acquired : ℕ → ℕ → Duration → RuntimeLease → Option RuntimeLease → Type 0
  Acquired read_at write_at duration lease none =
      (fresh_lease trip_id holder_id duration write_at ≡ lease)
      × (insert_lease trip_id holder_id duration write_at db ≡ db')
  Acquired read_at write_at duration lease (some row) =
      (row.lease_expires_at ≤ read_at)
      × ((take_over holder_id duration write_at row ≡ lease)
          × (write_take_over trip_id holder_id duration write_at (row.runtime_epoch + 1) db ≡ db'))

  pub acquire_row_ok :
      (read_at write_at : ℕ) (duration : Duration) (lease : RuntimeLease)
      (row : Option RuntimeLease)
      → acquire_row link read_at write_at db trip_id holder_id duration row ≡ ok (lease, db')
      → Acquired read_at write_at duration lease row
  unfolding acquire_row
  acquire_row_ok read_at write_at duration lease none h = commit_as_ok link _ _ (ground arith)
  acquire_row_ok read_at write_at duration lease (some row) h =
      (ground arith, commit_as_ok link _ _ (ground arith))

  pub renew_tx_ok :
      (now epoch : ℕ) (duration : Duration) (lease : RuntimeLease)
      → renew_tx link now db trip_id holder_id epoch duration ≡ ok (lease, db')
      → renew_row link now db trip_id holder_id epoch duration
          (find_where (renewable trip_id holder_id epoch now) db.leases)
        ≡ ok (lease, db')
  unfolding renew_tx
  renew_tx_ok now epoch duration lease h = ground arith

  pub renew_row_ok :
      (now epoch : ℕ) (duration : Duration) (lease : RuntimeLease) (row : Option RuntimeLease)
      → renew_row link now db trip_id holder_id epoch duration row ≡ ok (lease, db')
      → (r : RuntimeLease) × (row ≡ some r)
        × (extend duration now r ≡ lease)
        × (write_renewal trip_id holder_id epoch duration now db ≡ db')
  unfolding renew_row
  renew_row_ok now epoch duration lease none h = absurd (cc)
  renew_row_ok now epoch duration lease (some row) h =
      let (l, d) = commit_as_ok link _ _ h in (row, refl, l, d)

  pub release_tx_ok :
      (epoch : ℕ) (u : Unit {0})
      → release_tx link db trip_id holder_id epoch ≡ ok (u, db')
      → ((count_where (is_held trip_id holder_id epoch) db.leases == 1) ≡ true)
        × (commit_as link tt (delete_lease trip_id holder_id epoch db) ≡ ok (u, db'))
  unfolding release_tx
  release_tx_ok epoch u h = ground arith

module _ {ℓ} (P : Db → Type ℓ) (link : Link) (db : Db) (trip_id holder_id : String) where
  acquired_cases :
      (read_at write_at : ℕ) (duration : Duration) (lease : RuntimeLease) (db' : Db)
      → (row : Option RuntimeLease)
      → (row ≡ none → P (insert_lease trip_id holder_id duration write_at db))
      → ((r : RuntimeLease)
          → row ≡ some r
          → r.lease_expires_at ≤ read_at
          → P (write_take_over trip_id holder_id duration write_at (r.runtime_epoch + 1) db))
      → Acquired link db db' trip_id holder_id read_at write_at duration lease row
      → P db'
  acquired_cases read_at write_at duration lease db' none fresh taken a = subst P a.1 (fresh refl)
  acquired_cases read_at write_at duration lease db' (some row) fresh taken a =
      subst P (a.1).1 (taken row refl a.0)

  pub acquire_cases :
      (read_at write_at : ℕ) (duration : Duration)
      → P db
      → (find_where (for_trip trip_id) db.leases ≡ none
          → P (insert_lease trip_id holder_id duration write_at db))
      → ((row : RuntimeLease)
          → find_where (for_trip trip_id) db.leases ≡ some row
          → row.lease_expires_at ≤ read_at
          → P (write_take_over trip_id holder_id duration write_at (row.runtime_epoch + 1) db))
      → P (acquire link read_at write_at db trip_id holder_id duration).1
  unfolding acquire
  acquire_cases read_at write_at duration unchanged fresh taken =
      transact_cases P db (acquire_tx link read_at write_at db trip_id holder_id duration) unchanged
        λ lease db' h. acquired_cases read_at write_at duration lease db' _ fresh taken (
          acquire_row_ok link db db' trip_id holder_id read_at write_at duration lease _
            (acquire_tx_ok link db db' trip_id holder_id read_at write_at duration lease h))

  pub renew_cases :
      (now epoch : ℕ) (duration : Duration)
      → P db
      → P (write_renewal trip_id holder_id epoch duration now db)
      → P (renew link now db trip_id holder_id epoch duration).1
  unfolding renew
  renew_cases now epoch duration unchanged written =
      transact_cases P db (renew_tx link now db trip_id holder_id epoch duration) unchanged
        λ lease db' h.
          let (_, _, _, d) =
            renew_row_ok link db db' trip_id holder_id now epoch duration lease _
              (renew_tx_ok link db db' trip_id holder_id now epoch duration lease h) in
          subst P d written

  pub release_cases :
      (epoch : ℕ)
      → P db
      → P (delete_lease trip_id holder_id epoch db)
      → P (release link db trip_id holder_id epoch).1
  unfolding release
  release_cases epoch unchanged deleted =
      transact_cases P db (release_tx link db trip_id holder_id epoch) unchanged λ a db' h.
        subst P
          (commit_as_ok link tt (delete_lease trip_id holder_id epoch db)
            (release_tx_ok link db db' trip_id holder_id epoch a h).1).1
          deleted
