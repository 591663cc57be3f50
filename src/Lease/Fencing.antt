-- ===== src/Lease/Fencing.antt =====
-- The runtime epoch as a fence: whom an acquisition locks out, and which proposals it stales.
use mathlib.Core.Path.{subst₂}
use live_route.Base.{
  ℕ, ◌+◌, ◌≤◌, String, ◌≡◌, refl, true, false, Option, none, some, arith, All, same_self,
}
use live_route.Base.Table.{find_where, All-update_where_new, find_where-update_where_self}
use live_route.Base.Table.Keyed.{find_where-append_found}
use live_route.Base.Result.{ok, Link, transact_ok}
use live_route.Store.{Db, RuntimeLease, Proposal}
use live_route.Lease.{
  Duration, fresh_lease, for_trip, is_old_epoch, stale_proposal, take_over, acquire, insert_lease,
  write_take_over,
}
use live_route.Lease.History.{Acquired, acquire_row_ok, acquire_tx_ok}

-- What a caller of Acquire may rely on: a first lease has epoch 1; a takeover found an expired lease,
-- has the next epoch, and leaves no pending proposal of the trip from an older epoch.
abbrev pub Granted : String → ℕ → Db → RuntimeLease → Option RuntimeLease → Type 0
Granted trip_id read_at db' lease none = lease.runtime_epoch ≡ 1
Granted trip_id read_at db' lease (some row) =
    (row.lease_expires_at ≤ read_at)
    × (lease.runtime_epoch ≡ row.runtime_epoch + 1)
    × All (λ p. is_old_epoch trip_id lease.runtime_epoch p ≡ false) db'.proposals

staled :
    (trip_id : String) (epoch now : ℕ) (p : Proposal)
    → is_old_epoch trip_id epoch (stale_proposal now p) ≡ false
staled trip_id epoch now p = ground arith

for_trip-take_over :
    (trip_id holder_id : String) (duration : Duration) (now : ℕ) (l : RuntimeLease)
    → for_trip trip_id l ≡ true
    → for_trip trip_id (take_over holder_id duration now l) ≡ true
for_trip-take_over trip_id holder_id duration now l h = h

module _ (read_at write_at : ℕ) (db : Db) (trip_id holder_id : String) (duration : Duration) where
  -- What an acquisition leaves behind, by the row that it found.
  abbrev pub Grant : Option RuntimeLease → Db → RuntimeLease → Type 0
  Grant row db' lease =
      Granted trip_id read_at db' lease row
      × (lease.holder_id ≡ holder_id)
      × (find_where (for_trip trip_id) db'.leases ≡ some lease)

  fresh-Grant :
      find_where (for_trip trip_id) db.leases ≡ none
      → Grant none
          (insert_lease trip_id holder_id duration write_at db)
          (fresh_lease trip_id holder_id duration write_at)
  unfolding insert_lease
  fresh-Grant e = (
    refl,
    refl,
    find_where-append_found (for_trip trip_id) db.leases
        (fresh_lease trip_id holder_id duration write_at) e (same_self trip_id),
  )

  taken-Grant :
      (row : RuntimeLease)
      → find_where (for_trip trip_id) db.leases ≡ some row
      → row.lease_expires_at ≤ read_at
      → Grant
          (some row)
          (write_take_over trip_id holder_id duration write_at (row.runtime_epoch + 1) db)
          (take_over holder_id duration write_at row)
  unfolding write_take_over
  taken-Grant row e x = (
    (
      x,
      refl,
      All-update_where_new _ (is_old_epoch trip_id (row.runtime_epoch + 1))
          (stale_proposal write_at) db.proposals
          (λ p h. staled trip_id (row.runtime_epoch + 1) write_at p) (λ p h. h),
    ),
    refl,
    find_where-update_where_self (for_trip trip_id) (take_over holder_id duration write_at)
        db.leases (for_trip-take_over trip_id holder_id duration write_at) e,
  )

  -- A first lease of a trip has epoch 1. Otherwise Acquire succeeds only when the trip's lease has
  -- expired by the database clock; the new lease has the next epoch, and no proposal of the trip from
  -- an older epoch is pending any more. Either way the trip's row is now the lease that is returned,
  -- and its holder is the caller.
  pub acquire-Grant :
      (link : Link) (lease : RuntimeLease) (db' : Db)
      → acquire link read_at write_at db trip_id holder_id duration ≡ (ok lease, db')
      → Grant (find_where (for_trip trip_id) db.leases) db' lease
  unfolding acquire
  acquire-Grant link lease db' h = by_row (find_where (for_trip trip_id) db.leases) refl (
      acquire_row_ok link db db' trip_id holder_id read_at write_at duration lease _ (
        acquire_tx_ok link db db' trip_id holder_id read_at write_at duration lease
          (transact_ok db _ h)))
    where
      by_row :
          (row : Option RuntimeLease)
          → find_where (for_trip trip_id) db.leases ≡ row
          → Acquired link db db' trip_id holder_id read_at write_at duration lease row
          → Grant row db' lease
      by_row none e a = subst₂ (Grant none) a.1 a.0 (fresh-Grant e)
      by_row (some row) e a = subst₂ (Grant (some row)) (a.1).1 (a.1).0 (taken-Grant row e a.0)
