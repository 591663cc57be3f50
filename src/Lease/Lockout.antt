-- ===== src/Lease/Lockout.antt =====
-- Whom an acquisition locks out, and what a release does to the epoch.
use live_route.Base.{
  ℕ, String, ◌≡◌, ◌≢◌, refl, sym, ap, ◌∙◌, inl, inr, true, false, none, some, List, [], ◌∷◌, arith,
  All, All-map, Bool-cases, ◌==◌,
}
use live_route.Base.Table.{
  find_where, count_where, delete_where, All-delete_where, find_where-All, find_where-holds,
}
use live_route.Base.Table.Keyed.{
  Keyed, Keyed-find_where, find_where-none_of_All, find_where_of_count,
}
use mathlib.Core.Path.{subst}
use live_route.Base.Result.{Result, ok, Link, transact_ok, commit_as, commit_as_ok}
use live_route.Store.{Db, RuntimeLease}
use live_route.Lease.{
  Duration, fresh_lease, for_trip, renewable, is_held, acquire, acquire_row, renew, release,
  insert_lease, delete_lease,
}
use live_route.Lease.History.{
  acquires, step, renew_tx_ok, renew_row_ok, release_tx_ok, acquire_row_ok, acquire_tx_ok,
}
use live_route.Lease.Exclusive.{same_trip, IsKeyed, step-IsKeyed}
use live_route.Lease.Fencing.{Grant, acquire-Grant}

epoch_clash :
    (trip_id holder_id : String) (epoch now : ℕ) (x y : RuntimeLease)
    → for_trip trip_id x ≡ true
    → is_held trip_id holder_id epoch y ≡ true
    → (same_trip x y ≡ true) × (same_trip y x ≡ true)
epoch_clash trip_id holder_id epoch now x y hx hy = ground arith

renewable-is_held :
    (trip_id holder_id : String) (epoch now : ℕ) (y : RuntimeLease)
    → renewable trip_id holder_id epoch now y ≡ true
    → is_held trip_id holder_id epoch y ≡ true
renewable-is_held trip_id holder_id epoch now y h = ground arith

is_held-epoch :
    (trip_id holder_id : String) (epoch : ℕ) (y : RuntimeLease)
    → is_held trip_id holder_id epoch y ≡ true
    → y.runtime_epoch ≡ epoch
is_held-epoch trip_id holder_id epoch y h = ground arith

module _ (db : Db) (trip_id : String) (lease : RuntimeLease) (k : IsKeyed db)
    (found : find_where (for_trip trip_id) db.leases ≡ some lease) where
  -- A row under another epoch than the trip's lease is not there.
  held-epoch :
      (holder_id : String) (epoch : ℕ) (y : RuntimeLease)
      → find_where (is_held trip_id holder_id epoch) db.leases ≡ some y
      → lease.runtime_epoch ≡ epoch
  held-epoch holder_id epoch y f =
      ap (λ (l : RuntimeLease). l.runtime_epoch)
        (Keyed-find_where same_trip _ _ db.leases (epoch_clash trip_id holder_id epoch 0) k found f)
      ∙ is_held-epoch trip_id holder_id epoch y (find_where-holds _ _ f)

  pub renew_epoch :
      (link : Link) (now : ℕ) (holder_id : String) (epoch : ℕ) (duration : Duration)
      (l : RuntimeLease) (db' : Db)
      → renew link now db trip_id holder_id epoch duration ≡ (ok l, db')
      → lease.runtime_epoch ≡ epoch
  unfolding renew
  renew_epoch link now holder_id epoch duration l db' h =
      let (r, f, _, _) =
        renew_row_ok link db db' trip_id holder_id now epoch duration l _
          (renew_tx_ok link db db' trip_id holder_id now epoch duration l (transact_ok db _ h)) in
      ap (λ (l : RuntimeLease). l.runtime_epoch)
        (Keyed-find_where same_trip _ _ db.leases
          (λ x y hx hy.
            epoch_clash trip_id holder_id epoch now x y hx
              (renewable-is_held trip_id holder_id epoch now y hy))
          k found f)
      ∙ is_held-epoch trip_id holder_id epoch r
          (renewable-is_held trip_id holder_id epoch now r (find_where-holds _ _ f))

  pub release_epoch :
      (link : Link) (holder_id : String) (epoch : ℕ) (db' : Db)
      → release link db trip_id holder_id epoch ≡ (ok tt, db')
      → lease.runtime_epoch ≡ epoch
  unfolding release
  release_epoch link holder_id epoch db' h =
      let (y, f) =
        find_where_of_count (is_held trip_id holder_id epoch) db.leases
          (release_tx_ok link db db' trip_id holder_id epoch tt (transact_ok db _ h)).0 in
      held-epoch holder_id epoch y f

-- Once a takeover has succeeded, whoever held the lease before can neither renew nor release it
-- under the epoch that it knows: both calls fail, at every later moment and under every holder name,
-- until another call changes the tables.
pub acquire-fences :
    (link link' : Link) (read_at write_at now : ℕ) (db db' db'' : Db)
    (trip_id holder_id old : String) (duration duration' : Duration) (row lease l : RuntimeLease)
    → IsKeyed db
    → find_where (for_trip trip_id) db.leases ≡ some row
    → acquire link read_at write_at db trip_id holder_id duration ≡ (ok lease, db')
    → (renew link' now db' trip_id old row.runtime_epoch duration' ≢ (ok l, db''))
      × (release link' db' trip_id old row.runtime_epoch ≢ (ok tt, db''))
acquire-fences link link' read_at write_at now db db' db'' trip_id holder_id old duration duration'
      row lease l k found got =
    (
      λ e. stuck (
          renew_epoch db' trip_id lease k' granted.2 link' now old row.runtime_epoch duration' l
            db'' e),
      λ e. stuck (release_epoch db' trip_id lease k' granted.2 link' old row.runtime_epoch db'' e),
    )
  where
    granted : Grant read_at write_at db trip_id holder_id duration (some row) db' lease
    granted =
        subst (λ r. Grant read_at write_at db trip_id holder_id duration r db' lease) found
          (acquire-Grant read_at write_at db trip_id holder_id duration link lease db' got)

    k' : IsKeyed db'
    k' = subst IsKeyed (ap (λ (p : Result RuntimeLease × Db). p.1) got) (
        unfold step in
        step-IsKeyed db (acquires link read_at write_at trip_id holder_id duration) k)

    stuck : lease.runtime_epoch ≡ row.runtime_epoch → ⊥
    stuck e = omega (arith, (granted.0).1)

other_trip :
    (trip_id holder_id : String) (epoch : ℕ) (x : RuntimeLease) (ls : List RuntimeLease)
    → is_held trip_id holder_id epoch x ≡ true
    → All (λ y. same_trip x y ≡ false) ls
    → All (λ y. for_trip trip_id y ≡ false) ls
other_trip trip_id holder_id epoch x ls h = All-map _ _ ls (λ y e. ground arith)

-- In a keyed table the row that a release deletes is the trip's only one.
find_where-released :
    (trip_id holder_id : String) (epoch : ℕ) (ls : List RuntimeLease)
    → Keyed same_trip ls
    → (y : RuntimeLease) → find_where (is_held trip_id holder_id epoch) ls ≡ some y
    → find_where (for_trip trip_id) (delete_where (is_held trip_id holder_id epoch) ls) ≡ none
unfolding find_where delete_where
find_where-released trip_id holder_id epoch [] k y f = refl
find_where-released trip_id holder_id epoch (x ∷ ls) k y f =
    elim (Bool-cases (is_held trip_id holder_id epoch x)) [
      | inl e ↦ rw e (
          find_where-none_of_All _ _
            (All-delete_where _ _ ls (other_trip trip_id holder_id epoch x ls e k.0)))
      | inr e ↦
          let f' : find_where (is_held trip_id holder_id epoch) ls ≡ some y = ground arith in
          let apart : same_trip x y ≡ false =
            find_where-All (λ z. same_trip x z ≡ false) _ ls f' k.0 in
          let held : is_held trip_id holder_id epoch y ≡ true = find_where-holds _ ls f' in
          let miss : for_trip trip_id x ≡ false = ground arith in
          rw (e, miss) (find_where-released trip_id holder_id epoch ls k.1 y f')
    ]

-- Whatever epoch a lease had reached, once it is released the next acquisition of the trip, by any
-- holder, has epoch 1 again, and it stales no proposal: the proposals of the table are the same.
pub acquire-release :
    (link link' : Link) (read_at write_at epoch : ℕ) (db db1 db2 : Db)
    (trip_id holder_id next : String) (duration : Duration) (lease : RuntimeLease)
    → IsKeyed db
    → release link db trip_id holder_id epoch ≡ (ok tt, db1)
    → acquire link' read_at write_at db1 trip_id next duration ≡ (ok lease, db2)
    → (lease.runtime_epoch ≡ 1) × (db2.proposals ≡ db.proposals)
unfolding release acquire insert_lease delete_lease
acquire-release link link' read_at write_at epoch db db1 db2 trip_id holder_id next duration lease k
      h h' =
    (
      sym (ap (λ (l : RuntimeLease). l.runtime_epoch) granted.0),
      sym (ap (λ (d : Db). d.proposals) granted.1) ∙ sym (ap (λ (d : Db). d.proposals) deleted),
    )
  where
    ended :
        ((count_where (is_held trip_id holder_id epoch) db.leases == 1) ≡ true)
        × (commit_as link (tt {0}) (delete_lease trip_id holder_id epoch db) ≡ ok (tt {0}, db1))
    ended = release_tx_ok link db db1 trip_id holder_id epoch tt (transact_ok db _ h)

    deleted : delete_lease trip_id holder_id epoch db ≡ db1
    deleted = (commit_as_ok link (tt {0}) (delete_lease trip_id holder_id epoch db) ended.1).1

    empty : find_where (for_trip trip_id) db1.leases ≡ none
    empty =
        let (y, f) = find_where_of_count (is_held trip_id holder_id epoch) db.leases ended.0 in
        subst (λ (d : Db). find_where (for_trip trip_id) d.leases ≡ none) deleted
          (unfold delete_lease in find_where-released trip_id holder_id epoch db.leases k y f)

    row : acquire_row link' read_at write_at db1 trip_id next duration none ≡ ok (lease, db2)
    row =
        subst
          (λ r. acquire_row link' read_at write_at db1 trip_id next duration r ≡ ok (lease, db2))
          empty
          (acquire_tx_ok link' db1 db2 trip_id next read_at write_at duration lease
            (transact_ok db1 _ h'))

    granted :
        (fresh_lease trip_id next duration write_at ≡ lease)
        × (insert_lease trip_id next duration write_at db1 ≡ db2)
    granted = acquire_row_ok link' db1 db2 trip_id next read_at write_at duration lease none row
