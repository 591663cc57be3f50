-- ===== src/Lease/Epoch.antt =====
-- The runtime epoch along a history: a holder that was replaced is locked out, the epoch never falls
-- as long as no lease is released, and a release starts it again at 1.
use live_route.Base.{
  ℕ, ◌≤◌, String, ◌≡◌, refl, inl, inr, Bool, List, [], ◌∷◌, ◌++◌, arith, All, Bool-cases,
  if◌then◌else◌,
}
use live_route.Base.Table.{update_where}
use live_route.Store.{Db, RuntimeLease}
use live_route.Lease.{for_trip, insert_lease, write_take_over, write_renewal}
use live_route.Lease.History.{
  Call, acquires, renews, releases, step, run, acquire_cases, renew_cases,
}

-- The epoch of a trip's lease, 0 when it has none.
abbrev epoch_in : String → List RuntimeLease → ℕ
epoch_in trip_id [] = 0
epoch_in trip_id (l ∷ ls) = if for_trip trip_id l then l.runtime_epoch else epoch_in trip_id ls

abbrev pub epoch_of : String → Db → ℕ
epoch_of trip_id db = epoch_in trip_id db.leases

epoch_in-append :
    (trip_id : String) (ls : List RuntimeLease) (m : RuntimeLease)
    → epoch_in trip_id ls ≤ epoch_in trip_id (ls ++ m ∷ [])
epoch_in-append trip_id [] m = ground arith
epoch_in-append trip_id (l ∷ ls) m = ground (arith, epoch_in-append trip_id ls m)

epoch_in-update :
    (trip_id : String) (p : RuntimeLease → Bool) (f : RuntimeLease → RuntimeLease)
    (ls : List RuntimeLease)
    → ((l : RuntimeLease) → for_trip trip_id (f l) ≡ for_trip trip_id l)
    → ((l : RuntimeLease) → l.runtime_epoch ≤ (f l).runtime_epoch)
    → epoch_in trip_id ls ≤ epoch_in trip_id (update_where p f ls)
unfolding update_where
epoch_in-update trip_id p f [] same_key up = omega arith
epoch_in-update trip_id p f (l ∷ ls) same_key up = elim (Bool-cases (p l)) [
  | inl e ↦ rw (e, same_key l) (ground (arith, up l, epoch_in-update trip_id p f ls same_key up))
  | inr e ↦ rw e (ground (arith, epoch_in-update trip_id p f ls same_key up))
]

abbrev pub NoRelease : Call → Type 0
NoRelease (releases _ _ _ _) = ⊥
NoRelease _ = Unit

step-epoch :
    (trip : String) (db : Db) (c : Call)
    → NoRelease c
    → epoch_of trip db ≤ epoch_of trip (step db c)
unfolding step insert_lease write_take_over write_renewal
step-epoch trip db (acquires link read_at write_at trip_id holder_id duration) n =
    acquire_cases (λ d. epoch_of trip db ≤ epoch_of trip d) link db trip_id holder_id read_at
      write_at duration (omega arith) (λ _. epoch_in-append trip db.leases _)
      (λ row e x. epoch_in-update trip _ _ db.leases (λ l. refl) (λ l. omega arith))
step-epoch trip db (renews link now trip_id holder_id epoch duration) n =
    renew_cases (λ d. epoch_of trip db ≤ epoch_of trip d) link db trip_id holder_id now epoch
      duration (omega arith) (epoch_in-update trip _ _ db.leases (λ l. refl) (λ l. omega arith))
step-epoch trip db (releases link trip_id holder_id epoch) n = absurd n

-- Along every history of acquisitions and renewals, successful or not, the epoch of a trip never
-- falls.
pub run-epoch_le :
    (trip : String) (db : Db) (cs : List Call)
    → All NoRelease cs
    → epoch_of trip db ≤ epoch_of trip (run db cs)
unfolding run
run-epoch_le trip db [] n = omega arith
run-epoch_le trip db (c ∷ cs) n =
    omega (arith, step-epoch trip db c n.0, run-epoch_le trip (step db c) cs n.1)
