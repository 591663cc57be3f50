-- ===== src/Lease.antt =====
-- LeaseStore of backend/internal/persistence/leases.go. The readings of clock_timestamp() are
-- arguments: `read_at` of the SELECT, `write_at` of the INSERT or UPDATE that follows it.
pub mod Fencing
pub mod History
pub mod Exclusive
pub mod Epoch
pub mod Lockout
mod Tests
use live_route.Base.{
  ℕ, ◌+◌, ◌*◌, ◌/◌, ◌^◌, ◌-◌, String, Bool, true, false, ◌&&◌, ◌||◌, not, Option, none, some, List,
  [], ◌∷◌, ◌++◌, ltb, leb, ◌==◌, if◌then◌else◌, same, length,
}
use live_route.Base.Table.{find_where, update_where, delete_where, count_where}
use live_route.Base.Result.{
  Result, ok, err, ◌>>=◌, ◌>>◌, guard, Link, reach, transact, invalid_input, trip_not_found,
  lease_held, lease_lost, epoch_exhausted, begin, lock_trip, read_lease, write_lease,
  read_proposals, write_proposals, commit_as,
}
use live_route.Store.{Db, Trip, RuntimeLease, Proposal, ProposalState, is_pending_proposal}

abbrev pub max_int64 : ℕ
max_int64 = 2 ^ 63 - 1

-- time.Duration in nanoseconds; `negative n` is -(n + 1).
pub data Duration : Type 0 where
  nanoseconds : ℕ → Duration
  negative : ℕ → Duration

-- The whole milliseconds of a duration. A negative one, for which Milliseconds() is not positive
-- either, gives 0.
unfoldable pub milliseconds : Duration → ℕ
milliseconds (nanoseconds n) = n / 1_000_000
milliseconds (negative n) = 0

validate_lease_input : String → String → Duration → Result (Unit {0})
unfolding milliseconds
validate_lease_input trip_id holder_id duration = do
  guard (not (same trip_id "" || same holder_id "")) invalid_input
  guard (ltb 0 (milliseconds duration)) invalid_input

abbrev pub for_trip : String → RuntimeLease → Bool
for_trip trip_id lease = same lease.trip_id trip_id

-- SELECT true FROM trips WHERE id = $1 FOR UPDATE
unfoldable pub lock_trip_row : Link → Db → String → Result (Unit {0})
lock_trip_row link db trip_id = do
  reach link lock_trip
  elim (find_where (λ (t : Trip). same t.id trip_id) db.trips) [
    | none ↦ err trip_not_found
    | some _ ↦ ok tt
  ]

-- The rows of the UPDATE that stales the proposals of an older epoch.
abbrev pub is_old_epoch : String → ℕ → Proposal → Bool
is_old_epoch trip_id epoch p =
    same p.trip_id trip_id && is_pending_proposal p.state && ltb p.source_runtime_epoch epoch

abbrev pub stale_proposal : ℕ → Proposal → Proposal
stale_proposal now p = record p { state = ProposalState.stale; decided_at = some now }

abbrev pub fresh_lease : String → String → Duration → ℕ → RuntimeLease
fresh_lease trip_id holder_id duration now = record {
  trip_id = trip_id;
  holder_id = holder_id;
  runtime_epoch = 1;
  lease_expires_at = now + milliseconds duration * 1000;
  renewed_at = now;
}

abbrev pub take_over : String → Duration → ℕ → RuntimeLease → RuntimeLease
take_over holder_id duration now l = record l {
  holder_id = holder_id;
  runtime_epoch = l.runtime_epoch + 1;
  lease_expires_at = now + milliseconds duration * 1000;
  renewed_at = now;
}

-- INSERT INTO trip_runtime_leases
pub insert_lease : String → String → Duration → ℕ → Db → Db
insert_lease trip_id holder_id duration now db = record db {
  leases = db.leases ++ fresh_lease trip_id holder_id duration now ∷ [];
}

-- The two UPDATEs of a takeover, which gives the trip's lease the epoch `epoch`.
pub write_take_over : String → String → Duration → ℕ → ℕ → Db → Db
write_take_over trip_id holder_id duration now epoch db = record db {
  leases = update_where (for_trip trip_id) (take_over holder_id duration now) db.leases;
  proposals = update_where (is_old_epoch trip_id epoch) (stale_proposal now) db.proposals;
}

-- The switch of Acquire on the row that it read, and the rest of the transaction.
pub acquire_row :
    Link
    → ℕ
    → ℕ
    → Db
    → String
    → String
    → Duration
    → Option RuntimeLease
    → Result (RuntimeLease × Db)
acquire_row link read_at write_at db trip_id holder_id duration none = do
  reach link write_lease
  let lease = fresh_lease trip_id holder_id duration write_at
  commit_as link lease (insert_lease trip_id holder_id duration write_at db)
acquire_row link read_at write_at db trip_id holder_id duration (some row) = do
  guard (not (ltb read_at row.lease_expires_at)) lease_held
  guard (not (row.runtime_epoch == max_int64)) epoch_exhausted
  reach link write_lease
  reach link read_proposals
  reach link write_proposals
  let lease = take_over holder_id duration write_at row
  commit_as link lease
      (write_take_over trip_id holder_id duration write_at (row.runtime_epoch + 1) db)

pub acquire_tx : Link → ℕ → ℕ → Db → String → String → Duration → Result (RuntimeLease × Db)
unfolding acquire_row validate_lease_input lock_trip_row
acquire_tx link read_at write_at db trip_id holder_id duration = do
  validate_lease_input trip_id holder_id duration
  reach link begin
  lock_trip_row link db trip_id
  reach link read_lease
  acquire_row link read_at write_at db trip_id holder_id duration
      (find_where (for_trip trip_id) db.leases)

pub acquire : Link → ℕ → ℕ → Db → String → String → Duration → Result RuntimeLease × Db
unfolding acquire_tx insert_lease write_take_over
acquire link read_at write_at db trip_id holder_id duration =
    transact db (acquire_tx link read_at write_at db trip_id holder_id duration)

abbrev pub renewable : String → String → ℕ → ℕ → RuntimeLease → Bool
renewable trip_id holder_id epoch now l =
    same l.trip_id trip_id
    && same l.holder_id holder_id
    && l.runtime_epoch == epoch
    && ltb now l.lease_expires_at

abbrev pub extend : Duration → ℕ → RuntimeLease → RuntimeLease
extend duration now l = record l {
  lease_expires_at = now + milliseconds duration * 1000;
  renewed_at = now;
}

pub write_renewal : String → String → ℕ → Duration → ℕ → Db → Db
write_renewal trip_id holder_id epoch duration now db = record db {
  leases = update_where (renewable trip_id holder_id epoch now) (extend duration now) db.leases;
}

-- The row that RETURNING gives, or none for pgx.ErrNoRows.
pub renew_row :
    Link
    → ℕ
    → Db
    → String
    → String
    → ℕ
    → Duration
    → Option RuntimeLease
    → Result (RuntimeLease × Db)
renew_row link now db trip_id holder_id epoch duration none = err lease_lost
renew_row link now db trip_id holder_id epoch duration (some row) = do
  commit_as link (extend duration now row) (write_renewal trip_id holder_id epoch duration now db)

pub renew_tx : Link → ℕ → Db → String → String → ℕ → Duration → Result (RuntimeLease × Db)
unfolding renew_row validate_lease_input lock_trip_row
renew_tx link now db trip_id holder_id epoch duration = do
  validate_lease_input trip_id holder_id duration
  guard (not (epoch == 0 || ltb max_int64 epoch)) invalid_input
  reach link begin
  lock_trip_row link db trip_id
  reach link write_lease
  renew_row link now db trip_id holder_id epoch duration
      (find_where (renewable trip_id holder_id epoch now) db.leases)

pub renew : Link → ℕ → Db → String → String → ℕ → Duration → Result RuntimeLease × Db
unfolding renew_tx write_renewal
renew link now db trip_id holder_id epoch duration =
    transact db (renew_tx link now db trip_id holder_id epoch duration)

abbrev pub is_current : String → String → ℕ → RuntimeLease → Bool
is_current trip_id holder_id now l =
    same l.trip_id trip_id && same l.holder_id holder_id && ltb now l.lease_expires_at

current_row : Option RuntimeLease → Result RuntimeLease
current_row none = err lease_lost
current_row (some lease) = if leb lease.runtime_epoch 0 then err lease_lost else ok lease

-- Current only reads.
pub current : Link → ℕ → Db → String → String → Result RuntimeLease
unfolding current_row
current link now db trip_id holder_id = do
  guard (not (same trip_id "" || same holder_id "")) invalid_input
  reach link read_lease
  current_row (find_where (is_current trip_id holder_id now) db.leases)

abbrev pub is_held : String → String → ℕ → RuntimeLease → Bool
is_held trip_id holder_id epoch l =
    same l.trip_id trip_id && same l.holder_id holder_id && l.runtime_epoch == epoch

pub delete_lease : String → String → ℕ → Db → Db
delete_lease trip_id holder_id epoch db = record db {
  leases = delete_where (is_held trip_id holder_id epoch) db.leases;
}

pub release_tx : Link → Db → String → String → ℕ → Result (Unit {0} × Db)
unfolding lock_trip_row
release_tx link db trip_id holder_id epoch = do
  guard (not (same trip_id "" || same holder_id "" || epoch == 0 || ltb max_int64 epoch))
      invalid_input
  reach link begin
  lock_trip_row link db trip_id
  reach link write_lease
  guard (count_where (is_held trip_id holder_id epoch) db.leases == 1) lease_lost
  commit_as link tt (delete_lease trip_id holder_id epoch db)

pub release : Link → Db → String → String → ℕ → Result (Unit {0}) × Db
unfolding release_tx delete_lease
release link db trip_id holder_id epoch = transact db (release_tx link db trip_id holder_id epoch)
