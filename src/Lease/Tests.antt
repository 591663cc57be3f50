-- ===== src/Lease/Tests.antt =====
-- Runs of the lease calls on one trip.
use live_route.Base.{
  ◌<◌, arith, String, ◌≡◌, ◌≢◌, refl, false, none, some, List, [], ◌∷◌, string_discrete,
}
use live_route.Base.Table.{find_where, update_where, delete_where, count_where}
use live_route.Base.Result.{ok, Link, commit_as}
use live_route.Store.{Db, Trip, RuntimeLease, Proposal, ProposalState}
use live_route.Lease.{
  Duration, nanoseconds, milliseconds, acquire, renew, release, current, for_trip, lock_trip_row,
  insert_lease, write_take_over, delete_lease, acquire_row, acquire_tx, renew_tx, renew_row,
  release_tx, write_renewal,
}
use live_route.Lease.History.{Call, acquires, renews, step, run}
use live_route.Lease.Fencing.{Grant, acquire-Grant}
use live_route.Lease.Exclusive.{run-exclusive}
use live_route.Lease.Lockout.{acquire-fences, acquire-release}

abbrev up : Link
up _ = false

abbrev trip : Trip
trip = record {
  id = "trip";
  owner_user_id = "0197f3a2-0000-7000-8000-0000000000ff";
  trip_revision = 4;
  finalized_mutation_sequence = 2;
  next_mutation_sequence = 4;
  current_plan_id = "plan";
  updated_at = 100;
}

abbrev lease : RuntimeLease
lease = record {
  trip_id = "trip";
  holder_id = "old";
  runtime_epoch = 7;
  lease_expires_at = 1_000;
  renewed_at = 500;
}

abbrev proposal : Proposal
proposal = record {
  id = "proposal";
  trip_id = "trip";
  base_current_plan_id = "plan";
  source_runtime_epoch = 7;
  source_planner_state_version = 3;
  source_trip_revision = 4;
  source_accepted_mutation_sequence = 2;
  payload = "p";
  payload_size_bytes = 1;
  checksum_sha256 = "c";
  state = ProposalState.pending;
  decision_message_id = none;
  created_at = 600;
  decided_at = none;
}

abbrev db : Db
db = record {
  trips = trip ∷ [];
  leases = lease ∷ [];
  proposals = proposal ∷ [];
  intents = [];
  outbox = [];
  activities = [];
  open_windows = [];
  travel_delays = [];
}

abbrev minute : Duration
minute = nanoseconds 60_000_000_000

abbrev taken : RuntimeLease
taken = record {
  trip_id = "trip";
  holder_id = "new";
  runtime_epoch = 8;
  lease_expires_at = 60_002_000;
  renewed_at = 2_000;
}

abbrev taken_db : Db
taken_db = record db {
  leases = taken ∷ [];
  proposals = record proposal { state = ProposalState.stale; decided_at = some 2_000 } ∷ [];
}

acquires_expired : acquire up 1_500 2_000 db "trip" "new" minute ≡ (ok taken, taken_db)
unfolding acquire acquire_tx acquire_row lock_trip_row milliseconds find_where update_where
    write_take_over commit_as string_discrete
acquires_expired = refl

acquire-Grant_example : Grant 1_500 2_000 db "trip" "new" minute (some lease) taken_db taken
unfolding find_where string_discrete
acquire-Grant_example =
    acquire-Grant 1_500 2_000 db "trip" "new" minute up taken taken_db acquires_expired

abbrev history : List Call
history =
    acquires up 900 950 "trip" "new" minute
    ∷ acquires up 1_500 2_000 "trip" "new" minute
    ∷ renews up 3_000 "trip" "new" 8 minute
    ∷ []

abbrev held : RuntimeLease
held = record taken { lease_expires_at = 60_003_000; renewed_at = 3_000 }

-- Another holder tries to take the lease while it is live.
abbrev later : List Call
later = acquires up 5_000 5_001 "trip" "third" minute ∷ []

history_holds : current up 4_000 (run db history) "trip" "new" ≡ ok held
unfolding current run step acquire acquire_tx acquire_row renew renew_tx renew_row lock_trip_row
    write_renewal live_route.Lease.current_row milliseconds find_where update_where write_take_over
    commit_as string_discrete
history_holds = refl

later_holds : current up 6_000 (run (run db history) later) "trip" "new" ≡ ok held
unfolding current run step acquire acquire_tx acquire_row renew renew_tx renew_row lock_trip_row
    write_renewal live_route.Lease.current_row milliseconds find_where update_where write_take_over
    commit_as string_discrete
later_holds = refl

run-exclusive_example :
    (4_000 < held.lease_expires_at) × (held ≡ held) × (◌≡◌ {A = String} "new" "new")
run-exclusive_example =
    run-exclusive db history later up up 4_000 6_000 "trip" "new" "new" held held (tt, tt)
      history_holds (omega arith, tt) later_holds

acquire-fences_example :
    (renew up 2_100 taken_db "trip" "old" 7 minute ≢ (ok lease, db))
    × (release up taken_db "trip" "old" 7 ≢ (ok tt, db))
unfolding find_where string_discrete
acquire-fences_example =
    acquire-fences up up 1_500 2_000 2_100 db taken_db db "trip" "new" "old" minute minute lease
      taken lease (tt, tt) refl acquires_expired

abbrev released_db : Db
released_db = record db { leases = [] }

releases_held : release up db "trip" "old" 7 ≡ (ok tt, released_db)
unfolding release release_tx delete_lease lock_trip_row find_where count_where delete_where
    commit_as string_discrete
releases_held = refl

abbrev restarted : RuntimeLease
restarted = record taken { runtime_epoch = 1 }

acquires_released :
    acquire up 1_500 2_000 released_db "trip" "new" minute
    ≡ (ok restarted, record released_db { leases = restarted ∷ [] })
unfolding acquire acquire_tx acquire_row lock_trip_row milliseconds find_where insert_lease
    commit_as string_discrete
acquires_released = refl

acquire-release_example : (restarted.runtime_epoch ≡ 1) × (db.proposals ≡ db.proposals)
acquire-release_example =
    acquire-release up up 1_500 2_000 7 db released_db
      (record released_db { leases = restarted ∷ [] }) "trip" "old" "new" minute restarted (tt, tt)
      releases_held acquires_released
