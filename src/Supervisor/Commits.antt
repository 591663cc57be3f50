-- ===== src/Supervisor/Commits.antt =====
-- ReserveObservation, CommitObservation and CommitMutation of
-- backend/internal/dispatch/runtime_supervisor.go.
use live_route.Base.{ℕ, ◌+◌, ◌%◌, ◌^◌, String, not, Option, none, some, ltb, ◌==◌, if◌then◌else◌}
use live_route.Base.Dict.{lookup, insert, string_key}
use live_route.Base.Result.{Result, ok, err, runtime_inactive, lease_lost}
use live_route.Supervisor.{RuntimeSupervisor, RuntimeVersions}

-- supervisor.nextObservation[tripID], 0 where there is no entry.
abbrev pub or_zero : Option ℕ → ℕ
or_zero none = 0
or_zero (some n) = n

-- The next number of a uint64.
abbrev pub following : ℕ → ℕ
following n = (n + 1) % 2 ^ 64

abbrev pub reserve_next :
    RuntimeSupervisor
    → String
    → Option RuntimeVersions
    → RuntimeSupervisor × Result (RuntimeVersions × ℕ)
reserve_next s trip_id none = (s, err runtime_inactive)
reserve_next s trip_id (some v) =
    let next = following (or_zero (lookup trip_id s.next_observation)) in
    (record s { next_observation = insert trip_id next s.next_observation }, ok (v, next))

unfoldable pub reserve_observation :
    RuntimeSupervisor → String → RuntimeSupervisor × Result (RuntimeVersions × ℕ)
reserve_observation s trip_id = reserve_next s trip_id (lookup trip_id s.state)

-- if given > stored { stored = given }
abbrev pub raise : ℕ → ℕ → ℕ
raise stored given = if ltb stored given then given else stored

-- The three versions after CommitObservation, and the two that CommitMutation raises.
abbrev pub raise_observation : ℕ → ℕ → ℕ → RuntimeVersions → RuntimeVersions
raise_observation observation accepted planner v = record v {
  accepted_observation_sequence = raise v.accepted_observation_sequence observation;
  accepted_mutation_sequence = raise v.accepted_mutation_sequence accepted;
  planner_state_version = raise v.planner_state_version planner;
}

abbrev pub raise_mutation : ℕ → ℕ → RuntimeVersions → RuntimeVersions
raise_mutation accepted planner v = record v {
  accepted_mutation_sequence = raise v.accepted_mutation_sequence accepted;
  planner_state_version = raise v.planner_state_version planner;
}

-- The write of either commit, fenced by the epoch.
abbrev pub commit_versions :
    (RuntimeVersions → RuntimeVersions)
    → RuntimeSupervisor
    → String
    → ℕ
    → Option RuntimeVersions
    → RuntimeSupervisor × Result (Unit {0})
commit_versions f s trip_id epoch none = (s, err runtime_inactive)
commit_versions f s trip_id epoch (some v) =
    if not (v.runtime_epoch == epoch)
    then (s, err lease_lost)
    else (record s { state = insert trip_id (f v) s.state }, ok tt)

unfoldable pub commit_observation :
    RuntimeSupervisor → String → ℕ → ℕ → ℕ → ℕ → RuntimeSupervisor × Result (Unit {0})
commit_observation s trip_id epoch observation accepted planner =
    commit_versions (raise_observation observation accepted planner) s trip_id epoch
      (lookup trip_id s.state)

unfoldable pub commit_mutation :
    RuntimeSupervisor → String → ℕ → ℕ → ℕ → RuntimeSupervisor × Result (Unit {0})
commit_mutation s trip_id epoch accepted planner =
    commit_versions (raise_mutation accepted planner) s trip_id epoch (lookup trip_id s.state)
