-- ===== src/Supervisor.antt =====
-- RuntimeSupervisor of backend/internal/dispatch/runtime_supervisor.go. The mutex is given up while the
-- lease manager and the planner are called, so each part under the mutex is a step of its own, and a
-- history may put the steps of other calls between two parts of one. The lease and the bootstrap are
-- the answers of those callees. The context and the wait of an Activate are known by one number.
pub mod Commits
pub mod Steps
pub mod Capacity
pub mod Versions
pub mod Observations
pub mod Waits
pub mod Closing
mod Tests
use live_route.Base.{
  ℕ, ◌+◌, ◌%◌, ◌^◌, String, Bool, true, false, not, ◌&&◌, ◌||◌, Option, none, some, List, [], ◌∷◌,
  ltb, leb, ◌==◌, if◌then◌else◌, length,
}
use live_route.Base.Dict.{Dict, lookup, insert, erase, has, keys, string_key, nat_key}
use live_route.Base.Result.{
  Error, Result, ok, err, activation_invalid, deactivation_invalid, runtime_capacity,
  runtime_closed, runtime_inactive, lease_lost,
}
use live_route.Lease.{Duration, nanoseconds, negative}
use live_route.Uuid.{canonical_uuid}

pub record RuntimeVersions : Type 0 where
  pub runtime_epoch : ℕ
  pub planner_state_version : ℕ
  pub accepted_mutation_sequence : ℕ
  pub accepted_observation_sequence : ℕ

-- `resolved` holds the result of each activationWait whose channel is closed, `cancelled` the contexts
-- that are cancelled, and `calls` the number for the next Activate.
pub record RuntimeSupervisor : Type 0 where
  pub max_active_trips : ℕ
  pub active : Dict String ℕ
  pub activating : Dict String ℕ
  pub state : Dict String RuntimeVersions
  pub next_observation : Dict String ℕ
  pub closed : Bool
  pub resolved : Dict ℕ (Result (Unit {0}))
  pub cancelled : List ℕ
  pub calls : ℕ

abbrev pub is_positive : Duration → Bool
is_positive (nanoseconds n) = ltb 0 n
is_positive (negative n) = false

-- margin < lease
abbrev pub shorter : Duration → Duration → Bool
shorter (nanoseconds m) (nanoseconds n) = ltb m n
shorter (nanoseconds m) (negative n) = false
shorter (negative m) (nanoseconds n) = true
shorter (negative m) (negative n) = ltb n m

-- NewRuntimeSupervisor; none is its error.
unfoldable pub new_runtime_supervisor : String → Duration → Duration → ℕ → Option RuntimeSupervisor
new_runtime_supervisor holder_id lease_duration renewal_margin max_active_trips =
    if canonical_uuid holder_id
      && is_positive lease_duration
      && is_positive renewal_margin
      && shorter renewal_margin lease_duration
      && ltb 0 max_active_trips
    then some (record {
      max_active_trips = max_active_trips;
      active = [];
      activating = [];
      state = [];
      next_observation = [];
      closed = false;
      resolved = [];
      cancelled = [];
      calls = 0;
    })
    else none

-- What the first part of Activate decides: an error, an activation that is complete or one to wait for,
-- or the number of the call that goes on.
pub data Begun : Type 0 where
  refused : Error → Begun
  is_active : Begun
  awaits : ℕ → Begun
  begins : ℕ → Begun

abbrev pub join : Option ℕ → Begun
join none = is_active
join (some wait) = awaits wait

abbrev pub start : RuntimeSupervisor → String → RuntimeSupervisor
start s trip_id = record s {
  active = insert trip_id s.calls s.active;
  activating = insert trip_id s.calls s.activating;
  calls = s.calls + 1;
}

-- Activate up to its first call of the lease manager.
unfoldable pub begin_activate : RuntimeSupervisor → String → RuntimeSupervisor × Begun
begin_activate s trip_id =
    if not (canonical_uuid trip_id)
    then (s, refused activation_invalid)
    else if s.closed
    then (s, refused runtime_closed)
    else if has trip_id s.active
    then (s, join (lookup trip_id s.activating))
    else if leb s.max_active_trips (length s.active)
    then (s, refused runtime_capacity)
    else (start s trip_id, begins s.calls)

-- supervisor.activating[tripID] is the wait of this call.
abbrev pub is_own : ℕ → Option ℕ → Bool
is_own wait none = false
is_own wait (some current) = current == wait

-- The entries of an activation that ends without state, and its wait with this error.
abbrev pub give_up : RuntimeSupervisor → String → ℕ → Error → RuntimeSupervisor
give_up s trip_id wait e = record s {
  activating = erase trip_id s.activating;
  active = erase trip_id s.active;
  resolved = insert wait (err e) s.resolved;
  cancelled = wait ∷ s.cancelled;
}

abbrev pub cancel : RuntimeSupervisor → ℕ → RuntimeSupervisor
cancel s call = record s { cancelled = call ∷ s.cancelled }

-- The part of Activate after Acquire or Bootstrap failed.
unfoldable pub fail_activate : RuntimeSupervisor → String → ℕ → Error → RuntimeSupervisor
fail_activate s trip_id wait e =
    if is_own wait (lookup trip_id s.activating) then give_up s trip_id wait e else cancel s wait

abbrev pub install : RuntimeSupervisor → String → ℕ → ℕ → ℕ → RuntimeSupervisor
install s trip_id wait runtime_epoch accepted = record s {
  state =
      insert trip_id
        (record {
          runtime_epoch = runtime_epoch;
          planner_state_version = 0;
          accepted_mutation_sequence = accepted;
          accepted_observation_sequence = 0;
        })
        s.state;
  next_observation = insert trip_id 0 s.next_observation;
  activating = erase trip_id s.activating;
  resolved = insert wait (ok tt) s.resolved;
}

-- The part of Activate after both succeeded, with the epoch of the lease and the mutation sequence of
-- the bootstrap. Only after an ok does renewal begin.
unfoldable pub finish_activate :
    RuntimeSupervisor → String → ℕ → ℕ → ℕ → RuntimeSupervisor × Result (Unit {0})
finish_activate s trip_id wait runtime_epoch accepted =
    if not (is_own wait (lookup trip_id s.activating))
    then (cancel s wait, err runtime_closed)
    else if s.closed
    then (give_up s trip_id wait runtime_closed, err runtime_closed)
    else (install s trip_id wait runtime_epoch accepted, ok tt)

-- The maps without the trip, whose context is cancelled.
abbrev pub drop_trip : RuntimeSupervisor → String → ℕ → RuntimeSupervisor
drop_trip s trip_id context = record s {
  active = erase trip_id s.active;
  state = erase trip_id s.state;
  next_observation = erase trip_id s.next_observation;
  cancelled = context ∷ s.cancelled;
}

abbrev pub drop_active : RuntimeSupervisor → String → Option ℕ → RuntimeSupervisor
drop_active s trip_id none = s
drop_active s trip_id (some context) = drop_trip s trip_id context

-- deactivate, which the renewal calls too when it has lost the lease.
unfoldable pub deactivate : RuntimeSupervisor → String → RuntimeSupervisor
deactivate s trip_id = drop_active s trip_id (lookup trip_id s.active)

-- What the first part of Deactivate finds: the epoch to release, an activation, or neither.
pub data Owned : Type 0 where
  epoch : ℕ → Owned
  starting : Owned
  neither : Owned

abbrev pub owned_by : Option RuntimeVersions → Bool → Owned
owned_by (some v) activating = epoch v.runtime_epoch
owned_by none true = starting
owned_by none false = neither

unfoldable pub owned : RuntimeSupervisor → String → Owned
owned s trip_id = owned_by (lookup trip_id s.state) (has trip_id s.activating)

-- An error of the lease manager, but for ErrLeaseLost.
abbrev pub unless_lost : Error → Result (Unit {0})
unless_lost lease_lost = ok tt
unless_lost e = err e

abbrev pub tolerate : Result (Unit {0}) → Result (Unit {0})
tolerate (ok _) = ok tt
tolerate (err e) = unless_lost e

-- The middle of Deactivate, from what Release and Current answer.
abbrev pub released : Owned → Result (Unit {0}) → Result ℕ → Result (Unit {0})
released (epoch e) release current = tolerate release
released starting release (ok e) = tolerate release
released starting release (err e) = unless_lost e
released neither release current = ok tt

abbrev pub after_release :
    RuntimeSupervisor → String → Result (Unit {0}) → RuntimeSupervisor × Result (Unit {0})
after_release s trip_id (ok _) = (deactivate s trip_id, ok tt)
after_release s trip_id (err e) = (s, err e)

-- Deactivate, with what its first part found.
unfoldable pub deactivate_trip :
    RuntimeSupervisor
    → String
    → Owned
    → Result (Unit {0})
    → Result ℕ
    → RuntimeSupervisor × Result (Unit {0})
deactivate_trip s trip_id found release current =
    if canonical_uuid trip_id
    then after_release s trip_id (released found release current)
    else (s, err deactivation_invalid)
