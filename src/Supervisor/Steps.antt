-- ===== src/Supervisor/Steps.antt =====
-- Close of backend/internal/dispatch/runtime_supervisor.go, and the histories of a supervisor.
use live_route.Base.{ℕ, String, true, List, [], ◌∷◌, if◌then◌else◌}
use live_route.Base.Dict.{Dict, insert, erase, string_key, nat_key}
use live_route.Base.Result.{Error, Result, err, runtime_closed}
use live_route.Supervisor.{
  RuntimeSupervisor, Owned, begin_activate, fail_activate, finish_activate, drop_trip, deactivate,
  deactivate_trip,
}
use live_route.Supervisor.Commits.{reserve_observation, commit_observation, commit_mutation}

-- The loop of Close over the active trips, and the one over the activations.
unfoldable pub close_active : Dict String ℕ → RuntimeSupervisor → RuntimeSupervisor
close_active [] s = s
close_active ((trip_id, context) ∷ trips) s = close_active trips (drop_trip s trip_id context)

abbrev pub close_wait : RuntimeSupervisor → String → ℕ → RuntimeSupervisor
close_wait s trip_id wait = record s {
  activating = erase trip_id s.activating;
  resolved = insert wait (err runtime_closed) s.resolved;
}

unfoldable pub close_activating : Dict String ℕ → RuntimeSupervisor → RuntimeSupervisor
close_activating [] s = s
close_activating ((trip_id, wait) ∷ trips) s = close_activating trips (close_wait s trip_id wait)

abbrev pub mark_closed : RuntimeSupervisor → RuntimeSupervisor
mark_closed s = record s { closed = true }

-- Close up to its wait for the renewals.
unfoldable pub close : RuntimeSupervisor → RuntimeSupervisor
unfolding close_active close_activating
close s =
    if s.closed then s else close_activating s.activating (close_active s.active (mark_closed s))

-- A part of a call that holds the mutex.
pub data Step : Type 0 where
  begins : String → Step
  fails : String → ℕ → Error → Step
  finishes : String → ℕ → ℕ → ℕ → Step
  loses : String → Step
  deactivates : String → Owned → Result (Unit {0}) → Result ℕ → Step
  reserves : String → Step
  observes : String → ℕ → ℕ → ℕ → ℕ → Step
  mutates : String → ℕ → ℕ → ℕ → Step
  closes : Step

unfoldable pub step : RuntimeSupervisor → Step → RuntimeSupervisor
unfolding close
step s (begins trip_id) = (begin_activate s trip_id).0
step s (fails trip_id wait e) = fail_activate s trip_id wait e
step s (finishes trip_id wait epoch accepted) = (finish_activate s trip_id wait epoch accepted).0
step s (loses trip_id) = deactivate s trip_id
step s (deactivates trip_id found release current) =
    (deactivate_trip s trip_id found release current).0
step s (reserves trip_id) = (reserve_observation s trip_id).0
step s (observes trip_id epoch observation accepted planner) =
    (commit_observation s trip_id epoch observation accepted planner).0
step s (mutates trip_id epoch accepted planner) =
    (commit_mutation s trip_id epoch accepted planner).0
step s closes = close s

unfoldable pub run : RuntimeSupervisor → List Step → RuntimeSupervisor
unfolding step
run s [] = s
run s (st ∷ sts) = run (step s st) sts
