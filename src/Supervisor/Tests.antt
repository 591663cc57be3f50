-- ===== src/Supervisor/Tests.antt =====
-- The runtime supervisor at concrete inputs.
use mathlib.Core.List.Perm
use live_route.Base.{
  ℕ, String, true, false, some, List, [], ◌∷◌, arith, ◌≡◌, refl, ◌<◌, string_discrete,
}
use live_route.Base.Dict.{has, lookup, insert, erase, string_key, nat_key}
use live_route.Base.Result.{ok}
use live_route.Lease.{nanoseconds}
use live_route.Supervisor.{
  RuntimeSupervisor, RuntimeVersions, starting, new_runtime_supervisor, begin_activate,
  finish_activate, deactivate, deactivate_trip,
}
use live_route.Supervisor.Commits.{reserve_observation}
use live_route.Supervisor.Steps.{
  close, Step, begins, finishes, loses, deactivates, reserves, observes, step, run,
}
use live_route.Supervisor.Versions.{observation, mutation, as_steps, run-perm}
use live_route.Supervisor.Observations.{Grows, reserve-run-reserve}
use live_route.Supervisor.Closing.{close-run-Resolved}
use live_route.Uuid.{canonical_uuid}

abbrev first_trip : String
first_trip = "11111111-1111-4111-8111-111111111111"

abbrev second_trip : String
second_trip = "22222222-2222-4222-8222-222222222222"

abbrev fresh : RuntimeSupervisor
fresh = record {
  max_active_trips = 2;
  active = [];
  activating = [];
  state = [];
  next_observation = [];
  closed = false;
  resolved = [];
  cancelled = [];
  calls = 0;
}

-- One trip is activated, the other is still starting.
abbrev opening : List Step
opening = begins first_trip ∷ begins second_trip ∷ finishes first_trip 0 5 7 ∷ []

abbrev opened : RuntimeSupervisor
opened = run fresh opening

run-perm_example :
    lookup first_trip
      (run opened
        (as_steps (observation first_trip 5 2 8 3 ∷ mutation first_trip 5 9 2 ∷ []))).state
    ≡ lookup first_trip
        (run opened
          (as_steps (mutation first_trip 5 9 2 ∷ observation first_trip 5 2 8 3 ∷ []))).state
run-perm_example =
    run-perm opened (observation first_trip 5 2 8 3 ∷ mutation first_trip 5 9 2 ∷ [])
      (mutation first_trip 5 9 2 ∷ observation first_trip 5 2 8 3 ∷ []) first_trip
      (Perm.swap (mutation first_trip 5 9 2) (observation first_trip 5 2 8 3) [])

abbrev opened_versions : RuntimeVersions
opened_versions = record {
  runtime_epoch = 5;
  planner_state_version = 0;
  accepted_mutation_sequence = 7;
  accepted_observation_sequence = 0;
}

abbrev meanwhile : List Step
meanwhile = loses second_trip ∷ observes first_trip 5 1 7 4 ∷ reserves first_trip ∷ []

reserve-run-reserve_example :
    (w : RuntimeVersions) × (n : ℕ) × ((reserve_observation
        (run (reserve_observation opened first_trip).0 meanwhile)
        first_trip).1
      ≡ ok (w, n))
    × (1 < n)
    × Grows opened_versions (some w)
unfolding reserve_observation run step begin_activate finish_activate lookup insert erase
    canonical_uuid string_discrete
reserve-run-reserve_example =
    reserve-run-reserve first_trip opened opened_versions 1 meanwhile refl
      (refl, (refl, (refl, tt))) (omega arith)

close-run-Resolved_example :
    ((i : ℕ) → i < opened.calls → has i (close opened).resolved ≡ true)
    × ((t : String) → has t opened.activating ≡ true → has t opened.active ≡ true)
unfolding new_runtime_supervisor canonical_uuid
close-run-Resolved_example =
    close-run-Resolved first_trip (nanoseconds 9) (nanoseconds 3) 2 fresh opening refl
      (tt, (tt, (tt, tt)))

-- Deactivate while the trip is being activated: the activation still installs its state, although the
-- trip is no longer active and its context is cancelled.
unowned_state :
    (has first_trip
        (run fresh (
          begins first_trip
          ∷ deactivates first_trip starting (ok tt) (ok 5)
          ∷ finishes first_trip 0 5 7
          ∷ [])).state
      ≡ true)
    × (has first_trip
          (run fresh (
            begins first_trip
            ∷ deactivates first_trip starting (ok tt) (ok 5)
            ∷ finishes first_trip 0 5 7
            ∷ [])).active
        ≡ false)
unfolding run lookup insert erase canonical_uuid string_discrete begin_activate finish_activate
    deactivate_trip deactivate
unowned_state = (refl, refl)

-- And a second Activate in between takes the place of the first one's wait, which nothing resolves.
stranded :
    has 0
      (close (
        run fresh (
          begins first_trip
          ∷ deactivates first_trip starting (ok tt) (ok 5)
          ∷ begins first_trip
          ∷ finishes first_trip 0 5 7
          ∷ []))).resolved
    ≡ false
unfolding run close lookup insert erase canonical_uuid string_discrete begin_activate
    finish_activate deactivate_trip deactivate
stranded = refl
