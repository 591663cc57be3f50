-- ===== src/Supervisor/Capacity.antt =====
-- The bound on the active trips of a supervisor.
use live_route.Base.{
  ℕ, String, Option, none, some, List, [], ◌∷◌, arith, ◌≡◌, ◌≤◌, length, Bool-cases, inl, inr,
}
use live_route.Base.Dict.{Dict, lookup, string_key, nat_key, length-insert, length-erase}
use live_route.Base.Result.{Error, Result, ok, err}
use live_route.Lease.{Duration}
use live_route.Supervisor.{
  RuntimeSupervisor, RuntimeVersions, Owned, new_runtime_supervisor, begin_activate, fail_activate,
  finish_activate, drop_trip, drop_active, deactivate, after_release, released, deactivate_trip,
}
use live_route.Supervisor.Commits.{
  reserve_observation, reserve_next, commit_versions, raise_observation, raise_mutation,
  commit_observation, commit_mutation,
}
use live_route.Supervisor.Steps.{
  close_active, close_activating, close_wait, mark_closed, close, Step, begins, fails, finishes,
  loses, deactivates, reserves, observes, mutates, closes, step, run,
}

abbrev pub IsWithin : ℕ → RuntimeSupervisor → Type 0
IsWithin m s = (s.max_active_trips ≡ m) × (length s.active ≤ m)

module _ (m : ℕ) where
  begin_activate-IsWithin :
      (s : RuntimeSupervisor) (t : String) → IsWithin m s → IsWithin m (begin_activate s t).0
  unfolding begin_activate
  begin_activate-IsWithin s t w = ground (arith, w, length-insert t s.calls s.active)

  fail_activate-IsWithin :
      (s : RuntimeSupervisor) (t : String) (wait : ℕ) (e : Error)
      → IsWithin m s
      → IsWithin m (fail_activate s t wait e)
  unfolding fail_activate
  fail_activate-IsWithin s t wait e w = ground (arith, w, length-erase t s.active)

  finish_activate-IsWithin :
      (s : RuntimeSupervisor) (t : String) (wait epoch accepted : ℕ)
      → IsWithin m s
      → IsWithin m (finish_activate s t wait epoch accepted).0
  unfolding finish_activate
  finish_activate-IsWithin s t wait epoch accepted w = ground (arith, w, length-erase t s.active)

  drop_active-IsWithin :
      (s : RuntimeSupervisor) (t : String) (context : Option ℕ)
      → IsWithin m s
      → IsWithin m (drop_active s t context)
  drop_active-IsWithin s t none w = w
  drop_active-IsWithin s t (some c) w = omega (arith, w, length-erase t s.active)

  deactivate-IsWithin :
      (s : RuntimeSupervisor) (t : String) → IsWithin m s → IsWithin m (deactivate s t)
  unfolding deactivate
  deactivate-IsWithin s t = drop_active-IsWithin s t (lookup t s.active)

  after_release-IsWithin :
      (s : RuntimeSupervisor) (t : String) (r : Result (Unit {0}))
      → IsWithin m s
      → IsWithin m (after_release s t r).0
  after_release-IsWithin s t (ok _) w = deactivate-IsWithin s t w
  after_release-IsWithin s t (err e) w = w

  deactivate_trip-IsWithin :
      (s : RuntimeSupervisor) (t : String) (o : Owned) (r : Result (Unit {0})) (c : Result ℕ)
      → IsWithin m s
      → IsWithin m (deactivate_trip s t o r c).0
  unfolding deactivate_trip
  deactivate_trip-IsWithin s t o r c w =
      ground (arith, w, after_release-IsWithin s t (released o r c) w)

  reserve_next-IsWithin :
      (s : RuntimeSupervisor) (t : String) (v : Option RuntimeVersions)
      → IsWithin m s
      → IsWithin m (reserve_next s t v).0
  reserve_next-IsWithin s t none w = w
  reserve_next-IsWithin s t (some v) w = w

  commit_versions-IsWithin :
      (f : RuntimeVersions → RuntimeVersions) (s : RuntimeSupervisor) (t : String) (epoch : ℕ)
      (v : Option RuntimeVersions)
      → IsWithin m s
      → IsWithin m (commit_versions f s t epoch v).0
  commit_versions-IsWithin f s t epoch none w = w
  commit_versions-IsWithin f s t epoch (some v) w = ground (arith, w)

  close_active-IsWithin :
      (d : Dict String ℕ) (s : RuntimeSupervisor) → IsWithin m s → IsWithin m (close_active d s)
  unfolding close_active
  close_active-IsWithin [] s w = w
  close_active-IsWithin ((t, c) ∷ d) s w =
      close_active-IsWithin d (drop_trip s t c) (drop_active-IsWithin s t (some c) w)

  close_activating-IsWithin :
      (d : Dict String ℕ) (s : RuntimeSupervisor) → IsWithin m s → IsWithin m (close_activating d s)
  unfolding close_activating
  close_activating-IsWithin [] s w = w
  close_activating-IsWithin ((t, c) ∷ d) s w = close_activating-IsWithin d (close_wait s t c) w

  close-IsWithin : (s : RuntimeSupervisor) → IsWithin m s → IsWithin m (close s)
  unfolding close
  close-IsWithin s w = elim (Bool-cases s.closed) [
    | inl e ↦ rw e w
    | inr e ↦ rw e (
        close_activating-IsWithin s.activating (close_active s.active (mark_closed s))
          (close_active-IsWithin s.active (mark_closed s) w))
  ]

  step-IsWithin : (st : Step) (s : RuntimeSupervisor) → IsWithin m s → IsWithin m (step s st)
  unfolding step reserve_observation commit_observation commit_mutation
  step-IsWithin (begins t) s w = begin_activate-IsWithin s t w
  step-IsWithin (fails t wait e) s w = fail_activate-IsWithin s t wait e w
  step-IsWithin (finishes t wait epoch a) s w = finish_activate-IsWithin s t wait epoch a w
  step-IsWithin (loses t) s w = deactivate-IsWithin s t w
  step-IsWithin (deactivates t o r c) s w = deactivate_trip-IsWithin s t o r c w
  step-IsWithin (reserves t) s w = reserve_next-IsWithin s t (lookup t s.state) w
  step-IsWithin (observes t epoch o a p) s w =
      commit_versions-IsWithin (raise_observation o a p) s t epoch (lookup t s.state) w
  step-IsWithin (mutates t epoch a p) s w =
      commit_versions-IsWithin (raise_mutation a p) s t epoch (lookup t s.state) w
  step-IsWithin closes s w = close-IsWithin s w

  run-IsWithin : (ss : List Step) (s : RuntimeSupervisor) → IsWithin m s → IsWithin m (run s ss)
  unfolding run
  run-IsWithin [] s w = w
  run-IsWithin (st ∷ ss) s w = run-IsWithin ss (step s st) (step-IsWithin st s w)

-- After any history of a new supervisor, in which activations, deactivations, lost leases and Close
-- may stand between the parts of one another, at most the given number of trips is active.
pub run-new_runtime_supervisor-le :
    (holder_id : String) (lease margin : Duration) (m : ℕ) (s : RuntimeSupervisor) (ss : List Step)
    → new_runtime_supervisor holder_id lease margin m ≡ some s
    → length (run s ss).active ≤ m
unfolding new_runtime_supervisor
run-new_runtime_supervisor-le holder_id lease margin m s ss h =
    (run-IsWithin m ss s (ground (arith, h))).1
