-- ===== src/Supervisor/Observations.antt =====
-- The numbers that ReserveObservation gives while a trip stays active, and its versions meanwhile.
use live_route.Base.{
  ℕ, ◌+◌, ◌^◌, String, Bool, true, false, Option, none, some, List, [], ◌∷◌, same, if◌then◌else◌,
  arith, ◌≡◌, refl, sym, ◌≤◌, ◌<◌, length, same_iff, same_self, All,
}
use mathlib.Core.Path.{subst}
use live_route.Base.Dict.{lookup, string_key, lookup-insert, lookup-erase}
use live_route.Base.Result.{Result, ok, err}
use live_route.Supervisor.{
  RuntimeSupervisor, RuntimeVersions, begin_activate, fail_activate, finish_activate, deactivate,
  drop_active, deactivate_trip, after_release, released,
}
use live_route.Supervisor.Commits.{
  or_zero, following, reserve_observation, reserve_next, raise_observation, raise_mutation,
  commit_versions, commit_observation, commit_mutation,
}
use live_route.Supervisor.Steps.{
  Step, begins, fails, finishes, loses, deactivates, reserves, observes, mutates, closes, step, run,
}
use live_route.Supervisor.Versions.{commit_versions-lookup, for_epoch, map_some}

-- A step that may end or renew the activation of the trip.
abbrev pub ends : String → Step → Bool
ends t (finishes t' wait epoch accepted) = same t' t
ends t (loses t') = same t' t
ends t (deactivates t' found release current) = same t' t
ends t closes = true
ends t _ = false

-- The same epoch, and no version below that of `v`.
abbrev pub Grows : RuntimeVersions → Option RuntimeVersions → Type 0
Grows v none = ⊥
Grows v (some w) =
    (w.runtime_epoch ≡ v.runtime_epoch)
    × (v.planner_state_version ≤ w.planner_state_version)
    × (v.accepted_mutation_sequence ≤ w.accepted_mutation_sequence)
    × (v.accepted_observation_sequence ≤ w.accepted_observation_sequence)

abbrev versions_of : String → RuntimeSupervisor → Option RuntimeVersions
versions_of t s = lookup t s.state

abbrev next_of : String → RuntimeSupervisor → ℕ
next_of t s = or_zero (lookup t s.next_observation)

-- The number stays or is the following one.
abbrev Counts : ℕ → ℕ → Type 0
Counts m n = (m ≤ n) × (n ≤ m + 1)

abbrev Keeps : String → RuntimeSupervisor → RuntimeSupervisor → Type 0
Keeps t s s' = (versions_of t s' ≡ versions_of t s) × (next_of t s' ≡ next_of t s)

module _ (t : String) where
  finish_activate-Keeps :
      (s : RuntimeSupervisor) (t' : String) (wait epoch accepted : ℕ)
      → same t' t ≡ false
      → Keeps t s (finish_activate s t' wait epoch accepted).0
  unfolding finish_activate
  finish_activate-Keeps s t' wait epoch accepted e = ground (
    arith,
    e,
    lookup-insert t' t
        (record {
          runtime_epoch = epoch;
          planner_state_version = 0;
          accepted_mutation_sequence = accepted;
          accepted_observation_sequence = 0;
        })
        s.state,
    lookup-insert t' t 0 s.next_observation,
  )

  drop_active-Keeps :
      (s : RuntimeSupervisor) (t' : String) (c : Option ℕ)
      → same t' t ≡ false
      → Keeps t s (drop_active s t' c)
  drop_active-Keeps s t' none e = (refl, refl)
  drop_active-Keeps s t' (some c) e =
      ground (arith, e, lookup-erase t' t s.state, lookup-erase t' t s.next_observation)

  deactivate-Keeps :
      (s : RuntimeSupervisor) (t' : String) → same t' t ≡ false → Keeps t s (deactivate s t')
  unfolding deactivate
  deactivate-Keeps s t' e = drop_active-Keeps s t' (lookup t' s.active) e

  after_release-Keeps :
      (s : RuntimeSupervisor) (t' : String) (r : Result (Unit {0}))
      → same t' t ≡ false
      → Keeps t s (after_release s t' r).0
  after_release-Keeps s t' (ok _) e = deactivate-Keeps s t' e
  after_release-Keeps s t' (err x) e = (refl, refl)

  begin_activate-Keeps : (s : RuntimeSupervisor) (t' : String) → Keeps t s (begin_activate s t').0
  unfolding begin_activate
  begin_activate-Keeps s t' = ground arith

  -- What a step that does not end the activation does to the versions and the number.
  StepKeeps : RuntimeSupervisor → Step → Type 0
  StepKeeps s st =
      ((v : RuntimeVersions) → Grows v (versions_of t s) → Grows v (versions_of t (step s st)))
      × (next_of t s + 1 < 2 ^ 64 → Counts (next_of t s) (next_of t (step s st)))

  -- A commit raises the versions, and a reservation the number.
  commit_versions-next :
      (f : RuntimeVersions → RuntimeVersions) (s : RuntimeSupervisor) (t' : String) (epoch : ℕ)
      (o : Option RuntimeVersions)
      → (commit_versions f s t' epoch o).0.next_observation ≡ s.next_observation
  commit_versions-next f s t' epoch none = refl
  commit_versions-next f s t' epoch (some v) = ground arith

  reserve_next-Counts :
      (s : RuntimeSupervisor) (t' : String) (o : Option RuntimeVersions)
      → next_of t s + 1 < 2 ^ 64
      → Counts (next_of t s) (next_of t (reserve_next s t' o).0)
  reserve_next-Counts s t' none h = omega arith
  reserve_next-Counts s t' (some v) h =
      ground
        (arith, same_iff t' t, h, lookup-insert t' t (following (next_of t' s)) s.next_observation)

  reserve_next-state :
      (s : RuntimeSupervisor) (t' : String) (o : Option RuntimeVersions)
      → (reserve_next s t' o).0.state ≡ s.state
  reserve_next-state s t' none = refl
  reserve_next-state s t' (some v) = refl

  Grows-map_some :
      (f : RuntimeVersions → RuntimeVersions) (v : RuntimeVersions) (o : Option RuntimeVersions)
      → ((w : RuntimeVersions) → Grows w (some (f w)))
      → Grows v o
      → Grows v (map_some f o)
  Grows-map_some f v none g h = h
  Grows-map_some f v (some w) g h = ground (arith, g w, h)

  Grows-raise_observation :
      (t' : String) (epoch o a p : ℕ) (w : RuntimeVersions)
      → Grows w (some (if same t' t then for_epoch (raise_observation o a p) epoch w else w))
  Grows-raise_observation t' epoch o a p w = ground arith

  Grows-raise_mutation :
      (t' : String) (epoch a p : ℕ) (w : RuntimeVersions)
      → Grows w (some (if same t' t then for_epoch (raise_mutation a p) epoch w else w))
  Grows-raise_mutation t' epoch a p w = ground arith

  Keeps-step :
      (s s' : RuntimeSupervisor)
      → Keeps t s s'
      → ((v : RuntimeVersions) → Grows v (versions_of t s) → Grows v (versions_of t s'))
        × (next_of t s + 1 < 2 ^ 64 → Counts (next_of t s) (next_of t s'))
  Keeps-step s s' k = (λ v g. subst (Grows v) (sym k.0) g, λ h. omega (arith, k.1))

  step-StepKeeps : (st : Step) (s : RuntimeSupervisor) → ends t st ≡ false → StepKeeps s st
  unfolding StepKeeps step commit_observation commit_mutation reserve_observation fail_activate
      deactivate_trip
  step-StepKeeps (begins t') s e = Keeps-step s (begin_activate s t').0 (begin_activate-Keeps s t')
  step-StepKeeps (fails t' wait x) s e = Keeps-step s (fail_activate s t' wait x) (ground arith)
  step-StepKeeps (finishes t' wait epoch a) s e =
      Keeps-step s (finish_activate s t' wait epoch a).0 (finish_activate-Keeps s t' wait epoch a e)
  step-StepKeeps (loses t') s e = Keeps-step s (deactivate s t') (deactivate-Keeps s t' e)
  step-StepKeeps (deactivates t' found r c) s e =
      Keeps-step s (deactivate_trip s t' found r c).0
        (ground (arith, after_release-Keeps s t' (released found r c) e))
  step-StepKeeps (reserves t') s e = (
    λ v g.
        subst (λ st. Grows v (lookup t st)) (sym (reserve_next-state s t' (lookup t' s.state))) g,
    reserve_next-Counts s t' (lookup t' s.state),
  )
  step-StepKeeps (observes t' epoch o a p) s e = (
    λ v g.
        subst (Grows v) (sym (commit_versions-lookup (raise_observation o a p) s t' epoch t))
          (Grows-map_some _ v (lookup t s.state) (Grows-raise_observation t' epoch o a p) g),
    λ h.
        ground
          (arith, commit_versions-next (raise_observation o a p) s t' epoch (lookup t' s.state)),
  )
  step-StepKeeps (mutates t' epoch a p) s e = (
    λ v g.
        subst (Grows v) (sym (commit_versions-lookup (raise_mutation a p) s t' epoch t))
          (Grows-map_some _ v (lookup t s.state) (Grows-raise_mutation t' epoch a p) g),
    λ h. ground (arith, commit_versions-next (raise_mutation a p) s t' epoch (lookup t' s.state)),
  )
  step-StepKeeps closes s e = absurd (ground (arith, e))

  run-Grows :
      (v : RuntimeVersions) (ss : List Step) (s : RuntimeSupervisor)
      → All (λ st. ends t st ≡ false) ss
      → next_of t s + length ss < 2 ^ 64
      → Grows v (versions_of t s)
      → Grows v (versions_of t (run s ss))
        × (next_of t s ≤ next_of t (run s ss))
        × (next_of t (run s ss) ≤ next_of t s + length ss)
  unfolding run StepKeeps
  run-Grows v [] s a h g = (g, omega arith, omega arith)
  run-Grows v (st ∷ ss) s a h g =
      let k = step-StepKeeps st s a.0 in
      let c = k.1 (omega (arith, h)) in
      let r = run-Grows v ss (step s st) a.1 (omega (arith, h, c)) (k.0 v g) in
      (r.0, omega (arith, c, r), omega (arith, c, r))

  reserve_next-first :
      (s : RuntimeSupervisor) (o : Option RuntimeVersions) (v : RuntimeVersions) (m : ℕ)
      → versions_of t s ≡ o
      → (reserve_next s t o).1 ≡ ok (v, m)
      → Grows v (versions_of t (reserve_next s t o).0) × (next_of t (reserve_next s t o).0 ≡ m)
  reserve_next-first s none v m e r = absurd (cc)
  reserve_next-first s (some w) v m e r = (
    subst (Grows v) (sym e) (ground (arith, r)),
    ground (arith, r, same_self t, lookup-insert t t (following (next_of t s)) s.next_observation),
  )

  reserve_next-second :
      (s : RuntimeSupervisor) (o : Option RuntimeVersions) (v : RuntimeVersions) (m : ℕ)
      → Grows v o
      → m ≤ next_of t s
      → next_of t s + 1 < 2 ^ 64
      → (w : RuntimeVersions) × (n : ℕ) × ((reserve_next s t o).1 ≡ ok (w, n))
        × (m < n)
        × Grows v (some w)
  reserve_next-second s (some w) v m g l h =
      (w, following (next_of t s), refl, omega (arith, l, h), g)
  reserve_next-second s none v m g l h = absurd g

-- When a number was reserved for a trip, and nothing since may have ended or renewed the activation of
-- the trip, the next reservation succeeds: its number is greater, as long as the uint64 does not wrap,
-- and the versions that come with it have the same epoch and are not lower.
pub reserve-run-reserve :
    (t : String) (s : RuntimeSupervisor) (v : RuntimeVersions) (m : ℕ) (ss : List Step)
    → (reserve_observation s t).1 ≡ ok (v, m)
    → All (λ st. ends t st ≡ false) ss
    → m + length ss + 1 < 2 ^ 64
    → (w : RuntimeVersions) × (n : ℕ) × ((reserve_observation
          (run (reserve_observation s t).0 ss)
          t).1
        ≡ ok (w, n))
      × (m < n)
      × Grows v (some w)
unfolding reserve_observation
reserve-run-reserve t s v m ss r a h =
    let s' = (reserve_next s t (lookup t s.state)).0 in
    let first = reserve_next-first t s (lookup t s.state) v m refl r in
    let after = run-Grows t v ss s' a (omega (arith, h, first.1)) first.0 in
    reserve_next-second t (run s' ss) (lookup t (run s' ss).state) v m after.0
      (omega (arith, first.1, after)) (omega (arith, h, first.1, after))
