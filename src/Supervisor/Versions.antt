-- ===== src/Supervisor/Versions.antt =====
-- The commits of observations and mutations in whatever order they arrive.
use live_route.Base.{
  ℕ, String, Option, none, some, List, [], ◌∷◌, same, ◌==◌, if◌then◌else◌, arith, ◌≡◌, refl, sym,
  ap, ◌∙◌, same_iff, inl, inr, Option-cases,
}
use mathlib.Core.List.Perm
use mathlib.Core.List.{Perm, foldr}
use mathlib.Core.Path.{fun_ext}
use mathlib.Core.HLevel.{hedberg}
use native.Mathlib.Decide.{ℕ_discrete}
use live_route.Base.Dict.{lookup, string_key, lookup-insert}
use live_route.Supervisor.{RuntimeSupervisor, RuntimeVersions}
use live_route.Supervisor.Commits.{
  raise_observation, raise_mutation, commit_versions, commit_observation, commit_mutation,
}
use live_route.Supervisor.Steps.{Step, observes, mutates, step, run}

-- A call of CommitObservation or CommitMutation.
pub data Commit : Type 0 where
  observation : String → ℕ → ℕ → ℕ → ℕ → Commit
  mutation : String → ℕ → ℕ → ℕ → Commit

abbrev pub as_step : Commit → Step
as_step (observation t epoch o a p) = observes t epoch o a p
as_step (mutation t epoch a p) = mutates t epoch a p

abbrev pub as_steps : List Commit → List Step
as_steps [] = []
as_steps (c ∷ cs) = as_step c ∷ as_steps cs

abbrev pub for_epoch : (RuntimeVersions → RuntimeVersions) → ℕ → RuntimeVersions → RuntimeVersions
for_epoch f epoch v = if v.runtime_epoch == epoch then f v else v

-- What a commit does to the versions of one trip.
abbrev raised : Commit → RuntimeVersions → RuntimeVersions
raised (observation t epoch o a p) v = for_epoch (raise_observation o a p) epoch v
raised (mutation t epoch a p) v = for_epoch (raise_mutation a p) epoch v

abbrev trip_of : Commit → String
trip_of (observation t epoch o a p) = t
trip_of (mutation t epoch a p) = t

abbrev touch : String → Commit → RuntimeVersions → RuntimeVersions
touch t c v = if same (trip_of c) t then raised c v else v

abbrev raise_all : String → List Commit → RuntimeVersions → RuntimeVersions
raise_all t [] v = v
raise_all t (c ∷ cs) v = raise_all t cs (touch t c v)

abbrev pub map_some :
    (RuntimeVersions → RuntimeVersions) → Option RuntimeVersions → Option RuntimeVersions
map_some f none = none
map_some f (some v) = some (f v)

pub commit_versions-lookup :
    (f : RuntimeVersions → RuntimeVersions) (s : RuntimeSupervisor) (t' : String) (epoch : ℕ)
    (t : String)
    → lookup t (commit_versions f s t' epoch (lookup t' s.state)).0.state
      ≡ map_some (λ v. if same t' t then for_epoch f epoch v else v) (lookup t s.state)
commit_versions-lookup f s t' epoch t = elim (Option-cases (lookup t' s.state)) [
  | inl e ↦ rw e (ground (arith, e, same_iff t' t))
  | inr (v, e) ↦ rw e (ground (arith, e, same_iff t' t, lookup-insert t' t (f v) s.state))
]

step-raised :
    (c : Commit) (s : RuntimeSupervisor) (t : String)
    → lookup t (step s (as_step c)).state ≡ map_some (touch t c) (lookup t s.state)
unfolding step commit_observation commit_mutation
step-raised (observation t' epoch o a p) s t =
    commit_versions-lookup (raise_observation o a p) s t' epoch t
step-raised (mutation t' epoch a p) s t = commit_versions-lookup (raise_mutation a p) s t' epoch t

raised_comm : (c d : Commit) (v : RuntimeVersions) → raised c (raised d v) ≡ raised d (raised c v)
raised_comm (observation t epoch o a p) (observation t' epoch' o' a' p') v = ground arith
raised_comm (observation t epoch o a p) (mutation t' epoch' a' p') v = ground arith
raised_comm (mutation t epoch a p) (observation t' epoch' o' a' p') v = ground arith
raised_comm (mutation t epoch a p) (mutation t' epoch' a' p') v = ground arith

touch_comm :
    (t : String) (c d : Commit) (v : RuntimeVersions)
    → touch t c (touch t d v) ≡ touch t d (touch t c v)
touch_comm t c d v = ground (arith, raised_comm c d v)

run-raise_all :
    (t : String) (cs : List Commit) (s : RuntimeSupervisor)
    → lookup t (run s (as_steps cs)).state ≡ map_some (raise_all t cs) (lookup t s.state)
unfolding run
run-raise_all t [] s = ground arith
run-raise_all t (c ∷ cs) s =
    run-raise_all t cs (step s (as_step c))
    ∙ ap (map_some (raise_all t cs)) (step-raised c s t)
    ∙ map_some-raise_all (lookup t s.state)
  where
    map_some-raise_all :
        (o : Option RuntimeVersions)
        → map_some (raise_all t cs) (map_some (touch t c) o) ≡ map_some (raise_all t (c ∷ cs)) o
    map_some-raise_all none = refl
    map_some-raise_all (some v) = refl

touch-foldr :
    (t : String) (c : Commit) (cs : List Commit) (v : RuntimeVersions)
    → foldr (touch t) (touch t c v) cs ≡ touch t c (foldr (touch t) v cs)
touch-foldr t c [] v = refl
touch-foldr t c (d ∷ cs) v =
    ap (touch t d) (touch-foldr t c cs v) ∙ touch_comm t d c (foldr (touch t) v cs)

raise_all-foldr :
    (t : String) (cs : List Commit) (v : RuntimeVersions) → raise_all t cs v ≡ foldr (touch t) v cs
raise_all-foldr t [] v = refl
raise_all-foldr t (c ∷ cs) v = raise_all-foldr t cs (touch t c v) ∙ touch-foldr t c cs v

RuntimeVersions-discrete : Discrete RuntimeVersions
RuntimeVersions-discrete = hlevel ℕ_discrete

-- Commits of observations and mutations, of any trips and epochs, may arrive in any order: after any
-- permutation of them every trip has the same versions.
pub run-perm :
    (s : RuntimeSupervisor) (cs ds : List Commit) (t : String)
    → Perm cs ds
    → lookup t (run s (as_steps cs)).state ≡ lookup t (run s (as_steps ds)).state
run-perm s cs ds t p =
    let raised_alike : raise_all t cs ≡ raise_all t ds = fun_ext λ v.
      raise_all-foldr t cs v
      ∙ Perm.foldr-eq (hedberg RuntimeVersions-discrete) (touch t) (touch_comm t) p v
      ∙ sym (raise_all-foldr t ds v) in
    run-raise_all t cs s
    ∙ ap (λ f. map_some f (lookup t s.state)) raised_alike
    ∙ sym (run-raise_all t ds s)
