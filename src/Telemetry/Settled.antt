-- ===== src/Telemetry/Settled.antt =====
-- What Dispatch leaves of the supervisor, with its answer.
use live_route.Base.{
  ◌∙◌, ℕ, String, true, false, not, Option, none, some, ◌==◌, same, arith, ◌≡◌, refl, ◌≤◌, same_iff,
  same_self, ==_iff, both_branches,
}
use live_route.Base.Dict.{lookup, insert, string_key, lookup-insert}
use live_route.Base.Result.{Result, ok, err}
use live_route.Supervisor.{RuntimeSupervisor, RuntimeVersions}
use live_route.Supervisor.Commits.{
  reserve_observation, commit_observation, commit_versions, raise_observation,
}
use live_route.Supervisor.Steps.{run}
use live_route.Supervisor.Observations.{Grows}
use live_route.Wire.{
  ApplyTripEvent, PlannerStreamRequest, EventAcknowledged, PlannerStreamResponse,
  get_event_acknowledged,
}
use live_route.Telemetry.{
  Surroundings, Dispatched, apply_request, correlates, committed, acknowledge, answered, request_of,
  reserved, dispatch,
}

-- The versions cover those of the response.
abbrev pub CoversAck : RuntimeVersions → PlannerStreamResponse → Option EventAcknowledged → Type 0
CoversAck w r none = ⊥
CoversAck w r (some a) =
    (a.resolved_observation_sequence ≤ w.accepted_observation_sequence)
    × (r.accepted_mutation_sequence ≤ w.accepted_mutation_sequence)
    × (r.planner_state_version ≤ w.planner_state_version)

-- A response to a request for the trip and the epoch, committed between two supervisors.
pub record IsCommitted (t : String) (epoch : ℕ) (before after : RuntimeSupervisor)
    (r : PlannerStreamResponse) : Type 0 where
  pub old : RuntimeVersions
  pub new : RuntimeVersions
  pub found : lookup t before.state ≡ some old
  pub written : lookup t after.state ≡ some new
  pub same_epoch : (old.runtime_epoch ≡ epoch) × (r.runtime_epoch ≡ epoch) × (r.trip_id ≡ t)
  pub grows : Grows old (some new)
  pub covers : CoversAck new r (get_event_acknowledged r)
  pub others : (t' : String) → same t t' ≡ false → lookup t' after.state ≡ lookup t' before.state

abbrev pub IsSettled : String → ℕ → ℕ → RuntimeSupervisor → Dispatched → Type 0
IsSettled t epoch next before (after, n, ok r) = (n ≡ next) × IsCommitted t epoch before after r
IsSettled t epoch next before (after, n, err e) = (n ≡ next) × (after ≡ before)

module _ (q : PlannerStreamRequest) (before : RuntimeSupervisor) (r : PlannerStreamResponse) where
  correlates-eq :
      (a : EventAcknowledged)
      → correlates q r a ≡ true
      → (r.trip_id ≡ q.trip_id) × (r.runtime_epoch ≡ q.runtime_epoch)
  unfolding correlates
  correlates-eq a c =
      ground (arith, c, same_iff r.trip_id q.trip_id, ==_iff r.runtime_epoch q.runtime_epoch)

  abbrev raised_by : EventAcknowledged → RuntimeVersions → RuntimeVersions
  raised_by a =
      raise_observation a.resolved_observation_sequence r.accepted_mutation_sequence
        r.planner_state_version

  CoversAck-raised_by :
      (a : EventAcknowledged) (v : RuntimeVersions)
      → CoversAck (raised_by a v) r (some a) × Grows v (some (raised_by a v))
  CoversAck-raised_by a v = ground arith

  write-IsCommitted :
      (a : EventAcknowledged) (v : RuntimeVersions)
      → correlates q r a ≡ true
      → (get_event_acknowledged r) ≡ some a
      → lookup q.trip_id before.state ≡ some v
      → v.runtime_epoch ≡ r.runtime_epoch
      → IsCommitted q.trip_id q.runtime_epoch before
          (record before { state = insert q.trip_id (raised_by a v) before.state })
          r
  write-IsCommitted a v c e l p =
      let k = correlates-eq a c in
      let g = CoversAck-raised_by a v in
      record {
        old = v;
        new = raised_by a v;
        found = l;
        written =
            rw (lookup-insert q.trip_id q.trip_id (raised_by a v) before.state)
              (rw (same_self q.trip_id) refl);
        same_epoch = (p ∙ k.1, k.1, k.0);
        grows = g.1;
        covers = rw e g.0;
        others = λ t' h. rw (lookup-insert q.trip_id t' (raised_by a v) before.state) (rw h refl);
      }

  -- A correlated acknowledgement is committed, or refused for its epoch or a missing runtime.
  commit-IsSettled :
      (a : EventAcknowledged) (o : Option RuntimeVersions)
      → correlates q r a ≡ true
      → (get_event_acknowledged r) ≡ some a
      → lookup q.trip_id before.state ≡ o
      → IsSettled q.trip_id q.runtime_epoch q.observation_sequence before (
          committed q.observation_sequence r
            (commit_versions (raised_by a) before q.trip_id r.runtime_epoch o))
  commit-IsSettled a none c e l = (refl, refl)
  commit-IsSettled a (some v) c e l =
      both_branches
        (λ z.
          IsSettled q.trip_id q.runtime_epoch q.observation_sequence before
            (committed q.observation_sequence r z))
        (not (v.runtime_epoch == r.runtime_epoch)) (λ p. (refl, refl))
        (λ p. (
          refl,
          write-IsCommitted a v c e l
              ((==_iff v.runtime_epoch r.runtime_epoch).0 (ground (arith, p))),
        ))

  acknowledge-IsSettled :
      (o : Option EventAcknowledged)
      → (get_event_acknowledged r) ≡ o
      → IsSettled q.trip_id q.runtime_epoch q.observation_sequence before (acknowledge before q r o)
  unfolding commit_observation
  acknowledge-IsSettled none e = (refl, refl)
  acknowledge-IsSettled (some a) e =
      both_branches (IsSettled q.trip_id q.runtime_epoch q.observation_sequence before)
        (not (correlates q r a)) (λ c. (refl, refl))
        (λ c. commit-IsSettled a (lookup q.trip_id before.state) (ground (arith, c)) e refl)

answered-IsSettled :
    (q : PlannerStreamRequest) (before : RuntimeSupervisor) (a : Result PlannerStreamResponse)
    → IsSettled q.trip_id q.runtime_epoch q.observation_sequence before (answered before q a)
answered-IsSettled q before (err e) = (refl, refl)
answered-IsSettled q before (ok r) =
    acknowledge-IsSettled q before r (get_event_acknowledged r) refl

request_of-IsSettled :
    (x : Surroundings) (s : RuntimeSupervisor) (t : String) (event : ApplyTripEvent)
    (v : RuntimeVersions) (next : ℕ) (id : String) (n : Result String)
    → n ≡ ok id
    → IsSettled t v.runtime_epoch next (run s x.meanwhile) (request_of x s t event v next n)
request_of-IsSettled x s t event v next id (err e) h = absurd (ground arith)
request_of-IsSettled x s t event v next id (ok id') h =
    let q = apply_request x t event id' v next in
    answered-IsSettled q (run s x.meanwhile) (x.exchange q)

reserved-IsSettled :
    (x : Surroundings) (s : RuntimeSupervisor) (t : String) (event : ApplyTripEvent)
    (v : RuntimeVersions) (next : ℕ) (id : String)
    (g : RuntimeSupervisor × Result (RuntimeVersions × ℕ))
    → g ≡ (s, ok (v, next))
    → x.new_request_id ≡ ok id
    → IsSettled t v.runtime_epoch next (run s x.meanwhile) (reserved x t event g)
reserved-IsSettled x s t event v next id g e h =
    rw e (request_of-IsSettled x s t event v next id x.new_request_id h)

-- When a number was reserved and a request id made, Dispatch gives that number, whatever other calls do
-- while the planner computes. Without an error the response is for the trip and the epoch of the
-- reservation, the trip still has that epoch, its versions rise to cover the response, and no other
-- trip's change; with an error the supervisor is as the other calls left it.
pub dispatch-IsSettled :
    (x : Surroundings) (s s' : RuntimeSupervisor) (t : String) (event : ApplyTripEvent)
    (v : RuntimeVersions) (next : ℕ) (id : String)
    → reserve_observation s t ≡ (s', ok (v, next))
    → x.new_request_id ≡ ok id
    → IsSettled t v.runtime_epoch next (run s' x.meanwhile) (dispatch x s t (some event))
unfolding dispatch
dispatch-IsSettled x s s' t event v next id e h =
    reserved-IsSettled x s' t event v next id (reserve_observation s t) e h
